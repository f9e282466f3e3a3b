-- ===== src/Mux/Valid.antt =====
-- The invariant of a `MuxPeer` of rdpflux/mux.py, and the rule for a change to one stream.
pub mod Streams
pub mod Closing
pub mod Traffic
pub mod Writing
pub mod Peers
pub mod Requests
pub mod Dispatch
pub mod Shutdown
pub mod Ended
use rdpflux.Prelude.{
  ◌++◌, ◌≢◌, subst, inl, inr, none, ==_iff, Bool-cases, Option-cases, length-append, ℕ, ◌+◌, ◌-◌,
  ◌%◌, ◌≤◌, ◌<◌, ◌≡◌, refl, Bool, true, false, ◌||◌, some, List, [], ◌∷◌, arith, ltb, leb, ◌==◌,
  if◌then◌else◌, length,
}
use rdpflux.Prelude.Dict.{
  Dict, lookup, contains, insert, Distinct, insert-Distinct, lookup-insert, sum_by, sum_by-insert,
  sum_by-insert_new, Entries, Entries-insert, Entries-lookup,
}
use rdpflux.Mux.State.{
  Peer, Stream, Role, new_stream, initial_window, chunk_size, max_buffered_data, has_id, remove_id,
}
use rdpflux.Mux.Peers.{local_parity}

-- The fields of a peer that the invariant is about.
pub record Core : Type 0 where
  pub role : Role
  pub max_streams : ℕ
  pub objects : Dict Stream
  pub streams : List ℕ
  pub next_stream_id : ℕ
  pub highest_peer_id : ℕ
  pub incoming_buffered : ℕ
  pub outgoing_buffered : ℕ

abbrev pub core : Peer → Core
core p = record {
  role = p.role;
  max_streams = p.max_streams;
  objects = p.objects;
  streams = p.streams;
  next_stream_id = p.next_stream_id;
  highest_peer_id = p.highest_peer_id;
  incoming_buffered = p.incoming_buffered;
  outgoing_buffered = p.outgoing_buffered;
}

abbrev pub unread : Stream → ℕ
unread s = length s.read_buffer

abbrev pub reserved : Stream → ℕ
reserved s = s.outgoing_reserved

-- The receive window is accounted for: what is unread and what the other side may still send. What
-- this side may still send, what it has sent without an answer and what a writer holds may pass the
-- send window, by a chunk at most: a send that fails gives its credit back even if the other side
-- has done so already.
-- A closed stream holds no reservation.
pub record StreamOk (s : Stream) : Type 0 where
  pub receive_window : s.receive_credit + length s.read_buffer ≡ initial_window
  pub send_window :
      s.send_credit + s.outgoing_reserved + (if s.closed || s.sending then 0 else s.taken)
      ≤ initial_window + chunk_size
  pub returned : s.send_credit + (if s.closed then 0 else s.taken) ≤ initial_window + chunk_size
  pub taken_max : s.taken ≤ chunk_size
  pub closed_reserves : s.closed ≡ true → s.outgoing_reserved ≡ 0

-- An id that was given out by this side, or accepted from the other.
abbrev pub is_used : Core → ℕ → Bool
is_used c id =
    if id % 2 == local_parity c.role then ltb id c.next_stream_id else leb id c.highest_peer_id

-- A stream that is no longer in the dict has closed.
abbrev pub Kept : List ℕ → ℕ → Stream → Type 0
Kept ids k s = (has_id k ids || s.closed) ≡ true

abbrev pub Numbered : Core → ℕ → Stream → Type 0
Numbered c k s = is_used c k ≡ true

abbrev pub ObjectOk : ℕ → Stream → Type 0
ObjectOk k s = StreamOk s

pub record Valid (c : Core) : Type 0 where
  pub incoming : c.incoming_buffered ≡ sum_by unread c.objects
  pub outgoing : c.outgoing_buffered ≡ sum_by reserved c.objects
  pub incoming_max : c.incoming_buffered ≤ max_buffered_data
  pub outgoing_max : c.outgoing_buffered ≤ max_buffered_data
  pub limit : length c.streams ≤ c.max_streams
  pub next_parity : c.next_stream_id % 2 ≡ local_parity c.role
  pub next_positive : 0 < c.next_stream_id
  pub streams_ok : Entries ObjectOk c.objects
  pub ids : Entries (Numbered c) c.objects
  pub distinct : Distinct c.objects
  pub registered : (k : ℕ) → has_id k c.streams ≡ true → contains k c.objects ≡ true
  pub open_kept : (k : ℕ) (s : Stream) → lookup k c.objects ≡ some s → Kept c.streams k s

abbrev pub IsValid : Peer → Type 0
IsValid p = Valid (core p)

StreamOk-new_stream : StreamOk new_stream
StreamOk-new_stream = record {
  receive_window = refl;
  send_window = omega arith;
  returned = omega arith;
  taken_max = omega arith;
  closed_reserves = λ _. refl;
}

Entries-insert_self :
    (P : ℕ → Stream → Type 0) (k : ℕ) (s t : Stream) (d : Dict Stream)
    → lookup k d ≡ some s
    → Entries P d
    → (P k s → P k t)
    → Entries P (insert k t d)
Entries-insert_self P k s t d e h f = Entries-insert P k t d (f (Entries-lookup P k s d h e)) h

-- One stream changes, and the counters with it.
pub Valid-update :
    (c : Core) (i : ℕ) (s t : Stream) (inc out : ℕ)
    → Valid c
    → lookup i c.objects ≡ some s
    → StreamOk t
    → (s.closed ≡ true → t.closed ≡ true)
    → inc + unread s ≡ c.incoming_buffered + unread t
    → out + reserved s ≡ c.outgoing_buffered + reserved t
    → inc ≤ max_buffered_data
    → out ≤ max_buffered_data
    → Valid (record c {
      objects = insert i t c.objects;
      incoming_buffered = inc;
      outgoing_buffered = out;
    })
Valid-update c i s t inc out v e good closing ei eo hi ho = record {
  incoming = omega (arith, v.incoming, sum_by-insert {0} unread i t s c.objects e);
  outgoing = omega (arith, v.outgoing, sum_by-insert {0} reserved i t s c.objects e);
  incoming_max = hi;
  outgoing_max = ho;
  limit = v.limit;
  next_parity = v.next_parity;
  next_positive = v.next_positive;
  streams_ok = Entries-insert ObjectOk i t c.objects good v.streams_ok;
  ids = Entries-insert_self (Numbered c) i s t c.objects e v.ids (λ h. h);
  distinct = insert-Distinct i t c.objects v.distinct;
  registered = λ k h. ground (arith, lookup-insert k i t c.objects, v.registered k);
  open_kept = λ k u h.
      ground (arith, lookup-insert k i t c.objects, v.open_kept k u, v.open_kept i s, closing);
}

has_id-remove_id_ne : (k i : ℕ) (ids : List ℕ) → k ≢ i → has_id k (remove_id i ids) ≡ has_id k ids
unfolding has_id remove_id
has_id-remove_id_ne k i [] h = refl
has_id-remove_id_ne k i (j ∷ js) h = ground (arith, has_id-remove_id_ne k i js h)

has_id-of_remove_id :
    (k i : ℕ) (ids : List ℕ) → has_id k (remove_id i ids) ≡ true → has_id k ids ≡ true
unfolding has_id remove_id
has_id-of_remove_id k i [] h = h
has_id-of_remove_id k i (j ∷ js) h = ground (arith, has_id-of_remove_id k i js)

length-remove_id : (i : ℕ) (ids : List ℕ) → length (remove_id i ids) ≤ length ids
unfolding remove_id
length-remove_id i [] = omega arith
length-remove_id i (j ∷ js) = ground (arith, length-remove_id i js)

-- A stream that has closed leaves the dict.
pub Valid-remove :
    (c : Core) (i : ℕ)
    → Valid c
    → ((s : Stream) → lookup i c.objects ≡ some s → s.closed ≡ true)
    → Valid (record c { streams = remove_id i c.streams })
Valid-remove c i v closed = record {
  incoming = v.incoming;
  outgoing = v.outgoing;
  incoming_max = v.incoming_max;
  outgoing_max = v.outgoing_max;
  limit = omega (arith, v.limit, length-remove_id i c.streams);
  next_parity = v.next_parity;
  next_positive = v.next_positive;
  streams_ok = v.streams_ok;
  ids = v.ids;
  distinct = v.distinct;
  registered = λ k h. v.registered k (has_id-of_remove_id k i c.streams h);
  open_kept = λ k u h. elim (Bool-cases (k == i)) [
    | inl same ↦
        let e : k ≡ i = (==_iff k i).0 same in
        ground (arith, closed u (subst (λ j. lookup j c.objects ≡ some u) e h))
    | inr other ↦ rw (has_id-remove_id_ne k i c.streams (ground arith)) (v.open_kept k u h)
  ];
}

Entries-weaken :
    (P Q : ℕ → Stream → Type 0) (d : Dict Stream)
    → ((k : ℕ) (s : Stream) → P k s → Q k s)
    → Entries P d
    → Entries Q d
Entries-weaken P Q [] f h = tt
Entries-weaken P Q ((k, s) ∷ d) f (h, rest) = (f k s h, Entries-weaken P Q d f rest)

pub Valid-unused : (c : Core) (id : ℕ) → Valid c → is_used c id ≡ false → lookup id c.objects ≡ none
Valid-unused c id v fresh = elim (Option-cases (lookup id c.objects)) [
  | inl missing ↦ missing
  | inr (s, found) ↦ cc (Entries-lookup (Numbered c) id s c.objects v.ids found, fresh)
]

has_id-append : (k i : ℕ) (ids : List ℕ) → has_id k (ids ++ i ∷ []) ≡ (has_id k ids || (k == i))
unfolding has_id
has_id-append k i [] = ground arith
has_id-append k i (j ∷ js) = ground (arith, has_id-append k i js)

-- A stream is made under an id that has just come into use.
pub Valid-add :
    (c : Core) (id : ℕ)
    → Valid c
    → lookup id c.objects ≡ none
    → is_used c id ≡ true
    → length c.streams < c.max_streams
    → Valid (record c { objects = insert id new_stream c.objects; streams = c.streams ++ id ∷ [] })
Valid-add c id v fresh used room = record {
  incoming = omega (arith, v.incoming, sum_by-insert_new {0} unread id new_stream c.objects fresh);
  outgoing =
      omega (arith, v.outgoing, sum_by-insert_new {0} reserved id new_stream c.objects fresh);
  incoming_max = v.incoming_max;
  outgoing_max = v.outgoing_max;
  limit = omega (arith, length-append c.streams (id ∷ []));
  next_parity = v.next_parity;
  next_positive = v.next_positive;
  streams_ok = Entries-insert ObjectOk id new_stream c.objects StreamOk-new_stream v.streams_ok;
  ids = Entries-insert (Numbered c) id new_stream c.objects used v.ids;
  distinct = insert-Distinct id new_stream c.objects v.distinct;
  registered = λ k h. ground (
    arith,
    lookup-insert k id new_stream c.objects,
    v.registered k,
    has_id-append k id c.streams,
  );
  open_kept = λ k u h. ground (
    arith,
    lookup-insert k id new_stream c.objects,
    v.open_kept k u,
    has_id-append k id c.streams,
  );
}

-- More ids come into use.
pub Valid-next : (c : Core) → Valid c → Valid (record c { next_stream_id = c.next_stream_id + 2 })
Valid-next c v = record {
  incoming = v.incoming;
  outgoing = v.outgoing;
  incoming_max = v.incoming_max;
  outgoing_max = v.outgoing_max;
  limit = v.limit;
  next_parity = omega (arith, v.next_parity);
  next_positive = omega arith;
  streams_ok = v.streams_ok;
  ids =
      Entries-weaken (Numbered c) (Numbered (record c { next_stream_id = c.next_stream_id + 2 }))
        c.objects (λ k s h. ground arith) v.ids;
  distinct = v.distinct;
  registered = v.registered;
  open_kept = v.open_kept;
}

pub Valid-highest :
    (c : Core) (id : ℕ)
    → Valid c
    → c.highest_peer_id < id
    → Valid (record c { highest_peer_id = id })
Valid-highest c id v more = record {
  incoming = v.incoming;
  outgoing = v.outgoing;
  incoming_max = v.incoming_max;
  outgoing_max = v.outgoing_max;
  limit = v.limit;
  next_parity = v.next_parity;
  next_positive = v.next_positive;
  streams_ok = v.streams_ok;
  ids =
      Entries-weaken (Numbered c) (Numbered (record c { highest_peer_id = id })) c.objects
        (λ k s h. ground arith) v.ids;
  distinct = v.distinct;
  registered = v.registered;
  open_kept = v.open_kept;
}
