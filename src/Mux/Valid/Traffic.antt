-- ===== src/Mux/Valid/Traffic.antt =====
-- Receiving, reading and crediting bytes keep the invariant.
use rdpflux.Prelude.{
  ℕ, ◌+◌, ◌-◌, ◌≤◌, ◌≡◌, refl, ◌∙◌, inl, inr, true, not, ◌||◌, ◌&&◌, none, some, Option, ◌++◌,
  arith, ltb, leb, ◌==◌, length, min, Bool-cases, Bytes, length-append, length-drop, drop, take,
}
use rdpflux.Prelude.Dict.{lookup, insert, lookup-insert_self, insert-insert}
use rdpflux.Prelude.Int.{ℤ, pos, negsuc}
use rdpflux.Prelude.Result.{ok}
use rdpflux.Json.{JsonCodec, encode_control}
use rdpflux.Protocol.Kinds.{window_update}
use rdpflux.Mux.State.{Peer, Stream, initial_window, max_buffered_data, remove_id}
use rdpflux.Mux.Monad.{M, pure, when, lift, ◌>>=◌, ◌>>◌, put_stream}
use rdpflux.Mux.Keeps.{Keeps, keeps_rules, Keeps-get_stream, Keeps-bind, Keeps-ensure, Keeps-pure}
use rdpflux.Mux.Streams.{
  send, frame, reserve_incoming, release_incoming, remove_stream, read_count, read_stream,
  credit_fields, is_zero_size, read_available, read, receive, add_credit, release_outgoing_reserved,
}
use rdpflux.Mux.Valid.{core, IsValid, Valid, Valid-update, Valid-remove}
use rdpflux.Mux.Valid.Streams.{
  object_ok, unread-le, get_stream-found, release_outgoing_reserved_found, release-Valid,
  send-IsValid,
}

abbrev pub received : Bytes → Stream → Stream
received chunk s = record s {
  receive_credit = s.receive_credit - length chunk;
  read_buffer = s.read_buffer ++ chunk;
}

module _ (p : Peer) (v : IsValid p) (i : ℕ) (s : Stream) (e : lookup i p.objects ≡ some s) where
  received-Valid :
      (chunk : Bytes)
      → length chunk ≤ s.receive_credit
      → p.incoming_buffered + length chunk ≤ max_buffered_data
      → Valid (record (core p) {
        objects = insert i (received chunk s) p.objects;
        incoming_buffered = p.incoming_buffered + length chunk;
      })
  received-Valid chunk fits room =
      let good = object_ok p v i s e in
      Valid-update (core p) i s (received chunk s) (p.incoming_buffered + length chunk)
        p.outgoing_buffered v e
        (record {
          receive_window = omega (arith, good.receive_window, length-append s.read_buffer chunk);
          send_window = good.send_window;
          returned = good.returned;
          taken_max = good.taken_max;
          closed_reserves = good.closed_reserves;
        })
        (λ h. h) (omega (arith, length-append s.read_buffer chunk)) refl room v.outgoing_max

pub receive-IsValid : (i : ℕ) (chunk : Bytes) → Keeps IsValid (receive i chunk)
unfolding receive reserve_incoming put_stream ◌>>=◌
receive-IsValid i chunk = Keeps-bind (Keeps-ensure _ _) (λ _.
    Keeps-get_stream IsValid i _ (λ p s v e.
      rw (get_stream-found p i s e) (elim (Bool-cases (s.remote_eof || s.closed)) [
        | inl over ↦ rw over v
        | inr more ↦ rw more (elim (Bool-cases (leb (length chunk) s.receive_credit)) [
          | inr exceeds ↦ rw exceeds v
          | inl fits ↦
              rw fits
                (elim (Bool-cases (leb (p.incoming_buffered + length chunk) max_buffered_data)) [
                  | inr full ↦ rw full v
                  | inl room ↦
                      rw room (received-Valid p v i s e chunk (ground arith) (ground arith))
                ])
        ])
      ])))

abbrev credited : ℕ → Stream → Stream
credited n s = record s {
  send_credit = s.send_credit + n;
  outgoing_reserved = s.outgoing_reserved - n;
}

module _ (p : Peer) (v : IsValid p) (i : ℕ) (s : Stream) (e : lookup i p.objects ≡ some s) where
  credited-Valid :
      (n : ℕ)
      → n ≤ s.outgoing_reserved
      → s.send_credit + n ≤ initial_window
      → Valid (record (core p) {
        objects = insert i (credited n s) p.objects;
        outgoing_buffered = p.outgoing_buffered - n;
      })
  credited-Valid n le small =
      let good = object_ok p v i s e in
      release-Valid p v i s e (credited n s) n le refl
        (record {
          receive_window = good.receive_window;
          send_window = ground (arith, good.send_window);
          returned = ground (arith, good.taken_max);
          taken_max = good.taken_max;
          closed_reserves = λ h. omega (arith, good.closed_reserves h);
        })
        (λ h. h) refl

  -- The credit of a window update that passes its tests.
  pub release_credit_found :
      (n : ℕ)
      → n ≤ s.outgoing_reserved
      → release_outgoing_reserved i
          (some n)
          (record p { objects = insert i (record s { send_credit = s.send_credit + n }) p.objects })
        ≡ (
          ok tt,
          record p {
            objects = insert i (credited n s) p.objects;
            outgoing_buffered = p.outgoing_buffered - n;
          },
        )
  release_credit_found n le =
      let t : Stream = record s { send_credit = s.send_credit + n } in
      let all : min n s.outgoing_reserved ≡ n = omega arith in
      release_outgoing_reserved_found (record p { objects = insert i t p.objects }) i t
        (lookup-insert_self i t p.objects) (some n)
      ∙ rw (all, insert-insert i _ _ p.objects)

pub add_credit-IsValid : (i : ℕ) (z : ℤ) → Keeps IsValid (add_credit i z)
unfolding add_credit put_stream ◌>>=◌
add_credit-IsValid i (negsuc n) =
    Keeps-get_stream IsValid i _ (λ p s v e. rw (get_stream-found p i s e) v)
add_credit-IsValid i (pos n) = Keeps-get_stream IsValid i _ (λ p s v e.
    rw (get_stream-found p i s e)
      (elim (Bool-cases
        (n == 0 || ltb initial_window (s.send_credit + n) || ltb s.outgoing_reserved n)) [
          | inl wrong ↦ rw wrong v
          | inr right ↦
              let le : n ≤ s.outgoing_reserved = ground arith in
              rw right (
                rw (release_credit_found p v i s e n le)
                  (credited-Valid p v i s e n le (ground arith)))
        ]))

read_count-le : (size : Option ℕ) (n : ℕ) → read_count size n ≤ n
unfolding read_count
read_count-le none n = omega arith
read_count-le (some k) n = omega arith

-- The ends of `read_available`, behind the release and behind the removal.
abbrev pub answer_read : JsonCodec → ℕ → ℕ → Stream → M (Option Bytes)
answer_read json i count s = do
  when (not s.closed) (do
    payload ← lift (encode_control json (credit_fields count))
    send (frame window_update i payload))
  pure (some (take count s.read_buffer))

abbrev pub finish_read : JsonCodec → ℕ → ℕ → Stream → M (Option Bytes)
finish_read json i count s = do
  when (s.closed && (length (drop count s.read_buffer) == 0)) (remove_stream i)
  answer_read json i count s

answer_read-IsValid :
    (json : JsonCodec) (i count : ℕ) (s : Stream) → Keeps IsValid (answer_read json i count s)
answer_read-IsValid json i count s = search (keeps_rules, send-IsValid)

finish_read-IsValid :
    (json : JsonCodec) (i count : ℕ) (s t : Stream) (q : Peer)
    → IsValid q
    → lookup i q.objects ≡ some t
    → t.closed ≡ s.closed
    → IsValid (finish_read json i count s q).1
unfolding remove_stream ◌>>=◌
finish_read-IsValid json i count s t q v e same =
    elim (Bool-cases (s.closed && (length (drop count s.read_buffer) == 0))) [
      | inl drained ↦ rw drained (
          (answer_read-IsValid json i count s).at (record q { streams = remove_id i q.streams })
            (Valid-remove (core q) i v (λ u h. ground arith)))
      | inr Kept ↦ rw Kept ((answer_read-IsValid json i count s).at q v)
    ]

module _ (p : Peer) (v : IsValid p) (i : ℕ) (s : Stream) (e : lookup i p.objects ≡ some s) where
  read_stream-Valid :
      (count : ℕ)
      → count ≤ length s.read_buffer
      → Valid (record (core p) {
        objects = insert i (read_stream count s) p.objects;
        incoming_buffered = p.incoming_buffered - count;
      })
  read_stream-Valid count le =
      let good = object_ok p v i s e in
      Valid-update (core p) i s (read_stream count s) (p.incoming_buffered - count)
        p.outgoing_buffered v e
        (record {
          receive_window = omega (arith, good.receive_window, length-drop count s.read_buffer);
          send_window = good.send_window;
          returned = good.returned;
          taken_max = good.taken_max;
          closed_reserves = good.closed_reserves;
        })
        (λ h. h) (omega (arith, length-drop count s.read_buffer, unread-le p v i s e)) refl
        (omega (arith, v.incoming_max)) v.outgoing_max

  read_available-IsValid :
      (json : JsonCodec) (size : Option ℕ) → IsValid (read_available json i size s p).1
  unfolding read_available put_stream release_incoming ◌>>=◌
  read_available-IsValid json size =
      let count = read_count size (length s.read_buffer) in
      finish_read-IsValid json i count s (read_stream count s)
        (record p {
          objects = insert i (read_stream count s) p.objects;
          incoming_buffered = p.incoming_buffered - count;
        })
        (read_stream-Valid count (read_count-le size (length s.read_buffer)))
        (lookup-insert_self i (read_stream count s) p.objects) refl

  read_empty-IsValid : s.closed ≡ true → IsValid (record p { streams = remove_id i p.streams })
  read_empty-IsValid over = Valid-remove (core p) i v (λ u h. cc (h, e, over))

pub read-IsValid : (json : JsonCodec) (i : ℕ) (size : Option ℕ) → Keeps IsValid (read json i size)
unfolding read remove_stream ◌>>=◌
read-IsValid json i size = elim (Bool-cases (is_zero_size size)) [
  | inl nothing ↦ rw nothing (Keeps-pure _)
  | inr bytes ↦ rw bytes (
      Keeps-get_stream IsValid i _ (λ p s v e.
        rw (get_stream-found p i s e) (elim (Bool-cases (length s.read_buffer == 0)) [
          | inr available ↦ rw available (read_available-IsValid p v i s e json size)
          | inl empty ↦ rw empty (elim (Bool-cases s.closed) [
            | inl over ↦ rw over (read_empty-IsValid p v i s e over)
            | inr isopen ↦
                rw isopen
                  (elim (Bool-cases s.remote_eof) [ inl eof ↦ rw eof v | inr more ↦ rw more v ])
          ])
        ])))
]
