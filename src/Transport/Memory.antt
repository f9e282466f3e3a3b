-- ===== src/Transport/Memory.antt =====
-- `MemoryTransport` of rdpflux/transport.py: two ends, each with the queue that it reads.
use rdpflux.Prelude.{
  ℕ, zero, suc, ◌≡◌, refl, sym, ap, ◌∙◌, arith, Bool, true, false, ◌||◌, Option, none, some, List,
  [], ◌∷◌, ◌++◌, append_assoc, append-nil, if◌then◌else◌, Bytes, map, length,
}
use rdpflux.Prelude.Result.{ok, err}
use rdpflux.Errors.{Try, connection_error}

pub record End : Type 0 where
  pub incoming : List (Option Bytes)
  pub closed : Bool

-- `self` and `self.peer`
pub record Pair : Type 0 where
  pub own : End
  pub peer : End

-- `MemoryTransport.pair`
abbrev pub new_pair : Pair
new_pair = record {
  own = record { incoming = []; closed = false };
  peer = record { incoming = []; closed = false };
}

abbrev pub put : Option Bytes → End → End
put value e = record e { incoming = e.incoming ++ value ∷ [] }

unfoldable pub write : Bytes → Pair → Try (Unit {0}) × Pair
write bytes p =
    if p.own.closed || p.peer.closed
    then (err (connection_error "transport is closed"), p)
    else (ok tt, record p { peer = put (some bytes) p.peer })

unfoldable pub close : Pair → Pair
close p =
    if p.own.closed
    then p
    else record { own = put none (record p.own { closed = true }); peer = put none p.peer }

abbrev pub read_from : List (Option Bytes) → End → Option Bytes × End
read_from [] e = (none, e)
read_from (none ∷ rest) e = (some [], record e { incoming = rest })
read_from (some bytes ∷ rest) e = (some bytes, record e { incoming = rest })

-- `read`; `none` where it waits.
unfoldable pub read : End → Option Bytes × End
read e = read_from e.incoming e

-- What one end writes, and what the other end reads, as often as it can.
pub write_all : List Bytes → Pair → Pair
write_all [] p = p
write_all (bytes ∷ more) p = write_all more (write bytes p).1

abbrev then_read : Option Bytes × End → (End → List Bytes) → List Bytes
then_read (none, e) k = []
then_read (some bytes, e) k = bytes ∷ k e

pub read_all : ℕ → End → List Bytes
read_all zero e = []
read_all (suc n) e = then_read (read e) (read_all n)

write-open :
    (m : Bytes) (p : Pair)
    → p.own.closed ≡ false
    → p.peer.closed ≡ false
    → (write m p).1 ≡ record p { peer = put (some m) p.peer }
unfolding write
write-open m p own peer = ground arith

write_all-open :
    (ms : List Bytes) (p : Pair)
    → p.own.closed ≡ false
    → p.peer.closed ≡ false
    → write_all ms p
      ≡ record p { peer = record p.peer { incoming = p.peer.incoming ++ map some ms } }
unfolding write_all
write_all-open [] p own peer =
    ap (λ q. record p { peer = record p.peer { incoming = q } }) (sym (append-nil p.peer.incoming))
write_all-open (m ∷ ms) p own peer =
    ap (write_all ms) (write-open m p own peer)
    ∙ write_all-open ms (record p { peer = put (some m) p.peer }) own peer
    ∙ ap (λ q. record p { peer = record p.peer { incoming = q } })
        (append_assoc p.peer.incoming (some m ∷ []) (map some ms))

read_all-queued :
    (ms : List Bytes) (e : End)
    → e.incoming ≡ map some ms ++ none ∷ []
    → read_all (suc (length ms)) e ≡ ms ++ [] ∷ []
unfolding read_all read
read_all-queued [] e q = rw q refl
read_all-queued (m ∷ ms) e q =
    rw q
      (ap (λ r. m ∷ r) (read_all-queued ms (record e { incoming = map some ms ++ none ∷ [] }) refl))

-- What one end of a new pair writes before it closes, the other end reads, message by message and in
-- order, and then the end of the stream.
pub read_all-close :
    (ms : List Bytes)
    → read_all (suc (length ms)) (close (write_all ms new_pair)).peer ≡ ms ++ [] ∷ []
unfolding close
read_all-close ms =
    rw (write_all-open ms new_pair refl refl)
      (read_all-queued ms (record { incoming = map some ms ++ none ∷ []; closed = false }) refl)
