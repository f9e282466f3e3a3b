-- ===== src/Transport/Queued.antt =====
-- What holds of the queue of a `CallbackTransport` of rdpflux/transport.py, whoever runs when.
use rdpflux.Prelude.{
  ℕ, ◌+◌, ◌-◌, ◌≤◌, ◌≡◌, refl, sym, ap, ◌∙◌, Bool, true, false, Option, none, some, List, [], ◌∷◌,
  ◌++◌, append_assoc, append-nil, arith, length, length-append, Bytes,
}
use rdpflux.Prelude.Result.{ok}
use rdpflux.Errors.{Try}
use rdpflux.Transport.Callback.{
  Callback, new_callback, size, feed_from_thread, get, get_from, finish_read, finish_from,
  close_from_thread, drop_queued, or_empty, max_buffer, max_messages,
}

abbrev pub total : List (Option Bytes) → ℕ
total [] = 0
total (value ∷ rest) = size value + total rest

total-append : (xs ys : List (Option Bytes)) → total (xs ++ ys) ≡ total xs + total ys
total-append [] ys = omega arith
total-append (x ∷ xs) ys = omega (arith, total-append xs ys)

drop_queued-eq : (l : List (Option Bytes)) (n : ℕ) → drop_queued l n ≡ n - total l
unfolding drop_queued
drop_queued-eq [] n = omega arith
drop_queued-eq (x ∷ l) n = omega (arith, drop_queued-eq l (n - size x))

-- `_queued_bytes` is exact.
pub record Counted (t : Callback) : Type 0 where
  pub bytes : t.queued_bytes ≡ total t.incoming + total t.taken
  pub bytes_max : t.queued_bytes ≤ max_buffer
  pub messages_max : length t.incoming ≤ max_messages

-- What one of the threads may do next.
pub data Move : Type 0 where
  feeds : Bytes → Move
  gets finishes closes : Move

abbrev pub move : Move → Callback → Callback
move (feeds bytes) t = (feed_from_thread bytes t).1
move gets t = get t
move finishes t = (finish_read t).1
move closes t = close_from_thread t

unfoldable pub run_moves : List Move → Callback → Callback
run_moves [] t = t
run_moves (m ∷ ms) t = run_moves ms (move m t)

feed-Counted : (bytes : Bytes) (t : Callback) → Counted t → Counted (feed_from_thread bytes t).1
unfolding feed_from_thread
feed-Counted bytes t c =
    ground
      (arith, total-append t.incoming (some bytes ∷ []), length-append t.incoming (some bytes ∷ []))

get-Counted :
    (l : List (Option Bytes)) (t : Callback) → t.incoming ≡ l → Counted t → Counted (get_from l t)
get-Counted [] t e c = c
get-Counted (value ∷ rest) t e c = record {
  bytes = omega (arith, c.bytes, ap total e, total-append t.taken (value ∷ []));
  bytes_max = c.bytes_max;
  messages_max = omega (arith, c.messages_max, ap length e);
}

finish-Counted :
    (l : List (Option Bytes)) (t : Callback) → t.taken ≡ l → Counted t → Counted (finish_from l t).1
finish-Counted [] t e c = c
finish-Counted (value ∷ rest) t e c = record {
  bytes = omega (arith, c.bytes, ap total e);
  bytes_max = omega (arith, c.bytes_max);
  messages_max = c.messages_max;
}

close-Counted : (t : Callback) → Counted t → Counted (close_from_thread t)
unfolding close_from_thread
close-Counted t c = ground (arith, drop_queued-eq t.incoming t.queued_bytes)

move-Counted : (m : Move) (t : Callback) → Counted t → Counted (move m t)
move-Counted (feeds bytes) t c = feed-Counted bytes t c
move-Counted gets t c = unfold get in get-Counted t.incoming t refl c
move-Counted finishes t c = unfold finish_read in finish-Counted t.taken t refl c
move-Counted closes t c = close-Counted t c

run_moves-keeps : (ms : List Move) (t : Callback) → Counted t → Counted (run_moves ms t)
unfolding run_moves
run_moves-keeps [] t c = c
run_moves-keeps (m ∷ ms) t c = run_moves-keeps ms (move m t) (move-Counted m t c)

-- After any sequence of what the delivering thread, the readers and a close may do, the count of
-- queued bytes is exactly what the queue and the readers hold, and stays within 4 MiB; the queue
-- has at most 4096 entries.
pub run_moves-Counted : (ms : List Move) → Counted (run_moves ms new_callback)
run_moves-Counted ms =
    run_moves-keeps ms new_callback
      (record { bytes = refl; bytes_max = omega arith; messages_max = omega arith })

-- The messages that a feed has put into the queue, and those that a read has returned.
abbrev pub accepted_by : Bytes → Try Bool → List Bytes
accepted_by [] result = []
accepted_by (b ∷ bs) (ok true) = (b ∷ bs) ∷ []
accepted_by (b ∷ bs) _ = []

abbrev pub returned_by : Option Bytes → List Bytes
returned_by none = []
returned_by (some bytes) = bytes ∷ []

abbrev pub accepted : Move → Callback → List Bytes
accepted (feeds bytes) t = accepted_by bytes (feed_from_thread bytes t).0
accepted _ t = []

abbrev pub returned : Move → Callback → List Bytes
returned finishes t = returned_by (finish_read t).0
returned _ t = []

pub all_accepted : List Move → Callback → List Bytes
all_accepted [] t = []
all_accepted (m ∷ ms) t = accepted m t ++ all_accepted ms (move m t)

pub all_returned : List Move → Callback → List Bytes
all_returned [] t = []
all_returned (m ∷ ms) t = returned m t ++ all_returned ms (move m t)

-- What is on its way, oldest first.
abbrev pub contents : List (Option Bytes) → List Bytes
contents [] = []
contents (value ∷ rest) = or_empty value ∷ contents rest

abbrev pub held : Callback → List Bytes
held t = contents (t.taken ++ t.incoming)

contents-append : (xs ys : List (Option Bytes)) → contents (xs ++ ys) ≡ contents xs ++ contents ys
contents-append [] ys = refl
contents-append (x ∷ xs) ys = ap (λ r. or_empty x ∷ r) (contents-append xs ys)

feed-held :
    (bytes : Bytes) (t : Callback)
    → t.closed ≡ false
    → held t ++ accepted (feeds bytes) t ≡ held (move (feeds bytes) t)
unfolding feed_from_thread
feed-held [] t opened = append-nil (held t)
feed-held (b ∷ bs) t opened = ground (
  arith,
  append-nil (held t),
  append_assoc t.taken t.incoming (some (b ∷ bs) ∷ []),
  contents-append (t.taken ++ t.incoming) (some (b ∷ bs) ∷ []),
)

get-held : (l : List (Option Bytes)) (t : Callback) → t.incoming ≡ l → held (get_from l t) ≡ held t
get-held [] t e = refl
get-held (value ∷ rest) t e =
    ap contents (append_assoc t.taken (value ∷ []) rest ∙ ap (λ x. t.taken ++ x) (sym e))

finish-held :
    (l : List (Option Bytes)) (t : Callback)
    → t.closed ≡ false
    → t.taken ≡ l
    → held t ≡ returned_by (finish_from l t).0 ++ held (finish_from l t).1
finish-held [] t opened e = refl
finish-held (value ∷ rest) t opened e = rw (opened, e)

get_from-closed : (l : List (Option Bytes)) (t : Callback) → (get_from l t).closed ≡ t.closed
get_from-closed [] t = refl
get_from-closed (value ∷ rest) t = refl

finish_from-closed :
    (l : List (Option Bytes)) (t : Callback) → (finish_from l t).1.closed ≡ t.closed
finish_from-closed [] t = refl
finish_from-closed (value ∷ rest) t = refl

-- A transport that is open after a move was open before it.
move-opened : (m : Move) (t : Callback) → (move m t).closed ≡ false → t.closed ≡ false
unfolding feed_from_thread get finish_read close_from_thread
move-opened (feeds bytes) t opened = ground arith
move-opened gets t opened = cc (get_from-closed t.incoming t)
move-opened finishes t opened = cc (finish_from-closed t.taken t)
move-opened closes t opened = ground arith

move-held :
    (m : Move) (t : Callback)
    → (move m t).closed ≡ false
    → held t ++ accepted m t ≡ returned m t ++ held (move m t)
unfolding get finish_read close_from_thread
move-held (feeds bytes) t opened = feed-held bytes t (move-opened (feeds bytes) t opened)
move-held gets t opened = append-nil (held t) ∙ sym (get-held t.incoming t refl)
move-held finishes t opened =
    append-nil (held t) ∙ finish-held t.taken t (move-opened finishes t opened) refl
move-held closes t opened = ground arith

still_open : (ms : List Move) (t : Callback) → (run_moves ms t).closed ≡ false → t.closed ≡ false
unfolding run_moves
still_open [] t opened = opened
still_open (m ∷ ms) t opened = move-opened m t (still_open ms (move m t) opened)

all_accepted-from :
    (ms : List Move) (t : Callback)
    → (run_moves ms t).closed ≡ false
    → held t ++ all_accepted ms t ≡ all_returned ms t ++ held (run_moves ms t)
unfolding run_moves all_accepted all_returned
all_accepted-from [] t opened = append-nil (held t)
all_accepted-from (m ∷ ms) t opened =
    sym (append_assoc (held t) (accepted m t) (all_accepted ms (move m t)))
    ∙ ap (λ x. x ++ all_accepted ms (move m t)) (move-held m t (still_open ms (move m t) opened))
    ∙ append_assoc (returned m t) (held (move m t)) (all_accepted ms (move m t))
    ∙ ap (λ x. returned m t ++ x) (all_accepted-from ms (move m t) opened)
    ∙ sym
        (append_assoc (returned m t) (all_returned ms (move m t)) (held (run_moves ms (move m t))))

-- As long as the transport is open, whatever its threads have done, the messages that were accepted
-- are those that reads have returned and, behind them, those still on their way: none is lost,
-- doubled or overtaken.
pub all_accepted-all_returned :
    (ms : List Move)
    → (run_moves ms new_callback).closed ≡ false
    → all_accepted ms new_callback
      ≡ all_returned ms new_callback ++ held (run_moves ms new_callback)
all_accepted-all_returned ms opened = all_accepted-from ms new_callback opened
