-- ===== src/Protocol/Chunks.antt =====
-- How the channel cuts its byte stream into chunks makes no difference to the decoder.
use rdpflux.Prelude.{
  ℕ, zero, suc, ◌+◌, ◌<◌, ◌≡◌, ◌∙◌, sym, ap, subst, refl, inl, inr, List, [], ◌∷◌, ◌++◌,
  append_assoc, append-nil, arith, length, Bytes, length-append,
}
use rdpflux.Prelude.Result.{ok, err}
use rdpflux.Errors.{Try}
use rdpflux.Protocol.Wire.{split_header}
use rdpflux.Protocol.Frames.{Next-cases, drain-more, drain-bad, drain-taken}
use rdpflux.Protocol.RoundTrip.{encode_all, feed-encode_all}
use rdpflux.Protocol.{Frame, max_payload, more, next_frame, prepend, drain, feed}
use rdpflux.Protocol.Rounds.{
  next_frame-append_taken, next_frame-append_bad, next_frame_shrinks, next_frame_more, drain_fuel,
}

abbrev pub append_frames : List Frame → Try (List Frame) × Bytes → Try (List Frame) × Bytes
append_frames fs (ok gs, r) = (ok (fs ++ gs), r)
append_frames fs (err e, r) = (err e, r)

-- Feed one more chunk to a decoder that has answered `(result, buffer)`.
abbrev pub then_feed : Try (List Frame) × Bytes → Bytes → Try (List Frame) × Bytes
then_feed (ok fs, r) d = append_frames fs (feed r d)
then_feed (err e, r) d = (err e, r ++ d)

append_frames-nil : (x : Try (List Frame) × Bytes) → append_frames [] x ≡ x
append_frames-nil (ok gs, r) = refl
append_frames-nil (err e, r) = refl

prepend-append_frames :
    (f : Frame) (fs : List Frame) (x : Try (List Frame) × Bytes)
    → prepend f (append_frames fs x) ≡ append_frames (f ∷ fs) x
prepend-append_frames f fs (ok gs, r) = refl
prepend-append_frames f fs (err e, r) = refl

prepend-then_feed :
    (f : Frame) (x : Try (List Frame) × Bytes) (d : Bytes)
    → prepend f (then_feed x d) ≡ then_feed (prepend f x) d
prepend-then_feed f (ok fs, r) d = prepend-append_frames f fs (feed r d)
prepend-then_feed f (err e, r) d = refl

drain-append :
    (n m : ℕ) (b d : Bytes)
    → length b < n
    → length (b ++ d) < m
    → drain m (b ++ d) ≡ then_feed (drain n b) d
unfolding feed
drain-append zero m b d hn hm = absurd (omega arith)
drain-append (suc n) zero b d hn hm = absurd (omega arith)
drain-append (suc n) (suc m) b d hn hm = elim (Next-cases (next_frame b)) [
  | inl stop ↦
      drain_fuel (suc m) (suc (length (b ++ d))) (b ++ d) hm (omega arith)
      ∙ sym (append_frames-nil (feed b d))
      ∙ ap (λ x. then_feed x d) (sym (drain-more n b stop))
  | inr (inl (x, wrong)) ↦
      rw (drain-bad n b wrong) (drain-bad m (b ++ d) (next_frame-append_bad b d x wrong))
  | inr (inr (f, rest, got)) ↦
      let small = next_frame_shrinks b f rest got in
      drain-taken m (b ++ d) (next_frame-append_taken b d f rest got)
      ∙ ap (prepend f) (
          drain-append n m rest d (omega arith)
            (omega (arith, length-append b d, length-append rest d)))
      ∙ prepend-then_feed f (drain n rest) d
      ∙ ap (λ x. then_feed x d) (sym (drain-taken n b got))
]

-- Feeding a chunk is the same as feeding its two parts one after the other, where either may
-- raise: the same frames, the same error, the same buffer.
pub feed-append : (b c d : Bytes) → feed b (c ++ d) ≡ then_feed (feed b c) d
unfolding feed
feed-append b c d =
    ap (λ x. drain (suc (length x)) x) (sym (append_assoc b c d))
    ∙ drain-append (suc (length (b ++ c))) (suc (length ((b ++ c) ++ d))) (b ++ c) d (omega arith)
        (omega arith)

-- Go on with the buffer after a `feed` that has not raised.
abbrev pub continue :
    Try (List Frame) × Bytes → (Bytes → Try (List Frame) × Bytes) → Try (List Frame) × Bytes
continue (ok fs, r) k = append_frames fs (k r)
continue (err e, r) k = (err e, r)

-- The reads of `MuxPeer._run`, one `feed` for each chunk; a raise ends them.
unfoldable pub feed_all : Bytes → List Bytes → Try (List Frame) × Bytes
feed_all b [] = (ok [], b)
feed_all b (c ∷ cs) = continue (feed b c) (λ r. feed_all r cs)

abbrev pub join : List Bytes → Bytes
join [] = []
join (c ∷ cs) = c ++ join cs

-- `y` is the answer `x`: in full if `x` has frames, and the same error if `x` has one.
abbrev pub Answers : Try (List Frame) × Bytes → Try (List Frame) × Bytes → Type 0
Answers (ok fs, r) y = y ≡ (ok fs, r)
Answers (err e, r) y = y.0 ≡ err e

Answers-append_frames :
    (fs : List Frame) (x y : Try (List Frame) × Bytes)
    → Answers x y
    → Answers (append_frames fs x) (append_frames fs y)
Answers-append_frames fs (ok gs, r) y h = ap (append_frames fs) h
Answers-append_frames fs (err e, r) (ok gs, s) h = cc
Answers-append_frames fs (err e, r) (err e', s) h = h

-- After an answer with frames the decoder waits for more bytes.
drain-idle :
    (n : ℕ) (b : Bytes) (fs : List Frame) (r : Bytes)
    → length b < n
    → drain n b ≡ (ok fs, r)
    → next_frame r ≡ more
drain-idle zero b fs r h e = absurd (omega arith)
drain-idle (suc n) b fs r h e = elim (Next-cases (next_frame b)) [
  | inl stop ↦ let q = sym (drain-more n b stop) ∙ e in cc (q, stop)
  | inr (inl (x, wrong)) ↦ cc (drain-bad n b wrong)
  | inr (inr (f, rest, got)) ↦
      let small = next_frame_shrinks b f rest got in
      idle_rest f (drain n rest) (sym (drain-taken n b got) ∙ e)
        (λ gs q. drain-idle n rest gs r (omega arith) q)
]
  where
    idle_rest :
        (f : Frame) (x : Try (List Frame) × Bytes)
        → prepend f x ≡ (ok fs, r)
        → ((gs : List Frame) → x ≡ (ok gs, r) → next_frame r ≡ more)
        → next_frame r ≡ more
    idle_rest f (ok gs, l) q ih = ih gs (cc)
    idle_rest f (err y, l) q ih = cc

pub feed-idle :
    (b c : Bytes) (fs : List Frame) (r : Bytes) → feed b c ≡ (ok fs, r) → next_frame r ≡ more
unfolding feed
feed-idle b c fs r e = drain-idle (suc (length (b ++ c))) (b ++ c) fs r (omega arith) e

-- After a `feed` that has not raised, the buffer holds less than one largest frame.
pub length-feed :
    (b c : Bytes) (fs : List Frame) (r : Bytes)
    → feed b c ≡ (ok fs, r)
    → length r < 16 + max_payload
length-feed b c fs r e = next_frame_more r (feed-idle b c fs r e)

then_feed-Answers :
    (x : Try (List Frame) × Bytes) (d : Bytes) (k : Bytes → Try (List Frame) × Bytes)
    → ((fs : List Frame) (r : Bytes) → x ≡ (ok fs, r) → Answers (feed r d) (k r))
    → Answers (then_feed x d) (continue x k)
then_feed-Answers (ok fs, r) d k h = Answers-append_frames fs (feed r d) (k r) (h fs r refl)
then_feed-Answers (err e, r) d k h = refl

feed-nil : (b : Bytes) → next_frame b ≡ more → feed b [] ≡ (ok [], b)
unfolding feed
feed-nil b idle = ap (λ x. drain (suc (length x)) x) (append-nil b) ∙ drain-more (length b) b idle

-- For a buffer that holds no whole frame, and however the bytes are cut into chunks, the decoder
-- answers as it would to the whole: the same frames and the same buffer, or the same error.
pub feed_all-join :
    (b : Bytes) (cs : List Bytes) → next_frame b ≡ more → Answers (feed b (join cs)) (feed_all b cs)
unfolding feed_all
feed_all-join b [] idle = subst (λ x. Answers x (ok [], b)) (sym (feed-nil b idle)) refl
feed_all-join b (c ∷ cs) idle =
    subst (λ x. Answers x (continue (feed b c) (λ r. feed_all r cs)))
      (sym (feed-append b c (join cs)))
      (then_feed-Answers (feed b c) (join cs) (λ r. feed_all r cs)
        (λ fs r e. feed_all-join r cs (feed-idle b c fs r e)))

-- Frames that are encoded one after the other come out of the decoder unchanged and in order,
-- and leave nothing in the buffer, however the channel has cut the bytes into chunks.
pub feed_all-encode_all :
    (fs : List Frame) (bs : Bytes) (cs : List Bytes)
    → encode_all fs ≡ ok bs
    → join cs ≡ bs
    → feed_all [] cs ≡ (ok fs, [])
feed_all-encode_all fs bs cs e cut =
    subst (λ x. Answers x (feed_all [] cs)) (ap (feed []) cut ∙ feed-encode_all fs bs e)
      (feed_all-join [] cs (unfold next_frame split_header in refl))
