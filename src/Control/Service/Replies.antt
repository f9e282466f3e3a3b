-- ===== src/Control/Service/Replies.antt =====
-- The replies of rdpflux/control/service.py, and their header limit.
use rdpflux.Prelude.{
  ℕ, ◌≤◌, ◌≡◌, ◌⊎◌, inl, inr, refl, sym, subst, arith, Bool, true, false, Option, none, some, List,
  [], ◌∷◌, ◌++◌, ltb, length, Bytes, Bool-cases, if◌then◌else◌,
}
use rdpflux.Prelude.Result.{ok, err}
use rdpflux.Errors.{Error, Try, framing_error}
use rdpflux.Json.{JsonCodec, Json, Fields, null, bool, int, float, str, arr, obj, get}
use rdpflux.Mux.Requests.{put}
use rdpflux.Control.Framing.{encode_message, max_header, message_fields}
use rdpflux.Control.Service.Encode.{
  Texts, encode_response, encode_trimmed, or_next, too_large, budgets, error_of, is_exec,
  trim_result,
}

-- The bytes are a message whose header line is within the limit.
abbrev pub IsMessage : JsonCodec → Try Bytes → Fields → Bytes → Type 0
IsMessage json r fields payload =
    (r ≡ encode_message json fields payload)
    × ((bytes : Bytes) × (r ≡ ok bytes))
    × (length (json.dumps (obj (message_fields fields payload))) ≤ max_header)

-- What a reply is: the response, the response with its result cut to one of the budgets, which only
-- that to a command may be, or the error, with the text that names the request.
abbrev pub IsReply : JsonCodec → Texts → Option Json → Fields → Bytes → Try Bytes → Type 0
IsReply json texts op response payload r =
    IsMessage json r response payload
    ⊎ (((is_exec op ≡ true)
          × ((budget : ℕ) × (result : Fields) × (get "result" response ≡ some (obj result))
              × IsMessage json r (put "result" (obj (trim_result budget result)) response) payload))
        ⊎ IsMessage json r (error_of json texts op response payload) [])

of_if :
    {A : Type 0} (P : A → Type 0) (b : Bool) {x y : A}
    → (b ≡ true → P x)
    → (b ≡ false → P y)
    → P (if b then x else y)
of_if P true f g = f refl
of_if P false f g = g refl

module _ (json : JsonCodec) where
  abbrev Fits : Fields → Bytes → Type 0
  Fits fields payload = length (json.dumps (obj (message_fields fields payload))) ≤ max_header

  encode_message-Fits :
      (fields : Fields) (payload : Bytes)
      → Fits fields payload
      → IsMessage json (encode_message json fields payload) fields payload
  unfolding encode_message
  encode_message-Fits fields payload fits =
      let small : ltb max_header (length (json.dumps (obj (message_fields fields payload))))
          ≡ false =
        ground arith in
      (
        refl,
        (json.dumps (obj (message_fields fields payload)) ++ 10 ∷ payload, rw small refl),
        fits,
      )

  encode_message-cases :
      (fields : Fields) (payload : Bytes)
      → IsMessage json (encode_message json fields payload) fields payload
        ⊎ ((e : Error) × (encode_message json fields payload ≡ err e))
  unfolding encode_message
  encode_message-cases fields payload =
      elim (Bool-cases
        (ltb max_header (length (json.dumps (obj (message_fields fields payload)))))) [
          | inl over ↦
              inr (framing_error "control header is over the JSON header limit", rw over refl)
          | inr under ↦ inl (encode_message-Fits fields payload (ground arith))
        ]

  module _ (texts : Texts) (op : Option Json) (response : Fields) (payload : Bytes) where
    abbrev Reply : Try Bytes → Type 0
    Reply r = IsReply json texts op response payload r

    abbrev the_error : Fields
    the_error = error_of json texts op response payload

    abbrev last : Try Bytes
    last = encode_message json the_error []

    encode_trimmed-IsReply :
        (result : Fields) (l : List ℕ)
        → is_exec op ≡ true
        → IsMessage json last the_error []
        → get "result" response ≡ some (obj result)
        → Reply (encode_trimmed json response result payload l last)
    unfolding encode_trimmed
    encode_trimmed-IsReply result [] exec fits e = inr (inr fits)
    encode_trimmed-IsReply result (budget ∷ more) exec fits e =
        let rest = encode_trimmed json response result payload more last in
        elim (encode_message-cases (put "result" (obj (trim_result budget result)) response)
          payload) [
            | inl small ↦
                rw small.1.1 (
                  inr
                    (inl (exec, (budget, result, e, (sym small.1.1, (small.1.0, refl), small.2)))))
            | inr over ↦ rw over.1 (encode_trimmed-IsReply result more exec fits e)
          ]

    too_large-IsReply :
        (o : Option Json)
        → IsMessage json last the_error []
        → get "result" response ≡ o
        → Reply (too_large json texts op response o payload)
    too_large-IsReply (some (obj result)) fits e =
        of_if Reply (is_exec op) (λ exec. encode_trimmed-IsReply result budgets exec fits e)
          (λ _. inr (inr fits))
    too_large-IsReply none fits e = inr (inr fits)
    too_large-IsReply (some null) fits e = inr (inr fits)
    too_large-IsReply (some (bool b)) fits e = inr (inr fits)
    too_large-IsReply (some (int z)) fits e = inr (inr fits)
    too_large-IsReply (some (float f)) fits e = inr (inr fits)
    too_large-IsReply (some (str s)) fits e = inr (inr fits)
    too_large-IsReply (some (arr xs)) fits e = inr (inr fits)

    -- If the error that names the request's `op` fits the header limit itself, there is a reply to
    -- the response, with a header line within the limit: the response itself, or, to a command, the
    -- response with a shortened result, or that error.
    pub encode_response-IsReply :
        Fits the_error [] → Reply (encode_response json texts op response payload)
    unfolding encode_response
    encode_response-IsReply fits = elim (encode_message-cases response payload) [
      | inl whole ↦ rw whole.1.1 (inl (refl, (whole.1.0, refl), whole.2))
      | inr over ↦
          subst
            (λ first.
              Reply
                (or_next first (too_large json texts op response (get "result" response) payload)))
            (sym over.1)
            (too_large-IsReply (get "result" response) (encode_message-Fits the_error [] fits) refl)
    ]
