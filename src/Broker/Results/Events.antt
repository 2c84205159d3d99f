-- ===== src/Broker/Results/Events.antt =====
-- What a result of step.events has to be to pass validateResult of internal/broker/validation.go.
use haro.Prelude.{
  ℕ, suc, ◌≤◌, String, Bool, true, false, Option, none, some, List, [], ◌∷◌, ◌&&◌, ◌≡◌, refl, ap,
  ◌∙◌, string_eq, bytes_eq, length, All, ltb, Bytes, arith, inl, inr, ◌⊎◌,
}
use haro.Prelude.Table
use haro.Prelude.Table.{Table}
use haro.Workflow.Types.{◌+++◌}
use haro.Broker.Results.{
  Unmarshal, ResultError, Verdict, valid, invalid, ◌>>=◌, ◌>>◌, reject_if, field_of,
  is_null_or_blank, present, check_fields, result_object, result_string_value, result_string,
  result_array, result_non_negative_int, each, payload_limit, text_of, check_payload,
  check_payload_ref, check_event_fields, check_event, check_events, validate_events,
  validate_result,
}

Verdict-cases :
    {A : Type 0}
    → (v : Verdict A) → ((a : A) × (v ≡ valid a)) ⊎ ((e : ResultError) × (v ≡ invalid e))
Verdict-cases (valid a) = inl (a, refl)
Verdict-cases (invalid e) = inr (e, refl)

bind-valid :
    {A B : Type 0}
    → (v : Verdict A) (next : A → Verdict B) (b : B) → (v >>= next) ≡ valid b
    → (a : A) × (v ≡ valid a) × (next a ≡ valid b)
bind-valid (valid a) next b passes = (a, refl, passes)
bind-valid (invalid e) next b passes = absurd cc

then-valid :
    {A B : Type 0}
    → (v : Verdict A) (next : Verdict B) (b : B) → (v >> next) ≡ valid b
    → (a : A) × (v ≡ valid a) × (next ≡ valid b)
then-valid (valid a) next b passes = (a, refl, passes)
then-valid (invalid e) next b passes = absurd cc

reject_if-valid :
    (test : Bool) (message path : String) (u : Unit)
    → reject_if test message path ≡ valid u
    → test ≡ false
reject_if-valid true message path u passes = absurd cc
reject_if-valid false message path u passes = refl

module _ (json : Unmarshal) where
  present-valid :
      {A : Type 0}
      → (path : String) (o : Option (Option A)) (a : A) → present json path o ≡ valid a
      → o ≡ some (some a)
  present-valid path none a passes = absurd cc
  present-valid path (some none) a passes = absurd cc
  present-valid path (some (some b)) a passes = let same : b ≡ a = cc in rw same refl

  result_object-valid :
      (raw : Bytes) (path : String) (optional required : List String) (fields : Table String Bytes)
      → result_object json raw path optional required ≡ valid fields
      → json.object raw ≡ some (some fields)
  unfolding result_object
  result_object-valid raw path optional required fields passes =
      let (u, p1, r1) =
        then-valid (reject_if (is_null_or_blank json raw) "invalid value" path)
          (present json path (json.object raw) >>= λ found.
            check_fields json path optional required found >> valid found)
          fields passes in
      let (found, p2, r2) =
        bind-valid (present json path (json.object raw))
          (λ found. check_fields json path optional required found >> valid found) fields r1 in
      let (w, p3, r3) =
        then-valid (check_fields json path optional required found) (valid found) fields r2 in
      let same : found ≡ fields = cc in
      present-valid path (json.object raw) fields (p2 ∙ ap valid same)

  -- An event that is an object, has not both a payload and a reference to one, and no payload of
  -- more than 16 KiB.
  abbrev pub IsEvent : Bytes → Type 0
  IsEvent raw =
      (event : Table String Bytes) × (json.object raw ≡ some (some event))
      × ((Table.has event "payload" && Table.has event "payload_ref") ≡ false)
      × ((payload : Bytes)
          → Table.get event "payload" ≡ some payload
          → length (text_of json payload) ≤ payload_limit)

  check_event-IsEvent :
      (path : String) (raw : Bytes) (u : Unit) → check_event json path raw ≡ valid u → IsEvent raw
  unfolding check_event check_event_fields
  check_event-IsEvent path raw u passes =
      let (event, p1, r1) =
        bind-valid
          (result_object json raw path ("payload" ∷ "payload_ref" ∷ [])
            ("cursor" ∷ "event_type" ∷ []))
          (check_event_fields json path) u passes in
      let exclusive =
        reject_if (Table.has event "payload" && Table.has event "payload_ref") "invalid value"
          (path +++ ".payload") in
      let payload_ = check_payload json path (Table.get event "payload") in
      let ref_ = check_payload_ref json path (Table.get event "payload_ref") in
      let text = result_string json event (path +++ ".event_type") "event_type" true in
      let (a, p2, r2) =
        then-valid (result_non_negative_int json event (path +++ ".cursor") "cursor")
          (text >> (exclusive >> (payload_ >> ref_))) u r1 in
      let (b, p3, r3) = then-valid text (exclusive >> (payload_ >> ref_)) u r2 in
      let (c, p4, r4) = then-valid exclusive (payload_ >> ref_) u r3 in
      let (d, p5, r5) = then-valid payload_ ref_ u r4 in
      (
        event,
        result_object-valid raw path ("payload" ∷ "payload_ref" ∷ []) ("cursor" ∷ "event_type" ∷ [])
            event p1,
        reject_if-valid (Table.has event "payload" && Table.has event "payload_ref") "invalid value"
            (path +++ ".payload") c p4,
        λ payload there.
            let k = rw there at p5 in
            let (f, q1, s1) =
              then-valid (result_string_value json payload (path +++ ".payload") false)
                (reject_if (ltb payload_limit (length (text_of json payload))) "value exceeds limit"
                  (path +++ ".payload"))
                d k in
            let small =
              reject_if-valid (ltb payload_limit (length (text_of json payload)))
                "value exceeds limit" (path +++ ".payload") d s1 in
            ground (arith, small),
      )

  each-IsEvent :
      (path : String) (i : ℕ) (raws : List Bytes) (u : Unit)
      → each json path (check_event json) i raws ≡ valid u
      → All IsEvent raws
  each-IsEvent path i [] u passes = tt
  each-IsEvent path i (raw ∷ raws) u passes =
      let here = path +++ "[" +++ json.itoa i +++ "]" in
      let (a, first, rest) =
        then-valid (check_event json here raw) (each json path (check_event json) (suc i) raws) u
          passes in
      (check_event-IsEvent here raw a first, each-IsEvent path (suc i) raws u rest)

  -- A result of step.events that passes the validation is an object with an array of events; each of
  -- these is an object, has not both a payload and a reference to one, and no payload of more than
  -- 16 KiB.
  pub validate_result-IsEvent :
      (raw : Bytes)
      → validate_result json "step.events" (some raw) ≡ valid tt
      → (fields : Table String Bytes) × (events : List Bytes) × (json.object raw
          ≡ some (some fields))
        × (json.array (field_of fields "events") ≡ some (some events))
        × All IsEvent events
  unfolding validate_result validate_events result_array
  validate_result-IsEvent raw passes =
      let (fields, p1, r1) =
        bind-valid (result_object json raw "result" [] ("events" ∷ "next_cursor" ∷ []))
          (λ fields. result_array json fields "result.events" "events" >>= check_events json fields)
          tt passes in
      let (events, p2, r2) =
        bind-valid (result_array json fields "result.events" "events") (check_events json fields) tt
          r1 in
      let (u, p3, r3) =
        then-valid (result_non_negative_int json fields "result.next_cursor" "next_cursor")
          (each json "result.events" (check_event json) 0 events) tt r2 in
      (
        fields,
        events,
        result_object-valid raw "result" [] ("events" ∷ "next_cursor" ∷ []) fields p1,
        present-valid "result.events" (json.array (field_of fields "events")) events p2,
        each-IsEvent "result.events" 0 events tt r3,
      )
