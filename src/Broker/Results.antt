-- ===== src/Broker/Results.antt =====
-- validateResult of internal/broker/validation.go. Package encoding/json is the parameter `Unmarshal`;
-- a raw message is the list of its bytes. Of an RPC error its message and its field are kept: its
-- code is always InvalidParamsCode.
pub mod Events
use haro.Prelude.{
  ℕ, suc, ◌*◌, String, Bool, true, false, Option, none, some, List, [], ◌∷◌, ◌++◌, not, ◌&&◌, ◌||◌,
  ◌==◌, string_eq, bytes_eq, if◌then◌else◌, length, select, is_empty_list, mem, ltb, Bytes, codes,
}
use haro.Prelude.Table
use haro.Prelude.Table.{Table}
use haro.Workflow.Types.{ℤ, pos, negsuc, ◌+++◌}

-- json.Unmarshal into the types that the checks use; `none` is an error, and a map or a slice may
-- come out nil. With strconv.Itoa, bytes.TrimSpace and sort.Strings.
pub record Unmarshal : Type 0 where
  pub object : Bytes → Option (Option (Table String Bytes))
  pub array : Bytes → Option (Option (List Bytes))
  pub string : Bytes → Option Bytes
  pub boolean : Bytes → Option Bool
  pub integer : Bytes → Option ℤ
  pub itoa : ℕ → String
  pub trim_space : Bytes → Bytes
  pub sort_strings : List String → List String

pub record ResultError : Type 0 where
  pub message : String
  pub field : String

pub data Verdict (A : Type 0) : Type 0 where
  valid : A → Verdict A
  invalid : ResultError → Verdict A

infixl 5 ◌>>=◌ ◌>>◌
abbrev pub ◌>>=◌ : {A B : Type 0} → Verdict A → (A → Verdict B) → Verdict B
valid a >>= next = next a
invalid e >>= next = invalid e

abbrev pub ◌>>◌ : {A B : Type 0} → Verdict A → Verdict B → Verdict B
valid a >> next = next
invalid e >> next = invalid e

abbrev pub reject : {A : Type 0} → String → String → Verdict A
reject message path = invalid (record { message = message; field = path })

-- `if test { return invalidResultError(message, path) }`
abbrev pub reject_if : Bool → String → String → Verdict Unit
reject_if true message path = reject message path
reject_if false message path = valid tt

-- fields[field]
abbrev or_nil : Option Bytes → Bytes
or_nil none = []
or_nil (some raw) = raw

abbrev pub field_of : Table String Bytes → String → Bytes
field_of fields name = or_nil (Table.get fields name)

abbrev keys : Table String Bytes → List String
keys [] = []
keys ((name, raw) ∷ fields) = name ∷ keys fields

-- An unknown field is reported, the first one of the sorted list.
abbrev reject_first : String → List String → Verdict Unit
reject_first path [] = valid tt
reject_first path (name ∷ names) = reject "unknown field" (path +++ "." +++ name)

abbrev pub payload_limit : ℕ
payload_limit = 16 * 1024

module _ (json : Unmarshal) where
  abbrev pub is_null_or_blank : Bytes → Bool
  is_null_or_blank raw =
      let trimmed = json.trim_space raw in is_empty_list trimmed || trimmed == codes "null"

  abbrev pub is_missing : Option Bytes → Bool
  is_missing none = true
  is_missing (some raw) = json.trim_space raw == codes "null"

  unfoldable pub check_required : Table String Bytes → String → List String → Verdict Unit
  check_required fields path [] = valid tt
  check_required fields path (name ∷ names) =
      reject_if (is_missing (Table.get fields name)) "missing field" (path +++ "." +++ name)
      >> check_required fields path names

  -- What json.Unmarshal makes of an object or an array, where it is neither an error nor nil.
  abbrev pub present : {A : Type 0} → String → Option (Option A) → Verdict A
  present path none = reject "invalid value" path
  present path (some none) = reject "invalid value" path
  present path (some (some a)) = valid a

  abbrev pub check_fields : String → List String → List String → Table String Bytes → Verdict Unit
  unfolding check_required
  check_fields path optional required fields =
      reject_first path
        (json.sort_strings (select (λ name. not (mem name (optional ++ required))) (keys fields)))
      >> check_required fields path required

  unfoldable pub result_object :
      Bytes → String → List String → List String → Verdict (Table String Bytes)
  unfolding check_required
  result_object raw path optional required =
      reject_if (is_null_or_blank raw) "invalid value" path
      >> (present path (json.object raw) >>= λ fields.
          check_fields path optional required fields >> valid fields)

  abbrev check_text : String → Bool → Option Bytes → Verdict Unit
  check_text path non_empty none = reject "invalid value" path
  check_text path non_empty (some value) =
      reject_if (non_empty && is_empty_list value) "invalid value" path

  unfoldable pub result_string_value : Bytes → String → Bool → Verdict Unit
  result_string_value raw path non_empty =
      reject_if (is_null_or_blank raw) "invalid value" path
      >> check_text path non_empty (json.string raw)

  abbrev pub result_string : Table String Bytes → String → String → Bool → Verdict Unit
  unfolding result_string_value
  result_string fields path name non_empty =
      result_string_value (field_of fields name) path non_empty

  abbrev check_boolean : String → Option Bool → Verdict Unit
  check_boolean path none = reject "invalid value" path
  check_boolean path (some value) = valid tt

  unfoldable pub result_bool : Table String Bytes → String → String → Verdict Unit
  result_bool fields path name = check_boolean path (json.boolean (field_of fields name))

  abbrev check_enum : String → List Bytes → Option Bytes → Verdict Unit
  check_enum path [] none = reject "invalid value" path
  check_enum path (x ∷ allowed) none = reject "invalid value" path
  check_enum path [] (some value) = reject "invalid enum" path
  check_enum path (x ∷ allowed) (some value) =
      let rest = check_enum path allowed (some value) in if value == x then valid tt else rest

  unfoldable pub result_enum : Table String Bytes → String → String → List Bytes → Verdict Unit
  result_enum fields path name allowed =
      check_enum path allowed (json.string (field_of fields name))

  unfoldable pub result_array : Table String Bytes → String → String → Verdict (List Bytes)
  result_array fields path name = present path (json.array (field_of fields name))

  abbrev check_integer : String → Option ℤ → Verdict Unit
  check_integer path none = reject "invalid value" path
  check_integer path (some (pos n)) = valid tt
  check_integer path (some (negsuc n)) = reject "invalid value" path

  unfoldable pub result_non_negative_int : Table String Bytes → String → String → Verdict Unit
  result_non_negative_int fields path name =
      check_integer path (json.integer (field_of fields name))

  abbrev pub each : String → (String → Bytes → Verdict Unit) → ℕ → List Bytes → Verdict Unit
  each path check i [] = valid tt
  each path check i (raw ∷ raws) =
      check (path +++ "[" +++ json.itoa i +++ "]") raw >> each path check (suc i) raws

  unfoldable pub check_step : String → Bytes → Verdict Unit
  unfolding result_object result_string_value result_enum
  check_step path raw = result_object raw path [] ("id" ∷ "status" ∷ []) >>= λ step.
      result_string step (path +++ ".id") "id" true
      >> result_enum step (path +++ ".status") "status" (
          codes "pending"
          ∷ codes "running"
          ∷ codes "completed"
          ∷ codes "failed"
          ∷ codes "skipped"
          ∷ [])

  -- The value is empty where Unmarshal fails.
  abbrev pub text_of : Bytes → Bytes
  text_of payload = or_nil (json.string payload)

  -- `if hasPayload { … }`
  abbrev pub check_payload : String → Option Bytes → Verdict Unit
  check_payload path none = valid tt
  check_payload path (some payload) =
      result_string_value payload (path +++ ".payload") false
      >> reject_if (ltb payload_limit (length (text_of payload))) "value exceeds limit"
          (path +++ ".payload")

  abbrev pub check_payload_ref : String → Option Bytes → Verdict Unit
  check_payload_ref path none = valid tt
  check_payload_ref path (some payload_ref) =
      result_string_value payload_ref (path +++ ".payload_ref") true

  unfoldable pub check_event_fields : String → Table String Bytes → Verdict Unit
  unfolding result_string_value result_non_negative_int
  check_event_fields path event =
      result_non_negative_int event (path +++ ".cursor") "cursor"
      >> (result_string event (path +++ ".event_type") "event_type" true
          >> (reject_if (Table.has event "payload" && Table.has event "payload_ref") "invalid value"
                (path +++ ".payload")
              >> (check_payload path (Table.get event "payload")
                  >> check_payload_ref path (Table.get event "payload_ref"))))

  unfoldable pub check_event : String → Bytes → Verdict Unit
  unfolding result_object check_event_fields
  check_event path raw =
      result_object raw path ("payload" ∷ "payload_ref" ∷ []) ("cursor" ∷ "event_type" ∷ [])
      >>= check_event_fields path

  unfoldable pub validate_health : Bytes → Verdict Unit
  unfolding result_object result_bool
  validate_health raw =
      result_object raw "result" [] ("ok" ∷ []) >>= λ fields. result_bool fields "result.ok" "ok"

  unfoldable pub validate_start : Bytes → Verdict Unit
  unfolding result_object result_string_value
  validate_start raw = result_object raw "result" [] ("execution_id" ∷ []) >>= λ fields.
      result_string fields "result.execution_id" "execution_id" true

  unfoldable pub validate_status : Bytes → Verdict Unit
  unfolding result_object result_enum result_array check_step
  validate_status raw = result_object raw "result" [] ("status" ∷ "steps" ∷ []) >>= λ fields.
      result_enum fields "result.status" "status"
        (codes "pending" ∷ codes "running" ∷ codes "completed" ∷ codes "failed" ∷ [])
      >> (result_array fields "result.steps" "steps" >>= λ steps.
          each "result.steps" check_step 0 steps)

  unfoldable pub validate_run : Bytes → Verdict Unit
  unfolding result_object result_string_value result_non_negative_int
  validate_run raw = result_object raw "result" [] ("attempt_id" ∷ "next_cursor" ∷ []) >>= λ fields.
      result_string fields "result.attempt_id" "attempt_id" true
      >> result_non_negative_int fields "result.next_cursor" "next_cursor"

  abbrev pub check_events : Table String Bytes → List Bytes → Verdict Unit
  check_events fields events =
      result_non_negative_int fields "result.next_cursor" "next_cursor"
      >> each "result.events" check_event 0 events

  unfoldable pub validate_events : Bytes → Verdict Unit
  unfolding result_object result_array result_non_negative_int check_event
  validate_events raw = result_object raw "result" [] ("events" ∷ "next_cursor" ∷ []) >>= λ fields.
      result_array fields "result.events" "events" >>= check_events fields

  unfoldable pub validate_approve : Bytes → Verdict Unit
  unfolding result_object result_bool
  validate_approve raw = result_object raw "result" [] ("resolved" ∷ []) >>= λ fields.
      result_bool fields "result.resolved" "resolved"

  unfoldable pub validate_cancel : Bytes → Verdict Unit
  unfolding result_object
  validate_cancel raw = result_object raw "result" [] [] >>= λ fields. valid tt

  unfoldable pub validate_reopen : Bytes → Verdict Unit
  unfolding result_object result_array result_string_value
  validate_reopen raw = result_object raw "result" [] ("invalidated" ∷ []) >>= λ fields.
      result_array fields "result.invalidated" "invalidated" >>= λ steps.
      each "result.invalidated" (λ path value. result_string_value value path true) 0 steps

  -- `raw` is what json.Marshal makes of the result.
  unfoldable pub validate_result : String → Option Bytes → Verdict Unit
  unfolding validate_health validate_start validate_status validate_run validate_events
      validate_approve validate_cancel validate_reopen
  validate_result method none = reject "invalid result" "result"
  validate_result method (some raw) =
      if method == "health"
      then validate_health raw
      else if method == "execution.start"
      then validate_start raw
      else if method == "execution.status"
      then validate_status raw
      else if method == "step.run"
      then validate_run raw
      else if method == "step.events"
      then validate_events raw
      else if method == "step.approve"
      then validate_approve raw
      else if method == "step.cancel"
      then validate_cancel raw
      else if method == "step.reopen"
      then validate_reopen raw
      else valid tt
