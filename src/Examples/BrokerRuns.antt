-- ===== src/Examples/BrokerRuns.antt =====
-- A result of step.events with one event, over a decoder that knows the texts of the example.
use haro.Prelude.{
  String, List, [], ◌∷◌, none, some, ◌≡◌, refl, nat_eq, string_eq, bytes_eq, ◌==◌, All, Bytes,
  codes, if◌then◌else◌, bytes_beq,
}
use haro.Prelude.Table
use haro.Prelude.Table.{Table}
use haro.Workflow.Types.{pos}
use haro.Broker.Results.{
  Unmarshal, valid, field_of, check_required, result_object, result_string_value, result_array,
  result_non_negative_int, check_event_fields, check_event, validate_events, validate_result,
}
use haro.Broker.Results.Events.{IsEvent, validate_result-IsEvent}

abbrev result : Table String Bytes
result = ("events", codes "E") ∷ ("next_cursor", codes "3") ∷ []

abbrev event : Table String Bytes
event = ("cursor", codes "3") ∷ ("event_type", codes "T") ∷ ("payload", codes "P") ∷ []

abbrev json : Unmarshal
json = record {
  object = λ raw.
      if raw == codes "R"
      then some (some result)
      else if raw == codes "V"
      then some (some event)
      else none;
  array = λ raw. if raw == codes "E" then some (some (codes "V" ∷ [])) else none;
  string = λ raw. some raw;
  boolean = λ raw. none;
  integer = λ raw. some (pos 3);
  itoa = λ n. "0";
  trim_space = λ raw. raw;
  sort_strings = λ names. names;
}

accepted : validate_result json "step.events" (some (codes "R")) ≡ valid tt
unfolding validate_result validate_events check_event check_event_fields result_object
    check_required result_array result_non_negative_int result_string_value Table.get Table.has
    bytes_beq
accepted = refl

validate_result-IsEvent_example :
    (fields : Table String Bytes) × (events : List Bytes) × (json.object (codes "R")
      ≡ some (some fields))
    × (json.array (field_of fields "events") ≡ some (some events))
    × All (IsEvent json) events
validate_result-IsEvent_example = validate_result-IsEvent json (codes "R") accepted
