-- ===== src/Store/Events.antt =====
-- fakeEventsRepo of internal/store/fake.go: numbered events for each attempt and for each step.
-- The methods that write stamp the caller's struct, which is the result. A cursor is an `int`, which
-- stands as its bit pattern: those from 2^63 on are negative.
use haro.Prelude.{
  ℕ, zero, suc, ◌+◌, ◌^◌, String, Option, none, some, List, [], ◌∷◌, Bool, not, ◌&&◌, ◌||◌, ◌==◌,
  if◌then◌else◌, string_eq, nat_eq, leb, ltb,
}
use haro.Prelude.Table
use haro.Prelude.Table.{Table, values}
use haro.Store.Types.{
  Attempt, AttemptEvent, StepTransitionEvent, Result, ok, err, not_found, unique_violation,
  foreign_key_violation, i64,
}
use haro.Store.State.{FakeStore, step_key, default_to}
use haro.Store.Attempts.{is_of_step, latest}
use haro.Store.Sorting.{exchange_sort}

-- The inner map, which reads as empty where it is nil.
abbrev pub rows {ℓ} : {V : Type ℓ} → Option (Table ℕ V) → Table ℕ V
rows none = []
rows (some m) = m

unfoldable pub create_attempt_event :
    FakeStore → String → AttemptEvent → Result AttemptEvent × FakeStore
create_attempt_event s now e =
    let events = rows (Table.get s.attempt_events e.attempt_id) in
    if not (Table.has s.attempts e.attempt_id)
    then (err foreign_key_violation, s)
    else if Table.has events e.cursor
    then (err unique_violation, s)
    else let stamped = record e { occurred_at = default_to now e.occurred_at } in
      (
        ok stamped,
        record s {
          attempt_events =
              Table.put s.attempt_events e.attempt_id (Table.put events e.cursor stamped);
        },
      )

unfoldable pub create_transition :
    FakeStore → String → StepTransitionEvent → Result StepTransitionEvent × FakeStore
create_transition s now e =
    let k = step_key e.execution_id e.step_id in
    let events = rows (Table.get s.transition_events k) in
    if Table.has events e.cursor
    then (err unique_violation, s)
    else let stamped = record e { occurred_at = default_to now e.occurred_at } in
      (
        ok stamped,
        record s {
          transition_events = Table.put s.transition_events k (Table.put events e.cursor stamped);
        },
      )

-- The place of an `int` in the order of the signed numbers, and its `<`.
abbrev pub rank : ℕ → ℕ
rank n = i64 (n + 2 ^ 63)

abbrev pub signed_less : ℕ → ℕ → Bool
signed_less a b = ltb (rank a) (rank b)

abbrev pub cursor_less : StepTransitionEvent → StepTransitionEvent → Bool
cursor_less a b = signed_less a.cursor b.cursor

unfoldable pub list_transitions : FakeStore → String → String → List StepTransitionEvent
list_transitions s exec_id step_id =
    exchange_sort cursor_less
      (values (rows (Table.get s.transition_events (step_key exec_id step_id))))

-- The loop `max := -1; for cur := range m { if cur > max { max = cur } }`, over `max + 1`. A negative
-- cursor is never greater than `max`. The greatest `int` makes `max + 1` wrap to the least, 2^63.
unfoldable pub past_max {ℓ} : {V : Type ℓ} → ℕ → Table ℕ V → ℕ
past_max next [] = next
past_max next ((cur, e) ∷ m) =
    past_max (if ltb cur (2 ^ 63) && leb next cur then cur + 1 else next) m

unfoldable pub next_attempt_cursor : FakeStore → String → ℕ
unfolding past_max
next_attempt_cursor s attempt_id = past_max 0 (rows (Table.get s.attempt_events attempt_id))

unfoldable pub next_transition_cursor : FakeStore → String → String → ℕ
unfolding past_max
next_transition_cursor s exec_id step_id =
    past_max 0 (rows (Table.get s.transition_events (step_key exec_id step_id)))

-- The events at `cursor` and the places behind it, `limit` in all, where they are there.
unfoldable pub page : Table ℕ AttemptEvent → ℕ → ℕ → List AttemptEvent
page events cursor zero = []
page events cursor (suc limit) =
    let rest = page events (i64 (cursor + 1)) limit in
    elim (Table.get events cursor) [ none ↦ rest | some e ↦ e ∷ rest ]

unfoldable pub page_limit : ℕ → ℕ
page_limit limit = if leb limit 0 || ltb 128 limit then 128 else limit

-- How often `for cursor := since; cursor < since+limit; cursor++` runs: never where the sum wraps.
unfoldable pub page_length : ℕ → ℕ → ℕ
page_length since limit = if signed_less since (i64 (since + limit)) then limit else 0

unfoldable pub list_attempt_events : FakeStore → String → ℕ → ℕ → Result (List AttemptEvent)
unfolding page page_limit page_length
list_attempt_events s attempt_id since_cursor limit =
    if not (Table.has s.attempts attempt_id)
    then err not_found
    else ok (
        page (rows (Table.get s.attempt_events attempt_id)) since_cursor
          (page_length since_cursor (page_limit limit)))

-- The loop over the events of the prior attempt, with the variable `latestEv`.
unfoldable pub latest_delta : Option AttemptEvent → List AttemptEvent → Option AttemptEvent
latest_delta current [] = current
latest_delta current (e ∷ l) =
    latest_delta
      (if not (e.event_type == "output_delta") then current else (elim current [
        | none ↦ some e
        | some c ↦ if signed_less c.cursor e.cursor then some e else some c
      ]))
      l

-- An attempt of the same step as `cur`, other than `cur` itself.
abbrev pub is_prior : Attempt → String → Attempt → Bool
is_prior cur attempt_id a = is_of_step cur.execution_id cur.step_id a && not (a.id == attempt_id)

unfoldable pub prior_output_delta : FakeStore → String → Result AttemptEvent
unfolding latest_delta
prior_output_delta s attempt_id = elim (Table.get s.attempts attempt_id) [
  | none ↦ err not_found
  | some cur ↦ elim (latest (is_prior cur attempt_id) none (values s.attempts)) [
    | none ↦ err not_found
    | some a ↦ elim (latest_delta none (values (rows (Table.get s.attempt_events a.id)))) [
      | none ↦ err not_found
      | some e ↦ ok e
    ]
  ]
]
