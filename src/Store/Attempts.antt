-- ===== src/Store/Attempts.antt =====
-- fakeAttemptsRepo of internal/store/fake.go. `create` stamps the caller's struct, which is the
-- result.
use Prim.Native.String.{compare}
use text.Mathlib.Text.{is_lt}
use haro.Prelude.{
  ℕ, ◌+◌, String, Option, none, some, List, [], ◌∷◌, Bool, not, ◌&&◌, ◌||◌, ◌==◌, if◌then◌else◌,
  string_eq,
}
use haro.Prelude.Table
use haro.Prelude.Table.{values}
use haro.Store.Types.{
  Attempt, Result, ok, err, not_found, unique_violation, foreign_key_violation, check_violation,
}
use haro.Store.State.{FakeStore, step_key, is_valid_attempt_status, default_to}

unfoldable pub create : FakeStore → String → Attempt → Result Attempt × FakeStore
create s now a =
    if Table.has s.attempts a.id
    then (err unique_violation, s)
    else if not (is_valid_attempt_status a.status)
    then (err check_violation, s)
    else if not (Table.has s.steps (step_key a.execution_id a.step_id))
    then (err foreign_key_violation, s)
    else if not (Table.has s.generations a.generation_id)
    then (err foreign_key_violation, s)
    else let stamped = record a { started_at = default_to now a.started_at } in
      (ok stamped, record s { attempts = Table.put s.attempts a.id stamped })

unfoldable pub get : FakeStore → String → Result Attempt
get s id = elim (Table.get s.attempts id) [ none ↦ err not_found | some a ↦ ok a ]

unfoldable pub update_status :
    FakeStore
    → String
    → String
    → String
    → Option String
    → Option String
    → Option String
    → Result Unit × FakeStore
update_status s now id status ended_at term digest =
    if not (is_valid_attempt_status status)
    then (err check_violation, s)
    else elim (Table.get s.attempts id) [
      | none ↦ (err not_found, s)
      | some a ↦ (
        ok tt,
        record s {
          attempts = Table.put s.attempts id (record a {
            status = status;
            ended_at = some (elim ended_at [ none ↦ now | some t ↦ t ]);
            termination_reason = term;
            result_digest = digest;
          });
        },
      )
    ]

abbrev pub is_of_step : String → String → Attempt → Bool
is_of_step exec_id step_id a = a.execution_id == exec_id && a.step_id == step_id

-- `n++` for each attempt of the step
abbrev pub tally : (Attempt → Bool) → List Attempt → ℕ
tally p [] = 0
tally p (a ∷ l) = if p a then tally p l + 1 else tally p l

unfoldable pub count_by_step : FakeStore → String → String → ℕ
count_by_step s exec_id step_id = tally (is_of_step exec_id step_id) (values s.attempts)

-- Go's `>` on strings
abbrev pub gt_text : String → String → Bool
gt_text a b = is_lt (compare b a)

-- The order that picks the current attempt: the later start, then the greater id.
unfoldable pub is_later : Attempt → Attempt → Bool
is_later a b =
    gt_text a.started_at b.started_at || (a.started_at == b.started_at && gt_text a.id b.id)

-- The loop over the attempts of the step, with the variable `current`.
unfoldable pub latest : (Attempt → Bool) → Option Attempt → List Attempt → Option Attempt
latest p current [] = current
latest p current (a ∷ l) =
    latest p
      (if not (p a)
        then current
        else (elim current [ none ↦ some a | some c ↦ if is_later a c then some a else some c ]))
      l

unfoldable pub current_by_step : FakeStore → String → String → Result Attempt
current_by_step s exec_id step_id =
    elim (latest (is_of_step exec_id step_id) none (values s.attempts)) [
      | none ↦ err not_found
      | some a ↦ ok a
    ]
