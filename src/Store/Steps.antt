-- ===== src/Store/Steps.antt =====
-- fakeStepsRepo of internal/store/fake.go
use haro.Prelude.{ℕ, String, Option, none, some, List, not, ◌==◌, if◌then◌else◌, string_eq, select}
use haro.Prelude.Table
use haro.Prelude.Table.{values}
use haro.Store.Types.{
  ExecutionStep, Result, ok, err, not_found, unique_violation, foreign_key_violation,
  check_violation,
}
use haro.Store.State.{
  FakeStore, step_key, is_valid_step_type, is_valid_step_status, is_valid_workspace_mode,
}

unfoldable pub create : FakeStore → ExecutionStep → Result Unit × FakeStore
create s x =
    let k = step_key x.execution_id x.step_id in
    if Table.has s.steps k
    then (err unique_violation, s)
    else if not (Table.has s.executions x.execution_id)
    then (err foreign_key_violation, s)
    else if not (is_valid_step_type x.type)
    then (err check_violation, s)
    else if not (is_valid_step_status x.status)
    then (err check_violation, s)
    else if not (is_valid_workspace_mode x.workspace_mode)
    then (err check_violation, s)
    else (ok tt, record s { steps = Table.put s.steps k x })

unfoldable pub get : FakeStore → String → String → Result ExecutionStep
get s exec_id step_id = elim (Table.get s.steps (step_key exec_id step_id)) [
  | none ↦ err not_found
  | some x ↦ ok x
]

unfoldable pub list : FakeStore → String → List ExecutionStep
list s exec_id = select (λ x. x.execution_id == exec_id) (values s.steps)

-- A write through the pointer of the map, or `ErrNotFound`.
abbrev pub modify : FakeStore → String → (ExecutionStep → ExecutionStep) → Result Unit × FakeStore
modify s k f = elim (Table.get s.steps k) [
  | none ↦ (err not_found, s)
  | some x ↦ (ok tt, record s { steps = Table.put s.steps k (f x) })
]

unfoldable pub update_status : FakeStore → String → String → String → Result Unit × FakeStore
update_status s exec_id step_id status =
    if not (is_valid_step_status status)
    then (err check_violation, s)
    else modify s (step_key exec_id step_id) (λ x. record x { status = status })

unfoldable pub update_generation : FakeStore → String → String → ℕ → Result Unit × FakeStore
update_generation s exec_id step_id gen =
    modify s (step_key exec_id step_id) (λ x. record x { current_generation = gen })

unfoldable pub set_pending_feedback :
    FakeStore → String → String → Option String → Result Unit × FakeStore
set_pending_feedback s exec_id step_id feedback =
    modify s (step_key exec_id step_id) (λ x. record x { pending_feedback = feedback })
