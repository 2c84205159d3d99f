-- ===== src/Store/Executions.antt =====
-- fakeExecutionsRepo of internal/store/fake.go. `create` stamps the caller's struct; the struct as
-- the caller has it afterwards is the result.
use haro.Prelude.{String, Option, none, some, not, ◌||◌, ◌==◌, if◌then◌else◌, string_eq}
use haro.Prelude.Table
use haro.Store.Types.{
  Execution, Result, ok, err, not_found, unique_violation, foreign_key_violation, check_violation,
}
use haro.Store.State.{FakeStore, is_valid_execution_status, is_valid_workspace_mode, default_to}

unfoldable pub create : FakeStore → String → Execution → Result Execution × FakeStore
create s now e =
    if Table.has s.executions e.id
    then (err unique_violation, s)
    else if not (Table.has s.projects e.project_id)
    then (err foreign_key_violation, s)
    else if not (is_valid_execution_status e.status)
    then (err check_violation, s)
    else if not (is_valid_workspace_mode e.workspace_mode)
    then (err check_violation, s)
    else let stamped = record e { started_at = default_to now e.started_at } in
      (ok stamped, record s { executions = Table.put s.executions e.id stamped })

unfoldable pub get : FakeStore → String → Result Execution
get s id = elim (Table.get s.executions id) [ none ↦ err not_found | some e ↦ ok e ]

-- The end time is set once, by the first status that ends the execution.
unfoldable pub ended : String → String → Execution → Option String
ended now status e =
    if status == "completed" || status == "failed"
    then (elim e.ended_at [ none ↦ some now | some t ↦ some t ])
    else e.ended_at

unfoldable pub update_status : FakeStore → String → String → String → Result Unit × FakeStore
unfolding ended
update_status s now id status = elim (Table.get s.executions id) [
  | none ↦ (err not_found, s)
  | some e ↦ if not (is_valid_execution_status status) then (err check_violation, s) else (
    ok tt,
    record s {
      executions =
          Table.put s.executions id (record e { status = status; ended_at = ended now status e });
    },
  )
]
