-- ===== src/Examples/EngineRuns.antt =====
-- The theorems on the steps of an execution and on transactions, at the scenario.
use haro.Prelude.{
  Option, ◌==◌, string_eq, nat_eq, Bool, ◌+◌, ◌^◌, ◌<◌, ◌≡◌, refl, false, none, some, [], ◌∷◌,
  arith, string_eq, nat_eq,
}
use haro.Prelude.Table
use haro.Store.Types.{Error, StepTransitionEvent}
use haro.Store.State.{
  FakeStore, new_fake_store, step_key, is_valid_execution_status, is_valid_workspace_mode,
  is_valid_step_type, is_valid_step_status,
}
use haro.Store.Projects
use haro.Store.Executions
use haro.Store.Steps
use haro.Store.Calls.{call, perform, perform_all, claim_acquire}
use haro.Store.Events.{list_transitions, rank, past_max, next_transition_cursor, create_transition}
use haro.Store.Cursors.{next_transition_cursor-create, transition_rows}
use haro.Store.Sorting.Order.{Ascending, count, list_transitions-Ascending}
use haro.Store.Tx.{with_tx}
use haro.Store.Tx.Laws.{with_tx_loses_updates}
use haro.Store.Integrity.{Integrity}
use haro.Store.Integrity.Runs.{perform-Integrity, perform_all-Integrity}
use haro.Execution.Action.{done, failed, forbidden_transition}
use haro.Execution.Steps.{
  resync_status, transition_step, skip_step, transition_for_test, is_blank, is_space,
}
use haro.Execution.Resync.{resync_status_lem}
use haro.Execution.Transitions.{transitioned, transition_step_changes}
use haro.Execution.Skips.{skipped, skip_step_lem, skipped_is_final}
use haro.Store.Attempts
use haro.Examples.Scenario.{start, setup, step, claim}

perform-Integrity_example : Integrity (perform start (claim_acquire "t1" (claim "a")))
perform-Integrity_example =
    perform-Integrity start (claim_acquire "t1" (claim "a")) (perform_all-Integrity setup)

resync_status_lem_example : resync_status (step ∷ []) ≡ "running"
resync_status_lem_example = resync_status_lem (step ∷ [])

step_found : Table.get start.steps (step_key "e" "s") ≡ some step
unfolding perform_all perform call Projects.create Executions.create Steps.create Table.get
    Table.put Table.has is_valid_execution_status is_valid_workspace_mode is_valid_step_type
    is_valid_step_status step_key
step_found = refl

few_events : past_max 0 (transition_rows start "e" "s") < 2 ^ 63
unfolding past_max perform_all perform call Projects.create Executions.create Steps.create Table.get
    Table.put Table.has is_valid_execution_status is_valid_workspace_mode is_valid_step_type
    is_valid_step_status step_key
few_events = omega arith

few_events_more : past_max 0 (transition_rows start "e" "s") + 1 < 2 ^ 63
unfolding past_max perform_all perform call Projects.create Executions.create Steps.create Table.get
    Table.put Table.has is_valid_execution_status is_valid_workspace_mode is_valid_step_type
    is_valid_step_status step_key
few_events_more = omega arith

transition_step_changes_example :
    transition_step "t1" "e" "s" "pending" "running" start
    ≡ (done tt, transitioned start "t1" step "e" "s" (some "pending") "running")
unfolding is_valid_step_status
transition_step_changes_example =
    transition_step_changes start "t1" "e" "s" "pending" "running" step step_found refl refl
      few_events

skip_step_lem_example :
    skip_step false "/repo" "t1" "e" "s" "unused" start
    ≡ skipped start false "/repo" "t1" step "e" "s"
unfolding is_blank is_space Attempts.count_by_step perform_all perform call Projects.create
    Executions.create Steps.create Table.get Table.put Table.has is_valid_execution_status
    is_valid_workspace_mode is_valid_step_type is_valid_step_status step_key
skip_step_lem_example = skip_step_lem start false "/repo" "t1" "e" "s" "unused" few_events

abbrev after_skip : FakeStore
after_skip = (Steps.update_status start "e" "s" "skipped").1

skipped_found :
    Table.get after_skip.steps (step_key "e" "s") ≡ some (record step { status = "skipped" })
unfolding Steps.update_status perform_all perform call Projects.create Executions.create
    Steps.create Table.get Table.put Table.has is_valid_execution_status is_valid_workspace_mode
    is_valid_step_type is_valid_step_status step_key
skipped_found = refl

skipped_is_final_example :
    transition_for_test "t2" "e" "s" "running" after_skip
    ≡ (failed forbidden_transition, after_skip)
skipped_is_final_example =
    skipped_is_final after_skip false "/repo" "t2" "e" "s" "" "running"
      (record step { status = "skipped" }) skipped_found refl

abbrev event : StepTransitionEvent
event = record {
  id = 0;
  execution_id = "e";
  step_id = "s";
  cursor = 0;
  from_status = none;
  to_status = "running";
  occurred_at = "t1";
}

numbered : 0 ≡ next_transition_cursor start "e" "s"
unfolding next_transition_cursor past_max perform_all perform call Projects.create Executions.create
    Steps.create Table.get Table.put Table.has is_valid_execution_status is_valid_workspace_mode
    is_valid_step_type is_valid_step_status step_key
numbered = refl

next_transition_cursor-create_example :
    next_transition_cursor (create_transition start "t1" event).1 "e" "s" ≡ 1
next_transition_cursor-create_example =
    next_transition_cursor-create start "t1" event numbered few_events_more

abbrev audited : FakeStore
audited = (create_transition start "t1" event).1

abbrev starts_run : StepTransitionEvent → Bool
starts_run e = e.to_status == "running"

list_transitions-Ascending_example :
    Ascending (λ e. rank e.cursor) (list_transitions audited "e" "s")
    × (count starts_run (list_transitions audited "e" "s") ≡ 1)
unfolding create_transition perform_all perform call Projects.create Executions.create Steps.create
    Table.get Table.put Table.has is_valid_execution_status is_valid_workspace_mode
    is_valid_step_type is_valid_step_status step_key
list_transitions-Ascending_example = list_transitions-Ascending audited "e" "s" starts_run

-- A body that writes a project.
abbrev succeeds : FakeStore → Option Error × FakeStore
succeeds s = (none, (Projects.create s "t1" "q" "/q").1)

abbrev others : FakeStore → FakeStore
others s = (Projects.create s "t1" "r" "/r").1

with_tx_loses_updates_example :
    with_tx new_fake_store others succeeds ≡ with_tx new_fake_store (λ t. t) succeeds
unfolding with_tx Projects.create Table.has Table.get
with_tx_loses_updates_example = with_tx_loses_updates new_fake_store others succeeds refl refl refl
