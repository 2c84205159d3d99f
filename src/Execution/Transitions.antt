-- ===== src/Execution/Transitions.antt =====
-- What the transitions of internal/execution do to the store.
use haro.Prelude.{
  ◌^◌, ◌<◌, true, false, Option, none, some, ◌==◌, ◌≡◌, refl, if◌then◌else◌, String, string_eq,
  nat_eq, arith,
}
use haro.Prelude.Table
use haro.Prelude.Table.{put}
use haro.Store.Types.{ExecutionStep, StepTransitionEvent, ok}
use haro.Store.State.{FakeStore, step_key, is_valid_step_status}
use haro.Store.Steps
use haro.Store.Events.{past_max, next_transition_cursor}
use haro.Store.Cursors.{transition_rows, create_transition_next}
use haro.Execution.Action.{done}
use haro.Execution.Steps.{audited_update, transition_step}

-- The event that audits a transition of a step.
abbrev pub transition_event :
    FakeStore → String → String → String → Option String → String → StepTransitionEvent
transition_event s now execution_id step_id from_status to = record {
  id = 0;
  execution_id = execution_id;
  step_id = step_id;
  cursor = next_transition_cursor s execution_id step_id;
  from_status = from_status;
  to_status = to;
  occurred_at = now;
}

-- The store with one step in another status and one more event of it.
abbrev pub transitioned :
    FakeStore → String → ExecutionStep → String → String → Option String → String → FakeStore
transitioned s now x execution_id step_id from_status to =
    let k = step_key execution_id step_id in
    let e = transition_event s now execution_id step_id from_status to in
    record s {
      steps = put s.steps k (record x { status = to });
      transition_events =
          put s.transition_events k (put (transition_rows s execution_id step_id) e.cursor e);
    }

module _ (s : FakeStore) (now execution_id step_id from to : String) (x : ExecutionStep)
    (found : Table.get s.steps (step_key execution_id step_id) ≡ some x) where
  pub get_found : Steps.get s execution_id step_id ≡ ok x
  unfolding Steps.get
  get_found = rw (found, Steps.get) refl

  abbrev pub updated : FakeStore
  updated = record s {
    steps = put s.steps (step_key execution_id step_id) (record x { status = to });
  }

  pub update_status_valid :
      is_valid_step_status to ≡ true
      → Steps.update_status s execution_id step_id to ≡ (ok tt, updated)
  unfolding Steps.update_status
  update_status_valid valid = rw (valid, Steps.update_status) (rw (found, Steps.modify) refl)

  audited_update_lem :
      (from_status : Option String)
      → is_valid_step_status to ≡ true
      → past_max 0 (transition_rows s execution_id step_id) < 2 ^ 63
      → audited_update now execution_id step_id from_status to s
        ≡ (done tt, transitioned s now x execution_id step_id from_status to)
  unfolding audited_update next_transition_cursor
  audited_update_lem from_status valid small =
      let e : StepTransitionEvent =
        record (transition_event updated now execution_id step_id from_status to) {
          occurred_at = "";
        } in
      rw (update_status_valid valid, audited_update)
        (rw (create_transition_next updated now e refl small) refl)

  -- A transition to the status that the step has does nothing.
  pub transition_step_same :
      (x.status == to) ≡ true → transition_step now execution_id step_id from to s ≡ (done tt, s)
  unfolding transition_step
  transition_step_same same = rw (get_found, transition_step) (ground arith)

  -- While the cursors of the step stay below 2^63 - 1, a transition of a stored step to another
  -- valid status never fails: it sets the status and appends the one event that audits it, and
  -- nothing else changes.
  pub transition_step_changes :
      (x.status == to) ≡ false
      → is_valid_step_status to ≡ true
      → past_max 0 (transition_rows s execution_id step_id) < 2 ^ 63
      → transition_step now execution_id step_id from to s ≡ (
        done tt,
        transitioned s now x execution_id step_id (if from == "" then none else some from) to,
      )
  unfolding transition_step
  transition_step_changes other valid small =
      rw (get_found, transition_step)
        (rw other (audited_update_lem (if from == "" then none else some from) valid small))
