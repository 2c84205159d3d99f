-- ===== src/Execution/Steps.antt =====
-- The state machine of the steps: internal/execution/state.go, and transitionStepWithStore and
-- resyncExecutionWithStore of engine.go. `now` is the formatted time of the call.
use Prim.Native.Char.{code}
use Prim.Native.String.{String}
use mathlib.Core.List.{foldl}
use haro.Prelude.{
  ℕ, Bool, true, false, Option, none, some, List, [], ◌∷◌, not, ◌&&◌, ◌||◌, ◌==◌, if◌then◌else◌,
  string_eq, nat_eq, leb, any, all,
}
use haro.Store.Types.{ExecutionStep, Execution, Result, ok, err}
use haro.Store.State.{FakeStore}
use haro.Store.Steps
use haro.Store.Executions
use haro.Store.Attempts
use haro.Store.Events
use haro.Execution.Action.{
  Action, reason_required, only_virgin_pending, no_attempts_allowed, forbidden_transition, pure,
  read, gets, write, refuse_if, ◌>>=◌, ◌>>◌,
}

-- The map `allowedTransitions`, with `isAllowed`.
unfoldable pub is_allowed : String → String → Bool
is_allowed from to =
    if from == "pending"
    then to == "running" || to == "skipped"
    else if from == "running"
    then to == "completed" || to == "failed"
    else if from == "completed"
    then to == "pending"
    else if from == "failed"
    then to == "pending"
    else false

-- The update of the status and the event that audits it, with the `from` that the event names.
unfoldable pub audited_update : String → String → String → Option String → String → Action Unit
audited_update now execution_id step_id from_status to = do
  write (λ s. Steps.update_status s execution_id step_id to)
  cursor ← gets (λ s. Events.next_transition_cursor s execution_id step_id)
  write (λ s. Events.create_transition s now (record {
    id = 0;
    execution_id = execution_id;
    step_id = step_id;
    cursor = cursor;
    from_status = from_status;
    to_status = to;
    occurred_at = "";
  }))
  pure tt

unfoldable pub transition_step : String → String → String → String → String → Action Unit
unfolding audited_update
transition_step now execution_id step_id from to = do
  cur ← read (λ s. Steps.get s execution_id step_id)
  if cur.status == to
      then pure tt
      else audited_update now execution_id step_id (if from == "" then none else some from) to

unfoldable pub transition_step_with_force : String → String → String → String → String → Action Unit
unfolding audited_update
transition_step_with_force now execution_id step_id from to = do
  cur ← read (λ s. Steps.get s execution_id step_id)
  if cur.status == to then pure tt else audited_update now execution_id step_id (some from) to

-- The variables of the first loop of `resyncExecution`.
pub record Flags : Type 0 where
  pub all_completed : Bool
  pub has_failed : Bool
  pub has_running : Bool

unfoldable pub scan : Flags → ExecutionStep → Flags
scan f x = record {
  all_completed =
      f.all_completed
      && not (x.status == "failed" || x.status == "pending" || x.status == "running");
  has_failed = f.has_failed || x.status == "failed";
  has_running = f.has_running || x.status == "running";
}

abbrev pub is_completed_or_skipped : ExecutionStep → Bool
is_completed_or_skipped x = x.status == "completed" || x.status == "skipped"

abbrev pub is_open : ExecutionStep → Bool
is_open x = x.status == "pending" || x.status == "running"

abbrev pub is_empty : List ExecutionStep → Bool
is_empty [] = true
is_empty (x ∷ xs) = false

unfoldable pub resync_status : List ExecutionStep → String
unfolding scan
resync_status steps =
    let f =
      foldl scan (record { all_completed = true; has_failed = false; has_running = false }) steps in
    let status =
      if f.all_completed && not (is_empty steps)
      then (if all is_completed_or_skipped steps then "completed" else "running")
      else if f.has_failed
      then (if not (any is_open steps) then "failed" else "running")
      else "running" in
    if f.has_running then "running" else status

-- Whether the worktree of an ended execution is removed: `root` is the engine's, and `managed` says
-- that it has a worktree manager.
unfoldable pub removable : Bool → String → String → Result Execution → Option String
removable managed root status (err e) = none
removable managed root status (ok x) =
    if (status == "completed" || status == "failed")
      && managed
      && x.workspace_mode == "isolated"
      && not (x.workspace_root == "")
      && not (x.workspace_root == root)
    then some x.workspace_root
    else none

-- The store afterwards, and the worktree that is removed. Errors of the update are dropped.
unfoldable pub resync_execution :
    Bool → String → String → String → FakeStore → Option String × FakeStore
unfolding resync_status removable
resync_execution managed root now execution_id s =
    let status = resync_status (Steps.list s execution_id) in
    let s' = (Executions.update_status s now execution_id status).1 in
    (removable managed root status (Executions.get s' execution_id), s')

-- unicode.IsSpace
unfoldable pub is_space : ℕ → Bool
is_space c =
    (leb 9 c && leb c 13)
    || c == 32
    || c == 0x85
    || c == 0xa0
    || c == 0x1680
    || (leb 0x2000 c && leb c 0x200a)
    || c == 0x2028
    || c == 0x2029
    || c == 0x202f
    || c == 0x205f
    || c == 0x3000

-- strings.TrimSpace(s) == ""
unfoldable pub is_blank : String → Bool
unfolding is_space
is_blank String.[] = true
is_blank (String.◌∷◌ c s) = is_space (code c) && is_blank s

unfoldable pub skip_step :
    Bool → String → String → String → String → String → Action (Option String)
skip_step managed root now execution_id step_id reason = do
  refuse_if (is_blank reason) reason_required
  step ← read (λ s. Steps.get s execution_id step_id)
  refuse_if (not (step.status == "pending")) only_virgin_pending
  cnt ← gets (λ s. Attempts.count_by_step s execution_id step_id)
  refuse_if (not (cnt == 0)) no_attempts_allowed
  transition_step now execution_id step_id "pending" "skipped"
  write (λ s.
      let (removed, s') = resync_execution managed root now execution_id s in (ok removed, s'))

unfoldable pub transition_for_test : String → String → String → String → Action Unit
transition_for_test now execution_id step_id to = do
  cur ← read (λ s. Steps.get s execution_id step_id)
  if cur.status == to then pure tt else do
    refuse_if (not (is_allowed cur.status to)) forbidden_transition
    transition_step now execution_id step_id cur.status to
