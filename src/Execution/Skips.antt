-- ===== src/Execution/Skips.antt =====
-- What SkipStep and TransitionForTest of internal/execution/state.go answer.
use haro.Prelude.{
  ◌^◌, ◌<◌, Bool, true, false, Bool-cases, inl, inr, Option, none, some, Option-cases, not, ◌==◌,
  ==_sound, ◌≡◌, refl, if◌then◌else◌, String, string_eq, nat_eq,
}
use haro.Prelude.Table
use haro.Store.Types.{ExecutionStep, err, not_found}
use haro.Store.State.{FakeStore, step_key, is_valid_step_status}
use haro.Store.Steps
use haro.Store.Attempts
use haro.Store.Events.{past_max}
use haro.Store.Cursors.{transition_rows}
use haro.Execution.Action.{
  Answer, done, failed, store_error, reason_required, only_virgin_pending, no_attempts_allowed,
  forbidden_transition,
}
use haro.Execution.Steps.{is_allowed, is_blank, resync_execution, skip_step, transition_for_test}
use haro.Execution.Transitions.{transitioned, get_found, transition_step_changes}

-- The store after a pending step was skipped, and the worktree that is removed.
abbrev pub skipped :
    FakeStore
    → Bool
    → String
    → String
    → ExecutionStep
    → String
    → String
    → Answer (Option String) × FakeStore
skipped s managed root now x execution_id step_id =
    let (removed, s') =
      resync_execution managed root now execution_id
        (transitioned s now x execution_id step_id (some "pending") "skipped") in
    (done removed, s')

-- The checks of SkipStep on a step, in their order.
abbrev pub skip_found :
    FakeStore
    → Bool
    → String
    → String
    → String
    → String
    → Option ExecutionStep
    → Answer (Option String) × FakeStore
skip_found s managed root now execution_id step_id none = (failed (store_error not_found), s)
skip_found s managed root now execution_id step_id (some x) =
    if not (x.status == "pending")
    then (failed only_virgin_pending, s)
    else if not (Attempts.count_by_step s execution_id step_id == 0)
    then (failed no_attempts_allowed, s)
    else skipped s managed root now x execution_id step_id

pending_is_not_skipped :
    (status : String) → (status == "pending") ≡ true → (status == "skipped") ≡ false
pending_is_not_skipped status pending = rw (==_sound status "pending" pending) refl

module _ (s : FakeStore) (managed : Bool) (root now execution_id step_id reason : String) where
  get_missing :
      Table.get s.steps (step_key execution_id step_id) ≡ none
      → Steps.get s execution_id step_id ≡ err not_found
  unfolding Steps.get
  get_missing free = rw (free, Steps.get) refl

  -- SkipStep answers with an error and the unchanged store where the reason is blank, the step is
  -- missing, the step is not pending or it has attempts, in this order. Otherwise it never fails:
  -- the step is skipped, one event from "pending" to "skipped" is appended, and the execution is
  -- resynchronised. The cursors of the step are assumed to stay below
  -- 2^63 - 1.
  pub skip_step_lem :
      past_max 0 (transition_rows s execution_id step_id) < 2 ^ 63
      → skip_step managed root now execution_id step_id reason s ≡ (
          if is_blank reason
          then (failed reason_required, s)
          else skip_found s managed root now execution_id step_id
              (Table.get s.steps (step_key execution_id step_id)))
  unfolding skip_step is_valid_step_status
  skip_step_lem small = elim (Bool-cases (is_blank reason)) [
    | inl blank ↦ rw (blank, skip_step) refl
    | inr given ↦ elim (Option-cases (Table.get s.steps (step_key execution_id step_id))) [
      | inl free ↦ rw (given, skip_step) (rw (get_missing free, free) refl)
      | inr (x, found) ↦
          rw (given, skip_step)
            (rw (get_found s now execution_id step_id "" "" x found, found)
              (elim (Bool-cases (x.status == "pending")) [
                | inl pending ↦
                    elim (Bool-cases (Attempts.count_by_step s execution_id step_id == 0)) [
                      | inl virgin ↦
                          rw (pending, virgin)
                            (rw
                              (transition_step_changes s now execution_id step_id "pending"
                                "skipped" x found (pending_is_not_skipped x.status pending) refl
                                small)
                              refl)
                      | inr tried ↦ rw (pending, tried) refl
                    ]
                | inr other ↦ rw other refl
              ]))
    ]
  ]

  -- TransitionForTest cannot leave the status "skipped": on a skipped step it answers without an
  -- error exactly for "skipped", refuses every other status, and never changes the store.
  pub skipped_is_final :
      (to : String) (x : ExecutionStep)
      → Table.get s.steps (step_key execution_id step_id) ≡ some x
      → x.status ≡ "skipped"
      → transition_for_test now execution_id step_id to s
        ≡ ((if "skipped" == to then done tt else failed forbidden_transition), s)
  unfolding transition_for_test is_allowed
  skipped_is_final to x found final =
      rw (get_found s now execution_id step_id "" "" x found, transition_for_test)
        (elim (Bool-cases ("skipped" == to)) [
          | inl same ↦ rw (final, same) refl
          | inr other ↦ rw (final, other) refl
        ])
