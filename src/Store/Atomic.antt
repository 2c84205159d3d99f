-- ===== src/Store/Atomic.antt =====
-- The calls of internal/store/fake.go that answer an error.
use haro.Prelude.{some, ◌≡◌, arith}
use haro.Store.Types.{Error}
use haro.Store.State.{FakeStore}
use haro.Store.Projects
use haro.Store.Executions
use haro.Store.Steps
use haro.Store.Attempts
use haro.Store.Generations
use haro.Store.Events
use haro.Store.Transports
use haro.Store.PathClaims
use haro.Store.Leases
use haro.Store.Interactions
use haro.Store.Calls.{
  Call, call, perform, project_create, execution_create, execution_update_status, step_create,
  step_update_status, step_update_generation, step_set_pending_feedback, attempt_create,
  attempt_update_status, generation_create, generation_invalidate_by_step, event_create,
  transition_create, transport_put, claim_acquire, claim_release, lease_acquire, lease_renew,
  lease_release, interaction_create, interaction_resolve,
}

-- No method leaves a half-done write behind: whichever of its checks refuses a call, the store is as
-- it was.
pub error_unchanged :
    (s : FakeStore) (c : Call) (error : Error) → (call s c).0 ≡ some error → perform s c ≡ s
unfolding perform
error_unchanged s (project_create now id root_path) error h = unfold Projects.create in ground arith
error_unchanged s (execution_create now e) error h = unfold Executions.create in ground arith
error_unchanged s (execution_update_status now id status) error h =
    unfold Executions.update_status in ground arith
error_unchanged s (step_create x) error h = unfold Steps.create in ground arith
error_unchanged s (step_update_status exec_id step_id status) error h =
    unfold Steps.update_status in ground arith
error_unchanged s (step_update_generation exec_id step_id gen) error h =
    unfold Steps.update_generation in ground arith
error_unchanged s (step_set_pending_feedback exec_id step_id feedback) error h =
    unfold Steps.set_pending_feedback in ground arith
error_unchanged s (attempt_create now a) error h = unfold Attempts.create in ground arith
error_unchanged s (attempt_update_status now id status ended_at term digest) error h =
    unfold Attempts.update_status in ground arith
error_unchanged s (generation_create now g) error h = unfold Generations.create in ground arith
error_unchanged s (generation_invalidate_by_step now exec_id step_id by) error h =
    unfold Generations.invalidate_by_step in ground arith
error_unchanged s (event_create now e) error h = unfold Events.create_attempt_event in ground arith
error_unchanged s (transition_create now e) error h =
    unfold Events.create_transition in ground arith
error_unchanged s (transport_put t) error h = unfold Transports.put in ground arith
error_unchanged s (claim_acquire now c) error h = unfold PathClaims.acquire in ground arith
error_unchanged s (claim_release now project_id path execution_id step_id) error h =
    unfold PathClaims.release in ground arith
error_unchanged s (lease_acquire now execution_id step_id holder) error h =
    unfold Leases.acquire in ground arith
error_unchanged s (lease_renew now execution_id step_id holder token) error h =
    unfold Leases.renew in ground arith
error_unchanged s (lease_release now execution_id step_id holder token) error h =
    unfold Leases.release in ground arith
error_unchanged s (interaction_create i) error h = unfold Interactions.create in ground arith
error_unchanged s (interaction_resolve now id key decision) error h =
    unfold Interactions.resolve in ground arith
