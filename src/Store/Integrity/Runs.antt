-- ===== src/Store/Integrity/Runs.antt =====
-- The integrity of the store over any sequence of calls.
use haro.Prelude.{List, [], ◌∷◌}
use haro.Store.State.{FakeStore, new_fake_store}
use haro.Store.Calls.{
  Call, perform, perform_all, project_create, execution_create, execution_update_status,
  step_create, step_update_status, step_update_generation, step_set_pending_feedback,
  attempt_create, attempt_update_status, generation_create, generation_invalidate_by_step,
  event_create, transition_create, transport_put, claim_acquire, claim_release, lease_acquire,
  lease_renew, lease_release, interaction_create, interaction_resolve,
}
use haro.Store.Integrity.{Integrity, new_fake_store-Integrity}
use haro.Store.Integrity.Creation.{
  projects_create-Integrity, executions_create-Integrity, steps_create-Integrity,
  generations_create-Integrity, attempts_create-Integrity,
}
use haro.Store.Integrity.Updates.{
  executions_update_status-Integrity, attempts_update_status-Integrity,
  steps_update_status-Integrity, steps_update_generation-Integrity,
  steps_set_pending_feedback-Integrity, generations_invalidate_by_step-Integrity,
}
use haro.Store.Integrity.Records.{
  create_attempt_event-Integrity, create_transition-Integrity, transports_put-Integrity,
  leases_acquire-Integrity, leases_renew-Integrity, leases_release-Integrity,
}
use haro.Store.Integrity.Claims.{path_claims_acquire-Integrity, path_claims_release-Integrity}
use haro.Store.Integrity.Decisions.{interactions_create-Integrity, interactions_resolve-Integrity}

-- Each call, whatever it answers, keeps the integrity of the store.
pub perform-Integrity : (s : FakeStore) (c : Call) → Integrity s → Integrity (perform s c)
unfolding perform
perform-Integrity s (project_create now id root_path) h =
    projects_create-Integrity s h now id root_path
perform-Integrity s (execution_create now e) h = executions_create-Integrity s h now e
perform-Integrity s (execution_update_status now id status) h =
    executions_update_status-Integrity s h now id status
perform-Integrity s (step_create x) h = steps_create-Integrity s h x
perform-Integrity s (step_update_status exec_id step_id status) h =
    steps_update_status-Integrity s h exec_id step_id status
perform-Integrity s (step_update_generation exec_id step_id gen) h =
    steps_update_generation-Integrity s h exec_id step_id gen
perform-Integrity s (step_set_pending_feedback exec_id step_id feedback) h =
    steps_set_pending_feedback-Integrity s h exec_id step_id feedback
perform-Integrity s (attempt_create now a) h = attempts_create-Integrity s h now a
perform-Integrity s (attempt_update_status now id status ended_at term digest) h =
    attempts_update_status-Integrity s h now id status ended_at term digest
perform-Integrity s (generation_create now g) h = generations_create-Integrity s h now g
perform-Integrity s (generation_invalidate_by_step now exec_id step_id by) h =
    generations_invalidate_by_step-Integrity s h now exec_id step_id by
perform-Integrity s (event_create now e) h = create_attempt_event-Integrity s h now e
perform-Integrity s (transition_create now e) h = create_transition-Integrity s h now e
perform-Integrity s (transport_put t) h = transports_put-Integrity s h t
perform-Integrity s (claim_acquire now c) h = path_claims_acquire-Integrity s h now c
perform-Integrity s (claim_release now project_id path execution_id step_id) h =
    path_claims_release-Integrity s h now project_id path execution_id step_id
perform-Integrity s (lease_acquire now execution_id step_id holder) h =
    leases_acquire-Integrity s h now execution_id step_id holder
perform-Integrity s (lease_renew now execution_id step_id holder token) h =
    leases_renew-Integrity s h now execution_id step_id holder token
perform-Integrity s (lease_release now execution_id step_id holder token) h =
    leases_release-Integrity s h now execution_id step_id holder token
perform-Integrity s (interaction_create i) h = interactions_create-Integrity s h i
perform-Integrity s (interaction_resolve now id key decision) h =
    interactions_resolve-Integrity s h now id key decision

perform_all_keeps : (s : FakeStore) (cs : List Call) → Integrity s → Integrity (perform_all s cs)
unfolding perform_all
perform_all_keeps s [] h = h
perform_all_keeps s (c ∷ cs) h = perform_all_keeps (perform s c) cs (perform-Integrity s c h)

-- After any calls on a new store, whatever they answered, every row but the transition events stands
-- under its own key; executions, steps, generations, attempts, attempt events, transports, path
-- claims and interactions refer to rows that are there (of what a path claim names, this is its
-- project); and the columns with a CHECK hold listed words. Of leases only the key is claimed, of
-- transition events nothing.
pub perform_all-Integrity : (cs : List Call) → Integrity (perform_all new_fake_store cs)
perform_all-Integrity cs = perform_all_keeps new_fake_store cs new_fake_store-Integrity
