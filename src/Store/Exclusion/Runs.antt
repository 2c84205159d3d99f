-- ===== src/Store/Exclusion/Runs.antt =====
-- Mutual exclusion of path claims over any sequence of calls.
use haro.Prelude.{
  ℕ, ◌+◌, ◌^◌, ◌<◌, String, List, [], ◌∷◌, ◌≡◌, ◌≢◌, true, false, some, arith, length, nat_eq,
}
use haro.Prelude.Table
use haro.Store.Types.{PathClaim}
use haro.Store.State.{FakeStore, new_fake_store}
use haro.Store.PathClaims.{is_active, conflicts}
use haro.Store.Calls.{
  Call, perform, perform_all, project_create, execution_create, execution_update_status,
  step_create, step_update_status, step_update_generation, step_set_pending_feedback,
  attempt_create, attempt_update_status, generation_create, generation_invalidate_by_step,
  event_create, transition_create, transport_put, claim_acquire, claim_release, lease_acquire,
  lease_renew, lease_release, interaction_create, interaction_resolve,
}
use haro.Store.Exclusion.{Exclusive, Keeps, Unchanged-Keeps, acquire-Keeps, release-Keeps}
use haro.Store.Exclusion.Frame.{
  project_create-Unchanged, execution_create-Unchanged, execution_update_status-Unchanged,
  step_create-Unchanged, step_update_status-Unchanged, step_update_generation-Unchanged,
  step_set_pending_feedback-Unchanged, attempt_create-Unchanged, attempt_update_status-Unchanged,
  generation_create-Unchanged, generation_invalidate_by_step-Unchanged, event_create-Unchanged,
  transition_create-Unchanged, transport_put-Unchanged, lease_acquire-Unchanged,
  lease_renew-Unchanged, lease_release-Unchanged, interaction_create-Unchanged,
  interaction_resolve-Unchanged,
}

-- One call keeps the claims apart, and the counter moves by at most one.
perform-Keeps :
    (s : FakeStore) (c : Call)
    → s.path_claim_next_id + 1 < 2 ^ 64
    → Exclusive s.path_claim_next_id s.path_claims
    → Keeps s (perform s c)
unfolding perform
perform-Keeps s (project_create now id root_path) small h =
    Unchanged-Keeps s h _ (project_create-Unchanged s now id root_path)
perform-Keeps s (execution_create now e) small h =
    Unchanged-Keeps s h _ (execution_create-Unchanged s now e)
perform-Keeps s (execution_update_status now id status) small h =
    Unchanged-Keeps s h _ (execution_update_status-Unchanged s now id status)
perform-Keeps s (step_create x) small h = Unchanged-Keeps s h _ (step_create-Unchanged s x)
perform-Keeps s (step_update_status exec_id step_id status) small h =
    Unchanged-Keeps s h _ (step_update_status-Unchanged s exec_id step_id status)
perform-Keeps s (step_update_generation exec_id step_id gen) small h =
    Unchanged-Keeps s h _ (step_update_generation-Unchanged s exec_id step_id gen)
perform-Keeps s (step_set_pending_feedback exec_id step_id feedback) small h =
    Unchanged-Keeps s h _ (step_set_pending_feedback-Unchanged s exec_id step_id feedback)
perform-Keeps s (attempt_create now a) small h =
    Unchanged-Keeps s h _ (attempt_create-Unchanged s now a)
perform-Keeps s (attempt_update_status now id status ended_at term digest) small h =
    Unchanged-Keeps s h _ (attempt_update_status-Unchanged s now id status ended_at term digest)
perform-Keeps s (generation_create now g) small h =
    Unchanged-Keeps s h _ (generation_create-Unchanged s now g)
perform-Keeps s (generation_invalidate_by_step now exec_id step_id by) small h =
    Unchanged-Keeps s h _ (generation_invalidate_by_step-Unchanged s now exec_id step_id by)
perform-Keeps s (event_create now e) small h =
    Unchanged-Keeps s h _ (event_create-Unchanged s now e)
perform-Keeps s (transition_create now e) small h =
    Unchanged-Keeps s h _ (transition_create-Unchanged s now e)
perform-Keeps s (transport_put t) small h = Unchanged-Keeps s h _ (transport_put-Unchanged s t)
perform-Keeps s (claim_acquire now c) small h = acquire-Keeps s h now c small
perform-Keeps s (claim_release now project_id path execution_id step_id) small h =
    release-Keeps s h now project_id path execution_id step_id
perform-Keeps s (lease_acquire now execution_id step_id holder) small h =
    Unchanged-Keeps s h _ (lease_acquire-Unchanged s now execution_id step_id holder)
perform-Keeps s (lease_renew now execution_id step_id holder token) small h =
    Unchanged-Keeps s h _ (lease_renew-Unchanged s now execution_id step_id holder token)
perform-Keeps s (lease_release now execution_id step_id holder token) small h =
    Unchanged-Keeps s h _ (lease_release-Unchanged s now execution_id step_id holder token)
perform-Keeps s (interaction_create i) small h =
    Unchanged-Keeps s h _ (interaction_create-Unchanged s i)
perform-Keeps s (interaction_resolve now id key decision) small h =
    Unchanged-Keeps s h _ (interaction_resolve-Unchanged s now id key decision)

perform_all_keeps :
    (s : FakeStore) (cs : List Call)
    → s.path_claim_next_id + length cs < 2 ^ 64
    → Exclusive s.path_claim_next_id s.path_claims
    → Exclusive (perform_all s cs).path_claim_next_id (perform_all s cs).path_claims
unfolding perform_all
perform_all_keeps s [] small h = h
perform_all_keeps s (c ∷ cs) small h =
    let one = perform-Keeps s c (omega arith) h in
    perform_all_keeps (perform s c) cs (omega (arith, one.grows)) one.exclusive

new_fake_store-Exclusive : Exclusive 0 []
unfolding Table.get
new_fake_store-Exclusive = record { counted = λ k c q. cc; apart = λ p i j a b qa qb i≢j aa ab. cc }

-- After any sequence of fewer than 2^64 calls on a new store, whatever they answered, two different
-- active claims of one project never conflict: their paths do not overlap, or the policy lets both
-- stand.
pub claims_exclude :
    (cs : List Call) (project_id : String) (i j : ℕ) (a b : PathClaim)
    → length cs < 2 ^ 64
    → Table.get (perform_all new_fake_store cs).path_claims i ≡ some a
    → Table.get (perform_all new_fake_store cs).path_claims j ≡ some b
    → i ≢ j
    → is_active project_id a ≡ true
    → is_active project_id b ≡ true
    → conflicts a b ≡ false
claims_exclude cs project_id i j a b small =
    (perform_all_keeps new_fake_store cs (omega arith) new_fake_store-Exclusive).apart project_id i
      j a b
