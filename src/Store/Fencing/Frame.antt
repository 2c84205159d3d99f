-- ===== src/Store/Fencing/Frame.antt =====
-- The methods of the other repositories leave the leases alone.
use haro.Prelude.{ℕ, String, Option, ◌≡◌, arith, string_eq, nat_eq}
use haro.Store.Types.{
  Execution, ExecutionStep, Generation, Attempt, AttemptEvent, StepTransitionEvent, Transport,
  PathClaim, Interaction,
}
use haro.Store.State.{FakeStore}
use haro.Store.Projects
use haro.Store.Executions
use haro.Store.Steps
use haro.Store.Attempts
use haro.Store.Generations
use haro.Store.Events
use haro.Store.Transports
use haro.Store.PathClaims
use haro.Store.Interactions

module _ (s : FakeStore) where
  pub project_create-leases :
      (now id root_path : String) → (Projects.create s now id root_path).1.leases ≡ s.leases
  unfolding Projects.create
  project_create-leases now id root_path = ground arith

  pub execution_create-leases :
      (now : String) → (e : Execution) → (Executions.create s now e).1.leases ≡ s.leases
  unfolding Executions.create
  execution_create-leases now e = ground arith

  pub execution_update_status-leases :
      (now id status : String) → (Executions.update_status s now id status).1.leases ≡ s.leases
  unfolding Executions.update_status
  execution_update_status-leases now id status = ground arith

  pub step_create-leases : (x : ExecutionStep) → (Steps.create s x).1.leases ≡ s.leases
  unfolding Steps.create
  step_create-leases x = ground arith

  pub step_update_status-leases :
      (exec_id step_id status : String)
      → (Steps.update_status s exec_id step_id status).1.leases ≡ s.leases
  unfolding Steps.update_status
  step_update_status-leases exec_id step_id status = ground arith

  pub step_update_generation-leases :
      (exec_id step_id : String)
      → (gen : ℕ) → (Steps.update_generation s exec_id step_id gen).1.leases ≡ s.leases
  unfolding Steps.update_generation
  step_update_generation-leases exec_id step_id gen = ground arith

  pub step_set_pending_feedback-leases :
      (exec_id step_id : String)
      → (feedback : Option String)
      → (Steps.set_pending_feedback s exec_id step_id feedback).1.leases ≡ s.leases
  unfolding Steps.set_pending_feedback
  step_set_pending_feedback-leases exec_id step_id feedback = ground arith

  pub attempt_create-leases :
      (now : String) → (a : Attempt) → (Attempts.create s now a).1.leases ≡ s.leases
  unfolding Attempts.create
  attempt_create-leases now a = ground arith

  pub attempt_update_status-leases :
      (now id status : String)
      → (ended_at term digest : Option String)
      → (Attempts.update_status s now id status ended_at term digest).1.leases ≡ s.leases
  unfolding Attempts.update_status
  attempt_update_status-leases now id status ended_at term digest = ground arith

  pub generation_create-leases :
      (now : String) → (g : Generation) → (Generations.create s now g).1.leases ≡ s.leases
  unfolding Generations.create
  generation_create-leases now g = ground arith

  pub generation_invalidate_by_step-leases :
      (now exec_id step_id by : String)
      → (Generations.invalidate_by_step s now exec_id step_id by).1.leases ≡ s.leases
  unfolding Generations.invalidate_by_step
  generation_invalidate_by_step-leases now exec_id step_id by = ground arith

  pub event_create-leases :
      (now : String)
      → (e : AttemptEvent) → (Events.create_attempt_event s now e).1.leases ≡ s.leases
  unfolding Events.create_attempt_event
  event_create-leases now e = ground arith

  pub transition_create-leases :
      (now : String)
      → (e : StepTransitionEvent) → (Events.create_transition s now e).1.leases ≡ s.leases
  unfolding Events.create_transition
  transition_create-leases now e = ground arith

  pub transport_put-leases : (t : Transport) → (Transports.put s t).1.leases ≡ s.leases
  unfolding Transports.put
  transport_put-leases t = ground arith

  pub claim_acquire-leases :
      (now : String) → (c : PathClaim) → (PathClaims.acquire s now c).1.leases ≡ s.leases
  unfolding PathClaims.acquire
  claim_acquire-leases now c = ground arith

  pub claim_release-leases :
      (now project_id path execution_id step_id : String)
      → (PathClaims.release s now project_id path execution_id step_id).1.leases ≡ s.leases
  unfolding PathClaims.release
  claim_release-leases now project_id path execution_id step_id = ground arith

  pub interaction_create-leases : (i : Interaction) → (Interactions.create s i).1.leases ≡ s.leases
  unfolding Interactions.create
  interaction_create-leases i = ground arith

  pub interaction_resolve-leases :
      (now id key decision : String)
      → (Interactions.resolve s now id key decision).1.leases ≡ s.leases
  unfolding Interactions.resolve
  interaction_resolve-leases now id key decision = ground arith
