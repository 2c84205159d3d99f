-- ===== src/Store/Exclusion/Frame.antt =====
-- The methods of the other repositories leave the path claims and their counter alone.
use haro.Prelude.{ℕ, String, Option, arith, nat_eq}
use haro.Store.Types.{
  Execution, ExecutionStep, Generation, Attempt, AttemptEvent, StepTransitionEvent, Transport,
  Interaction,
}
use haro.Store.State.{FakeStore}
use haro.Store.Projects
use haro.Store.Executions
use haro.Store.Steps
use haro.Store.Attempts
use haro.Store.Generations
use haro.Store.Events
use haro.Store.Transports
use haro.Store.Leases
use haro.Store.Interactions
use haro.Store.Exclusion.{Unchanged}

module _ (s : FakeStore) where
  pub project_create-Unchanged :
      (now id root_path : String) → Unchanged s (Projects.create s now id root_path).1
  unfolding Projects.create
  project_create-Unchanged now id root_path = ground arith

  pub execution_create-Unchanged :
      (now : String) → (e : Execution) → Unchanged s (Executions.create s now e).1
  unfolding Executions.create
  execution_create-Unchanged now e = ground arith

  pub execution_update_status-Unchanged :
      (now id status : String) → Unchanged s (Executions.update_status s now id status).1
  unfolding Executions.update_status
  execution_update_status-Unchanged now id status = ground arith

  pub step_create-Unchanged : (x : ExecutionStep) → Unchanged s (Steps.create s x).1
  unfolding Steps.create
  step_create-Unchanged x = ground arith

  pub step_update_status-Unchanged :
      (exec_id step_id status : String)
      → Unchanged s (Steps.update_status s exec_id step_id status).1
  unfolding Steps.update_status
  step_update_status-Unchanged exec_id step_id status = ground arith

  pub step_update_generation-Unchanged :
      (exec_id step_id : String)
      → (gen : ℕ) → Unchanged s (Steps.update_generation s exec_id step_id gen).1
  unfolding Steps.update_generation
  step_update_generation-Unchanged exec_id step_id gen = ground arith

  pub step_set_pending_feedback-Unchanged :
      (exec_id step_id : String)
      → (feedback : Option String)
      → Unchanged s (Steps.set_pending_feedback s exec_id step_id feedback).1
  unfolding Steps.set_pending_feedback
  step_set_pending_feedback-Unchanged exec_id step_id feedback = ground arith

  pub attempt_create-Unchanged :
      (now : String) → (a : Attempt) → Unchanged s (Attempts.create s now a).1
  unfolding Attempts.create
  attempt_create-Unchanged now a = ground arith

  pub attempt_update_status-Unchanged :
      (now id status : String)
      → (ended_at term digest : Option String)
      → Unchanged s (Attempts.update_status s now id status ended_at term digest).1
  unfolding Attempts.update_status
  attempt_update_status-Unchanged now id status ended_at term digest = ground arith

  pub generation_create-Unchanged :
      (now : String) → (g : Generation) → Unchanged s (Generations.create s now g).1
  unfolding Generations.create
  generation_create-Unchanged now g = ground arith

  pub generation_invalidate_by_step-Unchanged :
      (now exec_id step_id by : String)
      → Unchanged s (Generations.invalidate_by_step s now exec_id step_id by).1
  unfolding Generations.invalidate_by_step
  generation_invalidate_by_step-Unchanged now exec_id step_id by = ground arith

  pub event_create-Unchanged :
      (now : String) → (e : AttemptEvent) → Unchanged s (Events.create_attempt_event s now e).1
  unfolding Events.create_attempt_event
  event_create-Unchanged now e = ground arith

  pub transition_create-Unchanged :
      (now : String) → (e : StepTransitionEvent) → Unchanged s (Events.create_transition s now e).1
  unfolding Events.create_transition
  transition_create-Unchanged now e = ground arith

  pub transport_put-Unchanged : (t : Transport) → Unchanged s (Transports.put s t).1
  unfolding Transports.put
  transport_put-Unchanged t = ground arith

  pub lease_acquire-Unchanged :
      (now : ℕ)
      → (execution_id step_id holder : String)
      → Unchanged s (Leases.acquire s now execution_id step_id holder).1
  unfolding Leases.acquire
  lease_acquire-Unchanged now execution_id step_id holder = ground arith

  pub lease_renew-Unchanged :
      (now : ℕ)
      → (execution_id step_id holder : String) → (token : ℕ)
      → Unchanged s (Leases.renew s now execution_id step_id holder token).1
  unfolding Leases.renew
  lease_renew-Unchanged now execution_id step_id holder token = ground arith

  pub lease_release-Unchanged :
      (now : ℕ)
      → (execution_id step_id holder : String) → (token : ℕ)
      → Unchanged s (Leases.release s now execution_id step_id holder token).1
  unfolding Leases.release
  lease_release-Unchanged now execution_id step_id holder token = ground arith

  pub interaction_create-Unchanged : (i : Interaction) → Unchanged s (Interactions.create s i).1
  unfolding Interactions.create
  interaction_create-Unchanged i = ground arith

  pub interaction_resolve-Unchanged :
      (now id key decision : String) → Unchanged s (Interactions.resolve s now id key decision).1
  unfolding Interactions.resolve
  interaction_resolve-Unchanged now id key decision = ground arith
