-- ===== src/Store/Calls.antt =====
-- Calls of the store as data: every method of internal/store/fake.go that writes, and sequences of
-- such calls.
use haro.Prelude.{ℕ, String, Option, none, some, List, [], ◌∷◌}
use haro.Store.Types.{
  Execution, ExecutionStep, Generation, Attempt, AttemptEvent, StepTransitionEvent, Transport,
  PathClaim, Interaction, Error, Result, ok, err,
}
use haro.Store.State.{FakeStore}
use haro.Store.Projects
use haro.Store.Executions
use haro.Store.Steps
use haro.Store.Attempts
use haro.Store.Generations
use haro.Store.Events
use haro.Store.Transports
use haro.Store.PathClaims
use haro.Store.Leases
use haro.Store.Interactions

pub data Call : Type 0 where
  project_create : (now id root_path : String) → Call
  execution_create : (now : String) → (e : Execution) → Call
  execution_update_status : (now id status : String) → Call
  step_create : (x : ExecutionStep) → Call
  step_update_status : (exec_id step_id status : String) → Call
  step_update_generation : (exec_id step_id : String) → (gen : ℕ) → Call
  step_set_pending_feedback : (exec_id step_id : String) → (feedback : Option String) → Call
  attempt_create : (now : String) → (a : Attempt) → Call
  attempt_update_status : (now id status : String) → (ended_at term digest : Option String) → Call
  generation_create : (now : String) → (g : Generation) → Call
  generation_invalidate_by_step : (now exec_id step_id by : String) → Call
  event_create : (now : String) → (e : AttemptEvent) → Call
  transition_create : (now : String) → (e : StepTransitionEvent) → Call
  transport_put : (t : Transport) → Call
  claim_acquire : (now : String) → (c : PathClaim) → Call
  claim_release : (now project_id path execution_id step_id : String) → Call
  lease_acquire : (now : ℕ) → (execution_id step_id holder : String) → Call
  lease_renew : (now : ℕ) → (execution_id step_id holder : String) → (token : ℕ) → Call
  lease_release : (now : ℕ) → (execution_id step_id holder : String) → (token : ℕ) → Call
  interaction_create : (i : Interaction) → Call
  interaction_resolve : (now id key decision : String) → Call

-- The error of an answer.
abbrev pub failure : {A : Type 0} → Result A → Option Error
failure (ok a) = none
failure (err e) = some e

abbrev outcome : {A : Type 0} → Result A × FakeStore → Option Error × FakeStore
outcome (r, s) = (failure r, s)

unfoldable pub call : FakeStore → Call → Option Error × FakeStore
call s (project_create now id root_path) = outcome (Projects.create s now id root_path)
call s (execution_create now e) = outcome (Executions.create s now e)
call s (execution_update_status now id status) = outcome (Executions.update_status s now id status)
call s (step_create x) = outcome (Steps.create s x)
call s (step_update_status exec_id step_id status) =
    outcome (Steps.update_status s exec_id step_id status)
call s (step_update_generation exec_id step_id gen) =
    outcome (Steps.update_generation s exec_id step_id gen)
call s (step_set_pending_feedback exec_id step_id feedback) =
    outcome (Steps.set_pending_feedback s exec_id step_id feedback)
call s (attempt_create now a) = outcome (Attempts.create s now a)
call s (attempt_update_status now id status ended_at term digest) =
    outcome (Attempts.update_status s now id status ended_at term digest)
call s (generation_create now g) = outcome (Generations.create s now g)
call s (generation_invalidate_by_step now exec_id step_id by) =
    outcome (Generations.invalidate_by_step s now exec_id step_id by)
call s (event_create now e) = outcome (Events.create_attempt_event s now e)
call s (transition_create now e) = outcome (Events.create_transition s now e)
call s (transport_put t) = outcome (Transports.put s t)
call s (claim_acquire now c) = outcome (PathClaims.acquire s now c)
call s (claim_release now project_id path execution_id step_id) =
    outcome (PathClaims.release s now project_id path execution_id step_id)
call s (lease_acquire now execution_id step_id holder) =
    outcome (Leases.acquire s now execution_id step_id holder)
call s (lease_renew now execution_id step_id holder token) =
    outcome (Leases.renew s now execution_id step_id holder token)
call s (lease_release now execution_id step_id holder token) =
    outcome (Leases.release s now execution_id step_id holder token)
call s (interaction_create i) = outcome (Interactions.create s i)
call s (interaction_resolve now id key decision) =
    outcome (Interactions.resolve s now id key decision)

unfoldable pub perform : FakeStore → Call → FakeStore
unfolding call
perform s c = (call s c).1

-- The calls that the lock lets through, one after the other.
unfoldable pub perform_all : FakeStore → List Call → FakeStore
perform_all s [] = s
perform_all s (c ∷ cs) = perform_all (perform s c) cs
