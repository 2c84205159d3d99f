-- ===== src/Examples/StoreRuns.antt =====
-- The theorems on the store, at the calls of the scenario.
use haro.Prelude.{
  ℕ, ◌≡◌, refl, true, false, String, List, [], ◌∷◌, ◌++◌, ◌↔◌, none, some, arith, string_eq, nat_eq,
  bytes_beq, has_prefix,
}
use haro.Prelude.Table
use haro.Store.Types.{PathClaim, Interaction, AttemptEvent, Attempt, ok, foreign_key_violation}
use haro.Store.State.{
  FakeStore, new_fake_store, step_key, is_valid_execution_status, is_valid_workspace_mode,
  is_valid_step_type, is_valid_step_status, is_valid_attempt_status, is_valid_interaction_type,
  is_valid_interaction_status,
}
use haro.Store.PathClaims
use haro.Store.PathClaims.{conflicts, is_active, actives, misses_field, first_conflict}
use haro.Store.Projects
use haro.Store.Executions
use haro.Store.Steps
use haro.Store.Generations
use haro.Store.Attempts
use haro.Store.Attempts.{latest}
use haro.Store.Events
use haro.Store.Events.{rows, list_attempt_events, latest_delta, prior_output_delta}
use haro.Store.Pages.{Among, Rising, OnPage, list_attempt_events_lem}
use haro.Store.Interactions
use haro.Claim.Path.{overlaps, is_prefix, logical, clean, parts, split, push, join}
use haro.Claim.Policy.{should_block, is_shared}
use haro.Store.Calls.{
  Call, call, perform_all, perform, step_create, interaction_create, interaction_resolve,
  event_create, attempt_create,
}
use haro.Store.Interactions.{resolve, attempt_key}
use haro.Store.Integrity.{Integrity}
use haro.Store.Integrity.Runs.{perform_all-Integrity}
use haro.Store.Exclusion.Runs.{claims_exclude}
use haro.Store.Atomic.{error_unchanged}
use haro.Store.Resolutions.{resolve_first_wins}
use haro.Examples.Scenario.{interaction, claim, claim_calls, step, asking, attempt}

perform_all-Integrity_example : Integrity (perform_all new_fake_store asking)
perform_all-Integrity_example = perform_all-Integrity asking

abbrev kept_claim : ℕ → String → String → PathClaim
kept_claim id time path = record (claim path) { id = id; acquired_at = time }

claims_kept :
    (Table.get (perform_all new_fake_store claim_calls).path_claims 1
      ≡ some (kept_claim 1 "t1" "a"))
    × (Table.get (perform_all new_fake_store claim_calls).path_claims 2
        ≡ some (kept_claim 2 "t3" "ab"))
unfolding perform_all perform call Projects.create PathClaims.acquire actives is_active misses_field
    first_conflict conflicts Table.get Table.put Table.has overlaps is_prefix logical clean parts
    split push join bytes_beq has_prefix should_block is_shared
claims_kept = (refl, refl)

claim_is_active : (id : ℕ) (time path : String) → is_active "p" (kept_claim id time path) ≡ true
unfolding is_active
claim_is_active id time path = refl

claims_exclude_example : conflicts (kept_claim 1 "t1" "a") (kept_claim 2 "t3" "ab") ≡ false
claims_exclude_example =
    claims_exclude claim_calls "p" 1 2 (kept_claim 1 "t1" "a") (kept_claim 2 "t3" "ab")
      (omega arith) claims_kept.0 claims_kept.1 (omega arith) (claim_is_active 1 "t1" "a")
      (claim_is_active 2 "t3" "ab")

step_is_refused : (call new_fake_store (step_create step)).0 ≡ some foreign_key_violation
unfolding call Steps.create Table.get Table.has
step_is_refused = refl

error_unchanged_example : perform new_fake_store (step_create step) ≡ new_fake_store
error_unchanged_example =
    error_unchanged new_fake_store (step_create step) foreign_key_violation step_is_refused

abbrev asked : FakeStore
asked = perform_all new_fake_store asking

abbrev answer : Interaction
answer = record interaction { status = "resolved"; decision = some "yes"; resolved_at = some "t1" }

question_answered : (resolve asked "t1" "i" "k" "yes").0 ≡ ok answer
unfolding perform_all perform call Projects.create Executions.create Steps.create Generations.create
    Attempts.create Interactions.create resolve step_key attempt_key Table.get Table.put Table.has
    is_valid_execution_status is_valid_workspace_mode is_valid_step_type is_valid_step_status
    is_valid_attempt_status is_valid_interaction_type is_valid_interaction_status
question_answered = refl

-- Another process asks to decide otherwise, and to create the question again.
abbrev between : List Call
between = interaction_resolve "t2" "i" "k" "later" ∷ interaction_create interaction ∷ []

resolve_first_wins_example :
    resolve (perform_all (resolve asked "t1" "i" "k" "yes").1 between) "t3" "i" "k" "no"
    ≡ (ok answer, perform_all (resolve asked "t1" "i" "k" "yes").1 between)
resolve_first_wins_example =
    resolve_first_wins asked between "t1" "t3" "i" "k" "yes" "no" answer question_answered

abbrev event : ℕ → AttemptEvent
event cursor = record {
  id = 0;
  attempt_id = "a";
  cursor = cursor;
  event_type = "output_delta";
  payload_ref = none;
  payload = none;
  occurred_at = "t1";
}

-- Two events are written out of order.
abbrev eventful : List Call
eventful = asking ++ event_create "t1" (event 5) ∷ event_create "t1" (event 4) ∷ []

attempt_there : Table.has (perform_all new_fake_store eventful).attempts "a" ≡ true
unfolding perform_all perform call Projects.create Executions.create Steps.create Generations.create
    Attempts.create Interactions.create Events.create_attempt_event step_key attempt_key Table.get
    Table.put Table.has is_valid_execution_status is_valid_workspace_mode is_valid_step_type
    is_valid_step_status is_valid_attempt_status is_valid_interaction_type
    is_valid_interaction_status
attempt_there = refl

list_attempt_events_lem_example :
    (out : List AttemptEvent) × (list_attempt_events (perform_all new_fake_store eventful) "a" 4 2
      ≡ ok out)
    × Rising 4 out
    × ((e : AttemptEvent)
        → Among e out
          ↔ OnPage
              (rows (Table.get (perform_all new_fake_store eventful).attempt_events "a"))
              4
              2
              e)
list_attempt_events_lem_example =
    list_attempt_events_lem (perform_all new_fake_store eventful) "a" 4 2
      (perform_all-Integrity eventful) attempt_there (omega arith) (omega arith) (omega arith)

-- A second attempt of the step.
abbrev second : Attempt
second = record attempt { id = "b"; started_at = "t2" }

abbrev retried : FakeStore
retried = perform_all new_fake_store (eventful ++ attempt_create "t2" second ∷ [])

-- It is the later one of the two events.
prior_of_second : prior_output_delta retried "b" ≡ ok (event 5)
unfolding perform_all perform call Projects.create Executions.create Steps.create Generations.create
    Attempts.create Interactions.create Events.create_attempt_event prior_output_delta latest_delta
    latest step_key attempt_key Table.get Table.put Table.has is_valid_execution_status
    is_valid_workspace_mode is_valid_step_type is_valid_step_status is_valid_attempt_status
    is_valid_interaction_type is_valid_interaction_status
prior_of_second = refl
