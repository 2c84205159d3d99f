-- ===== src/Examples/ReopenRuns.antt =====
-- A cascade of ReopenStep: "build" needs the artifact of "gen", and "test" depends on "build".
use haro.Prelude.{
  false, Option, true, String, List, [], ◌∷◌, none, some, ◌≡◌, ◌↔◌, ◌⊎◌, ◌==◌, refl, nat_eq,
  string_eq, if◌then◌else◌, mem,
}
use haro.Prelude.Table
use haro.Prelude.Table.{Table}
use haro.Store.Types.{ExecutionStep}
use haro.Store.State.{
  FakeStore, new_fake_store, step_key, is_valid_step_status, is_valid_execution_status,
}
use haro.Store.Steps
use haro.Store.Events
use haro.Store.Generations
use haro.Store.Executions
use haro.Workflow.Sort.Invariant.{IsPermutation}
use haro.Execution.Action.{Answer, done}
use haro.Execution.Evidence.{TextLibrary}
use haro.Execution.Steps.{
  audited_update, transition_step_with_force, scan, resync_status, removable, resync_execution,
}
use haro.Execution.Reopen.Reset.{IsPending, reopen_step-IsPending}
use haro.Examples.Scenario.{execution}
use haro.Workflow.Sort.{add_dependents}
use haro.Execution.Reopen.{
  sweep, spread, fill_produces, fill_requires, reopened_requires, enlist, feed, load, feed_reset,
  cascade_set, to_reset, reset_step, reset_all, deliver, reopen_step,
}
use haro.Execution.Reopen.Closure.{Cascades}
use haro.Execution.Reopen.Feeders.{Feeds, cascade_set_lem}

-- The lists of the example have at most one element, and no quotes.
abbrev decode : String → List String
decode s = if s == "" then [] else s ∷ []

abbrev step : String → String → String → String → ExecutionStep
step id deps reqs prods = record {
  execution_id = "e";
  step_id = id;
  type = "command";
  status = "completed";
  depends_on = deps;
  requires = reqs;
  produces = prods;
  workspace_mode = "shared";
  current_generation = 1;
  pending_feedback = none;
}

abbrev steps : List ExecutionStep
steps =
    step "docs" "" "" ""
    ∷ step "gen" "" "" "code"
    ∷ step "build" "" "code" ""
    ∷ step "test" "build" "" ""
    ∷ []

cascade : cascade_set decode "build" steps ≡ some ("gen" ∷ "test" ∷ "build" ∷ [])
unfolding cascade_set spread sweep feed_reset feed enlist load fill_produces fill_requires
    reopened_requires add_dependents Table.get Table.put
cascade = refl

cascade_set_lem_example :
    (reset out : List String) × Cascades decode steps "build" reset
    × (cascade_set decode "build" steps ≡ some out)
    × ((p : String)
        → (mem p out ≡ true) ↔ ((mem p reset ≡ true) ⊎ Feeds decode steps "build" reset p))
cascade_set_lem_example = cascade_set_lem decode steps "build" (refl, (refl, (refl, (refl, tt))))

abbrev plain : TextLibrary
plain = record {
  replace_all_string = λ pattern s by. s;
  replace_all_string_func = λ pattern s f. s;
  trim_space = λ s. s;
  to_lower = λ s. s;
  itoa = λ n. [];
}

abbrev under_keys : List ExecutionStep → Table String ExecutionStep
under_keys [] = []
under_keys (s ∷ rest) = (step_key s.execution_id s.step_id, s) ∷ under_keys rest

abbrev before : FakeStore
before = record new_fake_store { executions = ("e", execution) ∷ []; steps = under_keys steps }

abbrev same : List String → List String
same l = l

same-IsPermutation : IsPermutation same
same-IsPermutation l z = refl

abbrev reopened : Answer (Option String) × FakeStore
reopened = reopen_step plain decode same (λ s. "") false "/repo" "t1" "e" "build" true [] before

reopened_done : reopened ≡ (done none, reopened.1)
unfolding reopen_step to_reset reset_all reset_step deliver cascade_set spread sweep feed_reset feed
    enlist load fill_produces fill_requires reopened_requires add_dependents Steps.get Steps.list
    Steps.update_status Generations.invalidate_by_step Events.next_transition_cursor Events.past_max
    Events.create_transition transition_step_with_force audited_update resync_execution
    resync_status scan removable Executions.update_status Executions.get step_key
    is_valid_step_status is_valid_execution_status Table.get Table.put Table.has
reopened_done = refl

reopen_step-IsPending_example :
    (reset : List String) × (to_reset decode true "e" "build" before ≡ (done reset, before))
    × ((z : String) → mem z reset ≡ true → IsPending (step_key "e" z) reopened.1)
reopen_step-IsPending_example =
    reopen_step-IsPending plain decode same (λ s. "") same-IsPermutation false "/repo" "t1" "e"
      "build" true [] before reopened.1 none reopened_done
