-- ===== src/Examples/Scenario.antt =====
-- A project with one execution of one step, and two claims of it.
use haro.Prelude.{String, none, List, [], ◌∷◌}
use haro.Store.Types.{Execution, ExecutionStep, PathClaim, Interaction, Generation, Attempt}
use haro.Store.State.{FakeStore, new_fake_store}
use haro.Store.Calls.{
  Call, perform_all, project_create, execution_create, step_create, claim_acquire,
  generation_create, attempt_create, interaction_create,
}

abbrev pub execution : Execution
execution = record {
  id = "e";
  project_id = "p";
  workflow_source = "w";
  status = "running";
  workspace_mode = "shared";
  workspace_root = "";
  started_at = "";
  ended_at = none;
  dag_hash = none;
  base_commit = none;
}

abbrev pub step : ExecutionStep
step = record {
  execution_id = "e";
  step_id = "s";
  type = "command";
  status = "pending";
  depends_on = "[]";
  requires = "[]";
  produces = "[]";
  workspace_mode = "shared";
  current_generation = 0;
  pending_feedback = none;
}

abbrev pub claim : String → PathClaim
claim path = record {
  id = 0;
  project_id = "p";
  logical_path = path;
  mode = "shared";
  owner_execution_id = "e";
  owner_step_id = "s";
  acquired_at = "";
  released_at = none;
}

abbrev pub generation : Generation
generation = record {
  id = "g";
  execution_id = "e";
  step_id = "s";
  number = 1;
  created_at = "";
  invalidated_at = none;
  invalidated_by_step = none;
}

abbrev pub attempt : Attempt
attempt = record {
  id = "a";
  execution_id = "e";
  step_id = "s";
  generation_id = "g";
  status = "running";
  started_at = "";
  ended_at = none;
  termination_reason = none;
  result_digest = none;
}

abbrev pub interaction : Interaction
interaction = record {
  id = "i";
  attempt_id = "a";
  type = "question";
  status = "pending";
  decision = none;
  idempotency_key = "k";
  resolved_at = none;
}

abbrev pub setup : List Call
setup = project_create "t0" "p" "/repo" ∷ execution_create "t0" execution ∷ step_create step ∷ []

abbrev pub claim_calls : List Call
claim_calls =
    project_create "t0" "p" "/repo"
    ∷ claim_acquire "t1" (claim "a")
    ∷ claim_acquire "t2" (claim "a/b")
    ∷ claim_acquire "t3" (claim "ab")
    ∷ []

abbrev pub asking : List Call
asking =
    project_create "t0" "p" "/repo"
    ∷ execution_create "t0" execution
    ∷ step_create step
    ∷ generation_create "t0" generation
    ∷ attempt_create "t0" attempt
    ∷ interaction_create interaction
    ∷ []

abbrev pub start : FakeStore
start = perform_all new_fake_store setup
