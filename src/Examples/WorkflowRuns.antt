-- ===== src/Examples/WorkflowRuns.antt =====
-- Runs of the workflow checks and of topoSort, with the theorems applied to them: three steps in
-- the wrong order, and two steps that wait for each other.
use haro.Prelude.{
  true, String, List, [], ◌∷◌, none, some, ◌≡◌, ◌≢◌, refl, nat_eq, string_eq, length, All,
}
use haro.Prelude.Table
use haro.Workflow.Types.{pos, Workflow, Step}
use haro.Workflow.Cycles.{
  black, found, finished, out_of_fuel, edges, fill_edges, from_first, cycle_at, visit_all, dfs,
  search_from, detect_cycle,
}
use haro.Workflow.Cycles.Depends.{Depends}
use haro.Workflow.Cycles.Verdict.{detect_cycle_ends, detect_cycle_accepts, detect_cycle_rejects}
use haro.Workflow.Sort.{
  fill_index, pick, fill_degrees, add_dependents, fill_dependents, first_queue, release, sorted,
  out_of_fuel, drain, topo_sort,
}
use haro.Workflow.Sort.Counts.{Distinct}
use haro.Workflow.Sort.Index.{In}
use haro.Workflow.Sort.Invariant.{IsPermutation}
use haro.Workflow.Sort.Result.{Follows, topo_sort_ends, topo_sort-Follows}
use haro.Workflow.Sort.Complete.{Closed}
use haro.Workflow.Validate.{
  validate_flat, validate_file, check_shape, check_root, check_step, check_command, check_agent,
  check_included, check_graph, matches_id,
}
use haro.Workflow.Validate.File.{validate_file_sound}
use haro.Workflow.Validate.Flat.{validate_flat_sorts}

abbrev step : String → List String → Step
step id deps = record {
  id = id;
  type = "command";
  run = "make";
  env = [];
  timeout_seconds = none;
  depends_on = deps;
  requires = [];
  produces = [];
  harness = [];
  instructions = "";
  mode = "";
  workspace = none;
  source = none;
  bindings = [];
}

abbrev build : List Step
build = step "test" ("lint" ∷ "init" ∷ []) ∷ step "init" [] ∷ step "lint" ("init" ∷ []) ∷ []

abbrev ordered : List Step
ordered = step "init" [] ∷ step "lint" ("init" ∷ []) ∷ step "test" ("lint" ∷ "init" ∷ []) ∷ []

abbrev loop : List Step
loop = step "a" ("b" ∷ []) ∷ step "b" ("a" ∷ []) ∷ []

abbrev same : List String → List String
same l = l

same-IsPermutation : IsPermutation same
same-IsPermutation l z = refl

build-Distinct : Distinct build
build-Distinct = (refl, (refl, (refl, tt)))

build_passes : validate_flat (some build) ≡ none
unfolding validate_flat fill_index detect_cycle search_from dfs visit_all fill_edges Table.get
    Table.has Table.put
build_passes = refl

build_finished :
    detect_cycle build ≡ finished (("test", black) ∷ ("lint", black) ∷ ("init", black) ∷ [])
unfolding detect_cycle search_from dfs visit_all fill_edges Table.get Table.put
build_finished = refl

build_sorted : topo_sort same build ≡ sorted ordered
unfolding topo_sort fill_degrees fill_dependents add_dependents first_queue drain release pick
    fill_index Table.get Table.put
build_sorted = refl

loop_found : detect_cycle loop ≡ found ("a" ∷ "b" ∷ "a" ∷ [])
unfolding detect_cycle search_from dfs visit_all fill_edges cycle_at from_first Table.get Table.put
loop_found = refl

detect_cycle_ends_example : detect_cycle loop ≢ out_of_fuel
detect_cycle_ends_example = detect_cycle_ends loop

detect_cycle_accepts_example : ¬ Depends (edges build) "test" "test"
detect_cycle_accepts_example =
    detect_cycle_accepts build (("test", black) ∷ ("lint", black) ∷ ("init", black) ∷ []) "test"
      build_finished

detect_cycle_rejects_example : (x : String) × Depends (edges loop) x x
detect_cycle_rejects_example = detect_cycle_rejects loop ("a" ∷ "b" ∷ "a" ∷ []) loop_found

topo_sort_ends_example : topo_sort same build ≢ out_of_fuel
topo_sort_ends_example = topo_sort_ends same same-IsPermutation build build-Distinct

topo_sort-Follows_example :
    Follows [] ordered × All (λ s. In s build) ordered × (length ordered ≡ length build)
topo_sort-Follows_example =
    topo_sort-Follows same same-IsPermutation build build-Distinct ordered build_sorted

validate_flat_sorts_example : (out : List Step) × (topo_sort same build ≡ sorted out)
validate_flat_sorts_example = validate_flat_sorts same build same-IsPermutation build_passes

abbrev project : Workflow
project = record {
  version = pos 2;
  name = "build";
  workspace = none;
  inputs = [];
  outputs = [];
  steps = build;
}

project_passes : validate_file (some project) true ≡ none
unfolding validate_file check_shape check_root check_step check_command check_agent check_included
    check_graph matches_id fill_index detect_cycle search_from dfs visit_all fill_edges Table.get
    Table.has Table.put
project_passes = refl

validate_file_sound_example :
    Distinct build × Closed build × (¬ Depends (edges build) "test" "test")
validate_file_sound_example = validate_file_sound project true "test" project_passes
