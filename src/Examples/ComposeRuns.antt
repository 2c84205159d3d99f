-- ===== src/Examples/ComposeRuns.antt =====
-- A run of Flatten: the file main includes the file sub, whose two steps come out with a prefix.
use haro.Prelude.{
  String, List, [], ◌∷◌, none, some, ◌≡◌, ◌≤◌, refl, nat_eq, string_eq, bytes_eq, ◌==◌,
  if◌then◌else◌, length, Bytes, codes, bytes_beq, has_prefix,
}
use haro.Prelude.Table
use haro.Execution.Steps.{is_space, is_blank}
use haro.Claim.Path.{split, back_up, push, parts, join, clean}
use haro.Workflow.Types.{Input, Output, Step, Workflow, pos, field}
use haro.Workflow.Cycles.{
  fill_edges, from_first, cycle_at, visit_all, dfs, search_from, detect_cycle,
}
use haro.Workflow.Sort.{
  fill_index, pick, fill_degrees, add_dependents, fill_dependents, first_queue, release, drain,
  topo_sort,
}
use haro.Workflow.Validate.{
  matches_id, check_command, check_agent, check_included, check_step, check_root, check_shape,
  check_graph, validate_file,
}
use haro.Workflow.Names.{
  expand_deps, bind_names, rewrite_steps, merge_deps, merge_into, merge_inputs, producer_ids,
  flat_step, is_required, is_produced,
}
use haro.Workflow.Compose.{
  decoded, Files, made, refused, invalid, Counts, is_escape, contains_text, parse_failure, parse,
  canonical_path, check_bindings, splice, resolve_source, locate, splice_in, include_step,
  keep_step, expand_steps, load_file, flatten_rec, flatten,
}
use haro.Workflow.Compose.Leaves.{Leaves, flatten-Leaves}

abbrev command : String → List String → Step
command id deps = record {
  id = id;
  type = "command";
  run = "make";
  env = [];
  timeout_seconds = none;
  depends_on = deps;
  requires = [];
  produces = [];
  harness = [];
  instructions = "";
  mode = "";
  workspace = none;
  source = none;
  bindings = [];
}

abbrev include : Step
include = record (command "sub" ("init" ∷ [])) {
  type = "workflow";
  run = "";
  source = some "sub.yml";
}

abbrev file : List Input → List Output → List Step → Workflow
file inputs outputs steps = record {
  version = pos 2;
  name = "";
  workspace = none;
  inputs = inputs;
  outputs = outputs;
  steps = steps;
}

abbrev main : Workflow
main = file [] [] (command "init" [] ∷ include ∷ command "end" ("sub" ∷ []) ∷ [])

abbrev sub : Workflow
sub =
    file (record { name = "x"; satisfied_by = "b" } ∷ [])
      (record { name = "y"; produced_by = "b" } ∷ []) (command "b" ("a" ∷ []) ∷ command "a" [] ∷ [])

abbrev main_path : Bytes
main_path = codes "/r/.haro/workflows/main.yml"

abbrev files : Files
files = record {
  read_file = λ path. some path;
  decode = λ data_. decoded (if data_ == main_path then main else sub);
  eval_symlinks = λ path. none;
  find_field = λ message. none;
}

abbrev same : List String → List String
same l = l

abbrev fresh : Counts
fresh = record { expansions = 0; total_steps = 0 }

-- The two steps of the included file are counted twice.
abbrev counted : Counts
counted = record { expansions = 1; total_steps = 6 }

abbrev flat : List Step
flat =
    command "init" []
    ∷ command "sub.a" []
    ∷ command "sub.b" ("sub.a" ∷ "init" ∷ [])
    ∷ command "end" ("sub.b" ∷ [])
    ∷ []

flattened : flatten same files (codes "/r") main_path fresh ≡ made (flat, counted)
unfolding flatten flatten_rec load_file expand_steps keep_step include_step splice_in locate
    resolve_source splice check_bindings canonical_path parse parse_failure contains_text is_escape
    is_produced is_required flat_step producer_ids merge_inputs merge_into merge_deps rewrite_steps
    bind_names expand_deps validate_file check_graph check_shape check_root check_step
    check_included check_agent check_command matches_id topo_sort drain release first_queue
    fill_dependents add_dependents fill_degrees pick fill_index detect_cycle search_from dfs
    visit_all cycle_at from_first fill_edges clean join parts push back_up split is_blank is_space
    bytes_beq has_prefix Table.get Table.put Table.has
flattened = refl

-- A step that depends on a workflow node further down keeps the name of the node, which no flat step
-- has.
abbrev early : Files
early = record files {
  decode = λ data_. decoded (
      if data_ == main_path
      then file [] [] (command "end" ("sub" ∷ []) ∷ command "init" [] ∷ include ∷ [])
      else sub);
}

early_refused :
    flatten same early (codes "/r") main_path fresh
    ≡ refused (invalid (record { code = "cycle_detected"; field = field "" }))
unfolding flatten flatten_rec load_file expand_steps keep_step include_step splice_in locate
    resolve_source splice check_bindings canonical_path parse parse_failure contains_text is_escape
    is_produced is_required flat_step producer_ids merge_inputs merge_into merge_deps rewrite_steps
    bind_names expand_deps validate_file check_graph check_shape check_root check_step
    check_included check_agent check_command matches_id topo_sort drain release first_queue
    fill_dependents add_dependents fill_degrees pick fill_index detect_cycle search_from dfs
    visit_all cycle_at from_first fill_edges clean join parts push back_up split is_blank is_space
    bytes_beq has_prefix Table.get Table.put Table.has
early_refused = refl

flatten-Leaves_example : Leaves flat × (length flat ≤ 256)
flatten-Leaves_example =
    flatten-Leaves same files (codes "/r") main_path fresh counted flat flattened
