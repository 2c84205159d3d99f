-- ===== src/Workflow/Names.antt =====
-- The rewriting of steps in flattenRec of internal/workflow/compose.go: names, dependencies and
-- bindings.
use Prim.Native.String.{String}
use haro.Prelude.{
  Bool, Option, none, some, List, [], ◌∷◌, ◌++◌, ◌==◌, string_eq, if◌then◌else◌, mem, any, ◌&&◌,
}
use haro.Prelude.Table
use haro.Prelude.Table.{Table, put}
use haro.Workflow.Types.{◌+++◌, Input, Output, Step, FlatStep, Workflow}

-- wfMap, with the producers of a workflow node; the other fields are not read.
abbrev pub Nodes : Type 0
Nodes = Table String (List String)

abbrev pub or_itself : String → Option (List String) → List String
or_itself dep none = dep ∷ []
or_itself dep (some producers) = producers

-- The dependencies with their prefix, workflow nodes replaced by their producers.
unfoldable pub expand_deps : String → Nodes → List String → List String
expand_deps prefix nodes [] = []
expand_deps prefix nodes (dep ∷ deps) =
    let dep_id = prefix +++ dep in
    or_itself dep_id (Table.get nodes dep_id) ++ expand_deps prefix nodes deps

abbrev pub or_name : String → Option String → String
or_name name none = name
or_name name (some bound) = bound

unfoldable pub bind_names : Table String String → List String → List String
bind_names bindings [] = []
bind_names bindings (name ∷ names) =
    or_name name (Table.get bindings name) ∷ bind_names bindings names

unfoldable pub rewrite_steps : Table String String → List FlatStep → List FlatStep
unfolding bind_names
rewrite_steps bindings [] = []
rewrite_steps bindings (s ∷ steps) =
    record s {
      requires = bind_names bindings s.requires;
      produces = bind_names bindings s.produces;
    }
    ∷ rewrite_steps bindings steps

-- The loop over parentDepsExpanded, with `merged`.
unfoldable pub merge_deps : List String → List String → List String
merge_deps merged [] = merged
merge_deps merged (pd ∷ pds) = merge_deps (if mem pd merged then merged else merged ++ pd ∷ []) pds

-- The loop over subSteps for one consumer.
unfoldable pub merge_into : String → List String → List FlatStep → List FlatStep
unfolding merge_deps
merge_into consumer pds [] = []
merge_into consumer pds (s ∷ steps) =
    (if s.id == consumer then record s { depends_on = merge_deps s.depends_on pds } else s)
    ∷ merge_into consumer pds steps

-- The loop over the inputs of the included file.
unfoldable pub merge_inputs : String → List String → List Input → List FlatStep → List FlatStep
unfolding merge_into
merge_inputs new_prefix pds [] steps = steps
merge_inputs new_prefix pds (inp ∷ inputs) steps =
    merge_inputs new_prefix pds inputs (merge_into (new_prefix +++ inp.satisfied_by) pds steps)

abbrev pub output_ids : String → List Output → List String
output_ids new_prefix [] = []
output_ids new_prefix (out ∷ outputs) =
    (new_prefix +++ out.produced_by) ∷ output_ids new_prefix outputs

abbrev pub flat_ids : List FlatStep → List String
flat_ids [] = []
flat_ids (s ∷ steps) = s.id ∷ flat_ids steps

-- producerIDs
unfoldable pub producer_ids : String → List Output → List FlatStep → List String
producer_ids new_prefix [] steps = flat_ids steps
producer_ids new_prefix (out ∷ outputs) steps = output_ids new_prefix (out ∷ outputs)

-- A command or an agent.
unfoldable pub flat_step : String → Nodes → Step → FlatStep
unfolding expand_deps
flat_step prefix nodes s = record s {
  id = prefix +++ s.id;
  depends_on = expand_deps prefix nodes s.depends_on;
  source = none;
  bindings = [];
}

-- Whether a step of this id requires, or produces, the name.
unfoldable pub is_required : Workflow → Input → Bool
is_required wf inp =
    any (λ (s : Step). s.id == inp.satisfied_by && mem inp.name s.requires) wf.steps

unfoldable pub is_produced : Workflow → Output → Bool
is_produced wf out = any (λ (s : Step). s.id == out.produced_by && mem out.name s.produces) wf.steps

abbrev pub has_input : String → List Input → Bool
has_input name inputs = any (λ (inp : Input). inp.name == name) inputs

abbrev pub has_output : String → List Output → Bool
has_output name outputs = any (λ (out : Output). out.name == name) outputs
