-- ===== src/Workflow/Validate.antt =====
-- ValidateFile and ValidateFlat of internal/workflow/validate.go. A check answers the error that it
-- returns, or `none`. A loop over a map takes the entries in the order of the table.
pub mod Flat
pub mod File
use Prim.Native.Char.{code}
use Prim.Native.String.{String}
use haro.Prelude.{
  mem, ℕ, zero, suc, ◌+◌, Bool, true, false, Option, none, some, List, [], ◌∷◌, not, ◌&&◌, ◌||◌,
  ◌==◌, nat_eq, string_eq, if◌then◌else◌, leb, ltb, length, any, is_empty_list,
}
use haro.Prelude.Table
use haro.Prelude.Table.{Table}
use haro.Execution.Steps.{is_blank}
use haro.Workflow.Types.{
  ℤ, pos, negsuc, is_below_one, is_two, WorkspaceConfig, Input, Output, Step, FlatStep, Workflow,
  Field, field, item, part, entry, ValidationError,
}
use haro.Workflow.Cycles.{Outcome, found, finished, out_of_fuel, detect_cycle}
use haro.Workflow.Sort.{fill_index}

abbrev pub Check : Type 0
Check = Option ValidationError

-- `if test { return newValidationError(code, field, …) }`
abbrev pub refuse : Bool → String → Field → Check
refuse true code where_ = some (record { code = code; field = where_ })
refuse false code where_ = none

-- One check, then the next.
infixr 4 ◌then_check◌
abbrev pub ◌then_check◌ : Check → Check → Check
(some e) then_check next = some e
none then_check next = next

-- `for i, x := range xs { … }`
abbrev pub check_each {ℓ} : {A : Type ℓ} → (ℕ → A → Check) → ℕ → List A → Check
check_each check i [] = none
check_each check i (x ∷ xs) = check i x then_check check_each check (suc i) xs

-- The pattern ^[a-z][a-z0-9_]*$
abbrev is_lower : ℕ → Bool
is_lower c = leb 97 c && leb c 122

abbrev is_word : ℕ → Bool
is_word c = is_lower c || (leb 48 c && leb c 57) || c == 95

abbrev all_words : String → Bool
all_words String.[] = true
all_words (String.◌∷◌ c s) = is_word (code c) && all_words s

unfoldable pub matches_id : String → Bool
matches_id String.[] = false
matches_id (String.◌∷◌ c s) = is_lower (code c) && all_words s

-- A loop with a set of the names so far.
abbrev pub check_names {ℓ} :
    {A : Type ℓ} → (A → String) → (ℕ → List String → A → Check) → ℕ → List String → List A → Check
check_names name check i seen [] = none
check_names name check i seen (x ∷ xs) =
    check i seen x then_check check_names name check (suc i) (name x ∷ seen) xs

abbrev pub check_input : ℕ → List String → Input → Check
check_input i seen inp =
    refuse (not (matches_id inp.name)) "invalid_pattern" (item "inputs" i "name")
    then_check refuse (inp.satisfied_by == "") "missing_field" (item "inputs" i "satisfied_by")
    then_check refuse (not (matches_id inp.satisfied_by)) "invalid_pattern"
        (item "inputs" i "satisfied_by")
    then_check refuse (mem inp.name seen) "duplicate_input" (item "inputs" i "name")

abbrev pub check_output : ℕ → List String → Output → Check
check_output i seen out =
    refuse (not (matches_id out.name)) "invalid_pattern" (item "outputs" i "name")
    then_check refuse (out.produced_by == "") "missing_field" (item "outputs" i "produced_by")
    then_check refuse (not (matches_id out.produced_by)) "invalid_pattern"
        (item "outputs" i "produced_by")
    then_check refuse (mem out.name seen) "duplicate_output" (item "outputs" i "name")

abbrev pub check_id : ℕ → List String → Step → Check
check_id i seen s =
    refuse (not (matches_id s.id)) "invalid_pattern" (item "steps" i "id")
    then_check refuse (mem s.id seen) "duplicate_step" (item "steps" i "id")

abbrev pub is_none {ℓ} : {A : Type ℓ} → Option A → Bool
is_none none = true
is_none (some a) = false

abbrev pub is_none_or_blank : Option String → Bool
is_none_or_blank none = true
is_none_or_blank (some s) = is_blank s

unfoldable pub check_command : ℕ → Step → Check
check_command i s =
    refuse (s.run == "") "missing_field" (item "steps" i "run")
    then_check refuse (not (is_none s.source)) "invalid_field" (item "steps" i "source")
    then_check refuse (not (is_empty_list s.bindings)) "invalid_field" (item "steps" i "bindings")
    then_check refuse (not (is_empty_list s.harness)) "invalid_field" (item "steps" i "harness")
    then_check refuse (not (s.instructions == "")) "invalid_field" (item "steps" i "instructions")

unfoldable pub check_agent : ℕ → Step → Check
check_agent i s =
    refuse (is_empty_list s.harness) "missing_field" (item "steps" i "harness")
    then_check refuse (s.instructions == "") "missing_field" (item "steps" i "instructions")
    then_check refuse
        (not (s.mode == "")
          && not (s.mode == "headless")
          && not (s.mode == "supervised")
          && not (s.mode == "terminal"))
        "invalid_enum" (item "steps" i "mode")
    then_check refuse (s.mode == "terminal") "workflow_invalid" (item "steps" i "mode")
    then_check refuse (not (is_none s.source) || not (is_empty_list s.bindings)) "invalid_field"
        (item "steps" i "source")
    then_check refuse (not (s.run == "")) "invalid_field" (item "steps" i "run")

abbrev pub check_binding : ℕ → (String × String) → Check
check_binding i (k, v) =
    refuse (is_blank k || is_blank v) "invalid_field" (entry "steps" i "bindings" k)

unfoldable pub check_included : ℕ → Step → Check
check_included i s =
    refuse (is_none_or_blank s.source) "missing_field" (item "steps" i "source")
    then_check refuse (not (s.run == "")) "invalid_field" (item "steps" i "run")
    then_check check_each (λ j b. check_binding i b) 0 s.bindings

abbrev pub is_other : String → String → Option String → Bool
is_other a b none = false
is_other a b (some x) = not (x == a) && not (x == b)

abbrev pub check_workspace : Field → Field → Option WorkspaceConfig → Check
check_workspace mode on_conflict none = none
check_workspace mode on_conflict (some w) =
    refuse (is_other "isolated" "shared" w.mode) "invalid_enum" mode
    then_check refuse (is_other "block" "allow" w.on_logical_conflict) "invalid_enum" on_conflict

abbrev pub check_timeout : ℕ → Option ℤ → Check
check_timeout i none = none
check_timeout i (some n) = refuse (is_below_one n) "invalid_type" (item "steps" i "timeout_seconds")

unfoldable pub check_step : ℕ → Step → Check
unfolding check_command check_agent check_included
check_step i s =
    refuse (not (s.type == "command") && not (s.type == "agent") && not (s.type == "workflow"))
      "invalid_enum" (item "steps" i "type")
    then_check (if s.type == "command" then check_command i s else none)
    then_check (if s.type == "agent" then check_agent i s else none)
    then_check (if s.type == "workflow" then check_included i s else none)
    then_check check_workspace (item "steps" i "workspace.mode")
        (item "steps" i "workspace.on_logical_conflict") s.workspace
    then_check check_timeout i s.timeout_seconds

abbrev pub Index : Type 0
Index = Table String ℕ

abbrev pub check_deps : Index → ℕ → Step → Check
check_deps step_ids i s =
    check_each
      (λ j dep.
        refuse (not (Table.has step_ids dep)) "contract_violation" (part "steps" i "depends_on" j))
      0 s.depends_on

-- An outcome without fuel does not come.
abbrev pub check_cycle : Outcome → Check
check_cycle (found cycle) = refuse true "cycle_detected" (field "")
check_cycle (finished colors) = none
check_cycle out_of_fuel = refuse true "cycle_detected" (field "")

abbrev pub has_entry : List Step → Bool
has_entry steps = any (λ (s : Step). is_empty_list s.depends_on) steps

unfoldable pub check_root : Bool → Workflow → Check
check_root is_root wf =
    if is_root
    then refuse (not (is_empty_list wf.inputs)) "root_contract_forbidden" (field "inputs")
      then_check refuse (not (is_empty_list wf.outputs)) "root_contract_forbidden" (field "outputs")
    else none

-- The checks before those of each step.
unfoldable pub check_shape : Workflow → Bool → Check
unfolding matches_id check_root
check_shape wf is_root =
    let step_ids = fill_index 0 [] wf.steps in
    refuse (not (is_two wf.version)) "invalid_version" (field "version")
    then_check refuse (is_empty_list wf.steps) "missing_field" (field "steps")
    then_check check_root is_root wf
    then_check check_names (λ (inp : Input). inp.name) check_input 0 [] wf.inputs
    then_check check_names (λ (out : Output). out.name) check_output 0 [] wf.outputs
    then_check check_names (λ (s : Step). s.id) check_id 0 [] wf.steps
    then_check check_each
        (λ i (inp : Input).
          refuse (not (Table.has step_ids inp.satisfied_by)) "contract_violation"
            (item "inputs" i "satisfied_by"))
        0 wf.inputs
    then_check check_each
        (λ i (out : Output).
          refuse (not (Table.has step_ids out.produced_by)) "contract_violation"
            (item "outputs" i "produced_by"))
        0 wf.outputs

-- The checks behind those of each step.
unfoldable pub check_graph : Workflow → Check
check_graph wf =
    check_workspace (field "workspace.mode") (field "workspace.on_logical_conflict") wf.workspace
    then_check check_each (check_deps (fill_index 0 [] wf.steps)) 0 wf.steps
    then_check check_cycle (detect_cycle wf.steps)
    then_check refuse (not (has_entry wf.steps)) "cycle_detected" (field "")

unfoldable pub validate_file : Option Workflow → Bool → Check
unfolding check_shape check_step check_graph
validate_file none is_root = refuse true "invalid_workflow" (field "")
validate_file (some wf) is_root =
    check_shape wf is_root then_check check_each check_step 0 wf.steps then_check check_graph wf

abbrev pub check_flat_step : ℕ → ℕ → List String → FlatStep → Check
check_flat_step total i seen s =
    refuse (s.type == "workflow") "workflow_invalid" (item "steps" i "type")
    then_check refuse (s.id == "") "missing_field" (item "steps" i "id")
    then_check refuse (mem s.id seen) "duplicate_step" (item "steps" i "id")
    then_check refuse (ltb 256 total) "guard_exceeded" (field "steps")

abbrev pub check_edges : Index → ℕ → FlatStep → Check
check_edges seen i s =
    check_deps seen i s
    then_check check_each
        (λ j req. refuse (Table.has seen req) "contract_violation" (part "steps" i "requires" j)) 0
        s.requires

-- Step{ID: fs.ID, DependsOn: fs.DependsOn, Type: fs.Type}
abbrev pub bare : FlatStep → Step
bare fs = record {
  id = fs.id;
  type = fs.type;
  run = "";
  env = [];
  timeout_seconds = none;
  depends_on = fs.depends_on;
  requires = [];
  produces = [];
  harness = [];
  instructions = "";
  mode = "";
  workspace = none;
  source = none;
  bindings = [];
}

abbrev pub bare_all : List FlatStep → List Step
bare_all [] = []
bare_all (fs ∷ steps) = bare fs ∷ bare_all steps

-- The steps of the FlatDAG, or nil.
unfoldable pub validate_flat : Option (List FlatStep) → Check
validate_flat none = refuse true "invalid_workflow" (field "")
validate_flat (some steps) =
    refuse (is_empty_list steps) "missing_field" (field "steps")
    then_check check_names (λ (s : FlatStep). s.id) (check_flat_step (length steps)) 0 [] steps
    then_check check_each (check_edges (fill_index 0 [] steps)) 0 steps
    then_check check_cycle (detect_cycle (bare_all steps))
    then_check refuse (not (has_entry steps)) "cycle_detected" (field "")
