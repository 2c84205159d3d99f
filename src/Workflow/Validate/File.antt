-- ===== src/Workflow/Validate/File.antt =====
-- What ValidateFile of internal/workflow/validate.go guarantees.
use haro.Prelude.{
  ℕ, String, Bool, false, none, some, List, [], not, ◌≡◌, mem, string_eq, is_empty_list, arith,
}
use haro.Prelude.Table
use haro.Workflow.Types.{is_two, Input, Output, Step, Workflow, field, item}
use haro.Workflow.Cycles.{edges, detect_cycle}
use haro.Workflow.Cycles.Depends.{Depends}
use haro.Workflow.Cycles.Verdict.{detect_cycle_accepts}
use haro.Workflow.Sort.{fill_index}
use haro.Workflow.Sort.Counts.{Distinct}
use haro.Workflow.Sort.Complete.{Closed}
use haro.Workflow.Validate.{
  refuse, ◌then_check◌, check_each, check_names, check_input, check_output, check_id, check_step,
  check_workspace, check_deps, check_cycle, check_root, has_entry, check_shape, check_graph,
  validate_file,
}
use haro.Workflow.Validate.Flat.{
  then_check-none, names-Distinct, has-fill_index, edges_known, cycle-none,
}

check_id-fresh :
    (i : ℕ) (seen : List String) (s : Step) → check_id i seen s ≡ none → mem s.id seen ≡ false
check_id-fresh i seen s passes = ground (arith, passes)

-- The checks before those of each step include the one of the ids.
check_shape-Distinct :
    (wf : Workflow) (is_root : Bool) → check_shape wf is_root ≡ none → Distinct wf.steps
unfolding check_shape
check_shape-Distinct wf is_root passes =
    let step_ids = fill_index 0 [] wf.steps in
    let names = check_names (λ (s : Step). s.id) check_id 0 [] wf.steps in
    let tail =
      check_each
        (λ i (inp : Input).
          refuse (not (Table.has step_ids inp.satisfied_by)) "contract_violation"
            (item "inputs" i "satisfied_by"))
        0 wf.inputs
      then_check check_each
          (λ i (out : Output).
            refuse (not (Table.has step_ids out.produced_by)) "contract_violation"
              (item "outputs" i "produced_by"))
          0 wf.outputs in
    let outputs = check_names (λ (out : Output). out.name) check_output 0 [] wf.outputs in
    let inputs = check_names (λ (inp : Input). inp.name) check_input 0 [] wf.inputs in
    let root = check_root is_root wf in
    let empty = refuse (is_empty_list wf.steps) "missing_field" (field "steps") in
    let (p1, r1) =
      then_check-none (refuse (not (is_two wf.version)) "invalid_version" (field "version"))
        (empty then_check root then_check inputs then_check outputs then_check names
          then_check tail)
        passes in
    let (p2, r2) =
      then_check-none empty
        (root then_check inputs then_check outputs then_check names then_check tail) r1 in
    let (p3, r3) =
      then_check-none root (inputs then_check outputs then_check names then_check tail) r2 in
    let (p4, r4) = then_check-none inputs (outputs then_check names then_check tail) r3 in
    let (p5, r5) = then_check-none outputs (names then_check tail) r4 in
    let (p6, r6) = then_check-none names tail r5 in
    (names-Distinct check_id check_id-fresh 0 [] wf.steps p6).0

-- In a workflow file that ValidateFile accepts, no two steps have the same id, each dependency is
-- the id of a step of the file, and no step depends on itself, directly or through others.
pub validate_file_sound :
    (wf : Workflow) (is_root : Bool) (x : String)
    → validate_file (some wf) is_root ≡ none
    → Distinct wf.steps × Closed wf.steps × (¬ Depends (edges wf.steps) x x)
unfolding validate_file check_graph Table.get Table.has
validate_file_sound wf is_root x passes =
    let index = fill_index 0 [] wf.steps in
    let each = check_each check_step 0 wf.steps in
    let workspace =
      check_workspace (field "workspace.mode") (field "workspace.on_logical_conflict")
        wf.workspace in
    let deps = check_each (check_deps index) 0 wf.steps in
    let cycle = check_cycle (detect_cycle wf.steps) in
    let entry_ = refuse (not (has_entry wf.steps)) "cycle_detected" (field "") in
    let (p1, r1) =
      then_check-none (check_shape wf is_root) (each then_check check_graph wf) passes in
    let (p2, r2) = then_check-none each (check_graph wf) r1 in
    let (p3, r3) = then_check-none workspace (deps then_check cycle then_check entry_) r2 in
    let (p4, r4) = then_check-none deps (cycle then_check entry_) r3 in
    let (p5, r5) = then_check-none cycle entry_ r4 in
    let (c, done) = cycle-none (detect_cycle wf.steps) p5 in
    (
      check_shape-Distinct wf is_root p1,
      λ y d h.
          let known = edges_known index 0 [] wf.steps p4 (λ z e k. absurd cc) y d h in
          ground (arith, known, has-fill_index 0 [] wf.steps d),
      detect_cycle_accepts wf.steps c x done,
    )
