-- ===== src/Workflow/Compose/Leaves.antt =====
-- What Flatten of internal/workflow/compose.go leaves in a flat graph.
use haro.Prelude.{
  drop, ℕ, zero, suc, ◌≤◌, String, Bool, true, false, none, some, List, [], ◌∷◌, ◌++◌, not, ◌&&◌,
  ◌||◌, ◌==◌, ◌≡◌, refl, ltb, string_eq, length, take, All, arith, Bool-cases, Option-cases, inl,
  inr, ◌⊎◌, Bytes, codes, is_empty_list, if◌then◌else◌,
}
use haro.Prelude.Table
use haro.Prelude.Table.{Table, put}
use haro.Claim.Path.{clean}
use haro.Workflow.Types.{◌+++◌, Input, Step, Workflow, field}
use haro.Workflow.Cycles.{Edges, deps_of}
use haro.Workflow.Validate.{
  refuse, ◌then_check◌, check_each, check_shape, check_step, check_graph, validate_file,
}
use haro.Workflow.Validate.Flat.{then_check-none, refuse-none}
use haro.Workflow.Names.{
  Nodes, rewrite_steps, merge_into, merge_inputs, flat_step, expand_deps, producer_ids,
}
use haro.Workflow.Sort.{
  Degrees, fill_index, or_zero, pick, release, drain, topo_sort, Sorted, sorted, cycle_detected,
  out_of_fuel, fill_degrees, fill_dependents, first_queue,
}
use haro.Workflow.Sort.Result.{judge-sorted}
use haro.Workflow.Compose.{
  made, Counts, Flow, pure, ◌>>=◌, ◌>>◌, pass, none_of, Files, count_steps, splice, locate,
  splice_in, open_included, canonical_path, validated, load_file, include_step, keep_step,
  expand_steps, flatten_rec, flatten, sort_flow,
}
use haro.Workflow.Compose.Flows.{Gives, Gives-pure, Gives-bind, Gives-then, Gives-pass}

-- A step that runs something.
abbrev pub IsLeaf : Step → Type 0
IsLeaf s = (s.type == "command" || s.type == "agent") ≡ true

abbrev pub Leaves : List Step → Type 0
Leaves steps = All IsLeaf steps

Leaves-append : (xs ys : List Step) → Leaves xs → Leaves ys → Leaves (xs ++ ys)
Leaves-append [] ys all all' = all'
Leaves-append (x ∷ xs) ys (first, rest) all' = (first, Leaves-append xs ys rest all')

rewrite_steps-Leaves :
    (bindings : Table String String) (steps : List Step)
    → Leaves steps
    → Leaves (rewrite_steps bindings steps)
unfolding rewrite_steps
rewrite_steps-Leaves bindings [] all = tt
rewrite_steps-Leaves bindings (s ∷ steps) (first, rest) =
    (first, rewrite_steps-Leaves bindings steps rest)

merge_into-Leaves :
    (consumer : String) (pds : List String) (steps : List Step)
    → Leaves steps
    → Leaves (merge_into consumer pds steps)
unfolding merge_into
merge_into-Leaves consumer pds [] all = tt
merge_into-Leaves consumer pds (s ∷ steps) (first, rest) = elim (Bool-cases (s.id == consumer)) [
  | inl hit ↦ rw (hit, merge_into) (first, merge_into-Leaves consumer pds steps rest)
  | inr other ↦ rw (other, merge_into) (first, merge_into-Leaves consumer pds steps rest)
]

merge_inputs-Leaves :
    (prefix : String) (pds : List String) (inputs : List Input) (steps : List Step)
    → Leaves steps
    → Leaves (merge_inputs prefix pds inputs steps)
unfolding merge_inputs
merge_inputs-Leaves prefix pds [] steps all = all
merge_inputs-Leaves prefix pds (inp ∷ inputs) steps all =
    merge_inputs-Leaves prefix pds inputs (merge_into _ pds steps)
      (merge_into-Leaves _ pds steps all)

splice-Leaves :
    (prefix : String) (nodes : Nodes) (s : Step) (inc : Workflow) (subs : List Step)
    → Leaves subs
    → Leaves (splice prefix nodes s inc subs)
unfolding splice
splice-Leaves prefix nodes s inc subs all =
    let bound = rewrite_steps-Leaves s.bindings subs all in
    elim (Bool-cases (is_empty_list (expand_deps prefix nodes s.depends_on))) [
      | inl nothing ↦ rw (nothing, splice) bound
      | inr some_ ↦
          rw (some_, splice)
            (merge_inputs-Leaves _ (expand_deps prefix nodes s.depends_on) inc.inputs _ bound)
    ]

-- A step of one of the three types.
abbrev IsTyped : Step → Type 0
IsTyped s =
    (not (s.type == "command") && not (s.type == "agent") && not (s.type == "workflow")) ≡ false

check_each-IsTyped :
    (i : ℕ) (steps : List Step) → check_each check_step i steps ≡ none → All IsTyped steps
unfolding check_step
check_each-IsTyped i [] passes = tt
check_each-IsTyped i (s ∷ steps) passes =
    let (first, rest) =
      then_check-none (check_step i s) (check_each check_step (suc i) steps) passes in
    let typed : IsTyped s =
      elim (Bool-cases
        (not (s.type == "command") && not (s.type == "agent") && not (s.type == "workflow"))) [
          | inl bad ↦ let k = rw (bad, check_step) at first in absurd cc
          | inr good ↦ good
        ] in
    (typed, check_each-IsTyped (suc i) steps rest)

validate_file-IsTyped :
    (wf : Workflow) (is_root : Bool) → validate_file (some wf) is_root ≡ none → All IsTyped wf.steps
unfolding validate_file
validate_file-IsTyped wf is_root passes =
    let each = check_each check_step 0 wf.steps in
    let (p1, r1) =
      then_check-none (check_shape wf is_root) (each then_check check_graph wf) passes in
    let (p2, r2) = then_check-none each (check_graph wf) r1 in check_each-IsTyped 0 wf.steps p2

abbrev FirstLeaves : List Step × Nodes → Type 0
FirstLeaves (flat, nodes) = Leaves flat

module _ (files : Files) (base : Bytes) where
  splice_in-Leaves :
      (prefix : String) (nodes : Nodes) (s : Step) (inc : Workflow) (subs : List Step)
      → Leaves subs
      → Gives FirstLeaves (splice_in files base prefix nodes s inc subs)
  unfolding splice_in
  splice_in-Leaves prefix nodes s inc subs all =
      let flat = splice prefix nodes s inc subs in
      let result : List Step × Nodes = (
        flat,
        put nodes (prefix +++ s.id) (producer_ids (prefix +++ s.id +++ ".") inc.outputs flat),
      ) in
      Gives-then FirstLeaves (count_steps (length subs)) (λ u. pure result)
        (λ u. Gives-pure FirstLeaves result (splice-Leaves prefix nodes s inc subs all))

  keep_step-Leaves :
      (prefix : String) (nodes : Nodes) (s : Step)
      → IsLeaf s
      → Gives FirstLeaves (keep_step files base prefix nodes s)
  unfolding keep_step flat_step
  keep_step-Leaves prefix nodes s leaf =
      let result : List Step × Nodes = (flat_step prefix nodes s ∷ [], nodes) in
      Gives-then FirstLeaves (count_steps 1) (λ u. pure result)
        (λ u. Gives-pure FirstLeaves result (leaf, tt))

  module _ (open_file : Bytes → String → Flow (List Step))
      (opened : (path : Bytes) (prefix : String) → Gives Leaves (open_file path prefix)) where
    include_step-Leaves :
        (current : Bytes) (prefix : String) (idx : ℕ) (nodes : Nodes) (s : Step)
        → Gives FirstLeaves (include_step files base open_file current prefix idx nodes s)
    unfolding include_step
    include_step-Leaves current prefix idx nodes s =
        Gives-then FirstLeaves (locate files base current idx s)
          (open_included files base open_file prefix nodes s)
          (λ (cleaned, inc).
            Gives-bind Leaves FirstLeaves (open_file cleaned (prefix +++ s.id +++ "."))
              (splice_in files base prefix nodes s inc) (opened cleaned (prefix +++ s.id +++ "."))
              (splice_in-Leaves prefix nodes s inc))

    expand_steps-Leaves :
        (current : Bytes) (prefix : String) (idx : ℕ) (nodes : Nodes) (steps : List Step)
        → All IsTyped steps
        → Gives Leaves (expand_steps files base open_file current prefix idx nodes steps)
    unfolding expand_steps
    expand_steps-Leaves current prefix idx nodes [] typed = Gives-pure Leaves [] tt
    expand_steps-Leaves current prefix idx nodes (s ∷ steps) (first, typed) =
        let branch =
          if s.type == "workflow"
          then include_step files base open_file current prefix idx nodes s
          else keep_step files base prefix nodes s in
        let branched : Gives FirstLeaves branch = elim (Bool-cases (s.type == "workflow")) [
          | inl included ↦ rw included (include_step-Leaves current prefix idx nodes s)
          | inr kept ↦ rw kept (keep_step-Leaves prefix nodes s (ground (arith, first, kept)))
        ] in
        Gives-bind FirstLeaves Leaves branch
          (λ (flat, nodes').
            expand_steps files base open_file current prefix (suc idx) nodes' steps >>= λ rest.
            pure (flat ++ rest))
          branched
          (λ (flat, nodes') all.
            Gives-bind Leaves Leaves
              (expand_steps files base open_file current prefix (suc idx) nodes' steps)
              (λ rest. pure (flat ++ rest))
              (expand_steps-Leaves current prefix (suc idx) nodes' steps typed)
              (λ rest all'. Gives-pure Leaves (flat ++ rest) (Leaves-append flat rest all all')))

  abbrev AllTyped : Workflow → Type 0
  AllTyped wf = All IsTyped wf.steps

  flatten_rec-Leaves :
      (left : ℕ) (is_root : Bool) (stack : List Bytes) (current : Bytes) (prefix : String)
      → Gives Leaves (flatten_rec files base left is_root stack current prefix)
  unfolding flatten_rec
  flatten_rec-Leaves zero is_root stack current prefix = λ n m steps done. absurd cc
  flatten_rec-Leaves (suc left) is_root stack current prefix =
      let below = flatten_rec files base left false (canonical_path files current ∷ stack) in
      Gives-bind AllTyped Leaves
        (load_file files base stack current >>= validated files base is_root)
        (λ wf. expand_steps files base below current prefix 0 [] wf.steps)
        (Gives-then AllTyped (load_file files base stack current) (validated files base is_root)
          (λ wf.
            Gives-bind (λ u. validate_file (some wf) is_root ≡ none) AllTyped
              (pass (validate_file (some wf) is_root)) (λ u. pure wf)
              (Gives-pass (validate_file (some wf) is_root))
              (λ u passes. Gives-pure AllTyped wf (validate_file-IsTyped wf is_root passes))))
        (λ wf typed.
          expand_steps-Leaves below
            (flatten_rec-Leaves left false (canonical_path files current ∷ stack)) current prefix 0
            [] wf.steps typed)

first-Leaves : (n : ℕ) (steps : List Step) → Leaves steps → Leaves (take 1 (drop n steps))
first-Leaves zero [] all = tt
first-Leaves zero (s ∷ steps) (first, rest) = (first, tt)
first-Leaves (suc n) [] all = tt
first-Leaves (suc n) (s ∷ steps) (first, rest) = first-Leaves n steps rest

pick-Leaves : (steps : List Step) (cur : String) → Leaves steps → Leaves (pick steps cur)
unfolding pick
pick-Leaves steps cur all = first-Leaves (or_zero (Table.get (fill_index 0 [] steps) cur)) steps all

module _ (sort_strings : List String → List String) (steps : List Step) (all : Leaves steps) where
  drain-Leaves :
      (fuel : ℕ) (adj : Edges) (indeg : Degrees) (queue : List String) (out : List Step)
      → drain sort_strings fuel steps adj indeg queue ≡ some out
      → Leaves out
  unfolding drain
  drain-Leaves fuel adj indeg [] out done = let none_left : [] ≡ out = cc in rw⁻¹ none_left tt
  drain-Leaves zero adj indeg (cur ∷ queue) out done = absurd cc
  drain-Leaves (suc fuel) adj indeg (cur ∷ queue) out done =
      let next = release indeg queue (deps_of adj cur) in
      elim (Option-cases (drain sort_strings fuel steps adj next.0 (sort_strings next.1))) [
        | inl stuck ↦ let k = rw (stuck, drain) at done in absurd cc
        | inr (rest, e) ↦
            let same : pick steps cur ++ rest ≡ out = let k = rw (e, drain) at done in cc in
            rw⁻¹ same (
              Leaves-append (pick steps cur) rest (pick-Leaves steps cur all)
                (drain-Leaves fuel adj next.0 (sort_strings next.1) rest e))
      ]

  topo_sort-Leaves :
      (out : List Step)
      → topo_sort sort_strings steps ≡ sorted out
      → Leaves out × (length out ≡ length steps)
  unfolding topo_sort
  topo_sort-Leaves out done =
      let indeg = fill_degrees [] steps in
      let adj = fill_dependents [] steps in
      let queue = sort_strings (first_queue indeg steps) in
      elim (Option-cases (drain sort_strings (length steps) steps adj indeg queue)) [
        | inl stuck ↦ let k = rw (stuck, topo_sort) at done in absurd cc
        | inr (drained, e) ↦
            let (same, full) = judge-sorted steps drained out (rw (e, topo_sort) at done) in
            (rw⁻¹ same (drain-Leaves (length steps) adj indeg queue drained e), full)
      ]

Sorted-cases :
    (o : Sorted)
    → ((out : List Step) × (o ≡ sorted out)) ⊎ ((o ≡ cycle_detected) ⊎ (o ≡ out_of_fuel))
Sorted-cases (sorted out) = inl (out, refl)
Sorted-cases cycle_detected = inr (inl refl)
Sorted-cases out_of_fuel = inr (inr refl)

abbrev IsFlat : List Step → Type 0
IsFlat steps = Leaves steps × (length steps ≤ 256)

sort_flow-IsFlat :
    (sort_strings : List String → List String) (steps : List Step)
    → Leaves steps
    → ltb 256 (length steps) ≡ false
    → Gives IsFlat (sort_flow (topo_sort sort_strings steps))
sort_flow-IsFlat sort_strings steps all small = elim (Sorted-cases (topo_sort sort_strings steps)) [
  | inl (out, e) ↦
      let (leaves, full) = topo_sort-Leaves sort_strings steps all out e in
      rw e (Gives-pure IsFlat out (leaves, ground (arith, full, small)))
  | inr (inl e) ↦ rw e (λ n m out done. absurd cc)
  | inr (inr e) ↦ rw e (λ n m out done. absurd cc)
]

-- Whatever the files are: where Flatten succeeds, its graph has at most 256 steps, and each of them
-- is a command or an agent.
pub flatten-Leaves :
    (sort_strings : List String → List String) (files : Files) (root root_path : Bytes)
    (n m : Counts) (steps : List Step)
    → flatten sort_strings files root root_path n ≡ made (steps, m)
    → Leaves steps × (length steps ≤ 256)
unfolding flatten
flatten-Leaves sort_strings files root root_path =
    let base = clean (root ++ codes "/.haro/workflows") in
    Gives-bind Leaves IsFlat (flatten_rec files base 17 true [] (clean root_path) "")
      (λ steps.
        none_of (ltb 256 (length steps)) "guard_exceeded" (field "steps")
        >> sort_flow (topo_sort sort_strings steps))
      (flatten_rec-Leaves files base 17 true [] (clean root_path) "")
      (λ steps all.
        let check = refuse (ltb 256 (length steps)) "guard_exceeded" (field "steps") in
        Gives-bind (λ u. check ≡ none) IsFlat (pass check)
          (λ u. sort_flow (topo_sort sort_strings steps)) (Gives-pass check)
          (λ u passes.
            sort_flow-IsFlat sort_strings steps all
              (refuse-none (ltb 256 (length steps)) "guard_exceeded" (field "steps") passes)))
