-- ===== src/Workflow/Validate/Flat.antt =====
-- What ValidateFlat of internal/workflow/validate.go guarantees to topoSort of compose.go.
use haro.Prelude.{
  mem, ℕ, suc, String, Bool, true, false, none, some, List, [], ◌∷◌, not, ◌||◌, ◌==◌, ◌≡◌, refl,
  sym, ◌∙◌, ap, string_eq, nat_eq, length, is_empty_list, arith, eq_iff, Bool-cases, inl, inr,
  ==_sound,
}
use haro.Prelude.Table
use haro.Prelude.Table.{Table, put, has-put, get-put}
use haro.Workflow.Types.{FlatStep, Field, field, part}
use haro.Workflow.Cycles.{
  Colors, Edges, color_of, deps_of, edges, fill_edges, Outcome, found, finished, out_of_fuel, dfs,
  search_from, detect_cycle,
}
use haro.Workflow.Cycles.Marks.{Color-cases, Outcome-cases}
use haro.Workflow.Cycles.Order.{ids}
use haro.Workflow.Sort.{fill_index, sorted, topo_sort}
use haro.Workflow.Sort.Counts.{Distinct}
use haro.Workflow.Sort.Invariant.{IsPermutation}
use haro.Workflow.Sort.Complete.{Closed, topo_sort_accepts}
use haro.Workflow.Validate.{
  Check, refuse, ◌then_check◌, check_each, check_names, check_deps, check_edges, check_flat_step,
  check_cycle, has_entry, bare_all, validate_flat, Index,
}

pub then_check-none : (a b : Check) → (a then_check b) ≡ none → (a ≡ none) × (b ≡ none)
then_check-none none b passes = (refl, passes)
then_check-none (some e) b passes = absurd cc

pub refuse-none :
    (test : Bool) (code : String) (where_ : Field) → refuse test code where_ ≡ none → test ≡ false
refuse-none true code where_ passes = absurd cc
refuse-none false code where_ passes = refl

-- A loop over the ids that refuses those that it has seen lets only distinct ids through.
pub names-Distinct :
    (check : ℕ → List String → FlatStep → Check)
    → ((i : ℕ) (seen : List String) (s : FlatStep) → check i seen s ≡ none → mem s.id seen ≡ false)
    → (i : ℕ) (seen : List String) (steps : List FlatStep)
    → check_names (λ (s : FlatStep). s.id) check i seen steps ≡ none
    → Distinct steps × ((z : String) → mem z (ids steps) ≡ true → mem z seen ≡ false)
names-Distinct check refuses i seen [] passes = (tt, λ z h. absurd cc)
names-Distinct check refuses i seen (s ∷ steps) passes =
    let (first, rest) =
      then_check-none (check i seen s)
        (check_names (λ (t : FlatStep). t.id) check (suc i) (s.id ∷ seen) steps) passes in
    let (distinct, apart) = names-Distinct check refuses (suc i) (s.id ∷ seen) steps rest in
    let fresh = refuses i seen s first in
    let single : mem s.id (ids steps) ≡ false = elim (Bool-cases (mem s.id (ids steps))) [
      | inl twice ↦ let k = apart s.id twice in absurd (ground (arith, k, eq_iff s.id s.id))
      | inr once ↦ once
    ] in
    (
      (single, distinct),
      λ z h. elim (Bool-cases (s.id == z)) [
        | inl same ↦ rw⁻¹ (==_sound s.id z same) fresh
        | inr other ↦ let k = apart z (rw other at h) in ground (arith, k)
      ],
    )

check_flat_step-fresh :
    (total i : ℕ) (seen : List String) (s : FlatStep)
    → check_flat_step total i seen s ≡ none
    → mem s.id seen ≡ false
check_flat_step-fresh total i seen s passes = ground (arith, passes)

pub has-fill_index :
    (i : ℕ) (m : Index) (steps : List FlatStep) (z : String)
    → Table.has (fill_index i m steps) z ≡ (Table.has m z || mem z (ids steps))
unfolding fill_index
has-fill_index i m [] z = ground arith
has-fill_index i m (s ∷ steps) z =
    ground (arith, has-fill_index (suc i) (put m s.id i) steps z, has-put m s.id z i)

deps_known :
    (seen : Index) (i j : ℕ) (deps : List String)
    → check_each
        (λ k dep.
          refuse (not (Table.has seen dep)) "contract_violation" (part "steps" i "depends_on" k))
        j
        deps
      ≡ none
    → (d : String) → mem d deps ≡ true
    → Table.has seen d ≡ true
deps_known seen i j [] passes d h = absurd cc
deps_known seen i j (dep ∷ deps) passes d h =
    let check = λ (k : ℕ) (x : String).
      refuse (not (Table.has seen x)) "contract_violation" (part "steps" i "depends_on" k) in
    let (first, rest) = then_check-none (check j dep) (check_each check (suc j) deps) passes in
    elim (Bool-cases (dep == d)) [
      | inl same ↦
          let known : Table.has seen dep ≡ true =
            let k =
              refuse-none (not (Table.has seen dep)) "contract_violation"
                (part "steps" i "depends_on" j) first in
            ground (arith, k) in
          rw⁻¹ (==_sound dep d same) known
      | inr other ↦ deps_known seen i (suc j) deps rest d (rw other at h)
    ]

pub edges_known :
    (seen : Index) (i : ℕ) (adj : Edges) (steps : List FlatStep)
    → check_each (check_deps seen) i steps ≡ none
    → ((x d : String) → mem d (deps_of adj x) ≡ true → Table.has seen d ≡ true)
    → (x d : String) → mem d (deps_of (fill_edges adj steps) x) ≡ true
    → Table.has seen d ≡ true
unfolding fill_edges
edges_known seen i adj [] passes known x d h = known x d h
edges_known seen i adj (s ∷ steps) passes known x d h =
    let (deps, rest) =
      then_check-none (check_deps seen i s) (check_each (check_deps seen) (suc i) steps) passes in
    edges_known seen (suc i) (put adj s.id s.depends_on) steps rest
      (λ y e k. elim (Bool-cases (s.id == y)) [
        | inl same ↦
            deps_known seen i 0 s.depends_on deps e
              (rw (get-put adj s.id y s.depends_on, same) at k)
        | inr other ↦ known y e (rw (get-put adj s.id y s.depends_on, other) at k)
      ])
      x d h

-- The checks of the edges begin with those of the dependencies.
check_edges-deps :
    (seen : Index) (i : ℕ) (steps : List FlatStep)
    → check_each (check_edges seen) i steps ≡ none
    → check_each (check_deps seen) i steps ≡ none
check_edges-deps seen i [] passes = refl
check_edges-deps seen i (s ∷ steps) passes =
    let (first, rest) =
      then_check-none (check_edges seen i s) (check_each (check_edges seen) (suc i) steps) passes in
    let (deps, requires_) =
      then_check-none (check_deps seen i s)
        (check_each
          (λ j req. refuse (Table.has seen req) "contract_violation" (part "steps" i "requires" j))
          0 s.requires)
        first in
    rw deps (check_edges-deps seen (suc i) steps rest)

fill_edges-bare_all :
    (adj : Edges) (steps : List FlatStep) → fill_edges adj (bare_all steps) ≡ fill_edges adj steps
unfolding fill_edges
fill_edges-bare_all adj [] = refl
fill_edges-bare_all adj (s ∷ steps) = fill_edges-bare_all (put adj s.id s.depends_on) steps

length-bare_all : (steps : List FlatStep) → length (bare_all steps) ≡ length steps
length-bare_all [] = refl
length-bare_all (s ∷ steps) = ap suc (length-bare_all steps)

search_from-bare_all :
    (fuel : ℕ) (adj : Edges) (c : Colors) (steps : List FlatStep)
    → search_from fuel adj c (bare_all steps) ≡ search_from fuel adj c steps
unfolding search_from
search_from-bare_all fuel adj c [] = refl
search_from-bare_all fuel adj c (s ∷ steps) = elim (Color-cases (color_of c s.id)) [
  | inl w ↦ elim (Outcome-cases (dfs fuel adj [] c s.id)) [
    | inl (cycle, e) ↦ rw (w, e, search_from) refl
    | inr (inl (c1, e)) ↦ rw (w, e, search_from) (search_from-bare_all fuel adj c1 steps)
    | inr (inr e) ↦ rw (w, e, search_from) refl
  ]
  | inr (inl g) ↦ rw (g, search_from) (search_from-bare_all fuel adj c steps)
  | inr (inr b) ↦ rw (b, search_from) (search_from-bare_all fuel adj c steps)
]

detect_cycle-bare_all : (steps : List FlatStep) → detect_cycle (bare_all steps) ≡ detect_cycle steps
unfolding detect_cycle
detect_cycle-bare_all steps =
    rw (length-bare_all steps, fill_edges-bare_all [] steps)
      (search_from-bare_all (suc (length steps)) (edges steps) [] steps)

pub cycle-none : (o : Outcome) → check_cycle o ≡ none → (c : Colors) × (o ≡ finished c)
cycle-none (found cycle) passes = absurd cc
cycle-none (finished c) passes = (c, refl)
cycle-none out_of_fuel passes = absurd cc

-- What the checks of an accepted FlatDAG have established.
record Valid (steps : List FlatStep) : Type 0 where
  distinct : Distinct steps
  closed : Closed steps
  colors : Colors
  searched : detect_cycle steps ≡ finished colors

valid : (steps : List FlatStep) → validate_flat (some steps) ≡ none → Valid steps
unfolding validate_flat Table.get Table.has
valid steps passes =
    let index = fill_index 0 [] steps in
    let total = length steps in
    let names = check_names (λ (s : FlatStep). s.id) (check_flat_step total) 0 [] steps in
    let edges_ = check_each (check_edges index) 0 steps in
    let cycle = check_cycle (detect_cycle (bare_all steps)) in
    let entry_ = refuse (not (has_entry steps)) "cycle_detected" (field "") in
    let (p1, r1) =
      then_check-none (refuse (is_empty_list steps) "missing_field" (field "steps"))
        (names then_check edges_ then_check cycle then_check entry_) passes in
    let (p2, r2) = then_check-none names (edges_ then_check cycle then_check entry_) r1 in
    let (p3, r3) = then_check-none edges_ (cycle then_check entry_) r2 in
    let (p4, r4) = then_check-none cycle entry_ r3 in
    let (distinct, apart) =
      names-Distinct (check_flat_step total) (check_flat_step-fresh total) 0 [] steps p2 in
    let (c, done) = cycle-none (detect_cycle (bare_all steps)) p4 in
    record {
      distinct = distinct;
      closed = λ x d h.
          let known =
            edges_known index 0 [] steps (check_edges-deps index 0 steps p3) (λ y e k. absurd cc) x
              d h in
          ground (arith, known, has-fill_index 0 [] steps d);
      colors = c;
      searched = sym (detect_cycle-bare_all steps) ∙ done;
    }

-- topoSort, with a sort.Strings that permutes, sorts every flat graph that ValidateFlat accepts.
pub validate_flat_sorts :
    (sort_strings : List String → List String) (steps : List FlatStep)
    → IsPermutation sort_strings
    → validate_flat (some steps) ≡ none
    → (out : List FlatStep) × (topo_sort sort_strings steps ≡ sorted out)
validate_flat_sorts sort_strings steps permutes passes =
    let v = valid steps passes in
    topo_sort_accepts sort_strings steps v.colors permutes v.distinct v.closed v.searched
