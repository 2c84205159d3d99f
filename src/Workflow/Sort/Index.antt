-- ===== src/Workflow/Sort/Index.antt =====
-- The step that topoSort of internal/workflow/compose.go appends for an id.
use native.Mathlib.Nat.{zero-add}
use haro.Prelude.{
  drop, mem, ℕ, suc, ◌+◌, String, true, false, some, List, [], ◌∷◌, ◌≡◌, refl, string_eq, take,
  arith, eq_iff, Bool-cases, inl, inr, ◌⊎◌, ==_sound,
}
use haro.Prelude.Table
use haro.Prelude.Table.{Table, put, get-put}
use haro.Workflow.Types.{Step}
use haro.Workflow.Cycles.{Edges, deps_of, fill_edges, edges}
use haro.Workflow.Cycles.Order.{ids, get-fill_edges}
use haro.Workflow.Sort.{fill_index, pick}

abbrev pub In : Step → List Step → Type 0
In s [] = ⊥
In s (x ∷ xs) = (x ≡ s) ⊎ In s xs

get-fill_index :
    (i : ℕ) (m : Table String ℕ) (steps : List Step) (z : String)
    → mem z (ids steps) ≡ false
    → Table.get (fill_index i m steps) z ≡ Table.get m z
unfolding fill_index
get-fill_index i m [] z h = refl
get-fill_index i m (s ∷ steps) z h =
    let later = get-fill_index (suc i) (put m s.id i) steps z (ground (arith, h)) in
    ground (arith, later, get-put m s.id z i, h)

-- The step at the place `k` has the id, and its dependencies are those of the id.
record Place (i : ℕ) (m : Table String ℕ) (adj : Edges) (steps : List Step) (z : String)
    : Type 0 where
  k : ℕ
  step : Step
  indexed : Table.get (fill_index i m steps) z ≡ some (i + k)
  there : take 1 (drop k steps) ≡ step ∷ []
  named : step.id ≡ z
  deps : step.depends_on ≡ deps_of (fill_edges adj steps) z
  inside : In step steps

place :
    (i : ℕ) (m : Table String ℕ) (adj : Edges) (steps : List Step) (z : String)
    → mem z (ids steps) ≡ true
    → Place i m adj steps z
unfolding fill_index fill_edges
place i m adj [] z h = absurd cc
place i m adj (s ∷ steps) z h = elim (Bool-cases (mem z (ids steps))) [
  | inl later ↦
      let p = place (suc i) (put m s.id i) (put adj s.id s.depends_on) steps z later in
      let shifted : suc i + p.k ≡ i + suc p.k = omega arith in
      record {
        k = suc p.k;
        step = p.step;
        indexed = rw⁻¹ shifted p.indexed;
        there = p.there;
        named = p.named;
        deps = p.deps;
        inside = inr p.inside;
      }
  | inr here ↦
      let same : s.id ≡ z = ==_sound s.id z (ground (arith, h, here)) in
      record {
        k = 0;
        step = s;
        indexed =
            rw (get-fill_index (suc i) (put m s.id i) steps z here, get-put m s.id z i)
              (ground (arith, same, eq_iff s.id z));
        there = refl;
        named = same;
        deps =
            rw
              (
                get-fill_edges (put adj s.id s.depends_on) steps z here,
                get-put adj s.id z s.depends_on,
              )
              (ground (arith, same, eq_iff s.id z));
        inside = inl refl;
      }
]

-- The step that is appended for an id.
pub record Picked (steps : List Step) (z : String) : Type 0 where
  pub step : Step
  pub alone : pick steps z ≡ step ∷ []
  pub named : step.id ≡ z
  pub deps : step.depends_on ≡ deps_of (edges steps) z
  pub inside : In step steps

pub pick_lem : (steps : List Step) (z : String) → mem z (ids steps) ≡ true → Picked steps z
unfolding pick
pick_lem steps z h =
    let p = place 0 [] [] steps z h in
    record {
      step = p.step;
      alone = rw (p.indexed, zero-add p.k) p.there;
      named = p.named;
      deps = p.deps;
      inside = p.inside;
    }
