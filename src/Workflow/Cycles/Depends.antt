-- ===== src/Workflow/Cycles/Depends.antt =====
-- Chains of dependencies, and lists in which every node stands before what it depends on.
use haro.Prelude.{
  All-mem, mem, String, true, false, List, [], ◌∷◌, ◌==◌, ◌≡◌, refl, string_eq, arith, Bool-cases,
  inl, inr, ◌⊎◌, ==_sound,
}
use haro.Workflow.Cycles.{Edges, deps_of}
use haro.Workflow.Cycles.Marks.{Ordered}

-- `Depends adj x y`: a chain of at least one dependency leads from x to y.
pub data Depends (adj : Edges) (x : String) : String → Type 0 where
  direct : {y : String} → mem y (deps_of adj x) ≡ true → Depends adj x y
  through : {y z : String} → Depends adj x y → mem z (deps_of adj y) ≡ true → Depends adj x z

module _ (adj : Edges) where
  -- Behind a node of the list stand all that it depends on.
  Ordered-closed :
      (order : List String) (x d : String)
      → Ordered adj order
      → mem x order ≡ true
      → mem d (deps_of adj x) ≡ true
      → mem d order ≡ true
  Ordered-closed [] x d ordered h edge = absurd cc
  Ordered-closed (y ∷ ys) x d (fresh, deps, rest) h edge = elim (Bool-cases (y == x)) [
    | inl same ↦
        let behind =
          All-mem (λ e. mem e ys ≡ true) (deps_of adj x) d (rw⁻¹ (==_sound y x same) deps) edge in
        ground (arith, behind)
    | inr other ↦
        let behind = Ordered-closed ys x d rest (rw other at h) edge in ground (arith, behind)
  ]

  Depends-closed :
      (order : List String) (x y : String)
      → Ordered adj order
      → mem x order ≡ true
      → Depends adj x y
      → mem y order ≡ true
  Depends-closed order x y ordered h (direct edge) = Ordered-closed order x y ordered h edge
  Depends-closed order x z ordered h (through {y} chain edge) =
      Ordered-closed order y z ordered (Depends-closed order x y ordered h chain) edge

  pub Depends-first :
      (x y : String)
      → Depends adj x y
      → (d : String) × (mem d (deps_of adj x) ≡ true) × ((d ≡ y) ⊎ Depends adj d y)
  Depends-first x y (direct edge) = (y, edge, inl refl)
  Depends-first x z (through {y} chain edge) =
      let (d, first, rest) = Depends-first x y chain in
      (
        d,
        first,
        inr (elim rest [ inl same ↦ direct (rw same edge) | inr more ↦ through more edge ]),
      )

  -- No node of the list depends on itself.
  pub Ordered-acyclic :
      (order : List String) (x : String)
      → Ordered adj order
      → mem x order ≡ true
      → ¬ Depends adj x x
  Ordered-acyclic [] x ordered h chain = cc
  Ordered-acyclic (y ∷ ys) x (fresh, deps, rest) h chain = elim (Bool-cases (y == x)) [
    | inl same ↦
        let (d, first, more) = Depends-first x x chain in
        let behind =
          All-mem (λ e. mem e ys ≡ true) (deps_of adj x) d (rw⁻¹ (==_sound y x same) deps) first in
        let again : mem x ys ≡ true = elim more [
          | inl e ↦ rw⁻¹ e behind
          | inr chain' ↦ Depends-closed ys d x rest behind chain'
        ] in
        let absent : mem x ys ≡ false = rw⁻¹ (==_sound y x same) fresh in cc
    | inr other ↦ Ordered-acyclic ys x rest (rw other at h) chain
  ]
