-- ===== src/Workflow/Sort/Counts.antt =====
-- How often ids stand in lists, for topoSort of internal/workflow/compose.go.
use haro.Prelude.{
  mem, occurrences, occurrences-append, ◌+◌, String, true, false, some, List, [], ◌∷◌, ◌++◌, ◌==◌,
  ◌≡◌, refl, string_eq, if◌then◌else◌, length, arith, eq_iff, Bool-cases, inl, inr, ==_sound,
}
use haro.Prelude.Table
use haro.Prelude.Table.{Table, put, get-put}
use haro.Workflow.Types.{Step, pos}
use haro.Workflow.Cycles.{Edges, deps_of, fill_edges}
use haro.Workflow.Cycles.Order.{ids, get-fill_edges}
use haro.Workflow.Sort.{Degrees, fill_degrees, add_dependents, fill_dependents}

pub length-ids : (l : List Step) → length (ids l) ≡ length l
length-ids [] = refl
length-ids (s ∷ l) = omega (arith, length-ids l)

-- No id stands twice.
abbrev pub Distinct : List Step → Type 0
Distinct [] = Unit
Distinct (s ∷ steps) = (mem s.id (ids steps) ≡ false) × Distinct steps

get-fill_degrees :
    (m : Degrees) (steps : List Step) (z : String)
    → mem z (ids steps) ≡ false
    → Table.get (fill_degrees m steps) z ≡ Table.get m z
unfolding fill_degrees
get-fill_degrees m [] z h = refl
get-fill_degrees m (s ∷ steps) z h =
    let n = pos (length s.depends_on) in
    let later = get-fill_degrees (put m s.id n) steps z (ground (arith, h)) in
    ground (arith, later, get-put m s.id z n, h)

-- The degree of an id is the number of its dependencies.
pub fill_degrees_lem :
    (m : Degrees) (adj : Edges) (steps : List Step) (z : String)
    → mem z (ids steps) ≡ true
    → Table.get (fill_degrees m steps) z ≡ some (pos (length (deps_of (fill_edges adj steps) z)))
unfolding fill_degrees fill_edges
fill_degrees_lem m adj [] z h = absurd cc
fill_degrees_lem m adj (s ∷ steps) z h =
    let n = pos (length s.depends_on) in
    elim (Bool-cases (mem z (ids steps))) [
      | inl later ↦ fill_degrees_lem (put m s.id n) (put adj s.id s.depends_on) steps z later
      | inr here ↦
          let same : s.id ≡ z = ==_sound s.id z (ground (arith, h, here)) in
          rw
            (
              get-fill_degrees (put m s.id n) steps z here,
              get-fill_edges (put adj s.id s.depends_on) steps z here,
              get-put m s.id z n,
              get-put adj s.id z s.depends_on,
            )
            (rw same (ground (arith, eq_iff z z)))
    ]

pub add_dependents_lem :
    (adj : Edges) (id : String) (deps : List String) (x d : String)
    → occurrences x (deps_of (add_dependents adj id deps) d)
      ≡ occurrences x (deps_of adj d) + (if id == x then occurrences d deps else 0)
unfolding add_dependents
add_dependents_lem adj id [] x d = ground arith
add_dependents_lem adj id (dep ∷ deps) x d =
    let now = deps_of adj dep ++ id ∷ [] in
    let later = add_dependents_lem (put adj dep now) id deps x d in
    ground (
      arith,
      later,
      get-put adj dep d now,
      occurrences-append x (deps_of adj dep) (id ∷ []),
      eq_iff dep d,
    )

pub fill_dependents_absent :
    (adj : Edges) (steps : List Step) (x d : String)
    → mem x (ids steps) ≡ false
    → occurrences x (deps_of (fill_dependents adj steps) d) ≡ occurrences x (deps_of adj d)
unfolding fill_dependents
fill_dependents_absent adj [] x d h = refl
fill_dependents_absent adj (s ∷ steps) x d h =
    let next = add_dependents adj s.id s.depends_on in
    let later = fill_dependents_absent next steps x d (ground (arith, h)) in
    ground (arith, later, add_dependents_lem adj s.id s.depends_on x d, h)

-- An id stands among the dependents of `d` as often as `d` among its dependencies.
pub fill_dependents_lem :
    (adj es : Edges) (steps : List Step) (x d : String)
    → Distinct steps
    → mem x (ids steps) ≡ true
    → occurrences x (deps_of (fill_dependents adj steps) d)
      ≡ occurrences x (deps_of adj d) + occurrences d (deps_of (fill_edges es steps) x)
unfolding fill_dependents fill_edges
fill_dependents_lem adj es [] x d distinct h = absurd cc
fill_dependents_lem adj es (s ∷ steps) x d (fresh, distinct) h =
    let next = add_dependents adj s.id s.depends_on in
    let added = add_dependents_lem adj s.id s.depends_on x d in
    elim (Bool-cases (s.id == x)) [
      | inl same ↦
          let e = ==_sound s.id x same in
          let gone : mem x (ids steps) ≡ false = rw⁻¹ e fresh in
          let later = fill_dependents_absent next steps x d gone in
          rw
            (
              get-fill_edges (put es s.id s.depends_on) steps x gone,
              get-put es s.id x s.depends_on,
              same,
            )
            (ground (arith, later, added, same))
      | inr other ↦
          let rest =
            fill_dependents_lem next (put es s.id s.depends_on) steps x d distinct
              (rw other at h) in
          ground (arith, rest, added, other)
    ]
