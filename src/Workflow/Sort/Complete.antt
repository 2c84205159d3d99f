-- ===== src/Workflow/Sort/Complete.antt =====
-- topoSort of internal/workflow/compose.go on the graphs that detectCycle accepts.
use haro.Prelude.{
  All-mem, mem, misses, misses-cons, misses_none, occurrences_absent, occurrences_present, ℕ, zero,
  suc, String, true, some, List, [], ◌∷◌, ◌==◌, ◌≡◌, refl, sym, string_eq, nat_eq, length, arith,
  eq_iff, Bool-cases, Option-cases, inl, inr, ==_sound,
}
use haro.Prelude.Table
use haro.Workflow.Types.{Step}
use haro.Workflow.Cycles.{deps_of, edges}
use haro.Workflow.Cycles.Order.{ids}
use haro.Workflow.Sort.{
  Degrees, fill_degrees, fill_dependents, first_queue, release, sorted, drain, topo_sort,
}
use haro.Workflow.Sort.Counts.{length-ids, Distinct}
use haro.Workflow.Sort.Index.{pick_lem}
use haro.Workflow.Sort.Invariant.{IsPermutation, needs, Holds}
use haro.Workflow.Cycles.{Colors, finished, detect_cycle}
use haro.Workflow.Cycles.Marks.{Ordered}
use haro.Workflow.Cycles.Order.{search_from-After}
use haro.Workflow.Sort.Invariant.{ids_once}
use haro.Workflow.Sort.Result.{topo_sort_ends, round, front, start}

-- Every dependency of a step is the id of a step.
abbrev pub Closed : List Step → Type 0
Closed steps = (x d : String) → mem d (needs steps x) ≡ true → mem d (ids steps) ≡ true

misses_zero :
    (seen ds : List String)
    → ((d : String) → mem d ds ≡ true → mem d seen ≡ true)
    → misses seen ds ≡ 0
misses_zero seen [] h = refl
misses_zero seen (d ∷ ds) h =
    let first = h d (ground (arith, eq_iff d d)) in
    let rest = misses_zero seen ds (λ e k. h e (ground (arith, k))) in ground (arith, first, rest)

module _ (steps : List Step) (closed : Closed steps) where
  -- When the queue is empty, the ids of the list have all left it.
  all_seen :
      (seen : List String) (indeg : Degrees) (order : List String) (x : String)
      → Holds steps seen [] indeg []
      → Ordered (edges steps) order
      → mem x order ≡ true
      → mem x (ids steps) ≡ true
      → mem x seen ≡ true
  all_seen seen indeg [] x h ordered placed inside = absurd cc
  all_seen seen indeg (y ∷ order) x h (fresh, deps, rest) placed inside =
      elim (Bool-cases (y == x)) [
        | inl same ↦
            let e = ==_sound y x same in
            let nothing : misses seen (needs steps x) ≡ 0 = misses_zero seen (needs steps x) (λ d k.
              all_seen seen indeg order d h rest
                (All-mem (λ z. mem z order ≡ true) (deps_of (edges steps) x) d (rw⁻¹ e deps) k)
                (closed x d k)) in
            let present = h.caught x inside (omega (arith, nothing)) in
            elim (Bool-cases (mem x seen)) [
              | inl yes_ ↦ yes_
              | inr gone ↦ absurd (omega (arith, present, occurrences_absent x seen gone))
            ]
        | inr other ↦ all_seen seen indeg order x h rest (rw other at placed) inside
      ]

  module _ (sort_strings : List String → List String) (permutes : IsPermutation sort_strings)
      (distinct : Distinct steps) (order : List String) (ordered : Ordered (edges steps) order)
      (full : (x : String) → mem x (ids steps) ≡ true → mem x order ≡ true) where
    length-drain :
        (fuel : ℕ) (seen : List String) (indeg : Degrees) (queue : List String) (out : List Step)
        → Holds steps seen [] indeg queue
        → drain sort_strings fuel steps (fill_dependents [] steps) indeg queue ≡ some out
        → length out ≡ misses seen (ids steps)
    unfolding drain
    length-drain fuel seen indeg [] out h done =
        let none_left : [] ≡ out = cc in
        let nothing =
          misses_zero seen (ids steps)
            (λ d k. all_seen seen indeg order d h ordered (full d k) k) in
        rw⁻¹ none_left (sym nothing)
    length-drain zero seen indeg (cur ∷ queue) out h done = absurd cc
    length-drain (suc fuel) seen indeg (cur ∷ queue) out h done =
        let (inside, needs_nothing, fresh) =
          front sort_strings permutes steps distinct seen cur indeg queue h in
        let p = pick_lem steps cur inside in
        let next = release indeg queue (deps_of (fill_dependents [] steps) cur) in
        elim (Option-cases
          (drain sort_strings fuel steps (fill_dependents [] steps) next.0 (sort_strings next.1))) [
            | inl stuck ↦ let k = rw (stuck, drain) at done in absurd cc
            | inr (rest, e) ↦
                let same : p.step ∷ rest ≡ out = let k = rw (e, p.alone, drain) at done in cc in
                let later =
                  length-drain fuel (cur ∷ seen) next.0 (sort_strings next.1) rest
                    (round sort_strings permutes steps distinct seen cur indeg queue h) e in
                let here = occurrences_present cur (ids steps) inside in
                let single = ids_once steps cur distinct in
                rw⁻¹ same
                  (omega (arith, later, misses-cons cur seen (ids steps) fresh, here, single))
          ]

    topo_sort-Ordered : (out : List Step) × (topo_sort sort_strings steps ≡ sorted out)
    unfolding topo_sort
    topo_sort-Ordered =
        let first = sort_strings (first_queue (fill_degrees [] steps) steps) in
        let h = start sort_strings permutes steps distinct in
        elim (Option-cases (
          drain sort_strings (length steps) steps (fill_dependents [] steps) (fill_degrees [] steps)
            first)) [
              | inl stuck ↦
                  absurd (
                    topo_sort_ends sort_strings permutes steps distinct
                      (rw (stuck, topo_sort) refl))
              | inr (out, e) ↦
                  let counted =
                    length-drain (length steps) [] (fill_degrees [] steps) first out h e in
                  let full_ : (length out == length steps) ≡ true =
                    ground (arith, counted, misses_none (ids steps), length-ids steps) in
                  (out, rw (e, full_, topo_sort) refl)
            ]

-- Steps with distinct ids that depend on steps only, and that detectCycle accepts, are sorted by
-- topoSort with a sort.Strings that permutes: it never reports a cycle that detectCycle missed.
pub topo_sort_accepts :
    (sort_strings : List String → List String) (steps : List Step) (c : Colors)
    → IsPermutation sort_strings
    → Distinct steps
    → Closed steps
    → detect_cycle steps ≡ finished c
    → (out : List Step) × (topo_sort sort_strings steps ≡ sorted out)
unfolding detect_cycle Table.get
topo_sort_accepts sort_strings steps c permutes distinct closed done =
    let after =
      search_from-After (edges steps) (suc (length steps)) steps [] [] c (λ z. refl) tt (λ z. refl)
        done in
    topo_sort-Ordered steps closed sort_strings permutes distinct after.order after.ordered
      (λ x inside. All-mem (λ d. mem d after.order ≡ true) (ids steps) x after.reached inside)
