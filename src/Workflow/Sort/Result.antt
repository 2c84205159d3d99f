-- ===== src/Workflow/Sort/Result.antt =====
-- What topoSort of internal/workflow/compose.go answers.
use haro.Prelude.{
  mem, misses, misses-cons, misses_none, occurrences_present, ℕ, zero, suc, ◌≤◌, String, true,
  false, none, some, List, [], ◌∷◌, ◌==◌, ◌≡◌, ◌≢◌, string_eq, nat_eq, nat_beq_iff, length, All,
  arith, eq_iff, Bool-cases, Option-cases, inl, inr,
}
use haro.Workflow.Types.{Step}
use haro.Workflow.Cycles.{Edges, deps_of}
use haro.Workflow.Cycles.Order.{ids}
use haro.Workflow.Sort.{
  Degrees, fill_degrees, fill_dependents, first_queue, release, sorted, out_of_fuel, judge, drain,
  topo_sort,
}
use haro.Workflow.Sort.Counts.{length-ids, Distinct}
use haro.Workflow.Sort.Index.{In, pick_lem}
use haro.Workflow.Sort.Invariant.{
  IsPermutation, needs, Holds, Holds-fresh, Holds-release, Holds-pop, Holds-sort, Holds-start,
  dependents_known,
}

-- Each step of the list comes after all that it depends on, and not twice; `before` stands in front.
abbrev pub Follows : List String → List Step → Type 0
Follows before [] = Unit
Follows before (s ∷ out) =
    (misses before s.depends_on ≡ 0) × (mem s.id before ≡ false) × Follows (s.id ∷ before) out

pub judge-sorted :
    (steps all out : List Step)
    → judge steps (some all) ≡ sorted out
    → (all ≡ out) × (length out ≡ length steps)
judge-sorted steps all out done = elim (Bool-cases (length all == length steps)) [
  | inl full ↦
      let same : all ≡ out = let k = rw full at done in cc in
      (same, rw⁻¹ same (ground (arith, full, nat_beq_iff (length all) (length steps))))
  | inr short ↦ let k = rw short at done in absurd cc
]

judge-ends : (steps all : List Step) → judge steps (some all) ≢ out_of_fuel
judge-ends steps all done = elim (Bool-cases (length all == length steps)) [
  | inl full ↦ let k = rw full at done in cc
  | inr short ↦ let k = rw short at done in cc
]

module _ (sort_strings : List String → List String) (permutes : IsPermutation sort_strings)
    (steps : List Step) (distinct : Distinct steps) where
  abbrev pub adj : Edges
  adj = fill_dependents [] steps

  -- What holds after one round.
  pub round :
      (seen : List String) (cur : String) (indeg : Degrees) (queue : List String)
      → Holds steps seen [] indeg (cur ∷ queue)
      → Holds steps
          (cur ∷ seen)
          []
          (release indeg queue (deps_of adj cur)).0
          (sort_strings (release indeg queue (deps_of adj cur)).1)
  round seen cur indeg queue h =
      let after =
        Holds-release steps (cur ∷ seen) (deps_of adj cur) indeg queue (dependents_known steps cur)
          (Holds-pop steps distinct seen cur indeg queue h) in
      Holds-sort steps sort_strings permutes (cur ∷ seen) (release indeg queue (deps_of adj cur)).0
        (release indeg queue (deps_of adj cur)).1 after

  -- The id in front has no dependency left, and has not been there before.
  pub front :
      (seen : List String) (cur : String) (indeg : Degrees) (queue : List String)
      → Holds steps seen [] indeg (cur ∷ queue)
      → (mem cur (ids steps) ≡ true) × (misses seen (needs steps cur) ≡ 0) × (mem cur seen ≡ false)
  front seen cur indeg queue h =
      let (inside, zero_) = h.ready cur (ground (arith, eq_iff cur cur)) in
      (inside, omega (arith, zero_), Holds-fresh steps seen cur indeg queue h)

  drain-Follows :
      (fuel : ℕ) (seen : List String) (indeg : Degrees) (queue : List String) (out : List Step)
      → Holds steps seen [] indeg queue
      → drain sort_strings fuel steps adj indeg queue ≡ some out
      → Follows seen out × All (λ s. In s steps) out
  unfolding drain
  drain-Follows fuel seen indeg [] out h done =
      let none_left : [] ≡ out = cc in rw⁻¹ none_left (tt, tt)
  drain-Follows zero seen indeg (cur ∷ queue) out h done = absurd cc
  drain-Follows (suc fuel) seen indeg (cur ∷ queue) out h done =
      let (inside, needs_nothing, fresh) = front seen cur indeg queue h in
      let p = pick_lem steps cur inside in
      let next = release indeg queue (deps_of adj cur) in
      elim (Option-cases (drain sort_strings fuel steps adj next.0 (sort_strings next.1))) [
        | inl stuck ↦ let k = rw (stuck, drain) at done in absurd cc
        | inr (rest, e) ↦
            let same : p.step ∷ rest ≡ out = let k = rw (e, p.alone, drain) at done in cc in
            let (follows, all) =
              drain-Follows fuel (cur ∷ seen) next.0 (sort_strings next.1) rest
                (round seen cur indeg queue h) e in
            rw⁻¹ same
              ((rw p.deps needs_nothing, rw p.named fresh, rw p.named follows), (p.inside, all))
      ]

  drain-ends :
      (fuel : ℕ) (seen : List String) (indeg : Degrees) (queue : List String)
      → Holds steps seen [] indeg queue
      → misses seen (ids steps) ≤ fuel
      → drain sort_strings fuel steps adj indeg queue ≢ none
  unfolding drain
  drain-ends fuel seen indeg [] h enough done = cc
  drain-ends zero seen indeg (cur ∷ queue) h enough done =
      let (inside, needs_nothing, fresh) = front seen cur indeg queue h in
      let here = occurrences_present cur (ids steps) inside in
      omega (arith, misses-cons cur seen (ids steps) fresh)
  drain-ends (suc fuel) seen indeg (cur ∷ queue) h enough done =
      let (inside, needs_nothing, fresh) = front seen cur indeg queue h in
      let here = occurrences_present cur (ids steps) inside in
      let next = release indeg queue (deps_of adj cur) in
      elim (Option-cases (drain sort_strings fuel steps adj next.0 (sort_strings next.1))) [
        | inl stuck ↦
            drain-ends fuel (cur ∷ seen) next.0 (sort_strings next.1) (round seen cur indeg queue h)
              (omega (arith, misses-cons cur seen (ids steps) fresh)) stuck
        | inr (rest, e) ↦ let k = rw (e, drain) at done in cc
      ]

  pub start :
      Holds steps [] []
        (fill_degrees [] steps)
        (sort_strings (first_queue (fill_degrees [] steps) steps))
  start =
      Holds-sort steps sort_strings permutes [] (fill_degrees [] steps)
        (first_queue (fill_degrees [] steps) steps) (Holds-start steps distinct)

  -- With ids that are distinct, and a sort.Strings that permutes, the loop of topoSort ends within
  -- as many rounds as there are steps.
  pub topo_sort_ends : topo_sort sort_strings steps ≢ out_of_fuel
  unfolding topo_sort
  topo_sort_ends done =
      let first = sort_strings (first_queue (fill_degrees [] steps) steps) in
      elim (Option-cases
        (drain sort_strings (length steps) steps adj (fill_degrees [] steps) first)) [
          | inl stuck ↦
              drain-ends (length steps) [] (fill_degrees [] steps) first start
                (omega (arith, misses_none (ids steps), length-ids steps)) stuck
          | inr (out, e) ↦ judge-ends steps out (rw (e, topo_sort) at done)
        ]

  -- With ids that are distinct, and a sort.Strings that permutes, the sorted list has as many steps
  -- as the input, all of them from it, none twice, and each after all that it depends on.
  pub topo_sort-Follows :
      (out : List Step)
      → topo_sort sort_strings steps ≡ sorted out
      → Follows [] out × All (λ s. In s steps) out × (length out ≡ length steps)
  unfolding topo_sort
  topo_sort-Follows out done =
      let first = sort_strings (first_queue (fill_degrees [] steps) steps) in
      elim (Option-cases
        (drain sort_strings (length steps) steps adj (fill_degrees [] steps) first)) [
          | inl stuck ↦ let k = rw (stuck, topo_sort) at done in absurd cc
          | inr (all, e) ↦
              let (same, full) = judge-sorted steps all out (rw (e, topo_sort) at done) in
              let (follows, inside) =
                drain-Follows (length steps) [] (fill_degrees [] steps) first all start e in
              (rw⁻¹ same follows, rw⁻¹ same inside, full)
        ]
