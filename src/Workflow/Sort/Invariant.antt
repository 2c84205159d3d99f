-- ===== src/Workflow/Sort/Invariant.antt =====
-- The invariant of the loops of topoSort in internal/workflow/compose.go: the degree of an id is the
-- number of its dependencies that have not left the queue, and no id enters the queue twice.
use haro.Prelude.{
  mem, misses, misses-cons, misses_none, occurrences, occurrences-append, occurrences_absent,
  occurrences_present, ℕ, suc, ◌+◌, ◌≤◌, String, true, false, Option, some, List, [], ◌∷◌, ◌++◌,
  ◌==◌, ◌≡◌, refl, ap, ◌∙◌, string_eq, nat_eq, if◌then◌else◌, arith, eq_iff, Bool-cases, inl, inr,
  ==_sound,
}
use haro.Prelude.Table
use haro.Prelude.Table.{Table, put, get-put}
use haro.Workflow.Types.{Step, ℤ, pos}
use haro.Workflow.Cycles.{deps_of, edges}
use haro.Workflow.Cycles.Order.{ids}
use haro.Workflow.Sort.{
  Degrees, fill_degrees, fill_dependents, or_nothing, degree_of, decrement, is_zero, first_queue,
  release,
}
use haro.Workflow.Sort.Counts.{
  Distinct, fill_degrees_lem, fill_dependents_lem, fill_dependents_absent,
}

-- What sort.Strings promises of its result, but for the order: it is a permutation.
abbrev pub IsPermutation : (List String → List String) → Type 0
IsPermutation sort_strings =
    (l : List String) (z : String) → occurrences z (sort_strings l) ≡ occurrences z l

module _ (steps : List Step) where
  abbrev pub needs : String → List String
  needs x = deps_of (edges steps) x

  -- `seen` has left the queue, and `pending` is what the inner loop still goes over.
  pub record Holds (seen pending : List String) (indeg : Degrees) (queue : List String)
      : Type 0 where
    pub degrees :
        (x : String)
        → mem x (ids steps) ≡ true
        → Table.get indeg x ≡ some (pos (misses seen (needs x) + occurrences x pending))
    pub ready :
        (z : String)
        → 1 ≤ occurrences z queue + occurrences z seen
        → (mem z (ids steps) ≡ true) × (misses seen (needs z) + occurrences z pending ≡ 0)
    pub caught :
        (x : String)
        → mem x (ids steps) ≡ true
        → misses seen (needs x) + occurrences x pending ≡ 0
        → 1 ≤ occurrences x queue + occurrences x seen
    pub once : (z : String) → occurrences z queue + occurrences z seen ≤ 1

  Holds-release_one :
      (seen nxts : List String) (nxt : String) (indeg : Degrees) (queue : List String) (n : ℕ)
      → mem nxt (ids steps) ≡ true
      → misses seen (needs nxt) + occurrences nxt nxts ≡ n
      → Holds seen (nxt ∷ nxts) indeg queue
      → Holds seen nxts (put indeg nxt (pos n)) (if n == 0 then queue ++ nxt ∷ [] else queue)
  Holds-release_one seen nxts nxt indeg queue n known count h = record {
    degrees = λ x inside.
        let before = h.degrees x inside in
        ground (arith, before, get-put indeg nxt x (pos n), eq_iff nxt x, count);
    ready = λ z present.
        let before = h.ready z in
        ground (
          arith,
          before,
          present,
          occurrences-append z queue (nxt ∷ []),
          eq_iff nxt z,
          count,
          known,
        );
    caught = λ x inside free.
        let before = h.caught x inside in
        ground (arith, before, free, occurrences-append x queue (nxt ∷ []), eq_iff nxt x, count);
    once = λ z.
        let before = h.ready z in
        let single = h.once z in
        ground (arith, before, single, occurrences-append z queue (nxt ∷ []), eq_iff nxt z, count);
  }

  degree_of_known :
      (seen nxts : List String) (nxt : String) (indeg : Degrees) (queue : List String)
      → mem nxt (ids steps) ≡ true
      → Holds seen (nxt ∷ nxts) indeg queue
      → decrement (degree_of indeg nxt) ≡ pos (misses seen (needs nxt) + occurrences nxt nxts)
  degree_of_known seen nxts nxt indeg queue known h =
      let n = misses seen (needs nxt) + occurrences nxt nxts in
      let more : misses seen (needs nxt) + occurrences nxt (nxt ∷ nxts) ≡ suc n =
        ground (arith, eq_iff nxt nxt) in
      ap (λ (o : Option ℤ). decrement (or_nothing o)) (h.degrees nxt known)
      ∙ ap (λ (k : ℕ). decrement (pos k)) more

  pub Holds-release :
      (seen pending : List String) (indeg : Degrees) (queue : List String)
      → ((z : String) → mem z (ids steps) ≡ false → occurrences z pending ≡ 0)
      → Holds seen pending indeg queue
      → Holds seen [] (release indeg queue pending).0 (release indeg queue pending).1
  unfolding release
  Holds-release seen [] indeg queue targets h = h
  Holds-release seen (nxt ∷ nxts) indeg queue targets h =
      let n = misses seen (needs nxt) + occurrences nxt nxts in
      let known : mem nxt (ids steps) ≡ true = elim (Bool-cases (mem nxt (ids steps))) [
        | inl inside ↦ inside
        | inr outside ↦
            let never = targets nxt outside in absurd (ground (arith, never, eq_iff nxt nxt))
      ] in
      rw (degree_of_known seen nxts nxt indeg queue known h, release)
        (Holds-release seen nxts (put indeg nxt (pos n))
          (if n == 0 then queue ++ nxt ∷ [] else queue)
          (λ z outside. let none_there = targets z outside in ground (arith, none_there))
          (Holds-release_one seen nxts nxt indeg queue n known refl h))

  -- The id in front has not been there before.
  pub Holds-fresh :
      (seen : List String) (cur : String) (indeg : Degrees) (queue : List String)
      → Holds seen [] indeg (cur ∷ queue)
      → mem cur seen ≡ false
  Holds-fresh seen cur indeg queue h = elim (Bool-cases (mem cur seen)) [
    | inl inside ↦
        let twice = h.once cur in
        let here = occurrences_present cur seen inside in
        absurd (ground (arith, twice, here, eq_iff cur cur))
    | inr outside ↦ outside
  ]

  -- The next id leaves the queue.
  pub Holds-pop :
      Distinct steps
      → (seen : List String) (cur : String) (indeg : Degrees) (queue : List String)
      → Holds seen [] indeg (cur ∷ queue)
      → Holds (cur ∷ seen) (deps_of (fill_dependents [] steps) cur) indeg queue
  unfolding Table.get
  Holds-pop distinct seen cur indeg queue h =
      let fresh = Holds-fresh seen cur indeg queue h in
      let moved = λ (x : String). misses-cons cur seen (needs x) fresh in
      record {
        degrees = λ x inside.
            let before = h.degrees x inside in
            let dependents = fill_dependents_lem [] [] steps x cur distinct inside in
            before ∙ ap (λ (k : ℕ). some (pos k)) (omega (arith, moved x, dependents));
        ready = λ z present.
            let (inside, zero_) = h.ready z (omega (arith, present)) in
            let dependents = fill_dependents_lem [] [] steps z cur distinct inside in
            (inside, omega (arith, zero_, moved z, dependents));
        caught = λ x inside free.
            let dependents = fill_dependents_lem [] [] steps x cur distinct inside in
            let before = h.caught x inside (omega (arith, free, moved x, dependents)) in
            omega (arith, before);
        once = λ z. let single = h.once z in omega (arith, single);
      }

  pub Holds-sort :
      (sort_strings : List String → List String)
      → IsPermutation sort_strings
      → (seen : List String) (indeg : Degrees) (queue : List String) → Holds seen [] indeg queue
      → Holds seen [] indeg (sort_strings queue)
  Holds-sort sort_strings permutes seen indeg queue h = record {
    degrees = h.degrees;
    ready = λ z present. h.ready z (omega (arith, present, permutes queue z));
    caught = λ x inside free. omega (arith, h.caught x inside free, permutes queue x);
    once = λ z. let single = h.once z in omega (arith, single, permutes queue z);
  }

  pub dependents_known :
      (cur z : String)
      → mem z (ids steps) ≡ false
      → occurrences z (deps_of (fill_dependents [] steps) cur) ≡ 0
  unfolding Table.get
  dependents_known cur z outside = fill_dependents_absent [] steps z cur outside

pub ids_once : (steps : List Step) (z : String) → Distinct steps → occurrences z (ids steps) ≤ 1
ids_once [] z distinct = omega arith
ids_once (s ∷ steps) z (fresh, distinct) = elim (Bool-cases (s.id == z)) [
  | inl same ↦
      let e = ==_sound s.id z same in
      let gone = occurrences_absent s.id (ids steps) fresh in
      let gone' : occurrences z (ids steps) ≡ 0 = rw⁻¹ e gone in ground (arith, gone', same)
  | inr other ↦ let rest = ids_once steps z distinct in ground (arith, rest, other)
]

-- The first queue has the ids of degree zero.
first_queue_lem :
    (indeg : Degrees) (steps : List Step) (z : String)
    → (occurrences z (first_queue indeg steps) ≤ occurrences z (ids steps))
      × (1 ≤ occurrences z (first_queue indeg steps) → is_zero (degree_of indeg z) ≡ true)
unfolding first_queue
first_queue_lem indeg [] z = (omega arith, λ h. absurd (omega arith))
first_queue_lem indeg (s ∷ steps) z =
    let (fewer, zeros) = first_queue_lem indeg steps z in
    elim (Bool-cases (is_zero (degree_of indeg s.id))) [
      | inl free ↦ rw free (
        omega (arith, fewer),
        λ h. elim (Bool-cases (s.id == z)) [
          | inl same ↦ rw⁻¹ (==_sound s.id z same) free
          | inr other ↦ zeros (omega (arith, rw other at h))
        ],
      )
      | inr waits ↦ rw waits (omega (arith, fewer), zeros)
    ]

first_queue_all :
    (indeg : Degrees) (steps : List Step) (x : String)
    → mem x (ids steps) ≡ true
    → is_zero (degree_of indeg x) ≡ true
    → 1 ≤ occurrences x (first_queue indeg steps) + 0
unfolding first_queue
first_queue_all indeg [] x inside free = absurd cc
first_queue_all indeg (s ∷ steps) x inside free = elim (Bool-cases (s.id == x)) [
  | inl same ↦
      let here : is_zero (degree_of indeg s.id) ≡ true = rw (==_sound s.id x same) free in
      rw (here, same) (omega arith)
  | inr other ↦
      let rest = first_queue_all indeg steps x (rw other at inside) free in
      ground (arith, rest, other)
]

pub Holds-start :
    (steps : List Step)
    → Distinct steps
    → Holds steps [] [] (fill_degrees [] steps) (first_queue (fill_degrees [] steps) steps)
Holds-start steps distinct =
    let indeg = fill_degrees [] steps in
    let degrees' : (x : String)
        → mem x (ids steps) ≡ true
        → Table.get indeg x ≡ some (pos (misses [] (deps_of (edges steps) x) + 0)) =
      λ x inside.
        fill_degrees_lem [] [] steps x inside
        ∙ ap (λ (k : ℕ). some (pos k)) (omega (arith, misses_none (deps_of (edges steps) x))) in
    record {
      degrees = degrees';
      ready = λ z present.
          let (fewer, zeros) = first_queue_lem indeg steps z in
          elim (Bool-cases (mem z (ids steps))) [
            | inl inside ↦
                let is = zeros (omega (arith, present)) in
                (inside, ground (arith, is, degrees' z inside))
            | inr outside ↦
                absurd (omega (arith, fewer, present, occurrences_absent z (ids steps) outside))
          ];
      caught = λ x inside free.
          first_queue_all indeg steps x inside (ground (arith, degrees' x inside, free));
      once = λ z.
          let (fewer, zeros) = first_queue_lem indeg steps z in
          omega (arith, fewer, ids_once steps z distinct);
    }
