-- ===== src/Execution/Reopen/Feeders.antt =====
-- The second part of the cascade of ReopenStep in internal/execution/state.go: the steps that make
-- what is required.
use haro.Prelude.{
  ◌+◌, String, true, false, some, List, [], ◌∷◌, ◌||◌, ◌==◌, ◌≡◌, ◌↔◌, refl, string_eq, length, mem,
  arith, Bool-cases, inl, inr, ◌⊎◌, ==_sound,
}
use haro.Prelude.Table
use haro.Store.Types.{ExecutionStep}
use haro.Workflow.Cycles.{Edges, deps_of}
use haro.Execution.Reopen.{
  load, fill_produces, fill_requires, reopened_requires, mark_all, feed_reset, cascade_set,
}
use haro.Execution.Reopen.Closure.{In, In-mem, step_ids, Cascades, spread_downstream}
use haro.Execution.Reopen.Links.{
  Distinct, fill_produces-Makes, fill_requires-In, reopened_requires_sound, reopened_requires-In,
}
use haro.Execution.Reopen.Queue.{Queued, required, further, Producer, feed_lem}

mem-mark_all :
    (z : String) (reset feeders : List String)
    → mem z (mark_all reset feeders) ≡ (mem z reset || mem z feeders)
mem-mark_all z reset [] = ground arith
mem-mark_all z reset (p ∷ feeders) = elim (Bool-cases (mem p reset)) [
  | inl old ↦
      let rest = mem-mark_all z reset feeders in
      elim (Bool-cases (p == z)) [
        | inl same ↦
            let seen : mem z reset ≡ true = rw⁻¹ (==_sound p z same) old in
            rw (old, mark_all) (ground (arith, rest, seen))
        | inr other ↦ rw (old, mark_all) (ground (arith, rest, other))
      ]
  | inr new ↦
      let rest = mem-mark_all z (p ∷ reset) feeders in rw (new, mark_all) (ground (arith, rest))
]

module _ (decode : String → List String) (steps : List ExecutionStep) (root : String)
    (reset : List String) where
  -- The artifacts that the reopened step requires, and those that the steps which make needed
  -- artifacts require, as long as these steps are not reset already.
  pub data Needed : String → Type 0 where
    by_root :
        {a : String} (s : ExecutionStep)
        → In s steps
        → s.step_id ≡ root
        → mem a (decode s.requires) ≡ true
        → Needed a
    by_maker :
        {a b : String} (s : ExecutionStep)
        → Needed a
        → In s steps
        → mem a (decode s.produces) ≡ true
        → mem s.step_id reset ≡ false
        → mem b (decode s.requires) ≡ true
        → Needed b

  -- A step that makes a needed artifact and is not reset already.
  abbrev pub Feeds : String → Type 0
  Feeds p =
      (s : ExecutionStep) × In s steps
      × (s.step_id ≡ p)
      × (mem p reset ≡ false)
      × ((a : String) × Needed a × (mem a (decode s.produces) ≡ true))

  abbrev produces : Edges
  produces = fill_produces decode [] steps

  abbrev requires : Edges
  requires = fill_requires decode [] steps

  abbrev wanted : List String
  wanted = reopened_requires decode root steps

  Queued-Needed : Distinct steps → (a : String) → Queued reset produces requires wanted a → Needed a
  Queued-Needed distinct a (required h) =
      let (s, here, e, among) = reopened_requires_sound decode root steps a h in
      by_root s here e among
  Queued-Needed distinct b (further {a} p queued among free edge) =
      let (s, here, e, made) = (fill_produces-Makes decode steps a p).0 among in
      let free' : mem s.step_id reset ≡ false = rw e free in
      let edge' : mem b (deps_of requires s.step_id) ≡ true = rw e edge in
      by_maker s (Queued-Needed distinct a queued) here made free'
        (rw (fill_requires-In decode [] steps s distinct here) at edge')

  Needed-Queued : Distinct steps → (a : String) → Needed a → Queued reset produces requires wanted a
  Needed-Queued distinct a (by_root s here e among) =
      let same = reopened_requires-In decode steps s distinct here in
      let same' : wanted ≡ decode s.requires = rw⁻¹ e same in required (rw same' among)
  Needed-Queued distinct b (by_maker {a} s need here made free among) =
      further s.step_id (Needed-Queued distinct a need)
        ((fill_produces-Makes decode steps a s.step_id).1 (s, here, refl, made)) free
        (rw (fill_requires-In decode [] steps s distinct here) among)

  Producer-Feeds :
      Distinct steps → (p : String) → Producer reset produces requires wanted p ↔ Feeds p
  Producer-Feeds distinct p = (
    λ producer.
        let (a, queued, among, free) = producer in
        let (s, here, e, made) = (fill_produces-Makes decode steps a p).0 among in
        (s, here, e, free, (a, Queued-Needed distinct a queued, made)),
    λ feeds.
        let (s, here, e, free, (a, need, made)) = feeds in
        (
          a,
          Needed-Queued distinct a need,
          (fill_produces-Makes decode steps a p).1 (s, here, e, made),
          free,
        ),
  )

module _ (decode : String → List String) where
  producers_known :
      (steps : List ExecutionStep) (a p : String)
      → mem p (deps_of (fill_produces decode [] steps) a) ≡ true
      → mem p (step_ids steps) ≡ true
  producers_known steps a p h =
      let (s, here, e, made) = (fill_produces-Makes decode steps a p).0 h in
      rw⁻¹ e (In-mem steps s here)

  -- Where no two steps have the same id, the cascade of ReopenStep always ends, and it resets the
  -- steps of a list `reset`, which are exactly the reopened step and those that depend on it,
  -- directly or through other steps; and, of the steps that are not in this list, exactly those that
  -- make an artifact that the reopened step requires, or that such a step requires in turn.
  pub cascade_set_lem :
      (steps : List ExecutionStep) (root : String)
      → Distinct steps
      → (reset out : List String) × Cascades decode steps root reset
        × (cascade_set decode root steps ≡ some out)
        × ((p : String)
            → (mem p out ≡ true) ↔ ((mem p reset ≡ true) ⊎ Feeds decode steps root reset p))
  unfolding cascade_set feed_reset Table.get
  cascade_set_lem steps root distinct =
      let (reset, e, exact) = spread_downstream decode steps root in
      let produces = fill_produces decode [] steps in
      let requires = fill_requires decode [] steps in
      let wanted = reopened_requires decode root steps in
      let (feeders, e', feeds) =
        feed_lem reset produces requires wanted steps (length wanted + load requires [] steps) []
          wanted [] (producers_known steps)
          (record {
            needed = λ a h. required h;
            feeding = λ p h. absurd cc;
            starts = λ a h. ground (arith, h);
            asks = λ p a h edge. absurd cc;
            takes = λ a p h among free. absurd cc;
          })
          (omega arith) in
      (
        reset,
        mark_all reset feeders,
        exact,
        rw (e, cascade_set) (rw (e', feed_reset) refl),
        λ p. (
          λ h. elim (Bool-cases (mem p reset)) [
            | inl inside ↦ inl inside
            | inr outside ↦ inr (
                (Producer-Feeds decode steps root reset distinct p).0
                  ((feeds p).0 (ground (arith, h, mem-mark_all p reset feeders, outside))))
          ],
          λ h. elim h [
            | inl inside ↦ ground (arith, inside, mem-mark_all p reset feeders)
            | inr feeder ↦
                let k =
                  (feeds p).1 ((Producer-Feeds decode steps root reset distinct p).1 feeder) in
                ground (arith, k, mem-mark_all p reset feeders)
          ],
        ),
      )
