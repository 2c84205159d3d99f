-- ===== src/Execution/Reopen/Queue.antt =====
-- The queue of ReopenStep in internal/execution/state.go, over any tables of what steps make and
-- require.
use haro.Prelude.{
  ℕ, zero, suc, ◌+◌, ◌≤◌, String, true, false, some, List, [], ◌∷◌, ◌||◌, ◌==◌, ◌≡◌, ◌↔◌, refl,
  string_eq, length, mem, arith, eq_iff, Bool-cases, inl, inr, ==_sound,
}
use haro.Store.Types.{ExecutionStep}
use haro.Workflow.Cycles.{Edges, deps_of}
use haro.Execution.Reopen.{enlist, feed, load}
use haro.Execution.Reopen.Closure.{step_ids}
use haro.Execution.Reopen.Enlist.{Enlisted, enlist-Enlisted}

module _ (reset : List String) (produces requires : Edges) (wanted : List String) where
  -- The artifacts that the reopened step requires, and those that the steps which make needed
  -- artifacts require, as long as these steps are not reset already.
  pub data Queued : String → Type 0 where
    required : {a : String} → mem a wanted ≡ true → Queued a
    further :
        {a b : String} (p : String)
        → Queued a
        → mem p (deps_of produces a) ≡ true
        → mem p reset ≡ false
        → mem b (deps_of requires p) ≡ true
        → Queued b

  -- A step that makes a needed artifact and is not reset already.
  abbrev pub Producer : String → Type 0
  Producer p = (a : String) × Queued a × (mem p (deps_of produces a) ≡ true) × (mem p reset ≡ false)

  pub record Fed (visited queue feeders : List String) : Type 0 where
    pub needed : (a : String) → mem a queue ≡ true → Queued a
    pub feeding : (p : String) → mem p feeders ≡ true → Producer p
    pub starts : (a : String) → mem a wanted ≡ true → (mem a visited || mem a queue) ≡ true
    pub asks :
        (p a : String)
        → mem p feeders ≡ true
        → mem a (deps_of requires p) ≡ true
        → (mem a visited || mem a queue) ≡ true
    pub takes :
        (a p : String)
        → mem a visited ≡ true
        → mem p (deps_of produces a) ≡ true
        → mem p reset ≡ false
        → mem p feeders ≡ true

  Fed-visited :
      (visited queue feeders : List String) (art : String)
      → mem art visited ≡ true
      → Fed visited (art ∷ queue) feeders
      → Fed visited queue feeders
  Fed-visited visited queue feeders art seen f =
      let covered : (a : String)
          → (mem a visited || mem a (art ∷ queue)) ≡ true
          → (mem a visited || mem a queue) ≡ true =
        λ a h. elim (Bool-cases (art == a)) [
          | inl same ↦
              let seen' : mem a visited ≡ true = rw⁻¹ (==_sound art a same) seen in
              ground (arith, seen')
          | inr other ↦ ground (arith, h, other)
        ] in
      record {
        needed = λ a h. f.needed a (ground (arith, h));
        feeding = f.feeding;
        starts = λ a h. covered a (f.starts a h);
        asks = λ p a h edge. covered a (f.asks p a h edge);
        takes = f.takes;
      }

  Fed-enlist :
      (visited queue feeders queue' feeders' : List String) (art : String)
      → Enlisted reset (art ∷ visited) requires (deps_of produces art) queue feeders queue' feeders'
      → Fed visited (art ∷ queue) feeders
      → Fed (art ∷ visited) queue' feeders'
  Fed-enlist visited queue feeders queue' feeders' art r f =
      let wanted_here : Queued art = f.needed art (ground (arith, eq_iff art art)) in
      let covered : (a : String)
          → (mem a visited || mem a (art ∷ queue)) ≡ true
          → (mem a (art ∷ visited) || mem a queue') ≡ true =
        λ a h. elim (Bool-cases (mem a queue)) [
          | inl inside ↦ let k = r.keeps_queue a inside in ground (arith, k)
          | inr outside ↦ ground (arith, h, outside)
        ] in
      record {
        needed = λ a h. elim (r.asked a h) [
          | inl k ↦ f.needed a (ground (arith, k))
          | inr (p, among, free, edge) ↦ further p wanted_here among free edge
        ];
        feeding = λ p h. elim (r.chosen p h) [
          | inl k ↦ f.feeding p k
          | inr (among, free) ↦ (art, wanted_here, among, free)
        ];
        starts = λ a h. covered a (f.starts a h);
        asks = λ p a h edge. elim (Bool-cases (mem p feeders)) [
          | inl old ↦ covered a (f.asks p a old edge)
          | inr new ↦ r.asks_all p a h new edge
        ];
        takes = λ a p h among free. elim (Bool-cases (art == a)) [
          | inl same ↦
              let among' : mem p (deps_of produces art) ≡ true = rw (==_sound art a same) among in
              r.takes_all p among' free
          | inr other ↦ r.keeps_feeders p (f.takes a p (rw other at h) among free)
        ];
      }

  Queued-visited :
      (visited feeders : List String)
      → Fed visited [] feeders
      → (a : String) → Queued a
      → mem a visited ≡ true
  Queued-visited visited feeders f a (required h) = let k = f.starts a h in ground (arith, k)
  Queued-visited visited feeders f b (further {a} p need among free edge) =
      let seen = Queued-visited visited feeders f a need in
      let k = f.asks p b (f.takes a p seen among free) edge in ground (arith, k)

  abbrev pub Producers : List String → Type 0
  Producers out = (p : String) → (mem p out ≡ true) ↔ Producer p

  pub feed_lem :
      (steps : List ExecutionStep) (fuel : ℕ) (visited queue feeders : List String)
      → ((a p : String) → mem p (deps_of produces a) ≡ true → mem p (step_ids steps) ≡ true)
      → Fed visited queue feeders
      → length queue + load requires feeders steps ≤ fuel
      → (out : List String) × (feed fuel reset produces requires visited queue feeders ≡ some out)
        × Producers out
  unfolding feed
  feed_lem steps fuel visited [] feeders known f enough = (
    feeders,
    refl,
    λ p. (
      f.feeding p,
      λ feeder.
          let (a, need, among, free) = feeder in
          f.takes a p (Queued-visited visited feeders f a need) among free,
    ),
  )
  feed_lem steps zero visited (art ∷ queue) feeders known f enough = absurd (omega arith)
  feed_lem steps (suc fuel) visited (art ∷ queue) feeders known f enough =
      elim (Bool-cases (mem art visited)) [
        | inl seen ↦
            let (out, e, exact) =
              feed_lem steps fuel visited queue feeders known
                (Fed-visited visited queue feeders art seen f) (omega (arith, enough)) in
            (out, rw (seen, feed) e, exact)
        | inr new ↦
            let r =
              enlist-Enlisted reset (art ∷ visited) requires (deps_of produces art) queue feeders in
            let next = enlist reset (art ∷ visited) requires queue feeders (deps_of produces art) in
            let less = r.lighter steps (known art) in
            let (out, e, exact) =
              feed_lem steps fuel (art ∷ visited) next.0 next.1 known
                (Fed-enlist visited queue feeders next.0 next.1 art r f)
                (omega (arith, enough, less)) in
            (out, rw (new, feed) e, exact)
      ]
