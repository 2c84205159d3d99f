-- ===== src/Execution/Reopen/Enlist.antt =====
-- The inner loop of the second part of the cascade of ReopenStep.
use haro.Prelude.{
  ◌+◌, ◌≤◌, String, true, false, List, [], ◌∷◌, ◌++◌, not, ◌&&◌, ◌||◌, ◌==◌, ◌≡◌, refl, ap,
  string_eq, length, select, length-append, mem, arith, eq_iff, Bool-cases, inl, inr, ◌⊎◌, ==_sound,
}
use haro.Store.Types.{ExecutionStep}
use haro.Workflow.Cycles.{Edges, deps_of}
use haro.Execution.Reopen.{enlist, load}
use haro.Execution.Reopen.Closure.{step_ids}

pub mem-append : (z : String) (xs ys : List String) → mem z (xs ++ ys) ≡ (mem z xs || mem z ys)
mem-append z [] ys = refl
mem-append z (x ∷ xs) ys = ground (arith, mem-append z xs ys)

-- The artifacts that were not visited.
abbrev pub unvisited : List String → List String → List String
unvisited visited arts = select (λ art. not (mem art visited)) arts

mem-unvisited :
    (z : String) (visited arts : List String)
    → mem z (unvisited visited arts) ≡ (mem z arts && not (mem z visited))
mem-unvisited z visited [] = refl
mem-unvisited z visited (x ∷ arts) =
    let rest = mem-unvisited z visited arts in
    elim (Bool-cases (mem x visited)) [
      | inl old ↦
          rw (old, select)
            (elim (Bool-cases (x == z)) [
              | inl same ↦
                  let seen : mem z visited ≡ true = rw⁻¹ (==_sound x z same) old in
                  ground (arith, rest, seen)
              | inr other ↦ ground (arith, rest, other)
            ])
      | inr new ↦
          rw (new, select)
            (elim (Bool-cases (x == z)) [
              | inl same ↦
                  let seen : mem z visited ≡ false = rw⁻¹ (==_sound x z same) new in
                  ground (arith, rest, seen, same)
              | inr other ↦ ground (arith, rest, other)
            ])
    ]

length-unvisited : (visited arts : List String) → length (unvisited visited arts) ≤ length arts
length-unvisited visited [] = omega arith
length-unvisited visited (x ∷ arts) =
    let rest = length-unvisited visited arts in
    elim (Bool-cases (mem x visited)) [
      | inl old ↦ rw (old, select) (omega (arith, rest))
      | inr new ↦ rw (new, select) (omega (arith, rest))
    ]

load_grow :
    (requires : Edges) (p : String) (feeders : List String) (steps : List ExecutionStep)
    → load requires (p ∷ feeders) steps ≤ load requires feeders steps
unfolding load
load_grow requires p feeders [] = omega arith
load_grow requires p feeders (s ∷ steps) =
    let rest = load_grow requires p feeders steps in ground (arith, rest)

load-cons :
    (requires : Edges) (p : String) (feeders : List String) (steps : List ExecutionStep)
    → mem p (step_ids steps) ≡ true
    → mem p feeders ≡ false
    → load requires (p ∷ feeders) steps + length (deps_of requires p) ≤ load requires feeders steps
unfolding load
load-cons requires p feeders [] here fresh = absurd cc
load-cons requires p feeders (s ∷ steps) here fresh = elim (Bool-cases (s.step_id == p)) [
  | inl same ↦
      let e = ==_sound s.step_id p same in
      let gone : mem s.step_id feeders ≡ false = rw e fresh in
      let weight : length (deps_of requires s.step_id) ≡ length (deps_of requires p) =
        ap (λ z. length (deps_of requires z)) e in
      let rest = load_grow requires p feeders steps in
      ground (arith, rest, gone, weight, eq_iff p s.step_id, e)
  | inr other ↦
      let rest = load-cons requires p feeders steps (rw other at here) fresh in
      ground (arith, rest, other, eq_iff p s.step_id, eq_iff s.step_id p)
]

module _ (reset visited : List String) (requires : Edges) where
  -- What the loop has done to the queue and to the feeders.
  pub record Enlisted (producers queue feeders queue' feeders' : List String) : Type 0 where
    pub asked :
        (a : String)
        → mem a queue' ≡ true
        → (mem a queue ≡ true)
          ⊎ ((p : String) × (mem p producers ≡ true)
              × (mem p reset ≡ false)
              × (mem a (deps_of requires p) ≡ true))
    pub chosen :
        (p : String)
        → mem p feeders' ≡ true
        → (mem p feeders ≡ true) ⊎ ((mem p producers ≡ true) × (mem p reset ≡ false))
    pub keeps_queue : (a : String) → mem a queue ≡ true → mem a queue' ≡ true
    pub keeps_feeders : (p : String) → mem p feeders ≡ true → mem p feeders' ≡ true
    pub takes_all :
        (p : String) → mem p producers ≡ true → mem p reset ≡ false → mem p feeders' ≡ true
    pub asks_all :
        (p a : String)
        → mem p feeders' ≡ true
        → mem p feeders ≡ false
        → mem a (deps_of requires p) ≡ true
        → (mem a visited || mem a queue') ≡ true
    pub lighter :
        (steps : List ExecutionStep)
        → ((p : String) → mem p producers ≡ true → mem p (step_ids steps) ≡ true)
        → length queue' + load requires feeders' steps ≤ length queue + load requires feeders steps

  pub enlist-Enlisted :
      (producers queue feeders : List String)
      → Enlisted producers queue feeders
          (enlist reset visited requires queue feeders producers).0
          (enlist reset visited requires queue feeders producers).1
  unfolding enlist
  enlist-Enlisted [] queue feeders = record {
    asked = λ a h. inl h;
    chosen = λ p h. inl h;
    keeps_queue = λ a h. h;
    keeps_feeders = λ p h. h;
    takes_all = λ p h k. absurd cc;
    asks_all = λ p a h k edge. absurd cc;
    lighter = λ steps known. omega arith;
  }
  enlist-Enlisted (p ∷ producers) queue feeders = elim (Bool-cases (mem p reset || mem p feeders)) [
    | inl skip ↦
        let r = enlist-Enlisted producers queue feeders in
        rw (skip, enlist)
          (record {
            asked = λ a h. elim (r.asked a h) [
              | inl k ↦ inl k
              | inr (q, among, free, edge) ↦ inr (q, ground (arith, among), free, edge)
            ];
            chosen = λ z h. elim (r.chosen z h) [
              | inl k ↦ inl k
              | inr (among, free) ↦ inr (ground (arith, among), free)
            ];
            keeps_queue = r.keeps_queue;
            keeps_feeders = r.keeps_feeders;
            takes_all = λ z h free. elim (Bool-cases (p == z)) [
              | inl same ↦
                  let skip' : (mem z reset || mem z feeders) ≡ true =
                    rw⁻¹ (==_sound p z same) skip in
                  r.keeps_feeders z (ground (arith, skip', free))
              | inr other ↦ r.takes_all z (rw other at h) free
            ];
            asks_all = r.asks_all;
            lighter = λ steps known. r.lighter steps (λ z h. known z (ground (arith, h)));
          })
    | inr take ↦
        let new = unvisited visited (deps_of requires p) in
        let r = enlist-Enlisted producers (queue ++ new) (p ∷ feeders) in
        let both = λ (a : String). mem-append a queue new in
        let news = λ (a : String). mem-unvisited a visited (deps_of requires p) in
        rw (take, enlist)
          (record {
            asked = λ a h. elim (r.asked a h) [
              | inl k ↦ elim (Bool-cases (mem a queue)) [
                | inl old ↦ inl old
                | inr fresh ↦ inr (
                  p,
                  ground (arith, eq_iff p p),
                  ground (arith, take),
                  ground (arith, k, both a, news a, fresh),
                )
              ]
              | inr (q, among, free, edge) ↦ inr (q, ground (arith, among), free, edge)
            ];
            chosen = λ z h. elim (r.chosen z h) [
              | inl k ↦ elim (Bool-cases (p == z)) [
                | inl same ↦
                    let free : mem p reset ≡ false = ground (arith, take) in
                    inr (ground (arith, same), rw⁻¹ (==_sound p z same) free)
                | inr other ↦ inl (rw other at k)
              ]
              | inr (among, free) ↦ inr (ground (arith, among), free)
            ];
            keeps_queue = λ a h. r.keeps_queue a (ground (arith, h, both a));
            keeps_feeders = λ z h. r.keeps_feeders z (ground (arith, h));
            takes_all = λ z h free. elim (Bool-cases (p == z)) [
              | inl same ↦ r.keeps_feeders z (ground (arith, same))
              | inr other ↦ r.takes_all z (rw other at h) free
            ];
            asks_all = λ z a h absent edge. elim (Bool-cases (p == z)) [
              | inl same ↦
                  let edge' : mem a (deps_of requires p) ≡ true = rw (==_sound p z same) edge in
                  elim (Bool-cases (mem a visited)) [
                    | inl seen ↦ ground (arith, seen)
                    | inr unseen ↦
                        let k = r.keeps_queue a (ground (arith, both a, news a, edge', unseen)) in
                        ground (arith, k)
                  ]
              | inr other ↦ r.asks_all z a h (ground (arith, other, absent)) edge
            ];
            lighter = λ steps known.
                let rest = r.lighter steps (λ z h. known z (ground (arith, h))) in
                let less =
                  load-cons requires p feeders steps (known p (ground (arith, eq_iff p p)))
                    (ground (arith, take)) in
                omega (
                  arith,
                  rest,
                  less,
                  length-append queue new,
                  length-unvisited visited (deps_of requires p),
                );
          })
  ]
