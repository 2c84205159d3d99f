-- ===== src/Execution/Reopen/Closure.antt =====
-- The first part of the cascade of ReopenStep: the steps that depend on the reopened one.
use haro.Prelude.{
  ℕ, zero, suc, ◌≤◌, ◌<◌, String, Bool, true, false, some, List, [], ◌∷◌, not, ◌&&◌, ◌||◌, ◌==◌,
  ◌≡◌, ◌↔◌, refl, ap, string_eq, length, any, mem, All, arith, eq_iff, Bool-cases, inl, inr, ◌⊎◌,
  ==_sound, occurrences_present, misses, misses_none, misses-cons,
}
use haro.Store.Types.{ExecutionStep}
use haro.Execution.Reopen.{sweep, spread}

abbrev pub In : ExecutionStep → List ExecutionStep → Type 0
In s [] = ⊥
In s (x ∷ xs) = (x ≡ s) ⊎ In s xs

abbrev pub step_ids : List ExecutionStep → List String
step_ids [] = []
step_ids (s ∷ steps) = s.step_id ∷ step_ids steps

pub length-step_ids : (steps : List ExecutionStep) → length (step_ids steps) ≡ length steps
length-step_ids [] = refl
length-step_ids (s ∷ steps) = omega (arith, length-step_ids steps)

pub In-mem :
    (steps : List ExecutionStep) (s : ExecutionStep)
    → In s steps
    → mem s.step_id (step_ids steps) ≡ true
In-mem [] s here = absurd here
In-mem (x ∷ steps) s (inl same) = rw same (ground (arith, eq_iff s.step_id s.step_id))
In-mem (x ∷ steps) s (inr later) = let rest = In-mem steps s later in ground (arith, rest)

any-mem :
    (reset deps : List String)
    → any (λ d. mem d reset) deps ≡ true
    → (d : String) × (mem d deps ≡ true) × (mem d reset ≡ true)
any-mem reset [] h = absurd cc
any-mem reset (x ∷ deps) h = elim (Bool-cases (mem x reset)) [
  | inl inside ↦ (x, ground (arith, eq_iff x x), inside)
  | inr outside ↦
      let (d, among, inside) = any-mem reset deps (rw outside at h) in
      (d, ground (arith, among), inside)
]

mem-any :
    (reset deps : List String) (d : String)
    → mem d deps ≡ true
    → mem d reset ≡ true
    → any (λ e. mem e reset) deps ≡ true
mem-any reset [] d among inside = absurd cc
mem-any reset (x ∷ deps) d among inside = elim (Bool-cases (x == d)) [
  | inl same ↦ let e : mem x reset ≡ true = rw (==_sound x d same) inside in ground (arith, e)
  | inr other ↦ let rest = mem-any reset deps d (rw other at among) inside in ground (arith, rest)
]

module _ (decode : String → List String) where
  -- The step `root`, and each step that depends on one of these, directly or through others.
  pub data Downstream (steps : List ExecutionStep) (root : String) : String → Type 0 where
    itself : Downstream steps root root
    dependent :
        {d : String} (s : ExecutionStep)
        → In s steps
        → mem d (decode s.depends_on) ≡ true
        → Downstream steps root d
        → Downstream steps root s.step_id

  abbrev hits : List String → ExecutionStep → Bool
  hits reset s = not (mem s.step_id reset) && any (λ d. mem d reset) (decode s.depends_on)

  -- A round keeps to the steps that are downstream.
  sweep_sound :
      (all : List ExecutionStep) (root : String) (reset : List String) (changed : Bool)
      (steps : List ExecutionStep)
      → ((s : ExecutionStep) → In s steps → In s all)
      → ((z : String) → mem z reset ≡ true → Downstream all root z)
      → (z : String) → mem z (sweep decode reset changed steps).0 ≡ true
      → Downstream all root z
  unfolding sweep
  sweep_sound all root reset changed [] among sound z h = sound z h
  sweep_sound all root reset changed (s ∷ steps) among sound z h =
      elim (Bool-cases (hits reset s)) [
        | inl hit ↦
            let (d, edge, inside) = any-mem reset (decode s.depends_on) (ground (arith, hit)) in
            let here = dependent s (among s (inl refl)) edge (sound d inside) in
            sweep_sound all root (s.step_id ∷ reset) (changed || true) steps
              (λ x k. among x (inr k))
              (λ y k. elim (Bool-cases (s.step_id == y)) [
                | inl same ↦ rw⁻¹ (==_sound s.step_id y same) here
                | inr other ↦ sound y (rw other at k)
              ])
              z (rw (hit, sweep) at h)
        | inr miss ↦
            sweep_sound all root reset (changed || false) steps (λ x k. among x (inr k)) sound z
              (rw (miss, sweep) at h)
      ]

  -- A round keeps what is there; one that changes something adds a step, and one that does not
  -- has found every dependent there.
  record Round (reset : List String) (steps : List ExecutionStep) (before : Bool)
      (reset' : List String) (changed : Bool) : Type 0 where
    grows : (z : String) → mem z reset ≡ true → mem z reset' ≡ true
    still : changed ≡ false → (before ≡ false) × (reset' ≡ reset)
    settled :
        changed ≡ false
        → All
            (λ s. any (λ d. mem d reset) (decode s.depends_on) ≡ true → mem s.step_id reset ≡ true)
            steps

  sweep-Round :
      (reset : List String) (changed : Bool) (steps : List ExecutionStep)
      → Round reset steps changed
          (sweep decode reset changed steps).0
          (sweep decode reset changed steps).1
  unfolding sweep
  sweep-Round reset changed [] = record {
    grows = λ z h. h;
    still = λ h. (h, refl);
    settled = λ h. tt;
  }
  sweep-Round reset changed (s ∷ steps) = elim (Bool-cases (hits reset s)) [
    | inl hit ↦
        let r = sweep-Round (s.step_id ∷ reset) (changed || true) steps in
        rw (hit, sweep)
          (record {
            grows = λ z h. r.grows z (ground (arith, h));
            still = λ h. let (k, same) = r.still h in absurd (ground (arith, k));
            settled = λ h. let (k, same) = r.still h in absurd (ground (arith, k));
          })
    | inr miss ↦
        let r = sweep-Round reset (changed || false) steps in
        rw (miss, sweep)
          (record {
            grows = r.grows;
            still = λ h. let (k, same) = r.still h in (ground (arith, k), same);
            settled = λ h. (λ k. ground (arith, miss, k), r.settled h);
          })
  ]

  misses_grow : (z : String) (reset ids : List String) → misses (z ∷ reset) ids ≤ misses reset ids
  misses_grow z reset [] = omega arith
  misses_grow z reset (x ∷ ids) = let rest = misses_grow z reset ids in ground (arith, rest)

  sweep-misses :
      (ids reset : List String) (changed : Bool) (steps : List ExecutionStep)
      → ((s : ExecutionStep) → In s steps → mem s.step_id ids ≡ true)
      → (misses (sweep decode reset changed steps).0 ids ≤ misses reset ids)
        × ((sweep decode reset changed steps).1 ≡ true
            → changed ≡ false
            → suc (misses (sweep decode reset changed steps).0 ids) ≤ misses reset ids)
  unfolding sweep
  sweep-misses ids reset changed [] among = (omega arith, λ h k. absurd cc)
  sweep-misses ids reset changed (s ∷ steps) among = elim (Bool-cases (hits reset s)) [
    | inl hit ↦
        let (fewer, strict) =
          sweep-misses ids (s.step_id ∷ reset) (changed || true) steps (λ x k. among x (inr k)) in
        let less = misses-cons s.step_id reset ids (ground (arith, hit)) in
        let here = occurrences_present s.step_id ids (among s (inl refl)) in
        rw (hit, sweep) (omega (arith, fewer, less, here), λ h k. omega (arith, fewer, less, here))
    | inr miss ↦
        let (fewer, strict) =
          sweep-misses ids reset (changed || false) steps (λ x k. among x (inr k)) in
        rw (miss, sweep) (fewer, λ h k. strict h (ground (arith, k)))
  ]

  All-in :
      (P : ExecutionStep → Type 0) (steps : List ExecutionStep) (s : ExecutionStep)
      → All P steps
      → In s steps
      → P s
  All-in P [] s all here = absurd here
  All-in P (x ∷ steps) s (first, rest) (inl same) = rw⁻¹ same first
  All-in P (x ∷ steps) s (first, rest) (inr later) = All-in P steps s rest later

  -- What the steps that are settled hold, every step downstream of theirs is there.
  settled_complete :
      (steps : List ExecutionStep) (root : String) (reset : List String)
      → mem root reset ≡ true
      → All
          (λ s. any (λ d. mem d reset) (decode s.depends_on) ≡ true → mem s.step_id reset ≡ true)
          steps
      → (z : String) → Downstream steps root z
      → mem z reset ≡ true
  settled_complete steps root reset start all z itself = start
  settled_complete steps root reset start all z (dependent {d} s here edge chain) =
      All-in (λ x. any (λ e. mem e reset) (decode x.depends_on) ≡ true → mem x.step_id reset ≡ true)
        steps s all here
        (mem-any reset (decode s.depends_on) d edge
          (settled_complete steps root reset start all d chain))

  abbrev pub Cascades : List ExecutionStep → String → List String → Type 0
  Cascades steps root out = (z : String) → (mem z out ≡ true) ↔ Downstream steps root z

  spread_lem :
      (steps : List ExecutionStep) (root : String) (fuel : ℕ) (reset : List String)
      → mem root reset ≡ true
      → ((z : String) → mem z reset ≡ true → Downstream steps root z)
      → misses reset (step_ids steps) < fuel
      → (out : List String) × (spread decode fuel reset steps ≡ some out) × Cascades steps root out
  unfolding spread
  spread_lem steps root zero reset start sound enough = absurd (omega arith)
  spread_lem steps root (suc fuel) reset start sound enough =
      let next = sweep decode reset false steps in
      let r = sweep-Round reset false steps in
      let (fewer, strict) = sweep-misses (step_ids steps) reset false steps (In-mem steps) in
      elim (Bool-cases next.1) [
        | inl more ↦
            let (out, e, exact) =
              spread_lem steps root fuel next.0 (r.grows root start)
                (sweep_sound steps root reset false steps (λ x k. k) sound)
                (omega (arith, strict more refl)) in
            (out, rw (more, spread) e, exact)
        | inr done ↦
            let (k, same) = r.still done in
            (
              reset,
              rw (done, spread) (ap some same),
              λ z. (sound z, settled_complete steps root reset start (r.settled done) z),
            )
      ]

  -- The first part of the cascade ends within one round more than there are steps, with exactly the
  -- reopened step and those that depend on it, directly or through other steps.
  pub spread_downstream :
      (steps : List ExecutionStep) (root : String)
      → (out : List String) × (spread decode (suc (length steps)) (root ∷ []) steps ≡ some out)
        × Cascades steps root out
  spread_downstream steps root =
      spread_lem steps root (suc (length steps)) (root ∷ []) (ground (arith, eq_iff root root))
        (λ z h. elim (Bool-cases (root == z)) [
          | inl same ↦ rw (==_sound root z same) itself
          | inr other ↦ absurd (ground (arith, h, other))
        ])
        (omega (
          arith,
          length-step_ids steps,
          misses_grow root [] (step_ids steps),
          misses_none (step_ids steps),
        ))
