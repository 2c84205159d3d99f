-- ===== src/Execution/Reopen/Links.antt =====
-- The tables that ReopenStep of internal/execution/state.go makes of its steps: what they say of
-- the steps themselves.
use haro.Prelude.{
  String, Bool, true, false, List, [], ◌∷◌, ◌++◌, ◌&&◌, ◌||◌, ◌==◌, ◌≡◌, ◌↔◌, refl, string_eq, mem,
  any, arith, eq_iff, Bool-cases, inl, inr, ==_sound,
}
use haro.Prelude.Table
use haro.Prelude.Table.{put, get-put}
use haro.Store.Types.{ExecutionStep}
use haro.Workflow.Cycles.{Edges, deps_of}
use haro.Workflow.Sort.{add_dependents}
use haro.Execution.Reopen.{fill_produces, fill_requires, reopened_requires}
use haro.Execution.Reopen.Closure.{In, step_ids, In-mem}

-- No two steps have the same id.
abbrev pub Distinct : List ExecutionStep → Type 0
Distinct [] = Unit
Distinct (s ∷ steps) = (mem s.step_id (step_ids steps) ≡ false) × Distinct steps

any-In :
    (test : ExecutionStep → Bool) (steps : List ExecutionStep)
    → any test steps ≡ true
    → (s : ExecutionStep) × In s steps × (test s ≡ true)
any-In test [] h = absurd cc
any-In test (x ∷ steps) h = elim (Bool-cases (test x)) [
  | inl hit ↦ (x, inl refl, hit)
  | inr miss ↦ let (s, here, hit) = any-In test steps (rw miss at h) in (s, inr here, hit)
]

In-any :
    (test : ExecutionStep → Bool) (steps : List ExecutionStep) (s : ExecutionStep)
    → In s steps
    → test s ≡ true
    → any test steps ≡ true
In-any test [] s here hit = absurd here
In-any test (x ∷ steps) s (inl same) hit =
    let hit' : test x ≡ true = rw same hit in ground (arith, hit')
In-any test (x ∷ steps) s (inr later) hit =
    let rest = In-any test steps s later hit in ground (arith, rest)

mem-append : (z : String) (xs ys : List String) → mem z (xs ++ ys) ≡ (mem z xs || mem z ys)
mem-append z [] ys = refl
mem-append z (x ∷ xs) ys = ground (arith, mem-append z xs ys)

mem-add_dependents :
    (m : Edges) (id : String) (deps : List String) (x d : String)
    → mem x (deps_of (add_dependents m id deps) d)
      ≡ (mem x (deps_of m d) || ((id == x) && mem d deps))
unfolding add_dependents
mem-add_dependents m id [] x d = ground arith
mem-add_dependents m id (dep ∷ deps) x d =
    let now = deps_of m dep ++ id ∷ [] in
    let later = mem-add_dependents (put m dep now) id deps x d in
    ground (arith, later, get-put m dep d now, mem-append x (deps_of m dep) (id ∷ []), eq_iff dep d)

module _ (decode : String → List String) where
  abbrev makes : String → String → ExecutionStep → Bool
  makes a p s = (s.step_id == p) && mem a (decode s.produces)

  mem-fill_produces :
      (m : Edges) (steps : List ExecutionStep) (a p : String)
      → mem p (deps_of (fill_produces decode m steps) a)
        ≡ (mem p (deps_of m a) || any (makes a p) steps)
  unfolding fill_produces
  mem-fill_produces m [] a p = ground arith
  mem-fill_produces m (s ∷ steps) a p =
      let next = add_dependents m s.step_id (decode s.produces) in
      let later = mem-fill_produces next steps a p in
      let added = mem-add_dependents m s.step_id (decode s.produces) p a in
      ground (arith, later, added)

  -- A step that makes an artifact.
  abbrev pub Makes : List ExecutionStep → String → String → Type 0
  Makes steps a p =
      (s : ExecutionStep) × In s steps × (s.step_id ≡ p) × (mem a (decode s.produces) ≡ true)

  pub fill_produces-Makes :
      (steps : List ExecutionStep) (a p : String)
      → (mem p (deps_of (fill_produces decode [] steps) a) ≡ true) ↔ Makes steps a p
  unfolding Table.get
  fill_produces-Makes steps a p = (
    λ h.
        let (s, here, hit) =
          any-In (makes a p) steps (ground (arith, h, mem-fill_produces [] steps a p)) in
        (s, here, ==_sound s.step_id p (ground (arith, hit)), ground (arith, hit)),
    λ made.
        let (s, here, same, among) = made in
        let hit : makes a p s ≡ true = ground (arith, eq_iff s.step_id p, same, among) in
        let k = In-any (makes a p) steps s here hit in
        ground (arith, k, mem-fill_produces [] steps a p),
  )

  get-fill_requires :
      (m : Edges) (steps : List ExecutionStep) (p : String)
      → mem p (step_ids steps) ≡ false
      → Table.get (fill_requires decode m steps) p ≡ Table.get m p
  unfolding fill_requires
  get-fill_requires m [] p h = refl
  get-fill_requires m (s ∷ steps) p h =
      let later =
        get-fill_requires (put m s.step_id (decode s.requires)) steps p (ground (arith, h)) in
      ground (arith, later, get-put m s.step_id p (decode s.requires), h)

  pub fill_requires-In :
      (m : Edges) (steps : List ExecutionStep) (s : ExecutionStep)
      → Distinct steps
      → In s steps
      → deps_of (fill_requires decode m steps) s.step_id ≡ decode s.requires
  unfolding fill_requires
  fill_requires-In m [] s distinct here = absurd here
  fill_requires-In m (x ∷ steps) s (fresh, distinct) (inl same) =
      let now = put m x.step_id (decode x.requires) in
      rw⁻¹ same (
        rw
          (
            get-fill_requires now steps x.step_id fresh,
            get-put m x.step_id x.step_id (decode x.requires),
          )
          (ground (arith, eq_iff x.step_id x.step_id)))
  fill_requires-In m (x ∷ steps) s (fresh, distinct) (inr later) =
      fill_requires-In (put m x.step_id (decode x.requires)) steps s distinct later

  -- A step of this id that requires an artifact.
  abbrev pub Requires : List ExecutionStep → String → String → Type 0
  Requires steps p a =
      (s : ExecutionStep) × In s steps × (s.step_id ≡ p) × (mem a (decode s.requires) ≡ true)

  pub reopened_requires_sound :
      (root : String) (steps : List ExecutionStep) (a : String)
      → mem a (reopened_requires decode root steps) ≡ true
      → Requires steps root a
  unfolding reopened_requires
  reopened_requires_sound root [] a h = absurd cc
  reopened_requires_sound root (x ∷ steps) a h = elim (Bool-cases (x.step_id == root)) [
    | inl same ↦ (x, inl refl, ==_sound x.step_id root same, rw (same, reopened_requires) at h)
    | inr other ↦
        let (s, here, e, among) =
          reopened_requires_sound root steps a (rw (other, reopened_requires) at h) in
        (s, inr here, e, among)
  ]

  pub reopened_requires-In :
      (steps : List ExecutionStep) (s : ExecutionStep)
      → Distinct steps
      → In s steps
      → reopened_requires decode s.step_id steps ≡ decode s.requires
  unfolding reopened_requires
  reopened_requires-In [] s distinct here = absurd here
  reopened_requires-In (x ∷ steps) s (fresh, distinct) (inl same) =
      rw⁻¹ same (ground (arith, eq_iff x.step_id x.step_id))
  reopened_requires-In (x ∷ steps) s (fresh, distinct) (inr later) =
      let rest = reopened_requires-In steps s distinct later in
      let inside = In-mem steps s later in
      elim (Bool-cases (x.step_id == s.step_id)) [
        | inl same ↦
            let gone : mem s.step_id (step_ids steps) ≡ false =
              rw⁻¹ (==_sound x.step_id s.step_id same) fresh in
            absurd (ground (arith, gone, inside))
        | inr other ↦ rw (other, reopened_requires) rest
      ]
