-- ===== src/Store/Exclusion.antt =====
-- The active path claims of a project against one another (fakePathClaimRepo of
-- internal/store/fake.go).
mod Frame
pub mod Runs
use haro.Prelude.{
  ℕ, suc, ◌+◌, ◌^◌, ◌≤◌, ◌<◌, String, Bool, true, false, Option, none, some, List, [], ◌∷◌, ◌≡◌,
  ◌≢◌, refl, ◌==◌, if◌then◌else◌, ◌&&◌, Bool-cases, Option-cases, string_eq, nat_eq, nat_beq_iff,
  eq_iff, inl, inr, arith, length, select,
}
use haro.Prelude.Table
use haro.Prelude.Table.{Table, Each, values, get-put}
use haro.Claim.Path.{overlaps}
use haro.Claim.Overlap.{overlaps_comm}
use haro.Claim.Policy.{should_block}
use haro.Claim.Matrix.{should_block_comm}
use haro.Store.Types.{PathClaim, i64}
use haro.Store.State.{FakeStore, new_fake_store}
use haro.Store.PathClaims
use haro.Store.PathClaims.{
  is_nil, is_active, conflicts, first_conflict, actives, release_first, misses_field, is_held,
}
use haro.Store.Calls
use haro.Store.Calls.{Call, perform, perform_all}
use haro.Store.Integrity.Claims.{get-release_first}
use haro.Store.Integrity.Rules.{keeps_guard, keeps_require, keeps_option}

-- No two active claims of one project conflict; the counter is the greatest id given out.
pub record Exclusive (next : ℕ) (m : Table ℕ PathClaim) : Type 0 where
  pub counted : (k : ℕ) (c : PathClaim) → Table.get m k ≡ some c → k ≤ next
  pub apart :
      (project_id : String) (i j : ℕ) (a b : PathClaim)
      → Table.get m i ≡ some a
      → Table.get m j ≡ some b
      → i ≢ j
      → is_active project_id a ≡ true
      → is_active project_id b ≡ true
      → conflicts a b ≡ false

pub conflicts_comm : (a b : PathClaim) → conflicts a b ≡ conflicts b a
unfolding conflicts
conflicts_comm a b = ground (
  arith,
  overlaps_comm a.logical_path b.logical_path,
  should_block_comm a.mode b.mode "block" false,
)

-- If the loop of `Acquire` finds nothing, no active claim of the project conflicts.
free_of_conflicts :
    (c : PathClaim) (project_id : String) (m : Table ℕ PathClaim) (k : ℕ) (ex : PathClaim)
    → first_conflict c (select (is_active project_id) (values m)) ≡ none
    → Table.get m k ≡ some ex
    → is_active project_id ex ≡ true
    → conflicts c ex ≡ false
unfolding first_conflict Table.get
free_of_conflicts c project_id [] k ex free found active = cc
free_of_conflicts c project_id ((id, x) ∷ m) k ex free found active = elim (Bool-cases (id == k)) [
  | inl here ↦
      let x≡ex : x ≡ ex = ground arith in
      let active_x : is_active project_id x ≡ true = rw x≡ex active in rw (← x≡ex) (ground arith)
  | inr later ↦ free_of_conflicts c project_id m k ex (ground arith) (ground arith) active
]

-- An active claim of a project names it.
active_project : (p : String) (c : PathClaim) → is_active p c ≡ true → p ≡ c.project_id
unfolding is_active
active_project p c h = ground (arith, eq_iff c.project_id p)

module _ (next : ℕ) (m : Table ℕ PathClaim) (h : Exclusive next m) (x : PathClaim)
    (free : (k : ℕ) (ex : PathClaim)
      → Table.get m k ≡ some ex
      → is_active x.project_id ex ≡ true
      → conflicts x ex ≡ false) where
  apart_new :
      (p : String) (j : ℕ) (b : PathClaim)
      → Table.get m j ≡ some b
      → is_active p x ≡ true
      → is_active p b ≡ true
      → conflicts x b ≡ false
  apart_new p j b hb ax ab = free j b hb (rw (active_project p x ax) at ab)

  Exclusive-put : Exclusive (next + 1) (Table.put m (next + 1) x)
  Exclusive-put = record {
    counted = λ k c q. elim (Bool-cases ((next + 1) == k)) [
      | inl same ↦ ground (arith, nat_beq_iff (next + 1) k)
      | inr other ↦
          let old : k ≤ next = h.counted k c (ground (arith, get-put m (next + 1) k x)) in
          omega arith
    ];
    apart = λ p i j a b qa qb i≢j aa ab. elim (Bool-cases ((next + 1) == i)) [
      | inl same_i ↦ elim (Bool-cases ((next + 1) == j)) [
        | inl same_j ↦
            absurd (i≢j (ground (arith, nat_beq_iff (next + 1) i, nat_beq_iff (next + 1) j)))
        | inr other_j ↦
            let x≡a : x ≡ a = ground (arith, get-put m (next + 1) i x) in
            let hb : Table.get m j ≡ some b = ground (arith, get-put m (next + 1) j x) in
            rw (← x≡a) (apart_new p j b hb (rw x≡a aa) ab)
      ]
      | inr other_i ↦
          let ha : Table.get m i ≡ some a = ground (arith, get-put m (next + 1) i x) in
          elim (Bool-cases ((next + 1) == j)) [
            | inl same_j ↦
                let x≡b : x ≡ b = ground (arith, get-put m (next + 1) j x) in
                rw (conflicts_comm a b, ← x≡b) (apart_new p i a ha (rw x≡b ab) aa)
            | inr other_j ↦
                h.apart p i j a b ha (ground (arith, get-put m (next + 1) j x)) i≢j aa ab
          ]
    ];
  }

-- A claim that is active after `release` was there before, unchanged.
active_before :
    (now p : String) (held : PathClaim → Bool) (m m' : Table ℕ PathClaim) (k : ℕ) (c : PathClaim)
    → release_first now held m ≡ some m'
    → Table.get m' k ≡ some c
    → is_active p c ≡ true
    → Table.get m k ≡ some c
unfolding is_active
active_before now p held m m' k c e found active = elim (get-release_first now held m m' k e) [
  | inl kept ↦ cc (kept, found)
  | inr (x, before, hit, freed) ↦
      let c≡ : record x { released_at = some now } ≡ c = cc (freed, found) in
      absurd (ground (arith, c≡))
]

release_first-Exclusive :
    (now : String) (held : PathClaim → Bool) (next : ℕ) (m m' : Table ℕ PathClaim)
    → release_first now held m ≡ some m'
    → Exclusive next m
    → Exclusive next m'
release_first-Exclusive now held next m m' e h = record {
  counted = λ k c q. elim (get-release_first now held m m' k e) [
    | inl kept ↦ h.counted k c (cc (kept, q))
    | inr (x, before, hit, freed) ↦ h.counted k x before
  ];
  apart = λ p i j a b qa qb i≢j aa ab.
      h.apart p i j a b (active_before now p held m m' i a e qa aa)
        (active_before now p held m m' j b e qb ab) i≢j aa ab;
}

-- The invariant on a store, and what one call may add to the counter.
pub record Keeps (s t : FakeStore) : Type 0 where
  pub grows : t.path_claim_next_id ≤ s.path_claim_next_id + 1
  pub exclusive : Exclusive t.path_claim_next_id t.path_claims

abbrev pub Unchanged : FakeStore → FakeStore → Type 0
Unchanged s t = (t.path_claims ≡ s.path_claims) × (t.path_claim_next_id ≡ s.path_claim_next_id)

module _ (s : FakeStore) (h : Exclusive s.path_claim_next_id s.path_claims) where
  Unchanged-Keeps : (t : FakeStore) → Unchanged s t → Keeps s t
  Unchanged-Keeps t e = record { grows = omega (arith, e.1); exclusive = rw (e.0, e.1) h }

  acquire-Keeps :
      (now : String) (c : PathClaim)
      → s.path_claim_next_id + 1 < 2 ^ 64
      → Keeps s (PathClaims.acquire s now c).1
  unfolding PathClaims.acquire actives conflicts
  acquire-Keeps now c small =
      let same = Unchanged-Keeps s (refl, refl) in
      keeps_guard (Keeps s) (misses_field c) _ s _ same λ named.
        keeps_require (Keeps s) (Table.has s.projects c.project_id) _ s _ same λ project.
          keeps_option (Keeps s) (first_conflict c (actives s c.project_id)) _ _
            (λ free.
              let wrap : i64 (s.path_claim_next_id + 1) ≡ s.path_claim_next_id + 1 = omega arith in
              record {
                grows = omega (arith, wrap);
                exclusive = rw wrap (
                    Exclusive-put s.path_claim_next_id s.path_claims h
                      (record c {
                        id = s.path_claim_next_id + 1;
                        acquired_at = now;
                        released_at = none;
                      })
                      λ k ex found active.
                        free_of_conflicts c c.project_id s.path_claims k ex free found active);
              })
            λ ex conflict. same

  -- A released claim is not active; the others stay as they were.
  release-Keeps :
      (now project_id logical_path owner_execution_id owner_step_id : String)
      → Keeps s
          (PathClaims.release s now project_id logical_path owner_execution_id owner_step_id).1
  unfolding PathClaims.release
  release-Keeps now project_id logical_path owner_execution_id owner_step_id =
      let held = is_held project_id logical_path owner_execution_id owner_step_id in
      keeps_option (Keeps s) (release_first now held s.path_claims) _ _
        (λ missing. Unchanged-Keeps s (refl, refl))
        λ m released. record {
          grows = omega arith;
          exclusive =
              release_first-Exclusive now held s.path_claim_next_id s.path_claims m released h;
        }
