-- ===== src/Store/Integrity/Claims.antt =====
-- Acquiring and releasing path claims keeps the integrity of the store.
use haro.Prelude.{
  ℕ, String, Bool, true, some, [], ◌∷◌, ◌≡◌, refl, ◌⊎◌, inl, inr, ◌==◌, Bool-cases, Option-cases,
  string_eq, nat_eq, arith,
}
use haro.Prelude.Table
use haro.Prelude.Table.{Table, Each, Each-put, Each-mono, Each-empty, get-put, has-put}
use haro.Store.Types.{Project, PathClaim}
use haro.Store.State.{FakeStore}
use haro.Store.PathClaims
use haro.Store.PathClaims.{release_first, is_held, misses_field, first_conflict, actives}
use haro.Store.Integrity.{Integrity, ClaimRow}
use haro.Store.Integrity.Rules.{keeps_guard, keeps_require, keeps_option}
use haro.Store.Integrity.Leaves.{with_path_claims-Integrity, with_next_id-Integrity}

-- `release` changes at most one claim, and of it only the release time.
pub get-release_first :
    (now : String) (p : PathClaim → Bool) (m m' : Table ℕ PathClaim) (k : ℕ)
    → release_first now p m ≡ some m'
    → (Table.get m' k ≡ Table.get m k)
      ⊎ ((c : PathClaim) × (Table.get m k ≡ some c)
          × (p c ≡ true)
          × (Table.get m' k ≡ some (record c { released_at = some now })))
unfolding release_first Table.get
get-release_first now p [] m' k e = cc
get-release_first now p ((id, c) ∷ m) m' k e = elim (Bool-cases (p c)) [
  | inl hit ↦ elim (Bool-cases (id == k)) [
    | inl same ↦ inr (c, ground arith, hit, ground arith)
    | inr other ↦ inl (ground arith)
  ]
  | inr miss ↦ elim (Option-cases (release_first now p m)) [
    | inl stop ↦ absurd (ground arith)
    | inr (n, more) ↦
        let m'≡ : m' ≡ (id, c) ∷ n = ground arith in
        elim (Bool-cases (id == k)) [
          | inl same ↦ inl (rw m'≡ (ground arith))
          | inr other ↦ elim (get-release_first now p m n k more) [
            | inl kept ↦ inl (rw m'≡ (ground (arith, kept)))
            | inr (x, found, held, freed) ↦
                inr (x, ground (arith, found), held, rw m'≡ (ground (arith, freed)))
          ]
        ]
  ]
]

release_first-Each :
    (now : String) (p : PathClaim → Bool) (m m' : Table ℕ PathClaim)
    (projects : Table String Project)
    → release_first now p m ≡ some m'
    → Each (ClaimRow projects) m
    → Each (ClaimRow projects) m'
release_first-Each now p m m' projects e h = record {
  at = λ k c q. elim (get-release_first now p m m' k e) [
    | inl kept ↦ h.at k c (cc (kept, q))
    | inr (x, found, held, freed) ↦
        let r = h.at k x found in
        let c≡ : record x { released_at = some now } ≡ c = cc (freed, q) in
        rw (← c≡) (record { key = r.key; project = r.project })
  ];
}

module _ (s : FakeStore) (h : Integrity s) where
  pub path_claims_acquire-Integrity :
      (now : String) (c : PathClaim) → Integrity (PathClaims.acquire s now c).1
  unfolding PathClaims.acquire
  path_claims_acquire-Integrity now c = keeps_guard Integrity (misses_field c) _ s _ h λ named.
      keeps_require Integrity (Table.has s.projects c.project_id) _ s _ h λ project.
        keeps_option Integrity (first_conflict c (actives s c.project_id)) _ _
          (λ free.
            with_path_claims-Integrity _ (with_next_id-Integrity s h _) _
              (Each-put s.path_claims _ _ h.path_claims (record { key = refl; project = project })))
          λ ex conflict. h

  pub path_claims_release-Integrity :
      (now project_id logical_path owner_execution_id owner_step_id : String)
      → Integrity
          (PathClaims.release s now project_id logical_path owner_execution_id owner_step_id).1
  unfolding PathClaims.release
  path_claims_release-Integrity now project_id logical_path owner_execution_id owner_step_id =
      let held = is_held project_id logical_path owner_execution_id owner_step_id in
      keeps_option Integrity (release_first now held s.path_claims) _ _ (λ missing. h)
        λ m released.
          with_path_claims-Integrity s h m
            (release_first-Each now held s.path_claims m s.projects released h.path_claims)
