-- ===== src/Store/PathClaims.antt =====
-- fakePathClaimRepo of internal/store/fake.go
use Prim.Native.String.{compare}
use text.Mathlib.Text.{is_lt}
use haro.Prelude.{
  ℕ, ◌+◌, String, Bool, true, false, Option, none, some, List, [], ◌∷◌, not, ◌&&◌, ◌||◌, ◌==◌,
  if◌then◌else◌, string_eq, nat_eq, select,
}
use haro.Prelude.Table
use haro.Prelude.Table.{Table, values}
use haro.Claim.Path.{overlaps}
use haro.Claim.Policy.{should_block}
use haro.Store.Types.{
  PathClaim, Result, ok, err, foreign_key_violation, missing_claim_fields, no_active_claim, i64,
}
use haro.Store.State.{FakeStore}
use haro.Store.Sorting.{exchange_sort}

abbrev pub is_nil {ℓ} : {A : Type ℓ} → Option A → Bool
is_nil none = true
is_nil (some a) = false

unfoldable pub is_active : String → PathClaim → Bool
is_active project_id c = c.project_id == project_id && is_nil c.released_at

unfoldable pub actives : FakeStore → String → List PathClaim
actives s project_id = select (is_active project_id) (values s.path_claims)

-- The two tests of the loop of `Acquire`.
unfoldable pub conflicts : PathClaim → PathClaim → Bool
conflicts c ex =
    overlaps ex.logical_path c.logical_path && should_block ex.mode c.mode "block" false

unfoldable pub first_conflict : PathClaim → List PathClaim → Option PathClaim
first_conflict c [] = none
first_conflict c (ex ∷ l) = if conflicts c ex then some ex else first_conflict c l

unfoldable pub misses_field : PathClaim → Bool
misses_field c =
    c.project_id == ""
    || c.logical_path == ""
    || c.mode == ""
    || c.owner_execution_id == ""
    || c.owner_step_id == ""

unfoldable pub acquire :
    FakeStore → String → PathClaim → Result (Bool × Option PathClaim) × FakeStore
acquire s now c =
    if misses_field c
    then (err missing_claim_fields, s)
    else if not (Table.has s.projects c.project_id)
    then (err foreign_key_violation, s)
    else elim (first_conflict c (actives s c.project_id)) [
      | some ex ↦ (ok (false, some ex), s)
      | none ↦
          let id = i64 (s.path_claim_next_id + 1) in
          (
            ok (true, none),
            record s {
              path_claim_next_id = id;
              path_claims =
                  Table.put s.path_claims id
                    (record c { id = id; acquired_at = now; released_at = none });
            },
          )
    ]

abbrev pub is_held : String → String → String → String → PathClaim → Bool
is_held project_id logical_path owner_execution_id owner_step_id c =
    c.project_id == project_id
    && c.logical_path == logical_path
    && c.owner_execution_id == owner_execution_id
    && c.owner_step_id == owner_step_id
    && is_nil c.released_at

-- The loop that writes through the pointer of the first match and returns; `none` if none matches.
unfoldable pub release_first :
    String → (PathClaim → Bool) → Table ℕ PathClaim → Option (Table ℕ PathClaim)
release_first now p [] = none
release_first now p ((id, c) ∷ m) =
    let rest = release_first now p m in
    if p c
    then some ((id, record c { released_at = some now }) ∷ m)
    else (elim rest [ none ↦ none | some m' ↦ some ((id, c) ∷ m') ])

unfoldable pub release :
    FakeStore → String → String → String → String → String → Result Unit × FakeStore
release s now project_id logical_path owner_execution_id owner_step_id =
    elim (release_first now (is_held project_id logical_path owner_execution_id owner_step_id)
      s.path_claims) [
        | none ↦ (err no_active_claim, s)
        | some m ↦ (ok tt, record s { path_claims = m })
      ]

abbrev pub path_less : PathClaim → PathClaim → Bool
path_less a b = is_lt (compare a.logical_path b.logical_path)

unfoldable pub list_active : FakeStore → String → List PathClaim
list_active s project_id = exchange_sort path_less (actives s project_id)
