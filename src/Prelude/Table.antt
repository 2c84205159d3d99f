-- ===== src/Prelude/Table.antt =====
-- A Go map: an association list in the order of first insertion. `put` overwrites in place, so a
-- key stands once, and a loop over the map visits `values` in this order. Go leaves the order of
-- such a loop open; where a result could depend on it, the theorems hold for every list.
use mathlib.Core.Path.{◌≡◌, refl}
use mathlib.Core.Logic.{inl, inr}
use mathlib.Core.Bool.{Bool, true, false}
use mathlib.Core.Option.{Option, none, some}
use mathlib.Core.List.{List, [], ◌∷◌}
use native.Mathlib.Omega.{arith}
use haro.Prelude.Tests.{Eq, ◌==◌, if◌then◌else◌, ==_sound, Bool-cases, Option-cases}

abbrev pub Table {ℓ κ} : Type ℓ → Type κ → Type (ℓ ⊔ κ)
Table K V = List (K × V)

module _ {ℓ κ} {K : Type ℓ} {V : Type κ} ⦃e : Eq K⦄ where
  unfoldable pub get : Table K V → K → Option V
  get [] k = none
  get ((j, v) ∷ m) k = if j == k then some v else get m k

  unfoldable pub put : Table K V → K → V → Table K V
  put [] k v = (k, v) ∷ []
  put ((j, w) ∷ m) k v = if j == k then (k, v) ∷ m else (j, w) ∷ put m k v

  pub get-put :
      (m : Table K V) (k j : K) (v : V) → get (put m k v) j ≡ (if k == j then some v else get m j)
  unfolding get put
  get-put [] k j v = refl
  get-put ((i, w) ∷ m) k j v =
      ground (arith, e.beq_iff k j, e.beq_iff i k, e.beq_iff i j, get-put m k j v)

module _ {ℓ κ} {K : Type ℓ} {V : Type κ} ⦃e : Eq K⦄ where
  pub get-put_self : (m : Table K V) (k : K) (v : V) → get (put m k v) k ≡ some v
  get-put_self m k v = ground (arith, get-put m k k v, e.beq_iff k k)

-- Whether the key is there: `_, ok := m[k]`.
abbrev pub is_some {ℓ} : {A : Type ℓ} → Option A → Bool
is_some none = false
is_some (some a) = true

module _ {ℓ κ} {K : Type ℓ} {V : Type κ} ⦃e : Eq K⦄ where
  unfoldable pub has : Table K V → K → Bool
  has m k = is_some (get m k)

  pub has-put :
      (m : Table K V) (k j : K) (v : V) → has (put m k v) j ≡ (if k == j then true else has m j)
  unfolding has
  has-put m k j v = ground (arith, get-put m k j v)

module _ {ℓ κ} {K : Type ℓ} {V : Type κ} where
  abbrev pub values : Table K V → List V
  values [] = []
  values ((k, v) ∷ m) = v ∷ values m

  -- A loop that writes through the pointers of the map.
  abbrev pub update_all : (V → V) → Table K V → Table K V
  update_all f [] = []
  update_all f ((k, v) ∷ m) = (k, f v) ∷ update_all f m

abbrev pub map_option {ℓ κ} : {A : Type ℓ} {B : Type κ} → (A → B) → Option A → Option B
map_option f none = none
map_option f (some a) = some (f a)

module _ {ℓ κ} {K : Type ℓ} {V : Type κ} ⦃e : Eq K⦄ where
  pub get-update_all :
      (f : V → V) (m : Table K V) (k : K) → get (update_all f m) k ≡ map_option f (get m k)
  unfolding get
  get-update_all f [] k = refl
  get-update_all f ((j, v) ∷ m) k = ground (arith, get-update_all f m k)

  -- Every entry of the map has the property.
  pub record Each {ι} (P : K → V → Type ι) (m : Table K V) : Type (ℓ ⊔ κ ⊔ ι) where
    pub at : (k : K) (v : V) → get m k ≡ some v → P k v

module _ {ℓ κ ι} {K : Type ℓ} {V : Type κ} ⦃e : Eq K⦄ {P : K → V → Type ι} where
  pub Each-put : (m : Table K V) (k : K) (v : V) → Each P m → P k v → Each P (put m k v)
  Each-put m k v h p = record {
    at = λ j w q. elim (Bool-cases (k == j)) [
      | inl same ↦
          let k≡j : k ≡ j = ==_sound k j same in
          let v≡w : v ≡ w = ground (arith, get-put m k j v) in rw (← k≡j, ← v≡w) p
      | inr other ↦ h.at j w (ground (arith, get-put m k j v))
    ];
  }

  pub Each-empty : Each P []
  unfolding get
  Each-empty = record { at = λ k v q. cc }

module _ {ℓ κ ι υ} {K : Type ℓ} {V : Type κ} ⦃e : Eq K⦄ where
  pub Each-mono :
      {P : K → V → Type ι} {Q : K → V → Type υ} {m : Table K V}
      → Each P m
      → ((k : K) (v : V) → P k v → Q k v)
      → Each Q m
  Each-mono h f = record { at = λ k v q. f k v (h.at k v q) }

  pub Each-update_all :
      {P : K → V → Type ι} {Q : K → V → Type υ} (f : V → V) (m : Table K V)
      → Each P m
      → ((k : K) (v : V) → P k v → Q k (f v))
      → Each Q (update_all f m)
  Each-update_all f m h g = record {
    at = λ k w q. elim (Option-cases (get m k)) [
      | inl gone ↦ cc (get-update_all f m k, gone)
      | inr (v, here) ↦
          let fv≡w : f v ≡ w = ground (arith, get-update_all f m k) in
          rw (← fv≡w) (g k v (h.at k v here))
    ];
  }
