-- ===== src/Store/Integrity/Rules.antt =====
-- The shapes of a repository's method, and what a larger map keeps.
use haro.Prelude.{◌≡◌, refl, Bool, true, false, Option, none, some, not, arith, if◌then◌else◌, Eq}
use haro.Prelude.Table.{Table, has, put, has-put, update_all, get-update_all}
use haro.Store.Types.{Error, Result, err}
use haro.Store.State.{FakeStore}

module _ {A : Type 0} (P : FakeStore → Type 0) where
  -- `if test { return err }`
  pub keeps_guard :
      (test : Bool) (e : Error) (s : FakeStore) (r : Result A × FakeStore)
      → P s
      → (test ≡ false → P r.1)
      → P (if test then (err e, s) else r).1
  keeps_guard true e s r h k = h
  keeps_guard false e s r h k = k refl

  pub keeps_if :
      (test : Bool) (r r' : Result A × FakeStore) → P r.1 → P r'.1 → P (if test then r else r').1
  keeps_if true r r' h k = h
  keeps_if false r r' h k = k

  -- `if !test { return err }`
  pub keeps_require :
      (test : Bool) (e : Error) (s : FakeStore) (r : Result A × FakeStore)
      → P s
      → (test ≡ true → P r.1)
      → P (if not test then (err e, s) else r).1
  keeps_require true e s r h k = k refl
  keeps_require false e s r h k = h

  -- `x, ok := m[k]; if !ok { return ErrNotFound }`
  pub keeps_found :
      {V : Type 0} (o : Option V) (e : Error) (s : FakeStore) (f : V → Result A × FakeStore)
      → P s
      → ((v : V) → o ≡ some v → P (f v).1)
      → P (elim o as (λ _. Result A × FakeStore) [ none ↦ (err e, s) | some v ↦ f v ]).1
  keeps_found none e s f h k = h
  keeps_found (some v) e s f h k = k v refl

module _ {A V : Type 0} (P : FakeStore → Type 0) where
  -- A map's entry, where both answers go on.
  pub keeps_option :
      (o : Option V) (r : Result A × FakeStore) (f : V → Result A × FakeStore)
      → (o ≡ none → P r.1)
      → ((v : V) → o ≡ some v → P (f v).1)
      → P (elim o as (λ _. Result A × FakeStore) [ none ↦ r | some v ↦ f v ]).1
  keeps_option none r f h k = h refl
  keeps_option (some v) r f h k = k v refl

-- No row of `m` is gone in `m'`.
abbrev pub Grows {ℓ κ ι} :
    {K : Type ℓ} {V : Type κ} {W : Type ι} ⦃e : Eq K⦄ → Table K V → Table K W → Type ℓ
Grows {K} m m' = (k : K) → has m k ≡ true → has m' k ≡ true

module _ {ℓ κ} {K : Type ℓ} {V : Type κ} ⦃e : Eq K⦄ where
  pub Grows-put : (m : Table K V) (k : K) (v : V) → Grows m (put m k v)
  Grows-put m k v j h = ground (arith, has-put m k j v)

  pub has-put_self : (m : Table K V) (k : K) (v : V) → has (put m k v) k ≡ true
  has-put_self m k v = ground (arith, has-put m k k v, e.beq_iff k k)

  pub Grows-update_all : (f : V → V) (m : Table K V) → Grows m (update_all f m)
  unfolding has
  Grows-update_all f m k h = ground (arith, get-update_all f m k)
