-- ===== src/Prelude/Names.antt =====
-- Lists of names as sets: membership, and how often names stand in lists.
use Prim.Native.Nat.{ℕ, ◌+◌, ◌≤◌}
use Prim.Native.String.{String}
use mathlib.Core.Path.{◌≡◌, refl}
use mathlib.Core.Logic.{inl, inr}
use mathlib.Core.Bool.{Bool, true, false, ◌||◌}
use mathlib.Core.List.{List, [], ◌∷◌, ◌++◌}
use native.Mathlib.Omega.{arith}
use text.Mathlib.TextEquality.{eq_iff}
use haro.Prelude.Tests.{◌==◌, string_eq, if◌then◌else◌, Bool-cases, ==_sound}
use haro.Prelude.Lists.{length, All}

abbrev pub mem : String → List String → Bool
mem z [] = false
mem z (x ∷ xs) = x == z || mem z xs

abbrev pub occurrences : String → List String → ℕ
occurrences z [] = 0
occurrences z (x ∷ xs) = (if x == z then 1 else 0) + occurrences z xs

pub occurrences-append :
    (z : String) (xs ys : List String)
    → occurrences z (xs ++ ys) ≡ occurrences z xs + occurrences z ys
occurrences-append z [] ys = omega arith
occurrences-append z (x ∷ xs) ys = omega (arith, occurrences-append z xs ys)

pub occurrences_absent : (z : String) (xs : List String) → mem z xs ≡ false → occurrences z xs ≡ 0
occurrences_absent z [] h = refl
occurrences_absent z (x ∷ xs) h =
    let rest = occurrences_absent z xs (ground (arith, h)) in ground (arith, rest, h)

pub occurrences_present : (z : String) (xs : List String) → mem z xs ≡ true → 1 ≤ occurrences z xs
occurrences_present z [] h = absurd cc
occurrences_present z (x ∷ xs) h = elim (Bool-cases (x == z)) [
  | inl same ↦ rw same (omega arith)
  | inr other ↦ let rest = occurrences_present z xs (rw other at h) in omega (arith, rest)
]

-- The elements that are not among `seen`.
abbrev pub misses : List String → List String → ℕ
misses seen [] = 0
misses seen (d ∷ ds) = (if mem d seen then 0 else 1) + misses seen ds

pub misses_none : (ds : List String) → misses [] ds ≡ length ds
misses_none [] = refl
misses_none (d ∷ ds) = omega (arith, misses_none ds)

pub misses-cons :
    (x : String) (seen ds : List String)
    → mem x seen ≡ false
    → misses (x ∷ seen) ds + occurrences x ds ≡ misses seen ds
misses-cons x seen [] h = refl
misses-cons x seen (d ∷ ds) h = elim (Bool-cases (x == d)) [
  | inl same ↦
      let e = ==_sound x d same in
      let fresh : mem d seen ≡ false = rw⁻¹ e h in
      let rest = misses-cons x seen ds h in
      ground (arith, rest, fresh, same, e, eq_iff x d, eq_iff d x)
  | inr other ↦
      let rest = misses-cons x seen ds h in ground (arith, rest, other, eq_iff x d, eq_iff d x)
]

pub All-mem :
    (P : String → Type 0) (xs : List String) (d : String) → All P xs → mem d xs ≡ true → P d
All-mem P [] d all h = absurd cc
All-mem P (x ∷ xs) d (first, rest) h = elim (Bool-cases (x == d)) [
  | inl same ↦ rw⁻¹ (==_sound x d same) first
  | inr other ↦ All-mem P xs d rest (rw other at h)
]
