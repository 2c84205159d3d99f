-- ===== src/Store/Sorting.antt =====
-- The exchange sort that internal/store/fake.go writes out twice: for each i, and each j > i, swap
-- out[i] and out[j] if out[j] is smaller. `carry` is the loop over j, with out[i] in hand.
pub mod Order
use haro.Prelude.{ℕ, zero, suc, Bool, List, [], ◌∷◌, if◌then◌else◌, length}

module _ {ℓ} {A : Type ℓ} (less : A → A → Bool) where
  unfoldable pub carry : A → List A → A × List A
  carry x [] = (x, [])
  carry x (y ∷ ys) =
      let (least, rest) = carry (if less y x then y else x) ys in
      (least, (if less y x then x else y) ∷ rest)

  -- The loop over i, on one round for each place.
  unfoldable pub sort_rounds : ℕ → List A → List A
  sort_rounds zero l = l
  sort_rounds (suc n) [] = []
  sort_rounds (suc n) (x ∷ xs) = let (least, rest) = carry x xs in least ∷ sort_rounds n rest

  unfoldable pub exchange_sort : List A → List A
  unfolding sort_rounds carry
  exchange_sort l = sort_rounds (length l) l
