-- ===== src/Store/Sorting/Order.antt =====
-- The order of the exchange sort of internal/store/fake.go, and ListTransitions, which uses it.
use haro.Prelude.{
  ℕ, zero, suc, ◌+◌, ◌≤◌, ◌≡◌, refl, sym, Bool, Bool-cases, inl, inr, List, [], ◌∷◌, All,
  if◌then◌else◌, length, ltb, String, string_eq, arith,
}
use mathlib.Core.Path.{subst}
use haro.Prelude.Table
use haro.Prelude.Table.{values}
use haro.Store.Types.{StepTransitionEvent}
use haro.Store.State.{FakeStore, step_key}
use haro.Store.Sorting.{carry, sort_rounds, exchange_sort}
use haro.Store.Events.{rows, cursor_less, rank, list_transitions}

module _ {A : Type 0} where
  -- How many elements pass a test.
  abbrev pub count : (A → Bool) → List A → ℕ
  count p [] = 0
  count p (x ∷ xs) = (if p x then 1 else 0) + count p xs

  -- Every element comes before those with a greater key.
  abbrev pub Ascending : (A → ℕ) → List A → Type 0
  Ascending key [] = Unit
  Ascending key (x ∷ xs) = All (λ y. key x ≤ key y) xs × Ascending key xs

  module _ (less : A → A → Bool) where
    carry-All :
        (P : A → Type 0) (x : A) (ys : List A)
        → P x
        → All P ys
        → P (carry less x ys).0 × All P (carry less x ys).1
    unfolding carry
    carry-All P x [] px pys = (px, tt)
    carry-All P x (y ∷ ys) px (py, pys) = elim (Bool-cases (less y x)) [
      | inl smaller ↦ let (first, rest) = carry-All P y ys py pys in rw smaller (first, (px, rest))
      | inr other ↦ let (first, rest) = carry-All P x ys px pys in rw other (first, (py, rest))
    ]

    length-carry : (x : A) (ys : List A) → length (carry less x ys).1 ≡ length ys
    unfolding carry
    length-carry x [] = refl
    length-carry x (y ∷ ys) = omega (arith, length-carry (if less y x then y else x) ys)

    count-carry :
        (p : A → Bool) (x : A) (ys : List A)
        → count p ((carry less x ys).0 ∷ (carry less x ys).1) ≡ count p (x ∷ ys)
    unfolding carry
    count-carry p x [] = refl
    count-carry p x (y ∷ ys) = elim (Bool-cases (less y x)) [
      | inl smaller ↦ rw smaller (omega (arith, count-carry p y ys))
      | inr other ↦ rw other (omega (arith, count-carry p x ys))
    ]

    sort_rounds-All : (P : A → Type 0) (n : ℕ) (l : List A) → All P l → All P (sort_rounds less n l)
    unfolding sort_rounds
    sort_rounds-All P zero l h = h
    sort_rounds-All P (suc n) [] h = tt
    sort_rounds-All P (suc n) (x ∷ xs) (px, pxs) =
        let (first, rest) = carry-All P x xs px pxs in
        (first, sort_rounds-All P n (carry less x xs).1 rest)

    count-sort_rounds :
        (p : A → Bool) (n : ℕ) (l : List A) → count p (sort_rounds less n l) ≡ count p l
    unfolding sort_rounds
    count-sort_rounds p zero l = refl
    count-sort_rounds p (suc n) [] = refl
    count-sort_rounds p (suc n) (x ∷ xs) =
        omega (arith, count-carry p x xs, count-sort_rounds p n (carry less x xs).1)

  module _ (key : A → ℕ) where
    abbrev below : A → A → Bool
    below a b = ltb (key a) (key b)

    Weaken-All : (m n : ℕ) (l : List A) → m ≤ n → All (λ y. n ≤ key y) l → All (λ y. m ≤ key y) l
    Weaken-All m n [] h all_n = tt
    Weaken-All m n (y ∷ ys) h (first, rest) = (omega arith, Weaken-All m n ys h rest)

    abbrev Least : A → A × List A → Type 0
    Least x r = (key r.0 ≤ key x) × All (λ y. key r.0 ≤ key y) r.1

    carry-Least : (x : A) (ys : List A) → Least x (carry below x ys)
    unfolding carry
    carry-Least x [] = (omega arith, tt)
    carry-Least x (y ∷ ys) = elim (Bool-cases (below y x)) [
      | inl smaller ↦
          let (least, rest) = carry-Least y ys in
          let y≤x : key y ≤ key x = ground arith in
          let r : A × List A = ((carry below y ys).0, x ∷ (carry below y ys).1) in
          let step : carry below x (y ∷ ys) ≡ r = rw smaller refl in
          subst (Least x) (sym step) (omega arith, (omega arith, rest))
      | inr other ↦
          let (least, rest) = carry-Least x ys in
          let x≤y : key x ≤ key y = ground arith in
          let r : A × List A = ((carry below x ys).0, y ∷ (carry below x ys).1) in
          let step : carry below x (y ∷ ys) ≡ r = rw other refl in
          subst (Least x) (sym step) (least, (omega arith, rest))
    ]

    sort_rounds-Ascending :
        (n : ℕ) (l : List A) → length l ≤ n → Ascending key (sort_rounds below n l)
    unfolding sort_rounds
    sort_rounds-Ascending zero [] h = tt
    sort_rounds-Ascending zero (x ∷ xs) h = absurd (omega arith)
    sort_rounds-Ascending (suc n) [] h = tt
    sort_rounds-Ascending (suc n) (x ∷ xs) h =
        let (least, rest) = carry-Least x xs in
        (
          sort_rounds-All below (λ y. key (carry below x xs).0 ≤ key y) n (carry below x xs).1 rest,
          sort_rounds-Ascending n (carry below x xs).1 (omega (arith, length-carry below x xs)),
        )

-- ListTransitions answers the events of the step in the order of their cursors, and each of them as
-- often as the store has it: every test on events counts the same in both.
pub list_transitions-Ascending :
    (s : FakeStore) (exec_id step_id : String) (p : StepTransitionEvent → Bool)
    → Ascending (λ e. rank e.cursor) (list_transitions s exec_id step_id)
      × (count p (list_transitions s exec_id step_id)
          ≡ count p (values (rows (Table.get s.transition_events (step_key exec_id step_id)))))
unfolding list_transitions exchange_sort
list_transitions-Ascending s exec_id step_id p =
    let l = values (rows (Table.get s.transition_events (step_key exec_id step_id))) in
    (
      sort_rounds-Ascending (λ e. rank e.cursor) (length l) l (omega arith),
      count-sort_rounds cursor_less p (length l) l,
    )
