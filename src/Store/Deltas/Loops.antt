-- ===== src/Store/Deltas/Loops.antt =====
-- The two loops of PriorOutputDelta in internal/store/fake.go.
use haro.Prelude.{
  ℕ, Bool, true, false, Option, none, some, List, [], ◌∷◌, ◌==◌, ◌≡◌, ◌≢◌, ◌⊎◌, All, inl, inr, refl,
  sym, arith, nat_eq, string_eq, Bool-cases,
}
use haro.Store.Types.{Attempt, AttemptEvent}
use haro.Store.Attempts.{latest, is_later}
use haro.Store.Events.{signed_less, latest_delta}
use haro.Store.Pages.{Among}

-- An attempt that the first loop chooses passes its test.
pub latest_sound :
    (p : Attempt → Bool) (current : Option Attempt) (l : List Attempt) (a : Attempt)
    → ((c : Attempt) → current ≡ some c → p c ≡ true)
    → latest p current l ≡ some a
    → p a ≡ true
unfolding latest
latest_sound p current [] a h e = h a e
latest_sound p none (x ∷ l) a h e = elim (Bool-cases (p x)) [
  | inl good ↦
      latest_sound p (some x) l a (λ c k. let same : x ≡ c = cc in rw⁻¹ same good)
        (rw (good, latest) at e)
  | inr bad ↦ latest_sound p none l a h (rw (bad, latest) at e)
]
latest_sound p (some y) (x ∷ l) a h e = elim (Bool-cases (p x)) [
  | inl good ↦ elim (Bool-cases (is_later x y)) [
    | inl later ↦
        latest_sound p (some x) l a (λ c k. let same : x ≡ c = cc in rw⁻¹ same good)
          (rw (good, later, latest) at e)
    | inr before ↦ latest_sound p (some y) l a h (rw (good, before, latest) at e)
  ]
  | inr bad ↦ latest_sound p (some y) l a h (rw (bad, latest) at e)
]

abbrev pub is_delta : AttemptEvent → Bool
is_delta e = e.event_type == "output_delta"

-- Of what the second loop chooses from: not behind `current`, nor behind a delta of the list.
pub record Greatest (current : Option AttemptEvent) (l : List AttemptEvent) (e : AttemptEvent)
    : Type 0 where
  pub before : (c : AttemptEvent) → current ≡ some c → signed_less e.cursor c.cursor ≡ false
  pub others :
      (x : AttemptEvent) → Among x l → is_delta x ≡ true → signed_less e.cursor x.cursor ≡ false
  pub chosen : (current ≡ some e) ⊎ (Among e l × (is_delta e ≡ true))

Greatest-skip :
    (current : Option AttemptEvent) (x : AttemptEvent) (l : List AttemptEvent) (e : AttemptEvent)
    → (is_delta x ≡ true → signed_less e.cursor x.cursor ≡ false)
    → Greatest current l e
    → Greatest current (x ∷ l) e
Greatest-skip current x l e behind g = record {
  before = g.before;
  others = λ y k delta. elim k [
    | inl same ↦ rw⁻¹ same (behind (rw (sym same) at delta))
    | inr among ↦ g.others y among delta
  ];
  chosen = elim g.chosen [ inl same ↦ inl same | inr (among, delta) ↦ inr (inr among, delta) ];
}

-- The delta `x` takes the place of an earlier one.
Greatest-take :
    (current : Option AttemptEvent) (x : AttemptEvent) (l : List AttemptEvent) (e : AttemptEvent)
    → is_delta x ≡ true
    → ((c : AttemptEvent) → current ≡ some c → signed_less c.cursor x.cursor ≡ true)
    → Greatest (some x) l e
    → Greatest current (x ∷ l) e
Greatest-take current x l e delta later g =
    let first : signed_less e.cursor x.cursor ≡ false = g.before x refl in
    record {
      before = λ c k. let less = later c k in ground (arith, first, less);
      others = λ y k d. elim k [ inl same ↦ rw⁻¹ same first | inr among ↦ g.others y among d ];
      chosen = elim g.chosen [
        | inl same ↦ let x≡e : x ≡ e = cc in inr (inl x≡e, rw⁻¹ x≡e delta)
        | inr (among, d) ↦ inr (inr among, d)
      ];
    }

still : (n : ℕ) → signed_less n n ≡ false
still n = ground arith

pub latest_delta-Greatest :
    (current : Option AttemptEvent) (l : List AttemptEvent) (e : AttemptEvent)
    → latest_delta current l ≡ some e
    → Greatest current l e
unfolding latest_delta
latest_delta-Greatest current [] e h = record {
  before = λ c k. let same : c ≡ e = cc in rw same (still e.cursor);
  others = λ x k d. absurd k;
  chosen = inl h;
}
latest_delta-Greatest none (x ∷ l) e h = elim (Bool-cases (is_delta x)) [
  | inl delta ↦
      Greatest-take none x l e delta (λ c k. absurd cc)
        (latest_delta-Greatest (some x) l e (rw (delta, latest_delta) at h))
  | inr other ↦
      Greatest-skip none x l e (λ d. absurd cc)
        (latest_delta-Greatest none l e (rw (other, latest_delta) at h))
]
latest_delta-Greatest (some y) (x ∷ l) e h = elim (Bool-cases (is_delta x)) [
  | inl delta ↦ elim (Bool-cases (signed_less y.cursor x.cursor)) [
    | inl less ↦
        Greatest-take (some y) x l e delta (λ c k. let same : y ≡ c = cc in rw⁻¹ same less)
          (latest_delta-Greatest (some x) l e (rw (delta, less, latest_delta) at h))
    | inr more ↦
        let g = latest_delta-Greatest (some y) l e (rw (delta, more, latest_delta) at h) in
        let first : signed_less e.cursor y.cursor ≡ false = g.before y refl in
        Greatest-skip (some y) x l e (λ d. ground (arith, first, more)) g
  ]
  | inr other ↦
      Greatest-skip (some y) x l e (λ d. absurd cc)
        (latest_delta-Greatest (some y) l e (rw (other, latest_delta) at h))
]

latest_found : (p : Attempt → Bool) (y : Attempt) (l : List Attempt) → latest p (some y) l ≢ none
unfolding latest
latest_found p y [] h = absurd cc
latest_found p y (x ∷ l) h = elim (Bool-cases (p x)) [
  | inl good ↦ elim (Bool-cases (is_later x y)) [
    | inl later ↦ latest_found p x l (rw (good, later, latest) at h)
    | inr before ↦ latest_found p y l (rw (good, before, latest) at h)
  ]
  | inr bad ↦ latest_found p y l (rw (bad, latest) at h)
]

pub latest_nothing :
    (p : Attempt → Bool) (Q : Attempt → Type 0) (l : List Attempt)
    → ((x : Attempt) → p x ≡ false → Q x)
    → latest p none l ≡ none
    → All Q l
unfolding latest
latest_nothing p Q [] k h = tt
latest_nothing p Q (x ∷ l) k h = elim (Bool-cases (p x)) [
  | inl good ↦ absurd (latest_found p x l (rw (good, latest) at h))
  | inr bad ↦ (k x bad, latest_nothing p Q l k (rw (bad, latest) at h))
]

latest_delta_found : (y : AttemptEvent) (l : List AttemptEvent) → latest_delta (some y) l ≢ none
unfolding latest_delta
latest_delta_found y [] h = absurd cc
latest_delta_found y (x ∷ l) h = elim (Bool-cases (is_delta x)) [
  | inl delta ↦ elim (Bool-cases (signed_less y.cursor x.cursor)) [
    | inl less ↦ latest_delta_found x l (rw (delta, less, latest_delta) at h)
    | inr more ↦ latest_delta_found y l (rw (delta, more, latest_delta) at h)
  ]
  | inr other ↦ latest_delta_found y l (rw (other, latest_delta) at h)
]

pub latest_delta_nothing :
    (l : List AttemptEvent) → latest_delta none l ≡ none → All (λ x. is_delta x ≡ false) l
unfolding latest_delta
latest_delta_nothing [] h = tt
latest_delta_nothing (x ∷ l) h = elim (Bool-cases (is_delta x)) [
  | inl delta ↦ absurd (latest_delta_found x l (rw (delta, latest_delta) at h))
  | inr other ↦ (other, latest_delta_nothing l (rw (other, latest_delta) at h))
]
