-- ===== src/Store/Pages.antt =====
-- The pages of ListAttemptEvents in internal/store/fake.go.
use haro.Prelude.{
  ℕ, zero, suc, ◌+◌, ◌^◌, ◌≤◌, ◌<◌, String, true, none, some, List, [], ◌∷◌, ◌≡◌, ◌↔◌, ◌⊎◌, inl,
  inr, refl, ap, sym, ◌∙◌, arith, nat_eq, string_eq, ◌==◌, Bool-cases, Option-cases,
}
use haro.Prelude.Table
use haro.Prelude.Table.{Table, has}
use haro.Store.Types.{AttemptEvent, ok, i64}
use haro.Store.State.{FakeStore}
use haro.Store.Events.{rows, page, page_limit, page_length, list_attempt_events}
use haro.Store.Integrity.{Integrity}

abbrev pub Among : AttemptEvent → List AttemptEvent → Type 0
Among e [] = ⊥
Among e (x ∷ l) = (x ≡ e) ⊎ Among e l

-- The cursors rise strictly, from `low` on.
abbrev pub Rising : ℕ → List AttemptEvent → Type 0
Rising low [] = Unit
Rising low (e ∷ l) = (low ≤ e.cursor) × Rising (e.cursor + 1) l

-- The event is stored at its cursor, which is one of the `limit` from `since` on.
abbrev pub OnPage : Table ℕ AttemptEvent → ℕ → ℕ → AttemptEvent → Type 0
OnPage m since limit e =
    (since ≤ e.cursor) × (e.cursor < since + limit) × (Table.get m e.cursor ≡ some e)

-- Each event stands at its own cursor.
abbrev Placed : Table ℕ AttemptEvent → Type 0
Placed m = (c : ℕ) (e : AttemptEvent) → Table.get m c ≡ some e → c ≡ e.cursor

Rising-later : (c : ℕ) (l : List AttemptEvent) → Rising (c + 1) l → Rising c l
Rising-later c [] h = h
Rising-later c (e ∷ l) (low, h) = (omega (arith, low), h)

module _ (m : Table ℕ AttemptEvent) (c n : ℕ) (small : c + suc n < 2 ^ 63) where
  next : i64 (c + 1) ≡ c + 1
  next = omega (arith, small)

  page_free : Table.get m c ≡ none → page m c (suc n) ≡ page m (c + 1) n
  unfolding page
  page_free free = rw (free, page) (ap (λ k. page m k n) next)

  page_found : (e : AttemptEvent) → Table.get m c ≡ some e → page m c (suc n) ≡ e ∷ page m (c + 1) n
  unfolding page
  page_found e found = rw (found, page) (ap (λ k. e ∷ page m k n) next)

module _ (m : Table ℕ AttemptEvent) (placed : Placed m) where
  page-Rising : (c n : ℕ) → c + n < 2 ^ 63 → Rising c (page m c n)
  unfolding page
  page-Rising c zero small = tt
  page-Rising c (suc n) small =
      let later = page-Rising (c + 1) n (omega (arith, small)) in
      elim (Option-cases (Table.get m c)) [
        | inl free ↦ rw (page_free m c n small free) (Rising-later c (page m (c + 1) n) later)
        | inr (e, found) ↦
            let here = placed c e found in
            rw (page_found m c n small e found) (omega (arith, here), rw (← here) later)
      ]

  page_sound : (c n : ℕ) (e : AttemptEvent) → c + n < 2 ^ 63 → Among e (page m c n) → OnPage m c n e
  unfolding page
  page_sound c zero e small h = absurd h
  page_sound c (suc n) e small h =
      let later : Among e (page m (c + 1) n) → OnPage m c (suc n) e = λ k.
        let (low, high, at) = page_sound (c + 1) n e (omega (arith, small)) k in
        (omega (arith, low), omega (arith, high), at) in
      elim (Option-cases (Table.get m c)) [
        | inl free ↦ later (rw (page_free m c n small free) at h)
        | inr (x, found) ↦ elim (rw (page_found m c n small x found) at h) [
          | inl same ↦
              let here = placed c x found in
              let at = sym (ap (λ j. Table.get m j) here) ∙ found in
              rw (← same) (omega (arith, here), omega (arith, here), at)
          | inr k ↦ later k
        ]
      ]

  page_complete :
      (c n : ℕ) (e : AttemptEvent) → c + n < 2 ^ 63 → OnPage m c n e → Among e (page m c n)
  page_complete c zero e small (low, high, found) = absurd (omega (arith, low, high))
  page_complete c (suc n) e small (low, high, found) =
      let later : c < e.cursor → Among e (page m (c + 1) n) = λ behind.
        page_complete (c + 1) n e (omega (arith, small))
          (omega (arith, behind), omega (arith, high), found) in
      elim (Bool-cases (e.cursor == c)) [
        | inl same ↦
            let here : e.cursor ≡ c = ground (arith, same) in
            let there = sym (ap (λ j. Table.get m j) here) ∙ found in
            rw (page_found m c n small e there) (inl refl)
        | inr apart ↦
            let k = later (ground (arith, low, apart)) in
            elim (Option-cases (Table.get m c)) [
              | inl free ↦ rw (page_free m c n small free) k
              | inr (x, there) ↦ rw (page_found m c n small x there) (inr k)
            ]
      ]

rows_nothing : (c : ℕ) (e : AttemptEvent) → ¬ (Table.get (rows none) c ≡ some e)
unfolding Table.get
rows_nothing c e h = absurd cc

page_length_lem :
    (since limit : ℕ) → 1 ≤ limit → since + limit < 2 ^ 63 → page_length since limit ≡ limit
unfolding page_length
page_length_lem since limit some_ small =
    let first : i64 (since + 2 ^ 63) ≡ since + 2 ^ 63 = omega (arith, small) in
    let last : i64 (i64 (since + limit) + 2 ^ 63) ≡ since + limit + 2 ^ 63 = omega (arith, small) in
    rw (first, last) (ground (arith, some_))

rows-Placed :
    (s : FakeStore) (attempt_id : String)
    → Integrity s
    → Placed (rows (Table.get s.attempt_events attempt_id))
rows-Placed s attempt_id h c e found = elim (Option-cases (Table.get s.attempt_events attempt_id)) [
  | inl free ↦ absurd (rows_nothing c e (rw free at found))
  | inr (m, there) ↦
      let events = h.attempt_events.at attempt_id m there in
      (events.rows.at c e (rw there at found)).place
]

-- In a store of which Integrity holds, for an attempt that is there, with a limit from 1 to 128 and
-- cursors that stay below 2^63: ListAttemptEvents answers exactly the events that stand at the
-- cursors from `since_cursor` to `since_cursor + limit - 1`, in strictly rising order of their
-- cursors.
pub list_attempt_events_lem :
    (s : FakeStore) (attempt_id : String) (since_cursor limit : ℕ)
    → Integrity s
    → has s.attempts attempt_id ≡ true
    → 1 ≤ limit
    → limit ≤ 128
    → since_cursor + limit < 2 ^ 63
    → (out : List AttemptEvent) × (list_attempt_events s attempt_id since_cursor limit ≡ ok out)
      × Rising since_cursor out
      × ((e : AttemptEvent)
          → Among e out
            ↔ OnPage (rows (Table.get s.attempt_events attempt_id)) since_cursor limit e)
unfolding list_attempt_events page_limit
list_attempt_events_lem s attempt_id since_cursor limit h there some_ few small =
    let m = rows (Table.get s.attempt_events attempt_id) in
    let placed = rows-Placed s attempt_id h in
    let whole : page_limit limit ≡ limit = ground (arith, some_, few) in
    let long = page_length_lem since_cursor limit some_ small in
    (
      page m since_cursor limit,
      rw (there, list_attempt_events) (rw (whole, long) refl),
      page-Rising m placed since_cursor limit small,
      λ e. (
        page_sound m placed since_cursor limit e small,
        page_complete m placed since_cursor limit e small,
      ),
    )
