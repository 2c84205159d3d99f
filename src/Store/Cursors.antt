-- ===== src/Store/Cursors.antt =====
-- The cursors that fakeEventsRepo of internal/store/fake.go gives out.
use haro.Prelude.{
  ℕ, ◌+◌, ◌^◌, ◌≤◌, ◌<◌, String, none, some, [], ◌∷◌, ◌≡◌, refl, ◌==◌, leb, ltb, ◌&&◌,
  if◌then◌else◌, Bool-cases, Option-cases, inl, inr, string_eq, nat_eq, nat_beq_iff, arith,
}
use haro.Prelude.Table
use haro.Prelude.Table.{Table, put, get-put, get-put_self}
use haro.Store.Types.{AttemptEvent, StepTransitionEvent, ok}
use haro.Store.State.{FakeStore, step_key, default_to}
use haro.Store.Events.{rows, past_max, next_transition_cursor, create_transition}

module _ {V : Type 0} where
  past_max_grows : (next : ℕ) (m : Table ℕ V) → next ≤ past_max next m
  unfolding past_max
  past_max_grows next [] = omega arith
  past_max_grows next ((k, e) ∷ m) = elim (Bool-cases (ltb k (2 ^ 63) && leb next k)) [
    | inl above ↦ rw (above, past_max) (let ih = past_max_grows (k + 1) m in ground arith)
    | inr below ↦ rw (below, past_max) (past_max_grows next m)
  ]

  -- Every cursor in use that is not negative is below `past_max`.
  pub lt-past_max :
      (next : ℕ) (m : Table ℕ V) (k : ℕ) (e : V)
      → k < 2 ^ 63
      → Table.get m k ≡ some e
      → k < past_max next m
  unfolding past_max Table.get
  lt-past_max next [] k e small found = cc
  lt-past_max next ((j, d) ∷ m) k e small found =
      let next' = if ltb j (2 ^ 63) && leb next j then j + 1 else next in
      elim (Bool-cases (j == k)) [
        | inl here ↦ let grown = past_max_grows next' m in ground (arith, nat_beq_iff j k, grown)
        | inr later ↦ lt-past_max next' m k e small (ground arith)
      ]

  pub get-past_max : (m : Table ℕ V) → past_max 0 m < 2 ^ 63 → Table.get m (past_max 0 m) ≡ none
  get-past_max m small = elim (Option-cases (Table.get m (past_max 0 m))) [
    | inl free ↦ free
    | inr (e, used) ↦ absurd (omega (arith, lt-past_max 0 m (past_max 0 m) e small used))
  ]

  -- The next cursor after a row was written at the next cursor.
  past_max-put :
      (next : ℕ) (m : Table ℕ V) (k : ℕ) (e : V)
      → Table.get m k ≡ none
      → past_max next m ≤ k
      → k < 2 ^ 63
      → past_max next (put m k e) ≡ k + 1
  unfolding past_max Table.get put
  past_max-put next [] k e free above small = ground arith
  past_max-put next ((j, d) ∷ m) k e free above small = elim (Bool-cases (j == k)) [
    | inl same ↦ absurd (ground arith)
    | inr other ↦ rw other (
        past_max-put (if ltb j (2 ^ 63) && leb next j then j + 1 else next) m k e (ground arith)
          above small)
  ]

-- The event rows of one step.
abbrev pub transition_rows : FakeStore → String → String → Table ℕ StepTransitionEvent
transition_rows s exec_id step_id = rows (Table.get s.transition_events (step_key exec_id step_id))

abbrev pub attempt_rows : FakeStore → String → Table ℕ AttemptEvent
attempt_rows s attempt_id = rows (Table.get s.attempt_events attempt_id)

module _ (s : FakeStore) (now : String) (e : StepTransitionEvent) where
  abbrev events : Table ℕ StepTransitionEvent
  events = transition_rows s e.execution_id e.step_id

  abbrev stamped : StepTransitionEvent
  stamped = record e { occurred_at = default_to now e.occurred_at }

  -- While the cursors of a step stay below 2^63 - 1, a transition event that was numbered by
  -- `NextTransitionCursor` is always written, as the only change of the store.
  pub create_transition_next :
      e.cursor ≡ next_transition_cursor s e.execution_id e.step_id
      → past_max 0 events < 2 ^ 63
      → create_transition s now e ≡ (
        ok stamped,
        record s {
          transition_events =
              Table.put s.transition_events
                (step_key e.execution_id e.step_id)
                (put events e.cursor stamped);
        },
      )
  unfolding create_transition next_transition_cursor Table.has
  create_transition_next numbered small =
      let free : Table.get events e.cursor ≡ none = rw numbered (get-past_max events small) in
      rw free refl

  -- While the cursors of a step stay below 2^63 - 2, the number that `NextTransitionCursor` gives
  -- after a transition event was written at the number it gave before is the next one.
  pub next_transition_cursor-create :
      e.cursor ≡ next_transition_cursor s e.execution_id e.step_id
      → past_max 0 events + 1 < 2 ^ 63
      → next_transition_cursor (create_transition s now e).1 e.execution_id e.step_id ≡ e.cursor + 1
  unfolding next_transition_cursor
  next_transition_cursor-create numbered small =
      let k = step_key e.execution_id e.step_id in
      let first : past_max 0 events ≡ e.cursor = omega (arith, numbered) in
      let free : Table.get events e.cursor ≡ none =
        rw numbered (get-past_max events (omega arith)) in
      let last : past_max 0 (put events e.cursor stamped) ≡ e.cursor + 1 =
        past_max-put 0 events e.cursor stamped free (omega (arith, first)) (omega (arith, first)) in
      rw
        (
          create_transition_next numbered (omega arith),
          get-put_self s.transition_events k (put events e.cursor stamped),
          last,
        )
        (omega (arith, first))
