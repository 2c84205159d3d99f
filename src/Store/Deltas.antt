-- ===== src/Store/Deltas.antt =====
-- PriorOutputDelta of internal/store/fake.go: the event that it chooses.
mod Loops
use haro.Prelude.{String, true, false, List, ◌==◌, ◌≡◌, ◌⊎◌, All, nat_eq, string_eq}
use haro.Prelude.Table
use haro.Prelude.Table.{Table, values}
use haro.Store.Types.{Attempt, AttemptEvent}
use haro.Store.State.{FakeStore}
use haro.Store.Events.{rows, signed_less}
use haro.Store.Pages.{Among}
use haro.Store.Deltas.Loops.{is_delta}

module _ (s : FakeStore) (attempt_id : String) (cur : Attempt) where
  abbrev pub events_of : Attempt → List AttemptEvent
  events_of a = values (rows (Table.get s.attempt_events a.id))

  -- Another attempt of the same step.
  abbrev pub Prior : Attempt → Type 0
  Prior a =
      (a.execution_id ≡ cur.execution_id)
      × (a.step_id ≡ cur.step_id)
      × ((a.id == attempt_id) ≡ false)

  -- An output_delta of a prior attempt, which has none at a greater cursor.
  abbrev pub LastDelta : AttemptEvent → Type 0
  LastDelta e =
      (a : Attempt) × Prior a
      × Among e (events_of a)
      × (is_delta e ≡ true)
      × ((x : AttemptEvent)
          → Among x (events_of a)
          → is_delta x ≡ true
          → signed_less e.cursor x.cursor ≡ false)

  -- There is no prior attempt, or one of them has no output_delta.
  abbrev pub NoDelta : Type 0
  NoDelta =
      All (λ a. ¬ Prior a) (values s.attempts)
      ⊎ ((a : Attempt) × Prior a × All (λ x. is_delta x ≡ false) (events_of a))
