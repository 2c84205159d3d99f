-- ===== src/Execution/Action.antt =====
-- A method of the engine over the store: it returns a value or an error, and leaves the store that
-- its calls have made, also beside an error.
use haro.Prelude.{Bool, true, false}
use haro.Store.Types.{Error, Result, ok, err}
use haro.Store.State.{FakeStore}

pub data EngineError : Type 0 where
  store_error : Error → EngineError
  reason_required only_virgin_pending no_attempts_allowed forbidden_transition : EngineError
  feedback_too_large : EngineError
  -- The fuel of a cascade, which always is enough.
  cascade_unfinished : EngineError

pub data Answer (A : Type 0) : Type 0 where
  done : A → Answer A
  failed : EngineError → Answer A

abbrev pub Action : Type 0 → Type 0
Action A = FakeStore → Answer A × FakeStore

abbrev pub answer : {A : Type 0} → Result A → Answer A
answer (ok a) = done a
answer (err e) = failed (store_error e)

abbrev pub pure : {A : Type 0} → A → Action A
pure a s = (done a, s)

abbrev pub raise : {A : Type 0} → EngineError → Action A
raise e s = (failed e, s)

-- A method that reads the store, and one that also writes it.
abbrev pub read : {A : Type 0} → (FakeStore → Result A) → Action A
read f s = (answer (f s), s)

abbrev pub gets : {A : Type 0} → (FakeStore → A) → Action A
gets f s = (done (f s), s)

abbrev answer_both : {A : Type 0} → Result A × FakeStore → Answer A × FakeStore
answer_both (r, s) = (answer r, s)

abbrev pub write : {A : Type 0} → (FakeStore → Result A × FakeStore) → Action A
write f s = answer_both (f s)

abbrev continue : {A B : Type 0} → Answer A × FakeStore → (A → Action B) → Answer B × FakeStore
continue (done a, s) f = f a s
continue (failed e, s) f = (failed e, s)

infixl 5 ◌>>=◌ ◌>>◌
abbrev pub ◌>>=◌ : {X Y : Type 0} → Action X → (X → Action Y) → Action Y
◌>>=◌ first next s = continue (first s) next

abbrev pub ◌>>◌ : {X Y : Type 0} → Action X → Action Y → Action Y
first >> second = first >>= λ _. second

-- `if test { return e }`
abbrev pub refuse_if : Bool → EngineError → Action Unit
refuse_if true e s = (failed e, s)
refuse_if false e s = (done tt, s)
