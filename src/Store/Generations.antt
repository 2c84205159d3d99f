-- ===== src/Store/Generations.antt =====
-- fakeGenerationsRepo of internal/store/fake.go. `create` stamps the caller's struct, which is the
-- result.
use haro.Prelude.{
  ℕ, String, none, some, List, [], ◌∷◌, Bool, not, ◌&&◌, ◌==◌, if◌then◌else◌, string_eq, nat_eq,
  any, select,
}
use haro.Prelude.Table
use haro.Prelude.Table.{values, update_all}
use haro.Store.Types.{
  Generation, Result, ok, err, not_found, unique_violation, foreign_key_violation,
}
use haro.Store.State.{FakeStore, step_key, default_to}

abbrev pub is_of_step : String → String → Generation → Bool
is_of_step exec_id step_id g = g.execution_id == exec_id && g.step_id == step_id

abbrev pub has_number : String → String → ℕ → Generation → Bool
has_number exec_id step_id number g = is_of_step exec_id step_id g && g.number == number

unfoldable pub create : FakeStore → String → Generation → Result Generation × FakeStore
create s now g =
    if Table.has s.generations g.id
    then (err unique_violation, s)
    else if any (has_number g.execution_id g.step_id g.number) (values s.generations)
    then (err unique_violation, s)
    else if not (Table.has s.steps (step_key g.execution_id g.step_id))
    then (err foreign_key_violation, s)
    else let stamped = record g { created_at = default_to now g.created_at } in
      (ok stamped, record s { generations = Table.put s.generations g.id stamped })

unfoldable pub get : FakeStore → String → Result Generation
get s id = elim (Table.get s.generations id) [ none ↦ err not_found | some g ↦ ok g ]

abbrev pub first : (Generation → Bool) → List Generation → Result Generation
first p [] = err not_found
first p (g ∷ l) = if p g then ok g else first p l

unfoldable pub get_by_number : FakeStore → String → String → ℕ → Result Generation
get_by_number s exec_id step_id number =
    first (has_number exec_id step_id number) (values s.generations)

unfoldable pub list_by_step : FakeStore → String → String → List Generation
list_by_step s exec_id step_id = select (is_of_step exec_id step_id) (values s.generations)

-- The body of the loop of `invalidate_by_step`.
unfoldable pub invalidate : String → String → String → String → Generation → Generation
invalidate now exec_id step_id invalidated_by g =
    if is_of_step exec_id step_id g
    then (elim g.invalidated_at [
      | none ↦ record g { invalidated_at = some now; invalidated_by_step = some invalidated_by }
      | some t ↦ g
    ])
    else g

unfoldable pub invalidate_by_step :
    FakeStore → String → String → String → String → Result Unit × FakeStore
invalidate_by_step s now exec_id step_id invalidated_by = (
  ok tt,
  record s {
    generations = update_all (invalidate now exec_id step_id invalidated_by) s.generations;
  },
)
