-- ===== src/Store/Interactions.antt =====
-- fakeInteractionsRepo of internal/store/fake.go: human decisions with compare-and-set.
use Prim.Native.String.{◌++◌}
use haro.Prelude.{String, none, some, not, if◌then◌else◌, ◌==◌, string_eq}
use haro.Prelude.Table
use haro.Store.Types.{
  Interaction, Result, ok, err, not_found, unique_violation, foreign_key_violation, check_violation,
}
use haro.Store.State.{FakeStore, nul, is_valid_interaction_type, is_valid_interaction_status}

unfoldable pub attempt_key : String → String → String
attempt_key attempt_id idempotency_key = attempt_id ++ (nul ++ idempotency_key)

unfoldable pub create : FakeStore → Interaction → Result Unit × FakeStore
create s i =
    let key = attempt_key i.attempt_id i.idempotency_key in
    if Table.has s.interactions i.id
    then (err unique_violation, s)
    else if not (Table.has s.attempts i.attempt_id)
    then (err foreign_key_violation, s)
    else if not (is_valid_interaction_type i.type)
    then (err check_violation, s)
    else if not (is_valid_interaction_status i.status)
    then (err check_violation, s)
    else if Table.has s.interactions_by_attempt_key key
    then (err unique_violation, s)
    else (
      ok tt,
      record s {
        interactions = Table.put s.interactions i.id i;
        interactions_by_attempt_key = Table.put s.interactions_by_attempt_key key i.id;
      },
    )

unfoldable pub get : FakeStore → String → Result Interaction
get s id = elim (Table.get s.interactions id) [ none ↦ err not_found | some i ↦ ok i ]

unfoldable pub resolve :
    FakeStore → String → String → String → String → Result Interaction × FakeStore
resolve s now id idempotency_key decision = elim (Table.get s.interactions id) [
  | none ↦ (err not_found, s)
  | some i ↦
      if not (i.idempotency_key == idempotency_key)
      then (err unique_violation, s)
      else if i.status == "resolved"
      then (ok i, s)
      else let resolved = record i {
        status = "resolved";
        decision = some decision;
        resolved_at = some now;
      } in
        (ok resolved, record s { interactions = Table.put s.interactions id resolved })
]
