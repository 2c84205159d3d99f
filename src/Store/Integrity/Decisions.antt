-- ===== src/Store/Integrity/Decisions.antt =====
-- Creating and resolving interactions keeps the integrity of the store.
use haro.Prelude.{String, true, false, ◌≡◌, refl, ◌==◌, string_eq, nat_eq, arith, eq_iff}
use haro.Prelude.Table
use haro.Prelude.Table.{Table, Each, Each-put, Each-mono, Each-empty, get-put, has-put}
use haro.Store.Types.{Attempt, Interaction}
use haro.Store.State.{FakeStore, is_valid_interaction_type, is_valid_interaction_status}
use haro.Store.Interactions
use haro.Store.Interactions.{attempt_key}
use haro.Store.Integrity.{Integrity, InteractionRow}
use haro.Store.Integrity.Rules.{keeps_guard, keeps_require, keeps_found, keeps_if, Grows-put}
use haro.Store.Integrity.Leaves.{with_interactions-Integrity}

-- The index of an older interaction stays, since the new key was not in use.
indexed_later :
    (index : Table String String) (key id : String) (attempts : Table String Attempt) (k : String)
    (x : Interaction)
    → Table.has index key ≡ false
    → InteractionRow attempts index k x
    → InteractionRow attempts (Table.put index key id) k x
unfolding Table.has
indexed_later index key id attempts k x unused r = record {
  key = r.key;
  attempt = r.attempt;
  type = r.type;
  status = r.status;
  indexed =
      let old = attempt_key x.attempt_id x.idempotency_key in
      ground (arith, get-put index key old id, eq_iff key old, r.indexed);
}

resolved_valid : is_valid_interaction_status "resolved" ≡ true
unfolding is_valid_interaction_status
resolved_valid = refl

module _ (s : FakeStore) (h : Integrity s) where
  pub interactions_create-Integrity : (i : Interaction) → Integrity (Interactions.create s i).1
  unfolding Interactions.create
  interactions_create-Integrity i =
      let key = attempt_key i.attempt_id i.idempotency_key in
      let index = s.interactions_by_attempt_key in
      keeps_guard Integrity (Table.has s.interactions i.id) _ s _ h λ fresh.
        keeps_require Integrity (Table.has s.attempts i.attempt_id) _ s _ h λ attempt.
          keeps_require Integrity (is_valid_interaction_type i.type) _ s _ h λ type.
            keeps_require Integrity (is_valid_interaction_status i.status) _ s _ h λ status.
              keeps_guard Integrity (Table.has index key) _ s _ h λ unused.
                with_interactions-Integrity s h _ _
                  (Each-put s.interactions i.id _
                    (Each-mono h.interactions
                      λ k x r. indexed_later index key i.id s.attempts k x unused r)
                    (record {
                      key = refl;
                      attempt = attempt;
                      type = type;
                      status = status;
                      indexed = ground (arith, get-put index key key i.id, eq_iff key key);
                    }))
                  (Each-put index key i.id
                    (Each-mono h.index λ k x r. record {
                      interaction = Grows-put s.interactions i.id i x r.interaction;
                    })
                    (record {
                      interaction =
                          ground (arith, has-put s.interactions i.id i.id i, eq_iff i.id i.id);
                    }))

  pub interactions_resolve-Integrity :
      (now id idempotency_key decision : String)
      → Integrity (Interactions.resolve s now id idempotency_key decision).1
  unfolding Interactions.resolve
  interactions_resolve-Integrity now id idempotency_key decision =
      keeps_found Integrity (Table.get s.interactions id) _ s _ h λ i found.
        keeps_require Integrity (i.idempotency_key == idempotency_key) _ s _ h λ same.
          keeps_if Integrity (i.status == "resolved") _ _ h (
            let r = h.interactions.at id i found in
            with_interactions-Integrity s h _ _
              (Each-put s.interactions id _ h.interactions (record {
                key = r.key;
                attempt = r.attempt;
                type = r.type;
                status = resolved_valid;
                indexed = r.indexed;
              }))
              (Each-mono h.index λ k x row. record {
                interaction = Grows-put s.interactions id _ x row.interaction;
              }))
