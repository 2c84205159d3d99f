-- ===== src/Store/Resolutions.antt =====
-- The compare-and-set of human decisions in internal/store/fake.go, over the calls of the store.
use haro.Prelude.{
  String, Bool, true, false, List, [], ◌∷◌, none, some, Bool-cases, Option-cases, inl, inr, ◌==◌,
  ◌≡◌, ap, not, refl, string_eq, nat_eq, arith, eq_iff,
}
use haro.Prelude.Table
use haro.Prelude.Table.{Table, get-put, get-put_self, put, has}
use haro.Store.Integrity.Rules.{keeps_guard, keeps_found}
use haro.Store.Types.{Interaction, ok, err, not_found, unique_violation}
use haro.Store.State.{FakeStore}
use haro.Store.Projects
use haro.Store.Executions
use haro.Store.Steps
use haro.Store.Attempts
use haro.Store.Generations
use haro.Store.Events
use haro.Store.Transports
use haro.Store.PathClaims
use haro.Store.Leases
use haro.Store.Interactions
use haro.Store.Interactions.{resolve}
use haro.Store.Calls.{
  Call, call, perform, perform_all, project_create, execution_create, execution_update_status,
  step_create, step_update_status, step_update_generation, step_set_pending_feedback,
  attempt_create, attempt_update_status, generation_create, generation_invalidate_by_step,
  event_create, transition_create, transport_put, claim_acquire, claim_release, lease_acquire,
  lease_renew, lease_release, interaction_create, interaction_resolve,
}

-- The row after it was resolved.
abbrev resolution : Interaction → String → String → Interaction
resolution i now decision = record i {
  status = "resolved";
  decision = some decision;
  resolved_at = some now;
}

module _ (s : FakeStore) (now id key decision : String) where
  resolve_missing :
      Table.get s.interactions id ≡ none → (resolve s now id key decision).0 ≡ err not_found
  unfolding resolve
  resolve_missing free = rw (free, resolve) refl

  module _ (i : Interaction) (found : Table.get s.interactions id ≡ some i) where
    resolve_other_key :
        (i.idempotency_key == key) ≡ false
        → (resolve s now id key decision).0 ≡ err unique_violation
    unfolding resolve
    resolve_other_key other = rw (found, resolve) (rw other refl)

    resolve_again :
        (i.idempotency_key == key) ≡ true
        → (i.status == "resolved") ≡ true
        → resolve s now id key decision ≡ (ok i, s)
    unfolding resolve
    resolve_again same before = rw (found, resolve) (rw (same, before) refl)

    resolve_open :
        (i.idempotency_key == key) ≡ true
        → (i.status == "resolved") ≡ false
        → resolve s now id key decision ≡ (
          ok (resolution i now decision),
          record s { interactions = put s.interactions id (resolution i now decision) },
        )
    unfolding resolve
    resolve_open same before = rw (found, resolve) (rw (same, before) refl)

-- The calls that leave the interactions alone.
abbrev elsewhere : Call → Bool
elsewhere (interaction_create i) = false
elsewhere (interaction_resolve now id key decision) = false
elsewhere c = true

elsewhere-interactions :
    (s : FakeStore) (c : Call) → elsewhere c ≡ true → (perform s c).interactions ≡ s.interactions
unfolding perform call Projects.create Executions.create Executions.update_status Steps.create
    Steps.update_status Steps.update_generation Steps.set_pending_feedback Attempts.create
    Attempts.update_status Generations.create Generations.invalidate_by_step
    Events.create_attempt_event Events.create_transition Transports.put PathClaims.acquire
    PathClaims.release Leases.acquire Leases.renew Leases.release Leases.set_expiry
elsewhere-interactions s (project_create now id root_path) h = ground arith
elsewhere-interactions s (execution_create now e) h = ground arith
elsewhere-interactions s (execution_update_status now id status) h = ground arith
elsewhere-interactions s (step_create x) h = ground arith
elsewhere-interactions s (step_update_status exec_id step_id status) h = ground arith
elsewhere-interactions s (step_update_generation exec_id step_id gen) h = ground arith
elsewhere-interactions s (step_set_pending_feedback exec_id step_id feedback) h = ground arith
elsewhere-interactions s (attempt_create now a) h = ground arith
elsewhere-interactions s (attempt_update_status now id status ended_at term digest) h = ground arith
elsewhere-interactions s (generation_create now g) h = ground arith
elsewhere-interactions s (generation_invalidate_by_step now exec_id step_id by) h = ground arith
elsewhere-interactions s (event_create now e) h = ground arith
elsewhere-interactions s (transition_create now e) h = ground arith
elsewhere-interactions s (transport_put t) h = ground arith
elsewhere-interactions s (claim_acquire now c) h = ground arith
elsewhere-interactions s (claim_release now project_id path execution_id step_id) h = ground arith
elsewhere-interactions s (lease_acquire now execution_id step_id holder) h = ground arith
elsewhere-interactions s (lease_renew now execution_id step_id holder token) h = ground arith
elsewhere-interactions s (lease_release now execution_id step_id holder token) h = ground arith
elsewhere-interactions s (interaction_create i) h = absurd cc
elsewhere-interactions s (interaction_resolve now id key decision) h = absurd cc

module _ (id : String) (i : Interaction) (over : (i.status == "resolved") ≡ true) where
  -- The store has the row of a resolved interaction.
  abbrev Settled : FakeStore → Type 0
  Settled s = Table.get s.interactions id ≡ some i

  create-Settled :
      (s : FakeStore) (x : Interaction) → Settled s → Settled (Interactions.create s x).1
  unfolding Interactions.create has
  create-Settled s x found = ground (arith, found, get-put s.interactions x.id id x, eq_iff x.id id)

  resolve-Settled :
      (s : FakeStore) (now other key decision : String)
      → Settled s
      → Settled (resolve s now other key decision).1
  unfolding resolve
  resolve-Settled s now other key decision found =
      keeps_found Settled (Table.get s.interactions other) _ s _ found λ x there.
        keeps_guard Settled (not (x.idempotency_key == key)) _ s _ found λ right.
          elim (Bool-cases (x.status == "resolved")) [
            | inl done ↦ rw done found
            | inr undecided ↦ elim (Bool-cases (other == id)) [
              | inl same ↦
                  let here = ap (λ j. Table.get s.interactions j) ((eq_iff other id).0 same) in
                  let x≡i : x ≡ i = cc (here, there, found) in
                  absurd
                    (cc (ap (λ (j : Interaction). j.status == "resolved") x≡i, undecided, over))
              | inr apart ↦
                  let row = resolution x now decision in
                  rw undecided (ground (arith, get-put s.interactions other id row, found, apart))
            ]
          ]

  perform-Settled : (s : FakeStore) (c : Call) → Settled s → Settled (perform s c)
  unfolding perform call
  perform-Settled s (interaction_create x) found = create-Settled s x found
  perform-Settled s (interaction_resolve now other key decision) found =
      resolve-Settled s now other key decision found
  perform-Settled s c found = rw (elsewhere-interactions s c refl) found

  perform_all-Settled : (s : FakeStore) (cs : List Call) → Settled s → Settled (perform_all s cs)
  unfolding perform_all
  perform_all-Settled s [] found = found
  perform_all-Settled s (c ∷ cs) found =
      perform_all-Settled (perform s c) cs (perform-Settled s c found)

-- What a Resolve that answered with a row leaves behind.
record Decided (s : FakeStore) (id key : String) (i : Interaction) : Type 0 where
  same_key : (i.idempotency_key == key) ≡ true
  over : (i.status == "resolved") ≡ true
  there : Table.get s.interactions id ≡ some i

resolve-Decided :
    (s : FakeStore) (now id key decision : String) (i : Interaction)
    → (resolve s now id key decision).0 ≡ ok i
    → Decided (resolve s now id key decision).1 id key i
resolve-Decided s now id key decision i answered =
    elim (Option-cases (Table.get s.interactions id)) [
      | inl free ↦ let missing = resolve_missing s now id key decision free in absurd cc
      | inr (x, found) ↦ elim (Bool-cases (x.idempotency_key == key)) [
        | inr other ↦
            let refused = resolve_other_key s now id key decision x found other in absurd cc
        | inl same ↦ elim (Bool-cases (x.status == "resolved")) [
          | inl before ↦
              let first = resolve_again s now id key decision x found same before in
              let kept : x ≡ i = cc in
              rw (first, ← kept) (record { same_key = same; over = before; there = found })
          | inr before ↦
              let first = resolve_open s now id key decision x found same before in
              let row = resolution x now decision in
              let kept : row ≡ i = cc in
              rw (first, ← kept)
                (record {
                  same_key = same;
                  over = refl;
                  there = get-put_self s.interactions id row;
                })
        ]
      ]
    ]

-- The first decision on an interaction wins: after a Resolve of it that answered with a row, and
-- any calls of the store, a Resolve of it with the same idempotency key answers with that row and
-- changes nothing, whatever its time and decision.
pub resolve_first_wins :
    (s : FakeStore) (cs : List Call) (now now' id key decision decision' : String) (i : Interaction)
    → (resolve s now id key decision).0 ≡ ok i
    → resolve (perform_all (resolve s now id key decision).1 cs) now' id key decision'
      ≡ (ok i, perform_all (resolve s now id key decision).1 cs)
resolve_first_wins s cs now now' id key decision decision' i answered =
    let done = resolve-Decided s now id key decision i answered in
    let after = (resolve s now id key decision).1 in
    resolve_again (perform_all after cs) now' id key decision' i
      (perform_all-Settled id i done.over after cs done.there) done.same_key done.over
