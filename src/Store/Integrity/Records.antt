-- ===== src/Store/Integrity/Records.antt =====
-- Every method that writes an event, a transport or a lease keeps the integrity of the store.
use haro.Prelude.{
  ℕ, String, Option, refl, not, ◌&&◌, ◌||◌, inl, inr, ◌==◌, Option-cases, string_eq, nat_eq,
}
use haro.Prelude.Table
use haro.Prelude.Table.{Table, Each, Each-put, Each-mono, Each-empty, get-put, has-put}
use haro.Store.Types.{AttemptEvent, StepTransitionEvent, Transport}
use haro.Store.State.{FakeStore, step_key}
use haro.Store.Events
use haro.Store.Events.{rows}
use haro.Store.Transports
use haro.Store.Leases
use haro.Store.Leases.{is_live_or_malformed}
use haro.Store.Integrity.{Integrity, EventRow}
use haro.Store.Integrity.Rules.{keeps_guard, keeps_require, keeps_found, keeps_option}
use haro.Store.Integrity.Leaves.{
  with_attempt_events-Integrity, with_transition_events-Integrity, with_transports-Integrity,
  with_leases-Integrity,
}

-- The events of an attempt, none at first, are good rows.
rows-Each :
    (s : FakeStore) (h : Integrity s) (id : String)
    → Each (EventRow id) (rows (Table.get s.attempt_events id))
rows-Each s h id = elim (Option-cases (Table.get s.attempt_events id)) [
  | inl e ↦ rw e Each-empty
  | inr (m, e) ↦ rw e (h.attempt_events.at id m e).rows
]

module _ (s : FakeStore) (h : Integrity s) where
  pub create_attempt_event-Integrity :
      (now : String) (e : AttemptEvent) → Integrity (Events.create_attempt_event s now e).1
  unfolding Events.create_attempt_event
  create_attempt_event-Integrity now e =
      let events = rows (Table.get s.attempt_events e.attempt_id) in
      keeps_require Integrity (Table.has s.attempts e.attempt_id) _ s _ h λ attempt.
        keeps_guard Integrity (Table.has events e.cursor) _ s _ h λ fresh.
          with_attempt_events-Integrity s h _ (
            Each-put s.attempt_events e.attempt_id _ h.attempt_events (record {
              attempt = attempt;
              rows =
                  Each-put events e.cursor _ (rows-Each s h e.attempt_id)
                    (record { attempt = refl; place = refl });
            }))

  pub create_transition-Integrity :
      (now : String) (e : StepTransitionEvent) → Integrity (Events.create_transition s now e).1
  unfolding Events.create_transition
  create_transition-Integrity now e =
      let events = rows (Table.get s.transition_events (step_key e.execution_id e.step_id)) in
      keeps_guard Integrity (Table.has events e.cursor) _ s _ h
        λ fresh. with_transition_events-Integrity s h _

  pub transports_put-Integrity : (t : Transport) → Integrity (Transports.put s t).1
  unfolding Transports.put
  transports_put-Integrity t =
      keeps_require Integrity (Table.has s.attempts t.attempt_id) _ s _ h λ attempt.
        with_transports-Integrity s h _ (
          Each-put s.transports t.attempt_id _ h.transports
            (record { key = refl; attempt = attempt }))

  pub leases_acquire-Integrity :
      (now : ℕ) (execution_id step_id holder : String)
      → Integrity (Leases.acquire s now execution_id step_id holder).1
  unfolding Leases.acquire
  leases_acquire-Integrity now execution_id step_id holder =
      let k = step_key execution_id step_id in
      keeps_option Integrity (Table.get s.leases k) _ _
        (λ free.
          with_leases-Integrity s h _ (Each-put s.leases k _ h.leases (record { key = refl })))
        λ l found.
          keeps_guard Integrity (not (l.holder == holder) && is_live_or_malformed now l.expires_at)
            _ s _ h
            λ held.
              with_leases-Integrity s h _
                (Each-put s.leases k _ h.leases (record { key = (h.leases.at k l found).key }))

  set_expiry-Integrity :
      (execution_id step_id holder : String) (token : ℕ) (expires : Option ℕ)
      → Integrity (Leases.set_expiry s execution_id step_id holder token expires).1
  unfolding Leases.set_expiry
  set_expiry-Integrity execution_id step_id holder token expires =
      keeps_found Integrity (Table.get s.leases (step_key execution_id step_id)) _ s _ h λ l found.
        keeps_guard Integrity (not (l.holder == holder) || not (l.fencing_token == token)) _ s _ h
          λ held.
            with_leases-Integrity s h _
              (Each-put s.leases _ _ h.leases (record { key = (h.leases.at _ l found).key }))

  pub leases_renew-Integrity :
      (now : ℕ) (execution_id step_id holder : String) (token : ℕ)
      → Integrity (Leases.renew s now execution_id step_id holder token).1
  unfolding Leases.renew
  leases_renew-Integrity now execution_id step_id holder token =
      set_expiry-Integrity execution_id step_id holder token _

  pub leases_release-Integrity :
      (now : ℕ) (execution_id step_id holder : String) (token : ℕ)
      → Integrity (Leases.release s now execution_id step_id holder token).1
  unfolding Leases.release
  leases_release-Integrity now execution_id step_id holder token =
      set_expiry-Integrity execution_id step_id holder token _
