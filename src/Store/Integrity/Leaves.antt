-- ===== src/Store/Integrity/Leaves.antt =====
-- The integrity of the store after a change to a map whose rows no other row refers to.
use haro.Prelude.{ℕ, String, string_eq, nat_eq}
use haro.Prelude.Table.{Table, Each}
use haro.Store.Types.{AttemptEvent, Transport, PathClaim, Lease, Interaction, StepTransitionEvent}
use haro.Store.State.{FakeStore}
use haro.Store.Integrity.{
  Integrity, EventRows, TransportRow, ClaimRow, LeaseRow, InteractionRow, IndexRow,
}

module _ (s : FakeStore) (h : Integrity s) where
  pub with_attempt_events-Integrity :
      (m : Table String (Table ℕ AttemptEvent))
      → Each (EventRows s.attempts) m
      → Integrity (record s { attempt_events = m })
  with_attempt_events-Integrity m rows = record {
    projects = h.projects;
    executions = h.executions;
    steps = h.steps;
    generations = h.generations;
    attempts = h.attempts;
    attempt_events = rows;
    transports = h.transports;
    path_claims = h.path_claims;
    leases = h.leases;
    interactions = h.interactions;
    index = h.index;
  }

  pub with_transports-Integrity :
      (m : Table String Transport)
      → Each (TransportRow s.attempts) m
      → Integrity (record s { transports = m })
  with_transports-Integrity m rows = record {
    projects = h.projects;
    executions = h.executions;
    steps = h.steps;
    generations = h.generations;
    attempts = h.attempts;
    attempt_events = h.attempt_events;
    transports = rows;
    path_claims = h.path_claims;
    leases = h.leases;
    interactions = h.interactions;
    index = h.index;
  }

  pub with_path_claims-Integrity :
      (m : Table ℕ PathClaim)
      → Each (ClaimRow s.projects) m
      → Integrity (record s { path_claims = m })
  with_path_claims-Integrity m rows = record {
    projects = h.projects;
    executions = h.executions;
    steps = h.steps;
    generations = h.generations;
    attempts = h.attempts;
    attempt_events = h.attempt_events;
    transports = h.transports;
    path_claims = rows;
    leases = h.leases;
    interactions = h.interactions;
    index = h.index;
  }

  pub with_leases-Integrity :
      (m : Table String Lease) → Each LeaseRow m → Integrity (record s { leases = m })
  with_leases-Integrity m rows = record {
    projects = h.projects;
    executions = h.executions;
    steps = h.steps;
    generations = h.generations;
    attempts = h.attempts;
    attempt_events = h.attempt_events;
    transports = h.transports;
    path_claims = h.path_claims;
    leases = rows;
    interactions = h.interactions;
    index = h.index;
  }

  -- The counter of the claims is in no row.
  pub with_next_id-Integrity : (n : ℕ) → Integrity (record s { path_claim_next_id = n })
  with_next_id-Integrity n = record {
    projects = h.projects;
    executions = h.executions;
    steps = h.steps;
    generations = h.generations;
    attempts = h.attempts;
    attempt_events = h.attempt_events;
    transports = h.transports;
    path_claims = h.path_claims;
    leases = h.leases;
    interactions = h.interactions;
    index = h.index;
  }

  -- The transition events refer to nothing.
  pub with_transition_events-Integrity :
      (m : Table String (Table ℕ StepTransitionEvent))
      → Integrity (record s { transition_events = m })
  with_transition_events-Integrity m = record {
    projects = h.projects;
    executions = h.executions;
    steps = h.steps;
    generations = h.generations;
    attempts = h.attempts;
    attempt_events = h.attempt_events;
    transports = h.transports;
    path_claims = h.path_claims;
    leases = h.leases;
    interactions = h.interactions;
    index = h.index;
  }

  pub with_interactions-Integrity :
      (m : Table String Interaction) (by_key : Table String String)
      → Each (InteractionRow s.attempts by_key) m
      → Each (IndexRow m) by_key
      → Integrity (record s { interactions = m; interactions_by_attempt_key = by_key })
  with_interactions-Integrity m by_key rows index = record {
    projects = h.projects;
    executions = h.executions;
    steps = h.steps;
    generations = h.generations;
    attempts = h.attempts;
    attempt_events = h.attempt_events;
    transports = h.transports;
    path_claims = h.path_claims;
    leases = h.leases;
    interactions = rows;
    index = index;
  }
