-- ===== src/Store/Integrity/Tables.antt =====
-- The integrity of the store after one of its maps is replaced by a larger one whose rows are good.
use haro.Prelude.{String, string_eq, nat_eq}
use haro.Prelude.Table.{Table, Each, Each-mono}
use haro.Store.Types.{Project, Execution, ExecutionStep, Generation, Attempt}
use haro.Store.State.{FakeStore}
use haro.Store.Integrity.{Integrity, ProjectRow, ExecutionRow, StepRow, GenerationRow, AttemptRow}
use haro.Store.Integrity.Rules.{Grows}

module _ (s : FakeStore) (h : Integrity s) where
  pub with_projects-Integrity :
      (m : Table String Project)
      → Each ProjectRow m
      → Grows s.projects m
      → Integrity (record s { projects = m })
  with_projects-Integrity m rows grows = record {
    projects = rows;
    executions = Each-mono h.executions (λ k x r. record {
      key = r.key;
      project = grows _ r.project;
      status = r.status;
      mode = r.mode;
    });
    steps = h.steps;
    generations = h.generations;
    attempts = h.attempts;
    attempt_events = h.attempt_events;
    transports = h.transports;
    path_claims =
        Each-mono h.path_claims (λ k x r. record { key = r.key; project = grows _ r.project });
    leases = h.leases;
    interactions = h.interactions;
    index = h.index;
  }

  pub with_executions-Integrity :
      (m : Table String Execution)
      → Each (ExecutionRow s.projects) m
      → Grows s.executions m
      → Integrity (record s { executions = m })
  with_executions-Integrity m rows grows = record {
    projects = h.projects;
    executions = rows;
    steps = Each-mono h.steps (λ k x r. record {
      key = r.key;
      execution = grows _ r.execution;
      type = r.type;
      status = r.status;
      mode = r.mode;
    });
    generations = h.generations;
    attempts = h.attempts;
    attempt_events = h.attempt_events;
    transports = h.transports;
    path_claims = h.path_claims;
    leases = h.leases;
    interactions = h.interactions;
    index = h.index;
  }

  pub with_steps-Integrity :
      (m : Table String ExecutionStep)
      → Each (StepRow s.executions) m
      → Grows s.steps m
      → Integrity (record s { steps = m })
  with_steps-Integrity m rows grows = record {
    projects = h.projects;
    executions = h.executions;
    steps = rows;
    generations = Each-mono h.generations (λ k x r. record { key = r.key; step = grows _ r.step });
    attempts = Each-mono h.attempts (λ k x r. record {
      key = r.key;
      step = grows _ r.step;
      generation = r.generation;
      status = r.status;
    });
    attempt_events = h.attempt_events;
    transports = h.transports;
    path_claims = h.path_claims;
    leases = h.leases;
    interactions = h.interactions;
    index = h.index;
  }

  pub with_generations-Integrity :
      (m : Table String Generation)
      → Each (GenerationRow s.steps) m
      → Grows s.generations m
      → Integrity (record s { generations = m })
  with_generations-Integrity m rows grows = record {
    projects = h.projects;
    executions = h.executions;
    steps = h.steps;
    generations = rows;
    attempts = Each-mono h.attempts (λ k x r. record {
      key = r.key;
      step = r.step;
      generation = grows _ r.generation;
      status = r.status;
    });
    attempt_events = h.attempt_events;
    transports = h.transports;
    path_claims = h.path_claims;
    leases = h.leases;
    interactions = h.interactions;
    index = h.index;
  }

  pub with_attempts-Integrity :
      (m : Table String Attempt)
      → Each (AttemptRow s.steps s.generations) m
      → Grows s.attempts m
      → Integrity (record s { attempts = m })
  with_attempts-Integrity m rows grows = record {
    projects = h.projects;
    executions = h.executions;
    steps = h.steps;
    generations = h.generations;
    attempts = rows;
    attempt_events =
        Each-mono h.attempt_events (λ k x r. record { attempt = grows _ r.attempt; rows = r.rows });
    transports =
        Each-mono h.transports (λ k x r. record { key = r.key; attempt = grows _ r.attempt });
    path_claims = h.path_claims;
    leases = h.leases;
    interactions = Each-mono h.interactions (λ k x r. record {
      key = r.key;
      attempt = grows _ r.attempt;
      type = r.type;
      status = r.status;
      indexed = r.indexed;
    });
    index = h.index;
  }
