-- ===== src/Store/Integrity.antt =====
-- Well-formedness of the maps of the in-memory store (internal/store/fake.go): keys, references and
-- the columns with a CHECK. The transition events are left out, and of the leases the references.
pub mod Rules
mod Tables
mod Leaves
mod Creation
mod Updates
mod Records
pub mod Claims
mod Decisions
pub mod Runs
use haro.Prelude.{ℕ, ◌≡◌, true, some, String, string_eq, nat_eq}
use haro.Prelude.Table.{Table, get, has, Each, Each-empty}
use haro.Store.Types.{
  Project, Execution, ExecutionStep, Generation, Attempt, AttemptEvent, Transport, PathClaim, Lease,
  Interaction,
}
use haro.Store.State.{
  FakeStore, new_fake_store, step_key, is_valid_execution_status, is_valid_workspace_mode,
  is_valid_step_type, is_valid_step_status, is_valid_attempt_status, is_valid_interaction_type,
  is_valid_interaction_status,
}
use haro.Store.Interactions.{attempt_key}

pub record ProjectRow (k : String) (p : Project) : Type 0 where
  pub key : k ≡ p.id

pub record ExecutionRow (projects : Table String Project) (k : String) (e : Execution)
    : Type 0 where
  pub key : k ≡ e.id
  pub project : has projects e.project_id ≡ true
  pub status : is_valid_execution_status e.status ≡ true
  pub mode : is_valid_workspace_mode e.workspace_mode ≡ true

pub record StepRow (executions : Table String Execution) (k : String) (x : ExecutionStep)
    : Type 0 where
  pub key : k ≡ step_key x.execution_id x.step_id
  pub execution : has executions x.execution_id ≡ true
  pub type : is_valid_step_type x.type ≡ true
  pub status : is_valid_step_status x.status ≡ true
  pub mode : is_valid_workspace_mode x.workspace_mode ≡ true

pub record GenerationRow (steps : Table String ExecutionStep) (k : String) (g : Generation)
    : Type 0 where
  pub key : k ≡ g.id
  pub step : has steps (step_key g.execution_id g.step_id) ≡ true

pub record AttemptRow (steps : Table String ExecutionStep) (generations : Table String Generation)
    (k : String) (a : Attempt) : Type 0 where
  pub key : k ≡ a.id
  pub step : has steps (step_key a.execution_id a.step_id) ≡ true
  pub generation : has generations a.generation_id ≡ true
  pub status : is_valid_attempt_status a.status ≡ true

pub record EventRow (attempt_id : String) (cursor : ℕ) (e : AttemptEvent) : Type 0 where
  pub attempt : attempt_id ≡ e.attempt_id
  pub place : cursor ≡ e.cursor

pub record EventRows (attempts : Table String Attempt) (attempt_id : String)
    (events : Table ℕ AttemptEvent) : Type 0 where
  pub attempt : has attempts attempt_id ≡ true
  pub rows : Each (EventRow attempt_id) events

pub record TransportRow (attempts : Table String Attempt) (k : String) (t : Transport)
    : Type 0 where
  pub key : k ≡ t.attempt_id
  pub attempt : has attempts k ≡ true

pub record ClaimRow (projects : Table String Project) (k : ℕ) (c : PathClaim) : Type 0 where
  pub key : k ≡ c.id
  pub project : has projects c.project_id ≡ true

pub record LeaseRow (k : String) (l : Lease) : Type 0 where
  pub key : k ≡ step_key l.execution_id l.step_id

pub record InteractionRow (attempts : Table String Attempt) (by_key : Table String String)
    (k : String) (i : Interaction) : Type 0 where
  pub key : k ≡ i.id
  pub attempt : has attempts i.attempt_id ≡ true
  pub type : is_valid_interaction_type i.type ≡ true
  pub status : is_valid_interaction_status i.status ≡ true
  pub indexed : get by_key (attempt_key i.attempt_id i.idempotency_key) ≡ some i.id

pub record IndexRow (interactions : Table String Interaction) (key : String) (id : String)
    : Type 0 where
  pub interaction : has interactions id ≡ true

pub record Integrity (s : FakeStore) : Type 0 where
  pub projects : Each ProjectRow s.projects
  pub executions : Each (ExecutionRow s.projects) s.executions
  pub steps : Each (StepRow s.executions) s.steps
  pub generations : Each (GenerationRow s.steps) s.generations
  pub attempts : Each (AttemptRow s.steps s.generations) s.attempts
  pub attempt_events : Each (EventRows s.attempts) s.attempt_events
  pub transports : Each (TransportRow s.attempts) s.transports
  pub path_claims : Each (ClaimRow s.projects) s.path_claims
  pub leases : Each LeaseRow s.leases
  pub interactions : Each (InteractionRow s.attempts s.interactions_by_attempt_key) s.interactions
  pub index : Each (IndexRow s.interactions) s.interactions_by_attempt_key

pub new_fake_store-Integrity : Integrity new_fake_store
new_fake_store-Integrity = record {
  projects = Each-empty;
  executions = Each-empty;
  steps = Each-empty;
  generations = Each-empty;
  attempts = Each-empty;
  attempt_events = Each-empty;
  transports = Each-empty;
  path_claims = Each-empty;
  leases = Each-empty;
  interactions = Each-empty;
  index = Each-empty;
}
