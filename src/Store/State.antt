-- ===== src/Store/State.antt =====
-- internal/store/fake.go: the in-memory store, its maps, and the checks that its repositories
-- share. Each method takes `s.mu` for its whole body, so a method is one step on the state. The
-- values in the maps are copies that nobody else writes through, so the copies are not modelled.
use Prim.Native.String.{◌++◌}
use haro.Prelude.{ℕ, String, Bool, false, ◌||◌, [], ◌==◌, string_eq, if◌then◌else◌}
use haro.Prelude.Table.{Table}
use haro.Store.Types.{
  Project, Execution, ExecutionStep, Generation, Attempt, AttemptEvent, StepTransitionEvent,
  Transport, PathClaim, Lease, Interaction,
}

pub record FakeStore : Type 0 where
  pub in_tx : Bool
  pub projects : Table String Project
  pub executions : Table String Execution
  pub steps : Table String ExecutionStep
  pub generations : Table String Generation
  pub attempts : Table String Attempt
  pub attempt_events : Table String (Table ℕ AttemptEvent)
  pub transition_events : Table String (Table ℕ StepTransitionEvent)
  pub transports : Table String Transport
  pub path_claims : Table ℕ PathClaim
  pub path_claim_next_id : ℕ
  pub leases : Table String Lease
  pub interactions : Table String Interaction
  pub interactions_by_attempt_key : Table String String

abbrev pub new_fake_store : FakeStore
new_fake_store = record {
  in_tx = false;
  projects = [];
  executions = [];
  steps = [];
  generations = [];
  attempts = [];
  attempt_events = [];
  transition_events = [];
  transports = [];
  path_claims = [];
  path_claim_next_id = 0;
  leases = [];
  interactions = [];
  interactions_by_attempt_key = [];
}

-- The separator of the composite keys, "\x00".
abbrev pub nul : String
nul = "\0"

unfoldable pub step_key : String → String → String
step_key exec_id step_id = exec_id ++ (nul ++ step_id)

unfoldable pub is_valid_execution_status : String → Bool
is_valid_execution_status st =
    st == "pending" || st == "running" || st == "completed" || st == "failed"

unfoldable pub is_valid_workspace_mode : String → Bool
is_valid_workspace_mode m = m == "isolated" || m == "shared"

unfoldable pub is_valid_step_type : String → Bool
is_valid_step_type t = t == "command" || t == "agent" || t == "workflow"

unfoldable pub is_valid_step_status : String → Bool
is_valid_step_status s =
    s == "pending" || s == "running" || s == "completed" || s == "failed" || s == "skipped"

unfoldable pub is_valid_attempt_status : String → Bool
is_valid_attempt_status s = s == "running" || s == "completed" || s == "failed" || s == "cancelled"

unfoldable pub is_valid_interaction_type : String → Bool
is_valid_interaction_type t = t == "permission" || t == "question"

unfoldable pub is_valid_interaction_status : String → Bool
is_valid_interaction_status s = s == "pending" || s == "resolved"

-- `if x == "" { x = default }`
abbrev pub default_to : String → String → String
default_to default x = if x == "" then default else x
