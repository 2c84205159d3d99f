-- ===== src/Store/Types.antt =====
-- internal/store/store.go and claim.go: the rows of the store and its errors. A `*string` is an
-- `Option String`; an `int` or `int64` is the ℕ of its bit pattern, and all counters start at 0.
use haro.Prelude.{ℕ, ◌%◌, ◌^◌, String, Option}

-- The sentinels, and the two unnamed errors of the claims.
pub data Error : Type 0 where
  not_found check_violation unique_violation foreign_key_violation lease_conflict : Error
  missing_claim_fields no_active_claim : Error

-- The value and the error that a method returns.
pub data Result (A : Type 0) : Type 0 where
  ok : A → Result A
  err : Error → Result A

-- 64-bit arithmetic wraps.
abbrev pub i64 : ℕ → ℕ
i64 n = n % 2 ^ 64

pub record Project : Type 0 where
  pub id : String
  pub root_path : String
  pub created_at : String

pub record Execution : Type 0 where
  pub id : String
  pub project_id : String
  pub workflow_source : String
  pub status : String
  pub workspace_mode : String
  pub workspace_root : String
  pub started_at : String
  pub ended_at : Option String
  pub dag_hash : Option String
  pub base_commit : Option String

pub record ExecutionStep : Type 0 where
  pub execution_id : String
  pub step_id : String
  pub type : String
  pub status : String
  pub depends_on : String  -- JSON array
  pub requires : String  -- JSON array
  pub produces : String  -- JSON array
  pub workspace_mode : String
  pub current_generation : ℕ
  pub pending_feedback : Option String

pub record Generation : Type 0 where
  pub id : String
  pub execution_id : String
  pub step_id : String
  pub number : ℕ
  pub created_at : String
  pub invalidated_at : Option String
  pub invalidated_by_step : Option String

pub record Attempt : Type 0 where
  pub id : String
  pub execution_id : String
  pub step_id : String
  pub generation_id : String
  pub status : String
  pub started_at : String
  pub ended_at : Option String
  pub termination_reason : Option String
  pub result_digest : Option String

pub record StepTransitionEvent : Type 0 where
  pub id : ℕ
  pub execution_id : String
  pub step_id : String
  pub cursor : ℕ
  pub from_status : Option String
  pub to_status : String
  pub occurred_at : String

pub record AttemptEvent : Type 0 where
  pub id : ℕ
  pub attempt_id : String
  pub cursor : ℕ
  pub event_type : String
  pub payload_ref : Option String
  pub payload : Option String
  pub occurred_at : String

pub record Transport : Type 0 where
  pub attempt_id : String
  pub adapter_name : String
  pub native_session_id : Option String
  pub protocol_version : Option ℕ
  pub extra : String  -- JSON, default '{}'

pub record PathClaim : Type 0 where
  pub id : ℕ
  pub project_id : String
  pub logical_path : String
  pub mode : String
  pub owner_execution_id : String
  pub owner_step_id : String
  pub acquired_at : String
  pub released_at : Option String

-- An RFC 3339 text of the leases: the second since the epoch that it denotes, or `none` for a text
-- that `time.Parse` refuses.
abbrev pub Stamp : Type 0
Stamp = Option ℕ

pub record Lease : Type 0 where
  pub execution_id : String
  pub step_id : String
  pub holder : String
  pub fencing_token : ℕ
  pub acquired_at : Stamp
  pub expires_at : Stamp

pub record Interaction : Type 0 where
  pub id : String
  pub attempt_id : String
  pub type : String
  pub status : String
  pub decision : Option String
  pub idempotency_key : String
  pub resolved_at : Option String
