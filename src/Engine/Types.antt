-- ===== src/Engine/Types.antt =====
-- The records and states of runner.go. A timestamp is a number, a pointer to one an `Option`.
use chamicore.Prelude.{ℕ, Bool, List, Option}
use chamicore.Text.{Text}

pub data TransitionState : Type 0 where
  pending running completed failed partial canceled planned : TransitionState

pub data TaskState : Type 0 where
  pending running succeeded failed canceled planned : TaskState

-- The operations that the engine names; `other` is any value that its switches do not.
pub data ResetOperation : Type 0 where
  on graceful_restart force_restart nmi force_off graceful_shutdown : ResetOperation
  other : Text → ResetOperation

pub record Transition : Type 0 where
  pub id : Text
  pub request_id : Text
  pub operation : Text
  pub state : TransitionState
  pub requested_by : Text
  pub dry_run : Bool
  pub target_count : ℕ
  pub success_count : ℕ
  pub failure_count : ℕ
  pub queued_at : ℕ
  pub started_at : Option ℕ
  pub completed_at : Option ℕ
  pub created_at : ℕ
  pub updated_at : ℕ

pub record Task : Type 0 where
  pub id : Text
  pub transition_id : Text
  pub node_id : Text
  pub bmc_id : Text
  pub bmc_endpoint : Text
  pub credential_id : Text
  pub operation : Text
  pub state : TaskState
  pub dry_run : Bool
  pub insecure_skip_verify : Bool
  pub attempt_count : ℕ
  pub final_power_state : Text
  pub error_detail : Text
  pub queued_at : ℕ
  pub started_at : Option ℕ
  pub completed_at : Option ℕ
  pub created_at : ℕ
  pub updated_at : ℕ

-- `transitionProgress`; its cancel function acts on the context of the transition, `canceled`.
pub record Progress : Type 0 where
  pub transition : Transition
  pub remaining : ℕ
  pub executable_total : ℕ
  pub canceled_count : ℕ
  pub started : Bool
  pub aborted : Bool
  pub context_canceled : Bool

pub record StartRequest : Type 0 where
  pub request_id : Text
  pub requested_by : Text
  pub operation : Text
  pub node_ids : List Text
  pub dry_run : Bool

-- `ExecutionRequest`.
pub record ExecutionRequest : Type 0 where
  pub transition_id : Text
  pub task_id : Text
  pub node_id : Text
  pub bmc_id : Text
  pub endpoint : Text
  pub credential_id : Text
  pub insecure_skip_verify : Bool
  pub operation : ResetOperation
