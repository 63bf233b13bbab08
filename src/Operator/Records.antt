-- ===== src/Operator/Records.antt =====
-- The proposals of sdk/src/cloudfall/operator.py.

use cloudfall.Base.{ℕ, String, Bool, true, false, Option, List}
use cloudfall.Decision.Records.{ApprovalChannel}

-- `ProposalStatus`
pub data ProposalStatus : Type 0 where
  proposed executed verified failed : ProposalStatus

-- `TriggerKind`
pub data TriggerKind : Type 0 where
  alert drift : TriggerKind

-- `OperationKind`
pub data OperationKind : Type 0 where
  converge_services converge_baseline : OperationKind

-- `status in _BLOCKING_STATUSES`
abbrev pub is_blocking : ProposalStatus → Bool
is_blocking proposed = true
is_blocking executed = true
is_blocking verified = false
is_blocking failed = true

-- `operation_kind.value`
abbrev pub kind_value : OperationKind → String
kind_value converge_services = "converge-services"
kind_value converge_baseline = "converge-baseline"

-- `_OPERATION_PLAYBOOKS[operation_kind]`
abbrev pub playbook_of : OperationKind → String
playbook_of converge_services = "services.yml"
playbook_of converge_baseline = "baseline.yml"

pub record OperatorAlert : Type 0 where
  pub name : String
  pub cloudfall_rule : String
  pub severity : String
  pub environment : String
  pub server : String
  pub service : String
  pub active_at : String
  pub fingerprint : String

pub record DriftTrigger : Type 0 where
  pub server : String
  pub checks : List String
  pub fingerprint : String

pub record ApprovalRecord : Type 0 where
  pub mode : String
  pub policy : Option String
  pub via : Option ApprovalChannel

-- What the detail of an outcome says.
pub data Detail : Type 0 where
  pending : Detail
  resolved : Detail
  unresolved_after : ℕ → Detail
  execution_failed : String → Detail

pub record ProposalOutcome : Type 0 where
  pub executed_at : String
  pub verified_at : Option String
  pub result : String
  pub detail : Detail

-- What a summary says.
pub data Diagnosis : Type 0 where
  alert_firing : String → String → String → Diagnosis
  drift_reported : String → List String → String → Diagnosis

pub record OperatorProposal : Type 0 where
  pub resource_id : String
  pub created_at : String
  pub status : ProposalStatus
  pub trigger_kind : TriggerKind
  pub fingerprint : String
  pub alert : Option OperatorAlert
  pub drift : Option DriftTrigger
  pub diagnosis_summary : Diagnosis
  pub evidence : List String
  pub operation_kind : OperationKind
  pub operation_server : String
  pub operation_service : Option String
  pub command : List String
  pub approval : Option ApprovalRecord
  pub outcome : Option ProposalOutcome
