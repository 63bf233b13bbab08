-- ===== src/Decision/Records.antt =====
-- The records of decision.py: a decision, its proposal, its runs, its approval and its verdict.
use cloudfall.Base.{ℕ, String, Bool, ◌&&◌, Option, List}
use cloudfall.Base.{Eq, ◌==◌, String-discrete, string_eq}
use cloudfall.Base.Int.{ℤ, ℤ-discrete}
use cloudfall.Base.Dict.{Dict}
use cloudfall.Base.Sorting.{sort_by}
use cloudfall.Catalog.{RiskLevel, TargetScope, TargetScope-discrete}

-- A value that the caller gives an input. `other` is any array or object, as Python prints it.
pub data Value : Type 0 where
  none_value : Value
  text : String → Value
  integer : ℤ → Value
  boolean : Bool → Value
  other : String → Value

abbrev pub Inputs : Type 0
Inputs = List (String × Value)

pub data Requirement : Type 0 where
  runs_freely check_then_approve human_required : Requirement

pub data DecisionStatus : Type 0 where
  proposed approved rejected executed verified failed ran superseded : DecisionStatus

pub data ApprovalChannel : Type 0 where
  terminal unknown : ApprovalChannel

pub record Targets : Type 0 where
  pub scope : TargetScope
  pub pattern : Option String

pub record DiffArtifact : Type 0 where
  pub path : String
  pub sha256 : String
  pub size : ℕ

pub record CheckPreview : Type 0 where
  pub exit_code : ℤ
  pub changed : List String
  pub unchanged : List String
  pub diff : DiffArtifact

pub record RunRecord : Type 0 where
  pub ran_at : String
  pub exit_code : ℤ
  pub changed : List String
  pub unchanged : List String
  pub log : DiffArtifact

pub record Basis : Type 0 where
  pub observations : String
  pub observed_at : Dict String String

pub record Approval : Type 0 where
  pub approver : String
  pub approved_at : String
  pub via : ApprovalChannel

-- The texts that the code writes as a verdict, each with the values that it names.
pub data Verdict : Type 0 where
  ran_live : ℤ → Verdict
  ran_from_recording : String → ℤ → Verdict
  newer_proposal : String → Verdict
  run_exited : ℤ → Verdict
  no_verify_step : Verdict
  verify_did_not_run : Verdict
  verify_exited : ℤ → Verdict
  verify_changed : List String → Verdict
  verify_changed_nothing : Verdict

pub record Decision : Type 0 where
  pub decision_id : String
  pub proposed_at : String
  pub operation_id : String
  pub playbook : String
  pub risk : RiskLevel
  pub verify_playbook : Option String
  pub targets : Targets
  pub inputs : Inputs
  pub requirement : Requirement
  pub reason : String
  pub basis : Basis
  pub check : CheckPreview
  pub status : DecisionStatus
  pub approval : Option Approval
  pub execution : Option RunRecord
  pub verification : Option RunRecord
  pub verdict : Option Verdict
  pub ran_exit_code : Option ℤ
  pub superseded_by : Option String
  pub replay : Option String

pub DecisionStatus-discrete : Discrete DecisionStatus
DecisionStatus-discrete = hlevel

instance unfoldable pub status_eq : Eq DecisionStatus
unfolding DecisionStatus-discrete
status_eq = record { dec = DecisionStatus-discrete }

pub Targets-discrete : Discrete Targets
Targets-discrete = hlevel (String-discrete, TargetScope-discrete)

instance unfoldable pub targets_eq : Eq Targets
unfolding Targets-discrete
targets_eq = record { dec = Targets-discrete }

pub Inputs-discrete : Discrete Inputs
Inputs-discrete = hlevel (String-discrete, ℤ-discrete)

instance unfoldable pub inputs_eq : Eq Inputs
unfolding Inputs-discrete
inputs_eq = record { dec = Inputs-discrete }

-- `_canonical`: the inputs in one order, whatever order they were given in.
unfoldable pub canonical : Inputs → Inputs
unfolding sort_by
canonical = sort_by (λ entry. entry.0)

-- `Decision.same_call`
unfoldable pub same_call : Decision → Decision → Bool
unfolding canonical
same_call d e =
    d.operation_id == e.operation_id
    && d.targets == e.targets
    && canonical d.inputs == canonical e.inputs
