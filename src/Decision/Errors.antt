-- ===== src/Decision/Errors.antt =====
-- The errors of decision.py: a code of `DecisionError` with the value that its message names, and
-- the other exceptions that leave the functions.
use cloudfall.Base.{String, Option}
use cloudfall.Base.Results.{Result}
use cloudfall.Ids.{IdError}
use cloudfall.Decision.Records.{DecisionStatus}

-- Why `refuse_unapprovable` refuses: what the message says about the decision.
pub data Refusal : Type 0 where
  replaced_by_read : Option String → Refusal
  replaced_by_proposal : Option String → Refusal
  already_ran : Refusal
  settled : DecisionStatus → Refusal

pub data DecisionError : Type 0 where
  ansible_missing : DecisionError
  target_required : DecisionError
  target_unexpected : DecisionError
  input_unknown : String → DecisionError
  input_missing : String → DecisionError
  input_type : String → DecisionError
  decision_exists : String → DecisionError
  decision_missing : String → DecisionError
  not_proposed : Refusal → DecisionError
  decision_replayed : String → DecisionError
  approver_unknown : DecisionError
  channel_unknown : DecisionError
  record_invalid : String → DecisionError
  schema_error : String → DecisionError
  id_error : IdError → DecisionError
  run_timed_out : DecisionError

abbrev pub Checked : Type 0 → Type 0
Checked = Result DecisionError
