-- ===== src/Operator/World.antt =====
-- What the functions of operator.py act on: the receipts by id, and the calls made so far of the
-- engine, the verifier and the feeds. What those answer is `Site`.
use cloudfall.Base.{ℕ, String, Bool, List}
use cloudfall.Base.Dict.{Dict}
use cloudfall.Base.Results.{Result}
use cloudfall.Base.Effects.{Effect}
use cloudfall.Ids.{IdError}
use cloudfall.Operator.Records.{ProposalStatus, OperatorAlert, OperatorProposal}

-- An exception of a callback: one with a code, which the operator records, or another.
pub data Fault : Type 0 where
  coded : String → String → Fault
  other : Fault

-- The exceptions of the operator; the last is the model's own, for a loop that has not ended.
pub data OperatorError : Type 0 where
  proposal_exists : String → OperatorError
  proposal_missing : String → OperatorError
  proposal_not_open : ProposalStatus → OperatorError
  channel_unknown : OperatorError
  record_invalid : String → OperatorError
  schema_error : String → OperatorError
  id_error : IdError → OperatorError
  fault : Fault → OperatorError
  still_running : OperatorError

-- A call that the operator makes.
pub data Event : Type 0 where
  run : String → Event
  ask : String → Event
  wait : ℕ → Event
  fetch_alerts : Event

-- What is not in this file: each answer may depend on all the calls before it.
pub record Site : Type 0 where
  -- `catalog.validate_named(_PROPOSAL_SCHEMA, document)` of a receipt
  pub valid : OperatorProposal → Bool
  -- `executor(proposal)`
  pub execute : List Event → OperatorProposal → Result Fault (Unit {0})
  -- `verifier(proposal)`
  pub verify : List Event → OperatorProposal → Result Fault Bool
  -- `feed.fetch()`
  pub fetch : List Event → Result Fault (List OperatorAlert)
  -- `_utc_now()`
  pub now : List Event → String
  -- `datetime.fromisoformat(text).timestamp()`, in seconds
  pub timestamp : String → ℕ

pub record World : Type 0 where
  pub proposals : Dict String OperatorProposal
  pub events : List Event

abbrev pub Checked : Type 0 → Type 0
Checked = Result OperatorError

abbrev pub Act : Type 0 → Type 0
Act = Effect OperatorError World
