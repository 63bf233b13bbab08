-- ===== src/Decision/Prepare.antt =====
-- The part of `propose` of decision.py before check mode runs: everything that can refuse a request.
pub mod Laws
use cloudfall.Base.{String, ◌<>◌, Bool, true, Option, List}
use cloudfall.Base.Results.{Result, ok, err, ◌>>=◌}
use cloudfall.Ids.{resource_id}
use cloudfall.Catalog.{Operation}
use cloudfall.Decision.Records.{Inputs, Targets, Decision}
use cloudfall.Decision.Errors.{Checked, id_error}
use cloudfall.Decision.Inputs.{validated_inputs, validated_targets}
use cloudfall.Decision.World.{Moment, Controller, World}
use cloudfall.Decision.Store.{list_all}
use cloudfall.Decision.Run.{PlaybookInvocation, Command, ◌/◌, run_command}

pub record ProposalRequest : Type 0 where
  pub operation : Operation
  pub targets : Targets
  pub inputs : Inputs
  pub repository : String
  pub observations : String
  pub replay : Option String

-- `_decision_identifier`
unfoldable pub decision_identifier : String → Moment → Checked String
unfolding resource_id
decision_identifier operation_id moment = elim (resource_id (operation_id <> "-" <> moment.stamp)) [
  | ok id ↦ ok id
  | err e ↦ err (id_error e)
]

-- What the run and the record of a proposal are made from.
pub record Prepared : Type 0 where
  pub inputs : Inputs
  pub pattern : Option String
  pub recorded : List Decision
  pub id : String
  pub command : Command

module _ (c : Controller) where
  -- the invocation of check mode
  abbrev pub check_invocation :
      ProposalRequest → Inputs → Option String → String → PlaybookInvocation
  check_invocation request declared pattern id = record {
    playbook = request.operation.playbook;
    repository = request.repository;
    tree = c.directory / "tree" / id;
    pattern = pattern;
    inputs = declared;
  }

  -- `propose`, up to the run
  unfoldable pub prepare : ProposalRequest → Moment → World → Checked Prepared
  unfolding validated_inputs validated_targets list_all decision_identifier run_command
  prepare request moment w = do
    declared ← validated_inputs request.operation request.inputs
    pattern ← validated_targets request.operation request.targets
    recorded ← list_all c w
    id ← decision_identifier request.operation.operation_id moment
    command ← run_command c (check_invocation request declared pattern id) true
    ok (record {
      inputs = declared;
      pattern = pattern;
      recorded = recorded;
      id = id;
      command = command;
    })
