-- ===== src/Decision/Propose.antt =====
-- `propose` of decision.py.
pub mod Laws
pub mod Promises
use cloudfall.Base.{String, ◌<>◌, Bool, true, false, ◌&&◌, Option, none, some, List, [], ◌∷◌}
use cloudfall.Base.{◌==◌, string_eq, option_eq, if◌then◌else◌}
use cloudfall.Base.Int.{ℤ}
use cloudfall.Base.Json.{Json}
use cloudfall.Base.Results.{ok, err}
use cloudfall.Ids.{resource_id}
use cloudfall.Catalog.{Operation}
use cloudfall.Decision.Records.{
  Inputs, Requirement, runs_freely, check_then_approve, human_required, proposed, ran, superseded,
  status_eq, Targets, Verdict, ran_live, ran_from_recording, newer_proposal, Decision, same_call,
}
use cloudfall.Decision.Errors.{Checked, id_error}
use cloudfall.Decision.Gate.{gate}
use cloudfall.Decision.Inputs.{validated_inputs, validated_targets}
use cloudfall.Decision.Prepare.{ProposalRequest, Prepared, prepare}
use cloudfall.Decision.World.{Moment, Controller, World, Exec, pure, lift, ◌>>=◌, ◌>>◌}
use cloudfall.Decision.Store.{save, update, list_all}
use cloudfall.Decision.Run.{Command, ◌/◌, run_command, read_basis, preview, launch, read_artifact}

-- `_ran_verdict`
unfoldable pub ran_verdict : ℤ → Option String → Verdict
ran_verdict exit_code none = ran_live exit_code
ran_verdict exit_code (some recording) = ran_from_recording recording exit_code

-- `requirement is Requirement.RUNS_FREELY`
abbrev pub is_free : Requirement → Bool
is_free runs_freely = true
is_free check_then_approve = false
is_free human_required = false

-- `x if ran else None`
abbrev pub when : {A : Type 0} → Bool → A → Option A
when true x = some x
when false x = none

-- the older proposal, closed by the decision of that id
abbrev pub close : String → Decision → Decision
close id older = record older {
  status = superseded;
  superseded_by = some id;
  verdict = some (newer_proposal id);
}

-- the test of the loop at the end of `propose`
abbrev pub replaces : Decision → Decision → Bool
replaces decision older =
    older.status == proposed && older.replay == decision.replay && same_call older decision

module _ (c : Controller) where
  -- that loop
  unfoldable pub supersede : Decision → List Decision → Exec (Unit {0})
  supersede decision [] = pure tt
  supersede decision (older ∷ rest) =
      let later = supersede decision rest in
      if replaces decision older
      then update c (close decision.decision_id older) >> later
      else later

  -- The decision that `propose` builds once check mode has run.
  unfoldable pub new_decision :
      ProposalRequest
      → String
      → Moment
      → Inputs
      → Option String
      → ℤ × List (String × Json)
      → World
      → Decision
  unfolding gate ran_verdict preview read_basis read_artifact
  new_decision request id moment declared pattern (exit_code, reports) w =
      let operation = request.operation in
      let requirement = (gate operation.risk).0 in
      let free = is_free requirement in
      let diff_path = c.directory / (id <> ".diff") in
      record {
        decision_id = id;
        proposed_at = moment.timestamp;
        operation_id = operation.operation_id;
        playbook = operation.playbook;
        risk = operation.risk;
        verify_playbook = operation.verify;
        targets = record { scope = request.targets.scope; pattern = pattern };
        inputs = declared;
        requirement = requirement;
        reason = (gate operation.risk).1;
        basis = read_basis c request.observations request.repository;
        check =
            preview c exit_code reports (read_artifact c diff_path w) diff_path request.repository;
        status = if free then ran else proposed;
        approval = none;
        execution = none;
        verification = none;
        verdict = when free (ran_verdict exit_code request.replay);
        ran_exit_code = when free exit_code;
        superseded_by = none;
        replay = request.replay;
      }

  -- The part after the run: the record is saved, and the older proposals are closed.
  unfoldable pub record_proposal : Decision → List Decision → Exec Decision
  unfolding save supersede update
  record_proposal decision recorded = do save c decision; supersede decision recorded; pure decision

  -- `propose` from the run on
  unfoldable pub check_and_record : ProposalRequest → Moment → Prepared → Exec Decision
  unfolding launch new_decision record_proposal
  check_and_record request moment p = do
    out ← launch c p.command (c.directory / (p.id <> ".diff"))
    (λ w. record_proposal (new_decision request p.id moment p.inputs p.pattern out w) p.recorded w)

  -- `propose`
  unfoldable pub propose : ProposalRequest → Moment → Exec Decision
  unfolding prepare check_and_record
  propose request moment = do
    p ← (λ w. (prepare c request moment w, w))
    check_and_record request moment p
