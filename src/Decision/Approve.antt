-- ===== src/Decision/Approve.antt =====
-- `approve`, `refuse_unapprovable`, `refuse_replayed`, `_outcome` and `_run_stage` of decision.py.
pub mod Laws
pub mod Promises
pub mod Timeouts
use cloudfall.Base.{String, ◌<>◌, false, Option, none, some, List, [], ◌∷◌}
use cloudfall.Base.{◌==◌, string_eq, if◌then◌else◌}
use cloudfall.Base.Int.{ℤ, is_zero_int}
use cloudfall.Base.Json.{Json}
use cloudfall.Base.Text.{strip}
use cloudfall.Base.Results.{ok, err}
use cloudfall.Decision.Records.{
  DecisionStatus, proposed, executed, verified, failed, ran, superseded, ApprovalChannel, terminal,
  unknown, RunRecord, Verdict, run_exited, no_verify_step, verify_did_not_run, verify_exited,
  verify_changed, verify_changed_nothing, Decision,
}
use cloudfall.Decision.Errors.{
  Checked, Refusal, replaced_by_read, replaced_by_proposal, already_ran, settled, not_proposed,
  decision_replayed, approver_unknown, channel_unknown,
}
use cloudfall.Decision.World.{Moment, Controller, World, Exec, pure, lift, ◌>>=◌, ◌>>◌}
use cloudfall.Decision.Store.{update}
use cloudfall.Decision.Run.{
  PlaybookInvocation, Command, ◌/◌, run_command, preview, launch, read_artifact,
}
use cloudfall.Decision.Propose.{is_free}

pub record ApprovalRequest : Type 0 where
  pub decision : Decision
  pub approver : String
  pub repository : String
  pub via : ApprovalChannel

-- what the refusal says, by the decision's status
abbrev refusal : DecisionStatus → Decision → Refusal
refusal superseded d =
    if is_free d.requirement
    then replaced_by_read d.superseded_by
    else replaced_by_proposal d.superseded_by
refusal ran d = already_ran
refusal status d = settled status

abbrev refuse_status : DecisionStatus → Decision → Checked (Unit {0})
refuse_status proposed d = ok tt
refuse_status status d = err (not_proposed (refusal status d))

-- `refuse_unapprovable`
unfoldable pub refuse_unapprovable : Decision → Checked (Unit {0})
refuse_unapprovable d = refuse_status d.status d

-- `refuse_replayed`
unfoldable pub refuse_replayed : Decision → Checked (Unit {0})
refuse_replayed d = elim d.replay [
  | none ↦ ok tt
  | some recording ↦ err (decision_replayed recording)
]

abbrev refuse_unnamed : String → Checked (Unit {0})
refuse_unnamed approver = if strip approver == "" then err approver_unknown else ok tt

abbrev refuse_channel : ApprovalChannel → Checked (Unit {0})
refuse_channel terminal = ok tt
refuse_channel unknown = err channel_unknown

abbrev verified_or_not : List String → DecisionStatus × Verdict
verified_or_not [] = (verified, verify_changed_nothing)
verified_or_not (host ∷ hosts) = (failed, verify_changed (host ∷ hosts))

-- `_outcome`
unfoldable pub outcome : RunRecord → Option RunRecord → Option String → DecisionStatus × Verdict
outcome execution verification verify_playbook =
    if is_zero_int execution.exit_code
    then elim verify_playbook [
      | none ↦ (executed, no_verify_step)
      | some playbook ↦ elim verification [
        | none ↦ (failed, verify_did_not_run)
        | some v ↦
            if is_zero_int v.exit_code
            then verified_or_not v.changed
            else (failed, verify_exited v.exit_code)
      ]
    ]
    else (failed, run_exited execution.exit_code)

-- the checks of `approve` that come before anything runs
unfoldable pub admit : ApprovalRequest → Checked (Unit {0})
unfolding refuse_replayed refuse_unapprovable strip
admit request = elim (refuse_replayed request.decision) [
  | err e ↦ err e
  | ok _ ↦ elim (refuse_unapprovable request.decision) [
    | err e ↦ err e
    | ok _ ↦ elim (refuse_unnamed request.approver) [
      | err e ↦ err e
      | ok _ ↦ refuse_channel request.via
    ]
  ]
]

-- the decision as `approve` records it
unfoldable pub approved_decision :
    ApprovalRequest → RunRecord → Option RunRecord → Moment → Decision
unfolding outcome
approved_decision request execution verification moment =
    let d = request.decision in
    let (status, verdict) = outcome execution verification d.verify_playbook in
    record d {
      approval = some (record {
        approver = strip request.approver;
        approved_at = moment.timestamp;
        via = request.via;
      });
      execution = some execution;
      verification = verification;
      status = status;
      verdict = some verdict;
    }

module _ (c : Controller) where
  -- the log and the invocation of one stage
  abbrev pub stage_log : Decision → String → String
  stage_log d name = c.directory / (d.decision_id <> "-" <> name <> ".log")

  abbrev pub stage_invocation : ApprovalRequest → String → String → PlaybookInvocation
  stage_invocation request playbook name =
      let d = request.decision in
      record {
        playbook = playbook;
        repository = request.repository;
        tree = c.directory / "tree" / (d.decision_id <> "-" <> name);
        pattern = d.targets.pattern;
        inputs = d.inputs;
      }

  -- the record of a stage, from how its run ended and what its log holds
  unfoldable pub stage_record :
      ApprovalRequest → String → Moment → ℤ × List (String × Json) → World → RunRecord
  unfolding preview read_artifact
  stage_record request log_path moment (exit_code, reports) w =
      let seen =
        preview c exit_code reports (read_artifact c log_path w) log_path request.repository in
      record {
        ran_at = moment.timestamp;
        exit_code = exit_code;
        changed = seen.changed;
        unchanged = seen.unchanged;
        log = seen.diff;
      }

  -- `_run_stage`, once its command is known
  unfoldable pub run_stage_command : ApprovalRequest → String → Moment → Command → Exec RunRecord
  unfolding launch stage_record
  run_stage_command request log_path moment command = do
    out ← launch c command log_path
    (λ w. (ok (stage_record request log_path moment out w), w))

  -- `_run_stage`
  unfoldable pub run_stage : ApprovalRequest → String → String → Moment → Exec RunRecord
  unfolding run_command run_stage_command
  run_stage request playbook name moment = do
    command ← lift (run_command c (stage_invocation request playbook name) false)
    run_stage_command request (stage_log request.decision name) moment command

  -- the verify run of `approve`, where there is one to make
  unfoldable pub verify_stage : ApprovalRequest → RunRecord → Moment → Exec (Option RunRecord)
  unfolding run_stage
  verify_stage request execution moment = elim request.decision.verify_playbook [
    | none ↦ pure none
    | some playbook ↦
        if is_zero_int execution.exit_code
        then (do r ← run_stage request playbook "verify" moment; pure (some r))
        else pure none
  ]

  -- The end of `approve`: the outcome is recorded.
  unfoldable pub record_approval : Decision → Exec Decision
  unfolding update
  record_approval d = do update c d; pure d

  -- `approve` once the run is over: verify, and record.
  unfoldable pub verify_and_record : ApprovalRequest → Moment → Moment → RunRecord → Exec Decision
  unfolding verify_stage approved_decision record_approval
  verify_and_record request moment verify_moment execution = do
    verification ← verify_stage request execution verify_moment
    record_approval (approved_decision request execution verification moment)

  -- `approve` once its checks have passed
  unfoldable pub run_approved : ApprovalRequest → Moment → Moment → Exec Decision
  unfolding run_stage verify_and_record
  run_approved request moment verify_moment = do
    execution ← run_stage request request.decision.playbook "execution" moment
    verify_and_record request moment verify_moment execution

  -- `approve`, with the moments that the clock gives at the run and at the verify run
  unfoldable pub approve : ApprovalRequest → Moment → Moment → Exec Decision
  unfolding admit run_approved
  approve request moment verify_moment = do
    lift (admit request)
    run_approved request moment verify_moment
