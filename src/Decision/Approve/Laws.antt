-- ===== src/Decision/Approve/Laws.antt =====
-- What `approve` does: nothing before its checks pass, the recorded run and no other, one record
-- changed at the end, and none if it raises.
use cloudfall.Base.{
  String, Bool, true, false, Option, inl, inr, ◌⊎◌, none, some, List, [], ◌∷◌, ◌++◌,
}
use cloudfall.Base.{◌≡◌, ◌≢◌, ◌↔◌, refl, ap, ◌∙◌, arith, string_eq, ◌==◌, if◌then◌else◌}
use mathlib.Core.List.{append-nil, append_assoc}
use cloudfall.Base.Int.{is_zero_int}
use cloudfall.Base.Text.{strip}
use cloudfall.Base.Dict.{lookup}
use cloudfall.Base.Results.{ok, err}
use cloudfall.Decision.Records.{proposed, status_eq, terminal, RunRecord, Decision}
use cloudfall.Decision.Errors.{DecisionError, Checked, ansible_missing, run_timed_out}
use cloudfall.Decision.World.{Moment, Launch, Controller, World, and_then, lift}
use cloudfall.Decision.World.Binds.{bind-post}
use cloudfall.Decision.Store.Laws.{stored, update-post}
use cloudfall.Decision.Run.{run_command, PlaybookInvocation, Command}
use cloudfall.Decision.Run.Laws.{launch-post, ran_job, job_of, command_with, run_command-eq-ok}
use cloudfall.Decision.Approve.{
  ApprovalRequest, refuse_unapprovable, refuse_replayed, admit, approved_decision, run_stage,
  verify_stage, verify_and_record, record_approval, run_approved, approve, stage_log,
  stage_invocation, stage_record, run_stage_command,
}

-- A request passes the checks exactly when the decision is an open proposal, made live, and the
-- approval names a person and came over the terminal.
pub admit_iff :
    (r : ApprovalRequest)
    → (admit r ≡ ok tt) ↔ (
        (r.decision.status ≡ proposed)
        × (r.decision.replay ≡ none)
        × ((strip r.approver == "") ≡ false)
        × (r.via ≡ terminal))
unfolding admit refuse_replayed refuse_unapprovable
admit_iff r = (λ h. ground arith, λ h. ground arith)

-- A verify run stands beside a clean run of an operation that declares one, and only there.
abbrev pub Staged : ApprovalRequest → RunRecord → Option RunRecord → Type 0
Staged request x none =
    (request.decision.verify_playbook ≡ none) ⊎ (is_zero_int x.exit_code ≡ false)
Staged request x (some y) =
    (request.decision.verify_playbook ≢ none) × (is_zero_int x.exit_code ≡ true)

module _ (c : Controller) where
  -- The job of one stage: the recorded playbook, targets and inputs, for real.
  abbrev pub stage_job : ApprovalRequest → String → String → String → Launch
  stage_job request playbook name binary =
      job_of (command_with c binary (stage_invocation c request playbook name) false)
        (stage_log c request.decision name)

  run_command_not_late :
      (invocation : PlaybookInvocation) (e : DecisionError)
      → run_command c invocation false ≡ err e
      → e ≢ run_timed_out
  unfolding run_command
  run_command_not_late invocation e h late = go c.ansible refl
    where
      go : (found : Option String) → c.ansible ≡ found → ⊥
      go none f =
          let k : ◌≡◌ {A = Checked Command} (err ansible_missing) (err e) =
            rw (run_command, f) at h in
          cc
      go (some binary) f =
          let k : ◌≡◌ {A = Checked Command} (ok (command_with c binary invocation false)) (err e) =
            rw (run_command, f) at h in
          cc

  -- A stage raises before it runs, runs its job and raises, or runs its job and returns its exit code.
  pub run_stage-post :
      (Q : Checked RunRecord × World → Type 0) (request : ApprovalRequest) (playbook name : String)
      (moment : Moment) (w : World)
      → ((e : DecisionError) → e ≢ run_timed_out → Q (err e, w))
      → ((binary : String)
          → c.ansible ≡ some binary
          → let job = stage_job request playbook name binary in
            (c.run w.runs job).exit_code ≡ none → Q (err run_timed_out, ran_job c job w))
      → ((binary : String) (x : RunRecord)
          → c.ansible ≡ some binary
          → let job = stage_job request playbook name binary in
            (c.run w.runs job).exit_code ≡ some x.exit_code → Q (ok x, ran_job c job w))
      → Q (run_stage c request playbook name moment w)
  unfolding run_stage
  run_stage-post Q request playbook name moment w missing late done =
      let log = stage_log c request.decision name in
      let invocation = stage_invocation c request playbook name in
      bind-post Q (lift (run_command c invocation false)) (run_stage_command c request log moment) w
        (λ e p. missing e (λ late. run_command_not_late invocation e p late))
        λ command p.
          let (binary, found, same) = run_command-eq-ok c invocation false command p in
          rw same (
            launch-post c
              (λ r.
                Q (and_then (λ out w. (ok (stage_record c request log moment out w), w)) r.0 r.1))
              (command_with c binary invocation false) log w (λ code e. done binary _ found e)
              (late binary found))

  -- The jobs of the verify run: one where the operation declares it and the run exited zero.
  abbrev pub verify_jobs : ApprovalRequest → RunRecord → String → List Launch
  verify_jobs request execution binary = elim request.decision.verify_playbook [
    | none ↦ []
    | some playbook ↦
        if is_zero_int execution.exit_code
        then stage_job request playbook "verify" binary ∷ []
        else []
  ]

  verify_stage-post :
      (Q : Checked (Option RunRecord) × World → Type 0) (request : ApprovalRequest) (x : RunRecord)
      (moment : Moment) (binary : String) (w : World)
      → c.ansible ≡ some binary
      → ((e : DecisionError) (w' : World) → w'.records ≡ w.records → Q (err e, w'))
      → ((v : Option RunRecord) (w' : World)
          → Staged request x v
          → w'.records ≡ w.records
          → w'.runs ≡ w.runs ++ verify_jobs request x binary
          → Q (ok v, w'))
      → Q (verify_stage c request x moment w)
  unfolding verify_stage
  verify_stage-post Q request x moment binary w found stopped done =
      go request.decision.verify_playbook refl (is_zero_int x.exit_code) refl
    where
      go :
          (o : Option String)
          → request.decision.verify_playbook ≡ o
          → (b : Bool) → is_zero_int x.exit_code ≡ b
          → Q (verify_stage c request x moment w)
      go none e b z = rw (verify_stage, e) (done none w (inl e) refl (rw (e, append-nil)))
      go (some p) e false z =
          rw (verify_stage, e, z) (done none w (inr z) refl (rw (e, z, append-nil)))
      go (some p) e true z =
          rw (verify_stage, e, z)
            (run_stage-post (λ r. Q (and_then (λ r w. (ok (some r), w)) r.0 r.1)) request p "verify"
              moment w (λ err _. stopped err w refl) (λ b f late. stopped run_timed_out _ refl)
              (λ b y f d.
                let same : b ≡ binary = cc in
                done (some y) _ ((λ n. cc), z) refl
                  (rw (e, z) (ap (λ k. w.runs ++ (stage_job request p "verify" k ∷ [])) same))))

  record_approval-post :
      (Q : Checked Decision × World → Type 0) (d : Decision) (w : World)
      → (lookup d.decision_id w.records ≢ none → Q (ok d, stored d w))
      → ((e : DecisionError) → Q (err e, w))
      → Q (record_approval c d w)
  unfolding record_approval
  record_approval-post Q d w done refused =
      update-post c (λ r. Q (and_then (λ _ w. (ok d, w)) r.0 r.1)) d w done refused

  -- An approval is refused and nothing happens; or it stops, with every record as it was; or the
  -- recorded operation ran, then its verify run where one is due, and the record tells of both.
  pub approve-post :
      (Q : Checked Decision × World → Type 0) (request : ApprovalRequest)
      (moment verify_moment : Moment) (w : World)
      → ((e : DecisionError) → Q (err e, w))
      → ((e : DecisionError) (w' : World)
          → admit request ≡ ok tt
          → w'.records ≡ w.records
          → Q (err e, w'))
      → ((binary : String) (x : RunRecord) (v : Option RunRecord) (w' : World)
          → admit request ≡ ok tt
          → c.ansible ≡ some binary
          → Staged request x v
          → w'.records ≡ w.records
          → w'.runs
            ≡ w.runs
              ++ (stage_job request request.decision.playbook "execution" binary
                  ∷ verify_jobs request x binary)
          → lookup request.decision.decision_id w.records ≢ none
          → Q (
            ok (approved_decision request x v moment),
            stored (approved_decision request x v moment) w',
          ))
      → Q (approve c request moment verify_moment w)
  unfolding approve approved_decision
  approve-post Q request moment verify_moment w refused stopped done =
      bind-post Q (lift (admit request)) (λ _. run_approved c request moment verify_moment) w
        (λ e p. refused e)
        λ a passed.
          run_stage-post
            (λ r. Q (and_then (verify_and_record c request moment verify_moment) r.0 r.1)) request
            request.decision.playbook "execution" moment w (λ e _. stopped e w passed refl)
            (λ b f late. stopped run_timed_out _ passed refl)
            λ b x f d.
              let job = stage_job request request.decision.playbook "execution" b in
              verify_stage-post
                (λ r. Q (
                  and_then (λ v. record_approval c (approved_decision request x v moment)) r.0 r.1))
                request x verify_moment b (ran_job c job w) f
                (λ e w' same. stopped e w' passed same)
                λ v w' staged same runs.
                  record_approval-post Q (approved_decision request x v moment) w'
                    (λ there.
                      done b x v w' passed f staged same
                        (runs ∙ append_assoc w.runs (job ∷ []) (verify_jobs request x b))
                        (rw (← same) there))
                    (λ e. stopped e w' passed same)
