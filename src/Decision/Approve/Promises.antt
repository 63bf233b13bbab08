-- ===== src/Decision/Approve/Promises.antt =====
-- What a caller of `approve` may rely on.
use cloudfall.Base.{
  String, Bool, true, false, Option, none, some, List, [], ◌∷◌, ◌++◌, inl, inr, ◌⊎◌,
}
use cloudfall.Base.{◌≡◌, ◌≢◌, refl, sym, ap, ◌∙◌, string_eq, ◌==◌, if◌then◌else◌, Bool-cases}
use mathlib.Core.Path.{subst}
use cloudfall.Base.{◌<>◌, Option-cases}
use cloudfall.Decision.Records.{Inputs}
use cloudfall.Decision.World.{Arg, word, json_of, Launch}
use cloudfall.Decision.Run.{limit, extra_vars, ◌/◌}
use cloudfall.Base.Int.{is_zero_int}
use cloudfall.Base.Text.{strip}
use cloudfall.Base.Dict.{lookup, lookup-put}
use cloudfall.Base.Results.{ok, err}
use cloudfall.Decision.Records.{
  DecisionStatus, proposed, executed, verified, failed, terminal, RunRecord, Decision,
}
use cloudfall.Decision.Errors.{DecisionError}
use cloudfall.Decision.World.{Moment, Controller, World}
use cloudfall.Decision.World.Binds.{ok-pair-injective}
use cloudfall.Decision.Approve.{ApprovalRequest, outcome, admit, approved_decision, approve}
use cloudfall.Decision.Approve.Laws.{admit_iff, stage_job, verify_jobs, Staged, approve-post}

-- The status of an approved decision is the one that its runs have earned.
abbrev pub Earned : DecisionStatus → Decision → Type 0
Earned verified d =
    (x : RunRecord) × (y : RunRecord) × (d.execution ≡ some x)
    × (d.verification ≡ some y)
    × (is_zero_int x.exit_code ≡ true)
    × (is_zero_int y.exit_code ≡ true)
    × (y.changed ≡ [])
Earned executed d =
    (x : RunRecord) × (d.execution ≡ some x)
    × (d.verification ≡ none)
    × (d.verify_playbook ≡ none)
    × (is_zero_int x.exit_code ≡ true)
Earned failed d =
    (x : RunRecord) × (d.execution ≡ some x)
    × ((is_zero_int x.exit_code ≡ false)
        ⊎ ((y : RunRecord) × (d.verification ≡ some y)
            × ((is_zero_int y.exit_code ≡ false) ⊎ (y.changed ≢ []))))
Earned _ d = ⊥

approved_decision-Earned :
    (request : ApprovalRequest) (x : RunRecord) (v : Option RunRecord) (moment : Moment)
    → Staged request x v
    → let d = approved_decision request x v moment in Earned d.status d
unfolding approved_decision
approved_decision-Earned request x none moment (inl e) =
    elim (Bool-cases (is_zero_int x.exit_code)) [
      | inl z ↦ rw (outcome, z, e) (x, refl, refl, refl, z)
      | inr z ↦ rw (outcome, z) (x, refl, inl z)
    ]
approved_decision-Earned request x none moment (inr z) = rw (outcome, z) (x, refl, inl z)
approved_decision-Earned request x (some y) moment (p, z) =
    go request.decision.verify_playbook refl (is_zero_int y.exit_code) refl y.changed refl
  where
    go :
        (o : Option String)
        → request.decision.verify_playbook ≡ o
        → (b : Bool) → is_zero_int y.exit_code ≡ b
        → (hosts : List String) → y.changed ≡ hosts
        → let d = approved_decision request x (some y) moment in Earned d.status d
    go none e b zy hosts h = absurd (p e)
    go (some playbook) e false zy hosts h = rw (outcome, z, e, zy) (x, refl, inr (y, refl, inl zy))
    go (some playbook) e true zy [] h =
        rw (outcome, z, e, zy, h) (x, record y { changed = [] }, refl, refl, z, zy, refl)
    go (some playbook) e true zy (host ∷ hosts) h =
        rw (outcome, z, e, zy, h)
          (x, refl, inr (record y { changed = host ∷ hosts }, refl, inr (λ n. cc)))

-- The words that name the targets and the inputs of a run: none for the whole fleet, none for no inputs.
unfoldable pub target_words : Option String → List Arg
target_words none = []
target_words (some pattern) = word "--limit" ∷ word pattern ∷ []

unfoldable pub input_words : Inputs → List Arg
input_words [] = []
input_words (i ∷ is) = word "--extra-vars" ∷ json_of (i ∷ is) ∷ []

-- The job is a run of the playbook for real, with the targets and inputs of the decision, and its log
-- and its reports are kept under the decision's id and the name of the stage.
pub record IsRunOf (c : Controller) (request : ApprovalRequest) (binary playbook name : String)
    (job : Launch) : Type 0 where
  pub runs :
      job.argv
      ≡ word binary
        ∷ word "--diff"
        ∷ (target_words request.decision.targets.pattern
            ++ (input_words request.decision.inputs
                ++ (word (request.repository <> "/" <> playbook) ∷ [])))
  pub reports :
      lookup "ANSIBLE_CALLBACK_TREE_DIR" job.environment
      ≡ some (
          c.resolve (
            (c.directory <> "/" <> "tree") <> "/" <> (request.decision.decision_id <> "-" <> name)))
  pub logs :
      job.log_path ≡ c.directory <> "/" <> (request.decision.decision_id <> "-" <> name <> ".log")

-- The jobs of a verify run: one if the operation declares it and the execution exited zero, else none.
abbrev pub AreVerifyRuns : Controller → ApprovalRequest → String → RunRecord → List Launch → Type 0
AreVerifyRuns c request binary x jobs =
    ((request.decision.verify_playbook ≡ none) × (jobs ≡ []))
    ⊎ ((is_zero_int x.exit_code ≡ false) × (jobs ≡ []))
    ⊎ ((playbook : String) × (job : Launch) × (request.decision.verify_playbook ≡ some playbook)
        × (is_zero_int x.exit_code ≡ true)
        × (jobs ≡ job ∷ [])
        × IsRunOf c request binary playbook "verify" job)

stage_job-IsRunOf :
    (c : Controller) (request : ApprovalRequest) (binary playbook name : String)
    → IsRunOf c request binary playbook name (stage_job c request playbook name binary)
unfolding lookup target_words input_words string_eq
stage_job-IsRunOf c request binary playbook name = record {
  runs = go request.decision.targets.pattern request.decision.inputs;
  reports = refl;
  logs = refl;
}
  where
    go :
        (pattern : Option String) (inputs : Inputs)
        → word binary
            ∷ word "--diff"
            ∷ (limit pattern ++ (extra_vars inputs ++ (word (request.repository / playbook) ∷ [])))
          ≡ word binary
            ∷ word "--diff"
            ∷ (target_words pattern
                ++ (input_words inputs ++ (word (request.repository <> "/" <> playbook) ∷ [])))
    go none [] = refl
    go none (i ∷ is) = refl
    go (some p) [] = refl
    go (some p) (i ∷ is) = refl

verify_jobs-AreVerifyRuns :
    (c : Controller) (request : ApprovalRequest) (x : RunRecord) (binary : String)
    → AreVerifyRuns c request binary x (verify_jobs c request x binary)
verify_jobs-AreVerifyRuns c request x binary =
    elim (Option-cases request.decision.verify_playbook) [
      | inl e ↦ inl (e, rw e refl)
      | inr (playbook, e) ↦ elim (Bool-cases (is_zero_int x.exit_code)) [
        | inl z ↦ inr (
            inr (
              playbook,
              stage_job c request playbook "verify" binary,
              e,
              z,
              rw (e, z) refl,
              stage_job-IsRunOf c request binary playbook "verify",
            ))
        | inr z ↦ inr (inl (z, rw (e, z) refl))
      ]
    ]

module _ (c : Controller) (request : ApprovalRequest) (moment verify_moment : Moment)
    (w : World) where
  -- If an approval runs anything or writes anything, then the decision was an open proposal made
  -- live, and the approval names a person and came over the terminal.
  pub approve_gate :
      (approve c request moment verify_moment w).1 ≢ w
      → (request.decision.status ≡ proposed)
        × (request.decision.replay ≡ none)
        × ((strip request.approver == "") ≡ false)
        × (request.via ≡ terminal)
  approve_gate =
      approve-post c
        (λ r.
          r.1 ≢ w
          → (request.decision.status ≡ proposed)
            × (request.decision.replay ≡ none)
            × ((strip request.approver == "") ≡ false)
            × (request.via ≡ terminal))
        request moment verify_moment w (λ e n. absurd (n refl))
        (λ e w' passed _ _. (admit_iff request).0 passed)
        (λ b x v w' passed _ _ _ _ _ _. (admit_iff request).0 passed)

  -- An approval that raises leaves every record as it was, whatever it has run.
  pub approve_error-records :
      (e : DecisionError)
      → (approve c request moment verify_moment w).0 ≡ err e
      → (approve c request moment verify_moment w).1.records ≡ w.records
  approve_error-records e =
      approve-post c (λ r. r.0 ≡ err e → r.1.records ≡ w.records) request moment verify_moment w
        (λ _ _. refl) (λ _ w' _ same _. same) (λ b x v w' _ _ _ _ _ _ h. cc)

  module _ {d : Decision} {w' : World}
      (approved : approve c request moment verify_moment w ≡ (ok d, w')) where
    -- An approval that returns a decision has recorded it under the id of the approved one, over a
    -- record that was there, and has changed no other record.
    pub lookup-approve :
        (lookup request.decision.decision_id w.records ≢ none)
        × (d.decision_id ≡ request.decision.decision_id)
        × ((j : String)
            → lookup j w'.records
              ≡ (if j == request.decision.decision_id then some d else lookup j w.records))
    lookup-approve =
        approve-post c
          (λ r.
            r ≡ (ok d, w')
            → (lookup request.decision.decision_id w.records ≢ none)
              × (d.decision_id ≡ request.decision.decision_id)
              × ((j : String)
                  → lookup j w'.records
                    ≡ (if j == request.decision.decision_id then some d else lookup j w.records)))
          request moment verify_moment w (λ e h. cc) (λ e _ _ _ h. cc)
          (λ b x v u _ _ _ same _ there h.
            let (e, t) = ok-pair-injective h in
            let id : request.decision.decision_id ≡ d.decision_id =
              unfold approved_decision in ap (λ z. z.decision_id) e in
            (there, sym id, λ j. rw (← t, lookup-put, e, same, ← id)))
          approved

    -- An approval that returns a decision gives it the status that its runs have earned: verified if
    -- the run and the verify run exited zero and the verify run changed nothing, executed if the run
    -- exited zero and there is no verify playbook, failed if a run exited otherwise or the verify run
    -- changed something; and no other status.
    pub approve-Earned : Earned d.status d
    approve-Earned =
        approve-post c (λ r. r ≡ (ok d, w') → Earned d.status d) request moment verify_moment w
          (λ e h. cc) (λ e _ _ _ h. cc)
          (λ b x v u _ _ staged _ _ _ h.
            subst (λ x. Earned x.status x) (ok-pair-injective h).0
              (approved_decision-Earned request x v moment staged))
          approved

    jobs-approve :
        (binary : String) × (x : RunRecord) × (c.ansible ≡ some binary)
        × (d.execution ≡ some x)
        × (w'.runs
            ≡ w.runs
              ++ (stage_job c request request.decision.playbook "execution" binary
                  ∷ verify_jobs c request x binary))
    jobs-approve =
        approve-post c
          (λ r.
            r ≡ (ok d, w')
            → (binary : String) × (x : RunRecord) × (c.ansible ≡ some binary)
              × (d.execution ≡ some x)
              × (w'.runs
                  ≡ w.runs
                    ++ (stage_job c request request.decision.playbook "execution" binary
                        ∷ verify_jobs c request x binary)))
          request moment verify_moment w (λ e h. cc) (λ e _ _ _ h. cc)
          (λ b x v u _ found _ _ runs _ h.
            let (e, t) = ok-pair-injective h in
            (b, x, found, unfold approved_decision in sym (ap (λ z. z.execution) e), rw (← t) runs))
          approved

    -- An approval that returns a decision has run the recorded playbook for real, with the recorded
    -- targets and inputs, then, if that exited zero and the decision names a verify playbook, that one
    -- with the same targets and inputs, and nothing else; each run writes to a log and reports of its own
    -- under the decision's id.
    pub runs-approve :
        (binary : String) × (x : RunRecord) × (job : Launch) × (verify : List Launch) × (c.ansible
          ≡ some binary)
        × (d.execution ≡ some x)
        × (w'.runs ≡ w.runs ++ (job ∷ verify))
        × IsRunOf c request binary request.decision.playbook "execution" job
        × AreVerifyRuns c request binary x verify
    runs-approve =
        let (b, x, found, is_execution, runs) = jobs-approve in
        (
          b,
          x,
          stage_job c request request.decision.playbook "execution" b,
          verify_jobs c request x b,
          found,
          is_execution,
          runs,
          stage_job-IsRunOf c request b request.decision.playbook "execution",
          verify_jobs-AreVerifyRuns c request x b,
        )

    -- The decision that an approval has returned cannot be approved again: the attempt runs nothing and
    -- writes nothing.
    pub approve_again :
        (again : ApprovalRequest) (at verify_at : Moment) (u : World)
        → again.decision ≡ d
        → (approve c again at verify_at u).1 ≡ u
    approve_again again at verify_at u same =
        approve-post c (λ r. r.1 ≡ u) again at verify_at u (λ e. refl)
          (λ e u' passed _. absurd (settled again same passed))
          (λ b x v u' passed _ _ _ _ _. absurd (settled again same passed))
      where
        settled : (again : ApprovalRequest) → again.decision ≡ d → admit again ≡ ok tt → ⊥
        settled again same passed =
            subst (λ s. Earned s d) (ap (λ z. z.status) (sym same) ∙ ((admit_iff again).0 passed).0)
              approve-Earned
