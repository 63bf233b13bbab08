-- ===== src/Decision/Approve/Timeouts.antt =====
-- Approvals that end because a run of theirs is killed at the time limit.
use cloudfall.Base.{
  String, Bool, true, false, Option, none, some, List, [], ◌∷◌, ◌++◌, inl, inr, ◌⊎◌,
}
use cloudfall.Base.{◌≡◌, ◌≢◌, refl, ap, ◌∙◌, string_eq, arith}
use cloudfall.Base.Int.{is_zero_int}
use cloudfall.Base.Results.{ok, err}
use cloudfall.Decision.Records.{RunRecord, Decision}
use cloudfall.Decision.Errors.{Checked, run_timed_out}
use cloudfall.Decision.World.{Moment, Launch, Controller, World, and_then, lift}
use cloudfall.Decision.World.Binds.{bind-post}
use cloudfall.Decision.Store.{update, write}
use cloudfall.Decision.Approve.{
  ApprovalRequest, admit, refuse_replayed, refuse_unapprovable, approved_decision, verify_stage,
  verify_and_record, record_approval, run_approved, approve,
}
use cloudfall.Decision.Approve.Laws.{run_stage-post, stage_job}

module _ (c : Controller) (request : ApprovalRequest) where
  -- No run of it was killed, as far as its result tells.
  abbrev InTime : {A : Type 0} → Checked A × World → Type 0
  InTime r = r.0 ≢ err run_timed_out

  -- The job was started after the runs `before`, as the last one, and killed; no record has changed.
  pub record Killed (w v : World) : Type 0 where
    pub before : List Launch
    pub job : Launch
    pub killed : (c.run before job).exit_code ≡ none
    pub last_run : v.runs ≡ before ++ (job ∷ [])
    pub first_or_second : (before ≡ w.runs) ⊎ ((done : Launch) × (before ≡ w.runs ++ (done ∷ [])))
    pub records : v.records ≡ w.records

  admit_in_time : admit request ≢ err run_timed_out
  unfolding admit refuse_replayed refuse_unapprovable
  admit_in_time h = ground arith

  update_in_time : (d : Decision) (w : World) → (update c d w).0 ≢ err run_timed_out
  unfolding update write
  update_in_time d w h = ground arith

  record_approval_in_time :
      (d : Decision) (w : World) → (record_approval c d w).0 ≢ err run_timed_out
  unfolding record_approval
  record_approval_in_time d w =
      bind-post (λ r. r.0 ≢ err run_timed_out) (update c d) (λ _ u. (ok d, u)) w
        (λ e p h. let k : e ≡ run_timed_out = cc in update_in_time d w (p ∙ ap err k)) (λ _ _ h. cc)

  verify_stage_killed :
      (x : RunRecord) (moment : Moment) (w : World)
      → (verify_stage c request x moment w).0 ≡ err run_timed_out
      → (job : Launch) × ((c.run w.runs job).exit_code ≡ none)
        × ((verify_stage c request x moment w).1.runs ≡ w.runs ++ (job ∷ []))
        × ((verify_stage c request x moment w).1.records ≡ w.records)
  unfolding verify_stage
  verify_stage_killed x moment w =
      go request.decision.verify_playbook refl (is_zero_int x.exit_code) refl
    where
      Ends : Checked (Option RunRecord) × World → Type 0
      Ends r =
          r.0 ≡ err run_timed_out
          → (job : Launch) × ((c.run w.runs job).exit_code ≡ none)
            × (r.1.runs ≡ w.runs ++ (job ∷ []))
            × (r.1.records ≡ w.records)

      go :
          (o : Option String)
          → request.decision.verify_playbook ≡ o
          → (b : Bool) → is_zero_int x.exit_code ≡ b
          → Ends (verify_stage c request x moment w)
      go none e b z = rw (verify_stage, e) (λ h. cc)
      go (some p) e false z = rw (verify_stage, e, z) (λ h. cc)
      go (some p) e true z =
          rw (verify_stage, e, z)
            (run_stage-post c (λ r. Ends (and_then (λ r w. (ok (some r), w)) r.0 r.1)) request p
              "verify" moment w (λ e n h. absurd (n cc))
              (λ binary f late _. (stage_job c request p "verify" binary, late, refl, refl))
              (λ b y f d h. cc))

  -- An approval that raises because the time is up has passed the checks, has started one run or two, the
  -- last of which was killed, and has left every record as it was.
  pub approve_timeout :
      (moment verify_moment : Moment) (w : World)
      → (approve c request moment verify_moment w).0 ≡ err run_timed_out
      → (admit request ≡ ok tt) × Killed w (approve c request moment verify_moment w).1
  unfolding approve run_approved verify_and_record
  approve_timeout moment verify_moment w =
      bind-post (λ r. r.0 ≡ err run_timed_out → (admit request ≡ ok tt) × Killed w r.1)
        (lift (admit request)) (λ _. run_approved c request moment verify_moment) w
        (λ e p h. let k : e ≡ run_timed_out = cc in absurd (admit_in_time (p ∙ ap err k)))
        λ _ passed h. (passed, started h)
    where
      Ends : {A : Type 0} → Checked A × World → Type 0
      Ends r = r.0 ≡ err run_timed_out → Killed w r.1

      started : Ends (run_approved c request moment verify_moment w)
      started =
          run_stage-post c
            (λ r. Ends (and_then (verify_and_record c request moment verify_moment) r.0 r.1))
            request request.decision.playbook "execution" moment w (λ e n h. absurd (n cc))
            (λ binary f late _. record {
              before = w.runs;
              job = stage_job c request request.decision.playbook "execution" binary;
              killed = late;
              last_run = refl;
              first_or_second = inl refl;
              records = refl;
            })
            (λ binary x f d.
              bind-post Ends (verify_stage c request x verify_moment)
                (λ v. record_approval c (approved_decision request x v moment)) _
                (λ e p h.
                  let k : e ≡ run_timed_out = cc in
                  let (job, late, runs, same) =
                    verify_stage_killed x verify_moment _ (p ∙ ap err k) in
                  record {
                    before = _;
                    job = job;
                    killed = late;
                    last_run = runs;
                    first_or_second = inr (_, refl);
                    records = same;
                  })
                (λ v _ h. absurd (record_approval_in_time _ _ h)))
