-- ===== src/Tests/Approvals.antt =====
-- Approvals on the machine of the tests.
use cloudfall.Base.{String, false, none, some, [], ◌∷◌, ◌++◌, ◌≡◌, ◌≢◌, refl, ap, ◌↔◌}
use cloudfall.Base.{string_eq, option_eq, codes_eq, ◌==◌, if◌then◌else◌}
use cloudfall.Base.Text.{strip}
use cloudfall.Base.Dict.{lookup}
use cloudfall.Base.Results.{ok, err}
use cloudfall.Catalog.{scope_eq}
use cloudfall.Decision.Records.{Decision, RunRecord, proposed, verified, terminal}
use cloudfall.Decision.Errors.{run_timed_out}
use cloudfall.Decision.Inputs.{coerced}
use cloudfall.Decision.World.{Controller}
use cloudfall.Decision.Approve.{ApprovalRequest, admit, approve}
use cloudfall.Decision.World.{Launch}
use cloudfall.Base.{List}
use cloudfall.Decision.Approve.Timeouts.{Killed, approve_timeout}
use cloudfall.Decision.Approve.Laws.{admit_iff}
use cloudfall.Decision.Approve.Promises.{
  Earned, approve_gate, approve_error-records, lookup-approve, approve-Earned, runs-approve,
  approve_again, IsRunOf, AreVerifyRuns,
}
use cloudfall.Decision.Propose.{propose}
use cloudfall.Decision.Sound.{IsSound, Reach, here, next, propose_step, approve_step, Reach-IsSound}
use cloudfall.Tests.Machine.{
  machine, controller_with, hanging, request, noon, later, empty, proposal, opened, approval,
}

-- The decision that the approval returns.
abbrev approved : Decision
approved = elim (approve machine approval later later opened).0 [ ok d ↦ d | err e ↦ proposal ]

approval_returns :
    approve machine approval later later opened
    ≡ (ok approved, (approve machine approval later later opened).1)
unfolding approve string_eq
approval_returns = refl

approval_verifies : approved.status ≡ verified
unfolding approve string_eq
approval_verifies = refl

approval_runs : (approve machine approval later later opened).1 ≢ opened
unfolding approve string_eq
approval_runs e = let k = ap (λ w. w.runs) e in cc

approve_gate_example :
    (approval.decision.status ≡ proposed)
    × (approval.decision.replay ≡ none)
    × ((strip approval.approver == "") ≡ false)
    × (approval.via ≡ terminal)
approve_gate_example = approve_gate machine approval later later opened approval_runs

abbrev stuck : Controller
stuck = controller_with hanging

stuck_found : (approve stuck approval later later opened).0 ≡ err run_timed_out
unfolding approve string_eq
stuck_found = refl

approve_error-records_example :
    (approve stuck approval later later opened).1.records ≡ opened.records
approve_error-records_example =
    approve_error-records stuck approval later later opened run_timed_out stuck_found

approve_timeout_example :
    (admit approval ≡ ok tt)
    × Killed stuck approval opened (approve stuck approval later later opened).1
approve_timeout_example = approve_timeout stuck approval later later opened stuck_found

admit_iff_example : (admit approval ≡ ok tt) ↔ (
    (proposal.status ≡ proposed)
    × (proposal.replay ≡ none)
    × ((strip "roman" == "") ≡ false)
    × (terminal ≡ terminal))
admit_iff_example = admit_iff approval

approve-Earned_example : Earned approved.status approved
approve-Earned_example = approve-Earned machine approval later later opened approval_returns

lookup-approve_example :
    (lookup proposal.decision_id opened.records ≢ none)
    × (approved.decision_id ≡ proposal.decision_id)
    × ((j : String)
        → lookup j (approve machine approval later later opened).1.records
          ≡ (if j == proposal.decision_id then some approved else lookup j opened.records))
lookup-approve_example = lookup-approve machine approval later later opened approval_returns

runs-approve_example :
    (binary : String) × (x : RunRecord) × (job : Launch) × (verify : List Launch) × (machine.ansible
      ≡ some binary)
    × (approved.execution ≡ some x)
    × ((approve machine approval later later opened).1.runs ≡ [] ++ (job ∷ verify))
    × IsRunOf machine approval binary "restart.yml" "execution" job
    × AreVerifyRuns machine approval binary x verify
runs-approve_example = runs-approve machine approval later later opened approval_returns

abbrev second_approval : ApprovalRequest
second_approval = record approval { decision = approved }

approve_again_example : (approve machine second_approval later later opened).1 ≡ opened
approve_again_example =
    approve_again machine approval later later opened approval_returns second_approval later later
      opened refl

empty-IsSound : IsSound empty
unfolding lookup
empty-IsSound = record { keyed = λ j d h. cc; one_open = λ i j d e hi hj. cc }

proposal_returns :
    propose machine request noon empty ≡ (ok proposal, (propose machine request noon empty).1)
unfolding propose string_eq scope_eq option_eq coerced
proposal_returns = refl

history :
    Reach machine empty
      (approve machine approval later later (propose machine request noon empty).1).1
history =
    next (next here (propose_step request noon proposal proposal_returns))
      (approve_step approval later later refl)

Reach-IsSound_example :
    IsSound (approve machine approval later later (propose machine request noon empty).1).1
Reach-IsSound_example = Reach-IsSound history empty-IsSound
