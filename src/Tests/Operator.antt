-- ===== src/Tests/Operator.antt =====
-- One site with one alert, and runs of the operator on it.
use Prim.Native.String.{count}
use cloudfall.Base.{
  ◌≤◌, String, true, false, none, some, List, [], ◌∷◌, ◌≡◌, ◌≢◌, refl, ap, ◌↔◌, ◌==◌, if◌then◌else◌,
}
use cloudfall.Base.{string_eq, nat_eq, arith}
use cloudfall.Base.Dict.{lookup}
use cloudfall.Base.Results.{ok, err}
use cloudfall.Decision.Records.{terminal}
use cloudfall.Operator.Records.{proposed, verified, OperatorAlert, OperatorProposal}
use cloudfall.Operator.World.{coded, still_running, Site, World}
use cloudfall.Operator.Approve.{ApproveOptions, failure_detail, detail_max, approve}
use cloudfall.Operator.Approve.Promises.{Answered, approve_of_open, approve_ends, approve-Answered}
use cloudfall.Operator.Approve.Failures.{count-failure_detail}
use cloudfall.Operator.Trigger.{DeclaredService, alert_proposal, run_once}
use cloudfall.Operator.Sound.{IsSound}
use cloudfall.Operator.Histories.{beginning, followed, alert_pass, approval, History-IsSound}
use cloudfall.Operator.Autonomy.{
  OperatorPolicy, Instant, Reason, autonomy_decision, autonomous_pass,
}
use cloudfall.Operator.Autonomy.License.{Licensed}
use cloudfall.Operator.Autonomy.Laws.{autonomy_decision_iff}
use cloudfall.Operator.Autonomy.Pass.{Supervised, autonomous_pass-Supervised}
use cloudfall.Operator.Store.{list_all}
use cloudfall.Base.{◌⊎◌}

abbrev down : OperatorAlert
down = record {
  name = "WebDown";
  cloudfall_rule = "web-up";
  severity = "critical";
  environment = "production";
  server = "web-1";
  service = "web";
  active_at = "noon";
  fingerprint = "0a1b";
}

-- The engine works, and the trigger resolves at the second question.
abbrev site : Site
site = record {
  valid = λ p. true;
  execute = λ events p. ok tt;
  verify = λ events p.
      ok (elim events [ [] ↦ false | _ ∷ [] ↦ false | _ ∷ _ ∷ [] ↦ false | _ ∷ _ ∷ _ ↦ true ]);
  fetch = λ events. ok (down ∷ []);
  now = λ events. "2026-09-21T12:00:00+00:00";
  timestamp = λ at. 0;
}

abbrev services : List DeclaredService
services = record { resource_id = "web"; server_id = "web-1" } ∷ []

abbrev time : String
time = "2026-09-21T12:00:00+00:00"

abbrev blank : World
blank = record { proposals = []; events = [] }

abbrev first : OperatorProposal
first = alert_proposal down time "op-20260921120000-0a1b"

abbrev proposed_first : World
proposed_first = record { proposals = ("op-20260921120000-0a1b", first) ∷ []; events = [] }

alert_is_proposed :
    (run_once site services time blank).1.proposals ≡ ("op-20260921120000-0a1b", first) ∷ []
unfolding run_once string_eq nat_eq
alert_is_proposed = refl

blank-IsSound : IsSound blank
unfolding lookup
blank-IsSound = record {
  keyed = λ j p h. cc;
  licensed = λ j p h n. cc;
  single = λ i j p q hi hj. cc;
}

abbrev patient : ApproveOptions
patient = record { verify_timeout = 30; poll_interval = 10 }

abbrev id : String
id = "op-20260921120000-0a1b"

History-IsSound_example :
    IsSound (approve site id terminal patient (run_once site services time blank).1).1
History-IsSound_example =
    History-IsSound
      (followed (followed beginning (alert_pass services time refl))
        (approval id terminal patient refl))
      blank-IsSound

abbrev settled : OperatorProposal
settled = elim (approve site id terminal patient proposed_first).0 [ ok d ↦ d | err e ↦ first ]

first_settles :
    approve site id terminal patient proposed_first
    ≡ (ok settled, (approve site id terminal patient proposed_first).1)
unfolding approve string_eq nat_eq
first_settles = refl

first_verifies : settled.status ≡ verified
unfolding approve string_eq nat_eq
first_verifies = refl

approval_acts : (approve site id terminal patient proposed_first).1 ≢ proposed_first
unfolding approve string_eq nat_eq
approval_acts e = let k = ap (λ w. w.events) e in cc

approve_of_open_example :
    (p : OperatorProposal) × (lookup id proposed_first.proposals ≡ some p)
    × (p.status ≡ proposed)
    × (terminal ≡ terminal)
approve_of_open_example = approve_of_open site id terminal patient proposed_first approval_acts

approve_ends_example : (approve site id terminal patient proposed_first).0 ≢ err still_running
approve_ends_example = approve_ends site id terminal patient proposed_first (omega arith)

approve-Answered_example :
    (p : OperatorProposal) × (lookup id proposed_first.proposals ≡ some p)
    × (p.status ≡ proposed)
    × (site.execute [] p ≡ ok tt)
    × Answered site p [] (approve site id terminal patient proposed_first).1.events settled
    × (settled.approval ≡ some (record { mode = "human"; policy = none; via = some terminal }))
    × ((j : String)
        → lookup j (approve site id terminal patient proposed_first).1.proposals
          ≡ (if j == p.resource_id then some settled else lookup j proposed_first.proposals))
approve-Answered_example = approve-Answered site id terminal patient proposed_first first_settles

-- The engine fails.
abbrev broken : Site
broken = record site {
  execute = λ events p. err (coded "engine_failed" "engine_failed: unreachable");
}

abbrev after_failure : World
after_failure = (approve broken id terminal patient proposed_first).1

detail_is_trimmed :
    failure_detail "engine_failed" "engine_failed: unreachable"
    ≡ "execution failed: engine_failed: unreachable"
unfolding failure_detail nat_eq
detail_is_trimmed = refl

count-failure_detail_example :
    count (failure_detail "engine_failed" "engine_failed: unreachable") ≤ detail_max
count-failure_detail_example =
    count-failure_detail "engine_failed" "engine_failed: unreachable" (omega arith)

-- A policy that needs no history, outside its quiet hours.
abbrev policy : OperatorPolicy
policy = record {
  resource_id = "standard";
  environment = "production";
  grants = record { operation_kind = "converge-services"; required_verified_runs = 0 } ∷ [];
  max_autonomous_per_hour = 2;
  quiet_hours = some (record { start = 1320; end = 360 });
}

abbrev midday : Instant
midday = record { minute = 720; seconds = 100000 }

autonomy_decision_iff_example :
    ((reason : Reason) × (autonomy_decision site first policy midday proposed_first
        ≡ ok (true, reason)))
    ↔ Licensed site midday first policy proposed_first
autonomy_decision_iff_example = autonomy_decision_iff site midday first policy proposed_first

abbrev after_pass : World
after_pass =
    (autonomous_pass site (("production", policy) ∷ []) (("web-1", "production") ∷ []) patient
      midday proposed_first).1

-- The pass does act.
pass_acts : after_pass ≢ proposed_first
unfolding autonomous_pass string_eq nat_eq
pass_acts e = let k = ap (λ w. w.events) e in cc

autonomous_pass-Supervised_example :
    (after_pass ≡ proposed_first)
    ⊎ ((all : List OperatorProposal) × (list_all site proposed_first ≡ ok all)
        × Supervised site midday
            (("production", policy) ∷ [])
            (("web-1", "production") ∷ [])
            patient
            all
            proposed_first
            after_pass)
autonomous_pass-Supervised_example =
    autonomous_pass-Supervised site midday (("production", policy) ∷ [])
      (("web-1", "production") ∷ []) patient proposed_first
