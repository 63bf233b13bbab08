-- ===== src/Tests/Machine.antt =====
-- A controller and an operation to run the model on.
use cloudfall.Base.{true, false, none, some, List, [], ◌∷◌}
use cloudfall.Base.Int.{pos}
use cloudfall.Base.Json.{obj, bool, str, field, end}
use cloudfall.Catalog.{Operation, mutating, host, integer}
use cloudfall.Decision.Records.{Decision, text, check_then_approve, proposed, terminal}
use cloudfall.Decision.Records
use cloudfall.Decision.World.{Moment, Launch, RunOutput, Controller, World}
use cloudfall.Decision.Approve.{ApprovalRequest}
use cloudfall.Decision.Prepare.{ProposalRequest}

-- Every run exits zero; the first changes the host and the later ones change nothing.
abbrev pub obedient : List Launch → Launch → RunOutput
obedient [] job = record {
  exit_code = some (pos 0);
  printed = "changed";
  reports = ("web-1", obj (field "changed" (bool true) end)) ∷ [];
}
obedient (_ ∷ _) job = record {
  exit_code = some (pos 0);
  printed = "ok";
  reports = ("web-1", obj (field "changed" (bool false) end)) ∷ [];
}

-- Every run is killed at the time limit.
abbrev pub hanging : List Launch → Launch → RunOutput
hanging runs job = record { exit_code = none; printed = "..."; reports = [] }

abbrev pub controller_with : (List Launch → Launch → RunOutput) → Controller
controller_with run = record {
  directory = "decisions";
  ansible = some "ansible-playbook";
  is_file = λ path. false;
  resolve = λ path. path;
  relative_to = λ path base. none;
  sha256 = λ content. content;
  valid = λ decision. true;
  run = run;
  evidence = λ path.
      some (("web-1", obj (field "spec" (obj (field "observedAt" (str "noon") end)) end)) ∷ []);
}

abbrev pub machine : Controller
machine = controller_with obedient

abbrev pub restart : Operation
restart = record {
  operation_id = "restart-web";
  playbook = "restart.yml";
  risk = mutating;
  targets = host;
  inputs = record { name = "delay"; type = integer; required = true; description = none } ∷ [];
  preconditions = [];
  verify = some "verify.yml";
  description = none;
  source = none;
}

abbrev pub request : ProposalRequest
request = record {
  operation = restart;
  targets = record { scope = host; pattern = some " web-1 " };
  inputs = ("delay", text " 007 ") ∷ [];
  repository = "repo";
  observations = "observed";
  replay = none;
}

abbrev pub noon : Moment
noon = record { stamp = "20260921120000"; timestamp = "2026-09-21T12:00:00Z" }

abbrev pub later : Moment
later = record { stamp = "20260921120100"; timestamp = "2026-09-21T12:01:00Z" }

abbrev pub empty : World
empty = record { records = []; artifacts = []; runs = [] }

-- What the first proposal on this machine records.
abbrev pub proposal : Decision
proposal = record {
  decision_id = "restart-web-20260921120000";
  proposed_at = "2026-09-21T12:00:00Z";
  operation_id = "restart-web";
  playbook = "restart.yml";
  risk = mutating;
  verify_playbook = some "verify.yml";
  targets = record { scope = host; pattern = some "web-1" };
  inputs = ("delay", Records.integer (pos 7)) ∷ [];
  requirement = check_then_approve;
  reason =
      "a mutating operation runs in check mode first and waits for an approval of the recorded diff";
  basis = record { observations = "observed"; observed_at = ("web-1", "noon") ∷ [] };
  check = record {
    exit_code = pos 0;
    changed = "web-1" ∷ [];
    unchanged = [];
    diff = record {
      path = "decisions/restart-web-20260921120000.diff";
      sha256 = "changed";
      size = 7;
    };
  };
  status = proposed;
  approval = none;
  execution = none;
  verification = none;
  verdict = none;
  ran_exit_code = none;
  superseded_by = none;
  replay = none;
}

-- The world in which that proposal is open.
abbrev pub opened : World
opened = record {
  records = ("restart-web-20260921120000", proposal) ∷ [];
  artifacts = ("decisions/restart-web-20260921120000.diff", "changed") ∷ [];
  runs = [];
}

abbrev pub approval : ApprovalRequest
approval = record { decision = proposal; approver = "roman"; repository = "repo"; via = terminal }
