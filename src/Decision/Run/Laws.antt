-- ===== src/Decision/Run/Laws.antt =====
-- What one run leaves in the world: a launch more, its log, and every record as it was.
use cloudfall.Base.{String, Bool, Option, none, some, List, [], ◌∷◌, ◌++◌}
use cloudfall.Base.{◌≡◌, refl, string_eq, if◌then◌else◌}
use cloudfall.Base.Int.{ℤ}
use cloudfall.Base.Dict.{put}
use cloudfall.Base.Json.{Json}
use cloudfall.Base.Results.{Result, ok, err}
use cloudfall.Decision.Errors.{Checked, ansible_missing, run_timed_out}
use cloudfall.Decision.World.{word, Launch, Controller, World}
use cloudfall.Decision.Run.{
  PlaybookInvocation, Command, ◌/◌, limit, extra_vars, configuration, run_command, launch,
}

-- The job that a command is.
abbrev pub job_of : Command → String → Launch
job_of command log_path = record {
  argv = command.argv;
  environment = command.environment;
  log_path = log_path;
}

module _ (c : Controller) where
  -- The world after a job was run.
  abbrev pub ran_job : Launch → World → World
  ran_job job w = record w {
    artifacts = put job.log_path (c.run w.runs job).printed w.artifacts;
    runs = w.runs ++ (job ∷ []);
  }

  -- A launch always runs its job; it returns, or raises when the time is up.
  pub launch-post :
      (Q : Checked (ℤ × List (String × Json)) × World → Type 0) (command : Command)
      (log_path : String) (w : World)
      → let job = job_of command log_path in
        ((code : ℤ)
          → (c.run w.runs job).exit_code ≡ some code
          → Q (ok (code, (c.run w.runs job).reports), ran_job job w))
        → ((c.run w.runs job).exit_code ≡ none → Q (err run_timed_out, ran_job job w))
        → Q (launch c command log_path w)
  unfolding launch
  launch-post Q command log_path w done late =
      go (c.run w.runs (job_of command log_path)).exit_code refl
    where
      go :
          (o : Option ℤ)
          → (c.run w.runs (job_of command log_path)).exit_code ≡ o
          → Q (launch c command log_path w)
      go none e = rw (launch, e) (late e)
      go (some code) e = rw (launch, e) (done code e)

  -- The command of an invocation, where Ansible is installed.
  abbrev pub command_with : String → PlaybookInvocation → Bool → Command
  command_with binary i check = record {
    argv =
        (if check
          then word binary ∷ word "--check" ∷ word "--diff" ∷ []
          else word binary ∷ word "--diff" ∷ [])
        ++ (limit i.pattern ++ (extra_vars i.inputs ++ (word (i.repository / i.playbook) ∷ [])));
    environment =
        ("ANSIBLE_CALLBACKS_ENABLED", "tree")
        ∷ ("ANSIBLE_CALLBACK_TREE_DIR", c.resolve i.tree)
        ∷ configuration c (i.repository / "ansible.cfg");
  }

  pub run_command-eq-ok :
      (i : PlaybookInvocation) (check : Bool) (command : Command)
      → run_command c i check ≡ ok command
      → (binary : String) × (c.ansible ≡ some binary) × (command ≡ command_with binary i check)
  unfolding run_command
  run_command-eq-ok i check command h = go c.ansible refl
    where
      go :
          (o : Option String)
          → c.ansible ≡ o
          → (binary : String) × (c.ansible ≡ some binary) × (command ≡ command_with binary i check)
      go none e = let k : Result.err ansible_missing ≡ ok command = rw (run_command, e) at h in cc
      go (some binary) e =
          let k : Result.ok (command_with binary i check) ≡ ok command = rw (run_command, e) at h in
          (binary, e, cc)
