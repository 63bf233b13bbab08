-- ===== src/Decision/Run.antt =====
-- `run_command`, `read_basis`, `_preview` and the runner's call, of decision.py.
pub mod Laws
use Prim.Native.String.{len}
use cloudfall.Base.{String, ◌<>◌, Bool, false, Option, none, some, List, [], ◌∷◌, ◌++◌, select, not}
use cloudfall.Base.{string_eq, if◌then◌else◌, map}
use cloudfall.Base.Int.{ℤ}
use cloudfall.Base.Dict.{Dict, lookup, put}
use cloudfall.Base.Json.{Json, obj, str, get_field, truthy}
use cloudfall.Base.Sorting.{sort_by}
use cloudfall.Base.Results.{ok, err}
use cloudfall.Decision.Records.{Inputs, CheckPreview, Basis}
use cloudfall.Decision.Errors.{Checked, ansible_missing, run_timed_out}
use cloudfall.Decision.World.{Arg, word, json_of, Launch, RunOutput, Controller, World, Exec}

pub record PlaybookInvocation : Type 0 where
  pub playbook : String
  pub repository : String
  pub tree : String
  pub pattern : Option String
  pub inputs : Inputs

-- The command and the environment of one run.
pub record Command : Type 0 where
  pub argv : List Arg
  pub environment : Dict String String

-- `parent / name`
infixl 66 ◌/◌
abbrev pub ◌/◌ : String → String → String
parent / name = parent <> "/" <> name

abbrev pub limit : Option String → List Arg
limit none = []
limit (some pattern) = word "--limit" ∷ word pattern ∷ []

abbrev pub extra_vars : Inputs → List Arg
extra_vars [] = []
extra_vars (i ∷ is) = word "--extra-vars" ∷ json_of (i ∷ is) ∷ []

module _ (c : Controller) where
  abbrev configuration : String → Dict String String
  configuration path = if c.is_file path then ("ANSIBLE_CONFIG", c.resolve path) ∷ [] else []

  -- `run_command`
  unfoldable pub run_command : PlaybookInvocation → Bool → Checked Command
  run_command i check = elim c.ansible [
    | none ↦ err ansible_missing
    | some binary ↦ ok (record {
      argv =
          (if check
            then word binary ∷ word "--check" ∷ word "--diff" ∷ []
            else word binary ∷ word "--diff" ∷ [])
          ++ (limit i.pattern ++ (extra_vars i.inputs ++ (word (i.repository / i.playbook) ∷ [])));
      environment =
          ("ANSIBLE_CALLBACKS_ENABLED", "tree")
          ∷ ("ANSIBLE_CALLBACK_TREE_DIR", c.resolve i.tree)
          ∷ configuration (i.repository / "ansible.cfg");
    })
  ]

  -- `repository_relative`
  unfoldable pub repository_relative : String → String → String
  repository_relative path repository =
      elim (c.relative_to (c.resolve path) (c.resolve repository)) [ none ↦ path | some p ↦ p ]

  -- the two tests of `read_basis` on one document
  abbrev observed_at : Json → Option String
  observed_at (obj fields) = elim (get_field "spec" fields) [
    | some (obj spec) ↦ elim (get_field "observedAt" spec) [ some (str at) ↦ some at | _ ↦ none ]
    | _ ↦ none
  ]
  observed_at _ = none

  abbrev cite : Dict String Json → Dict String String
  cite [] = []
  cite ((stem, document) ∷ rest) =
      let more = cite rest in
      elim (observed_at document) [ none ↦ more | some at ↦ (stem, at) ∷ more ]

  -- `read_basis`, with the repository that its callers here give
  unfoldable pub read_basis : String → String → Basis
  unfolding repository_relative get_field
  read_basis observations repository = record {
    observations = repository_relative observations repository;
    observed_at = elim (c.evidence observations) [ none ↦ [] | some documents ↦ cite documents ];
  }

  -- `bool(document.get("changed"))`, if the document is an object
  abbrev pub reported : Json → Bool
  reported (obj fields) = elim (get_field "changed" fields) [ none ↦ false | some v ↦ truthy v ]
  reported _ = false

  -- the names of a run's reports that say so, in the order of the names
  abbrev pub hosts_where : (Json → Bool) → List (String × Json) → List String
  hosts_where test reports = map (λ r. r.0) (select (λ r. test r.1) (sort_by (λ r. r.0) reports))

  -- `_preview`, from the run's reports and what its log file holds
  unfoldable pub preview : ℤ → List (String × Json) → String → String → String → CheckPreview
  unfolding get_field sort_by repository_relative
  preview exit_code reports content log_path repository = record {
    exit_code = exit_code;
    changed = hosts_where reported reports;
    unchanged = hosts_where (λ document. not (reported document)) reports;
    diff = record {
      path = repository_relative log_path repository;
      sha256 = c.sha256 content;
      size = len content;
    };
  }

  abbrev finished : RunOutput → Checked (ℤ × List (String × Json))
  finished out = elim out.exit_code [
    | none ↦ err run_timed_out
    | some code ↦ ok (code, out.reports)
  ]

  -- The call of the runner: `_run_check` opens the log file anew, runs the command and keeps what it
  -- prints. `subprocess.run` raises when the time is up.
  unfoldable pub launch : Command → String → Exec (ℤ × List (String × Json))
  unfolding put
  launch command log_path w =
      let job : Launch = record {
        argv = command.argv;
        environment = command.environment;
        log_path = log_path;
      } in
      let out = c.run w.runs job in
      (
        finished out,
        record w { artifacts = put log_path out.printed w.artifacts; runs = w.runs ++ (job ∷ []) },
      )

  -- `path.read_bytes() if path.is_file() else b""`
  unfoldable pub read_artifact : String → World → String
  unfolding lookup
  read_artifact path w = elim (lookup path w.artifacts) [ none ↦ "" | some content ↦ content ]
