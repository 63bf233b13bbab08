-- ===== src/Decision/World.antt =====
-- What the functions of decision.py act on: the directory of records, the artifacts beside them and
-- the runs that were started. What the controller's machine and Ansible supply is `Controller`.
pub mod Binds
use cloudfall.Base.{String, Bool, Option, List}
use cloudfall.Base.Int.{ℤ}
use cloudfall.Base.Dict.{Dict}
use cloudfall.Base.Json.{Json}
use cloudfall.Base.Results.{ok, err}
use cloudfall.Decision.Records.{Inputs, Decision}
use cloudfall.Decision.Errors.{Checked}

-- A word of a command line, or the JSON text of the inputs.
pub data Arg : Type 0 where
  word : String → Arg
  json_of : Inputs → Arg

-- One invocation of `ansible-playbook`, as a runner receives it.
pub record Launch : Type 0 where
  pub argv : List Arg
  pub environment : Dict String String
  pub log_path : String

-- What a run leaves: no exit code when it was killed at `CHECK_TIMEOUT_SECONDS`, what it printed,
-- and the files of its callback tree.
pub record RunOutput : Type 0 where
  pub exit_code : Option ℤ
  pub printed : String
  pub reports : List (String × Json)

-- A moment by its two renderings, `%Y%m%d%H%M%S` and `%Y-%m-%dT%H:%M:%SZ`.
pub record Moment : Type 0 where
  pub stamp : String
  pub timestamp : String

pub record Controller : Type 0 where
  -- `DecisionStore.directory`
  pub directory : String
  -- `shutil.which("ansible-playbook")`
  pub ansible : Option String
  -- `path.is_file()`
  pub is_file : String → Bool
  -- `path.resolve()`
  pub resolve : String → String
  -- `path.relative_to(base)`; `none` is its `ValueError`
  pub relative_to : String → String → Option String
  -- `hashlib.sha256(content).hexdigest()`
  pub sha256 : String → String
  -- `catalog.validate_named(DECISION_SCHEMA, document)` of a decision's document
  pub valid : Decision → Bool
  -- the runner; what a run does may depend on those before it
  pub run : List Launch → Launch → RunOutput
  -- the documents of an observation directory by file stem, in order; `none` if it is none
  pub evidence : String → Option (Dict String Json)

pub record World : Type 0 where
  pub records : Dict String Decision
  pub artifacts : Dict String String
  pub runs : List Launch

-- A function that reads and writes the world and may raise. What was written before an exception
-- stays written.
abbrev pub Exec : Type 0 → Type 0
Exec A = World → Checked A × World

abbrev pub and_then : {A B : Type 0} → (A → Exec B) → Checked A → World → Checked B × World
and_then f (ok a) w = f a w
and_then f (err e) w = (err e, w)

infixl 5 ◌>>=◌ ◌>>◌
abbrev pub ◌>>=◌ : {A B : Type 0} → Exec A → (A → Exec B) → Exec B
◌>>=◌ m f w = let (r, w') = m w in and_then f r w'

abbrev pub ◌>>◌ : {B : Type 0} → Exec (Unit {0}) → Exec B → Exec B
m >> n = m >>= λ _. n

abbrev pub pure : {A : Type 0} → A → Exec A
pure a w = (ok a, w)

abbrev pub lift : {A : Type 0} → Checked A → Exec A
lift r w = (r, w)
