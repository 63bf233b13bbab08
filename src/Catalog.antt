-- ===== src/Catalog.antt =====
-- sdk/src/cloudfall/catalog.py: the operations that an agent may run.
pub mod Laws
use cloudfall.Base.{String, Bool, Option, none, some, List, [], ◌∷◌, select}
use cloudfall.Base.{Eq, ◌==◌, string_eq, if◌then◌else◌}
use cloudfall.Base.Dict.{Dict, lookup}
use cloudfall.Base.Results.{Result, ok, err}

pub data RiskLevel : Type 0 where
  read mutating destructive : RiskLevel

pub data TargetScope : Type 0 where
  fleet group host : TargetScope

pub data InputType : Type 0 where
  string integer boolean : InputType

pub data Precondition : Type 0 where
  health_ok : Precondition

pub RiskLevel-discrete : Discrete RiskLevel
RiskLevel-discrete = hlevel

pub TargetScope-discrete : Discrete TargetScope
TargetScope-discrete = hlevel

instance unfoldable pub risk_eq : Eq RiskLevel
unfolding RiskLevel-discrete
risk_eq = record { dec = RiskLevel-discrete }

instance unfoldable pub scope_eq : Eq TargetScope
unfolding TargetScope-discrete
scope_eq = record { dec = TargetScope-discrete }

pub record OperationInput : Type 0 where
  pub name : String
  pub type : InputType
  pub required : Bool
  pub description : Option String

-- Paths are texts; `verify` is the path of the verify step's playbook.
pub record Operation : Type 0 where
  pub operation_id : String
  pub playbook : String
  pub risk : RiskLevel
  pub targets : TargetScope
  pub inputs : List OperationInput
  pub preconditions : List Precondition
  pub verify : Option String
  pub description : Option String
  pub source : Option String

pub record OperationCatalog : Type 0 where
  pub operations : List Operation
  pub directory : String

-- The codes of the `ValidationIssue` that the functions of this file raise.
pub data CatalogError : Type 0 where
  operation_undeclared : String → CatalogError
  operations_directory_missing : CatalogError
  operation_shape_invalid : CatalogError
  schema_validation_failed : CatalogError
  operation_playbook_missing : String → CatalogError
  operation_duplicate : String → CatalogError
  value_error : CatalogError

-- the loop of `OperationCatalog.get`
unfoldable pub find_operation : String → List Operation → Result CatalogError Operation
find_operation id [] = err (operation_undeclared id)
find_operation id (operation ∷ rest) =
    let later = find_operation id rest in
    if operation.operation_id == id then ok operation else later

-- `OperationCatalog.get`
unfoldable pub get : OperationCatalog → String → Result CatalogError Operation
unfolding find_operation
get catalog id = find_operation id catalog.operations

-- `OperationCatalog.by_risk`
unfoldable pub by_risk : OperationCatalog → RiskLevel → List Operation
by_risk catalog risk = select (λ operation. operation.risk == risk) catalog.operations

-- `if operation.source is not None: seen[identifier] = operation.source`
abbrev pub remember : Operation → Dict String String → Dict String String
remember operation seen = elim operation.source [
  | none ↦ seen
  | some path ↦ (operation.operation_id, path) ∷ seen
]

-- the loop of `_reject_duplicates`
unfoldable pub reject_from : Dict String String → List Operation → Result CatalogError (Unit {0})
reject_from seen [] = ok tt
reject_from seen (operation ∷ rest) =
    let later = reject_from (remember operation seen) rest in
    elim (lookup operation.operation_id seen) [
      | none ↦ later
      | some first ↦ err (operation_duplicate operation.operation_id)
    ]

-- `_reject_duplicates`
unfoldable pub reject_duplicates : List Operation → Result CatalogError (Unit {0})
unfolding reject_from
reject_duplicates = reject_from []
