-- ===== src/Audit/Checks.antt =====
-- The results of an audit: `AuditStatus`, `AuditCheck`, `ServerAudit`, `AuditReport`, `_comparison` and
-- `_aggregate_status` of audit.py.
pub mod Laws
use cloudfall.Base.{String, Bool, true, false, Option, List, [], ◌∷◌, any, map, if◌then◌else◌}
use cloudfall.Base.Json.{Json}

pub data AuditStatus : Type 0 where
  compliant drift unknown : AuditStatus

pub record AuditCheck : Type 0 where
  pub check : String
  pub status : AuditStatus
  pub desired : Json
  pub observed : Json
  pub message : String

pub record ServerAudit : Type 0 where
  pub server_id : String
  pub server_type_id : String
  pub status : AuditStatus
  pub observation : Option String
  pub observed_at : Option String
  pub checks : List AuditCheck

pub record AuditReport : Type 0 where
  pub status : AuditStatus
  pub servers : List ServerAudit
  pub unmatched_observations : List String

unfoldable pub comparison : String → Json → Json → Bool → AuditCheck
comparison check desired observed matches = record {
  check = check;
  status = if matches then compliant else drift;
  desired = desired;
  observed = observed;
  message = if matches then "desired state matches" else "desired state does not match";
}

abbrev pub is_drift : AuditStatus → Bool
is_drift drift = true
is_drift _ = false

abbrev pub is_unknown : AuditStatus → Bool
is_unknown unknown = true
is_unknown _ = false

unfoldable pub aggregate_status : List AuditStatus → AuditStatus
aggregate_status values =
    if any is_drift values then drift else if any is_unknown values then unknown else compliant

abbrev pub check_statuses : List AuditCheck → List AuditStatus
check_statuses = map (λ c. c.status)

abbrev pub server_statuses : List ServerAudit → List AuditStatus
server_statuses = map (λ a. a.status)
