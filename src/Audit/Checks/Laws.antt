-- ===== src/Audit/Checks/Laws.antt =====
-- When a comparison and an aggregate are compliant.
use cloudfall.Base.{String, Bool, true, false, List, [], ◌∷◌, if◌then◌else◌, ◌≡◌, ◌↔◌, refl, arith}
use cloudfall.Base.Bytes.{All}
use cloudfall.Base.Json.{Json}
use cloudfall.Audit.Checks.{
  AuditStatus, compliant, drift, unknown, AuditCheck, comparison, aggregate_status,
}

abbrev pub IsCompliant : AuditStatus → Type 0
IsCompliant status = status ≡ compliant

abbrev pub Passing : AuditCheck → Type 0
Passing c = c.status ≡ compliant

pub passed : (b : Bool) → (if b then compliant else drift) ≡ compliant → b ≡ true
passed true h = refl
passed false h = cc

pub passes : (b : Bool) → b ≡ true → (if b then compliant else drift) ≡ compliant
passes true h = refl
passes false h = cc

pub comparison_iff :
    (check : String) (desired observed : Json) (matches : Bool)
    → ((comparison check desired observed matches).status ≡ compliant) ↔ (matches ≡ true)
unfolding comparison
comparison_iff check desired observed true = (λ _. refl, λ _. refl)
comparison_iff check desired observed false = (λ h. cc, λ h. cc)

-- An aggregate is compliant exactly if each of its parts is.
pub aggregate_status_iff :
    (values : List AuditStatus) → (aggregate_status values ≡ compliant) ↔ All IsCompliant values
unfolding aggregate_status
aggregate_status_iff [] = (λ _. tt, λ _. refl)
aggregate_status_iff (compliant ∷ rest) = ground (arith, aggregate_status_iff rest)
aggregate_status_iff (drift ∷ rest) = ground arith
aggregate_status_iff (unknown ∷ rest) = ground arith
