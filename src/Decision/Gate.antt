-- ===== src/Decision/Gate.antt =====
-- `gate` of decision.py: what a risk level requires, and why.
use cloudfall.Base.{String}
use cloudfall.Catalog.{RiskLevel, read, mutating, destructive}
use cloudfall.Decision.Records.{Requirement, runs_freely, check_then_approve, human_required}

unfoldable pub gate : RiskLevel → Requirement × String
gate read = (runs_freely, "a read operation changes nothing, so nothing gates it")
gate mutating = (
  check_then_approve,
  "a mutating operation runs in check mode first and waits for an approval of the recorded diff",
)
gate destructive = (
  human_required, "a destructive operation cannot be undone, so only a person may let it through",
)
