-- ===== src/Operator/Histories.antt =====
-- Every history of alert passes, drift passes and approvals of operator.py.
use cloudfall.Base.{String, List, ◌≡◌}
use mathlib.Core.Path.{subst}
use cloudfall.Decision.Records.{ApprovalChannel}
use cloudfall.Operator.World.{Site, World}
use cloudfall.Operator.Approve.{ApproveOptions, approve}
use cloudfall.Operator.Trigger.{DeclaredService, run_once}
use cloudfall.Base.Dict.{Dict}
use cloudfall.Operator.Drift.{ServerAudit, drift_pass}
use cloudfall.Operator.Drift.Laws.{drift_pass-IsSound}
use cloudfall.Operator.Sound.{IsSound, operator_approve-IsSound}
use cloudfall.Operator.Trigger.Laws.{run_once-IsSound}

-- One pass over the alerts or over an audit, or one approval, whatever came of it.
pub data Change (site : Site) : World → World → Type 0 where
  alert_pass :
      {w v : World} (services : List DeclaredService) (now : String)
      → (run_once site services now w).1 ≡ v
      → Change site w v
  audit_pass :
      {w v : World} (dumps : Dict String String → String) (sha256 : String → String) (now : String)
      (servers : List ServerAudit)
      → (drift_pass dumps sha256 site now servers w).1 ≡ v
      → Change site w v
  approval :
      {w v : World} (id : String) (via : ApprovalChannel) (options : ApproveOptions)
      → (approve site id via options w).1 ≡ v
      → Change site w v

pub data History (site : Site) (w : World) : World → Type 0 where
  beginning : History site w w
  followed : {u v : World} → History site w u → Change site u v → History site w v

Change-IsSound : {site : Site} {w v : World} → Change site w v → IsSound w → IsSound v
Change-IsSound {site} {w} (alert_pass services now h) s =
    subst IsSound h (run_once-IsSound site services now w s)
Change-IsSound {site} {w} (audit_pass dumps sha256 now servers h) s =
    subst IsSound h (drift_pass-IsSound dumps sha256 site now servers w s)
Change-IsSound {site} {w} (approval id via options h) s =
    subst IsSound h (operator_approve-IsSound site id via options w s)

-- Whatever alert passes, drift passes and approvals follow one another, with every error among them: a
-- receipt stays under its own id, one that is open no more names who licensed its execution, and no two receipts
-- block the same fingerprint, if that was so at first.
pub History-IsSound : {site : Site} {w v : World} → History site w v → IsSound w → IsSound v
History-IsSound beginning s = s
History-IsSound (followed h change) s = Change-IsSound change (History-IsSound h s)
