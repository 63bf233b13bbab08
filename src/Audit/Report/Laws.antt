-- ===== src/Audit/Report/Laws.antt =====
-- When an audit of the fleet is compliant.
use cloudfall.Base.{
  String, Option, none, some, List, [], ◌∷◌, Never, Option-cases, inl, inr, map, ◌≡◌, ◌↔◌, refl,
  sym, ap, ◌∙◌,
}
use cloudfall.Base.Bytes.{All}
use cloudfall.Base.Dict.{Dict}
use cloudfall.Base.Json.{Json, Fields}
use cloudfall.Base.Results.{ok, err, ◌>>=◌, >>=-eq-ok}
use cloudfall.Inventory.{ServerInventory, ServerTypeInventory, PlatformInventory, server_type}
use cloudfall.Audit.Values.{server_type_missing, mapping, string_at}
use cloudfall.Audit.Checks.{
  compliant, AuditCheck, ServerAudit, AuditReport, aggregate_status, check_statuses,
  server_statuses,
}
use cloudfall.Audit.Checks.Laws.{IsCompliant, Passing, aggregate_status_iff}
use cloudfall.Audit.Report.{
  ObservedServerSnapshot, ObservationSet, for_server, Declared, server_checks, audit_server,
  declared, audit_each, audit_inventory,
}

All-check_statuses :
    (checks : List AuditCheck) → All IsCompliant (check_statuses checks) ↔ All Passing checks
All-check_statuses [] = (λ h. h, λ h. h)
All-check_statuses (c ∷ checks) =
    (λ (h, t). (h, (All-check_statuses checks).0 t), λ (h, t). (h, (All-check_statuses checks).1 t))

module _ (loads : String → Option Json) (receipts : Dict String String) where
  -- The server has been observed, each of its checks can be made, and each passes.
  abbrev pub Passes : Declared → Option ObservedServerSnapshot → Type 0
  Passes d none = Never
  Passes d (some snapshot) =
      (spec : Fields) × (checks : List AuditCheck) × (mapping snapshot.content "spec" ≡ ok spec)
      × (server_checks loads receipts d snapshot spec ≡ ok checks)
      × All Passing checks

  audit_server_iff :
      (d : Declared) (seen : Option ObservedServerSnapshot) (audit : ServerAudit)
      → audit_server loads receipts d seen ≡ ok audit
      → ((audit.status ≡ compliant) ↔ Passes d seen) × (audit.server_id ≡ d.server.resource_id)
  unfolding audit_server
  audit_server_iff d none audit h = ((λ c. cc, λ p. elim p [ ]), cc)
  audit_server_iff d (some snapshot) audit h =
      let (spec, found, rest) = >>=-eq-ok (mapping snapshot.content "spec") _ h in
      let (checks, made, last) = >>=-eq-ok (server_checks loads receipts d snapshot spec) _ rest in
      let (observed_at, _, same) = >>=-eq-ok (string_at spec "observedAt") _ last in
      let status : aggregate_status (check_statuses checks) ≡ audit.status = cc in
      let iff : (audit.status ≡ compliant) ↔ Passes d (some snapshot) = (
        λ c. (
          spec,
          checks,
          found,
          made,
          (All-check_statuses checks).0
              ((aggregate_status_iff (check_statuses checks)).0 (status ∙ c)),
        ),
        λ (spec', checks', found', made', pass).
            let same_checks : checks' ≡ checks = cc in
            sym status
            ∙ (aggregate_status_iff (check_statuses checks)).1
                ((All-check_statuses checks).1 (rw same_checks at pass)),
      ) in
      (iff, cc)

  -- What is declared of the server's type is there, and the server passes against it.
  abbrev pub ServerPasses : PlatformInventory → ObservationSet → ServerInventory → Type 0
  ServerPasses inventory observations server =
      (kind : ServerTypeInventory) × (server_type inventory server.server_type_id ≡ some kind)
      × Passes (declared loads receipts inventory server kind)
          (for_server observations server.resource_id)

  audit_each_iff :
      (inventory : PlatformInventory) (observations : ObservationSet)
      (servers : List ServerInventory) (audits : List ServerAudit)
      → audit_each loads receipts inventory observations servers ≡ ok audits
      → (All IsCompliant (server_statuses audits)
          ↔ All (ServerPasses inventory observations) servers)
        × (map (λ audit. audit.server_id) audits ≡ map (λ server. server.resource_id) servers)
  unfolding audit_each
  audit_each_iff inventory observations [] audits h =
      let none_left : [] ≡ audits = cc in rw (sym none_left) ((λ _. tt, λ _. tt), refl)
  audit_each_iff inventory observations (server ∷ servers) audits h =
      elim (Option-cases (server_type inventory server.server_type_id)) [
        | inl missing ↦
            let raised : err (server_type_missing server.server_type_id) ≡ ok audits =
              rw (audit_each, missing) at h in
            cc
        | inr (kind, found) ↦
            let d = declared loads receipts inventory server kind in
            let seen = for_server observations server.resource_id in
            let returned : (audit_server loads receipts d seen >>= λ audit.
            audit_each loads receipts inventory observations servers >>= λ later.
            ok (audit ∷ later))
                ≡ ok audits =
              rw (audit_each, found) at h in
            let (audit, first, rest) = >>=-eq-ok (audit_server loads receipts d seen) _ returned in
            let (later, others, last) =
              >>=-eq-ok (audit_each loads receipts inventory observations servers) _ rest in
            let both : audit ∷ later ≡ audits = cc in
            let (one, id) = audit_server_iff d seen audit first in
            let (more, ids) = audit_each_iff inventory observations servers later others in
            rw (sym both) (
              (
                λ (c, cs). ((kind, found, one.0 c), more.0 cs),
                λ ((kind', found', pass), passes).
                    let same_kind : kind' ≡ kind = cc in
                    (one.1 (rw same_kind at pass), more.1 passes),
              ),
              λ i. id i ∷ ids i,
            )
      ]

  -- A report is compliant exactly if every server of the inventory has been observed and each of its
  -- checks passes. It lists one audit for each server, in the inventory's order.
  pub audit_inventory_iff :
      (inventory : PlatformInventory) (observations : ObservationSet) (report : AuditReport)
      → audit_inventory loads receipts inventory observations ≡ ok report
      → ((report.status ≡ compliant) ↔ All (ServerPasses inventory observations) inventory.servers)
        × (map (λ audit. audit.server_id) report.servers
            ≡ map (λ server. server.resource_id) inventory.servers)
  unfolding audit_inventory
  audit_inventory_iff inventory observations report h =
      let (audits, each, last) =
        >>=-eq-ok (audit_each loads receipts inventory observations inventory.servers) _ h in
      let status : aggregate_status (server_statuses audits) ≡ report.status = cc in
      let listed : audits ≡ report.servers = cc in
      let (parts, ids) = audit_each_iff inventory observations inventory.servers audits each in
      let whole = aggregate_status_iff (server_statuses audits) in
      (
        (λ c. parts.0 (whole.0 (status ∙ c)), λ passes. sym status ∙ whole.1 (parts.1 passes)),
        ap (map (λ audit. audit.server_id)) (sym listed) ∙ ids,
      )
