-- ===== src/Audit/Report.antt =====
-- The audit of each server and of the fleet: `_audit_server` and `audit_inventory` of audit.py, and
-- `ObservedServerSnapshot` and `ObservationSet` of observation.py.
pub mod Laws
use cloudfall.Base.{
  String, Bool, true, false, not, Option, none, some, List, [], ◌∷◌, ◌++◌, select, contains, map,
  ◌==◌, string_eq, if◌then◌else◌,
}
use cloudfall.Base.Dict.{Dict, lookup}
use cloudfall.Base.Json.{Json, null, str, Fields}
use cloudfall.Base.Results.{Result, ok, err, ◌>>=◌}
use cloudfall.Base.Sorting.{sort_by}
use cloudfall.Inventory.{
  ServerInventory, ServerTypeInventory, ServiceInventory, AlertRuleInventory, ComponentInventory,
  PlatformInventory, server_type,
}
use cloudfall.Audit.Values.{AuditError, server_type_missing, Audits, mapping, string_at}
use cloudfall.Audit.Checks.{
  AuditStatus, unknown, AuditCheck, ServerAudit, AuditReport, comparison, aggregate_status,
  check_statuses, server_statuses,
}
use cloudfall.Audit.Host.{audit_os, audit_mounts, audit_packages}
use cloudfall.Audit.Units.{audit_services, audit_configuration}
use cloudfall.Audit.Raid.{audit_raid}
use cloudfall.Audit.Firewall.{audit_firewall}
use cloudfall.Audit.Sockets.{audit_service_binds}
use cloudfall.Audit.Alerts.{
  stacks_by_backend, alert_rules_for_backend, audit_alert_rules, audit_component_environment,
}

pub record ObservedServerSnapshot : Type 0 where
  pub server_id : String
  pub server_type_id : String
  pub content : Fields
  pub source : String

-- `_index` by the id of the server
pub record ObservationSet : Type 0 where
  pub snapshots : List ObservedServerSnapshot
  pub index : Dict String ObservedServerSnapshot

unfoldable pub for_server : ObservationSet → String → Option ObservedServerSnapshot
unfolding lookup
for_server observations server_id = lookup server_id observations.index

abbrev pub no_observation : AuditCheck
no_observation = record {
  check = "observation.available";
  status = unknown;
  desired = str "validated observation";
  observed = null;
  message = "no observation was supplied for this server";
}

-- what `_audit_server` is given of the inventory for one server
pub record Declared : Type 0 where
  pub server : ServerInventory
  pub server_type : ServerTypeInventory
  pub services : List ServiceInventory
  pub alert_rules : List AlertRuleInventory
  pub components : List ComponentInventory

abbrev optional_checks {ℓ} :
    {A : Type ℓ} → (A → Audits (List AuditCheck)) → Option A → Audits (List AuditCheck)
optional_checks audit none = ok []
optional_checks audit (some requirement) = audit requirement

-- `json.loads` is a parameter; `none` is its `JSONDecodeError`.
module _ (loads : String → Option Json) (environment_receipts : Dict String String) where
  -- the checks that need an observation, in their order
  unfoldable pub server_checks :
      Declared → ObservedServerSnapshot → Fields → Audits (List AuditCheck)
  unfolding comparison audit_os audit_raid audit_mounts audit_packages audit_services audit_firewall
      audit_service_binds audit_alert_rules audit_component_environment audit_configuration
  server_checks d snapshot spec =
      let type_id = d.server_type.resource_id in
      do
        system ← audit_os d.server_type.os spec
        raid ← optional_checks (λ r. audit_raid r spec) d.server_type.raid
        mounts ← audit_mounts d.server_type.mounts spec
        packages ←
            audit_packages d.server_type.required_packages d.server_type.forbidden_packages spec
        units ← audit_services d.server_type.required_services spec
        firewall ←
            optional_checks (λ f. audit_firewall loads d.server f spec) d.server_type.firewall
        binds ← audit_service_binds d.services spec
        files ← audit_configuration d.server_type.configuration_files spec
        ok (
            (comparison "server_type.id" (str type_id) (str snapshot.server_type_id)
                (type_id == snapshot.server_type_id)
              ∷ system)
            ++ (raid
                ++ (mounts
                    ++ (packages
                        ++ (units
                            ++ (firewall
                                ++ (binds
                                    ++ (audit_alert_rules loads d.alert_rules spec
                                        ++ (audit_component_environment d.components
                                              environment_receipts spec
                                            ++ files)))))))))

  -- `_audit_server`
  unfoldable pub audit_server : Declared → Option ObservedServerSnapshot → Audits ServerAudit
  unfolding mapping string_at server_checks aggregate_status
  audit_server d none = ok (record {
    server_id = d.server.resource_id;
    server_type_id = d.server_type.resource_id;
    status = unknown;
    observation = none;
    observed_at = none;
    checks = no_observation ∷ [];
  })
  audit_server d (some snapshot) = do
    spec ← mapping snapshot.content "spec"
    checks ← server_checks d snapshot spec
    observed_at ← string_at spec "observedAt"
    ok (record {
      server_id = d.server.resource_id;
      server_type_id = d.server_type.resource_id;
      status = aggregate_status (check_statuses checks);
      observation = some snapshot.source;
      observed_at = some observed_at;
      checks = checks;
    })

  -- what the inventory declares of a server of that type
  unfoldable pub declared : PlatformInventory → ServerInventory → ServerTypeInventory → Declared
  unfolding stacks_by_backend alert_rules_for_backend
  declared inventory server kind = record {
    server = server;
    server_type = kind;
    services = select (λ service. service.server_id == server.resource_id) inventory.services;
    alert_rules =
        alert_rules_for_backend server.resource_id (stacks_by_backend inventory.logging_stacks [])
          inventory.alert_rules;
    components =
        select (λ component. contains component.server_ids server.resource_id) inventory.components;
  }

  unfoldable pub audit_each :
      PlatformInventory → ObservationSet → List ServerInventory → Audits (List ServerAudit)
  unfolding server_type audit_server declared for_server
  audit_each inventory observations [] = ok []
  audit_each inventory observations (server ∷ rest) = do
    kind ← elim (server_type inventory server.server_type_id) [
      | none ↦ err (server_type_missing server.server_type_id)
      | some found ↦ ok found
    ]
    audit ←
        audit_server (declared inventory server kind) (for_server observations server.resource_id)
    audits ← audit_each inventory observations rest
    ok (audit ∷ audits)

  -- `snapshot.server_id not in desired_ids`
  abbrev is_unmatched : PlatformInventory → ObservedServerSnapshot → Bool
  is_unmatched inventory snapshot =
      not (contains (map (λ server. server.resource_id) inventory.servers) snapshot.server_id)

  unfoldable pub audit_inventory : PlatformInventory → ObservationSet → Audits AuditReport
  unfolding audit_each aggregate_status sort_by
  audit_inventory inventory observations = do
    audits ← audit_each inventory observations inventory.servers
    ok (record {
      status = aggregate_status (server_statuses audits);
      servers = audits;
      unmatched_observations =
          sort_by (λ id. id)
            (map (λ s. s.server_id) (select (is_unmatched inventory) observations.snapshots));
    })
