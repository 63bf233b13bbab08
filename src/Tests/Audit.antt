-- ===== src/Tests/Audit.antt =====
-- One server with a RAID, a firewall, packages and a service, and its observation.
use cloudfall.Audit.Raid.{audit_raid, raid_checks}
use cloudfall.Base.{arith}
use cloudfall.Audit.Raid.Laws.{RaidHolds, audit_raid_iff}
use cloudfall.Base.{
  ℕ, String, true, Option, none, some, List, [], ◌∷◌, map, nat_eq, string_eq, ◌≡◌, ◌↔◌, refl,
  Member,
}
use cloudfall.Base.Bytes.{All}
use cloudfall.Base.Int.{pos}
use cloudfall.Base.Dict.{lookup, put}
use cloudfall.Base.Json.{
  Json, null, bool, int, str, arr, obj, nil, cons, Fields, end, field, get_field,
}
use cloudfall.Base.Results.{ok, err}
use cloudfall.Base.Text.{is_space}
use cloudfall.Inventory.{
  ServerInventory, ServerTypeInventory, ServiceInventory, PlatformInventory, RaidRequirement,
  FirewallRequirement, tcp, server_type, PackageRequirement,
}
use cloudfall.Audit.Values.{
  Audits, value_at, mapping, optional_mapping, objects_of, mapping_sequence,
  mapping_values_sequence, string_at, integer_at,
}
use cloudfall.Audit.Checks.{compliant, AuditCheck, AuditReport, comparison, aggregate_status}
use cloudfall.Audit.Checks.Laws.{Passing}
use cloudfall.Audit.Host.{
  audit_os, audit_mounts, audit_each_mount, indexed_by, audit_packages, grouped,
  audit_required_packages, audit_forbidden_package,
}
use cloudfall.Audit.Host.Promises.{IsEntry, audit_packages_exact}
use cloudfall.Audit.Host.Laws.{IsThere, IsAbsent}
use cloudfall.Audit.Raid.{
  array_health, health_here, many, members, nested, flatten, flatten_items, raid_sizes,
}
use cloudfall.Audit.Firewall.{Endpoint, endpoints_eq}
use cloudfall.Base.Json.{str}
use cloudfall.Audit.Sockets.{SocketListener, audit_service_bind, audit_service_binds}
use cloudfall.Audit.Sockets.Laws.{IsOnPort, IsLoopback, audit_service_bind_iff}
use cloudfall.Audit.Units.{audit_services, audit_each_service, audit_configuration}
use cloudfall.Audit.Alerts.{stacks_by_backend, alert_rules_for_backend}
use cloudfall.Audit.Report.{
  ObservedServerSnapshot, ObservationSet, for_server, server_checks, audit_server, declared,
  audit_each, audit_inventory,
}
use cloudfall.Audit.Report.Laws.{ServerPasses, audit_inventory_iff}

abbrev value_or : {A : Type 0} → A → Audits A → A
value_or default (ok a) = a
value_or default (err e) = default

abbrev no_json : String → Option Json
no_json raw = none

-- redis, which should listen on the machine itself, and does
abbrev redis : ServiceInventory
redis = record {
  resource_id = "redis";
  server_id = "web";
  bind_address = "127.0.0.1";
  bind_port = 6379;
}

abbrev listeners : List SocketListener
listeners =
    record { protocol = "tcp"; address = "127.0.0.1"; port = 6379 }
    ∷ record { protocol = "udp"; address = "0.0.0.0"; port = 6379 }
    ∷ []

audit_service_bind_iff_example : ((audit_service_bind listeners redis).status ≡ compliant) ↔ (
    ((l : SocketListener) × Member l listeners × IsOnPort 6379 l × (l.address ≡ "127.0.0.1"))
    × ((l : SocketListener) → Member l listeners → IsOnPort 6379 l → IsLoopback l))
audit_service_bind_iff_example = audit_service_bind_iff listeners redis

abbrev mirror : RaidRequirement
mirror = record { level = "raid1"; minimum_active_devices = 2; minimum_usable_bytes = 1000 }

abbrev mdstat : String
mdstat = "md0 : active raid1 sda1[0] sdb1[1] 512 blocks [2/2] [UU]"

abbrev software_raid : Fields
software_raid = field "mdstat" (str mdstat) end

abbrev storage : Fields
storage = field "softwareRaid" (obj software_raid) (
    field "blockDevices"
      (arr (
        cons
          (obj (
            field "type" (str "disk") (
              field "children"
                (arr
                  (cons (obj (field "type" (str "raid1") (field "size" (int (pos 4000)) end))) nil))
                end)))
          nil))
      end)

abbrev packages : List Fields
packages = field "name" (str "nginx") (field "version" (str "1.24") end) ∷ []

abbrev spec : Fields
spec = field "storage" (obj storage) (
    field "packages"
      (arr (cons (obj (field "name" (str "nginx") (field "version" (str "1.24") end))) nil)) end)

nested_sizes : raid_sizes "raid1" (flatten (value_at storage "blockDevices")) ≡ ok (pos 4000 ∷ [])
unfolding raid_sizes flatten flatten_items nested value_at get_field string_at integer_at string_eq
nested_sizes = refl

audit_raid_iff_example :
    (audit_raid mirror spec ≡ ok (raid_checks mirror mdstat (pos 4000 ∷ [])))
    × (All Passing (raid_checks mirror mdstat (pos 4000 ∷ []))
        ↔ RaidHolds mirror mdstat (pos 4000 ∷ []))
audit_raid_iff_example =
    audit_raid_iff mirror spec storage software_raid mdstat (pos 4000 ∷ [])
      (unfold mapping value_at get_field optional_mapping string_eq in refl)
      (unfold mapping value_at get_field optional_mapping string_eq in refl)
      (unfold string_at value_at get_field string_eq in refl) nested_sizes (omega arith)
      (omega arith)

-- the pattern is found in the text, with the number of working devices
array_health_example : array_health "[2/2] [UU] x [2/1] [U_] [3/3] []" ≡ 2 ∷ 1 ∷ []
unfolding array_health health_here many members is_space nat_eq
array_health_example = refl

abbrev nginx : PackageRequirement
nginx = record { name = "nginx"; version = some "1.24" }

packages_shaped : All IsEntry (mapping_sequence spec "packages")
unfolding string_at value_at get_field mapping_sequence mapping_values_sequence objects_of
    optional_mapping string_eq
packages_shaped = (("nginx", "1.24", refl, refl), tt)

audit_packages_exact_example :
    (checks : List AuditCheck) × (audit_packages (nginx ∷ []) ("telnet" ∷ []) spec ≡ ok checks)
    × (All Passing checks ↔ (
        All (IsThere (mapping_sequence spec "packages")) (nginx ∷ [])
        × All (IsAbsent (mapping_sequence spec "packages")) ("telnet" ∷ [])))
audit_packages_exact_example =
    audit_packages_exact (nginx ∷ []) ("telnet" ∷ []) spec packages_shaped

-- a table that drops, with a rule for SSH and one for HTTPS
abbrev ssh_port_rule : ℕ → Json
ssh_port_rule port = obj (
    field "rule"
      (obj (
        field "table" (str "cloudfall") (
          field "chain" (str "input") (
            field "expr"
              (arr (
                cons
                  (obj (
                    field "match"
                      (obj (
                        field "left"
                          (obj (
                            field "payload"
                              (obj (field "protocol" (str "tcp") (field "field" (str "dport") end)))
                              end))
                          (field "right" (int (pos port)) end)))
                      end))
                  (cons (obj (field "accept" null end)) nil)))
              end))))
      end)

abbrev table_entry : Json
table_entry = obj (field "table" (obj (field "name" (str "cloudfall") end)) end)

abbrev chain_entry : Json
chain_entry = obj (
    field "chain"
      (obj (
        field "table" (str "cloudfall")
          (field "name" (str "input") (field "policy" (str "drop") end))))
      end)

abbrev nftables : String → Option Json
nftables raw = some (
    obj (
      field "nftables"
        (arr (
          cons table_entry
            (cons chain_entry (cons (ssh_port_rule 443) (cons (ssh_port_rule 22) nil)))))
        end))

abbrev web : ServerInventory
web = record { resource_id = "web"; server_type_id = "base"; ssh_port = 22 }

abbrev https_only : FirewallRequirement
https_only = record {
  allowed_inbound = record { port = 443; protocol = tcp; description = none } ∷ [];
}

abbrev firewall_evidence : Fields
firewall_evidence = field "nftAvailable" (bool true) (field "managedTableJson" (str "table") end)

abbrev firewall_spec : Fields
firewall_spec = field "firewall" (obj firewall_evidence) end

abbrev open_ports : List Endpoint
open_ports = ("tcp", pos 22) ∷ ("tcp", pos 443) ∷ []

abbrev base : ServerTypeInventory
base = record {
  resource_id = "base";
  os = record { distribution = "debian"; versions = "12" ∷ []; service_manager = "systemd" };
  raid = none;
  mounts = [];
  required_packages = [];
  forbidden_packages = "telnet" ∷ [];
  required_services = [];
  firewall = none;
  configuration_files = [];
}

abbrev platform : PlatformInventory
platform = record {
  servers = web ∷ [];
  server_types = base ∷ [];
  services = [];
  alert_rules = [];
  components = [];
  logging_stacks = [];
}

abbrev observed_web : ObservedServerSnapshot
observed_web = record {
  server_id = "web";
  server_type_id = "base";
  content =
      field "spec"
        (obj (
          field "os"
            (obj (
              field "distribution" (str "debian")
                (field "majorVersion" (str "12") (field "serviceManager" (str "systemd") end))))
            (field "storage" (obj end) (
              field "services" (obj end)
                (field "timers" (obj end) (field "observedAt" (str "2026-01-01T00:00:00Z") end))))))
        end;
  source = "observed/web.json";
}

abbrev observations : ObservationSet
observations = record { snapshots = observed_web ∷ []; index = ("web", observed_web) ∷ [] }

abbrev no_report : AuditReport
no_report = record { status = compliant; servers = []; unmatched_observations = [] }

abbrev report : AuditReport
report = value_or no_report (audit_inventory no_json [] platform observations)

reported : audit_inventory no_json [] platform observations ≡ ok report
unfolding audit_inventory audit_each server_type audit_server for_server lookup server_checks
    declared stacks_by_backend alert_rules_for_backend audit_os audit_mounts indexed_by
    audit_each_mount audit_packages grouped audit_required_packages audit_services
    audit_each_service audit_service_binds audit_configuration string_at mapping value_at get_field
    mapping_sequence mapping_values_sequence objects_of optional_mapping string_eq put
reported = refl

audit_inventory_iff_example :
    ((report.status ≡ compliant) ↔ All (ServerPasses no_json [] platform observations) (web ∷ []))
    × (map (λ audit. audit.server_id) report.servers
        ≡ map (λ server. server.resource_id) (web ∷ []))
audit_inventory_iff_example = audit_inventory_iff no_json [] platform observations report reported

report_compliant : report.status ≡ compliant
unfolding audit_inventory audit_each server_type audit_server for_server lookup server_checks
    declared stacks_by_backend alert_rules_for_backend audit_os audit_mounts indexed_by
    audit_each_mount audit_packages grouped audit_required_packages audit_forbidden_package
    audit_services audit_each_service audit_service_binds audit_configuration string_at mapping
    value_at get_field mapping_sequence mapping_values_sequence objects_of optional_mapping
    string_eq put comparison aggregate_status
report_compliant = refl
