-- ===== src/Tests/Operations.antt =====
-- A domain that is healthy, and a healthy server with one filesystem and no disk that SMART is expected for.
use cloudfall.Base.{
  ℕ, ◌+◌, ◌*◌, ◌≤◌, String, Bool, true, false, Option, none, some, [], ◌∷◌, nat_eq, string_eq, ◌≡◌,
  ◌↔◌, ◌⊎◌, refl,
}
use cloudfall.Base.Bytes.{All}
use cloudfall.Base.Int.{pos}
use cloudfall.Base.Json.{bool, int, str, arr, obj, nil, cons, Fields, end, field, get_field}
use cloudfall.Base.Results.{ok}
use cloudfall.Base.Sorting.{sorted, sort_by, insert_by}
use cloudfall.Base.Text.Search.{starts_with, occurs_in}
use cloudfall.Audit.Values.{value_at, optional_mapping, objects_of}
use cloudfall.Audit.Checks.{compliant, ServerAudit}
use cloudfall.Audit.Checks.Laws.{Passing}
use cloudfall.Audit.Report.{ObservedServerSnapshot}
use cloudfall.Operations.Records.{healthy, MonitoredFilesystem, ServerOperations}
use cloudfall.Operations.Values.{
  mapping, mapping_sequence, boolean_at, required_string, byte_count, absolute_path,
  is_absolute_path, utc_timestamp,
}
use cloudfall.Operations.Capacity.{
  from_counts, filesystems, read_filesystems, monitored_filesystem, usage_severity,
}
use cloudfall.Operations.Capacity.Laws.{from_counts_bounds}
use cloudfall.Operations.Smart.{smart_evidence, smart_devices, expects_smart}
use cloudfall.Operations.Tasks.{
  audit_tasks, observation_tasks, filesystem_tasks, failed_service_tasks, service_tasks,
  smart_tasks, sort_tasks,
}
use cloudfall.Operations.Server.{
  Evidence, observed, health, read_evidence, monitoring_tasks, server_operations,
}
use cloudfall.Operations.Domain.{
  DomainServer, DomainInventory, DeploymentReceipt, EndpointEvidence, ObservedDomainSnapshot,
  ConfigurationStatus, DomainOperations, inventory_server, deployment_evidence,
  domain_configuration, dns_check, tls_check, endpoint_check, domain_health, domain_operations,
  domain_view,
}
use cloudfall.Operations.Domain.Laws.{
  IsDeployed, Resolves, HasCertificate, Answers, domain_operations_iff,
}
use cloudfall.Operations.Server.Laws.{Quiet, server_operations_iff}

-- two thirds are 6,667 basis points
from_counts_bounds_example :
    (from_counts 2 1 ≤ 10000)
    × (1 ≤ 3
        → (2 * (from_counts 2 1 * 3) ≤ 2 * (2 * 10000) + 3)
          × (2 * (2 * 10000) ≤ 2 * (from_counts 2 1 * 3) + 3))
from_counts_bounds_example = from_counts_bounds 2 1

two_thirds : from_counts 2 1 ≡ 6667
unfolding from_counts nat_eq
two_thirds = refl

abbrev no_digest : String → String
no_digest s = "0000000000000000"

abbrev noon : String → Option (Bool × ℕ)
noon text = some (true, 43200000000)

abbrev services : Fields
services = field "nginx.service" (obj (field "state" (str "running") end)) end

abbrev spec : Fields
spec = field "services" (obj services) (
    field "observedAt" (str "noon") (
      field "storage"
        (obj (
          field "filesystems"
            (arr (
              cons
                (obj (
                  field "fstype" (str "ext4") (
                    field "used" (int (pos 20)) (
                      field "avail" (int (pos 80))
                        (field "target" (str "/") (field "size" (int (pos 105)) end))))))
                nil))
            (field "smart" (obj (field "available" (bool false) (field "devices" (arr nil) end)))
              (field "blockDevices" (arr nil) end))))
        end))

abbrev snapshot : ObservedServerSnapshot
snapshot = record {
  server_id = "web";
  server_type_id = "base";
  content = field "spec" (obj spec) end;
  source = "observed/web.json";
}

abbrev audit : ServerAudit
audit = record {
  server_id = "web";
  server_type_id = "base";
  status = compliant;
  observation = none;
  observed_at = none;
  checks = [];
}

abbrev root : MonitoredFilesystem
root = record {
  target = "/";
  filesystem = "ext4";
  size = 105;
  used = 20;
  available = 80;
  utilization = 2000;
}

abbrev evidence : Evidence
evidence = record {
  observed_at = 43200000000;
  filesystems = root ∷ [];
  smart_available = false;
  smart_expected = false;
  smart_devices = [];
}

abbrev view : ServerOperations
view = observed "web" "web.example.org" evidence []

evidence_read : read_evidence no_digest noon spec ≡ ok evidence
unfolding read_evidence utc_timestamp filesystems smart_evidence smart_devices expects_smart mapping
    mapping_sequence objects_of optional_mapping value_at get_field boolean_at read_filesystems
    required_string monitored_filesystem byte_count absolute_path is_absolute_path starts_with
    occurs_in from_counts sort_by insert_by string_eq nat_eq
evidence_read = refl

viewed :
    server_operations no_digest noon "web" "web.example.org" (some snapshot) audit 50000000000
    ≡ ok view
unfolding server_operations audit_tasks monitoring_tasks observation_tasks filesystem_tasks
    usage_severity failed_service_tasks service_tasks smart_tasks sort_tasks sorted read_evidence
    utc_timestamp filesystems smart_evidence smart_devices expects_smart mapping mapping_sequence
    objects_of optional_mapping value_at get_field boolean_at read_filesystems required_string
    monitored_filesystem byte_count absolute_path is_absolute_path starts_with occurs_in from_counts
    sort_by insert_by string_eq nat_eq
viewed = refl

server_operations_iff_example :
    (view.health ≡ healthy) ↔ (All Passing [] × Quiet no_digest noon evidence services 50000000000)
server_operations_iff_example =
    server_operations_iff no_digest noon "web" "web.example.org" snapshot audit 50000000000 spec
      services evidence view (unfold mapping value_at get_field optional_mapping string_eq in refl)
      (unfold mapping value_at get_field optional_mapping string_eq in refl) evidence_read viewed

view_healthy : view.health ≡ healthy
unfolding health
view_healthy = refl

abbrev edge : DomainServer
edge = record { resource_id = "edge"; lifecycle = "active" }

abbrev site : DomainInventory
site = record {
  resource_id = "site";
  primary_name = "example.org";
  proxy_server_id = "edge";
  proxy_service_name = "nginx.service";
  proxy_configuration_path = "/etc/nginx/site.conf";
  origin_server_id = "edge";
  edge_mode = "dns-only";
  tls_mode = "enabled";
  expected_statuses = 200 ∷ [];
}

abbrev deployed_site : DeploymentReceipt
deployed_site = record {
  server_id = "edge";
  configuration_path = "/etc/nginx/site.conf";
  configuration_sha256 = "ab";
  deployed_at = 0;
}

abbrev answering : EndpointEvidence
answering = record { skipped = false; reachable = true; status = some 200 }

abbrev seen_site : ObservedDomainSnapshot
seen_site = record {
  observed_at = 1;
  dns_failed = false;
  edge_detected = false;
  proxy_address_observed = true;
  tls_valid = true;
  tls_expires_at = some 9000000000000;
  origin = answering;
  public_route = answering;
}

abbrev edge_snapshot : ObservedServerSnapshot
edge_snapshot = record {
  server_id = "edge";
  server_type_id = "base";
  content =
      field "spec"
        (obj (
          field "services"
            (obj (
              field "nginx.service"
                (obj (field "state" (str "running") (field "status" (str "enabled") end))) end))
            (field "configuration"
              (arr (
                cons
                  (obj (
                    field "path" (str "/etc/nginx/site.conf")
                      (field "exists" (bool true) (field "sha256" (str "ab") end))))
                  nil))
              end)))
        end;
  source = "observed/edge.json";
}

site_configured :
    domain_configuration site (some edge_snapshot) (some deployed_site)
    ≡ ok ConfigurationStatus.compliant
unfolding domain_configuration mapping mapping_sequence objects_of optional_mapping value_at
    get_field string_eq
site_configured = refl

edge_found : inventory_server (edge ∷ []) "edge" ≡ ok edge
unfolding inventory_server string_eq
edge_found = refl

domain_operations_iff_example :
    (view : DomainOperations) × (domain_operations site
        (edge ∷ [])
        (some edge_snapshot)
        (some deployed_site)
        (some seen_site)
        1000
      ≡ ok view)
    × ((view.health ≡ healthy) ↔ (
        ((edge.lifecycle ≡ "active") × (edge.lifecycle ≡ "active"))
        × IsDeployed site (some deployed_site)
        × (ConfigurationStatus.compliant ≡ ConfigurationStatus.compliant)
        × Resolves site (some seen_site)
        × ((site.tls_mode ≡ "disabled") ⊎ HasCertificate (some seen_site) 1000)
        × Answers site (some answering)
        × Answers site (some answering)))
domain_operations_iff_example =
    domain_operations_iff site (edge ∷ []) edge edge (some edge_snapshot)
      ConfigurationStatus.compliant (some deployed_site) (some seen_site) 1000 edge_found edge_found
      site_configured

site_healthy :
    (domain_view site true ConfigurationStatus.compliant
      (some deployed_site)
      (some seen_site)
      1000).health
    ≡ healthy
unfolding domain_view deployment_evidence dns_check tls_check endpoint_check domain_health string_eq
    nat_eq
site_healthy = refl
