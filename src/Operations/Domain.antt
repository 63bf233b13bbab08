-- ===== src/Operations/Domain.antt =====
-- The view of a domain and of the fleet: `_domain_operations`, the checks that it makes, and
-- `_fleet_health` of operations.py. The texts of a check's detail are left out.
pub mod Laws
use cloudfall.Base.{
  ℕ, ◌+◌, String, Bool, true, false, ◌&&◌, ◌||◌, not, Option, none, some, List, [], ◌∷◌, ◌++◌, any,
  first, contains, leb, ◌==◌, nat_eq, string_eq, if◌then◌else◌,
}
use cloudfall.Base.Json.{Json, Fields}
use cloudfall.Base.Results.{Result, ok, err, ◌>>=◌}
use cloudfall.Audit.Values.{value_at, optional_mapping, is_true, equals_text}
use cloudfall.Audit.Report.{ObservedServerSnapshot}
use cloudfall.Operations.Records.{OperationsError, OperationsHealth, key_error}
use cloudfall.Operations.Values.{Views, mapping, mapping_sequence}

-- a server of the inventory, as far as a domain's view reads it
pub record DomainServer : Type 0 where
  pub resource_id : String
  pub lifecycle : String

pub record DomainInventory : Type 0 where
  pub resource_id : String
  pub primary_name : String
  pub proxy_server_id : String
  pub proxy_service_name : String
  pub proxy_configuration_path : String
  pub origin_server_id : String
  pub edge_mode : String
  pub tls_mode : String
  pub expected_statuses : List ℕ

pub record DeploymentReceipt : Type 0 where
  pub server_id : String
  pub configuration_path : String
  pub configuration_sha256 : String
  pub deployed_at : ℕ

pub record EndpointEvidence : Type 0 where
  pub skipped : Bool
  pub reachable : Bool
  pub status : Option ℕ

-- `dns_failed` tells of a `dns_error`; `tls_valid` and `tls_expires_at` are those of `TlsEvidence`.
pub record ObservedDomainSnapshot : Type 0 where
  pub observed_at : ℕ
  pub dns_failed : Bool
  pub edge_detected : Bool
  pub proxy_address_observed : Bool
  pub tls_valid : Bool
  pub tls_expires_at : Option ℕ
  pub origin : EndpointEvidence
  pub public_route : EndpointEvidence

pub data LifecycleEvidence : Type 0 where
  yes no unknown : LifecycleEvidence

pub data ConfigurationStatus : Type 0 where
  compliant drifted unknown : ConfigurationStatus

pub data RouteCheckStatus : Type 0 where
  healthy unhealthy unknown : RouteCheckStatus

pub record DomainOperations : Type 0 where
  pub domain_id : String
  pub primary_name : String
  pub health : OperationsHealth
  pub observed_at : Option ℕ
  pub ready_to_deploy : LifecycleEvidence
  pub deployed : LifecycleEvidence
  pub deployed_at : Option ℕ
  pub configuration : ConfigurationStatus
  pub dns : RouteCheckStatus
  pub tls : RouteCheckStatus
  pub origin : RouteCheckStatus
  pub public_route : RouteCheckStatus

-- `_inventory_server`
unfoldable pub inventory_server : List DomainServer → String → Views DomainServer
inventory_server servers server_id =
    elim (first (λ candidate. candidate.resource_id == server_id) servers) [
      | none ↦ err (key_error server_id)
      | some server ↦ ok server
    ]

abbrev pub is_active : DomainServer → Bool
is_active server = server.lifecycle == "active"

abbrev yes_if : Bool → LifecycleEvidence
yes_if b = if b then LifecycleEvidence.yes else LifecycleEvidence.no

abbrev healthy_if : Bool → RouteCheckStatus
healthy_if b = if b then RouteCheckStatus.healthy else RouteCheckStatus.unhealthy

abbrev pub receipt_matches : DomainInventory → DeploymentReceipt → Bool
receipt_matches domain receipt =
    receipt.server_id == domain.proxy_server_id
    && receipt.configuration_path == domain.proxy_configuration_path

-- `_deployment_evidence`
unfoldable pub deployment_evidence :
    DomainInventory → Option DeploymentReceipt → LifecycleEvidence × Option ℕ
deployment_evidence domain none = (LifecycleEvidence.no, none)
deployment_evidence domain (some receipt) =
    (yes_if (receipt_matches domain receipt), some receipt.deployed_at)

-- whether the receipt is of this configuration path, with another digest than the one observed
abbrev differs : DomainInventory → Option DeploymentReceipt → Fields → Bool
differs domain none config = false
differs domain (some receipt) config =
    receipt.configuration_path == domain.proxy_configuration_path
    && not (equals_text (value_at config "sha256") receipt.configuration_sha256)

abbrev file_status :
    DomainInventory → Option DeploymentReceipt → Option Fields → ConfigurationStatus
file_status domain receipt none = ConfigurationStatus.drifted
file_status domain receipt (some config) =
    if is_true (value_at config "exists")
    then (if differs domain receipt config
        then ConfigurationStatus.drifted
        else ConfigurationStatus.compliant)
    else ConfigurationStatus.drifted

abbrev is_running : Option Fields → Bool
is_running none = false
is_running (some service) =
    equals_text (value_at service "state") "running"
    && equals_text (value_at service "status") "enabled"

-- `_domain_configuration`
unfoldable pub domain_configuration :
    DomainInventory
    → Option ObservedServerSnapshot
    → Option DeploymentReceipt
    → Views ConfigurationStatus
unfolding value_at optional_mapping mapping mapping_sequence
domain_configuration domain none receipt = ok ConfigurationStatus.unknown
domain_configuration domain (some snapshot) receipt = do
  spec ← mapping snapshot.content "spec"
  services ← mapping spec "services"
  if is_running (optional_mapping (value_at services domain.proxy_service_name))
      then (do
        files ← mapping_sequence spec "configuration"
        ok (
            file_status domain receipt (
              first (λ item. equals_text (value_at item "path") domain.proxy_configuration_path)
                files)))
      else ok ConfigurationStatus.drifted

-- `_dns_check`
unfoldable pub dns_check : DomainInventory → Option ObservedDomainSnapshot → RouteCheckStatus
dns_check domain none = RouteCheckStatus.unknown
dns_check domain (some seen) =
    if seen.dns_failed
    then RouteCheckStatus.unhealthy
    else if domain.edge_mode == "proxied"
    then healthy_if seen.edge_detected
    else healthy_if seen.proxy_address_observed

-- thirty days
abbrev pub renewal : ℕ
renewal = 2592000000000

abbrev expiry_check : Option ℕ → ℕ → RouteCheckStatus
expiry_check none generated_at = RouteCheckStatus.unhealthy
expiry_check (some expires) generated_at =
    if leb expires (generated_at + renewal)
    then RouteCheckStatus.unhealthy
    else RouteCheckStatus.healthy

abbrev certificate_check : Option ObservedDomainSnapshot → ℕ → RouteCheckStatus
certificate_check none generated_at = RouteCheckStatus.unknown
certificate_check (some seen) generated_at =
    if seen.tls_valid
    then expiry_check seen.tls_expires_at generated_at
    else RouteCheckStatus.unhealthy

-- `_tls_check`
unfoldable pub tls_check : DomainInventory → Option ObservedDomainSnapshot → ℕ → RouteCheckStatus
tls_check domain seen generated_at =
    if domain.tls_mode == "disabled"
    then RouteCheckStatus.healthy
    else certificate_check seen generated_at

abbrev status_check : DomainInventory → Option ℕ → RouteCheckStatus
status_check domain none = RouteCheckStatus.unhealthy
status_check domain (some status) = healthy_if (contains domain.expected_statuses status)

-- `_endpoint_check`, with the evidence of that endpoint
unfoldable pub endpoint_check : DomainInventory → Option EndpointEvidence → RouteCheckStatus
endpoint_check domain none = RouteCheckStatus.unknown
endpoint_check domain (some evidence) =
    if evidence.skipped
    then RouteCheckStatus.healthy
    else if evidence.reachable
    then status_check domain evidence.status
    else RouteCheckStatus.unhealthy

abbrev is_unhealthy : RouteCheckStatus → Bool
is_unhealthy RouteCheckStatus.unhealthy = true
is_unhealthy _ = false

abbrev is_unknown_check : RouteCheckStatus → Bool
is_unknown_check RouteCheckStatus.unknown = true
is_unknown_check _ = false

abbrev is_no : LifecycleEvidence → Bool
is_no LifecycleEvidence.no = true
is_no _ = false

abbrev is_unknown_evidence : LifecycleEvidence → Bool
is_unknown_evidence LifecycleEvidence.unknown = true
is_unknown_evidence _ = false

abbrev is_drifted : ConfigurationStatus → Bool
is_drifted ConfigurationStatus.drifted = true
is_drifted _ = false

abbrev is_unknown_configuration : ConfigurationStatus → Bool
is_unknown_configuration ConfigurationStatus.unknown = true
is_unknown_configuration _ = false

-- `_domain_health`
unfoldable pub domain_health :
    LifecycleEvidence
    → LifecycleEvidence
    → ConfigurationStatus
    → List RouteCheckStatus
    → OperationsHealth
domain_health ready deployed configuration checks =
    if is_no ready || is_no deployed || is_drifted configuration || any is_unhealthy checks
    then OperationsHealth.warning
    else if is_unknown_evidence ready
        || is_unknown_evidence deployed
        || is_unknown_configuration configuration
        || any is_unknown_check checks
    then OperationsHealth.unknown
    else OperationsHealth.healthy

abbrev pub the_origin : Option ObservedDomainSnapshot → Option EndpointEvidence
the_origin none = none
the_origin (some seen) = some seen.origin

abbrev pub the_public : Option ObservedDomainSnapshot → Option EndpointEvidence
the_public none = none
the_public (some seen) = some seen.public_route

abbrev time_of : Option ObservedDomainSnapshot → Option ℕ
time_of none = none
time_of (some seen) = some seen.observed_at

-- the view, once its servers and its configuration are known
unfoldable pub domain_view :
    DomainInventory
    → Bool
    → ConfigurationStatus
    → Option DeploymentReceipt
    → Option ObservedDomainSnapshot
    → ℕ
    → DomainOperations
unfolding deployment_evidence dns_check tls_check endpoint_check domain_health
domain_view domain active configuration receipt seen generated_at =
    let ready = yes_if active in
    let (deployed, deployed_at) = deployment_evidence domain receipt in
    let dns = dns_check domain seen in
    let tls = tls_check domain seen generated_at in
    let at_origin = endpoint_check domain (the_origin seen) in
    let at_public = endpoint_check domain (the_public seen) in
    record {
      domain_id = domain.resource_id;
      primary_name = domain.primary_name;
      health = domain_health ready deployed configuration (dns ∷ tls ∷ at_origin ∷ at_public ∷ []);
      observed_at = time_of seen;
      ready_to_deploy = ready;
      deployed = deployed;
      deployed_at = deployed_at;
      configuration = configuration;
      dns = dns;
      tls = tls;
      origin = at_origin;
      public_route = at_public;
    }

-- `_domain_operations`, with the evidence of the domain
unfoldable pub domain_operations :
    DomainInventory
    → List DomainServer
    → Option ObservedServerSnapshot
    → Option DeploymentReceipt
    → Option ObservedDomainSnapshot
    → ℕ
    → Views DomainOperations
unfolding inventory_server domain_configuration domain_view
domain_operations domain servers snapshot receipt seen generated_at = do
  proxy ← inventory_server servers domain.proxy_server_id
  origin ← inventory_server servers domain.origin_server_id
  configuration ← domain_configuration domain snapshot receipt
  ok (
      domain_view domain (is_active proxy && is_active origin) configuration receipt seen
        generated_at)

abbrev is_critical_health : OperationsHealth → Bool
is_critical_health OperationsHealth.critical = true
is_critical_health _ = false

abbrev is_unknown_health : OperationsHealth → Bool
is_unknown_health OperationsHealth.unknown = true
is_unknown_health _ = false

abbrev is_warning_health : OperationsHealth → Bool
is_warning_health OperationsHealth.warning = true
is_warning_health _ = false

-- `_fleet_health`, of the healths of the servers and of the domains
unfoldable pub fleet_health : List OperationsHealth → List OperationsHealth → OperationsHealth
fleet_health servers domains =
    let all_of = servers ++ domains in
    if any is_critical_health all_of
    then OperationsHealth.critical
    else if any is_unknown_health all_of
    then OperationsHealth.unknown
    else if any is_warning_health all_of
    then OperationsHealth.warning
    else OperationsHealth.healthy
