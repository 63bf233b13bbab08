-- ===== src/Operations/Domain/Laws.antt =====
-- When a domain is healthy.
use cloudfall.Base.{
  ℕ, ◌+◌, ◌<◌, true, false, ◌&&◌, Option, none, some, List, [], ◌∷◌, contains, nat_eq, string_eq,
  ◌≡◌, ◌≢◌, ◌↔◌, ◌⊎◌, arith,
}
use cloudfall.Base.Results.{ok}
use cloudfall.Audit.Report.{ObservedServerSnapshot}
use cloudfall.Operations.Records.{OperationsHealth}
use cloudfall.Operations.Domain.{
  DomainServer, DomainInventory, DeploymentReceipt, EndpointEvidence, ObservedDomainSnapshot,
  LifecycleEvidence, ConfigurationStatus, RouteCheckStatus, DomainOperations, inventory_server,
  is_active, yes_if, deployment_evidence, domain_configuration, dns_check, renewal, tls_check,
  endpoint_check, domain_health, domain_view, the_origin, the_public, domain_operations,
}

-- A receipt tells of this proxy and this configuration path.
abbrev pub IsDeployed : DomainInventory → Option DeploymentReceipt → Type 0
IsDeployed domain none = ⊥
IsDeployed domain (some receipt) =
    (receipt.server_id ≡ domain.proxy_server_id)
    × (receipt.configuration_path ≡ domain.proxy_configuration_path)

deployment_evidence_iff :
    (domain : DomainInventory) (receipt : Option DeploymentReceipt)
    → ((deployment_evidence domain receipt).0 ≡ LifecycleEvidence.yes) ↔ IsDeployed domain receipt
unfolding deployment_evidence
deployment_evidence_iff domain none = (λ h. cc, λ h. absurd h)
deployment_evidence_iff domain (some receipt) = (λ h. ground arith, λ h. ground arith)

-- The name resolves, to the edge if the domain is proxied and to the proxy if not.
abbrev pub Resolves : DomainInventory → Option ObservedDomainSnapshot → Type 0
Resolves domain none = ⊥
Resolves domain (some seen) =
    (seen.dns_failed ≡ false)
    × (domain.edge_mode ≡ "proxied" → seen.edge_detected ≡ true)
    × (domain.edge_mode ≢ "proxied" → seen.proxy_address_observed ≡ true)

dns_check_iff :
    (domain : DomainInventory) (seen : Option ObservedDomainSnapshot)
    → (dns_check domain seen ≡ RouteCheckStatus.healthy) ↔ Resolves domain seen
unfolding dns_check
dns_check_iff domain none = (λ h. cc, λ h. absurd h)
dns_check_iff domain (some seen) = (λ h. ground arith, λ h. ground arith)

-- TLS is not used, or the certificate is valid for more than thirty days from now.
abbrev pub HasCertificate : Option ObservedDomainSnapshot → ℕ → Type 0
HasCertificate none generated_at = ⊥
HasCertificate (some seen) generated_at =
    (seen.tls_valid ≡ true)
    × ((expires : ℕ) × (seen.tls_expires_at ≡ some expires) × (generated_at + renewal < expires))

tls_check_iff :
    (domain : DomainInventory) (seen : Option ObservedDomainSnapshot) (generated_at : ℕ)
    → (tls_check domain seen generated_at ≡ RouteCheckStatus.healthy)
      ↔ ((domain.tls_mode ≡ "disabled") ⊎ HasCertificate seen generated_at)
unfolding tls_check
tls_check_iff domain none generated_at = (λ h. ground arith, λ h. ground arith)
tls_check_iff domain (some seen) generated_at = (λ h. ground arith, λ h. ground arith)

-- The probe is skipped by the evidence, or it has met one of the expected statuses.
abbrev pub Answers : DomainInventory → Option EndpointEvidence → Type 0
Answers domain none = ⊥
Answers domain (some evidence) =
    (evidence.skipped ≡ true)
    ⊎ ((evidence.reachable ≡ true)
        × ((status : ℕ) × (evidence.status ≡ some status)
            × (contains domain.expected_statuses status ≡ true)))

endpoint_check_iff :
    (domain : DomainInventory) (evidence : Option EndpointEvidence)
    → (endpoint_check domain evidence ≡ RouteCheckStatus.healthy) ↔ Answers domain evidence
unfolding endpoint_check
endpoint_check_iff domain none = (λ h. cc, λ h. absurd h)
endpoint_check_iff domain (some evidence) = (λ h. ground arith, λ h. ground arith)

domain_health_iff :
    (ready deployed : LifecycleEvidence) (configuration : ConfigurationStatus)
    (a b c d : RouteCheckStatus)
    → (domain_health ready deployed configuration (a ∷ b ∷ c ∷ d ∷ []) ≡ OperationsHealth.healthy)
      ↔ ((ready ≡ LifecycleEvidence.yes)
          × (deployed ≡ LifecycleEvidence.yes)
          × (configuration ≡ ConfigurationStatus.compliant)
          × (a ≡ RouteCheckStatus.healthy)
          × (b ≡ RouteCheckStatus.healthy)
          × (c ≡ RouteCheckStatus.healthy)
          × (d ≡ RouteCheckStatus.healthy))
unfolding domain_health
domain_health_iff ready deployed configuration a b c d = (λ h. ground arith, λ h. ground arith)

ready_iff :
    (proxy origin : DomainServer)
    → (yes_if (is_active proxy && is_active origin) ≡ LifecycleEvidence.yes)
      ↔ ((proxy.lifecycle ≡ "active") × (origin.lifecycle ≡ "active"))
ready_iff proxy origin = (λ h. ground arith, λ h. ground arith)

-- Where the servers of a domain are in the inventory and its configuration can be read, the view is
-- returned, and is healthy exactly if both servers are active, a receipt tells that this configuration
-- was deployed to this proxy, the configuration is compliant, the name resolves as it should, TLS is
-- disabled or its certificate is valid for more than thirty days, and origin and public route are
-- skipped by the evidence or answer with an expected status.
pub domain_operations_iff :
    (domain : DomainInventory) (servers : List DomainServer) (proxy origin : DomainServer)
    (snapshot : Option ObservedServerSnapshot) (configuration : ConfigurationStatus)
    (receipt : Option DeploymentReceipt) (seen : Option ObservedDomainSnapshot) (generated_at : ℕ)
    → inventory_server servers domain.proxy_server_id ≡ ok proxy
    → inventory_server servers domain.origin_server_id ≡ ok origin
    → domain_configuration domain snapshot receipt ≡ ok configuration
    → (view : DomainOperations) × (domain_operations domain servers snapshot receipt seen
          generated_at
        ≡ ok view)
      × ((view.health ≡ OperationsHealth.healthy) ↔ (
          ((proxy.lifecycle ≡ "active") × (origin.lifecycle ≡ "active"))
          × IsDeployed domain receipt
          × (configuration ≡ ConfigurationStatus.compliant)
          × Resolves domain seen
          × ((domain.tls_mode ≡ "disabled") ⊎ HasCertificate seen generated_at)
          × Answers domain (the_origin seen)
          × Answers domain (the_public seen)))
unfolding domain_operations domain_view
domain_operations_iff domain servers proxy origin snapshot configuration receipt seen generated_at p
      o known =
    let active = is_active proxy && is_active origin in
    let deployed = (deployment_evidence domain receipt).0 in
    let dns = dns_check domain seen in
    let tls = tls_check domain seen generated_at in
    let at_origin = endpoint_check domain (the_origin seen) in
    let at_public = endpoint_check domain (the_public seen) in
    let whole =
      domain_health_iff (yes_if active) deployed configuration dns tls at_origin at_public in
    (
      domain_view domain active configuration receipt seen generated_at,
      rw (domain_operations, p, o, known),
      (
        λ c.
            let (r, d, f, a, t, w, x) = whole.0 c in
            (
              (ready_iff proxy origin).0 r,
              (deployment_evidence_iff domain receipt).0 d,
              f,
              (dns_check_iff domain seen).0 a,
              (tls_check_iff domain seen generated_at).0 t,
              (endpoint_check_iff domain (the_origin seen)).0 w,
              (endpoint_check_iff domain (the_public seen)).0 x,
            ),
        λ (r, d, f, a, t, w, x). whole.1 (
          (ready_iff proxy origin).1 r,
          (deployment_evidence_iff domain receipt).1 d,
          f,
          (dns_check_iff domain seen).1 a,
          (tls_check_iff domain seen generated_at).1 t,
          (endpoint_check_iff domain (the_origin seen)).1 w,
          (endpoint_check_iff domain (the_public seen)).1 x,
        ),
      ),
    )
