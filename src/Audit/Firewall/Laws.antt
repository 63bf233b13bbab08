-- ===== src/Audit/Firewall/Laws.antt =====
-- What a firewall that passes the audit lets in.
use cloudfall.Base.{
  ℕ, true, ◌&&◌, map, any, ◌==◌, string_eq, option_eq, nat_eq, ◌≡◌, ◌↔◌, ◌⊎◌, refl, sym, ◌∙◌, inl,
  inr, Member, arith, Bool-cases,
}
use cloudfall.Base.Members.{Member-map_iff, any_iff}
use cloudfall.Base.Int.{pos}
use cloudfall.Base.Json.{Json}
use cloudfall.Inventory.{
  NetworkProtocol, protocol_value, tcp, udp, FirewallRule, FirewallRequirement, is_tcp, is_ssh_rule,
  firewall_rules_for_server,
}
use cloudfall.Audit.Firewall.{Endpoint, endpoint_of, endpoints_eq}

-- SSH on the server's port, or a declared rule
abbrev pub Declared : FirewallRequirement → ℕ → Endpoint → Type 0
Declared firewall ssh_port e =
    (e ≡ ("tcp", pos ssh_port))
    ⊎ ((rule : FirewallRule) × Member rule firewall.allowed_inbound × (e ≡ endpoint_of rule))

ssh_endpoint :
    (ssh_port : ℕ) (rule : FirewallRule)
    → is_ssh_rule ssh_port rule ≡ true
    → endpoint_of rule ≡ ("tcp", pos ssh_port)
ssh_endpoint ssh_port rule h =
    let (port, protocol) = parts rule.protocol h in λ i. (protocol i, pos (port i))
  where
    parts :
        (p : NetworkProtocol)
        → (ssh_port == rule.port && is_tcp p) ≡ true
        → (rule.port ≡ ssh_port) × (protocol_value p ≡ "tcp")
    parts tcp h = (ground arith, refl)
    parts udp h = ground arith

-- The effective rules are the declared ones and the one for SSH.
pub firewall_rules_iff :
    (firewall : FirewallRequirement) (ssh_port : ℕ) (e : Endpoint)
    → Member e (map endpoint_of (firewall_rules_for_server firewall ssh_port))
      ↔ Declared firewall ssh_port e
unfolding firewall_rules_for_server
firewall_rules_iff firewall ssh_port e =
    elim (Bool-cases (any (is_ssh_rule ssh_port) firewall.allowed_inbound)) [
      | inl there ↦
          let (rule, m, is_ssh) =
            (any_iff (is_ssh_rule ssh_port) firewall.allowed_inbound).0 there in
          rw (firewall_rules_for_server, there)
            (
              λ h. inr ((Member-map_iff endpoint_of e firewall.allowed_inbound).0 h),
              λ d. (Member-map_iff endpoint_of e firewall.allowed_inbound).1 (elim d [
                | inl ssh ↦ (rule, m, ssh ∙ sym (ssh_endpoint ssh_port rule is_ssh))
                | inr declared ↦ declared
              ]),
            )
      | inr missing ↦
          rw (firewall_rules_for_server, missing)
            (
              λ h. elim h [
                | inl ssh ↦ inl ssh
                | inr later ↦ inr ((Member-map_iff endpoint_of e firewall.allowed_inbound).0 later)
              ],
              λ d. elim d [
                | inl ssh ↦ inl ssh
                | inr declared ↦
                    inr ((Member-map_iff endpoint_of e firewall.allowed_inbound).1 declared)
              ],
            )
    ]
