-- ===== src/Audit/Firewall.antt =====
-- The firewall: `_audit_firewall`, `_parse_managed_firewall_table` and `_accepted_inbound_endpoint` of
-- audit.py.
pub mod Laws
use cloudfall.Base.{
  ℕ, String, Bool, true, false, ◌&&◌, ◌||◌, Option, none, some, List, [], ◌∷◌, ◌<>◌, map, leb, ltb,
  ◌==◌, string_eq, option_eq, nat_eq, Eq, if◌then◌else◌,
}
use native.Mathlib.Decide.{ℕ_discrete}
use cloudfall.Base.{String-discrete}
use cloudfall.Base.Int.{ℤ, pos, negsuc, ℤ-discrete}
use cloudfall.Base.Json.{Json, null, bool, int, str, obj, Fields, end, field, get_field}
use cloudfall.Base.Results.{ok, ◌>>=◌}
use cloudfall.Base.Sorting.{sorted, text_leb}
use cloudfall.Base.Text.{print_int}
use cloudfall.Inventory.{
  ServerInventory, FirewallRule, FirewallRequirement, protocol_value, firewall_rules_for_server,
}
use cloudfall.Audit.Values.{
  Audits, value_at, optional_mapping, mapping, mapping_values_sequence, is_true, equals_text, texts,
}
use cloudfall.Audit.Checks.{AuditCheck, comparison}
use cloudfall.Audit.Raid.{int_ltb}

-- a protocol and a port
abbrev pub Endpoint : Type 0
Endpoint = String × ℤ

-- `_ObservedFirewallTable`
pub record ObservedFirewallTable : Type 0 where
  pub input_policy : Option String
  pub allowed_inbound : List Endpoint

-- `key in expression`
abbrev has_field : String → Fields → Bool
has_field key content = elim (get_field key content) [ none ↦ false | some _ ↦ true ]

-- the text of `payload.get("protocol")`, if it is one of the two
abbrev transport : Json → Option String
transport (str s) = if s == "tcp" || s == "udp" then some s else none
transport _ = none

abbrev endpoint_from : Fields → Json → Option Endpoint
endpoint_from payload (int port) =
    if equals_text (value_at payload "field") "dport"
    then elim (transport (value_at payload "protocol")) [
      | none ↦ none
      | some protocol ↦ some (protocol, port)
    ]
    else none
endpoint_from payload _ = none

-- the endpoint that an expression without `accept` names
unfoldable pub matched_endpoint : Fields → Option Endpoint
unfolding value_at optional_mapping get_field
matched_endpoint expression = elim (optional_mapping (value_at expression "match")) [
  | none ↦ none
  | some found ↦ elim (optional_mapping (value_at found "left")) [
    | none ↦ none
    | some left ↦ elim (optional_mapping (value_at left "payload")) [
      | none ↦ none
      | some payload ↦ endpoint_from payload (value_at found "right")
    ]
  ]
]

abbrev latest {ℓ} : {A : Type ℓ} → Option A → Option A → Option A
latest old none = old
latest old (some new) = some new

-- the loop of `_accepted_inbound_endpoint`, with `endpoint` and `accepts`
unfoldable pub read_expressions : List Fields → Option Endpoint → Bool → Option Endpoint
unfolding matched_endpoint get_field
read_expressions [] endpoint accepts = if accepts then endpoint else none
read_expressions (expression ∷ rest) endpoint accepts =
    let accepting = read_expressions rest endpoint true in
    let other = read_expressions rest (latest endpoint (matched_endpoint expression)) accepts in
    if has_field "accept" expression then accepting else other

unfoldable pub accepted_inbound_endpoint : Fields → Option Endpoint
unfolding value_at mapping_values_sequence read_expressions
accepted_inbound_endpoint rule =
    read_expressions (mapping_values_sequence (value_at rule "expr")) none false

-- what the loop of `_parse_managed_firewall_table` keeps
pub record TableFacts : Type 0 where
  pub table_present : Bool
  pub input_policy : Option String
  pub allowed : List Endpoint

abbrev entry_at : Fields → String → Option Fields
entry_at entry key = optional_mapping (value_at entry key)

-- whether the entry declares the managed table
abbrev pub is_managed_table : Option Fields → Bool
is_managed_table none = false
is_managed_table (some table) = equals_text (value_at table "name") "cloudfall"

abbrev policy_text : Json → Option String
policy_text (str s) = some s
policy_text _ = none

-- the policy that a chain entry gives the managed input chain
unfoldable pub chain_policy : Option Fields → Option String
unfolding value_at
chain_policy none = none
chain_policy (some chain) =
    if equals_text (value_at chain "table") "cloudfall"
      && equals_text (value_at chain "name") "input"
    then policy_text (value_at chain "policy")
    else none

-- the endpoint that a rule entry of the managed input chain accepts
unfoldable pub rule_endpoint : Option Fields → Option Endpoint
unfolding value_at accepted_inbound_endpoint
rule_endpoint none = none
rule_endpoint (some rule) =
    if equals_text (value_at rule "table") "cloudfall"
      && equals_text (value_at rule "chain") "input"
    then accepted_inbound_endpoint rule
    else none

abbrev pub with_endpoint : Option Endpoint → List Endpoint → List Endpoint
with_endpoint none later = later
with_endpoint (some endpoint) later = endpoint ∷ later

-- the loop over the entries: the last policy counts, and the endpoints are in the order of the rules
unfoldable pub read_entries :
    List Fields → Bool → Option String → Bool × Option String × List Endpoint
unfolding value_at optional_mapping chain_policy rule_endpoint
read_entries [] present policy = (present, policy, [])
read_entries (entry ∷ rest) present policy =
    let (present', policy', later) =
      read_entries rest (present || is_managed_table (entry_at entry "table"))
        (latest policy (chain_policy (entry_at entry "chain"))) in
    (present', policy', with_endpoint (rule_endpoint (entry_at entry "rule")) later)

abbrev table_of : Bool × Option String × List Endpoint → Option ObservedFirewallTable
table_of (present, policy, allowed) =
    if present then some (record { input_policy = policy; allowed_inbound = allowed }) else none

abbrev endpoint_of : FirewallRule → Endpoint
endpoint_of rule = (protocol_value rule.protocol, pos rule.port)

-- Python's `<=` on two endpoints
unfoldable pub endpoint_leb : Endpoint → Endpoint → Bool
unfolding text_leb
endpoint_leb (p, m) (q, n) = if p == q then (if int_ltb n m then false else true) else text_leb p q

endpoints_dec : Discrete (List Endpoint)
endpoints_dec = hlevel (String-discrete, ℤ-discrete)

instance unfoldable pub endpoints_eq : Eq (List Endpoint)
unfolding endpoints_dec
endpoints_eq = record { dec = endpoints_dec }

abbrev shown : Endpoint → String
shown (protocol, port) = protocol <> "/" <> print_int port

abbrev shown_rules : Option (List Endpoint) → Json
shown_rules none = null
shown_rules (some rules) = texts (map shown rules)

abbrev shown_policy : Option ObservedFirewallTable → Json
shown_policy none = null
shown_policy (some table) = elim table.input_policy [ none ↦ null | some policy ↦ str policy ]

abbrev is_present {ℓ} : {A : Type ℓ} → Option A → Bool
is_present none = false
is_present (some _) = true

-- `table is not None and table.input_policy == "drop"`
abbrev drops : Option ObservedFirewallTable → Bool
drops none = false
drops (some table) = table.input_policy == some "drop"

-- `observed_rules == expected_rules`, the first of them sorted if it is there
abbrev same_rules : Option ObservedFirewallTable → List Endpoint → Bool
same_rules none expected = false
same_rules (some table) expected = sorted endpoint_leb table.allowed_inbound == expected

-- `json.loads` is a parameter; `none` is its `JSONDecodeError`.
module _ (loads : String → Option Json) where
  unfoldable pub parse_managed_firewall_table : String → Option ObservedFirewallTable
  unfolding value_at optional_mapping mapping_values_sequence read_entries
  parse_managed_firewall_table raw = elim (loads raw) [
    | none ↦ none
    | some parsed ↦ elim (optional_mapping parsed) [
      | none ↦ none
      | some document ↦
          table_of
            (read_entries (mapping_values_sequence (value_at document "nftables")) false none)
    ]
  ]

  -- `_parse_managed_firewall_table(raw_table) if nft_available and isinstance(raw_table, str) else None`
  unfoldable pub observed_table : Fields → Option ObservedFirewallTable
  unfolding value_at parse_managed_firewall_table
  observed_table evidence =
      if is_true (value_at evidence "nftAvailable")
      then (elim (value_at evidence "managedTableJson") [
        | str raw ↦ parse_managed_firewall_table raw
        | _ ↦ none
      ])
      else none

  unfoldable pub expected_rules : FirewallRequirement → ℕ → List Endpoint
  unfolding firewall_rules_for_server sorted endpoint_leb
  expected_rules firewall ssh_port =
      sorted endpoint_leb (map endpoint_of (firewall_rules_for_server firewall ssh_port))

  unfoldable pub firewall_checks : ServerInventory → FirewallRequirement → Fields → List AuditCheck
  unfolding value_at observed_table expected_rules comparison sorted endpoint_leb
  firewall_checks server firewall evidence =
      let table = observed_table evidence in
      let expected = expected_rules firewall server.ssh_port in
      comparison "firewall.managedTable"
        (obj (field "table" (str "inet cloudfall") (field "present" (bool true) end)))
        (obj (
          field "nftAvailable" (bool (is_true (value_at evidence "nftAvailable")))
            (field "present" (bool (is_present table)) end)))
        (is_present table)
      ∷ comparison "firewall.inputPolicy" (str "drop") (shown_policy table) (drops table)
      ∷ comparison "firewall.allowedInbound" (texts (map shown expected))
          (shown_rules
            (elim table [ none ↦ none | some t ↦ some (sorted endpoint_leb t.allowed_inbound) ]))
          (same_rules table expected)
      ∷ []

  unfoldable pub audit_firewall :
      ServerInventory → FirewallRequirement → Fields → Audits (List AuditCheck)
  unfolding mapping firewall_checks
  audit_firewall server firewall spec = do
    evidence ← mapping spec "firewall"
    ok (firewall_checks server firewall evidence)
