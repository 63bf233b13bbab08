-- ===== src/Audit/Alerts.antt =====
-- Alert rules and component environments: `_audit_alert_rules`, `_observed_alert_rules`,
-- `_alert_rules_for_backend` and `_audit_component_environment` of audit.py.
use Prim.Native.Char.{code}
use cloudfall.Base.{
  String, Bool, true, false, ◌&&◌, Option, none, some, List, [], ◌∷◌, ◌<>◌, select, map, ◌==◌,
  nat_eq, string_eq, if◌then◌else◌,
}
use cloudfall.Base.Dict.{Dict, lookup, put}
use cloudfall.Base.Json.{Json, null, bool, str, obj, Fields, end, field}
use cloudfall.Inventory.{AlertRuleInventory, ComponentInventory, LoggingStackInventory}
use cloudfall.Audit.Values.{
  value_at, optional_mapping, mapping_values_sequence, is_true, equals_text,
}
use cloudfall.Audit.Checks.{AuditCheck, comparison}

-- `{stack.backend.server_id: stack for stack in stacks}`
unfoldable pub stacks_by_backend :
    List LoggingStackInventory
    → Dict String LoggingStackInventory
    → Dict String LoggingStackInventory
unfolding put
stacks_by_backend [] index = index
stacks_by_backend (stack ∷ rest) index =
    stacks_by_backend rest (put stack.backend_server stack index)

unfoldable pub alert_rules_for_backend :
    String → Dict String LoggingStackInventory → List AlertRuleInventory → List AlertRuleInventory
unfolding lookup
alert_rules_for_backend server_id stacks rules = elim (lookup server_id stacks) [
  | none ↦ []
  | some stack ↦ select (λ rule. rule.environment == stack.environment) rules
]

-- `value.replace("-", "_")`
unfoldable pub underscored : String → String
underscored String.[] = String.[]
underscored (String.◌∷◌ c s) = String.◌∷◌ (if code c == 45 then "_" else c) (underscored s)

abbrev seen_rule : String → Fields → Fields
seen_rule name rule = field "name" (str name) (
    field "health" (value_at rule "health")
      (field "state" (value_at rule "state") (field "loaded" (bool true) end)))

abbrev name_of : Json → Option String
name_of (str name) = some name
name_of _ = none

unfoldable pub observe_rules : List Fields → Dict String Fields → Dict String Fields
unfolding value_at put
observe_rules [] observed = observed
observe_rules (rule ∷ rest) observed =
    let skipped = observe_rules rest observed in
    let named = λ (name : String). observe_rules rest (put name (seen_rule name rule) observed) in
    if equals_text (value_at rule "type") "alerting"
    then (elim (name_of (value_at rule "name")) [ none ↦ skipped | some name ↦ named name ])
    else skipped

unfoldable pub observe_groups : List Fields → Dict String Fields → Dict String Fields
unfolding value_at mapping_values_sequence observe_rules
observe_groups [] observed = observed
observe_groups (group ∷ rest) observed =
    observe_groups rest (observe_rules (mapping_values_sequence (value_at group "rules")) observed)

abbrev rule_matches : Option Fields → Bool
rule_matches none = false
rule_matches (some seen) = equals_text (value_at seen "health") "ok"

abbrev shown : Option Fields → Json
shown none = null
shown (some content) = obj content

unfoldable pub audit_alert_rule : Option (Dict String Fields) → AlertRuleInventory → AuditCheck
unfolding value_at comparison underscored lookup
audit_alert_rule rules rule =
    let name = underscored rule.resource_id in
    let observed : Option Fields = elim rules [ none ↦ none | some found ↦ lookup name found ] in
    comparison ("alerting.rules[" <> rule.resource_id <> "]")
      (obj (field "name" (str name) (field "health" (str "ok") (field "loaded" (bool true) end))))
      (shown observed) (rule_matches observed)

-- `json.loads` is a parameter; `none` is its `JSONDecodeError`.
module _ (loads : String → Option Json) where
  abbrev rules_in : Option Json → Dict String Fields
  rules_in (some (obj payload)) = elim (optional_mapping (value_at payload "data")) [
    | none ↦ []
    | some content ↦ observe_groups (mapping_values_sequence (value_at content "groups")) []
  ]
  rules_in _ = []

  unfoldable pub observed_alert_rules : Fields → Dict String Fields
  unfolding value_at optional_mapping mapping_values_sequence observe_groups
  observed_alert_rules alerting = elim (value_at alerting "rulesJson") [
    | str raw ↦ rules_in (loads raw)
    | _ ↦ []
  ]

  -- the rules that Prometheus tells of, if it is there to tell
  abbrev told_rules : Option Fields → Option (Dict String Fields)
  told_rules none = none
  told_rules (some alerting) =
      if is_true (value_at alerting "prometheusAvailable")
      then some (observed_alert_rules alerting)
      else none

  unfoldable pub audit_alert_rules : List AlertRuleInventory → Fields → List AuditCheck
  unfolding value_at optional_mapping observed_alert_rules audit_alert_rule
  audit_alert_rules rules spec =
      map (audit_alert_rule (told_rules (optional_mapping (value_at spec "alerting")))) rules

-- The key that `str` gives for what is at `component`. What is no text gives no text of an id, so it is
-- never looked up.
abbrev pub component_key : Json → Option String
component_key (str name) = some name
component_key _ = none

unfoldable pub observed_entries : List Fields → Dict String Fields → Dict String Fields
unfolding value_at put
observed_entries [] index = index
observed_entries (entry ∷ rest) index =
    let skipped = observed_entries rest index in
    let kept = λ (name : String). observed_entries rest (put name entry index) in
    elim (component_key (value_at entry "component")) [ none ↦ skipped | some name ↦ kept name ]

abbrev environment_matches : Option Fields → String → Bool
environment_matches none expected = false
environment_matches (some entry) expected =
    is_true (value_at entry "exists") && equals_text (value_at entry "sha256") expected

abbrev shown_environment : Option Fields → Json
shown_environment none = null
shown_environment (some entry) =
    obj (field "exists" (value_at entry "exists") (field "sha256" (value_at entry "sha256") end))

unfoldable pub audit_environment : Dict String Fields → ComponentInventory → String → AuditCheck
unfolding value_at comparison lookup
audit_environment entries component expected =
    let entry = lookup component.resource_id entries in
    comparison ("environment.file[" <> component.resource_id <> "]")
      (obj (field "exists" (bool true) (field "sha256" (str expected) end)))
      (shown_environment entry) (environment_matches entry expected)

-- the components that a receipt is there for, each against its receipt
unfoldable pub audit_component_environment :
    List ComponentInventory → Dict String String → Fields → List AuditCheck
unfolding value_at mapping_values_sequence observed_entries audit_environment lookup
audit_component_environment [] receipts spec = []
audit_component_environment (component ∷ rest) receipts spec =
    let later = audit_component_environment rest receipts spec in
    let entries =
      observed_entries (mapping_values_sequence (value_at spec "componentEnvironment")) [] in
    elim (lookup component.resource_id receipts) [
      | none ↦ later
      | some expected ↦ audit_environment entries component expected ∷ later
    ]
