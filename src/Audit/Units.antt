-- ===== src/Audit/Units.antt =====
-- Units and files of a host: `_audit_services` and `_audit_configuration` of audit.py.
use cloudfall.Base.{
  String, Bool, true, false, ◌&&◌, not, Option, none, some, List, [], ◌∷◌, ◌<>◌, ◌==◌, string_eq,
  map, if◌then◌else◌,
}
use cloudfall.Base.Dict.{Dict, lookup}
use cloudfall.Base.Json.{Json, null, bool, str, obj, Fields, end, field}
use cloudfall.Base.Results.{ok, ◌>>=◌}
use cloudfall.Base.Text.Search.{ends_with}
use cloudfall.Inventory.{
  ServiceRequirement, ConfigurationFileRequirement, ConfigCapture, metadata, hash, capture_value,
}
use cloudfall.Audit.Values.{
  Audits, value_at, optional_mapping, mapping, mapping_sequence, string_at, is_true, equals_text,
  is_null,
}
use cloudfall.Audit.Checks.{AuditCheck, comparison}
use cloudfall.Audit.Host.{indexed_by}

abbrev unit_state : String → String → Json
unit_state state status = obj (field "state" (str state) (field "status" (str status) end))

-- one round of the loop of `_audit_services`
unfoldable pub audit_service : Fields → Fields → ServiceRequirement → Audits AuditCheck
unfolding value_at optional_mapping string_at comparison ends_with
audit_service services timers requirement =
    let name = "services.required[" <> requirement.name <> "]" in
    let desired = unit_state requirement.state requirement.status in
    let evidence = if ends_with ".timer" requirement.name then timers else services in
    elim (optional_mapping (value_at evidence requirement.name)) [
      | none ↦ ok (comparison name desired null false)
      | some actual ↦ (do
        state ← string_at actual "state"
        status ← string_at actual "status"
        ok (
            comparison name desired (unit_state state status)
              (state == requirement.state && status == requirement.status)))
    ]

unfoldable pub audit_each_service :
    Fields → Fields → List ServiceRequirement → Audits (List AuditCheck)
unfolding audit_service
audit_each_service services timers [] = ok []
audit_each_service services timers (requirement ∷ rest) = do
  check ← audit_service services timers requirement
  checks ← audit_each_service services timers rest
  ok (check ∷ checks)

unfoldable pub audit_services : List ServiceRequirement → Fields → Audits (List AuditCheck)
unfolding mapping audit_each_service
audit_services required spec = do
  services ← mapping spec "services"
  timers ← mapping spec "timers"
  audit_each_service services timers required

abbrev with_text : String → Option String → Fields → Fields
with_text key none rest = rest
with_text key (some value) rest = field key (str value) rest

abbrev wanted_file : ConfigurationFileRequirement → Json
wanted_file r = obj (
    field "exists" (bool true) (
      field "capture" (str (capture_value r.capture)) (
        with_text "owner" r.owner
          (with_text "group" r.group (with_text "mode" r.mode (with_text "sha256" r.sha256 end))))))

abbrev same_key : Fields → String → Fields → Fields
same_key actual key rest = field key (value_at actual key) rest

abbrev seen_file : Fields → Json
seen_file actual = obj (
    same_key actual "exists" (
      same_key actual "capture" (
        same_key actual "owner"
          (same_key actual "group" (same_key actual "mode" (same_key actual "sha256" end))))))

abbrev pub hash_seen : ConfigCapture → Fields → Bool
hash_seen metadata actual = true
hash_seen hash actual = not (is_null (value_at actual "sha256"))

-- what is declared is equal to what is observed; what is not declared may be anything
abbrev pub agrees : Fields → String → Option String → Bool
agrees actual key none = true
agrees actual key (some value) = equals_text (value_at actual key) value

unfoldable pub file_matches : ConfigurationFileRequirement → Fields → Bool
unfolding value_at
file_matches r actual =
    is_true (value_at actual "exists")
    && hash_seen r.capture actual
    && equals_text (value_at actual "capture") (capture_value r.capture)
    && agrees actual "owner" r.owner
    && agrees actual "group" r.group
    && agrees actual "mode" r.mode
    && agrees actual "sha256" r.sha256

unfoldable pub audit_configuration_file :
    Dict String Fields → ConfigurationFileRequirement → AuditCheck
unfolding value_at comparison lookup file_matches
audit_configuration_file evidence r =
    let name = "configuration.files[" <> r.path <> "]" in
    elim (lookup r.path evidence) [
      | none ↦ comparison name (wanted_file r) null false
      | some actual ↦ comparison name (wanted_file r) (seen_file actual) (file_matches r actual)
    ]

unfoldable pub audit_configuration :
    List ConfigurationFileRequirement → Fields → Audits (List AuditCheck)
unfolding mapping_sequence indexed_by audit_configuration_file
audit_configuration files spec = do
  evidence ← indexed_by "path" (mapping_sequence spec "configuration") []
  ok (map (audit_configuration_file evidence) files)
