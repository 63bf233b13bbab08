-- ===== src/Operations/Tasks.antt =====
-- The tasks of a server: `_task`, `_audit_task`, `_observation_tasks`, `_filesystem_task`,
-- `_failed_service_tasks`, `_smart_tasks` and `_sort_tasks` of operations.py.
use Prim.Native.Char.{code}
use Prim.Native.String.{count}
use cloudfall.Base.{
  ℕ, zero, suc, ◌-◌, ◌/◌, String, Bool, true, false, ◌&&◌, ◌||◌, not, Option, none, some, List, [],
  ◌∷◌, ◌<>◌, leb, ltb, ◌==◌, nat_eq, string_eq, if◌then◌else◌,
}
use cloudfall.Base.Json.{Json, Fields, fields_list}
use cloudfall.Base.Results.{ok, err, ◌>>=◌}
use cloudfall.Base.Sorting.{sorted, text_leb}
use cloudfall.Audit.Values.{value_at, optional_mapping, equals_text}
use cloudfall.Audit.Checks.{AuditStatus, compliant, AuditCheck}
use cloudfall.Operations.Records.{
  value_error, TaskSeverity, TaskKind, filesystem, observation, service, smart, kind_value,
  MonitoredFilesystem, SmartDeviceEvidence, message, hours_old, usage, device_state, unit_status,
  TaskEvidence, OperationsTask,
}
use cloudfall.Operations.Values.{Views, mapping, service_name}
use cloudfall.Operations.Capacity.{usage_severity}
use cloudfall.Operations.Smart.{is_degraded}

abbrev between : ℕ → ℕ → ℕ → Bool
between lo hi c = leb lo c && leb c hi

abbrev is_word_char : ℕ → Bool
is_word_char c = between 97 122 c || between 48 57 c

unfoldable pub id_rest : String → Bool
id_rest String.[] = true
id_rest (String.◌∷◌ c s) =
    let rest = id_rest s in
    let n = code c in if is_word_char n || n == 58 || n == 46 || n == 45 then rest else false

-- `_TASK_ID_PATTERN.fullmatch`
unfoldable pub is_task_id : String → Bool
unfolding id_rest
is_task_id String.[] = false
is_task_id (String.◌∷◌ c s) = is_word_char (code c) && id_rest s && leb (count s) 127

-- `sha256(text).hexdigest()` is a parameter.
module _ (hexdigest : String → String) where
  unfoldable pub first_chars : ℕ → String → String
  first_chars zero s = String.[]
  first_chars (suc n) String.[] = String.[]
  first_chars (suc n) (String.◌∷◌ c s) = String.◌∷◌ c (first_chars n s)

  -- `_task`
  unfoldable pub task : String → TaskKind → TaskSeverity → TaskEvidence → Views OperationsTask
  unfolding first_chars is_task_id
  task server_id kind severity evidence =
      let digest =
        first_chars 16
          (hexdigest (server_id <> "\0" <> kind_value kind <> "\0" <> evidence.source)) in
      let id = server_id <> ":" <> kind_value kind <> ":" <> digest in
      if is_task_id id
      then ok (record {
        task_id = id;
        server_id = server_id;
        kind = kind;
        severity = severity;
        title = evidence.title;
        detail = evidence.detail;
        source = evidence.source;
      })
      else err (value_error "operations task id")

  abbrev audit_severity : AuditCheck → AuditStatus → TaskSeverity
  audit_severity check AuditStatus.unknown = TaskSeverity.unknown
  audit_severity check _ =
      if check.check == "storage.softwareRaid.activeDevices"
      then TaskSeverity.critical
      else TaskSeverity.warning

  -- `_audit_task`
  unfoldable pub audit_task : String → AuditCheck → Views OperationsTask
  unfolding task
  audit_task server_id check =
      let missing = check.check == "observation.available" in
      task server_id (if missing then observation else TaskKind.drift)
        (audit_severity check check.status)
        (record {
          title =
              if missing
              then "Collect a server observation"
              else "Resolve desired-state drift: " <> check.check;
          detail = message check.message;
          source = "audit." <> check.check;
        })

  -- a task for each check that is not compliant
  unfoldable pub audit_tasks : String → List AuditCheck → Views (List OperationsTask)
  unfolding audit_task
  audit_tasks server_id [] = ok []
  audit_tasks server_id (check ∷ checks) = elim check.status [
    | compliant ↦ audit_tasks server_id checks
    | _ ↦ (do
      first ← audit_task server_id check
      later ← audit_tasks server_id checks
      ok (first ∷ later))
  ]

  -- `_observation_tasks`; an observation from after `generated_at` has no age
  unfoldable pub observation_tasks : String → ℕ → ℕ → Views (List OperationsTask)
  unfolding task
  observation_tasks server_id observed_at generated_at =
      let age = generated_at - observed_at in
      if leb age 86400000000 then ok [] else (do
        stale ←
            task server_id observation
              (if ltb 604800000000 age then TaskSeverity.critical else TaskSeverity.warning)
              (record {
                title = "Refresh stale server observation";
                detail = hours_old (age / 3600000000);
                source = "observed.spec.observedAt";
              })
        ok (stale ∷ []))

  -- `_filesystem_task` of each filesystem
  unfoldable pub filesystem_tasks : String → List MonitoredFilesystem → Views (List OperationsTask)
  unfolding task usage_severity
  filesystem_tasks server_id [] = ok []
  filesystem_tasks server_id (f ∷ rest) = elim (usage_severity f) [
    | none ↦ filesystem_tasks server_id rest
    | some severity ↦ (do
      full ← task server_id filesystem severity (record {
        title = "Reduce disk usage on " <> f.target;
        detail = usage f.utilization f.available;
        source = "observed.storage.filesystems[" <> f.target <> "]";
      })
      later ← filesystem_tasks server_id rest
      ok (full ∷ later))
  ]

  -- whether the service is one that has failed, and its content
  abbrev pub failed_service : Json → Option Fields
  failed_service value = elim (optional_mapping value) [
    | none ↦ none
    | some content ↦ if equals_text (value_at content "state") "failed" then some content else none
  ]

  -- the loop of `_failed_service_tasks`
  unfoldable pub service_tasks : String → List (String × Json) → Views (List OperationsTask)
  unfolding value_at optional_mapping task service_name
  service_tasks server_id [] = ok []
  service_tasks server_id ((name, value) ∷ rest) = elim (failed_service value) [
    | none ↦ service_tasks server_id rest
    | some content ↦ (do
      unit ← service_name name
      broken ← task server_id service TaskSeverity.warning (record {
        title = "Investigate failed service " <> unit;
        detail = unit_status (value_at content "status");
        source = "observed.services[" <> unit <> "]";
      })
      later ← service_tasks server_id rest
      ok (broken ∷ later))
  ]

  unfoldable pub failed_service_tasks : String → Fields → Views (List OperationsTask)
  unfolding mapping service_tasks
  failed_service_tasks server_id spec = do
    services ← mapping spec "services"
    service_tasks server_id (fields_list services)

  -- a device that is degraded, worn, or that smartctl has not read well
  abbrev pub needs_review : SmartDeviceEvidence → Bool
  needs_review device =
      is_degraded device || leb 90 device.percentage_used || not (device.smartctl_exit_code == 0)

  unfoldable pub device_tasks : String → List SmartDeviceEvidence → Views (List OperationsTask)
  unfolding task is_degraded
  device_tasks server_id [] = ok []
  device_tasks server_id (device ∷ rest) =
      if needs_review device
      then (do
        worn ←
            task server_id smart
              (if is_degraded device then TaskSeverity.critical else TaskSeverity.warning)
              (record {
                title =
                    if is_degraded device
                    then "Plan replacement for degraded NVMe " <> device.path
                    else "Review NVMe endurance for " <> device.path;
                detail = device_state device;
                source = "observed.storage.smart.devices[" <> device.path <> "]";
              })
        later ← device_tasks server_id rest
        ok (worn ∷ later))
      else device_tasks server_id rest

  -- `_smart_tasks`
  unfoldable pub smart_tasks :
      String → Bool → Bool → List SmartDeviceEvidence → Views (List OperationsTask)
  unfolding task device_tasks
  smart_tasks server_id true expected devices = device_tasks server_id devices
  smart_tasks server_id false false devices = ok []
  smart_tasks server_id false true devices = do
    blind ← task server_id smart TaskSeverity.warning (record {
      title = "Restore SMART evidence collection";
      detail = message "smartctl was unavailable during inspection";
      source = "observed.storage.smart.available";
    })
    ok (blind ∷ [])

abbrev pub rank : TaskSeverity → ℕ
rank TaskSeverity.critical = 0
rank TaskSeverity.warning = 1
rank TaskSeverity.unknown = 2

-- Python's `<=` on `(rank[task.severity], task.task_id.value)`
unfoldable pub task_leb : OperationsTask → OperationsTask → Bool
unfolding text_leb
task_leb a b =
    if rank a.severity == rank b.severity
    then text_leb a.task_id b.task_id
    else ltb (rank a.severity) (rank b.severity)

-- `_sort_tasks`
unfoldable pub sort_tasks : List OperationsTask → List OperationsTask
unfolding sorted task_leb
sort_tasks = sorted task_leb
