-- ===== src/Operations/Server.antt =====
-- The view of a server: `_server_operations` and `_health` of operations.py.
pub mod Laws
use cloudfall.Base.{
  ℕ, String, Bool, true, false, Option, none, some, List, [], ◌∷◌, ◌++◌, any, map, if◌then◌else◌,
}
use cloudfall.Base.Json.{Json, Fields}
use cloudfall.Base.Results.{ok, err, ◌>>=◌}
use cloudfall.Audit.Values.{value_at}
use cloudfall.Audit.Checks.{ServerAudit}
use cloudfall.Audit.Report.{ObservedServerSnapshot}
use cloudfall.Operations.Records.{
  OperationsError, value_error, OperationsHealth, TaskSeverity, OperationsTask, ServerOperations,
  MonitoredFilesystem, SmartDeviceEvidence,
}
use cloudfall.Operations.Values.{Views, mapping, utc_timestamp}
use cloudfall.Operations.Capacity.{filesystems}
use cloudfall.Operations.Smart.{smart_evidence}
use cloudfall.Operations.Tasks.{
  audit_tasks, observation_tasks, filesystem_tasks, failed_service_tasks, smart_tasks, sort_tasks,
}

abbrev is_critical : TaskSeverity → Bool
is_critical TaskSeverity.critical = true
is_critical _ = false

abbrev is_unknown : TaskSeverity → Bool
is_unknown TaskSeverity.unknown = true
is_unknown _ = false

abbrev is_warning : TaskSeverity → Bool
is_warning TaskSeverity.warning = true
is_warning _ = false

-- `_health`
unfoldable pub health : List TaskSeverity → OperationsHealth
health severities =
    if any is_critical severities
    then OperationsHealth.critical
    else if any is_unknown severities
    then OperationsHealth.unknown
    else if any is_warning severities
    then OperationsHealth.warning
    else OperationsHealth.healthy

abbrev pub task_health : List OperationsTask → OperationsHealth
task_health tasks = health (map (λ t. t.severity) tasks)

-- what an observation tells, the tasks aside
pub record Evidence : Type 0 where
  pub observed_at : ℕ
  pub filesystems : List MonitoredFilesystem
  pub smart_available : Bool
  pub smart_expected : Bool
  pub smart_devices : List SmartDeviceEvidence

abbrev pub unobserved : String → String → List OperationsTask → ServerOperations
unobserved server_id hostname tasks = record {
  server_id = server_id;
  hostname = hostname;
  health = task_health tasks;
  observed_at = none;
  filesystems = [];
  smart_devices = [];
  tasks = tasks;
}

abbrev pub observed : String → String → Evidence → List OperationsTask → ServerOperations
observed server_id hostname evidence tasks = record {
  server_id = server_id;
  hostname = hostname;
  health = task_health tasks;
  observed_at = some evidence.observed_at;
  filesystems = evidence.filesystems;
  smart_devices = evidence.smart_devices;
  tasks = tasks;
}

-- SHA-256 and `datetime.fromisoformat` are parameters.
module _ (hexdigest : String → String) (fromisoformat : String → Option (Bool × ℕ)) where
  unfoldable pub read_evidence : Fields → Views Evidence
  unfolding value_at utc_timestamp filesystems smart_evidence
  read_evidence spec = do
    observed_at ← utc_timestamp fromisoformat (value_at spec "observedAt")
    found ← filesystems spec
    (available, expected, devices) ← smart_evidence spec
    ok (record {
      observed_at = observed_at;
      filesystems = found;
      smart_available = available;
      smart_expected = expected;
      smart_devices = devices;
    })

  -- `monitoring_tasks`
  unfoldable pub monitoring_tasks : String → Evidence → Fields → ℕ → Views (List OperationsTask)
  unfolding observation_tasks filesystem_tasks failed_service_tasks smart_tasks
  monitoring_tasks server_id evidence spec generated_at = do
    stale ← observation_tasks hexdigest server_id evidence.observed_at generated_at
    full ← filesystem_tasks hexdigest server_id evidence.filesystems
    broken ← failed_service_tasks hexdigest server_id spec
    worn ←
        smart_tasks hexdigest server_id evidence.smart_available evidence.smart_expected
          evidence.smart_devices
    ok (stale ++ (full ++ (broken ++ worn)))

  -- `_server_operations`, of a server's id and host name
  unfoldable pub server_operations :
      String → String → Option ObservedServerSnapshot → ServerAudit → ℕ → Views ServerOperations
  unfolding mapping audit_tasks read_evidence monitoring_tasks sort_tasks health
  server_operations server_id hostname none audit generated_at = do
    from_audit ← audit_tasks hexdigest server_id audit.checks
    ok (unobserved server_id hostname (sort_tasks from_audit))
  server_operations server_id hostname (some snapshot) audit generated_at = do
    from_audit ← audit_tasks hexdigest server_id audit.checks
    spec ← mapping snapshot.content "spec"
    evidence ← read_evidence spec
    monitoring ← monitoring_tasks server_id evidence spec generated_at
    ok (observed server_id hostname evidence (sort_tasks (from_audit ++ monitoring)))
