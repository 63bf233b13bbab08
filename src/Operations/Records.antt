-- ===== src/Operations/Records.antt =====
-- The enumerations and records of operations.py. A time is a number of microseconds. The texts of a
-- task's detail are formatted from what `Detail` keeps.
use cloudfall.Base.{ℕ, String, Bool, Option, List}
use cloudfall.Base.Int.{ℤ}
use cloudfall.Base.Json.{Json}

-- `TypeError`, `ValueError` and `KeyError`, with the name of what is refused
pub data OperationsError : Type 0 where
  type_error value_error key_error : String → OperationsError

pub data OperationsHealth : Type 0 where
  healthy warning critical unknown : OperationsHealth

pub data TaskSeverity : Type 0 where
  critical warning unknown : TaskSeverity

pub data TaskKind : Type 0 where
  drift filesystem observation service smart : TaskKind

abbrev pub kind_value : TaskKind → String
kind_value drift = "drift"
kind_value filesystem = "filesystem"
kind_value observation = "observation"
kind_value service = "service"
kind_value smart = "smart"

-- `MonitoredFilesystem`, with `Utilization.basis_points`
pub record MonitoredFilesystem : Type 0 where
  pub target : String
  pub filesystem : String
  pub size : ℕ
  pub used : ℕ
  pub available : ℕ
  pub utilization : ℕ

pub data SmartOverallHealth : Type 0 where
  passed failed : SmartOverallHealth

pub record SmartDeviceEvidence : Type 0 where
  pub path : String
  pub model : String
  pub serial : String
  pub firmware : String
  pub smartctl_exit_code : ℕ
  pub overall_health : SmartOverallHealth
  pub critical_warning : ℕ
  pub reliability_degraded : Bool
  pub temperature_celsius : ℤ
  pub available_spare_percent : ℕ
  pub available_spare_threshold_percent : ℕ
  pub percentage_used : ℕ
  pub data_units_read : ℕ
  pub data_units_written : ℕ
  pub power_cycles : ℕ
  pub power_on_hours : ℕ
  pub unsafe_shutdowns : ℕ
  pub media_and_data_integrity_errors : ℕ
  pub error_information_log_entries : ℕ

pub data Detail : Type 0 where
  message : String → Detail
  hours_old : ℕ → Detail
  usage : ℕ → ℕ → Detail
  device_state : SmartDeviceEvidence → Detail
  unit_status : Json → Detail

pub record TaskEvidence : Type 0 where
  pub title : String
  pub detail : Detail
  pub source : String

-- `state` has one value, `open`.
pub record OperationsTask : Type 0 where
  pub task_id : String
  pub server_id : String
  pub kind : TaskKind
  pub severity : TaskSeverity
  pub title : String
  pub detail : Detail
  pub source : String

pub record ServerOperations : Type 0 where
  pub server_id : String
  pub hostname : String
  pub health : OperationsHealth
  pub observed_at : Option ℕ
  pub filesystems : List MonitoredFilesystem
  pub smart_devices : List SmartDeviceEvidence
  pub tasks : List OperationsTask
