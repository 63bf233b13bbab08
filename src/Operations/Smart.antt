-- ===== src/Operations/Smart.antt =====
-- SMART evidence of operations.py: `NvmeCriticalWarning`, `SmartDeviceEvidence`, `_smart_evidence`.
use Prim.Native.Char.{code}
use cloudfall.Base.{
  ℕ, zero, ◌+◌, ◌*◌, ◌-◌, String, Bool, true, false, ◌&&◌, ◌||◌, not, Option, none, some, List, [],
  ◌∷◌, leb, ltb, ◌==◌, nat_eq, string_eq, if◌then◌else◌,
}
use cloudfall.Base.Int.{ℤ, pos, negsuc}
use cloudfall.Base.Json.{Json, str, Fields}
use cloudfall.Base.Results.{ok, err, ◌>>=◌, ◌>>◌}
use cloudfall.Base.Text.{strip}
use cloudfall.Base.Text.Search.{starts_with}
use cloudfall.Audit.Values.{value_at}
use cloudfall.Operations.Records.{
  type_error, value_error, SmartOverallHealth, passed, failed, SmartDeviceEvidence,
}
use cloudfall.Operations.Values.{
  Views, mapping, mapping_sequence, string_at, integer_at, boolean_at, natural, absolute_path,
}

abbrev between : ℕ → ℕ → ℕ → Bool
between lo hi c = leb lo c && leb c hi

-- the value of a hexadecimal digit
unfoldable pub hex_digit : ℕ → Option ℕ
hex_digit c =
    if between 48 57 c
    then some (c - 48)
    else if between 65 70 c
    then some (c - 55)
    else if between 97 102 c
    then some (c - 87)
    else none

-- The digits of `int(text, 16)`: an underscore may stand between two of them, and behind the prefix.
unfoldable pub hex_digits : Bool → ℕ → String → Option ℕ
unfolding hex_digit
hex_digits after n String.[] = if after then some n else none
hex_digits after n (String.◌∷◌ c s) =
    let joined = hex_digits false n s in
    let more = λ (d : ℕ). hex_digits true (n * 16 + d) s in
    elim (hex_digit (code c)) [
      | some d ↦ more d
      | none ↦ if after && code c == 95 then joined else none
    ]

abbrev is_x : ℕ → Bool
is_x c = c == 120 || c == 88

unfoldable pub hex_unsigned : String → Option ℕ
unfolding hex_digits
hex_unsigned (String.◌∷◌ z (String.◌∷◌ x (String.◌∷◌ u s))) =
    if code z == 48 && is_x (code x)
    then (if code u == 95 then hex_digits false 0 s else hex_digits false 0 (String.◌∷◌ u s))
    else hex_digits false 0 (String.◌∷◌ z (String.◌∷◌ x (String.◌∷◌ u s)))
hex_unsigned s = hex_digits false 0 s

-- a negative number, which the range check refuses, or none
abbrev non_negative : Option ℕ → Option ℕ
non_negative (some zero) = some 0
non_negative _ = none

-- `int(text, 16)`; `none` is its `ValueError`, and also a negative number
unfoldable pub parse_hex : String → Option ℕ
unfolding hex_unsigned strip
parse_hex s = elim (strip s) [
  | String.[] ↦ none
  | String.◌∷◌ c rest ↦
      if code c == 43
      then hex_unsigned rest
      else if code c == 45
      then non_negative (hex_unsigned rest)
      else hex_unsigned (String.◌∷◌ c rest)
]

abbrev a_byte : Option ℕ → Views ℕ
a_byte none = err (value_error "NVMe critical warning")
a_byte (some n) = if leb n 255 then ok n else err (value_error "NVMe critical warning")

-- `NvmeCriticalWarning.from_boundary`
unfoldable pub nvme_critical_warning : Json → Views ℕ
unfolding parse_hex
nvme_critical_warning (str s) = a_byte (parse_hex s)
nvme_critical_warning _ = err (type_error "NVMe critical warning")

abbrev smart_overall_health : String → Views SmartOverallHealth
smart_overall_health value =
    if value == "passed"
    then ok passed
    else if value == "failed"
    then ok failed
    else err (value_error "overallHealth")

abbrev bounded : ℕ → String → ℤ → Views ℕ
bounded limit key (pos n) = if leb n limit then ok n else err (value_error key)
bounded limit key (negsuc n) = err (value_error key)

abbrev filled : String → Views Unit
filled s = if s == "" then err (value_error "identity") else ok tt

-- `SmartDeviceEvidence.from_boundary`, with the checks of `__post_init__`
unfoldable pub smart_device : Fields → Views SmartDeviceEvidence
unfolding value_at absolute_path string_at integer_at boolean_at nvme_critical_warning
smart_device content = do
  path ← absolute_path (value_at content "path")
  model ← string_at content "model"
  serial ← string_at content "serial"
  firmware ← string_at content "firmware"
  exit_code ← integer_at content "smartctlExitCode"
  health_text ← string_at content "overallHealth"
  health ← smart_overall_health health_text
  warning ← nvme_critical_warning (value_at content "criticalWarning")
  reliability ← boolean_at content "reliabilityDegraded"
  temperature ← integer_at content "temperatureCelsius"
  spare ← integer_at content "availableSparePercent"
  threshold ← integer_at content "availableSpareThresholdPercent"
  used ← integer_at content "percentageUsed"
  units_read ← integer_at content "dataUnitsRead"
  units_written ← integer_at content "dataUnitsWritten"
  cycles ← integer_at content "powerCycles"
  hours ← integer_at content "powerOnHours"
  shutdowns ← integer_at content "unsafeShutdowns"
  media_errors ← integer_at content "mediaAndDataIntegrityErrors"
  log_entries ← integer_at content "errorInformationLogEntries"
  filled model
  filled serial
  filled firmware
  exit_code_ ← bounded 255 "smartctl exit code" exit_code
  spare_ ← bounded 100 "available spare" spare
  threshold_ ← bounded 100 "available spare threshold" threshold
  used_ ← natural "percentage used" used
  units_read_ ← natural "data units read" units_read
  units_written_ ← natural "data units written" units_written
  cycles_ ← natural "power cycles" cycles
  hours_ ← natural "power-on hours" hours
  shutdowns_ ← natural "unsafe shutdowns" shutdowns
  media_errors_ ← natural "media errors" media_errors
  log_entries_ ← natural "error log entries" log_entries
  ok (record {
    path = path;
    model = model;
    serial = serial;
    firmware = firmware;
    smartctl_exit_code = exit_code_;
    overall_health = health;
    critical_warning = warning;
    reliability_degraded = reliability;
    temperature_celsius = temperature;
    available_spare_percent = spare_;
    available_spare_threshold_percent = threshold_;
    percentage_used = used_;
    data_units_read = units_read_;
    data_units_written = units_written_;
    power_cycles = cycles_;
    power_on_hours = hours_;
    unsafe_shutdowns = shutdowns_;
    media_and_data_integrity_errors = media_errors_;
    error_information_log_entries = log_entries_;
  })

unfoldable pub smart_devices : List Fields → Views (List SmartDeviceEvidence)
unfolding smart_device
smart_devices [] = ok []
smart_devices (content ∷ rest) = do
  device ← smart_device content
  devices ← smart_devices rest
  ok (device ∷ devices)

-- `any(...)` over the block devices: the first that matches ends it
unfoldable pub expects_smart : List Fields → Views Bool
unfolding string_at starts_with
expects_smart [] = ok false
expects_smart (device ∷ rest) = do
  kind ← string_at device "type"
  if kind == "disk"
      then (do
        path ← string_at device "path"
        if starts_with "/dev/nvme" path then ok true else expects_smart rest)
      else expects_smart rest

-- `_smart_evidence`
unfoldable pub smart_evidence : Fields → Views (Bool × Bool × List SmartDeviceEvidence)
unfolding mapping mapping_sequence boolean_at expects_smart smart_devices
smart_evidence spec = do
  storage ← mapping spec "storage"
  smart ← mapping storage "smart"
  available ← boolean_at smart "available"
  blocks ← mapping_sequence storage "blockDevices"
  expected ← expects_smart blocks
  raw ← mapping_sequence smart "devices"
  devices ← smart_devices raw
  ok (available, expected, devices)

abbrev has_failed : SmartOverallHealth → Bool
has_failed passed = false
has_failed failed = true

-- `is_degraded`
unfoldable pub is_degraded : SmartDeviceEvidence → Bool
is_degraded device =
    has_failed device.overall_health
    || not (device.critical_warning == 0)
    || device.reliability_degraded
    || leb 100 device.percentage_used
    || leb device.available_spare_percent device.available_spare_threshold_percent
    || ltb 0 device.media_and_data_integrity_errors
