-- ===== src/Audit/Host.antt =====
-- What a server's type asks of the host: `_audit_os`, `_audit_mounts`, `_audit_packages`,
-- `_audit_services` and `_audit_configuration` of audit.py. `spec` is the payload of an observation.
pub mod Groups
pub mod Laws
pub mod Promises
use cloudfall.Base.{
  ℕ, String, Bool, true, false, ◌&&◌, ◌||◌, not, Option, none, some, List, [], ◌∷◌, ◌++◌, ◌<>◌, leb,
  ◌==◌, string_eq, contains, map, if◌then◌else◌,
}
use cloudfall.Base.Int.{ℤ, pos, negsuc}
use cloudfall.Base.Dict.{Dict, lookup, put}
use cloudfall.Base.Json.{Json, null, bool, int, str, obj, Fields, end, field}
use cloudfall.Base.Results.{ok, ◌>>=◌}
use cloudfall.Base.Text.Search.{ends_with}
use cloudfall.Inventory.{
  OperatingSystemRequirement, MountRequirement, PackageRequirement, ServiceRequirement,
  ConfigurationFileRequirement, ConfigCapture, hash, capture_value,
}
use cloudfall.Audit.Values.{
  Audits, value_at, optional_mapping, mapping, mapping_sequence, string_at, is_true, equals_text,
  is_null, texts,
}
use cloudfall.Audit.Checks.{AuditCheck, comparison}

unfoldable pub audit_os : OperatingSystemRequirement → Fields → Audits (List AuditCheck)
unfolding mapping string_at comparison
audit_os os spec = do
  observed ← mapping spec "os"
  distribution ← string_at observed "distribution"
  major_version ← string_at observed "majorVersion"
  service_manager ← string_at observed "serviceManager"
  ok (
      comparison "os.distribution" (str os.distribution) (str distribution)
        (distribution == os.distribution)
      ∷ comparison "os.majorVersion" (texts os.versions) (str major_version)
          (contains os.versions major_version)
      ∷ comparison "os.serviceManager" (str os.service_manager) (str service_manager)
          (service_manager == os.service_manager)
      ∷ [])

-- the objects by the text at a key, a later one in place of an earlier one
unfoldable pub indexed_by : String → List Fields → Dict String Fields → Audits (Dict String Fields)
unfolding string_at put
indexed_by key [] index = ok index
indexed_by key (item ∷ items) index = do
  name ← string_at item key
  indexed_by key items (put name item index)

-- `isinstance(size, int) and not isinstance(size, bool) and size >= minimum`
abbrev pub size_at_least : ℕ → Json → Bool
size_at_least minimum (int (pos n)) = leb minimum n
size_at_least minimum _ = false

abbrev number : ℕ → Json
number n = int (pos n)

unfoldable pub audit_mount : Dict String Fields → MountRequirement → Audits AuditCheck
unfolding value_at string_at comparison lookup
audit_mount filesystems requirement =
    let name = "storage.mounts[" <> requirement.path <> "]" in
    let desired = obj (
      field "filesystem" (str requirement.filesystem)
        (field "minimumBytes" (number requirement.minimum_bytes) end)) in
    elim (lookup requirement.path filesystems) [
      | none ↦ ok (comparison name desired null false)
      | some actual ↦ (do
        filesystem ← string_at actual "fstype"
        source ← string_at actual "source"
        let observed = obj (
              field "filesystem" (str filesystem)
                (field "size" (value_at actual "size") (field "source" (str source) end))) in
            ok (
              comparison name desired observed (
                filesystem == requirement.filesystem
                && size_at_least requirement.minimum_bytes (value_at actual "size"))))
    ]

unfoldable pub audit_each_mount :
    Dict String Fields → List MountRequirement → Audits (List AuditCheck)
unfolding audit_mount
audit_each_mount filesystems [] = ok []
audit_each_mount filesystems (requirement ∷ rest) = do
  check ← audit_mount filesystems requirement
  checks ← audit_each_mount filesystems rest
  ok (check ∷ checks)

unfoldable pub audit_mounts : List MountRequirement → Fields → Audits (List AuditCheck)
unfolding mapping mapping_sequence indexed_by audit_each_mount
audit_mounts mounts spec = do
  storage ← mapping spec "storage"
  filesystems ← indexed_by "target" (mapping_sequence storage "filesystems") []
  audit_each_mount filesystems mounts

abbrev pub entries_at : Dict String (List Fields) → String → List Fields
entries_at packages name = elim (lookup name packages) [ none ↦ [] | some entries ↦ entries ]

-- `packages.setdefault(name, []).append(entry)`
unfoldable pub add_entry : String → Fields → Dict String (List Fields) → Dict String (List Fields)
unfolding put lookup
add_entry name entry packages = put name (entries_at packages name ++ (entry ∷ [])) packages

unfoldable pub grouped :
    List Fields → Dict String (List Fields) → Audits (Dict String (List Fields))
unfolding string_at add_entry
grouped [] packages = ok packages
grouped (entry ∷ entries) packages = do
  name ← string_at entry "name"
  grouped entries (add_entry name entry packages)

unfoldable pub versions_of : List Fields → Audits (List String)
unfolding string_at
versions_of [] = ok []
versions_of (entry ∷ entries) = do
  version ← string_at entry "version"
  versions ← versions_of entries
  ok (version ∷ versions)

abbrev pub has_version : Option String → List String → Bool
has_version none versions = true
has_version (some version) versions = contains versions version

abbrev wanted : Option String → Json
wanted none = obj (field "installed" (bool true) end)
wanted (some version) = obj (field "version" (str version) end)

abbrev seen_versions : List Fields → List String → Json
seen_versions [] versions = null
seen_versions (entry ∷ entries) versions = obj (field "versions" (texts versions) end)

abbrev pub is_filled {ℓ} : {A : Type ℓ} → List A → Bool
is_filled [] = false
is_filled (x ∷ xs) = true

unfoldable pub audit_required_package :
    Dict String (List Fields) → PackageRequirement → Audits AuditCheck
unfolding versions_of comparison lookup
audit_required_package packages requirement = do
  versions ← versions_of (entries_at packages requirement.name)
  ok (
      comparison ("packages.required[" <> requirement.name <> "]") (wanted requirement.version)
        (seen_versions (entries_at packages requirement.name) versions)
        (is_filled (entries_at packages requirement.name)
          && has_version requirement.version versions))

unfoldable pub audit_required_packages :
    Dict String (List Fields) → List PackageRequirement → Audits (List AuditCheck)
unfolding audit_required_package
audit_required_packages packages [] = ok []
audit_required_packages packages (requirement ∷ rest) = do
  check ← audit_required_package packages requirement
  checks ← audit_required_packages packages rest
  ok (check ∷ checks)

-- `name in packages`
abbrev pub is_installed : Dict String (List Fields) → String → Bool
is_installed packages name = elim (lookup name packages) [ none ↦ false | some _ ↦ true ]

unfoldable pub audit_forbidden_package : Dict String (List Fields) → String → AuditCheck
unfolding comparison lookup
audit_forbidden_package packages name =
    let present = is_installed packages name in
    comparison ("packages.forbidden[" <> name <> "]") (obj (field "installed" (bool false) end))
      (obj (field "installed" (bool present) end)) (not present)

unfoldable pub audit_packages :
    List PackageRequirement → List String → Fields → Audits (List AuditCheck)
unfolding mapping_sequence grouped audit_required_packages audit_forbidden_package
audit_packages required forbidden spec = do
  packages ← grouped (mapping_sequence spec "packages") []
  checks ← audit_required_packages packages required
  ok (checks ++ map (audit_forbidden_package packages) forbidden)
