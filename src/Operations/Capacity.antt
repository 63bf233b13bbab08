-- ===== src/Operations/Capacity.antt =====
-- Filesystems: `Utilization.from_counts`, `_filesystems` and the severity of `_filesystem_task` of
-- operations.py.
pub mod Laws
use cloudfall.Base.{
  ℕ, ◌+◌, ◌*◌, ◌/◌, min, String, Bool, true, false, Option, none, some, List, [], ◌∷◌, contains,
  ltb, leb, ◌==◌, nat_eq, string_eq, if◌then◌else◌,
}
use cloudfall.Base.Json.{Fields}
use cloudfall.Base.Results.{ok, ◌>>=◌}
use cloudfall.Base.Sorting.{sort_by}
use cloudfall.Audit.Values.{value_at}
use cloudfall.Operations.Records.{MonitoredFilesystem, TaskSeverity, critical, warning}
use cloudfall.Operations.Values.{
  Views, mapping, mapping_sequence, required_string, byte_count, absolute_path,
}

-- `Utilization.from_counts`, in basis points
unfoldable pub from_counts : ℕ → ℕ → ℕ
from_counts used available =
    let visible = used + available in
    if visible == 0 then 0 else min ((used * 10000 + visible / 2) / visible) 10000

abbrev is_persistent : String → Bool
is_persistent = contains ("btrfs" ∷ "ext2" ∷ "ext3" ∷ "ext4" ∷ "f2fs" ∷ "xfs" ∷ "zfs" ∷ [])

unfoldable pub monitored_filesystem : Fields → String → Views MonitoredFilesystem
unfolding value_at byte_count absolute_path from_counts
monitored_filesystem raw name = do
  used ← byte_count (value_at raw "used")
  available ← byte_count (value_at raw "avail")
  target ← absolute_path (value_at raw "target")
  size ← byte_count (value_at raw "size")
  ok (record {
    target = target;
    filesystem = name;
    size = size;
    used = used;
    available = available;
    utilization = from_counts used available;
  })

unfoldable pub read_filesystems : List Fields → Views (List MonitoredFilesystem)
unfolding value_at required_string monitored_filesystem
read_filesystems [] = ok []
read_filesystems (raw ∷ rest) = do
  name ← required_string "filesystem name" (value_at raw "fstype")
  if is_persistent name
      then (do
        filesystem ← monitored_filesystem raw name
        later ← read_filesystems rest
        ok (filesystem ∷ later))
      else read_filesystems rest

unfoldable pub filesystems : Fields → Views (List MonitoredFilesystem)
unfolding mapping mapping_sequence read_filesystems sort_by
filesystems spec = do
  storage ← mapping spec "storage"
  raw ← mapping_sequence storage "filesystems"
  found ← read_filesystems raw
  ok (sort_by (λ f. f.target) found)

-- the severity of a filesystem's task, if it has one
unfoldable pub usage_severity : MonitoredFilesystem → Option TaskSeverity
usage_severity filesystem =
    if ltb filesystem.utilization 8500
    then none
    else if leb 9500 filesystem.utilization
    then some critical
    else some warning
