-- ===== src/Audit/Raid.antt =====
-- Software RAID: `_audit_raid`, `_observed_raid_levels` and `_flatten_block_devices` of audit.py. The
-- digits of a text are those of ASCII.
pub mod Scan
pub mod Arrays
pub mod Laws
use Prim.Native.Char.{code}
use cloudfall.Base.{
  ℕ, zero, suc, ◌+◌, String, Bool, true, false, ◌&&◌, Option, none, some, List, [], ◌∷◌, ◌++◌, ◌<>◌,
  length, select, leb, ltb, ◌==◌, nat_eq, string_eq, if◌then◌else◌,
}
use cloudfall.Base.Int.{ℤ, pos, negsuc}
use cloudfall.Base.Json.{Json, null, int, str, arr, obj, Items, nil, cons, Fields, end, field}
use cloudfall.Base.Results.{ok, ◌>>=◌}
use cloudfall.Base.Sorting.{sort_by}
use cloudfall.Base.Text.{is_space}
use cloudfall.Base.Text.Search.{occurs_in}
use cloudfall.Inventory.{RaidRequirement}
use cloudfall.Audit.Values.{Audits, value_at, mapping, string_at, integer_at, texts}
use cloudfall.Audit.Checks.{AuditCheck, comparison}

-- The parts of `\[(\d+)/(\d+)\]\s+\[([U_]+)\]`. Each gives what follows its match, and no part can match
-- less or more than it does and let the next one match.
abbrev pub literal : ℕ → String → Option String
literal n String.[] = none
literal n (String.◌∷◌ c s) = if code c == n then some s else none

abbrev pub only_if : Bool → String → Option String
only_if seen s = if seen then some s else none

unfoldable pub many : (ℕ → Bool) → Bool → String → Option String
many test seen String.[] = only_if seen String.[]
many test seen (String.◌∷◌ c s) =
    let rest = many test true s in if test (code c) then rest else only_if seen (String.◌∷◌ c s)

abbrev is_digit : ℕ → Bool
is_digit c = leb 48 c && leb c 57

-- `[U_]+`, with the number of its `U`
unfoldable pub members : Bool → ℕ → String → Option (ℕ × String)
members seen up String.[] = if seen then some (up, String.[]) else none
members seen up (String.◌∷◌ c s) =
    let working = members true (up + 1) s in
    let failed = members true up s in
    if code c == 85
    then working
    else if code c == 95
    then failed
    else if seen
    then some (up, String.◌∷◌ c s)
    else none

infixl 5 ◌then_read◌
abbrev pub ◌then_read◌ {ℓ κ} : {A : Type ℓ} {B : Type κ} → Option A → (A → Option B) → Option B
read then_read next = elim read [ none ↦ none | some rest ↦ next rest ]

-- the number of working devices, if the pattern matches at the beginning of the text
unfoldable pub health_here : String → Option ℕ
unfolding many members is_space
health_here s =
    literal 91 s
    then_read many is_digit false
    then_read literal 47
    then_read many is_digit false
    then_read literal 93
    then_read many is_space false
    then_read literal 91
    then_read members false 0
    then_read λ (up, rest). elim (literal 93 rest) [ none ↦ none | some _ ↦ some up ]

-- `_RAID_HEALTH_PATTERN.finditer(mdstat)`. No match begins inside another: the one other bracket that a
-- match opens has no digit behind it.
unfoldable pub array_health : String → List ℕ
unfolding health_here
array_health String.[] = []
array_health (String.◌∷◌ c s) =
    let later = array_health s in
    elim (health_here (String.◌∷◌ c s)) [ none ↦ later | some up ↦ up ∷ later ]

unfoldable pub least : ℕ → List ℕ → ℕ
least best [] = best
least best (n ∷ rest) = least (if ltb n best then n else best) rest

-- `min(..., default=0)`
abbrev pub worst : List ℕ → ℕ
worst [] = 0
worst (n ∷ rest) = least n rest

unfoldable mutual
  -- the devices below an object, those at `children`
  pub nested : Fields → List Fields
  nested end = []
  nested (field key value rest) =
      let later = nested rest in
      let here = flatten value in if "children" == key then here else later

  -- `_flatten_block_devices(_mapping_values_sequence(value))`
  pub flatten : Json → List Fields
  flatten (arr items) = elim (flatten_items items) [ none ↦ [] | some devices ↦ devices ]
  flatten _ = []

  pub flatten_items : Items → Option (List Fields)
  flatten_items nil = some []
  flatten_items (cons (obj device) items) =
      let below = nested device in
      elim (flatten_items items) [ none ↦ none | some rest ↦ some (device ∷ (below ++ rest)) ]
  flatten_items (cons _ items) = none

-- `[_integer(device, "size") for device in devices if _string(device, "type") == level]`
unfoldable pub raid_sizes : String → List Fields → Audits (List ℤ)
unfolding string_at integer_at
raid_sizes level [] = ok []
raid_sizes level (device ∷ devices) = do
  kind ← string_at device "type"
  if kind == level
      then (do size ← integer_at device "size"; sizes ← raid_sizes level devices; ok (size ∷ sizes))
      else raid_sizes level devices

abbrev pub int_ltb : ℤ → ℤ → Bool
int_ltb (pos a) (pos b) = ltb a b
int_ltb (pos a) (negsuc b) = false
int_ltb (negsuc a) (pos b) = true
int_ltb (negsuc a) (negsuc b) = ltb b a

unfoldable pub greatest : ℤ → List ℤ → ℤ
greatest best [] = best
greatest best (n ∷ rest) = greatest (if int_ltb best n then n else best) rest

-- `max(raid_sizes, default=0)`
abbrev pub largest : List ℤ → ℤ
largest [] = pos 0
largest (n ∷ rest) = greatest n rest

abbrev pub at_least : ℕ → ℤ → Bool
at_least minimum (pos n) = leb minimum n
at_least minimum (negsuc n) = false

abbrev pub is_active : String → String → Bool
is_active mdstat level = occurs_in ("active " <> level) mdstat

unfoldable pub observed_raid_levels : String → List String
unfolding occurs_in sort_by
observed_raid_levels mdstat =
    sort_by (λ level. level)
      (select (is_active mdstat) ("raid0" ∷ "raid1" ∷ "raid5" ∷ "raid6" ∷ "raid10" ∷ []))

abbrev minimum : ℕ → Json
minimum n = obj (field "minimum" (int (pos n)) end)

unfoldable pub raid_checks : RaidRequirement → String → List ℤ → List AuditCheck
unfolding comparison array_health least greatest observed_raid_levels occurs_in
raid_checks requirement mdstat sizes =
    comparison "storage.softwareRaid.level" (str requirement.level)
      (texts (observed_raid_levels mdstat)) (is_active mdstat requirement.level)
    ∷ comparison "storage.softwareRaid.activeDevices" (minimum requirement.minimum_active_devices)
        (int (pos (worst (array_health mdstat))))
        (leb requirement.minimum_active_devices (worst (array_health mdstat)))
    ∷ comparison "storage.softwareRaid.usableBytes" (minimum requirement.minimum_usable_bytes)
        (int (largest sizes)) (at_least requirement.minimum_usable_bytes (largest sizes))
    ∷ []

unfoldable pub audit_raid : RaidRequirement → Fields → Audits (List AuditCheck)
unfolding value_at mapping string_at nested flatten flatten_items raid_sizes raid_checks
audit_raid requirement spec = do
  storage ← mapping spec "storage"
  software_raid ← mapping storage "softwareRaid"
  mdstat ← string_at software_raid "mdstat"
  sizes ← raid_sizes requirement.level (flatten (value_at storage "blockDevices"))
  ok (raid_checks requirement mdstat sizes)
