-- ===== src/Operations/Values.antt =====
-- What operations.py asks of a document, and `AbsolutePath`, `FilesystemName` and `ServiceName` of domain.py.
use Prim.Native.Char.{code}
use cloudfall.Base.{
  ℕ, String, Bool, true, false, ◌&&◌, ◌||◌, not, Option, none, some, List, ◌<>◌, leb, ◌==◌, nat_eq,
  string_eq, if◌then◌else◌,
}
use cloudfall.Base.Int.{ℤ, pos, negsuc}
use cloudfall.Base.Json.{Json, bool, int, str, arr, Fields}
use cloudfall.Base.Results.{Result, ok, err, ◌>>=◌}
use cloudfall.Base.Text.Search.{starts_with, occurs_in}
use cloudfall.Audit.Values.{value_at, optional_mapping, objects_of}
use cloudfall.Operations.Records.{OperationsError, type_error, value_error}

abbrev pub Views : Type 0 → Type 0
Views = Result OperationsError

-- `_mapping`
unfoldable pub mapping : Fields → String → Views Fields
unfolding value_at optional_mapping
mapping content key = elim (optional_mapping (value_at content key)) [
  | none ↦ err (type_error key)
  | some found ↦ ok found
]

-- `_mapping_sequence`, which refuses what is no list of objects
unfoldable pub mapping_sequence : Fields → String → Views (List Fields)
unfolding value_at objects_of
mapping_sequence content key = elim (value_at content key) [
  | arr items ↦ elim (objects_of items) [ none ↦ err (type_error key) | some found ↦ ok found ]
  | _ ↦ err (type_error key)
]

abbrev as_string : String → Json → Views String
as_string key (str s) = ok s
as_string key _ = err (type_error key)

abbrev as_integer : String → Json → Views ℤ
as_integer key (int n) = ok n
as_integer key _ = err (type_error key)

abbrev as_boolean : String → Json → Views Bool
as_boolean key (bool b) = ok b
as_boolean key _ = err (type_error key)

unfoldable pub string_at : Fields → String → Views String
unfolding value_at
string_at content key = as_string key (value_at content key)

unfoldable pub integer_at : Fields → String → Views ℤ
unfolding value_at
integer_at content key = as_integer key (value_at content key)

unfoldable pub boolean_at : Fields → String → Views Bool
unfolding value_at
boolean_at content key = as_boolean key (value_at content key)

-- an integer that must not be negative
abbrev pub natural : String → ℤ → Views ℕ
natural key (pos n) = ok n
natural key (negsuc n) = err (value_error key)

-- `_required_string`
unfoldable pub required_string : String → Json → Views String
required_string concept (str s) = if s == "" then err (type_error concept) else ok s
required_string concept _ = err (type_error concept)

-- `ObservedByteCount.from_boundary`
unfoldable pub byte_count : Json → Views ℕ
byte_count (int n) = natural "byte count" n
byte_count _ = err (type_error "byte count")

-- Behind a leading slash, a part `..` stands between two slashes or at the end.
unfoldable pub is_absolute_path : String → Bool
unfolding starts_with occurs_in
is_absolute_path path =
    starts_with "/" path
    && not (occurs_in "\0" path)
    && not (occurs_in "//" path)
    && not (occurs_in "/../" (path <> "/"))

-- `AbsolutePath.from_boundary`
unfoldable pub absolute_path : Json → Views String
unfolding required_string is_absolute_path
absolute_path value = do
  path ← required_string "absolute path" value
  if is_absolute_path path then ok path else err (value_error "absolute path")

abbrev between : ℕ → ℕ → ℕ → Bool
between lo hi c = leb lo c && leb c hi

abbrev is_unit_char : ℕ → Bool
is_unit_char c =
    between 65 90 c
    || between 97 122 c
    || between 48 58 c
    || c == 64
    || c == 95
    || c == 46
    || c == 45

-- `^[A-Za-z0-9@_.:-]+\.service$`, behind at least one character if `started`
unfoldable pub is_service_name : Bool → String → Bool
is_service_name started String.[] = false
is_service_name started (String.◌∷◌ c s) =
    let later = is_service_name true s in
    if started && String.◌∷◌ c s == ".service"
    then true
    else if is_unit_char (code c)
    then later
    else false

-- `ServiceName.from_boundary` of a text
unfoldable pub service_name : String → Views String
unfolding is_service_name
service_name name =
    if name == ""
    then err (type_error "service name")
    else if is_service_name false name
    then ok name
    else err (value_error "service name")

-- `UtcTimestamp.from_boundary`. What `datetime.fromisoformat` makes of a text is a parameter: whether the
-- time has a timezone, and the time, in UTC; `none` is its `ValueError`.
unfoldable pub utc_timestamp : (String → Option (Bool × ℕ)) → Json → Views ℕ
utc_timestamp fromisoformat (str s) = elim (fromisoformat s) [
  | none ↦ err (value_error "operations timestamp")
  | some (aware, time) ↦ if aware then ok time else err (value_error "operations timestamp")
]
utc_timestamp fromisoformat _ = err (type_error "operations timestamp")
