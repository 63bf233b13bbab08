-- ===== src/Audit/Values.antt =====
-- What the audit asks of a document: `_mapping`, `_string`, `_integer` and the like of audit.py. A
-- document's keys are texts, as JSON's are.
use cloudfall.Base.{String, Bool, true, false, Option, none, some, List, [], ◌∷◌, ◌==◌, string_eq}
use cloudfall.Base.Int.{ℤ}
use cloudfall.Base.Json.{Json, null, bool, int, str, arr, obj, Items, nil, cons, Fields, get_field}
use cloudfall.Base.Results.{Result, ok, err}

-- The `TypeError` of each accessor, with its key, and the `KeyError` of an unknown server type.
pub data AuditError : Type 0 where
  not_an_object : String → AuditError
  not_a_string : String → AuditError
  not_an_integer : String → AuditError
  server_type_missing : String → AuditError

abbrev pub Audits : Type 0 → Type 0
Audits = Result AuditError

-- `content.get(key)`
unfoldable pub value_at : Fields → String → Json
unfolding get_field
value_at content key = elim (get_field key content) [ none ↦ null | some value ↦ value ]

unfoldable pub optional_mapping : Json → Option Fields
optional_mapping (obj content) = some content
optional_mapping _ = none

unfoldable pub mapping : Fields → String → Audits Fields
unfolding value_at optional_mapping
mapping content key = elim (optional_mapping (value_at content key)) [
  | none ↦ err (not_an_object key)
  | some found ↦ ok found
]

-- the objects of a list, or `none` if an item is no object
unfoldable pub objects_of : Items → Option (List Fields)
unfolding optional_mapping
objects_of nil = some []
objects_of (cons item items) =
    let rest = objects_of items in
    elim (optional_mapping item) [
      | none ↦ none
      | some found ↦ elim rest [ none ↦ none | some others ↦ some (found ∷ others) ]
    ]

-- `_mapping_values_sequence`
unfoldable pub mapping_values_sequence : Json → List Fields
unfolding objects_of
mapping_values_sequence (arr items) = elim (objects_of items) [ none ↦ [] | some found ↦ found ]
mapping_values_sequence _ = []

-- `_mapping_sequence`
unfoldable pub mapping_sequence : Fields → String → List Fields
unfolding value_at mapping_values_sequence
mapping_sequence content key = mapping_values_sequence (value_at content key)

abbrev as_string : String → Json → Audits String
as_string key (str s) = ok s
as_string key _ = err (not_a_string key)

-- `_string`
unfoldable pub string_at : Fields → String → Audits String
unfolding value_at
string_at content key = as_string key (value_at content key)

abbrev as_int : String → Json → Audits ℤ
as_int key (int n) = ok n
as_int key _ = err (not_an_integer key)

-- `_integer`
unfoldable pub integer_at : Fields → String → Audits ℤ
unfolding value_at
integer_at content key = as_int key (value_at content key)

-- `value is True`
abbrev pub is_true : Json → Bool
is_true (bool b) = b
is_true _ = false

-- `value == text`
abbrev pub equals_text : Json → String → Bool
equals_text (str s) text = s == text
equals_text _ text = false

abbrev pub is_null : Json → Bool
is_null null = true
is_null _ = false

-- a list of texts as a value
abbrev text_items : List String → Items
text_items [] = nil
text_items (s ∷ rest) = cons (str s) (text_items rest)

abbrev pub texts : List String → Json
texts list = arr (text_items list)
