-- ===== src/Decision/Inputs.antt =====
-- `_validated_targets`, `_validated_inputs` and `_coerced` of decision.py.
pub mod Laws
use cloudfall.Base.{ℕ, String, Bool, true, false, ◌||◌, Option, none, some, List, [], ◌∷◌}
use cloudfall.Base.{◌==◌, string_eq, codes_eq, if◌then◌else◌}
use cloudfall.Base.Int.{ℤ}
use cloudfall.Base.Dict.{Dict, lookup, put}
use cloudfall.Base.Sorting.{sort_by}
use cloudfall.Base.Results.{ok, err, ◌>>=◌, ◌>>◌}
use cloudfall.Base.Text.{strip, lower_codes, parse_int, print_int}
use cloudfall.Catalog.{
  InputType, string, integer, boolean, OperationInput, Operation, TargetScope, fleet, scope_eq,
}
use cloudfall.Decision.Records.{Value, Inputs, Targets, none_value, text, other}
use cloudfall.Decision.Records
use cloudfall.Decision.Errors.{
  DecisionError, Checked, target_required, target_unexpected, input_unknown, input_missing,
  input_type,
}

-- `str(value)`
unfoldable pub print_value : Value → String
unfolding print_int
print_value none_value = "None"
print_value (text s) = s
print_value (Value.integer n) = print_int n
print_value (Value.boolean true) = "True"
print_value (Value.boolean false) = "False"
print_value (other printed) = printed

abbrev as_integer : String → Option ℤ → Checked Value
as_integer name none = err (input_type name)
as_integer name (some n) = ok (Value.integer n)

abbrev pub is_word : List ℕ → String → Bool
is_word lowered word = lowered == lower_codes word

-- `_coerced`
unfoldable pub coerced : InputType → String → Value → Checked Value
unfolding print_value strip parse_int
coerced string name value = ok (text (print_value value))
coerced integer name value = as_integer name (parse_int (strip (print_value value)))
coerced boolean name value =
    let lowered = lower_codes (strip (print_value value)) in
    if is_word lowered "true" || is_word lowered "yes" || is_word lowered "1"
    then ok (Value.boolean true)
    else if is_word lowered "false" || is_word lowered "no" || is_word lowered "0"
    then ok (Value.boolean false)
    else err (input_type name)

-- `{str(entry.name): entry for entry in operation.inputs}`
unfoldable pub declare :
    List OperationInput → Dict String OperationInput → Dict String OperationInput
unfolding put
declare [] declared = declared
declare (entry ∷ rest) declared = declare rest (put entry.name entry declared)

-- the first loop of `_validated_inputs`
unfoldable pub known : Dict String OperationInput → Inputs → Checked (Unit {0})
unfolding lookup
known declared [] = ok tt
known declared ((name, value) ∷ rest) =
    let later = known declared rest in
    elim (lookup name declared) [ none ↦ err (input_unknown name) | some entry ↦ later ]

-- the second loop, over the declared inputs in the order of their names
unfoldable pub collect : Inputs → Dict String OperationInput → Checked Inputs
unfolding lookup
collect inputs [] = ok []
collect inputs ((name, entry) ∷ rest) =
    let later = collect inputs rest in
    elim (lookup name inputs) [
      | none ↦ if entry.required then err (input_missing name) else later
      | some value ↦ do v ← coerced entry.type name value; out ← later; ok ((name, v) ∷ out)
    ]

-- `_validated_inputs`
unfoldable pub validated_inputs : Operation → Inputs → Checked Inputs
unfolding declare known collect sort_by
validated_inputs operation inputs = do
  let declared = declare operation.inputs []
  known declared inputs
  collect inputs (sort_by (λ item. item.0) declared)

-- `_validated_targets`
unfoldable pub validated_targets : Operation → Targets → Checked (Option String)
unfolding strip
validated_targets operation targets =
    if targets.scope == operation.targets
    then if operation.targets == fleet
      then elim targets.pattern [ none ↦ ok none | some p ↦ err target_unexpected ]
      else elim targets.pattern [
        | none ↦ err target_required
        | some p ↦ if strip p == "" then err target_required else ok (some (strip p))
      ]
    else err target_unexpected
