-- ===== src/Decision/Inputs/Laws.antt =====
-- What the validated inputs hold, name by name, and that validated values are left alone.
use cloudfall.Base.{String, true, false, Option, none, some, List, [], ◌∷◌, ◌≡◌, ◌≢◌, refl, ◌∙◌}
use cloudfall.Base.{inl, inr, arith, Option-cases, string_eq, codes_eq, if◌then◌else◌}
use mathlib.Core.Path.{subst}
use cloudfall.Base.{ℕ, ◌⊎◌, Member, ◌==◌, ◌||◌, Bool-cases}
use cloudfall.Base.Int.{ℤ}
use cloudfall.Base.Text.{strip, lower_codes, parse_int}
use cloudfall.Base.Dict.{Dict, lookup, put, lookup-put}
use cloudfall.Base.Dict.Ordered.{
  NodupKeys, put-NodupKeys, by_name, lookup-by_name, by_name-NodupKeys,
}
use cloudfall.Base.Results.{ok, err, ◌>>=◌, >>=-eq-ok}
use cloudfall.Base.Text.Roundtrip.{parse_int-print_int, strip-print_int}
use cloudfall.Catalog.{InputType, string, integer, boolean, OperationInput, Operation}
use cloudfall.Decision.Records.{Value, Inputs, text}
use cloudfall.Decision.Errors.{Checked, input_unknown, input_missing}
use cloudfall.Decision.Inputs.{
  print_value, is_word, coerced, declare, known, collect, validated_inputs,
}

-- The value has the declared type.
abbrev pub HasType : InputType → Value → Type 0
HasType string (text s) = Unit
HasType integer (Value.integer n) = Unit
HasType boolean (Value.boolean b) = Unit
HasType _ _ = ⊥

pub coerced-HasType :
    (t : InputType) (name : String) (v w : Value) → coerced t name v ≡ ok w → HasType t w
unfolding coerced
coerced-HasType string name v w h = ground arith
coerced-HasType integer name v w h = ground arith
coerced-HasType boolean name v w h = ground arith

-- A value of the declared type is kept as it is, so that coercing twice is coercing once.
pub coerced_of_HasType :
    (t : InputType) (name : String) (w : Value) → HasType t w → coerced t name w ≡ ok w
unfolding coerced codes_eq
coerced_of_HasType string name (text s) h = refl
coerced_of_HasType integer name (Value.integer n) h = rw (strip-print_int n, parse_int-print_int n)
coerced_of_HasType boolean name (Value.boolean true) h = refl
coerced_of_HasType boolean name (Value.boolean false) h = refl
coerced_of_HasType _ name w h = absurd h

-- What a name holds in the result, by its declaration and by what the caller gave.
abbrev pub expected : String → Option OperationInput → Option Value → Checked (Option Value)
expected name none none = ok none
expected name none (some v) = err (input_unknown name)
expected name (some entry) none = if entry.required then err (input_missing name) else ok none
expected name (some entry) (some v) = do w ← coerced entry.type name v; ok (some w)

declare-NodupKeys :
    (entries : List OperationInput) (d : Dict String OperationInput)
    → NodupKeys d
    → NodupKeys (declare entries d)
unfolding declare
declare-NodupKeys [] d u = u
declare-NodupKeys (e ∷ entries) d u = declare-NodupKeys entries _ (put-NodupKeys e.name e d u)

known-lookup :
    (declared : Dict String OperationInput) (inputs : Inputs) (name : String)
    → known declared inputs ≡ ok tt
    → lookup name declared ≡ none
    → lookup name inputs ≡ none
unfolding known lookup
known-lookup declared [] name h e = refl
known-lookup declared ((j, v) ∷ rest) name h e = ground (arith, known-lookup declared rest name)

-- The part of `expected` that concerns the declared names.
abbrev wanted : String → Option OperationInput → Option Value → Checked (Option Value)
wanted name none v = ok none
wanted name (some entry) v = expected name (some entry) v

collect-lookup :
    (inputs : Inputs) (ds : Dict String OperationInput) (name : String) (out : Inputs)
    → NodupKeys ds
    → collect inputs ds ≡ ok out
    → wanted name (lookup name ds) (lookup name inputs) ≡ ok (lookup name out)
unfolding collect lookup
collect-lookup inputs [] name out u h = ground arith
collect-lookup inputs ((j, entry) ∷ ds) name out (fresh, u) h =
    elim (Option-cases (lookup j inputs)) [
      | inl absent ↦ ground (arith, collect-lookup inputs ds name out u)
      | inr (v, given) ↦
          let (w, p, q) =
            >>=-eq-ok (coerced entry.type j v) (λ w. collect inputs ds >>= λ o. ok ((j, w) ∷ o))
              (rw (collect, given) at h) in
          let (o, r, t) = >>=-eq-ok (collect inputs ds) (λ o. ok ((j, w) ∷ o)) q in
          ground (arith, collect-lookup inputs ds name o u r)
    ]

validated_inputs-expected :
    (operation : Operation) (inputs out : Inputs) (name : String)
    → validated_inputs operation inputs ≡ ok out
    → expected name (lookup name (declare operation.inputs [])) (lookup name inputs)
      ≡ ok (lookup name out)
unfolding validated_inputs
validated_inputs-expected operation inputs out name h =
    let declared = declare operation.inputs [] in
    let (_, p, q) = >>=-eq-ok (known declared inputs) (λ _. collect inputs (by_name declared)) h in
    ground (
      arith,
      known-lookup declared inputs name p,
      rw lookup-by_name at (
          collect-lookup inputs (by_name declared) name out
            (by_name-NodupKeys declared (declare-NodupKeys operation.inputs [] tt)) q),
    )

-- The last entry of that name in a list of declarations.
unfoldable pub last_named : String → List OperationInput → Option OperationInput
last_named name [] = none
last_named name (e ∷ entries) = elim (last_named name entries) [
  | some later ↦ some later
  | none ↦ if name == e.name then some e else none
]

-- A word of a list, in the lower case.
abbrev pub IsWord : List String → List ℕ → Type 0
IsWord words lowered = (word : String) × Member word words × (lowered ≡ lower_codes word)

-- What a value that the caller gave becomes, by the type that is declared.
abbrev pub Means : InputType → Value → Value → Type 0
Means string v w = w ≡ text (print_value v)
Means integer v w = (n : ℤ) × (parse_int (strip (print_value v)) ≡ some n) × (w ≡ Value.integer n)
Means boolean v w =
    (IsWord ("true" ∷ "yes" ∷ "1" ∷ []) (lower_codes (strip (print_value v)))
      × (w ≡ Value.boolean true))
    ⊎ (IsWord ("false" ∷ "no" ∷ "0" ∷ []) (lower_codes (strip (print_value v)))
        × (w ≡ Value.boolean false))

-- What the declaration, the value given and the value held have to do with each other.
abbrev pub Held : Option OperationInput → Option Value → Option Value → Type 0
Held none v w = (v ≡ none) × (w ≡ none)
Held (some entry) none w = (entry.required ≡ false) × (w ≡ none)
Held (some entry) (some v) none = ⊥
Held (some entry) (some v) (some w) = HasType entry.type w × Means entry.type v w

same_word :
    (lowered : List ℕ) (word : String) → is_word lowered word ≡ true → lowered ≡ lower_codes word
same_word lowered word h = ground arith

any_test-IsWord :
    (a b c : String) (lowered : List ℕ)
    → (is_word lowered a || is_word lowered b || is_word lowered c) ≡ true
    → IsWord (a ∷ b ∷ c ∷ []) lowered
any_test-IsWord a b c lowered h = elim (Bool-cases (is_word lowered a)) [
  | inl t ↦ (a, inl refl, same_word lowered a t)
  | inr f ↦ elim (Bool-cases (is_word lowered b)) [
    | inl t ↦ (b, inr (inl refl), same_word lowered b t)
    | inr g ↦ (c, inr (inr (inl refl)), same_word lowered c (ground arith))
  ]
]

coerced-Means :
    (t : InputType) (name : String) (v w : Value) → coerced t name v ≡ ok w → Means t v w
unfolding coerced
coerced-Means string name v w h = ground arith
coerced-Means integer name v w h = elim (Option-cases (parse_int (strip (print_value v)))) [
  | inl nothing ↦ ground arith
  | inr (n, e) ↦ (n, e, ground arith)
]
coerced-Means boolean name v w h =
    let lowered = lower_codes (strip (print_value v)) in
    elim (Bool-cases (is_word lowered "true" || is_word lowered "yes" || is_word lowered "1")) [
      | inl t ↦ inl (any_test-IsWord "true" "yes" "1" lowered t, ground arith)
      | inr f ↦
          elim (Bool-cases
            (is_word lowered "false" || is_word lowered "no" || is_word lowered "0")) [
              | inl t ↦ inr (any_test-IsWord "false" "no" "0" lowered t, ground arith)
              | inr g ↦ ground arith
            ]
    ]

expected-Held :
    (name : String) (entry : Option OperationInput) (v w : Option Value)
    → expected name entry v ≡ ok w
    → Held entry v w
expected-Held name none none w h = (refl, ground arith)
expected-Held name none (some v) w h = ground arith
expected-Held name (some entry) none w h = ground arith
expected-Held name (some entry) (some v) w h =
    let (u, c, same) = >>=-eq-ok (coerced entry.type name v) (λ u. ok (some u)) h in
    let held : ◌≡◌ {A = Option Value} (some u) w = cc in
    subst (Held (some entry) (some v)) held
      (coerced-HasType entry.type name v u c, coerced-Means entry.type name v u c)

lookup-declare :
    (name : String) (entries : List OperationInput) (d : Dict String OperationInput)
    → lookup name (declare entries d)
      ≡ elim (last_named name entries) [ some e ↦ some e | none ↦ lookup name d ]
unfolding declare last_named
lookup-declare name [] d = refl
lookup-declare name (e ∷ entries) d =
    rw (lookup-declare name entries (put e.name e d)) (ground (arith, lookup-put name e.name e d))

-- After a successful validation, every name that is not declared was not given and holds no value. A
-- name that is declared, whose last declaration counts, holds no value if none was given, and then was
-- not required; if a value was given, it holds one of the declared type: the printed value, the integer
-- that the printed value reads as, or the truth value whose word it is in any case, blanks around it
-- aside.
pub validated_inputs-lookup :
    (operation : Operation) (inputs out : Inputs) (name : String)
    → validated_inputs operation inputs ≡ ok out
    → Held (last_named name operation.inputs) (lookup name inputs) (lookup name out)
unfolding lookup
validated_inputs-lookup operation inputs out name h =
    let declared : lookup name (declare operation.inputs []) ≡ last_named name operation.inputs =
      lookup-declare name operation.inputs []
      ∙ elim (Option-cases (last_named name operation.inputs)) [
        | inl e ↦ rw e refl
        | inr (entry, e) ↦ rw e refl
      ] in
    expected-Held name (last_named name operation.inputs) (lookup name inputs) (lookup name out)
      (rw declared at (validated_inputs-expected operation inputs out name h))

known_of_declared :
    (declared : Dict String OperationInput) (inputs : Inputs)
    → ((name : String) → lookup name declared ≡ none → lookup name inputs ≡ none)
    → known declared inputs ≡ ok tt
unfolding known lookup
known_of_declared declared [] all = refl
known_of_declared declared ((j, v) ∷ rest) all =
    ground (arith, all j, known_of_declared declared rest (λ name e. ground (arith, all name e)))

-- The values that were collected are collected again, from any inputs that agree on their names.
collect_again :
    (inputs full : Inputs) (ds : Dict String OperationInput) (out : Inputs)
    → NodupKeys ds
    → collect inputs ds ≡ ok out
    → ((name : String) → lookup name ds ≢ none → lookup name full ≡ lookup name out)
    → collect full ds ≡ ok out
unfolding collect lookup
collect_again inputs full [] out u h agree = h
collect_again inputs full ((j, entry) ∷ ds) out (fresh, u) h agree =
    elim (Option-cases (lookup j inputs)) [
      | inl absent ↦ ground (
        arith,
        agree j,
        collect-lookup inputs ds j out u,
        collect_again inputs full ds out u (ground arith) (λ name e. agree name (ground arith)),
      )
      | inr (v, given) ↦
          let (w, p, q) =
            >>=-eq-ok (coerced entry.type j v) (λ w. collect inputs ds >>= λ o. ok ((j, w) ∷ o))
              (rw (collect, given) at h) in
          let (o, r, t) = >>=-eq-ok (collect inputs ds) (λ o. ok ((j, w) ∷ o)) q in
          ground (
            arith,
            agree j,
            coerced_of_HasType entry.type j w (coerced-HasType entry.type j v w p),
            collect_again inputs full ds o u r (λ name e. agree name (ground arith) ∙ ground arith),
          )
    ]

-- Validating validated inputs against the same operation succeeds and changes nothing.
pub validated_inputs_again :
    (operation : Operation) (inputs out : Inputs)
    → validated_inputs operation inputs ≡ ok out
    → validated_inputs operation out ≡ ok out
unfolding validated_inputs
validated_inputs_again operation inputs out h =
    let declared = declare operation.inputs [] in
    let (_, p, q) = >>=-eq-ok (known declared inputs) (λ _. collect inputs (by_name declared)) h in
    let unique = by_name-NodupKeys declared (declare-NodupKeys operation.inputs [] tt) in
    let again = collect_again inputs out (by_name declared) out unique q (λ name e. refl) in
    let all = known_of_declared declared out (λ name e.
      ground (
        arith,
        rw lookup-by_name at (collect-lookup inputs (by_name declared) name out unique q),
      )) in
    rw all again
