-- ===== src/Audit/Host/Groups.antt =====
-- What `_audit_packages` keeps of the entries by their names.
use mathlib.Core.List.{append_assoc, append-nil}
use cloudfall.Base.{
  String, Bool, true, false, ◌||◌, List, [], ◌∷◌, ◌++◌, any, select, ◌==◌, string_eq, if◌then◌else◌,
  ◌≡◌, refl, sym, ap, ◌∙◌, inl, inr, Bool-cases, arith,
}
use cloudfall.Base.Dict.{Dict, lookup-put}
use cloudfall.Base.Json.{Fields}
use cloudfall.Base.Results.{ok, err, >>=-eq-ok}
use cloudfall.Audit.Values.{Audits, string_at}
use cloudfall.Audit.Host.{entries_at, add_entry, grouped, is_installed}

abbrev pub says : Audits String → String → Bool
says (ok found) name = name == found
says (err e) name = false

abbrev pub is_named : String → Fields → Bool
is_named name entry = says (string_at entry "name") name

entries_at-add_entry :
    (name key : String) (entry : Fields) (packages : Dict String (List Fields))
    → entries_at (add_entry key entry packages) name
      ≡ (if name == key then entries_at packages name ++ (entry ∷ []) else entries_at packages name)
unfolding add_entry
entries_at-add_entry name key entry packages =
    ground (arith, lookup-put name key (entries_at packages key ++ (entry ∷ [])) packages)

-- The group of a name has the entries of that name, in their order.
pub entries_at-grouped :
    (name : String) (entries : List Fields) (packages result : Dict String (List Fields))
    → grouped entries packages ≡ ok result
    → entries_at result name ≡ entries_at packages name ++ select (is_named name) entries
unfolding grouped
entries_at-grouped name [] packages result h =
    let same : packages ≡ result = cc in
    ap (λ p. entries_at p name) (sym same) ∙ sym (append-nil (entries_at packages name))
entries_at-grouped name (entry ∷ entries) packages result h =
    let (key, named, rest) = >>=-eq-ok (string_at entry "name") _ h in
    let later = select (is_named name) entries in
    let added = entries_at-add_entry name key entry packages in
    entries_at-grouped name entries (add_entry key entry packages) result rest
    ∙ elim (Bool-cases (name == key)) [
      | inl same ↦
          let now : entries_at (add_entry key entry packages) name
              ≡ entries_at packages name ++ (entry ∷ []) =
            rw same at added in
          rw (now, named, same) (append_assoc (entries_at packages name) (entry ∷ []) later)
      | inr other ↦
          let kept : entries_at (add_entry key entry packages) name ≡ entries_at packages name =
            rw other at added in
          rw (kept, named, other)
    ]

is_installed-add_entry :
    (name key : String) (entry : Fields) (packages : Dict String (List Fields))
    → is_installed (add_entry key entry packages) name ≡ (name == key || is_installed packages name)
unfolding add_entry
is_installed-add_entry name key entry packages =
    ground (arith, lookup-put name key (entries_at packages key ++ (entry ∷ [])) packages)

-- A name is among the groups exactly if it was, or an entry has it.
pub is_installed-grouped :
    (name : String) (entries : List Fields) (packages result : Dict String (List Fields))
    → grouped entries packages ≡ ok result
    → is_installed result name ≡ (is_installed packages name || any (is_named name) entries)
unfolding grouped
is_installed-grouped name [] packages result h =
    let same : packages ≡ result = cc in
    ap (λ p. is_installed p name) (sym same) ∙ or_false (is_installed packages name)
  where
    or_false : (b : Bool) → b ≡ (b || false)
    or_false true = refl
    or_false false = refl
is_installed-grouped name (entry ∷ entries) packages result h =
    let (key, named, rest) = >>=-eq-ok (string_at entry "name") _ h in
    is_installed-grouped name entries (add_entry key entry packages) result rest
    ∙ rw (is_installed-add_entry name key entry packages, named)
        (moved (name == key) (is_installed packages name) (any (is_named name) entries))
  where
    moved : (a b c : Bool) → ((a || b) || c) ≡ (b || (if a then true else c))
    moved true true c = refl
    moved true false c = refl
    moved false b c = refl
