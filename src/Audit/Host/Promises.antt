-- ===== src/Audit/Host/Promises.antt =====
-- The checks of packages are made, and when they pass.
use cloudfall.Base.{
  String, Bool, List, [], ◌∷◌, select, ◌≡◌, ◌↔◌, refl, ap, ◌∙◌, inl, inr, Bool-cases,
}
use cloudfall.Base.Bytes.{All}
use cloudfall.Base.Dict.{Dict}
use cloudfall.Base.Json.{Fields}
use cloudfall.Base.Results.{ok, ◌>>=◌}
use cloudfall.Inventory.{PackageRequirement}
use cloudfall.Audit.Values.{Audits, mapping_sequence, string_at}
use cloudfall.Audit.Checks.{AuditCheck}
use cloudfall.Audit.Checks.Laws.{Passing}
use cloudfall.Audit.Host.{
  entries_at, add_entry, grouped, versions_of, audit_required_package, audit_required_packages,
  audit_packages,
}
use cloudfall.Audit.Host.Groups.{is_named, entries_at-grouped}
use cloudfall.Audit.Host.Laws.{IsThere, IsAbsent, audit_packages_iff}

-- An entry of the observation, with a name and a version.
abbrev pub IsEntry : Fields → Type 0
IsEntry entry =
    (name : String) × (version : String) × (string_at entry "name" ≡ ok name)
    × (string_at entry "version" ≡ ok version)

grouped_returns :
    (entries : List Fields) (packages : Dict String (List Fields))
    → All IsEntry entries
    → (result : Dict String (List Fields)) × (grouped entries packages ≡ ok result)
unfolding grouped
grouped_returns [] packages h = (packages, refl)
grouped_returns (entry ∷ entries) packages ((name, version, n, v), h) =
    let (result, made) = grouped_returns entries (add_entry name entry packages) h in
    (result, rw (grouped, n, made))

versions_of_returns :
    (entries : List Fields)
    → All IsEntry entries
    → (versions : List String) × (versions_of entries ≡ ok versions)
unfolding versions_of
versions_of_returns [] h = ([], refl)
versions_of_returns (entry ∷ entries) ((name, version, n, v), h) =
    let (versions, made) = versions_of_returns entries h in
    (version ∷ versions, rw (versions_of, v, made))

All-select :
    (test : Fields → Bool) (entries : List Fields)
    → All IsEntry entries
    → All IsEntry (select test entries)
All-select test [] h = tt
All-select test (entry ∷ entries) (e, h) = elim (Bool-cases (test entry)) [
  | inl taken ↦ rw taken (e, All-select test entries h)
  | inr left ↦ rw left (All-select test entries h)
]

-- A call returns some value.
abbrev HasValue : {A : Type 0} → Audits A → Type 0
HasValue {A = A} call = (a : A) × (call ≡ ok a)

then_returns :
    {A B : Type 0} (call : Audits A) (next : A → Audits B) (a : A)
    → call ≡ ok a
    → HasValue (next a)
    → HasValue (call >>= next)
then_returns call next a made (b, rest) = (b, ap (λ c. c >>= next) made ∙ rest)

at_once : {A : Type 0} (a : A) → HasValue (ok a)
at_once a = (a, refl)

audit_required_packages_returns :
    (packages : Dict String (List Fields)) (required : List PackageRequirement)
    → ((name : String) → All IsEntry (entries_at packages name))
    → HasValue (audit_required_packages packages required)
unfolding audit_required_packages audit_required_package
audit_required_packages_returns packages [] shaped = at_once []
audit_required_packages_returns packages (r ∷ required) shaped =
    let (versions, made) = versions_of_returns (entries_at packages r.name) (shaped r.name) in
    let (check, checked) : HasValue (audit_required_package packages r) =
      then_returns (versions_of (entries_at packages r.name)) _ versions made (at_once _) in
    let (checks, others) = audit_required_packages_returns packages required shaped in
    then_returns (audit_required_package packages r) _ check checked (
      then_returns (audit_required_packages packages required) _ checks others
        (at_once (check ∷ checks)))

-- Where each entry of the observed packages has a name and a version, the checks of packages are made,
-- and all pass exactly if each required package has an entry of its name, and of its version where one
-- is asked for, and no entry has the name of a forbidden one.
pub audit_packages_exact :
    (required : List PackageRequirement) (forbidden : List String) (spec : Fields)
    → All IsEntry (mapping_sequence spec "packages")
    → (checks : List AuditCheck) × (audit_packages required forbidden spec ≡ ok checks)
      × (All Passing checks ↔ (
          All (IsThere (mapping_sequence spec "packages")) required
          × All (IsAbsent (mapping_sequence spec "packages")) forbidden))
unfolding audit_packages
audit_packages_exact required forbidden spec shaped =
    let items = mapping_sequence spec "packages" in
    let (packages, made) = grouped_returns items [] shaped in
    let groups : (name : String) → All IsEntry (entries_at packages name) = λ name.
      rw (entries_at-grouped name items [] packages made)
        (All-select (is_named name) items shaped) in
    let (first, listed) = audit_required_packages_returns packages required groups in
    let (checks, returned) : HasValue (audit_packages required forbidden spec) =
      then_returns (grouped items []) _ packages made
        (then_returns (audit_required_packages packages required) _ first listed (at_once _)) in
    (checks, returned, audit_packages_iff required forbidden spec checks returned)
