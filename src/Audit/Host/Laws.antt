-- ===== src/Audit/Host/Laws.antt =====
-- When the packages of a server pass the audit.
use cloudfall.Base.{
  String, Bool, true, false, ◌&&◌, not, Option, none, some, List, [], ◌∷◌, ◌++◌, any, select, map,
  contains, ◌==◌, string_eq, if◌then◌else◌, ◌≡◌, ◌≢◌, ◌↔◌, refl, sym, ap, ◌∙◌, inl, inr, Member,
  Bool-cases, arith,
}
use cloudfall.Base.Bytes.{All}
use cloudfall.Base.Members.{All-append_iff, All-map_iff, any_iff, Member-select_iff}
use cloudfall.Base.Dict.{Dict}
use cloudfall.Base.Json.{Fields}
use cloudfall.Base.Results.{ok, err, >>=-eq-ok}
use cloudfall.Inventory.{PackageRequirement}
use cloudfall.Audit.Values.{Audits, mapping_sequence, string_at}
use cloudfall.Audit.Checks.{compliant, drift, AuditCheck}
use cloudfall.Audit.Checks.Laws.{Passing, passed, passes}
use cloudfall.Audit.Host.{
  entries_at, grouped, versions_of, has_version, is_filled, audit_required_package,
  audit_required_packages, is_installed, audit_forbidden_package, audit_packages,
}
use cloudfall.Audit.Host.Groups.{says, is_named, entries_at-grouped, is_installed-grouped}

-- An entry of that name, and of that version where one is asked for.
abbrev pub IsPackage : String → Option String → Fields → Type 0
IsPackage name none entry = string_at entry "name" ≡ ok name
IsPackage name (some version) entry =
    (string_at entry "name" ≡ ok name) × (string_at entry "version" ≡ ok version)

abbrev pub IsThere : List Fields → PackageRequirement → Type 0
IsThere entries r = (entry : Fields) × Member entry entries × IsPackage r.name r.version entry

abbrev pub IsAbsent : List Fields → String → Type 0
IsAbsent entries name = (entry : Fields) → Member entry entries → string_at entry "name" ≢ ok name

is_named_iff :
    (name : String) (entry : Fields)
    → (is_named name entry ≡ true) ↔ (string_at entry "name" ≡ ok name)
is_named_iff name entry = says_iff (string_at entry "name")
  where
    says_iff : (r : Audits String) → (says r name ≡ true) ↔ (r ≡ ok name)
    says_iff (ok found) = ground arith
    says_iff (err e) = (λ h. cc, λ h. cc)

-- What the versions of the entries hold.
contains-versions_of :
    (version : String) (entries : List Fields) (versions : List String)
    → versions_of entries ≡ ok versions
    → (contains versions version ≡ true)
      ↔ ((entry : Fields) × Member entry entries × (string_at entry "version" ≡ ok version))
unfolding versions_of
contains-versions_of version [] versions h =
    let nothing : [] ≡ versions = cc in rw (sym nothing) (λ c. cc, λ (_, m, _). elim m [ ])
contains-versions_of version (entry ∷ entries) versions h =
    let (found, has, rest) = >>=-eq-ok (string_at entry "version") _ h in
    let (later, others, last) = >>=-eq-ok (versions_of entries) _ rest in
    let both : found ∷ later ≡ versions = cc in
    let more = contains-versions_of version entries later others in
    rw (sym both) (
      λ c. elim (Bool-cases (version == found)) [
        | inl same ↦ (entry, inl refl, has ∙ ap ok (sym (equal version found same)))
        | inr other ↦ let (e, m, v) = more.0 (rw other at c) in (e, inr m, v)
      ],
      λ (e, m, v). elim m [
        | inl same ↦
            let again : ok found ≡ ok version =
              sym has ∙ ap (λ x. string_at x "version") (sym same) ∙ v in
            ground arith
        | inr there ↦ let held = more.1 (e, there, v) in ground (arith, held)
      ],
    )
  where
    equal : (a b : String) → (a == b) ≡ true → a ≡ b
    equal a b h = ground arith

is_filled_iff {ℓ} :
    {A : Type ℓ} (items : List A) → (is_filled items ≡ true) ↔ ((a : A) × Member a items)
is_filled_iff [] = (λ h. cc, λ (_, m). elim m [ ])
is_filled_iff (x ∷ items) = (λ _. (x, inl refl), λ _. refl)

-- What the test of a required package says of the entries that have its name.
required_iff :
    (name : String) (wanted : Option String) (items : List Fields) (versions : List String)
    → versions_of (select (is_named name) items) ≡ ok versions
    → ((is_filled (select (is_named name) items) && has_version wanted versions) ≡ true)
      ↔ ((entry : Fields) × Member entry items × IsPackage name wanted entry)
required_iff name none items versions h =
    let group = select (is_named name) items in
    (
      λ t.
          let (e, m) = (is_filled_iff group).0 (and_left (is_filled group) true t) in
          let (m', n) = (Member-select_iff (is_named name) e items).0 m in
          (e, m', (is_named_iff name e).0 n),
      λ (e, m, n).
          let filled =
            (is_filled_iff group).1
              (e, (Member-select_iff (is_named name) e items).1 (m, (is_named_iff name e).1 n)) in
          ground arith,
    )
  where
    and_left : (a b : Bool) → (a && b) ≡ true → a ≡ true
    and_left a b t = ground arith
required_iff name (some version) items versions h =
    let group = select (is_named name) items in
    let held = contains-versions_of version group versions h in
    (
      λ t.
          let (e, m, v) = held.0 (and_right (is_filled group) (contains versions version) t) in
          let (m', n) = (Member-select_iff (is_named name) e items).0 m in
          (e, m', ((is_named_iff name e).0 n, v)),
      λ (e, m, (n, v)).
          let here = (Member-select_iff (is_named name) e items).1 (m, (is_named_iff name e).1 n) in
          let filled = (is_filled_iff group).1 (e, here) in
          let right = held.1 (e, here, v) in ground arith,
    )
  where
    and_right : (a b : Bool) → (a && b) ≡ true → b ≡ true
    and_right a b t = ground arith

audit_required_package_iff :
    (packages : Dict String (List Fields)) (items : List Fields) (r : PackageRequirement)
    (check : AuditCheck)
    → entries_at packages r.name ≡ select (is_named r.name) items
    → audit_required_package packages r ≡ ok check
    → (check.status ≡ compliant) ↔ IsThere items r
unfolding audit_required_package
audit_required_package_iff packages items r check group h =
    let (versions, found, last) = >>=-eq-ok (versions_of (entries_at packages r.name)) _ h in
    let matches = is_filled (entries_at packages r.name) && has_version r.version versions in
    let status : (if matches then compliant else drift) ≡ check.status = cc in
    let iff = required_iff r.name r.version items versions (ap versions_of (sym group) ∙ found) in
    let same : matches
        ≡ (is_filled (select (is_named r.name) items) && has_version r.version versions) =
      ap (λ g. is_filled g && has_version r.version versions) group in
    (
      λ c. iff.0 (sym same ∙ passed matches (status ∙ c)),
      λ there. sym status ∙ passes matches (same ∙ iff.1 there),
    )

module _ (packages : Dict String (List Fields)) (items : List Fields)
    (groups : (name : String) → entries_at packages name ≡ select (is_named name) items)
    (installed : (name : String) → is_installed packages name ≡ any (is_named name) items) where
  audit_required_packages_iff :
      (required : List PackageRequirement) (checks : List AuditCheck)
      → audit_required_packages packages required ≡ ok checks
      → All Passing checks ↔ All (IsThere items) required
  unfolding audit_required_packages
  audit_required_packages_iff [] checks h =
      let nothing : [] ≡ checks = cc in rw (sym nothing) (λ _. tt, λ _. tt)
  audit_required_packages_iff (r ∷ required) checks h =
      let (check, made, rest) = >>=-eq-ok (audit_required_package packages r) _ h in
      let (later, others, last) = >>=-eq-ok (audit_required_packages packages required) _ rest in
      let both : check ∷ later ≡ checks = cc in
      let one = audit_required_package_iff packages items r check (groups r.name) made in
      let more = audit_required_packages_iff required later others in
      rw (sym both) (λ (c, cs). (one.0 c, more.0 cs), λ (t, ts). (one.1 t, more.1 ts))

  audit_forbidden_package_iff :
      (name : String)
      → ((audit_forbidden_package packages name).status ≡ compliant) ↔ IsAbsent items name
  unfolding audit_forbidden_package
  audit_forbidden_package_iff name =
      let there = is_installed packages name in
      (
        λ c entry m n.
            let some_entry =
              (any_iff (is_named name) items).1 (entry, m, (is_named_iff name entry).1 n) in
            let open_there : there ≡ true = installed name ∙ some_entry in
            both (not there) (passed (not there) c) (ap not open_there),
        λ absent. passes (not there) (
            ap not (
              absent_false there (λ h.
                let (entry, m, n) = (any_iff (is_named name) items).0 (sym (installed name) ∙ h) in
                absent entry m ((is_named_iff name entry).0 n)))),
      )
    where
      both : (b : Bool) → b ≡ true → b ≡ false → ⊥
      both b t f = cc

      absent_false : (b : Bool) → (b ≡ true → ⊥) → b ≡ false
      absent_false true h = absurd (h refl)
      absent_false false h = refl

-- The checks of packages pass exactly if each required package has an entry of its name, and of its
-- version where one is asked for, and no entry has the name of a forbidden one.
pub audit_packages_iff :
    (required : List PackageRequirement) (forbidden : List String) (spec : Fields)
    (checks : List AuditCheck)
    → audit_packages required forbidden spec ≡ ok checks
    → All Passing checks ↔ (
        All (IsThere (mapping_sequence spec "packages")) required
        × All (IsAbsent (mapping_sequence spec "packages")) forbidden)
unfolding audit_packages
audit_packages_iff required forbidden spec checks h =
    let items = mapping_sequence spec "packages" in
    let (packages, made, rest) = >>=-eq-ok (grouped items []) _ h in
    let (first, listed, last) = >>=-eq-ok (audit_required_packages packages required) _ rest in
    let all_checks : first ++ map (audit_forbidden_package packages) forbidden ≡ checks = cc in
    let groups = λ (name : String). entries_at-grouped name items [] packages made in
    let installed = λ (name : String). is_installed-grouped name items [] packages made in
    let split = All-append_iff Passing first (map (audit_forbidden_package packages) forbidden) in
    let there = audit_required_packages_iff packages items groups installed required first listed in
    let absent =
      All-map_iff Passing (IsAbsent items) (audit_forbidden_package packages)
        (audit_forbidden_package_iff packages items groups installed) forbidden in
    rw (sym all_checks) (
      λ h'. let (a, b) = split.0 h' in (there.0 a, absent.0 b),
      λ (a, b). split.1 (there.1 a, absent.1 b),
    )
