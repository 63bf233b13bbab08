-- ===== src/Audit/Raid/Laws.antt =====
-- When the software RAID of a server passes the audit.
use text.Mathlib.TextLemmas.{append_assoc}
use mathlib.Core.Path.{subst}
use cloudfall.Base.{◌<>◌}
use cloudfall.Base.Text.Search.{occurs_in_iff}
use cloudfall.Audit.Raid.Arrays.{Arrays, array_health-Arrays, Arrays-unique}
use cloudfall.Base.{
  ℕ, ◌≤◌, String, true, false, List, [], ◌∷◌, leb, ltb, if◌then◌else◌, ◌≡◌, ◌≢◌, ◌↔◌, refl, sym, ap,
  ◌∙◌, inl, inr, Member, Bool-cases, arith,
}
use cloudfall.Base.Bytes.{All}
use cloudfall.Base.Int.{ℤ, pos, negsuc}
use cloudfall.Base.Json.{Fields}
use cloudfall.Base.Results.{ok}
use cloudfall.Inventory.{RaidRequirement}
use cloudfall.Audit.Values.{value_at, mapping, string_at}
use cloudfall.Audit.Checks.Laws.{Passing, passed, passes}
use cloudfall.Audit.Raid.{
  array_health, least, worst, flatten, raid_sizes, int_ltb, greatest, largest, at_least, is_active,
  raid_checks, audit_raid,
}

least_iff :
    (bound best : ℕ) (counts : List ℕ)
    → (bound ≤ least best counts) ↔ ((bound ≤ best) × All (λ n. bound ≤ n) counts)
unfolding least
least_iff bound best [] = (λ h. (h, tt), λ h. h.0)
least_iff bound best (n ∷ counts) =
    let rest = least_iff bound (if ltb n best then n else best) counts in
    (λ h. ground (arith, rest.0 h), λ h. rest.1 (ground arith))

-- The worst array has as many working devices as asked for, exactly if there is an array and each has.
pub worst_iff :
    (bound : ℕ) (counts : List ℕ)
    → 1 ≤ bound
    → (leb bound (worst counts) ≡ true) ↔ ((counts ≢ []) × All (λ n. bound ≤ n) counts)
worst_iff bound [] some_bound = (λ h. ground arith, λ (n, _). absurd (n refl))
worst_iff bound (n ∷ counts) some_bound = (
  λ h. ((λ e. cc), (least_iff bound n counts).0 (ground arith)),
  λ (_, h). let low = (least_iff bound n counts).1 h in ground arith,
)

at_least_larger :
    (bound : ℕ) (a b : ℤ) → int_ltb a b ≡ true → at_least bound a ≡ true → at_least bound b ≡ true
at_least_larger bound (pos a) (pos b) less h = ground arith
at_least_larger bound (pos a) (negsuc b) less h = cc
at_least_larger bound (negsuc a) b less h = cc

greatest_iff :
    (bound : ℕ) (best : ℤ) (sizes : List ℤ)
    → (at_least bound (greatest best sizes) ≡ true)
      ↔ ((n : ℤ) × Member n (best ∷ sizes) × (at_least bound n ≡ true))
unfolding greatest
greatest_iff bound best [] = (
  λ h. (best, inl refl, h),
  λ (n, m, h). elim m [ inl e ↦ ap (at_least bound) (sym e) ∙ h | inr nowhere ↦ elim nowhere [ ] ],
)
greatest_iff bound best (n ∷ sizes) = elim (Bool-cases (int_ltb best n)) [
  | inl larger ↦
      let rest = greatest_iff bound n sizes in
      rw (greatest, larger)
        (
          λ h. let (k, m, enough) = rest.0 h in (k, inr m, enough),
          λ (k, m, enough). rest.1 (elim m [
            | inl e ↦ (
              n,
              inl refl,
              at_least_larger bound best n larger (ap (at_least bound) (sym e) ∙ enough),
            )
            | inr later ↦ (k, later, enough)
          ]),
        )
  | inr kept ↦
      let rest = greatest_iff bound best sizes in
      rw (greatest, kept)
        (
          λ h.
              let (k, m, enough) = rest.0 h in
              (k, elim m [ inl e ↦ inl e | inr later ↦ inr (inr later) ], enough),
          λ (k, m, enough). rest.1 (elim m [
            | inl e ↦ (k, inl e, enough)
            | inr (inl e) ↦ (
              best,
              inl refl,
              at_least_smaller bound best n kept (ap (at_least bound) (sym e) ∙ enough),
            )
            | inr (inr later) ↦ (k, inr later, enough)
          ]),
        )
]
  where
    at_least_smaller :
        (bound : ℕ) (a b : ℤ)
        → int_ltb a b ≡ false
        → at_least bound b ≡ true
        → at_least bound a ≡ true
    at_least_smaller bound (pos a) (pos b) kept h = ground arith
    at_least_smaller bound (pos a) (negsuc b) kept h = cc
    at_least_smaller bound (negsuc a) (pos b) kept h = cc
    at_least_smaller bound (negsuc a) (negsuc b) kept h = cc

largest_iff :
    (bound : ℕ) (sizes : List ℤ)
    → 1 ≤ bound
    → (at_least bound (largest sizes) ≡ true)
      ↔ ((n : ℤ) × Member n sizes × (at_least bound n ≡ true))
largest_iff bound [] some_bound = (λ h. ground arith, λ (_, m, _). elim m [ ])
largest_iff bound (n ∷ sizes) some_bound = greatest_iff bound n sizes

-- The text says that an array of the level is active, tells of an array, and of as many working devices
-- as asked for in each, and one of the sizes is large enough.
pub record RaidHolds (requirement : RaidRequirement) (mdstat : String) (sizes : List ℤ)
    : Type 0 where
  pub before : String
  pub after : String
  pub active : mdstat ≡ before <> ("active " <> requirement.level <> after)
  pub arrays : List ℕ
  pub told : Arrays mdstat arrays
  pub some_array : arrays ≢ []
  pub enough_devices : All (λ up. requirement.minimum_active_devices ≤ up) arrays
  pub size : ℤ
  pub sized : Member size sizes
  pub enough_bytes : at_least requirement.minimum_usable_bytes size ≡ true

-- Where the evidence has a text of `mdstat` and the sizes of the block devices, nested ones included,
-- the checks of software RAID are made, and pass exactly if `active` and the level stand in the text, the
-- pattern of an array's health is found in it, the least number of working devices is reached at every
-- place where it is found, and some device of that level is large enough. The least numbers asked for
-- are positive.
pub audit_raid_iff :
    (requirement : RaidRequirement) (spec storage software : Fields) (mdstat : String)
    (sizes : List ℤ)
    → mapping spec "storage" ≡ ok storage
    → mapping storage "softwareRaid" ≡ ok software
    → string_at software "mdstat" ≡ ok mdstat
    → raid_sizes requirement.level (flatten (value_at storage "blockDevices")) ≡ ok sizes
    → 1 ≤ requirement.minimum_active_devices
    → 1 ≤ requirement.minimum_usable_bytes
    → (audit_raid requirement spec ≡ ok (raid_checks requirement mdstat sizes))
      × (All Passing (raid_checks requirement mdstat sizes) ↔ RaidHolds requirement mdstat sizes)
unfolding audit_raid raid_checks
audit_raid_iff requirement spec storage software mdstat sizes h1 h2 h3 h4 devices bytes =
    let active = worst_iff requirement.minimum_active_devices (array_health mdstat) devices in
    let large = largest_iff requirement.minimum_usable_bytes sizes bytes in
    let occurs = occurs_in_iff ("active " <> requirement.level) mdstat in
    (
      rw (audit_raid, h1, h2, h3, h4),
      (
        λ (level, (up, (size, _))).
            let (some_array, each) =
              active.0 (
                passed (leb requirement.minimum_active_devices (worst (array_health mdstat))) up) in
            let (before, after, e) = occurs.0 (passed (is_active mdstat requirement.level) level) in
            let (n, m, enough) =
              large.0 (passed (at_least requirement.minimum_usable_bytes (largest sizes)) size) in
            record {
              before = before;
              after = after;
              active = e ∙ ap (λ z. before <> z) (append_assoc "active " requirement.level after);
              arrays = array_health mdstat;
              told = array_health-Arrays mdstat;
              some_array = some_array;
              enough_devices = each;
              size = n;
              sized = m;
              enough_bytes = enough;
            },
        λ r.
            let same = Arrays-unique mdstat r.arrays r.told in
            let level = occurs.1 (
              r.before,
              r.after,
              r.active
                  ∙ ap (λ z. r.before <> z)
                      (sym (append_assoc "active " requirement.level r.after)),
            ) in
            let up = active.1 (
              (λ e. r.some_array (same ∙ e)),
              subst (All (λ up. requirement.minimum_active_devices ≤ up)) same r.enough_devices,
            ) in
            (
              passes (is_active mdstat requirement.level) level,
              (
                passes (leb requirement.minimum_active_devices (worst (array_health mdstat))) up,
                (
                  passes (at_least requirement.minimum_usable_bytes (largest sizes))
                      (large.1 (r.size, r.sized, r.enough_bytes)),
                  tt,
                ),
              ),
            ),
      ),
    )
