-- ===== src/Cutover/Probe/Laws.antt =====
-- What the measurement of TTLs and the walk to the authoritative server promise.
use cloudfall.Base.{
  ℕ, ◌≤◌, false, List, [], ◌∷◌, ◌++◌, contains, leb, ltb, if◌then◌else◌, ◌≡◌, ◌≢◌, ◌↔◌, refl, ap,
  ◌∙◌, inl, inr, Bool-cases, arith, Member,
}
use cloudfall.Base.Bytes.{All}
use cloudfall.Base.Results.{ok, err, ◌>>=◌, >>=-eq-ok}
use cloudfall.Cutover.Names.{DnsError, Dns}
use cloudfall.Cutover.Message.{DnsAnswer}
use cloudfall.Cutover.Probe.{
  Name, answer_eq, distinct, is_cutover, max_ttl, TtlEntry, measured, Offence, measure, check_ttl,
}

pub max_ttl-le_iff :
    (best bound : ℕ) (answers : List DnsAnswer)
    → (max_ttl best answers ≤ bound) ↔ ((best ≤ bound) × All (λ a. a.ttl ≤ bound) answers)
unfolding max_ttl
max_ttl-le_iff best bound [] = (λ h. (h, tt), λ h. h.0)
max_ttl-le_iff best bound (a ∷ rest) = (
  λ h. ground (arith, (max_ttl-le_iff (if leb best a.ttl then a.ttl else best) bound rest).0 h),
  λ h. (max_ttl-le_iff (if leb best a.ttl then a.ttl else best) bound rest).1 (ground arith),
)

-- The name server has answered for a domain, and no answer lives longer than the bound.
abbrev pub Settled : (Name → Dns (List DnsAnswer)) → ℕ → Name → Type 0
Settled probe bound name =
    (answers : List DnsAnswer) × (probe name ≡ ok answers)
    × (answers ≢ [])
    × All (λ a. a.ttl ≤ bound) answers

module _ (probe : Name → Dns (List DnsAnswer)) (bound : ℕ) where
  measure-clear :
      (name : Name) (entry : TtlEntry)
      → measure probe bound name ≡ ok (entry, [])
      → Settled probe bound name
  unfolding measure
  measure-clear name entry h = go (probe name) refl
    where
      go : (r : Dns (List DnsAnswer)) → probe name ≡ r → Settled probe bound name
      go (err e) p = absurd (ground arith)
      go (ok []) p = absurd (ground arith)
      go (ok (a ∷ rest)) p =
          (a ∷ rest, p, (λ q. cc), (max_ttl-le_iff a.ttl bound rest).0 (ground arith))

  measure_of_Settled :
      (name : Name)
      → Settled probe bound name
      → (entry : TtlEntry) × (measure probe bound name ≡ ok (entry, []))
  unfolding measure
  measure_of_Settled name ([], p, n, low) = absurd (n refl)
  measure_of_Settled name (a ∷ rest, p, n, low) =
      let short : ltb bound (max_ttl a.ttl rest) ≡ false =
        ground (arith, (max_ttl-le_iff a.ttl bound rest).1 low) in
      (measured name (a ∷ rest) (max_ttl a.ttl rest), rw (measure, p, short))

  clear_parts :
      (name : Name) (names : List Name) (entries : List TtlEntry)
      → check_ttl probe bound (name ∷ names) ≡ ok (entries, [])
      → ((entry : TtlEntry) × (measure probe bound name ≡ ok (entry, [])))
        × ((later : List TtlEntry) × (check_ttl probe bound names ≡ ok (later, [])))
  unfolding check_ttl
  clear_parts name names entries h =
      let ((entry, offence), p, q) =
        >>=-eq-ok (measure probe bound name)
          (λ (entry, offence). check_ttl probe bound names >>= λ (later, offences).
            ok (entry ∷ later, offence ++ offences))
          h in
      let ((later, offences), r, t) =
        >>=-eq-ok (check_ttl probe bound names)
          (λ (later, offences). ok (entry ∷ later, offence ++ offences)) q in
      let none_left : offence ++ offences ≡ [] = cc in
      let (a, b) = both_empty offence offences none_left in
      ((entry, p ∙ ap (λ o. ok (entry, o)) a), (later, r ∙ ap (λ o. ok (later, o)) b))
    where
      both_empty : (xs ys : List Offence) → xs ++ ys ≡ [] → (xs ≡ []) × (ys ≡ [])
      both_empty [] ys e = (refl, e)
      both_empty (x ∷ xs) ys e = cc

  -- The measurement reports no offender exactly if, for every domain, the name server has answered and
  -- no answer lives longer than the bound: a probe that fails is never passed over.
  pub check_ttl_passes_iff :
      (names : List Name)
      → ((entries : List TtlEntry) × (check_ttl probe bound names ≡ ok (entries, [])))
        ↔ All (Settled probe bound) names
  unfolding check_ttl
  check_ttl_passes_iff [] = (λ _. tt, λ _. ([], refl))
  check_ttl_passes_iff (name ∷ names) = (
    λ (entries, h).
        let ((entry, p), (later, q)) = clear_parts name names entries h in
        (measure-clear name entry p, (check_ttl_passes_iff names).0 (later, q)),
    λ (settled, others).
        let (entry, p) = measure_of_Settled name settled in
        let (later, q) = (check_ttl_passes_iff names).1 others in
        (entry ∷ later, rw (check_ttl, p, q)),
  )

  -- An exception of a probe that is no `CutoverError` is not caught: the measurement of all the
  -- domains ends with it, whatever the domains before it have shown.
  pub check_ttl_of_other :
      (before after : List Name) (name : Name) (entries : List TtlEntry) (offences : List Offence)
      (e : DnsError)
      → check_ttl probe bound before ≡ ok (entries, offences)
      → probe name ≡ err e
      → is_cutover e ≡ false
      → check_ttl probe bound (before ++ (name ∷ after)) ≡ err e
  unfolding check_ttl measure
  check_ttl_of_other [] after name entries offences e h p other = rw (check_ttl, measure, p, other)
  check_ttl_of_other (first ∷ before) after name entries offences e h p other =
      let ((entry, offence), q, r) =
        >>=-eq-ok (measure probe bound first)
          (λ (entry, offence). check_ttl probe bound before >>= λ (later, offences).
            ok (entry ∷ later, offence ++ offences))
          h in
      let ((later, behind), t, u) =
        >>=-eq-ok (check_ttl probe bound before)
          (λ (later, offences). ok (entry ∷ later, offence ++ offences)) r in
      rw (check_ttl, q, check_ttl_of_other before after name later behind e t p other)

-- The answers that are kept are answers given, no two of them equal, and none equal to one seen.
pub Member-distinct :
    (seen answers : List DnsAnswer) (a : DnsAnswer)
    → Member a (distinct seen answers)
    → Member a answers × (contains seen a ≡ false)
unfolding distinct
Member-distinct seen [] a m = elim m [ ]
Member-distinct seen (b ∷ rest) a m = elim (Bool-cases (contains seen b)) [
  | inl old ↦
      let (m', fresh) = Member-distinct seen rest a (rw (distinct, old) at m) in (inr m', fresh)
  | inr new ↦ elim (rw (distinct, new) at m) [
    | inl e ↦ (inl e, ap (contains seen) e ∙ new)
    | inr later ↦
        let (m', fresh) = Member-distinct (b ∷ seen) rest a later in (inr m', ground arith)
  ]
]
