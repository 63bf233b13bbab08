-- ===== src/Operator/Autonomy/License.antt =====
-- What licenses an autonomous execution, told apart from the code: the receipts that count are related
-- to the ones of the store item by item, and the window is spelled out.
use cloudfall.Base.{
  ℕ, ◌+◌, ◌≤◌, ◌<◌, String, Bool, true, false, none, some, List, [], ◌∷◌, ◌++◌, length, select,
  first, last, ◌&&◌, ◌||◌, ◌==◌, string_eq, not, Bool-cases, Option-cases,
}
use cloudfall.Base.{◌≡◌, ◌≢◌, ◌↔◌, ◌⊎◌, inl, inr, refl, sym, ◌∙◌, ap, arith}
use mathlib.Core.Option.{some-injective}
use cloudfall.Base.Bytes.{All}
use cloudfall.Base.Members.{All-append_iff}
use cloudfall.Base.Results.{ok}
use cloudfall.Operator.Records.{
  verified, failed, OperationKind, converge_services, converge_baseline, kind_value, ApprovalRecord,
  ProposalOutcome, OperatorProposal,
}
use cloudfall.Operator.World.{Site, World}
use cloudfall.Operator.Store.{list_all}
use cloudfall.Operator.Autonomy.{
  AutonomyGrant, QuietHours, OperatorPolicy, Instant, covers_minute, grant_for, same_kind,
  is_verified, is_failed, last_failed, in_quiet_hours, is_recent,
}

-- The items of a list that have a property, all of them and in their order.
pub data Sifted {A : Type 0} (P : A → Type 0) : List A → List A → Type 0 where
  nothing : Sifted P [] []
  counted : {x : A} {xs ys : List A} → P x → Sifted P xs ys → Sifted P (x ∷ xs) (x ∷ ys)
  passed_over : {x : A} {xs ys : List A} → ¬ P x → Sifted P xs ys → Sifted P (x ∷ xs) ys

differ : (b : Bool) → b ≡ true → b ≡ false → ⊥
differ b t f = cc

module _ {A : Type 0} (P : A → Type 0) (test : A → Bool)
    (means : (x : A) → (test x ≡ true) ↔ P x) where
  pub select-Sifted : (xs : List A) → Sifted P xs (select test xs)
  select-Sifted [] = nothing
  select-Sifted (x ∷ xs) = elim (Bool-cases (test x)) [
    | inl holds ↦ rw holds (counted ((means x).0 holds) (select-Sifted xs))
    | inr fails ↦
        rw fails (passed_over (λ p. differ (test x) ((means x).1 p) fails) (select-Sifted xs))
  ]

  -- There is one list of the items that have the property.
  pub Sifted-unique : (xs ys : List A) → Sifted P xs ys → ys ≡ select test xs
  Sifted-unique [] _ nothing = refl
  Sifted-unique (x ∷ xs) _ (counted p s) =
      let t : test x ≡ true = (means x).1 p in rw t (ap (λ z. x ∷ z) (Sifted-unique xs _ s))
  Sifted-unique (x ∷ xs) ys (passed_over n s) = elim (Bool-cases (test x)) [
    | inl holds ↦ absurd (n ((means x).0 holds))
    | inr fails ↦ rw fails (Sifted-unique xs ys s)
  ]

-- A receipt that counts as history of a proposal: another one of its kind, which has ended.
abbrev pub IsPast : OperatorProposal → OperatorProposal → Type 0
IsPast p r =
    (r.operation_kind ≡ p.operation_kind)
    × (r.resource_id ≢ p.resource_id)
    × ((r.status ≡ verified) ⊎ (r.status ≡ failed))

-- The first grant of that kind.
abbrev pub IsGrantOf : OperatorPolicy → String → AutonomyGrant → Type 0
IsGrantOf policy kind grant =
    (before : List AutonomyGrant) × (after : List AutonomyGrant) × (policy.grants
      ≡ before ++ (grant ∷ after))
    × All (λ g. g.operation_kind ≢ kind) before
    × (grant.operation_kind ≡ kind)

-- There is no receipt, or the last one is verified.
abbrev pub EndsWell : List OperatorProposal → Type 0
EndsWell past =
    (past ≡ [])
    ⊎ ((before : List OperatorProposal) × (r : OperatorProposal) × (past ≡ before ++ (r ∷ []))
        × (r.status ≡ verified))

-- The window from `start` to `end`, without `end`, over midnight if `end` comes first.
abbrev pub IsWithin : QuietHours → ℕ → Type 0
IsWithin h minute =
    ((h.start ≤ minute) × (minute < h.end))
    ⊎ ((h.end < h.start) × ((h.start ≤ minute) ⊎ (minute < h.end)))

abbrev pub IsAwake : OperatorPolicy → ℕ → Type 0
IsAwake policy minute =
    (policy.quiet_hours ≡ none)
    ⊎ ((h : QuietHours) × (policy.quiet_hours ≡ some h) × (¬ IsWithin h minute))

-- A receipt of an autonomous execution in the hour before.
abbrev pub IsRecent : Site → Instant → OperatorProposal → Type 0
IsRecent site now r =
    (a : ApprovalRecord) × (o : ProposalOutcome) × (r.approval ≡ some a)
    × (r.outcome ≡ some o)
    × (a.mode ≡ "autonomous")
    × (now.seconds < site.timestamp o.executed_at + 3600)

-- What licenses an autonomous execution of `p` under a policy.
pub record Licensed (site : Site) (now : Instant) (p : OperatorProposal) (policy : OperatorPolicy)
    (w : World) : Type 0 where
  pub grant : AutonomyGrant
  pub all : List OperatorProposal
  pub past : List OperatorProposal
  pub successes : List OperatorProposal
  pub recent : List OperatorProposal
  pub granted : IsGrantOf policy (kind_value p.operation_kind) grant
  pub listed : list_all site w ≡ ok all
  pub history : Sifted (IsPast p) all past
  pub runs : Sifted (λ r. r.status ≡ verified) past successes
  pub rate : Sifted (IsRecent site now) all recent
  pub earned : grant.required_verified_runs ≤ length successes
  pub trusted : EndsWell past
  pub awake : IsAwake policy now.minute
  pub below_limit : length recent < policy.max_autonomous_per_hour

covers_minute_iff :
    (h : QuietHours) (minute : ℕ) → (covers_minute h minute ≡ true) ↔ IsWithin h minute
unfolding covers_minute
covers_minute_iff h minute = (λ e. ground arith, λ e. ground arith)

pub in_quiet_hours_iff :
    (policy : OperatorPolicy) (minute : ℕ)
    → (in_quiet_hours policy minute ≡ false) ↔ IsAwake policy minute
in_quiet_hours_iff policy minute = elim (Option-cases policy.quiet_hours) [
  | inl gone ↦ (λ _. inl gone, λ _. rw gone refl)
  | inr (h, is_h) ↦ (
    λ e. inr (
      h,
      is_h,
      λ w.
          let t = (covers_minute_iff h minute).1 w in
          let f : covers_minute h minute ≡ false = rw is_h at e in differ _ t f,
    ),
    λ a. elim a [
      | inl gone ↦ cc
      | inr (k, same, n) ↦ rw same (elim (Bool-cases (covers_minute k minute)) [
        | inl t ↦ absurd (n ((covers_minute_iff k minute).0 t))
        | inr f ↦ f
      ])
    ],
  )
]

pub is_verified_iff : (r : OperatorProposal) → (is_verified r.status ≡ true) ↔ (r.status ≡ verified)
is_verified_iff r = (λ h. ground arith, λ h. rw h refl)

same_kind_iff : (k j : OperationKind) → (same_kind k j ≡ true) ↔ (k ≡ j)
same_kind_iff converge_services converge_services = (λ _. refl, λ _. refl)
same_kind_iff converge_services converge_baseline = (λ h. cc, λ h. cc)
same_kind_iff converge_baseline converge_services = (λ h. cc, λ h. cc)
same_kind_iff converge_baseline converge_baseline = (λ _. refl, λ _. refl)

abbrev pub counts_as_past : OperatorProposal → OperatorProposal → Bool
counts_as_past p r =
    same_kind r.operation_kind p.operation_kind
    && not (r.resource_id == p.resource_id)
    && (is_verified r.status || is_failed r.status)

pub counts_as_past_iff : (p r : OperatorProposal) → (counts_as_past p r ≡ true) ↔ IsPast p r
counts_as_past_iff p r = (
  λ h. (
    (same_kind_iff r.operation_kind p.operation_kind).0 (ground arith),
    ground arith,
    ground arith,
  ),
  λ (k, n, s). let t = (same_kind_iff r.operation_kind p.operation_kind).1 k in ground arith,
)

pub is_recent_iff :
    (site : Site) (now : Instant) (r : OperatorProposal)
    → (is_recent site now r ≡ true) ↔ IsRecent site now r
is_recent_iff site now r = elim (Option-cases r.approval) [
  | inl gone ↦ (λ h. let k = rw gone at h in cc, λ (a, o, e, _, _, _). cc)
  | inr (a, is_a) ↦ elim (Option-cases r.outcome) [
    | inl gone ↦ (λ h. ground arith, λ (_, o, _, e, _, _). cc)
    | inr (o, is_o) ↦ (
      λ h. (a, o, is_a, is_o, ground arith, ground arith),
      λ (b, q, is_b, is_q, mode, time). rw (is_b, is_q) (ground arith),
    )
  ]
]

found :
    (kind : String) (grant : AutonomyGrant) (before after : List AutonomyGrant)
    → All (λ g. g.operation_kind ≢ kind) before
    → grant.operation_kind ≡ kind
    → first (λ g. g.operation_kind == kind) (before ++ (grant ∷ after)) ≡ some grant
found kind grant [] after n k = ground arith
found kind grant (b ∷ before) after (n, rest) k =
    ground (arith, found kind grant before after rest k)

pub grant_for_iff :
    (policy : OperatorPolicy) (kind : String) (grant : AutonomyGrant)
    → (grant_for policy kind ≡ some grant) ↔ IsGrantOf policy kind grant
unfolding grant_for
grant_for_iff policy kind grant = go policy.grants
  where
    go :
        (grants : List AutonomyGrant)
        → (first (λ g. g.operation_kind == kind) grants ≡ some grant) ↔ (
            (before : List AutonomyGrant) × (after : List AutonomyGrant) × (grants
              ≡ before ++ (grant ∷ after))
            × All (λ g. g.operation_kind ≢ kind) before
            × (grant.operation_kind ≡ kind))
    go [] = (λ h. cc, λ (before, after, e, _, _). absurd (not_nil before after e))
      where
        not_nil : (before after : List AutonomyGrant) → [] ≢ before ++ (grant ∷ after)
        not_nil [] after e = cc
        not_nil (b ∷ before) after e = cc
    go (g ∷ grants) = (
      λ h. elim (Bool-cases (g.operation_kind == kind)) [
        | inl t ↦
            let k : some g ≡ some grant = rw t at h in
            let same : g ≡ grant = some-injective _ _ k in
            let is_kind : g.operation_kind ≡ kind = ground arith in
            (
              [],
              grants,
              ap (λ z. z ∷ grants) same,
              tt,
              ap (λ z. z.operation_kind) (sym same) ∙ is_kind,
            )
        | inr f ↦
            let (before, after, e, none_before, is_kind) = (go grants).0 (rw f at h) in
            let other : g.operation_kind ≢ kind = ground arith in
            (g ∷ before, after, ap (λ z. g ∷ z) e, (other, none_before), is_kind)
      ],
      λ (before, after, e, none_before, is_kind). back before after e none_before is_kind,
    )
      where
        back :
            (before after : List AutonomyGrant)
            → g ∷ grants ≡ before ++ (grant ∷ after)
            → All (λ g. g.operation_kind ≢ kind) before
            → grant.operation_kind ≡ kind
            → first (λ g. g.operation_kind == kind) (g ∷ grants) ≡ some grant
        back before after e n k =
            ap (first (λ g. g.operation_kind == kind)) e ∙ found kind grant before after n k

last-append : {A : Type 0} (xs : List A) (x : A) → last (xs ++ (x ∷ [])) ≡ some x
last-append [] x = refl
last-append (y ∷ []) x = refl
last-append (y ∷ z ∷ xs) x = last-append (z ∷ xs) x

last_failed_of :
    (past : List OperatorProposal) (r : OperatorProposal)
    → last past ≡ some r
    → last_failed past ≡ is_failed r.status
last_failed_of past r e = ap (λ o. elim o [ none ↦ false | some r ↦ is_failed r.status ]) e

-- A list is empty or ends with an item.
ends :
    {A : Type 0} (xs : List A)
    → (xs ≡ []) ⊎ ((before : List A) × (x : A) × (xs ≡ before ++ (x ∷ [])))
ends [] = inl refl
ends (y ∷ xs) = elim (ends xs) [
  | inl nil_tail ↦ inr ([], y, ap (λ z. y ∷ z) nil_tail)
  | inr (before, x, e) ↦ inr (y ∷ before, x, ap (λ z. y ∷ z) e)
]

Sifted-All : {A : Type 0} {P : A → Type 0} (xs ys : List A) → Sifted P xs ys → All P ys
Sifted-All [] _ nothing = tt
Sifted-All (x ∷ xs) _ (counted p s) = (p, Sifted-All xs _ s)
Sifted-All (x ∷ xs) ys (passed_over n s) = Sifted-All xs ys s

pub last_failed_iff :
    (p : OperatorProposal) (all past : List OperatorProposal)
    → Sifted (IsPast p) all past
    → (last_failed past ≡ false) ↔ EndsWell past
last_failed_iff p all past s = (forward, backward)
  where
    forward : last_failed past ≡ false → EndsWell past
    forward h = elim (ends past) [
      | inl nothing_past ↦ inl nothing_past
      | inr (before, r, e) ↦
          let all_past = rw e at (Sifted-All all past s) in
          let (_, _, ended) = ((All-append_iff (IsPast p) before (r ∷ [])).0 all_past).1.0 in
          let f : is_failed r.status ≡ false =
            sym (last_failed_of past r (ap last e ∙ last-append before r)) ∙ h in
          inr (before, r, e, ground arith)
    ]

    backward : EndsWell past → last_failed past ≡ false
    backward (inl e) = rw e refl
    backward (inr (before, r, e, v)) =
        last_failed_of past r (ap last e ∙ last-append before r) ∙ ap is_failed v
