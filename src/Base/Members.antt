-- ===== src/Base/Members.antt =====
-- Membership in a list that is mapped, selected from or tested, and tests of all items.
use mathlib.Core.Path.{◌≡◌, refl, sym, ap, ◌∙◌}
use mathlib.Core.Logic.{◌↔◌, inl, inr}
use mathlib.Core.Bool.{Bool, true, false}
use mathlib.Core.List.{List, [], ◌∷◌, ◌++◌, map}
use cloudfall.Base.Equality.{Bool-cases}
use cloudfall.Base.Lists.{Member, any, select}
use cloudfall.Base.Bytes.{All}

pub Member-map_iff {ℓ κ} :
    {A : Type ℓ} {B : Type κ} (f : A → B) (b : B) (items : List A)
    → Member b (map f items) ↔ ((a : A) × Member a items × (b ≡ f a))
Member-map_iff f b [] = (λ m. elim m [ ], λ (_, m, _). elim m [ ])
Member-map_iff f b (x ∷ items) = (
  λ m. elim m [
    | inl e ↦ (x, inl refl, e)
    | inr later ↦ let (a, m', e) = (Member-map_iff f b items).0 later in (a, inr m', e)
  ],
  λ (a, m, e). elim m [
    | inl same ↦ inl (e ∙ ap f same)
    | inr later ↦ inr ((Member-map_iff f b items).1 (a, later, e))
  ],
)

pub any_iff {ℓ} :
    {A : Type ℓ} (test : A → Bool) (items : List A)
    → (any test items ≡ true) ↔ ((a : A) × Member a items × (test a ≡ true))
any_iff test [] = (λ h. cc, λ (_, m, _). elim m [ ])
any_iff test (x ∷ items) =
    let rest = any_iff test items in
    elim (Bool-cases (test x)) [
      | inl holds ↦ rw holds (λ _. (x, inl refl, holds), λ _. refl)
      | inr fails ↦ rw fails (
        λ h. let (a, m, t) = rest.0 h in (a, inr m, t),
        λ (a, m, t). elim m [
          | inl e ↦ absurd (differ (test x) (ap test (sym e) ∙ t) fails)
          | inr later ↦ rest.1 (a, later, t)
        ],
      )
    ]
  where
    differ : (b : Bool) → b ≡ true → b ≡ false → ⊥
    differ b t f = cc

pub Member-select_iff {ℓ} :
    {A : Type ℓ} (test : A → Bool) (a : A) (items : List A)
    → Member a (select test items) ↔ (Member a items × (test a ≡ true))
Member-select_iff test a [] = (λ m. elim m [ ], λ (m, _). elim m [ ])
Member-select_iff test a (x ∷ items) =
    let rest = Member-select_iff test a items in
    elim (Bool-cases (test x)) [
      | inl holds ↦ rw holds (
        λ m. elim m [
          | inl e ↦ (inl e, ap test e ∙ holds)
          | inr later ↦ let (m', t) = rest.0 later in (inr m', t)
        ],
        λ (m, t). elim m [ inl e ↦ inl e | inr later ↦ inr (rest.1 (later, t)) ],
      )
      | inr fails ↦ rw fails (
        λ m. let (m', t) = rest.0 m in (inr m', t),
        λ (m, t). elim m [
          | inl e ↦ absurd (differ (test x) (ap test (sym e) ∙ t) fails)
          | inr later ↦ rest.1 (later, t)
        ],
      )
    ]
  where
    differ : (b : Bool) → b ≡ true → b ≡ false → ⊥
    differ b t f = cc

pub All-append_iff {ℓ κ} :
    {A : Type ℓ} (P : A → Type κ) (xs ys : List A) → All P (xs ++ ys) ↔ (All P xs × All P ys)
All-append_iff P [] ys = (λ h. (tt, h), λ (_, h). h)
All-append_iff P (x ∷ xs) ys =
    let rest = All-append_iff P xs ys in
    (λ (h, t). let (a, b) = rest.0 t in ((h, a), b), λ ((h, a), b). (h, rest.1 (a, b)))

pub All-map_iff {ℓ κ μ ν} :
    {A : Type ℓ} {B : Type κ} (P : B → Type μ) (Q : A → Type ν) (f : A → B)
    → ((a : A) → P (f a) ↔ Q a)
    → (items : List A) → All P (map f items) ↔ All Q items
All-map_iff P Q f each [] = (λ _. tt, λ _. tt)
All-map_iff P Q f each (x ∷ items) =
    let rest = All-map_iff P Q f each items in
    (λ (h, t). ((each x).0 h, rest.0 t), λ (h, t). ((each x).1 h, rest.1 t))
