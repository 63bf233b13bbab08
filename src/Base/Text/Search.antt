-- ===== src/Base/Text/Search.antt =====
-- One text in another: `startswith`, `in` and `endswith`.
use Prim.Native.Char.{code}
use Prim.Native.String.{String, ◌++◌}
use Prim.Native.String.append.{cons, nil}
use text.Mathlib.TextEquality.{Char-path}
use mathlib.Core.Path.{◌≡◌, refl, sym, ap, ◌∙◌}
use mathlib.Core.Logic.{◌↔◌, inl, inr}
use cloudfall.Base.Equality.{Bool-cases}
use mathlib.Core.Bool.{Bool, true, false}
use native.Mathlib.Omega.{arith}
use cloudfall.Base.Equality.{◌==◌, nat_eq, string_eq, if◌then◌else◌}

-- `s.startswith(part)`
unfoldable pub starts_with : String → String → Bool
starts_with String.[] s = true
starts_with (String.◌∷◌ d part) String.[] = false
starts_with (String.◌∷◌ d part) (String.◌∷◌ c s) =
    let rest = starts_with part s in if code d == code c then rest else false

-- `part in s`
unfoldable pub occurs_in : String → String → Bool
unfolding starts_with
occurs_in part String.[] = starts_with part String.[]
occurs_in part (String.◌∷◌ c s) =
    let later = occurs_in part s in if starts_with part (String.◌∷◌ c s) then true else later

-- `s.endswith(part)`
unfoldable pub ends_with : String → String → Bool
ends_with part String.[] = String.[] == part
ends_with part (String.◌∷◌ c s) =
    let later = ends_with part s in if String.◌∷◌ c s == part then true else later

-- What a text begins with, a beginning of it begins with.
starts_with_shorter : (p q s : String) → starts_with (p ++ q) s ≡ true → starts_with p s ≡ true
unfolding starts_with
starts_with_shorter String.[] q s h = refl
starts_with_shorter (String.◌∷◌ d p) q String.[] h =
    let k : starts_with (String.◌∷◌ d (p ++ q)) String.[] ≡ true = rw (cons d p q) at h in cc
starts_with_shorter (String.◌∷◌ d p) q (String.◌∷◌ c s) h =
    let k : starts_with (String.◌∷◌ d (p ++ q)) (String.◌∷◌ c s) ≡ true = rw (cons d p q) at h in
    ground (arith, starts_with_shorter p q s)

-- A text that contains another contains each beginning of it.
pub occurs_in_shorter : (p q s : String) → occurs_in (p ++ q) s ≡ true → occurs_in p s ≡ true
unfolding occurs_in
occurs_in_shorter p q String.[] h = starts_with_shorter p q String.[] h
occurs_in_shorter p q (String.◌∷◌ c s) h =
    ground (arith, starts_with_shorter p q (String.◌∷◌ c s), occurs_in_shorter p q s)

starts_with_iff :
    (part s : String) → (starts_with part s ≡ true) ↔ ((after : String) × (s ≡ part ++ after))
unfolding starts_with
starts_with_iff String.[] s = (λ _. (s, sym (nil s)), λ _. refl)
starts_with_iff (String.◌∷◌ d part) String.[] = (
  λ h. cc,
  λ (after, e). let k : String.[] ≡ String.◌∷◌ d (part ++ after) = e ∙ cons d part after in cc,
)
starts_with_iff (String.◌∷◌ d part) (String.◌∷◌ c s) = elim (Bool-cases (code d == code c)) [
  | inl t ↦
      let rest = starts_with_iff part s in
      let same : d ≡ c = Char-path d c (ground arith) in
      rw (starts_with, t)
        (
          λ h.
              let (after, e) = rest.0 h in
              (after, (λ i. String.◌∷◌ (sym same i) (e i)) ∙ sym (cons d part after)),
          λ (after, e).
              let k : String.◌∷◌ c s ≡ String.◌∷◌ d (part ++ after) = e ∙ cons d part after in
              rest.1 (after, cc),
        )
  | inr f ↦
      rw (starts_with, f)
        (
          λ h. cc,
          λ (after, e).
              let k : String.◌∷◌ c s ≡ String.◌∷◌ d (part ++ after) = e ∙ cons d part after in
              let same : c ≡ d = cc in
              let t : (code d == code c) ≡ true = ground (arith, ap code same) in cc,
        )
]

-- A text occurs in another exactly if that is it with a text before and one after.
pub occurs_in_iff :
    (part s : String)
    → (occurs_in part s ≡ true)
      ↔ ((before : String) × (after : String) × (s ≡ before ++ (part ++ after)))
unfolding occurs_in
occurs_in_iff part String.[] =
    let here = starts_with_iff part String.[] in
    (
      λ h. let (after, e) = here.0 h in (String.[], after, e ∙ sym (nil (part ++ after))),
      λ (before, after, e). back before after e,
    )
  where
    back :
        (before after : String)
        → String.[] ≡ before ++ (part ++ after)
        → starts_with part String.[] ≡ true
    back String.[] after e = (starts_with_iff part String.[]).1 (after, e ∙ nil (part ++ after))
    back (String.◌∷◌ d before) after e =
        let k : String.[] ≡ String.◌∷◌ d (before ++ (part ++ after)) =
          e ∙ cons d before (part ++ after) in
        cc
occurs_in_iff part (String.◌∷◌ c s) = elim (Bool-cases (starts_with part (String.◌∷◌ c s))) [
  | inl t ↦
      rw (occurs_in, t)
        (
          λ _.
              let (after, e) = (starts_with_iff part (String.◌∷◌ c s)).0 t in
              (String.[], after, e ∙ sym (nil (part ++ after))),
          λ _. refl,
        )
  | inr f ↦
      let rest = occurs_in_iff part s in
      rw (occurs_in, f)
        (
          λ h.
              let (before, after, e) = rest.0 h in
              (
                String.◌∷◌ c before,
                after,
                ap (String.◌∷◌ c) e ∙ sym (cons c before (part ++ after)),
              ),
          λ (before, after, e). later rest.1 before after e f,
        )
]
  where
    later :
        ((before : String) × (after : String) × (s ≡ before ++ (part ++ after))
          → occurs_in part s ≡ true)
        → (before after : String) → String.◌∷◌ c s ≡ before ++ (part ++ after)
        → starts_with part (String.◌∷◌ c s) ≡ false
        → occurs_in part s ≡ true
    later found String.[] after e f =
        let t = (starts_with_iff part (String.◌∷◌ c s)).1 (after, e ∙ nil (part ++ after)) in cc
    later found (String.◌∷◌ d before) after e f =
        let k : String.◌∷◌ c s ≡ String.◌∷◌ d (before ++ (part ++ after)) =
          e ∙ cons d before (part ++ after) in
        found (before, after, cc)
