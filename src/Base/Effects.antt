-- ===== src/Base/Effects.antt =====
-- Functions that read and write a state and may raise. What was written before an exception stays.
use mathlib.Core.Path.{◌≡◌, refl, ap}
use cloudfall.Base.Results.{Result, ok, err}

abbrev pub Effect : Type 0 → Type 0 → Type 0 → Type 0
Effect E S A = S → Result E A × S

module _ {E S : Type 0} where
  abbrev pub resume : {A B : Type 0} → (A → Effect E S B) → Result E A → S → Result E B × S
  resume next (ok a) s = next a s
  resume next (err e) s = (err e, s)

  infixl 5 ◌>>=◌
  abbrev pub ◌>>=◌ : {A B : Type 0} → Effect E S A → (A → Effect E S B) → Effect E S B
  ◌>>=◌ call next s = let (result, after) = call s in resume next result after

  infixl 5 ◌>>◌
  abbrev pub ◌>>◌ : {B : Type 0} → Effect E S (Unit {0}) → Effect E S B → Effect E S B
  call >> rest = call >>= λ _. rest

  abbrev pub pure : {A : Type 0} → A → Effect E S A
  pure a s = (ok a, s)

  abbrev pub lift : {A : Type 0} → Result E A → Effect E S A
  lift result s = (result, s)

  abbrev pub raise : {A : Type 0} → E → Effect E S A
  raise e s = (err e, s)

  -- To show `Q` of how a chain ends, show it where the first call raises, and where it returns.
  pub chain-post :
      {A B : Type 0} (Q : Result E B × S → Type 0) (call : Effect E S A) (next : A → Effect E S B)
      (s : S)
      → ((e : E) → (call s).0 ≡ err e → Q (err e, (call s).1))
      → ((a : A) → (call s).0 ≡ ok a → Q (next a (call s).1))
      → Q ((call >>= next) s)
  chain-post {A} Q call next s raised returned = go (call s).0 refl
    where
      go : (r : Result E A) → (call s).0 ≡ r → Q (resume next r (call s).1)
      go (ok a) e = returned a e
      go (err x) e = raised x e

  -- Two outcomes that return are equal in what they return and in the state that they leave.
  pub ok-pair-injective :
      {A : Type 0} {a b : A} {s t : S}
      → ◌≡◌ {A = Result E A × S} (ok a, s) (ok b, t)
      → (a ≡ b) × (s ≡ t)
  ok-pair-injective {A} {a} {b} h =
      let same : ◌≡◌ {A = Result E A} (ok a) (ok b) = ap (λ p. p.0) h in (cc, ap (λ p. p.1) h)
