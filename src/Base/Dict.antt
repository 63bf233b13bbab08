-- ===== src/Base/Dict.antt =====
-- A directory of documents by name, as an association list.
pub mod Ordered
use mathlib.Core.Path.{◌≡◌, refl}
use mathlib.Core.Option.{Option, none, some}
use mathlib.Core.List.{List, [], ◌∷◌}
use native.Mathlib.Omega.{arith}
use cloudfall.Base.Equality.{Eq, ◌==◌, if◌then◌else◌}
use cloudfall.Base.Lists.{Member}

abbrev pub Dict {ℓ κ} : Type ℓ → Type κ → Type (ℓ ⊔ κ)
Dict K V = List (K × V)

abbrev pub values {ℓ κ} : {K : Type ℓ} {V : Type κ} → Dict K V → List V
values [] = []
values ((_, v) ∷ d) = v ∷ values d

module _ {ℓ κ} {K : Type ℓ} {V : Type κ} ⦃e : Eq K⦄ where
  unfoldable pub lookup : K → Dict K V → Option V
  lookup _ [] = none
  lookup k ((name, found) ∷ others) = if k == name then some found else lookup k others

  -- Writes the document of that name, over the one that was there.
  unfoldable pub put : K → V → Dict K V → Dict K V
  put k v [] = (k, v) ∷ []
  put k v ((name, old) ∷ others) =
      if k == name then (k, v) ∷ others else (name, old) ∷ put k v others

  pub lookup-cons :
      (j k : K) (v : V) (d : Dict K V)
      → lookup j ((k, v) ∷ d) ≡ (if j == k then some v else lookup j d)
  unfolding lookup
  lookup-cons j k v d = refl

  pub lookup-put :
      (j k : K) (v : V) (d : Dict K V)
      → lookup j (put k v d) ≡ (if j == k then some v else lookup j d)
  unfolding lookup put
  lookup-put j k v [] = refl
  lookup-put j k v ((i, w) ∷ d) = ground (arith, lookup-put j k v d)

  pub lookup-put_self : (k : K) (v : V) (d : Dict K V) → lookup k (put k v d) ≡ some v
  lookup-put_self k v d = ground (arith, lookup-put k k v d)

  pub Member-entry : (k : K) (v : V) (d : Dict K V) → lookup k d ≡ some v → Member (k, v) d
  unfolding lookup
  Member-entry k v [] h = cc
  Member-entry k v ((j, w) ∷ d) h = ground (arith, Member-entry k v d)

  pub Member-values : (k : K) (v : V) (d : Dict K V) → lookup k d ≡ some v → Member v (values d)
  unfolding lookup
  Member-values k v [] h = cc
  Member-values k v ((j, w) ∷ d) h = ground (arith, Member-values k v d)

pub lookup-nil {ℓ κ} : {K : Type ℓ} {V : Type κ} ⦃e : Eq K⦄ (k : K) → lookup {V = V} k [] ≡ none
unfolding lookup
lookup-nil k = refl
