-- ===== src/Base/Sorting.antt =====
-- `sorted(xs, key=...)` with a text for a key: stable, by code points.
use Prim.Native.Char.{code}
use Prim.Native.String.{String}
use mathlib.Core.Path.{◌≡◌, refl}
use mathlib.Core.Logic.{◌↔◌, inl, inr}
use mathlib.Core.Bool.{Bool, true, false}
use mathlib.Core.List.{List, [], ◌∷◌}
use native.Mathlib.Omega.{arith}
use cloudfall.Base.Equality.{if◌then◌else◌}
use cloudfall.Base.Tests.{ltb}
use cloudfall.Base.Lists.{Member}

-- Python's `s <= t` on texts.
unfoldable pub text_leb : String → String → Bool
text_leb String.[] t = true
text_leb (String.◌∷◌ c s) String.[] = false
text_leb (String.◌∷◌ c s) (String.◌∷◌ d t) =
    let rest = text_leb s t in
    if ltb (code c) (code d) then true else if ltb (code d) (code c) then false else rest

pub text_leb_refl : (s : String) → text_leb s s ≡ true
unfolding text_leb
text_leb_refl String.[] = refl
text_leb_refl (String.◌∷◌ c s) = ground (arith, text_leb_refl s)

module _ {ℓ} {A : Type ℓ} (key : A → String) where
  unfoldable pub insert_by : A → List A → List A
  insert_by x [] = x ∷ []
  insert_by x (y ∷ ys) =
      let later = y ∷ insert_by x ys in if text_leb (key x) (key y) then x ∷ y ∷ ys else later

  unfoldable pub sort_by : List A → List A
  unfolding insert_by text_leb
  sort_by [] = []
  sort_by (x ∷ xs) = insert_by x (sort_by xs)

  Member-insert_by_self : (x : A) (xs : List A) → Member x (insert_by x xs)
  unfolding insert_by
  Member-insert_by_self x [] = inl refl
  Member-insert_by_self x (y ∷ ys) = ground (arith, Member-insert_by_self x ys)

  Member-insert_by_other : (x a : A) (xs : List A) → Member a xs → Member a (insert_by x xs)
  unfolding insert_by
  Member-insert_by_other x a [] h = elim h [ ]
  Member-insert_by_other x a (y ∷ ys) h = ground (arith, Member-insert_by_other x a ys)

  -- Sorting loses nothing.
  pub Member-sort_by : (a : A) (xs : List A) → Member a xs → Member a (sort_by xs)
  unfolding sort_by
  Member-sort_by a [] h = elim h [ ]
  Member-sort_by a (x ∷ xs) (inl e) = rw e (Member-insert_by_self x (sort_by xs))
  Member-sort_by a (x ∷ xs) (inr h) =
      Member-insert_by_other x a (sort_by xs) (Member-sort_by a xs h)

-- `sorted(xs)` by an order of the values; `below a b` is Python's `a <= b`.
module _ {ℓ} {A : Type ℓ} (below : A → A → Bool) where
  unfoldable pub insert_below : A → List A → List A
  insert_below x [] = x ∷ []
  insert_below x (y ∷ ys) =
      let later = y ∷ insert_below x ys in if below x y then x ∷ y ∷ ys else later

  unfoldable pub sorted : List A → List A
  unfolding insert_below
  sorted [] = []
  sorted (x ∷ xs) = insert_below x (sorted xs)

  Member-insert_below : (a x : A) (xs : List A) → Member a (insert_below x xs) ↔ Member a (x ∷ xs)
  unfolding insert_below
  Member-insert_below a x [] = (λ m. m, λ m. m)
  Member-insert_below a x (y ∷ ys) = ground (arith, Member-insert_below a x ys)

  -- Sorting neither loses nor adds a value.
  pub Member-sorted : (a : A) (xs : List A) → Member a (sorted xs) ↔ Member a xs
  unfolding sorted
  Member-sorted a [] = (λ m. m, λ m. m)
  Member-sorted a (x ∷ xs) = (
    λ m. ground (arith, (Member-insert_below a x (sorted xs)).0 m, Member-sorted a xs),
    λ m. (Member-insert_below a x (sorted xs)).1 (ground (arith, Member-sorted a xs)),
  )
