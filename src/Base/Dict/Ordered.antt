-- ===== src/Base/Dict/Ordered.antt =====
-- A dictionary with one entry for a key, and its entries in the order of the keys.
use mathlib.Core.Path.{◌≡◌, ◌∙◌}
use mathlib.Core.Option.{none}
use mathlib.Core.List.{[], ◌∷◌}
use Prim.Native.String.{String}
use native.Mathlib.Omega.{arith}
use cloudfall.Base.Equality.{string_eq}
use cloudfall.Base.Dict.{Dict, lookup, put, lookup-put, lookup-nil}
use cloudfall.Base.Sorting.{sort_by, insert_by, text_leb_refl}

module _ {ℓ} {V : Type ℓ} where
  abbrev pub NodupKeys : Dict String V → Type ℓ
  NodupKeys [] = Unit
  NodupKeys ((k, _) ∷ d) = (lookup k d ≡ none) × NodupKeys d

  pub put-NodupKeys : (k : String) (v : V) (d : Dict String V) → NodupKeys d → NodupKeys (put k v d)
  unfolding put lookup
  put-NodupKeys k v [] _ = (lookup-nil k, tt)
  put-NodupKeys k v ((j, w) ∷ d) (fresh, u) =
      ground (arith, put-NodupKeys k v d u, lookup-put j k v d)

  abbrev pub by_name : Dict String V → Dict String V
  by_name = sort_by (λ item. item.0)

  lookup-insert_by :
      (j k : String) (v : V) (d : Dict String V)
      → lookup j (insert_by (λ item. item.0) (k, v) d) ≡ lookup j ((k, v) ∷ d)
  unfolding insert_by lookup
  lookup-insert_by j k v [] = ground arith
  lookup-insert_by j k v ((i, w) ∷ d) = ground (arith, lookup-insert_by j k v d, text_leb_refl k)

  -- The order of the entries does not change what a key holds.
  pub lookup-by_name : (j : String) (d : Dict String V) → lookup j (by_name d) ≡ lookup j d
  unfolding sort_by lookup
  lookup-by_name j [] = ground arith
  lookup-by_name j ((k, v) ∷ d) =
      lookup-insert_by j k v (by_name d) ∙ ground (arith, lookup-by_name j d)

  insert_by-NodupKeys :
      (k : String) (v : V) (d : Dict String V)
      → lookup k d ≡ none
      → NodupKeys d
      → NodupKeys (insert_by (λ item. item.0) (k, v) d)
  unfolding insert_by lookup
  insert_by-NodupKeys k v [] fresh u = (lookup-nil k, tt)
  insert_by-NodupKeys k v ((j, w) ∷ d) fresh (new, u) =
      ground (arith, insert_by-NodupKeys k v d, lookup-insert_by j k v d)

  pub by_name-NodupKeys : (d : Dict String V) → NodupKeys d → NodupKeys (by_name d)
  unfolding sort_by
  by_name-NodupKeys [] u = u
  by_name-NodupKeys ((k, v) ∷ d) (fresh, u) =
      insert_by-NodupKeys k v (by_name d) (lookup-by_name k d ∙ fresh) (by_name-NodupKeys d u)
