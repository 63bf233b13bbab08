-- ===== src/Ids/Laws.antt =====
-- What an identifier may be.
use Prim.Native.String.{count}
use cloudfall.Base.{◌≤◌, ◌<◌, String, Bool, true, false, ◌≡◌, refl, arith}
use cloudfall.Base.Results.{ok, err}
use cloudfall.Ids.{IdError, resource_id, matches_id, max_id_length}

-- An accepted identifier is the text itself, of the right form and at most 63 characters long.
pub resource_id-eq-ok :
    (s : String) {id : String}
    → resource_id s ≡ ok id
    → (id ≡ s) × (matches_id s ≡ true) × (count s ≤ max_id_length)
unfolding resource_id
resource_id-eq-ok s h = ground arith

pub resource_id_of_long :
    (s : String) → max_id_length < count s → (e : IdError) × (resource_id s ≡ err e)
unfolding resource_id
resource_id_of_long s h = go (matches_id s) refl
  where
    go : (b : Bool) → matches_id s ≡ b → (e : IdError) × (resource_id s ≡ err e)
    go true e = (IdError.too_long, ground arith)
    go false e = (IdError.invalid_id, ground arith)
