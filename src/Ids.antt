-- ===== src/Ids.antt =====
-- `ResourceId` of sdk/src/cloudfall/domain.py: the identifiers of resources, operations and
-- records. A text that passes the check stands for the identifier.
pub mod Laws
use Prim.Native.Char.{code}
use Prim.Native.String.{count}
use cloudfall.Base.{ℕ, String, Bool, true, false, ◌&&◌, ◌||◌, leb, if◌then◌else◌}
use cloudfall.Base.Json.{Json, str}
use cloudfall.Base.Results.{Result, ok, err}

pub data IdError : Type 0 where
  not_a_string invalid_id too_long : IdError

abbrev pub max_id_length : ℕ
max_id_length = 63

abbrev pub is_lower : ℕ → Bool
is_lower c = leb 97 c && leb c 122

abbrev pub is_digit : ℕ → Bool
is_digit c = leb 48 c && leb c 57

-- `(?:-[a-z0-9]+)*$` behind a letter or digit; `joined` tells that a dash stands in front.
unfoldable pub id_tail : Bool → String → Bool
id_tail joined String.[] = if joined then false else true
id_tail joined (String.◌∷◌ c s) =
    let word = id_tail false s in
    let dash = id_tail true s in
    if is_lower (code c) || is_digit (code c)
    then word
    else if joined
    then false
    else if leb 45 (code c) && leb (code c) 45
    then dash
    else false

-- `^[a-z][a-z0-9]*(?:-[a-z0-9]+)*$`
unfoldable pub matches_id : String → Bool
unfolding id_tail
matches_id String.[] = false
matches_id (String.◌∷◌ c s) = is_lower (code c) && id_tail false s

-- `ResourceId(value)`
unfoldable pub resource_id : String → Result IdError String
unfolding matches_id
resource_id value =
    if matches_id value
    then if leb (count value) max_id_length then ok value else err too_long
    else err invalid_id

-- `ResourceId.from_boundary(value)`
unfoldable pub from_boundary : Json → Result IdError String
unfolding resource_id
from_boundary (str value) = resource_id value
from_boundary _ = err not_a_string
