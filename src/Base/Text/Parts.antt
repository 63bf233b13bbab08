-- ===== src/Base/Text/Parts.antt =====
-- What Python does with a text of several parts, as a list of characters or of code points: `splitlines`
-- and `split`.
use Prim.Native.Nat.{ℕ}
use Prim.Native.Char.{Char}
use Prim.Native.String.{String}
use mathlib.Core.Bool.{Bool, false, ◌&&◌, ◌||◌}
use mathlib.Core.List.{List, [], ◌∷◌, ◌++◌}
use cloudfall.Base.Equality.{◌==◌, nat_eq, if◌then◌else◌}
use cloudfall.Base.Tests.{leb}
use cloudfall.Base.Text.{is_space}

abbrev pub chars : String → List Char
chars String.[] = []
chars (String.◌∷◌ c s) = c ∷ chars s

abbrev pub text : List Char → String
text [] = String.[]
text (c ∷ s) = String.◌∷◌ c (text s)

-- what ends a line for `splitlines`
unfoldable pub is_line_break : ℕ → Bool
is_line_break c =
    (leb 10 c && leb c 13) || (leb 28 c && leb c 30) || c == 133 || c == 8232 || c == 8233

-- a part that is not empty, before the later ones
abbrev pub flush {ℓ} : {A : Type ℓ} → List A → List (List A) → List (List A)
flush [] later = later
flush (c ∷ s) later = (c ∷ s) ∷ later

-- `number` is the code point of a character.
module _ {ℓ} {A : Type ℓ} (number : A → ℕ) where
  unfoldable pub words_from : List A → List A → List (List A)
  unfolding is_space
  words_from word [] = flush word []
  words_from word (c ∷ s) =
      let between = flush word (words_from [] s) in
      let within = words_from (word ++ (c ∷ [])) s in
      if is_space (number c) then between else within

  -- `text.split()`
  unfoldable pub words : List A → List (List A)
  unfolding words_from
  words = words_from []

  -- `returned` tells that the character before was a carriage return, which a line feed may follow.
  unfoldable pub lines_from : Bool → List A → List A → List (List A)
  unfolding is_line_break
  lines_from returned line [] = flush line []
  lines_from returned line (c ∷ s) =
      let paired = lines_from false line s in
      let ended = line ∷ lines_from (number c == 13) [] s in
      let within = lines_from false (line ++ (c ∷ [])) s in
      if returned && number c == 10
      then paired
      else if is_line_break (number c)
      then ended
      else within

  -- `text.splitlines()`
  unfoldable pub splitlines : List A → List (List A)
  unfolding lines_from
  splitlines = lines_from false []
