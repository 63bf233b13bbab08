-- ===== src/Base/Text.antt =====
-- What Python does with a text of a number: `strip`, `lower`, `int` and `str`. Decimal digits of
-- other scripts, which `int` takes too, are left out.
pub mod Roundtrip
pub mod Parts
pub mod Search
use Prim.Native.Nat.{ℕ, zero, suc, ◌+◌, ◌-◌, ◌*◌, ◌/◌, ◌%◌, ◌<◌}
use Prim.Native.Char.{Char, code}
use Prim.Native.String.{String}
use mathlib.Core.Path.{◌≡◌, refl, ap, ◌∙◌}
use mathlib.Core.Logic.{inl, inr}
use mathlib.Core.Bool.{Bool, true, false, ◌&&◌, ◌||◌}
use mathlib.Core.Option
use mathlib.Core.Option.{Option, none, some}
use mathlib.Core.List.{List, [], ◌∷◌}
use native.Mathlib.Omega.{arith}
use cloudfall.Base.Equality.{if◌then◌else◌, Bool-cases}
use cloudfall.Base.Tests.{ltb, leb}
use cloudfall.Base.Int.{ℤ, pos, negsuc}

abbrev between : ℕ → ℕ → ℕ → Bool
between lo hi n = leb lo n && leb n hi

-- `str.isspace` of one code point
unfoldable pub is_space : ℕ → Bool
is_space c =
    between 9 13 c
    || between 28 32 c
    || between 133 133 c
    || between 160 160 c
    || between 5760 5760 c
    || between 8192 8202 c
    || between 8232 8233 c
    || between 8239 8239 c
    || between 8287 8287 c
    || between 12288 12288 c

unfoldable pub lstrip : String → String
unfolding is_space
lstrip String.[] = String.[]
lstrip (String.◌∷◌ c s) = let rest = lstrip s in if is_space (code c) then rest else String.◌∷◌ c s

abbrev is_empty : String → Bool
is_empty String.[] = true
is_empty (String.◌∷◌ c s) = false

unfoldable pub rstrip : String → String
unfolding is_space
rstrip String.[] = String.[]
rstrip (String.◌∷◌ c s) =
    let rest = rstrip s in
    if is_space (code c) && is_empty rest then String.[] else String.◌∷◌ c rest

-- `text.strip()`
unfoldable pub strip : String → String
unfolding lstrip rstrip
strip s = rstrip (lstrip s)

-- `text.lower()`, as code points. Only the letters that can occur in the words compared with
-- are mapped.
abbrev pub lower_codes : String → List ℕ
lower_codes String.[] = []
lower_codes (String.◌∷◌ c s) =
    let n = code c in (if between 65 90 n then n + 32 else n) ∷ lower_codes s

-- The digits of `int(text)`: an underscore may stand between two of them.
unfoldable pub parse_digits : Bool → ℕ → String → Option ℕ
parse_digits after n String.[] = if after then some n else none
parse_digits after n (String.◌∷◌ c s) =
    let more = parse_digits true (n * 10 + (code c - 48)) s in
    let joined = parse_digits false n s in
    if between 48 57 (code c)
    then more
    else if after && between 95 95 (code c)
    then joined
    else none

negate : ℕ → ℤ
negate zero = pos 0
negate (suc n) = negsuc n

-- `int(text)` of a stripped text; `none` is its `ValueError`.
unfoldable pub parse_int : String → Option ℤ
unfolding parse_digits negate
parse_int String.[] = none
parse_int (String.◌∷◌ c s) =
    if between 45 45 (code c)
    then Option.map negate (parse_digits false 0 s)
    else if between 43 43 (code c)
    then Option.map pos (parse_digits false 0 s)
    else Option.map pos (parse_digits false 0 (String.◌∷◌ c s))

unfoldable pub digit : ℕ → Char
digit zero = "0"
digit (suc zero) = "1"
digit (suc (suc zero)) = "2"
digit (suc (suc (suc zero))) = "3"
digit (suc (suc (suc (suc zero)))) = "4"
digit (suc (suc (suc (suc (suc zero))))) = "5"
digit (suc (suc (suc (suc (suc (suc zero)))))) = "6"
digit (suc (suc (suc (suc (suc (suc (suc zero))))))) = "7"
digit (suc (suc (suc (suc (suc (suc (suc (suc zero)))))))) = "8"
digit _ = "9"

unfoldable pub print_digits : ℕ → ℕ → String → String
unfolding digit
print_digits zero n s = s
print_digits (suc fuel) n s =
    let rest = print_digits fuel (n / 10) (String.◌∷◌ (digit (n % 10)) s) in
    if ltb n 10 then String.◌∷◌ (digit n) s else rest

-- `str(n)`. A number has at most as many digits as its successor says.
unfoldable pub print_int : ℤ → String
unfolding print_digits
print_int (pos n) = print_digits (suc n) n String.[]
print_int (negsuc n) = String.◌∷◌ "-" (print_digits (suc (suc n)) (suc n) String.[])

code-digit : (d : ℕ) → d < 10 → code (digit d) ≡ 48 + d
unfolding digit
code-digit zero h = refl
code-digit (suc zero) h = refl
code-digit (suc (suc zero)) h = refl
code-digit (suc (suc (suc zero))) h = refl
code-digit (suc (suc (suc (suc zero)))) h = refl
code-digit (suc (suc (suc (suc (suc zero))))) h = refl
code-digit (suc (suc (suc (suc (suc (suc zero)))))) h = refl
code-digit (suc (suc (suc (suc (suc (suc (suc zero))))))) h = refl
code-digit (suc (suc (suc (suc (suc (suc (suc (suc zero)))))))) h = refl
code-digit (suc (suc (suc (suc (suc (suc (suc (suc (suc zero))))))))) h = refl
code-digit (suc (suc (suc (suc (suc (suc (suc (suc (suc (suc n)))))))))) h = absurd (omega arith)

parse_digits-digit :
    (after : Bool) (n d : ℕ) (s : String)
    → d < 10
    → parse_digits after n (String.◌∷◌ (digit d) s) ≡ parse_digits true (n * 10 + d) s
unfolding parse_digits
parse_digits-digit after n d s h = ground (arith, code-digit d h)

-- Printed digits are read back, whatever text follows them.
parse_digits-print_digits :
    (fuel n : ℕ) (s : String)
    → n < fuel
    → parse_digits false 0 (print_digits fuel n s) ≡ parse_digits true n s
unfolding print_digits
parse_digits-print_digits zero n s h = elim h [ ]
parse_digits-print_digits (suc fuel) n s h = elim (Bool-cases (ltb n 10)) [
  | inl small ↦ rw small (
      rw (parse_digits-digit false 0 n s (ground arith))
        (ap (λ k. parse_digits true k s) (omega arith)))
  | inr big ↦ rw big (
      parse_digits-print_digits fuel (n / 10) (String.◌∷◌ (digit (n % 10)) s) (ground arith)
      ∙ parse_digits-digit true (n / 10) (n % 10) s (omega arith)
      ∙ ap (λ k. parse_digits true k s) (omega arith))
]
