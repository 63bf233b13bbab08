-- ===== src/Base/Text/Roundtrip.antt =====
-- A printed integer is read back by `int`, and `strip` leaves it alone.
use Prim.Native.Nat.{ℕ, zero, suc, ◌/◌, ◌%◌, ◌≤◌, ◌<◌}
use Prim.Native.Char.{Char, code}
use Prim.Native.String.{String}
use mathlib.Core.Path.{◌≡◌, refl, ap}
use mathlib.Core.Logic.{inl, inr}
use mathlib.Core.Bool.{false}
use mathlib.Core.Option
use mathlib.Core.Option.{Option, none, some}
use native.Mathlib.Omega.{arith}
use cloudfall.Base.Equality.{Bool-cases}
use cloudfall.Base.Tests.{ltb}
use cloudfall.Base.Int.{ℤ, pos, negsuc}
use cloudfall.Base.Text.{
  is_space, lstrip, rstrip, strip, parse_digits, parse_int, digit, print_digits, print_int,
  code-digit, parse_digits-print_digits,
}

abbrev Spaceless : String → Type 0
Spaceless String.[] = Unit
Spaceless (String.◌∷◌ c s) = (is_space (code c) ≡ false) × Spaceless s

lstrip_of_Spaceless : (s : String) → Spaceless s → lstrip s ≡ s
unfolding lstrip
lstrip_of_Spaceless String.[] h = refl
lstrip_of_Spaceless (String.◌∷◌ c s) (h, t) = rw h

rstrip_of_Spaceless : (s : String) → Spaceless s → rstrip s ≡ s
unfolding rstrip
rstrip_of_Spaceless String.[] h = refl
rstrip_of_Spaceless (String.◌∷◌ c s) (h, t) = rw h (ap (String.◌∷◌ c) (rstrip_of_Spaceless s t))

pub strip_of_Spaceless : (s : String) → Spaceless s → strip s ≡ s
unfolding strip
strip_of_Spaceless s h = rw (lstrip_of_Spaceless s h) (rstrip_of_Spaceless s h)

is_space-digit : (d : ℕ) → d < 10 → is_space (code (digit d)) ≡ false
unfolding is_space
is_space-digit d h = rw (code-digit d h) (ground arith)

print_digits-Spaceless : (fuel n : ℕ) (s : String) → Spaceless s → Spaceless (print_digits fuel n s)
unfolding print_digits
print_digits-Spaceless zero n s h = h
print_digits-Spaceless (suc fuel) n s h = elim (Bool-cases (ltb n 10)) [
  | inl small ↦ rw small (is_space-digit n (ground arith), h)
  | inr big ↦ rw big (
      print_digits-Spaceless fuel (n / 10) (String.◌∷◌ (digit (n % 10)) s)
        (is_space-digit (n % 10) (omega arith), h))
]

print_int-Spaceless : (n : ℤ) → Spaceless (print_int n)
unfolding print_int is_space
print_int-Spaceless (pos n) = print_digits-Spaceless (suc n) n String.[] tt
print_int-Spaceless (negsuc n) = (refl, print_digits-Spaceless (suc (suc n)) (suc n) String.[] tt)

-- A printed number begins with a digit, so with no sign.
print_digits-head :
    (fuel n : ℕ) (s : String)
    → n < fuel
    → (c : Char) × (rest : String) × (48 ≤ code c) × (print_digits fuel n s ≡ String.◌∷◌ c rest)
unfolding print_digits
print_digits-head zero n s h = elim h [ ]
print_digits-head (suc fuel) n s h = elim (Bool-cases (ltb n 10)) [
  | inl small ↦ (digit n, s, omega (arith, code-digit n (ground arith)), rw small)
  | inr big ↦
      rw big (print_digits-head fuel (n / 10) (String.◌∷◌ (digit (n % 10)) s) (ground arith))
]

parse_int-unsigned :
    (c : Char) (rest : String)
    → 48 ≤ code c
    → parse_int (String.◌∷◌ c rest) ≡ Option.map pos (parse_digits false 0 (String.◌∷◌ c rest))
unfolding parse_int
parse_int-unsigned c rest h = ground arith

read_digits :
    (fuel n : ℕ) → n < fuel → parse_digits false 0 (print_digits fuel n String.[]) ≡ some n
unfolding parse_digits
read_digits fuel n h = parse_digits-print_digits fuel n String.[] h

parse_int_of_digits :
    (n : ℕ) (c : Char) (rest : String)
    → 48 ≤ code c
    → print_digits (suc n) n String.[] ≡ String.◌∷◌ c rest
    → parse_int (String.◌∷◌ c rest) ≡ some (pos n)
parse_int_of_digits n c rest low e =
    rw (parse_int-unsigned c rest low, ← e, read_digits (suc n) n (omega arith))

-- `int(str(n))` is `n`.
pub parse_int-print_int : (n : ℤ) → parse_int (print_int n) ≡ some n
unfolding print_int parse_digits parse_int
parse_int-print_int (pos n) =
    let (c, rest, low, e) = print_digits-head (suc n) n String.[] (omega arith) in
    rw e (parse_int_of_digits n c rest low e)
parse_int-print_int (negsuc n) =
    rw (parse_digits-print_digits (suc (suc n)) (suc n) String.[] (omega arith))

-- `str(n).strip()` is `str(n)`.
pub strip-print_int : (n : ℤ) → strip (print_int n) ≡ print_int n
strip-print_int n = strip_of_Spaceless (print_int n) (print_int-Spaceless n)
