-- ===== src/Base/Results.antt =====
-- A call that returns or raises, and the `do` blocks over it.
use mathlib.Core.Path.{◌≡◌, refl}

pub data Result {ℓ κ} (E : Type ℓ) (A : Type κ) : Type (ℓ ⊔ κ) where
  ok : A → Result E A
  err : E → Result E A

-- What follows a call: it runs on the value returned, and an exception passes it by.
abbrev pub after {ε α β} :
    {Raised : Type ε} {X : Type α} {Y : Type β}
    → (X → Result Raised Y)
    → Result Raised X
    → Result Raised Y
after next (ok x) = next x
after next (err raised) = err raised

infixl 5 ◌>>=◌
abbrev pub ◌>>=◌ {ε α β} :
    {Raised : Type ε} {X : Type α} {Y : Type β}
    → Result Raised X
    → (X → Result Raised Y)
    → Result Raised Y
call >>= next = after next call

infixl 5 ◌>>◌
abbrev pub ◌>>◌ {ε β} :
    {Raised : Type ε} {Y : Type β} → Result Raised (Unit {0}) → Result Raised Y → Result Raised Y
check >> rest = after (λ _. rest) check

-- What a sequence returns, its first call has led to.
pub >>=-eq-ok {ε α β} :
    {Raised : Type ε} {X : Type α} {Y : Type β} (call : Result Raised X)
    (next : X → Result Raised Y) {y : Y}
    → (call >>= next) ≡ ok y
    → (x : X) × (call ≡ ok x) × (next x ≡ ok y)
>>=-eq-ok (ok x) next returned = (x, refl, returned)
>>=-eq-ok (err raised) next returned = cc
