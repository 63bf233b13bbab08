-- ===== src/Operations/Capacity/Laws.antt =====
-- Utilization is a share, rounded to the nearest basis point.
use native.Mathlib.Nat.{div-lt_iff_lt-mul, div-mul-le_self, lt-div-mul-add}
use cloudfall.Base.{ℕ, ◌+◌, ◌*◌, ◌/◌, ◌≤◌, ◌<◌, min, ◌==◌, nat_eq, ◌≡◌, arith, inl, inr, Bool-cases}
use cloudfall.Operations.Capacity.{from_counts}

-- The share of the space, rounded: a quotient whose remainder is less than the divisor.
rounded : ℕ → ℕ → ℕ
rounded used visible = (used * 10000 + visible / 2) / visible

rounded-le : (used visible : ℕ) → 1 ≤ visible → used ≤ visible → rounded used visible ≤ 10000
unfolding rounded
rounded-le used visible some_space part =
    let below : (used * 10000 + visible / 2) / visible < 10001 =
      (div-lt_iff_lt-mul some_space).1 (omega arith) in
    omega arith

rounded-near :
    (used visible : ℕ)
    → 1 ≤ visible
    → (2 * (rounded used visible * visible) ≤ 2 * (used * 10000) + visible)
      × (2 * (used * 10000) ≤ 2 * (rounded used visible * visible) + visible)
unfolding rounded
rounded-near used visible some_space =
    near (rounded used visible * visible) (div-mul-le_self (used * 10000 + visible / 2) visible)
      (lt-div-mul-add some_space)
  where
    near :
        (product : ℕ)
        → product ≤ used * 10000 + visible / 2
        → used * 10000 + visible / 2 < product + visible
        → (2 * product ≤ 2 * (used * 10000) + visible)
          × (2 * (used * 10000) ≤ 2 * product + visible)
    near product low high = (omega arith, omega arith)

-- Utilization is at most 10,000 basis points. Where there is space at all, it is within half a basis
-- point of the share that is used.
pub from_counts_bounds :
    (used available : ℕ)
    → (from_counts used available ≤ 10000)
      × (1 ≤ used + available
          → (2 * (from_counts used available * (used + available))
              ≤ 2 * (used * 10000) + (used + available))
            × (2 * (used * 10000)
                ≤ 2 * (from_counts used available * (used + available)) + (used + available)))
unfolding from_counts rounded
from_counts_bounds used available = elim (Bool-cases (used + available == 0)) [
  | inl empty ↦ (rw (from_counts, empty) (omega arith), λ some_space. absurd (ground arith))
  | inr space ↦
      let v = used + available in
      let some_space : 1 ≤ v = ground arith in
      let exact : from_counts used available ≡ rounded used v =
        rw (from_counts, space)
          (min_small (rounded used v) (rounded-le used v some_space (omega arith))) in
      rw exact (rounded-le used v some_space (omega arith), λ _. rounded-near used v some_space)
]
  where
    min_small : (n : ℕ) → n ≤ 10000 → min n 10000 ≡ n
    min_small n h = omega arith
