-- ===== src/Common/Double/Rounding.antt =====
-- How far rounding is off, and which numbers are doubles.
use beastie_boy.Common.Double.{precision, round_even, spacing, rounded, to_double}
use native.Mathlib.Nat.{div-add-mod', mod-lt, mul-le-mul_right}
use native.Mathlib.Decide.{dec_lt}
use beastie_boy.Prelude.{
  ℕ, zero, suc, ◌+◌, ◌*◌, ◌/◌, ◌%◌, ◌^◌, ◌≤◌, ◌<◌, Bool, true, false, ◌||◌, ◌&&◌, ltb, leb, ◌==◌,
  if◌then◌else◌, ◌≡◌, inl, inr, sym, arith, Bool-cases,
}

-- A product is nearest to a number: they differ by at most half of b.
abbrev pub IsNearest : ℕ → ℕ → ℕ → Type 0
IsNearest a b q = (2 * (q * b) ≤ 2 * a + b) × (2 * a ≤ 2 * (q * b) + b)

-- The test of `round_even`.
abbrev rounds_up : ℕ → ℕ → ℕ → Bool
rounds_up b q r = ltb b (2 * r) || ((2 * r == b) && (q % 2 == 1))

rounds_up-le : (b q r : ℕ) → rounds_up b q r ≡ true → b ≤ 2 * r
rounds_up-le b q r h = ground arith

stays-le : (b q r : ℕ) → rounds_up b q r ≡ false → 2 * r ≤ b
stays-le b q r h = ground arith

pub round_even-IsNearest : (a b : ℕ) → 0 < b → IsNearest a b (round_even a b)
unfolding round_even
round_even-IsNearest a b h = go (a / b) (a % b) (sym (div-add-mod' a b)) (mod-lt a h)
  where
    go : (q r : ℕ) → a ≡ q * b + r → r < b → IsNearest a b (if rounds_up b q r then q + 1 else q)
    go q r e l = elim (Bool-cases (rounds_up b q r)) [
      | inl p ↦ rw p (omega (arith, e, l, rounds_up-le b q r p), omega (arith, e, l))
      | inr p ↦ rw p (omega (arith, e, l), omega (arith, e, l, stays-le b q r p))
    ]

spacing_one : (n : ℕ) → n < 2 ^ 53 → spacing 12 n 1 ≡ 1
unfolding spacing
spacing_one n h = ground arith

-- Up to 2^53 every number is a double.
pub to_double-small : (n : ℕ) → n < 2 ^ 53 → to_double n ≡ n
unfolding rounded round_even
to_double-small n h = rw (spacing_one n h) (ground arith)

-- Rounding does not go beyond an integer.
pub round_even-le : (a b k : ℕ) → 0 < b → a ≤ k * b → round_even a b ≤ k
round_even-le a b k h le = elim (dec_lt k (round_even a b)) [
  | yes l ↦ absurd (too_many (mul-le-mul_right b l))
  | no l ↦ omega (arith, l)
]
  where
    too_many : suc k * b ≤ round_even a b * b → ⊥
    too_many m = let near = round_even-IsNearest a b h in omega (arith, m, near.0, le, h)

pub precision-pos : (fuel a b p : ℕ) → 0 < p → 0 < precision fuel a b p
unfolding precision
precision-pos zero a b p h = h
precision-pos (suc fuel) a b p h =
    let rest = precision-pos fuel a b (p * 2) (omega (arith, h)) in
    elim (Bool-cases (leb (2 ^ 52) (a * p / b))) [ inl e ↦ rw e h | inr e ↦ rw e rest ]
