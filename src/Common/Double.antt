-- ===== src/Common/Double.antt =====
-- Numbers of the type `double` that common/common.c and beastie/commands/capture_cmd.c compute with: those
-- that are not negative and have 53 bits, as integers or as quotients by a power of two.
pub mod Rounding
use beastie_boy.Prelude.{
  ℕ, zero, suc, ◌+◌, ◌*◌, ◌/◌, ◌%◌, ◌^◌, ◌||◌, ◌&&◌, ltb, leb, ◌==◌, if◌then◌else◌,
}

-- a / b rounded to the nearest integer, and to the even one of two.
unfoldable pub round_even : ℕ → ℕ → ℕ
round_even a b =
    let q = a / b in
    let r = a % b in if ltb b (2 * r) || ((2 * r == b) && (q % 2 == 1)) then q + 1 else q

-- The distance of the doubles around n; a fuel of k + 1 is enough for n below 2^(53 + k).
unfoldable pub spacing : ℕ → ℕ → ℕ → ℕ
spacing zero n u = u
spacing (suc fuel) n u =
    let rest = spacing fuel n (u * 2) in if ltb (n / u) (2 ^ 53) then u else rest

-- The double nearest to a number.
unfoldable pub rounded : ℕ → ℕ → ℕ
rounded fuel n = let u = spacing fuel n 1 in round_even n u * u

-- The conversion of a `uint64_t`, and the product of 100.0 and such a double.
abbrev pub to_double : ℕ → ℕ
to_double n = rounded 12 n

abbrev pub hundredfold : ℕ → ℕ
hundredfold d = rounded 19 (100 * d)

-- The least power of two p, from a given one on, for which a / b has 53 bits before the point once it is
-- multiplied by p.
unfoldable pub precision : ℕ → ℕ → ℕ → ℕ → ℕ
precision zero a b p = p
precision (suc fuel) a b p =
    let rest = precision fuel a b (p * 2) in if leb (2 ^ 52) (a * p / b) then p else rest

-- The quotient of two doubles, for b not 0 and a quotient between 2^(-64) and 2^53, as an integer and the
-- power of two that divides it.
unfoldable pub quotient : ℕ → ℕ → ℕ × ℕ
quotient a b = let p = precision 117 a b 1 in (round_even (a * p) b, p)
