-- ===== src/Boy/Cli/Numbers.antt =====
-- The number parsers of boy/cli_options.c on the decimals of numbers.
use beastie_boy.Boy.Cli.{parse_if_index, parse_u32}
use beastie_boy.Common.Strtoul.{decimal}
use beastie_boy.Common.Strtoul.Decimal.{strtoul-decimal, decimal-cons}
use beastie_boy.Prelude.{
  ℕ, ◌%◌, ◌<◌, none, some, CString, ltb, if◌then◌else◌, ◌≡◌, arith, u32_mod, u64_mod,
}

-- On the decimal of a number of 64 bits `boy_parse_if_index` gives the number modulo 2^32, and
-- `boy_parse_u32` gives the number if it has 32 bits and refuses it if not.
pub parse_decimal :
    (n : ℕ)
    → n < u64_mod
    → (parse_if_index (decimal n) ≡ some (n % u32_mod))
      × (parse_u32 (decimal n) ≡ (if ltb n u32_mod then some n else none))
unfolding parse_if_index parse_u32
parse_decimal n h =
    let (c, s, e) = decimal-cons n in
    (ground (arith, e, strtoul-decimal n h), ground (arith, e, strtoul-decimal n h))

-- Whatever the text, both parsers give numbers of 32 bits, and the stricter one accepts less.
pub parse_u32-lt :
    (value : CString) (n : ℕ)
    → parse_u32 value ≡ some n
    → (n < u32_mod) × (parse_if_index value ≡ some n)
unfolding parse_u32 parse_if_index
parse_u32-lt value n h = ground arith

pub parse_if_index-lt : (value : CString) (n : ℕ) → parse_if_index value ≡ some n → n < u32_mod
unfolding parse_if_index
parse_if_index-lt value n h = ground arith
