-- ===== src/Common/Strtoul.antt =====
-- `strtoul` and `strtoull` of the C library with base 10, in the C locale, where `unsigned long` has
-- 64 bits, and the `%u` of `snprintf`. The option parsers and app_table_detect_terminal_width use them.
pub mod Decimal
pub mod Number
use beastie_boy.Prelude.{
  ℕ, zero, suc, ◌+◌, ◌-◌, ◌*◌, ◌/◌, ◌%◌, Bool, true, false, ◌&&◌, ◌||◌, List, [], ◌∷◌, CString, ltb,
  leb, ◌==◌, if◌then◌else◌, u64_mod,
}

unfoldable pub is_space : ℕ → Bool
is_space c = (c == b' ') || (leb 9 c && leb c 13)

unfoldable pub is_digit : ℕ → Bool
is_digit c = leb b'0' c && leb c b'9'

unfoldable pub skip_spaces : CString → CString
unfolding is_space
skip_spaces [] = []
skip_spaces (c ∷ s) = let rest = skip_spaces s in if is_space c then rest else c ∷ s

-- The value that the call returns, whether it converted anything, and `*end`. The text at `end` is
-- the whole text where nothing was converted.
pub record Conversion : Type 0 where
  pub value : ℕ
  pub converted : Bool
  pub end : CString

-- The number that the leading digits stand for, after those of `acc`, and what follows them.
unfoldable pub scan : ℕ → CString → ℕ × CString
unfolding is_digit
scan acc [] = (acc, [])
scan acc (c ∷ s) =
    let rest = scan (acc * 10 + (c - b'0')) s in if is_digit c then rest else (acc, c ∷ s)

-- Out of range the result is ULONG_MAX, and a minus sign negates in `unsigned long`.
abbrev pub saturate : Bool → ℕ → ℕ
saturate negative n =
    if leb u64_mod n then u64_mod - 1 else (if negative then (u64_mod - n) % u64_mod else n)

-- The digits after the sign; `text` is what `end` is set to where there are none.
unfoldable pub convert : CString → Bool → CString → Conversion
unfolding scan
convert text negative [] = record { value = 0; converted = false; end = text }
convert text negative (c ∷ s) =
    let (n, rest) = scan 0 (c ∷ s) in
    if is_digit c
    then record { value = saturate negative n; converted = true; end = rest }
    else record { value = 0; converted = false; end = text }

unfoldable pub after_sign : CString → CString → Conversion
unfolding convert
after_sign text [] = convert text false []
after_sign text (c ∷ s) =
    if c == b'-'
    then convert text true s
    else (if c == b'+' then convert text false s else convert text false (c ∷ s))

unfoldable pub strtoul : CString → Conversion
unfolding after_sign skip_spaces
strtoul text = after_sign text (skip_spaces text)

-- The digits of n before those of `tail`.
unfoldable pub digits_before : ℕ → ℕ → CString → CString
digits_before zero n tail = tail
digits_before (suc fuel) n tail =
    let rest = digits_before fuel (n / 10) ((n % 10 + b'0') ∷ tail) in
    if ltb n 10 then (n + b'0') ∷ tail else rest

-- `%u`
unfoldable pub decimal : ℕ → CString
unfolding digits_before
decimal n = digits_before (suc n) n []
