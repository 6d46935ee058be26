-- ===== src/Common/Strtoul/Number.antt =====
-- Which texts `strtoul` reads as a number from their first byte to their last: a grammar that takes a
-- text byte by byte. The option parsers of both programs accept these texts.
use beastie_boy.Common.Strtoul.{
  is_space, is_digit, skip_spaces, Conversion, scan, saturate, convert, after_sign, strtoul,
}
use beastie_boy.Prelude.{
  ℕ, ◌+◌, ◌-◌, ◌*◌, Bool, true, false, Option, none, some, [], ◌∷◌, CString, ◌==◌, if◌then◌else◌,
  ◌≡◌, refl, arith, Bool-cases, inl, inr,
}

-- Digits up to the end of the text, after those of n.
unfoldable pub more_digits : Bool → ℕ → CString → Option ℕ
more_digits negative n [] = some (saturate negative n)
more_digits negative n (c ∷ s) =
    let rest = more_digits negative (n * 10 + (c - b'0')) s in if is_digit c then rest else none

-- One digit or more.
unfoldable pub digits : Bool → CString → Option ℕ
unfolding more_digits
digits negative [] = none
digits negative (c ∷ s) = if is_digit c then more_digits negative (c - b'0') s else none

-- A sign may come before the digits.
unfoldable pub signed : ℕ → CString → Option ℕ
unfolding digits
signed c s =
    if c == b'-'
    then digits true s
    else (if c == b'+' then digits false s else digits false (c ∷ s))

-- White space may come before the sign.
unfoldable pub number : CString → Option ℕ
unfolding signed
number [] = none
number (c ∷ s) = let rest = number s in if is_space c then rest else signed c s

-- The value of a conversion that reads the whole text.
abbrev pub to_the_end : CString → ℕ → Option ℕ
to_the_end [] n = some n
to_the_end (c ∷ s) n = none

abbrev pub whole : Conversion → Option ℕ
whole c = if c.converted then to_the_end c.end c.value else none

more_digits-scan :
    (negative : Bool) (n : ℕ) (s : CString)
    → more_digits negative n s ≡ to_the_end (scan n s).1 (saturate negative (scan n s).0)
unfolding more_digits scan
more_digits-scan negative n [] = refl
more_digits-scan negative n (c ∷ s) =
    ground (arith, more_digits-scan negative (n * 10 + (c - b'0')) s)

whole-convert :
    (text : CString) (negative : Bool) (s : CString)
    → whole (convert text negative s) ≡ digits negative s
unfolding convert digits scan
whole-convert text negative [] = refl
whole-convert text negative (c ∷ s) = ground (arith, more_digits-scan negative (c - b'0') s)

whole-after_sign :
    (text : CString) (c : ℕ) (s : CString) → whole (after_sign text (c ∷ s)) ≡ signed c s
unfolding after_sign signed
whole-after_sign text c s =
    ground (
      arith,
      whole-convert text true s,
      whole-convert text false s,
      whole-convert text false (c ∷ s),
    )

whole-empty : (text : CString) → whole (after_sign text []) ≡ none
unfolding after_sign convert
whole-empty text = refl

whole-skip_spaces : (text s : CString) → whole (after_sign text (skip_spaces s)) ≡ number s
unfolding skip_spaces number
whole-skip_spaces text [] = whole-empty text
whole-skip_spaces text (c ∷ s) = elim (Bool-cases (is_space c)) [
  | inl e ↦ rw e (whole-skip_spaces text s)
  | inr e ↦ rw e (whole-after_sign text c s)
]

-- `strtoul` reads a text to its end exactly if it is a number, and gives its value.
pub whole-strtoul : (text : CString) → whole (strtoul text) ≡ number text
unfolding strtoul
whole-strtoul text = whole-skip_spaces text text
