-- ===== src/Common/Strtoul/Decimal.antt =====
-- `strtoul` reads back what `%u` prints.
use beastie_boy.Common.Strtoul.{
  is_digit, skip_spaces, Conversion, scan, saturate, strtoul, digits_before, decimal,
}
use native.Mathlib.Nat.{pow-suc}
use beastie_boy.Prelude.{
  ℕ, zero, suc, ◌+◌, ◌*◌, ◌/◌, ◌%◌, ◌≤◌, ◌<◌, true, false, [], ◌∷◌, ◌++◌, CString, length, ◌^◌,
  u32_mod, ltb, u64_mod, ◌≡◌, refl, arith, Bool-cases, inl, inr, ap, ◌∙◌,
}

scan-cons :
    (acc d : ℕ) (tail : CString) → d < 10 → scan acc ((d + b'0') ∷ tail) ≡ scan (acc * 10 + d) tail
unfolding scan
scan-cons acc d tail h = ground arith

scan-digits_before :
    (fuel n : ℕ) (tail : CString) → n < fuel → scan 0 (digits_before fuel n tail) ≡ scan n tail
unfolding digits_before
scan-digits_before zero n tail h = absurd (omega arith)
scan-digits_before (suc fuel) n tail h = elim (Bool-cases (ltb n 10)) [
  | inl e ↦ rw e (ground (arith, scan-cons 0 n tail))
  | inr e ↦ rw e (
      scan-digits_before fuel (n / 10) ((n % 10 + b'0') ∷ tail) (ground arith)
      ∙ scan-cons (n / 10) (n % 10) tail (omega arith)
      ∙ ap (λ k. scan k tail) (omega arith))
]

-- The text begins with a digit.
record Starts (s : CString) : Type 0 where
  first : ℕ
  others : CString
  same : s ≡ first ∷ others
  low : b'0' ≤ first
  high : first ≤ b'9'

digits_before-Starts : (fuel n : ℕ) (tail : CString) → n < fuel → Starts (digits_before fuel n tail)
unfolding digits_before
digits_before-Starts zero n tail h = absurd (omega arith)
digits_before-Starts (suc fuel) n tail h = elim (Bool-cases (ltb n 10)) [
  | inl e ↦ rw e (record {
    first = n + b'0';
    others = tail;
    same = refl;
    low = ground arith;
    high = ground arith;
  })
  | inr e ↦ rw e (digits_before-Starts fuel (n / 10) ((n % 10 + b'0') ∷ tail) (ground arith))
]

-- n spaces before a text.
abbrev pub spaces : ℕ → CString → CString
spaces zero s = s
spaces (suc n) s = b' ' ∷ spaces n s

pub skip_spaces-spaces : (n : ℕ) (s : CString) → skip_spaces (spaces n s) ≡ skip_spaces s
unfolding skip_spaces
skip_spaces-spaces zero s = refl
skip_spaces-spaces (suc n) s = skip_spaces-spaces n s

strtoul-Starts :
    (n : ℕ) (s : CString)
    → Starts s
    → strtoul (spaces n s) ≡ (
        let (n, rest) = scan 0 s in
        record { value = saturate false n; converted = true; end = rest })
unfolding strtoul
strtoul-Starts n s p = rw (skip_spaces-spaces n s, p.same) (ground arith)

decimal-Starts : (n : ℕ) → Starts (decimal n)
unfolding decimal
decimal-Starts n = digits_before-Starts (suc n) n [] (omega arith)

pub scan-decimal : (n : ℕ) → scan 0 (decimal n) ≡ (n, [])
unfolding decimal scan
scan-decimal n = scan-digits_before (suc n) n [] (omega arith)

small :
    (n : ℕ)
    → n < u64_mod
    → ◌≡◌ {A = Conversion}
        (record { value = saturate false n; converted = true; end = [] })
        (record { value = n; converted = true; end = [] })
small n h = ground arith

-- `strtoul` on the decimal of a number that fits 64 bits gives the number and reads the whole text.
pub strtoul-decimal :
    (n : ℕ) → n < u64_mod → strtoul (decimal n) ≡ record { value = n; converted = true; end = [] }
strtoul-decimal n h =
    rw (strtoul-Starts 0 (decimal n) (decimal-Starts n), scan-decimal n) (small n h)

-- A decimal is not the empty text.
pub decimal-cons : (n : ℕ) → (c : ℕ) × (s : CString) × (decimal n ≡ c ∷ s)
decimal-cons n = let p = decimal-Starts n in (p.first, p.others, p.same)

digits_before-append :
    (fuel n : ℕ) (s t : CString) → digits_before fuel n s ++ t ≡ digits_before fuel n (s ++ t)
unfolding digits_before
digits_before-append zero n s t = refl
digits_before-append (suc fuel) n s t = elim (Bool-cases (ltb n 10)) [
  | inl e ↦ rw e refl
  | inr e ↦ rw e (digits_before-append fuel (n / 10) ((n % 10 + b'0') ∷ s) t)
]

-- After spaces, `strtoul` reads the decimal of a number and stops at a character that is no digit.
pub strtoul-decimal_append :
    (m n c : ℕ) (s : CString)
    → is_digit c ≡ false
    → let r = strtoul (spaces m (decimal n ++ (c ∷ s))) in (r.converted ≡ true) × (r.end ≡ c ∷ s)
unfolding decimal scan
strtoul-decimal_append m n c s h =
    let text = digits_before (suc n) n (c ∷ s) in
    let e : strtoul (spaces m text) ≡ _ =
      strtoul-Starts m text (digits_before-Starts (suc n) n (c ∷ s) (omega arith)) in
    rw
      (
        digits_before-append (suc n) n [] (c ∷ s),
        e,
        scan-digits_before (suc n) n (c ∷ s) (omega arith),
        h,
      )
      (refl, refl)

-- A number below 10^(k + 1) has at most k + 1 digits.
length-digits_before :
    (fuel n k : ℕ) (tail : CString)
    → n < 10 ^ suc k
    → length (digits_before fuel n tail) ≤ suc k + length tail
unfolding digits_before
length-digits_before zero n k tail h = omega arith
length-digits_before (suc fuel) n zero tail h = let low : n < 10 = omega (arith, h) in ground arith
length-digits_before (suc fuel) n (suc k) tail h = elim (Bool-cases (ltb n 10)) [
  | inl e ↦ rw e (omega arith)
  | inr e ↦
      let p : 10 ^ suc (suc k) ≡ 10 ^ suc k * 10 = pow-suc 10 (suc k) in
      rw e (
        omega (
          arith,
          length-digits_before fuel (n / 10) k ((n % 10 + b'0') ∷ tail) (omega (arith, h, p)),
        ))
]

-- A uint32_t has at most 10 digits.
pub length-decimal : (n : ℕ) → n < u32_mod → length (decimal n) ≤ 10
unfolding decimal
length-decimal n h = omega (arith, length-digits_before (suc n) n 9 [] (omega arith))
