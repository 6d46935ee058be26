-- ===== src/Common/Bytes/Reading.antt =====
-- How a number of bytes is to be read from the text of app_format_bytes_compact of common/common.c.
use beastie_boy.Common.Bytes.{scale, larger_units, hundredths, compact_text, format_bytes_compact}
use beastie_boy.Common.Double.{round_even}
use beastie_boy.Common.Double.Rounding.{IsNearest, round_even-IsNearest, to_double-small}
use beastie_boy.Common.Strtoul.{decimal}
use beastie_boy.Common.Strtoul.Decimal.{length-decimal}
use native.Mathlib.Nat.{div-add-mod', div-lt_iff_lt-mul, mul-le-mul_right}
use native.Mathlib.Decide.{dec_lt}
use beastie_boy.Prelude.{
  ℕ, ◌+◌, ◌-◌, ◌*◌, ◌/◌, ◌%◌, ◌^◌, ◌≤◌, ◌<◌, [], ◌∷◌, ◌++◌, CString, codes, length, length-append,
  take, take-short, ◌==◌, if◌then◌else◌, u64_mod, u32_mod, ◌≡◌, ◌≢◌, ◌⊎◌, inl, inr, arith,
  Bool-cases, ==_iff,
}

-- A name and its number of bytes.
abbrev pub IsUnit : CString → ℕ → Type 0
IsUnit name u =
    ((name ≡ codes "bytes") × (u ≡ 1))
    ⊎ (((name ≡ codes "KiB") × (u ≡ 1024))
        ⊎ (((name ≡ codes "MiB") × (u ≡ 1_048_576))
            ⊎ (((name ≡ codes "GiB") × (u ≡ 1_073_741_824))
                ⊎ ((name ≡ codes "TiB") × (u ≡ 1_099_511_627_776)))))

-- The unit is the largest one that is not larger than the number, or a byte for 0.
abbrev Scaled : ℕ → CString × ℕ → Type 0
Scaled d p =
    IsUnit p.0 p.1 × ((p.1 ≡ 1) ⊎ (p.1 ≤ d)) × ((d < p.1 * 1024) ⊎ (p.1 ≡ 1_099_511_627_776))

scale-Scaled : (d : ℕ) → Scaled d (scale larger_units (codes "bytes") 1 d)
unfolding scale
scale-Scaled d = ground arith

-- The text gives the number of units exactly, or the nearest one with two digits after the point.
abbrev pub Reads : ℕ → CString → ℕ → CString → Type 0
Reads bytes name u text =
    ((q : ℕ) × (q * u ≡ bytes) × (text ≡ decimal q ++ (b' ' ∷ name)))
    ⊎ ((h : ℕ) × (bytes % u ≢ 0)
        × IsNearest (bytes * 100) u h
        × (text ≡ hundredths h ++ (b' ' ∷ name)))

-- How a text is to be read.
pub record IsReading (bytes : ℕ) (text : CString) : Type 0 where
  pub name : CString
  pub unit : ℕ
  pub is_unit : IsUnit name unit
  pub not_too_large : (unit ≡ 1) ⊎ (unit ≤ bytes)
  pub not_too_small : (bytes < unit * 1024) ⊎ (unit ≡ 1_099_511_627_776)
  pub reads : Reads bytes name unit text

IsUnit-pos : (name : CString) (u : ℕ) → IsUnit name u → 0 < u
IsUnit-pos name u h = ground arith

length-name : (name : CString) (u : ℕ) → IsUnit name u → length name ≤ 5
length-name name u (inl (e, _)) = rw e (omega arith)
length-name name u (inr (inl (e, _))) = rw e (omega arith)
length-name name u (inr (inr (inl (e, _)))) = rw e (omega arith)
length-name name u (inr (inr (inr (inl (e, _))))) = rw e (omega arith)
length-name name u (inr (inr (inr (inr (e, _))))) = rw e (omega arith)

quotient-lt :
    (d u : ℕ) → d < 2 ^ 53 → (d < u * 1024) ⊎ (u ≡ 1_099_511_627_776) → 0 < u → d / u < 1_048_576
quotient-lt d u h (inl k) p = (div-lt_iff_lt-mul p).1 (omega (arith, k))
quotient-lt d u h (inr k) p = (div-lt_iff_lt-mul p).1 (omega (arith, k, h))

hundredths-lt :
    (d u h : ℕ)
    → d < 2 ^ 53
    → (d < u * 1024) ⊎ (u ≡ 1_099_511_627_776)
    → 0 < u
    → IsNearest (d * 100) u h
    → h / 100 < u32_mod
hundredths-lt d u h small k p n = elim (dec_lt h 429_496_729_600) [
  | yes l ↦ omega (arith, l)
  | no l ↦ absurd (too_many k (mul-le-mul_right u (omega (arith, l))))
]
  where
    too_many : (d < u * 1024) ⊎ (u ≡ 1_099_511_627_776) → 429_496_729_600 * u ≤ h * u → ⊥
    too_many (inl k) m = omega (arith, k, m, n.0, p)
    too_many (inr k) m = omega (arith, k, m, n.0, p, small)

length-hundredths : (h : ℕ) → h / 100 < u32_mod → length (hundredths h) ≤ 13
unfolding hundredths
length-hundredths h small = omega (
  arith,
  length-decimal (h / 100) small,
  length-append (decimal (h / 100)) (b'.' ∷ (h / 10 % 10 + b'0') ∷ (h % 10 + b'0') ∷ []),
)

-- A number and a name fit a buffer of 32 bytes.
cut :
    (buffer_size : ℕ) (number name : CString)
    → length number ≤ 13
    → length name ≤ 5
    → 32 ≤ buffer_size
    → take (buffer_size - 1) (number ++ (b' ' ∷ name)) ≡ number ++ (b' ' ∷ name)
cut buffer_size number name p q h =
    take-short (buffer_size - 1) (number ++ (b' ' ∷ name))
      (omega (arith, p, q, length-append number (b' ' ∷ name)))

-- The text for a unit.
abbrev text_with : ℕ → CString → ℕ → CString
text_with bytes name u =
    if u == 1
    then decimal bytes ++ (b' ' ∷ name)
    else (if bytes % u == 0
        then decimal (bytes / u % u64_mod) ++ (b' ' ∷ name)
        else hundredths (round_even (bytes * 100) u) ++ (b' ' ∷ name))

text_with-reads :
    (bytes : ℕ) (name : CString) (u buffer_size : ℕ)
    → IsUnit name u
    → (bytes < u * 1024) ⊎ (u ≡ 1_099_511_627_776)
    → bytes < 2 ^ 53
    → 32 ≤ buffer_size
    → Reads bytes name u (take (buffer_size - 1) (text_with bytes name u))
text_with-reads bytes name u buffer_size is_unit high small room = elim (Bool-cases (u == 1)) [
  | inl e ↦
      let one : u ≡ 1 = (==_iff u 1).0 e in
      rw e (
        inl (
          bytes,
          rw one (omega arith),
          cut buffer_size (decimal bytes) name
              (omega (arith, length-decimal bytes (bytes_few one high))) short room,
        ))
  | inr e ↦ elim (Bool-cases (bytes % u == 0)) [
    | inl f ↦
        let none_left : bytes % u ≡ 0 = (==_iff (bytes % u) 0).0 f in
        let q : bytes / u % u64_mod ≡ bytes / u = omega (arith, few) in
        rw (e, f, q)
          (inl (
            bytes / u,
            omega (arith, div-add-mod' bytes u, none_left),
            cut buffer_size (decimal (bytes / u)) name
                (omega (arith, length-decimal (bytes / u) (omega (arith, few)))) short room,
          ))
    | inr f ↦
        let near = round_even-IsNearest (bytes * 100) u pos in
        let h = round_even (bytes * 100) u in
        rw (e, f)
          (inr (
            h,
            (λ z. ground arith),
            near,
            cut buffer_size (hundredths h) name
                (length-hundredths h (hundredths-lt bytes u h small high pos near)) short room,
          ))
  ]
]
  where
    pos : 0 < u
    pos = IsUnit-pos name u is_unit

    few : bytes / u < 1_048_576
    few = quotient-lt bytes u small high pos

    short : length name ≤ 5
    short = length-name name u is_unit

    bytes_few : u ≡ 1 → (bytes < u * 1024) ⊎ (u ≡ 1_099_511_627_776) → bytes < u32_mod
    bytes_few e (inl k) = omega (arith, e, k)
    bytes_few e (inr k) = omega (arith, e, k)

-- For a number of bytes below 2^53 and a buffer of at least 32 bytes, `app_format_bytes_compact` gives a
-- number and the largest unit that is not larger, up to TiB. If the number of bytes is a multiple of the
-- unit, the text is the exact quotient; else it has two digits after the point, and it is off by at most
-- half a hundredth of the unit.
pub format_bytes_compact_lem :
    (bytes buffer_size : ℕ)
    → bytes < 2 ^ 53
    → 32 ≤ buffer_size
    → IsReading bytes (format_bytes_compact bytes buffer_size)
unfolding format_bytes_compact compact_text
format_bytes_compact_lem bytes buffer_size small room =
    rw (to_double-small bytes small)
      (go (scale larger_units (codes "bytes") 1 bytes) (scale-Scaled bytes))
  where
    go :
        (p : CString × ℕ)
        → Scaled bytes p
        → IsReading bytes (take (buffer_size - 1) (text_with bytes p.0 p.1))
    go (name, u) (is_unit, low, high) = record {
      name = name;
      unit = u;
      is_unit = is_unit;
      not_too_large = low;
      not_too_small = high;
      reads = text_with-reads bytes name u buffer_size is_unit high small room;
    }
