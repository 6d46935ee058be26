-- ===== src/Boy/Client/Strings.antt =====
-- boy_copy_api_string of boy/vpp_client.c: from a field of a message to a C string in a buffer.
use beastie_boy.Prelude.{
  ℕ, zero, suc, ◌-◌, ◌≤◌, ◌<◌, Option, none, some, List, [], ◌∷◌, CString, length, take, leb, ◌==◌,
  if◌then◌else◌, ◌≡◌, ◌≢◌, refl, ap, arith, All, length-take, min, ◌∙◌,
}

-- `strnlen`: the bytes before the first zero byte of an array.
unfoldable pub until_zero : List ℕ → List ℕ
until_zero [] = []
until_zero (c ∷ s) = let rest = until_zero s in if c == 0 then [] else c ∷ rest

-- The string in the buffer, or `none` where nothing is written to it.
unfoldable pub copy_api_string : ℕ → List ℕ → Option CString
copy_api_string dst_size src =
    let text = until_zero src in
    let len = length text in
    let len' = if leb dst_size len then dst_size - 1 else len in
    if dst_size == 0 then none else some (take len' text)

length-until_zero : (s : List ℕ) → length (until_zero s) ≤ length s
unfolding until_zero
length-until_zero [] = omega arith
length-until_zero (c ∷ s) = ground (arith, length-until_zero s)

until_zero-nonzero : (s : List ℕ) → All (λ c. c ≢ 0) (until_zero s)
unfolding until_zero
until_zero-nonzero [] = tt
until_zero-nonzero (c ∷ s) = ground (arith, until_zero-nonzero s)

All-take : (n : ℕ) (s : List ℕ) → All (λ c. c ≢ 0) s → All (λ c. c ≢ 0) (take n s)
All-take zero s h = tt
All-take (suc n) [] h = tt
All-take (suc n) (c ∷ s) (h, hs) = (h, All-take n s hs)

abbrev copied_len : ℕ → ℕ → ℕ
copied_len dst_size len = if leb dst_size len then dst_size - 1 else len

min-zero : (n : ℕ) → min 0 n ≡ 0
min-zero n = omega arith

min-suc : (m n : ℕ) → min (suc m) (suc n) ≡ suc (min m n)
min-suc m n = omega arith

take_empty : {A : Type 0} (n : ℕ) → take {A = A} n [] ≡ []
take_empty zero = refl
take_empty (suc n) = refl

take-length-min : {A : Type 0} (n : ℕ) (xs : List A) → take (min n (length xs)) xs ≡ take n xs
take-length-min zero xs = rw (min-zero (length xs)) refl
take-length-min (suc n) [] = take_empty (min (suc n) 0)
take-length-min (suc n) (x ∷ xs) =
    rw (min-suc n (length xs)) (ap (λ l. x ∷ l) (take-length-min n xs))

copied_len_lem :
    (dst_size len : ℕ)
    → 0 < dst_size
    → (copied_len dst_size len < dst_size) × (copied_len dst_size len ≡ min (dst_size - 1) len)
copied_len_lem dst_size len h = ground arith

-- For a buffer with room for a byte, what is copied fits it with its final zero byte, holds no zero
-- byte itself, and is the text of the field, up to its first zero byte, cut to one byte less than
-- the buffer has.
pub copy_api_string_lem :
    (dst_size : ℕ) (src : List ℕ)
    → 0 < dst_size
    → (s : CString) × (copy_api_string dst_size src ≡ some s)
      × (length s < dst_size)
      × All (λ c. c ≢ 0) s
      × (s ≡ take (dst_size - 1) (until_zero src))
unfolding copy_api_string
copy_api_string_lem dst_size src h =
    let text = until_zero src in
    let n = copied_len dst_size (length text) in
    let (low, same) = copied_len_lem dst_size (length text) h in
    (
      take n text,
      ground arith,
      omega (arith, low, length-take n text),
      All-take n text (until_zero-nonzero src),
      ap (λ k. take k text) same ∙ take-length-min (dst_size - 1) text,
    )
