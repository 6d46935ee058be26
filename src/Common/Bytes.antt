-- ===== src/Common/Bytes.antt =====
-- app_format_bytes_compact of common/common.c: a number of bytes with a unit. A `double` that holds a
-- number of bytes is an integer, and its quotients by powers of 1024 are exact, so that numerator and
-- unit stand for it.
pub mod Reading
use beastie_boy.Common.Double.{round_even, to_double}
use beastie_boy.Common.Strtoul.{decimal}
use beastie_boy.Prelude.{
  ℕ, zero, suc, ◌+◌, ◌-◌, ◌*◌, ◌/◌, ◌%◌, ◌^◌, ◌||◌, ◌&&◌, List, [], ◌∷◌, ◌++◌, CString, codes, take,
  ltb, leb, ◌==◌, if◌then◌else◌, u64_mod,
}

-- The loop over the units: the name of a unit, and its bytes.
unfoldable pub scale : List CString → CString → ℕ → ℕ → CString × ℕ
scale [] name u d = (name, u)
scale (next ∷ names) name u d =
    let rest = scale names next (u * 1024) d in if leb (u * 1024) d then rest else (name, u)

-- `units` after the first, "bytes"
abbrev pub larger_units : List CString
larger_units = codes "KiB" ∷ codes "MiB" ∷ codes "GiB" ∷ codes "TiB" ∷ []

-- A number of hundredths with two digits after the point.
unfoldable pub hundredths : ℕ → CString
hundredths h = decimal (h / 100) ++ (b'.' ∷ (h / 10 % 10 + b'0') ∷ (h % 10 + b'0') ∷ [])

-- The text, before it is cut to the buffer: the first unit has one byte.
unfoldable pub compact_text : ℕ → CString
compact_text bytes =
    let d = to_double bytes in
    let (name, u) = scale larger_units (codes "bytes") 1 d in
    if u == 1
    then decimal bytes ++ (b' ' ∷ name)
    else (if d % u == 0
        then decimal (d / u % u64_mod) ++ (b' ' ∷ name)
        else hundredths (round_even (d * 100) u) ++ (b' ' ∷ name))

-- `app_format_bytes_compact`, for a buffer that is not empty.
unfoldable pub format_bytes_compact : ℕ → ℕ → CString
format_bytes_compact bytes buffer_size = take (buffer_size - 1) (compact_text bytes)
