-- ===== src/Prelude/Text.antt =====
-- C strings: the bytes before the terminating zero byte, as numbers.
use Prim.Native.Nat.{ℕ}
use Prim.Native.Char.{code}
use Prim.Native.String.{String}
use mathlib.Core.Path.{◌≡◌, refl}
use mathlib.Core.Logic.{◌↔◌}
use mathlib.Core.Bool.{Bool, true, false, ◌&&◌}
use mathlib.Core.List.{List, [], ◌∷◌, ◌++◌}
use native.Mathlib.Omega.{arith}
use beastie_boy.Prelude.Tests.{◌==◌}

abbrev pub CString : Type 0
CString = List ℕ

-- A string literal of the source; all of them are ASCII.
abbrev pub codes : String → CString
codes String.[] = []
codes (String.◌∷◌ c s) = code c ∷ codes s

-- `strcmp (s, t) == 0`
unfoldable pub str_eq : CString → CString → Bool
str_eq [] [] = true
str_eq [] (d ∷ t) = false
str_eq (c ∷ s) [] = false
str_eq (c ∷ s) (d ∷ t) = (c == d) && str_eq s t

-- `strncmp (s, p, strlen (p)) == 0`
unfoldable pub starts_with : CString → CString → Bool
starts_with s [] = true
starts_with [] (d ∷ p) = false
starts_with (c ∷ s) (d ∷ p) = (c == d) && starts_with s p

-- `strchr (s, ch) != NULL`, for a byte `ch` that is not zero.
unfoldable pub contains_char : CString → ℕ → Bool
contains_char [] ch = false
contains_char (c ∷ s) ch =
    let rest = contains_char s ch in elim (c == ch) [ true ↦ true | false ↦ rest ]

pub str_eq_iff : (s t : CString) → (str_eq s t ≡ true) ↔ (s ≡ t)
unfolding str_eq
str_eq_iff [] [] = (λ _. refl, λ _. refl)
str_eq_iff [] (d ∷ t) = (λ h. cc, λ h. cc)
str_eq_iff (c ∷ s) [] = (λ h. cc, λ h. cc)
str_eq_iff (c ∷ s) (d ∷ t) = ground (arith, str_eq_iff s t)

pub str_eq_refl : (s : CString) → str_eq s s ≡ true
str_eq_refl s = (str_eq_iff s s).1 refl

pub starts_with-append : (p s : CString) → starts_with (p ++ s) p ≡ true
unfolding starts_with
starts_with-append [] s = refl
starts_with-append (c ∷ p) s = ground (arith, starts_with-append p s)
