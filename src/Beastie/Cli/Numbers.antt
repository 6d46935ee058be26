-- ===== src/Beastie/Cli/Numbers.antt =====
-- The number parsers of beastie/cli_options.c against the grammar of numbers.
use beastie_boy.Beastie.Cli.{is_malformed, parse_max_capture_bytes, parse_memif_id}
use beastie_boy.Common.Strtoul.{Conversion, strtoul}
use beastie_boy.Common.Strtoul.Number.{number, whole, whole-strtoul}
use beastie_boy.Prelude.{
  ℕ, ◌%◌, true, false, Option, none, some, [], ◌∷◌, CString, if◌then◌else◌, ◌≡◌, refl, u32_mod, ◌∙◌,
  sym, ap, Bool,
}

-- A `uint32_t` that is assigned a number.
unfoldable pub to_u32 : Option ℕ → Option ℕ
to_u32 none = none
to_u32 (some n) = some (n % u32_mod)

whole-is_malformed :
    (c : ℕ) (s : CString) (r : Conversion)
    → whole r ≡ (if is_malformed (c ∷ s) r then none else some r.value)
whole-is_malformed c s r = go r.converted r.end
  where
    go :
        (converted : Bool) (end : CString)
        → whole (record r { converted = converted; end = end }) ≡ (
            if is_malformed (c ∷ s) (record r { converted = converted; end = end })
            then none
            else some r.value)
    go true [] = refl
    go true (d ∷ t) = refl
    go false [] = refl
    go false (d ∷ t) = refl

-- `--max-bytes` takes the numbers, and gives their value.
pub parse_max_capture_bytes-number :
    (value : CString) → parse_max_capture_bytes value ≡ number value
unfolding parse_max_capture_bytes number
parse_max_capture_bytes-number [] = refl
parse_max_capture_bytes-number (c ∷ s) =
    sym (whole-is_malformed c s (strtoul (c ∷ s))) ∙ whole-strtoul (c ∷ s)

-- `--id` takes the numbers too, and gives their value modulo 2^32.
pub parse_memif_id-number : (value : CString) → parse_memif_id value ≡ to_u32 (number value)
unfolding parse_memif_id number to_u32
parse_memif_id-number [] = refl
parse_memif_id-number (c ∷ s) =
    modulo (is_malformed (c ∷ s) (strtoul (c ∷ s))) (strtoul (c ∷ s)).value
    ∙ ap to_u32 (sym (whole-is_malformed c s (strtoul (c ∷ s))) ∙ whole-strtoul (c ∷ s))
  where
    modulo :
        (b : Bool) (n : ℕ)
        → (if b then none else some (n % u32_mod)) ≡ to_u32 (if b then none else some n)
    modulo true n = refl
    modulo false n = refl
