-- ===== src/Boy/Hardware/Lines.antt =====
-- The lines of a text, and their parts, as boy/commands/phy_cmd.c reads them.
use beastie_boy.Boy.Hardware.{
  is_empty, add_line, break_line, tokens, add_trimmed, rtrim, starts_blank, read_word, heading,
}
use beastie_boy.Common.Strtoul.{is_space, is_digit, skip_spaces, decimal}
use beastie_boy.Common.Strtoul.Decimal.{spaces, skip_spaces-spaces, strtoul-decimal_append}
use beastie_boy.Prelude.{
  ℕ, zero, suc, ◌≤◌, false, some, List, [], ◌∷◌, ◌++◌, All, CString, contains_char, length, ◌≡◌,
  refl, arith, ap, ◌∙◌,
}

-- A line that `strtok_r` can give.
pub record IsLine (line : CString) : Type 0 where
  pub filled : is_empty line ≡ false
  pub whole : contains_char line b'\n' ≡ false

-- A text in which every line has its newline.
abbrev pub join_lines : List CString → CString
join_lines [] = []
join_lines (line ∷ lines) = line ++ (b'\n' ∷ join_lines lines)

break_line-append :
    (line s : CString)
    → contains_char line b'\n' ≡ false
    → break_line (line ++ (b'\n' ∷ s)) ≡ (line, tokens s)
unfolding break_line tokens contains_char
break_line-append [] s h = refl
break_line-append (c ∷ line) s h = ground (arith, break_line-append line s)

-- Splitting a text gives the lines that it was joined of.
pub tokens-join_lines :
    (lines : List CString) → All IsLine lines → tokens (join_lines lines) ≡ lines
unfolding tokens break_line
tokens-join_lines [] h = refl
tokens-join_lines (line ∷ lines) (h, hs) =
    ap (λ p. add_line p.0 p.1) (break_line-append line (join_lines lines) h.whole)
    ∙ add_line-filled line (tokens (join_lines lines)) h.filled
    ∙ ap (λ l. line ∷ l) (tokens-join_lines lines hs)
  where
    add_line-filled :
        (l : CString) (ls : List CString) → is_empty l ≡ false → add_line l ls ≡ l ∷ ls
    add_line-filled [] ls e = cc
    add_line-filled (c ∷ l) ls e = refl

-- A text that has no white space at its end.
pub record IsTrimmed (s : CString) : Type 0 where
  pub filled : is_empty s ≡ false
  pub trimmed : rtrim s ≡ s

pub is_empty-append : (s t : CString) → is_empty t ≡ false → is_empty (s ++ t) ≡ false
is_empty-append [] t h = h
is_empty-append (c ∷ s) t h = refl

pub append-IsTrimmed : (s t : CString) → IsTrimmed t → IsTrimmed (s ++ t)
unfolding rtrim
append-IsTrimmed [] t h = h
append-IsTrimmed (c ∷ s) t h =
    let k = append-IsTrimmed s t h in
    record { filled = refl; trimmed = ap (add_trimmed c) k.trimmed ∙ go (s ++ t) k.filled }
  where
    go : (u : CString) → is_empty u ≡ false → add_trimmed c u ≡ c ∷ u
    go [] e = cc
    go (d ∷ u) e = refl

-- A text that begins with a character that is no white space.
abbrev pub StartsWord : CString → Type 0
StartsWord [] = ⊥
StartsWord (c ∷ s) = is_space c ≡ false

-- A word without white space.
pub record IsWord (s : CString) : Type 0 where
  pub filled : is_empty s ≡ false
  pub solid : All (λ c. is_space c ≡ false) s

skip_spaces-StartsWord : (s : CString) → StartsWord s → skip_spaces s ≡ s
unfolding skip_spaces
skip_spaces-StartsWord [] h = absurd h
skip_spaces-StartsWord (c ∷ s) h = rw h refl

read_word-word :
    (width : ℕ) (word s : CString)
    → All (λ c. is_space c ≡ false) word
    → length word ≤ width
    → read_word width (word ++ (b' ' ∷ s)) ≡ (word, b' ' ∷ s)
unfolding read_word is_space
read_word-word zero [] s h k = refl
read_word-word zero (c ∷ word) s h k = absurd (omega arith)
read_word-word (suc width) [] s h k = refl
read_word-word (suc width) (c ∷ word) s (h, hs) k =
    let e = read_word-word width word s hs (omega arith) in rw (h, e) refl

read_word-StartsWord : (s : CString) → StartsWord s → is_empty (read_word 15 s).0 ≡ false
unfolding read_word
read_word-StartsWord [] h = absurd h
read_word-StartsWord (c ∷ s) h = rw h refl

-- A heading: a name, the index of the interface, and a text that begins with its link state.
abbrev pub heading_line : CString → ℕ → ℕ → ℕ → CString → CString
heading_line name pad index pad' link =
    name ++ (b' ' ∷ spaces pad (decimal index ++ (b' ' ∷ spaces pad' link)))

pub heading-heading_line :
    (name : CString) (pad index pad' : ℕ) (link : CString)
    → IsWord name
    → length name ≤ 64
    → StartsWord link
    → heading (heading_line name pad index pad' link) ≡ some name
unfolding heading is_digit
heading-heading_line [] pad index pad' link word short starts = let e = word.filled in cc
heading-heading_line (c ∷ name) pad index pad' link word short starts =
    let rest = b' ' ∷ spaces pad' link in
    let number = strtoul-decimal_append (suc pad) index b' ' (spaces pad' link) refl in
    let after : skip_spaces rest ≡ link =
      skip_spaces-spaces (suc pad') link ∙ skip_spaces-StartsWord link starts in
    rw
      (
        skip_spaces-StartsWord (c ∷ (name ++ (b' ' ∷ spaces pad (decimal index ++ rest))))
            word.solid.0,
        read_word-word 64 (c ∷ name) (spaces pad (decimal index ++ rest)) word.solid short,
        number.0,
        number.1,
        after,
        read_word-StartsWord link starts,
      )
      refl

spaces-IsTrimmed : (n : ℕ) (s : CString) → IsTrimmed s → IsTrimmed (spaces n s)
unfolding rtrim
spaces-IsTrimmed zero s h = h
spaces-IsTrimmed (suc n) s h = append-IsTrimmed (b' ' ∷ []) (spaces n s) (spaces-IsTrimmed n s h)

pub heading_line-IsTrimmed :
    (name : CString) (pad index pad' : ℕ) (link : CString)
    → IsTrimmed link
    → IsTrimmed (heading_line name pad index pad' link)
heading_line-IsTrimmed name pad index pad' link h =
    append-IsTrimmed name (spaces (suc pad) (decimal index ++ spaces (suc pad') link)) (
      spaces-IsTrimmed (suc pad) (decimal index ++ spaces (suc pad') link) (
        append-IsTrimmed (decimal index) (spaces (suc pad') link)
          (spaces-IsTrimmed (suc pad') link h)))

pub heading_line-starts_blank :
    (name : CString) (pad index pad' : ℕ) (link : CString)
    → IsWord name
    → starts_blank (heading_line name pad index pad' link) ≡ false
unfolding is_space
heading_line-starts_blank [] pad index pad' link h = let e = h.filled in cc
heading_line-starts_blank (c ∷ name) pad index pad' link h = let e = h.solid.0 in ground arith
