-- ===== src/Boy/Hardware/Blocks.antt =====
-- The blocks of lines that VPP prints for each interface, and what boy/commands/phy_cmd.c reads there.
use beastie_boy.Boy.Collectors.{InterfaceEntry}
use beastie_boy.Boy.Hardware.{
  is_empty, skip_blanks, starts_blank, heading, select, set_card_family, Reader, read_heading,
  read_detail, read_line, read_lines,
}
use beastie_boy.Boy.Hardware.Lines.{
  IsLine, IsTrimmed, append-IsTrimmed, StartsWord, IsWord, heading_line,
}
use beastie_boy.Prelude.{
  ℕ, ◌≤◌, Bool, true, false, Option, none, some, List, [], ◌∷◌, ◌++◌, All, CString, codes,
  starts_with, starts_with-append, contains_char, length, if◌then◌else◌, ◌≡◌, refl, ap, ◌∙◌,
}

-- What VPP prints for one interface. `others_before` and `others_after` are lines that say something else.
pub record Block : Type 0 where
  pub name : CString
  pub pad : ℕ
  pub index : ℕ
  pub link_pad : ℕ
  pub link : CString
  pub others_before : List CString
  pub address : CString
  pub family : CString
  pub others_after : List CString

abbrev pub address_line : CString → CString
address_line address = codes "  Ethernet address " ++ address

abbrev pub family_line : CString → CString
family_line family = codes "  " ++ family

abbrev pub detail_lines : Block → List CString
detail_lines b =
    b.others_before ++ (address_line b.address ∷ (family_line b.family ∷ b.others_after))

abbrev pub block_lines : Block → List CString
block_lines b = heading_line b.name b.pad b.index b.link_pad b.link ∷ detail_lines b

-- A line below a heading that does not announce a card family.
pub record IsOther (line : CString) : Type 0 where
  pub trimmed : IsTrimmed line
  pub indented : starts_blank line ≡ true
  pub no_address : starts_with (skip_blanks line) (codes "Ethernet address ") ≡ false

-- A text that stands as a card family on its line.
pub record NamesFamily (family : CString) : Type 0 where
  pub trimmed : IsTrimmed family
  pub no_blank : starts_blank family ≡ false
  pub no_colon : contains_char family b':' ≡ false
  pub no_carrier : starts_with family (codes "carrier ") ≡ false
  pub no_address : starts_with family (codes "Ethernet address ") ≡ false

pub record IsBlock (b : Block) : Type 0 where
  pub name_word : IsWord b.name
  pub name_fits : length b.name ≤ 64
  pub link_trimmed : IsTrimmed b.link
  pub link_word : StartsWord b.link
  pub address_trimmed : IsTrimmed b.address
  pub names_family : NamesFamily b.family
  pub before : All IsOther b.others_before
  pub after : All IsOther b.others_after
  pub lines : All IsLine (block_lines b)

abbrev pub state : List InterfaceEntry → Option ℕ → Reader
state entries current = record { entries = entries; current = current; expect_family = false }

skip_blanks-filled : (s : CString) → is_empty s ≡ false → starts_blank s ≡ false → skip_blanks s ≡ s
unfolding skip_blanks
skip_blanks-filled [] p q = refl
skip_blanks-filled (c ∷ s) p q = rw q refl

skip_two : (s : CString) → skip_blanks (b' ' ∷ (b' ' ∷ s)) ≡ skip_blanks s
unfolding skip_blanks
skip_two s = refl

pub read_line-heading :
    (line name : CString) (r : Reader)
    → IsTrimmed line
    → starts_blank line ≡ false
    → heading line ≡ some name
    → read_line line r ≡ state r.entries (select r.entries name)
unfolding read_line read_heading
read_line-heading line name r t flush e =
    rw (t.trimmed, skip_blanks-filled line t.filled flush, t.filled, flush, e) refl

-- Where no interface is selected, the indented lines change nothing.
read_line-unselected :
    (line : CString) (entries : List InterfaceEntry)
    → IsTrimmed line
    → starts_blank line ≡ true
    → read_line line (state entries none) ≡ state entries none
unfolding read_line
read_line-unselected line entries t indented =
    rw (t.trimmed, indented) (go (is_empty (skip_blanks line)))
  where
    go : (b : Bool) → (if b then state entries none else state entries none) ≡ state entries none
    go true = refl
    go false = refl

-- At an interface that is selected, with or without its Ethernet address seen.
abbrev pub at : List InterfaceEntry → ℕ → Bool → Reader
at entries i x = record { entries = entries; current = some i; expect_family = x }

read_line-detail :
    (line : CString) (entries : List InterfaceEntry) (i : ℕ) (x : Bool)
    → IsTrimmed line
    → starts_blank line ≡ true
    → is_empty (skip_blanks line) ≡ false
    → read_line line (at entries i x) ≡ read_detail (skip_blanks line) i (at entries i x)
unfolding read_line
read_line-detail line entries i x t indented filled = rw (t.trimmed, indented, filled) refl

read_line-other :
    (line : CString) (entries : List InterfaceEntry) (current : Option ℕ)
    → IsOther line
    → read_line line (state entries current) ≡ state entries current
unfolding read_line read_detail
read_line-other line entries none h = read_line-unselected line entries h.trimmed h.indented
read_line-other line entries (some i) h =
    rw (h.trimmed.trimmed, h.indented, h.no_address) (go (is_empty (skip_blanks line)))
  where
    go : (b : Bool) → (if b then at entries i false else at entries i false) ≡ at entries i false
    go true = refl
    go false = refl

read_lines-others :
    (lines : List CString) (entries : List InterfaceEntry) (current : Option ℕ)
    → All IsOther lines
    → read_lines lines (state entries current) ≡ state entries current
unfolding read_lines
read_lines-others [] entries current h = refl
read_lines-others (line ∷ lines) entries current (h, hs) =
    ap (read_lines lines) (read_line-other line entries current h)
    ∙ read_lines-others lines entries current hs

pub read_lines-append :
    (xs ys : List CString) (r : Reader) → read_lines (xs ++ ys) r ≡ read_lines ys (read_lines xs r)
unfolding read_lines
read_lines-append [] ys r = refl
read_lines-append (x ∷ xs) ys r = read_lines-append xs ys (read_line x r)

read_line-address :
    (address : CString) (entries : List InterfaceEntry) (i : ℕ)
    → IsTrimmed address
    → read_line (address_line address) (at entries i false) ≡ at entries i true
unfolding read_detail skip_blanks
read_line-address address entries i h =
    read_line-detail (address_line address) entries i false
      (append-IsTrimmed (codes "  Ethernet address ") address h) refl refl
    ∙ rw (starts_with-append (codes "Ethernet address ") address) refl

read_line-family :
    (family : CString) (entries : List InterfaceEntry) (i : ℕ)
    → NamesFamily family
    → read_line (family_line family) (at entries i true)
      ≡ at (set_card_family entries i family) i false
unfolding read_detail
read_line-family family entries i h =
    let same : skip_blanks (family_line family) ≡ family =
      skip_two family ∙ skip_blanks-filled family h.trimmed.filled h.no_blank in
    read_line-detail (family_line family) entries i true
      (append-IsTrimmed (codes "  ") family h.trimmed) refl (rw same h.trimmed.filled)
    ∙ rw (same, h.no_address, h.no_colon, h.no_carrier) refl

pub detail_lines-none :
    (b : Block) (entries : List InterfaceEntry)
    → IsBlock b
    → read_lines (detail_lines b) (state entries none) ≡ state entries none
unfolding read_lines
detail_lines-none b entries h =
    read_lines-append b.others_before _ (state entries none)
    ∙ rw
        (
          read_lines-others b.others_before entries none h.before,
          read_line-unselected (address_line b.address) entries
              (append-IsTrimmed (codes "  Ethernet address ") b.address h.address_trimmed) refl,
          read_line-unselected (family_line b.family) entries
              (append-IsTrimmed (codes "  ") b.family h.names_family.trimmed) refl,
        )
        (read_lines-others b.others_after entries none h.after)

pub detail_lines-some :
    (b : Block) (entries : List InterfaceEntry) (i : ℕ)
    → IsBlock b
    → read_lines (detail_lines b) (at entries i false)
      ≡ at (set_card_family entries i b.family) i false
unfolding read_lines
detail_lines-some b entries i h =
    read_lines-append b.others_before _ (at entries i false)
    ∙ rw
        (
          read_lines-others b.others_before entries (some i) h.before,
          read_line-address b.address entries i h.address_trimmed,
          read_line-family b.family entries i h.names_family,
        )
        (read_lines-others b.others_after (set_card_family entries i b.family) (some i) h.after)
