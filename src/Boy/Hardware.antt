-- ===== src/Boy/Hardware.antt =====
-- boy/commands/phy_cmd.c: the reader of what VPP prints for `show hardware-interfaces`, which names the
-- card family of each physical interface on a line after its Ethernet address.
pub mod Changes
pub mod Overrides
pub mod Lines
pub mod Blocks
pub mod Families
use beastie_boy.Boy.Collectors.{InterfaceEntry, is_physical_interface}
use beastie_boy.Boy.Client.Strings.{until_zero}
use beastie_boy.Common.Allocator.{Heap, Grants, allocate, release}
use beastie_boy.Common.Strtoul.{is_space, skip_spaces, strtoul}
use beastie_boy.Prelude.{
  ℕ, zero, suc, Bool, true, false, not, ◌||◌, ◌&&◌, Option, none, some, List, [], ◌∷◌, CString,
  codes, str_eq, starts_with, contains_char, length, take, get_elem?, add64, ◌==◌, if◌then◌else◌,
}

abbrev pub is_empty : CString → Bool
is_empty [] = true
is_empty (c ∷ s) = false

abbrev pub add_line : CString → List CString → List CString
add_line [] lines = lines
add_line (c ∷ line) lines = (c ∷ line) ∷ lines

-- The text before the first newline, and the lines after it.
unfoldable pub break_line : CString → CString × List CString
break_line [] = ([], [])
break_line (c ∷ s) =
    let (line, lines) = break_line s in
    if c == b'\n' then ([], add_line line lines) else (c ∷ line, lines)

-- The tokens of `strtok_r` with the separator "\n", which are not empty.
unfoldable pub tokens : CString → List CString
tokens s = let (line, lines) = break_line s in add_line line lines

abbrev pub is_trailing : ℕ → Bool
is_trailing c = (c == b' ') || ((c == b'\t') || (c == b'\r'))

abbrev pub add_trimmed : ℕ → CString → CString
add_trimmed c [] = if is_trailing c then [] else c ∷ []
add_trimmed c (d ∷ s) = c ∷ (d ∷ s)

-- `boy_rtrim`
unfoldable pub rtrim : CString → CString
rtrim [] = []
rtrim (c ∷ s) = add_trimmed c (rtrim s)

abbrev pub is_blank : ℕ → Bool
is_blank c = (c == b' ') || (c == b'\t')

-- `trimmed`
unfoldable pub skip_blanks : CString → CString
skip_blanks [] = []
skip_blanks (c ∷ s) = let rest = skip_blanks s in if is_blank c then rest else c ∷ s

abbrev pub starts_blank : CString → Bool
starts_blank [] = false
starts_blank (c ∷ s) = is_blank c

-- `%s` with a width, after the white space: the word, and the text that follows it.
unfoldable pub read_word : ℕ → CString → CString × CString
read_word zero s = ([], s)
read_word (suc width) [] = ([], [])
read_word (suc width) (c ∷ s) =
    let (word, rest) = read_word width s in if is_space c then ([], c ∷ s) else (c ∷ word, rest)

-- `sscanf (line, "%64s %u %15s", ...) == 3`, with the name that it reads.
unfoldable pub heading : CString → Option CString
heading line =
    let (name, rest) = read_word 64 (skip_spaces line) in
    let number = strtoul rest in
    let (link, _) = read_word 15 (skip_spaces number.end) in
    if is_empty name || (not number.converted || is_empty link) then none else some name

-- `boy_find_interface_mut_by_name`; a pointer into the table is a position.
unfoldable pub find_position : List InterfaceEntry → CString → Option ℕ
find_position [] name = none
find_position (e ∷ entries) name =
    let rest = find_position entries name in
    if str_eq e.interface_name name
    then some 0
    else elim rest [ none ↦ none | some i ↦ some (suc i) ]

-- Whether the entry at a position is physical.
unfoldable pub is_physical_at : List InterfaceEntry → ℕ → Bool
is_physical_at entries i = elim (get_elem? entries i) [
  | none ↦ false
  | some e ↦ is_physical_interface e
]

-- The entry that a heading selects.
unfoldable pub select : List InterfaceEntry → CString → Option ℕ
select entries name = elim (find_position entries name) [
  | none ↦ none
  | some i ↦ if is_physical_at entries i then some i else none
]

-- `current->card_family`, a buffer of 65 bytes
unfoldable pub set_card_family : List InterfaceEntry → ℕ → CString → List InterfaceEntry
set_card_family [] i text = []
set_card_family (e ∷ entries) zero text = record e { card_family = take 64 text } ∷ entries
set_card_family (e ∷ entries) (suc i) text = e ∷ set_card_family entries i text

-- The variables of the loop.
pub record Reader : Type 0 where
  pub entries : List InterfaceEntry
  pub current : Option ℕ
  pub expect_family : Bool

-- A line that does not begin with a blank.
unfoldable pub read_heading : CString → Reader → Reader
read_heading line r = record r {
  current = elim (heading line) [ none ↦ none | some name ↦ select r.entries name ];
  expect_family = false;
}

-- A line below the heading of the entry at position i.
unfoldable pub read_detail : CString → ℕ → Reader → Reader
read_detail trimmed i r =
    if starts_with trimmed (codes "Ethernet address ")
    then record r { expect_family = true }
    else (if not r.expect_family
        then r
        else (if contains_char trimmed b':' || starts_with trimmed (codes "carrier ")
            then record r { expect_family = false }
            else record r { entries = set_card_family r.entries i trimmed; expect_family = false }))

-- The body of the loop.
unfoldable pub read_line : CString → Reader → Reader
read_line token r =
    let line = rtrim token in
    let trimmed = skip_blanks line in
    if is_empty trimmed
    then r
    else (if not (starts_blank line)
        then read_heading line r
        else elim r.current [ none ↦ r | some i ↦ read_detail trimmed i r ])

unfoldable pub read_lines : List CString → Reader → Reader
read_lines [] r = r
read_lines (line ∷ lines) r = read_lines lines (read_line line r)

-- The entries after all lines of a text.
unfoldable pub read_families : CString → List InterfaceEntry → List InterfaceEntry
read_families text entries =
    let r =
      read_lines (tokens text)
        (record { entries = entries; current = none; expect_family = false }) in
    r.entries

-- `boy_override_card_family_from_cli_output`; the copy of the text by `strdup` may be refused.
unfoldable pub override_card_family :
    Grants → Option CString → List InterfaceEntry → Heap → List InterfaceEntry × Heap
override_card_family grants none entries h = (entries, h)
override_card_family grants (some output) entries h =
    let g = allocate grants (add64 (length output) 1) h in
    if is_empty output
    then (entries, h)
    else (if g.granted then (read_families output entries, release 1 g.heap) else (entries, g.heap))
