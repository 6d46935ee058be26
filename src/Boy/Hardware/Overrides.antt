-- ===== src/Boy/Hardware/Overrides.antt =====
-- What the reader of boy/commands/phy_cmd.c may change in the table of interfaces.
use beastie_boy.Boy.Collectors.{InterfaceEntry, is_physical_interface}
use beastie_boy.Boy.Hardware.{
  is_empty, tokens, rtrim, skip_blanks, starts_blank, heading, find_position, is_physical_at,
  select, set_card_family, Reader, read_heading, read_detail, read_line, read_lines, read_families,
  override_card_family,
}
use beastie_boy.Common.Allocator.{Heap, Grants}
use beastie_boy.Prelude.{
  ℕ, zero, suc, Bool, true, false, not, ◌||◌, Option, none, some, List, [], ◌∷◌, CString, codes,
  starts_with, contains_char, length, add64, if◌then◌else◌, ◌≡◌, inl, inr, refl, arith, Bool-cases,
  ◌∙◌,
}
use beastie_boy.Boy.Hardware.Changes.{
  AllOverridden, AllOverridden-refl, AllOverridden-trans, take-IsFamily,
  set_card_family-AllOverridden,
}

is_physical_at-set_card_family :
    (entries : List InterfaceEntry) (i j : ℕ) (text : CString)
    → is_physical_at (set_card_family entries i text) j ≡ is_physical_at entries j
unfolding set_card_family is_physical_at is_physical_interface
is_physical_at-set_card_family [] i j text = refl
is_physical_at-set_card_family (e ∷ entries) zero zero text = refl
is_physical_at-set_card_family (e ∷ entries) zero (suc j) text = refl
is_physical_at-set_card_family (e ∷ entries) (suc i) zero text = refl
is_physical_at-set_card_family (e ∷ entries) (suc i) (suc j) text =
    is_physical_at-set_card_family entries i j text

-- `current` is NULL or points to a physical entry.
abbrev IsSelected : List InterfaceEntry → Option ℕ → Type 0
IsSelected entries none = Unit
IsSelected entries (some i) = is_physical_at entries i ≡ true

select-IsSelected :
    (entries : List InterfaceEntry) (name : CString) → IsSelected entries (select entries name)
unfolding select
select-IsSelected entries name = go (find_position entries name)
  where
    go :
        (o : Option ℕ)
        → IsSelected entries
            (elim o [ none ↦ none | some i ↦ if is_physical_at entries i then some i else none ])
    go none = tt
    go (some i) = elim (Bool-cases (is_physical_at entries i)) [ inl e ↦ rw e e | inr e ↦ rw e tt ]

-- The invariant of the loop.
record Kept (before : List InterfaceEntry) (r : Reader) : Type 0 where
  changed : AllOverridden before r.entries
  selected : IsSelected r.entries r.current

read_heading-Kept :
    (before : List InterfaceEntry) (line : CString) (r : Reader)
    → Kept before r
    → Kept before (read_heading line r)
unfolding read_heading
read_heading-Kept before line r k = record { changed = k.changed; selected = go (heading line) }
  where
    go :
        (o : Option CString)
        → IsSelected r.entries (elim o [ none ↦ none | some name ↦ select r.entries name ])
    go none = tt
    go (some name) = select-IsSelected r.entries name

set_family-Kept :
    (before : List InterfaceEntry) (trimmed : CString) (i : ℕ) (r : Reader)
    → Kept before r
    → r.current ≡ some i
    → is_empty trimmed ≡ false
    → contains_char trimmed b':' ≡ false
    → Kept before
        (record r { entries = set_card_family r.entries i trimmed; expect_family = false })
set_family-Kept before trimmed i r k cur filled plain =
    let physical = selected_at r.current cur k.selected in
    record {
      changed =
          AllOverridden-trans before r.entries (set_card_family r.entries i trimmed) k.changed (
            set_card_family-AllOverridden r.entries i trimmed physical
              (take-IsFamily trimmed filled plain));
      selected = rw cur (is_physical_at-set_card_family r.entries i i trimmed ∙ physical);
    }
  where
    selected_at :
        (o : Option ℕ) → o ≡ some i → IsSelected r.entries o → is_physical_at r.entries i ≡ true
    selected_at none e s = cc
    selected_at (some j) e s = cc

read_detail-Kept :
    (before : List InterfaceEntry) (trimmed : CString) (i : ℕ) (r : Reader)
    → Kept before r
    → r.current ≡ some i
    → is_empty trimmed ≡ false
    → Kept before (read_detail trimmed i r)
unfolding read_detail
read_detail-Kept before trimmed i r k cur filled =
    if-Kept (starts_with trimmed (codes "Ethernet address ")) (record r { expect_family = true }) _
      (λ _. record { changed = k.changed; selected = k.selected })
      (λ _.
        if-Kept (not r.expect_family) r _ (λ _. k)
          (λ _.
            if-Kept (contains_char trimmed b':' || starts_with trimmed (codes "carrier "))
              (record r { expect_family = false }) _
              (λ _. record { changed = k.changed; selected = k.selected })
              (λ e. set_family-Kept before trimmed i r k cur filled (ground arith))))
  where
    if-Kept :
        (b : Bool) (x y : Reader)
        → (b ≡ true → Kept before x)
        → (b ≡ false → Kept before y)
        → Kept before (if b then x else y)
    if-Kept true x y p q = p refl
    if-Kept false x y p q = q refl

read_line-Kept :
    (before : List InterfaceEntry) (token : CString) (r : Reader)
    → Kept before r
    → Kept before (read_line token r)
unfolding read_line
read_line-Kept before token r k =
    let line = rtrim token in
    let trimmed = skip_blanks line in
    elim (Bool-cases (is_empty trimmed)) [
      | inl e ↦ rw e k
      | inr e ↦ elim (Bool-cases (starts_blank line)) [
        | inl f ↦ rw (e, f) (go trimmed e r.current refl)
        | inr f ↦ rw (e, f) (read_heading-Kept before line r k)
      ]
    ]
  where
    go :
        (trimmed : CString)
        → is_empty trimmed ≡ false
        → (o : Option ℕ) → r.current ≡ o
        → Kept before (elim o [ none ↦ r | some i ↦ read_detail trimmed i r ])
    go trimmed e none cur = k
    go trimmed e (some i) cur = read_detail-Kept before trimmed i r k cur e

read_lines-Kept :
    (before : List InterfaceEntry) (lines : List CString) (r : Reader)
    → Kept before r
    → Kept before (read_lines lines r)
unfolding read_lines
read_lines-Kept before [] r k = k
read_lines-Kept before (line ∷ lines) r k =
    read_lines-Kept before lines (read_line line r) (read_line-Kept before line r k)

read_families-AllOverridden :
    (text : CString) (entries : List InterfaceEntry)
    → AllOverridden entries (read_families text entries)
unfolding read_families
read_families-AllOverridden text entries =
    let k =
      read_lines-Kept entries (tokens text)
        (record { entries = entries; current = none; expect_family = false })
        (record { changed = AllOverridden-refl entries; selected = tt }) in
    k.changed

-- Whatever VPP prints, and whether or not the text can be copied,
-- `boy_override_card_family_from_cli_output` keeps every entry in its place and all of it but the card
-- family of physical interfaces; a card family that it writes fits the buffer of 65 bytes, is not empty
-- and has no colon. It gives back the memory it takes.
pub override_card_family-AllOverridden :
    (grants : Grants) (output : Option CString) (entries : List InterfaceEntry) (h : Heap)
    → AllOverridden entries (override_card_family grants output entries h).0
      × ((override_card_family grants output entries h).1.live ≡ h.live)
unfolding override_card_family
override_card_family-AllOverridden grants none entries h = (AllOverridden-refl entries, refl)
override_card_family-AllOverridden grants (some output) entries h =
    elim (Bool-cases (is_empty output)) [
      | inl e ↦ rw e (AllOverridden-refl entries, refl)
      | inr e ↦ elim (Bool-cases (grants h.asked (add64 (length output) 1))) [
        | inl g ↦ rw (e, g) (read_families-AllOverridden output entries, omega arith)
        | inr g ↦ rw (e, g) (AllOverridden-refl entries, refl)
      ]
    ]
