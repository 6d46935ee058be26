-- ===== src/Boy/Hardware/Families.antt =====
-- boy/commands/phy_cmd.c reads the card families out of a well-formed text.
use beastie_boy.Boy.Collectors.{InterfaceEntry, is_physical_interface}
use beastie_boy.Boy.Hardware.{is_physical_at, set_card_family}
use beastie_boy.Boy.Hardware.Blocks.{Block, block_lines}
use beastie_boy.Boy.Hardware.Lines.{join_lines}
use beastie_boy.Prelude.{
  ℕ, Option, none, some, List, [], ◌∷◌, ◌++◌, CString, str_eq, take, if◌then◌else◌,
}

-- The table in which the first entry with a name has a card family, cut to the 64 bytes of its buffer,
-- if that entry is physical.
abbrev pub give_family : CString → CString → List InterfaceEntry → List InterfaceEntry
give_family name text [] = []
give_family name text (e ∷ entries) =
    let rest = give_family name text entries in
    if str_eq e.interface_name name
    then (if is_physical_interface e then record e { card_family = take 64 text } else e) ∷ entries
    else e ∷ rest

-- The table after the blocks, in order.
abbrev pub give_families : List Block → List InterfaceEntry → List InterfaceEntry
give_families [] entries = entries
give_families (b ∷ blocks) entries = give_families blocks (give_family b.name b.family entries)

-- The lines of the blocks, one after the other.
abbrev pub all_lines : List Block → List CString
all_lines [] = []
all_lines (b ∷ blocks) = block_lines b ++ all_lines blocks

-- What VPP prints.
abbrev pub printed : List Block → CString
printed blocks = join_lines (all_lines blocks)

abbrev set_if_physical : List InterfaceEntry → CString → Option ℕ → List InterfaceEntry
set_if_physical entries text none = entries
set_if_physical entries text (some i) =
    if is_physical_at entries i then set_card_family entries i text else entries
