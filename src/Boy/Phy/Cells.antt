-- ===== src/Boy/Phy/Cells.antt =====
-- The texts that boy/commands/phy_cmd.c prints into buffers of 16 bytes.
use beastie_boy.Boy.Collectors.{InterfaceEntry, is_physical_interface}
use beastie_boy.Boy.Phy.{phy_link_state, phy_speed, phy_row, phy_rows}
use beastie_boy.Common.Strtoul.{decimal}
use beastie_boy.Common.Strtoul.Decimal.{length-decimal}
use beastie_boy.Common.Table.Lifecycle.{Fits}
use beastie_boy.Prelude.{
  ℕ, ◌/◌, ◌%◌, ◌≤◌, ◌<◌, some, List, [], ◌∷◌, codes, length, length-append, take-short, ◌==◌,
  u32_mod, ◌≡◌, refl, arith, Bool-cases, inl, inr,
}

length-phy_speed : (n : ℕ) → n < u32_mod → length (phy_speed n) ≤ 14
unfolding phy_speed
length-phy_speed n h = elim (Bool-cases (n == 0)) [
  | inl e ↦ rw e (omega arith)
  | inr e ↦ elim (Bool-cases (n % 1000 == 0)) [
    | inl f ↦
        rw (e, f)
          (omega (
            arith,
            length-append (decimal (n / 1000)) (codes "Gbps"),
            length-decimal (n / 1000) (omega arith),
          ))
    | inr f ↦
        rw (e, f) (omega (arith, length-append (decimal n) (codes "Mbps"), length-decimal n h))
  ]
]

-- The index and the speed of an interface, which fit a u32, are printed whole: their texts fit the
-- buffers of 16 bytes with the final zero byte, so that the row of `boy_show_phy` has the six texts of
-- the interface uncut.
pub phy_row-whole :
    (e : InterfaceEntry)
    → e.sw_if_index < u32_mod
    → e.link_speed < u32_mod
    → (length (decimal e.sw_if_index) < 16)
      × (length (phy_speed e.link_speed) < 16)
      × (phy_row e
          ≡ some e.interface_name
            ∷ some (decimal e.sw_if_index)
            ∷ some (phy_link_state e.flags)
            ∷ some (phy_speed e.link_speed)
            ∷ some e.ethernet_address
            ∷ some e.card_family
            ∷ [])
unfolding phy_row
phy_row-whole e h k =
    let index = length-decimal e.sw_if_index h in
    let speed = length-phy_speed e.link_speed k in
    (
      omega (arith, index),
      omega (arith, speed),
      rw
          (
            take-short 15 (decimal e.sw_if_index) (omega (arith, index)),
            take-short 15 (phy_speed e.link_speed) (omega (arith, speed)),
          )
          refl,
    )

-- Each row has a cell for each column.
pub phy_rows-Fits : (entries : List InterfaceEntry) → Fits 6 (phy_rows entries)
unfolding phy_rows phy_row
phy_rows-Fits [] = tt
phy_rows-Fits (e ∷ entries) = elim (Bool-cases (is_physical_interface e)) [
  | inl p ↦ rw p (omega arith, phy_rows-Fits entries)
  | inr p ↦ rw p (phy_rows-Fits entries)
]

-- At most a row for each interface.
pub length-phy_rows : (entries : List InterfaceEntry) → length (phy_rows entries) ≤ length entries
unfolding phy_rows
length-phy_rows [] = omega arith
length-phy_rows (e ∷ entries) =
    let rest = length-phy_rows entries in
    elim (Bool-cases (is_physical_interface e)) [
      | inl p ↦ rw p (omega (arith, rest))
      | inr p ↦ rw p (omega (arith, rest))
    ]
