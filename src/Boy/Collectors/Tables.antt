-- ===== src/Boy/Collectors/Tables.antt =====
-- The entries that boy/collectors.c makes: their texts fit the buffers, and which entries are selected.
use beastie_boy.Boy.Collectors.{
  InterfaceEntry, is_hardware, is_sub, is_span_source_candidate, is_physical_interface,
  memif_flags_to_string, hex_byte, format_address, interface_entry,
}
use beastie_boy.Boy.Vpp.{IfFlags, InterfaceDetails, IfType, hardware, sub, p2p, pipe, other_type}
use beastie_boy.Prelude.{
  ℕ, ◌+◌, ◌*◌, ◌<◌, true, false, not, ◌&&◌, List, [], ◌∷◌, codes, str_eq, starts_with,
  contains_char, length, take, take-length, if◌then◌else◌, ◌≡◌, refl, ap, arith, ◌∙◌, sym, ◌↔◌, ◌⊎◌,
  str_eq_iff, ◌≢◌,
}

-- Each entry that `boy_show_phy` shows is one that `boy_show_span` shows as a source.
pub is_physical-is_candidate :
    (e : InterfaceEntry) → is_physical_interface e ≡ true → is_span_source_candidate e ≡ true
unfolding is_physical_interface is_span_source_candidate
is_physical-is_candidate e h = ground arith

length-format_address :
    (b : ℕ) (bytes : List ℕ) → length (format_address (b ∷ bytes)) ≡ 3 * length bytes + 2
unfolding format_address hex_byte
length-format_address b [] = refl
length-format_address b (c ∷ bytes) = omega (arith, length-format_address c bytes)

-- An address of six bytes is printed whole: it fits the buffer of 18 bytes with its final zero byte.
pub address_fits :
    (d : InterfaceDetails)
    → length d.l2_address ≡ 6
    → ((interface_entry d).ethernet_address ≡ format_address d.l2_address)
      × (length (format_address d.l2_address) ≡ 17)
unfolding interface_entry
address_fits d h = go d.l2_address h
  where
    go :
        (a : List ℕ)
        → length a ≡ 6
        → (take 17 (format_address a) ≡ format_address a) × (length (format_address a) ≡ 17)
    go [] e = ground arith
    go (b ∷ bytes) e =
        let n : length (format_address (b ∷ bytes)) ≡ 17 =
          omega (arith, length-format_address b bytes) in
        (
          ap (λ n. take n (format_address (b ∷ bytes))) (sym n)
              ∙ take-length (format_address (b ∷ bytes)),
          n,
        )

-- The flags of a memif fit their buffer of 32 bytes.
pub flags_fit : (f : IfFlags) → length (memif_flags_to_string f) < 32
unfolding memif_flags_to_string
flags_fit f = ground arith

-- An interface that is hardware, or a sub-interface with a dot in its name, is a source of SPAN unless
-- it is local0 or a memif, and no other interface is.
candidate_iff :
    (e : InterfaceEntry)
    → (is_span_source_candidate e ≡ true) ↔ (
        ((e.if_type ≡ hardware)
          ⊎ ((e.if_type ≡ sub) × (contains_char e.interface_name b'.' ≡ true)))
        × (e.interface_name ≢ codes "local0")
        × (starts_with e.interface_name (codes "memif") ≡ false))
unfolding is_span_source_candidate
candidate_iff e = go e.if_type (str_eq_iff e.interface_name (codes "local0"))
  where
    go :
        (t : IfType)
        → (str_eq e.interface_name (codes "local0") ≡ true) ↔ (e.interface_name ≡ codes "local0")
        → ((if not (is_hardware t) && not (is_sub t && contains_char e.interface_name b'.')
              then false
              else (if str_eq e.interface_name (codes "local0")
                  then false
                  else (if starts_with e.interface_name (codes "memif") then false else true)))
            ≡ true)
          ↔ (((t ≡ hardware) ⊎ ((t ≡ sub) × (contains_char e.interface_name b'.' ≡ true)))
              × (e.interface_name ≢ codes "local0")
              × (starts_with e.interface_name (codes "memif") ≡ false))
    go hardware h = ground arith
    go sub h = ground arith
    go p2p h = ground arith
    go pipe h = ground arith
    go other_type h = ground arith
