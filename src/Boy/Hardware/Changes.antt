-- ===== src/Boy/Hardware/Changes.antt =====
-- What a line of the text may change in the entries: the card families that boy/commands/phy_cmd.c writes.
use beastie_boy.Boy.Collectors.{InterfaceEntry, is_physical_interface}
use beastie_boy.Boy.Hardware.{is_empty, is_physical_at, set_card_family}
use beastie_boy.Prelude.{
  ℕ, zero, suc, ◌≤◌, true, false, List, [], ◌∷◌, CString, contains_char, length, take, length-take,
  ◌≡◌, ◌⊎◌, inl, inr, refl, arith, ◌∙◌, ap, sym,
}

-- A text that a line may give a card family: it fits the buffer of 65 bytes, is not empty and has no
-- colon.
pub record IsFamily (text : CString) : Type 0 where
  pub fits : length text ≤ 64
  pub filled : is_empty text ≡ false
  pub no_colon : contains_char text b':' ≡ false

-- An entry stays, or it is physical and only its card family changes.
abbrev pub Overridden : InterfaceEntry → InterfaceEntry → Type 0
Overridden e e' =
    (e' ≡ e)
    ⊎ ((is_physical_interface e ≡ true)
        × ((text : CString) × IsFamily text × (e' ≡ record e { card_family = text })))

-- Two tables of the same length, entry by entry.
abbrev pub AllOverridden : List InterfaceEntry → List InterfaceEntry → Type 0
AllOverridden [] [] = Unit
AllOverridden [] (e' ∷ entries') = ⊥
AllOverridden (e ∷ entries) [] = ⊥
AllOverridden (e ∷ entries) (e' ∷ entries') = Overridden e e' × AllOverridden entries entries'

pub AllOverridden-refl : (entries : List InterfaceEntry) → AllOverridden entries entries
AllOverridden-refl [] = tt
AllOverridden-refl (e ∷ entries) = (inl refl, AllOverridden-refl entries)

abbrev with_family : InterfaceEntry → CString → InterfaceEntry
with_family e text = record e { card_family = text }

Overridden-trans : (a b c : InterfaceEntry) → Overridden a b → Overridden b c → Overridden a c
unfolding is_physical_interface
Overridden-trans a b c (inl e) q = rw (sym e) q
Overridden-trans a b c (inr (p, (text, f, e))) (inl e') = inr (p, (text, f, e' ∙ e))
Overridden-trans a b c (inr (p, (text, f, e))) (inr (p', (text', f', e'))) =
    inr (p, (text', f', e' ∙ ap (λ (d : InterfaceEntry). with_family d text') e))

pub AllOverridden-trans :
    (xs ys zs : List InterfaceEntry)
    → AllOverridden xs ys
    → AllOverridden ys zs
    → AllOverridden xs zs
AllOverridden-trans [] [] [] p q = tt
AllOverridden-trans [] [] (z ∷ zs) p q = q
AllOverridden-trans [] (y ∷ ys) zs p q = absurd p
AllOverridden-trans (x ∷ xs) [] zs p q = absurd p
AllOverridden-trans (x ∷ xs) (y ∷ ys) [] p q = absurd q
AllOverridden-trans (x ∷ xs) (y ∷ ys) (z ∷ zs) (p, ps) (q, qs) =
    (Overridden-trans x y z p q, AllOverridden-trans xs ys zs ps qs)

contains_char-take :
    (n ch : ℕ) (s : CString) → contains_char s ch ≡ false → contains_char (take n s) ch ≡ false
unfolding contains_char
contains_char-take zero ch s h = refl
contains_char-take (suc n) ch [] h = refl
contains_char-take (suc n) ch (c ∷ s) h = ground (arith, contains_char-take n ch s)

pub take-IsFamily :
    (text : CString)
    → is_empty text ≡ false
    → contains_char text b':' ≡ false
    → IsFamily (take 64 text)
take-IsFamily [] p q = record { fits = omega arith; filled = p; no_colon = q }
take-IsFamily (c ∷ text) p q = record {
  fits = omega (arith, length-take 64 (c ∷ text));
  filled = refl;
  no_colon = contains_char-take 64 b':' (c ∷ text) q;
}

-- A physical entry gets a family.
pub set_card_family-AllOverridden :
    (entries : List InterfaceEntry) (i : ℕ) (text : CString)
    → is_physical_at entries i ≡ true
    → IsFamily (take 64 text)
    → AllOverridden entries (set_card_family entries i text)
unfolding set_card_family is_physical_at
set_card_family-AllOverridden [] i text p f = tt
set_card_family-AllOverridden (e ∷ entries) zero text p f =
    (inr (p, (take 64 text, f, refl)), AllOverridden-refl entries)
set_card_family-AllOverridden (e ∷ entries) (suc i) text p f =
    (inl refl, set_card_family-AllOverridden entries i text p f)
