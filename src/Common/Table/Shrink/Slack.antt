-- ===== src/Common/Table/Shrink/Slack.antt =====
-- Where the flexible columns have room enough, app_table_render takes in those columns alone.
use beastie_boy.Common.Table.{Column}
use beastie_boy.Common.Table.Widths.{total_width}
use beastie_boy.Common.Table.Shrink.{Pass, pass, may_flex, round, shrink, fit}
use beastie_boy.Common.Table.Shrink.Ends.{
  pass_lem, flex_pos, line_width, total_width_lem, shrink_lem,
}
use beastie_boy.Prelude.{
  ℕ, zero, suc, ◌+◌, ◌-◌, ◌≤◌, ◌<◌, true, List, [], ◌∷◌, ltb, ◌==◌, if◌then◌else◌, ◌≡◌, refl, ◌⊎◌,
  inl, inr, arith, Bool-cases, ltb→lt, ◌∙◌, u64_mod,
}

-- How many characters the flexible columns can give up before they are at their minimum.
unfoldable pub slack : List Column → List ℕ → ℕ
slack (c ∷ cs) (w ∷ ws) = (if c.is_flexible then w - c.min_width else 0) + slack cs ws
slack cs ws = 0

-- A column is as wide as before, or it is flexible, narrower, and no narrower than its minimum.
abbrev pub KeptWidth : Column → ℕ → ℕ → Type 0
KeptWidth c w w' = (w' ≡ w) ⊎ ((c.is_flexible ≡ true) × (c.min_width ≤ w') × (w' ≤ w))

abbrev pub Kept : List Column → List ℕ → List ℕ → Type 0
Kept (c ∷ cs) (w ∷ ws) (w' ∷ ws') = KeptWidth c w w' × Kept cs ws ws'
Kept [] ws ws' = ws' ≡ ws
Kept (c ∷ cs) [] ws' = ws' ≡ []
Kept (c ∷ cs) (w ∷ ws) [] = ⊥

Kept-refl : (cs : List Column) (ws : List ℕ) → Kept cs ws ws
Kept-refl (c ∷ cs) (w ∷ ws) = (inl refl, Kept-refl cs ws)
Kept-refl [] ws = refl
Kept-refl (c ∷ cs) [] = refl

KeptWidth-trans : (c : Column) (u v w : ℕ) → KeptWidth c u v → KeptWidth c v w → KeptWidth c u w
KeptWidth-trans c u v w p q = ground arith

Kept-trans : (cs : List Column) (us vs ws : List ℕ) → Kept cs us vs → Kept cs vs ws → Kept cs us ws
Kept-trans (c ∷ cs) (u ∷ us) (v ∷ vs) (w ∷ ws) (p, ps) (q, qs) =
    (KeptWidth-trans c u v w p q, Kept-trans cs us vs ws ps qs)
Kept-trans (c ∷ cs) (u ∷ us) (v ∷ vs) [] (p, ps) q = q
Kept-trans (c ∷ cs) (u ∷ us) [] ws p q = absurd p
Kept-trans (c ∷ cs) [] (v ∷ vs) ws p q = absurd (cc)
Kept-trans (c ∷ cs) [] [] ws p q = q
Kept-trans [] us vs ws p q = q ∙ p

record FlexEnsures (cs : List Column) (ws : List ℕ) (o : ℕ) (p : Pass) : Type 0 where
  same_slack : slack cs p.widths + o ≡ slack cs ws + p.overflow
  kept : Kept cs ws p.widths
  gives : 1 ≤ o → 1 ≤ slack cs ws → p.reduced ≡ true

flex_lem : (cs : List Column) (ws : List ℕ) (o : ℕ) → FlexEnsures cs ws o (pass may_flex cs ws o)
unfolding pass slack
flex_lem (c ∷ cs) (w ∷ ws) o = ground (arith, flex_lem cs ws (o - 1), flex_lem cs ws o)
flex_lem [] ws o = record { same_slack = refl; kept = refl; gives = λ h k. absurd (omega arith) }
flex_lem (c ∷ cs) [] o = record {
  same_slack = refl;
  kept = refl;
  gives = λ h k. absurd (omega arith);
}

round-slack :
    (cs : List Column) (ws : List ℕ) (o : ℕ)
    → 1 ≤ o
    → 1 ≤ slack cs ws
    → (round cs ws o ≡ pass may_flex cs ws o) × ((round cs ws o).reduced ≡ true)
unfolding round
round-slack cs ws o h k = ground (arith, (flex_lem cs ws o).gives h k)

shrink-slack :
    (fuel : ℕ) (cs : List Column) (ws : List ℕ) (o : ℕ)
    → o < fuel
    → o ≤ slack cs ws
    → ((shrink fuel cs ws o).overflow ≡ 0) × Kept cs ws (shrink fuel cs ws o).widths
unfolding shrink
shrink-slack zero cs ws o h k = absurd (omega arith)
shrink-slack (suc fuel) cs ws o h k = elim (Bool-cases (o == 0)) [
  | inl z ↦ rw z (ground arith, Kept-refl cs ws)
  | inr z ↦
      let r = pass may_flex cs ws o in
      let f = flex_lem cs ws o in
      let p = pass_lem may_flex cs ws o flex_pos in
      let (same, reduced) = round-slack cs ws o (ground arith) (ground arith) in
      let (gone, kept) =
        shrink-slack fuel cs r.widths r.overflow
          (omega (arith, p.lowered (f.gives (ground arith) (ground arith))))
          (omega (arith, f.same_slack)) in
      rw (z, reduced, same) (gone, Kept-trans cs ws r.widths _ f.kept kept)
]

-- If the flexible columns can make up for the overflow while they keep their minimum widths, the
-- lines fit the terminal, no other column changes, and no flexible one is cut below its minimum.
pub fit-Kept :
    (cs : List Column) (ws : List ℕ) (available : ℕ)
    → line_width ws < u64_mod
    → line_width ws ≤ available + slack cs ws
    → (line_width (fit cs ws available) ≤ available) × Kept cs ws (fit cs ws available)
unfolding fit
fit-Kept cs ws available small enough = elim (Bool-cases (ltb available (total_width ws))) [
  | inl e ↦
      let o = total_width ws - available in
      let p = shrink_lem (o + 1) cs ws o (omega arith) in
      let (gone, kept) =
        shrink-slack (o + 1) cs ws o (omega arith) (omega (arith, total_width_lem ws small)) in
      rw e (
        omega (
          arith,
          gone,
          p.same_sum,
          p.same_length,
          total_width_lem ws small,
          ltb→lt available (total_width ws) e,
        ),
        kept,
      )
  | inr e ↦ rw e (ground (arith, total_width_lem ws small), Kept-refl cs ws)
]
