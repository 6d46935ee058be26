-- ===== src/Common/Table/Shrink.antt =====
-- The loop of app_table_render in common/table.c that takes columns in until the table fits the
-- terminal: flexible columns down to their minimum first, then any column that is wider than 3.
pub mod Ends
pub mod Slack
use beastie_boy.Common.Table.{Column}
use beastie_boy.Common.Table.Widths.{total_width}
use beastie_boy.Prelude.{
  ℕ, zero, suc, ◌+◌, ◌-◌, ◌≤◌, ◌<◌, Bool, true, false, ◌&&◌, List, [], ◌∷◌, ltb, ◌==◌,
  if◌then◌else◌, length, sum, ◌≡◌, refl, ◌⊎◌, inl, inr, arith, Bool-cases,
}

-- The widths, the overflow that is left, and whether a round took anything in.
pub record Pass : Type 0 where
  pub widths : List ℕ
  pub overflow : ℕ
  pub reduced : Bool

-- One `for` loop: a column that `may` shrink gives up one character while there is overflow.
unfoldable pub pass : (Column → ℕ → Bool) → List Column → List ℕ → ℕ → Pass
pass may (c ∷ cs) (w ∷ ws) overflow =
    let takes = ltb 0 overflow && may c w in
    let rest = pass may cs ws (if takes then overflow - 1 else overflow) in
    record {
      widths = (if takes then w - 1 else w) ∷ rest.widths;
      overflow = rest.overflow;
      reduced = if takes then true else rest.reduced;
    }
pass may cs ws overflow = record { widths = ws; overflow = overflow; reduced = false }

abbrev pub may_flex : Column → ℕ → Bool
may_flex c w = c.is_flexible && ltb c.min_width w

abbrev pub may_narrow : Column → ℕ → Bool
may_narrow c w = ltb 3 w

-- The body of the `while`.
unfoldable pub round : List Column → List ℕ → ℕ → Pass
unfolding pass
round cs ws overflow =
    let first = pass may_flex cs ws overflow in
    if first.reduced then first else pass may_narrow cs first.widths first.overflow

-- `while (overflow > 0)`. A round that takes something in lowers the overflow, so `overflow + 1`
-- rounds are enough.
unfoldable pub shrink : ℕ → List Column → List ℕ → ℕ → Pass
unfolding round
shrink zero cs ws overflow = record { widths = ws; overflow = overflow; reduced = false }
shrink (suc fuel) cs ws overflow =
    let r = round cs ws overflow in
    let rest = shrink fuel cs r.widths r.overflow in
    if overflow == 0
    then record { widths = ws; overflow = overflow; reduced = false }
    else (if r.reduced then rest else r)

unfoldable pub fit : List Column → List ℕ → ℕ → List ℕ
unfolding shrink
fit cs ws available =
    let total = total_width ws in
    let overflow = total - available in
    if ltb available total then (shrink (overflow + 1) cs ws overflow).widths else ws
