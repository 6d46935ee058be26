-- ===== src/Common/Table/Widths.antt =====
-- app_table_detect_terminal_width, app_table_clamp_width and the first half of app_table_render of
-- common/table.c: how wide each column would like to be, and how much room there is.
use beastie_boy.Common.Table.{Column, Row, Table}
use beastie_boy.Common.Table.Rows.{text_or_empty}
use beastie_boy.Common.Strtoul.{strtoul}
use beastie_boy.Prelude.{
  ℕ, ◌-◌, ◌≤◌, Bool, true, false, not, ◌&&◌, Option, none, some, List, [], ◌∷◌, CString, ltb, ◌==◌,
  if◌then◌else◌, length, add64, mul64, ◌≡◌, ◌⊎◌, arith,
}

-- Macros APP_TABLE_DEFAULT_TERMINAL_WIDTH and APP_TABLE_COLUMN_GAP.
abbrev pub default_terminal_width : ℕ
default_terminal_width = 120

abbrev pub column_gap : ℕ
column_gap = 2

-- What the process sees: COLUMNS, and the columns that TIOCGWINSZ gives if the stream is a terminal.
pub record Terminal : Type 0 where
  pub columns_env : Option CString
  pub window_columns : Option ℕ

unfoldable pub is_empty : CString → Bool
is_empty [] = true
is_empty (c ∷ s) = false

unfoldable pub window_width : Option ℕ → ℕ
window_width none = default_terminal_width
window_width (some n) = if ltb 0 n then n else default_terminal_width

unfoldable pub detect_terminal_width : Terminal → ℕ
unfolding window_width is_empty
detect_terminal_width t = elim t.columns_env [
  | none ↦ window_width t.window_columns
  | some text ↦
      let c = strtoul text in
      if not (is_empty text) && (c.converted && (is_empty c.end && ltb 0 c.value))
      then c.value
      else window_width t.window_columns
]

unfoldable pub clamp_width : ℕ → Column → ℕ
clamp_width width c =
    let at_least = if ltb width c.min_width then c.min_width else width in
    if not (c.max_width == 0) && ltb c.max_width at_least then c.max_width else at_least

-- The loop over the cells of one row.
unfoldable pub widen : List ℕ → Row → List ℕ
widen [] cells = []
widen (w ∷ ws) [] = w ∷ ws
widen (w ∷ ws) (c ∷ cells) =
    let len = length (text_or_empty c) in (if ltb w len then len else w) ∷ widen ws cells

unfoldable pub widen_all : List ℕ → List Row → List ℕ
unfolding widen
widen_all ws [] = ws
widen_all ws (r ∷ rows) = widen_all (widen ws r) rows

unfoldable pub clamp_all : List ℕ → List Column → List ℕ
unfolding clamp_width
clamp_all [] cs = []
clamp_all (w ∷ ws) [] = w ∷ ws
clamp_all (w ∷ ws) (c ∷ cs) = clamp_width w c ∷ clamp_all ws cs

unfoldable pub header_widths : List Column → List ℕ
header_widths [] = []
header_widths (c ∷ cs) = length (text_or_empty c.header) ∷ header_widths cs

unfoldable pub natural_widths : Table → List ℕ
unfolding widen_all clamp_all header_widths
natural_widths t = clamp_all (widen_all (header_widths t.columns) t.rows) t.columns

unfoldable pub add_widths : ℕ → List ℕ → ℕ
add_widths total [] = total
add_widths total (w ∷ ws) = add_widths (add64 total w) ws

-- `total_width`, in `size_t`.
unfoldable pub total_width : List ℕ → ℕ
unfolding add_widths
total_width ws =
    let total = add_widths 0 ws in
    if ltb 1 (length ws) then add64 total (mul64 column_gap (length ws - 1)) else total

-- A terminal has at least one column.
pub detect_terminal_width_pos : (t : Terminal) → 1 ≤ detect_terminal_width t
unfolding detect_terminal_width
detect_terminal_width_pos t = ground arith

-- In a column without a maximum, or with one that is no smaller than its minimum, a clamped width is
-- at least the minimum and at most the maximum.
pub clamp_width_bounds :
    (width : ℕ) (c : Column)
    → (c.max_width ≡ 0) ⊎ (c.min_width ≤ c.max_width)
    → (c.min_width ≤ clamp_width width c)
      × ((c.max_width ≡ 0) ⊎ (clamp_width width c ≤ c.max_width))
unfolding clamp_width
clamp_width_bounds width c h = ground arith
