-- ===== src/Common/Table/Render/Lines.antt =====
-- All lines that app_table_render prints have one length.
use beastie_boy.Common.Allocator.{Heap, Grants}
use beastie_boy.Common.Table.{left, Column, Row, Table}
use beastie_boy.Common.Table.Rows.{text_or_empty}
use beastie_boy.Common.Table.Memory.{IsFull, IsValid}
use beastie_boy.Common.Table.Widths.{
  Terminal, detect_terminal_width, natural_widths, header_widths, widen, widen_all, clamp_all,
}
use beastie_boy.Common.Table.Shrink.Ends.{line_width, fit_ends}
use beastie_boy.Common.Table.Shrink.Slack.{slack, Kept, fit-Kept}
use beastie_boy.Common.Table.Cells.{length-print_cell}
use beastie_boy.Common.Table.Render.{
  join_cells, end_line, header_cells, rule_cells, row_cells, row_lines, final_widths, print_table,
  render,
}
use beastie_boy.Prelude.{
  ℕ, suc, ◌+◌, ◌*◌, ◌≤◌, ◌<◌, true, List, [], ◌∷◌, ◌++◌, CString, length, All, ◌≡◌, refl, ap, ap₂,
  arith, length-append, length-replicate, u64_mod, ◌∙◌, ◌≢◌,
}

abbrev lengths : List CString → List ℕ
lengths [] = []
lengths (x ∷ xs) = length x ∷ lengths xs

length-join_cells : (xs : List CString) → length (join_cells xs) ≡ line_width (lengths xs)
unfolding join_cells
length-join_cells [] = refl
length-join_cells (x ∷ []) = omega arith
length-join_cells (x ∷ (y ∷ r)) =
    omega (arith, length-append x (b' ' ∷ (b' ' ∷ join_cells (y ∷ r))), length-join_cells (y ∷ r))

lengths-header_cells :
    (cs : List Column) (ws : List ℕ) → length ws ≡ length cs → lengths (header_cells cs ws) ≡ ws
unfolding header_cells
lengths-header_cells (c ∷ cs) (w ∷ ws) e =
    ap₂ ◌∷◌ (length-print_cell (text_or_empty c.header) w left)
      (lengths-header_cells cs ws (omega arith))
lengths-header_cells (c ∷ cs) [] e = refl
lengths-header_cells [] [] e = refl
lengths-header_cells [] (w ∷ ws) e = absurd (omega arith)

lengths-rule_cells : (ws : List ℕ) → lengths (rule_cells ws) ≡ ws
unfolding rule_cells
lengths-rule_cells [] = refl
lengths-rule_cells (w ∷ ws) = ap₂ ◌∷◌ (length-replicate w b'-') (lengths-rule_cells ws)

lengths-row_cells :
    (cs : List Column) (ws : List ℕ) (r : Row)
    → length ws ≡ length cs
    → length r ≡ length cs
    → lengths (row_cells cs ws r) ≡ ws
unfolding row_cells
lengths-row_cells (c ∷ cs) (w ∷ ws) (v ∷ r) e f =
    ap₂ ◌∷◌ (length-print_cell (text_or_empty v) w c.align)
      (lengths-row_cells cs ws r (omega arith) (omega arith))
lengths-row_cells (c ∷ cs) (w ∷ ws) [] e f = absurd (omega arith)
lengths-row_cells (c ∷ cs) [] r e f = absurd (omega arith)
lengths-row_cells [] [] r e f = refl
lengths-row_cells [] (w ∷ ws) r e f = absurd (omega arith)

length-end_line : (s : CString) → length (end_line s) ≡ length s + 1
length-end_line s = length-append s (b'\n' ∷ [])

length-line :
    (xs : List CString) (ws : List ℕ)
    → lengths xs ≡ ws
    → length (end_line (join_cells xs)) ≡ line_width ws + 1
length-line xs ws e = length-end_line (join_cells xs) ∙ rw (length-join_cells, e)

length-row_lines :
    (cs : List Column) (ws : List ℕ) (rows : List Row)
    → length ws ≡ length cs
    → All (IsFull (length cs)) rows
    → length (row_lines cs ws rows) ≡ length rows * (line_width ws + 1)
unfolding row_lines
length-row_lines cs ws [] e full = omega arith
length-row_lines cs ws (r ∷ rows) e (f, full) =
    let n = length-line (row_cells cs ws r) ws (lengths-row_cells cs ws r e f.0) in
    length-append (end_line (join_cells (row_cells cs ws r))) (row_lines cs ws rows)
    ∙ rw (n, length-row_lines cs ws rows e full) (omega arith)

length-header_widths : (cs : List Column) → length (header_widths cs) ≡ length cs
unfolding header_widths
length-header_widths [] = refl
length-header_widths (c ∷ cs) = ap suc (length-header_widths cs)

length-widen : (ws : List ℕ) (r : Row) → length (widen ws r) ≡ length ws
unfolding widen
length-widen [] r = refl
length-widen (w ∷ ws) [] = refl
length-widen (w ∷ ws) (v ∷ r) = ap suc (length-widen ws r)

length-widen_all : (ws : List ℕ) (rows : List Row) → length (widen_all ws rows) ≡ length ws
unfolding widen_all
length-widen_all ws [] = refl
length-widen_all ws (r ∷ rows) = length-widen_all (widen ws r) rows ∙ length-widen ws r

length-clamp_all : (ws : List ℕ) (cs : List Column) → length (clamp_all ws cs) ≡ length ws
unfolding clamp_all
length-clamp_all [] cs = refl
length-clamp_all (w ∷ ws) [] = refl
length-clamp_all (w ∷ ws) (c ∷ cs) = ap suc (length-clamp_all ws cs)

length-natural_widths : (t : Table) → length (natural_widths t) ≡ length t.columns
unfolding natural_widths
length-natural_widths t =
    length-clamp_all (widen_all (header_widths t.columns) t.rows) t.columns
    ∙ length-widen_all (header_widths t.columns) t.rows
    ∙ length-header_widths t.columns

length-final_widths :
    (term : Terminal) (t : Table)
    → line_width (natural_widths t) < u64_mod
    → length (final_widths term t) ≡ length t.columns
unfolding final_widths
length-final_widths term t small =
    (fit_ends t.columns (natural_widths t) (detect_terminal_width term) small).0
    ∙ length-natural_widths t

length-print_table :
    (t : Table) (ws : List ℕ)
    → IsValid t
    → length ws ≡ length t.columns
    → length (print_table t ws) ≡ (length t.rows + 2) * (line_width ws + 1)
unfolding print_table
length-print_table t ws valid e =
    let head = length-line (header_cells t.columns ws) ws (lengths-header_cells t.columns ws e) in
    let rule = length-line (rule_cells ws) ws (lengths-rule_cells ws) in
    let rows = length-row_lines t.columns ws t.rows e valid.full in
    let rest = end_line (join_cells (rule_cells ws)) ++ row_lines t.columns ws t.rows in
    length-append (end_line (join_cells (header_cells t.columns ws))) rest
    ∙ rw
        (
          head,
          length-append (end_line (join_cells (rule_cells ws))) (row_lines t.columns ws t.rows),
          rule,
          rows,
        )
        (omega arith)

render-eq-print_table :
    (grants : Grants) (term : Terminal) (t : Table) (h : Heap)
    → t.columns ≢ []
    → grants h.asked (length t.columns * 8) ≡ true
    → (render grants term t h).0 ≡ print_table t (final_widths term t)
unfolding render
render-eq-print_table grants term t h some_columns granted = ground arith

-- A well-formed table that has columns, whose widths before shrinking add up to less than 2^64, and
-- for which the array of widths is granted, is printed in as many characters as it takes for a header,
-- a rule and the rows, each as long as the final widths with the gaps and the newline.
pub length-render :
    (grants : Grants) (term : Terminal) (t : Table) (h : Heap)
    → IsValid t
    → t.columns ≢ []
    → line_width (natural_widths t) < u64_mod
    → grants h.asked (length t.columns * 8) ≡ true
    → length (render grants term t h).0
      ≡ (length t.rows + 2) * (line_width (final_widths term t) + 1)
length-render grants term t h valid some_columns small granted =
    rw (render-eq-print_table grants term t h some_columns granted)
      (length-print_table t (final_widths term t) valid (length-final_widths term t small))

-- The array of widths is freed again.
pub render_frees :
    (grants : Grants) (term : Terminal) (t : Table) (h : Heap)
    → (render grants term t h).1.live ≡ h.live
unfolding render
render_frees grants term t h = ground arith

-- Where the widths before shrinking add up to less than 2^64, and to no more than the terminal and the
-- slack of the flexible columns, the lines are no longer than the terminal is wide,
-- the other columns keep the width that their contents ask for, and no flexible column is cut below
-- its minimum.
pub final_widths_fit :
    (term : Terminal) (t : Table)
    → line_width (natural_widths t) < u64_mod
    → line_width (natural_widths t)
      ≤ detect_terminal_width term + slack t.columns (natural_widths t)
    → (line_width (final_widths term t) ≤ detect_terminal_width term)
      × Kept t.columns (natural_widths t) (final_widths term t)
unfolding final_widths
final_widths_fit term t = fit-Kept t.columns (natural_widths t) (detect_terminal_width term)
