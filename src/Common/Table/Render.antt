-- ===== src/Common/Table/Render.antt =====
-- The second half of app_table_render of common/table.c: the header, the rule below it, the rows.
pub mod Lines
use beastie_boy.Common.Allocator.{Heap, Grants, allocate, release}
use beastie_boy.Common.Table.{Align, left, Column, Row, Table}
use beastie_boy.Common.Table.Rows.{text_or_empty}
use beastie_boy.Common.Table.Widths.{Terminal, detect_terminal_width, natural_widths, column_gap}
use beastie_boy.Common.Table.Shrink.{fit}
use beastie_boy.Common.Table.Cells.{print_repeated, print_cell}
use beastie_boy.Prelude.{ℕ, ◌*◌, List, [], ◌∷◌, ◌++◌, CString, if◌then◌else◌, length}

-- The columns of a line with the gap between them, and the newline.
unfoldable pub join_cells : List CString → CString
join_cells [] = []
join_cells (x ∷ []) = x
join_cells (x ∷ (y ∷ r)) = x ++ (print_repeated b' ' column_gap ++ join_cells (y ∷ r))

abbrev pub end_line : CString → CString
end_line s = s ++ (b'\n' ∷ [])

unfoldable pub header_cells : List Column → List ℕ → List CString
unfolding print_cell
header_cells (c ∷ cs) (w ∷ ws) = print_cell (text_or_empty c.header) w left ∷ header_cells cs ws
header_cells cs ws = []

unfoldable pub rule_cells : List ℕ → List CString
rule_cells [] = []
rule_cells (w ∷ ws) = print_repeated b'-' w ∷ rule_cells ws

-- `rows[i].cells[j]` for each column; a row of `app_table_add_row` has a cell for each.
unfoldable pub row_cells : List Column → List ℕ → Row → List CString
unfolding print_cell
row_cells (c ∷ cs) (w ∷ ws) (v ∷ cells) =
    print_cell (text_or_empty v) w c.align ∷ row_cells cs ws cells
row_cells cs ws cells = []

unfoldable pub row_lines : List Column → List ℕ → List Row → CString
unfolding row_cells join_cells
row_lines cs ws [] = []
row_lines cs ws (r ∷ rows) = end_line (join_cells (row_cells cs ws r)) ++ row_lines cs ws rows

-- The widths that the lines are printed with.
unfoldable pub final_widths : Terminal → Table → List ℕ
final_widths term t = fit t.columns (natural_widths t) (detect_terminal_width term)

unfoldable pub print_table : Table → List ℕ → CString
print_table t ws =
    end_line (join_cells (header_cells t.columns ws))
    ++ (end_line (join_cells (rule_cells ws)) ++ row_lines t.columns ws t.rows)

-- What is written to the stream, and the heap. Nothing is written for a table without columns, or
-- where the array of widths cannot be had; the callers never pass NULL.
unfoldable pub render : Grants → Terminal → Table → Heap → CString × Heap
render grants term t h = elim t.columns [
  | [] ↦ ([], h)
  | c ∷ cs ↦
      let g = allocate grants (length t.columns * 8) h in
      if g.granted then (print_table t (final_widths term t), release 1 g.heap) else ([], g.heap)
]
