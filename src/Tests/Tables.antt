-- ===== src/Tests/Tables.antt =====
-- A table of two columns and two rows, and the theorems on the common part applied to small inputs.
use beastie_boy.Common.Allocator.{Heap, Grants}
use beastie_boy.Common.Strtoul.{strtoul, decimal}
use beastie_boy.Common.Strtoul.Decimal.{strtoul-decimal}
use beastie_boy.Common.Table.{left, right, Column, Row, Table}
use beastie_boy.Common.Table.Cells.{print_cell, print_cell_whole}
use beastie_boy.Common.Table.Growth.{reserve, reserved, grown_to, reserve_lem}
use beastie_boy.Common.Table.Lifecycle.{add_rows, add_row-IsValid, lifecycle}
use beastie_boy.Common.Table.Memory.{copies, IsValid, Stored, Ensures, add_row_lem}
use beastie_boy.Common.Table.Render.{final_widths, render}
use beastie_boy.Common.Table.Render.Lines.{length-render, render_frees, final_widths_fit}
use beastie_boy.Common.Table.Rows.{init, add_row, free_table, cell_blocks}
use beastie_boy.Common.Table.Shrink.{fit, may_flex, may_narrow}
use beastie_boy.Common.Table.Shrink.Ends.{line_width, Stuck, fit_ends}
use beastie_boy.Common.Table.Shrink.Slack.{slack, Kept}
use beastie_boy.Common.Table.Widths.{Terminal, detect_terminal_width, natural_widths, total_width}
use beastie_boy.Prelude.{
  ℕ, ◌+◌, ◌*◌, ◌≤◌, ◌<◌, true, false, none, some, [], ◌∷◌, ◌++◌, map, codes, length, replicate, ◌≡◌,
  ◌⊎◌, refl, arith,
}

abbrev willing : Grants
willing n size = true

abbrev no_blocks : Heap
no_blocks = record { asked = 0; live = 0 }

-- A column that may shrink, and one that may not.
abbrev name_column : Column
name_column = record {
  header = some (codes "Name");
  min_width = 4;
  max_width = 0;
  is_flexible = true;
  align = left;
}

abbrev index_column : Column
index_column = record {
  header = some (codes "Index");
  min_width = 5;
  max_width = 8;
  is_flexible = false;
  align = right;
}

abbrev memif_row : Row
memif_row = some (codes "memif0/0") ∷ some (codes "3") ∷ []

abbrev empty : Table
empty = record { columns = name_column ∷ index_column ∷ []; rows = []; row_capacity = 0 }

abbrev one_row : Table
one_row = record empty { rows = memif_row ∷ []; row_capacity = 8 }

empty-IsValid : IsValid empty
empty-IsValid = record { room = omega arith; full = tt }

one_row-IsValid : IsValid one_row
unfolding cell_blocks
one_row-IsValid = record { room = omega arith; full = ((refl, refl), tt) }

lifecycle_example :
    Ensures
      (λ b t' h'.
        ((free_table t' h').1.live ≡ 0)
        × (b ≡ true → t'.rows ≡ map (copies 2) (memif_row ∷ memif_row ∷ [])))
      (add_rows willing empty (memif_row ∷ memif_row ∷ []) (record { asked = 1; live = 1 }))
unfolding init
lifecycle_example =
    lifecycle willing one_row empty (name_column ∷ index_column ∷ []) (memif_row ∷ memif_row ∷ [])
      no_blocks (record { asked = 1; live = 1 }) refl (omega arith) (omega arith, (omega arith, tt))

add_row-IsValid_example :
    Ensures (λ b t' h'. IsValid t') (add_row willing one_row (some memif_row) no_blocks)
add_row-IsValid_example =
    add_row-IsValid willing one_row memif_row no_blocks one_row-IsValid (omega arith) (omega arith)

add_row_lem_example :
    Ensures
      (Stored one_row memif_row no_blocks)
      (add_row willing one_row (some memif_row) no_blocks)
add_row_lem_example =
    add_row_lem willing one_row memif_row no_blocks (omega arith) (omega arith) (omega arith)

reserve_lem_example :
    ((9 ≤ 8) × (reserve willing 8 8 9 no_blocks ≡ reserved 8 no_blocks))
    ⊎ ((8 < 9)
        × ((c : ℕ) × (9 ≤ c)
            × ((c ≤ 8) ⊎ (c < 2 * 9))
            × (reserve willing 8 8 9 no_blocks ≡ grown_to willing 8 8 c no_blocks)))
reserve_lem_example = reserve_lem willing 8 8 9 no_blocks (omega arith)

fit_ends_example :
    let cs = name_column ∷ index_column ∷ [] in
    let ws = fit cs (8 ∷ 5 ∷ []) 12 in
    (length ws ≡ 2)
    × (line_width ws ≤ 15)
    × ((line_width ws ≤ 12) ⊎ (Stuck may_flex cs ws × Stuck may_narrow cs ws))
fit_ends_example = fit_ends (name_column ∷ index_column ∷ []) (8 ∷ 5 ∷ []) 12 (omega arith)

fits_in_12 : fit (name_column ∷ index_column ∷ []) (8 ∷ 5 ∷ []) 12 ≡ 5 ∷ 5 ∷ []
unfolding fit total_width
fits_in_12 = refl

abbrev narrow : Terminal
narrow = record { columns_env = none; window_columns = some 12 }

final_widths_fit_example :
    (line_width (final_widths narrow one_row) ≤ detect_terminal_width narrow)
    × Kept (name_column ∷ index_column ∷ []) (natural_widths one_row) (final_widths narrow one_row)
unfolding natural_widths detect_terminal_width slack
final_widths_fit_example = final_widths_fit narrow one_row (omega arith) (omega arith)

length-render_example :
    length (render willing narrow one_row no_blocks).0
    ≡ (length one_row.rows + 2) * (line_width (final_widths narrow one_row) + 1)
unfolding natural_widths
length-render_example =
    length-render willing narrow one_row no_blocks one_row-IsValid (λ e. cc) (omega arith) refl

render_frees_example : (render willing narrow one_row no_blocks).1.live ≡ 0
render_frees_example = render_frees willing narrow one_row no_blocks

print_cell_whole_example :
    (print_cell (codes "rx") 4 left ≡ codes "rx" ++ replicate 2 b' ')
    × (print_cell (codes "rx") 4 right ≡ replicate 2 b' ' ++ codes "rx")
print_cell_whole_example = print_cell_whole (codes "rx") 4 (omega arith)

strtoul-decimal_example : strtoul (decimal 120) ≡ record { value = 120; converted = true; end = [] }
strtoul-decimal_example = strtoul-decimal 120 (omega arith)
