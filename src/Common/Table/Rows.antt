-- ===== src/Common/Table/Rows.antt =====
-- app_table_strdup, app_table_init, app_table_free and app_table_add_row of common/table.c: who owns
-- which block of memory, on every path.
use beastie_boy.Common.Allocator.{Heap, Grants, allocate, release}
use beastie_boy.Common.Table.{Column, Row, Table}
use beastie_boy.Common.Table.Growth.{Reserve, reserve, endless as never_grown, refused, reserved}
use beastie_boy.Prelude.{
  ℕ, zero, suc, ◌+◌, ◌*◌, Bool, true, false, Option, none, some, List, [], ◌∷◌, ◌++◌, if◌then◌else◌,
  ◌==◌, CString, length, add64,
}

-- `src == NULL` is taken for the empty string.
abbrev pub text_or_empty : Option CString → CString
text_or_empty none = []
text_or_empty (some s) = s

-- What a call returns, with the table and the heap afterwards. `fault` is a read outside the
-- caller's array of cells, and `endless` a doubling that does not end.
pub data Outcome : Type 0 where
  fault endless : Outcome
  returns : Bool → Table → Heap → Outcome

-- `calloc` refuses a product that does not fit a `size_t`.
abbrev column_bytes : ℕ → ℕ
column_bytes n = n * 32

abbrev empty_table : Table
empty_table = record { columns = []; rows = []; row_capacity = 0 }

-- A NULL table or a NULL array of columns is `none`. With true the call returned 0.
unfoldable pub init : Grants → Option Table → Option (List Column) → Heap → Outcome
init grants none columns h = returns false empty_table h
init grants (some t) none h = returns false t h
init grants (some t) (some []) h = returns false t h
init grants (some t) (some (c ∷ cs)) h =
    let g = allocate grants (column_bytes (length (c ∷ cs))) h in
    if g.granted
    then returns true (record { columns = c ∷ cs; rows = []; row_capacity = 0 }) g.heap
    else returns false empty_table g.heap

-- The blocks that a row owns: the array of its cells, and every cell that is not NULL.
unfoldable pub cell_blocks : Row → ℕ
cell_blocks [] = 0
cell_blocks (none ∷ cells) = cell_blocks cells
cell_blocks (some s ∷ cells) = suc (cell_blocks cells)

unfoldable pub row_blocks : List Row → ℕ
unfolding cell_blocks
row_blocks [] = 0
row_blocks (r ∷ rows) = suc (cell_blocks r) + row_blocks rows

-- The array of columns, the array of rows (NULL while its capacity is 0), and the rows.
unfoldable pub owned : Table → ℕ
unfolding row_blocks
owned t =
    (elim t.columns [ [] ↦ 0 | c ∷ cs ↦ 1 ])
    + (if t.row_capacity == 0 then 0 else 1)
    + row_blocks t.rows

-- The loops of `app_table_free`: `free (NULL)` releases nothing.
unfoldable pub free_rows : List Row → Heap → Heap
unfolding cell_blocks
free_rows [] h = h
free_rows (r ∷ rows) h = free_rows rows (release 1 (release (cell_blocks r) h))

unfoldable pub free_table : Table → Heap → Table × Heap
unfolding free_rows
free_table t h =
    let h' = free_rows t.rows h in
    let h'' = release (if t.row_capacity == 0 then 0 else 1) h' in
    (empty_table, release (elim t.columns [ [] ↦ 0 | c ∷ cs ↦ 1 ]) h'')

-- What the loop over the cells leaves: the copies made, or the heap after the clean-up.
pub data Copied : Type 0 where
  out_of_bounds : Copied
  not_copied : Heap → Copied
  copied : Row → Heap → Copied

-- The loop of `app_table_add_row` over `n` columns that are left, with the copies made so far.
-- When `strdup` gives NULL the copies and the array of cells are freed.
unfoldable pub copy_cells : Grants → ℕ → Row → Row → Heap → Copied
unfolding cell_blocks
copy_cells grants zero cells done h = copied done h
copy_cells grants (suc n) [] done h = out_of_bounds
copy_cells grants (suc n) (c ∷ cells) done h =
    let g = allocate grants (add64 (length (text_or_empty c)) 1) h in
    let rest = copy_cells grants n cells (done ++ (some (text_or_empty c) ∷ [])) g.heap in
    if g.granted then rest else not_copied (release 1 (release (cell_blocks done) g.heap))

-- The end of `app_table_add_row`: a row whose cells could not be copied is not counted.
unfoldable pub finish_row : Table → Copied → Outcome
finish_row t out_of_bounds = fault
finish_row t (not_copied h) = returns false t h
finish_row t (copied row h) = returns true (record t { rows = t.rows ++ (row ∷ []) }) h

-- The part of `app_table_add_row` after the array of rows has room, at its new capacity.
unfoldable pub append_row : Grants → Table → Row → ℕ → Heap → Outcome
unfolding copy_cells finish_row
append_row grants t cells capacity h =
    let t' = record t { row_capacity = capacity } in
    let g = allocate grants (length t.columns * 8) h in
    let r = copy_cells grants (length t.columns) cells [] g.heap in
    if g.granted then finish_row t' r else returns false t' g.heap

-- What `app_table_add_row` does with the answer of `app_table_reserve_rows`.
unfoldable pub after_reserve : Grants → Table → Row → Reserve → Outcome
unfolding append_row
after_reserve grants t cells never_grown = endless
after_reserve grants t cells (refused h) = returns false t h
after_reserve grants t cells (reserved capacity h) = append_row grants t cells capacity h

-- `none` is a NULL array of cells; the callers never pass a NULL table.
unfoldable pub add_row : Grants → Table → Option Row → Heap → Outcome
unfolding after_reserve
add_row grants t none h = returns false t h
add_row grants t (some cells) h =
    after_reserve grants t cells (reserve grants 8 t.row_capacity (add64 (length t.rows) 1) h)
