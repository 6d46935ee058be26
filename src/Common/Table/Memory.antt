-- ===== src/Common/Table/Memory.antt =====
-- What app_table_init, app_table_add_row and app_table_free of common/table.c promise: the contents
-- of the table, and that no block of memory is lost or freed twice.
use beastie_boy.Common.Allocator.{Heap, Grants}
use beastie_boy.Common.Table.{Row, Table}
use beastie_boy.Common.Table.Growth.{
  Reserve, endless as never_grown, refused, reserved, grow, reserve_total,
}
use beastie_boy.Common.Table.Rows.{
  text_or_empty, Outcome, fault, endless, returns, cell_blocks, row_blocks, owned, Copied,
  out_of_bounds, not_copied, copied, copy_cells, finish_row, append_row, after_reserve, add_row,
}
use beastie_boy.Prelude.{
  ℕ, zero, suc, ◌+◌, ◌*◌, ◌^◌, ◌≤◌, ◌<◌, Bool, none, some, List, [], ◌∷◌, ◌++◌, if◌then◌else◌, ◌==◌,
  CString, length, add64, ◌≡◌, refl, arith, All, length-append, append_assoc, append-nil, sym, ap,
  ◌∙◌, Bool-cases, inl, inr,
}

-- The row that `app_table_add_row` stores: copies of the first n cells.
abbrev pub copies : ℕ → Row → Row
copies zero cells = []
copies (suc n) [] = []
copies (suc n) (c ∷ cells) = some (text_or_empty c) ∷ copies n cells

-- n cells, none of them NULL.
abbrev pub IsFull : ℕ → Row → Type 0
IsFull n r = (length r ≡ n) × (cell_blocks r ≡ n)

pub record IsValid (t : Table) : Type 0 where
  pub room : length t.rows ≤ t.row_capacity
  pub full : All (IsFull (length t.columns)) t.rows

pub copies-IsFull : (n : ℕ) (cells : Row) → n ≤ length cells → IsFull n (copies n cells)
unfolding cell_blocks
copies-IsFull zero cells h = (refl, refl)
copies-IsFull (suc n) [] h = absurd (omega arith)
copies-IsFull (suc n) (c ∷ cells) h = omega (arith, copies-IsFull n cells (omega arith))

cell_blocks-append : (r s : Row) → cell_blocks (r ++ s) ≡ cell_blocks r + cell_blocks s
unfolding cell_blocks
cell_blocks-append [] s = omega arith
cell_blocks-append (none ∷ r) s = cell_blocks-append r s
cell_blocks-append (some c ∷ r) s = omega (arith, cell_blocks-append r s)

row_blocks-append : (xs ys : List Row) → row_blocks (xs ++ ys) ≡ row_blocks xs + row_blocks ys
unfolding row_blocks
row_blocks-append [] ys = omega arith
row_blocks-append (x ∷ xs) ys = omega (arith, row_blocks-append xs ys)

-- The loop over the cells: it copies all of them, or frees what it had copied and the array.
abbrev CopyEnsures : Row → Row → Heap → Copied → Type 0
CopyEnsures row done h out_of_bounds = ⊥
CopyEnsures row done h (not_copied h') = h'.live + cell_blocks done + 1 ≡ h.live
CopyEnsures row done h (copied r h') =
    (r ≡ done ++ row) × (h'.live + cell_blocks done ≡ h.live + cell_blocks r)

one_more : (s : CString) (done : Row) → cell_blocks (done ++ (some s ∷ [])) ≡ cell_blocks done + 1
unfolding cell_blocks
one_more s done = cell_blocks-append done (some s ∷ [])

CopyEnsures-cons :
    (s : CString) (row done : Row) (h h' : Heap) (r : Copied)
    → h'.live ≡ h.live + 1
    → CopyEnsures row (done ++ (some s ∷ [])) h' r
    → CopyEnsures (some s ∷ row) done h r
CopyEnsures-cons s row done h h' out_of_bounds e p = p
CopyEnsures-cons s row done h h' (not_copied _) e p = omega (arith, one_more s done)
CopyEnsures-cons s row done h h' (copied r _) e (same, p) =
    (same ∙ append_assoc done (some s ∷ []) row, omega (arith, one_more s done))

copy_cells_lem :
    (grants : Grants) (n : ℕ) (cells done : Row) (h : Heap)
    → n ≤ length cells
    → suc (cell_blocks done) ≤ h.live
    → CopyEnsures (copies n cells) done h (copy_cells grants n cells done h)
unfolding copy_cells
copy_cells_lem grants zero cells done h fits inv = (sym (append-nil done), refl)
copy_cells_lem grants (suc n) [] done h fits inv = absurd (omega arith)
copy_cells_lem grants (suc n) (c ∷ cells) done h fits inv =
    elim (Bool-cases (grants h.asked (add64 (length (text_or_empty c)) 1))) [
      | inl e ↦ rw e (
          let h' : Heap = record { asked = h.asked + 1; live = h.live + 1 } in
          CopyEnsures-cons (text_or_empty c) (copies n cells) done h h' _ refl (
            copy_cells_lem grants n cells (done ++ (some (text_or_empty c) ∷ [])) h' (omega arith)
              (omega (arith, one_more (text_or_empty c) done))))
      | inr e ↦ rw e (omega arith)
    ]

-- What a call does on a table t, with the answer b: it stores the row or leaves the rows alone, and
-- the blocks in use change by those that the table has gained.
pub record Stored (t : Table) (cells : Row) (h : Heap) (b : Bool) (t' : Table) (h' : Heap)
    : Type 0 where
  pub same_columns : t'.columns ≡ t.columns
  pub new_rows : t'.rows ≡ (if b then t.rows ++ (copies (length t.columns) cells ∷ []) else t.rows)
  pub room : length t'.rows ≤ t'.row_capacity
  pub balance : h'.live + owned t ≡ h.live + owned t'

abbrev pub Ensures : (Bool → Table → Heap → Type 0) → Outcome → Type 0
Ensures P fault = ⊥
Ensures P endless = ⊥
Ensures P (returns b t h) = P b t h

row_blocks_more :
    (rows : List Row) (r : Row) (n : ℕ)
    → cell_blocks r ≡ n
    → row_blocks (rows ++ (r ∷ [])) ≡ row_blocks rows + suc n
unfolding row_blocks
row_blocks_more rows r n e = omega (arith, row_blocks-append rows (r ∷ []))

finish_row_lem :
    (t : Table) (cells : Row) (h h' : Heap) (r : Copied)
    → suc (length t.rows) ≤ t.row_capacity
    → h'.live ≡ h.live + 1
    → CopyEnsures (copies (length t.columns) cells) [] h' r
    → Ensures (Stored t cells h) (finish_row t r)
unfolding finish_row owned cell_blocks
finish_row_lem t cells h h' out_of_bounds room e p = p
finish_row_lem t cells h h' (not_copied _) room e p = record {
  same_columns = refl;
  new_rows = refl;
  room = omega arith;
  balance = omega arith;
}
finish_row_lem t cells h h' (copied row _) room e (same, p) = record {
  same_columns = refl;
  new_rows = ap (λ r. t.rows ++ (r ∷ [])) same;
  room = omega (arith, length-append t.rows (row ∷ []));
  balance = omega (arith, row_blocks-append t.rows (row ∷ []));
}

append_row_lem :
    (grants : Grants) (t : Table) (cells : Row) (capacity : ℕ) (h : Heap)
    → length t.columns ≤ length cells
    → suc (length t.rows) ≤ capacity
    → Ensures
        (Stored (record t { row_capacity = capacity }) cells h)
        (append_row grants t cells capacity h)
unfolding append_row
append_row_lem grants t cells capacity h fits room =
    elim (Bool-cases (grants h.asked (length t.columns * 8))) [
      | inl e ↦
          rw e (finish_row_lem (record t { row_capacity = capacity }) cells h h' _ room refl loop)
      | inr e ↦
          rw e (record { same_columns = refl; new_rows = refl; room = omega arith; balance = refl })
    ]
  where
    h' : Heap
    h' = record { asked = h.asked + 1; live = h.live + 1 }

    loop :
        CopyEnsures
          (copies (length t.columns) cells)
          []
          h'
          (copy_cells grants (length t.columns) cells [] h')
    loop = copy_cells_lem grants (length t.columns) cells [] h' fits (omega arith)

-- The growth of the array of rows is paid for by the capacity that the table has afterwards.
Stored-grown :
    (t : Table) (cells : Row) (capacity : ℕ) (h h' : Heap) (o : Outcome)
    → h'.live + owned t ≡ h.live + owned (record t { row_capacity = capacity })
    → Ensures (Stored (record t { row_capacity = capacity }) cells h') o
    → Ensures (Stored t cells h) o
Stored-grown t cells capacity h h' fault e p = p
Stored-grown t cells capacity h h' endless e p = p
Stored-grown t cells capacity h h' (returns b _ _) e p = record {
  same_columns = p.same_columns;
  new_rows = p.new_rows;
  room = p.room;
  balance = omega (arith, p.balance);
}

abbrev GrowEnsures : ℕ → ℕ → Heap → Reserve → Type 0
GrowEnsures old least h never_grown = ⊥
GrowEnsures old least h (refused h') = h'.live ≡ h.live
GrowEnsures old least h (reserved c h') =
    (least ≤ c) × (h'.live + (if old == 0 then 0 else 1) ≡ h.live + 1)

grow_lem :
    (grants : Grants) (size old capacity least : ℕ) (h : Heap)
    → least ≤ capacity
    → GrowEnsures old least h (grow grants size old capacity h)
unfolding grow
grow_lem grants size old capacity least h room = ground arith

after_reserve_lem :
    (grants : Grants) (t : Table) (cells : Row) (h : Heap) (r : Reserve)
    → length t.rows ≤ t.row_capacity
    → length t.columns ≤ length cells
    → GrowEnsures t.row_capacity (suc (length t.rows)) h r
    → Ensures (Stored t cells h) (after_reserve grants t cells r)
unfolding after_reserve owned
after_reserve_lem grants t cells h never_grown valid fits p = p
after_reserve_lem grants t cells h (refused _) valid fits p = record {
  same_columns = refl;
  new_rows = refl;
  room = valid;
  balance = omega (arith, p);
}
after_reserve_lem grants t cells h (reserved c h') valid fits (enough, p) =
    Stored-grown t cells c h h' (append_row grants t cells c h') (ground arith)
      (append_row_lem grants t cells c h' fits enough)

-- On a table with fewer than 2^63 rows that fit its capacity, and with a cell given for each column,
-- `app_table_add_row` returns: it stores copies of the cells as the last row, or stores nothing and
-- fails. The columns stay, and the blocks in use change by those that the table gained.
pub add_row_lem :
    (grants : Grants) (t : Table) (cells : Row) (h : Heap)
    → length t.rows ≤ t.row_capacity
    → length t.rows < 2 ^ 63
    → length t.columns ≤ length cells
    → Ensures (Stored t cells h) (add_row grants t (some cells) h)
unfolding add_row
add_row_lem grants t cells h valid small fits =
    let e : add64 (length t.rows) 1 ≡ suc (length t.rows) = omega arith in
    rw e (elim (reserve_total grants 8 t.row_capacity (suc (length t.rows)) h small) [
      | inl (room, kept) ↦ rw kept (append_row_lem grants t cells t.row_capacity h fits room)
      | inr (c, full, room, grown) ↦ rw grown (
          after_reserve_lem grants t cells h (grow grants 8 t.row_capacity c h) valid fits
            (grow_lem grants 8 t.row_capacity c _ h room))
    ])
