-- ===== src/Common/Table/Lifecycle.antt =====
-- The life of a table of common/table.c in the commands: app_table_init, app_table_add_row until one
-- fails, app_table_free.
use beastie_boy.Common.Allocator.{Heap, Grants}
use beastie_boy.Common.Table.{Column, Row, Table}
use beastie_boy.Common.Table.Rows.{
  Outcome, fault, endless, returns, init, cell_blocks, row_blocks, owned, free_rows, free_table,
  add_row,
}
use beastie_boy.Common.Table.Memory.{
  copies, IsFull, IsValid, Stored, Ensures, add_row_lem, copies-IsFull,
}
use beastie_boy.Prelude.{
  ℕ, suc, ◌+◌, ◌-◌, ◌^◌, ◌≤◌, ◌<◌, Bool, true, false, some, List, [], ◌∷◌, ◌++◌, map, take,
  append-nil, append_assoc, length, ◌≡◌, refl, arith, All, All-append, length-append, sym, ap, ◌∙◌,
}

-- The loop in which the commands add their rows: it stops at the first row that is refused.
unfoldable pub add_rows : Grants → Table → List Row → Heap → Outcome
unfolding add_row
add_rows grants t [] h = returns true t h
add_rows grants t (r ∷ rows) h = elim (add_row grants t (some r) h) [
  | returns true t' h' ↦ add_rows grants t' rows h'
  | returns false t' h' ↦ returns false t' h'
  | fault ↦ fault
  | endless ↦ endless
]

-- Every row has a cell for each column.
abbrev pub Fits : ℕ → List Row → Type 0
Fits n = All (λ (r : Row). n ≤ length r)

-- On a table with fewer than 2^63 rows, and with a cell given for each column, `app_table_add_row`
-- returns and keeps the table well formed: the rows fit the capacity, and every row has as many cells
-- as there are columns, none of them NULL.
pub add_row-IsValid :
    (grants : Grants) (t : Table) (cells : Row) (h : Heap)
    → IsValid t
    → length t.rows < 2 ^ 63
    → length t.columns ≤ length cells
    → Ensures (λ b t' h'. IsValid t') (add_row grants t (some cells) h)
add_row-IsValid grants t cells h valid small fits =
    go (add_row grants t (some cells) h) (add_row_lem grants t cells h valid.room small fits)
  where
    go : (o : Outcome) → Ensures (Stored t cells h) o → Ensures (λ b t' h'. IsValid t') o
    go fault p = p
    go endless p = p
    go (returns true t' _) p = record {
      room = p.room;
      full =
          rw (p.same_columns, p.new_rows)
            (All-append (IsFull (length t.columns)) t.rows (copies (length t.columns) cells ∷ [])
              valid.full (copies-IsFull (length t.columns) cells fits, tt));
    }
    go (returns false t' _) p = record {
      room = p.room;
      full = rw (p.same_columns, p.new_rows) valid.full;
    }

free_rows_lem :
    (rows : List Row) (h : Heap)
    → row_blocks rows ≤ h.live
    → ((free_rows rows h).live + row_blocks rows ≡ h.live)
unfolding free_rows row_blocks
free_rows_lem [] h p = omega arith
free_rows_lem (r ∷ rows) h p =
    omega (arith, free_rows_lem rows (record h { live = h.live - cell_blocks r - 1 }) (omega arith))

-- Where the blocks of a table are in use, `app_table_free` releases as many blocks as the table owns.
pub free_table_lem :
    (t : Table) (h : Heap) → owned t ≤ h.live → (free_table t h).1.live + owned t ≡ h.live
unfolding free_table owned
free_table_lem t h p = ground (arith, free_rows_lem t.rows h (omega arith))

-- What a run of `add_rows` leaves: some of the rows are stored, all of them if it returns 0, and the
-- blocks in use have changed by those of the table.
pub record Added (t : Table) (rows : List Row) (h : Heap) (b : Bool) (t' : Table) (h' : Heap)
    : Type 0 where
  pub valid : IsValid t'
  pub same_columns : t'.columns ≡ t.columns
  pub stored : ℕ
  pub new_rows : t'.rows ≡ t.rows ++ map (copies (length t.columns)) (take stored rows)
  pub all_stored : b ≡ true → take stored rows ≡ rows
  pub balance : h'.live + owned t ≡ h.live + owned t'

Added-cons :
    (t t1 : Table) (r : Row) (rows : List Row) (h h1 : Heap) (o : Outcome)
    → Stored t r h true t1 h1
    → Ensures (Added t1 rows h1) o
    → Ensures (Added t (r ∷ rows) h) o
Added-cons t t1 r rows h h1 fault s p = p
Added-cons t t1 r rows h h1 endless s p = p
Added-cons t t1 r rows h h1 (returns b t' h') s p = record {
  valid = p.valid;
  same_columns = p.same_columns ∙ s.same_columns;
  stored = suc p.stored;
  new_rows = rw (p.new_rows, s.new_rows, s.same_columns, append_assoc);
  all_stored = λ e. ap (λ l. r ∷ l) (p.all_stored e);
  balance = omega (arith, p.balance, s.balance);
}

pub add_rows_lem :
    (grants : Grants) (t : Table) (rows : List Row) (h : Heap)
    → IsValid t
    → length t.rows + length rows ≤ 2 ^ 63
    → Fits (length t.columns) rows
    → Ensures (Added t rows h) (add_rows grants t rows h)
unfolding add_rows
add_rows_lem grants t [] h valid small fits = record {
  valid = valid;
  same_columns = refl;
  stored = 0;
  new_rows = sym (append-nil t.rows);
  all_stored = λ e. refl;
  balance = refl;
}
add_rows_lem grants t (r ∷ rows) h valid small (fits, more) =
    go (add_row grants t (some r) h) (add_row_lem grants t r h valid.room (omega arith) fits)
      (add_row-IsValid grants t r h valid (omega arith) fits)
      (λ t' h'. add_rows_lem grants t' rows h')
  where
    go :
        (o : Outcome)
        → Ensures (Stored t r h) o
        → Ensures (λ b t' h'. IsValid t') o
        → ((t' : Table) (h' : Heap)
            → IsValid t'
            → length t'.rows + length rows ≤ 2 ^ 63
            → Fits (length t'.columns) rows
            → Ensures (Added t' rows h') (add_rows grants t' rows h'))
        → Ensures (Added t (r ∷ rows) h) (elim o [
          | returns true t' h' ↦ add_rows grants t' rows h'
          | returns false t' h' ↦ returns false t' h'
          | fault ↦ fault
          | endless ↦ endless
        ])
    go fault p v rec = p
    go endless p v rec = p
    go (returns true t' h') p v rec = Added-cons t t' r rows h h' (add_rows grants t' rows h') p (
        rec t' h' v
          (rw p.new_rows (omega (arith, length-append t.rows (copies (length t.columns) r ∷ []))))
          (rw p.same_columns more))
    go (returns false t' h') p v rec = record {
      valid = v;
      same_columns = p.same_columns;
      stored = 0;
      new_rows = p.new_rows ∙ sym (append-nil t.rows);
      all_stored = λ e. cc;
      balance = p.balance;
    }

-- `app_table_init` makes an empty table that owns one block, its array of columns.
pub init_lem :
    (grants : Grants) (old t : Table) (columns : List Column) (h h1 : Heap)
    → init grants (some old) (some columns) h ≡ returns true t h1
    → (t.columns ≡ columns)
      × (t.rows ≡ [])
      × (t.row_capacity ≡ 0)
      × (owned t ≡ 1)
      × (h1.live ≡ h.live + 1)
unfolding init owned
init_lem grants old t [] h h1 made = absurd (cc)
init_lem grants old t (c ∷ cs) h h1 made = ground arith

-- A table that was made by `app_table_init`, filled with at most 2^63 rows that have a cell for each
-- column, until a row was refused or all were stored, and freed by `app_table_free` leaves as many
-- blocks in use as there were before, whichever requests for memory fail; and a fill that returned 0
-- has stored a copy of every row, in order. No call crashes or fails to return.
pub lifecycle :
    (grants : Grants) (old t : Table) (columns : List Column) (rows : List Row) (h h1 : Heap)
    → init grants (some old) (some columns) h ≡ returns true t h1
    → length rows ≤ 2 ^ 63
    → Fits (length columns) rows
    → Ensures
        (λ b t' h'.
          ((free_table t' h').1.live ≡ h.live)
          × (b ≡ true → t'.rows ≡ map (copies (length columns)) rows))
        (add_rows grants t rows h1)
lifecycle grants old t columns rows h h1 made small fits =
    let (cols, none_yet, no_room, one, paid) = init_lem grants old t columns h h1 made in
    go none_yet cols one paid (add_rows grants t rows h1) (
      add_rows_lem grants t rows h1
        (record { room = rw none_yet (omega arith); full = rw none_yet tt })
        (rw none_yet (omega arith)) (rw cols fits))
  where
    go :
        t.rows ≡ []
        → t.columns ≡ columns
        → owned t ≡ 1
        → h1.live ≡ h.live + 1
        → (o : Outcome) → Ensures (Added t rows h1) o
        → Ensures
            (λ b t' h'.
              ((free_table t' h').1.live ≡ h.live)
              × (b ≡ true → t'.rows ≡ map (copies (length columns)) rows))
            o
    go z cols one paid fault p = p
    go z cols one paid endless p = p
    go z cols one paid (returns b t' h') p = (
      omega (arith, free_table_lem t' h' (omega (arith, p.balance)), p.balance),
      λ e. p.new_rows ∙ rw (z, cols, p.all_stored e),
    )
