-- ===== src/Boy/Show/Output.antt =====
-- The tables that boy_show_memif and boy_show_span print, and the memory that these take.
use beastie_boy.Boy.Show.{Output, after_rows, show_rows}
use beastie_boy.Boy.Vpp.{World}
use beastie_boy.Boy.Vpp.Monad.{Ran, crashed, ran}
use beastie_boy.Common.Allocator.{Heap, Grants}
use beastie_boy.Common.Table.{Column, Row, Table}
use beastie_boy.Common.Table.Lifecycle.{
  add_rows, add_rows_lem, Added, Fits, init_lem, free_table_lem,
}
use beastie_boy.Common.Table.Memory.{copies, IsValid, Ensures}
use beastie_boy.Common.Table.Render.{render}
use beastie_boy.Common.Table.Render.Lines.{render_frees}
use beastie_boy.Common.Table.Rows.{Outcome, fault, endless, returns, init, owned}
use beastie_boy.Common.Table.Widths.{Terminal}
use beastie_boy.Prelude.{
  ◌+◌, ◌*◌, ◌≤◌, ◌^◌, true, false, some, List, [], ◌∷◌, map, length, if◌then◌else◌, ◌≡◌, refl,
  arith, ◌∙◌, Bool-cases, inl, inr,
}

-- What `init` leaves of the heap.
init-heap :
    (grants : Grants) (old : Table) (columns : List Column) (h : Heap)
    → Ensures
        (λ b t h'. h'.live ≡ (if b then h.live + 1 else h.live))
        (init grants (some old) (some columns) h)
unfolding init
init-heap grants old [] h = refl
init-heap grants old (c ∷ cs) h = elim (Bool-cases (grants h.asked (length (c ∷ cs) * 32))) [
  | inl e ↦ simp e refl
  | inr e ↦ simp e refl
]

-- What was printed, and that all memory was given back.
pub record IsShown (grants : Grants) (term : Terminal) (columns : List Column) (rows : List Row)
    (before : World) (r : Output) (after : World) : Type 0 where
  pub same_calls : after.calls ≡ before.calls
  pub no_leak : after.heap.live ≡ before.heap.live
  pub printed :
      r.0 ≡ true
      → (t : Table) × (h : Heap) × IsValid t
        × (t.columns ≡ columns)
        × (t.rows ≡ map (copies (length columns)) rows)
        × (r.1 ≡ (render grants term t h).0)

abbrev pub Shows : Grants → Terminal → List Column → List Row → World → Ran Output → Type 0
Shows grants term columns rows before crashed = ⊥
Shows grants term columns rows before (ran r after) =
    IsShown grants term columns rows before r after

module _ (grants : Grants) (term : Terminal) (columns : List Column) (rows : List Row)
    (w : World) where
  after_rows_lem :
      (t : Table) (h : Heap) (o : Outcome)
      → t.rows ≡ []
      → t.columns ≡ columns
      → owned t ≡ 1
      → h.live ≡ w.heap.live + 1
      → Ensures (Added t rows h) o
      → Shows grants term columns rows w (after_rows grants term o w)
  unfolding after_rows
  after_rows_lem t h fault z cols one paid p = p
  after_rows_lem t h endless z cols one paid p = p
  after_rows_lem t h (returns true t' h') z cols one paid p =
      let same = render_frees grants term t' h' in
      let freed = free_table_lem t' (render grants term t' h').1 (omega (arith, p.balance, same)) in
      record {
        same_calls = refl;
        no_leak = omega (arith, p.balance, same, freed);
        printed = λ e. (
          t',
          h',
          p.valid,
          p.same_columns ∙ cols,
          p.new_rows ∙ rw (z, cols, p.all_stored refl) refl,
          refl,
        );
      }
  after_rows_lem t h (returns false t' h') z cols one paid p =
      let freed = free_table_lem t' h' (omega (arith, p.balance)) in
      record { same_calls = refl; no_leak = omega (arith, p.balance, freed); printed = λ e. cc }

  -- For at most 2^63 rows that have a cell for each column, the part of `boy_show_memif` and
  -- `boy_show_span` that prints the table returns. On every path all memory is given back and
  -- libvapi is not called, and on success the output is what `app_table_render` writes for a
  -- well-formed table with these columns and copies of these rows, in order.
  pub show_rows_lem :
      length rows ≤ 2 ^ 63
      → Fits (length columns) rows
      → Shows grants term columns rows w (show_rows grants term columns rows w)
  unfolding show_rows
  show_rows_lem small fits =
      go (init grants (some blank) (some columns) w.heap) refl
        (init-heap grants blank columns w.heap)
    where
      blank : Table
      blank = record { columns = []; rows = []; row_capacity = 0 }

      go :
          (o : Outcome)
          → init grants (some blank) (some columns) w.heap ≡ o
          → Ensures (λ b t h'. h'.live ≡ (if b then w.heap.live + 1 else w.heap.live)) o
          → Shows grants term columns rows w (elim o as (λ _. Ran Output) [
            | fault ↦ crashed
            | endless ↦ crashed
            | returns true t h ↦ after_rows grants term (add_rows grants t rows h) w
            | returns false t h ↦ ran (false, []) (record w { heap = h })
          ])
      go fault e p = p
      go endless e p = p
      go (returns true t h) e p =
          let (cols, z, no_room, one, paid) = init_lem grants blank t columns w.heap h e in
          after_rows_lem t h (add_rows grants t rows h) z cols one paid (
            add_rows_lem grants t rows h (record { room = rw z (omega arith); full = rw z tt })
              (rw z (omega arith)) (rw cols fits))
      go (returns false t h) e p = record { same_calls = refl; no_leak = p; printed = λ e. cc }
