-- ===== src/Boy/Show/Sessions.antt =====
-- The rows that boy_show_memif and boy_show_span make, and how they use their connection.
use beastie_boy.Boy.Collectors.{
  Entries, no_entries, InterfaceEntry, SpanEntry, MemifEntry, Sizes, collect_interfaces,
  collect_memif, memif_entry, is_span_source_candidate,
}
use beastie_boy.Boy.Collectors.Dumps.{collect-Connected}
use beastie_boy.Boy.Show.{
  no_output, Output, after_rows, show_rows, memif_columns, memif_row, span_columns, span_row,
  entry_rows, or_no_entry, span_rows, show_memif_connected, show_memif, show_span_connected,
  show_span,
}
use beastie_boy.Boy.Span.{collect_spans}
use beastie_boy.Boy.Client.Connection.{
  Connected, Connected-pure, Connected-if, opened-Closed, close-bind,
}
use beastie_boy.Boy.Span.Sessions.{
  finish-Closed, both_finish-Closed, interfaces-Connected, collect_spans-Connected,
}
use beastie_boy.Boy.Vpp.{dump_memifs, Vapi}
use beastie_boy.Boy.Vpp.Monad.{Ran, crashed, ran, pure, RanEnsures, Triple}
use beastie_boy.Boy.Vpp.Session.{no_context, connected, IsIn}
use beastie_boy.Common.Allocator.{Grants}
use beastie_boy.Common.Table.{Column, Row}
use beastie_boy.Common.Table.Lifecycle.{add_rows, Fits}
use beastie_boy.Common.Table.Rows.{Outcome, fault, endless, returns, init}
use beastie_boy.Common.Table.Widths.{Terminal}
use beastie_boy.Prelude.{
  ◌≤◌, Bool, true, false, some, List, [], ◌∷◌, map, length, All-append, if◌then◌else◌, ◌==◌, arith,
  Bool-cases, inl, inr,
}

after_rows-Connected :
    (grants : Grants) (term : Terminal) (o : Outcome) → Connected (after_rows grants term o)
unfolding after_rows
after_rows-Connected grants term fault w h = tt
after_rows-Connected grants term endless w h = tt
after_rows-Connected grants term (returns true t _) w h = h
after_rows-Connected grants term (returns false t _) w h = h

pub show_rows-Connected :
    (grants : Grants) (term : Terminal) (columns : List Column) (rows : List Row)
    → Connected (show_rows grants term columns rows)
unfolding show_rows
show_rows-Connected grants term columns rows w h = go (
    init grants (some (record { columns = []; rows = []; row_capacity = 0 })) (some columns) w.heap)
  where
    go :
        (o : Outcome)
        → RanEnsures
            (λ _. IsIn connected)
            (elim o as (λ _. Ran Output) [
              | fault ↦ crashed
              | endless ↦ crashed
              | returns true t h ↦ after_rows grants term (add_rows grants t rows h) w
              | returns false t h ↦ ran (false, []) (record w { heap = h })
            ])
    go fault = tt
    go endless = tt
    go (returns true t h') = after_rows-Connected grants term (add_rows grants t rows h') w h
    go (returns false t h') = h

-- `boy_show_memif` keeps to the order of calls of libvapi and holds no context at its end, on each
-- path. Nothing is said of a run whose tables never stop growing.
pub show_memif-Closed :
    (v : Vapi) (grants : Grants) (sizes : Sizes) (term : Terminal)
    → Triple (IsIn no_context) (show_memif v grants sizes term) (λ _. IsIn no_context)
unfolding show_memif show_memif_connected collect_memif
show_memif-Closed v grants sizes term =
    opened-Closed v (show_memif_connected v grants sizes term) no_output (
      close-bind (collect_memif v grants sizes no_entries) _
        (collect-Connected v grants sizes.memif_size memif_entry dump_memifs v.sends_memifs
          no_entries)
        (λ t.
          close-bind
            (if t.0
              then show_rows grants term memif_columns (map memif_row t.1.entries)
              else pure no_output)
            _
            (Connected-if t.0 (show_rows grants term memif_columns (map memif_row t.1.entries))
              (pure no_output)
              (show_rows-Connected grants term memif_columns (map memif_row t.1.entries))
              (Connected-pure no_output))
            (λ shown. finish-Closed t.1 shown)))

-- `boy_show_span` keeps to the order of calls of libvapi and holds no context at its end, on each
-- path. Nothing is said of a run whose tables never stop growing.
pub show_span-Closed :
    (v : Vapi) (grants : Grants) (sizes : Sizes) (term : Terminal)
    → Triple (IsIn no_context) (show_span v grants sizes term) (λ _. IsIn no_context)
unfolding show_span show_span_connected
show_span-Closed v grants sizes term =
    opened-Closed v (show_span_connected v grants sizes term) no_output (
      close-bind (collect_interfaces v grants sizes no_entries) _
        (interfaces-Connected v grants sizes)
        (λ t.
          close-bind (if t.0 then collect_spans v grants sizes else pure (false, no_entries)) _
            (Connected-if t.0 (collect_spans v grants sizes) (pure (false, no_entries))
              (collect_spans-Connected v grants sizes)
              (Connected-pure {A = Bool × Entries SpanEntry} (false, no_entries)))
            (λ spans.
              let rows = span_rows t.1.entries spans.1.entries t.1.entries in
              close-bind
                (if spans.0 then show_rows grants term span_columns rows else pure no_output) _
                (Connected-if spans.0 (show_rows grants term span_columns rows) (pure no_output)
                  (show_rows-Connected grants term span_columns rows) (Connected-pure no_output))
                (λ shown. both_finish-Closed spans.1 t.1 shown))))

-- Every row of `boy_show_memif` has a cell for each column.
pub memif_rows-Fits : (memifs : List MemifEntry) → Fits 3 (map memif_row memifs)
unfolding memif_row
memif_rows-Fits [] = tt
memif_rows-Fits (e ∷ memifs) = (omega arith, memif_rows-Fits memifs)

entry_rows-Fits :
    (interfaces : List InterfaceEntry) (e : InterfaceEntry) (spans : List SpanEntry)
    → Fits 7 (entry_rows interfaces e spans)
unfolding entry_rows span_row
entry_rows-Fits interfaces e [] = tt
entry_rows-Fits interfaces e (s ∷ spans) = elim (Bool-cases (s.sw_if_index_from == e.sw_if_index)) [
  | inl p ↦ rw p (omega arith, entry_rows-Fits interfaces e spans)
  | inr p ↦ rw p (entry_rows-Fits interfaces e spans)
]

or_no_entry-Fits :
    (e : InterfaceEntry) (rows : List Row) → Fits 7 rows → Fits 7 (or_no_entry e rows)
unfolding or_no_entry span_row
or_no_entry-Fits e [] h = (omega arith, tt)
or_no_entry-Fits e (r ∷ rows) h = h

-- Every row of `boy_show_span` has a cell for each column.
pub span_rows-Fits :
    (interfaces : List InterfaceEntry) (spans : List SpanEntry) (entries : List InterfaceEntry)
    → Fits 7 (span_rows interfaces spans entries)
unfolding span_rows
span_rows-Fits interfaces spans [] = tt
span_rows-Fits interfaces spans (e ∷ entries) = elim (Bool-cases (is_span_source_candidate e)) [
  | inl p ↦ rw p (
      All-append (λ (r : Row). 7 ≤ length r) (or_no_entry e (entry_rows interfaces e spans))
        (span_rows interfaces spans entries)
        (or_no_entry-Fits e (entry_rows interfaces e spans) (entry_rows-Fits interfaces e spans))
        (span_rows-Fits interfaces spans entries))
  | inr p ↦ rw p (span_rows-Fits interfaces spans entries)
]
