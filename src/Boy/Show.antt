-- ===== src/Boy/Show.antt =====
-- boy_show_memif of boy/commands/memif_cmd.c and boy_show_span of boy/commands/span_cmd.c: what VPP
-- reports, as a table on the standard output. Log messages are left out.
pub mod Output
pub mod Sessions
pub mod Held
use beastie_boy.Boy.Client.{open_vapi, close_vapi}
use beastie_boy.Boy.Collectors.{
  Entries, no_entries, InterfaceEntry, SpanEntry, MemifEntry, Sizes, collect_interfaces,
  collect_memif, find_interface_name, if_type_to_string, is_span_source_candidate,
  span_state_device, span_state_l2,
}
use beastie_boy.Boy.Span.{free_table, collect_spans}
use beastie_boy.Boy.Vpp.{Vapi}
use beastie_boy.Boy.Vpp.Monad.{Ran, crashed, ran, M, pure, ◌>>=◌}
use beastie_boy.Common.Allocator.{Grants}
use beastie_boy.Common.Strtoul.{decimal}
use beastie_boy.Common.Table.{left, right, Column, Row, Table}
use beastie_boy.Common.Table.Lifecycle.{add_rows}
use beastie_boy.Common.Table.Render.{render}
use beastie_boy.Common.Table.Rows.{
  Outcome, fault, endless, returns, init, free_table as free_text_table,
}
use beastie_boy.Common.Table.Widths.{Terminal}
use beastie_boy.Prelude.{
  ℕ, Bool, true, false, not, Option, none, some, List, [], ◌∷◌, ◌++◌, map, CString, codes, ◌==◌,
  if◌then◌else◌,
}

-- What a command prints, and its success.
abbrev pub Output : Type 0
Output = Bool × CString

-- Of a command that fails before it prints.
abbrev pub no_output : Output
no_output = (false, [])

-- The end of a command after the loop that adds its rows.
unfoldable pub after_rows : Grants → Terminal → Outcome → M Output
after_rows grants term fault w = crashed
after_rows grants term endless w = crashed
after_rows grants term (returns true t h) w =
    let (text, h') = render grants term t h in
    ran (true, text) (record w { heap = (free_text_table t h').1 })
after_rows grants term (returns false t h) w =
    ran no_output (record w { heap = (free_text_table t h).1 })

-- A table is initialised, filled and printed; `table` is not set before `app_table_init`.
unfoldable pub show_rows : Grants → Terminal → List Column → List Row → M Output
show_rows grants term columns rows w =
    elim (init grants (some (record { columns = []; rows = []; row_capacity = 0 })) (some columns)
      w.heap) [
        | fault ↦ crashed
        | endless ↦ crashed
        | returns true t h ↦ after_rows grants term (add_rows grants t rows h) w
        | returns false t h ↦ ran no_output (record w { heap = h })
      ]

abbrev pub memif_columns : List Column
memif_columns =
    record {
      header = some (codes "Interface Name");
      min_width = 14;
      max_width = 0;
      is_flexible = true;
      align = left;
    }
    ∷ record {
      header = some (codes "Socket-ID");
      min_width = 9;
      max_width = 12;
      is_flexible = false;
      align = right;
    }
    ∷ record {
      header = some (codes "Flags");
      min_width = 5;
      max_width = 0;
      is_flexible = true;
      align = left;
    }
    ∷ []

-- `boy_add_memif_row`
unfoldable pub memif_row : MemifEntry → Row
memif_row e = some e.interface_name ∷ some (decimal e.socket_id) ∷ some e.flags ∷ []

abbrev pub span_columns : List Column
span_columns =
    record {
      header = some (codes "Interface Name");
      min_width = 14;
      max_width = 0;
      is_flexible = true;
      align = left;
    }
    ∷ record {
      header = some (codes "If-Index");
      min_width = 8;
      max_width = 10;
      is_flexible = false;
      align = right;
    }
    ∷ record {
      header = some (codes "If-Type");
      min_width = 7;
      max_width = 12;
      is_flexible = false;
      align = left;
    }
    ∷ record {
      header = some (codes "Dev-Type");
      min_width = 8;
      max_width = 0;
      is_flexible = true;
      align = left;
    }
    ∷ record {
      header = some (codes "Destination");
      min_width = 11;
      max_width = 0;
      is_flexible = true;
      align = left;
    }
    ∷ record {
      header = some (codes "Device");
      min_width = 6;
      max_width = 8;
      is_flexible = false;
      align = left;
    }
    ∷ record {
      header = some (codes "L2");
      min_width = 2;
      max_width = 8;
      is_flexible = false;
      align = left;
    }
    ∷ []

-- `boy_add_span_row`
unfoldable pub span_row : InterfaceEntry → CString → CString → CString → Row
span_row e destination device l2 =
    some e.interface_name
    ∷ some (decimal e.sw_if_index)
    ∷ some (if_type_to_string e.if_type)
    ∷ some e.interface_dev_type
    ∷ some destination
    ∷ some device
    ∷ some l2
    ∷ []

-- The inner loop: a row for each SPAN entry whose source is the interface.
unfoldable pub entry_rows : List InterfaceEntry → InterfaceEntry → List SpanEntry → List Row
entry_rows interfaces e [] = []
entry_rows interfaces e (s ∷ spans) =
    let rest = entry_rows interfaces e spans in
    if not (s.sw_if_index_from == e.sw_if_index)
    then rest
    else span_row e (find_interface_name interfaces s.sw_if_index_to)
        (if s.is_l2 then codes "*" else span_state_device s.state) (span_state_l2 s.state s.is_l2)
      ∷ rest

-- `if (!found)`
unfoldable pub or_no_entry : InterfaceEntry → List Row → List Row
or_no_entry e [] = span_row e (codes "*") (codes "*") (codes "*") ∷ []
or_no_entry e (r ∷ rows) = r ∷ rows

-- The outer loop over the interfaces that are left.
unfoldable pub span_rows : List InterfaceEntry → List SpanEntry → List InterfaceEntry → List Row
span_rows interfaces spans [] = []
span_rows interfaces spans (e ∷ entries) =
    let rest = span_rows interfaces spans entries in
    if not (is_span_source_candidate e)
    then rest
    else or_no_entry e (entry_rows interfaces e spans) ++ rest

unfoldable pub show_memif_connected : Vapi → Grants → Sizes → Terminal → M Output
show_memif_connected v grants sizes term = do
  memifs ← collect_memif v grants sizes no_entries
  shown ←
      if memifs.0
      then show_rows grants term memif_columns (map memif_row memifs.1.entries)
      else pure no_output
  _ ← free_table memifs.1
  _ ← close_vapi true
  pure shown

-- `boy_show_memif`
unfoldable pub show_memif : Vapi → Grants → Sizes → Terminal → M Output
show_memif v grants sizes term = do
  opened ← open_vapi v
  if opened then show_memif_connected v grants sizes term else pure no_output

unfoldable pub show_span_connected : Vapi → Grants → Sizes → Terminal → M Output
show_span_connected v grants sizes term = do
  interfaces ← collect_interfaces v grants sizes no_entries
  spans ← if interfaces.0 then collect_spans v grants sizes else pure (false, no_entries)
  shown ←
      if spans.0
      then show_rows grants term span_columns
          (span_rows interfaces.1.entries spans.1.entries interfaces.1.entries)
      else pure no_output
  _ ← free_table spans.1
  _ ← free_table interfaces.1
  _ ← close_vapi true
  pure shown

-- `boy_show_span`
unfoldable pub show_span : Vapi → Grants → Sizes → Terminal → M Output
show_span v grants sizes term = do
  opened ← open_vapi v
  if opened then show_span_connected v grants sizes term else pure no_output
