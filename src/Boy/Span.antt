-- ===== src/Boy/Span.antt =====
-- boy/commands/span_cmd.c: the commands that set and remove SPAN entries. What they log is left out.
pub mod Requests
pub mod Sessions
pub mod Lookup
pub mod Mirror
pub mod Removal
pub mod Returns
pub mod Clean
use beastie_boy.Boy.Cli.{DeviceMode, rx, tx, both}
use beastie_boy.Boy.Client.{
  open_vapi, close_vapi, unguarded_cb, transact, is_some, set_interface_admin_up,
}
use beastie_boy.Boy.Collectors.{
  Entries, no_entries, free_entries, InterfaceEntry, SpanEntry, Sizes, collect_interfaces,
  collect_span,
}
use beastie_boy.Boy.Vpp.{SpanState, disabled, span_rx, span_tx, span_rx_tx, set_span_state, Vapi}
use beastie_boy.Boy.Vpp.Monad.{ran, M, pure, ◌>>=◌, ◌>>◌}
use beastie_boy.Common.Allocator.{Grants}
use beastie_boy.Prelude.{
  ℕ, Bool, true, false, not, Option, none, some, List, [], ◌∷◌, CString, codes, str_eq, starts_with,
  ◌==◌, if◌then◌else◌,
}

-- `boy_set_span_entry`; true is the return value 0.
unfoldable pub set_span_entry : Vapi → ℕ → ℕ → SpanState → Bool → M Bool
set_span_entry v sw_if_index_from sw_if_index_to state is_l2 = do
  r ← transact v unguarded_cb (set_span_state sw_if_index_from sw_if_index_to state is_l2)
  pure (is_some r)

-- `boy_find_interface_entry_by_index`
unfoldable pub find_by_index : List InterfaceEntry → ℕ → Option InterfaceEntry
find_by_index [] if_index = none
find_by_index (e ∷ entries) if_index =
    let rest = find_by_index entries if_index in if e.sw_if_index == if_index then some e else rest

-- `boy_find_interface_entry_by_name`
unfoldable pub find_by_name : List InterfaceEntry → CString → Option InterfaceEntry
find_by_name [] name = none
find_by_name (e ∷ entries) name =
    let rest = find_by_name entries name in if str_eq e.interface_name name then some e else rest

-- `boy_span_state_from_device_mode`
unfoldable pub span_state_from_device_mode : DeviceMode → SpanState
span_state_from_device_mode rx = span_rx
span_state_from_device_mode tx = span_tx
span_state_from_device_mode both = span_rx_tx

-- The frees of a table of entries at `cleanup`.
abbrev pub free_table : {A : Type 0} → Entries A → M (Unit {0})
free_table t w = ran tt (record w { heap = free_entries t w.heap })

-- `if ((entry->flags & IF_STATUS_API_FLAG_ADMIN_UP) == 0)`, of the source and of the destination.
unfoldable pub bring_up : Vapi → InterfaceEntry → M Bool
bring_up v e = if e.flags.admin_up then pure true else set_interface_admin_up v e.sw_if_index

-- The SPAN request of `boy_set_span`.
unfoldable pub mirror : Vapi → InterfaceEntry → InterfaceEntry → DeviceMode → M Bool
mirror v source destination device_mode =
    set_span_entry v source.sw_if_index destination.sw_if_index
      (span_state_from_device_mode device_mode) false

-- The requests of `boy_set_span`.
unfoldable pub bring_up_and_mirror : Vapi → InterfaceEntry → InterfaceEntry → DeviceMode → M Bool
bring_up_and_mirror v source destination device_mode = do
  source_up ← bring_up v source
  destination_up ← if source_up then bring_up v destination else pure false
  if destination_up then mirror v source destination device_mode else pure false

-- `boy_set_span` after the interfaces are collected, up to its label `cleanup`.
unfoldable pub configure : Vapi → List InterfaceEntry → ℕ → CString → DeviceMode → M Bool
configure v entries source_if_index name device_mode =
    elim (find_by_index entries source_if_index) [
      | none ↦ pure false
      | some source ↦ elim (find_by_name entries name) [
        | none ↦ pure false
        | some destination ↦
            if not (starts_with destination.interface_name (codes "memif"))
            then pure false
            else (if source.sw_if_index == destination.sw_if_index
                then pure false
                else bring_up_and_mirror v source destination device_mode)
      ]
    ]

-- `boy_set_span` on an open connection, with its `cleanup`.
unfoldable pub set_span_connected : Vapi → Grants → Sizes → ℕ → CString → DeviceMode → M Bool
set_span_connected v grants sizes source_if_index name device_mode = do
  interfaces ← collect_interfaces v grants sizes no_entries
  done ←
      if interfaces.0
      then configure v interfaces.1.entries source_if_index name device_mode
      else pure false
  _ ← free_table interfaces.1
  _ ← close_vapi true
  pure done

-- `boy_set_span`; the table is empty and the context NULL where the connection fails.
unfoldable pub set_span : Vapi → Grants → Sizes → ℕ → CString → DeviceMode → M Bool
set_span v grants sizes source_if_index name device_mode = do
  opened ← open_vapi v
  if opened then set_span_connected v grants sizes source_if_index name device_mode else pure false

-- The loop of `boy_unset_span`; false is the jump out of it.
unfoldable pub remove_spans : Vapi → ℕ → List SpanEntry → M Bool
remove_spans v source_if_index [] = pure true
remove_spans v source_if_index (e ∷ entries) =
    let rest = remove_spans v source_if_index entries in
    if not (e.sw_if_index_from == source_if_index)
    then rest
    else (set_span_entry v e.sw_if_index_from e.sw_if_index_to disabled e.is_l2 >>= λ done.
        if not done then pure false else rest)

-- The two dumps of SPAN entries into one table.
unfoldable pub collect_spans : Vapi → Grants → Sizes → M (Bool × Entries SpanEntry)
collect_spans v grants sizes = do
  spans ← collect_span v grants sizes false no_entries
  if spans.0 then collect_span v grants sizes true spans.1 else pure spans

-- `boy_unset_span` on an open connection, with its `cleanup`.
unfoldable pub unset_span_connected : Vapi → Grants → Sizes → ℕ → M Bool
unset_span_connected v grants sizes source_if_index = do
  interfaces ← collect_interfaces v grants sizes no_entries
  spans ← if interfaces.0 then collect_spans v grants sizes else pure (false, no_entries)
  done ← if spans.0 then remove_spans v source_if_index spans.1.entries else pure false
  _ ← free_table spans.1
  _ ← free_table interfaces.1
  _ ← close_vapi true
  pure done

unfoldable pub unset_span : Vapi → Grants → Sizes → ℕ → M Bool
unset_span v grants sizes source_if_index = do
  opened ← open_vapi v
  if opened then unset_span_connected v grants sizes source_if_index else pure false
