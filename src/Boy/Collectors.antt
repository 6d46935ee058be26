-- ===== src/Boy/Collectors.antt =====
-- boy/collectors.c and boy/collectors.h: the tables of interfaces, SPAN entries and memifs that VPP
-- reports, and the tests and texts for their entries.
pub mod Dumps
pub mod Tables
pub mod Returns
pub mod Held
use beastie_boy.Boy.Vpp.{
  VapiError, vapi_ok, enomem, IfType, hardware, sub, p2p, pipe, other_type, SpanState, disabled,
  span_rx, span_tx, span_rx_tx, IfFlags, InterfaceDetails, SpanDetails, MemifDetails, Exchange,
  Call, Request, dump_interfaces, dump_memifs, dump_spans, alloc_message, send, World, Vapi,
}
use beastie_boy.Boy.Vpp.Monad.{
  Ran, crashed, ran, M, Called, fails, answers, Callback, Exchanged, broken, exchanged, exchange,
}
use beastie_boy.Boy.Client.{is_ok}
use beastie_boy.Boy.Client.Strings.{copy_api_string}
use beastie_boy.Common.Allocator.{Heap, Grants, release}
use beastie_boy.Common.Table.Growth.{reserve, endless, refused, reserved}
use beastie_boy.Prelude.{
  ℕ, ◌+◌, ◌/◌, ◌%◌, Bool, true, false, not, ◌&&◌, ◌||◌, Option, none, some, List, [], ◌∷◌, ◌++◌,
  CString, codes, str_eq, starts_with, contains_char, length, take, add64, ltb, ◌==◌, if◌then◌else◌,
}

-- `boy_interface_entry_t`
pub record InterfaceEntry : Type 0 where
  pub sw_if_index : ℕ
  pub interface_name : CString
  pub if_type : IfType
  pub interface_dev_type : CString
  pub flags : IfFlags
  pub link_speed : ℕ
  pub ethernet_address : CString
  pub card_family : CString

-- `boy_span_entry_t` has the fields of the message.
abbrev pub SpanEntry : Type 0
SpanEntry = SpanDetails

-- `boy_memif_entry_t`
pub record MemifEntry : Type 0 where
  pub interface_name : CString
  pub socket_id : ℕ
  pub flags : CString

-- A table: its entries, their number being `count`, and the capacity of the array.
pub record Entries (A : Type 0) : Type 0 where
  pub entries : List A
  pub capacity : ℕ

abbrev pub no_entries : {A : Type 0} → Entries A
no_entries = record { entries = []; capacity = 0 }

-- `boy_free_interface_table`, `boy_free_span_table`, `boy_free_memif_table`
abbrev pub free_entries : {A : Type 0} → Entries A → Heap → Heap
free_entries t h = release (if t.capacity == 0 then 0 else 1) h

-- `boy_find_interface_name`
unfoldable pub find_interface_name : List InterfaceEntry → ℕ → CString
find_interface_name [] index = codes "<unknown>"
find_interface_name (e ∷ entries) index =
    let rest = find_interface_name entries index in
    if e.sw_if_index == index then e.interface_name else rest

-- `boy_if_type_to_string`
unfoldable pub if_type_to_string : IfType → CString
if_type_to_string hardware = codes "hardware"
if_type_to_string sub = codes "sub"
if_type_to_string p2p = codes "p2p"
if_type_to_string pipe = codes "pipe"
if_type_to_string other_type = codes "unknown"

abbrev pub is_hardware : IfType → Bool
is_hardware hardware = true
is_hardware _ = false

abbrev pub is_sub : IfType → Bool
is_sub sub = true
is_sub _ = false

-- `boy_is_span_source_candidate`
unfoldable pub is_span_source_candidate : InterfaceEntry → Bool
is_span_source_candidate e =
    if not (is_hardware e.if_type) && not (is_sub e.if_type && contains_char e.interface_name b'.')
    then false
    else (if str_eq e.interface_name (codes "local0")
        then false
        else (if starts_with e.interface_name (codes "memif") then false else true))

-- `boy_is_physical_interface`
unfoldable pub is_physical_interface : InterfaceEntry → Bool
is_physical_interface e =
    if not (is_hardware e.if_type)
    then false
    else (if str_eq e.interface_name (codes "local0")
        then false
        else (if starts_with e.interface_name (codes "memif") then false else true))

-- `boy_span_state_device`
unfoldable pub span_state_device : SpanState → CString
span_state_device span_rx = codes "rx"
span_state_device span_tx = codes "tx"
span_state_device span_rx_tx = codes "both"
span_state_device disabled = codes "none"

-- `boy_span_state_l2`
unfoldable pub span_state_l2 : SpanState → Bool → CString
span_state_l2 state is_l2 = if not is_l2 then codes "*" else span_state_device state

-- `boy_memif_flags_to_string`; the buffer has 32 bytes.
unfoldable pub memif_flags_to_string : IfFlags → CString
memif_flags_to_string f =
    if f.admin_up && f.link_up
    then codes "admin-up,link-up"
    else (if f.admin_up
        then codes "admin-up"
        else (if f.link_up then codes "link-up" else codes "none"))

-- `%02x`
abbrev hex_digit : ℕ → ℕ
hex_digit d = if ltb d 10 then d + b'0' else d + 87

unfoldable pub hex_byte : ℕ → CString
hex_byte b = hex_digit (b / 16 % 16) ∷ (hex_digit (b % 16) ∷ [])

-- The six bytes of `l2_address` with colons between them.
unfoldable pub format_address : List ℕ → CString
format_address [] = []
format_address (b ∷ []) = hex_byte b
format_address (b ∷ (c ∷ bytes)) = hex_byte b ++ (b':' ∷ format_address (c ∷ bytes))

-- The text that `boy_copy_api_string` puts into a buffer of 65 bytes.
abbrev pub api_text : List ℕ → CString
api_text src = elim (copy_api_string 65 src) [ none ↦ [] | some s ↦ s ]

-- The new entries of the three dump callbacks; the buffer of the address has 18 bytes.
unfoldable pub interface_entry : InterfaceDetails → InterfaceEntry
interface_entry d = record {
  sw_if_index = d.sw_if_index;
  interface_name = api_text d.interface_name;
  if_type = d.if_type;
  interface_dev_type = api_text d.interface_dev_type;
  flags = d.flags;
  link_speed = d.link_speed;
  ethernet_address = take 17 (format_address d.l2_address);
  card_family = api_text d.interface_dev_type;
}

unfoldable pub memif_entry : MemifDetails → MemifEntry
memif_entry d = record {
  interface_name = api_text d.if_name;
  socket_id = d.socket_id;
  flags = memif_flags_to_string d.flags;
}

-- What a dump callback can change: its table, and the heap.
pub record Collected (A : Type 0) : Type 0 where
  pub table : Entries A
  pub heap : Heap

-- `boy_reserve_entries`, then the new entry; `item_size` is the `sizeof` of an entry.
unfoldable pub append_entry : {A : Type 0} → Grants → ℕ → A → Collected A → Called (Collected A)
append_entry grants item_size a s =
    elim (reserve grants item_size s.table.capacity (add64 (length s.table.entries) 1) s.heap) [
      | endless ↦ fails
      | refused h ↦ answers enomem (record s { heap = h })
      | reserved c h ↦ answers vapi_ok (record {
        table = record { entries = s.table.entries ++ (a ∷ []); capacity = c };
        heap = h;
      })
    ]

-- `boy_sw_interface_dump_cb`, `boy_span_dump_cb` and `boy_memif_dump_cb`, which differ in the entry.
unfoldable pub dump_cb : {D A : Type 0} → Grants → ℕ → (D → A) → Callback D (Collected A)
dump_cb grants item_size entry rv is_last none s =
    if is_ok rv then answers vapi_ok s else answers rv s
dump_cb grants item_size entry rv is_last (some d) s =
    if is_ok rv
    then (if is_last then answers vapi_ok s else append_entry grants item_size (entry d) s)
    else answers rv s

-- The test of the error code after a dump; true is the return value 0.
unfoldable pub check_dump : {A : Type 0} → Exchanged (Collected A) → M (Bool × Entries A)
check_dump broken w = crashed
check_dump (exchanged err s) w = ran (is_ok err, s.table) (record w { heap = s.heap })

-- `boy_collect_interfaces`, `boy_collect_span` and `boy_collect_memif`: a dump request fills the table
-- that the caller passes.
unfoldable pub collect :
    {D A : Type 0}
    → Vapi
    → Grants
    → ℕ
    → (D → A)
    → Request
    → (List Call → Exchange D)
    → Entries A
    → M (Bool × Entries A)
collect {D} {A} v grants item_size entry req reply t w =
    let allocated = v.allocs_message w.calls req in
    let calls = alloc_message req allocated ∷ w.calls in
    let start : Collected A = record { table = t; heap = w.heap } in
    if allocated
    then check_dump (exchange (dump_cb grants item_size entry) (reply calls) start)
        (record w { calls = send req ∷ calls })
    else ran (false, t) (record w { calls = calls })

-- The sizes of the entries in bytes, which depend on the enumerations of VPP.
pub record Sizes : Type 0 where
  pub interface_size : ℕ
  pub span_size : ℕ
  pub memif_size : ℕ

unfoldable pub collect_interfaces :
    Vapi → Grants → Sizes → Entries InterfaceEntry → M (Bool × Entries InterfaceEntry)
collect_interfaces v grants sizes =
    collect v grants sizes.interface_size interface_entry dump_interfaces v.sends_interfaces

unfoldable pub collect_span :
    Vapi → Grants → Sizes → Bool → Entries SpanEntry → M (Bool × Entries SpanEntry)
collect_span v grants sizes is_l2 =
    collect v grants sizes.span_size (λ d. d) (dump_spans is_l2)
      (λ calls. v.sends_spans calls is_l2)

unfoldable pub collect_memif :
    Vapi → Grants → Sizes → Entries MemifEntry → M (Bool × Entries MemifEntry)
collect_memif v grants sizes =
    collect v grants sizes.memif_size memif_entry dump_memifs v.sends_memifs
