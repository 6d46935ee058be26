-- ===== src/Boy/Phy.antt =====
-- boy/commands/phy_cmd.c: the physical interfaces of VPP, as a table on the standard output. Log
-- messages are left out. Boy/Hardware is its reader of the output of `show hardware-interfaces`.
pub mod Sessions
pub mod Held
pub mod Cells
use beastie_boy.Boy.Client.{is_ok, open_vapi, close_vapi}
use beastie_boy.Boy.Client.Strings.{until_zero}
use beastie_boy.Boy.Collectors.{
  Entries, no_entries, InterfaceEntry, Sizes, collect_interfaces, is_physical_interface,
}
use beastie_boy.Boy.Hardware.{override_card_family}
use beastie_boy.Boy.Show.{Output, no_output, show_rows}
use beastie_boy.Boy.Span.{free_table}
use beastie_boy.Boy.Vpp.{
  vapi_ok, enomem, IfFlags, InbandReply, show_hardware, alloc_message, send, World, Vapi,
}
use beastie_boy.Boy.Vpp.Monad.{
  Ran, crashed, ran, M, pure, ◌>>=◌, fails, answers, Callback, Exchanged, broken, exchanged,
  exchange,
}
use beastie_boy.Common.Allocator.{Heap, Grants, allocate, release}
use beastie_boy.Common.Strtoul.{decimal}
use beastie_boy.Common.Table.{left, right, Column, Row}
use beastie_boy.Common.Table.Widths.{Terminal}
use beastie_boy.Prelude.{
  ℕ, ◌/◌, ◌%◌, Bool, true, false, not, Option, none, some, List, [], ◌∷◌, ◌++◌, CString, codes, map,
  length, take, add64, ◌==◌, if◌then◌else◌,
}

-- `boy_cli_inband_result_t`, with the heap; `reply` is the array without the zero byte after it.
pub record InbandResult : Type 0 where
  pub received_reply : Bool
  pub retval : ℕ
  pub reply : Option (List ℕ)
  pub heap : Heap

-- The blocks of a text that may be NULL, and `free` of it.
abbrev pub text_blocks : Option (List ℕ) → ℕ
text_blocks none = 0
text_blocks (some text) = 1

-- `boy_cli_inband_cb`
unfoldable pub inband_cb : Grants → Callback InbandReply InbandResult
inband_cb grants rv is_last none s = if is_ok rv then answers vapi_ok s else answers rv s
inband_cb grants rv is_last (some r) s =
    let buf = allocate grants (add64 (length r.reply) 1) s.heap in
    if is_ok rv
    then (if buf.granted
        then answers vapi_ok (record {
          received_reply = true;
          retval = r.retval;
          reply = some r.reply;
          heap = release (text_blocks s.reply) buf.heap;
        })
        else answers enomem (record s { heap = buf.heap }))
    else answers rv s

-- `free (result.reply)`, and the return value 1.
abbrev pub discard : InbandResult → M (Option (List ℕ))
discard s w = ran none (record w { heap = release (text_blocks s.reply) s.heap })

-- The three tests after the request.
unfoldable pub check_inband : Exchanged InbandResult → M (Option (List ℕ))
check_inband broken w = crashed
check_inband (exchanged err s) w =
    if not (is_ok err)
    then discard s w
    else (if not s.received_reply
        then discard s w
        else (if not (s.retval == 0)
            then discard s w
            else ran s.reply (record w { heap = s.heap })))

-- `boy_fetch_show_hardware_output`; the value is `*output`, and NULL for the return value 1.
unfoldable pub fetch_show_hardware_output : Vapi → Grants → M (Option (List ℕ))
fetch_show_hardware_output v grants w =
    let allocated = v.allocs_message w.calls show_hardware in
    let calls = alloc_message show_hardware allocated ∷ w.calls in
    let start : InbandResult = record {
      received_reply = false;
      retval = 0;
      reply = none;
      heap = w.heap;
    } in
    if allocated
    then check_inband (exchange (inband_cb grants) (v.inbands calls) start)
        (record w { calls = send show_hardware ∷ calls })
    else ran none (record w { calls = calls })

-- The call of `boy_override_card_family_from_cli_output` after a fetch that gave a text, which is read
-- up to its first zero byte.
unfoldable pub override_families :
    Grants → Option (List ℕ) → List InterfaceEntry → M (List InterfaceEntry)
override_families grants none entries w = ran entries w
override_families grants (some reply) entries w =
    let (entries', h) = override_card_family grants (some (until_zero reply)) entries w.heap in
    ran entries' (record w { heap = h })

-- `boy_phy_link_state`
unfoldable pub phy_link_state : IfFlags → CString
phy_link_state flags = if flags.link_up then codes "up" else codes "down"

-- `boy_phy_speed_to_string`, before it is cut to the buffer.
unfoldable pub phy_speed : ℕ → CString
phy_speed link_speed =
    if link_speed == 0
    then codes "unknown"
    else (if link_speed % 1000 == 0
        then decimal (link_speed / 1000) ++ codes "Gbps"
        else decimal link_speed ++ codes "Mbps")

-- `boy_add_phy_row`; both buffers have 16 bytes.
unfoldable pub phy_row : InterfaceEntry → Row
phy_row e =
    some e.interface_name
    ∷ some (take 15 (decimal e.sw_if_index))
    ∷ some (phy_link_state e.flags)
    ∷ some (take 15 (phy_speed e.link_speed))
    ∷ some e.ethernet_address
    ∷ some e.card_family
    ∷ []

abbrev pub phy_columns : List Column
phy_columns =
    record {
      header = some (codes "Interface Name");
      min_width = 14;
      max_width = 0;
      is_flexible = true;
      align = left;
    }
    ∷ record {
      header = some (codes "If-Index");
      min_width = 8;
      max_width = 10;
      is_flexible = false;
      align = right;
    }
    ∷ record {
      header = some (codes "Link");
      min_width = 4;
      max_width = 8;
      is_flexible = false;
      align = left;
    }
    ∷ record {
      header = some (codes "Speed");
      min_width = 5;
      max_width = 10;
      is_flexible = false;
      align = left;
    }
    ∷ record {
      header = some (codes "Ethernet Address");
      min_width = 16;
      max_width = 17;
      is_flexible = false;
      align = left;
    }
    ∷ record {
      header = some (codes "Card Family");
      min_width = 11;
      max_width = 0;
      is_flexible = true;
      align = left;
    }
    ∷ []

-- The rows that the loop adds.
unfoldable pub phy_rows : List InterfaceEntry → List Row
phy_rows [] = []
phy_rows (e ∷ entries) =
    let rest = phy_rows entries in if not (is_physical_interface e) then rest else phy_row e ∷ rest

-- `free (hardware_output)`
abbrev pub free_text : Option (List ℕ) → M (Unit {0})
free_text text w = ran tt (record w { heap = release (text_blocks text) w.heap })

-- What follows the collection of the interfaces, with the release of the text that was fetched.
unfoldable pub show_fetched : Vapi → Grants → Terminal → List InterfaceEntry → M Output
show_fetched v grants term entries = do
  text ← fetch_show_hardware_output v grants
  entries' ← override_families grants text entries
  shown ← show_rows grants term phy_columns (phy_rows entries')
  _ ← free_text text
  pure shown

unfoldable pub show_phy_connected : Vapi → Grants → Sizes → Terminal → M Output
show_phy_connected v grants sizes term = do
  interfaces ← collect_interfaces v grants sizes no_entries
  shown ← if interfaces.0 then show_fetched v grants term interfaces.1.entries else pure no_output
  _ ← free_table interfaces.1
  _ ← close_vapi true
  pure shown

-- `boy_show_phy`
unfoldable pub show_phy : Vapi → Grants → Sizes → Terminal → M Output
show_phy v grants sizes term = do
  opened ← open_vapi v
  if opened then show_phy_connected v grants sizes term else pure no_output
