-- ===== src/Tests/Commands.antt =====
-- VPP with a hardware interface and a memif, the commands run against it, and the theorems on boy
-- applied to it.
use beastie_boy.Boy.Cli.{MemifCreate, both}
use beastie_boy.Boy.Client.Strings.{copy_api_string, until_zero}
use beastie_boy.Boy.Collectors.{
  InterfaceEntry, SpanEntry, Sizes, no_entries, Collected, dump_cb, interface_entry,
  is_span_source_candidate,
}
use beastie_boy.Boy.Collectors.Dumps.{HasRoom, delivers, dump_cb-delivers}
use beastie_boy.Boy.Span.{configure, remove_spans}
use beastie_boy.Boy.Span.Mirror.{Mirrored, configure_lem}
use beastie_boy.Boy.Span.Removal.{disables, Removed, remove_spans_lem}
use beastie_boy.Boy.Span.Returns.{KeepsToInterface}
use beastie_boy.Boy.Memif.{create_and_bring_up}
use beastie_boy.Boy.Memif.Accepted.{IsCreated}
use beastie_boy.Boy.Memif.Created.{create_and_bring_up_lem}
use beastie_boy.Boy.Show.{show_rows, span_columns, span_rows, entry_rows, or_no_entry}
use beastie_boy.Boy.Show.Output.{Shows, show_rows_lem}
use beastie_boy.Boy.Show.Sessions.{span_rows-Fits}
use beastie_boy.Common.Table.{Row}
use beastie_boy.Common.Table.Widths.{Terminal}
use beastie_boy.Boy.Version.{
  show_version, show_version_connected, ask_for_version, check_version, version_text,
  version_result, show_version_cb,
}
use beastie_boy.Common.Log.{info, log_message, level_name}
use beastie_boy.Boy.Client.{open_vapi, close_vapi}
use beastie_boy.Boy.Client.Strings.{copy_api_string, until_zero}
use beastie_boy.Boy.Vpp.{ctx_free, disconnect, ctx_alloc, connect, send, alloc_message, ask_version}
use beastie_boy.Boy.Vpp.Monad.{ran, exchange}
use beastie_boy.Boy.Vpp.{
  VersionDetails, InbandReply, vapi_ok, hardware, span_rx_tx, ctx_alloc, connect, InterfaceDetails,
  Reply, Exchange, ends, calls_back, Vapi, World,
}
use beastie_boy.Boy.Vpp.Monad.{RanEnsures, exchanged, exchange}
use beastie_boy.Boy.Vpp.Session.{no_context, connected, after_call, session, IsIn}
use beastie_boy.Common.Allocator.{Heap, Grants}
use beastie_boy.Prelude.{
  str_eq, ◌^◌, ◌≤◌, true, false, none, some, List, [], ◌∷◌, ◌++◌, codes, starts_with, length, ◌≡◌,
  refl, arith, ◌↔◌,
}

abbrev pub willing : Grants
willing n size = true

abbrev pub no_blocks : Heap
no_blocks = record { asked = 0; live = 0 }

abbrev pub eth_details : InterfaceDetails
eth_details = record {
  sw_if_index = 1;
  if_type = hardware;
  flags = record { admin_up = false; link_up = false };
  link_speed = 1000000;
  interface_name = codes "eth0" ++ (0 ∷ 0 ∷ []);
  interface_dev_type = codes "dpdk" ++ (0 ∷ []);
  l2_address = 2 ∷ 254 ∷ 0 ∷ 16 ∷ 32 ∷ 48 ∷ [];
}

abbrev pub memif_details : InterfaceDetails
memif_details = record eth_details {
  sw_if_index = 2;
  interface_name = codes "memif0/0" ++ (0 ∷ []);
  flags = record { admin_up = true; link_up = true };
}

abbrev pub eth : InterfaceEntry
eth = interface_entry eth_details

abbrev pub memif : InterfaceEntry
memif = interface_entry memif_details

abbrev pub mirrored : SpanEntry
mirrored = record { sw_if_index_from = 1; sw_if_index_to = 2; state = span_rx_tx; is_l2 = false }

abbrev other_mirrored : SpanEntry
other_mirrored = record mirrored { sw_if_index_from = 3 }

abbrev pub agrees : Exchange Reply
agrees = calls_back vapi_ok true (some (record { retval = 0; sw_if_index = 2 })) (λ err. ends err)

abbrev pub version_25 : VersionDetails
version_25 = record {
  retval = 0;
  program = codes "vpe" ++ (0 ∷ []);
  version = codes "25.06" ++ (0 ∷ []);
  build_date = [];
  build_directory = [];
}

abbrev pub hardware_25 : InbandReply
hardware_25 = record {
  retval = 0;
  reply =
      codes
        "eth0  1  up  eth0\n  Ethernet address 02:fe:00:10:20:30\n  Intel 82599\n    carrier up\n";
}

abbrev pub vpp : Vapi
vpp = record {
  allocs_ctx = λ _. vapi_ok;
  connects = λ _. vapi_ok;
  allocs_message = λ _ _. true;
  sends_interfaces = λ _. delivers (eth_details ∷ memif_details ∷ []);
  sends_spans = λ _ _. delivers (mirrored ∷ []);
  sends_memifs = λ _. delivers [];
  replies = λ _ _. agrees;
  versions = λ _. calls_back vapi_ok true (some version_25) (λ err. ends err);
  inbands = λ _. calls_back vapi_ok true (some hardware_25) (λ err. ends err);
}

abbrev pub sizes : Sizes
sizes = record { interface_size = 240; span_size = 16; memif_size = 104 }

abbrev pub at_start : World
at_start = record { calls = []; heap = no_blocks }

pub at_start-IsIn : IsIn no_context at_start
unfolding session after_call
at_start-IsIn = refl

abbrev opened : World
opened = record { calls = connect vapi_ok ∷ ctx_alloc vapi_ok ∷ []; heap = no_blocks }

opened-IsIn : IsIn connected opened
unfolding session after_call
opened-IsIn = refl

abbrev pub new_memif : MemifCreate
new_memif = record { id = 7; socket_id = 0; ring_size = 1024; buffer_size = 2048 }

create_and_bring_up_lem_example :
    RanEnsures
      (λ done w'. IsIn connected w' × ((done ≡ true) ↔ IsCreated vpp new_memif opened w'))
      (create_and_bring_up vpp new_memif opened)
create_and_bring_up_lem_example = create_and_bring_up_lem vpp new_memif opened opened-IsIn

pub vpp-KeepsToInterface : KeepsToInterface 3 vpp
vpp-KeepsToInterface = record {
  replies = λ calls req err. tt;
  interfaces = λ calls err err' err''. tt;
  spans = λ calls is_l2 err err'. tt;
}

configure_lem_example :
    RanEnsures
      (λ done w'.
        IsIn connected w'
        × (done ≡ true → Mirrored (eth ∷ memif ∷ []) 1 (codes "memif0/0") both opened.calls w'))
      (configure vpp (eth ∷ memif ∷ []) 1 (codes "memif0/0") both opened)
configure_lem_example =
    configure_lem vpp (eth ∷ memif ∷ []) 1 (codes "memif0/0") both opened opened-IsIn

remove_spans_lem_example :
    RanEnsures
      (Removed (disables 1 (mirrored ∷ other_mirrored ∷ [])) opened.calls)
      (remove_spans vpp 1 (mirrored ∷ other_mirrored ∷ []) opened)
remove_spans_lem_example =
    remove_spans_lem vpp 1 (mirrored ∷ other_mirrored ∷ []) opened opened-IsIn

abbrev nothing_collected : Collected InterfaceEntry
nothing_collected = record { table = no_entries; heap = no_blocks }

dump_cb-delivers_example :
    (s' : Collected InterfaceEntry) × (exchange
        (dump_cb willing 240 interface_entry)
        (delivers (eth_details ∷ memif_details ∷ []))
        nothing_collected
      ≡ exchanged vapi_ok s')
    × (s'.table.entries ≡ [] ++ (eth ∷ memif ∷ []))
    × HasRoom s'.table
dump_cb-delivers_example =
    dump_cb-delivers willing 240 interface_entry (eth_details ∷ memif_details ∷ [])
      nothing_collected (λ n size. refl) (omega arith) (omega arith)

abbrev some_rows : List Row
some_rows = span_rows (eth ∷ memif ∷ []) (mirrored ∷ []) (eth ∷ memif ∷ [])

abbrev pub wide : Terminal
wide = record { columns_env = none; window_columns = some 160 }

some_rows-few : length some_rows ≤ 2 ^ 63
unfolding span_rows entry_rows or_no_entry is_span_source_candidate interface_entry str_eq
    copy_api_string until_zero starts_with
some_rows-few = omega arith

show_rows_lem_example :
    Shows willing wide span_columns some_rows at_start
      (show_rows willing wide span_columns some_rows at_start)
show_rows_lem_example =
    show_rows_lem willing wide span_columns some_rows at_start some_rows-few
      (span_rows-Fits (eth ∷ memif ∷ []) (mirrored ∷ []) (eth ∷ memif ∷ []))

-- At the default level the program and its version are printed.
prints_version :
    show_version vpp info at_start
    ≡ ran
        (true, codes "[INFO] program: vpe\n[INFO] version: 25.06\n")
        (record at_start {
          calls =
              ctx_free
              ∷ disconnect
              ∷ send ask_version
              ∷ alloc_message ask_version true
              ∷ connect vapi_ok
              ∷ ctx_alloc vapi_ok
              ∷ [];
        })
unfolding show_version show_version_connected ask_for_version check_version version_text
    version_result show_version_cb exchange open_vapi close_vapi copy_api_string until_zero
    log_message level_name
prints_version = refl
