-- ===== src/Beastie/PcapWriter/Protocol.antt =====
-- The order in which beastie/pcap_writer.c calls libpcap: no call on a handle that is not open, every
-- handle closed.
use beastie_boy.Beastie.PcapWriter.{
  Packet, PcapCall, open_dead, dump_open, dump, dump_flush, dump_close, close, Libpcap, Writer,
  write_packet, flush_writer, close_writer,
}
use beastie_boy.Prelude.{
  true, false, Option, none, some, List, [], ◌∷◌, CString, if◌then◌else◌, ◌≡◌, arith,
}

-- Which handles of libpcap are open.
pub data Handles : Type 0 where
  neither capture_only both : Handles

-- What a call does to the open handles; `none` is a call that libpcap does not allow.
unfoldable pub after_call : PcapCall → Handles → Option Handles
after_call (open_dead true) neither = some capture_only
after_call (open_dead false) neither = some neither
after_call (dump_open f true) capture_only = some both
after_call (dump_open f false) capture_only = some capture_only
after_call (dump n p) both = some both
after_call (dump_flush b) both = some both
after_call dump_close both = some capture_only
after_call close capture_only = some neither
after_call _ _ = none

-- The open handles after a list of calls, last one first.
unfoldable pub replay : List PcapCall → Option Handles
unfolding after_call
replay [] = some neither
replay (c ∷ calls) = elim (replay calls) [ none ↦ none | some s ↦ after_call c s ]

-- The variables of the module say which handles are open, and all calls so far were allowed.
pub record IsValid (w : Writer) : Type 0 where
  pub ready : w.initialized ≡ w.dumper
  pub paired : w.pcap ≡ w.dumper
  pub allowed : replay w.calls ≡ some (if w.dumper then both else neither)

pub write_packet-IsValid :
    (lib : Libpcap) (filename : CString) (p : Packet) {w : Writer}
    → IsValid w
    → IsValid (write_packet lib filename p w).1
unfolding write_packet replay
write_packet-IsValid lib filename p v = ground arith

pub flush_writer-IsValid : (lib : Libpcap) {w : Writer} → IsValid w → IsValid (flush_writer lib w).1
unfolding flush_writer replay
flush_writer-IsValid lib v = ground arith

-- From a writer whose variables say which handles are open, and whose calls were all allowed,
-- `close_pcap_writer` leaves such a writer, with no handle open.
pub close_writer_lem :
    (lib : Libpcap) {w : Writer}
    → IsValid w
    → IsValid (close_writer lib w) × (replay (close_writer lib w).calls ≡ some neither)
unfolding close_writer replay
close_writer_lem lib v = ground arith
