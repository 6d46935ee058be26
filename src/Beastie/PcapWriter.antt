-- ===== src/Beastie/PcapWriter.antt =====
-- beastie/pcap_writer.c: the file that captured packets go to, opened at the first packet. libpcap is
-- not part of the repository: which of its calls succeed is a function of the calls before them.
pub mod Protocol
use beastie_boy.Prelude.{
  ℕ, ◌%◌, Bool, true, false, not, ◌||◌, ◌&&◌, List, [], ◌∷◌, ◌++◌, CString, if◌then◌else◌, length,
  u32_mod,
}

-- What is captured of a packet: its bytes. `len` is their number.
abbrev pub Packet : Type 0
Packet = List ℕ

-- A call of libpcap, with what it returned: true stands for a handle, or for 0.
pub data PcapCall : Type 0 where
  open_dead : Bool → PcapCall
  dump_open : CString → Bool → PcapCall
  dump : ℕ → Packet → PcapCall
  dump_flush : Bool → PcapCall
  dump_close : PcapCall
  close : PcapCall

pub record Libpcap : Type 0 where
  pub can_open_dead : List PcapCall → Bool
  pub can_dump_open : List PcapCall → CString → Bool
  pub can_flush : List PcapCall → Bool

-- The static variables, a handle that is not NULL as true, and the calls made so far, last one first.
pub record Writer : Type 0 where
  pub pcap : Bool
  pub dumper : Bool
  pub initialized : Bool
  pub calls : List PcapCall

-- The `if (!initialized)` block of `write_pcap_packet`, and whether it was passed.
unfoldable pub open_writer : Libpcap → CString → Writer → Bool × Writer
open_writer lib filename w =
    let opened = lib.can_open_dead w.calls in
    let calls = open_dead opened ∷ w.calls in
    let dumping = lib.can_dump_open calls filename in
    let calls' = dump_open filename dumping ∷ calls in
    if opened
    then (if dumping
        then (true, record { pcap = true; dumper = true; initialized = true; calls = calls' })
        else (
          false,
          record {
            pcap = false;
            dumper = false;
            initialized = w.initialized;
            calls = close ∷ calls';
          },
        ))
    else (false, record w { pcap = false; calls = calls })

-- `write_pcap_packet`; true is the return value 0. The length goes into a 32-bit field.
unfoldable pub write_packet : Libpcap → CString → Packet → Writer → Bool × Writer
unfolding open_writer
write_packet lib filename packet w =
    let (ready, w') = if w.initialized then (true, w) else open_writer lib filename w in
    if ready
    then (true, record w' { calls = dump (length packet % u32_mod) packet ∷ w'.calls })
    else (false, w')

-- `flush_pcap_writer`; true is the return value 0.
unfoldable pub flush_writer : Libpcap → Writer → Bool × Writer
flush_writer lib w =
    let done = lib.can_flush w.calls in
    if not w.initialized || not w.dumper
    then (true, w)
    else (done, record w { calls = dump_flush done ∷ w.calls })

-- `close_pcap_writer`; it does not look at what the flush returns.
unfoldable pub close_writer : Libpcap → Writer → Writer
close_writer lib w =
    let calls =
      if w.dumper then dump_close ∷ (dump_flush (lib.can_flush w.calls) ∷ w.calls) else w.calls in
    let calls' = if w.pcap then close ∷ calls else calls in
    record { pcap = false; dumper = false; initialized = false; calls = calls' }

abbrev pub fresh_writer : Writer
fresh_writer = record { pcap = false; dumper = false; initialized = false; calls = [] }
