-- ===== src/Beastie/Capture.antt =====
-- beastie/commands/capture_cmd.c: what its callback on_interrupt does to a capture. libmemif is
-- not part of the repository: what its calls return and which callbacks it makes are arguments.
pub mod Lines
pub mod Limit
pub mod Account
pub mod Interrupt
pub mod Flush
pub mod Progress
pub mod Run
use beastie_boy.Beastie.PcapWriter.{Packet, Libpcap, Writer, write_packet, flush_writer}
use beastie_boy.Common.Double.{round_even, to_double, hundredfold, quotient}
use beastie_boy.Common.Log.{LogLevel, error, info}
use beastie_boy.Common.Strtoul.{decimal}
use beastie_boy.Prelude.{
  ℕ, ◌+◌, ◌-◌, ◌*◌, ◌/◌, ◌%◌, Bool, true, false, not, ◌||◌, ◌&&◌, Option, none, some, List, [], ◌∷◌,
  ◌++◌, CString, codes, if◌then◌else◌, ltb, leb, ◌==◌, length, replicate, add64, mul64,
}
use beastie_boy.Beastie.State.{
  CaptureState, Printed, drawn, failed_for_output, flush_interval_bytes, log_error, progress_line,
}

-- What a callback can change: the state, the writer, and what was printed, the last first.
pub record World : Type 0 where
  pub state : CaptureState
  pub writer : Writer
  pub lines : List Printed

abbrev pub add_line : Printed → World → World
add_line line w = record w { lines = line ∷ w.lines }

abbrev pub stopped : CaptureState → CaptureState
stopped s = record s { keep_running = false }

-- The counters after a packet was written.
abbrev pub counted : ℕ → CaptureState → CaptureState
counted len s = record s {
  packets_captured = add64 s.packets_captured 1;
  bytes_captured = add64 s.bytes_captured len;
  bytes_since_last_flush = add64 s.bytes_since_last_flush len;
}

-- The packet would take the capture over its limit.
abbrev pub over_limit : CaptureState → ℕ → Bool
over_limit s len =
    ltb 0 s.max_bytes_to_capture && ltb s.max_bytes_to_capture (add64 s.bytes_captured len)

abbrev pub at_limit : CaptureState → Bool
at_limit s = ltb 0 s.max_bytes_to_capture && leb s.max_bytes_to_capture s.bytes_captured

-- The loop over the buffers of `on_interrupt`; false is its `return -1`.
unfoldable pub capture_packets : Libpcap → List Packet → World → Bool × World
capture_packets lib [] w = (true, w)
capture_packets lib (p ∷ packets) w =
    let s = w.state in
    let (written, writer) = write_packet lib s.pcap_filename p w.writer in
    let s' = counted (length p) s in
    let rest = capture_packets lib packets (record w { state = s'; writer = writer }) in
    if over_limit s (length p)
    then (true, record w { state = stopped s })
    else (if written
        then (if at_limit s'
            then (true, record w { state = stopped s'; writer = writer })
            else rest)
        else (
          false,
          record w {
            state = stopped s;
            writer = writer;
            lines = failed_for_output (codes "write_pcap_packet") s ∷ w.lines;
          },
        ))

-- What `memif_rx_burst` and `memif_refill_queue` give in a call of `on_interrupt`.
pub record Burst : Type 0 where
  pub rx_error : ℕ
  pub packets : List Packet
  pub refill_error : ℕ

-- What a callback returns: 0, an error of libmemif, or -1.
pub data Return : Type 0 where
  success failure : Return
  memif_error : ℕ → Return

abbrev pub returned : ℕ → Return
returned err = if err == 0 then success else memif_error err

abbrev draw : Burst → World → World
draw b w =
    if ltb 0 (length b.packets)
    then record w { lines = drawn (progress_line w.state) ∷ w.lines }
    else w

-- The flush after the loop; false is the `return -1`.
unfoldable pub flush_if_due : Libpcap → World → Bool × World
flush_if_due lib w =
    let s = w.state in
    let (flushed, writer) = flush_writer lib w.writer in
    if leb flush_interval_bytes s.bytes_since_last_flush
    then (if flushed
        then (true, record w { state = record s { bytes_since_last_flush = 0 }; writer = writer })
        else (
          false,
          record w {
            state = stopped s;
            writer = writer;
            lines = failed_for_output (codes "flush_pcap_writer") s ∷ w.lines;
          },
        ))
    else (true, w)

-- What `memif_refill_queue` returns, and its message.
unfoldable pub after_refill : ℕ → World → Return × World
after_refill err w =
    if err == 0
    then (success, w)
    else (memif_error err, add_line (log_error (codes "memif_refill_queue") err) w)

unfoldable pub after_packets : Libpcap → Burst → World → Return × World
after_packets lib b w =
    let (flushed, w') = flush_if_due lib (draw b w) in
    if flushed
    then (if ltb 0 (length b.packets) then after_refill b.refill_error w' else (success, w'))
    else (failure, w')

unfoldable pub on_interrupt : Libpcap → Burst → World → Return × World
on_interrupt lib b w =
    let (looped, w') = capture_packets lib b.packets w in
    if not (b.rx_error == 0)
    then (memif_error b.rx_error, add_line (log_error (codes "memif_rx_burst") b.rx_error) w)
    else (if looped then after_packets lib b w' else (failure, w'))
