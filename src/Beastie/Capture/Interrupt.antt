-- ===== src/Beastie/Capture/Interrupt.antt =====
-- on_interrupt of beastie/commands/capture_cmd.c as a whole: what it leaves in the file and in the
-- counters, and the libpcap handles.
use beastie_boy.Beastie.PcapWriter.{Packet, Libpcap, write_packet}
use beastie_boy.Beastie.PcapWriter.Protocol
use beastie_boy.Beastie.PcapWriter.Protocol.{write_packet-IsValid, flush_writer-IsValid}
use beastie_boy.Beastie.State.{log_error}
use beastie_boy.Beastie.Capture.{
  World, Burst, Return, memif_error, capture_packets, flush_if_due, after_packets, on_interrupt,
  over_limit, at_limit, counted, add_line,
}
use beastie_boy.Beastie.Capture.Lines.{Unprinted, after_packets_inv}
use beastie_boy.Beastie.Capture.Account.{
  dumped, dumped-flush_writer, IsAccounted, same-IsAccounted, capture_packets-Captured,
}
use beastie_boy.Prelude.{
  ℕ, true, codes, List, [], ◌∷◌, ◌++◌, length, take, ◌≡◌, refl, arith, Bool-cases, inl, inr, ◌==◌,
  sym, append-nil, ◌∙◌, ◌≢◌,
}

-- What the part after the loop keeps.
record Kept (w w' : World) : Type 0 where
  same_packets : dumped w'.writer.calls ≡ dumped w.writer.calls
  same_bytes : w'.state.bytes_captured ≡ w.state.bytes_captured
  same_count : w'.state.packets_captured ≡ w.state.packets_captured
  still : w'.state.keep_running ≡ true → w.state.keep_running ≡ true

flush_if_due-Kept : (lib : Libpcap) (w : World) → Kept w (flush_if_due lib w).1
unfolding flush_if_due
flush_if_due-Kept lib w = ground (arith, dumped-flush_writer lib w.writer)

Kept-refl : (w : World) → Kept w w
Kept-refl w = record {
  same_packets = refl;
  same_bytes = refl;
  same_count = refl;
  still = λ running. running;
}

Kept-Unprinted : (w : World) → Unprinted (Kept w)
Kept-Unprinted w w' lines k = record {
  same_packets = k.same_packets;
  same_bytes = k.same_bytes;
  same_count = k.same_count;
  still = k.still;
}

Kept-trans : (u v w : World) → Kept u v → Kept v w → Kept u w
Kept-trans u v w k l = record {
  same_packets = l.same_packets ∙ k.same_packets;
  same_bytes = l.same_bytes ∙ k.same_bytes;
  same_count = l.same_count ∙ k.same_count;
  still = λ running. k.still (l.still running);
}

after_packets-Kept : (lib : Libpcap) (b : Burst) (w : World) → Kept w (after_packets lib b w).1
after_packets-Kept lib b w =
    after_packets_inv (Kept w) (Kept w) lib b (Kept-Unprinted w) (Kept-Unprinted w)
      (λ v k. Kept-trans w v (flush_if_due lib v).1 k (flush_if_due-Kept lib v)) w (Kept-refl w)

-- What a call of `on_interrupt` does with the packets of a burst.
pub record BurstEnsures (b : Burst) (w : World) (r : Return × World) : Type 0 where
  pub taken : ℕ
  pub written : dumped r.1.writer.calls ≡ dumped w.writer.calls ++ take taken b.packets
  pub all_taken : b.rx_error ≡ 0 → r.1.state.keep_running ≡ true → take taken b.packets ≡ b.packets
  pub still : r.1.state.keep_running ≡ true → w.state.keep_running ≡ true
  pub refused :
      b.rx_error ≢ 0
      → (r.0 ≡ memif_error b.rx_error)
        × (r.1 ≡ add_line (log_error (codes "memif_rx_burst") b.rx_error) w)
  pub accounted : IsAccounted w → IsAccounted r.1

-- A burst adds a prefix of its packets to the file: all of them if libmemif delivered it and the capture
-- goes on. It never sets the capture going again. If the counters were those of the file, modulo 2^64,
-- they still are. A burst that libmemif could not deliver changes nothing, and its error is logged and returned.
pub on_interrupt_lem :
    (lib : Libpcap) (b : Burst) (w : World) → BurstEnsures b w (on_interrupt lib b w)
unfolding on_interrupt
on_interrupt_lem lib b w =
    let looped = capture_packets lib b.packets w in
    let c = capture_packets-Captured lib b.packets w in
    let k = after_packets-Kept lib b looped.1 in
    elim (Bool-cases (b.rx_error == 0)) [
      | inl z ↦ elim (Bool-cases looped.0) [
        | inl ok ↦
            rw (z, ok)
              (record {
                taken = c.taken;
                written = k.same_packets ∙ c.written;
                all_taken = λ e running. (c.all_taken (k.still running)).1;
                still = λ running. c.still (k.still running);
                refused = λ ne. absurd (ne (ground arith));
                accounted = λ a. record {
                  bytes = rw (k.same_bytes, k.same_packets) (c.accounted a).bytes;
                  packets = rw (k.same_count, k.same_packets) (c.accounted a).packets;
                };
              })
        | inr failed ↦
            rw (z, failed)
              (record {
                taken = c.taken;
                written = c.written;
                all_taken = λ e running. (c.all_taken running).1;
                still = c.still;
                refused = λ ne. absurd (ne (ground arith));
                accounted = c.accounted;
              })
      ]
      | inr ne ↦ rw ne (record {
        taken = 0;
        written = sym (append-nil (dumped w.writer.calls));
        all_taken = λ e running. absurd (ground arith);
        still = λ running. running;
        refused = λ _. (refl, refl);
        accounted = λ a. same-IsAccounted w w.state w.writer _ a refl refl refl;
      })
    ]

capture_packets-IsValid :
    (lib : Libpcap) (packets : List Packet) (w : World)
    → Protocol.IsValid w.writer
    → Protocol.IsValid (capture_packets lib packets w).1.writer
unfolding capture_packets
capture_packets-IsValid lib [] w v = v
capture_packets-IsValid lib (p ∷ packets) w v =
    let r = write_packet lib w.state.pcap_filename p w.writer in
    let x = write_packet-IsValid lib w.state.pcap_filename p v in
    let q =
      capture_packets-IsValid lib packets
        (record w { state = counted (length p) w.state; writer = r.1 }) x in
    elim (Bool-cases (over_limit w.state (length p))) [
      | inl over ↦ rw over v
      | inr fits ↦ rw fits (elim (Bool-cases r.0) [
        | inl e ↦ elim (Bool-cases (at_limit (counted (length p) w.state))) [
          | inl f ↦ rw (e, f) x
          | inr f ↦ rw (e, f) q
        ]
        | inr e ↦ rw e x
      ])
    ]

abbrev WriterIsValid : World → Type 0
WriterIsValid w = Protocol.IsValid w.writer

flush_if_due-IsValid :
    (lib : Libpcap) (w : World)
    → Protocol.IsValid w.writer
    → Protocol.IsValid (flush_if_due lib w).1.writer
unfolding flush_if_due
flush_if_due-IsValid lib w v = ground (arith, flush_writer-IsValid lib v)

-- From a writer whose variables say which handles are open, and whose calls were all allowed, a burst
-- makes only calls of libpcap that the open handles allow, and leaves such a writer.
pub on_interrupt-IsValid :
    (lib : Libpcap) (b : Burst) (w : World)
    → Protocol.IsValid w.writer
    → Protocol.IsValid (on_interrupt lib b w).1.writer
unfolding on_interrupt
on_interrupt-IsValid lib b w v =
    let looped = capture_packets lib b.packets w in
    let c = capture_packets-IsValid lib b.packets w v in
    elim (Bool-cases (b.rx_error == 0)) [
      | inl e ↦ elim (Bool-cases looped.0) [
        | inl f ↦
            rw (e, f)
              (after_packets_inv WriterIsValid WriterIsValid lib b (λ w lines v. v) (λ w lines v. v)
                (flush_if_due-IsValid lib) looped.1 c)
        | inr f ↦ rw (e, f) c
      ]
      | inr e ↦ rw e v
    ]
