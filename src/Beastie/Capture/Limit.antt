-- ===== src/Beastie/Capture/Limit.antt =====
-- The capture limit of beastie/commands/capture_cmd.c: the bytes in the file never exceed it.
use beastie_boy.Beastie.PcapWriter.{Packet, Libpcap, Writer, write_packet}
use beastie_boy.Beastie.State.{CaptureState, Printed}
use beastie_boy.Beastie.Capture.{
  World, Burst, capture_packets, flush_if_due, on_interrupt, over_limit, at_limit, counted, stopped,
}
use beastie_boy.Beastie.Capture.Lines.{Unprinted, after_packets_inv}
use beastie_boy.Beastie.Capture.Account.{
  dumped, total_length, total_length-append, dumped-write_packet, dumped-flush_writer,
}
use beastie_boy.Prelude.{
  ℕ, ◌+◌, ◌≤◌, ◌<◌, false, List, [], ◌∷◌, ◌++◌, All, length, ◌≡◌, ◌∙◌, refl, arith, u32_mod,
  u64_mod, Bool-cases, inl, inr, ◌==◌,
}

-- A limit that leaves room for one more packet in 64 bits, and that has been kept so far: by the
-- counter, which counts the bytes given to libpcap without wrapping round.
pub record InLimit (limit : ℕ) (w : World) : Type 0 where
  pub limited : 0 < limit
  pub room : limit + u32_mod ≤ u64_mod
  pub configured : w.state.max_bytes_to_capture ≡ limit
  pub within : w.state.bytes_captured ≤ limit
  pub exact : total_length (dumped w.writer.calls) ≡ w.state.bytes_captured

-- The length of a buffer of libmemif has 32 bits.
abbrev pub AreShort : List Packet → Type 0
AreShort = All (λ (p : Packet). length p < u32_mod)

module _ (limit : ℕ) where
  counted-InLimit :
      (p : Packet) (w : World) (writer : Writer)
      → length p < u32_mod
      → InLimit limit w
      → over_limit w.state (length p) ≡ false
      → dumped writer.calls ≡ dumped w.writer.calls ++ (p ∷ [])
      → InLimit limit (record w { state = counted (length p) w.state; writer = writer })
  unfolding total_length
  counted-InLimit p w writer h v fits e =
      let sum = total_length-append (dumped w.writer.calls) (p ∷ []) in
      record {
        limited = v.limited;
        room = v.room;
        configured = v.configured;
        within = ground arith;
        exact = rw e (ground (arith, sum));
      }

  pub same-InLimit :
      (w : World) (s : CaptureState) (writer : Writer) (lines : List Printed)
      → InLimit limit w
      → s.bytes_captured ≡ w.state.bytes_captured
      → s.max_bytes_to_capture ≡ w.state.max_bytes_to_capture
      → dumped writer.calls ≡ dumped w.writer.calls
      → InLimit limit (record { state = s; writer = writer; lines = lines })
  same-InLimit w s writer lines v e f g = record {
    limited = v.limited;
    room = v.room;
    configured = f ∙ v.configured;
    within = rw e v.within;
    exact = rw (e, g) v.exact;
  }

  capture_packets-InLimit :
      (lib : Libpcap) (packets : List Packet) (w : World)
      → AreShort packets
      → InLimit limit w
      → InLimit limit (capture_packets lib packets w).1
  unfolding capture_packets
  capture_packets-InLimit lib [] w short v = v
  capture_packets-InLimit lib (p ∷ packets) w (h, short) v =
      let s' = counted (length p) w.state in
      let r = write_packet lib w.state.pcap_filename p w.writer in
      let w' : World = record w { state = s'; writer = r.1 } in
      let d = dumped-write_packet lib w.state.pcap_filename p w.writer in
      elim (Bool-cases (over_limit w.state (length p))) [
        | inl over ↦ rw over (same-InLimit w (stopped w.state) w.writer w.lines v refl refl refl)
        | inr fits ↦ rw fits (elim (Bool-cases r.0) [
          | inl e ↦
              let c = counted-InLimit p w r.1 h v fits (rw e at d) in
              elim (Bool-cases (at_limit s')) [
                | inl f ↦ rw (e, f) (same-InLimit w' (stopped s') r.1 w.lines c refl refl refl)
                | inr f ↦ rw (e, f) (capture_packets-InLimit lib packets w' short c)
              ]
          | inr e ↦ rw e (same-InLimit w (stopped w.state) r.1 _ v refl refl (rw e at d))
        ])
      ]

  flush_if_due-InLimit :
      (lib : Libpcap) (w : World) → InLimit limit w → InLimit limit (flush_if_due lib w).1
  unfolding flush_if_due
  flush_if_due-InLimit lib w v = ground (arith, dumped-flush_writer lib w.writer)

  pub InLimit-Unprinted : Unprinted (InLimit limit)
  InLimit-Unprinted w lines v = same-InLimit w w.state w.writer lines v refl refl refl

  -- Where a limit that is not 0 and leaves room for one more packet in 64 bits has been kept so far, by
  -- a counter that is the number of bytes in the file, a burst of packets whose lengths have 32 bits
  -- leaves it kept in the same sense.
  pub on_interrupt-InLimit :
      (lib : Libpcap) (b : Burst) (w : World)
      → AreShort b.packets
      → InLimit limit w
      → InLimit limit (on_interrupt lib b w).1
  unfolding on_interrupt
  on_interrupt-InLimit lib b w short v =
      let looped = capture_packets lib b.packets w in
      let c = capture_packets-InLimit lib b.packets w short v in
      elim (Bool-cases (b.rx_error == 0)) [
        | inl e ↦ elim (Bool-cases looped.0) [
          | inl f ↦
              rw (e, f)
                (after_packets_inv (InLimit limit) (InLimit limit) lib b InLimit-Unprinted
                  InLimit-Unprinted (flush_if_due-InLimit lib) looped.1 c)
          | inr f ↦ rw (e, f) c
        ]
        | inr e ↦ rw e (InLimit-Unprinted w _ v)
      ]
