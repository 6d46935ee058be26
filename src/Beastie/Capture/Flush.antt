-- ===== src/Beastie/Capture/Flush.antt =====
-- The flushes of beastie/commands/capture_cmd.c: how many bytes of packets can be lost from the file.
use beastie_boy.Beastie.PcapWriter.{
  Packet, PcapCall, dump, dump_flush, Libpcap, Writer, open_writer, write_packet, flush_writer,
}
use beastie_boy.Beastie.State.{flush_interval_bytes}
use beastie_boy.Beastie.Capture.{
  World, Burst, capture_packets, flush_if_due, on_interrupt, over_limit, at_limit, counted,
}
use beastie_boy.Beastie.Capture.Lines.{Unprinted, after_packets_inv}
use beastie_boy.Beastie.Capture.Account.{total_length, capture_packets-Captured}
use beastie_boy.Beastie.Capture.Limit.{AreShort}
use beastie_boy.Prelude.{
  ℕ, ◌+◌, ◌*◌, ◌≤◌, ◌<◌, Bool, true, false, List, [], ◌∷◌, length, leb, ◌==◌, ◌≡◌, arith, u32_mod,
  u64_mod, CString, Bool-cases, inl, inr,
}

-- The bytes of packets written since the last flush that succeeded.
unfoldable pub unflushed : List PcapCall → ℕ
unflushed [] = 0
unflushed (dump n p ∷ calls) = unflushed calls + length p
unflushed (dump_flush true ∷ calls) = 0
unflushed (dump_flush false ∷ calls) = unflushed calls
unflushed (_ ∷ calls) = unflushed calls

-- A writer that is initialized has its dumper, and one that is not has nothing to flush.
pub record IsOpened (w : Writer) : Type 0 where
  pub dumper : w.initialized ≡ true → w.dumper ≡ true
  pub nothing : w.initialized ≡ false → unflushed w.calls ≡ 0

-- The state counts at least the bytes that are not flushed.
pub record Tracks (w : World) : Type 0 where
  pub opened : IsOpened w.writer
  pub counts : unflushed w.writer.calls ≤ w.state.bytes_since_last_flush

-- What a write makes of them.
record Written (p : Packet) (w : Writer) (r : Bool × Writer) : Type 0 where
  opened : IsOpened r.1
  grown : unflushed r.1.calls ≤ unflushed w.calls + length p
  none_written : r.0 ≡ false → unflushed r.1.calls ≤ unflushed w.calls

write_packet-Written :
    (lib : Libpcap) (f : CString) (p : Packet) (w : Writer)
    → IsOpened w
    → Written p w (write_packet lib f p w)
unfolding write_packet open_writer unflushed
write_packet-Written lib f p w h =
    let has_dumper = h.dumper in
    let has_nothing = h.nothing in
    record {
      opened = record { dumper = ground arith; nothing = ground arith };
      grown = ground arith;
      none_written = ground arith;
    }

flush_writer-unflushed :
    (lib : Libpcap) (w : Writer)
    → IsOpened w
    → (unflushed (flush_writer lib w).1.calls ≤ unflushed w.calls)
      × IsOpened (flush_writer lib w).1
      × ((flush_writer lib w).0 ≡ true → unflushed (flush_writer lib w).1.calls ≡ 0)
unfolding flush_writer unflushed
flush_writer-unflushed lib w h =
    let has_dumper = h.dumper in
    let has_nothing = h.nothing in
    (ground arith, record { dumper = ground arith; nothing = ground arith }, ground arith)

-- The loop over a burst: while the counter cannot wrap round it keeps up with the file.
capture_packets-Tracks :
    (lib : Libpcap) (packets : List Packet) (w : World)
    → Tracks w
    → w.state.bytes_since_last_flush + total_length packets < u64_mod
    → Tracks (capture_packets lib packets w).1
unfolding capture_packets total_length
capture_packets-Tracks lib [] w t small = t
capture_packets-Tracks lib (p ∷ packets) w t small =
    let f = w.state.pcap_filename in
    let x = write_packet-Written lib f p w.writer t.opened in
    let r = write_packet lib f p w.writer in
    let w' : World = record w { state = counted (length p) w.state; writer = r.1 } in
    let sum : w'.state.bytes_since_last_flush ≡ w.state.bytes_since_last_flush + length p =
      omega (arith, small) in
    let t' : Tracks w' = record {
      opened = x.opened;
      counts = omega (arith, x.grown, t.counts, sum);
    } in
    elim (Bool-cases (over_limit w.state (length p))) [
      | inl over ↦ rw over (record { opened = t.opened; counts = t.counts })
      | inr fits ↦ rw fits (elim (Bool-cases r.0) [
        | inl e ↦ elim (Bool-cases (at_limit w'.state)) [
          | inl g ↦ rw (e, g) (record { opened = x.opened; counts = t'.counts })
          | inr g ↦ rw (e, g) (capture_packets-Tracks lib packets w' t' (omega (arith, small, sum)))
        ]
        | inr e ↦
            rw e (record { opened = x.opened; counts = omega (arith, x.none_written e, t.counts) })
      ])
    ]

-- Fewer than 2^20 bytes are not flushed.
pub record Flushed (w : World) : Type 0 where
  pub tracks : Tracks w
  pub low : w.state.bytes_since_last_flush < flush_interval_bytes

flush_if_due-Flushed :
    (lib : Libpcap) (w : World)
    → Tracks w
    → (flush_if_due lib w).1.state.keep_running ≡ true
    → Flushed (flush_if_due lib w).1
unfolding flush_if_due
flush_if_due-Flushed lib w t running =
    let (less, opened, none) = flush_writer-unflushed lib w.writer t.opened in
    elim (Bool-cases (leb flush_interval_bytes w.state.bytes_since_last_flush)) [
      | inl e ↦ elim (Bool-cases (flush_writer lib w.writer).0) [
        | inl f ↦
            rw (e, f)
              (record {
                tracks = record { opened = opened; counts = omega (arith, none f) };
                low = omega arith;
              })
        | inr f ↦ absurd (stops e f)
      ]
      | inr e ↦ rw e (record { tracks = t; low = ground arith })
    ]
  where
    stops :
        leb flush_interval_bytes w.state.bytes_since_last_flush ≡ true
        → (flush_writer lib w.writer).0 ≡ false
        → ⊥
    stops e f = ground arith

Tracks-Unprinted : Unprinted Tracks
Tracks-Unprinted w lines t = record { opened = t.opened; counts = t.counts }

-- Not flushed bytes are few while the capture goes on.
abbrev FlushedWhileRunning : World → Type 0
FlushedWhileRunning w = w.state.keep_running ≡ true → Flushed w

pub Flushed-Unprinted : Unprinted Flushed
Flushed-Unprinted w lines h = record { tracks = Tracks-Unprinted w lines h.tracks; low = h.low }

-- A burst that fits the 256 buffers of `on_interrupt`, whose lengths have 32 bits.
pub record FitsBuffers (b : Burst) : Type 0 where
  pub few : length b.packets ≤ 256
  pub short : AreShort b.packets

total_length-le :
    (packets : List Packet) → AreShort packets → total_length packets ≤ length packets * u32_mod
unfolding total_length
total_length-le [] h = omega arith
total_length-le (p ∷ packets) (h, hs) = omega (arith, h, total_length-le packets hs)

-- A burst that leaves the capture running leaves less than 1 MiB of packets that are not flushed, if
-- there was less before, and the counter covers them.
pub on_interrupt-Flushed :
    (lib : Libpcap) (b : Burst) (w : World)
    → FitsBuffers b
    → Flushed w
    → (on_interrupt lib b w).1.state.keep_running ≡ true
    → Flushed (on_interrupt lib b w).1
unfolding on_interrupt
on_interrupt-Flushed lib b w fits h =
    let looped = capture_packets lib b.packets w in
    let sum = total_length-le b.packets fits.short in
    let c = capture_packets-Captured lib b.packets w in
    let t = capture_packets-Tracks lib b.packets w h.tracks (omega (arith, h.low, sum, fits.few)) in
    elim (Bool-cases (b.rx_error == 0)) [
      | inl e ↦ elim (Bool-cases looped.0) [
        | inl f ↦
            rw (e, f)
              (after_packets_inv Tracks FlushedWhileRunning lib b Tracks-Unprinted
                (λ v lines f running. Flushed-Unprinted v lines (f running))
                (flush_if_due-Flushed lib) looped.1 t)
        | inr f ↦ rw (e, f) (λ running. absurd (went_on f (c.all_taken running).0))
      ]
      | inr e ↦ rw e (λ running. Flushed-Unprinted w _ h)
    ]
  where
    went_on :
        (capture_packets lib b.packets w).0 ≡ false → (capture_packets lib b.packets w).0 ≡ true → ⊥
    went_on f t = cc
