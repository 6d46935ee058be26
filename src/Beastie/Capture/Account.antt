-- ===== src/Beastie/Capture/Account.antt =====
-- What the counters of beastie/commands/capture_cmd.c say about the capture file, and which packets
-- of a burst get into it.
use beastie_boy.Beastie.PcapWriter.{
  Packet, PcapCall, dump, Libpcap, Writer, write_packet, flush_writer,
}
use beastie_boy.Beastie.State.{CaptureState, Printed}
use beastie_boy.Beastie.Capture.{World, capture_packets, over_limit, at_limit, counted, stopped}
use beastie_boy.Prelude.{
  ℕ, suc, ◌+◌, ◌%◌, Bool, true, List, [], ◌∷◌, ◌++◌, length, take, ◌≡◌, refl, arith, u64_mod,
  length-append, if◌then◌else◌, Bool-cases, inl, inr, sym, ap, ◌∙◌, append-nil, append_assoc,
  CString,
}

-- The packets written, oldest first; the calls come last one first.
unfoldable pub dumped : List PcapCall → List Packet
dumped [] = []
dumped (dump n p ∷ calls) = dumped calls ++ (p ∷ [])
dumped (_ ∷ calls) = dumped calls

unfoldable pub total_length : List Packet → ℕ
total_length [] = 0
total_length (p ∷ packets) = length p + total_length packets

-- The counters of the state agree with the packets that were given to libpcap.
pub record IsAccounted (w : World) : Type 0 where
  pub bytes : w.state.bytes_captured ≡ total_length (dumped w.writer.calls) % u64_mod
  pub packets : w.state.packets_captured ≡ length (dumped w.writer.calls) % u64_mod

pub total_length-append :
    (ps qs : List Packet) → total_length (ps ++ qs) ≡ total_length ps + total_length qs
unfolding total_length
total_length-append [] qs = omega arith
total_length-append (p ∷ ps) qs = omega (arith, total_length-append ps qs)

-- A write that succeeds adds its packet, one that fails adds none.
pub dumped-write_packet :
    (lib : Libpcap) (f : CString) (p : Packet) (w : Writer)
    → dumped (write_packet lib f p w).1.calls
      ≡ (if (write_packet lib f p w).0 then dumped w.calls ++ (p ∷ []) else dumped w.calls)
unfolding write_packet dumped
dumped-write_packet lib f p w = ground arith

pub dumped-flush_writer :
    (lib : Libpcap) (w : Writer) → dumped (flush_writer lib w).1.calls ≡ dumped w.calls
unfolding flush_writer dumped
dumped-flush_writer lib w = ground arith

-- What the loop over a burst does: it writes some of the packets, in their order, and all of them if
-- it leaves the capture running.
pub record Captured (packets : List Packet) (w : World) (r : Bool × World) : Type 0 where
  pub taken : ℕ
  pub written : dumped r.1.writer.calls ≡ dumped w.writer.calls ++ take taken packets
  pub all_taken : r.1.state.keep_running ≡ true → (r.0 ≡ true) × (take taken packets ≡ packets)
  pub still : r.1.state.keep_running ≡ true → w.state.keep_running ≡ true
  pub accounted : IsAccounted w → IsAccounted r.1

counted-IsAccounted :
    (w : World) (p : Packet) (writer : Writer)
    → IsAccounted w
    → dumped writer.calls ≡ dumped w.writer.calls ++ (p ∷ [])
    → IsAccounted (record w { state = counted (length p) w.state; writer = writer })
unfolding total_length
counted-IsAccounted w p writer a e = record {
  bytes = rw e (omega (arith, a.bytes, total_length-append (dumped w.writer.calls) (p ∷ [])));
  packets = rw e (omega (arith, a.packets, length-append (dumped w.writer.calls) (p ∷ [])));
}

pub same-IsAccounted :
    (w : World) (s : CaptureState) (writer : Writer) (lines : List Printed)
    → IsAccounted w
    → s.bytes_captured ≡ w.state.bytes_captured
    → s.packets_captured ≡ w.state.packets_captured
    → dumped writer.calls ≡ dumped w.writer.calls
    → IsAccounted (record { state = s; writer = writer; lines = lines })
same-IsAccounted w s writer lines a e f g = record {
  bytes = rw (e, g) a.bytes;
  packets = rw (f, g) a.packets;
}

pub capture_packets-Captured :
    (lib : Libpcap) (packets : List Packet) (w : World)
    → Captured packets w (capture_packets lib packets w)
unfolding capture_packets
capture_packets-Captured lib [] w = record {
  taken = 0;
  written = sym (append-nil (dumped w.writer.calls));
  all_taken = λ e. (refl, refl);
  still = λ h. h;
  accounted = λ a. a;
}
capture_packets-Captured lib (p ∷ packets) w =
    let s' = counted (length p) w.state in
    let r = write_packet lib w.state.pcap_filename p w.writer in
    let d = dumped-write_packet lib w.state.pcap_filename p w.writer in
    elim (Bool-cases (over_limit w.state (length p))) [
      | inl over ↦ rw over (record {
        taken = 0;
        written = sym (append-nil (dumped w.writer.calls));
        all_taken = λ e. absurd (cc);
        still = λ h. absurd (cc);
        accounted = λ a. same-IsAccounted w (stopped w.state) w.writer w.lines a refl refl refl;
      })
      | inr fits ↦ rw fits (elim (Bool-cases r.0) [
        | inl e ↦
            let d' : dumped r.1.calls ≡ dumped w.writer.calls ++ (p ∷ []) = rw e at d in
            let w' : World = record w { state = s'; writer = r.1 } in
            elim (Bool-cases (at_limit s')) [
              | inl f ↦
                  rw (e, f)
                    (record {
                      taken = 1;
                      written = d';
                      all_taken = λ h. absurd (cc);
                      still = λ h. absurd (cc);
                      accounted = λ a.
                          same-IsAccounted w' (stopped s') r.1 w.lines
                            (counted-IsAccounted w p r.1 a d') refl refl refl;
                    })
              | inr f ↦
                  let q = capture_packets-Captured lib packets w' in
                  rw (e, f)
                    (record {
                      taken = suc q.taken;
                      written = q.written ∙ rw (d', append_assoc);
                      all_taken = λ h. ((q.all_taken h).0, ap (λ l. p ∷ l) (q.all_taken h).1);
                      still = q.still;
                      accounted = λ a. q.accounted (counted-IsAccounted w p r.1 a d');
                    })
            ]
        | inr e ↦ rw e (record {
          taken = 0;
          written = (rw e at d) ∙ sym (append-nil (dumped w.writer.calls));
          all_taken = λ h. absurd (cc);
          still = λ h. absurd (cc);
          accounted = λ a. same-IsAccounted w (stopped w.state) r.1 _ a refl refl (rw e at d);
        })
      ])
    ]
