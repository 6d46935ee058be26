-- ===== src/Beastie/Capture/Lines.antt =====
-- What on_interrupt of beastie/commands/capture_cmd.c prints has no influence on what it does.
use beastie_boy.Beastie.State.{Printed, drawn, progress_line, log_error}
use beastie_boy.Beastie.Capture.{World, Burst, flush_if_due, after_refill, after_packets}
use beastie_boy.Beastie.PcapWriter.{Libpcap}
use beastie_boy.Prelude.{ℕ, ◌∷◌, List, codes, length, ltb, ◌==◌, Bool-cases, inl, inr}

-- A property of the state and the writer alone.
abbrev pub Unprinted : (World → Type 0) → Type 0
Unprinted P = (w : World) (lines : List Printed) → P w → P (record w { lines = lines })

pub after_refill_inv :
    (P : World → Type 0) (err : ℕ) → Unprinted P → (w : World) → P w → P (after_refill err w).1
unfolding after_refill
after_refill_inv P err keep w p = elim (Bool-cases (err == 0)) [
  | inl e ↦ rw e p
  | inr e ↦ rw e (keep w (log_error (codes "memif_refill_queue") err ∷ w.lines) p)
]

-- What the flush makes of `P` holds after the part of `on_interrupt` that follows the loop.
pub after_packets_inv :
    (P Q : World → Type 0) (lib : Libpcap) (b : Burst)
    → Unprinted P
    → Unprinted Q
    → ((w : World) → P w → Q (flush_if_due lib w).1)
    → (w : World) → P w
    → Q (after_packets lib b w).1
unfolding after_packets
after_packets_inv P Q lib b keep keep' flush w p = elim (Bool-cases (ltb 0 (length b.packets))) [
  | inl e ↦
      let w₁ : World = record w { lines = drawn (progress_line w.state) ∷ w.lines } in
      let q = flush w₁ (keep w (drawn (progress_line w.state) ∷ w.lines) p) in
      elim (Bool-cases (flush_if_due lib w₁).0) [
        | inl f ↦ rw (e, f) (after_refill_inv Q b.refill_error keep' (flush_if_due lib w₁).1 q)
        | inr f ↦ rw (e, f) q
      ]
  | inr e ↦ elim (Bool-cases (flush_if_due lib w).0) [
    | inl f ↦ rw (e, f) (flush w p)
    | inr f ↦ rw (e, f) (flush w p)
  ]
]
