-- ===== src/Beastie/Capture/Run/Events.antt =====
-- The callbacks on_connect and on_disconnect of beastie/commands/capture_cmd.c only print.
use beastie_boy.Beastie.Capture.{World, add_line}
use beastie_boy.Beastie.Capture.Lines.{Unprinted, after_refill_inv}
use beastie_boy.Beastie.Capture.Run.{connection_message, on_connect, on_disconnect}
use beastie_boy.Prelude.{ℕ, codes, ◌∷◌}

pub on_connect_inv :
    (P : World → Type 0) (err : ℕ) → Unprinted P → (w : World) → P w → P (on_connect err w).1
unfolding on_connect
on_connect_inv P err keep w p =
    let line = connection_message (codes "memif connected") w.state in
    after_refill_inv P err keep (add_line line w) (keep w (line ∷ w.lines) p)

pub on_disconnect_inv :
    (P : World → Type 0) (err : ℕ) → Unprinted P → (w : World) → P w → P (on_disconnect err w).1
unfolding on_disconnect
on_disconnect_inv P err keep w p = keep w _ p
