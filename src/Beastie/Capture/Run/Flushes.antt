-- ===== src/Beastie/Capture/Run/Flushes.antt =====
-- While a capture runs, less than 1 MiB of its packets is not flushed.
use beastie_boy.Beastie.State.{Config, flush_interval_bytes, init_state}
use beastie_boy.Beastie.Capture.{World}
use beastie_boy.Beastie.Capture.Flush.{
  unflushed, Flushed, FitsBuffers, Flushed-Unprinted, on_interrupt-Flushed,
}
use beastie_boy.Beastie.Capture.Run.{
  CaptureEvent, connected, disconnected, interrupt, signal, handle_signal, after_event,
  after_events, Poll, main_loop, start_world, run_capture, cleanup, is_poll_error, Made, made,
  refused, ready_world,
}
use beastie_boy.Beastie.Capture.Run.Lossless.{
  after_events-Lossless, WhileWaiting, WhileRunning, WhileWaiting-map, after_loop-WhileRunning,
}
use beastie_boy.Beastie.PcapWriter.{Libpcap}
use beastie_boy.Beastie.Capture.Run.Events.{on_connect_inv, on_disconnect_inv}
use beastie_boy.Prelude.{true, List, [], ◌∷◌, ◌<◌, ◌≡◌, refl, arith, Bool-cases, inl, inr, All}

-- Each burst of an event, and of all polls, fits the buffers.
abbrev pub BurstFits : CaptureEvent → Type 0
BurstFits (interrupt b) = FitsBuffers b
BurstFits _ = Unit

abbrev pub BurstsFit : List Poll → Type 0
BurstsFit = All (λ (p : Poll). All BurstFits p.events)

after_event-Flushed :
    (lib : Libpcap) (e : CaptureEvent) (w : World)
    → BurstFits e
    → Flushed w
    → (after_event lib e w).state.keep_running ≡ true
    → Flushed (after_event lib e w)
unfolding after_event handle_signal
after_event-Flushed lib (connected err) w fits h running =
    on_connect_inv Flushed err Flushed-Unprinted w h
after_event-Flushed lib (disconnected err) w fits h running =
    on_disconnect_inv Flushed err Flushed-Unprinted w h
after_event-Flushed lib signal w fits h running = cc
after_event-Flushed lib (interrupt b) w fits h running = on_interrupt-Flushed lib b w fits h running

after_events-Flushed :
    (lib : Libpcap) (events : List CaptureEvent) (w : World)
    → All BurstFits events
    → Flushed w
    → (after_events lib events w).state.keep_running ≡ true
    → Flushed (after_events lib events w)
unfolding after_events
after_events-Flushed lib [] w fits h running = h
after_events-Flushed lib (e ∷ events) w (fits, rest) h running =
    let went_on = after_events-Lossless lib events (after_event lib e w) running in
    after_events-Flushed lib events (after_event lib e w) rest
      (after_event-Flushed lib e w fits h went_on.still) running

main_loop-Flushed :
    (lib : Libpcap) (polls : List Poll) (w : World)
    → BurstsFit polls
    → Flushed w
    → WhileWaiting Flushed (main_loop lib polls w)
unfolding main_loop
main_loop-Flushed lib [] w fits h = elim (Bool-cases w.state.keep_running) [
  | inl e ↦ simp e h
  | inr e ↦ simp e tt
]
main_loop-Flushed lib (p ∷ polls) w (fits, rest) h =
    let w' = after_events lib p.events w in
    elim (Bool-cases w.state.keep_running) [
      | inl e ↦ elim (Bool-cases w'.state.keep_running) [
        | inl f ↦ elim (Bool-cases (is_poll_error p.result)) [
          | inl g ↦ simp (e, f, g) tt
          | inr g ↦
              simp (e, f, g)
                (main_loop-Flushed lib polls w' rest (after_events-Flushed lib p.events w fits h f))
        ]
        | inr f ↦ simp (e, f) tt
      ]
      | inr e ↦ simp e tt
    ]

start-Flushed : (config : Config) → Flushed (start_world config)
unfolding init_state unflushed
start-Flushed config = record {
  tracks = record {
    opened = record { dumper = λ e. cc; nothing = λ e. refl };
    counts = omega arith;
  };
  low = omega arith;
}

-- If no burst has more packets than the 256 buffers that `on_interrupt` passes, with lengths of 32 bits,
-- then as long as a capture runs, less than 1 MiB of the packets written is not flushed to the file.
pub run_capture-Flushed :
    (lib : Libpcap) (config : Config) (socket_made connection_made : Made) (polls : List Poll)
    → BurstsFit polls
    → WhileRunning
        (λ w. unflushed w.writer.calls < flush_interval_bytes)
        (run_capture lib config socket_made connection_made polls)
unfolding run_capture cleanup
run_capture-Flushed lib config made made polls fits =
    after_loop-WhileRunning _ lib (main_loop lib polls (ready_world config)) (
      WhileWaiting-map Flushed _ (main_loop lib polls (ready_world config))
        (λ w h. omega (arith, h.low, h.tracks.counts))
        (main_loop-Flushed lib polls (ready_world config) fits
          (Flushed-Unprinted (start_world config) _ (start-Flushed config))))
run_capture-Flushed lib config made (refused err) polls fits = tt
run_capture-Flushed lib config (refused err) c polls fits = tt
