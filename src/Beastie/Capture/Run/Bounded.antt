-- ===== src/Beastie/Capture/Run/Bounded.antt =====
-- A whole run of beastie_run_capture keeps the capture limit.
use beastie_boy.Beastie.PcapWriter.{Libpcap, flush_writer, close_writer}
use beastie_boy.Beastie.State.{Config, init_state}
use beastie_boy.Beastie.Capture.{World, stopped}
use beastie_boy.Beastie.Capture.Account.{dumped, total_length, dumped-flush_writer}
use beastie_boy.Beastie.Capture.Limit.{
  InLimit, AreShort, same-InLimit, InLimit-Unprinted, on_interrupt-InLimit,
}
use beastie_boy.Beastie.Capture.Run.{
  CaptureEvent, connected, disconnected, interrupt, signal, handle_signal, after_event,
  after_events, Poll, LoopEnd, waiting, left_by_stop, left_by_error, Finish, running, finished,
  cleanup, summarise, start_world, after_loop, run_capture, MemifCall, Made, made, refused,
}
use beastie_boy.Beastie.Capture.Run.Whole.{LoopEnsures, main_loop_inv, dumped-close_writer}
use beastie_boy.Beastie.Capture.Run.Events.{on_connect_inv, on_disconnect_inv}
use beastie_boy.Prelude.{
  ℕ, ◌+◌, ◌≤◌, ◌<◌, List, [], ◌∷◌, All, ◌≡◌, refl, arith, u32_mod, u64_mod, Bool, true, false,
}

-- The buffers of every burst have lengths of 32 bits.
abbrev pub IsShortEvent : CaptureEvent → Type 0
IsShortEvent (interrupt b) = AreShort b.packets
IsShortEvent _ = Unit

abbrev pub IsShortPoll : Poll → Type 0
IsShortPoll p = All IsShortEvent p.events

abbrev pub final_world : Finish → World
final_world (running w) = w
final_world (finished rc w calls) = w

module _ (limit : ℕ) (lib : Libpcap) where
  after_event-InLimit :
      (e : CaptureEvent) (w : World)
      → IsShortEvent e
      → InLimit limit w
      → InLimit limit (after_event lib e w)
  unfolding after_event handle_signal
  after_event-InLimit (connected err) w h v =
      on_connect_inv (InLimit limit) err (InLimit-Unprinted limit) w v
  after_event-InLimit (disconnected err) w h v =
      on_disconnect_inv (InLimit limit) err (InLimit-Unprinted limit) w v
  after_event-InLimit (interrupt b) w h v = on_interrupt-InLimit limit lib b w h v
  after_event-InLimit signal w h v =
      same-InLimit limit w (stopped w.state) w.writer w.lines v refl refl refl

  after_events-InLimit :
      (events : List CaptureEvent) (w : World)
      → All IsShortEvent events
      → InLimit limit w
      → InLimit limit (after_events lib events w)
  unfolding after_events
  after_events-InLimit [] w h v = v
  after_events-InLimit (e ∷ events) w (h, hs) v =
      after_events-InLimit events (after_event lib e w) hs (after_event-InLimit e w h v)

  cleanup-InLimit :
      (w : World) (rc : ℕ) (conn socket : Bool) (calls : List MemifCall)
      → InLimit limit w
      → InLimit limit (final_world (cleanup lib w rc conn socket calls))
  unfolding cleanup
  cleanup-InLimit w rc conn socket calls v =
      same-InLimit limit w w.state (close_writer lib w.writer) w.lines v refl refl
        (dumped-close_writer lib w.writer)

  after_loop-InLimit :
      (l : LoopEnd) → LoopEnsures (InLimit limit) l → InLimit limit (final_world (after_loop lib l))
  unfolding after_loop summarise
  after_loop-InLimit (waiting w) v = v
  after_loop-InLimit (left_by_stop w) v =
      let writer = (flush_writer lib w.writer).1 in
      cleanup-InLimit (record w { writer = writer; lines = _ }) _ true true _
        (same-InLimit limit w w.state writer _ v refl refl (dumped-flush_writer lib w.writer))
  after_loop-InLimit (left_by_error w) v = cleanup-InLimit w 1 true true _ v

start-InLimit :
    (config : Config)
    → 0 < config.max_capture_bytes
    → config.max_capture_bytes + u32_mod ≤ u64_mod
    → InLimit config.max_capture_bytes (start_world config)
unfolding init_state dumped total_length
start-InLimit config h k = record {
  limited = h;
  room = k;
  configured = refl;
  within = omega arith;
  exact = refl;
}

run_capture-InLimit :
    (lib : Libpcap) (config : Config) (socket_made connection_made : Made) (polls : List Poll)
    → 0 < config.max_capture_bytes
    → config.max_capture_bytes + u32_mod ≤ u64_mod
    → All IsShortPoll polls
    → InLimit config.max_capture_bytes
        (final_world (run_capture lib config socket_made connection_made polls))
unfolding run_capture
run_capture-InLimit lib config made made polls h k short =
    let limit = config.max_capture_bytes in
    after_loop-InLimit limit lib _ (
      main_loop_inv (InLimit limit) IsShortPoll lib (InLimit-Unprinted limit)
        (λ p w q. after_events-InLimit limit lib p.events w q) polls _ short
        (InLimit-Unprinted limit (start_world config) _ (start-InLimit config h k)))
run_capture-InLimit lib config made (refused err) polls h k short =
    cleanup-InLimit _ lib (record (start_world config) { lines = _ }) 1 false _ _
      (InLimit-Unprinted _ (start_world config) _ (start-InLimit config h k))
run_capture-InLimit lib config (refused err) c polls h k short =
    cleanup-InLimit _ lib (record (start_world config) { lines = _ }) 1 false _ _
      (InLimit-Unprinted _ (start_world config) _ (start-InLimit config h k))

-- With a limit that is not 0 and leaves room for one more packet in 64 bits, and packets whose lengths
-- have 32 bits, the packets in the capture file never add up to more than the limit, at any time and
-- after the run, and the counter of bytes is their sum.
pub run_capture-bounded :
    (lib : Libpcap) (config : Config) (socket_made connection_made : Made) (polls : List Poll)
    → 0 < config.max_capture_bytes
    → config.max_capture_bytes + u32_mod ≤ u64_mod
    → All IsShortPoll polls
    → let w = final_world (run_capture lib config socket_made connection_made polls) in
      (total_length (dumped w.writer.calls) ≤ config.max_capture_bytes)
      × (w.state.bytes_captured ≡ total_length (dumped w.writer.calls))
run_capture-bounded lib config s c polls h k short =
    let v = run_capture-InLimit lib config s c polls h k short in omega (arith, v.within, v.exact)
