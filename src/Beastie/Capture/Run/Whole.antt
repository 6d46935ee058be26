-- ===== src/Beastie/Capture/Run/Whole.antt =====
-- What a whole run of beastie_run_capture promises.
use beastie_boy.Beastie.PcapWriter.{Libpcap, Writer, flush_writer, close_writer}
use beastie_boy.Beastie.PcapWriter.Protocol
use beastie_boy.Beastie.PcapWriter.Protocol.{
  replay, neither, flush_writer-IsValid, close_writer_lem,
}
use beastie_boy.Beastie.State.{Config, init_state}
use beastie_boy.Beastie.Capture.{World}
use beastie_boy.Beastie.Capture.Account.{
  dumped, total_length, IsAccounted, same-IsAccounted, dumped-flush_writer,
}
use beastie_boy.Beastie.Capture.Interrupt.{on_interrupt_lem, on_interrupt-IsValid}
use beastie_boy.Beastie.Capture.Run.{
  CaptureEvent, connected, disconnected, interrupt, signal, handle_signal, after_event,
  after_events, Poll, LoopEnd, waiting, left_by_stop, left_by_error, main_loop, Finish, running,
  finished, deletions, cleanup, summarise, start_world, after_loop, run_capture, MemifCall,
  create_socket, create, delete, delete_socket, is_poll_error, poll_message, Made, made, refused,
}
use beastie_boy.Beastie.Capture.Lines.{Unprinted}
use beastie_boy.Beastie.Capture.Run.Events.{on_connect_inv, on_disconnect_inv}
use beastie_boy.Prelude.{
  ℕ, true, false, List, [], ◌∷◌, ◌++◌, All, All-unit, ◌≡◌, refl, arith, ◌⊎◌, if◌then◌else◌,
  Bool-cases, inl, inr, some, Bool,
}

-- What is kept through the whole run, whatever libmemif and libpcap answer.
pub record IsSound (w : World) : Type 0 where
  pub writer : Protocol.IsValid w.writer
  pub accounted : IsAccounted w

IsSound-Unprinted : Unprinted IsSound
IsSound-Unprinted w lines s = record {
  writer = s.writer;
  accounted = same-IsAccounted w w.state w.writer lines s.accounted refl refl refl;
}

after_event-IsSound :
    (lib : Libpcap) (e : CaptureEvent) (w : World) → IsSound w → IsSound (after_event lib e w)
unfolding after_event handle_signal
after_event-IsSound lib (connected err) w s = on_connect_inv IsSound err IsSound-Unprinted w s
after_event-IsSound lib (disconnected err) w s = on_disconnect_inv IsSound err IsSound-Unprinted w s
after_event-IsSound lib (interrupt b) w s = record {
  writer = on_interrupt-IsValid lib b w s.writer;
  accounted = (on_interrupt_lem lib b w).accounted s.accounted;
}
after_event-IsSound lib signal w s = record {
  writer = s.writer;
  accounted = record { bytes = s.accounted.bytes; packets = s.accounted.packets };
}

after_events-IsSound :
    (lib : Libpcap) (events : List CaptureEvent) (w : World)
    → IsSound w
    → IsSound (after_events lib events w)
unfolding after_events
after_events-IsSound lib [] w s = s
after_events-IsSound lib (e ∷ events) w s =
    after_events-IsSound lib events (after_event lib e w) (after_event-IsSound lib e w s)

abbrev pub LoopEnsures : (World → Type 0) → LoopEnd → Type 0
LoopEnsures P (waiting w) = P w
LoopEnsures P (left_by_stop w) = P w
LoopEnsures P (left_by_error w) = P w

abbrev pub FinishEnsures : (ℕ → World → List MemifCall → Type 0) → Finish → Type 0
FinishEnsures P (running w) = Unit
FinishEnsures P (finished rc w calls) = P rc w calls

-- An invariant of the events is one of the loop.
pub main_loop_inv :
    (P : World → Type 0) (Q : Poll → Type 0) (lib : Libpcap)
    → Unprinted P
    → ((p : Poll) (w : World) → Q p → P w → P (after_events lib p.events w))
    → (polls : List Poll) (w : World) → All Q polls
    → P w
    → LoopEnsures P (main_loop lib polls w)
unfolding main_loop
main_loop_inv P Q lib print keep [] w q h = elim (Bool-cases w.state.keep_running) [
  | inl e ↦ simp e h
  | inr e ↦ simp e h
]
main_loop_inv P Q lib print keep (p ∷ polls) w (q, qs) h =
    let w' = after_events lib p.events w in
    let h' = keep p w q h in
    elim (Bool-cases w.state.keep_running) [
      | inl e ↦ elim (Bool-cases w'.state.keep_running) [
        | inl f ↦ elim (Bool-cases (is_poll_error p.result)) [
          | inl g ↦ simp (e, f, g) (print w' (poll_message p ∷ w'.lines) h')
          | inr g ↦ simp (e, f, g) (main_loop_inv P Q lib print keep polls w' qs h')
        ]
        | inr f ↦ simp (e, f) h'
      ]
      | inr e ↦ simp e h
    ]

-- A capture that has ended: no handle of libpcap is open and none was used while it was not, the
-- objects of libmemif that were made are deleted, and the counters are those of the file.
pub record EndsClean (rc : ℕ) (w : World) (calls : List MemifCall) : Type 0 where
  pub closed : replay w.writer.calls ≡ some neither
  pub accounted : IsAccounted w
  pub memif :
      (calls ≡ create_socket true ∷ create true ∷ delete ∷ delete_socket ∷ [])
      ⊎ ((rc ≡ 1)
          × ((calls ≡ create_socket true ∷ create false ∷ delete_socket ∷ [])
              ⊎ (calls ≡ create_socket false ∷ [])))

pub dumped-close_writer :
    (lib : Libpcap) (w : Writer) → dumped (close_writer lib w).calls ≡ dumped w.calls
unfolding close_writer dumped
dumped-close_writer lib w = ground arith

cleanup-EndsClean :
    (lib : Libpcap) (w : World) (rc : ℕ) (conn socket : Bool) (calls : List MemifCall)
    → IsSound w
    → (calls ++ deletions conn socket
        ≡ create_socket true ∷ create true ∷ delete ∷ delete_socket ∷ [])
      ⊎ ((rc ≡ 1)
          × ((calls ++ deletions conn socket
                ≡ create_socket true ∷ create false ∷ delete_socket ∷ [])
              ⊎ (calls ++ deletions conn socket ≡ create_socket false ∷ [])))
    → FinishEnsures EndsClean (cleanup lib w rc conn socket calls)
unfolding cleanup
cleanup-EndsClean lib w rc conn socket calls s m = record {
  closed = (close_writer_lem lib s.writer).1;
  accounted = record {
    bytes = rw (dumped-close_writer lib w.writer) s.accounted.bytes;
    packets = rw (dumped-close_writer lib w.writer) s.accounted.packets;
  };
  memif = m;
}

after_loop-EndsClean :
    (lib : Libpcap) (l : LoopEnd)
    → LoopEnsures IsSound l
    → FinishEnsures EndsClean (after_loop lib l)
unfolding after_loop summarise deletions
after_loop-EndsClean lib (waiting w) s = tt
after_loop-EndsClean lib (left_by_stop w) s =
    let flushed = flush_writer lib w.writer in
    cleanup-EndsClean lib (record w { writer = flushed.1; lines = _ }) (if flushed.0 then 0 else 1)
      true true _
      (record {
        writer = flush_writer-IsValid lib s.writer;
        accounted = record {
          bytes = rw (dumped-flush_writer lib w.writer) s.accounted.bytes;
          packets = rw (dumped-flush_writer lib w.writer) s.accounted.packets;
        };
      })
      (inl refl)
after_loop-EndsClean lib (left_by_error w) s = cleanup-EndsClean lib w 1 true true _ s (inl refl)

start-IsSound : (config : Config) → IsSound (start_world config)
unfolding init_state replay dumped total_length
start-IsSound config = record {
  writer = record { ready = refl; paired = refl; allowed = refl };
  accounted = record { bytes = refl; packets = refl };
}

-- Whatever libpcap and libmemif answer, and in whichever order packets, signals and errors come, a run
-- of `beastie_run_capture` that ends has closed the handles of libpcap, with no call that they did not
-- allow, and deleted the objects of libmemif that it made. It returned 1 if one of them could not be
-- made. Its counters are those of the capture file, modulo 2^64.
pub run_capture-EndsClean :
    (lib : Libpcap) (config : Config) (socket_made connection_made : Made) (polls : List Poll)
    → FinishEnsures EndsClean (run_capture lib config socket_made connection_made polls)
unfolding run_capture deletions
run_capture-EndsClean lib config made made polls = after_loop-EndsClean lib _ (
    main_loop_inv IsSound (λ p. Unit {0}) lib IsSound-Unprinted
      (λ p w q. after_events-IsSound lib p.events w) polls _ (All-unit polls)
      (IsSound-Unprinted (start_world config) _ (start-IsSound config)))
run_capture-EndsClean lib config made (refused err) polls =
    cleanup-EndsClean lib _ 1 false true _
      (IsSound-Unprinted (start_world config) _ (start-IsSound config)) (inr (refl, inl refl))
run_capture-EndsClean lib config (refused err) c polls =
    cleanup-EndsClean lib _ 1 false false _
      (IsSound-Unprinted (start_world config) _ (start-IsSound config)) (inr (refl, inr refl))
