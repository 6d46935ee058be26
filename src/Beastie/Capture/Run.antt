-- ===== src/Beastie/Capture/Run.antt =====
-- The callbacks, the main loop and the clean-up of beastie/commands/capture_cmd.c. What libmemif does
-- is given as the polls that return, each with the callbacks and signals that came before it did.
-- The texts copied into the arguments of libmemif are left out.
pub mod Events
pub mod Whole
pub mod Bounded
pub mod Lossless
pub mod Flushes
pub mod Reports
use beastie_boy.Beastie.PcapWriter.{Libpcap, flush_writer, close_writer, fresh_writer}
use beastie_boy.Beastie.State.{
  Config, CaptureState, init_state, print_capture_summary, Printed, logged, log_error,
  failed_for_output,
}
use beastie_boy.Beastie.Capture.{
  World, Burst, Return, returned, on_interrupt, stopped, add_line, after_refill,
}
use beastie_boy.Common.Log.{info, debug}
use beastie_boy.Common.Strtoul.{decimal}
use beastie_boy.Prelude.{
  CString, codes, ltb, ℕ, Bool, true, false, List, [], ◌∷◌, ◌++◌, if◌then◌else◌,
}

pub data CaptureEvent : Type 0 where
  connected : ℕ → CaptureEvent
  disconnected : ℕ → CaptureEvent
  interrupt : Burst → CaptureEvent
  signal : CaptureEvent

-- The message that names the connection.
abbrev pub connection_message : CString → CaptureState → Printed
connection_message start s = logged debug (
    start
    ++ (codes ": role=slave mode=ethernet socket="
        ++ (s.current_memif_socket_path
            ++ (codes " interface=btie0 id=" ++ decimal s.current_memif_id))))

-- `on_connect` hands the error of `memif_refill_queue` on, and `on_disconnect` what
-- `memif_cancel_poll_event` returns.
unfoldable pub on_connect : ℕ → World → Return × World
on_connect refill_error w =
    after_refill refill_error (add_line (connection_message (codes "memif connected") w.state) w)

unfoldable pub on_disconnect : ℕ → World → Return × World
on_disconnect cancel_error w =
    (returned cancel_error, add_line (logged info (codes "memif disconnected")) w)

-- `handle_signal` while the capture is the active one.
unfoldable pub handle_signal : World → World
handle_signal w = record w { state = stopped w.state }

-- The state after an event. What the callbacks return goes to libmemif.
unfoldable pub after_event : Libpcap → CaptureEvent → World → World
after_event lib (connected err) w = (on_connect err w).1
after_event lib (disconnected err) w = (on_disconnect err w).1
after_event lib (interrupt b) w = (on_interrupt lib b w).1
after_event lib signal w = handle_signal w

unfoldable pub after_events : Libpcap → List CaptureEvent → World → World
after_events lib [] w = w
after_events lib (e ∷ events) w = after_events lib events (after_event lib e w)

pub data PollResult : Type 0 where
  poll_success poll_cancelled : PollResult
  poll_failed : ℕ → PollResult

pub record Poll : Type 0 where
  pub events : List CaptureEvent
  pub result : PollResult

abbrev pub is_poll_error : PollResult → Bool
is_poll_error (poll_failed err) = true
is_poll_error _ = false

abbrev error_code : PollResult → ℕ
error_code (poll_failed err) = err
error_code _ = 0

abbrev pub poll_message : Poll → Printed
poll_message p = log_error (codes "memif_poll_event") (error_code p.result)

-- Where the loop is after the polls that have returned.
pub data LoopEnd : Type 0 where
  waiting : World → LoopEnd
  left_by_stop : World → LoopEnd
  left_by_error : World → LoopEnd

unfoldable pub main_loop : Libpcap → List Poll → World → LoopEnd
main_loop lib [] w = if w.state.keep_running then waiting w else left_by_stop w
main_loop lib (p ∷ polls) w =
    let w' = after_events lib p.events w in
    let rest = main_loop lib polls w' in
    if w.state.keep_running
    then (if w'.state.keep_running
        then (if is_poll_error p.result then left_by_error (add_line (poll_message p) w') else rest)
        else left_by_stop w')
    else left_by_stop w

-- The calls of libmemif that make and delete its objects.
pub data MemifCall : Type 0 where
  create_socket : Bool → MemifCall
  create : Bool → MemifCall
  delete delete_socket : MemifCall

-- The return value of `beastie_run_capture`, with what it leaves behind; `running` while it waits.
pub data Finish : Type 0 where
  running : World → Finish
  finished : ℕ → World → List MemifCall → Finish

-- The calls for the connection and the socket; the Booleans say whether their handles are not NULL.
unfoldable pub deletions : Bool → Bool → List MemifCall
deletions conn socket =
    (if conn then delete ∷ [] else []) ++ (if socket then delete_socket ∷ [] else [])

-- From the label `cleanup` on, after some calls of libmemif.
unfoldable pub cleanup : Libpcap → World → ℕ → Bool → Bool → List MemifCall → Finish
unfolding deletions
cleanup lib w rc conn socket calls =
    finished rc (record w { writer = close_writer lib w.writer }) (calls ++ deletions conn socket)

-- The end of the function after the loop was left by `keep_running`.
unfoldable pub summarise : Libpcap → World → Finish
summarise lib w =
    let (flushed, writer) = flush_writer lib w.writer in
    let lines =
      if flushed
      then w.lines
      else failed_for_output (codes "flush_pcap_writer") w.state ∷ w.lines in
    cleanup lib (record w { writer = writer; lines = print_capture_summary w.state lines })
      (if flushed then 0 else 1) true true (create_socket true ∷ create true ∷ [])

abbrev pub start_world : Config → World
start_world config = record { state = init_state config; writer = fresh_writer; lines = [] }

unfoldable pub after_loop : Libpcap → LoopEnd → Finish
after_loop lib (waiting w) = running w
after_loop lib (left_by_stop w) = summarise lib w
after_loop lib (left_by_error w) = cleanup lib w 1 true true (create_socket true ∷ create true ∷ [])

-- The messages before the loop, the last first.
unfoldable pub start_messages : CaptureState → List Printed
start_messages s =
    let about_limit =
      logged debug
        (codes "capture limit: " ++ (decimal s.max_bytes_to_capture ++ codes " bytes")) in
    let first =
      logged info (codes "capture output: " ++ s.pcap_filename)
      ∷ connection_message (codes "memif config") s
      ∷ logged info (codes "beastie starting")
      ∷ [] in
    logged info (codes "waiting for packets on memif...")
    ∷ logged debug (codes "memif socket: " ++ s.current_memif_socket_path)
    ∷ logged debug (codes "memif id: " ++ decimal s.current_memif_id)
    ∷ (if ltb 0 s.max_bytes_to_capture then about_limit ∷ first else first)

abbrev pub ready_world : Config → World
ready_world config = record (start_world config) { lines = start_messages (init_state config) }

-- What `memif_create_socket` or `memif_create` returns: success, or an error.
pub data Made : Type 0 where
  made : Made
  refused : ℕ → Made

-- `beastie_run_capture`, with what `memif_create_socket` and `memif_create` return.
unfoldable pub run_capture : Libpcap → Config → Made → Made → List Poll → Finish
run_capture lib config socket_made connection_made polls =
    let w = start_world config in
    elim socket_made [
      | made ↦ elim connection_made [
        | made ↦ after_loop lib (main_loop lib polls (ready_world config))
        | refused err ↦
            cleanup lib (add_line (log_error (codes "memif_create") err) w) 1 false true
              (create_socket true ∷ create false ∷ [])
      ]
      | refused err ↦
          cleanup lib (add_line (log_error (codes "memif_create_socket") err) w) 1 false false
            (create_socket false ∷ [])
    ]
