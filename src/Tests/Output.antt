-- ===== src/Tests/Output.antt =====
-- What a capture of beastie writes to stdout, on small inputs.
use beastie_boy.Tests.Capture.{willing, ten_bytes, first_poll, signalled}
use beastie_boy.Beastie.PcapWriter.{flush_writer, close_writer}
use beastie_boy.Beastie.Capture.Run.Reports.{Reports, run_capture-Reports}
use beastie_boy.Beastie.Log.{print, output}
use beastie_boy.Common.Log.{info, log_message, level_name}
use beastie_boy.Common.Double.{round_even, rounded, spacing, quotient, precision}
use beastie_boy.Beastie.State.{
  filled, progress_bar, percent_tenths, progress_line, init_state, print_capture_summary,
  or_default,
}
use beastie_boy.Beastie.Capture.{after_refill}
use beastie_boy.Beastie.Capture.Run.{
  connected, signal, Poll, poll_success, run_capture, after_loop, main_loop, after_events,
  after_event, cleanup, summarise, made, on_connect, start_messages, handle_signal,
}
use beastie_boy.Beastie.Capture.Run.Bounded.{final_world}
use beastie_boy.Beastie.Capture.Run.Whole.{FinishEnsures}
use beastie_boy.Common.Strtoul.{decimal, digits_before}
use beastie_boy.Prelude.{ℕ, CString, codes, [], ◌∷◌, ◌++◌, ◌≡◌, refl, arith}

abbrev one_error : ℕ → CString
one_error code = codes "Interrupted"

run_capture-Reports_example :
    FinishEnsures
      (Reports one_error info)
      (run_capture willing ten_bytes made made (first_poll ∷ signalled ∷ []))
run_capture-Reports_example =
    run_capture-Reports willing ten_bytes made made (first_poll ∷ signalled ∷ []) one_error info
      (omega arith)

-- All that a capture writes to stdout at the default level, with an error of memif_refill_queue.
abbrev failing_poll : Poll
failing_poll = record { events = connected 4 ∷ signal ∷ []; result = poll_success }

writes_log :
    output one_error info
      (final_world (run_capture willing ten_bytes made made (failing_poll ∷ []))).lines
    ≡ codes "[INFO] beastie starting\n"
      ++ codes "[INFO] capture output: capture.pcap\n"
      ++ codes "[INFO] waiting for packets on memif...\n"
      ++ codes "[ERROR] memif_refill_queue: Interrupted\n"
      ++ codes "\r[................................] 0/10 bytes (0.0%), packets=0\n"
      ++ codes "[INFO] captured 0 bytes in 0 packets\n"
unfolding output print log_message level_name run_capture after_loop main_loop after_events
    after_event on_connect after_refill handle_signal summarise cleanup print_capture_summary
    start_messages init_state or_default flush_writer close_writer progress_line progress_bar filled
    percent_tenths round_even rounded spacing quotient precision decimal digits_before
writes_log = refl
