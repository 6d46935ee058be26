-- ===== src/Tests/Capture.antt =====
-- A capture of three packets with a limit of ten bytes, and the theorems on beastie applied to it.
use beastie_boy.Beastie.PcapWriter.{
  open_dead, dump_open, open_writer, flush_writer, Libpcap, Writer, close_writer, fresh_writer,
  write_packet,
}
use beastie_boy.Beastie.PcapWriter.Protocol
use beastie_boy.Beastie.PcapWriter.Protocol.{replay, neither, close_writer_lem}
use beastie_boy.Beastie.Capture.Flush.{unflushed}
use beastie_boy.Beastie.Capture.Progress.{ShowsPart, progress_bar_lem}
use beastie_boy.Beastie.Capture.Run.Flushes.{run_capture-Flushed}
use beastie_boy.Common.Double.{round_even, rounded, spacing, quotient, precision}
use beastie_boy.Beastie.State.{
  flush_interval_bytes, filled, progress_bar, percent_tenths, progress_line, Config, init_state,
}
use beastie_boy.Beastie.Capture.{
  Burst, on_interrupt, capture_packets, flush_if_due, after_packets, after_refill,
}
use beastie_boy.Beastie.Capture.Account.{dumped, total_length}
use beastie_boy.Beastie.Capture.Interrupt.{BurstEnsures, on_interrupt_lem}
use beastie_boy.Beastie.Capture.Limit.{InLimit, on_interrupt-InLimit}
use beastie_boy.Beastie.Capture.Run.{
  connected, interrupt, signal, Poll, poll_success, poll_cancelled, start_world, run_capture,
  after_loop, main_loop, after_events, after_event, cleanup, summarise, made, on_connect,
}
use beastie_boy.Beastie.Capture.Run.Bounded.{final_world, run_capture-bounded}
use beastie_boy.Beastie.Capture.Run.Lossless.{
  WhileRunning, received_all, run_capture-lossless, run_capture-HasSignal,
}
use beastie_boy.Beastie.Capture.Run.Whole.{FinishEnsures, EndsClean, run_capture-EndsClean}
use beastie_boy.Beastie.Cli.{
  Opt, opt_max_bytes, opt_write, parse_cli_options, defaults, main, opt_id, opt_help, exit_failure,
  parse_ok, parse_loop, step, parse_memif_id,
}
use beastie_boy.Beastie.Cli.Reads.{reads, MainEnsures, last_value, limit_of, main-bounded}
use beastie_boy.Beastie.Cli.Stops.{first_stop, result_of, parse_cli_options-first_stop}
use beastie_boy.Common.Strtoul.Number.{number, signed, digits, more_digits}
use beastie_boy.Common.Strtoul.{
  decimal, digits_before, strtoul, convert, after_sign, scan, skip_spaces, is_space, is_digit,
}
use beastie_boy.Prelude.{
  ◌<◌, ◌^◌, List, true, none, some, codes, [], ◌∷◌, ◌++◌, ◌≤◌, ◌≡◌, refl, arith,
}

abbrev pub willing : Libpcap
willing = record { can_open_dead = λ _. true; can_dump_open = λ _ _. true; can_flush = λ _. true }

abbrev pub ten_bytes : Config
ten_bytes = record {
  output_filename = none;
  max_capture_bytes = 10;
  memif_id = 0;
  memif_socket_path = none;
}

abbrev two_packets : Burst
two_packets = record {
  rx_error = 0;
  packets = (1 ∷ 2 ∷ 3 ∷ []) ∷ (4 ∷ 5 ∷ []) ∷ [];
  refill_error = 0;
}

abbrev long_packet : Burst
long_packet = record { rx_error = 0; packets = (1 ∷ 2 ∷ 3 ∷ 4 ∷ 5 ∷ 6 ∷ []) ∷ []; refill_error = 0 }

abbrev pub first_poll : Poll
first_poll = record { events = connected 0 ∷ interrupt two_packets ∷ []; result = poll_success }

abbrev second_poll : Poll
second_poll = record { events = interrupt long_packet ∷ []; result = poll_success }

abbrev pub signalled : Poll
signalled = record { events = signal ∷ []; result = poll_cancelled }

-- The packet of six bytes does not fit, and the capture stops before it.
stops_at_limit :
    dumped
      (final_world
        (run_capture willing ten_bytes made made (first_poll ∷ second_poll ∷ []))).writer.calls
    ≡ (1 ∷ 2 ∷ 3 ∷ []) ∷ (4 ∷ 5 ∷ []) ∷ []
unfolding run_capture after_loop main_loop after_events after_event on_interrupt capture_packets
    write_packet open_writer flush_writer flush_if_due after_packets close_writer cleanup summarise
    init_state dumped on_connect after_refill
stops_at_limit = refl

run_capture-bounded_example :
    let w = final_world (run_capture willing ten_bytes made made (first_poll ∷ second_poll ∷ [])) in
    (total_length (dumped w.writer.calls) ≤ 10)
    × (w.state.bytes_captured ≡ total_length (dumped w.writer.calls))
run_capture-bounded_example =
    run_capture-bounded willing ten_bytes made made (first_poll ∷ second_poll ∷ []) (omega arith)
      (omega arith) ((tt, ((omega arith, (omega arith, tt)), tt)), (((omega arith, tt), tt), tt))

run_capture-lossless_example :
    WhileRunning
      (λ w. dumped w.writer.calls ≡ received_all (first_poll ∷ []))
      (run_capture willing ten_bytes made made (first_poll ∷ []))
run_capture-lossless_example = run_capture-lossless willing ten_bytes made made (first_poll ∷ [])

run_capture-EndsClean_example :
    FinishEnsures EndsClean (run_capture willing ten_bytes made made (first_poll ∷ signalled ∷ []))
run_capture-EndsClean_example =
    run_capture-EndsClean willing ten_bytes made made (first_poll ∷ signalled ∷ [])

run_capture-HasSignal_example :
    WhileRunning
      (λ w. ⊥)
      (run_capture willing ten_bytes made made
        ((first_poll ∷ []) ++ (signalled ∷ second_poll ∷ [])))
run_capture-HasSignal_example =
    run_capture-HasSignal willing ten_bytes made made (first_poll ∷ []) (second_poll ∷ []) signalled
      tt

on_interrupt_lem_example :
    BurstEnsures two_packets
      (start_world ten_bytes)
      (on_interrupt willing two_packets (start_world ten_bytes))
on_interrupt_lem_example = on_interrupt_lem willing two_packets (start_world ten_bytes)

fresh_writer-IsValid : Protocol.IsValid fresh_writer
unfolding replay
fresh_writer-IsValid = record { ready = refl; paired = refl; allowed = refl }

start-InLimit : InLimit 10 (start_world ten_bytes)
unfolding init_state dumped total_length
start-InLimit = record {
  limited = omega arith;
  room = omega arith;
  configured = refl;
  within = omega arith;
  exact = refl;
}

on_interrupt-InLimit_example :
    InLimit 10 (on_interrupt willing two_packets (start_world ten_bytes)).1
on_interrupt-InLimit_example =
    on_interrupt-InLimit 10 willing two_packets (start_world ten_bytes)
      (omega arith, (omega arith, tt)) start-InLimit

abbrev open_file : Writer
open_file = record {
  pcap = true;
  dumper = true;
  initialized = true;
  calls = dump_open [] true ∷ open_dead true ∷ [];
}

open_file-IsValid : Protocol.IsValid open_file
unfolding replay
open_file-IsValid = record { ready = refl; paired = refl; allowed = refl }

close_writer_lem_example :
    Protocol.IsValid (close_writer willing open_file)
    × (replay (close_writer willing open_file).calls ≡ some neither)
close_writer_lem_example = close_writer_lem willing open_file-IsValid

abbrev ten_bytes_line : List Opt
ten_bytes_line = opt_max_bytes (codes "10") ∷ opt_write (codes "a.pcap") ∷ []

-- The identifier is refused, and the request for help after it is not reached.
abbrev bad_line : List Opt
bad_line = opt_write (codes "a.pcap") ∷ opt_id (codes "x") ∷ opt_help ∷ []

parse_cli_options-first_stop_example :
    parse_cli_options (codes "beastie") bad_line
    ≡ result_of (first_stop (codes "beastie") bad_line) (parse_ok (reads bad_line defaults))
parse_cli_options-first_stop_example = parse_cli_options-first_stop (codes "beastie") bad_line

refuses_id :
    parse_cli_options (codes "beastie") bad_line ≡ exit_failure (codes "Invalid memif id: x\n")
unfolding parse_cli_options parse_loop step parse_memif_id strtoul convert after_sign scan
    skip_spaces is_space is_digit
refuses_id = refl

reads_limit : limit_of ten_bytes_line ≡ 10
unfolding last_value number signed digits more_digits is_space is_digit
reads_limit = refl

main-bounded_example :
    MainEnsures
      (λ f. total_length (dumped (final_world f).writer.calls) ≤ limit_of ten_bytes_line)
      (main willing
        (codes "v1")
        made
        made
        (first_poll ∷ second_poll ∷ [])
        (codes "beastie")
        ten_bytes_line)
main-bounded_example =
    main-bounded willing (codes "v1") made made (first_poll ∷ second_poll ∷ []) (codes "beastie")
      ten_bytes_line (omega (arith, reads_limit)) (omega (arith, reads_limit))
      ((tt, ((omega arith, (omega arith, tt)), tt)), (((omega arith, tt), tt), tt))

run_capture-Flushed_example :
    WhileRunning
      (λ w. unflushed w.writer.calls < flush_interval_bytes)
      (run_capture willing ten_bytes made made (first_poll ∷ []))
run_capture-Flushed_example =
    run_capture-Flushed willing ten_bytes made made (first_poll ∷ [])
      ((tt, (record { few = omega arith; short = (omega arith, (omega arith, tt)) }, tt)), tt)

ten_left :
    (0 < (init_state ten_bytes).max_bytes_to_capture)
    × ((init_state ten_bytes).max_bytes_to_capture < 2 ^ 59)
    × (7 ≤ (init_state ten_bytes).max_bytes_to_capture)
unfolding init_state
ten_left = (omega arith, omega arith, omega arith)

progress_bar_lem_example :
    ShowsPart (record (init_state ten_bytes) { bytes_captured = 7; packets_captured = 2 })
progress_bar_lem_example =
    progress_bar_lem (record (init_state ten_bytes) { bytes_captured = 7; packets_captured = 2 })
      ten_left.0 ten_left.1 ten_left.2

-- Seven of ten bytes, with three packets: 22 of 32 cells.
draws_progress :
    progress_line (record (init_state ten_bytes) { bytes_captured = 7; packets_captured = 3 })
    ≡ codes "\r[######################..........] 7/10 bytes (70.0%), packets=3"
unfolding progress_line progress_bar filled percent_tenths round_even rounded spacing quotient
    precision decimal digits_before init_state
draws_progress = refl
