-- ===== src/Beastie/Capture/Run/Reports.antt =====
-- What beastie_run_capture of beastie/commands/capture_cmd.c tells at its end.
use beastie_boy.Beastie.State.{
  Config, CaptureState, Printed, drawn, progress_line, print_capture_summary,
}
use beastie_boy.Beastie.Capture.{World}
use beastie_boy.Beastie.Capture.Account.{dumped, total_length}
use beastie_boy.Beastie.Capture.Run.{
  Poll, LoopEnd, waiting, left_by_stop, left_by_error, Finish, running, finished, cleanup,
  summarise, after_loop, run_capture, MemifCall, main_loop, ready_world, Made, made, refused,
}
use beastie_boy.Beastie.Capture.Run.Whole.{FinishEnsures, EndsClean, run_capture-EndsClean}
use beastie_boy.Beastie.Log.{print, output}
use beastie_boy.Beastie.PcapWriter.{Libpcap, Packet}
use beastie_boy.Common.Log.{LogLevel, info, level_value, level_name, log_message}
use beastie_boy.Common.Strtoul.{decimal}
use beastie_boy.Prelude.{
  ℕ, ◌%◌, ◌≤◌, false, List, [], ◌∷◌, ◌++◌, CString, codes, ltb, ◌≡◌, refl, arith, u64_mod, length,
  append_assoc,
}

-- The line that reports some packets.
abbrev pub report_of : List Packet → CString
report_of packets =
    codes "[INFO] captured "
    ++ (decimal (total_length packets % u64_mod)
        ++ (codes " bytes in " ++ (decimal (length packets % u64_mod) ++ codes " packets\n")))

-- The last line printed reports the packets of the file.
abbrev pub Reports : (ℕ → CString) → LogLevel → ℕ → World → List MemifCall → Type 0
Reports strerror level rc w calls =
    rc ≡ 0
    → (before : CString) × (output strerror level w.lines
        ≡ before ++ report_of (dumped w.writer.calls))

-- A run that returns 0 ended with `print_capture_summary`.
abbrev Summarised : ℕ → World → List MemifCall → Type 0
Summarised rc w calls =
    rc ≡ 0 → (lines : List Printed) × (w.lines ≡ print_capture_summary w.state lines)

after_loop-Summarised : (lib : Libpcap) (l : LoopEnd) → FinishEnsures Summarised (after_loop lib l)
unfolding after_loop summarise cleanup
after_loop-Summarised lib (waiting w) = tt
after_loop-Summarised lib (left_by_stop w) = λ e. (_, refl)
after_loop-Summarised lib (left_by_error w) = λ e. absurd (omega (arith, e))

run_capture-Summarised :
    (lib : Libpcap) (config : Config) (socket_made connection_made : Made) (polls : List Poll)
    → FinishEnsures Summarised (run_capture lib config socket_made connection_made polls)
unfolding run_capture cleanup
run_capture-Summarised lib config made made polls =
    after_loop-Summarised lib (main_loop lib polls (ready_world config))
run_capture-Summarised lib config made (refused err) polls = λ e. absurd (omega (arith, e))
run_capture-Summarised lib config (refused err) c polls = λ e. absurd (omega (arith, e))

-- `beastie_log` prints the message of the summary.
report :
    (strerror : ℕ → CString) (level : LogLevel) (s : CaptureState) (lines : List Printed)
    (packets : List Packet)
    → level_value info ≤ level_value level
    → s.bytes_captured ≡ total_length packets % u64_mod
    → s.packets_captured ≡ length packets % u64_mod
    → (before : CString) × (output strerror level (print_capture_summary s lines)
        ≡ before ++ report_of packets)
unfolding print_capture_summary output print log_message level_name
report strerror level s lines packets shown e f =
    let printed : ltb (level_value level) 2 ≡ false = ground arith in
    (
      output strerror level (drawn (b'\n' ∷ []) ∷ drawn (progress_line s) ∷ lines),
      simp
          (
            printed,
            e,
            f,
            append_assoc (decimal (total_length packets % u64_mod)),
            append_assoc (decimal (length packets % u64_mod)),
          )
          refl,
    )

-- At the level info or debug, a capture that returns 0 has as its last line of output the numbers of
-- bytes and of packets that are in the capture file, modulo 2^64.
pub run_capture-Reports :
    (lib : Libpcap) (config : Config) (socket_made connection_made : Made) (polls : List Poll)
    (strerror : ℕ → CString) (level : LogLevel)
    → level_value info ≤ level_value level
    → FinishEnsures
        (Reports strerror level)
        (run_capture lib config socket_made connection_made polls)
run_capture-Reports lib config s c polls strerror level shown =
    go (run_capture lib config s c polls) (run_capture-EndsClean lib config s c polls)
      (run_capture-Summarised lib config s c polls)
  where
    go :
        (f : Finish)
        → FinishEnsures EndsClean f
        → FinishEnsures Summarised f
        → FinishEnsures (Reports strerror level) f
    go (running w) clean sum = tt
    go (finished rc w calls) clean sum = λ e.
        let (lines, printed) = sum e in
        rw printed (
          report strerror level w.state lines (dumped w.writer.calls) shown clean.accounted.bytes
            clean.accounted.packets)
