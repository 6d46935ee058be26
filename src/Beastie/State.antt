-- ===== src/Beastie/State.antt =====
-- beastie/commands/capture_cmd.c: the state of a capture, the progress line and the summary.
use beastie_boy.Common.Double.{round_even, to_double, hundredfold, quotient}
use beastie_boy.Common.Log.{LogLevel, error, info}
use beastie_boy.Common.Strtoul.{decimal}
use beastie_boy.Prelude.{
  ℕ, ◌+◌, ◌-◌, ◌*◌, ◌/◌, ◌%◌, Bool, true, Option, none, some, List, [], ◌∷◌, ◌++◌, CString, codes,
  if◌then◌else◌, ltb, replicate, mul64,
}

-- `beastie_capture_config_t`; NULL is `none`.
pub record Config : Type 0 where
  pub output_filename : Option CString
  pub max_capture_bytes : ℕ
  pub memif_id : ℕ
  pub memif_socket_path : Option CString

-- `beastie_capture_state_t`
pub record CaptureState : Type 0 where
  pub keep_running : Bool
  pub pcap_filename : CString
  pub packets_captured : ℕ
  pub bytes_captured : ℕ
  pub max_bytes_to_capture : ℕ
  pub bytes_since_last_flush : ℕ
  pub current_memif_id : ℕ
  pub current_memif_socket_path : CString

abbrev pub default_output_filename : CString
default_output_filename = codes "capture.pcap"

abbrev pub default_memif_socket_path : CString
default_memif_socket_path = codes "/run/vpp/memif.sock"

abbrev pub default_max_capture_bytes : ℕ
default_max_capture_bytes = 10 * 256 * 256

abbrev pub default_memif_id : ℕ
default_memif_id = 0

abbrev pub flush_interval_bytes : ℕ
flush_interval_bytes = 1024 * 1024

abbrev pub progress_bar_width : ℕ
progress_bar_width = 32

unfoldable pub or_default : Option CString → CString → CString
or_default none default = default
or_default (some []) default = default
or_default (some (c ∷ s)) default = c ∷ s

-- `beastie_capture_state_init`
unfoldable pub init_state : Config → CaptureState
unfolding or_default
init_state config = record {
  keep_running = true;
  pcap_filename = or_default config.output_filename default_output_filename;
  packets_captured = 0;
  bytes_captured = 0;
  max_bytes_to_capture = config.max_capture_bytes;
  bytes_since_last_flush = 0;
  current_memif_id = config.memif_id;
  current_memif_socket_path = or_default config.memif_socket_path default_memif_socket_path;
}

-- The characters of the bar that are filled, in `uint64_t`.
unfoldable pub filled : CaptureState → ℕ
filled s =
    let cells = mul64 s.bytes_captured progress_bar_width / s.max_bytes_to_capture in
    if ltb 0 s.max_bytes_to_capture
    then (if ltb progress_bar_width cells then progress_bar_width else cells)
    else 0

-- The bar that `print_capture_progress` draws.
unfoldable pub progress_bar : CaptureState → CString
unfolding filled
progress_bar s = replicate (filled s) b'#' ++ replicate (progress_bar_width - filled s) b'.'

-- The percentage in tenths, for a limit that is not 0.
unfoldable pub percent_tenths : CaptureState → ℕ
percent_tenths s =
    let (m, p) =
      quotient (hundredfold (to_double s.bytes_captured)) (to_double s.max_bytes_to_capture) in
    if ltb (100 * p) m then 1000 else round_even (10 * m) p

-- `print_capture_progress`
unfoldable pub progress_line : CaptureState → CString
progress_line s =
    let start = b'\r' ∷ (b'[' ∷ (progress_bar s ++ (b']' ∷ (b' ' ∷ decimal s.bytes_captured)))) in
    let tenths = percent_tenths s in
    if ltb 0 s.max_bytes_to_capture
    then start
      ++ (b'/'
          ∷ (decimal s.max_bytes_to_capture
              ++ (codes " bytes ("
                  ++ (decimal (tenths / 10)
                      ++ (b'.'
                          ∷ ((tenths % 10 + b'0')
                              ∷ (codes "%), packets=" ++ decimal s.packets_captured)))))))
    else start ++ (codes " bytes, packets=" ++ decimal s.packets_captured)

-- What goes to stdout: a text, or a log message, which `beastie_log` prints or drops. An error of
-- libmemif is logged with the name of the call and the text that `memif_strerror` has for its code.
pub data Printed : Type 0 where
  drawn : CString → Printed
  logged : LogLevel → CString → Printed
  log_error : CString → ℕ → Printed

-- The message of an error of libpcap.
abbrev pub failed_for_output : CString → CaptureState → Printed
failed_for_output function s =
    logged error (function ++ (codes " failed for output " ++ s.pcap_filename))

-- `print_capture_summary`, after what was printed before it.
unfoldable pub print_capture_summary : CaptureState → List Printed → List Printed
print_capture_summary s lines =
    logged info (
      codes "captured "
      ++ (decimal s.bytes_captured
          ++ (codes " bytes in " ++ (decimal s.packets_captured ++ codes " packets"))))
    ∷ drawn (b'\n' ∷ [])
    ∷ drawn (progress_line s)
    ∷ lines
