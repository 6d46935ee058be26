-- ===== src/Beastie/Cli.antt =====
-- beastie/cli_options.c, beastie/cli_options.h and beastie/main.c: the command line of beastie. What
-- `getopt_long` returns, call by call, is an argument.
pub mod Numbers
pub mod Reads
pub mod Stops
pub mod Usage
use beastie_boy.Beastie.State.{
  Config, default_output_filename, default_memif_socket_path, default_max_capture_bytes,
  default_memif_id,
}
use beastie_boy.Beastie.Capture.Run.{Poll, Finish, Made, run_capture}
use beastie_boy.Beastie.PcapWriter.{Libpcap}
use beastie_boy.Common.Log.{LogLevel, info, parse_log_level}
use beastie_boy.Common.VersionText.{print_version}
use beastie_boy.Beastie.Cli.Usage.{print_usage}
use beastie_boy.Common.Strtoul.{Conversion, strtoul}
use beastie_boy.Prelude.{
  ℕ, ◌*◌, ◌%◌, Bool, true, false, not, ◌||◌, Option, none, some, List, [], ◌∷◌, ◌++◌, codes,
  CString, if◌then◌else◌, u32_mod,
}

-- `beastie_mode_t`
pub data Mode : Type 0 where
  capture show_version : Mode

-- `beastie_cli_options_t`
pub record Options : Type 0 where
  pub mode : Mode
  pub log_level : LogLevel
  pub capture_config : Config

-- `beastie_cli_parse_status_t`, with the options that are used only after BEASTIE_CLI_PARSE_OK, and
-- otherwise with what was written to stderr.
pub data Parsed : Type 0 where
  parse_ok : Options → Parsed
  exit_success exit_failure : CString → Parsed

abbrev pub is_empty : CString → Bool
is_empty [] = true
is_empty (c ∷ s) = false

abbrev pub is_malformed : CString → Conversion → Bool
is_malformed value c = is_empty value || (not c.converted || not (is_empty c.end))

-- `parse_max_capture_bytes`; `strtoull` reads what `strtoul` reads where both have 64 bits. `none` is
-- the return value -1.
unfoldable pub parse_max_capture_bytes : CString → Option ℕ
parse_max_capture_bytes value =
    let c = strtoul value in if is_malformed value c then none else some c.value

-- `parse_memif_id`
unfoldable pub parse_memif_id : CString → Option ℕ
parse_memif_id value =
    let c = strtoul value in if is_malformed value c then none else some (c.value % u32_mod)

-- What a call of `getopt_long` gives, before the -1 at the end of the arguments.
pub data Opt : Type 0 where
  opt_version opt_help opt_unknown : Opt
  opt_id opt_log_level opt_max_bytes opt_socket opt_write : CString → Opt

abbrev pub defaults : Options
defaults = record {
  mode = capture;
  log_level = info;
  capture_config = record {
    output_filename = some default_output_filename;
    max_capture_bytes = default_max_capture_bytes;
    memif_id = default_memif_id;
    memif_socket_path = some default_memif_socket_path;
  };
}

-- What a case of the switch does: go on, or write to stderr and return from the function.
pub data Step : Type 0 where
  goes_on : Options → Step
  exits_success exits_failure : CString → Step

-- The message about an argument.
abbrev pub invalid : CString → CString → CString
invalid what arg = codes "Invalid " ++ (what ++ (codes ": " ++ (arg ++ (b'\n' ∷ []))))

abbrev set_config : Config → Options → Step
set_config c o = goes_on (record o { capture_config = c })

abbrev pub or_fail {ℓ} : {A : Type ℓ} → Option A → CString → (A → Step) → Step
or_fail none message f = exits_failure message
or_fail (some a) message f = f a

-- The body of the switch.
unfoldable pub step : CString → Opt → Options → Step
step progname opt_version o = goes_on (record o { mode = show_version })
step progname opt_help o = exits_success (print_usage progname)
step progname opt_unknown o = exits_failure (print_usage progname)
step progname (opt_id arg) o =
    or_fail (parse_memif_id arg) (invalid (codes "memif id") arg)
      λ n. set_config (record o.capture_config { memif_id = n }) o
step progname (opt_log_level arg) o =
    or_fail (parse_log_level arg) (invalid (codes "log level") arg)
      λ l. goes_on (record o { log_level = l })
step progname (opt_max_bytes arg) o =
    or_fail (parse_max_capture_bytes arg) (invalid (codes "max capture size") arg)
      λ n. set_config (record o.capture_config { max_capture_bytes = n }) o
step progname (opt_socket arg) o =
    if is_empty arg
    then exits_failure (invalid (codes "memif socket path") arg)
    else set_config (record o.capture_config { memif_socket_path = some arg }) o
step progname (opt_write arg) o =
    set_config (record o.capture_config { output_filename = some arg }) o

unfoldable pub parse_loop : CString → List Opt → Options → Parsed
parse_loop progname [] o = parse_ok o
parse_loop progname (opt ∷ opts) o = elim (step progname opt o) [
  | goes_on o' ↦ parse_loop progname opts o'
  | exits_success text ↦ exit_success text
  | exits_failure text ↦ exit_failure text
]

-- `beastie_parse_cli_options`
unfoldable pub parse_cli_options : CString → List Opt → Parsed
parse_cli_options progname opts = parse_loop progname opts defaults

-- The end of `main`: an exit status after a text on stderr, or 0 after a text on stdout, or a run of
-- `beastie_run_capture` at a log level.
pub data Main : Type 0 where
  exits : ℕ → CString → Main
  prints : CString → Main
  captures : LogLevel → Finish → Main

-- `beastie_run`
unfoldable pub run : Libpcap → CString → Made → Made → List Poll → Options → Main
run lib git_version socket_made connection_made polls o = elim o.mode [
  | show_version ↦ prints (print_version (codes "beastie") git_version)
  | capture ↦
      captures o.log_level (run_capture lib o.capture_config socket_made connection_made polls)
]

-- `main`, with the name and the version of the program.
unfoldable pub main : Libpcap → CString → Made → Made → List Poll → CString → List Opt → Main
main lib git_version socket_made connection_made polls progname opts =
    elim (parse_cli_options progname opts) [
      | exit_success text ↦ exits 0 text
      | exit_failure text ↦ exits 1 text
      | parse_ok o ↦ run lib git_version socket_made connection_made polls o
    ]
