-- ===== src/Beastie/Cli/Reads.antt =====
-- Which options beastie/cli_options.c ends with, and what they do to a capture.
use beastie_boy.Beastie.Capture.Account.{dumped, total_length}
use beastie_boy.Beastie.Capture.Run.{Poll, Finish, Made, run_capture}
use beastie_boy.Beastie.Capture.Run.Bounded.{IsShortPoll, final_world, run_capture-bounded}
use beastie_boy.Beastie.Cli.{
  Mode, capture, show_version, Options, Parsed, parse_ok, exit_success, exit_failure,
  parse_max_capture_bytes, parse_memif_id, Opt, opt_version, opt_help, opt_unknown, opt_id,
  opt_log_level, opt_max_bytes, opt_socket, opt_write, defaults, Step, goes_on, exits_success,
  exits_failure, or_fail, step, parse_loop, parse_cli_options, Main, exits, prints, captures, run,
  main,
}
use beastie_boy.Beastie.PcapWriter.{Libpcap}
use beastie_boy.Beastie.Cli.Numbers.{to_u32, parse_memif_id-number, parse_max_capture_bytes-number}
use beastie_boy.Common.Log.{LogLevel, parse_log_level, level_called, parse_log_level-level_called}
use beastie_boy.Common.Strtoul.Number.{number}
use beastie_boy.Common.VersionText.{print_version}
use beastie_boy.Prelude.{
  codes, ℕ, ◌+◌, ◌≤◌, ◌<◌, Option, none, some, List, [], ◌∷◌, CString, All, ◌≡◌, refl, u32_mod,
  u64_mod, ◌∙◌, sym,
}

-- The value of an option in a list of options: that of the last one that has a value.
unfoldable pub last_value : {A : Type 0} → (Opt → Option A) → List Opt → A → A
last_value value_of [] a = a
last_value value_of (o ∷ opts) a =
    last_value value_of opts (elim (value_of o) [ none ↦ a | some b ↦ b ])

abbrev mode_of : Opt → Option Mode
mode_of opt_version = some show_version
mode_of _ = none

abbrev level_of : Opt → Option LogLevel
level_of (opt_log_level arg) = level_called arg
level_of _ = none

abbrev id_of : Opt → Option ℕ
id_of (opt_id arg) = to_u32 (number arg)
id_of _ = none

abbrev max_bytes_of : Opt → Option ℕ
max_bytes_of (opt_max_bytes arg) = number arg
max_bytes_of _ = none

abbrev socket_of : Opt → Option (Option CString)
socket_of (opt_socket arg) = some (some arg)
socket_of _ = none

abbrev file_of : Opt → Option (Option CString)
file_of (opt_write arg) = some (some arg)
file_of _ = none

-- The options that a command line stands for, from some options on.
abbrev pub reads : List Opt → Options → Options
reads opts o = record {
  mode = last_value mode_of opts o.mode;
  log_level = last_value level_of opts o.log_level;
  capture_config = record {
    output_filename = last_value file_of opts o.capture_config.output_filename;
    max_capture_bytes = last_value max_bytes_of opts o.capture_config.max_capture_bytes;
    memif_id = last_value id_of opts o.capture_config.memif_id;
    memif_socket_path = last_value socket_of opts o.capture_config.memif_socket_path;
  };
}

abbrev pub ParsedEnsures : (Options → Type 0) → Parsed → Type 0
ParsedEnsures P (parse_ok o) = P o
ParsedEnsures P _ = Unit

abbrev pub StepEnsures : (Options → Type 0) → Step → Type 0
StepEnsures P (goes_on o) = P o
StepEnsures P _ = Unit

or_fail-StepEnsures :
    {A : Type 0} (P : Options → Type 0) (a : Option A) (message : CString) (f : A → Step)
    → ((b : A) → a ≡ some b → StepEnsures P (f b))
    → StepEnsures P (or_fail a message f)
or_fail-StepEnsures P none message f h = tt
or_fail-StepEnsures P (some a) message f h = h a refl

-- One option.
pub step_lem :
    (progname : CString) (opt : Opt) (opts : List Opt) (o : Options)
    → StepEnsures (λ o'. reads opts o' ≡ reads (opt ∷ opts) o) (step progname opt o)
unfolding step last_value
step_lem progname opt_version opts o = refl
step_lem progname opt_help opts o = tt
step_lem progname opt_unknown opts o = tt
step_lem progname (opt_id arg) opts o =
    or_fail-StepEnsures _ (parse_memif_id arg) _ _
      (λ b e. rw (sym (parse_memif_id-number arg) ∙ e) refl)
step_lem progname (opt_log_level arg) opts o =
    or_fail-StepEnsures _ (parse_log_level arg) _ _
      (λ b e. rw (sym (parse_log_level-level_called arg) ∙ e) refl)
step_lem progname (opt_max_bytes arg) opts o =
    or_fail-StepEnsures _ (parse_max_capture_bytes arg) _ _
      (λ b e. rw (sym (parse_max_capture_bytes-number arg) ∙ e) refl)
step_lem progname (opt_socket []) opts o = tt
step_lem progname (opt_socket (c ∷ s)) opts o = refl
step_lem progname (opt_write arg) opts o = refl

ParsedEnsures-trans :
    (o o' : Options) (r : Parsed)
    → o ≡ o'
    → ParsedEnsures (λ o₁. o₁ ≡ o) r
    → ParsedEnsures (λ o₁. o₁ ≡ o') r
ParsedEnsures-trans o o' (parse_ok o₁) e p = p ∙ e
ParsedEnsures-trans o o' (exit_success text) e p = tt
ParsedEnsures-trans o o' (exit_failure text) e p = tt

parse_loop_lem :
    (progname : CString) (opts : List Opt) (o : Options)
    → ParsedEnsures (λ o'. o' ≡ reads opts o) (parse_loop progname opts o)
unfolding parse_loop last_value
parse_loop_lem progname [] o = refl
parse_loop_lem progname (opt ∷ opts) o =
    go (step progname opt o) (step_lem progname opt opts o) (parse_loop_lem progname opts)
  where
    go :
        (s : Step)
        → StepEnsures (λ o'. reads opts o' ≡ reads (opt ∷ opts) o) s
        → ((o' : Options) → ParsedEnsures (λ o₁. o₁ ≡ reads opts o') (parse_loop progname opts o'))
        → ParsedEnsures
            (λ o'. o' ≡ reads (opt ∷ opts) o)
            (elim s [
              | goes_on o' ↦ parse_loop progname opts o'
              | exits_success text ↦ exit_success text
              | exits_failure text ↦ exit_failure text
            ])
    go (goes_on o') e rec =
        ParsedEnsures-trans (reads opts o') (reads (opt ∷ opts) o) (parse_loop progname opts o') e
          (rec o')
    go (exits_success text) e rec = tt
    go (exits_failure text) e rec = tt

-- An accepted command line of beastie stands for the options that it names: each of the six takes the
-- value of the last option that sets it, and its default if none does. `--id` and `--max-bytes`
-- give the values of their parsers.
pub parse_cli_options-reads :
    (progname : CString) (opts : List Opt)
    → ParsedEnsures (λ o. o ≡ reads opts defaults) (parse_cli_options progname opts)
unfolding parse_cli_options
parse_cli_options-reads progname opts = parse_loop_lem progname opts defaults

abbrev pub MainEnsures : (Finish → Type 0) → Main → Type 0
MainEnsures P (exits code text) = Unit
MainEnsures P (prints text) = Unit
MainEnsures P (captures level f) = P f

run_lem :
    (P : Finish → Type 0) (lib : Libpcap) (git_version : CString)
    (socket_made connection_made : Made) (polls : List Poll) (o : Options)
    → P (run_capture lib o.capture_config socket_made connection_made polls)
    → MainEnsures P (run lib git_version socket_made connection_made polls o)
unfolding run
run_lem P lib git_version s c polls o h = go o.mode
  where
    go :
        (m : Mode)
        → MainEnsures P (elim m [
          | show_version ↦ prints (print_version (codes "beastie") git_version)
          | capture ↦ captures o.log_level (run_capture lib o.capture_config s c polls)
        ])
    go capture = h
    go show_version = tt

abbrev pub limit_of : List Opt → ℕ
limit_of opts = (reads opts defaults).capture_config.max_capture_bytes

-- The whole program keeps the limit of its command line: where the last `--max-bytes`, or the default
-- of 655360, is not 0 and leaves room for one more packet in 64 bits, and the packets have lengths of 32
-- bits, the packets in the capture file never add up to more than that.
pub main-bounded :
    (lib : Libpcap) (git_version : CString) (socket_made connection_made : Made) (polls : List Poll)
    (progname : CString) (opts : List Opt)
    → 0 < limit_of opts
    → limit_of opts + u32_mod ≤ u64_mod
    → All IsShortPoll polls
    → MainEnsures
        (λ f. total_length (dumped (final_world f).writer.calls) ≤ limit_of opts)
        (main lib git_version socket_made connection_made polls progname opts)
unfolding main
main-bounded lib git_version s c polls progname opts h room short =
    go (parse_cli_options progname opts) (parse_cli_options-reads progname opts)
  where
    go :
        (r : Parsed)
        → ParsedEnsures (λ o. o ≡ reads opts defaults) r
        → MainEnsures
            (λ f. total_length (dumped (final_world f).writer.calls) ≤ limit_of opts)
            (elim r [
              | exit_success text ↦ exits 0 text
              | exit_failure text ↦ exits 1 text
              | parse_ok o ↦ run lib git_version s c polls o
            ])
    go (exit_success text) e = tt
    go (exit_failure text) e = tt
    go (parse_ok o) e = rw e (
        run_lem (λ f. total_length (dumped (final_world f).writer.calls) ≤ limit_of opts) lib
          git_version s c polls (reads opts defaults)
          (run_capture-bounded lib (reads opts defaults).capture_config s c polls h room short).0)
