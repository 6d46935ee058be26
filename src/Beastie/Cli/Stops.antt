-- ===== src/Beastie/Cli/Stops.antt =====
-- Which argument ends the parsing of beastie/cli_options.c, and how.
use beastie_boy.Beastie.Cli.{
  Options, Parsed, parse_ok, exit_success, exit_failure, Opt, opt_version, opt_help, opt_unknown,
  opt_id, opt_log_level, opt_max_bytes, opt_socket, opt_write, defaults, Step, goes_on,
  exits_success, exits_failure, invalid, or_fail, step, parse_loop, parse_cli_options,
}
use beastie_boy.Beastie.Cli.Reads.{reads, last_value, StepEnsures, step_lem}
use beastie_boy.Beastie.Cli.Numbers.{to_u32, parse_memif_id-number, parse_max_capture_bytes-number}
use beastie_boy.Beastie.Cli.Usage.{print_usage}
use beastie_boy.Common.Log.{level_called, parse_log_level-level_called}
use beastie_boy.Common.Strtoul.Number.{number}
use beastie_boy.Prelude.{ℕ, Option, none, some, List, [], ◌∷◌, CString, codes, ◌≡◌, refl, ◌∙◌, ap}

-- An argument that is not what it should be.
abbrev pub unread {ℓ} : {A : Type ℓ} → Option A → CString → CString → Option Parsed
unread none what arg = some (exit_failure (invalid what arg))
unread (some a) what arg = none

-- What an option ends the parsing with, if it does.
pub stop_of : CString → Opt → Option Parsed
stop_of progname opt_help = some (exit_success (print_usage progname))
stop_of progname opt_unknown = some (exit_failure (print_usage progname))
stop_of progname (opt_id arg) = unread (number arg) (codes "memif id") arg
stop_of progname (opt_log_level arg) = unread (level_called arg) (codes "log level") arg
stop_of progname (opt_max_bytes arg) = unread (number arg) (codes "max capture size") arg
stop_of progname (opt_socket []) = some (exit_failure (invalid (codes "memif socket path") []))
stop_of progname _ = none

-- The first of the options that ends it.
pub first_stop : CString → List Opt → Option Parsed
first_stop progname [] = none
first_stop progname (opt ∷ opts) = elim (stop_of progname opt) [
  | none ↦ first_stop progname opts
  | some p ↦ some p
]

abbrev pub result_of : Option Parsed → Parsed → Parsed
result_of none p = p
result_of (some q) p = q

-- A step of the switch stops as its option says.
abbrev StopsAs : Option Parsed → Step → Type 0
StopsAs stop (goes_on o) = stop ≡ none
StopsAs stop (exits_success text) = stop ≡ some (exit_success text)
StopsAs stop (exits_failure text) = stop ≡ some (exit_failure text)

or_fail-StopsAs :
    {A : Type 0} (a : Option A) (what arg : CString) (f : A → Options)
    → StopsAs (unread a what arg) (or_fail a (invalid what arg) (λ b. goes_on (f b)))
or_fail-StopsAs none what arg f = refl
or_fail-StopsAs (some a) what arg f = refl

or_fail_u32-StopsAs :
    (a : Option ℕ) (what arg : CString) (f : ℕ → Options)
    → StopsAs (unread a what arg) (or_fail (to_u32 a) (invalid what arg) (λ b. goes_on (f b)))
unfolding to_u32
or_fail_u32-StopsAs none what arg f = refl
or_fail_u32-StopsAs (some a) what arg f = refl

step-StopsAs :
    (progname : CString) (opt : Opt) (o : Options)
    → StopsAs (stop_of progname opt) (step progname opt o)
unfolding step stop_of
step-StopsAs progname opt_version o = refl
step-StopsAs progname opt_help o = refl
step-StopsAs progname opt_unknown o = refl
step-StopsAs progname (opt_id arg) o = rw (parse_memif_id-number arg) (
    or_fail_u32-StopsAs (number arg) (codes "memif id") arg
      (λ n. record o { capture_config = record o.capture_config { memif_id = n } }))
step-StopsAs progname (opt_log_level arg) o =
    rw (parse_log_level-level_called arg)
      (or_fail-StopsAs (level_called arg) (codes "log level") arg (λ l. record o { log_level = l }))
step-StopsAs progname (opt_max_bytes arg) o = rw (parse_max_capture_bytes-number arg) (
    or_fail-StopsAs (number arg) (codes "max capture size") arg
      (λ n. record o { capture_config = record o.capture_config { max_capture_bytes = n } }))
step-StopsAs progname (opt_socket []) o = refl
step-StopsAs progname (opt_socket (c ∷ s)) o = refl
step-StopsAs progname (opt_write arg) o = refl

parse_loop-first_stop :
    (progname : CString) (opts : List Opt) (o : Options)
    → parse_loop progname opts o ≡ result_of (first_stop progname opts) (parse_ok (reads opts o))
unfolding parse_loop first_stop last_value
parse_loop-first_stop progname [] o = refl
parse_loop-first_stop progname (opt ∷ opts) o =
    go (step progname opt o) (step-StopsAs progname opt o) (step_lem progname opt opts o)
      (parse_loop-first_stop progname opts)
  where
    go :
        (s : Step)
        → StopsAs (stop_of progname opt) s
        → StepEnsures (λ o'. reads opts o' ≡ reads (opt ∷ opts) o) s
        → ((o' : Options)
            → parse_loop progname opts o'
              ≡ result_of (first_stop progname opts) (parse_ok (reads opts o')))
        → elim s [
          | goes_on o' ↦ parse_loop progname opts o'
          | exits_success text ↦ exit_success text
          | exits_failure text ↦ exit_failure text
        ]
          ≡ result_of (first_stop progname (opt ∷ opts)) (parse_ok (reads (opt ∷ opts) o))
    go (goes_on o') stop e rec =
        rw (stop, first_stop, result_of)
          (rec o' ∙ ap (λ o₁. result_of (first_stop progname opts) (parse_ok o₁)) e)
    go (exits_success text) stop e rec = rw (stop, first_stop, result_of) refl
    go (exits_failure text) stop e rec = rw (stop, first_stop, result_of) refl

-- The first option that ends the parsing decides its result, whatever comes before and after it: `--help`
-- prints the usage text and succeeds, an option that `getopt_long` does not know prints it and fails,
-- and a number, a log level or a socket path that is not one fails with a message that shows it. If
-- there is no such option, the parsing succeeds, and each of the six options has the value that was
-- given last, or its default. A number is white space, a sign or none, and one digit or more, with
-- nothing after them, and `--id` keeps it modulo 2^32; a log level is one of the four words; a socket
-- path is not empty.
pub parse_cli_options-first_stop :
    (progname : CString) (opts : List Opt)
    → parse_cli_options progname opts
      ≡ result_of (first_stop progname opts) (parse_ok (reads opts defaults))
unfolding parse_cli_options
parse_cli_options-first_stop progname opts = parse_loop-first_stop progname opts defaults
