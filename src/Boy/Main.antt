-- ===== src/Boy/Main.antt =====
-- boy/main.c: boy_run, which selects the command, and main. The output is what is printed besides log
-- messages and usage texts; the Boolean is true for the exit status 0.
pub mod Closed
pub mod Clean
pub mod Unconnected
use beastie_boy.Boy.Cli.{
  Mode, show_version, show_span, show_memif, unset_span, set_span, create_memif, show_phy,
  show_code_version, DeviceMode, MemifCreate, Opt, Options, Parsed, parse_ok, exit_success,
  exit_failure, parse_cli_options,
}
use beastie_boy.Boy.Collectors.{Sizes}
use beastie_boy.Boy.Memif.{create_memif as run_create_memif}
use beastie_boy.Boy.Phy.{show_phy as run_show_phy}
use beastie_boy.Boy.Show.{Output, show_memif as run_show_memif, show_span as run_show_span}
use beastie_boy.Boy.Span.{set_span as run_set_span, unset_span as run_unset_span}
use beastie_boy.Boy.Version.{show_version as run_show_version}
use beastie_boy.Boy.Vpp.{Vapi}
use beastie_boy.Boy.Vpp.Monad.{Ran, crashed, ran, M, pure, ◌>>=◌}
use beastie_boy.Common.Allocator.{Grants}
use beastie_boy.Common.Log.{LogLevel}
use beastie_boy.Common.Table.Widths.{Terminal}
use beastie_boy.Common.VersionText.{print_version}
use beastie_boy.Prelude.{ℕ, Bool, true, false, Option, none, some, List, [], CString, codes}

-- What a run depends on besides its arguments: VPP, memory, the terminal, and the version that the
-- build puts into the program.
pub record Setting : Type 0 where
  pub vapi : Vapi
  pub grants : Grants
  pub sizes : Sizes
  pub term : Terminal
  pub git_version : CString

-- A command that prints nothing.
abbrev pub silent : M Bool → M Output
silent m = m >>= λ done. pure (done, [])

-- `boy_set_span`; a name that is NULL counts as a crash, though it is read only if the source exists.
unfoldable pub set_span_named : Setting → ℕ → Option CString → DeviceMode → M Output
set_span_named s index none mode w = crashed
set_span_named s index (some name) mode w =
    silent (run_set_span s.vapi s.grants s.sizes index name mode) w

-- `boy_run`; the log level matters only for `boy_show_version`, whose output is log messages.
unfoldable pub run :
    Setting → Mode → LogLevel → ℕ → ℕ → Option CString → DeviceMode → MemifCreate → M Output
run s show_code_version level unset_index set_index name mode options =
    pure (true, print_version (codes "boy") s.git_version)
run s set_span level unset_index set_index name mode options = set_span_named s set_index name mode
run s unset_span level unset_index set_index name mode options =
    silent (run_unset_span s.vapi s.grants s.sizes unset_index)
run s show_memif level unset_index set_index name mode options =
    run_show_memif s.vapi s.grants s.sizes s.term
run s create_memif level unset_index set_index name mode options =
    silent (run_create_memif s.vapi options)
run s show_phy level unset_index set_index name mode options =
    run_show_phy s.vapi s.grants s.sizes s.term
run s show_span level unset_index set_index name mode options =
    run_show_span s.vapi s.grants s.sizes s.term
run s show_version level unset_index set_index name mode options = run_show_version s.vapi level

-- The call of `boy_run` with the options.
unfoldable pub run_options : Setting → Options → M Output
run_options s o =
    run s o.mode o.log_level o.unset_span_if_index o.set_span_if_index o.set_span_memif_name
      o.set_span_device_mode o.memif_create

-- The tests after the parser.
unfoldable pub run_parsed : Setting → Parsed → M Output
run_parsed s exit_success = pure (true, [])
run_parsed s exit_failure = pure (false, [])
run_parsed s (parse_ok o) = run_options s o

-- `main`
unfoldable pub main : Setting → List Opt → M Output
main s opts = run_parsed s (parse_cli_options opts)
