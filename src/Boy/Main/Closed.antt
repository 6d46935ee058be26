-- ===== src/Boy/Main/Closed.antt =====
-- boy keeps to the order of calls of libvapi, whatever VPP does.
use beastie_boy.Boy.Cli.{
  Mode, show_version, show_span, show_memif, unset_span, set_span, create_memif, show_phy,
  show_code_version, Opt, Options, Parsed, parse_ok, exit_success, exit_failure, parse_cli_options,
}
use beastie_boy.Boy.Main.{Setting, silent, set_span_named, run, run_options, run_parsed, main}
use beastie_boy.Boy.Memif.{create_memif as create_memif_cmd}
use beastie_boy.Boy.Memif.Created.{create_memif-Closed}
use beastie_boy.Boy.Phy.Sessions.{show_phy-Closed}
use beastie_boy.Boy.Show.Sessions.{show_memif-Closed, show_span-Closed}
use beastie_boy.Boy.Span.{set_span as set_span_cmd, unset_span as unset_span_cmd}
use beastie_boy.Boy.Span.Sessions.{set_span-Closed, unset_span-Closed}
use beastie_boy.Boy.Version.Shown.{show_version-Closed}
use beastie_boy.Boy.Vpp.Monad.{M, Triple, Triple-bind}
use beastie_boy.Boy.Vpp.Session.{no_context, IsIn}
use beastie_boy.Prelude.{ℕ, Bool, Option, none, some, List, CString}

-- A command that begins and ends without a context.
abbrev Closed : {A : Type 0} → M A → Type 0
Closed m = Triple (IsIn no_context) m (λ _. IsIn no_context)

silent-Closed : (m : M Bool) → Closed m → Closed (silent m)
silent-Closed m h =
    Triple-bind (IsIn no_context) (λ _. IsIn no_context) (λ _. IsIn no_context) m _ h
      (λ done w k. k)

set_span_named-Closed :
    (s : Setting) (index : ℕ) (name : Option CString) (mode : _)
    → Closed (set_span_named s index name mode)
unfolding set_span_named
set_span_named-Closed s index none mode w h = tt
set_span_named-Closed s index (some name) mode w h =
    silent-Closed (set_span_cmd s.vapi s.grants s.sizes index name mode)
      (set_span-Closed s.vapi s.grants s.sizes index name mode) w h

run_options-Closed : (s : Setting) (o : Options) → Closed (run_options s o)
unfolding run_options run
run_options-Closed s o = go o.mode
  where
    go :
        (mode : Mode)
        → Closed (
            run s mode o.log_level o.unset_span_if_index o.set_span_if_index o.set_span_memif_name
              o.set_span_device_mode o.memif_create)
    go show_code_version w h = h
    go set_span w h =
        set_span_named-Closed s o.set_span_if_index o.set_span_memif_name o.set_span_device_mode w h
    go unset_span w h =
        silent-Closed (unset_span_cmd s.vapi s.grants s.sizes o.unset_span_if_index)
          (unset_span-Closed s.vapi s.grants s.sizes o.unset_span_if_index) w h
    go show_memif w h = show_memif-Closed s.vapi s.grants s.sizes s.term w h
    go create_memif w h =
        silent-Closed (create_memif_cmd s.vapi o.memif_create)
          (create_memif-Closed s.vapi o.memif_create) w h
    go show_phy w h = show_phy-Closed s.vapi s.grants s.sizes s.term w h
    go show_span w h = show_span-Closed s.vapi s.grants s.sizes s.term w h
    go show_version w h = show_version-Closed s.vapi o.log_level w h

-- For every command line and every behaviour of VPP, boy keeps to the order of calls of libvapi and
-- holds no context at its end: a context that was opened is disconnected and freed, wherever requests
-- fail. Nothing is said of a run that reads a NULL reply or whose tables never stop growing.
pub main-Closed :
    (s : Setting) (opts : List Opt) → Triple (IsIn no_context) (main s opts) (λ _. IsIn no_context)
unfolding main run_parsed
main-Closed s opts = go (parse_cli_options opts)
  where
    go : (p : Parsed) → Closed (run_parsed s p)
    go (parse_ok o) w h = run_options-Closed s o w h
    go exit_success w h = h
    go exit_failure w h = h
