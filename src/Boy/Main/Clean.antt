-- ===== src/Boy/Main/Clean.antt =====
-- Every run of boy comes to an end, with no context held and all memory given back.
use beastie_boy.Boy.Cli.{
  Mode, show_version, show_span, show_memif, unset_span, set_span, create_memif, show_phy,
  show_code_version, Opt, Options, Parsed, parse_ok, exit_success, exit_failure, parse_cli_options,
}
use beastie_boy.Boy.Cli.Complete.{HasText, IsComplete, parse_cli_options-IsComplete}
use beastie_boy.Boy.Cli.Modes.{ParsedEnsures}
use beastie_boy.Boy.Client.Holding.{IsClean}
use beastie_boy.Boy.Client.Returns.{AtMost, HasReplies}
use beastie_boy.Boy.Main.{Setting, silent, set_span_named, run, run_options, run_parsed, main}
use beastie_boy.Boy.Memif.{create_memif as create_memif_cmd}
use beastie_boy.Boy.Memif.Held.{create_memif-IsClean}
use beastie_boy.Boy.Phy.Held.{show_phy-IsClean}
use beastie_boy.Boy.Show.Held.{table_limit, show_memif-IsClean, show_span-IsClean}
use beastie_boy.Boy.Show.{Output}
use beastie_boy.Boy.Span.{set_span as set_span_cmd, unset_span as unset_span_cmd}
use beastie_boy.Boy.Span.Clean.{set_span-IsClean, unset_span-IsClean}
use beastie_boy.Boy.Span.Returns.{KeepsToInterface}
use beastie_boy.Boy.Version.Held.{show_version-IsClean}
use beastie_boy.Boy.Vpp.{Call, Vapi}
use beastie_boy.Boy.Vpp.Ends.{Keeps-bind, Keeps-pure}
use beastie_boy.Boy.Vpp.Monad.{M}
use beastie_boy.Boy.Vpp.Session.{no_context}
use beastie_boy.Common.VersionText.{print_version}
use beastie_boy.Prelude.{
  codes, ℕ, ◌≤◌, Bool, true, false, Option, none, some, List, [], CString, ◌≡◌, refl, arith,
}

-- A VPP that gives a reply with each success and reports at most n entries in each dump.
pub record RepliesWithin (n : ℕ) (v : Vapi) : Type 0 where
  pub keeps : KeepsToInterface n v
  pub memifs : (calls : List Call) → AtMost n (v.sends_memifs calls)
  pub versions : (calls : List Call) → HasReplies (v.versions calls)

silent-IsClean : (m : M Bool) → IsClean m → IsClean (silent m)
silent-IsClean m h n =
    Keeps-bind no_context n m _ (h n) (λ done. Keeps-pure {A = Output} no_context n (done, []))

module _ (n : ℕ) (s : Setting) (h : RepliesWithin n s.vapi) (small : n ≤ table_limit) where
  run_options-IsClean : (o : Options) → IsComplete o → IsClean (run_options s o)
  unfolding run_options run set_span_named
  run_options-IsClean o c = go o.mode o.set_span_memif_name c.name
    where
      go :
          (mode : Mode) (name : Option CString)
          → (mode ≡ set_span → HasText name)
          → IsClean (
              run s mode o.log_level o.unset_span_if_index o.set_span_if_index name
                o.set_span_device_mode o.memif_create)
      go show_code_version name t k =
          Keeps-pure {A = Output} no_context k (true, print_version (codes "boy") s.git_version)
      go set_span none t k = absurd (t refl)
      go set_span (some name) t k =
          silent-IsClean
            (set_span_cmd s.vapi s.grants s.sizes o.set_span_if_index name o.set_span_device_mode)
            (set_span-IsClean n s.vapi s.grants s.sizes h.keeps o.set_span_if_index name
              o.set_span_device_mode (omega arith))
            k
      go unset_span name t k =
          silent-IsClean (unset_span_cmd s.vapi s.grants s.sizes o.unset_span_if_index)
            (unset_span-IsClean n s.vapi s.grants s.sizes h.keeps o.unset_span_if_index
              (omega arith))
            k
      go show_memif name t k =
          show_memif-IsClean s.vapi s.grants s.sizes s.term n h.memifs (omega arith) k
      go create_memif name t k =
          silent-IsClean (create_memif_cmd s.vapi o.memif_create)
            (create_memif-IsClean s.vapi o.memif_create (KeepsToInterface.replies h.keeps)) k
      go show_phy name t k =
          show_phy-IsClean s.vapi s.grants s.sizes s.term n h.keeps (omega arith) k
      go show_span name t k = show_span-IsClean s.vapi s.grants s.sizes s.term n h.keeps small k
      go show_version name t k = show_version-IsClean s.vapi o.log_level h.versions k

  run_parsed-IsClean : (p : Parsed) → ParsedEnsures IsComplete p → IsClean (run_parsed s p)
  unfolding run_parsed
  run_parsed-IsClean (parse_ok o) c k = run_options-IsClean o c k
  run_parsed-IsClean exit_success c k = Keeps-pure {A = Output} no_context k (true, [])
  run_parsed-IsClean exit_failure c k = Keeps-pure {A = Output} no_context k (false, [])

-- For every command line, boy returns if VPP gives a reply with each success and reports at most n
-- interfaces, n memifs and, in each of two dumps, n SPAN entries, n up to 2^30: it uses no NULL pointer
-- and all its loops end, whichever calls of libvapi, requests and requests for memory fail. From a state
-- without a context it keeps to the order of calls of libvapi, at its end it holds no context, and all
-- memory is given back.
pub main-IsClean :
    (n : ℕ) (s : Setting) (opts : List Opt)
    → RepliesWithin n s.vapi
    → n ≤ table_limit
    → IsClean (main s opts)
unfolding main
main-IsClean n s opts h small =
    run_parsed-IsClean n s h small (parse_cli_options opts) (parse_cli_options-IsComplete opts)
