-- ===== src/Boy/Main/Unconnected.antt =====
-- What boy does where VPP cannot be reached.
use beastie_boy.Boy.Cli.{
  Mode, show_version, show_span, show_memif, unset_span, set_span, create_memif, show_phy,
  show_code_version, Opt, Options, Parsed, parse_ok, exit_success, exit_failure, parse_cli_options,
}
use beastie_boy.Boy.Cli.Complete.{HasText, IsComplete, parse_cli_options-IsComplete}
use beastie_boy.Boy.Cli.Modes.{ParsedEnsures}
use beastie_boy.Boy.Client.{is_ok, open_vapi}
use beastie_boy.Boy.Main.{Setting, silent, set_span_named, run, run_options, run_parsed, main}
use beastie_boy.Boy.Memif.{create_memif as create_memif_cmd, create_memif_connected}
use beastie_boy.Boy.Phy.{show_phy as show_phy_cmd, show_phy_connected}
use beastie_boy.Boy.Show.{
  no_output, Output, show_memif as show_memif_cmd, show_memif_connected, show_span as show_span_cmd,
  show_span_connected,
}
use beastie_boy.Boy.Span.{
  set_span as set_span_cmd, set_span_connected, unset_span as unset_span_cmd, unset_span_connected,
}
use beastie_boy.Boy.Version.{show_version as show_version_cmd, show_version_connected}
use beastie_boy.Boy.Vpp.{ctx_alloc, Vapi, World}
use beastie_boy.Boy.Vpp.Ends.{EndsIn, Ends, Ends-bind}
use beastie_boy.Boy.Vpp.Monad.{M, pure, ◌>>=◌}
use beastie_boy.Boy.Vpp.Session.{sent}
use beastie_boy.Prelude.{
  Bool, true, false, Option, none, some, CString, List, [], ◌∷◌, if◌then◌else◌, ◌≡◌, ◌≢◌, refl, sym,
  ap, ◌∙◌, arith, Bool-cases, inl, inr,
}

-- The context cannot be allocated, or the connection is refused.
abbrev pub refuses : Vapi → World → Bool
refuses v w =
    let allocated = v.allocs_ctx w.calls in
    if is_ok allocated
    then (if is_ok (v.connects (ctx_alloc allocated ∷ w.calls)) then false else true)
    else true

-- A result, with no request sent and the heap as it was.
pub record Without {A : Type 0} (before : World) (r a : A) (w : World) : Type 0 where
  pub result : a ≡ r
  pub none_sent : sent w.calls ≡ sent before.calls
  pub same_heap : w.heap ≡ before.heap

open_vapi-refuses :
    (v : Vapi) (w : World) → refuses v w ≡ true → EndsIn (Without w false) (open_vapi v w)
unfolding open_vapi sent
open_vapi-refuses v w h = elim (Bool-cases (is_ok (v.allocs_ctx w.calls))) [
  | inl e ↦ elim (Bool-cases (is_ok (v.connects (ctx_alloc (v.allocs_ctx w.calls) ∷ w.calls)))) [
    | inl f ↦ absurd (accepted e f)
    | inr f ↦ simp (e, f) (record { result = refl; none_sent = refl; same_heap = refl })
  ]
  | inr e ↦ simp e (record { result = refl; none_sent = refl; same_heap = refl })
]
  where
    accepted :
        is_ok (v.allocs_ctx w.calls) ≡ true
        → is_ok (v.connects (ctx_alloc (v.allocs_ctx w.calls) ∷ w.calls)) ≡ true
        → ⊥
    accepted e f = ground arith

opened-refuses :
    {A : Type 0} (v : Vapi) (m : M A) (failed : A) (w : World)
    → refuses v w ≡ true
    → EndsIn (Without w failed) ((open_vapi v >>= λ opened. if opened then m else pure failed) w)
opened-refuses {A} v m failed w h =
    Ends-bind (λ w'. w' ≡ w) (Without w false) (Without w failed) (open_vapi v) _
      (λ w' e. rw e (open_vapi-refuses v w h)) rest w refl
  where
    rest :
        (opened : Bool)
        → Ends (Without w false opened) (if opened then m else pure failed) (Without w failed)
    rest true w' k = let e = k.result in cc
    rest false w' k = record { result = refl; none_sent = k.none_sent; same_heap = k.same_heap }

silent-refuses :
    (m : M Bool) (w : World)
    → EndsIn (Without w false) (m w)
    → EndsIn (Without w no_output) (silent m w)
silent-refuses m w h =
    Ends-bind (λ w'. w' ≡ w) (Without w false) (Without w no_output) m _ (λ w' e. rw e h) rest w
      refl
  where
    rest :
        (done : Bool)
        → Ends (Without w false done) (pure {A = Output} (done, [])) (Without w no_output)
    rest true w' k = let e = k.result in cc
    rest false w' k = record { result = refl; none_sent = k.none_sent; same_heap = k.same_heap }

module _ (s : Setting) (w : World) (h : refuses s.vapi w ≡ true) where
  run_options-refuses :
      (o : Options)
      → IsComplete o
      → o.mode ≢ show_code_version
      → EndsIn (Without w no_output) (run_options s o w)
  unfolding run_options run set_span_named set_span_cmd unset_span_cmd show_memif_cmd
      create_memif_cmd show_phy_cmd show_span_cmd show_version_cmd
  run_options-refuses o c other = go o.mode o.set_span_memif_name c.name other
    where
      go :
          (mode : Mode) (name : Option CString)
          → (mode ≡ set_span → HasText name)
          → mode ≢ show_code_version
          → EndsIn (Without w no_output) (
              run s mode o.log_level o.unset_span_if_index o.set_span_if_index name
                o.set_span_device_mode o.memif_create w)
      go show_code_version name t other = absurd (other refl)
      go set_span none t other = absurd (t refl)
      go set_span (some name) t other =
          silent-refuses
            (set_span_cmd s.vapi s.grants s.sizes o.set_span_if_index name o.set_span_device_mode) w
            (opened-refuses s.vapi
              (set_span_connected s.vapi s.grants s.sizes o.set_span_if_index name
                o.set_span_device_mode)
              false w h)
      go unset_span name t other =
          silent-refuses (unset_span_cmd s.vapi s.grants s.sizes o.unset_span_if_index) w (
            opened-refuses s.vapi
              (unset_span_connected s.vapi s.grants s.sizes o.unset_span_if_index) false w h)
      go show_memif name t other =
          opened-refuses s.vapi (show_memif_connected s.vapi s.grants s.sizes s.term) no_output w h
      go create_memif name t other =
          silent-refuses (create_memif_cmd s.vapi o.memif_create) w
            (opened-refuses s.vapi (create_memif_connected s.vapi o.memif_create) false w h)
      go show_phy name t other =
          opened-refuses s.vapi (show_phy_connected s.vapi s.grants s.sizes s.term) no_output w h
      go show_span name t other =
          opened-refuses s.vapi (show_span_connected s.vapi s.grants s.sizes s.term) no_output w h
      go show_version name t other =
          opened-refuses s.vapi (show_version_connected s.vapi o.log_level) no_output w h

-- Where libvapi refuses the context or the connection, boy ends with the exit status 1 for every command
-- line that is accepted and asks for anything but its own version: it prints nothing besides its log,
-- sends no request and takes no memory.
pub main-refuses :
    (s : Setting) (opts : List Opt) (o : Options) (w : World)
    → refuses s.vapi w ≡ true
    → parse_cli_options opts ≡ parse_ok o
    → o.mode ≢ show_code_version
    → EndsIn (Without w no_output) (main s opts w)
unfolding main run_parsed
main-refuses s opts o w h e other =
    go (parse_cli_options opts) e (parse_cli_options-IsComplete opts)
  where
    same :
        (o' : Options)
        → parse_ok o' ≡ parse_ok o
        → o'.mode ≡ show_code_version
        → o.mode ≡ show_code_version
    same o' e m = let f : o' ≡ o = cc in ap Options.mode (sym f) ∙ m

    go :
        (p : Parsed)
        → p ≡ parse_ok o
        → ParsedEnsures IsComplete p
        → EndsIn (Without w no_output) (run_parsed s p w)
    go (parse_ok o') e c = run_options-refuses s w h o' c (λ m. other (same o' e m))
    go exit_success e c = cc
    go exit_failure e c = cc
