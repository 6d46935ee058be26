-- ===== src/Boy/Span/Requests.antt =====
-- What holds of single requests holds of the SPAN commands after the tables are collected.
use beastie_boy.Boy.Cli.{DeviceMode}
use beastie_boy.Boy.Client.{set_flags_cb, unguarded_cb, transact, is_some, set_interface_admin_up}
use beastie_boy.Boy.Client.Rules.{Rules, on_if}
use beastie_boy.Boy.Collectors.{InterfaceEntry, SpanEntry}
use beastie_boy.Boy.Span.{
  set_span_entry, find_by_index, find_by_name, span_state_from_device_mode, bring_up, mirror,
  bring_up_and_mirror, configure, remove_spans,
}
use beastie_boy.Boy.Vpp.{SpanState, disabled, set_span_state, set_admin_up, Vapi}
use beastie_boy.Boy.Vpp.Monad.{pure}
use beastie_boy.Prelude.{
  ℕ, Bool, true, false, not, Option, none, some, List, [], ◌∷◌, CString, codes, starts_with, ◌==◌,
  if◌then◌else◌,
}

module _ (v : Vapi) (r : Rules v) where
  set_span_entry-holds :
      (from to : ℕ) (state : SpanState) (is_l2 : Bool)
      → r.holds (set_span_entry v from to state is_l2)
  unfolding set_span_entry
  set_span_entry-holds from to state is_l2 =
      r.on_bind (transact v unguarded_cb (set_span_state from to state is_l2)) _
        (r.on_unguarded (set_span_state from to state is_l2)) (λ a. r.on_pure (is_some a))

  pub set_interface_admin_up-holds : (index : ℕ) → r.holds (set_interface_admin_up v index)
  unfolding set_interface_admin_up
  set_interface_admin_up-holds index =
      r.on_bind (transact v set_flags_cb (set_admin_up index)) _
        (r.on_set_flags (set_admin_up index)) (λ a. r.on_pure (is_some a))

  bring_up-holds : (e : InterfaceEntry) → r.holds (bring_up v e)
  unfolding bring_up
  bring_up-holds e =
      on_if v r e.flags.admin_up (pure true) (set_interface_admin_up v e.sw_if_index)
        (r.on_pure true) (set_interface_admin_up-holds e.sw_if_index)

  bring_up_and_mirror-holds :
      (s d : InterfaceEntry) (mode : DeviceMode) → r.holds (bring_up_and_mirror v s d mode)
  unfolding bring_up_and_mirror mirror
  bring_up_and_mirror-holds s d mode = r.on_bind (bring_up v s) _ (bring_up-holds s) (λ up.
      r.on_bind (if up then bring_up v d else pure false) _
        (on_if v r up (bring_up v d) (pure false) (bring_up-holds d) (r.on_pure false))
        (λ up'.
          on_if v r up' (mirror v s d mode) (pure false)
            (set_span_entry-holds s.sw_if_index d.sw_if_index (span_state_from_device_mode mode)
              false)
            (r.on_pure false)))

  pub configure-holds :
      (entries : List InterfaceEntry) (source : ℕ) (name : CString) (mode : DeviceMode)
      → r.holds (configure v entries source name mode)
  unfolding configure
  configure-holds entries source name mode =
      go (find_by_index entries source) (find_by_name entries name)
    where
      pair :
          (s d : InterfaceEntry)
          → r.holds (
              if not (starts_with d.interface_name (codes "memif"))
              then pure false
              else (if s.sw_if_index == d.sw_if_index
                  then pure false
                  else bring_up_and_mirror v s d mode))
      pair s d =
          on_if v r (not (starts_with d.interface_name (codes "memif"))) (pure false) _
            (r.on_pure false)
            (on_if v r (s.sw_if_index == d.sw_if_index) (pure false)
              (bring_up_and_mirror v s d mode) (r.on_pure false)
              (bring_up_and_mirror-holds s d mode))

      go :
          (s d : Option InterfaceEntry)
          → r.holds (elim s [
            | none ↦ pure false
            | some s ↦ elim d [
              | none ↦ pure false
              | some d ↦
                  if not (starts_with d.interface_name (codes "memif"))
                  then pure false
                  else (if s.sw_if_index == d.sw_if_index
                      then pure false
                      else bring_up_and_mirror v s d mode)
            ]
          ])
      go none d = r.on_pure false
      go (some s) none = r.on_pure false
      go (some s) (some d) = pair s d

  pub remove_spans-holds :
      (source : ℕ) (entries : List SpanEntry) → r.holds (remove_spans v source entries)
  unfolding remove_spans
  remove_spans-holds source [] = r.on_pure true
  remove_spans-holds source (e ∷ entries) =
      let rest = remove_spans v source entries in
      let rest_lem = remove_spans-holds source entries in
      on_if v r (not (e.sw_if_index_from == source)) rest _ rest_lem (
        r.on_bind (set_span_entry v e.sw_if_index_from e.sw_if_index_to disabled e.is_l2) _
          (set_span_entry-holds e.sw_if_index_from e.sw_if_index_to disabled e.is_l2)
          (λ done. on_if v r (not done) (pure false) rest (r.on_pure false) rest_lem))
