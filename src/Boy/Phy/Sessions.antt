-- ===== src/Boy/Phy/Sessions.antt =====
-- How boy_show_phy of boy/commands/phy_cmd.c uses its connection.
use beastie_boy.Boy.Client.Connection.{
  Connected, Connected-pure, Connected-bind, Connected-if, opened-Closed, close-bind,
}
use beastie_boy.Boy.Client.{is_ok}
use beastie_boy.Boy.Collectors.{no_entries, InterfaceEntry, Sizes, collect_interfaces}
use beastie_boy.Boy.Phy.{
  InbandResult, inband_cb, discard, check_inband, fetch_show_hardware_output, override_families,
  phy_columns, phy_rows, show_fetched, show_phy_connected, show_phy,
}
use beastie_boy.Boy.Show.{no_output, show_rows}
use beastie_boy.Boy.Show.Sessions.{show_rows-Connected}
use beastie_boy.Boy.Span.Sessions.{finish-Closed, interfaces-Connected}
use beastie_boy.Boy.Vpp.{show_hardware, alloc_message, send, Vapi}
use beastie_boy.Boy.Vpp.Monad.{
  Ran, RanEnsures, pure, Exchanged, broken, exchanged, exchange, Triple,
}
use beastie_boy.Boy.Vpp.Session.{no_context, connected, after_call, session, IsIn}
use beastie_boy.Common.Allocator.{Grants}
use beastie_boy.Common.Table.Widths.{Terminal}
use beastie_boy.Prelude.{
  Bool, true, false, not, Option, none, some, List, ◌∷◌, ℕ, ◌==◌, if◌then◌else◌, arith, Bool-cases,
  inl, inr,
}

-- A result of a command with a connection.
abbrev Stays : Ran (Option (List ℕ)) → Type 0
Stays = RanEnsures (λ _. IsIn connected)

Stays-if : (b : Bool) (x y : Ran (Option (List ℕ))) → Stays x → Stays y → Stays (if b then x else y)
Stays-if true x y p q = p
Stays-if false x y p q = q

check_inband-Connected : (r : Exchanged InbandResult) → Connected (check_inband r)
unfolding check_inband
check_inband-Connected broken w h = tt
check_inband-Connected (exchanged err s) w h = Stays-if (not (is_ok err)) (discard s w) _ h (
    Stays-if (not s.received_reply) (discard s w) _ h
      (Stays-if (not (s.retval == 0)) (discard s w) _ h h))

fetch-Connected : (v : Vapi) (grants : Grants) → Connected (fetch_show_hardware_output v grants)
unfolding fetch_show_hardware_output session after_call
fetch-Connected v grants w h = elim (Bool-cases (v.allocs_message w.calls show_hardware)) [
  | inl e ↦
      let calls = alloc_message show_hardware true ∷ w.calls in
      let start : InbandResult = record {
        received_reply = false;
        retval = 0;
        reply = none;
        heap = w.heap;
      } in
      rw e (
        check_inband-Connected (exchange (inband_cb grants) (v.inbands calls) start)
          (record w { calls = send show_hardware ∷ calls }) (ground arith))
  | inr e ↦ rw e (ground arith)
]

override_families-Connected :
    (grants : Grants) (text : Option (List ℕ)) (entries : List InterfaceEntry)
    → Connected (override_families grants text entries)
unfolding override_families
override_families-Connected grants none entries w h = h
override_families-Connected grants (some reply) entries w h = h

show_fetched-Connected :
    (v : Vapi) (grants : Grants) (term : Terminal) (entries : List InterfaceEntry)
    → Connected (show_fetched v grants term entries)
unfolding show_fetched
show_fetched-Connected v grants term entries =
    Connected-bind (fetch_show_hardware_output v grants) _ (fetch-Connected v grants) (λ text.
      Connected-bind (override_families grants text entries) _
        (override_families-Connected grants text entries)
        (λ entries'.
          Connected-bind (show_rows grants term phy_columns (phy_rows entries')) _
            (show_rows-Connected grants term phy_columns (phy_rows entries')) (λ shown w h. h)))

-- `boy_show_phy` keeps to the order of calls of libvapi and holds no context at its end, unless a table
-- never stops growing.
pub show_phy-Closed :
    (v : Vapi) (grants : Grants) (sizes : Sizes) (term : Terminal)
    → Triple (IsIn no_context) (show_phy v grants sizes term) (λ _. IsIn no_context)
unfolding show_phy show_phy_connected
show_phy-Closed v grants sizes term =
    opened-Closed v (show_phy_connected v grants sizes term) no_output (
      close-bind (collect_interfaces v grants sizes no_entries) _
        (interfaces-Connected v grants sizes)
        (λ t.
          close-bind (if t.0 then show_fetched v grants term t.1.entries else pure no_output) _
            (Connected-if t.0 (show_fetched v grants term t.1.entries) (pure no_output)
              (show_fetched-Connected v grants term t.1.entries) (Connected-pure no_output))
            (λ shown. finish-Closed t.1 shown)))
