-- ===== src/Boy/Memif/Created.antt =====
-- What boy_create_memif of boy/commands/memif_cmd.c asks VPP for, and how it uses its connection.
use beastie_boy.Boy.Cli.{MemifCreate}
use beastie_boy.Boy.Client.{
  ReplyResult, set_flags_cb, unguarded_cb, transact, is_some, set_interface_admin_up,
}
use beastie_boy.Boy.Client.Sessions.{transact_lem}
use beastie_boy.Boy.Memif.{
  bring_up_created, create_and_bring_up, create_memif_connected, create_memif,
}
use beastie_boy.Boy.Span.Mirror.{Sends, Sends-asked}
use beastie_boy.Boy.Span.Removal.{EntryAsked, then_is_some}
use beastie_boy.Boy.Client.Connection.{
  Connected, Connected-bind, transact-Connected, opened-Closed, close-bind, close-Closed,
}
use beastie_boy.Boy.Vpp.{make_memif, set_admin_up, Vapi, World}
use beastie_boy.Boy.Vpp.Monad.{crashed, ran, RanEnsures, RanEnsures-map, RanEnsures-and, Triple}
use beastie_boy.Boy.Vpp.Session.{no_context, connected, IsIn}
use beastie_boy.Prelude.{ℕ, true, false, Option, none, some, [], ◌∷◌, ◌≡◌, ◌↔◌}
use beastie_boy.Boy.Memif.Accepted.{
  IsCreated, create_and_bring_up-IsCreated, create_and_bring_up_heeds,
}

set_admin_up_lem :
    (v : Vapi) (index : ℕ) (w : World)
    → IsIn connected w
    → RanEnsures (Sends (set_admin_up index ∷ []) w.calls) (set_interface_admin_up v index w)
unfolding set_interface_admin_up
set_admin_up_lem v index w h =
    let req = set_admin_up index in
    let r = transact v set_flags_cb req w in
    RanEnsures-map (EntryAsked req w.calls) (Sends (req ∷ []) w.calls)
      (elim r [ crashed ↦ crashed | ran a w' ↦ ran (is_some a) w' ]) (Sends-asked req w.calls)
      (then_is_some req w.calls r (transact_lem v set_flags_cb req w h))

bring_up_created-Connected : (v : Vapi) (r : Option ReplyResult) → Connected (bring_up_created v r)
unfolding bring_up_created
bring_up_created-Connected v none w h = h
bring_up_created-Connected v (some r) w h =
    RanEnsures-map (Sends (set_admin_up r.sw_if_index ∷ []) w.calls) (λ _. IsIn connected)
      (set_interface_admin_up v r.sw_if_index w) (λ done w' s. s.0)
      (set_admin_up_lem v r.sw_if_index w h)

create_and_bring_up-Connected :
    (v : Vapi) (options : MemifCreate) → Connected (create_and_bring_up v options)
unfolding create_and_bring_up
create_and_bring_up-Connected v options =
    Connected-bind (transact v unguarded_cb (make_memif options)) _
      (transact-Connected v unguarded_cb (make_memif options)) (bring_up_created-Connected v)

-- On a connected context `boy_create_memif` keeps the connection until its clean-up. It succeeds
-- exactly if both its messages are allocated and VPP accepts both its requests, which are then the only
-- ones: the one for the memif, and the one to set admin-up the interface whose index VPP's last reply
-- to the first carries. VPP accepts a request if it ends without an error and its last reply has
-- `retval` 0. Nothing is said of a run that reads a NULL reply.
pub create_and_bring_up_lem :
    (v : Vapi) (options : MemifCreate) (w : World)
    → IsIn connected w
    → RanEnsures
        (λ done w'. IsIn connected w' × ((done ≡ true) ↔ IsCreated v options w w'))
        (create_and_bring_up v options w)
create_and_bring_up_lem v options w h =
    RanEnsures-and (λ _. IsIn connected) (λ done w'. (done ≡ true) ↔ IsCreated v options w w')
      (create_and_bring_up v options w) (create_and_bring_up-Connected v options w h)
      (RanEnsures-and (λ done w'. done ≡ true → IsCreated v options w w')
        (λ done w'. IsCreated v options w w' → done ≡ true) (create_and_bring_up v options w)
        (create_and_bring_up-IsCreated v options w) (create_and_bring_up_heeds v options w))

-- `boy_create_memif` keeps to the order of calls of libvapi and holds no context at its end, on
-- each path. Nothing is said of a run that reads a NULL reply.
pub create_memif-Closed :
    (v : Vapi) (options : MemifCreate)
    → Triple (IsIn no_context) (create_memif v options) (λ _. IsIn no_context)
unfolding create_memif create_memif_connected
create_memif-Closed v options = opened-Closed v (create_memif_connected v options) false (
    close-bind (create_and_bring_up v options) _ (create_and_bring_up-Connected v options)
      close-Closed)
