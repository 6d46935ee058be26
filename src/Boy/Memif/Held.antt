-- ===== src/Boy/Memif/Held.antt =====
-- boy_create_memif comes to an end with no context held and no memory taken.
use beastie_boy.Boy.Cli.{MemifCreate}
use beastie_boy.Boy.Client.{ReplyResult, unguarded_cb, transact}
use beastie_boy.Boy.Client.Holding.{holding_rules, IsClean, opened-IsClean, close-Ends}
use beastie_boy.Boy.Client.Returns.{HasReplies}
use beastie_boy.Boy.Client.Rules.{Rules}
use beastie_boy.Boy.Memif.{
  bring_up_created, create_and_bring_up, create_memif_connected, create_memif,
}
use beastie_boy.Boy.Span.Requests.{set_interface_admin_up-holds}
use beastie_boy.Boy.Vpp.{Call, Request, make_memif, Vapi}
use beastie_boy.Boy.Vpp.Ends.{Ends-bind, Holding}
use beastie_boy.Boy.Vpp.Session.{no_context, connected}
use beastie_boy.Prelude.{false, Option, none, some, List}

-- What holds of single requests holds of the command, up to its clean-up.
pub create_and_bring_up-holds :
    (v : Vapi) (r : Rules v) (options : MemifCreate) → r.holds (create_and_bring_up v options)
unfolding create_and_bring_up bring_up_created
create_and_bring_up-holds v r options =
    r.on_bind (transact v unguarded_cb (make_memif options)) _ (r.on_unguarded (make_memif options))
      rest
  where
    rest : (a : Option ReplyResult) → r.holds (bring_up_created v a)
    rest none = r.on_pure false
    rest (some a) = set_interface_admin_up-holds v r a.sw_if_index

pub create_memif-IsClean :
    (v : Vapi) (options : MemifCreate)
    → ((calls : List Call) (req : Request) → HasReplies (v.replies calls req))
    → IsClean (create_memif v options)
unfolding create_memif create_memif_connected
create_memif-IsClean v options replies =
    opened-IsClean v (create_memif_connected v options) false (λ n.
      Ends-bind (Holding connected n) (λ _. Holding connected n) (λ _. Holding no_context n)
        (create_and_bring_up v options) _
        (create_and_bring_up-holds v (holding_rules v replies n) options) (close-Ends n))
