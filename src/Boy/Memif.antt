-- ===== src/Boy/Memif.antt =====
-- boy_create_memif of boy/commands/memif_cmd.c. What it logs is left out.
pub mod Accepted
pub mod Created
pub mod Held
use beastie_boy.Boy.Cli.{MemifCreate}
use beastie_boy.Boy.Client.{
  open_vapi, close_vapi, ReplyResult, unguarded_cb, transact, set_interface_admin_up,
}
use beastie_boy.Boy.Vpp.{make_memif, Vapi}
use beastie_boy.Boy.Vpp.Monad.{M, pure, ◌>>=◌}
use beastie_boy.Prelude.{Bool, true, false, Option, none, some, if◌then◌else◌}

-- What follows the reply of `memif_create`; `none` is a jump to `cleanup` before it.
unfoldable pub bring_up_created : Vapi → Option ReplyResult → M Bool
bring_up_created v none = pure false
bring_up_created v (some r) = set_interface_admin_up v r.sw_if_index

-- `boy_create_memif` on an open connection, up to its label `cleanup`. The other fields of the message
-- are constants of the code: a master in Ethernet mode with one queue each way.
unfoldable pub create_and_bring_up : Vapi → MemifCreate → M Bool
create_and_bring_up v options = do
  r ← transact v unguarded_cb (make_memif options)
  bring_up_created v r

unfoldable pub create_memif_connected : Vapi → MemifCreate → M Bool
create_memif_connected v options = do
  done ← create_and_bring_up v options
  _ ← close_vapi true
  pure done

-- `boy_create_memif`
unfoldable pub create_memif : Vapi → MemifCreate → M Bool
create_memif v options = do
  opened ← open_vapi v
  if opened then create_memif_connected v options else pure false
