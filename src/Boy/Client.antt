-- ===== src/Boy/Client.antt =====
-- boy/vpp_client.c: the connection to VPP, and requests that are answered by one reply.
pub mod Strings
pub mod Errors
pub mod Sessions
pub mod Connection
pub mod Returns
pub mod Rules
pub mod Holding
pub mod Answers
use beastie_boy.Boy.Vpp.{
  VapiError, vapi_ok, Exchange, Call, ctx_alloc, connect, disconnect, ctx_free, alloc_message, send,
  Request, set_admin_up, Reply, World, Vapi,
}
use beastie_boy.Boy.Vpp.Monad.{
  Ran, crashed, ran, M, pure, ◌>>=◌, ◌>>◌, record_call, Called, fails, answers, Callback, Exchanged,
  broken, exchanged, exchange,
}
use beastie_boy.Prelude.{
  ℕ, Bool, true, false, not, Option, none, some, List, [], ◌∷◌, if◌then◌else◌, ◌==◌,
}

abbrev pub is_ok : VapiError → Bool
is_ok vapi_ok = true
is_ok _ = false

-- `boy_open_vapi`; true is the return value 0, and leaves a context.
unfoldable pub open_vapi : Vapi → M Bool
open_vapi v w =
    let allocated = v.allocs_ctx w.calls in
    let calls = ctx_alloc allocated ∷ w.calls in
    let connected = v.connects calls in
    if is_ok allocated
    then (if is_ok connected
        then ran true (record w { calls = connect connected ∷ calls })
        else ran false (record w { calls = ctx_free ∷ (connect connected ∷ calls) }))
    else ran false (record w { calls = calls })

-- `boy_close_vapi`; the Boolean says whether there is a context.
unfoldable pub close_vapi : Bool → M (Unit {0})
close_vapi false w = ran tt w
close_vapi true w = ran tt (record w { calls = ctx_free ∷ (disconnect ∷ w.calls) })

-- `boy_simple_reply_result_t` and `boy_memif_create_result_t`, all zero at first.
pub record ReplyResult : Type 0 where
  pub received_reply : Bool
  pub retval : ℕ
  pub sw_if_index : ℕ

abbrev pub no_reply : ReplyResult
no_reply = record { received_reply = false; retval = 0; sw_if_index = 0 }

abbrev pub received : Reply → ReplyResult
received r = record { received_reply = true; retval = r.retval; sw_if_index = r.sw_if_index }

-- `boy_sw_interface_set_flags_cb`
unfoldable pub set_flags_cb : Callback Reply ReplyResult
set_flags_cb rv is_last none s = if is_ok rv then answers vapi_ok s else answers rv s
set_flags_cb rv is_last (some r) s = if is_ok rv then answers vapi_ok (received r) else answers rv s

-- `boy_span_enable_disable_cb` and `boy_memif_create_cb` read the reply without a test.
unfoldable pub unguarded_cb : Callback Reply ReplyResult
unguarded_cb rv is_last none s = if is_ok rv then fails else answers rv s
unguarded_cb rv is_last (some r) s = if is_ok rv then answers vapi_ok (received r) else answers rv s

-- The three tests after a request: its error code, whether a reply came, and the reply's `retval`.
unfoldable pub check_reply : Exchanged ReplyResult → M (Option ReplyResult)
check_reply broken w = crashed
check_reply (exchanged err r) w =
    if is_ok err
    then (if r.received_reply
        then (if r.retval == 0 then ran (some r) w else ran none w)
        else ran none w)
    else ran none w

-- The body of `boy_set_interface_admin_up`, `boy_set_span_entry` and `boy_create_memif`: a message is
-- allocated, filled in and sent, and the reply is checked. `none` is a failure.
unfoldable pub transact : Vapi → Callback Reply ReplyResult → Request → M (Option ReplyResult)
transact v cb req w =
    let allocated = v.allocs_message w.calls req in
    let calls = alloc_message req allocated ∷ w.calls in
    let calls' = send req ∷ calls in
    if allocated
    then check_reply (exchange cb (v.replies calls req) no_reply) (record w { calls = calls' })
    else ran none (record w { calls = calls })

abbrev pub is_some {ℓ} : {A : Type ℓ} → Option A → Bool
is_some none = false
is_some (some a) = true

-- `boy_set_interface_admin_up`; true is the return value 0.
unfoldable pub set_interface_admin_up : Vapi → ℕ → M Bool
set_interface_admin_up v sw_if_index = do
  r ← transact v set_flags_cb (set_admin_up sw_if_index)
  pure (is_some r)
