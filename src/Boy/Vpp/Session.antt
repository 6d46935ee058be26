-- ===== src/Boy/Vpp/Session.antt =====
-- The order of the calls of libvapi: a context is allocated, connected, used, disconnected and freed.
use beastie_boy.Boy.Vpp.{
  vapi_ok, Call, ctx_alloc, connect, disconnect, ctx_free, alloc_message, send, Request, World,
}
use beastie_boy.Prelude.{true, false, Option, none, some, List, [], ◌∷◌, ◌++◌, ◌≡◌}

-- What boy holds: no context, one that is not connected, one that is, and a message besides.
pub data Session : Type 0 where
  no_context allocated connected with_message : Session

-- What a call does to it; `none` is a call that is out of order.
unfoldable pub after_call : Call → Session → Option Session
after_call (ctx_alloc vapi_ok) no_context = some allocated
after_call (ctx_alloc err) no_context = some no_context
after_call (connect vapi_ok) allocated = some connected
after_call (connect err) allocated = some allocated
after_call disconnect connected = some allocated
after_call ctx_free allocated = some no_context
after_call (alloc_message r true) connected = some with_message
after_call (alloc_message r false) connected = some connected
after_call (send r) with_message = some connected
after_call _ _ = none

-- The session after a list of calls, last one first.
unfoldable pub session : List Call → Option Session
session [] = some no_context
session (c ∷ calls) = elim (session calls) [ none ↦ none | some s ↦ after_call c s ]

abbrev pub IsIn : Session → World → Type 0
IsIn s w = session w.calls ≡ some s

-- The requests that were sent, in order.
unfoldable pub sent : List Call → List Request
sent [] = []
sent (send r ∷ calls) = sent calls ++ (r ∷ [])
sent (_ ∷ calls) = sent calls
