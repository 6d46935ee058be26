-- ===== src/Boy/Client/Holding.antt =====
-- Requests and connections of boy/vpp_client.c with what they keep: they end, the session goes on in
-- order, and the memory in use stays the same.
use beastie_boy.Boy.Client.{
  is_ok, ReplyResult, no_reply, set_flags_cb, unguarded_cb, open_vapi, close_vapi, transact,
}
use beastie_boy.Boy.Client.Returns.{
  Finishes, Any, HasReplies, transact-Total, unguarded_cb-IsExchanged, set_flags_cb-IsExchanged,
}
use beastie_boy.Boy.Client.Rules.{Rules}
use beastie_boy.Boy.Client.Sessions.{check_reply-calls}
use beastie_boy.Boy.Vpp.{Call, ctx_alloc, alloc_message, send, Request, Reply, Vapi, World}
use beastie_boy.Boy.Vpp.Ends.{EndsIn, Ends, Ends-bind, Holding, Keeps, Keeps-pure, Keeps-bind}
use beastie_boy.Boy.Vpp.Monad.{
  Ran, crashed, ran, M, pure, ◌>>=◌, Callback, exchange, RanEnsures, Triple,
}
use beastie_boy.Boy.Vpp.Session.{no_context, connected, after_call, session}
use beastie_boy.Prelude.{
  ℕ, Bool, true, false, List, ◌∷◌, if◌then◌else◌, arith, Bool-cases, inl, inr,
}

-- What holds unless the command crashes holds of a command that ends.
pub EndsIn-Finishes :
    {A : Type 0} (P : A → World → Type 0) (Q : A → Type 0) (r : Ran A)
    → RanEnsures P r
    → Finishes Q r
    → EndsIn P r
EndsIn-Finishes P Q crashed p q = q
EndsIn-Finishes P Q (ran a w) p q = p

pub transact-Holding :
    (v : Vapi) (cb : Callback Reply ReplyResult) (req : Request) (n : ℕ)
    → Triple (Holding connected n) (transact v cb req) (λ _. Holding connected n)
unfolding transact session after_call
transact-Holding v cb req n w h =
    let in_session = h.session in
    let calls = alloc_message req true ∷ w.calls in
    elim (Bool-cases (v.allocs_message w.calls req)) [
      | inl e ↦ rw e (
          check_reply-calls (Holding connected n) (exchange cb (v.replies calls req) no_reply)
            (record w { calls = send req ∷ calls })
            (record { session = ground arith; live = h.live }))
      | inr e ↦ rw e (record { session = ground arith; live = h.live })
    ]

-- A request for which each success has a reply.
abbrev pub holding_rules :
    (v : Vapi)
    → ((calls : List Call) (req : Request) → HasReplies (v.replies calls req))
    → ℕ
    → Rules v
holding_rules v replies n = record {
  holds = Keeps connected n;
  on_pure = Keeps-pure connected n;
  on_bind = Keeps-bind connected n;
  on_unguarded = λ req w h.
      EndsIn-Finishes (λ _. Holding connected n) Any (transact v unguarded_cb req w)
        (transact-Holding v unguarded_cb req n w h)
        (transact-Total v unguarded_cb req
          (λ calls. unguarded_cb-IsExchanged (v.replies calls req) no_reply (replies calls req)) w);
  on_set_flags = λ req w h.
      EndsIn-Finishes (λ _. Holding connected n) Any (transact v set_flags_cb req w)
        (transact-Holding v set_flags_cb req n w h)
        (transact-Total v set_flags_cb req
          (λ calls. set_flags_cb-IsExchanged (v.replies calls req) no_reply) w);
}

open_vapi-Ends :
    (v : Vapi) (n : ℕ)
    → Ends
        (Holding no_context n)
        (open_vapi v)
        (λ opened. Holding (if opened then connected else no_context) n)
unfolding open_vapi session after_call
open_vapi-Ends v n w h =
    let in_session = h.session in
    let calls = ctx_alloc (v.allocs_ctx w.calls) ∷ w.calls in
    elim (Bool-cases (is_ok (v.allocs_ctx w.calls))) [
      | inl e ↦ elim (Bool-cases (is_ok (v.connects calls))) [
        | inl f ↦ simp (e, f) (record { session = ground arith; live = h.live })
        | inr f ↦ simp (e, f) (record { session = ground arith; live = h.live })
      ]
      | inr e ↦ simp e (record { session = ground arith; live = h.live })
    ]

-- A command that ends with no context and the memory it began with.
abbrev pub IsClean : {A : Type 0} → M A → Type 0
IsClean m = (n : ℕ) → Keeps no_context n m

-- A command on a connection that it opens.
pub opened-IsClean :
    {A : Type 0} (v : Vapi) (m : M A) (failed : A)
    → ((n : ℕ) → Ends (Holding connected n) m (λ _. Holding no_context n))
    → IsClean (open_vapi v >>= λ opened. if opened then m else pure failed)
opened-IsClean v m failed h n =
    Ends-bind (Holding no_context n)
      (λ opened. Holding (if opened then connected else no_context) n) (λ _. Holding no_context n)
      (open_vapi v) _ (open_vapi-Ends v n) rest
  where
    rest :
        (opened : Bool)
        → Ends
            (Holding (if opened then connected else no_context) n)
            (if opened then m else pure failed)
            (λ _. Holding no_context n)
    rest true w k = h n w k
    rest false w k = k

-- The end of a command.
pub close-Ends :
    {A : Type 0} (n : ℕ) (done : A)
    → Ends (Holding connected n) (close_vapi true >>= λ _. pure done) (λ _. Holding no_context n)
unfolding close_vapi session after_call
close-Ends n done w h =
    let in_session = h.session in record { session = ground arith; live = h.live }
