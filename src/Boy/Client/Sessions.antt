-- ===== src/Boy/Client/Sessions.antt =====
-- How the functions of boy/vpp_client.c use their connection, and which requests they send.
use beastie_boy.Boy.Vpp.{Call, alloc_message, send, Request, Reply, World, Vapi}
use beastie_boy.Boy.Vpp.Monad.{
  Callback, Exchanged, broken, exchanged, exchange, RanEnsures, RanEnsures-map, Triple,
}
use beastie_boy.Boy.Vpp.Session.{no_context, connected, after_call, session, IsIn, sent}
use beastie_boy.Boy.Client.{
  is_ok, open_vapi, close_vapi, ReplyResult, no_reply, check_reply, transact,
}
use beastie_boy.Prelude.{
  true, Option, none, List, [], ◌∷◌, ◌++◌, if◌then◌else◌, ◌≡◌, ◌⊎◌, ◌==◌, refl, arith, Bool-cases,
  inl, inr,
}

-- With no context held, `boy_open_vapi` leaves a connected context if it succeeds and none if it fails.
pub open_vapi_lem :
    (v : Vapi)
    → Triple
        (IsIn no_context)
        (open_vapi v)
        (λ opened. IsIn (if opened then connected else no_context))
unfolding open_vapi session after_call
open_vapi_lem v w h = ground arith

pub close_vapi_lem : Triple (IsIn connected) (close_vapi true) (λ _. IsIn no_context)
unfolding close_vapi session after_call
close_vapi_lem w h = ground arith

pub check_reply-calls :
    (P : World → Type 0) (e : Exchanged ReplyResult) (w : World)
    → P w
    → RanEnsures (λ r w'. P w') (check_reply e w)
unfolding check_reply
check_reply-calls P broken w h = tt
check_reply-calls P (exchanged err r) w h = elim (Bool-cases (is_ok err)) [
  | inl e ↦ elim (Bool-cases r.received_reply) [
    | inl f ↦ elim (Bool-cases (r.retval == 0)) [
      | inl g ↦ simp (e, f, g) h
      | inr g ↦ simp (e, f, g) h
    ]
    | inr f ↦ simp (e, f) h
  ]
  | inr e ↦ simp e h
]

-- What a request leaves: the connection, and itself as the one request sent, unless its message could
-- not be allocated.
pub record Asked (req : Request) (before : List Call) (r : Option ReplyResult) (w : World)
    : Type 0 where
  pub connection : IsIn connected w
  pub request :
      (sent w.calls ≡ sent before ++ (req ∷ [])) ⊎ ((r ≡ none) × (sent w.calls ≡ sent before))

check_reply-Asked :
    (req : Request) (before : List Call) (e : Exchanged ReplyResult) (w : World)
    → IsIn connected w
    → sent w.calls ≡ sent before ++ (req ∷ [])
    → RanEnsures (Asked req before) (check_reply e w)
check_reply-Asked req before e w h k =
    RanEnsures-map (λ r w'. IsIn connected w' × (sent w'.calls ≡ sent before ++ (req ∷ [])))
      (Asked req before) (check_reply e w)
      (λ r w' p. record { connection = p.0; request = inl p.1 })
      (check_reply-calls (λ w'. IsIn connected w' × (sent w'.calls ≡ sent before ++ (req ∷ []))) e w
        (h, k))

-- A request on a connected context leaves it connected, whatever VPP answers. It is the one message
-- sent, or its allocation failed and nothing was sent, which is a failure. Nothing is said of a run
-- that reads a NULL reply.
pub transact_lem :
    (v : Vapi) (cb : Callback Reply ReplyResult) (req : Request) (w : World)
    → IsIn connected w
    → RanEnsures (Asked req w.calls) (transact v cb req w)
unfolding transact session after_call sent
transact_lem v cb req w h = elim (Bool-cases (v.allocs_message w.calls req)) [
  | inl e ↦
      let calls = alloc_message req true ∷ w.calls in
      rw e (
        check_reply-Asked req w.calls (exchange cb (v.replies calls req) no_reply)
          (record w { calls = send req ∷ calls }) (ground arith) refl)
  | inr e ↦ rw e (record { connection = ground arith; request = inr (refl, refl) })
]
