-- ===== src/Boy/Client/Answers.antt =====
-- When a request of boy/ that has one reply succeeds, in terms of what VPP does during the request.
pub mod Requests
use beastie_boy.Boy.Client.{
  is_ok, ReplyResult, no_reply, received, set_flags_cb, unguarded_cb, check_reply, transact,
}
use beastie_boy.Boy.Vpp.{
  VapiError, vapi_ok, Exchange, ends, calls_back, Request, Reply, alloc_message, send, Vapi, World,
}
use beastie_boy.Boy.Vpp.Monad.{
  Called, fails, answers, Callback, Exchanged, broken, exchanged, exchange, RanEnsures,
  RanEnsures-map,
}
use beastie_boy.Prelude.{
  Bool, true, false, Option, none, some, ◌∷◌, ◌==◌, ◌≡◌, refl, arith, Bool-cases, inl, inr, ap, ◌⊎◌,
  ◌∙◌, sym,
}

-- The error code that an exchange ends with, if each callback returns the code that it was given.
pub final_error : Exchange Reply → VapiError
final_error (ends err) = err
final_error (calls_back rv is_last reply next) = final_error (next rv)

-- Of two replies the later one, if there is one.
abbrev later : Option Reply → Option Reply → Option Reply
later (some r) earlier = some r
later none earlier = earlier

abbrev delivered : Bool → Option Reply → Option Reply
delivered true reply = reply
delivered false reply = none

-- The last reply that came with VAPI_OK, in such an exchange.
pub last_reply : Exchange Reply → Option Reply
last_reply (ends err) = none
last_reply (calls_back rv is_last reply next) =
    later (last_reply (next rv)) (delivered (is_ok rv) reply)

-- VPP accepts a request: the exchange ends without an error, and the last reply has `retval` 0.
pub record Accepts (e : Exchange Reply) (r : Reply) : Type 0 where
  pub ended : final_error e ≡ vapi_ok
  pub last : last_reply e ≡ some r
  pub accepted : r.retval ≡ 0

pub is_ok-eq : (rv : VapiError) → is_ok rv ≡ true → rv ≡ vapi_ok
is_ok-eq vapi_ok h = refl
is_ok-eq _ h = cc

abbrev pub stored : Option Reply → ReplyResult → ReplyResult
stored none s = s
stored (some r) s = received r

-- A callback that returns its code and stores the replies that come with VAPI_OK.
abbrev StoresIn : VapiError → Option Reply → ReplyResult → Called ReplyResult → Type 0
StoresIn rv reply s fails = Unit
StoresIn rv reply s (answers err s') = (err ≡ rv) × (s' ≡ stored (delivered (is_ok rv) reply) s)

abbrev pub Stores : Callback Reply ReplyResult → Type 0
Stores cb =
    (rv : VapiError) (is_last : Bool) (reply : Option Reply) (s : ReplyResult)
    → StoresIn rv reply s (cb rv is_last reply s)

pub set_flags_cb-Stores : Stores set_flags_cb
unfolding set_flags_cb
set_flags_cb-Stores vapi_ok is_last none s = (refl, refl)
set_flags_cb-Stores vapi_ok is_last (some r) s = (refl, refl)
set_flags_cb-Stores _ is_last none s = (refl, refl)
set_flags_cb-Stores _ is_last (some r) s = (refl, refl)

pub unguarded_cb-Stores : Stores unguarded_cb
unfolding unguarded_cb
unguarded_cb-Stores vapi_ok is_last none s = tt
unguarded_cb-Stores vapi_ok is_last (some r) s = (refl, refl)
unguarded_cb-Stores _ is_last none s = (refl, refl)
unguarded_cb-Stores _ is_last (some r) s = (refl, refl)

stored-later : (a b : Option Reply) (s : ReplyResult) → stored a (stored b s) ≡ stored (later a b) s
stored-later none b s = refl
stored-later (some r) none s = refl
stored-later (some r) (some q) s = refl

abbrev pub Recorded : Exchange Reply → ReplyResult → Exchanged ReplyResult → Type 0
Recorded e s broken = Unit
Recorded e s (exchanged err s') = (err ≡ final_error e) × (s' ≡ stored (last_reply e) s)

-- The whole exchange stores its last reply.
pub exchange-Recorded :
    (cb : Callback Reply ReplyResult)
    → Stores cb
    → (e : Exchange Reply) (s : ReplyResult) → Recorded e s (exchange cb e s)
unfolding exchange final_error last_reply
exchange-Recorded cb h (ends err) s = (refl, refl)
exchange-Recorded cb h (calls_back rv is_last reply next) s =
    go (cb rv is_last reply s) (h rv is_last reply s)
      (λ err s'. exchange-Recorded cb h (next err) s')
  where
    carry :
        (s' : ReplyResult) (x : Exchanged ReplyResult)
        → s' ≡ stored (delivered (is_ok rv) reply) s
        → Recorded (next rv) s' x
        → Recorded (calls_back rv is_last reply next) s x
    carry s' broken e p = tt
    carry s' (exchanged err s₁) e (p, q) =
        (p, q ∙ rw e (stored-later (last_reply (next rv)) (delivered (is_ok rv) reply) s))

    go :
        (c : Called ReplyResult)
        → StoresIn rv reply s c
        → ((err : VapiError) (s' : ReplyResult)
            → Recorded (next err) s' (exchange cb (next err) s'))
        → Recorded
            (calls_back rv is_last reply next)
            s
            (elim c [ fails ↦ broken | answers err s' ↦ exchange cb (next err) s' ])
    go fails p rec = tt
    go (answers err s') (e, f) rec = rw e (carry s' (exchange cb (next rv) s') f (rec rv s'))
