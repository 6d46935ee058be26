-- ===== src/Boy/Client/Answers/Requests.antt =====
-- The requests of boy/vpp_client.c, boy/commands/span_cmd.c and boy/commands/memif_cmd.c succeed when
-- VPP accepts them.
use beastie_boy.Boy.Client.{is_ok, ReplyResult, no_reply, received, check_reply, transact}
use beastie_boy.Boy.Vpp.{VapiError, Exchange, Request, Reply, alloc_message, send, Vapi, World}
use beastie_boy.Boy.Vpp.Monad.{
  Callback, Exchanged, broken, exchanged, exchange, RanEnsures, RanEnsures-map,
}
use beastie_boy.Prelude.{
  true, false, Option, none, some, ◌∷◌, ◌==◌, ◌≡◌, refl, arith, Bool-cases, inl, inr, ap, ◌⊎◌, ◌∙◌,
  sym,
}
use beastie_boy.Boy.Client.Answers.{
  Accepts, Stores, stored, Recorded, exchange-Recorded, is_ok-eq, last_reply,
}

-- What a request gives if it succeeds: it was sent in the message that was allocated for it, VPP
-- accepted it, and the result is that of the reply with which it did.
pub record Succeeded (v : Vapi) (req : Request) (before : World) (r : ReplyResult) (w : World)
    : Type 0 where
  pub calls : w.calls ≡ send req ∷ (alloc_message req true ∷ before.calls)
  pub reply : Reply
  pub accepts : Accepts (v.replies (alloc_message req true ∷ before.calls) req) reply
  pub result : r ≡ received reply

abbrev pub IfSome : (ReplyResult → World → Type 0) → Option ReplyResult → World → Type 0
IfSome P none w = Unit
IfSome P (some r) w = P r w

-- The tests on what an exchange stored.
accepted_reply :
    (e : Exchange Reply) (err : VapiError) (r : ReplyResult)
    → Recorded e no_reply (exchanged err r)
    → is_ok err ≡ true
    → r.received_reply ≡ true
    → (r.retval == 0) ≡ true
    → (reply : Reply) × Accepts e reply × (r ≡ received reply)
accepted_reply e err r (p, q) ok got zero = go (last_reply e) refl q
  where
    go :
        (o : Option Reply)
        → last_reply e ≡ o
        → r ≡ stored o no_reply
        → (reply : Reply) × Accepts e reply × (r ≡ received reply)
    go none l f = absurd (cc)
    go (some reply) l f = (
      reply,
      record { ended = rw (sym p) (is_ok-eq err ok); last = l; accepted = ground arith },
      f,
    )

check_reply-IfSome :
    (e : Exchange Reply) (x : Exchanged ReplyResult) (w : World)
    → Recorded e no_reply x
    → RanEnsures
        (IfSome (λ r w'.
          (w'.calls ≡ w.calls) × ((reply : Reply) × Accepts e reply × (r ≡ received reply))))
        (check_reply x w)
unfolding check_reply
check_reply-IfSome e broken w h = tt
check_reply-IfSome e (exchanged err r) w h = elim (Bool-cases (is_ok err)) [
  | inl ok ↦ elim (Bool-cases r.received_reply) [
    | inl got ↦ elim (Bool-cases (r.retval == 0)) [
      | inl zero ↦ simp (ok, got, zero) (refl, accepted_reply e err r h ok got zero)
      | inr bad ↦ simp (ok, got, bad) tt
    ]
    | inr nothing ↦ simp (ok, nothing) tt
  ]
  | inr failed ↦ simp failed tt
]

-- A request succeeds only if VPP accepts it, and then with the reply that VPP gave last.
pub transact-Succeeded :
    (v : Vapi) (cb : Callback Reply ReplyResult)
    → Stores cb
    → (req : Request) (w : World) → RanEnsures (IfSome (Succeeded v req w)) (transact v cb req w)
unfolding transact
transact-Succeeded v cb h req w = elim (Bool-cases (v.allocs_message w.calls req)) [
  | inl e ↦
      let exch = v.replies (alloc_message req true ∷ w.calls) req in
      let w' : World = record w { calls = send req ∷ (alloc_message req true ∷ w.calls) } in
      rw e (
        RanEnsures-map
          (IfSome (λ r w₁.
            (w₁.calls ≡ w'.calls) × ((reply : Reply) × Accepts exch reply × (r ≡ received reply))))
          (IfSome (Succeeded v req w)) (check_reply (exchange cb exch no_reply) w')
          (λ a w₁ p. told a w₁ p)
          (check_reply-IfSome exch (exchange cb exch no_reply) w'
            (exchange-Recorded cb h exch no_reply)))
  | inr e ↦ rw e tt
]
  where
    told :
        (a : Option ReplyResult) (w₁ : World)
        → IfSome
            (λ r w₂.
              (w₂.calls ≡ send req ∷ (alloc_message req true ∷ w.calls))
              × ((reply : Reply) × Accepts (v.replies (alloc_message req true ∷ w.calls) req) reply
                  × (r ≡ received reply)))
            a
            w₁
        → IfSome (Succeeded v req w) a w₁
    told none w₁ p = tt
    told (some r) w₁ (c, (reply, a, e)) = record {
      calls = c;
      reply = reply;
      accepts = a;
      result = e;
    }

-- The other way round: a request whose message is allocated gives the reply with which VPP accepts it.
pub record Heeds (v : Vapi) (req : Request) (before : World) (r : Option ReplyResult) (w : World)
    : Type 0 where
  pub calls : w.calls ≡ send req ∷ (alloc_message req true ∷ before.calls)
  pub heeds :
      (reply : Reply)
      → Accepts (v.replies (alloc_message req true ∷ before.calls) req) reply
      → r ≡ some (received reply)

check_reply_heeds :
    (e : Exchange Reply) (x : Exchanged ReplyResult) (w : World)
    → Recorded e no_reply x
    → RanEnsures
        (λ r w'.
          (w'.calls ≡ w.calls) × ((reply : Reply) → Accepts e reply → r ≡ some (received reply)))
        (check_reply x w)
unfolding check_reply
check_reply_heeds e broken w h = tt
check_reply_heeds e (exchanged err r) w (p, q) = elim (Bool-cases (is_ok err)) [
  | inl ok ↦ elim (Bool-cases r.received_reply) [
    | inl got ↦ elim (Bool-cases (r.retval == 0)) [
      | inl zero ↦ simp (ok, got, zero) (refl, λ reply a. ap some (is_received reply a))
      | inr bad ↦ simp (ok, got, bad) (refl, λ reply a. absurd (bad_retval reply a bad))
    ]
    | inr nothing ↦ simp (ok, nothing) (refl, λ reply a. absurd (unreceived reply a nothing))
  ]
  | inr failed ↦ simp failed (refl, λ reply a. absurd (not_ended reply a failed))
]
  where
    is_received : (reply : Reply) → Accepts e reply → r ≡ received reply
    is_received reply a = q ∙ ap (λ o. stored o no_reply) a.last

    bad_retval : (reply : Reply) → Accepts e reply → (r.retval == 0) ≡ false → ⊥
    bad_retval reply a bad =
        let f : r.retval ≡ reply.retval = ap (λ s. ReplyResult.retval s) (is_received reply a) in
        let z = a.accepted in ground arith

    unreceived : (reply : Reply) → Accepts e reply → r.received_reply ≡ false → ⊥
    unreceived reply a nothing =
        let f : r.received_reply ≡ true =
          ap (λ s. ReplyResult.received_reply s) (is_received reply a) in
        cc

    not_ended : (reply : Reply) → Accepts e reply → is_ok err ≡ false → ⊥
    not_ended reply a failed = let f : is_ok err ≡ true = ap is_ok (p ∙ a.ended) in cc

pub transact-Heeds :
    (v : Vapi) (cb : Callback Reply ReplyResult)
    → Stores cb
    → (req : Request) (w : World)
    → RanEnsures
        (λ r w'. ((r ≡ none) × (w'.calls ≡ alloc_message req false ∷ w.calls)) ⊎ Heeds v req w r w')
        (transact v cb req w)
unfolding transact
transact-Heeds v cb h req w = elim (Bool-cases (v.allocs_message w.calls req)) [
  | inl e ↦
      let exch = v.replies (alloc_message req true ∷ w.calls) req in
      let w' : World = record w { calls = send req ∷ (alloc_message req true ∷ w.calls) } in
      rw e (
        RanEnsures-map
          (λ r w₁.
            (w₁.calls ≡ w'.calls)
            × ((reply : Reply) → Accepts exch reply → r ≡ some (received reply)))
          _ (check_reply (exchange cb exch no_reply) w')
          (λ r w₁ p. inr (record { calls = p.0; heeds = p.1 }))
          (check_reply_heeds exch (exchange cb exch no_reply) w'
            (exchange-Recorded cb h exch no_reply)))
  | inr e ↦ rw e (inl (refl, refl))
]
