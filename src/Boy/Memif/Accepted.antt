-- ===== src/Boy/Memif/Accepted.antt =====
-- Which answers of VPP make boy_create_memif of boy/commands/memif_cmd.c succeed.
use beastie_boy.Boy.Cli.{MemifCreate}
use beastie_boy.Boy.Client.{
  ReplyResult, received, set_flags_cb, unguarded_cb, transact, is_some, set_interface_admin_up,
}
use beastie_boy.Boy.Client.Answers.{Accepts, set_flags_cb-Stores, unguarded_cb-Stores}
use beastie_boy.Boy.Client.Answers.Requests.{
  Succeeded, IfSome, transact-Succeeded, Heeds, transact-Heeds,
}
use beastie_boy.Boy.Memif.{bring_up_created, create_and_bring_up}
use beastie_boy.Boy.Vpp.{
  Request, make_memif, set_admin_up, Vapi, World, Call, alloc_message, send, Exchange, Reply,
}
use beastie_boy.Boy.Vpp.Monad.{pure, RanEnsures, RanEnsures-map, RanEnsures-bind}
use beastie_boy.Prelude.{
  ℕ, true, false, Option, none, some, List, ◌∷◌, ◌≡◌, sym, ap, inl, inr, ◌⊎◌, ◌∙◌,
}

-- The calls made once a request is sent in a message that was allocated.
abbrev pub after_sending : Request → List Call → List Call
after_sending req calls = send req ∷ (alloc_message req true ∷ calls)

-- What VPP does when it is sent a request after these calls.
abbrev pub exchange_of : Vapi → Request → List Call → Exchange Reply
exchange_of v req calls = v.replies (alloc_message req true ∷ calls) req

-- What success means: VPP accepted the request to make the memif, and then the request to set the
-- interface admin-up whose index stood in its reply. No other call was made.
pub record IsCreated (v : Vapi) (options : MemifCreate) (before : World) (w : World) : Type 0 where
  pub reply : Reply
  pub made : Accepts (exchange_of v (make_memif options) before.calls) reply
  pub last_reply : Reply
  pub is_up :
      Accepts
        (exchange_of v
          (set_admin_up reply.sw_if_index)
          (after_sending (make_memif options) before.calls))
        last_reply
  pub calls :
      w.calls
      ≡ after_sending
          (set_admin_up reply.sw_if_index)
          (after_sending (make_memif options) before.calls)

-- Setting an interface admin-up succeeds only if VPP accepts the request.
record IsAccepted (v : Vapi) (index : ℕ) (before : World) (w : World) : Type 0 where
  reply : Reply
  accepts : Accepts (exchange_of v (set_admin_up index) before.calls) reply
  calls : w.calls ≡ after_sending (set_admin_up index) before.calls

not_sent :
    {req req' : Request} {calls calls' : List Call}
    → ¬ (alloc_message req false ∷ calls ≡ send req' ∷ calls')
not_sent e = cc

set_admin_up-IsAccepted :
    (v : Vapi) (index : ℕ) (w : World)
    → RanEnsures
        (λ done w'. done ≡ true → IsAccepted v index w w')
        (set_interface_admin_up v index w)
unfolding set_interface_admin_up
set_admin_up-IsAccepted v index w =
    RanEnsures-bind (IfSome (Succeeded v (set_admin_up index) w))
      (λ done w'. done ≡ true → IsAccepted v index w w')
      (transact v set_flags_cb (set_admin_up index) w) (λ r. pure (is_some r)) told
      (transact-Succeeded v set_flags_cb set_flags_cb-Stores (set_admin_up index) w)
  where
    told :
        (r : Option ReplyResult) (w₁ : World)
        → IfSome (Succeeded v (set_admin_up index) w) r w₁
        → is_some r ≡ true
        → IsAccepted v index w w₁
    told none w₁ s d = cc
    told (some r) w₁ s d = record { reply = s.reply; accepts = s.accepts; calls = s.calls }

pub create_and_bring_up-IsCreated :
    (v : Vapi) (options : MemifCreate) (w : World)
    → RanEnsures
        (λ done w'. done ≡ true → IsCreated v options w w')
        (create_and_bring_up v options w)
unfolding create_and_bring_up bring_up_created
create_and_bring_up-IsCreated v options w =
    RanEnsures-bind (IfSome (Succeeded v (make_memif options) w))
      (λ done w'. done ≡ true → IsCreated v options w w')
      (transact v unguarded_cb (make_memif options) w) (bring_up_created v) told
      (transact-Succeeded v unguarded_cb unguarded_cb-Stores (make_memif options) w)
  where
    told :
        (r : Option ReplyResult) (w₁ : World)
        → IfSome (Succeeded v (make_memif options) w) r w₁
        → RanEnsures (λ done w'. done ≡ true → IsCreated v options w w') (bring_up_created v r w₁)
    told none w₁ s = λ d. cc
    told (some r) w₁ s =
        RanEnsures-map (λ done w'. done ≡ true → IsAccepted v r.sw_if_index w₁ w')
          (λ done w'. done ≡ true → IsCreated v options w w')
          (set_interface_admin_up v r.sw_if_index w₁) (λ done w' up d. both r w₁ w' s (up d))
          (set_admin_up-IsAccepted v r.sw_if_index w₁)
      where
        both :
            (r : ReplyResult) (w₁ w' : World)
            → Succeeded v (make_memif options) w r w₁
            → IsAccepted v r.sw_if_index w₁ w'
            → IsCreated v options w w'
        both r w₁ w' s u =
            let e : r.sw_if_index ≡ s.reply.sw_if_index =
              ap (λ q. ReplyResult.sw_if_index q) s.result in
            record {
              reply = s.reply;
              made = s.accepts;
              last_reply = u.reply;
              is_up = rw (sym e, sym s.calls) u.accepts;
              calls = rw (sym e, sym s.calls) u.calls;
            }

-- If VPP accepts the request to set an interface admin-up, that succeeds.
set_admin_up_heeds :
    (v : Vapi) (index : ℕ) (w : World)
    → RanEnsures
        (λ done w'. IsAccepted v index w w' → done ≡ true)
        (set_interface_admin_up v index w)
unfolding set_interface_admin_up
set_admin_up_heeds v index w =
    RanEnsures-bind _ (λ done w'. IsAccepted v index w w' → done ≡ true)
      (transact v set_flags_cb (set_admin_up index) w) (λ r. pure (is_some r)) told
      (transact-Heeds v set_flags_cb set_flags_cb-Stores (set_admin_up index) w)
  where
    told :
        (r : Option ReplyResult) (w₁ : World)
        → ((r ≡ none) × (w₁.calls ≡ alloc_message (set_admin_up index) false ∷ w.calls))
          ⊎ Heeds v (set_admin_up index) w r w₁
        → IsAccepted v index w w₁
        → is_some r ≡ true
    told r w₁ (inl (n, c)) a = absurd (not_sent (sym c ∙ a.calls))
    told r w₁ (inr h) a = ap is_some (h.heeds a.reply a.accepts)

pub create_and_bring_up_heeds :
    (v : Vapi) (options : MemifCreate) (w : World)
    → RanEnsures
        (λ done w'. IsCreated v options w w' → done ≡ true)
        (create_and_bring_up v options w)
unfolding create_and_bring_up bring_up_created
create_and_bring_up_heeds v options w =
    RanEnsures-bind _ (λ done w'. IsCreated v options w w' → done ≡ true)
      (transact v unguarded_cb (make_memif options) w) (bring_up_created v) told
      (transact-Heeds v unguarded_cb unguarded_cb-Stores (make_memif options) w)
  where
    up :
        (r : ReplyResult) (w₁ w' : World)
        → Heeds v (make_memif options) w (some r) w₁
        → IsCreated v options w w'
        → IsAccepted v r.sw_if_index w₁ w'
    up r w₁ w' h c =
        let e : r.sw_if_index ≡ c.reply.sw_if_index = index_of (h.heeds c.reply c.made) in
        record {
          reply = c.last_reply;
          accepts = rw (e, h.calls) c.is_up;
          calls = rw (e, h.calls) c.calls;
        }
      where
        index_of : some r ≡ some (received c.reply) → r.sw_if_index ≡ c.reply.sw_if_index
        index_of e = cc

    told :
        (r : Option ReplyResult) (w₁ : World)
        → ((r ≡ none) × (w₁.calls ≡ alloc_message (make_memif options) false ∷ w.calls))
          ⊎ Heeds v (make_memif options) w r w₁
        → RanEnsures (λ done w'. IsCreated v options w w' → done ≡ true) (bring_up_created v r w₁)
    told none w₁ (inl (n, c)) = λ a. absurd (not_sent (sym c ∙ a.calls))
    told none w₁ (inr h) = λ a. absurd (let e = h.heeds a.reply a.made in cc)
    told (some r) w₁ (inl (n, c)) = absurd (cc)
    told (some r) w₁ (inr h) =
        RanEnsures-map (λ done w'. IsAccepted v r.sw_if_index w₁ w' → done ≡ true)
          (λ done w'. IsCreated v options w w' → done ≡ true)
          (set_interface_admin_up v r.sw_if_index w₁) (λ done w' f c. f (up r w₁ w' h c))
          (set_admin_up_heeds v r.sw_if_index w₁)
