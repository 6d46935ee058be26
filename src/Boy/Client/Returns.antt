-- ===== src/Boy/Client/Returns.antt =====
-- When the requests of boy come to an end and use no NULL reply.
use beastie_boy.Boy.Client.{
  is_ok, ReplyResult, no_reply, set_flags_cb, unguarded_cb, check_reply, transact,
}
use beastie_boy.Boy.Client.Rules.{Rules}
use beastie_boy.Boy.Vpp.{VapiError, Exchange, ends, calls_back, Call, Request, Reply, Vapi, World}
use beastie_boy.Boy.Vpp.Ends.{EndsIn}
use beastie_boy.Boy.Vpp.Monad.{
  Ran, crashed, ran, M, pure, ◌>>=◌, Called, fails, answers, Callback, Exchanged, broken, exchanged,
  exchange,
}
use beastie_boy.Prelude.{
  ℕ, zero, suc, Bool, true, false, Option, none, some, List, ◌==◌, if◌then◌else◌, ◌≡◌, inl, inr,
  Bool-cases,
}

-- A command that has ended, with a property of its result.
abbrev pub Finishes : {A : Type 0} → (A → Type 0) → Ran A → Type 0
Finishes Q crashed = ⊥
Finishes Q (ran a w) = Q a

abbrev pub Total : {A : Type 0} → (A → Type 0) → M A → Type 0
Total Q m = (w : World) → Finishes Q (m w)

pub EndsIn-result :
    {A : Type 0} (P : A → World → Type 0) (Q : A → Type 0) (r : Ran A)
    → ((a : A) (w : World) → P a w → Q a)
    → EndsIn P r
    → Finishes Q r
EndsIn-result P Q crashed f p = p
EndsIn-result P Q (ran a w) f p = f a w p

abbrev pub Any : {A : Type 0} → A → Type 0
Any a = Unit

pub Total-bind :
    {A B : Type 0} (P : A → Type 0) (Q : B → Type 0) (m : M A) (f : A → M B)
    → Total P m
    → ((a : A) → P a → Total Q (f a))
    → Total Q (m >>= f)
Total-bind {A} {B} P Q m f h k w = go (m w) (h w)
  where
    go : (r : Ran A) → Finishes P r → Finishes Q (elim r [ crashed ↦ crashed | ran a w' ↦ f a w' ])
    go crashed p = p
    go (ran a w') p = k a p w'

pub Total-if :
    {A : Type 0} (Q : A → Type 0) (b : Bool) (m n : M A)
    → Total Q m
    → Total Q n
    → Total Q (if b then m else n)
Total-if Q true m n p q = p
Total-if Q false m n p q = q

-- A callback that is told of success is given a reply.
abbrev pub HasReplies : {D : Type 0} → Exchange D → Type 0
HasReplies (ends err) = Unit
HasReplies (calls_back rv is_last none next) =
    (is_ok rv ≡ false) × ((err : VapiError) → HasReplies (next err))
HasReplies (calls_back rv is_last (some r) next) = (err : VapiError) → HasReplies (next err)

-- An exchange calls back at most n times.
abbrev pub AtMost : {D : Type 0} → ℕ → Exchange D → Type 0
AtMost n (ends err) = Unit
AtMost zero (calls_back rv is_last reply next) = ⊥
AtMost (suc n) (calls_back rv is_last reply next) = (err : VapiError) → AtMost n (next err)

abbrev pub IsExchanged : {S : Type 0} → (S → Type 0) → Exchanged S → Type 0
IsExchanged P broken = ⊥
IsExchanged P (exchanged err s) = P s

abbrev pub IsAnswered : {S : Type 0} → (S → Type 0) → Called S → Type 0
IsAnswered P fails = ⊥
IsAnswered P (answers err s) = P s

-- One call back, and the rest of the exchange.
pub IsExchanged-step :
    {A S : Type 0} (P Q : S → Type 0) (cb : Callback A S) (next : VapiError → Exchange A)
    (c : Called S)
    → IsAnswered P c
    → ((err : VapiError) (s : S) → P s → IsExchanged Q (exchange cb (next err) s))
    → IsExchanged Q (elim c [ fails ↦ broken | answers err s ↦ exchange cb (next err) s ])
IsExchanged-step P Q cb next fails p k = p
IsExchanged-step P Q cb next (answers err s) p k = k err s p

-- A callback that reads its reply without a test, in an exchange where each success has one.
pub replied-IsExchanged :
    {D S : Type 0} (cb : Callback D S)
    → ((rv : VapiError) (is_last : Bool) (d : D) (s : S)
        → IsAnswered Any (cb rv is_last (some d) s))
    → ((rv : VapiError) (is_last : Bool) (s : S)
        → is_ok rv ≡ false
        → IsAnswered Any (cb rv is_last none s))
    → (e : Exchange D) (s : S) → HasReplies e
    → IsExchanged Any (exchange cb e s)
unfolding exchange
replied-IsExchanged cb on_some on_none (ends err) s h = tt
replied-IsExchanged cb on_some on_none (calls_back rv is_last none next) s (e, h) =
    IsExchanged-step Any Any cb next (cb rv is_last none s) (on_none rv is_last s e)
      (λ err s' _. replied-IsExchanged cb on_some on_none (next err) s' (h err))
replied-IsExchanged cb on_some on_none (calls_back rv is_last (some d) next) s h =
    IsExchanged-step Any Any cb next (cb rv is_last (some d) s) (on_some rv is_last d s)
      (λ err s' _. replied-IsExchanged cb on_some on_none (next err) s' (h err))

-- A callback that answers always, and keeps a property of its value.
pub answered-IsExchanged :
    {D S : Type 0} (P : S → Type 0) (cb : Callback D S)
    → ((rv : VapiError) (is_last : Bool) (reply : Option D) (s : S)
        → P s
        → IsAnswered P (cb rv is_last reply s))
    → (e : Exchange D) (s : S) → P s
    → IsExchanged P (exchange cb e s)
unfolding exchange
answered-IsExchanged P cb keep (ends err) s h = h
answered-IsExchanged P cb keep (calls_back rv is_last reply next) s h =
    IsExchanged-step P P cb next (cb rv is_last reply s) (keep rv is_last reply s h)
      (λ err s' p. answered-IsExchanged P cb keep (next err) s' p)

unguarded_cb-none :
    (rv : VapiError) (is_last : Bool) (s : ReplyResult)
    → is_ok rv ≡ false
    → IsAnswered Any (unguarded_cb rv is_last none s)
unfolding unguarded_cb
unguarded_cb-none rv is_last s e = simp e tt

unguarded_cb-some :
    (rv : VapiError) (is_last : Bool) (r : Reply) (s : ReplyResult)
    → IsAnswered Any (unguarded_cb rv is_last (some r) s)
unfolding unguarded_cb
unguarded_cb-some rv is_last r s = elim (Bool-cases (is_ok rv)) [
  | inl e ↦ simp e tt
  | inr e ↦ simp e tt
]

set_flags_cb-IsAnswered :
    (rv : VapiError) (is_last : Bool) (reply : Option Reply) (s : ReplyResult)
    → Any s
    → IsAnswered Any (set_flags_cb rv is_last reply s)
unfolding set_flags_cb
set_flags_cb-IsAnswered rv is_last none s h = elim (Bool-cases (is_ok rv)) [
  | inl e ↦ simp e tt
  | inr e ↦ simp e tt
]
set_flags_cb-IsAnswered rv is_last (some r) s h = elim (Bool-cases (is_ok rv)) [
  | inl e ↦ simp e tt
  | inr e ↦ simp e tt
]

pub unguarded_cb-IsExchanged :
    (e : Exchange Reply) (s : ReplyResult)
    → HasReplies e
    → IsExchanged Any (exchange unguarded_cb e s)
unguarded_cb-IsExchanged = replied-IsExchanged unguarded_cb unguarded_cb-some unguarded_cb-none

pub set_flags_cb-IsExchanged :
    (e : Exchange Reply) (s : ReplyResult) → IsExchanged Any (exchange set_flags_cb e s)
set_flags_cb-IsExchanged e s = answered-IsExchanged Any set_flags_cb set_flags_cb-IsAnswered e s tt

check_reply-Total :
    (r : Exchanged ReplyResult) (w : World) → IsExchanged Any r → Finishes Any (check_reply r w)
unfolding check_reply
check_reply-Total broken w h = h
check_reply-Total (exchanged err r) w h = elim (Bool-cases (is_ok err)) [
  | inl e ↦ elim (Bool-cases r.received_reply) [
    | inl f ↦ elim (Bool-cases (r.retval == 0)) [
      | inl g ↦ simp (e, f, g) tt
      | inr g ↦ simp (e, f, g) tt
    ]
    | inr f ↦ simp (e, f) tt
  ]
  | inr e ↦ simp e tt
]

pub transact-Total :
    (v : Vapi) (cb : Callback Reply ReplyResult) (req : Request)
    → ((calls : List Call) → IsExchanged Any (exchange cb (v.replies calls req) no_reply))
    → Total Any (transact v cb req)
unfolding transact
transact-Total v cb req h w = elim (Bool-cases (v.allocs_message w.calls req)) [
  | inl e ↦ simp e (check_reply-Total _ _ (h _))
  | inr e ↦ simp e tt
]

pub Total-pure : {A : Type 0} (a : A) → Total Any (pure a)
Total-pure a w = tt

-- Commands end if each success has a reply.
abbrev pub total_rules :
    (v : Vapi) → ((calls : List Call) (req : Request) → HasReplies (v.replies calls req)) → Rules v
total_rules v replies = record {
  holds = Total Any;
  on_pure = Total-pure;
  on_bind = λ m f h k. Total-bind Any Any m f h (λ a _. k a);
  on_unguarded = λ req.
      transact-Total v unguarded_cb req
        (λ calls. unguarded_cb-IsExchanged (v.replies calls req) no_reply (replies calls req));
  on_set_flags = λ req.
      transact-Total v set_flags_cb req
        (λ calls. set_flags_cb-IsExchanged (v.replies calls req) no_reply);
}
