-- ===== src/Boy/Client/Connection.antt =====
-- Rules for commands that keep a connection of boy/vpp_client.c, and for those that close it.
use beastie_boy.Boy.Client.{
  open_vapi, close_vapi, transact, ReplyResult, set_flags_cb, unguarded_cb,
}
use beastie_boy.Boy.Client.Rules.{Rules}
use beastie_boy.Boy.Client.Sessions.{open_vapi_lem, transact_lem}
use beastie_boy.Boy.Vpp.{Request, Reply, Vapi}
use beastie_boy.Boy.Vpp.Monad.{M, pure, ◌>>=◌, RanEnsures-map, Triple, Triple-bind, Callback}
use beastie_boy.Boy.Vpp.Session.{no_context, connected, after_call, session, IsIn}
use beastie_boy.Prelude.{Bool, true, false, if◌then◌else◌, arith}

-- A command that runs on a connected context and leaves it connected.
abbrev pub Connected : {A : Type 0} → M A → Type 0
Connected m = Triple (IsIn connected) m (λ _. IsIn connected)

pub Connected-pure : {A : Type 0} (a : A) → Connected (pure a)
Connected-pure a w h = h

pub Connected-bind :
    {A B : Type 0} (m : M A) (f : A → M B)
    → Connected m
    → ((a : A) → Connected (f a))
    → Connected (m >>= f)
Connected-bind m f = Triple-bind (IsIn connected) (λ _. IsIn connected) (λ _. IsIn connected) m f

pub Connected-if :
    {A : Type 0} (b : Bool) (m n : M A) → Connected m → Connected n → Connected (if b then m else n)
Connected-if true m n p q = p
Connected-if false m n p q = q

pub transact-Connected :
    (v : Vapi) (cb : Callback Reply ReplyResult) (req : Request) → Connected (transact v cb req)
transact-Connected v cb req w h =
    RanEnsures-map _ (λ _. IsIn connected) (transact v cb req w) (λ r w' a. a.connection)
      (transact_lem v cb req w h)

-- Commands keep their connection.
abbrev pub connected_rules : (v : Vapi) → Rules v
connected_rules v = record {
  holds = Connected;
  on_pure = Connected-pure;
  on_bind = Connected-bind;
  on_unguarded = transact-Connected v unguarded_cb;
  on_set_flags = transact-Connected v set_flags_cb;
}

-- The end of a command.
pub close-Closed :
    {A : Type 0} (done : A)
    → Triple (IsIn connected) (close_vapi true >>= λ _. pure done) (λ _. IsIn no_context)
unfolding close_vapi session after_call
close-Closed done w h = ground arith

-- A command that opens a connection and closes it if it could be opened.
pub opened-Closed :
    {A : Type 0} (v : Vapi) (m : M A) (failed : A)
    → Triple (IsIn connected) m (λ _. IsIn no_context)
    → Triple
        (IsIn no_context)
        (open_vapi v >>= λ opened. if opened then m else pure failed)
        (λ _. IsIn no_context)
opened-Closed v m failed k =
    Triple-bind (IsIn no_context) (λ opened. IsIn (if opened then connected else no_context))
      (λ _. IsIn no_context) (open_vapi v) _ (open_vapi_lem v) rest
  where
    rest :
        (opened : Bool)
        → Triple
            (IsIn (if opened then connected else no_context))
            (if opened then m else pure failed)
            (λ _. IsIn no_context)
    rest true w h = k w h
    rest false w h = h

-- From a connection to none, by way of a connection.
pub close-bind :
    {A B : Type 0} (m : M A) (f : A → M B)
    → Connected m
    → ((a : A) → Triple (IsIn connected) (f a) (λ _. IsIn no_context))
    → Triple (IsIn connected) (m >>= f) (λ _. IsIn no_context)
close-bind m f = Triple-bind (IsIn connected) (λ _. IsIn connected) (λ _. IsIn no_context) m f
