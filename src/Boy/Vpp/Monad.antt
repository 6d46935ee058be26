-- ===== src/Boy/Vpp/Monad.antt =====
-- Commands of boy over the calls of libvapi, with rules for what they keep.
use beastie_boy.Boy.Vpp.{VapiError, Exchange, ends, calls_back, Call, World}
use beastie_boy.Prelude.{Bool, Option, ◌∷◌}

-- `crashed` is a use of a NULL pointer, or a loop that does not end.
pub data Ran (A : Type 0) : Type 0 where
  crashed : Ran A
  ran : A → World → Ran A

abbrev pub M : Type 0 → Type 0
M A = World → Ran A

abbrev pub pure : {A : Type 0} → A → M A
pure a w = ran a w

infixl 5 ◌>>=◌ ◌>>◌
abbrev pub ◌>>=◌ : {A B : Type 0} → M A → (A → M B) → M B
◌>>=◌ m f w = elim (m w) [ crashed ↦ crashed | ran a w' ↦ f a w' ]

abbrev pub ◌>>◌ : {B : Type 0} → M (Unit {0}) → M B → M B
m >> k = m >>= λ _. k

-- A call that only leaves its mark.
abbrev pub record_call : Call → M (Unit {0})
record_call c w = ran tt (record w { calls = c ∷ w.calls })

-- What a callback returns, with the value that its context points to; `fails` is a crash.
pub data Called (S : Type 0) : Type 0 where
  fails : Called S
  answers : VapiError → S → Called S

abbrev pub Callback : Type 0 → Type 0 → Type 0
Callback A S = VapiError → Bool → Option A → S → Called S

pub data Exchanged (S : Type 0) : Type 0 where
  broken : Exchanged S
  exchanged : VapiError → S → Exchanged S

-- A request runs its exchange with the callback.
unfoldable pub exchange : {A S : Type 0} → Callback A S → Exchange A → S → Exchanged S
exchange cb (ends err) s = exchanged err s
exchange cb (calls_back rv is_last reply next) s = elim (cb rv is_last reply s) [
  | fails ↦ broken
  | answers err s' ↦ exchange cb (next err) s'
]

-- An invariant of the callback is one of the exchange.
abbrev pub CalledEnsures : {S : Type 0} → (S → Type 0) → Called S → Type 0
CalledEnsures P fails = Unit
CalledEnsures P (answers err s) = P s

abbrev pub ExchangedEnsures : {S : Type 0} → (S → Type 0) → Exchanged S → Type 0
ExchangedEnsures P broken = Unit
ExchangedEnsures P (exchanged err s) = P s

pub exchange_inv :
    {A S : Type 0} (P : S → Type 0) (cb : Callback A S)
    → ((rv : VapiError) (is_last : Bool) (reply : Option A) (s : S)
        → P s
        → CalledEnsures P (cb rv is_last reply s))
    → (e : Exchange A) (s : S) → P s
    → ExchangedEnsures P (exchange cb e s)
unfolding exchange
exchange_inv P cb keep (ends err) s h = h
exchange_inv {A} {S} P cb keep (calls_back rv is_last reply next) s h =
    go (cb rv is_last reply s) (keep rv is_last reply s h)
      (λ err s' h'. exchange_inv P cb keep (next err) s' h')
  where
    go :
        (c : Called S)
        → CalledEnsures P c
        → ((err : VapiError) (s' : S) → P s' → ExchangedEnsures P (exchange cb (next err) s'))
        → ExchangedEnsures P
            (elim c [ fails ↦ broken | answers err s' ↦ exchange cb (next err) s' ])
    go fails p rec = tt
    go (answers err s') p rec = rec err s' p

abbrev pub RanEnsures : {A : Type 0} → (A → World → Type 0) → Ran A → Type 0
RanEnsures Q crashed = Unit
RanEnsures Q (ran a w) = Q a w

pub RanEnsures-map :
    {A : Type 0} (P Q : A → World → Type 0) (r : Ran A)
    → ((a : A) (w : World) → P a w → Q a w)
    → RanEnsures P r
    → RanEnsures Q r
RanEnsures-map P Q crashed f p = tt
RanEnsures-map P Q (ran a w) f p = f a w p

pub RanEnsures-and :
    {A : Type 0} (P Q : A → World → Type 0) (r : Ran A)
    → RanEnsures P r
    → RanEnsures Q r
    → RanEnsures (λ a w. P a w × Q a w) r
RanEnsures-and P Q crashed p q = tt
RanEnsures-and P Q (ran a w) p q = (p, q)

pub RanEnsures-bind :
    {A B : Type 0} (P : A → World → Type 0) (Q : B → World → Type 0) (r : Ran A) (f : A → M B)
    → ((a : A) (w : World) → P a w → RanEnsures Q (f a w))
    → RanEnsures P r
    → RanEnsures Q (elim r [ crashed ↦ crashed | ran a w ↦ f a w ])
RanEnsures-bind P Q crashed f k p = tt
RanEnsures-bind P Q (ran a w) f k p = k a w p

-- From a world where P holds the command ends, unless it crashes, where Q holds of its result.
abbrev pub Triple : {A : Type 0} → (World → Type 0) → M A → (A → World → Type 0) → Type 0
Triple P m Q = (w : World) → P w → RanEnsures Q (m w)

pub Triple-bind :
    {A B : Type 0} (P : World → Type 0) (Q : A → World → Type 0) (R : B → World → Type 0) (m : M A)
    (f : A → M B)
    → Triple P m Q
    → ((a : A) → Triple (Q a) (f a) R)
    → Triple P (m >>= f) R
Triple-bind P Q R m f h k w p = RanEnsures-bind Q R (m w) f k (h w p)
