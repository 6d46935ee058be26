-- ===== src/Boy/Vpp/Ends.antt =====
-- Rules for commands that come to an end, with what they keep of the connection and of the heap.
use beastie_boy.Boy.Vpp.{World}
use beastie_boy.Boy.Vpp.Monad.{Ran, crashed, ran, M, pure, ◌>>=◌}
use beastie_boy.Boy.Vpp.Session.{Session, IsIn}
use beastie_boy.Prelude.{ℕ, Bool, true, false, if◌then◌else◌, ◌≡◌}

-- A command that has ended, in a world where Q holds of it and of its result.
abbrev pub EndsIn : {A : Type 0} → (A → World → Type 0) → Ran A → Type 0
EndsIn Q crashed = ⊥
EndsIn Q (ran a w) = Q a w

-- From a world where P holds the command ends where Q holds.
abbrev pub Ends : {A : Type 0} → (World → Type 0) → M A → (A → World → Type 0) → Type 0
Ends P m Q = (w : World) → P w → EndsIn Q (m w)

pub EndsIn-map :
    {A : Type 0} (P Q : A → World → Type 0) (r : Ran A)
    → ((a : A) (w : World) → P a w → Q a w)
    → EndsIn P r
    → EndsIn Q r
EndsIn-map P Q crashed f p = p
EndsIn-map P Q (ran a w) f p = f a w p

pub Ends-bind :
    {A B : Type 0} (P : World → Type 0) (Q : A → World → Type 0) (R : B → World → Type 0) (m : M A)
    (f : A → M B)
    → Ends P m Q
    → ((a : A) → Ends (Q a) (f a) R)
    → Ends P (m >>= f) R
Ends-bind {A} {B} P Q R m f h k w p = go (m w) (h w p)
  where
    go : (r : Ran A) → EndsIn Q r → EndsIn R (elim r [ crashed ↦ crashed | ran a w' ↦ f a w' ])
    go crashed q = q
    go (ran a w') q = k a w' q

pub Ends-if :
    {A : Type 0} (P : World → Type 0) (Q : A → World → Type 0) (b : Bool) (m n : M A)
    → Ends P m Q
    → Ends P n Q
    → Ends P (if b then m else n) Q
Ends-if P Q true m n p q = p
Ends-if P Q false m n p q = q

-- In a session, with n blocks of memory in use.
pub record Holding (s : Session) (n : ℕ) (w : World) : Type 0 where
  pub session : IsIn s w
  pub live : w.heap.live ≡ n

-- A command that changes neither.
abbrev pub Keeps : {A : Type 0} → Session → ℕ → M A → Type 0
Keeps s n m = Ends (Holding s n) m (λ _. Holding s n)

pub Keeps-pure : {A : Type 0} (s : Session) (n : ℕ) (a : A) → Keeps s n (pure a)
Keeps-pure s n a w h = h

pub Keeps-bind :
    {A B : Type 0} (s : Session) (n : ℕ) (m : M A) (f : A → M B)
    → Keeps s n m
    → ((a : A) → Keeps s n (f a))
    → Keeps s n (m >>= f)
Keeps-bind s n m f = Ends-bind (Holding s n) (λ _. Holding s n) (λ _. Holding s n) m f
