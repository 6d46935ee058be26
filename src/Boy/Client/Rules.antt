-- ===== src/Boy/Client/Rules.antt =====
-- A property that all commands of boy have because the single requests have it.
use beastie_boy.Boy.Client.{set_flags_cb, unguarded_cb, transact}
use beastie_boy.Boy.Vpp.{Request, Vapi}
use beastie_boy.Boy.Vpp.Monad.{M, pure, ◌>>=◌}
use beastie_boy.Prelude.{Bool, true, false, if◌then◌else◌}

-- The rules by which `holds` goes from requests to commands.
pub record Rules (v : Vapi) : Type 1 where
  pub holds : {A : Type 0} → M A → Type 0
  pub on_pure : {A : Type 0} (a : A) → holds (pure a)
  pub on_bind :
      {A B : Type 0} (m : M A) (f : A → M B) → holds m → ((a : A) → holds (f a)) → holds (m >>= f)
  pub on_unguarded : (req : Request) → holds (transact v unguarded_cb req)
  pub on_set_flags : (req : Request) → holds (transact v set_flags_cb req)

pub on_if :
    {A : Type 0} (v : Vapi) (r : Rules v) (b : Bool) (m n : M A)
    → r.holds m
    → r.holds n
    → r.holds (if b then m else n)
on_if v r true m n p q = p
on_if v r false m n p q = q
