-- ===== src/Boy/Collectors/Held.antt =====
-- The memory of the tables of boy/collectors.c, from a dump to the release of the table.
use beastie_boy.Boy.Client.Returns.{AtMost}
use beastie_boy.Boy.Collectors.{Entries, no_entries, collect}
use beastie_boy.Boy.Collectors.Dumps.{collect-Connected}
use beastie_boy.Boy.Collectors.Returns.{array_blocks, Filled, collect-EndsIn}
use beastie_boy.Boy.Vpp.{Exchange, Call, Request, Vapi, World}
use beastie_boy.Boy.Vpp.Ends.{EndsIn, Ends, EndsIn-map, Holding}
use beastie_boy.Boy.Vpp.Monad.{Ran, crashed, ran, RanEnsures}
use beastie_boy.Boy.Vpp.Session.{connected, IsIn}
use beastie_boy.Common.Allocator.{Grants}
use beastie_boy.Prelude.{ℕ, ◌+◌, ◌≤◌, ◌^◌, Bool, List, length, arith}

-- On a connected context, with n blocks in use besides the array of a table of at most k entries.
abbrev pub WithTable : {A : Type 0} → ℕ → ℕ → Bool × Entries A → World → Type 0
WithTable n k a w = Holding connected (n + array_blocks a.1.capacity) w × (length a.1.entries ≤ k)

EndsIn-and :
    {A : Type 0} (P Q : A → World → Type 0) (r : Ran A)
    → RanEnsures P r
    → EndsIn Q r
    → EndsIn (λ a w. P a w × Q a w) r
EndsIn-and P Q crashed p q = q
EndsIn-and P Q (ran a w) p q = (p, q)

-- A dump of at most n messages into a table of at most m entries.
pub collect-Ends :
    {D A : Type 0} (v : Vapi) (grants : Grants) (item_size : ℕ) (entry : D → A) (req : Request)
    (reply : List Call → Exchange D) (t : Entries A) (n m base : ℕ)
    → ((calls : List Call) → AtMost n (reply calls))
    → length t.entries ≤ m
    → m + n ≤ 2 ^ 63
    → Ends
        (Holding connected (base + array_blocks t.capacity))
        (collect v grants item_size entry req reply t)
        (WithTable base (m + n))
collect-Ends v grants item_size entry req reply t n m base h k small w held =
    EndsIn-map
      (λ a w'. IsIn connected w' × Filled (m + n) (array_blocks t.capacity) w.heap.live a w')
      (WithTable base (m + n)) (collect v grants item_size entry req reply t w)
      (λ a w' p. (record { session = p.0; live = omega (arith, p.1.1, held.live) }, p.1.0))
      (EndsIn-and (λ _. IsIn connected) (Filled (m + n) (array_blocks t.capacity) w.heap.live)
        (collect v grants item_size entry req reply t w)
        (collect-Connected v grants item_size entry req reply t w held.session)
        (collect-EndsIn v grants item_size entry req reply t n m w h k small))

-- The first dump.
pub collect_new-Ends :
    {D A : Type 0} (v : Vapi) (grants : Grants) (item_size : ℕ) (entry : D → A) (req : Request)
    (reply : List Call → Exchange D) (n base : ℕ)
    → ((calls : List Call) → AtMost n (reply calls))
    → n ≤ 2 ^ 63
    → Ends
        (Holding connected base)
        (collect v grants item_size entry req reply (no_entries {A = A}))
        (WithTable base n)
collect_new-Ends v grants item_size entry req reply n base h small w held =
    EndsIn-map (WithTable base (0 + n)) (WithTable base n)
      (collect v grants item_size entry req reply no_entries w)
      (λ a w' p. (p.0, omega (arith, p.1)))
      (collect-Ends v grants item_size entry req reply no_entries n 0 base h (omega arith)
        (omega arith) w (record { session = held.session; live = omega (arith, held.live) }))
