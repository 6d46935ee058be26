-- ===== src/Boy/Collectors/Returns.antt =====
-- The dumps of boy/collectors.c come to an end, and how many entries they collect.
use beastie_boy.Boy.Client.{is_ok}
use beastie_boy.Boy.Collectors.{Entries, Collected, append_entry, dump_cb, check_dump, collect}
use beastie_boy.Boy.Vpp.{
  VapiError, vapi_ok, enomem, Exchange, ends, calls_back, Call, alloc_message, Request, Vapi, World,
}
use beastie_boy.Boy.Vpp.Ends.{EndsIn}
use beastie_boy.Boy.Vpp.Monad.{Called, fails, answers, Exchanged, broken, exchanged, exchange}
use beastie_boy.Common.Allocator.{Grants, Heap}
use beastie_boy.Common.Table.Growth.{
  Reserve, endless, refused, reserved, reserve, reserve_total, grow,
}
use beastie_boy.Prelude.{
  ℕ, zero, suc, ◌+◌, ◌≤◌, ◌<◌, ◌^◌, Bool, true, Option, none, some, List, [], ◌∷◌, ◌++◌, ◌==◌, ◌≡◌,
  refl, length, length-append, add64, mul64, if◌then◌else◌, arith, inl, inr, Bool-cases,
}
use beastie_boy.Boy.Client.Returns.{
  Total, EndsIn-result, AtMost, IsExchanged, IsAnswered, IsExchanged-step,
}

-- The blocks of an array.
abbrev pub array_blocks : ℕ → ℕ
array_blocks capacity = if capacity == 0 then 0 else 1

-- The doubling ends, and the heap counts `base` blocks besides the array, less the `paid` ones.
abbrev Balanced : ℕ → ℕ → ℕ → Reserve → Type 0
Balanced paid base capacity endless = ⊥
Balanced paid base capacity (refused h) = h.live + paid ≡ base + array_blocks capacity
Balanced paid base capacity (reserved c h) = h.live + paid ≡ base + array_blocks c

grow-Balanced :
    (grants : Grants) (item_size capacity c paid base : ℕ) (h : Heap)
    → 0 < c
    → h.live + paid ≡ base + array_blocks capacity
    → Balanced paid base capacity (grow grants item_size capacity c h)
unfolding grow
grow-Balanced grants item_size capacity c paid base h pos balance =
    elim (Bool-cases (grants h.asked (mul64 c item_size))) [
      | inl e ↦ elim (Bool-cases (capacity == 0)) [
        | inl f ↦ simp (e, f) (ground arith)
        | inr f ↦ simp (e, f) (ground arith)
      ]
      | inr e ↦ elim (Bool-cases (capacity == 0)) [
        | inl f ↦ simp (e, f) (ground arith)
        | inr f ↦ simp (e, f) (ground arith)
      ]
    ]

reserve-Balanced :
    (grants : Grants) (item_size capacity required paid base : ℕ) (h : Heap)
    → 0 < required
    → required ≤ 2 ^ 63
    → h.live + paid ≡ base + array_blocks capacity
    → Balanced paid base capacity (reserve grants item_size capacity required h)
reserve-Balanced grants item_size capacity required paid base h pos small balance =
    elim (reserve_total grants item_size capacity required h small) [
      | inl (fits, e) ↦ rw e balance
      | inr (c, more, fits, e) ↦
          rw e (grow-Balanced grants item_size capacity c paid base h (omega arith) balance)
    ]

-- At most n entries, and `base` blocks besides their array, less the `paid` ones.
pub record Holds {A : Type 0} (n paid base : ℕ) (s : Collected A) : Type 0 where
  pub few : length s.table.entries ≤ n
  pub balance : s.heap.live + paid ≡ base + array_blocks s.table.capacity

append_entry-IsAnswered :
    {A : Type 0} (grants : Grants) (item_size n paid base : ℕ) (a : A) (s : Collected A)
    → Holds n paid base s
    → n < 2 ^ 63
    → IsAnswered (Holds (n + 1) paid base) (append_entry grants item_size a s)
unfolding append_entry
append_entry-IsAnswered {A} grants item_size n paid base a s h small =
    let count = length s.table.entries in
    let few = h.few in
    go (reserve grants item_size s.table.capacity (add64 count 1) s.heap) (
      reserve-Balanced grants item_size s.table.capacity (add64 count 1) paid base s.heap
        (omega arith) (omega arith) h.balance)
  where
    go :
        (r : Reserve)
        → Balanced paid base s.table.capacity r
        → IsAnswered (Holds (n + 1) paid base) (elim r as (λ _. Called (Collected A)) [
          | endless ↦ fails
          | refused h ↦ answers enomem (record s { heap = h })
          | reserved c h ↦ answers vapi_ok (record {
            table = record { entries = s.table.entries ++ (a ∷ []); capacity = c };
            heap = h;
          })
        ])
    go endless e = e
    go (refused h') e = record { few = omega (arith, h.few); balance = e }
    go (reserved c h') e = record {
      few = omega (arith, h.few, length-append s.table.entries (a ∷ []));
      balance = e;
    }

dump_cb-IsAnswered :
    {D A : Type 0} (grants : Grants) (item_size n paid base : ℕ) (entry : D → A) (rv : VapiError)
    (is_last : Bool) (reply : Option D) (s : Collected A)
    → Holds n paid base s
    → n < 2 ^ 63
    → IsAnswered (Holds (n + 1) paid base) (dump_cb grants item_size entry rv is_last reply s)
unfolding dump_cb
dump_cb-IsAnswered {D} {A} grants item_size n paid base entry rv is_last reply s h small =
    go reply (record { few = omega (arith, h.few); balance = h.balance })
  where
    go :
        (reply : Option D)
        → Holds (n + 1) paid base s
        → IsAnswered (Holds (n + 1) paid base) (dump_cb grants item_size entry rv is_last reply s)
    go none k = elim (Bool-cases (is_ok rv)) [ inl e ↦ simp e k | inr e ↦ simp e k ]
    go (some d) k = elim (Bool-cases (is_ok rv)) [
      | inl e ↦ elim (Bool-cases is_last) [
        | inl f ↦ simp (e, f) k
        | inr f ↦
            simp (e, f) (append_entry-IsAnswered grants item_size n paid base (entry d) s h small)
      ]
      | inr e ↦ simp e k
    ]

IsExchanged-map :
    {S : Type 0} (P Q : S → Type 0) (r : Exchanged S)
    → ((s : S) → P s → Q s)
    → IsExchanged P r
    → IsExchanged Q r
IsExchanged-map P Q broken f p = p
IsExchanged-map P Q (exchanged err s) f p = f s p

dump_cb-IsExchanged :
    {D A : Type 0} (grants : Grants) (item_size paid base : ℕ) (entry : D → A) (n m : ℕ)
    (e : Exchange D) (s : Collected A)
    → AtMost n e
    → Holds m paid base s
    → m + n ≤ 2 ^ 63
    → IsExchanged (Holds (m + n) paid base) (exchange (dump_cb grants item_size entry) e s)
unfolding exchange
dump_cb-IsExchanged grants item_size paid base entry n m (ends err) s h k small = record {
  few = omega (arith, k.few);
  balance = k.balance;
}
dump_cb-IsExchanged grants item_size paid base entry zero m (calls_back rv is_last reply next) s h k
      small =
    absurd h
dump_cb-IsExchanged grants item_size paid base entry (suc n) m (calls_back rv is_last reply next) s
      h k small =
    IsExchanged-step (Holds (m + 1) paid base) (Holds (m + suc n) paid base)
      (dump_cb grants item_size entry) next (dump_cb grants item_size entry rv is_last reply s)
      (dump_cb-IsAnswered grants item_size m paid base entry rv is_last reply s k (omega arith))
      (λ err s' p.
        IsExchanged-map (Holds (m + 1 + n) paid base) (Holds (m + suc n) paid base)
          (exchange (dump_cb grants item_size entry) (next err) s')
          (λ s₁ q. record { few = omega (arith, q.few); balance = q.balance })
          (dump_cb-IsExchanged grants item_size paid base entry n (m + 1) (next err) s' (h err) p
            (omega arith)))

-- What a dump leaves: at most n entries, and `base` blocks besides their array, less the `paid` ones.
abbrev pub Filled : {A : Type 0} → ℕ → ℕ → ℕ → Bool × Entries A → World → Type 0
Filled n paid base a w =
    (length a.1.entries ≤ n) × (w.heap.live + paid ≡ base + array_blocks a.1.capacity)

check_dump-EndsIn :
    {A : Type 0} (n paid base : ℕ) (r : Exchanged (Collected A)) (w : World)
    → IsExchanged (Holds n paid base) r
    → EndsIn (Filled n paid base) (check_dump r w)
unfolding check_dump
check_dump-EndsIn n paid base broken w h = h
check_dump-EndsIn n paid base (exchanged err s) w h = (h.few, h.balance)

-- A dump of at most n messages into a table of at most m entries ends.
pub collect-EndsIn :
    {D A : Type 0} (v : Vapi) (grants : Grants) (item_size : ℕ) (entry : D → A) (req : Request)
    (reply : List Call → Exchange D) (t : Entries A) (n m : ℕ) (w : World)
    → ((calls : List Call) → AtMost n (reply calls))
    → length t.entries ≤ m
    → m + n ≤ 2 ^ 63
    → EndsIn
        (Filled (m + n) (array_blocks t.capacity) w.heap.live)
        (collect v grants item_size entry req reply t w)
unfolding collect
collect-EndsIn v grants item_size entry req reply t n m w h k small =
    let calls = alloc_message req true ∷ w.calls in
    elim (Bool-cases (v.allocs_message w.calls req)) [
      | inl e ↦ simp e (
          check_dump-EndsIn (m + n) (array_blocks t.capacity) w.heap.live _ _ (
            dump_cb-IsExchanged grants item_size (array_blocks t.capacity) w.heap.live entry n m
              (reply calls) _ (h calls) (record { few = k; balance = refl }) small))
      | inr e ↦ simp e (omega arith, refl)
    ]

pub collect-Total :
    {D A : Type 0} (v : Vapi) (grants : Grants) (item_size : ℕ) (entry : D → A) (req : Request)
    (reply : List Call → Exchange D) (t : Entries A) (n m : ℕ)
    → ((calls : List Call) → AtMost n (reply calls))
    → length t.entries ≤ m
    → m + n ≤ 2 ^ 63
    → Total
        (λ (a : Bool × Entries A). length a.1.entries ≤ m + n)
        (collect v grants item_size entry req reply t)
collect-Total v grants item_size entry req reply t n m h k small w =
    EndsIn-result (Filled (m + n) (array_blocks t.capacity) w.heap.live) _
      (collect v grants item_size entry req reply t w) (λ a w' p. p.0)
      (collect-EndsIn v grants item_size entry req reply t n m w h k small)
