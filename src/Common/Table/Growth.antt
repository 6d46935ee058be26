-- ===== src/Common/Table/Growth.antt =====
-- app_table_reserve_rows of common/table.c and boy_reserve_entries of boy/collectors.c: the growth
-- of an array by doubling, with the size_t arithmetic written out.
use beastie_boy.Common.Allocator.{Heap, Grants, allocate, reallocate}
use native.Mathlib.Nat.{pow-suc}
use native.Mathlib.Decide.{dec_lt}
use beastie_boy.Prelude.{
  ℕ, zero, suc, ◌+◌, ◌*◌, ◌^◌, ◌≤◌, ◌<◌, Option, none, some, ltb, leb, ◌==◌, if◌then◌else◌, mul64,
  ◌≡◌, refl, arith, inl, inr, ◌⊎◌,
}

-- `while (new_capacity < required_count) new_capacity *= 2;`, `none` where the fuel runs out.
unfoldable pub double_until : ℕ → ℕ → ℕ → Option ℕ
double_until zero capacity required = none
double_until (suc fuel) capacity required =
    let rest = double_until fuel (mul64 capacity 2) required in
    if ltb capacity required then rest else some capacity

-- The doublings of a `size_t` that is not 0 come to an end or to 0 after 64 rounds.
abbrev pub doubling_fuel : ℕ
doubling_fuel = 65

-- The new capacity and the heap; the bytes asked for are `new_capacity * item_size`.
pub data Reserve : Type 0 where
  endless : Reserve
  refused : Heap → Reserve
  reserved : ℕ → Heap → Reserve

unfoldable pub first_capacity : ℕ → ℕ
first_capacity capacity = if capacity == 0 then 8 else mul64 capacity 2

-- `realloc`: the array is NULL as long as its capacity is 0.
unfoldable pub grow : Grants → ℕ → ℕ → ℕ → Heap → Reserve
grow grants item_size capacity new_capacity h =
    let size = mul64 new_capacity item_size in
    let g = if capacity == 0 then allocate grants size h else reallocate grants size h in
    if g.granted then reserved new_capacity g.heap else refused g.heap

unfoldable pub reserve : Grants → ℕ → ℕ → ℕ → Heap → Reserve
unfolding double_until first_capacity grow
reserve grants item_size capacity required h =
    if leb required capacity
    then reserved capacity h
    else elim (double_until doubling_fuel (first_capacity capacity) required) [
      | none ↦ endless
      | some new_capacity ↦ grow grants item_size capacity new_capacity h
    ]

double_until_stop :
    (fuel capacity required : ℕ)
    → required ≤ capacity
    → double_until (suc fuel) capacity required ≡ some capacity
unfolding double_until
double_until_stop fuel capacity required h = ground arith

double_until_more :
    (fuel capacity required : ℕ)
    → capacity < required
    → double_until (suc fuel) capacity required ≡ double_until fuel (mul64 capacity 2) required
unfolding double_until
double_until_more fuel capacity required h = ground arith

two_pow : (c k : ℕ) → c * 2 ^ suc k ≡ c * 2 * 2 ^ k
two_pow c k = rw pow-suc (omega arith)

doubled :
    (capacity fuel required : ℕ)
    → capacity < required
    → required ≤ 2 ^ 63
    → required ≤ capacity * 2 ^ suc fuel
    → required ≤ mul64 capacity 2 * 2 ^ fuel
doubled capacity fuel required p small bound =
    let e : mul64 capacity 2 ≡ capacity * 2 = omega arith in
    rw e (omega (arith, bound, two_pow capacity fuel))

-- Enough fuel: with a count up to 2^63 the loop ends, at a capacity that is no smaller, and less than
-- twice the count if it made a round.
double_until_total :
    (fuel capacity required : ℕ)
    → 0 < capacity
    → required ≤ 2 ^ 63
    → required ≤ capacity * 2 ^ fuel
    → (c : ℕ) × (double_until (suc fuel) capacity required ≡ some c)
      × (required ≤ c)
      × ((c ≡ capacity) ⊎ (c < 2 * required))
double_until_total zero capacity required pos small bound =
    (capacity, double_until_stop 0 capacity required (omega arith), omega arith, inl refl)
double_until_total (suc fuel) capacity required pos small bound = elim (dec_lt capacity required) [
  | yes p ↦
      let (c, ends, enough, least) =
        double_until_total fuel (mul64 capacity 2) required (omega arith) small
          (doubled capacity fuel required p small bound) in
      (
        c,
        rw (double_until_more (suc fuel) capacity required p) ends,
        enough,
        inr (elim least [ inl e ↦ omega (arith, e) | inr l ↦ l ]),
      )
  | no p ↦ (
    capacity,
    double_until_stop (suc fuel) capacity required (omega arith),
    omega arith,
    inl refl,
  )
]

pub first_capacity-le : (capacity : ℕ) → capacity < 2 ^ 63 → capacity + 1 ≤ first_capacity capacity
unfolding first_capacity
first_capacity-le capacity h = ground arith

-- An array that is full grows to 8 entries or to twice its size, and the loop makes no round.
pub reserve_next :
    (grants : Grants) (item_size capacity : ℕ) (h : Heap)
    → capacity < 2 ^ 63
    → reserve grants item_size capacity (capacity + 1) h
      ≡ grow grants item_size capacity (first_capacity capacity) h
unfolding reserve
reserve_next grants item_size capacity h small = ground (
  arith,
  double_until_stop 64 (first_capacity capacity) (capacity + 1) (first_capacity-le capacity small),
)

-- With a count up to 2^63 the doubling ends, at a capacity that is large enough.
pub reserve_total :
    (grants : Grants) (item_size capacity required : ℕ) (h : Heap)
    → required ≤ 2 ^ 63
    → ((required ≤ capacity) × (reserve grants item_size capacity required h ≡ reserved capacity h))
      ⊎ ((c : ℕ) × (capacity < required)
          × (required ≤ c)
          × (reserve grants item_size capacity required h ≡ grow grants item_size capacity c h))
unfolding reserve
reserve_total grants item_size capacity required h small = elim (dec_lt capacity required) [
  | yes p ↦
      let (c, ends, enough, least) =
        double_until_total 64 (first_capacity capacity) required
          (omega (arith, first_capacity-le capacity)) small
          (omega (arith, first_capacity-le capacity)) in
      inr (c, p, enough, grown c p ends)
  | no p ↦ inl (omega arith, kept (omega arith))
]
  where
    kept : required ≤ capacity → reserve grants item_size capacity required h ≡ reserved capacity h
    kept p = ground arith

    grown :
        (c : ℕ)
        → capacity < required
        → double_until doubling_fuel (first_capacity capacity) required ≡ some c
        → reserve grants item_size capacity required h ≡ grow grants item_size capacity c h
    grown c p e = ground arith

-- The first capacity that is tried is 8, or less than twice the count.
first_capacity-least :
    (capacity required : ℕ)
    → capacity < required
    → required ≤ 2 ^ 63
    → (first_capacity capacity ≤ 8) ⊎ (first_capacity capacity < 2 * required)
unfolding first_capacity
first_capacity-least capacity required p small = elim (dec_lt 0 capacity) [
  | yes q ↦ inr (ground arith)
  | no q ↦ inl (ground arith)
]

-- The outcome of a growth to a capacity: with the request for its bytes granted, the array has the
-- capacity, in a new block if it had none; with the request refused, all blocks stay as they are.
abbrev pub grown_to : Grants → ℕ → ℕ → ℕ → Heap → Reserve
grown_to grants item_size capacity c h =
    let asked = h.asked + 1 in
    if grants h.asked (mul64 c item_size)
    then reserved c (record { asked = asked; live = if capacity == 0 then h.live + 1 else h.live })
    else refused (record { asked = asked; live = h.live })

grow-grown_to :
    (grants : Grants) (item_size capacity c : ℕ) (h : Heap)
    → grow grants item_size capacity c h ≡ grown_to grants item_size capacity c h
unfolding grow
grow-grown_to grants item_size capacity c h = ground arith

-- With a count up to 2^63 the doubling ends. An array that is large enough stays as it is. For any other
-- one there is one request for memory, for a capacity that is large enough, and at most 8 or less than
-- twice the count. If it is granted, that is the capacity, and there is one block more exactly if the
-- array had none; if it is refused, so is the growth, and no block is taken or lost.
pub reserve_lem :
    (grants : Grants) (item_size capacity required : ℕ) (h : Heap)
    → required ≤ 2 ^ 63
    → ((required ≤ capacity) × (reserve grants item_size capacity required h ≡ reserved capacity h))
      ⊎ ((capacity < required)
          × ((c : ℕ) × (required ≤ c)
              × ((c ≤ 8) ⊎ (c < 2 * required))
              × (reserve grants item_size capacity required h
                  ≡ grown_to grants item_size capacity c h)))
unfolding reserve
reserve_lem grants item_size capacity required h small = elim (dec_lt capacity required) [
  | yes p ↦
      let (c, ends, enough, least) =
        double_until_total 64 (first_capacity capacity) required
          (omega (arith, first_capacity-le capacity)) small
          (omega (arith, first_capacity-le capacity)) in
      inr (p, (c, enough, not_more c p least, grown c p ends))
  | no p ↦ inl (omega arith, kept (omega arith))
]
  where
    kept : required ≤ capacity → reserve grants item_size capacity required h ≡ reserved capacity h
    kept p = ground arith

    not_more :
        (c : ℕ)
        → capacity < required
        → (c ≡ first_capacity capacity) ⊎ (c < 2 * required)
        → (c ≤ 8) ⊎ (c < 2 * required)
    not_more c p (inl e) = rw e (first_capacity-least capacity required p small)
    not_more c p (inr l) = inr l

    grown :
        (c : ℕ)
        → capacity < required
        → double_until doubling_fuel (first_capacity capacity) required ≡ some c
        → reserve grants item_size capacity required h ≡ grown_to grants item_size capacity c h
    grown c p e = ground (arith, grow-grown_to grants item_size capacity c h)
