-- ===== src/Common/Allocator.antt =====
-- malloc, calloc, realloc and free as common/table.c and boy/collectors.c use them: a count of the
-- requests made and of the blocks in use. Which requests the system grants is `grants`, a function
-- of the number of the request and of its size in bytes.
use beastie_boy.Prelude.{ℕ, ◌+◌, ◌-◌, Bool, true, false, if◌then◌else◌}

pub record Heap : Type 0 where
  pub asked : ℕ
  pub live : ℕ

-- A request, and whether it was granted.
pub record Grant : Type 0 where
  pub granted : Bool
  pub heap : Heap

abbrev pub Grants : Type 0
Grants = ℕ → ℕ → Bool

-- A new block: `malloc`, `calloc`, and `realloc` of NULL.
abbrev pub allocate : Grants → ℕ → Heap → Grant
allocate grants size h =
    if grants h.asked size
    then record { granted = true; heap = record { asked = h.asked + 1; live = h.live + 1 } }
    else record { granted = false; heap = record h { asked = h.asked + 1 } }

-- `realloc` of a block in use, which stands for the old block whether or not it succeeds.
abbrev pub reallocate : Grants → ℕ → Heap → Grant
reallocate grants size h = record {
  granted = grants h.asked size;
  heap = record h { asked = h.asked + 1 };
}

-- `free` of n blocks in use.
abbrev pub release : ℕ → Heap → Heap
release n h = record h { live = h.live - n }
