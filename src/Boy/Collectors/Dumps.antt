-- ===== src/Boy/Collectors/Dumps.antt =====
-- What the dump callbacks of boy/collectors.c make of the messages, and how a dump uses its connection.
use beastie_boy.Boy.Client.Connection.{Connected}
use beastie_boy.Boy.Vpp.{
  vapi_ok, enomem, Exchange, ends, calls_back, Call, Request, alloc_message, send, World, Vapi,
}
use beastie_boy.Boy.Vpp.Monad.{
  broken, exchanged, Exchanged, exchange, Called, fails, answers, RanEnsures, RanEnsures-map,
}
use beastie_boy.Boy.Vpp.Session.{connected, after_call, session, IsIn, sent}
use beastie_boy.Boy.Collectors.{Entries, Collected, append_entry, dump_cb, check_dump, collect}
use beastie_boy.Common.Allocator.{Heap, Grants}
use beastie_boy.Common.Table.Growth.{endless, refused, reserved, reserve, reserve_total, grow}
use beastie_boy.Prelude.{
  ℕ, ◌+◌, ◌≤◌, ◌<◌, ◌^◌, Bool, true, false, none, some, List, [], ◌∷◌, ◌++◌, map, length,
  length-append, append_assoc, append-nil, add64, mul64, ◌==◌, ◌≡◌, ◌⊎◌, inl, inr, refl, arith,
  Bool-cases, sym, ◌∙◌, ap,
}

abbrev pub HasRoom : {A : Type 0} → Entries A → Type 0
HasRoom t = length t.entries ≤ t.capacity

abbrev pub AlwaysGrants : Grants → Type 0
AlwaysGrants grants = (n size : ℕ) → grants n size ≡ true

grow-granted :
    (grants : Grants) (item_size capacity c : ℕ) (h : Heap)
    → AlwaysGrants grants
    → (h' : Heap) × (grow grants item_size capacity c h ≡ reserved c h')
unfolding grow
grow-granted grants item_size capacity c h granting = elim (Bool-cases (capacity == 0)) [
  | inl e ↦ (
    record { asked = h.asked + 1; live = h.live + 1 },
    simp (e, granting h.asked (mul64 c item_size)) refl,
  )
  | inr e ↦ (record h { asked = h.asked + 1 }, simp (e, granting h.asked (mul64 c item_size)) refl)
]

reserve-granted :
    (grants : Grants) (item_size capacity required : ℕ) (h : Heap)
    → AlwaysGrants grants
    → required ≤ 2 ^ 63
    → (c : ℕ) × (h' : Heap) × (required ≤ c)
      × (reserve grants item_size capacity required h ≡ reserved c h')
reserve-granted grants item_size capacity required h granting small =
    elim (reserve_total grants item_size capacity required h small) [
      | inl (fits, e) ↦ (capacity, h, fits, e)
      | inr (c, more, fits, e) ↦
          let (h', g) = grow-granted grants item_size capacity c h granting in (c, h', fits, e ∙ g)
    ]

-- An append to a table with fewer than 2^63 entries, when memory is granted: the entry comes last, and
-- the array has room for all entries.
abbrev Appended : {A : Type 0} → A → Collected A → Called (Collected A) → Type 0
Appended {A} a s r =
    (s' : Collected A) × (r ≡ answers vapi_ok s')
    × (s'.table.entries ≡ s.table.entries ++ (a ∷ []))
    × HasRoom s'.table

append_entry-reserved :
    {A : Type 0} (grants : Grants) (item_size : ℕ) (a : A) (s : Collected A) (c : ℕ) (h : Heap)
    → reserve grants item_size s.table.capacity (add64 (length s.table.entries) 1) s.heap
      ≡ reserved c h
    → append_entry grants item_size a s
      ≡ answers vapi_ok (record {
        table = record { entries = s.table.entries ++ (a ∷ []); capacity = c };
        heap = h;
      })
unfolding append_entry
append_entry-reserved {A} grants item_size a s c h e =
    ap
      (λ r. elim r as (λ _. Called (Collected A)) [
        | endless ↦ fails
        | refused h ↦ answers enomem (record s { heap = h })
        | reserved c h ↦ answers vapi_ok (record {
          table = record { entries = s.table.entries ++ (a ∷ []); capacity = c };
          heap = h;
        })
      ])
      e

append_entry_lem :
    {A : Type 0} (grants : Grants) (item_size : ℕ) (a : A) (s : Collected A)
    → AlwaysGrants grants
    → length s.table.entries < 2 ^ 63
    → Appended a s (append_entry grants item_size a s)
append_entry_lem {A} grants item_size a s granting small =
    let count = length s.table.entries in
    let e : add64 count 1 ≡ count + 1 = omega arith in
    let (c, h, fits, r) =
      reserve-granted grants item_size s.table.capacity (add64 count 1) s.heap granting
        (omega (arith, e)) in
    let s' : Collected A = record {
      table = record { entries = s.table.entries ++ (a ∷ []); capacity = c };
      heap = h;
    } in
    (
      s',
      append_entry-reserved grants item_size a s c h r,
      refl,
      omega (arith, e, fits, length-append s.table.entries (a ∷ [])),
    )

-- A dump that delivers the messages ds: a callback for each, and a last one without a message.
abbrev pub delivers : {D : Type 0} → List D → Exchange D
delivers [] = calls_back vapi_ok true none (λ err. ends err)
delivers (d ∷ ds) = calls_back vapi_ok false (some d) (λ err. delivers ds)

abbrev Delivered :
    {D A : Type 0} → (D → A) → List D → Collected A → Exchanged (Collected A) → Type 0
Delivered {D} {A} entry ds s r =
    (s' : Collected A) × (r ≡ exchanged vapi_ok s')
    × (s'.table.entries ≡ s.table.entries ++ map entry ds)
    × HasRoom s'.table

dump_cb-delivers_next :
    {D A : Type 0} (grants : Grants) (item_size : ℕ) (entry : D → A) (d : D) (ds : List D)
    (s s' : Collected A)
    → append_entry grants item_size (entry d) s ≡ answers vapi_ok s'
    → exchange (dump_cb grants item_size entry) (delivers (d ∷ ds)) s
      ≡ exchange (dump_cb grants item_size entry) (delivers ds) s'
unfolding exchange dump_cb
dump_cb-delivers_next {D} {A} grants item_size entry d ds s s' e =
    ap
      (λ r. elim r as (λ _. Exchanged (Collected A)) [
        | fails ↦ broken
        | answers err s' ↦ exchange (dump_cb grants item_size entry) (delivers ds) s'
      ])
      e

-- A dump that delivers messages, when every request for memory is granted and the table stays below
-- 2^63 entries, appends one entry for each message, in their order, keeps the older entries, and leaves
-- an array with room for all of them.
pub dump_cb-delivers :
    {D A : Type 0} (grants : Grants) (item_size : ℕ) (entry : D → A) (ds : List D) (s : Collected A)
    → AlwaysGrants grants
    → HasRoom s.table
    → length s.table.entries + length ds < 2 ^ 63
    → Delivered entry ds s (exchange (dump_cb grants item_size entry) (delivers ds) s)
unfolding exchange dump_cb
dump_cb-delivers grants item_size entry [] s granting room small =
    (s, refl, sym (append-nil s.table.entries), room)
dump_cb-delivers {D} {A} grants item_size entry (d ∷ ds) s granting room small =
    let (s₁, e, grown, room₁) =
      append_entry_lem grants item_size (entry d) s granting (omega arith) in
    let n : length s₁.table.entries ≡ length s.table.entries + 1 =
      ap length grown ∙ length-append s.table.entries (entry d ∷ []) in
    let (s₂, e₂, grown₂, room₂) =
      dump_cb-delivers grants item_size entry ds s₁ granting room₁ (omega (arith, n)) in
    (
      s₂,
      dump_cb-delivers_next grants item_size entry d ds s s₁ e ∙ e₂,
      grown₂
          ∙ ap (λ l. l ++ map entry ds) grown
          ∙ append_assoc s.table.entries (entry d ∷ []) (map entry ds),
      room₂,
    )

check_dump-calls :
    {A : Type 0} (P : List Call → Type 0) (e : Exchanged (Collected A)) (w : World)
    → P w.calls
    → RanEnsures (λ r w'. P w'.calls) (check_dump e w)
unfolding check_dump
check_dump-calls P broken w h = tt
check_dump-calls P (exchanged err s) w h = h

-- What a dump leaves: the connection, and itself as the one request sent, unless its message could not
-- be allocated.
pub record Dumped (req : Request) (before : List Call) (ok : Bool) (w : World) : Type 0 where
  pub connection : IsIn connected w
  pub request :
      (sent w.calls ≡ sent before ++ (req ∷ [])) ⊎ ((ok ≡ false) × (sent w.calls ≡ sent before))

-- On a connected context a dump keeps the connection. It sends its one request, or it fails before
-- that and sends none. Nothing is said of a dump whose table never stops growing.
pub collect_lem :
    {D A : Type 0} (v : Vapi) (grants : Grants) (item_size : ℕ) (entry : D → A) (req : Request)
    (reply : List Call → Exchange D) (t : Entries A) (w : World)
    → IsIn connected w
    → RanEnsures (λ r. Dumped req w.calls r.0) (collect v grants item_size entry req reply t w)
unfolding collect session after_call sent
collect_lem {D} {A} v grants item_size entry req reply t w h =
    let P : List Call → Type 0 =
      λ calls. (session calls ≡ some connected) × (sent calls ≡ sent w.calls ++ (req ∷ [])) in
    elim (Bool-cases (v.allocs_message w.calls req)) [
      | inl e ↦
          let calls = alloc_message req true ∷ w.calls in
          let w' : World = record w { calls = send req ∷ calls } in
          let r : Exchanged (Collected A) =
            exchange (dump_cb grants item_size entry) (reply calls)
              (record { table = t; heap = w.heap }) in
          rw e (
            RanEnsures-map (λ a w₁. P w₁.calls) (λ a. Dumped req w.calls a.0) (check_dump r w')
              (λ a w₁ p. record { connection = p.0; request = inl p.1 })
              (check_dump-calls P r w' (ground arith, refl)))
      | inr e ↦ rw e (record { connection = ground arith; request = inr (refl, refl) })
    ]

pub collect-Connected :
    {D A : Type 0} (v : Vapi) (grants : Grants) (item_size : ℕ) (entry : D → A) (req : Request)
    (reply : List Call → Exchange D) (t : Entries A)
    → Connected (collect v grants item_size entry req reply t)
collect-Connected v grants item_size entry req reply t w h =
    RanEnsures-map _ (λ _. IsIn connected) (collect v grants item_size entry req reply t w)
      (λ r w' a. a.connection) (collect_lem v grants item_size entry req reply t w h)
