-- ===== src/Boy/Show/Held.antt =====
-- boy_show_memif and boy_show_span come to an end with no context held and all memory given back.
use beastie_boy.Boy.Client.Holding.{IsClean, opened-IsClean}
use beastie_boy.Boy.Client.Returns.{AtMost}
use beastie_boy.Boy.Collectors.{
  no_entries, InterfaceEntry, SpanEntry, Sizes, memif_entry, collect_memif,
  is_span_source_candidate,
}
use beastie_boy.Boy.Collectors.Held.{collect_new-Ends}
use beastie_boy.Boy.Collectors.Returns.{array_blocks}
use beastie_boy.Boy.Show.{
  no_output, Output, show_rows, memif_columns, memif_row, span_columns, entry_rows, or_no_entry,
  span_rows, show_memif_connected, show_memif, show_span_connected, show_span,
}
use beastie_boy.Boy.Show.Output.{Shows, show_rows_lem}
use beastie_boy.Boy.Show.Sessions.{memif_rows-Fits, span_rows-Fits}
use beastie_boy.Boy.Span.Clean.{table-bind, finish-Ends, both_tables-Ends}
use beastie_boy.Boy.Span.Returns.{KeepsToInterface}
use beastie_boy.Boy.Vpp.{Call, dump_memifs, Vapi}
use beastie_boy.Boy.Vpp.Ends.{EndsIn, Ends-bind, Ends-if, Holding, Keeps, Keeps-pure}
use beastie_boy.Boy.Vpp.Monad.{Ran, crashed, ran, pure}
use beastie_boy.Boy.Vpp.Session.{Session, no_context, connected}
use beastie_boy.Common.Allocator.{Grants}
use beastie_boy.Common.Table.{Column, Row}
use beastie_boy.Common.Table.Lifecycle.{Fits}
use beastie_boy.Common.Table.Widths.{Terminal}
use native.Mathlib.Nat.{mul-le-mul_left}
use beastie_boy.Prelude.{
  ℕ, ◌+◌, ◌*◌, ◌≤◌, ◌^◌, Bool, List, [], ◌∷◌, map, ◌==◌, length, length-append, if◌then◌else◌, ◌≡◌,
  inl, inr, arith, Bool-cases,
}

-- Printing a table keeps the session and gives its memory back.
pub show_rows-Keeps :
    (s : Session) (n : ℕ) (grants : Grants) (term : Terminal) (columns : List Column)
    (rows : List Row)
    → length rows ≤ 2 ^ 63
    → Fits (length columns) rows
    → Keeps s n (show_rows grants term columns rows)
show_rows-Keeps s n grants term columns rows small fits w h =
    go (show_rows grants term columns rows w) (show_rows_lem grants term columns rows w small fits)
  where
    go : (r : Ran Output) → Shows grants term columns rows w r → EndsIn (λ _. Holding s n) r
    go crashed p = p
    go (ran a w') p = record {
      session = rw (p.same_calls) h.session;
      live = omega (arith, p.no_leak, h.live);
    }

length-map : {A B : Type 0} (f : A → B) (xs : List A) → length (map f xs) ≡ length xs
length-map f [] = omega arith
length-map f (x ∷ xs) = omega (arith, length-map f xs)

length-entry_rows :
    (interfaces : List InterfaceEntry) (e : InterfaceEntry) (spans : List SpanEntry)
    → length (entry_rows interfaces e spans) ≤ length spans
unfolding entry_rows
length-entry_rows interfaces e [] = omega arith
length-entry_rows interfaces e (s ∷ spans) =
    let rest = length-entry_rows interfaces e spans in
    elim (Bool-cases (s.sw_if_index_from == e.sw_if_index)) [
      | inl p ↦ rw p (omega (arith, rest))
      | inr p ↦ rw p (omega (arith, rest))
    ]

length-or_no_entry :
    (e : InterfaceEntry) (rows : List Row) (n : ℕ)
    → length rows ≤ n
    → length (or_no_entry e rows) ≤ n + 1
unfolding or_no_entry
length-or_no_entry e [] n h = omega arith
length-or_no_entry e (r ∷ rows) n h = omega arith

-- At most a row for each pair of an interface and a SPAN entry, or one for the interface.
length-span_rows :
    (interfaces : List InterfaceEntry) (spans : List SpanEntry) (entries : List InterfaceEntry)
    → length (span_rows interfaces spans entries) ≤ length entries * (length spans + 1)
unfolding span_rows
length-span_rows interfaces spans [] = omega arith
length-span_rows interfaces spans (e ∷ entries) =
    let rest = length-span_rows interfaces spans entries in
    let here =
      length-or_no_entry e (entry_rows interfaces e spans) (length spans)
        (length-entry_rows interfaces e spans) in
    elim (Bool-cases (is_span_source_candidate e)) [
      | inl p ↦ rw p (
          omega (
            arith,
            rest,
            here,
            length-append (or_no_entry e (entry_rows interfaces e spans))
                (span_rows interfaces spans entries),
          ))
      | inr p ↦ rw p (omega (arith, rest))
    ]

-- 2^30
abbrev pub table_limit : ℕ
table_limit = 1_073_741_824

few_pairs : (a b n : ℕ) → a ≤ n → b ≤ n + n → n ≤ table_limit → a * (b + 1) ≤ 2 ^ 63
few_pairs a b n p q h =
    let most : b + 1 ≤ 2_147_483_649 = omega arith in omega (arith, p, h, mul-le-mul_left a most)

module _ (v : Vapi) (grants : Grants) (sizes : Sizes) (term : Terminal) where
  -- What is printed of a table of entries, if they could be collected.
  pub shown-Keeps :
      (ok : Bool) (columns : List Column) (rows : List Row) (n : ℕ)
      → length rows ≤ 2 ^ 63
      → Fits (length columns) rows
      → Keeps connected n (if ok then show_rows grants term columns rows else pure no_output)
  shown-Keeps ok columns rows n small fits =
      Ends-if (Holding connected n) (λ _. Holding connected n) ok
        (show_rows grants term columns rows) (pure no_output)
        (show_rows-Keeps connected n grants term columns rows small fits)
        (Keeps-pure connected n no_output)

  pub show_memif-IsClean :
      (n : ℕ)
      → ((calls : List Call) → AtMost n (v.sends_memifs calls))
      → n ≤ 2 ^ 63
      → IsClean (show_memif v grants sizes term)
  unfolding show_memif show_memif_connected collect_memif
  show_memif-IsClean n keeps small =
      opened-IsClean v (show_memif_connected v grants sizes term) no_output (λ base.
        table-bind base n (Holding connected base) (λ _. Holding no_context base)
          (collect_memif v grants sizes no_entries) _
          (collect_new-Ends v grants sizes.memif_size memif_entry dump_memifs v.sends_memifs n base
            keeps small)
          (λ t few.
            let held = base + array_blocks t.1.capacity in
            let rows = map memif_row t.1.entries in
            Ends-bind (Holding connected held) (λ _. Holding connected held)
              (λ _. Holding no_context base)
              (if t.0 then show_rows grants term memif_columns rows else pure no_output) _
              (shown-Keeps t.0 memif_columns rows held
                (omega (arith, few, length-map memif_row t.1.entries))
                (memif_rows-Fits t.1.entries))
              (λ shown. finish-Ends base t.1 shown)))

  pub show_span-IsClean :
      (n : ℕ) → KeepsToInterface n v → n ≤ table_limit → IsClean (show_span v grants sizes term)
  unfolding show_span show_span_connected
  show_span-IsClean n keeps small =
      opened-IsClean v (show_span_connected v grants sizes term) no_output (λ base.
        both_tables-Ends n v grants sizes keeps base
          (λ t spans.
            if spans.0
            then show_rows grants term span_columns
                (span_rows t.1.entries spans.1.entries t.1.entries)
            else pure no_output)
          (omega arith)
          (λ t spans few few'.
            let rows = span_rows t.1.entries spans.1.entries t.1.entries in
            shown-Keeps spans.0 span_columns rows
              (base + array_blocks t.1.capacity + array_blocks spans.1.capacity)
              (omega (
                arith,
                length-span_rows t.1.entries spans.1.entries t.1.entries,
                few_pairs (length t.1.entries) (length spans.1.entries) n few few' small,
              ))
              (span_rows-Fits t.1.entries spans.1.entries t.1.entries)))
