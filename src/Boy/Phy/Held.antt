-- ===== src/Boy/Phy/Held.antt =====
-- boy_show_phy comes to an end with no context held and all memory given back.
use beastie_boy.Boy.Client.{is_ok}
use beastie_boy.Boy.Client.Holding.{IsClean, opened-IsClean}
use beastie_boy.Boy.Client.Returns.{IsExchanged, IsAnswered, answered-IsExchanged}
use beastie_boy.Boy.Collectors.{no_entries, InterfaceEntry, Sizes, collect_interfaces}
use beastie_boy.Boy.Collectors.Returns.{array_blocks}
use beastie_boy.Boy.Hardware.{override_card_family}
use beastie_boy.Boy.Hardware.Changes.{AllOverridden}
use beastie_boy.Boy.Hardware.Overrides.{override_card_family-AllOverridden}
use beastie_boy.Boy.Phy.{
  InbandResult, text_blocks, inband_cb, discard, check_inband, fetch_show_hardware_output,
  override_families, phy_columns, phy_rows, show_fetched, show_phy_connected, show_phy,
}
use beastie_boy.Boy.Client.Strings.{until_zero}
use beastie_boy.Boy.Phy.Cells.{phy_rows-Fits, length-phy_rows}
use beastie_boy.Boy.Show.{no_output, show_rows}
use beastie_boy.Boy.Show.Held.{show_rows-Keeps}
use beastie_boy.Boy.Span.Clean.{table-bind, finish-Ends, interfaces-Ends}
use beastie_boy.Boy.Span.Returns.{KeepsToInterface}
use beastie_boy.Boy.Vpp.{VapiError, InbandReply, show_hardware, alloc_message, send, Vapi, World}
use beastie_boy.Boy.Vpp.Ends.{EndsIn, Ends, Ends-bind, Ends-if, Holding, Keeps, Keeps-pure}
use beastie_boy.Boy.Vpp.Monad.{Ran, Exchanged, broken, exchanged, exchange, pure}
use beastie_boy.Boy.Vpp.Session.{no_context, connected, after_call, session}
use beastie_boy.Common.Allocator.{Grants}
use beastie_boy.Common.Table.Widths.{Terminal}
use beastie_boy.Prelude.{
  ℕ, ◌+◌, ◌≤◌, ◌^◌, Bool, true, false, not, Option, none, some, List, [], ◌∷◌, ◌==◌, length, add64,
  if◌then◌else◌, ◌≡◌, arith, Bool-cases, inl, inr,
}

-- The result holds its text, besides n blocks.
abbrev Balanced : ℕ → InbandResult → Type 0
Balanced n s = s.heap.live ≡ n + text_blocks s.reply

inband_cb-IsAnswered :
    (grants : Grants) (n : ℕ) (rv : VapiError) (is_last : Bool) (reply : Option InbandReply)
    (s : InbandResult)
    → Balanced n s
    → IsAnswered (Balanced n) (inband_cb grants rv is_last reply s)
unfolding inband_cb
inband_cb-IsAnswered grants n rv is_last none s h = elim (Bool-cases (is_ok rv)) [
  | inl e ↦ simp e h
  | inr e ↦ simp e h
]
inband_cb-IsAnswered grants n rv is_last (some r) s h = elim (Bool-cases (is_ok rv)) [
  | inl e ↦ elim (Bool-cases (grants s.heap.asked (add64 (length r.reply) 1))) [
    | inl f ↦ simp (e, f) (omega (arith, h))
    | inr f ↦ simp (e, f) h
  ]
  | inr e ↦ simp e h
]

-- What a fetch leaves.
abbrev WithText : ℕ → Option (List ℕ) → World → Type 0
WithText n text = Holding connected (n + text_blocks text)

check_inband-EndsIn :
    (n : ℕ) (r : Exchanged InbandResult) (w : World)
    → IsExchanged (Balanced n) r
    → Holding connected n w
    → EndsIn (WithText n) (check_inband r w)
unfolding check_inband
check_inband-EndsIn n broken w p h = p
check_inband-EndsIn n (exchanged err s) w p h = if-EndsIn (not (is_ok err)) _ _ discarded (
    if-EndsIn (not s.received_reply) _ _ discarded
      (if-EndsIn (not (s.retval == 0)) _ _ discarded (record { session = h.session; live = p })))
  where
    if-EndsIn :
        (b : Bool) (x y : Ran (Option (List ℕ)))
        → EndsIn (WithText n) x
        → EndsIn (WithText n) y
        → EndsIn (WithText n) (if b then x else y)
    if-EndsIn true x y p q = p
    if-EndsIn false x y p q = q

    discarded : EndsIn (WithText n) (discard s w)
    discarded = record { session = h.session; live = omega (arith, p) }

fetch-Ends :
    (v : Vapi) (grants : Grants) (n : ℕ)
    → Ends (Holding connected n) (fetch_show_hardware_output v grants) (WithText n)
unfolding fetch_show_hardware_output session after_call
fetch-Ends v grants n w h =
    let in_session = h.session in
    let calls = alloc_message show_hardware true ∷ w.calls in
    let start : InbandResult = record {
      received_reply = false;
      retval = 0;
      reply = none;
      heap = w.heap;
    } in
    elim (Bool-cases (v.allocs_message w.calls show_hardware)) [
      | inl e ↦ rw e (
          check_inband-EndsIn n (exchange (inband_cb grants) (v.inbands calls) start)
            (record w { calls = send show_hardware ∷ calls })
            (answered-IsExchanged (Balanced n) (inband_cb grants) (inband_cb-IsAnswered grants n)
              (v.inbands calls) start (omega (arith, h.live)))
            (record { session = ground arith; live = h.live }))
      | inr e ↦ rw e (record { session = ground arith; live = omega (arith, h.live) })
    ]

AllOverridden-length : (xs ys : List InterfaceEntry) → AllOverridden xs ys → length ys ≡ length xs
AllOverridden-length [] [] h = omega arith
AllOverridden-length [] (y ∷ ys) h = absurd h
AllOverridden-length (x ∷ xs) [] h = absurd h
AllOverridden-length (x ∷ xs) (y ∷ ys) (h, hs) = omega (arith, AllOverridden-length xs ys hs)

override_families-Ends :
    (grants : Grants) (n : ℕ) (text : Option (List ℕ)) (entries : List InterfaceEntry)
    → Ends
        (Holding connected n)
        (override_families grants text entries)
        (λ entries' w. Holding connected n w × (length entries' ≡ length entries))
unfolding override_families
override_families-Ends grants n none entries w h = (h, omega arith)
override_families-Ends grants n (some reply) entries w h =
    let (changed, same) =
      override_card_family-AllOverridden grants (some (until_zero reply)) entries w.heap in
    (
      record { session = h.session; live = omega (arith, same, h.live) },
      AllOverridden-length entries
          (override_card_family grants (some (until_zero reply)) entries w.heap).0 changed,
    )

show_fetched-Keeps :
    (v : Vapi) (grants : Grants) (term : Terminal) (entries : List InterfaceEntry) (n : ℕ)
    → length entries ≤ 2 ^ 63
    → Keeps connected n (show_fetched v grants term entries)
unfolding show_fetched
show_fetched-Keeps v grants term entries n small =
    Ends-bind (Holding connected n) (WithText n) (λ _. Holding connected n)
      (fetch_show_hardware_output v grants) _ (fetch-Ends v grants n)
      (λ text.
        let held = n + text_blocks text in
        Ends-bind (Holding connected held)
          (λ entries' w. Holding connected held w × (length entries' ≡ length entries))
          (λ _. Holding connected n) (override_families grants text entries) _
          (override_families-Ends grants held text entries)
          (λ entries' w p.
            Ends-bind (Holding connected held) (λ _. Holding connected held)
              (λ _. Holding connected n) (show_rows grants term phy_columns (phy_rows entries')) _
              (show_rows-Keeps connected held grants term phy_columns (phy_rows entries')
                (omega (arith, p.1, length-phy_rows entries', small)) (phy_rows-Fits entries'))
              (λ shown w' h. record { session = h.session; live = omega (arith, h.live) }) w p.0))

pub show_phy-IsClean :
    (v : Vapi) (grants : Grants) (sizes : Sizes) (term : Terminal) (n : ℕ)
    → KeepsToInterface n v
    → n ≤ 2 ^ 63
    → IsClean (show_phy v grants sizes term)
unfolding show_phy show_phy_connected
show_phy-IsClean v grants sizes term n keeps small =
    opened-IsClean v (show_phy_connected v grants sizes term) no_output (λ base.
      table-bind base n (Holding connected base) (λ _. Holding no_context base)
        (collect_interfaces v grants sizes no_entries) _
        (interfaces-Ends n v grants sizes keeps base small)
        (λ t few.
          let held = base + array_blocks t.1.capacity in
          Ends-bind (Holding connected held) (λ _. Holding connected held)
            (λ _. Holding no_context base)
            (if t.0 then show_fetched v grants term t.1.entries else pure no_output) _
            (Ends-if (Holding connected held) (λ _. Holding connected held) t.0
              (show_fetched v grants term t.1.entries) (pure no_output)
              (show_fetched-Keeps v grants term t.1.entries held (omega (arith, few, small)))
              (Keeps-pure connected held no_output))
            (λ shown. finish-Ends base t.1 shown)))
