-- ===== src/Boy/Span/Clean.antt =====
-- boy_set_span and boy_unset_span come to an end with no context held and all memory given back.
use beastie_boy.Boy.Cli.{DeviceMode}
use beastie_boy.Boy.Client.{close_vapi}
use beastie_boy.Boy.Client.Holding.{holding_rules, IsClean, opened-IsClean, close-Ends}
use beastie_boy.Boy.Collectors.{
  Entries, no_entries, InterfaceEntry, SpanEntry, Sizes, interface_entry, collect_interfaces,
  collect_span,
}
use beastie_boy.Boy.Collectors.Held.{WithTable, collect-Ends, collect_new-Ends}
use beastie_boy.Boy.Collectors.Returns.{array_blocks}
use beastie_boy.Boy.Span.{
  free_table, configure, set_span_connected, set_span, remove_spans, collect_spans,
  unset_span_connected, unset_span,
}
use beastie_boy.Boy.Span.Requests.{configure-holds, remove_spans-holds}
use beastie_boy.Boy.Span.Returns.{KeepsToInterface}
use beastie_boy.Boy.Vpp.{dump_interfaces, dump_spans, Vapi, World}
use beastie_boy.Boy.Vpp.Ends.{Ends, Ends-bind, Ends-if, Holding, Keeps, Keeps-pure}
use beastie_boy.Boy.Vpp.Monad.{M, pure, ◌>>=◌}
use beastie_boy.Boy.Vpp.Session.{Session, no_context, connected}
use beastie_boy.Common.Allocator.{Grants}
use beastie_boy.Prelude.{ℕ, ◌+◌, ◌≤◌, ◌^◌, Bool, true, false, length, CString, if◌then◌else◌, arith}

pub free_table-Ends :
    {A : Type 0} (s : Session) (n : ℕ) (t : Entries A)
    → Ends (Holding s (n + array_blocks t.capacity)) (free_table t) (λ _. Holding s n)
free_table-Ends s n t w h = record { session = h.session; live = omega (arith, h.live) }

-- The clean-up of a command with one table, and with two.
pub finish-Ends :
    {A B : Type 0} (n : ℕ) (t : Entries A) (done : B)
    → Ends
        (Holding connected (n + array_blocks t.capacity))
        (free_table t >>= λ _. close_vapi true >>= λ _. pure done)
        (λ _. Holding no_context n)
finish-Ends n t done =
    Ends-bind (Holding connected (n + array_blocks t.capacity)) (λ _. Holding connected n)
      (λ _. Holding no_context n) (free_table t) _ (free_table-Ends connected n t)
      (λ _. close-Ends n done)

pub both_finish-Ends :
    {A B C : Type 0} (n : ℕ) (t : Entries A) (u : Entries B) (done : C)
    → Ends
        (Holding connected (n + array_blocks u.capacity + array_blocks t.capacity))
        (free_table t >>= λ _. free_table u >>= λ _. close_vapi true >>= λ _. pure done)
        (λ _. Holding no_context n)
both_finish-Ends n t u done =
    Ends-bind (Holding connected (n + array_blocks u.capacity + array_blocks t.capacity))
      (λ _. Holding connected (n + array_blocks u.capacity)) (λ _. Holding no_context n)
      (free_table t) _ (free_table-Ends connected (n + array_blocks u.capacity) t)
      (λ _. finish-Ends n u done)

-- From a table of at most k entries on.
pub table-bind :
    {A B : Type 0} (n k : ℕ) (P : World → Type 0) (R : B → World → Type 0)
    (m : M (Bool × Entries A)) (f : Bool × Entries A → M B)
    → Ends P m (WithTable n k)
    → ((a : Bool × Entries A)
        → length a.1.entries ≤ k
        → Ends (Holding connected (n + array_blocks a.1.capacity)) (f a) R)
    → Ends P (m >>= f) R
table-bind n k P R m f h g = Ends-bind P (WithTable n k) R m f h (λ a w p. g a p.1 w p.0)

module _ (n : ℕ) (v : Vapi) (grants : Grants) (sizes : Sizes) (keeps : KeepsToInterface n v) where
  pub interfaces-Ends :
      (base : ℕ)
      → n ≤ 2 ^ 63
      → Ends
          (Holding connected base)
          (collect_interfaces v grants sizes no_entries)
          (WithTable base n)
  unfolding collect_interfaces
  interfaces-Ends base small =
      collect_new-Ends v grants sizes.interface_size interface_entry dump_interfaces
        v.sends_interfaces n base keeps.interfaces small

  pub collect_spans-Ends :
      (base : ℕ)
      → n + n ≤ 2 ^ 63
      → Ends (Holding connected base) (collect_spans v grants sizes) (WithTable base (n + n))
  unfolding collect_spans collect_span
  collect_spans-Ends base small =
      table-bind base n (Holding connected base) (WithTable base (n + n))
        (collect_span v grants sizes false no_entries) _
        (collect_new-Ends v grants sizes.span_size (λ d. d) (dump_spans false)
          (λ calls. v.sends_spans calls false) n base (λ calls. keeps.spans calls false)
          (omega arith))
        (λ t few.
          Ends-if (Holding connected (base + array_blocks t.1.capacity)) (WithTable base (n + n))
            t.0 (collect_span v grants sizes true t.1) (pure t)
            (collect-Ends v grants sizes.span_size (λ d. d) (dump_spans true)
              (λ calls. v.sends_spans calls true) t.1 n n base (λ calls. keeps.spans calls true) few
              small)
            (λ w h. (h, omega (arith, few))))

  pub set_span-IsClean :
      (source : ℕ) (name : CString) (mode : DeviceMode)
      → n ≤ 2 ^ 63
      → IsClean (set_span v grants sizes source name mode)
  unfolding set_span set_span_connected
  set_span-IsClean source name mode small =
      opened-IsClean v (set_span_connected v grants sizes source name mode) false (λ base.
        table-bind base n (Holding connected base) (λ _. Holding no_context base)
          (collect_interfaces v grants sizes no_entries) _ (interfaces-Ends base small)
          (λ t few.
            let held = base + array_blocks t.1.capacity in
            Ends-bind (Holding connected held) (λ _. Holding connected held)
              (λ _. Holding no_context base)
              (if t.0 then configure v t.1.entries source name mode else pure false) _
              (Ends-if (Holding connected held) (λ _. Holding connected held) t.0
                (configure v t.1.entries source name mode) (pure false)
                (configure-holds v (holding_rules v keeps.replies held) t.1.entries source name
                  mode)
                (Keeps-pure connected held false))
              (λ done. finish-Ends base t.1 done)))

  -- The interfaces and the SPAN entries, one table after the other, and what is done with both.
  pub both_tables-Ends :
      {B : Type 0} (base : ℕ) (f : Bool × Entries InterfaceEntry → Bool × Entries SpanEntry → M B)
      → n + n ≤ 2 ^ 63
      → ((t : Bool × Entries InterfaceEntry) (spans : Bool × Entries SpanEntry)
          → length t.1.entries ≤ n
          → length spans.1.entries ≤ n + n
          → Keeps connected
              (base + array_blocks t.1.capacity + array_blocks spans.1.capacity)
              (f t spans))
      → Ends
          (Holding connected base)
          (collect_interfaces v grants sizes no_entries >>= λ t.
            (if t.0 then collect_spans v grants sizes else pure (false, no_entries)) >>= λ spans.
            f t spans >>= λ done.
            free_table spans.1 >>= λ _. free_table t.1 >>= λ _. close_vapi true >>= λ _. pure done)
          (λ _. Holding no_context base)
  both_tables-Ends base f small h =
      table-bind base n (Holding connected base) (λ _. Holding no_context base)
        (collect_interfaces v grants sizes no_entries) _ (interfaces-Ends base (omega arith))
        (λ t few.
          let held = base + array_blocks t.1.capacity in
          table-bind held (n + n) (Holding connected held) (λ _. Holding no_context base)
            (if t.0 then collect_spans v grants sizes else pure (false, no_entries)) _
            (Ends-if (Holding connected held) (WithTable held (n + n)) t.0
              (collect_spans v grants sizes) (pure (false, no_entries))
              (collect_spans-Ends held small) (none_yet held))
            (λ spans few'.
              let both = held + array_blocks spans.1.capacity in
              Ends-bind (Holding connected both) (λ _. Holding connected both)
                (λ _. Holding no_context base) (f t spans) _ (h t spans few few')
                (λ done. both_finish-Ends base spans.1 t.1 done)))
    where
      none_yet :
          (held : ℕ)
          → Ends
              (Holding connected held)
              (pure {A = Bool × Entries SpanEntry} (false, no_entries))
              (WithTable held (n + n))
      none_yet held w k =
          (record { session = k.session; live = omega (arith, k.live) }, omega arith)

  pub unset_span-IsClean :
      (source : ℕ) → n + n ≤ 2 ^ 63 → IsClean (unset_span v grants sizes source)
  unfolding unset_span unset_span_connected
  unset_span-IsClean source small =
      opened-IsClean v (unset_span_connected v grants sizes source) false (λ base.
        both_tables-Ends base
          (λ t spans. if spans.0 then remove_spans v source spans.1.entries else pure false) small
          (λ t spans few few'.
            let both = base + array_blocks t.1.capacity + array_blocks spans.1.capacity in
            Ends-if (Holding connected both) (λ _. Holding connected both) spans.0
              (remove_spans v source spans.1.entries) (pure false)
              (remove_spans-holds v (holding_rules v keeps.replies both) source spans.1.entries)
              (Keeps-pure connected both false)))
