-- ===== src/Boy/Span/Returns.antt =====
-- The SPAN commands come to an end and use no NULL reply, for a VPP that keeps to its interface.
use beastie_boy.Boy.Cli.{DeviceMode}
use beastie_boy.Boy.Client.{is_ok, open_vapi, close_vapi}
use beastie_boy.Boy.Collectors.{
  Entries, no_entries, SpanEntry, Sizes, interface_entry, collect_interfaces, collect_span,
}
use beastie_boy.Boy.Span.{
  free_table, configure, set_span_connected, set_span, remove_spans, collect_spans,
  unset_span_connected, unset_span,
}
use beastie_boy.Boy.Span.Requests.{configure-holds, remove_spans-holds}
use beastie_boy.Boy.Vpp.{Call, ctx_alloc, Request, dump_interfaces, dump_spans, Vapi, World}
use beastie_boy.Boy.Vpp.Monad.{Ran, crashed, ran, M, pure, ◌>>=◌}
use beastie_boy.Common.Allocator.{Grants}
use beastie_boy.Prelude.{
  ℕ, ◌+◌, ◌≤◌, ◌^◌, Bool, true, false, List, ◌∷◌, CString, length, if◌then◌else◌, arith, inl, inr,
  Bool-cases,
}
use beastie_boy.Boy.Client.Returns.{
  Finishes, Total, Any, Total-pure, total_rules, Total-bind, Total-if, HasReplies, AtMost,
}
use beastie_boy.Boy.Collectors.Returns.{collect-Total}

-- A VPP that gives a reply with each success and reports at most n entries in a dump.
pub record KeepsToInterface (n : ℕ) (v : Vapi) : Type 0 where
  pub replies : (calls : List Call) (req : Request) → HasReplies (v.replies calls req)
  pub interfaces : (calls : List Call) → AtMost n (v.sends_interfaces calls)
  pub spans : (calls : List Call) (is_l2 : Bool) → AtMost n (v.sends_spans calls is_l2)

open_vapi-Total : (v : Vapi) → Total Any (open_vapi v)
unfolding open_vapi
open_vapi-Total v w =
    let calls = ctx_alloc (v.allocs_ctx w.calls) ∷ w.calls in
    elim (Bool-cases (is_ok (v.allocs_ctx w.calls))) [
      | inl e ↦ elim (Bool-cases (is_ok (v.connects calls))) [
        | inl f ↦ simp (e, f) tt
        | inr f ↦ simp (e, f) tt
      ]
      | inr e ↦ simp e tt
    ]

Total-map : {A : Type 0} (P : A → Type 0) (m : M A) → Total P m → Total Any m
Total-map {A} P m h w = go (m w) (h w)
  where
    go : (r : Ran A) → Finishes P r → Finishes Any r
    go crashed p = p
    go (ran a w) p = tt

-- A command on a new connection, and the clean-up that closes it.
opened-Total :
    (v : Vapi) (m : M Bool)
    → Total Any m
    → Total Any (open_vapi v >>= λ opened. if opened then m else pure false)
opened-Total v m h =
    Total-bind Any Any (open_vapi v) _ (open_vapi-Total v)
      (λ opened _. Total-if Any opened m (pure false) h (Total-pure false))

finish-Total :
    {A : Type 0} (t : Entries A) (done : Bool)
    → Total Any (free_table t >>= λ _. close_vapi true >>= λ _. pure done)
unfolding close_vapi
finish-Total t done w = tt

both_finish-Total :
    {A B : Type 0} (t : Entries A) (u : Entries B) (done : Bool)
    → Total Any (free_table t >>= λ _. free_table u >>= λ _. close_vapi true >>= λ _. pure done)
unfolding close_vapi
both_finish-Total t u done w = tt

interfaces-Total :
    (n : ℕ) (v : Vapi) (grants : Grants) (sizes : Sizes)
    → KeepsToInterface n v
    → n ≤ 2 ^ 63
    → Total Any (collect_interfaces v grants sizes no_entries)
unfolding collect_interfaces
interfaces-Total n v grants sizes keeps small =
    Total-map (λ a. length a.1.entries ≤ 0 + n) _
      (collect-Total v grants sizes.interface_size interface_entry dump_interfaces
        v.sends_interfaces no_entries n 0 keeps.interfaces (omega arith) (omega arith))

collect_spans-Total :
    (n : ℕ) (v : Vapi) (grants : Grants) (sizes : Sizes)
    → KeepsToInterface n v
    → n + n ≤ 2 ^ 63
    → Total Any (collect_spans v grants sizes)
unfolding collect_spans collect_span
collect_spans-Total n v grants sizes keeps small =
    Total-bind (λ a. length a.1.entries ≤ 0 + n) Any (collect_span v grants sizes false no_entries)
      _
      (collect-Total v grants sizes.span_size (λ d. d) (dump_spans false)
        (λ calls. v.sends_spans calls false) no_entries n 0 (λ calls. keeps.spans calls false)
        (omega arith) (omega arith))
      (λ t few.
        Total-if Any t.0 (collect_span v grants sizes true t.1) (pure t)
          (Total-map (λ a. length a.1.entries ≤ 0 + n + n) _
            (collect-Total v grants sizes.span_size (λ d. d) (dump_spans true)
              (λ calls. v.sends_spans calls true) t.1 n (0 + n) (λ calls. keeps.spans calls true)
              few (omega arith)))
          (Total-pure t))

-- If VPP gives a reply with each success and reports at most n interfaces, n up to 2^63, `boy_set_span`
-- returns: it reads no NULL reply, and its table stops growing.
pub set_span-Finishes :
    (n : ℕ) (v : Vapi) (grants : Grants) (sizes : Sizes) (source : ℕ) (name : CString)
    (mode : DeviceMode) (w : World)
    → KeepsToInterface n v
    → n ≤ 2 ^ 63
    → Finishes Any (set_span v grants sizes source name mode w)
unfolding set_span set_span_connected
set_span-Finishes n v grants sizes source name mode w keeps small =
    opened-Total v (set_span_connected v grants sizes source name mode)
      (Total-bind Any Any (collect_interfaces v grants sizes no_entries) _
        (interfaces-Total n v grants sizes keeps small)
        (λ t _.
          Total-bind Any Any (if t.0 then configure v t.1.entries source name mode else pure false)
            _
            (Total-if Any t.0 (configure v t.1.entries source name mode) (pure false)
              (configure-holds v (total_rules v keeps.replies) t.1.entries source name mode)
              (Total-pure false))
            (λ done _. finish-Total t.1 done)))
      w

-- If VPP gives a reply with each success and reports at most n interfaces and, in each of the two
-- dumps, at most n SPAN entries, 2n up to 2^63, `boy_unset_span` returns: it reads no NULL reply, and
-- its tables stop growing.
pub unset_span-Finishes :
    (n : ℕ) (v : Vapi) (grants : Grants) (sizes : Sizes) (source : ℕ) (w : World)
    → KeepsToInterface n v
    → n + n ≤ 2 ^ 63
    → Finishes Any (unset_span v grants sizes source w)
unfolding unset_span unset_span_connected
unset_span-Finishes n v grants sizes source w keeps small =
    opened-Total v (unset_span_connected v grants sizes source)
      (Total-bind Any Any (collect_interfaces v grants sizes no_entries) _
        (interfaces-Total n v grants sizes keeps (omega arith))
        (λ t _.
          Total-bind Any Any
            (if t.0 then collect_spans v grants sizes else pure (false, no_entries)) _
            (Total-if Any t.0 (collect_spans v grants sizes) (pure (false, no_entries))
              (collect_spans-Total n v grants sizes keeps small)
              (Total-pure {A = Bool × Entries SpanEntry} (false, no_entries)))
            (λ spans _.
              Total-bind Any Any
                (if spans.0 then remove_spans v source spans.1.entries else pure false) _
                (Total-if Any spans.0 (remove_spans v source spans.1.entries) (pure false)
                  (remove_spans-holds v (total_rules v keeps.replies) source spans.1.entries)
                  (Total-pure false))
                (λ done _. both_finish-Total spans.1 t.1 done))))
      w
