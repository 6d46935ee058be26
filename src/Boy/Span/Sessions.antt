-- ===== src/Boy/Span/Sessions.antt =====
-- The connection of the SPAN commands: opened, used for one request at a time, and closed on each path.
use beastie_boy.Boy.Cli.{DeviceMode}
use beastie_boy.Boy.Client.{close_vapi}
use beastie_boy.Boy.Collectors.{
  Entries, no_entries, free_entries, SpanEntry, Sizes, interface_entry, collect_interfaces,
  collect_span,
}
use beastie_boy.Boy.Collectors.Dumps.{collect-Connected}
use beastie_boy.Boy.Span.{
  free_table, configure, set_span_connected, set_span, remove_spans, collect_spans,
  unset_span_connected, unset_span,
}
use beastie_boy.Boy.Span.Requests.{configure-holds, remove_spans-holds}
use beastie_boy.Boy.Vpp.{dump_interfaces, dump_spans, Vapi}
use beastie_boy.Boy.Vpp.Monad.{pure, ◌>>=◌, Triple}
use beastie_boy.Boy.Vpp.Session.{no_context, connected, after_call, session, IsIn}
use beastie_boy.Common.Allocator.{Grants}
use beastie_boy.Prelude.{ℕ, Bool, true, false, CString, if◌then◌else◌, arith}
use beastie_boy.Boy.Client.Connection.{
  connected_rules, Connected, Connected-pure, Connected-bind, Connected-if, opened-Closed,
  close-bind,
}

pub collect_spans-Connected :
    (v : Vapi) (grants : Grants) (sizes : Sizes) → Connected (collect_spans v grants sizes)
unfolding collect_spans collect_span
collect_spans-Connected v grants sizes =
    Connected-bind (collect_span v grants sizes false no_entries) _
      (collect-Connected v grants sizes.span_size (λ d. d) (dump_spans false)
        (λ calls. v.sends_spans calls false) no_entries)
      (λ spans.
        Connected-if spans.0 (collect_span v grants sizes true spans.1) (pure spans)
          (collect-Connected v grants sizes.span_size (λ d. d) (dump_spans true)
            (λ calls. v.sends_spans calls true) spans.1)
          (Connected-pure spans))

-- The end of a command: the table of interfaces is freed and the connection closed.
pub finish-Closed :
    {A B : Type 0} (t : Entries A) (done : B)
    → Triple
        (IsIn connected)
        (free_table t >>= λ _. close_vapi true >>= λ _. pure done)
        (λ _. IsIn no_context)
unfolding close_vapi session after_call
finish-Closed t done w h = ground arith

pub both_finish-Closed :
    {A B C : Type 0} (t : Entries A) (u : Entries B) (done : C)
    → Triple
        (IsIn connected)
        (free_table t >>= λ _. free_table u >>= λ _. close_vapi true >>= λ _. pure done)
        (λ _. IsIn no_context)
both_finish-Closed t u done w h = finish-Closed u done (record w { heap = free_entries t w.heap }) h

pub interfaces-Connected :
    (v : Vapi) (grants : Grants) (sizes : Sizes)
    → Connected (collect_interfaces v grants sizes no_entries)
unfolding collect_interfaces
interfaces-Connected v grants sizes =
    collect-Connected v grants sizes.interface_size interface_entry dump_interfaces
      v.sends_interfaces no_entries

-- `boy_set_span` keeps to the order of calls of libvapi and holds no context at its end, on each
-- path: a context that was opened is disconnected and freed, however the requests go. Nothing is
-- said of a run that reads a NULL reply or whose tables never stop growing.
pub set_span-Closed :
    (v : Vapi) (grants : Grants) (sizes : Sizes) (source : ℕ) (name : CString) (mode : DeviceMode)
    → Triple (IsIn no_context) (set_span v grants sizes source name mode) (λ _. IsIn no_context)
unfolding set_span set_span_connected
set_span-Closed v grants sizes source name mode =
    opened-Closed v (set_span_connected v grants sizes source name mode) false (
      close-bind (collect_interfaces v grants sizes no_entries) _
        (interfaces-Connected v grants sizes)
        (λ t.
          close-bind (if t.0 then configure v t.1.entries source name mode else pure false) _
            (Connected-if t.0 (configure v t.1.entries source name mode) (pure false)
              (configure-holds v (connected_rules v) t.1.entries source name mode)
              (Connected-pure false))
            (λ done. finish-Closed t.1 done)))

-- `boy_unset_span` keeps to the order of calls of libvapi and holds no context at its end, on each
-- path, however many entries it removes and wherever a request fails. Nothing is said of a run that
-- reads a NULL reply or whose tables never stop growing.
pub unset_span-Closed :
    (v : Vapi) (grants : Grants) (sizes : Sizes) (source : ℕ)
    → Triple (IsIn no_context) (unset_span v grants sizes source) (λ _. IsIn no_context)
unfolding unset_span unset_span_connected
unset_span-Closed v grants sizes source =
    opened-Closed v (unset_span_connected v grants sizes source) false (
      close-bind (collect_interfaces v grants sizes no_entries) _
        (interfaces-Connected v grants sizes)
        (λ t.
          close-bind (if t.0 then collect_spans v grants sizes else pure (false, no_entries)) _
            (Connected-if t.0 (collect_spans v grants sizes) (pure (false, no_entries))
              (collect_spans-Connected v grants sizes)
              (Connected-pure {A = Bool × Entries SpanEntry} (false, no_entries)))
            (λ spans.
              close-bind (if spans.0 then remove_spans v source spans.1.entries else pure false) _
                (Connected-if spans.0 (remove_spans v source spans.1.entries) (pure false)
                  (remove_spans-holds v (connected_rules v) source spans.1.entries)
                  (Connected-pure false))
                (λ done. both_finish-Closed spans.1 t.1 done))))
