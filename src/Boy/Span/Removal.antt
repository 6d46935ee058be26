-- ===== src/Boy/Span/Removal.antt =====
-- The requests by which boy_unset_span of boy/commands/span_cmd.c removes entries.
use beastie_boy.Boy.Client.{unguarded_cb, transact, is_some, ReplyResult}
use beastie_boy.Boy.Client.Sessions.{transact_lem, Asked}
use beastie_boy.Boy.Collectors.{SpanEntry}
use beastie_boy.Boy.Span.{set_span_entry, remove_spans}
use beastie_boy.Boy.Vpp.{Request, Call, SpanState, disabled, set_span_state, Vapi, World}
use beastie_boy.Boy.Vpp.Monad.{Ran, crashed, ran, M, pure, RanEnsures, RanEnsures-map}
use beastie_boy.Boy.Vpp.Session.{connected, IsIn, sent}
use beastie_boy.Prelude.{
  ℕ, suc, Bool, true, false, not, Option, List, [], ◌∷◌, ◌++◌, ◌==◌, if◌then◌else◌, Bool-cases, inl,
  inr, refl, ◌≡◌, ◌⊎◌, ◌∙◌, sym, ap, take, append_assoc, append-nil,
}

-- What a SPAN request leaves: the connection, and the request as the last one sent, or a failure with
-- nothing sent.
abbrev pub EntryAsked : Request → List Call → Bool → World → Type 0
EntryAsked req before done w =
    IsIn connected w
    × ((sent w.calls ≡ sent before ++ (req ∷ [])) ⊎ ((done ≡ false) × (sent w.calls ≡ sent before)))

EntryAsked-intro :
    (req : Request) (before : List Call) (r : Option ReplyResult) (w : World)
    → Asked req before r w
    → EntryAsked req before (is_some r) w
EntryAsked-intro req before r w a = elim a.request [
  | inl e ↦ (a.connection, inl e)
  | inr (e, f) ↦ (a.connection, inr (ap is_some e, f))
]

pub then_is_some :
    (req : Request) (before : List Call) (r : Ran (Option ReplyResult))
    → RanEnsures (Asked req before) r
    → RanEnsures
        (EntryAsked req before)
        (elim r [ crashed ↦ crashed | ran a w' ↦ ran (is_some a) w' ])
then_is_some req before crashed h = tt
then_is_some req before (ran r w) h = EntryAsked-intro req before r w h

pub set_span_entry_lem :
    (v : Vapi) (from to : ℕ) (state : SpanState) (is_l2 : Bool) (w : World)
    → IsIn connected w
    → RanEnsures
        (EntryAsked (set_span_state from to state is_l2) w.calls)
        (set_span_entry v from to state is_l2 w)
unfolding set_span_entry
set_span_entry_lem v from to state is_l2 w h =
    let req = set_span_state from to state is_l2 in
    then_is_some req w.calls (transact v unguarded_cb req w) (transact_lem v unguarded_cb req w h)

-- The requests that disable the entries whose source is the interface, in the order of the table.
unfoldable pub disables : ℕ → List SpanEntry → List Request
disables source [] = []
disables source (e ∷ entries) =
    let rest = disables source entries in
    if e.sw_if_index_from == source
    then set_span_state e.sw_if_index_from e.sw_if_index_to disabled e.is_l2 ∷ rest
    else rest

-- The first n of some requests were sent, and on success all of them.
pub record Removed (requests : List Request) (before : List Call) (done : Bool) (w : World)
    : Type 0 where
  pub count : ℕ
  pub connection : IsIn connected w
  pub all_of_them : done ≡ true → take count requests ≡ requests
  pub requests_sent : sent w.calls ≡ sent before ++ take count requests

Removed-cons :
    (req : Request) (requests : List Request) (before after : List Call) (done : Bool) (w : World)
    → sent after ≡ sent before ++ (req ∷ [])
    → Removed requests after done w
    → Removed (req ∷ requests) before done w
Removed-cons req requests before after done w e r = record {
  count = suc r.count;
  connection = r.connection;
  all_of_them = λ d. ap (λ l. req ∷ l) (r.all_of_them d);
  requests_sent =
      r.requests_sent
      ∙ ap (λ l. l ++ take r.count requests) e
      ∙ append_assoc (sent before) (req ∷ []) (take r.count requests);
}

-- One request, and after its success the requests of a command.
module _ (req : Request) (requests : List Request) (rest : M Bool)
    (rest_lem : (w : World)
      → IsIn connected w
      → RanEnsures (Removed requests w.calls) (rest w)) where
  asked_then :
      (before : List Call) (done : Bool) (w : World)
      → EntryAsked req before done w
      → RanEnsures (Removed (req ∷ requests) before) ((if not done then pure false else rest) w)
  asked_then before true w (k, inl s) =
      RanEnsures-map (Removed requests w.calls) (Removed (req ∷ requests) before) (rest w)
        (λ done w' r. Removed-cons req requests before w.calls done w' s r) (rest_lem w k)
  asked_then before true w (k, inr (f, s)) = cc
  asked_then before false w (k, inl s) = record {
    count = 1;
    connection = k;
    all_of_them = λ d. cc;
    requests_sent = s;
  }
  asked_then before false w (k, inr (f, s)) = record {
    count = 0;
    connection = k;
    all_of_them = λ d. cc;
    requests_sent = s ∙ sym (append-nil (sent before));
  }

  pub ask_then :
      (before : List Call) (r : Ran Bool)
      → RanEnsures (EntryAsked req before) r
      → RanEnsures
          (Removed (req ∷ requests) before)
          (elim r [ crashed ↦ crashed | ran done w ↦ (if not done then pure false else rest) w ])
  ask_then before crashed k = tt
  ask_then before (ran done w) k = asked_then before done w k

-- The loop of `boy_unset_span`, on a connected context, sends a disable request for each entry of
-- the table whose source is the interface, in the order of the table, and no other request. It
-- stops at the first one that fails, so that what it sent is always a prefix of these; if it
-- succeeds it is all of them. Nothing is said of a run that reads a NULL reply.
pub remove_spans_lem :
    (v : Vapi) (source : ℕ) (entries : List SpanEntry) (w : World)
    → IsIn connected w
    → RanEnsures (Removed (disables source entries) w.calls) (remove_spans v source entries w)
unfolding remove_spans disables
remove_spans_lem v source [] w h = record {
  count = 0;
  connection = h;
  all_of_them = λ d. refl;
  requests_sent = sym (append-nil (sent w.calls));
}
remove_spans_lem v source (e ∷ entries) w h = elim (Bool-cases (e.sw_if_index_from == source)) [
  | inl p ↦
      let to = e.sw_if_index_to in
      rw p (
        ask_then (set_span_state e.sw_if_index_from to disabled e.is_l2) (disables source entries)
          (remove_spans v source entries) (remove_spans_lem v source entries) w.calls
          (set_span_entry v e.sw_if_index_from to disabled e.is_l2 w)
          (set_span_entry_lem v e.sw_if_index_from to disabled e.is_l2 w h))
  | inr p ↦ rw p (remove_spans_lem v source entries w h)
]
