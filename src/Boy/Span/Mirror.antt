-- ===== src/Boy/Span/Mirror.antt =====
-- The requests by which boy_set_span of boy/commands/span_cmd.c mirrors one interface to another.
use beastie_boy.Boy.Cli.{DeviceMode, rx, tx, both, parse_device_mode}
use beastie_boy.Boy.Client.{set_flags_cb, transact, is_some, set_interface_admin_up}
use beastie_boy.Boy.Client.Sessions.{transact_lem}
use beastie_boy.Boy.Collectors.{InterfaceEntry, span_state_device}
use beastie_boy.Boy.Span.{
  find_by_index, find_by_name, span_state_from_device_mode, bring_up, mirror, bring_up_and_mirror,
  configure,
}
use beastie_boy.Boy.Span.Removal.{EntryAsked, then_is_some, set_span_entry_lem}
use beastie_boy.Boy.Vpp.{Request, Call, set_span_state, set_admin_up, Vapi, World}
use beastie_boy.Boy.Vpp.Monad.{
  Ran, crashed, ran, M, pure, ◌>>=◌, RanEnsures, RanEnsures-map, RanEnsures-bind,
}
use beastie_boy.Boy.Vpp.Session.{connected, IsIn, sent}
use beastie_boy.Prelude.{
  ℕ, Bool, true, false, not, Option, none, some, List, [], ◌∷◌, ◌++◌, CString, codes, str_eq,
  starts_with, ◌==◌, if◌then◌else◌, Bool-cases, inl, inr, refl, ◌≡◌, ◌≢◌, ◌∙◌, sym, ap, arith,
  append_assoc, append-nil,
}
use beastie_boy.Boy.Span.Lookup.{IsFirst, find_by_index-IsFirst, find_by_name-IsFirst}

-- The request that sets an interface admin-up, for one that is not.
abbrev pub up_requests : InterfaceEntry → List Request
up_requests e = if e.flags.admin_up then [] else set_admin_up e.sw_if_index ∷ []

-- What a step leaves on success: the connection, and its requests sent after the others.
abbrev pub Sends : List Request → List Call → Bool → World → Type 0
Sends requests before done w =
    IsIn connected w × (done ≡ true → sent w.calls ≡ sent before ++ requests)

pub Sends-asked :
    (req : Request) (before : List Call) (done : Bool) (w : World)
    → EntryAsked req before done w
    → Sends (req ∷ []) before done w
Sends-asked req before done w (k, inl e) = (k, λ d. e)
Sends-asked req before done w (k, inr (f, e)) = (k, λ d. cc)

-- One step after another, which runs only if the first succeeds.
module _ (first second : List Request) (rest : M Bool)
    (rest_lem : (w : World) → IsIn connected w → RanEnsures (Sends second w.calls) (rest w)) where
  Sends-then :
      (before : List Call) (done : Bool) (w : World)
      → Sends first before done w
      → RanEnsures (Sends (first ++ second) before) ((if done then rest else pure false) w)
  Sends-then before true w (k, e) =
      RanEnsures-map (Sends second w.calls) (Sends (first ++ second) before) (rest w)
        (λ done w' s. (
          s.0,
          λ d. s.1 d ∙ ap (λ l. l ++ second) (e refl) ∙ append_assoc (sent before) first second,
        ))
        (rest_lem w k)
  Sends-then before false w (k, e) = (k, λ d. cc)

  Sends-bind :
      (before : List Call) (r : Ran Bool)
      → RanEnsures (Sends first before) r
      → RanEnsures
          (Sends (first ++ second) before)
          (elim r [ crashed ↦ crashed | ran done w ↦ (if done then rest else pure false) w ])
  Sends-bind before crashed k = tt
  Sends-bind before (ran done w) k = Sends-then before done w k

bring_up_lem :
    (v : Vapi) (e : InterfaceEntry) (w : World)
    → IsIn connected w
    → RanEnsures (Sends (up_requests e) w.calls) (bring_up v e w)
unfolding bring_up set_interface_admin_up
bring_up_lem v e w h = elim (Bool-cases e.flags.admin_up) [
  | inl p ↦ rw p (h, λ d. sym (append-nil (sent w.calls)))
  | inr p ↦
      let req = set_admin_up e.sw_if_index in
      let r = transact v set_flags_cb req w in
      rw p (
        RanEnsures-map (EntryAsked req w.calls) (Sends (req ∷ []) w.calls)
          (elim r [ crashed ↦ crashed | ran a w' ↦ ran (is_some a) w' ]) (Sends-asked req w.calls)
          (then_is_some req w.calls r (transact_lem v set_flags_cb req w h)))
]

-- The requests of `boy_set_span` for two interfaces, in order.
abbrev pub mirror_requests : InterfaceEntry → InterfaceEntry → DeviceMode → List Request
mirror_requests source destination mode =
    (up_requests source ++ up_requests destination)
    ++ (set_span_state source.sw_if_index destination.sw_if_index (span_state_from_device_mode mode)
          false
        ∷ [])

bring_up_and_mirror_lem :
    (v : Vapi) (source destination : InterfaceEntry) (mode : DeviceMode) (w : World)
    → IsIn connected w
    → RanEnsures
        (Sends (mirror_requests source destination mode) w.calls)
        (bring_up_and_mirror v source destination mode w)
unfolding bring_up_and_mirror mirror
bring_up_and_mirror_lem v source destination mode w h =
    RanEnsures-bind (Sends (up_requests source) w.calls)
      (Sends (mirror_requests source destination mode) w.calls) (bring_up v source w) _ rest
      (bring_up_lem v source w h)
  where
    spans : List Request
    spans =
        set_span_state source.sw_if_index destination.sw_if_index (span_state_from_device_mode mode)
          false
        ∷ []

    mirror_lem :
        (w : World)
        → IsIn connected w
        → RanEnsures (Sends spans w.calls) (mirror v source destination mode w)
    mirror_lem w k =
        let state = span_state_from_device_mode mode in
        let req = set_span_state source.sw_if_index destination.sw_if_index state false in
        RanEnsures-map (EntryAsked req w.calls) (Sends spans w.calls)
          (mirror v source destination mode w) (Sends-asked req w.calls)
          (set_span_entry_lem v source.sw_if_index destination.sw_if_index state false w k)

    rest :
        (up : Bool) (w' : World)
        → Sends (up_requests source) w.calls up w'
        → RanEnsures (Sends (mirror_requests source destination mode) w.calls) (
            ((if up then bring_up v destination else pure false) >>= λ up'.
            if up' then mirror v source destination mode else pure false)
              w')
    rest up w' k =
        Sends-bind (up_requests source ++ up_requests destination) spans
          (mirror v source destination mode) mirror_lem w.calls
          ((if up then bring_up v destination else pure false) w')
          (Sends-then (up_requests source) (up_requests destination) (bring_up v destination)
            (bring_up_lem v destination) w.calls up w' k)

-- What success of `boy_set_span` means for the interfaces it knows of.
pub record Mirrored (entries : List InterfaceEntry) (index : ℕ) (name : CString) (mode : DeviceMode)
    (before : List Call) (w : World) : Type 0 where
  pub source : InterfaceEntry
  pub destination : InterfaceEntry
  pub source_found : IsFirst (λ e. e.sw_if_index == index) entries source
  pub destination_found : IsFirst (λ e. str_eq e.interface_name name) entries destination
  pub destination_is_memif : starts_with destination.interface_name (codes "memif") ≡ true
  pub are_different : source.sw_if_index ≢ destination.sw_if_index
  pub requests_sent : sent w.calls ≡ sent before ++ mirror_requests source destination mode
  pub direction :
      parse_device_mode (span_state_device (span_state_from_device_mode mode)) ≡ some mode

-- The state that is asked for is shown as the word of the command line that selects it.
direction_of :
    (mode : DeviceMode)
    → parse_device_mode (span_state_device (span_state_from_device_mode mode)) ≡ some mode
unfolding parse_device_mode span_state_device span_state_from_device_mode str_eq
direction_of rx = refl
direction_of tx = refl
direction_of both = refl

-- `configure` once both interfaces are found.
pair_lem :
    (v : Vapi) (entries : List InterfaceEntry) (index : ℕ) (name : CString) (mode : DeviceMode)
    (s t : InterfaceEntry)
    → find_by_index entries index ≡ some s
    → find_by_name entries name ≡ some t
    → (w : World) → IsIn connected w
    → RanEnsures
        (λ done w'. IsIn connected w' × (done ≡ true → Mirrored entries index name mode w.calls w'))
        ((if not (starts_with t.interface_name (codes "memif"))
            then pure false
            else (if s.sw_if_index == t.sw_if_index
                then pure false
                else bring_up_and_mirror v s t mode))
          w)
pair_lem v entries index name mode s t e f w h =
    elim (Bool-cases (starts_with t.interface_name (codes "memif"))) [
      | inl m ↦ elim (Bool-cases (s.sw_if_index == t.sw_if_index)) [
        | inl q ↦ rw (m, q) (h, λ d. cc)
        | inr q ↦
            rw (m, q)
              (RanEnsures-map (Sends (mirror_requests s t mode) w.calls)
                (λ done w'.
                  IsIn connected w' × (done ≡ true → Mirrored entries index name mode w.calls w'))
                (bring_up_and_mirror v s t mode w)
                (λ done w' k. (
                  k.0,
                  λ d. record {
                    source = s;
                    destination = t;
                    source_found = find_by_index-IsFirst entries index s e;
                    destination_found = find_by_name-IsFirst entries name t f;
                    destination_is_memif = m;
                    are_different = λ z. ground arith;
                    requests_sent = k.1 d;
                    direction = direction_of mode;
                  },
                ))
                (bring_up_and_mirror_lem v s t mode w h))
      ]
      | inr m ↦ rw m (h, λ d. cc)
    ]

-- With its interfaces collected, `boy_set_span` keeps its connection, and it succeeds only if the
-- source is the first interface with the index, the destination the first one with the name, the
-- destination's name starts with "memif", and the two have different indices. Then it has sent
-- these requests and no others, in this order: one that sets the source admin-up if it is down, the
-- same for the destination, and one that mirrors the source to the destination, in the state that
-- boy shows by the word that selects the direction on the command line. Nothing is said of a run that reads a NULL reply.
pub configure_lem :
    (v : Vapi) (entries : List InterfaceEntry) (index : ℕ) (name : CString) (mode : DeviceMode)
    (w : World)
    → IsIn connected w
    → RanEnsures
        (λ done w'. IsIn connected w' × (done ≡ true → Mirrored entries index name mode w.calls w'))
        (configure v entries index name mode w)
unfolding configure
configure_lem v entries index name mode w h =
    go (find_by_index entries index) refl (find_by_name entries name) refl
  where
    go :
        (s : Option InterfaceEntry)
        → find_by_index entries index ≡ s
        → (t : Option InterfaceEntry) → find_by_name entries name ≡ t
        → RanEnsures
            (λ done w'.
              IsIn connected w' × (done ≡ true → Mirrored entries index name mode w.calls w'))
            (elim s as (λ _. M Bool) [
              | none ↦ pure false
              | some s ↦ elim t [
                | none ↦ pure false
                | some t ↦
                    if not (starts_with t.interface_name (codes "memif"))
                    then pure false
                    else (if s.sw_if_index == t.sw_if_index
                        then pure false
                        else bring_up_and_mirror v s t mode)
              ]
            ]
              w)
    go none e t f = (h, λ d. cc)
    go (some s) e none f = (h, λ d. cc)
    go (some s) e (some t) f = pair_lem v entries index name mode s t e f w h
