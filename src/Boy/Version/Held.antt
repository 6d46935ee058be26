-- ===== src/Boy/Version/Held.antt =====
-- boy_show_version comes to an end with no context held and no memory taken.
use beastie_boy.Boy.Client.{is_ok}
use beastie_boy.Boy.Client.Holding.{IsClean, opened-IsClean, close-Ends}
use beastie_boy.Boy.Client.Returns.{Any, HasReplies, IsExchanged, IsAnswered, replied-IsExchanged}
use beastie_boy.Boy.Version.{
  VersionResult, no_version, show_version_cb, check_version, ask_for_version,
  show_version_connected, show_version,
}
use beastie_boy.Boy.Vpp.{
  VapiError, Call, VersionDetails, ask_version, alloc_message, send, Exchange, Vapi, World,
}
use beastie_boy.Boy.Vpp.Ends.{EndsIn, Ends-bind, Holding, Keeps}
use beastie_boy.Boy.Vpp.Monad.{Exchanged, broken, exchanged, exchange}
use beastie_boy.Boy.Vpp.Session.{no_context, connected, after_call, session}
use beastie_boy.Common.Log.{LogLevel}
use beastie_boy.Prelude.{
  ℕ, Bool, true, false, none, some, List, [], ◌∷◌, ◌==◌, ◌≡◌, arith, Bool-cases, inl, inr,
}

show_version_cb-IsExchanged :
    (e : Exchange VersionDetails) (s : VersionResult)
    → HasReplies e
    → IsExchanged Any (exchange show_version_cb e s)
unfolding show_version_cb
show_version_cb-IsExchanged = replied-IsExchanged show_version_cb on_some on_none
  where
    on_some :
        (rv : VapiError) (is_last : Bool) (d : VersionDetails) (s : VersionResult)
        → IsAnswered Any (show_version_cb rv is_last (some d) s)
    on_some rv is_last d s = elim (Bool-cases (is_ok rv)) [ inl e ↦ simp e tt | inr e ↦ simp e tt ]

    on_none :
        (rv : VapiError) (is_last : Bool) (s : VersionResult)
        → is_ok rv ≡ false
        → IsAnswered Any (show_version_cb rv is_last none s)
    on_none rv is_last s e = simp e tt

check_version-EndsIn :
    (level : LogLevel) (P : World → Type 0) (r : Exchanged VersionResult) (w : World)
    → IsExchanged Any r
    → P w
    → EndsIn (λ _. P) (check_version level r w)
unfolding check_version
check_version-EndsIn level P broken w p h = p
check_version-EndsIn level P (exchanged err r) w p h = elim (Bool-cases (is_ok err)) [
  | inl e ↦ elim (Bool-cases r.received_reply) [
    | inl f ↦ elim (Bool-cases (r.retval == 0)) [
      | inl g ↦ simp (e, f, g) h
      | inr g ↦ simp (e, f, g) h
    ]
    | inr f ↦ simp (e, f) h
  ]
  | inr e ↦ simp e h
]

ask_for_version-Keeps :
    (v : Vapi) (level : LogLevel) (n : ℕ)
    → ((calls : List Call) → HasReplies (v.versions calls))
    → Keeps connected n (ask_for_version v level)
unfolding ask_for_version session after_call
ask_for_version-Keeps v level n replies w h =
    let in_session = h.session in
    let calls = alloc_message ask_version true ∷ w.calls in
    elim (Bool-cases (v.allocs_message w.calls ask_version)) [
      | inl e ↦ rw e (
          check_version-EndsIn level (Holding connected n)
            (exchange show_version_cb (v.versions calls) no_version)
            (record w { calls = send ask_version ∷ calls })
            (show_version_cb-IsExchanged (v.versions calls) no_version (replies calls))
            (record { session = ground arith; live = h.live }))
      | inr e ↦ rw e (record { session = ground arith; live = h.live })
    ]

pub show_version-IsClean :
    (v : Vapi) (level : LogLevel)
    → ((calls : List Call) → HasReplies (v.versions calls))
    → IsClean (show_version v level)
unfolding show_version show_version_connected
show_version-IsClean v level replies =
    opened-IsClean v (show_version_connected v level) (false, [])
      (λ n.
        Ends-bind (Holding connected n) (λ _. Holding connected n) (λ _. Holding no_context n)
          (ask_for_version v level) _ (ask_for_version-Keeps v level n replies) (close-Ends n))
