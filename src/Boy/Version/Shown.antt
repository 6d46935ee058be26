-- ===== src/Boy/Version/Shown.antt =====
-- What boy_show_version of boy/commands/version_cmd.c prints, and how it uses its connection.
use beastie_boy.Boy.Client.{is_ok}
use beastie_boy.Boy.Client.Connection.{Connected, opened-Closed, close-bind, close-Closed}
use beastie_boy.Boy.Version.{
  VersionResult, no_version, show_version_cb, check_version, ask_for_version,
  show_version_connected, show_version,
}
use beastie_boy.Boy.Vpp.{ask_version, alloc_message, send, Vapi}
use beastie_boy.Boy.Vpp.Monad.{Exchanged, broken, exchanged, exchange, Triple}
use beastie_boy.Boy.Vpp.Session.{no_context, after_call, session, IsIn}
use beastie_boy.Common.Log.{LogLevel}
use beastie_boy.Prelude.{true, false, [], ◌∷◌, ◌==◌, arith, Bool-cases, inl, inr}

check_version-Connected :
    (level : LogLevel) (r : Exchanged VersionResult) → Connected (check_version level r)
unfolding check_version
check_version-Connected level broken w h = tt
check_version-Connected level (exchanged err r) w h = elim (Bool-cases (is_ok err)) [
  | inl e ↦ elim (Bool-cases r.received_reply) [
    | inl f ↦ elim (Bool-cases (r.retval == 0)) [
      | inl g ↦ simp (e, f, g) h
      | inr g ↦ simp (e, f, g) h
    ]
    | inr f ↦ simp (e, f) h
  ]
  | inr e ↦ simp e h
]

ask_for_version-Connected : (v : Vapi) (level : LogLevel) → Connected (ask_for_version v level)
unfolding ask_for_version session after_call
ask_for_version-Connected v level w h = elim (Bool-cases (v.allocs_message w.calls ask_version)) [
  | inl e ↦
      let calls = alloc_message ask_version true ∷ w.calls in
      rw e (
        check_version-Connected level (exchange show_version_cb (v.versions calls) no_version)
          (record w { calls = send ask_version ∷ calls }) (ground arith))
  | inr e ↦ rw e (ground arith)
]

-- `boy_show_version` keeps to the order of calls of libvapi and holds no context at its end, on each
-- path. Nothing is said of a run that reads a NULL reply.
pub show_version-Closed :
    (v : Vapi) (level : LogLevel)
    → Triple (IsIn no_context) (show_version v level) (λ _. IsIn no_context)
unfolding show_version show_version_connected
show_version-Closed v level =
    opened-Closed v (show_version_connected v level) (false, [])
      (close-bind (ask_for_version v level) _ (ask_for_version-Connected v level) close-Closed)
