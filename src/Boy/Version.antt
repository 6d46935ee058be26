-- ===== src/Boy/Version.antt =====
-- boy/commands/version_cmd.c: the version of VPP. The messages that carry it are the output; the other
-- log messages are left out.
pub mod Shown
pub mod Held
use beastie_boy.Boy.Client.{is_ok, open_vapi, close_vapi}
use beastie_boy.Boy.Client.Strings.{copy_api_string}
use beastie_boy.Boy.Vpp.{vapi_ok, VersionDetails, ask_version, alloc_message, send, Vapi}
use beastie_boy.Boy.Vpp.Monad.{
  crashed, ran, M, pure, ◌>>=◌, fails, answers, Callback, Exchanged, broken, exchanged, exchange,
}
use beastie_boy.Common.Log.{LogLevel, info, debug, log_message}
use beastie_boy.Prelude.{
  ℕ, Bool, true, false, none, some, List, [], ◌∷◌, ◌++◌, CString, codes, ◌==◌, if◌then◌else◌,
}

-- `boy_vpp_version_result_t`
pub record VersionResult : Type 0 where
  pub received_reply : Bool
  pub retval : ℕ
  pub program : CString
  pub version : CString
  pub build_date : CString
  pub build_directory : CString

abbrev pub no_version : VersionResult
no_version = record {
  received_reply = false;
  retval = 0;
  program = [];
  version = [];
  build_date = [];
  build_directory = [];
}

-- The text that `boy_copy_api_string` puts into a buffer of `size` bytes.
abbrev pub field_text : ℕ → List ℕ → CString
field_text size src = elim (copy_api_string size src) [ none ↦ [] | some s ↦ s ]

-- The result after a reply.
unfoldable pub version_result : VersionDetails → VersionResult
version_result r = record {
  received_reply = true;
  retval = r.retval;
  program = field_text 33 r.program;
  version = field_text 33 r.version;
  build_date = field_text 33 r.build_date;
  build_directory = field_text 257 r.build_directory;
}

-- `boy_show_version_cb`, which reads the reply without a test.
unfoldable pub show_version_cb : Callback VersionDetails VersionResult
show_version_cb rv is_last none s = if is_ok rv then fails else answers rv s
show_version_cb rv is_last (some r) s =
    if is_ok rv then answers vapi_ok (version_result r) else answers rv s

-- The four messages at the end, for the level that is set.
unfoldable pub version_text : LogLevel → VersionResult → CString
version_text level r = log_message level debug (codes "build directory: " ++ r.build_directory) (
    log_message level debug (codes "build date: " ++ r.build_date) (
      log_message level info (codes "version: " ++ r.version)
        (log_message level info (codes "program: " ++ r.program) [])))

-- The tests after the request.
unfoldable pub check_version : LogLevel → Exchanged VersionResult → M (Bool × CString)
check_version level broken w = crashed
check_version level (exchanged err r) w =
    if is_ok err
    then (if r.received_reply
        then (if r.retval == 0 then ran (true, version_text level r) w else ran (false, []) w)
        else ran (false, []) w)
    else ran (false, []) w

-- `boy_show_version` on an open connection, up to its label `cleanup`; there is no message to free there,
-- since it was sent or could not be allocated.
unfoldable pub ask_for_version : Vapi → LogLevel → M (Bool × CString)
ask_for_version v level w =
    let allocated = v.allocs_message w.calls ask_version in
    let calls = alloc_message ask_version allocated ∷ w.calls in
    if allocated
    then check_version level (exchange show_version_cb (v.versions calls) no_version)
        (record w { calls = send ask_version ∷ calls })
    else ran (false, []) (record w { calls = calls })

unfoldable pub show_version_connected : Vapi → LogLevel → M (Bool × CString)
show_version_connected v level = do shown ← ask_for_version v level; _ ← close_vapi true; pure shown

-- `boy_show_version`
unfoldable pub show_version : Vapi → LogLevel → M (Bool × CString)
show_version v level = do
  opened ← open_vapi v
  if opened then show_version_connected v level else pure (false, [])
