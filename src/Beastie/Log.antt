-- ===== src/Beastie/Log.antt =====
-- beastie/beastie_log.c: what a run of beastie has written to stdout at its log level. The level is set
-- once, before anything is printed.
use beastie_boy.Beastie.State.{Printed, drawn, logged, log_error}
use beastie_boy.Common.Log.{LogLevel, error, log_message}
use beastie_boy.Prelude.{ℕ, codes, List, [], ◌∷◌, ◌++◌, CString}

-- `beastie_log` for a message; a text is printed at every level. `strerror` is `memif_strerror`.
unfoldable pub print : (ℕ → CString) → LogLevel → Printed → CString → CString
print strerror current (drawn text) before = before ++ text
print strerror current (logged level message) before = log_message current level message before
print strerror current (log_error function code) before =
    log_message current error (function ++ (codes ": " ++ strerror code)) before

-- All of the output; what was printed comes last one first.
unfoldable pub output : (ℕ → CString) → LogLevel → List Printed → CString
output strerror current [] = []
output strerror current (p ∷ lines) = print strerror current p (output strerror current lines)
