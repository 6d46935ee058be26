-- ===== src/Common/Log.antt =====
-- The log levels of common/common.c and common/common.h, and the gate that boy/boy_log.c and
-- beastie/beastie_log.c put before each message. A message is given with its arguments printed.
use beastie_boy.Prelude.{
  ℕ, Option, none, some, List, [], ◌∷◌, ◌++◌, CString, codes, str_eq, str_eq_iff, ltb,
  if◌then◌else◌, ◌≡◌, refl, ◌↔◌, arith,
}

pub data LogLevel : Type 0 where
  error warning info debug : LogLevel

-- The value of the enumeration constant.
abbrev pub level_value : LogLevel → ℕ
level_value error = 0
level_value warning = 1
level_value info = 2
level_value debug = 3

unfoldable pub level_name : LogLevel → CString
level_name error = codes "ERROR"
level_name warning = codes "WARNING"
level_name info = codes "INFO"
level_name debug = codes "DEBUG"

-- `none` is the return value -1, which leaves the caller's level as it was.
unfoldable pub parse_log_level : CString → Option LogLevel
parse_log_level value =
    if str_eq value (codes "error")
    then some error
    else if str_eq value (codes "warning")
    then some warning
    else if str_eq value (codes "info")
    then some info
    else if str_eq value (codes "debug")
    then some debug
    else none

-- `app_log_message`, `boy_log` and `beastie_log`: what is written after the output so far.
unfoldable pub log_message : LogLevel → LogLevel → CString → CString → CString
unfolding level_name
log_message current level message output =
    if ltb (level_value current) (level_value level)
    then output
    else output ++ (b'[' ∷ (level_name level ++ (b']' ∷ (b' ' ∷ (message ++ (b'\n' ∷ []))))))

-- The word that selects a level on the command line.
abbrev pub level_word : LogLevel → CString
level_word error = codes "error"
level_word warning = codes "warning"
level_word info = codes "info"
level_word debug = codes "debug"

parse_log_level-level_word : (l : LogLevel) → parse_log_level (level_word l) ≡ some l
unfolding parse_log_level str_eq
parse_log_level-level_word error = refl
parse_log_level-level_word warning = refl
parse_log_level-level_word info = refl
parse_log_level-level_word debug = refl

parse_log_level-eq-some :
    (value : CString) (l : LogLevel) → parse_log_level value ≡ some l → value ≡ level_word l
unfolding parse_log_level
parse_log_level-eq-some value error h = ground (arith, str_eq_iff value (codes "error"))
parse_log_level-eq-some value l h = ground (
  arith,
  str_eq_iff value (codes "error"),
  str_eq_iff value (codes "warning"),
  str_eq_iff value (codes "info"),
  str_eq_iff value (codes "debug"),
)

-- A level is selected by its word and by no other text.
pub parse_log_level_lem :
    (value : CString) (l : LogLevel) → (parse_log_level value ≡ some l) ↔ (value ≡ level_word l)
parse_log_level_lem value l =
    (parse_log_level-eq-some value l, λ e. rw e (parse_log_level-level_word l))

-- The level whose word is the text.
pub level_called : CString → Option LogLevel
level_called text = among (error ∷ warning ∷ info ∷ debug ∷ [])
  where
    among : List LogLevel → Option LogLevel
    among [] = none
    among (l ∷ levels) =
        let rest = among levels in if str_eq text (level_word l) then some l else rest

pub parse_log_level-level_called : (value : CString) → parse_log_level value ≡ level_called value
unfolding parse_log_level level_called
parse_log_level-level_called value = refl
