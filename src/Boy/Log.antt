-- ===== src/Boy/Log.antt =====
-- boy/boy_log.c: the log level of the program, and what is logged; beastie/beastie_log.c has the same
-- variable and the first two functions. A message is given with its arguments printed.
use beastie_boy.Common.Log.{LogLevel, info, debug, level_value, level_name, log_message}
use beastie_boy.Common.Strtoul.{decimal}
use beastie_boy.Prelude.{
  ℕ, List, [], ◌∷◌, ◌++◌, append-nil, append_assoc, CString, codes, ltb, if◌then◌else◌, ◌≡◌, refl,
  sym, ◌∙◌, Bool-cases, inl, inr,
}

-- `current_log_level`, and what was printed so far.
pub record Logger : Type 0 where
  pub level : LogLevel
  pub output : CString

abbrev pub fresh_logger : Logger
fresh_logger = record { level = info; output = [] }

-- `boy_set_log_level` and `beastie_set_log_level`
unfoldable pub set_log_level : LogLevel → Logger → Logger
set_log_level level l = record l { level = level }

-- `boy_log` and `beastie_log`
unfoldable pub log : LogLevel → CString → Logger → Logger
log level message l = record l { output = log_message l.level level message l.output }

-- The VPP interface that the build was made for: BOY_VPP_API_SERIES and BOY_VPP_API_VERSION_STR.
pub record ApiTarget : Type 0 where
  pub series : ℕ
  pub version : CString

-- `boy_log_start`
unfoldable pub log_start : ApiTarget → CString → Logger → Logger
log_start target operation l =
    let l₁ = log info (codes "boy starting") l in
    let l₂ =
      log debug
        (codes "build VPP API target: series="
          ++ (decimal target.series ++ (codes " version=" ++ target.version)))
        l₁ in
    log debug operation l₂

-- A message with its level, and all messages of a run.
pub record Message : Type 0 where
  pub level : LogLevel
  pub text : CString

pub log_all : List Message → Logger → Logger
log_all [] l = l
log_all (m ∷ messages) l = log_all messages (log m.level m.text l)

-- A line of the log.
pub log_line : Message → CString
log_line m = b'[' ∷ (level_name m.level ++ (b']' ∷ (b' ' ∷ (m.text ++ (b'\n' ∷ [])))))

-- The lines of the messages that a level lets through, in their order.
pub lines_at : LogLevel → List Message → CString
lines_at level [] = []
lines_at level (m ∷ messages) =
    let rest = lines_at level messages in
    if ltb (level_value level) (level_value m.level) then rest else log_line m ++ rest

log_all-lines_at :
    (messages : List Message) (l : Logger)
    → (Logger.output (log_all messages l) ≡ l.output ++ lines_at l.level messages)
      × (Logger.level (log_all messages l) ≡ l.level)
unfolding log_all lines_at log log_message log_line
log_all-lines_at [] l = (sym (append-nil l.output), refl)
log_all-lines_at (m ∷ messages) l =
    let next = log_all-lines_at messages (log m.level m.text l) in
    elim (Bool-cases (ltb (level_value l.level) (level_value m.level))) [
      | inl e ↦ (next.0 ∙ rw e refl, next.1)
      | inr e ↦
          (next.0 ∙ rw e (append_assoc l.output (log_line m) (lines_at l.level messages)), next.1)
    ]

-- After `boy_set_log_level` or `beastie_set_log_level`, the messages of the level and of the more severe
-- ones are printed after what was printed before, each on a line with its level, in their order, and the
-- others are not.
pub set_log_level-log_all :
    (level : LogLevel) (messages : List Message) (l : Logger)
    → Logger.output (log_all messages (set_log_level level l)) ≡ l.output ++ lines_at level messages
unfolding set_log_level
set_log_level-log_all level messages l = (log_all-lines_at messages (set_log_level level l)).0
