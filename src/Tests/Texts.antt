-- ===== src/Tests/Texts.antt =====
-- The theorems on byte counts and logs, applied to small inputs.
use beastie_boy.Boy.Log.{
  fresh_logger, set_log_level, log, log_start, Logger, Message, log_all, lines_at,
  set_log_level-log_all,
}
use beastie_boy.Common.Bytes.{format_bytes_compact, compact_text, scale, hundredths}
use beastie_boy.Common.Bytes.Reading.{IsReading, format_bytes_compact_lem}
use beastie_boy.Common.Double.{round_even, rounded, spacing}
use beastie_boy.Common.Log.{error, warning, debug, log_message, level_name}
use beastie_boy.Common.Strtoul.{decimal, digits_before}
use beastie_boy.Prelude.{List, [], ◌∷◌, ◌++◌, codes, ◌≡◌, refl, arith}

format_bytes_compact_lem_example : IsReading 655360 (format_bytes_compact 655360 32)
format_bytes_compact_lem_example = format_bytes_compact_lem 655360 32 (omega arith) (omega arith)

-- An exact count, one with a fraction, and one that is rounded up to the next unit.
prints_bytes :
    (format_bytes_compact 655360 32 ≡ codes "640 KiB")
    × (format_bytes_compact 1536 32 ≡ codes "1.50 KiB")
    × (format_bytes_compact 1048575 32 ≡ codes "1024.00 KiB")
unfolding format_bytes_compact compact_text scale hundredths round_even rounded spacing decimal
    digits_before
prints_bytes = (refl, refl, refl)

abbrev messages : List Message
messages =
    record { level = error; text = codes "no" } ∷ record { level = debug; text = codes "hm" } ∷ []

set_log_level-log_all_example :
    Logger.output (log_all messages (set_log_level warning fresh_logger))
    ≡ [] ++ lines_at warning messages
set_log_level-log_all_example = set_log_level-log_all warning messages fresh_logger

-- At the default level a command logs that it starts, and no details.
logs_start :
    Logger.output (
      log_start (record { series = 2506; version = codes "25.06" }) (codes "querying") fresh_logger)
    ≡ codes "[INFO] boy starting\n"
unfolding log_start log log_message level_name decimal digits_before
logs_start = refl
