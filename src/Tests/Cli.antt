-- ===== src/Tests/Cli.antt =====
-- The theorems on the command line of boy and on the texts of VPP, applied to small inputs.
use beastie_boy.Boy.Cli.{
  show_version, Opt, opt_set_span, opt_iface_idx, opt_memif, opt_device, parse_if_index, parse_u32,
  parse_cli_options,
}
use beastie_boy.Boy.Cli.Complete.{IsComplete, parse_cli_options-IsComplete}
use beastie_boy.Boy.Cli.Modes.{ParsedEnsures, last_mode, parse_cli_options-mode}
use beastie_boy.Boy.Cli.Numbers.{parse_decimal}
use beastie_boy.Boy.Client.Strings.{copy_api_string, until_zero, copy_api_string_lem}
use beastie_boy.Common.Strtoul.{decimal}
use beastie_boy.Prelude.{
  ◌<◌, none, some, List, [], ◌∷◌, ◌++◌, codes, CString, length, take, ltb, if◌then◌else◌, ◌≡◌, ◌≢◌,
  arith, All, u32_mod,
}

copy_api_string_lem_example :
    (s : CString) × (copy_api_string 4 (codes "eth0" ++ (0 ∷ [])) ≡ some s)
    × (length s < 4)
    × All (λ c. c ≢ 0) s
    × (s ≡ take 3 (until_zero (codes "eth0" ++ (0 ∷ []))))
copy_api_string_lem_example = copy_api_string_lem 4 (codes "eth0" ++ (0 ∷ [])) (omega arith)

parse_decimal_example :
    (parse_if_index (decimal 4294967297) ≡ some 1)
    × (parse_u32 (decimal 4294967297) ≡ (if ltb 4294967297 u32_mod then some 4294967297 else none))
parse_decimal_example = parse_decimal 4294967297 (omega arith)

abbrev set_span_line : List Opt
set_span_line =
    opt_set_span
    ∷ opt_iface_idx (codes "1")
    ∷ opt_memif (codes "memif0/0")
    ∷ opt_device (codes "rx")
    ∷ []

parse_cli_options-mode_example :
    ParsedEnsures
      (λ o. o.mode ≡ last_mode set_span_line show_version)
      (parse_cli_options set_span_line)
parse_cli_options-mode_example = parse_cli_options-mode set_span_line

parse_cli_options-IsComplete_example : ParsedEnsures IsComplete (parse_cli_options set_span_line)
parse_cli_options-IsComplete_example = parse_cli_options-IsComplete set_span_line
