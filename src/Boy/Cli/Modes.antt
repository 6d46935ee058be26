-- ===== src/Boy/Cli/Modes.antt =====
-- Which action boy/cli_options.c selects.
use beastie_boy.Boy.Cli.{
  Mode, show_version, show_span, show_memif, unset_span, set_span, create_memif, show_phy,
  show_code_version, Options, Parsed, parse_ok, exit_success, exit_failure, Opt, opt_version,
  opt_create_memif, opt_show_memif, opt_show_phy, opt_show_span, opt_set_span, opt_show_vpp,
  opt_unset_span, Progress, defaults, Step, goes_on, exits_success, exits_failure, step,
  check_combination, parse_loop, parse_cli_options,
}
use beastie_boy.Prelude.{Option, none, some, List, [], ◌∷◌, ◌≡◌, refl, arith}

-- The mode that an option selects, if it selects one.
abbrev pub mode_of : Opt → Option Mode
mode_of opt_version = some show_code_version
mode_of opt_create_memif = some create_memif
mode_of opt_show_memif = some show_memif
mode_of opt_show_phy = some show_phy
mode_of opt_show_span = some show_span
mode_of opt_set_span = some set_span
mode_of opt_show_vpp = some show_version
mode_of (opt_unset_span arg) = some unset_span
mode_of _ = none

abbrev pub or_mode : Option Mode → Mode → Mode
or_mode none m = m
or_mode (some n) m = n

-- The mode of the last option that selects one.
pub last_mode : List Opt → Mode → Mode
last_mode [] m = m
last_mode (o ∷ opts) m = last_mode opts (or_mode (mode_of o) m)

abbrev pub StepEnsures : (Progress → Type 0) → Step → Type 0
StepEnsures P (goes_on p) = P p
StepEnsures P _ = Unit

abbrev pub ParsedEnsures : (Options → Type 0) → Parsed → Type 0
ParsedEnsures P (parse_ok o) = P o
ParsedEnsures P _ = Unit

step-mode :
    (o : Opt) (p : Progress)
    → StepEnsures (λ p'. p'.options.mode ≡ or_mode (mode_of o) p.options.mode) (step o p)
unfolding step
step-mode opt_version p = refl
step-mode o p = ground arith

check_combination-mode :
    (p : Progress) → ParsedEnsures (λ o. o.mode ≡ p.options.mode) (check_combination p)
unfolding check_combination
check_combination-mode p = ground arith

parse_loop-mode :
    (opts : List Opt) (p : Progress)
    → ParsedEnsures (λ o. o.mode ≡ last_mode opts p.options.mode) (parse_loop opts p)
unfolding parse_loop last_mode
parse_loop-mode [] p = check_combination-mode p
parse_loop-mode (o ∷ opts) p = go (step o p) (step-mode o p) (parse_loop-mode opts)
  where
    go :
        (s : Step)
        → StepEnsures (λ p'. p'.options.mode ≡ or_mode (mode_of o) p.options.mode) s
        → ((p' : Progress)
            → ParsedEnsures (λ o'. o'.mode ≡ last_mode opts p'.options.mode) (parse_loop opts p'))
        → ParsedEnsures
            (λ o'. o'.mode ≡ last_mode opts (or_mode (mode_of o) p.options.mode))
            (elim s [
              | goes_on p' ↦ parse_loop opts p'
              | exits_success ↦ exit_success
              | exits_failure ↦ exit_failure
            ])
    go (goes_on p') e rec = rw (← e) (rec p')
    go exits_success e rec = tt
    go exits_failure e rec = tt

-- An accepted command line selects the action of its last option that names one, and the query of
-- the VPP version if none does.
pub parse_cli_options-mode :
    (opts : List Opt)
    → ParsedEnsures (λ o. o.mode ≡ last_mode opts show_version) (parse_cli_options opts)
unfolding parse_cli_options
parse_cli_options-mode opts = parse_loop-mode opts defaults
