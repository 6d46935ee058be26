-- ===== src/Tests/Main.antt =====
-- Runs of boy against the VPP of Tests/Commands, and the theorems on its physical interfaces command and
-- its entry point applied to them.
use beastie_boy.Boy.Cli.{
  show_span, opt_show_span, opt_version, Options, parse_ok, defaults, parse_cli_options, parse_loop,
  step, check_combination,
}
use beastie_boy.Boy.Collectors.{interface_entry, is_physical_interface}
use beastie_boy.Boy.Hardware.{
  tokens, break_line, rtrim, skip_blanks, read_word, heading, find_position, is_physical_at, select,
  set_card_family, read_heading, read_detail, read_line, read_lines, read_families,
  override_card_family,
}
use beastie_boy.Boy.Hardware.Blocks.{Block}
use beastie_boy.Boy.Hardware.Changes.{AllOverridden}
use beastie_boy.Boy.Hardware.Overrides.{override_card_family-AllOverridden}
use beastie_boy.Boy.Main.{Setting, run, run_options, run_parsed, main}
use beastie_boy.Boy.Main.Closed.{main-Closed}
use beastie_boy.Boy.Main.Clean.{RepliesWithin, main-IsClean}
use beastie_boy.Boy.Main.Unconnected.{Without, main-refuses}
use beastie_boy.Boy.Phy.{phy_link_state, phy_speed, phy_row}
use beastie_boy.Boy.Phy.Cells.{phy_row-whole}
use beastie_boy.Boy.Show.{no_output}
use beastie_boy.Boy.Vpp.{econ_fail}
use beastie_boy.Boy.Vpp.Monad.{ran, RanEnsures}
use beastie_boy.Boy.Vpp.Ends.{EndsIn, Holding}
use beastie_boy.Boy.Vpp.Session.{no_context, IsIn}
use beastie_boy.Common.Strtoul.{
  is_space, is_digit, skip_spaces, scan, convert, after_sign, strtoul, decimal,
}
use beastie_boy.Common.VersionText.{print_version}
use beastie_boy.Boy.Client.Strings.{copy_api_string, until_zero}
use beastie_boy.Tests.Commands.{
  willing, no_blocks, eth, memif, vpp, sizes, at_start, at_start-IsIn, wide, hardware_25,
  vpp-KeepsToInterface,
}
use beastie_boy.Prelude.{
  str_eq, starts_with, contains_char, ◌<◌, true, some, [], ◌∷◌, codes, length, ◌≡◌, refl, arith,
}

abbrev setting : Setting
setting = record {
  vapi = vpp;
  grants = willing;
  sizes = sizes;
  term = wide;
  git_version = codes "v1.0";
}

vpp-RepliesWithin : RepliesWithin 3 vpp
vpp-RepliesWithin = record {
  keeps = vpp-KeepsToInterface;
  memifs = λ calls err. tt;
  versions = λ calls err. tt;
}

main-IsClean_example :
    EndsIn (λ _. Holding no_context 0) (main setting (opt_show_span ∷ []) at_start)
main-IsClean_example =
    main-IsClean 3 setting (opt_show_span ∷ []) vpp-RepliesWithin (omega arith) 0 at_start
      (record { session = at_start-IsIn; live = refl })

main-Closed_example : RanEnsures (λ _. IsIn no_context) (main setting (opt_show_span ∷ []) at_start)
main-Closed_example = main-Closed setting (opt_show_span ∷ []) at_start at_start-IsIn

-- VPP does not run.
abbrev away : Setting
away = record setting { vapi = record vpp { connects = λ _. econ_fail } }

abbrev span_options : Options
span_options = record defaults.options { mode = show_span }

span_options-parsed : parse_cli_options (opt_show_span ∷ []) ≡ parse_ok span_options
unfolding parse_cli_options parse_loop step check_combination
span_options-parsed = refl

main-refuses_example : EndsIn (Without at_start no_output) (main away (opt_show_span ∷ []) at_start)
main-refuses_example =
    main-refuses away (opt_show_span ∷ []) span_options at_start refl span_options-parsed (λ e. cc)

phy_row-whole_example :
    (length (decimal 1) < 16)
    × (length (phy_speed 1_000_000) < 16)
    × (phy_row eth
        ≡ some eth.interface_name
          ∷ some (decimal 1)
          ∷ some (phy_link_state eth.flags)
          ∷ some (phy_speed 1_000_000)
          ∷ some eth.ethernet_address
          ∷ some eth.card_family
          ∷ [])
unfolding interface_entry
phy_row-whole_example = phy_row-whole eth (omega arith) (omega arith)

override_card_family-AllOverridden_example :
    AllOverridden
      (eth ∷ memif ∷ [])
      (override_card_family willing (some hardware_25.reply) (eth ∷ memif ∷ []) no_blocks).0
    × ((override_card_family willing (some hardware_25.reply) (eth ∷ memif ∷ []) no_blocks).1.live
        ≡ 0)
override_card_family-AllOverridden_example =
    override_card_family-AllOverridden willing (some hardware_25.reply) (eth ∷ memif ∷ []) no_blocks

abbrev eth_block : Block
eth_block = record {
  name = codes "eth0";
  pad = 14;
  index = 1;
  link_pad = 4;
  link = codes "up   eth0";
  others_before = codes "  Link speed: 1 Gbps" ∷ [];
  address = codes "02:fe:00:10:20:30";
  family = codes "Intel 82599";
  others_after = codes "    carrier up" ∷ [];
}

-- The family of the only physical interface is read, and the other entry stays.
reads_family :
    override_card_family willing (some hardware_25.reply) (eth ∷ memif ∷ []) no_blocks ≡ (
      record eth { card_family = codes "Intel 82599" } ∷ memif ∷ [],
      record no_blocks { asked = 1 },
    )
unfolding override_card_family read_families tokens break_line read_lines read_line rtrim
    skip_blanks read_heading heading read_word strtoul after_sign convert scan select find_position
    is_physical_at is_physical_interface read_detail set_card_family starts_with contains_char
    str_eq skip_spaces is_space is_digit interface_entry copy_api_string until_zero
reads_family = refl

-- The program and its version, without VPP.
prints_code_version :
    main away (opt_version ∷ []) at_start ≡ ran (true, codes "boy v1.0\n") at_start
unfolding main run_parsed run_options run print_version parse_cli_options parse_loop step
    check_combination
prints_code_version = refl
