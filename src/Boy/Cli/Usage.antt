-- ===== src/Boy/Cli/Usage.antt =====
-- boy_print_usage of boy/cli_options.c, and its tables of long and short options.
use beastie_boy.Common.Options.{LongOption}
use Prim.Native.String.{String}
use beastie_boy.Prelude.{true, false, List, [], ◌∷◌, ◌++◌, CString, codes}

-- The part of the usage text that describes the options.
unfoldable pub options_text : CString
options_text =
    codes " [options]\n\nOptions:\n  -h, --help\n      Show this help message and exit.\n\n"
    ++ codes "  -V, --version\n      Show the Boy code version derived from Git tags and commit.\n"
    ++ codes "\n  -l, --log-level <error|warning|info|debug>\n      Set the message verbosity.\n"
    ++ codes "      Default: info\n\n  -v, --show-vpp\n"
    ++ codes "      Query the current VPP version using libvapi.\n"
    ++ codes "      This is the default action if no option is given.\n\n  -s, --show-span\n"
    ++ codes "      List SPAN/mirror candidate interfaces and current state.\n\n"
    ++ codes "  -m, --show-memif\n      Query the current memif configuration using libvapi.\n\n"
    ++ codes "  -p, --show-phy\n      Query physical interface details via libvapi.\n\n"
    ++ codes "  -c, --create-memif\n      Create a memif interface in VPP.\n"
    ++ codes "      Defaults: --id 0 --socket-id 0 --ring-size 1024 --buffer-size 2048\n\n"
    ++ codes "      --id <memif-id>\n      --socket-id <socket-id>\n      --ring-size <slots>\n"
    ++ codes "      --buffer-size <bytes>\n"
    ++ codes "      Override memif creation parameters used with --create-memif.\n\n"
    ++ codes "  -u, --unset-span <if-index>\n"
    ++ codes "      Remove all SPAN entries configured on source interface\n"
    ++ codes "      with VPP internal sw_if_index=<if-index>.\n\n"
    ++ codes "  -S, --set-span --iface-idx <if-index> --memif <name> --device <both|rx|tx>\n"
    ++ codes "      Set SPAN from source interface <if-index> to destination memif\n"
    ++ codes "      interface <name> with selected device direction.\n\n"

-- An example: the program with these arguments.
abbrev line_for : CString → String → CString
line_for progname arguments = codes "  " ++ (progname ++ (codes arguments ++ codes "\n"))

-- The examples at its end, for the name of the program.
unfoldable pub examples_text : CString → CString
examples_text progname =
    codes "Examples:\n"
    ++ line_for progname ""
    ++ line_for progname " --show-span"
    ++ line_for progname " --show-memif"
    ++ line_for progname " --show-phy"
    ++ line_for progname " --create-memif"
    ++ line_for progname " --create-memif --id 1 --socket-id 0"
    ++ line_for progname " --unset-span 5"
    ++ line_for progname " -S --iface-idx 1 --memif memif0/0 --device both"
    ++ line_for progname " --log-level debug"

-- `boy_print_usage`
unfoldable pub usage_text : CString → CString
usage_text progname = codes "Usage:\n  " ++ (progname ++ (options_text ++ examples_text progname))

-- `long_options`, and the short options that `getopt_long` is called with.
abbrev pub long_options : List LongOption
long_options =
    record { name = codes "help"; has_argument = false; value = b'h' }
    ∷ record { name = codes "id"; has_argument = true; value = b'i' }
    ∷ record { name = codes "iface-idx"; has_argument = true; value = b'I' }
    ∷ record { name = codes "log-level"; has_argument = true; value = b'l' }
    ∷ record { name = codes "memif"; has_argument = true; value = b'M' }
    ∷ record { name = codes "buffer-size"; has_argument = true; value = b'B' }
    ∷ record { name = codes "device"; has_argument = true; value = b'D' }
    ∷ record { name = codes "ring-size"; has_argument = true; value = b'R' }
    ∷ record { name = codes "socket-id"; has_argument = true; value = b'o' }
    ∷ record { name = codes "version"; has_argument = false; value = b'V' }
    ∷ record { name = codes "create-memif"; has_argument = false; value = b'c' }
    ∷ record { name = codes "show-memif"; has_argument = false; value = b'm' }
    ∷ record { name = codes "show-phy"; has_argument = false; value = b'p' }
    ∷ record { name = codes "show-span"; has_argument = false; value = b's' }
    ∷ record { name = codes "set-span"; has_argument = false; value = b'S' }
    ∷ record { name = codes "unset-span"; has_argument = true; value = b'u' }
    ∷ record { name = codes "show-vpp"; has_argument = false; value = b'v' }
    ∷ []

abbrev pub short_options : CString
short_options = codes "Vchi:I:l:B:D:M:R:o:mpsSu:v"
