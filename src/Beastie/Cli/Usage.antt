-- ===== src/Beastie/Cli/Usage.antt =====
-- print_usage of beastie/cli_options.c, and its tables of long and short options.
use beastie_boy.Beastie.State.{
  default_memif_socket_path, default_max_capture_bytes, default_memif_id,
}
use beastie_boy.Common.Bytes.{format_bytes_compact}
use beastie_boy.Common.Options.{LongOption}
use beastie_boy.Common.Strtoul.{decimal}
use Prim.Native.String.{String}
use beastie_boy.Prelude.{true, false, List, [], ◌∷◌, ◌++◌, CString, codes}

-- The part of the usage text that describes the options, with the defaults of beastie/beastie.h.
unfoldable pub options_text : CString
options_text =
    codes " [options]\n\nOptions:\n  -h, --help\n      Show this help message and exit.\n\n"
    ++ codes "  -V, --version\n"
    ++ codes "      Show the Beastie code version derived from Git tags and commit.\n\n"
    ++ codes "  -l, --log-level <error|warning|info|debug>\n      Set the message verbosity.\n"
    ++ codes "      Default: info\n\n  -w, --write <file>\n"
    ++ codes "      Write captured packets to <file> in PCAP format.\n"
    ++ codes "      Default: capture.pcap\n\n  -m, --max-bytes <bytes>\n"
    ++ codes "      Stop capturing when the output reaches <bytes> of packet data.\n      Default: "
    ++ decimal default_max_capture_bytes
    ++ codes " ("
    ++ format_bytes_compact default_max_capture_bytes 32
    ++ codes ")\n\n  -i, --id <memif-id>\n"
    ++ codes "      Use <memif-id> as the memif peer identifier.\n"
    ++ codes "      This value must match the memif id configured in VPP.\n      Default: "
    ++ decimal default_memif_id
    ++ codes
        "\n\n  -s, --socket <path>\n      Use <path> as the memif socket path.\n      Default: "
    ++ default_memif_socket_path
    ++ codes "\n\n"

-- An example: the program with these arguments.
abbrev line_for : CString → String → CString
line_for progname arguments = codes "  " ++ (progname ++ (codes arguments ++ codes "\n"))

-- The examples at its end, for the name of the program.
unfoldable pub examples_text : CString → CString
examples_text progname =
    codes "Examples:\n"
    ++ line_for progname " --log-level debug"
    ++ line_for progname " --write trace.pcap"
    ++ line_for progname " --write trace.pcap --max-bytes 1048576"
    ++ line_for progname " --id 3 --write trace.pcap"
    ++ line_for progname " --socket /run/vpp/custom.sock --write trace.pcap"

-- `print_usage`
unfoldable pub print_usage : CString → CString
print_usage progname = codes "Usage:\n  " ++ (progname ++ (options_text ++ examples_text progname))

-- `long_options`, and the short options that `getopt_long` is called with.
abbrev pub long_options : List LongOption
long_options =
    record { name = codes "help"; has_argument = false; value = b'h' }
    ∷ record { name = codes "id"; has_argument = true; value = b'i' }
    ∷ record { name = codes "log-level"; has_argument = true; value = b'l' }
    ∷ record { name = codes "version"; has_argument = false; value = b'V' }
    ∷ record { name = codes "socket"; has_argument = true; value = b's' }
    ∷ record { name = codes "write"; has_argument = true; value = b'w' }
    ∷ record { name = codes "max-bytes"; has_argument = true; value = b'm' }
    ∷ []

abbrev pub short_options : CString
short_options = codes "Vhi:l:m:s:w:"
