-- ===== src/Lib.antt =====
-- A model of beastie-boy: beastie captures packets from a memif interface into a pcap file, and boy
-- shows and changes the interfaces and SPAN entries of VPP.
--
-- Common (common/): Common/Table and its modules are common/table.c. Growth is app_table_reserve_rows,
-- also used for boy_reserve_entries of boy/collectors.c; Rows is app_table_init, app_table_add_row and
-- app_table_free; Memory and Lifecycle prove what they do with memory; Widths, Shrink, Cells and
-- Render are app_table_render, with the lemmas in Shrink/Ends, Shrink/Slack and Render/Lines.
-- Common/Allocator stands for malloc and free: it counts requests and blocks, and a function decides
-- which requests are granted. Common/Strtoul is strtoul of the C library, and Common/Strtoul/Number
-- the grammar of the texts that it reads to their end. Common/Log, Common/Bytes and Common/VersionText
-- are the log levels, the byte counts and the version text of common/common.c, and Common/Double the
-- numbers of type double that these and the progress line compute with. Common/Options is an entry of
-- the tables for getopt_long of both programs.
--
-- Beastie (beastie/): Beastie/PcapWriter is beastie/pcap_writer.c with its static variables; libpcap
-- is a parameter (Libpcap) that says which calls succeed. Beastie/State is the state, the progress
-- line and the summary of beastie/commands/capture_cmd.c, Beastie/Capture its on_interrupt, and
-- Beastie/Capture/Run the other callbacks, the main loop, the signal handler and beastie_run_capture.
-- libmemif is a parameter: a run is given the polls that return, each with the callbacks and signals
-- before its return, so that all their orders are covered. capture_packets calls the writer as
-- on_interrupt does, and run_capture closes it. Beastie/Cli is beastie/cli_options.c over the results
-- of getopt_long, with beastie/main.c: main parses the options and hands them to run_capture, or ends
-- with a text. Its usage text is in Beastie/Cli/Usage. A capture records what it prints, log messages
-- with their levels; Beastie/Log is beastie/beastie_log.c, which makes the output of it at the level
-- of the command line. The texts of memif_strerror are a parameter.
--
-- Boy (boy/): Boy/Cli is boy/cli_options.c over the results of getopt_long, with the usage text in
-- Boy/Cli/Usage, and Boy/Log is boy/boy_log.c. Boy/Vpp stands for libvapi: a request is an exchange of
-- callbacks that ends with an error code, and the calls made are recorded; Boy/Vpp/Monad runs commands
-- over it, Boy/Vpp/Session says which order of calls is allowed, and Boy/Vpp/Ends has the rules for
-- commands that end. Boy/Client is boy/vpp_client.c, Boy/Collectors is boy/collectors.c, Boy/Span is
-- boy_set_span and boy_unset_span of boy/commands/span_cmd.c, Boy/Memif is boy_create_memif of
-- boy/commands/memif_cmd.c, and Boy/Show is boy_show_memif and boy_show_span, which print tables of
-- Common/Table. Boy/Version is boy/commands/version_cmd.c. Boy/Phy is boy/commands/phy_cmd.c, with its
-- reader of the output of show hardware-interfaces in Boy/Hardware. These call Client for the
-- connection and Collectors for the tables. Boy/Main is boy/main.c, which selects one of them.
--
-- What holds of single requests is carried to whole commands by the rules of Boy/Client/Rules: once
-- for the order of calls, once for the end of the run, and once for the memory besides. The modules
-- named Held and Clean follow the memory of each command, and Sessions and Closed its connection.
-- Boy/Client/Answers says when a request is accepted by VPP, from the exchange itself, and that it
-- then succeeds.
--
-- Numbers are natural numbers. size_t, uint64_t and unsigned long wrap at 2^64 where the code adds or
-- multiplies (add64, mul64), and uint32_t at 2^32. C strings are lists of bytes without the final
-- zero.
--
-- Fuel: the doubling loop of Growth has 65 rounds, enough for every count up to 2^63, and the loop of
-- Shrink has one round more than the overflow, which each round lowers. Rounding to 53 bits has fuel
-- for numbers below 2^64, and for their products by 100. The other loops are over lists.
--
-- Not modelled: the log messages of the commands of boy, apart from those that carry the version of
-- VPP; the messages on stderr about wrong arguments of boy; the installation of the signal handlers,
-- and a signal that comes between it and the main loop; the texts that are copied into the arguments
-- of libmemif; a message of libvapi that is left to the caller when sending it fails.
pub mod Prelude
pub mod Common
pub mod Beastie
pub mod Boy
mod Tests
