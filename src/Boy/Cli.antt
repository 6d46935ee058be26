-- ===== src/Boy/Cli.antt =====
-- boy/cli_options.c, boy/cli_options.h and the enumerations of boy/boy.h: the command line of boy.
-- `getopt_long` is not part of the repository: what it returns, call by call, is an argument. Each
-- case label of the switch is a constructor, with `optarg` where the option takes an argument. The
-- messages on stderr are left out.
pub mod Numbers
pub mod Modes
pub mod Complete
pub mod Usage
use beastie_boy.Common.Log.{LogLevel, info, parse_log_level}
use beastie_boy.Common.Strtoul.{Conversion, strtoul}
use beastie_boy.Prelude.{
  ℕ, ◌-◌, ◌%◌, Bool, true, false, not, ◌&&◌, ◌||◌, Option, none, some, List, [], ◌∷◌, CString,
  codes, str_eq, ltb, if◌then◌else◌, u32_mod,
}

-- `boy_mode_t`
pub data Mode : Type 0 where
  show_version show_span show_memif unset_span set_span create_memif show_phy show_code_version :
      Mode

-- `boy_span_device_mode_t`
pub data DeviceMode : Type 0 where
  rx tx both : DeviceMode

-- `boy_memif_create_options_t`
pub record MemifCreate : Type 0 where
  pub id : ℕ
  pub socket_id : ℕ
  pub ring_size : ℕ
  pub buffer_size : ℕ

-- `boy_cli_options_t`; a name that is NULL is `none`.
pub record Options : Type 0 where
  pub mode : Mode
  pub log_level : LogLevel
  pub unset_span_if_index : ℕ
  pub set_span_if_index : ℕ
  pub set_span_memif_name : Option CString
  pub set_span_device_mode : DeviceMode
  pub memif_create : MemifCreate

-- `boy_cli_parse_status_t`, with the options that are used only after BOY_CLI_PARSE_OK.
pub data Parsed : Type 0 where
  parse_ok : Options → Parsed
  exit_success exit_failure : Parsed

abbrev is_empty : CString → Bool
is_empty [] = true
is_empty (c ∷ s) = false

-- `value[0] == '\0' || end == value || *end != '\0'`
abbrev pub is_malformed : CString → Conversion → Bool
is_malformed value c = is_empty value || (not c.converted || not (is_empty c.end))

-- `boy_parse_if_index`; `none` is the return value -1.
unfoldable pub parse_if_index : CString → Option ℕ
parse_if_index value =
    let c = strtoul value in if is_malformed value c then none else some (c.value % u32_mod)

-- `boy_parse_u32`
unfoldable pub parse_u32 : CString → Option ℕ
parse_u32 value =
    let c = strtoul value in
    if is_malformed value c || ltb 0xffff_ffff c.value then none else some (c.value % u32_mod)

-- `boy_parse_device_mode`
unfoldable pub parse_device_mode : CString → Option DeviceMode
parse_device_mode value =
    if str_eq value (codes "rx")
    then some rx
    else (if str_eq value (codes "tx")
        then some tx
        else (if str_eq value (codes "both") then some both else none))

-- What a call of `getopt_long` gives, before the -1 at the end of the arguments.
pub data Opt : Type 0 where
  opt_version opt_create_memif opt_show_memif opt_show_phy opt_show_span opt_set_span : Opt
  opt_show_vpp opt_help opt_unknown : Opt
  opt_id opt_iface_idx opt_log_level opt_device opt_buffer_size opt_memif : CString → Opt
  opt_ring_size opt_socket_id opt_unset_span : CString → Opt

-- The local variables of `boy_parse_cli_options`, with the options.
pub record Progress : Type 0 where
  pub options : Options
  pub has_set_span : Bool
  pub has_set_span_iface : Bool
  pub has_set_span_memif : Bool
  pub has_set_span_device : Bool
  pub has_create_memif : Bool
  pub has_create_memif_option : Bool

abbrev pub default_memif : MemifCreate
default_memif = record { id = 0; socket_id = 0; ring_size = 1024; buffer_size = 2048 }

abbrev pub defaults : Progress
defaults = record {
  options = record {
    mode = show_version;
    log_level = info;
    unset_span_if_index = 0;
    set_span_if_index = 0;
    set_span_memif_name = none;
    set_span_device_mode = both;
    memif_create = default_memif;
  };
  has_set_span = false;
  has_set_span_iface = false;
  has_set_span_memif = false;
  has_set_span_device = false;
  has_create_memif = false;
  has_create_memif_option = false;
}

-- What a case of the switch does: go on, or return from the function.
pub data Step : Type 0 where
  goes_on : Progress → Step
  exits_success exits_failure : Step

abbrev set_mode : Mode → Progress → Step
set_mode m p = goes_on (record p { options = record p.options { mode = m } })

abbrev set_memif : MemifCreate → Progress → Step
set_memif m p =
    goes_on
      (record p { options = record p.options { memif_create = m }; has_create_memif_option = true })

abbrev pub or_fail {ℓ} : {A : Type ℓ} → Option A → (A → Step) → Step
or_fail none f = exits_failure
or_fail (some a) f = f a

-- The body of the switch.
unfoldable pub step : Opt → Progress → Step
step opt_version p = set_mode show_code_version p
step opt_create_memif p =
    goes_on
      (record p { options = record p.options { mode = create_memif }; has_create_memif = true })
step opt_show_memif p = set_mode show_memif p
step opt_show_phy p = set_mode show_phy p
step opt_show_span p = set_mode show_span p
step opt_set_span p =
    goes_on (record p { options = record p.options { mode = set_span }; has_set_span = true })
step opt_show_vpp p = set_mode show_version p
step opt_help p = exits_success
step opt_unknown p = exits_failure
step (opt_id arg) p =
    or_fail (parse_u32 arg) λ n. set_memif (record p.options.memif_create { id = n }) p
step (opt_iface_idx arg) p = or_fail (parse_if_index arg) λ n.
    goes_on
      (record p { options = record p.options { set_span_if_index = n }; has_set_span_iface = true })
step (opt_log_level arg) p =
    or_fail (parse_log_level arg)
      λ l. goes_on (record p { options = record p.options { log_level = l } })
step (opt_device arg) p = or_fail (parse_device_mode arg) λ d. goes_on (record p {
  options = record p.options { set_span_device_mode = d };
  has_set_span_device = true;
})
step (opt_buffer_size arg) p =
    or_fail (parse_u32 arg) λ n. set_memif (record p.options.memif_create { buffer_size = n }) p
step (opt_memif arg) p =
    if is_empty arg
    then exits_failure
    else goes_on (record p {
      options = record p.options { set_span_memif_name = some arg };
      has_set_span_memif = true;
    })
step (opt_ring_size arg) p =
    or_fail (parse_u32 arg) λ n. set_memif (record p.options.memif_create { ring_size = n }) p
step (opt_socket_id arg) p =
    or_fail (parse_u32 arg) λ n. set_memif (record p.options.memif_create { socket_id = n }) p
step (opt_unset_span arg) p = or_fail (parse_if_index arg) λ n.
    goes_on (record p { options = record p.options { unset_span_if_index = n; mode = unset_span } })

-- The three tests after the loop.
unfoldable pub check_combination : Progress → Parsed
check_combination p =
    if not p.has_set_span
      && (p.has_set_span_iface || (p.has_set_span_memif || p.has_set_span_device))
    then exit_failure
    else (if p.has_set_span
          && (not p.has_set_span_iface || (not p.has_set_span_memif || not p.has_set_span_device))
        then exit_failure
        else (if not p.has_create_memif && p.has_create_memif_option
            then exit_failure
            else parse_ok p.options))

unfoldable pub parse_loop : List Opt → Progress → Parsed
parse_loop [] p = check_combination p
parse_loop (o ∷ opts) p = elim (step o p) [
  | goes_on p' ↦ parse_loop opts p'
  | exits_success ↦ exit_success
  | exits_failure ↦ exit_failure
]

-- `boy_parse_cli_options`
unfoldable pub parse_cli_options : List Opt → Parsed
parse_cli_options opts = parse_loop opts defaults
