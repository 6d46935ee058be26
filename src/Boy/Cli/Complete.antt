-- ===== src/Boy/Cli/Complete.antt =====
-- What boy/cli_options.c makes sure of before an action is run.
use beastie_boy.Boy.Cli.{
  set_span, create_memif, Options, Parsed, parse_ok, exit_success, exit_failure, parse_if_index,
  parse_u32, parse_device_mode, or_fail, Opt, opt_id, opt_iface_idx, opt_log_level, opt_device,
  opt_buffer_size, opt_memif, opt_ring_size, opt_socket_id, opt_unset_span, Progress, defaults,
  Step, goes_on, exits_success, exits_failure, step, check_combination, parse_loop,
  parse_cli_options,
}
use beastie_boy.Boy.Cli.Modes.{StepEnsures, ParsedEnsures}
use beastie_boy.Boy.Cli.Numbers.{parse_u32-lt, parse_if_index-lt}
use beastie_boy.Common.Log.{parse_log_level}
use beastie_boy.Prelude.{
  ◌<◌, true, Option, none, some, List, [], ◌∷◌, CString, ◌≡◌, refl, arith, u32_mod,
}

abbrev pub HasText : Option CString → Type 0
HasText none = ⊥
HasText (some []) = ⊥
HasText (some (c ∷ s)) = Unit

-- What the local flags of the parser say about the options.
record Tracks (p : Progress) : Type 0 where
  span : p.options.mode ≡ set_span → p.has_set_span ≡ true
  memif : p.options.mode ≡ create_memif → p.has_create_memif ≡ true
  name : p.has_set_span_memif ≡ true → HasText p.options.set_span_memif_name
  unset_index : p.options.unset_span_if_index < u32_mod
  set_index : p.options.set_span_if_index < u32_mod
  id : p.options.memif_create.id < u32_mod
  socket : p.options.memif_create.socket_id < u32_mod
  ring : p.options.memif_create.ring_size < u32_mod
  buffer : p.options.memif_create.buffer_size < u32_mod

or_fail-StepEnsures {ℓ} :
    {A : Type ℓ} (P : Progress → Type 0) (o : Option A) (f : A → Step)
    → ((a : A) → o ≡ some a → StepEnsures P (f a))
    → StepEnsures P (or_fail o f)
or_fail-StepEnsures P none f h = tt
or_fail-StepEnsures P (some a) f h = h a refl

step-Tracks : (o : Opt) (p : Progress) → Tracks p → StepEnsures Tracks (step o p)
unfolding step
step-Tracks (opt_id arg) p t =
    or_fail-StepEnsures Tracks (parse_u32 arg) _ λ n e. ground (arith, parse_u32-lt arg n e)
step-Tracks (opt_buffer_size arg) p t =
    or_fail-StepEnsures Tracks (parse_u32 arg) _ λ n e. ground (arith, parse_u32-lt arg n e)
step-Tracks (opt_ring_size arg) p t =
    or_fail-StepEnsures Tracks (parse_u32 arg) _ λ n e. ground (arith, parse_u32-lt arg n e)
step-Tracks (opt_socket_id arg) p t =
    or_fail-StepEnsures Tracks (parse_u32 arg) _ λ n e. ground (arith, parse_u32-lt arg n e)
step-Tracks (opt_iface_idx arg) p t =
    or_fail-StepEnsures Tracks (parse_if_index arg) _
      λ n e. ground (arith, parse_if_index-lt arg n e)
step-Tracks (opt_unset_span arg) p t =
    or_fail-StepEnsures Tracks (parse_if_index arg) _
      λ n e. ground (arith, parse_if_index-lt arg n e)
step-Tracks (opt_log_level arg) p t =
    or_fail-StepEnsures Tracks (parse_log_level arg) _ λ l e. ground arith
step-Tracks (opt_device arg) p t =
    or_fail-StepEnsures Tracks (parse_device_mode arg) _ λ d e. ground arith
step-Tracks (opt_memif []) p t = tt
step-Tracks (opt_memif (c ∷ s)) p t = ground arith
step-Tracks _ p t = ground arith

-- What an accepted command line guarantees to `boy_run`: for the action --set-span the name of the
-- memif is there and not empty, and all numbers fit a uint32_t.
pub record IsComplete (o : Options) : Type 0 where
  pub name : o.mode ≡ set_span → HasText o.set_span_memif_name
  pub unset_index : o.unset_span_if_index < u32_mod
  pub set_index : o.set_span_if_index < u32_mod
  pub id : o.memif_create.id < u32_mod
  pub socket : o.memif_create.socket_id < u32_mod
  pub ring : o.memif_create.ring_size < u32_mod
  pub buffer : o.memif_create.buffer_size < u32_mod

check_combination_needs :
    (p : Progress)
    → ParsedEnsures
        (λ o. (o ≡ p.options) × (p.has_set_span ≡ true → p.has_set_span_memif ≡ true))
        (check_combination p)
unfolding check_combination
check_combination_needs p = ground arith

check_combination-IsComplete :
    (p : Progress) → Tracks p → ParsedEnsures IsComplete (check_combination p)
check_combination-IsComplete p t = go (check_combination p) (check_combination_needs p)
  where
    go :
        (r : Parsed)
        → ParsedEnsures
            (λ o. (o ≡ p.options) × (p.has_set_span ≡ true → p.has_set_span_memif ≡ true))
            r
        → ParsedEnsures IsComplete r
    go (parse_ok o) (e, needs) = rw e (record {
      name = λ m. t.name (needs (t.span m));
      unset_index = t.unset_index;
      set_index = t.set_index;
      id = t.id;
      socket = t.socket;
      ring = t.ring;
      buffer = t.buffer;
    })
    go exit_success h = tt
    go exit_failure h = tt

parse_loop-IsComplete :
    (opts : List Opt) (p : Progress) → Tracks p → ParsedEnsures IsComplete (parse_loop opts p)
unfolding parse_loop
parse_loop-IsComplete [] p t = check_combination-IsComplete p t
parse_loop-IsComplete (o ∷ opts) p t =
    go (step o p) (step-Tracks o p t) (parse_loop-IsComplete opts)
  where
    go :
        (s : Step)
        → StepEnsures Tracks s
        → ((p' : Progress) → Tracks p' → ParsedEnsures IsComplete (parse_loop opts p'))
        → ParsedEnsures IsComplete (elim s [
          | goes_on p' ↦ parse_loop opts p'
          | exits_success ↦ exit_success
          | exits_failure ↦ exit_failure
        ])
    go (goes_on p') h rec = rec p' h
    go exits_success h rec = tt
    go exits_failure h rec = tt

-- Whatever the arguments, an accepted command line whose action is --set-span has the name of the memif,
-- and not an empty one, and all its numbers fit a uint32_t.
pub parse_cli_options-IsComplete :
    (opts : List Opt) → ParsedEnsures IsComplete (parse_cli_options opts)
unfolding parse_cli_options
parse_cli_options-IsComplete opts = parse_loop-IsComplete opts defaults (ground arith)
