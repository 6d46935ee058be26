-- ===== src/Beastie/Capture/Progress.antt =====
-- What print_capture_progress of beastie/commands/capture_cmd.c draws.
use beastie_boy.Beastie.State.{CaptureState, filled, progress_bar, percent_tenths}
use beastie_boy.Common.Double.{round_even, quotient, precision, to_double, hundredfold}
use beastie_boy.Common.Double.Rounding.{round_even-le, precision-pos}
use native.Mathlib.Nat.{div-add-mod', mod-lt, div-lt_iff_lt-mul}
use beastie_boy.Prelude.{
  ℕ, ◌+◌, ◌-◌, ◌*◌, ◌/◌, ◌^◌, ◌≤◌, ◌<◌, false, ◌++◌, length, length-append, length-replicate,
  replicate, ltb, ◌≡◌, refl, arith, mul64, Bool-cases, inl, inr,
}

-- A bar of 32 cells for a part of a whole.
pub record ShowsPart (s : CaptureState) : Type 0 where
  pub cells : ℕ
  pub bar : progress_bar s ≡ replicate cells b'#' ++ replicate (32 - cells) b'.'
  pub width : length (progress_bar s) ≡ 32
  pub not_more : cells * s.max_bytes_to_capture ≤ 32 * s.bytes_captured
  pub not_less : 32 * s.bytes_captured < (cells + 1) * s.max_bytes_to_capture
  pub percentage : percent_tenths s ≤ 1000

filled-le : (s : CaptureState) → filled s ≤ 32
unfolding filled
filled-le s = ground arith

length-progress_bar : (s : CaptureState) → length (progress_bar s) ≡ 32
unfolding progress_bar
length-progress_bar s = omega (
  arith,
  filled-le s,
  length-append {A = ℕ} (replicate (filled s) b'#') (replicate (32 - filled s) b'.'),
  length-replicate {A = ℕ} (filled s) b'#',
  length-replicate {A = ℕ} (32 - filled s) b'.',
)

percent_tenths-le : (s : CaptureState) → percent_tenths s ≤ 1000
unfolding percent_tenths quotient
percent_tenths-le s =
    let a = hundredfold (to_double s.bytes_captured) in
    let b = to_double s.max_bytes_to_capture in
    let p = precision 117 a b 1 in
    let pos = precision-pos 117 a b 1 (omega arith) in
    elim (Bool-cases (ltb (100 * p) (round_even (a * p) b))) [
      | inl e ↦ rw e (omega arith)
      | inr e ↦
          rw e (
            round_even-le (10 * round_even (a * p) b) p 1000 pos (below (round_even (a * p) b) p e))
    ]
  where
    below : (m p : ℕ) → ltb (100 * p) m ≡ false → 10 * m ≤ 1000 * p
    below m p e = ground arith

-- The number of cells for a part of a whole below 2^59.
filled-eq :
    (s : CaptureState)
    → 0 < s.max_bytes_to_capture
    → s.max_bytes_to_capture < 2 ^ 59
    → s.bytes_captured ≤ s.max_bytes_to_capture
    → filled s ≡ s.bytes_captured * 32 / s.max_bytes_to_capture
unfolding filled
filled-eq s pos small within =
    let m = s.max_bytes_to_capture in
    let no_wrap : mul64 s.bytes_captured 32 ≡ s.bytes_captured * 32 = omega arith in
    let few : s.bytes_captured * 32 / m < 33 = (div-lt_iff_lt-mul pos).1 (omega arith) in
    rw no_wrap (ground arith)

-- With a limit below 2^59 that was not exceeded, the bar has 32 cells, as many of them filled as whole
-- 32nds of the limit are captured, and the percentage is at most 100.0.
pub progress_bar_lem :
    (s : CaptureState)
    → 0 < s.max_bytes_to_capture
    → s.max_bytes_to_capture < 2 ^ 59
    → s.bytes_captured ≤ s.max_bytes_to_capture
    → ShowsPart s
unfolding progress_bar
progress_bar_lem s pos small within =
    let m = s.max_bytes_to_capture in
    let b = s.bytes_captured in
    let e = filled-eq s pos small within in
    let split = div-add-mod' (b * 32) m in
    record {
      cells = filled s;
      bar = refl;
      width = length-progress_bar s;
      not_more = rw e (omega (arith, split));
      not_less = rw e (omega (arith, split, mod-lt (b * 32) pos));
      percentage = percent_tenths-le s;
    }
