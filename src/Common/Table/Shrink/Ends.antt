-- ===== src/Common/Table/Shrink/Ends.antt =====
-- The shrinking loop of app_table_render comes to an end, and where.
use beastie_boy.Common.Table.{Column}
use beastie_boy.Common.Table.Widths.{total_width, add_widths, column_gap}
use beastie_boy.Common.Table.Shrink.{Pass, pass, may_flex, may_narrow, round, shrink, fit}
use beastie_boy.Prelude.{
  ℕ, zero, suc, ◌+◌, ◌-◌, ◌*◌, ◌≤◌, ◌<◌, Bool, true, false, List, [], ◌∷◌, ltb, ◌==◌, length, sum,
  ◌≡◌, refl, ◌⊎◌, inl, inr, arith, Bool-cases, ltb→lt, ◌∙◌, add64, u64_mod,
}

-- What a pass keeps: the columns, and the sum of the widths with the overflow.
pub record PassEnsures (may : Column → ℕ → Bool) (cs : List Column) (ws : List ℕ) (o : ℕ) (p : Pass)
    : Type 0 where
  pub same_length : length p.widths ≡ length ws
  pub same_sum : sum p.widths + o ≡ sum ws + p.overflow
  pub no_more : p.overflow ≤ o
  pub lowered : p.reduced ≡ true → p.overflow < o
  pub kept : p.reduced ≡ false → (p.widths ≡ ws) × (p.overflow ≡ o)

-- No column may shrink.
abbrev pub Stuck : (Column → ℕ → Bool) → List Column → List ℕ → Type 0
Stuck may (c ∷ cs) (w ∷ ws) = (may c w ≡ false) × Stuck may cs ws
Stuck may [] ws = Unit
Stuck may (c ∷ cs) [] = Unit

-- A column of width 0 does not shrink.
abbrev pub Positive : (Column → ℕ → Bool) → Type 0
Positive may = (c : Column) (w : ℕ) → may c w ≡ true → 1 ≤ w

pub pass_lem :
    (may : Column → ℕ → Bool) (cs : List Column) (ws : List ℕ) (o : ℕ)
    → Positive may
    → PassEnsures may cs ws o (pass may cs ws o)
unfolding pass
pass_lem may (c ∷ cs) (w ∷ ws) o pos =
    ground (arith, pos c w, pass_lem may cs ws (o - 1) pos, pass_lem may cs ws o pos)
pass_lem may [] ws o pos = record {
  same_length = refl;
  same_sum = refl;
  no_more = omega arith;
  lowered = λ e. cc;
  kept = λ e. (refl, refl);
}
pass_lem may (c ∷ cs) [] o pos = record {
  same_length = refl;
  same_sum = refl;
  no_more = omega arith;
  lowered = λ e. cc;
  kept = λ e. (refl, refl);
}

pub pass-Stuck :
    (may : Column → ℕ → Bool) (cs : List Column) (ws : List ℕ) (o : ℕ)
    → 1 ≤ o
    → (pass may cs ws o).reduced ≡ false
    → Stuck may cs ws
unfolding pass
pass-Stuck may (c ∷ cs) (w ∷ ws) o h e = ground (arith, pass-Stuck may cs ws o h)
pass-Stuck may [] ws o h e = tt
pass-Stuck may (c ∷ cs) [] o h e = tt

pub flex_pos : Positive may_flex
flex_pos c w h = ground arith

narrow_pos : Positive may_narrow
narrow_pos c w h = ground arith

-- A round keeps the sum, lowers the overflow, or finds that no column may shrink.
record RoundEnsures (cs : List Column) (ws : List ℕ) (o : ℕ) (p : Pass) : Type 0 where
  same_length : length p.widths ≡ length ws
  same_sum : sum p.widths + o ≡ sum ws + p.overflow
  no_more : p.overflow ≤ o
  lowered : p.reduced ≡ true → p.overflow < o
  stuck : p.reduced ≡ false → Stuck may_flex cs p.widths × Stuck may_narrow cs p.widths

round_lem : (cs : List Column) (ws : List ℕ) (o : ℕ) → 1 ≤ o → RoundEnsures cs ws o (round cs ws o)
unfolding round
round_lem cs ws o h =
    let first = pass may_flex cs ws o in
    let f = pass_lem may_flex cs ws o flex_pos in
    elim (Bool-cases first.reduced) [
      | inl e ↦ rw e (record {
        same_length = f.same_length;
        same_sum = f.same_sum;
        no_more = f.no_more;
        lowered = f.lowered;
        stuck = λ n. absurd (cc);
      })
      | inr e ↦ rw (e, (f.kept e).0, (f.kept e).1) (narrowed (pass-Stuck may_flex cs ws o h e))
    ]
  where
    narrowed : Stuck may_flex cs ws → RoundEnsures cs ws o (pass may_narrow cs ws o)
    narrowed flex =
        let p = pass_lem may_narrow cs ws o narrow_pos in
        record {
          same_length = p.same_length;
          same_sum = p.same_sum;
          no_more = p.no_more;
          lowered = p.lowered;
          stuck = λ n. rw ((p.kept n).0) (flex, pass-Stuck may_narrow cs ws o h n);
        }

-- The loop ends: the overflow is gone, or no column may shrink any more.
pub record Ended (cs : List Column) (ws : List ℕ) (o : ℕ) (p : Pass) : Type 0 where
  pub same_length : length p.widths ≡ length ws
  pub same_sum : sum p.widths + o ≡ sum ws + p.overflow
  pub no_more : p.overflow ≤ o
  pub done : (p.overflow ≡ 0) ⊎ (Stuck may_flex cs p.widths × Stuck may_narrow cs p.widths)

pub shrink_lem :
    (fuel : ℕ) (cs : List Column) (ws : List ℕ) (o : ℕ)
    → o < fuel
    → Ended cs ws o (shrink fuel cs ws o)
unfolding shrink
shrink_lem zero cs ws o h = absurd (omega arith)
shrink_lem (suc fuel) cs ws o h = elim (Bool-cases (o == 0)) [
  | inl z ↦ rw z (record {
    same_length = refl;
    same_sum = refl;
    no_more = omega arith;
    done = inl (ground arith);
  })
  | inr z ↦
      let p = round_lem cs ws o (ground arith) in
      let r = round cs ws o in
      elim (Bool-cases r.reduced) [
        | inl e ↦
            let q = shrink_lem fuel cs r.widths r.overflow (omega (arith, p.lowered e)) in
            rw (z, e)
              (record {
                same_length = q.same_length ∙ p.same_length;
                same_sum = omega (arith, p.same_sum, q.same_sum);
                no_more = omega (arith, p.no_more, q.no_more);
                done = q.done;
              })
        | inr e ↦
            rw (z, e)
              (record {
                same_length = p.same_length;
                same_sum = p.same_sum;
                no_more = p.no_more;
                done = inr (p.stuck e);
              })
      ]
]

-- `total_width` where the sums do not wrap.
abbrev pub line_width : List ℕ → ℕ
line_width ws = sum ws + column_gap * (length ws - 1)

add_widths_lem :
    (total : ℕ) (ws : List ℕ) → total + sum ws < u64_mod → add_widths total ws ≡ total + sum ws
unfolding add_widths
add_widths_lem total [] h = omega arith
add_widths_lem total (w ∷ ws) h =
    let e : add64 total w ≡ total + w = omega arith in
    rw e (omega (arith, add_widths_lem (total + w) ws (omega arith)))

pub total_width_lem : (ws : List ℕ) → line_width ws < u64_mod → total_width ws ≡ line_width ws
unfolding total_width
total_width_lem ws h = ground (arith, add_widths_lem 0 ws (omega arith))

-- Where the widths add up to less than 2^64, the columns are taken in until a line fits the terminal,
-- unless every column has come down to 3 characters or less and every flexible one to its minimum or
-- less. No column is lost, and no line gets longer than it was.
pub fit_ends :
    (cs : List Column) (ws : List ℕ) (available : ℕ)
    → line_width ws < u64_mod
    → (length (fit cs ws available) ≡ length ws)
      × (line_width (fit cs ws available) ≤ line_width ws)
      × ((line_width (fit cs ws available) ≤ available)
          ⊎ (Stuck may_flex cs (fit cs ws available) × Stuck may_narrow cs (fit cs ws available)))
unfolding fit
fit_ends cs ws available small = elim (Bool-cases (ltb available (total_width ws))) [
  | inl e ↦
      let total = total_width ws in
      let p = shrink_lem (total - available + 1) cs ws (total - available) (omega arith) in
      rw e (
        p.same_length,
        omega (arith, p.same_sum, p.same_length, p.no_more),
        elim p.done [
          | inl gone ↦ inl (
              omega (
                arith,
                p.same_sum,
                p.same_length,
                total_width_lem ws small,
                ltb→lt available total e,
              ))
          | inr stuck ↦ inr stuck
        ],
      )
  | inr e ↦ rw e (refl, omega arith, inl (ground (arith, total_width_lem ws small)))
]
