-- ===== src/Arc/Adapt.antt =====
-- The adaptation of the target size in `__arc_add` of ARC-cache/arc.c, and the counters that it reports.
use sim_replay.Prelude.{ℕ, ◌+◌, ◌%◌, ◌^◌, ◌/◌, Option, none, some, Bool, ◌==◌, ltb, if◌then◌else◌}
use sim_replay.Arc.Defs.{add64, sub64}

-- The counters that `__arc_add` reports through globals.
pub record Counters : Type 0 where
  pub hits : ℕ
  pub hits_w : ℕ
  pub misses : ℕ
  pub misses_w : ℕ
  pub already_had_flag : Bool
  pub already_had_ioblk_id : ℕ

abbrev pub inc64 : ℕ → ℕ
inc64 x = (x + 1) % 2 ^ 64

-- `MAX(a / b, 1)`
abbrev pub step : ℕ → ℕ → ℕ
step a b = if ltb 1 (a / b) then a / b else 1

-- `MIN(c, p + MAX(mfug / mrug, 1))`; `none` is the division by zero.
unfoldable pub raised_p : ℕ → ℕ → ℕ → ℕ → Option ℕ
raised_p c p mfug_size mrug_size =
    if mrug_size == 0
    then none
    else let raised = add64 p (step mfug_size mrug_size) in
      some (if ltb c raised then c else raised)

-- `(__u32)MAX(0, (int)(p - MAX(mrug / mfug, 1)))`: the difference wraps at 2^64 and is then read as
-- a 32-bit signed number.
unfoldable pub lowered_p : ℕ → ℕ → ℕ → Option ℕ
lowered_p p mrug_size mfug_size =
    if mfug_size == 0
    then none
    else let low = sub64 p (step mrug_size mfug_size) % 2 ^ 32 in
      some (if ltb low (2 ^ 31) then low else 0)

-- The flags are `warmupflag` and `updatehits`.
unfoldable pub count_hit : Bool → Bool → Counters → Counters
count_hit warmup updatehits n =
    if warmup
    then n
    else if updatehits
    then record n { hits = inc64 n.hits; hits_w = inc64 n.hits_w }
    else n

unfoldable pub count_miss : Bool → Bool → Counters → Counters
count_miss warmup updatehits n =
    if warmup
    then n
    else if updatehits
    then record n { misses = inc64 n.misses; misses_w = inc64 n.misses_w }
    else n
