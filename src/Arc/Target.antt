-- ===== src/Arc/Target.antt =====
-- The adaptation of the target size `p` in `__arc_add` of ARC-cache/arc.c, for the sizes that the cache has.
use Prim.Native.Nat.{min}
use native.Mathlib.Nat.{div-le_self}
use sim_replay.Prelude.{ℕ, ◌+◌, ◌-◌, ◌^◌, ◌≤◌, ◌<◌, ◌≡◌, some, arith}
use sim_replay.Arc.Adapt.{step, raised_p, lowered_p}

step_bounds : (a b : ℕ) → (1 ≤ step a b) × (step a b ≤ a + 1)
step_bounds a b = ground (arith, div-le_self a b)

-- The target after a hit in the MRU ghost list, when it is at most the cache size, the cache below 2^31,
-- the MFU ghost list below 2^40 and the MRU ghost list not empty: the sum with the step, cut to the cache
-- size, without wrap-around.
pub raised_p_lem :
    (c p mfug_size mrug_size : ℕ)
    → p ≤ c
    → c < 2 ^ 31
    → mfug_size < 2 ^ 40
    → 0 < mrug_size
    → raised_p c p mfug_size mrug_size ≡ some (min c (p + step mfug_size mrug_size))
unfolding raised_p
raised_p_lem c p a b h small bounded pos = ground (arith, step_bounds a b)

-- The target after a hit in the MFU ghost list that is not empty, when target and MRU ghost list are below
-- 2^31: the step is taken away, down to 0. The cast to `int` finds every negative difference.
pub lowered_p_lem :
    (p mrug_size mfug_size : ℕ)
    → p < 2 ^ 31
    → mrug_size < 2 ^ 31
    → 0 < mfug_size
    → lowered_p p mrug_size mfug_size ≡ some (p - step mrug_size mfug_size)
unfolding lowered_p
lowered_p_lem p a b small bounded pos = ground (arith, step_bounds a b)
