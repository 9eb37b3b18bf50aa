-- ===== src/Arc/Steps.antt =====
-- One round of each loop of `__arc_balance` in ARC-cache/arc.c: it returns, keeps the invariant, and takes
-- an object away.
use sim_replay.Prelude.{ℕ, ◌+◌, ◌<◌, ◌≡◌, Option, Bool, true, false, arith, refl, ok}
use sim_replay.Arc.Defs.{Arc, push, evict}
use sim_replay.Arc.Balance.{mru_to_ghost, mfu_to_ghost, residents}
use sim_replay.Arc.Inv.{Core, pop_lru_lem, push-StateOk, occ-push}

module _ {K C : Type 0} (same_key : K → K → Bool) (ops_hash : K → ℕ) where
  -- A round of the first loop.
  pub record Evicted (m : ℕ) (hand : Option (K × ℕ)) (cache next : Arc K C) : Type 0 where
    pub core : Core same_key ops_hash m hand next
    pub same_c : next.c ≡ cache.c
    pub same_p : next.p ≡ cache.p
    pub fewer : residents same_key ops_hash next + 1 ≡ residents same_key ops_hash cache
    pub shrinks : next.mru.size + next.mfu.size < cache.mru.size + cache.mfu.size

  pub mru_to_ghost-Evicted :
      {m : ℕ} {hand : Option (K × ℕ)} {cache : Arc K C}
      → Core same_key ops_hash m hand cache
      → 0 < cache.mru.size
      → (next : Arc K C) × (mru_to_ghost same_key ops_hash cache ≡ ok next)
        × Evicted m hand cache next
  unfolding mru_to_ghost
  mru_to_ghost-Evicted {m} {hand} {cache} v pos =
      let (o, s', w) = pop_lru_lem same_key m true cache.mru v.mru_ok (omega (arith, v.room)) pos in
      let (g, gs) =
        push-StateOk same_key m false (evict o) cache.mrug v.mrug_ok (omega (arith, v.room))
          w.positive w.bounded v.m_small refl in
      let next : Arc K C = record cache { mru = s'; mrug = push (evict o) cache.mrug } in
      (
        next,
        ground (arith, w.done),
        record {
          core = record {
            mru_ok = w.state_ok;
            mfu_ok = v.mfu_ok;
            mrug_ok = g;
            mfug_ok = v.mfug_ok;
            c_small = v.c_small;
            m_small = v.m_small;
            p_le = v.p_le;
            room = omega (arith, v.room, gs, w.size_sum);
            directory = λ k n.
                omega (
                  arith,
                  v.directory k n,
                  w.occurs k n,
                  occ-push same_key k n (evict o) cache.mrug,
                );
            once = λ k n.
                omega (arith, v.once k n, w.occurs k n, occ-push same_key k n (evict o) cache.mrug);
          };
          same_c = refl;
          same_p = refl;
          fewer = omega (arith, w.one_less);
          shrinks = omega (arith, w.size_sum, w.positive);
        },
      )

  pub mfu_to_ghost-Evicted :
      {m : ℕ} {hand : Option (K × ℕ)} {cache : Arc K C}
      → Core same_key ops_hash m hand cache
      → 0 < cache.mfu.size
      → (next : Arc K C) × (mfu_to_ghost same_key ops_hash cache ≡ ok next)
        × Evicted m hand cache next
  unfolding mfu_to_ghost
  mfu_to_ghost-Evicted {m} {hand} {cache} v pos =
      let (o, s', w) = pop_lru_lem same_key m true cache.mfu v.mfu_ok (omega (arith, v.room)) pos in
      let (g, gs) =
        push-StateOk same_key m false (evict o) cache.mfug v.mfug_ok (omega (arith, v.room))
          w.positive w.bounded v.m_small refl in
      let next : Arc K C = record cache { mfu = s'; mfug = push (evict o) cache.mfug } in
      (
        next,
        ground (arith, w.done),
        record {
          core = record {
            mru_ok = v.mru_ok;
            mfu_ok = w.state_ok;
            mrug_ok = v.mrug_ok;
            mfug_ok = g;
            c_small = v.c_small;
            m_small = v.m_small;
            p_le = v.p_le;
            room = omega (arith, v.room, gs, w.size_sum);
            directory = λ k n.
                omega (
                  arith,
                  v.directory k n,
                  w.occurs k n,
                  occ-push same_key k n (evict o) cache.mfug,
                );
            once = λ k n.
                omega (arith, v.once k n, w.occurs k n, occ-push same_key k n (evict o) cache.mfug);
          };
          same_c = refl;
          same_p = refl;
          fewer = omega (arith, w.one_less);
          shrinks = omega (arith, w.size_sum, w.positive);
        },
      )
