-- ===== src/Arc/Fit.antt =====
-- `__arc_balance` of ARC-cache/arc.c: it returns, keeps the invariant, and makes the room that it is asked
-- for, except in the one case in which its first loop gives up.
use sim_replay.Prelude.{
  ℕ, zero, suc, ◌+◌, ◌^◌, ◌≤◌, ◌<◌, ◌≡◌, ◌↔◌, ◌⊎◌, inl, inr, Option, Bool, true, arith, refl, ok,
  ltb, Bool-cases, ◌∙◌,
}
use sim_replay.Arc.Defs.{Arc, add64}
use sim_replay.Arc.Balance.{balance_resident, balance_ghosts, balance, residents, ghosts}
use sim_replay.Arc.Inv.{Core}
use sim_replay.Arc.Steps.{Evicted, mru_to_ghost-Evicted, mfu_to_ghost-Evicted}
use sim_replay.Arc.Drops.{Dropped, drop_mfug-Dropped, drop_mrug-Dropped}

module _ {K C : Type 0} (same_key : K → K → Bool) (ops_hash : K → ℕ)
    (same_key_iff : (a b : K) → (same_key a b ≡ true) ↔ (a ≡ b)) where
  -- After the first loop: there is room, or the MFU list is empty and the MRU list is within its target.
  pub record Roomy (m : ℕ) (hand : Option (K × ℕ)) (size : ℕ) (cache next : Arc K C) : Type 0 where
    pub core : Core same_key ops_hash m hand next
    pub same_c : next.c ≡ cache.c
    pub same_p : next.p ≡ cache.p
    pub no_larger : next.mru.size + next.mfu.size ≤ cache.mru.size + cache.mfu.size
    pub room_or_stuck :
        (next.mru.size + next.mfu.size + size ≤ cache.c)
        ⊎ ((next.mru.size ≤ cache.p) × (next.mfu.size ≡ 0))

  Evicted-Roomy :
      {m : ℕ} {hand : Option (K × ℕ)} {size : ℕ} {cache mid next : Arc K C}
      → Evicted same_key ops_hash m hand cache mid
      → Roomy m hand size mid next
      → Roomy m hand size cache next
  Evicted-Roomy e r = record {
    core = r.core;
    same_c = r.same_c ∙ e.same_c;
    same_p = r.same_p ∙ e.same_p;
    no_larger = omega (arith, r.no_larger, e.shrinks);
    room_or_stuck = omega (arith, r.room_or_stuck, e.same_c, e.same_p);
  }

  balance_resident-Roomy :
      (fuel size : ℕ) {m : ℕ} {hand : Option (K × ℕ)} {cache : Arc K C}
      → Core same_key ops_hash m hand cache
      → size < 2 ^ 40
      → residents same_key ops_hash cache < fuel
      → (next : Arc K C) × (balance_resident same_key ops_hash fuel size cache ≡ ok next)
        × Roomy m hand size cache next
  unfolding balance_resident
  balance_resident-Roomy zero size v small enough = absurd (omega arith)
  balance_resident-Roomy (suc fuel) size {cache = cache} v small enough =
      elim (Bool-cases (ltb cache.c (add64 (add64 cache.mru.size cache.mfu.size) size))) [
        | inr fits ↦ (
          cache,
          ground arith,
          record {
            core = v;
            same_c = refl;
            same_p = refl;
            no_larger = omega arith;
            room_or_stuck = inl (ground (arith, v.room));
          },
        )
        | inl over ↦ elim (Bool-cases (ltb cache.p cache.mru.size)) [
          | inl large ↦
              let (mid, step, e) = mru_to_ghost-Evicted same_key ops_hash v (ground arith) in
              let (next, rest, r) =
                balance_resident-Roomy fuel size e.core small (omega (arith, e.fewer)) in
              (next, ground (arith, step, rest), Evicted-Roomy e r)
          | inr low ↦ elim (Bool-cases (ltb 0 cache.mfu.size)) [
            | inl some_left ↦
                let (mid, step, e) = mfu_to_ghost-Evicted same_key ops_hash v (ground arith) in
                let (next, rest, r) =
                  balance_resident-Roomy fuel size e.core small (omega (arith, e.fewer)) in
                (next, ground (arith, step, rest), Evicted-Roomy e r)
            | inr none_left ↦ (
              cache,
              ground arith,
              record {
                core = v;
                same_c = refl;
                same_p = refl;
                no_larger = omega arith;
                room_or_stuck = inr (ground arith, ground arith);
              },
            )
          ]
        ]
      ]

  -- After the second loop: the ghost lists fit, and the resident lists are as they were.
  pub record Pruned (m : ℕ) (hand : Option (K × ℕ)) (cache next : Arc K C) : Type 0 where
    pub core : Core same_key ops_hash m hand next
    pub same_c : next.c ≡ cache.c
    pub same_p : next.p ≡ cache.p
    pub same_mru : next.mru ≡ cache.mru
    pub same_mfu : next.mfu ≡ cache.mfu
    pub ghosts_fit : next.mrug.size + next.mfug.size ≤ cache.c

  Dropped-Pruned :
      {m : ℕ} {hand : Option (K × ℕ)} {cache mid next : Arc K C}
      → Dropped same_key ops_hash m hand cache mid
      → Pruned m hand mid next
      → Pruned m hand cache next
  Dropped-Pruned d r = record {
    core = r.core;
    same_c = r.same_c ∙ d.same_c;
    same_p = r.same_p ∙ d.same_p;
    same_mru = r.same_mru ∙ d.same_mru;
    same_mfu = r.same_mfu ∙ d.same_mfu;
    ghosts_fit = omega (arith, r.ghosts_fit, d.same_c);
  }

  balance_ghosts-Pruned :
      (fuel : ℕ) {m : ℕ} {hand : Option (K × ℕ)} {cache : Arc K C}
      → Core same_key ops_hash m hand cache
      → ghosts same_key ops_hash cache < fuel
      → (next : Arc K C) × (balance_ghosts same_key ops_hash fuel cache ≡ ok next)
        × Pruned m hand cache next
  unfolding balance_ghosts
  balance_ghosts-Pruned zero v enough = absurd (omega arith)
  balance_ghosts-Pruned (suc fuel) {cache = cache} v enough =
      elim (Bool-cases (ltb cache.c (add64 cache.mrug.size cache.mfug.size))) [
        | inr fits ↦ (
          cache,
          ground arith,
          record {
            core = v;
            same_c = refl;
            same_p = refl;
            same_mru = refl;
            same_mfu = refl;
            ghosts_fit = ground (arith, v.room);
          },
        )
        | inl over ↦ elim (Bool-cases (ltb cache.p cache.mfug.size)) [
          | inl large ↦
              let (mid, step, d) =
                drop_mfug-Dropped same_key ops_hash same_key_iff v (ground arith) in
              let (next, rest, r) = balance_ghosts-Pruned fuel d.core (omega (arith, d.fewer)) in
              (next, ground (arith, step, rest), Dropped-Pruned d r)
          | inr low ↦
              let (mid, step, d) =
                drop_mrug-Dropped same_key ops_hash same_key_iff v
                  (ground (arith, v.p_le, v.room)) in
              let (next, rest, r) = balance_ghosts-Pruned fuel d.core (omega (arith, d.fewer)) in
              (next, ground (arith, step, rest, v.p_le, v.room), Dropped-Pruned d r)
        ]
      ]

  -- `__arc_balance` on a consistent cache, for a size below 2^40, returns: the object in hand stays in
  -- hand, limit and target are as before, the ghost lists fit the cache size, the residents do not grow,
  -- and there is room for the size, unless the MFU list is empty and the MRU list is within its target.
  pub balance-Balanced :
      (size : ℕ) {m : ℕ} {hand : Option (K × ℕ)} {cache : Arc K C}
      → Core same_key ops_hash m hand cache
      → size < 2 ^ 40
      → (next : Arc K C) × (balance same_key ops_hash size cache ≡ ok next)
        × Roomy m hand size cache next
        × (next.mrug.size + next.mfug.size ≤ cache.c)
  unfolding balance
  balance-Balanced size {cache = cache} v small =
      let (mid, first, r) =
        balance_resident-Roomy (suc (residents same_key ops_hash cache)) size v small
          (omega arith) in
      let (next, second, w) =
        balance_ghosts-Pruned (suc (ghosts same_key ops_hash mid)) r.core (omega arith) in
      (
        next,
        ground (arith, first, second),
        record {
          core = w.core;
          same_c = w.same_c ∙ r.same_c;
          same_p = w.same_p ∙ r.same_p;
          no_larger = rw (w.same_mru, w.same_mfu) r.no_larger;
          room_or_stuck = rw (w.same_mru, w.same_mfu) r.room_or_stuck;
        },
        omega (arith, w.ghosts_fit, r.same_c),
      )
