-- ===== src/Arc/Drops.antt =====
-- One round of the second loop of `__arc_balance` in ARC-cache/arc.c: the last object of a ghost list is
-- destroyed and unchained.
use sim_replay.Prelude.{ℕ, ◌+◌, ◌<◌, ◌≡◌, ◌≢◌, ◌↔◌, Option, Bool, true, false, arith, refl, ok}
use sim_replay.Arc.Defs.{Arc, is_named, hash_remove, slot_of}
use sim_replay.Arc.Balance.{drop_mfug, drop_mrug, ghosts}
use sim_replay.Arc.Lists.{one, times, times-unchain, is_named_iff, named_self}
use sim_replay.Arc.Inv.{Core, pop_lru_lem}

module _ {K C : Type 0} (same_key : K → K → Bool) (ops_hash : K → ℕ) where
  -- A round of the second loop.
  pub record Dropped (m : ℕ) (hand : Option (K × ℕ)) (cache next : Arc K C) : Type 0 where
    pub core : Core same_key ops_hash m hand next
    pub same_c : next.c ≡ cache.c
    pub same_p : next.p ≡ cache.p
    pub same_mru : next.mru ≡ cache.mru
    pub same_mfu : next.mfu ≡ cache.mfu
    pub fewer : ghosts same_key ops_hash next + 1 ≡ ghosts same_key ops_hash cache

  module _ (same_key_iff : (a b : K) → (same_key a b ≡ true) ↔ (a ≡ b)) where
    -- Unchaining a name that is chained once leaves every other name as it is.
    pub times-hash_remove :
        (cache : Arc K C) (key k : K) (len n : ℕ)
        → times same_key key len (cache.bucket (slot_of same_key ops_hash cache key)) ≢ 0
        → times same_key k n (
              (hash_remove same_key ops_hash cache key len).bucket
                (slot_of same_key ops_hash cache k))
            + one (is_named same_key k n (key, len))
          ≡ times same_key k n (cache.bucket (slot_of same_key ops_hash cache k))
    unfolding hash_remove
    times-hash_remove cache key k len n h = ground (
      arith,
      is_named_iff same_key same_key_iff k key n len,
      times-unchain same_key same_key_iff key k len n
          (cache.bucket (slot_of same_key ops_hash cache key)),
    )

    pub drop_mfug-Dropped :
        {m : ℕ} {hand : Option (K × ℕ)} {cache : Arc K C}
        → Core same_key ops_hash m hand cache
        → 0 < cache.mfug.size
        → (next : Arc K C) × (drop_mfug same_key ops_hash cache ≡ ok next)
          × Dropped m hand cache next
    unfolding drop_mfug hash_remove
    drop_mfug-Dropped {m} {hand} {cache} v pos =
        let (o, s', w) =
          pop_lru_lem same_key m false cache.mfug v.mfug_ok (omega (arith, v.room)) pos in
        let key = o.dhashkey in
        let len = o.osize in
        let there : times same_key key len (cache.bucket (slot_of same_key ops_hash cache key))
            ≢ 0 =
          omega (
            arith,
            v.directory key len,
            w.occurs key len,
            named_self same_key same_key_iff key len,
          ) in
        let mid : Arc K C = record cache { mfug = s' } in
        let gone = λ (k : K) (n : ℕ). times-hash_remove mid key k len n there in
        (
          hash_remove same_key ops_hash mid key len,
          ground (arith, w.done),
          record {
            core = record {
              mru_ok = v.mru_ok;
              mfu_ok = v.mfu_ok;
              mrug_ok = v.mrug_ok;
              mfug_ok = w.state_ok;
              c_small = v.c_small;
              m_small = v.m_small;
              p_le = v.p_le;
              room = omega (arith, v.room, w.size_sum);
              directory = λ k n. omega (arith, v.directory k n, w.occurs k n, gone k n);
              once = λ k n. omega (arith, v.once k n, w.occurs k n);
            };
            same_c = refl;
            same_p = refl;
            same_mru = refl;
            same_mfu = refl;
            fewer = omega (arith, w.one_less);
          },
        )

    pub drop_mrug-Dropped :
        {m : ℕ} {hand : Option (K × ℕ)} {cache : Arc K C}
        → Core same_key ops_hash m hand cache
        → 0 < cache.mrug.size
        → (next : Arc K C) × (drop_mrug same_key ops_hash cache ≡ ok next)
          × Dropped m hand cache next
    unfolding drop_mrug hash_remove
    drop_mrug-Dropped {m} {hand} {cache} v pos =
        let (o, s', w) =
          pop_lru_lem same_key m false cache.mrug v.mrug_ok (omega (arith, v.room)) pos in
        let key = o.dhashkey in
        let len = o.osize in
        let there : times same_key key len (cache.bucket (slot_of same_key ops_hash cache key))
            ≢ 0 =
          omega (
            arith,
            v.directory key len,
            w.occurs key len,
            named_self same_key same_key_iff key len,
          ) in
        let mid : Arc K C = record cache { mrug = s' } in
        let gone = λ (k : K) (n : ℕ). times-hash_remove mid key k len n there in
        (
          hash_remove same_key ops_hash mid key len,
          ground (arith, w.done),
          record {
            core = record {
              mru_ok = v.mru_ok;
              mfu_ok = v.mfu_ok;
              mrug_ok = w.state_ok;
              mfug_ok = v.mfug_ok;
              c_small = v.c_small;
              m_small = v.m_small;
              p_le = v.p_le;
              room = omega (arith, v.room, w.size_sum);
              directory = λ k n. omega (arith, v.directory k n, w.occurs k n, gone k n);
              once = λ k n. omega (arith, v.once k n, w.occurs k n);
            };
            same_c = refl;
            same_p = refl;
            same_mru = refl;
            same_mfu = refl;
            fewer = omega (arith, w.one_less);
          },
        )
