-- ===== src/Arc/Retain.antt =====
-- `__arc_balance`, `__arc_move`, `__arc_lookup` and `__arc_add` of ARC-cache/arc.c keep a predicate of every object.
use sim_replay.Prelude.{ℕ, zero, suc, Option, Bool, true, false, inl, inr, Bool-cases, ltb}
use sim_replay.Arc.Defs.{Obj, ArcState, Arc, Place, push, pop_lru, evict, hash_remove, fetch, add64}
use sim_replay.Arc.Balance.{
  mru_to_ghost, mfu_to_ghost, drop_mfug, drop_mrug, balance_resident, balance_ghosts, balance,
  residents, ghosts,
}
use sim_replay.Arc.Moves.{move_in, touch}
use sim_replay.Arc.Keeps.{Yields, Yields-bind, AllObjs, Keeps, pop_lru-AllObjs, pull_from-Keeps}

module _ {K C : Type 0} (same_key : K → K → Bool) (ops_hash : K → ℕ) (Q : Obj K C → Type 0)
    (evict_keeps : (o : Obj K C) → Q o → Q (evict o)) where
  -- The last object of a state, and the rest of it.
  abbrev Popped : Obj K C × ArcState K C → Type 0
  Popped r = Q (r.0) × AllObjs Q (r.1).objs

  popped : (s : ArcState K C) → AllObjs Q s.objs → Yields Popped (pop_lru s)
  popped s all = pop_lru-AllObjs Q s.size s.objs all

  mru_to_ghost-Keeps :
      {cache : Arc K C} → Keeps Q cache → Yields (Keeps Q) (mru_to_ghost same_key ops_hash cache)
  unfolding mru_to_ghost push
  mru_to_ghost-Keeps {cache} k =
      Yields-bind Popped (Keeps Q) (pop_lru cache.mru) _ (popped cache.mru k.mru) (λ r h. record {
        mru = h.1;
        mfu = k.mfu;
        mrug = (evict_keeps (r.0) (h.0), k.mrug);
        mfug = k.mfug;
      })

  mfu_to_ghost-Keeps :
      {cache : Arc K C} → Keeps Q cache → Yields (Keeps Q) (mfu_to_ghost same_key ops_hash cache)
  unfolding mfu_to_ghost push
  mfu_to_ghost-Keeps {cache} k =
      Yields-bind Popped (Keeps Q) (pop_lru cache.mfu) _ (popped cache.mfu k.mfu) (λ r h. record {
        mru = k.mru;
        mfu = h.1;
        mrug = k.mrug;
        mfug = (evict_keeps (r.0) (h.0), k.mfug);
      })

  drop_mfug-Keeps :
      {cache : Arc K C} → Keeps Q cache → Yields (Keeps Q) (drop_mfug same_key ops_hash cache)
  unfolding drop_mfug hash_remove
  drop_mfug-Keeps {cache} k =
      Yields-bind Popped (Keeps Q) (pop_lru cache.mfug) _ (popped cache.mfug k.mfug)
        (λ r h. record { mru = k.mru; mfu = k.mfu; mrug = k.mrug; mfug = h.1 })

  drop_mrug-Keeps :
      {cache : Arc K C} → Keeps Q cache → Yields (Keeps Q) (drop_mrug same_key ops_hash cache)
  unfolding drop_mrug hash_remove
  drop_mrug-Keeps {cache} k =
      Yields-bind Popped (Keeps Q) (pop_lru cache.mrug) _ (popped cache.mrug k.mrug)
        (λ r h. record { mru = k.mru; mfu = k.mfu; mrug = h.1; mfug = k.mfug })

  balance_resident-Keeps :
      (fuel size : ℕ) {cache : Arc K C}
      → Keeps Q cache
      → Yields (Keeps Q) (balance_resident same_key ops_hash fuel size cache)
  unfolding balance_resident
  balance_resident-Keeps zero size k = tt
  balance_resident-Keeps (suc fuel) size {cache} k =
      elim (Bool-cases (ltb cache.c (add64 (add64 cache.mru.size cache.mfu.size) size))) [
        | inr e1 ↦ rw (e1, balance_resident) k
        | inl e1 ↦ elim (Bool-cases (ltb cache.p cache.mru.size)) [
          | inl e2 ↦
              rw (e1, e2, balance_resident)
                (Yields-bind (Keeps Q) (Keeps Q) (mru_to_ghost same_key ops_hash cache) _
                  (mru_to_ghost-Keeps k) (λ next h. balance_resident-Keeps fuel size h))
          | inr e2 ↦ elim (Bool-cases (ltb 0 cache.mfu.size)) [
            | inl e3 ↦
                rw (e1, e2, e3, balance_resident)
                  (Yields-bind (Keeps Q) (Keeps Q) (mfu_to_ghost same_key ops_hash cache) _
                    (mfu_to_ghost-Keeps k) (λ next h. balance_resident-Keeps fuel size h))
            | inr e3 ↦ rw (e1, e2, e3, balance_resident) k
          ]
        ]
      ]

  balance_ghosts-Keeps :
      (fuel : ℕ) {cache : Arc K C}
      → Keeps Q cache
      → Yields (Keeps Q) (balance_ghosts same_key ops_hash fuel cache)
  unfolding balance_ghosts
  balance_ghosts-Keeps zero k = tt
  balance_ghosts-Keeps (suc fuel) {cache} k =
      elim (Bool-cases (ltb cache.c (add64 cache.mrug.size cache.mfug.size))) [
        | inr e1 ↦ rw (e1, balance_ghosts) k
        | inl e1 ↦ elim (Bool-cases (ltb cache.p cache.mfug.size)) [
          | inl e2 ↦
              rw (e1, e2, balance_ghosts)
                (Yields-bind (Keeps Q) (Keeps Q) (drop_mfug same_key ops_hash cache) _
                  (drop_mfug-Keeps k) (λ next h. balance_ghosts-Keeps fuel h))
          | inr e2 ↦ elim (Bool-cases (ltb 0 cache.mrug.size)) [
            | inl e3 ↦
                rw (e1, e2, e3, balance_ghosts)
                  (Yields-bind (Keeps Q) (Keeps Q) (drop_mrug same_key ops_hash cache) _
                    (drop_mrug-Keeps k) (λ next h. balance_ghosts-Keeps fuel h))
            | inr e3 ↦ rw (e1, e2, e3, balance_ghosts) k
          ]
        ]
      ]

  balance-Keeps :
      (size : ℕ) {cache : Arc K C}
      → Keeps Q cache
      → Yields (Keeps Q) (balance same_key ops_hash size cache)
  unfolding balance
  balance-Keeps size {cache} k =
      Yields-bind (Keeps Q) (Keeps Q) _ _
        (balance_resident-Keeps (suc (residents same_key ops_hash cache)) size k)
        (λ next h. balance_ghosts-Keeps (suc (ghosts same_key ops_hash next)) h)

  pub move_in-Keeps :
      (frequent : Bool) (o : Obj K C) (content : Option C) (ioblk : ℕ) {cache : Arc K C}
      → Yields Q (fetch o content ioblk)
      → Keeps Q cache
      → Yields (Keeps Q) (move_in same_key ops_hash frequent o content ioblk cache)
  unfolding move_in push
  move_in-Keeps true o content ioblk q k =
      Yields-bind (Keeps Q) (Keeps Q) _ _ (balance-Keeps o.osize k) (λ room h.
        Yields-bind Q (Keeps Q) (fetch o content ioblk) _ q
          (λ loaded g. record { mru = h.mru; mfu = (g, h.mfu); mrug = h.mrug; mfug = h.mfug }))
  move_in-Keeps false o content ioblk q k =
      Yields-bind (Keeps Q) (Keeps Q) _ _ (balance-Keeps o.osize k) (λ room h.
        Yields-bind Q (Keeps Q) (fetch o content ioblk) _ q
          (λ loaded g. record { mru = (g, h.mru); mfu = h.mfu; mrug = h.mrug; mfug = h.mfug }))

  pub touch-Keeps :
      (place : Place) (o : Obj K C) {cache : Arc K C}
      → Q o
      → Keeps Q cache
      → Keeps Q (touch same_key ops_hash place o cache)
  unfolding touch push
  touch-Keeps place o {cache} q k =
      let h = pull_from-Keeps Q same_key place o.dhashkey o.osize k in
      record { mru = h.mru; mfu = (q, h.mfu); mrug = h.mrug; mfug = h.mfug }
