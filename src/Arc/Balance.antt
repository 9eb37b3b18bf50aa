-- ===== src/Arc/Balance.antt =====
-- `__arc_balance` of ARC-cache/arc.c. The calls of `__arc_move` that it makes do not balance again, so the
-- two functions are not mutually recursive here.
use sim_replay.Prelude.{ℕ, zero, suc, ◌+◌, Bool, true, false, Result, ok, fault, ltb, ◌>>=◌, length}
use sim_replay.Arc.Defs.{Arc, add64, push, pop_lru, evict, hash_remove}

module _ {K C : Type 0} (same_key : K → K → Bool) (ops_hash : K → ℕ) where
  -- `__arc_move` to a ghost list, from the resident list that the object is the last of.
  unfoldable pub mru_to_ghost : Arc K C → Result (Arc K C)
  mru_to_ghost cache = do
    (o, rest) ← pop_lru cache.mru
    ok (record cache { mru = rest; mrug = push (evict o) cache.mrug })

  unfoldable pub mfu_to_ghost : Arc K C → Result (Arc K C)
  mfu_to_ghost cache = do
    (o, rest) ← pop_lru cache.mfu
    ok (record cache { mfu = rest; mfug = push (evict o) cache.mfug })

  -- `__arc_move(cache, obj, NULL, ..)` of the last object of a ghost list.
  unfoldable pub drop_mfug : Arc K C → Result (Arc K C)
  drop_mfug cache = do
    (o, rest) ← pop_lru cache.mfug
    ok (hash_remove same_key ops_hash (record cache { mfug = rest }) o.dhashkey o.osize)

  unfoldable pub drop_mrug : Arc K C → Result (Arc K C)
  drop_mrug cache = do
    (o, rest) ← pop_lru cache.mrug
    ok (hash_remove same_key ops_hash (record cache { mrug = rest }) o.dhashkey o.osize)

  -- The first loop of `__arc_balance`.
  unfoldable pub balance_resident : ℕ → ℕ → Arc K C → Result (Arc K C)
  balance_resident zero size cache = fault
  balance_resident (suc fuel) size cache =
      elim (ltb cache.c (add64 (add64 cache.mru.size cache.mfu.size) size)) [
        | false ↦ ok cache
        | true ↦ elim (ltb cache.p cache.mru.size) [
          | true ↦ mru_to_ghost cache >>= λ next. balance_resident fuel size next
          | false ↦ elim (ltb 0 cache.mfu.size) [
            | true ↦ mfu_to_ghost cache >>= λ next. balance_resident fuel size next
            | false ↦ ok cache
          ]
        ]
      ]

  -- The second loop.
  unfoldable pub balance_ghosts : ℕ → Arc K C → Result (Arc K C)
  balance_ghosts zero cache = fault
  balance_ghosts (suc fuel) cache = elim (ltb cache.c (add64 cache.mrug.size cache.mfug.size)) [
    | false ↦ ok cache
    | true ↦ elim (ltb cache.p cache.mfug.size) [
      | true ↦ drop_mfug cache >>= λ next. balance_ghosts fuel next
      | false ↦ elim (ltb 0 cache.mrug.size) [
        | true ↦ drop_mrug cache >>= λ next. balance_ghosts fuel next
        | false ↦ ok cache
      ]
    ]
  ]

  abbrev pub residents : Arc K C → ℕ
  residents cache = length cache.mru.objs + length cache.mfu.objs

  abbrev pub ghosts : Arc K C → ℕ
  ghosts cache = length cache.mrug.objs + length cache.mfug.objs

  -- `__arc_balance`; each round takes an object out of its lists.
  unfoldable pub balance : ℕ → Arc K C → Result (Arc K C)
  balance size cache = do
    next ← balance_resident (suc (residents cache)) size cache
    balance_ghosts (suc (ghosts next)) next
