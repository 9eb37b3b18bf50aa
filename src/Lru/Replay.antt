-- ===== src/Lru/Replay.antt =====
-- What the replay sees of sector-cache/sectorcache.c: a block that was written is found, and an unknown one is
-- a miss.
use sim_replay.Prelude.{
  ℕ, ◌≤◌, ◌<◌, ◌≡◌, none, some, Bool, true, false, ok, arith, length, Result-cases, inl, inr,
}
use sim_replay.Lru.Uthash.{Uthash, assoc, without}
use sim_replay.Lru.Defs.{find_in_cache, add_to_cache}
use sim_replay.Lru.Order.{add_to_cache-limit}
use sim_replay.Lru.Sector.{
  Flags, Stored, bytes, Preq, Sector, len_of, sectorcache_add, fetched, checked, sectorcache_lookup,
  noted, note_miss, find_in_sectorcache, stored_value, overwrite_in_sectorcache,
}

module _ {K B C : Type 0} (ut : Uthash K (Stored C)) (key_of : ℕ → K) (cachefile_fetch : B → C)
    (same_bytes : ℕ → C → C → Bool) where
  -- With traces of hashes on a simulated disk after the warm-up, a limit that is not 0 and at most one
  -- entry for the block, a block that was written is found by the next read of it that expects the same
  -- hash, and the cache is within its limit.
  pub find_in_sectorcache-overwrite :
      (f : Flags) (limit : ℕ) (s : Sector ut.Table) {s' : Sector ut.Table} (w r : Preq B C)
      {w' : Preq B C} (c own : C)
      → f.cachesimflag ≡ true
      → f.disksimflag ≡ true
      → f.collectformat ≡ true
      → f.hash_format ≡ true
      → f.warmupflag ≡ false
      → 0 < limit
      → assoc ut.same_key
          (key_of w.ioblk)
          (without ut.same_key (key_of w.ioblk) (ut.hash_iter s.lru.cache))
        ≡ none
      → w.rw ≡ false
      → w.content ≡ some c
      → r.rw ≡ true
      → r.ioblk ≡ w.ioblk
      → r.content ≡ some own
      → same_bytes 32 own c ≡ true
      → overwrite_in_sectorcache ut key_of cachefile_fetch same_bytes f limit s w ≡ ok (s', w')
      → (length (ut.hash_iter s'.lru.cache) ≤ limit)
        × ((s'' : Sector ut.Table) × (find_in_sectorcache ut key_of cachefile_fetch same_bytes f s'
                r
              ≡ ok (s'', record r { done = true; bcachefound = true })))
  unfolding overwrite_in_sectorcache find_in_sectorcache sectorcache_lookup sectorcache_add
      stored_value len_of fetched checked noted
  find_in_sectorcache-overwrite f limit s {s'} w r {w'} c own f1 f2 f3 f4 f5 pos distinct w1 w2 r1
        r2 r3 same h =
      elim (Result-cases
        (add_to_cache ut limit s.lru (key_of w.ioblk) (bytes 32 c) true false 3 true)) [
          | inr bad ↦ absurd (ground arith)
          | inl ((lru, out), done) ↦
              let is : s'.lru ≡ lru = ground arith in
              let (fits, here) =
                add_to_cache-limit ut limit s.lru (key_of w.ioblk) (bytes 32 c) true false 3 pos
                  distinct done in
              let hit : (find_in_cache ut s'.lru (key_of r.ioblk)).1 ≡ some (bytes 32 c) =
                ground (arith, here) in
              (
                ground (arith, fits),
                (
                  noted ut key_of cachefile_fetch same_bytes f
                      (record s' { lru = (find_in_cache ut s'.lru (key_of r.ioblk)).0 }) true,
                  ground (arith, hit),
                ),
              )
        ]

  -- A read of a block that the cache does not hold, with traces of hashes on a simulated disk after the
  -- warm-up, is counted as a miss and leaves the cache as it is.
  pub find_in_sectorcache_absent :
      (f : Flags) (s : Sector ut.Table) (r : Preq B C)
      → f.cachesimflag ≡ true
      → f.disksimflag ≡ true
      → f.hash_format ≡ true
      → f.warmupflag ≡ false
      → r.rw ≡ true
      → assoc ut.same_key (key_of r.ioblk) (ut.hash_iter s.lru.cache) ≡ none
      → find_in_sectorcache ut key_of cachefile_fetch same_bytes f s r
        ≡ ok (
          note_miss ut key_of cachefile_fetch same_bytes f s,
          record r { done = false; bcachefound = false },
        )
  unfolding find_in_sectorcache sectorcache_lookup len_of fetched noted find_in_cache
  find_in_sectorcache_absent f s r f1 f2 f3 f4 r1 absent =
      ground (arith, ut.find_iter s.lru.cache (key_of r.ioblk))
