-- ===== src/Lru/Defs.antt =====
-- LRU-cache/lru_cache.c. The build leaves CONTENTDEDUP off, so the reference counts are not touched here.
use sim_replay.Prelude.{
  ℕ, zero, suc, ◌+◌, ◌%◌, ◌^◌, List, [], ◌∷◌, Option, none, some, Bool, true, false, Result, ok,
  fault, ◌==◌, ltb, ◌>>=◌, length,
}
use sim_replay.Lru.Uthash.{Uthash}

-- `cache` with the counters of hits and misses that the write path raises.
pub record Lru (T : Type 0) : Type 0 where
  pub cache : T
  pub bcache_hits : ℕ
  pub bcache_hits_w : ℕ
  pub bcache_misses : ℕ
  pub bcache_misses_w : ℕ

abbrev pub is_some : {A : Type 0} → Option A → Bool
is_some none = false
is_some (some _) = true

module _ {K V : Type 0} (ut : Uthash K V) where
  -- `find_in_cache`
  unfoldable pub find_in_cache : Lru ut.Table → K → Lru ut.Table × Option V
  find_in_cache s key = elim (ut.hash_find_str s.cache key) [
    | none ↦ (s, none)
    | some value ↦
        (record s { cache = ut.hash_add_keyptr (ut.hash_delete s.cache key) key value }, some value)
  ]

  -- The loop that prunes to `MAX_CACHE_COUNT`: each round deletes the first entry of the walk. With a limit of
  -- 0 the program ends.
  unfoldable pub prune : ℕ → ℕ → ut.Table → Result ut.Table
  prune zero max_cache_count t = fault
  prune (suc fuel) max_cache_count t = elim (ltb max_cache_count (ut.hash_count t)) [
    | false ↦ ok t
    | true ↦ elim (max_cache_count == 0) [
      | true ↦ fault
      | false ↦ elim (ut.hash_iter t) [
        | [] ↦ prune fuel max_cache_count t
        | (k, _) ∷ _ ↦ prune fuel max_cache_count (ut.hash_delete t k)
      ]
    ]
  ]

  -- The counters of `add_to_cache`, and `*bcachefoundout`.
  unfoldable pub note_write : Bool → Bool → Bool → Lru ut.Table → ℕ → Lru ut.Table × ℕ
  note_write known updatehits warmup s found_out = elim updatehits [
    | false ↦ (s, found_out)
    | true ↦ elim warmup [
      | true ↦ (s, found_out)
      | false ↦ elim known [
        | true ↦ (
          record s {
            bcache_hits = (s.bcache_hits + 1) % 2 ^ 64;
            bcache_hits_w = (s.bcache_hits_w + 1) % 2 ^ 64;
          },
          1,
        )
        | false ↦ (
          record s {
            bcache_misses = (s.bcache_misses + 1) % 2 ^ 64;
            bcache_misses_w = (s.bcache_misses_w + 1) % 2 ^ 64;
          },
          0,
        )
      ]
    ]
  ]

  -- `add_to_cache`; without memory for the entry the code goes on through NULL.
  unfoldable pub add_to_cache :
      ℕ → Lru ut.Table → K → V → Bool → Bool → ℕ → Bool → Result (Lru ut.Table × ℕ)
  add_to_cache max_cache_count s key value updatehits warmup found_out false = fault
  add_to_cache max_cache_count s key value updatehits warmup found_out true =
      let found = ut.hash_find_str s.cache key in
      let cleared : ut.Table = elim found [
        | none ↦ s.cache
        | some _ ↦ ut.hash_delete s.cache key
      ] in
      let (noted, out) = note_write (is_some found) updatehits warmup s found_out in
      let added = ut.hash_add_keyptr cleared key value in
      do
        pruned ← prune (suc (length (ut.hash_iter added))) max_cache_count added
        ok (record noted { cache = pruned }, out)

  -- `free_lru_cache`: every entry of the walk is deleted.
  unfoldable pub drop_all : List (K × V) → ut.Table → ut.Table
  drop_all [] t = t
  drop_all ((k, _) ∷ rest) t = drop_all rest (ut.hash_delete t k)

  unfoldable pub free_lru_cache : Lru ut.Table → Lru ut.Table
  free_lru_cache s = record s { cache = drop_all (ut.hash_iter s.cache) s.cache }
