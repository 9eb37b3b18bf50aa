-- ===== src/Lru/Sector.antt =====
-- sector-cache/sectorcache.c: the block cache of the replay, over LRU-cache/lru_cache.c. Keys are block numbers as
-- sprintf prints them; `cachefile_fetch` and memcmp are parameters.
use sim_replay.Prelude.{
  ℕ, ◌+◌, ◌-◌, ◌*◌, ◌/◌, ◌%◌, ◌^◌, Option, none, some, Bool, true, false, not, ◌&&◌, ◌||◌, Result,
  ok, fault, ◌==◌, ltb, if◌then◌else◌, ◌>>=◌,
}
use sim_replay.Lru.Uthash.{Uthash}
use sim_replay.Lru.Defs.{Lru, find_in_cache, add_to_cache}

-- The globals that the code tests. `hash_format` and `block_format` are the two groups of formats that it tells
-- apart, and `real_scan` is the one in which the disk is not simulated.
pub record Flags : Type 0 where
  pub preplayflag : Bool
  pub freplayflag : Bool
  pub sreplayflag : Bool
  pub ioreplayflag : Bool
  pub collectformat : Bool
  pub disksimflag : Bool
  pub cachesimflag : Bool
  pub warmupflag : Bool
  pub read_enabled : Bool
  pub write_enabled : Bool
  pub hash_format : Bool
  pub block_format : Bool
  pub real_scan : Bool
  pub fmaphit_flag : Bool
  pub fmapdirty_flag : Bool
  pub vmaphit_flag : Bool
  pub vmapdirty_flag : Bool

-- What is stored as the value of a block: the string "cf", or the first bytes of a content.
pub data Stored (C : Type 0) : Type 0 where
  in_file : Stored C
  bytes : ℕ → C → Stored C

-- The fields of `struct preq_spec` that the cache reads and writes.
pub record Preq (B C : Type 0) : Type 0 where
  pub rw : Bool
  pub ioblk : ℕ
  pub blkidkey : B
  pub content : Option C
  pub done : Bool
  pub bcachefound : Bool

pub record Sector (T : Type 0) : Type 0 where
  pub lru : Lru T
  pub bcache_hits_r : ℕ
  pub bcache_misses_r : ℕ
  pub compulsory_misses : ℕ
  pub capacity_misses : ℕ

abbrev pub inc64 : ℕ → ℕ
inc64 x = (x + 1) % 2 ^ 64

-- `RAMsize_MB * 1024 * 1024 / BLKSIZE`, where the product of ints must not overflow.
blocks_of : ℕ → Result ℕ
blocks_of mb = if ltb (mb * 2 ^ 20) (2 ^ 31) then ok (mb * 2 ^ 20 / 4096) else fault

-- `sectorcache_init`, for a content cache that is not larger than the RAM.
unfoldable pub sectorcache_init : Flags → ℕ → ℕ → ℕ → Result ℕ
unfolding blocks_of
sectorcache_init f ramsize_mb ccachesize_mb max_cache_count = do
  ram ←
      if f.preplayflag || f.sreplayflag || f.freplayflag
      then blocks_of ramsize_mb
      else ok max_cache_count
  if f.ioreplayflag then blocks_of (ramsize_mb - ccachesize_mb) else ok ram

-- The length of a stored content; other formats fail an assert.
unfoldable pub len_of : Flags → Result ℕ
len_of f = if f.hash_format then ok 32 else if f.block_format then ok 4096 else fault

module _ {K B C : Type 0} (ut : Uthash K (Stored C)) (key_of : ℕ → K) (cachefile_fetch : B → C)
    (same_bytes : ℕ → C → C → Bool) where
  -- `sectorcache_add`
  unfoldable pub sectorcache_add :
      Flags → ℕ → Lru ut.Table → ℕ → Stored C → Bool → ℕ → Result (Lru ut.Table × ℕ)
  sectorcache_add f max_cache_count s ioblk value updatehits found_out =
      add_to_cache ut max_cache_count s (key_of ioblk) value updatehits f.warmupflag found_out true

  -- The content that `sectorcache_lookup` goes on with.
  unfoldable pub fetched : Flags → Preq B C → Option (Stored C) → Result (Option C)
  fetched f preq none = ok none
  fetched f preq (some in_file) =
      if not f.collectformat && f.disksimflag
      then ok (some (cachefile_fetch preq.blkidkey))
      else fault
  fetched f preq (some (bytes n c)) =
      if not f.collectformat && f.disksimflag then fault else ok (some c)

  -- The checks on a content that was found, for a simulated disk.
  unfoldable pub checked : Flags → Preq B C → C → Result (Preq B C × Bool)
  checked f preq c = elim f.disksimflag [
    | false ↦ fault
    | true ↦ elim preq.rw [
      | false ↦ ok (preq, true)
      | true ↦ elim preq.content [
        | none ↦ fault
        | some own ↦
            if f.read_enabled && f.write_enabled
            then if same_bytes (if f.hash_format then 32 else 4096) own c
              then ok (preq, true)
              else fault
            else ok (preq, true)
      ]
    ]
  ]

  -- `sectorcache_lookup`; the Boolean is its result.
  unfoldable pub sectorcache_lookup :
      Flags → Lru ut.Table → Preq B C → Result (Lru ut.Table × Preq B C × Bool)
  unfolding fetched checked
  sectorcache_lookup f s preq =
      let (s', found) = find_in_cache ut s (key_of preq.ioblk) in
      do
        content ← fetched f preq found
        elim content [
          | some c ↦ checked f preq c >>= λ (p, hit). ok (s', p, hit)
          | none ↦
              if f.disksimflag
              then ok (s', preq, false)
              else if f.real_scan
              then ok (s', record preq { content = none }, false)
              else fault
        ]

  -- The counters of a miss in `find_in_sectorcache`.
  unfoldable pub note_miss : Flags → Sector ut.Table → Sector ut.Table
  note_miss f s =
      let counted = record s {
        lru = record s.lru { bcache_misses = inc64 s.lru.bcache_misses };
        bcache_misses_r = inc64 s.bcache_misses_r;
      } in
      let compulsory = record counted { compulsory_misses = inc64 s.compulsory_misses } in
      let capacity = record counted { capacity_misses = inc64 s.capacity_misses } in
      if f.freplayflag
      then if f.fmaphit_flag || f.fmapdirty_flag then capacity else compulsory
      else if f.preplayflag
      then if f.vmaphit_flag || f.vmapdirty_flag then capacity else compulsory
      else counted

  unfoldable pub note_hit : Sector ut.Table → Sector ut.Table
  note_hit s = record s {
    lru = record s.lru { bcache_hits = inc64 s.lru.bcache_hits };
    bcache_hits_r = inc64 s.bcache_hits_r;
  }

  unfoldable pub noted : Flags → Sector ut.Table → Bool → Sector ut.Table
  noted f s hit = if f.warmupflag then s else if hit then note_hit s else note_miss f s

  -- `find_in_sectorcache`
  unfoldable pub find_in_sectorcache :
      Flags → Sector ut.Table → Preq B C → Result (Sector ut.Table × Preq B C)
  find_in_sectorcache f s preq = elim (f.cachesimflag && preq.rw) [
    | false ↦ fault
    | true ↦ do
      _ ← len_of f
      (lru, p, hit) ← sectorcache_lookup f s.lru preq
      ok (noted f (record s { lru = lru }) hit, record p { done = hit; bcachefound = hit })
  ]

  -- What `overwrite_in_sectorcache` stores; a request without content is a copy from NULL.
  unfoldable pub stored_value : Flags → Preq B C → ℕ → Result (Stored C)
  stored_value f preq len =
      if not f.collectformat && f.disksimflag
      then ok in_file
      else elim preq.content [ none ↦ fault | some c ↦ ok (bytes len c) ]

  -- `overwrite_in_sectorcache`
  unfoldable pub overwrite_in_sectorcache :
      Flags → ℕ → Sector ut.Table → Preq B C → Result (Sector ut.Table × Preq B C)
  overwrite_in_sectorcache f max_cache_count s preq = elim f.cachesimflag [
    | false ↦ fault
    | true ↦ do
      len ← len_of f
      elim (f.warmupflag || (preq.bcachefound && preq.rw)) [
        | true ↦ ok (s, preq)
        | false ↦ do
          value ← stored_value f preq len
          (lru, out) ← sectorcache_add f max_cache_count s.lru preq.ioblk value (not preq.rw) 3
          ok (record s { lru = lru }, record preq { bcachefound = out == 1; done = preq.rw })
      ]
  ]
