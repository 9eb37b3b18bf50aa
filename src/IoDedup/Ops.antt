-- ===== src/IoDedup/Ops.antt =====
-- `resumeDeduping` of iodedup/iodeduping.c, its callers in runtime-fixed/ioruntime.c, and the look-up of the map
-- in `iodedupReadRequest` of iodedup/ioserveio.c.
use sim_replay.Prelude.{
  ℕ, Option, none, some, Bool, true, false, List, [], ◌∷◌, Result, ok, fault, ◌>>=◌, ◌==◌, ◌||◌,
  if◌then◌else◌,
}
use sim_replay.Hashtab.Api.{TableApi}
use sim_replay.Modes.{Modes, has_digests, has_blocks, scanned_disk, len_of}
use sim_replay.Lru.Sector.{inc64}
use sim_replay.IoDedup.P2d.{
  BlkFlag, dontcare_lastblk, P2d, dedup_dirty, p2dmaps_get, mapped, zero_blocks, unmapped,
  get_virtto_dedup_map,
}
use sim_replay.IoDedup.D2pv.{Stage, noinit_stage, D2pv, deref, get_dedup_map}
use sim_replay.IoDedup.Defs.{IoDedup, dedup_content, dedup_hit, note_blockio, mapping_trim_scan_io}

-- A request for one block of BLKSIZE bytes, which `overwrite_in_contentcache` asserts: `content` is none for NULL, and `rw` is set for a read.
pub record Request (C : Type 0) : Type 0 where
  pub ioblk : ℕ
  pub content : Option C
  pub rw : Bool
  pub done : Bool

-- What the caches have said of the request: `cmaphit_flag` with `cmaphit_iodedupID`, and
-- `ccache_already_had_flag` with `ccache_already_had_obj_ioblkID`.
pub record Flags : Type 0 where
  pub cmaphit : Option ℕ
  pub already_had : Option ℕ

-- The counters of the look-up.
pub record MapCounts : Type 0 where
  pub cmap_hits : ℕ
  pub cmap_misses : ℕ
  pub cmap_dirties : ℕ
  pub compulsory_misses : ℕ
  pub capacity_misses : ℕ

-- How a read goes on after the look-up: to the disk, with a block of zeroes, or to the content cache with the
-- object of its content.
pub data Lookup (K : Type 0) : Type 0 where
  to_disk : Lookup K
  zeroes : Lookup K
  to_cache : ℕ → D2pv K → Lookup K
  lookup_error : Lookup K

module _ {K C : Type 0} (api : TableApi K ℕ) (get_hash_key : C → K) where
  -- `len` is 0 for a zero block only.
  unfoldable pub resume_deduping :
      Modes
      → Flags
      → IoDedup K api.Table
      → Option C
      → ℕ
      → ℕ
      → Stage
      → BlkFlag
      → Bool
      → Result (IoDedup K api.Table × Bool)
  resume_deduping config flags s buf len ioblk_id initflag lastblk_flag got_node = elim (len == 0) [
    | true ↦ note_blockio api config.runtimemap s ioblk_id initflag lastblk_flag 0
    | false ↦ elim buf [
      | none ↦ fault
      | some content ↦ elim flags.cmaphit [
        | some cmaphit_iodedup_id ↦ elim config.disksimflag [
          | true ↦
              dedup_hit api s (get_hash_key content) ioblk_id flags.already_had cmaphit_iodedup_id
          | false ↦ if scanned_disk config then ok (s, false) else fault
        ]
        | none ↦ do
          r ←
              dedup_content api s (get_hash_key content) ioblk_id flags.already_had initflag
                got_node
          elim (r.1) [
            | none ↦ ok (r.0, true)
            | some id ↦ note_blockio api config.runtimemap r.0 ioblk_id initflag lastblk_flag id
          ]
      ]
    ]
  ]

  -- The mode must be one of the four that the code provides for; it gives the length.
  unfoldable pub perf_read_write_deduping :
      Modes → Flags → IoDedup K api.Table → Request C → Bool → Result (IoDedup K api.Table × Bool)
  perf_read_write_deduping config flags s preq got_node =
      let buf =
        if config.disksimflag then preq.content else if preq.rw then none else preq.content in
      elim (has_digests config || has_blocks config) [
        | false ↦ fault
        | true ↦
            resume_deduping config flags s buf (len_of config) preq.ioblk noinit_stage
              dontcare_lastblk got_node
      ]

  unfoldable pub io_mapupdate :
      Modes → Flags → IoDedup K api.Table → Request C → Bool → Result (IoDedup K api.Table × Bool)
  io_mapupdate config flags s preq got_node =
      if preq.done then ok (s, false) else perf_read_write_deduping config flags s preq got_node

-- A counter of 64 bits counts unless the caches are being warmed up.
abbrev pub tick : Bool → ℕ → ℕ
tick warmupflag n = if warmupflag then n else inc64 n

module _ {K T : Type 0} where
  -- Neither a miss nor dirty: a block of zeroes, which only the scan of a real disk gives, or the object of the
  -- content.
  unfoldable pub hit :
      Modes → Bool → IoDedup K T → MapCounts → P2d → Bool → Result (Lookup K × MapCounts)
  hit modes warmupflag s c p2d true =
      if scanned_disk modes
      then ok (zeroes, record c { cmap_hits = tick warmupflag c.cmap_hits })
      else fault
  hit modes warmupflag s c p2d false =
      let c' : MapCounts = record c { cmap_hits = tick warmupflag c.cmap_hits } in
      elim (get_dedup_map s.maps p2d.iodedup_id) [
        | none ↦ ok (lookup_error, c')
        | some p ↦ do d ← deref s.maps p; ok (to_cache p2d.iodedup_id d, c')
      ]

  -- The block of the list, which has one block.
  unfoldable pub looked_up :
      Modes → Bool → IoDedup K T → MapCounts → List ℕ → Bool → Result (Lookup K × MapCounts)
  looked_up modes warmupflag s c [] zero_blk = fault
  looked_up modes warmupflag s c (ioblk ∷ rest) zero_blk = elim (p2dmaps_get s.p2dmaps ioblk) [
    | none ↦ fault
    | some p2d ↦ elim (dedup_dirty p2d) [
      | true ↦ ok (
        to_disk,
        record c {
          cmap_misses = tick warmupflag c.cmap_misses;
          capacity_misses = tick warmupflag c.capacity_misses;
          cmap_dirties = tick warmupflag c.cmap_dirties;
        },
      )
      | false ↦ hit modes warmupflag s c p2d zero_blk
    ]
  ]

  -- `iodedupReadRequest` up to the content cache. A block without a map, where the map is not built at run
  -- time, leaves the list empty, and the code goes on to the first of it.
  unfoldable pub read_lookup :
      Modes → Bool → IoDedup K T → MapCounts → ℕ → Result (Lookup K × MapCounts)
  unfolding looked_up hit
  read_lookup modes warmupflag s c ioblk = elim (get_virtto_dedup_map s.p2dmaps ioblk 1) [
    | mapped p2dlist ↦ looked_up modes warmupflag s c p2dlist false
    | zero_blocks p2dlist ↦ looked_up modes warmupflag s c p2dlist true
    | unmapped ↦ elim modes.runtimemap [
      | true ↦ ok (
        to_disk,
        record c {
          cmap_misses = tick warmupflag c.cmap_misses;
          compulsory_misses = tick warmupflag c.compulsory_misses;
        },
      )
      | false ↦ looked_up modes warmupflag s c [] false
    ]
  ]

module _ {K C : Type 0} (api : TableApi K ℕ) (get_hash_key : C → K) where
  -- Where the program is compiled to update the map upon writes, the thread that does it is waited for.
  unfoldable pub update_after_write :
      Bool
      → Modes
      → Option ℕ
      → IoDedup K api.Table
      → Request C
      → Bool
      → Result (IoDedup K api.Table × Bool)
  update_after_write update_upon_writes config already_had s preq got_node =
      elim update_upon_writes [
        | true ↦
            io_mapupdate api get_hash_key config
              (record { cmaphit = none; already_had = already_had }) s preq got_node
        | false ↦ ok (s, false)
      ]

  -- What a write of one block does to the map in the loop of simulated-cache-io/sim-replay-generic.c, where an
  -- error ends the program.
  unfoldable pub write_block :
      Bool
      → Modes
      → Option ℕ
      → IoDedup K api.Table
      → Request C
      → Bool
      → Result (IoDedup K api.Table × Bool)
  write_block update_upon_writes config already_had s preq got_node = do
    trimmed ← mapping_trim_scan_io api config.runtimemap s preq.ioblk
    elim (trimmed.1) [
      | true ↦ ok trimmed
      | false ↦ update_after_write update_upon_writes config already_had trimmed.0 preq got_node
    ]
