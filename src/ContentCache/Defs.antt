-- ===== src/ContentCache/Defs.antt =====
-- `contentcache_add`, `contentcache_lookup` and `overwrite_in_contentcache` of content-cache/contentcache.c, the part
-- of `iodedupReadRequest` in iodedup/ioserveio.c that follows the look-up of the map, and the callers for writes
-- and misses. An `assert` that does not hold, and `fatal`, are a `fault`.
use sim_replay.Prelude.{
  ℕ, ◌*◌, ◌/◌, ◌^◌, Option, none, some, Bool, true, false, not, ◌&&◌, ◌||◌, Result, ok, fault,
  ◌>>=◌, ◌==◌, if◌then◌else◌,
}
use sim_replay.Arc.Defs.{Arc, create}
use sim_replay.Arc.Moves.{lookup, add}
use sim_replay.Utils.Defs.{table_size}
use sim_replay.IoDedup.D2pv.{D2pv}
use sim_replay.IoDedup.Ops.{Request}
use sim_replay.Modes.{has_digests, has_blocks, scanned_disk, len_of}
use sim_replay.ContentCache.Modes.{
  ContentCache, CacheModes, count_kind, count_self, count_missed, count_served,
}

-- `MAX_CCACHE_SIZE` of `contentcache_init`, where `hashes` is `has_digests`: a product of 32-bit signed numbers, where an overflow is a fault.
unfoldable pub max_ccache_size : Bool → ℕ → Result ℕ
max_ccache_size hashes ccachesize_mb =
    let bytes : ℕ = ccachesize_mb * 1024 * 1024 in
    if bytes / 2 ^ 31 == 0 then ok (if hashes then bytes / 128 else bytes) else fault

-- `contentcache_init`: a table of as many buckets as there are blocks of 4096 bytes, or the next prime below.
unfoldable pub contentcache_init : {K C : Type 0} → Bool → ℕ → Result (Arc K C)
unfolding max_ccache_size
contentcache_init hashes ccachesize_mb = do
  size ← max_ccache_size hashes ccachesize_mb
  hash_size ← table_size (ccachesize_mb * 256)
  ok (create hash_size size)

-- `updatehits` against the kind of the request, as it is asserted.
abbrev pub is_asked : Bool → Bool → Bool → Bool
is_asked rw bcachefound updatehits =
    (rw && not updatehits) || (not rw && updatehits) || (not rw && bcachefound && not updatehits)

module _ {K C : Type 0} (same_key : K → K → Bool) (ops_hash : K → ℕ) where
  unfoldable pub contentcache_add :
      ContentCache K C → Bool → Bool → Bool → K → C → ℕ → ℕ → Result (ContentCache K C)
  contentcache_add s warmupflag updatehits got_obj dhashkey content datalen ioblk = do
    r ←
        add same_key ops_hash s.ccache s.counters warmupflag updatehits got_obj dhashkey content
          datalen ioblk
    if r.2 then ok (record s { ccache = r.0; counters = r.1 }) else fault

  -- The content, or `none` for NULL.
  unfoldable pub contentcache_lookup :
      ContentCache K C → Bool → K → ℕ → ℕ → ℕ → Result (ContentCache K C × Option C)
  contentcache_lookup s warmupflag dhashkey len ioblk_id d2pv_ioblk_id = do
    r ← lookup same_key ops_hash s.ccache dhashkey len
    let s' : ContentCache K C = record s { ccache = r.0 }
    elim (r.1) [
      | none ↦ ok (s', none)
      | some obj ↦
          if warmupflag || not (obj.ioblk_id == d2pv_ioblk_id)
          then fault
          else ok (count_kind (ioblk_id == obj.ioblk_id) s', obj.content)
    ]

module _ {K C : Type 0} (same_key : K → K → Bool) (ops_hash : K → ℕ) (key_of : C → K) where
  -- `key_of` is `getHashKey`, or `zerohash` for a content of zeroes.
  unfoldable pub overwrite_in_contentcache :
      ContentCache K C → CacheModes → Request C → Bool → Bool → Bool → Result (ContentCache K C)
  overwrite_in_contentcache s modes preq bcachefound updatehits got_obj =
      if preq.done || modes.warmupflag
      then ok s
      else elim (is_asked preq.rw bcachefound updatehits
          && (has_digests modes.flags || has_blocks modes.flags)) [
            | false ↦ fault
            | true ↦ elim preq.content [
              | none ↦ fault
              | some content ↦
                  contentcache_add same_key ops_hash s modes.warmupflag updatehits got_obj
                    (key_of content) content (len_of modes.flags) preq.ioblk
            ]
          ]

  -- Where the program is compiled to update the map upon writes.
  unfoldable pub iodedup_write_request :
      ContentCache K C → CacheModes → Request C → Bool → Bool → Result (ContentCache K C)
  iodedup_write_request s modes preq bcachefound got_obj =
      overwrite_in_contentcache s modes preq bcachefound (not bcachefound) got_obj

  unfoldable pub ioread_contentcacheupdate :
      ContentCache K C → CacheModes → Request C → Bool → Bool → Result (ContentCache K C)
  ioread_contentcacheupdate s modes preq bcachefound got_obj =
      if preq.done then ok s else overwrite_in_contentcache s modes preq bcachefound false got_obj

  -- The content is not in the cache.
  unfoldable pub cache_missed :
      ContentCache K C → CacheModes → Request C → D2pv K → Result (ContentCache K C × Request C)
  cache_missed s modes preq d2pv =
      let s' : ContentCache K C = count_missed modes.warmupflag (preq.ioblk == d2pv.ioblk_id) s in
      if modes.flags.disksimflag
      then elim preq.content [ none ↦ fault | some _ ↦ ok (s', preq) ]
      else if scanned_disk modes.flags
      then ok (s', record preq { content = none })
      else fault

  -- The content is in the cache. With reads and writes both replayed it must be the content of the trace, else
  -- the request takes it over.
  unfoldable pub cache_found :
      (C → C → Bool)
      → ContentCache K C
      → CacheModes
      → Request C
      → D2pv K
      → C
      → Result (ContentCache K C × Request C)
  cache_found same_content s modes preq d2pv content = elim preq.content [
    | none ↦ fault
    | some traced ↦
        let s' : ContentCache K C = count_served modes.warmupflag s in
        if same_key (key_of content) d2pv.dhashkey
          && same_key (key_of traced) d2pv.dhashkey
          && modes.flags.disksimflag
        then if modes.both_enabled
          then if same_content traced content then ok (s', record preq { done = true }) else fault
          else ok (s', record preq { content = some content; done = true })
        else fault
  ]

  -- `iodedupReadRequest` from the content cache on, for the object of the map.
  unfoldable pub read_content :
      (C → C → Bool)
      → ContentCache K C
      → CacheModes
      → Request C
      → D2pv K
      → Result (ContentCache K C × Request C)
  unfolding cache_found cache_missed
  read_content same_content s modes preq d2pv = do
    r ←
        contentcache_lookup same_key ops_hash s modes.warmupflag d2pv.dhashkey (len_of modes.flags)
          preq.ioblk d2pv.ioblk_id
    let s' : ContentCache K C = count_self modes.warmupflag (preq.ioblk == d2pv.ioblk_id) (r.0)
    elim (r.1) [
      | none ↦ cache_missed s' modes preq d2pv
      | some content ↦ cache_found same_content s' modes preq d2pv content
    ]
