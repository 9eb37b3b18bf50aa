-- ===== src/ContentCache/Served.antt =====
-- The read of one block in `iodedupReadRequest` of iodedup/ioserveio.c, with and without its content in the cache.
use sim_replay.Prelude.{
  ℕ, ◌≡◌, ◌↔◌, none, some, Bool, true, false, arith, refl, ok, inl, inr, ◌==◌, Bool-cases,
}
use sim_replay.Arc.Defs.{Obj}
use sim_replay.Arc.Adapt.{inc64}
use sim_replay.Arc.Enter.{cached}
use sim_replay.IoDedup.D2pv.{D2pv}
use sim_replay.IoDedup.Ops.{Request}
use sim_replay.Modes.{len_of}
use sim_replay.ContentCache.Modes.{ContentCache, CacheModes, count_self, count_missed, count_served}
use sim_replay.ContentCache.Defs.{cache_missed, cache_found, read_content}
use sim_replay.ContentCache.Own.{
  IsFaithful, cached-IsOwn, contentcache_lookup_hit, contentcache_lookup_miss,
}

module _ {K C : Type 0} (same_key : K → K → Bool) (ops_hash : K → ℕ)
    (same_key_iff : (a b : K) → (same_key a b ≡ true) ↔ (a ≡ b)) (key_of : C → K)
    (same_content : C → C → Bool) where
  -- A read that is served: it is done, with a content of the digest, and one hit is counted.
  pub record IsServed (m : ℕ) (s s' : ContentCache K C) (preq after : Request C) (key : K)
      : Type 0 where
    pub done : after.done ≡ true
    pub content : C
    pub has : after.content ≡ some content
    pub digest : key_of content ≡ key
    pub same_block : after.ioblk ≡ preq.ioblk
    pub faithful : IsFaithful same_key ops_hash same_key_iff key_of m s'.ccache
    pub hits : s'.counters ≡ record s.counters { hits = inc64 s.counters.hits }
    pub read_hits : s'.counts.ccache_hits_r ≡ inc64 s.counts.ccache_hits_r

  -- A read whose content is not cached: it goes on to the disk as it is, and one miss is counted.
  pub record IsMissed (m : ℕ) (s s' : ContentCache K C) : Type 0 where
    pub faithful : IsFaithful same_key ops_hash same_key_iff key_of m s'.ccache
    pub misses : s'.counters ≡ record s.counters { misses = inc64 s.counters.misses }
    pub read_misses : s'.counts.ccache_misses_r ≡ inc64 s.counts.ccache_misses_r

  module _ {m : ℕ} (s : ContentCache K C) (modes : CacheModes) (preq : Request C) (traced : C)
      (d2pv : D2pv K) (f : IsFaithful same_key ops_hash same_key_iff key_of m s.ccache)
      (cold : modes.warmupflag ≡ false) (simulated : modes.flags.disksimflag ≡ true)
      (has : preq.content ≡ some traced) where
    pub read_content-IsServed :
        (o : Obj K C)
        → cached same_key s.ccache d2pv.dhashkey (len_of modes.flags) ≡ some o
        → o.ioblk_id ≡ d2pv.ioblk_id
        → key_of traced ≡ d2pv.dhashkey
        → (modes.both_enabled ≡ true
            → (c : C) → key_of c ≡ d2pv.dhashkey
            → same_content traced c ≡ true)
        → (s' : ContentCache K C) × (after : Request C) × (read_content same_key ops_hash key_of
              same_content s modes preq d2pv
            ≡ ok (s', after))
          × IsServed m s s' preq after d2pv.dhashkey
    unfolding read_content cache_found
    read_content-IsServed o h led right agree =
        let (mid, looked, g, cs, hs) =
          contentcache_lookup_hit same_key ops_hash same_key_iff key_of s d2pv.dhashkey
            (len_of modes.flags) preq.ioblk o f h in
        let (c, loaded, same) =
          cached-IsOwn same_key ops_hash same_key_iff key_of d2pv.dhashkey (len_of modes.flags) o f
            h in
        elim (Bool-cases modes.both_enabled) [
          | inl both ↦ (
            count_served false (count_self false (preq.ioblk == d2pv.ioblk_id) mid),
            record preq { done = true },
            ground (
              arith,
              looked,
              led,
              has,
              loaded,
              cold,
              simulated,
              both,
              agree both c same,
              same,
              right,
              same_key_iff d2pv.dhashkey d2pv.dhashkey,
            ),
            record {
              done = refl;
              content = traced;
              has = has;
              digest = right;
              same_block = refl;
              faithful = g;
              hits = ground (arith, cs);
              read_hits = ground (arith, hs);
            },
          )
          | inr some_off ↦ (
            count_served false (count_self false (preq.ioblk == d2pv.ioblk_id) mid),
            record preq { content = some c; done = true },
            ground (
              arith,
              looked,
              led,
              has,
              loaded,
              cold,
              simulated,
              some_off,
              same,
              right,
              same_key_iff d2pv.dhashkey d2pv.dhashkey,
            ),
            record {
              done = refl;
              content = c;
              has = refl;
              digest = same;
              same_block = refl;
              faithful = g;
              hits = ground (arith, cs);
              read_hits = ground (arith, hs);
            },
          )
        ]

    pub read_content-IsMissed :
        cached same_key s.ccache d2pv.dhashkey (len_of modes.flags) ≡ none
        → (s' : ContentCache K C) × (read_content same_key ops_hash key_of same_content s modes preq
              d2pv
            ≡ ok (s', preq))
          × IsMissed m s s'
    unfolding read_content cache_missed
    read_content-IsMissed h =
        let (next, looked, g) =
          contentcache_lookup_miss same_key ops_hash same_key_iff key_of s d2pv.dhashkey
            (len_of modes.flags) preq.ioblk d2pv.ioblk_id f h in
        (
          count_missed false (preq.ioblk == d2pv.ioblk_id)
              (count_self false (preq.ioblk == d2pv.ioblk_id) (record s { ccache = next })),
          ground (arith, looked, has, cold, simulated),
          record { faithful = g; misses = refl; read_misses = refl },
        )
