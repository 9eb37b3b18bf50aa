-- ===== src/ContentCache/Modes.antt =====
-- The state of content-cache/contentcache.c with its counters, and the flags that it looks at.
use sim_replay.Prelude.{ℕ, Bool, not, if◌then◌else◌}
use sim_replay.Modes.{Modes}
use sim_replay.Arc.Defs.{Arc}
use sim_replay.Arc.Adapt.{Counters, inc64}

-- The counters of the reads.
pub record ReadCounts : Type 0 where
  pub ccache_hits_r : ℕ
  pub ccache_misses_r : ℕ
  pub ccache_dedup_hits : ℕ
  pub ccache_nondedup_hits : ℕ
  pub ccache_dedup_misses : ℕ
  pub ccache_nondedup_misses : ℕ
  pub cmap_self_is_leader : ℕ
  pub cmap_self_is_not_leader : ℕ
  pub capacity_misses : ℕ

pub record ContentCache (K C : Type 0) : Type 0 where
  pub ccache : Arc K C
  pub counters : Counters
  pub counts : ReadCounts

-- The mode, whether the caches are being warmed up, and whether reads and writes are both replayed.
pub record CacheModes : Type 0 where
  pub flags : Modes
  pub warmupflag : Bool
  pub both_enabled : Bool

-- A counter of 64 bits counts unless the caches are being warmed up.
abbrev pub tally : Bool → ℕ → ℕ
tally warmupflag n = if warmupflag then n else inc64 n

-- A counter that counts on one of two branches.
abbrev pub tally_if : Bool → Bool → ℕ → ℕ
tally_if warmupflag counts n = if counts then tally warmupflag n else n

module _ {K C : Type 0} where
  -- What a look-up that finds an object counts.
  abbrev pub count_kind : Bool → ContentCache K C → ContentCache K C
  count_kind self s = record s {
    counts = record s.counts {
      ccache_dedup_hits =
          if self then s.counts.ccache_dedup_hits else inc64 s.counts.ccache_dedup_hits;
      ccache_nondedup_hits =
          if self then inc64 s.counts.ccache_nondedup_hits else s.counts.ccache_nondedup_hits;
    };
  }

  -- What a read counts of the block that it is redirected to.
  abbrev pub count_self : Bool → Bool → ContentCache K C → ContentCache K C
  count_self w self s = record s {
    counts = record s.counts {
      cmap_self_is_leader = tally_if w self s.counts.cmap_self_is_leader;
      cmap_self_is_not_leader = tally_if w (not self) s.counts.cmap_self_is_not_leader;
    };
  }

  abbrev pub count_missed : Bool → Bool → ContentCache K C → ContentCache K C
  count_missed w self s = record s {
    counters = record s.counters { misses = tally w s.counters.misses };
    counts = record s.counts {
      ccache_misses_r = tally w s.counts.ccache_misses_r;
      capacity_misses = tally w s.counts.capacity_misses;
      ccache_dedup_misses = tally_if w (not self) s.counts.ccache_dedup_misses;
      ccache_nondedup_misses = tally_if w self s.counts.ccache_nondedup_misses;
    };
  }

  abbrev pub count_served : Bool → ContentCache K C → ContentCache K C
  count_served w s = record s {
    counters = record s.counters { hits = tally w s.counters.hits };
    counts = record s.counts { ccache_hits_r = tally w s.counts.ccache_hits_r };
  }
