-- ===== src/ContentCache/Tests.antt =====
-- content-cache/contentcache.c at a concrete cache, with the map of blocks 1 and 2, that hold content 8.
use sim_replay.Prelude.{
  ℕ, ◌≤◌, ◌≡◌, ◌⊎◌, [], ◌∷◌, none, some, Bool, true, false, arith, refl, ok, ◌==◌, ==_iff,
}
use sim_replay.Arc.Defs.{Obj, Arc, place_of, find_obj, is_named}
use sim_replay.Arc.Adapt.{count_miss}
use sim_replay.Arc.Lists.{occ, times, total}
use sim_replay.Arc.Enter.{cached}
use sim_replay.Utils.Prime.{IsPrime}
use sim_replay.Hashtab.Api.{hashtab_api}
use sim_replay.Vectors.Defs.{get}
use sim_replay.IoDedup.P2d.{p2dmaps_get, get_virtto_dedup_map}
use sim_replay.IoDedup.D2pv.{D2pv, get_dedup_map, deref}
use sim_replay.IoDedup.Ops.{Request, MapCounts, to_cache, read_lookup, looked_up, hit}
use sim_replay.IoDedup.Sound.{object_of}
use sim_replay.IoDedup.Consistent.{digest_of}
use sim_replay.IoDedup.Tests.{api, state, state-IsConsistent, no_counts}
use sim_replay.Modes.{len_of}
use sim_replay.ContentCache.Modes.{ContentCache, CacheModes}
use sim_replay.ContentCache.Defs.{contentcache_init, overwrite_in_contentcache, read_content}
use sim_replay.ContentCache.Init.{contentcache_init-IsFaithful}
use sim_replay.ContentCache.Own.{IsFaithful, overwrite_in_contentcache-IsFaithful}
use sim_replay.ContentCache.Served.{IsServed, IsMissed}
use sim_replay.ContentCache.Reads.{read_content-overwrite, read_lookup-read_content}

abbrev same : ℕ → ℕ → Bool
same a b = a == b

abbrev hash : ℕ → ℕ
hash k = k

-- A content is its own digest.
abbrev own : ℕ → ℕ
own c = c

-- Digest 8 is resident and digest 6 is in the MRU ghost list.
abbrev arc : Arc ℕ ℕ
arc = record {
  hash_size = 1;
  bucket = λ _. (8, 32) ∷ (6, 32) ∷ [];
  c = 64;
  p = 32;
  mrug = record {
    size = 32;
    objs = record { dhashkey = 6; osize = 32; ioblk_id = 2; content = none } ∷ [];
  };
  mru = record {
    size = 32;
    objs = record { dhashkey = 8; osize = 32; ioblk_id = 1; content = some 8 } ∷ [];
  };
  mfu = record { size = 0; objs = [] };
  mfug = record { size = 0; objs = [] };
}

arc-IsFaithful : IsFaithful same hash ==_iff own 32 arc
unfolding occ times total is_named
arc-IsFaithful = record {
  valid = record {
    core = record {
      mru_ok = record { sized = refl; fits = (omega arith, omega arith, refl, tt) };
      mfu_ok = record { sized = refl; fits = tt };
      mrug_ok = record { sized = refl; fits = (omega arith, omega arith, refl, tt) };
      mfug_ok = record { sized = refl; fits = tt };
      c_small = omega arith;
      m_small = omega arith;
      p_le = omega arith;
      room = omega arith;
      directory = λ k n. ground arith;
      once = λ k n. ground arith;
    };
    resident_bound = omega arith;
    ghost_bound = omega arith;
  };
  own = record {
    mru = (λ c e. ground arith, tt);
    mfu = tt;
    mrug = (λ c e. absurd (ground arith), tt);
    mfug = tt;
  };
}

abbrev cache : ContentCache ℕ ℕ
cache = record {
  ccache = arc;
  counters = record {
    hits = 0;
    hits_w = 0;
    misses = 0;
    misses_w = 0;
    already_had_flag = false;
    already_had_ioblk_id = 0;
  };
  counts = record {
    ccache_hits_r = 0;
    ccache_misses_r = 0;
    ccache_dedup_hits = 0;
    ccache_nondedup_hits = 0;
    ccache_dedup_misses = 0;
    ccache_nondedup_misses = 0;
    cmap_self_is_leader = 0;
    cmap_self_is_not_leader = 0;
    capacity_misses = 0;
  };
}

abbrev modes : CacheModes
modes = record {
  flags = record {
    disksimflag = true;
    runtimemap = true;
    collectformat = true;
    vmbunchreplay = false;
    scan = false;
    sreplayflag = false;
  };
  warmupflag = false;
  both_enabled = true;
}

abbrev request : Bool → ℕ → ℕ → Request ℕ
request rw ioblk content = record { ioblk = ioblk; content = some content; rw = rw; done = false }

-- A write of content 6 to block 5 brings digest 6 back from the ghost list.
overwrite_in_contentcache-IsFaithful_example :
    (s' : ContentCache ℕ ℕ) × (o : Obj ℕ ℕ) × (c : ℕ) × (overwrite_in_contentcache same hash own
        cache modes
        (request false 5 6)
        false
        true
        true
      ≡ ok s')
    × IsFaithful same hash ==_iff own 32 s'.ccache
    × (cached same s'.ccache 6 32 ≡ some o)
    × (o ≡ record { dhashkey = 6; osize = 32; ioblk_id = 5; content = some 6 })
    × (o.content ≡ some c)
    × (c ≡ 6)
    × (s'.counters ≡ record cache.counters { misses = 1; misses_w = 1 })
    × (s'.counts ≡ cache.counts)
unfolding len_of cached place_of find_obj is_named count_miss
overwrite_in_contentcache-IsFaithful_example =
    overwrite_in_contentcache-IsFaithful same hash ==_iff own cache modes (request false 5 6) false
      true 6 arc-IsFaithful refl refl refl refl refl (omega arith)

-- Block 7 is then read, whose object in the map has digest 6 and names block 5.
read_content-overwrite_example :
    (s1 : ContentCache ℕ ℕ) × (s2 : ContentCache ℕ ℕ) × (after : Request ℕ)
    × (overwrite_in_contentcache same hash own cache modes (request false 5 6) false true true
        ≡ ok s1)
    × (read_content same hash own same s1 modes
          (request true 7 6)
          (record { ioblk_id = 5; iodedup_id = 4; dhashkey = 6; d2pmaps = 7 ∷ 5 ∷ [] })
        ≡ ok (s2, after))
    × IsServed same hash ==_iff own same 32 s1 s2 (request true 7 6) after 6
unfolding len_of cached place_of find_obj is_named
read_content-overwrite_example =
    read_content-overwrite same hash ==_iff own same cache modes (request false 5 6) false true 6
      (request true 7 6) 6
      (record { ioblk_id = 5; iodedup_id = 4; dhashkey = 6; d2pmaps = 7 ∷ 5 ∷ [] }) arc-IsFaithful
      refl refl refl refl refl refl (omega arith) refl refl refl refl (λ both c e. ground arith)

read_lookup-read_content_example :
    (id : ℕ) × (d : D2pv ℕ) × (n' : MapCounts) × (s' : ContentCache ℕ ℕ) × (after : Request ℕ)
    × (read_lookup modes.flags false state no_counts 2 ≡ ok (to_cache id d, n'))
    × (d.dhashkey ≡ 8)
    × (read_content same hash own same cache modes (request true 2 8) d ≡ ok (s', after))
    × (((cached same cache.ccache 8 32 ≡ none)
          × (after ≡ request true 2 8)
          × IsMissed same hash ==_iff own same 32 cache s')
        ⊎ ((o : Obj ℕ ℕ) × (cached same cache.ccache 8 32 ≡ some o)
            × IsServed same hash ==_iff own same 32 cache s' (request true 2 8) after 8))
unfolding hashtab_api digest_of p2dmaps_get get object_of get_dedup_map len_of cached place_of
    find_obj is_named read_lookup looked_up hit deref get_virtto_dedup_map
read_lookup-read_content_example =
    read_lookup-read_content api same hash ==_iff own same state cache modes no_counts
      (request true 2 8) 8 8 state-IsConsistent arc-IsFaithful refl refl (omega arith) refl refl
      refl (λ id d n' o found at. ground arith) (λ both c e. ground arith)

contentcache_init-IsFaithful_example :
    (c : Arc ℕ ℕ) × (contentcache_init true 100 ≡ ok c)
    × (c.c ≡ 819200)
    × IsPrime c.hash_size
    × (c.hash_size ≤ 25600)
    × IsFaithful same hash ==_iff own 32 c
contentcache_init-IsFaithful_example =
    contentcache_init-IsFaithful same hash ==_iff own true 100 32 (omega arith) (omega arith)
      (omega arith)
