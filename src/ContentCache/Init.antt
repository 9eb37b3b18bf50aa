-- ===== src/ContentCache/Init.antt =====
-- `contentcache_init` of content-cache/contentcache.c.
use sim_replay.Prelude.{ℕ, ◌*◌, ◌^◌, ◌≤◌, ◌<◌, ◌≡◌, ◌↔◌, Bool, true, arith, refl, ok, if◌then◌else◌}
use sim_replay.Arc.Defs.{Arc, create}
use sim_replay.Arc.Correct.{create-IsValid}
use sim_replay.Utils.Prime.{IsPrime, table_size-IsPrime}
use sim_replay.ContentCache.Defs.{contentcache_init, max_ccache_size}
use sim_replay.ContentCache.Own.{IsFaithful}

max_ccache_size_lem :
    (hashes : Bool) (ccachesize_mb : ℕ)
    → ccachesize_mb < 2048
    → max_ccache_size hashes ccachesize_mb
      ≡ ok (if hashes then ccachesize_mb * 8192 else ccachesize_mb * 1048576)
unfolding max_ccache_size
max_ccache_size_lem hashes ccachesize_mb small = ground arith

module _ {K C : Type 0} (same_key : K → K → Bool) (ops_hash : K → ℕ)
    (same_key_iff : (a b : K) → (same_key a b ≡ true) ↔ (a ≡ b)) (key_of : C → K) where
  -- For 1 to 2047 MB, the content cache is created: its limit is 8192 bytes for a MB where digests are the
  -- contents, else 2^20; its table has a number of buckets that is above 1 and
  -- that no number between 1 and itself divides, at most 256 for a MB; and for every bound on the
  -- object sizes below 2^31 it is consistent, with every content under its own digest.
  pub contentcache_init-IsFaithful :
      (hashes : Bool) (ccachesize_mb m : ℕ)
      → 0 < ccachesize_mb
      → ccachesize_mb < 2048
      → m < 2 ^ 31
      → (cache : Arc K C) × (contentcache_init hashes ccachesize_mb ≡ ok cache)
        × (cache.c ≡ (if hashes then ccachesize_mb * 8192 else ccachesize_mb * 1048576))
        × IsPrime cache.hash_size
        × (cache.hash_size ≤ ccachesize_mb * 256)
        × IsFaithful same_key ops_hash same_key_iff key_of m cache
  unfolding contentcache_init create
  contentcache_init-IsFaithful hashes ccachesize_mb m pos small m_small =
      let size : ℕ = if hashes then ccachesize_mb * 8192 else ccachesize_mb * 1048576 in
      let (buckets, chosen, below, prime) =
        table_size-IsPrime (ccachesize_mb * 256) (omega arith) (omega arith) in
      (
        create buckets size,
        ground (arith, max_ccache_size_lem hashes ccachesize_mb small, chosen),
        refl,
        prime,
        below,
        record {
          valid = create-IsValid same_key ops_hash m buckets size (ground arith) m_small;
          own = record { mru = tt; mfu = tt; mrug = tt; mfug = tt };
        },
      )
