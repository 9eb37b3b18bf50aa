-- ===== src/ContentCache/Own.antt =====
-- `contentcache_lookup` and `overwrite_in_contentcache` of content-cache/contentcache.c: the cache has every content
-- under its own digest.
use mathlib.Core.Path.{subst}
use sim_replay.Prelude.{
  ℕ, ◌≤◌, ◌≡◌, ◌↔◌, ◌||◌, none, some, Bool, true, false, arith, refl, ok, inl, inr, Result, ◌==◌,
  Option-cases, Bool-cases,
}
use sim_replay.Arc.Defs.{Obj, Arc, evict}
use sim_replay.Arc.Inv.{IsValid}
use sim_replay.Arc.Pull.{place_of_lem, is_resident}
use sim_replay.Arc.Enter.{cached}
use sim_replay.Arc.Ops.{lookup_lem}
use sim_replay.Arc.Added.{kept, counted, add-Added}
use sim_replay.Arc.Keeps.{Yields, Keeps, place_of-Keeps}
use sim_replay.Arc.Kept.{lookup-Keeps, add-Keeps}
use sim_replay.IoDedup.Ops.{Request}
use sim_replay.Modes.{has_digests, has_blocks, len_of, len_of_pos}
use sim_replay.ContentCache.Modes.{ContentCache, CacheModes, count_kind}
use sim_replay.ContentCache.Defs.{
  is_asked, contentcache_add, contentcache_lookup, overwrite_in_contentcache,
}

module _ {K C : Type 0} (same_key : K → K → Bool) (ops_hash : K → ℕ)
    (same_key_iff : (a b : K) → (same_key a b ≡ true) ↔ (a ≡ b)) (key_of : C → K) where
  -- The content of an object, if it has one, has the object's digest.
  abbrev pub IsOwn : Obj K C → Type 0
  IsOwn o = (c : C) → o.content ≡ some c → key_of c ≡ o.dhashkey

  -- A consistent cache, with objects of sizes up to `m`, that has every content under its own digest.
  pub record IsFaithful (m : ℕ) (cache : Arc K C) : Type 0 where
    pub valid : IsValid same_key ops_hash m cache
    pub own : Keeps IsOwn cache

  pub evict-IsOwn : (o : Obj K C) → IsOwn o → IsOwn (evict o)
  evict-IsOwn o q c e = absurd (ground arith)

  -- What is cached under a name has content, and this has the digest of the name.
  pub cached-IsOwn :
      {m : ℕ} {cache : Arc K C} (key : K) (len : ℕ) (o : Obj K C)
      → IsFaithful m cache
      → cached same_key cache key len ≡ some o
      → (c : C) × (o.content ≡ some c) × (key_of c ≡ key)
  unfolding cached
  cached-IsOwn {m} {cache} key len o f h =
      elim (place_of_lem same_key ops_hash same_key_iff key len f.valid.core) [
        | inl (n, z) ↦ absurd (ground arith)
        | inr (place, x, e, found) ↦ elim (Bool-cases (is_resident place)) [
          | inr ghost ↦ absurd (ground arith)
          | inl res ↦ elim (Option-cases x.content) [
            | inl n ↦ absurd (ground (arith, found.loaded))
            | inr (c, g) ↦
                let q = (place_of-Keeps IsOwn same_key key len place x f.own e).0 c g in
                (c, ground (arith, g), ground (arith, q, found.same_hash))
          ]
        ]
      ]

  yielded : {A : Type 0} (P : A → Type 0) {r : Result A} (a : A) → Yields P r → r ≡ ok a → P a
  yielded P a y e = subst (Yields P) e y

  -- `contentcache_lookup` of a digest that is cached, where the object names the block that is asked for.
  pub contentcache_lookup_hit :
      {m : ℕ} (s : ContentCache K C) (key : K) (len ioblk_id : ℕ) (o : Obj K C)
      → IsFaithful m s.ccache
      → cached same_key s.ccache key len ≡ some o
      → (s' : ContentCache K C) × (contentcache_lookup same_key ops_hash s false key len ioblk_id
            o.ioblk_id
          ≡ ok (s', o.content))
        × IsFaithful m s'.ccache
        × (s'.counters ≡ s.counters)
        × (s'.counts.ccache_hits_r ≡ s.counts.ccache_hits_r)
  unfolding contentcache_lookup
  contentcache_lookup_hit s key len ioblk_id o f h =
      let (next, done, valid, _, _, _, _) =
        lookup_lem same_key ops_hash same_key_iff key len f.valid in
      let own =
        yielded (λ r. Keeps IsOwn (r.0)) _
          (lookup-Keeps same_key ops_hash same_key_iff IsOwn evict-IsOwn key len f.own) done in
      (
        count_kind (ioblk_id == o.ioblk_id) (record s { ccache = next }),
        ground (arith, done, h),
        record { valid = valid; own = own },
        refl,
        refl,
      )

  pub contentcache_lookup_miss :
      {m : ℕ} (s : ContentCache K C) (key : K) (len ioblk_id d2pv_ioblk_id : ℕ)
      → IsFaithful m s.ccache
      → cached same_key s.ccache key len ≡ none
      → (next : Arc K C) × (contentcache_lookup same_key ops_hash s false key len ioblk_id
            d2pv_ioblk_id
          ≡ ok (record s { ccache = next }, none))
        × IsFaithful m next
  unfolding contentcache_lookup
  contentcache_lookup_miss s key len ioblk_id d2pv_ioblk_id f h =
      let (next, done, valid, _, _, _, _) =
        lookup_lem same_key ops_hash same_key_iff key len f.valid in
      let own =
        yielded (λ r. Keeps IsOwn (r.0)) _
          (lookup-Keeps same_key ops_hash same_key_iff IsOwn evict-IsOwn key len f.own) done in
      (next, ground (arith, done, h), record { valid = valid; own = own })

  -- After the warm-up, in a mode that the code provides for, from a cache that has every content under its own
  -- digest and room for objects of the length, a request that is not done, whose kind agrees with `updatehits`, is
  -- entered, with memory for an object. The cache has every content under its own
  -- digest again, and under the digest of the request's content an object with a content of this digest: the one
  -- that was there, or a new one with the block of the request. A hit or a miss is counted accordingly.
  pub overwrite_in_contentcache-IsFaithful :
      {m : ℕ} (s : ContentCache K C) (modes : CacheModes) (preq : Request C)
      (bcachefound updatehits : Bool) (content : C)
      → IsFaithful m s.ccache
      → modes.warmupflag ≡ false
      → preq.done ≡ false
      → preq.content ≡ some content
      → is_asked preq.rw bcachefound updatehits ≡ true
      → (has_digests modes.flags || has_blocks modes.flags) ≡ true
      → (len_of modes.flags) ≤ m
      → (s' : ContentCache K C) × (o : Obj K C) × (c : C) × (overwrite_in_contentcache same_key
            ops_hash key_of s modes preq bcachefound updatehits true
          ≡ ok s')
        × IsFaithful m s'.ccache
        × (cached same_key s'.ccache (key_of content) (len_of modes.flags) ≡ some o)
        × (o
            ≡ kept same_key
                (cached same_key s.ccache (key_of content) (len_of modes.flags))
                (key_of content)
                content
                (len_of modes.flags)
                preq.ioblk)
        × (o.content ≡ some c)
        × (key_of c ≡ key_of content)
        × (s'.counters
            ≡ counted same_key
                (cached same_key s.ccache (key_of content) (len_of modes.flags))
                false
                updatehits
                s.counters)
        × (s'.counts ≡ s.counts)
  unfolding overwrite_in_contentcache contentcache_add
  overwrite_in_contentcache-IsFaithful {m} s modes preq bcachefound updatehits content f cold fresh
        has asked mode le =
      let key = key_of content in
      let (next, a) =
        add-Added same_key ops_hash same_key_iff s.counters false updatehits key content
          (len_of modes.flags) preq.ioblk f.valid (len_of_pos modes.flags) le in
      let own =
        yielded (λ r. Keeps IsOwn (r.0)) _
          (add-Keeps same_key ops_hash same_key_iff IsOwn evict-IsOwn key content
            (len_of modes.flags) preq.ioblk (λ o e c h. ground (arith, e, h)) s.counters false
            updatehits true f.own)
          a.done in
      let faithful : IsFaithful m next = record { valid = a.valid; own = own } in
      let o =
        kept same_key (cached same_key s.ccache key (len_of modes.flags)) key content
          (len_of modes.flags) preq.ioblk in
      let (c, loaded, same) = cached-IsOwn key (len_of modes.flags) o faithful a.holds in
      (
        record s {
          ccache = next;
          counters =
              counted same_key (cached same_key s.ccache key (len_of modes.flags)) false updatehits
                s.counters;
        },
        o,
        c,
        ground (arith, cold, fresh, has, asked, mode, a.done),
        faithful,
        a.holds,
        refl,
        loaded,
        same,
        refl,
        refl,
      )
