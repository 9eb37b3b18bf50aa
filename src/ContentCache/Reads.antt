-- ===== src/ContentCache/Reads.antt =====
-- Reads of deduplicated blocks: `iodedupReadRequest` of iodedup/ioserveio.c gets the content of the digest that the
-- map has for the block from the cache of content-cache/contentcache.c.
use mathlib.Core.Path.{subst}
use sim_replay.Prelude.{
  ℕ, ◌≤◌, ◌<◌, ◌≡◌, ◌↔◌, ◌||◌, ◌⊎◌, none, some, Bool, true, false, arith, refl, sym, ap, ◌∙◌, ok,
  inl, inr, Option-cases, u32_mod,
}
use sim_replay.Arc.Defs.{Obj}
use sim_replay.Arc.Enter.{cached}
use sim_replay.Arc.Added.{kept}
use sim_replay.Hashtab.Api.{TableApi}
use sim_replay.IoDedup.D2pv.{D2pv}
use sim_replay.IoDedup.Defs.{IoDedup}
use sim_replay.IoDedup.Ops.{Request, MapCounts, to_cache, read_lookup}
use sim_replay.IoDedup.Consistent.{IsConsistent, digest_of}
use sim_replay.IoDedup.Reads.{read_lookup-digest_of}
use sim_replay.Modes.{has_digests, has_blocks, len_of}
use sim_replay.ContentCache.Modes.{ContentCache, CacheModes}
use sim_replay.ContentCache.Defs.{is_asked, overwrite_in_contentcache, read_content}
use sim_replay.ContentCache.Own.{IsFaithful, overwrite_in_contentcache-IsFaithful}
use sim_replay.ContentCache.Served.{
  IsServed, IsMissed, read_content-IsServed, read_content-IsMissed,
}

module _ {K C : Type 0} (same_key : K → K → Bool) (ops_hash : K → ℕ)
    (same_key_iff : (a b : K) → (same_key a b ≡ true) ↔ (a ≡ b)) (key_of : C → K)
    (same_content : C → C → Bool) where
  -- After the warm-up, in a mode that the code provides for, with a simulated disk, from a cache that has every
  -- content under its own digest and room for objects of the length: once a
  -- request's content has been entered, the read of a block, for which the map has the digest of this content and
  -- the block that the cached object names, is served: it is done with a content of the digest, and one hit is
  -- counted. Where reads and writes are both replayed, the contents of the digest are the same content.
  pub read_content-overwrite :
      {m : ℕ} (s : ContentCache K C) (modes : CacheModes) (preq : Request C)
      (bcachefound updatehits : Bool) (content : C) (preq' : Request C) (traced : C) (d2pv : D2pv K)
      → IsFaithful same_key ops_hash same_key_iff key_of m s.ccache
      → modes.warmupflag ≡ false
      → modes.flags.disksimflag ≡ true
      → preq.done ≡ false
      → preq.content ≡ some content
      → is_asked preq.rw bcachefound updatehits ≡ true
      → (has_digests modes.flags || has_blocks modes.flags) ≡ true
      → (len_of modes.flags) ≤ m
      → preq'.content ≡ some traced
      → key_of traced ≡ key_of content
      → d2pv.dhashkey ≡ key_of content
      → d2pv.ioblk_id
        ≡ (kept same_key
            (cached same_key s.ccache (key_of content) (len_of modes.flags))
            (key_of content)
            content
            (len_of modes.flags)
            preq.ioblk).ioblk_id
      → (modes.both_enabled ≡ true
          → (c : C) → key_of c ≡ d2pv.dhashkey
          → same_content traced c ≡ true)
      → (s1 : ContentCache K C) × (s2 : ContentCache K C) × (after : Request C)
        × (overwrite_in_contentcache same_key ops_hash key_of s modes preq bcachefound updatehits
              true
            ≡ ok s1)
        × (read_content same_key ops_hash key_of same_content s1 modes preq' d2pv ≡ ok (s2, after))
        × IsServed same_key ops_hash same_key_iff key_of same_content m s1 s2 preq' after
            (key_of content)
  read_content-overwrite {m} s modes preq bcachefound updatehits content preq' traced d2pv f cold
        simulated fresh has asked mode le has' right digest led agree =
      let (s1, o, c, written, g, at, is_kept, _, _, _, _) =
        overwrite_in_contentcache-IsFaithful same_key ops_hash same_key_iff key_of s modes preq
          bcachefound updatehits content f cold fresh has asked mode le in
      let (s2, after, got, served) =
        read_content-IsServed same_key ops_hash same_key_iff key_of same_content s1 modes preq'
          traced d2pv g cold simulated has' o (ground (arith, at, digest))
          (ap (λ x. x.ioblk_id) is_kept ∙ sym led) (right ∙ sym digest) agree in
      (
        s1,
        s2,
        after,
        written,
        got,
        subst (IsServed same_key ops_hash same_key_iff key_of same_content m s1 s2 preq' after)
            digest served,
      )

module _ {K C : Type 0} (api : TableApi K ℕ) (same_key : K → K → Bool) (ops_hash : K → ℕ)
    (same_key_iff : (a b : K) → (same_key a b ≡ true) ↔ (a ≡ b)) (key_of : C → K)
    (same_content : C → C → Bool) where
  -- After the warm-up, with a simulated disk, in a consistent map, and a cache that has every content under its own
  -- digest: a read of a block that has a digest finds the object of this digest in the map. Where the content of
  -- the digest is cached, the read is served, done with a content of the digest and one hit counted; else it is
  -- left for the disk as it is, and one miss is counted. The conditions are that the content in the trace has the
  -- digest, that the cached object names the same block as the object of the map, and that, where reads and writes
  -- are both replayed, the contents of the digest are the same content.
  pub read_lookup-read_content :
      {m : ℕ} (maps : IoDedup K api.Table) (s : ContentCache K C) (modes : CacheModes)
      (n : MapCounts) (preq : Request C) (traced : C) (key : K)
      → IsConsistent api maps
      → IsFaithful same_key ops_hash same_key_iff key_of m s.ccache
      → modes.warmupflag ≡ false
      → modes.flags.disksimflag ≡ true
      → preq.ioblk < u32_mod
      → digest_of maps preq.ioblk ≡ some key
      → preq.content ≡ some traced
      → key_of traced ≡ key
      → ((id : ℕ) (d : D2pv K) (n' : MapCounts) (o : Obj K C)
          → read_lookup modes.flags false maps n preq.ioblk ≡ ok (to_cache id d, n')
          → cached same_key s.ccache key (len_of modes.flags) ≡ some o
          → o.ioblk_id ≡ d.ioblk_id)
      → (modes.both_enabled ≡ true → (c : C) → key_of c ≡ key → same_content traced c ≡ true)
      → (id : ℕ) × (d : D2pv K) × (n' : MapCounts) × (s' : ContentCache K C) × (after : Request C)
        × (read_lookup modes.flags false maps n preq.ioblk ≡ ok (to_cache id d, n'))
        × (d.dhashkey ≡ key)
        × (read_content same_key ops_hash key_of same_content s modes preq d ≡ ok (s', after))
        × (((cached same_key s.ccache key (len_of modes.flags) ≡ none)
              × (after ≡ preq)
              × IsMissed same_key ops_hash same_key_iff key_of same_content m s s')
            ⊎ ((o : Obj K C) × (cached same_key s.ccache key (len_of modes.flags) ≡ some o)
                × IsServed same_key ops_hash same_key_iff key_of same_content m s s' preq after
                    key))
  read_lookup-read_content {m} maps s modes n preq traced key con f cold simulated small h has right
        led agree =
      let (id, d, found, digest) =
        read_lookup-digest_of api maps n modes.flags false preq.ioblk key con small h in
      elim (Option-cases (cached same_key s.ccache key (len_of modes.flags))) [
        | inl e ↦
            let (s', got, missed) =
              read_content-IsMissed same_key ops_hash same_key_iff key_of same_content s modes preq
                traced d f cold simulated has (ground (arith, e, digest)) in
            (id, d, _, s', preq, found, digest, got, inl (e, refl, missed))
        | inr (o, e) ↦
            let (s', after, got, served) =
              read_content-IsServed same_key ops_hash same_key_iff key_of same_content s modes preq
                traced d f cold simulated has o (ground (arith, e, digest)) (led id d _ o found e)
                (right ∙ sym digest) (λ both c same. agree both c (same ∙ digest)) in
            (
              id,
              d,
              _,
              s',
              after,
              found,
              digest,
              got,
              inr (
                o,
                e,
                subst
                    (IsServed same_key ops_hash same_key_iff key_of same_content m s s' preq after)
                    digest served,
              ),
            )
      ]
