-- ===== src/IoDedup/Reads.antt =====
-- Reads of a consistent map: the look-up in `iodedupReadRequest` of iodedup/ioserveio.c finds the object of the
-- block's content, and two blocks share an ID exactly where they share a digest.
use sim_replay.Prelude.{
  ℕ, ◌<◌, ◌≡◌, ◌↔◌, Option, some, Bool, false, arith, refl, ok, ◌==◌, Option-cases, Bool-cases, inl,
  inr, u32_mod,
}
use sim_replay.Hashtab.Api.{TableApi}
use sim_replay.Modes.{Modes}
use sim_replay.IoDedup.P2d.{P2d, p2dmaps_get, notzero_io_vblk, dedup_dirty}
use sim_replay.IoDedup.D2pv.{D2pv, store, deref, get_dedup_map}
use sim_replay.IoDedup.Defs.{IoDedup, dedup_hit, leader}
use sim_replay.IoDedup.Ops.{MapCounts, to_cache, read_lookup, looked_up, hit, tick}
use sim_replay.IoDedup.Sound.{object_of, IsLive, IsSound, store-IsSound}
use sim_replay.IoDedup.Consistent.{
  blocks_of, digest_of, IsConsistent, live-object_of, object_of-live,
}
use sim_replay.IoDedup.Entry.{one_block}

module _ {K : Type 0} (api : TableApi K ℕ) where
  -- A block with a digest: its clean entry, and the live object of its content.
  pub record IsHeld (s : IoDedup K api.Table) (b : ℕ) (key : K) : Type 0 where
    pub entry : P2d
    pub object : D2pv K
    pub address : ℕ
    pub at : p2dmaps_get s.p2dmaps b ≡ some entry
    pub clean : entry.pdirty ≡ false
    pub leads : object_of s.maps entry.iodedup_id ≡ some object
    pub live : IsLive api s.maps address object
    pub by_entry : get_dedup_map s.maps entry.iodedup_id ≡ some address
    pub same_id : object.iodedup_id ≡ entry.iodedup_id
    pub digest : object.dhashkey ≡ key

  pub digest_of-IsHeld :
      (s : IoDedup K api.Table) (b : ℕ) (key : K)
      → IsSound api s.maps
      → digest_of s b ≡ some key
      → IsHeld s b key
  unfolding digest_of
  digest_of-IsHeld s b key sound h = elim (Option-cases (p2dmaps_get s.p2dmaps b)) [
    | inl e ↦ absurd (ground arith)
    | inr (x, e) ↦ elim (Option-cases (object_of s.maps x.iodedup_id)) [
      | inl n ↦ absurd (ground arith)
      | inr (d, leads) ↦
          let (p, live, named, same) = object_of-live api s.maps x.iodedup_id d sound leads in
          record {
            entry = x;
            object = d;
            address = p;
            at = e;
            clean = ground arith;
            leads = leads;
            live = live;
            by_entry = named;
            same_id = same;
            digest = ground arith;
          }
    ]
  ]

  -- In a consistent state, a read of a block that has a digest, at any setting, counts a hit and goes to the
  -- content cache with an object of that digest.
  pub read_lookup-digest_of :
      (s : IoDedup K api.Table) (c : MapCounts) (modes : Modes) (warmupflag : Bool) (b : ℕ)
      (key : K)
      → IsConsistent api s
      → b < u32_mod
      → digest_of s b ≡ some key
      → (id : ℕ) × (d : D2pv K) × (read_lookup modes warmupflag s c b
          ≡ ok (to_cache id d, record c { cmap_hits = tick warmupflag c.cmap_hits }))
        × (d.dhashkey ≡ key)
  unfolding read_lookup looked_up hit notzero_io_vblk dedup_dirty deref
  read_lookup-digest_of s c modes warmupflag b key con small h =
      let held = digest_of-IsHeld s b key con.sound h in
      (
        held.entry.iodedup_id,
        held.object,
        ground (
          arith,
          one_block s.p2dmaps b small,
          held.at,
          held.clean,
          held.by_entry,
          held.live.here,
          held.live.above_dummy,
          held.same_id,
        ),
        held.digest,
      )

  -- In a consistent state, two blocks that have digests have entries with the same ID exactly where the
  -- digests are the same.
  pub same_id_iff :
      (s : IoDedup K api.Table) (a b : ℕ) (x y : P2d) (j k : K)
      → IsConsistent api s
      → p2dmaps_get s.p2dmaps a ≡ some x
      → p2dmaps_get s.p2dmaps b ≡ some y
      → digest_of s a ≡ some j
      → digest_of s b ≡ some k
      → (x.iodedup_id ≡ y.iodedup_id) ↔ (j ≡ k)
  same_id_iff s a b x y j k con at_a at_b da db =
      let ha = digest_of-IsHeld s a j con.sound da in
      let hb = digest_of-IsHeld s b k con.sound db in
      let ex : ha.entry ≡ x = ground (arith, ha.at) in
      let ey : hb.entry ≡ y = ground (arith, hb.at) in
      (
        λ e. ground (arith, ex, ey, ha.leads, hb.leads, ha.digest, hb.digest),
        λ e. ground (
          arith, ex, ey, ha.live.by_key, hb.live.by_key, ha.live.here, hb.live.here, ha.digest,
          hb.digest, ha.same_id, hb.same_id,
        ),
      )

  -- In a consistent state, for a read whose map was found, and whose content in the trace is the one of the map:
  -- `resumeDeduping` succeeds, leaves the state consistent and keeps every digest.
  pub dedup_hit_lem :
      (s : IoDedup K api.Table) (b : ℕ) (e : P2d) (key : K) (had : Option ℕ)
      → IsConsistent api s
      → p2dmaps_get s.p2dmaps b ≡ some e
      → digest_of s b ≡ some key
      → (s' : IoDedup K api.Table) × (dedup_hit api s key b had e.iodedup_id ≡ ok (s', false))
        × IsConsistent api s'
        × ((j : ℕ) → digest_of s' j ≡ digest_of s j)
  unfolding dedup_hit deref digest_of blocks_of
  dedup_hit_lem s b e key had con at h =
      let x = digest_of-IsHeld s b key con.sound h in
      let same : x.entry ≡ e = ground (arith, x.at) in
      let d' : D2pv K = record x.object { ioblk_id = leader had b } in
      let (sound, objects) =
        store-IsSound api s.maps x.address x.object d' con.sound x.live refl refl in
      let there = live-object_of api x.live in
      (
        record s { maps = store s.maps x.address d' },
        ground (
          arith,
          api.search_lem key con.sound.good,
          x.live.by_key,
          x.digest,
          x.by_entry,
          x.live.here,
          same,
        ),
        record {
          sound = sound;
          fit = con.fit;
          agree = λ id j ne. ground (arith, con.agree id j ne, objects id, there);
          kept = λ id o h. elim (Bool-cases (id == x.object.iodedup_id)) [
            | inl y ↦ ground (arith, objects id, con.kept x.object.iodedup_id x.object there)
            | inr n ↦ con.kept id o (ground (arith, objects id))
          ];
        },
        λ j. elim (Option-cases (p2dmaps_get s.p2dmaps j)) [
          | inl n ↦ ground arith
          | inr (y, h) ↦ ground (arith, objects y.iodedup_id, there)
        ],
      )
