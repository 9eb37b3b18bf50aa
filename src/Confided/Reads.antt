-- ===== src/Confided/Reads.antt =====
-- Reads and writes of a consistent map: `confideReadRequest` of confided/fserveio.c fetches a block that has the
-- content of the one that is read, and what a trim with an update leaves.
use sim_replay.Prelude.{
  ℕ, ◌+◌, ◌-◌, ◌^◌, ◌<◌, ◌≡◌, ◌≢◌, none, some, Bool, true, false, List, arith, refl, ok, ◌==◌, ◌||◌,
  if◌then◌else◌, Bool-cases, inl, inr, u32_mod,
}
use sim_replay.Hashtab.Defs.{max_nodes}
use sim_replay.Hashtab.Api.{TableApi}
use sim_replay.Lru.Sector.{inc64}
use sim_replay.IoDedup.P2d.{goodblk_flag}
use sim_replay.IoDedup.D2pv.{noinit_stage}
use sim_replay.Modes.{Modes, has_digests, has_blocks}
use sim_replay.Confided.Marks.{get_deduped_f2v_lem}
use sim_replay.Confided.V2f.{notzero_f_vblk, fixed_dirty}
use sim_replay.Confided.Fixed.{deref_f}
use sim_replay.Confided.Defs.{Confided, mapping_trim_scan_f}
use sim_replay.Confided.Ops.{perf_read_write_fixing}
use sim_replay.Confided.Lookup.{
  FixedHits, redirected, confide_read_block, get_fullvblk_f, count_leader,
}
use sim_replay.Confided.Mapped.{digest_of, one_block, IsMapped, digest_of-IsHeld, listed-digest_of}
use sim_replay.Confided.Note.{IsNoted, resume_fixing-IsNoted}
use sim_replay.Confided.Drop.{mapping_trim_scan_f-IsDropped}

module _ {K : Type 0} (api : TableApi K ℕ) where
  count_leader_lem :
      (ioblk : ℕ → ℕ → ℕ) (warmupflag : Bool) (v b v' b' : ℕ) (c : FixedHits)
      → (c' : FixedHits) × (count_leader api ioblk warmupflag v b (some (v', b')) c ≡ ok c')
        × (c'.fmap_hits ≡ c.fmap_hits)
        × (c'.fmap_misses ≡ c.fmap_misses)
        × (c'.fmap_dirties ≡ c.fmap_dirties)
  unfolding count_leader
  count_leader_lem ioblk true v b v' b' c = (c, refl, refl, refl, refl)
  count_leader_lem ioblk false v b v' b' c = elim (Bool-cases (ioblk v' b' == ioblk v b)) [
    | inl y ↦ (
      record c { fmap_self_is_leader = inc64 c.fmap_self_is_leader },
      ground arith,
      refl,
      refl,
      refl,
    )
    | inr n ↦ (
      record c { fmap_self_is_not_leader = inc64 c.fmap_self_is_not_leader },
      ground arith,
      refl,
      refl,
      refl,
    )
  ]

  -- With deduplication across volumes, in a consistent state, a read of a block that has a digest goes to a block
  -- that has the same digest, and counts one hit and no miss, after the warm-up; during it nothing is counted.
  pub confide_read_block-digest_of :
      (ioblk : ℕ → ℕ → ℕ) (modes : Modes) (warmupflag : Bool) (s : Confided K api.Table) (v b : ℕ)
      (c : FixedHits) (key : K)
      → IsMapped api s
      → b < u32_mod
      → digest_of s v b ≡ some key
      → (v' : ℕ) × (b' : ℕ) × (id : ℕ) × (c' : FixedHits) × (confide_read_block api ioblk
            (record { modes = modes; intraonlyflag = false })
            warmupflag
            s
            v
            b
            c
          ≡ ok (redirected v' b' id, c'))
        × (digest_of s v' b' ≡ some key)
        × (c'.fmap_hits ≡ (if warmupflag then c.fmap_hits else inc64 c.fmap_hits))
        × (c'.fmap_misses ≡ c.fmap_misses)
        × (c'.fmap_dirties ≡ c.fmap_dirties)
  unfolding confide_read_block notzero_f_vblk fixed_dirty get_fullvblk_f deref_f
  confide_read_block-digest_of ioblk modes warmupflag s v b c key con small h =
      let held = digest_of-IsHeld api s v b key con.fixed h in
      let look = one_block s.v2fmaps v b small in
      let (f, found, mark, on) =
        get_deduped_f2v_lem v held.object.f2vmaps
          (con.fixed.led held.entry.fixed_id held.object held.leads) in
      let nz : held.entry.fixed_id ≢ 0 =
        λ z. omega (arith, held.kept.live.above_dummy, held.same_id, z) in
      let there =
        listed-digest_of api s held.entry.fixed_id f.vol_id f.block_id held.object con nz held.leads
          on in
      let preq : get_fullvblk_f api false s.maps held.entry v ≡ ok (some (f.vol_id, f.block_id)) =
        ground (arith, held.clean, held.by_entry, held.kept.here, found) in
      let (c1, led, hits, misses, dirties) =
        count_leader_lem ioblk warmupflag v b f.vol_id f.block_id c in
      elim (Bool-cases warmupflag) [
        | inl warm ↦ (
          f.vol_id,
          f.block_id,
          held.entry.fixed_id,
          c1,
          ground (arith, look, held.at, nz, held.clean, preq, led),
          ground (arith, there, held.digest),
          ground (arith, hits),
          misses,
          dirties,
        )
        | inr cold ↦ (
          f.vol_id,
          f.block_id,
          held.entry.fixed_id,
          record c1 { fmap_hits = inc64 c1.fmap_hits },
          ground (arith, look, held.at, nz, held.clean, preq, led),
          ground (arith, there, held.digest),
          ground (arith, hits),
          misses,
          dirties,
        )
      ]

module _ {K C : Type 0} (api : TableApi K ℕ) (get_hash_key : C → K) (is_zero : C → Bool) where
  -- With deduplication across volumes and the map built at run time, in a mode that the code provides for: from a
  -- consistent state with room in the table and below the bound of the counter, the map of a block is dropped, as it
  -- is before a write, and then noted for a content that is no zero block, after a read that found no map
  -- (`rw_flag`) or, where the program is compiled to do so, after the write; the volume is below 65535 and the block
  -- below 2^31 - 1. Neither is an error. The state is consistent again, the block has the digest of the content, every
  -- other block keeps its digest, and a read of any block with this digest goes to the block that was noted.
  pub perf_read_write_fixing-mapping_trim_scan_f :
      (modes : Modes) (stray : ℕ) (s : Confided K api.Table) (content : C) (rw_flag : Bool)
      (v b : ℕ)
      → (has_digests (record modes { runtimemap = true })
          || has_blocks (record modes { runtimemap = true }))
        ≡ true
      → IsMapped api s
      → is_zero content ≡ false
      → v < 2 ^ 16 - 1
      → b < 2 ^ 31 - 1
      → api.nel s.maps.fixedtab < max_nodes
      → s.maps.fixed_num + 1 < 2 ^ 31 - 1
      → (s1 : Confided K api.Table) × (l : List (ℕ × ℕ)) × (s2 : Confided K api.Table)
        × (mapping_trim_scan_f api
              (record { modes = record modes { runtimemap = true }; intraonlyflag = false })
              s
              v
              b
              1
            ≡ ok (s1, l, false))
        × (perf_read_write_fixing api get_hash_key is_zero
              (record { modes = record modes { runtimemap = true }; intraonlyflag = false })
              none
              stray
              s1
              (some content)
              rw_flag
              v
              b
              true
            ≡ ok (s2, false))
        × IsNoted api s s2 v b (get_hash_key content)
  unfolding perf_read_write_fixing
  perf_read_write_fixing-mapping_trim_scan_f modes stray s content rw_flag v b mode con real vol
        small room nums =
      let (s1, l, dropped, d) = mapping_trim_scan_f-IsDropped api modes s v b con vol small room in
      let (s2, fixed, n) =
        resume_fixing-IsNoted api get_hash_key modes stray s1 content v b noinit_stage goodblk_flag
          d.consistent (λ id ne. d.forgotten id) (λ e. ground arith) vol small
          (omega (arith, d.nel_le)) (omega (arith, d.num_eq)) in
      let simulated : modes.disksimflag ≡ true = ground (arith, mode) in
      (
        s1,
        l,
        s2,
        dropped,
        ground (arith, fixed, real, mode, simulated),
        record {
          consistent = n.consistent;
          digests = λ v' b'. ground (arith, n.digests v' b', d.digests v' b');
          fetched = n.fetched;
          num_le = omega (arith, n.num_le, d.num_eq);
        },
      )
