-- ===== src/Confided/Drop.antt =====
-- `mappingTrimScanF` of confided/fserveio.c: before a write of one block, its datum is dropped.
use sim_replay.Prelude.{
  ℕ, ◌+◌, ◌-◌, ◌%◌, ◌^◌, ◌<◌, ◌≤◌, ◌≡◌, ◌≢◌, none, some, true, false, List, [], ◌∷◌, arith, refl,
  ok, ◌==◌, ◌&&◌, if◌then◌else◌, Option-cases, Bool-cases, inl, inr, sym, u32_mod,
}
use sim_replay.Hashtab.Defs.{max_nodes}
use sim_replay.Hashtab.Api.{TableApi}
use sim_replay.IoDedup.Defs.{dummy_id}
use sim_replay.Modes.{Modes}
use sim_replay.Confided.Leaders.{vblk_id_match}
use sim_replay.Confided.Marks.{tuples, tuples_only}
use sim_replay.Confided.V2f.{V2f, v2fmaps_get, notzero_f_vblk, fixed_dirty}
use sim_replay.Confided.Fixed.{F2pv, FixedMaps}
use sim_replay.Confided.Defs.{
  Confided, dontcare, leader_of, mapping_trim_scan_f, trim_fixed, trim_unmapped_f, dummy_fixed,
}
use sim_replay.Confided.View.{fixed_of}
use sim_replay.Confided.Join.{f2vs_of, IsFixed}
use sim_replay.Confided.Cells.{v2fmaps_get-v2fmaps_set}
use sim_replay.Confided.Leave.{LeavesFixed, reset_mappings_f-LeavesFixed}
use sim_replay.Confided.Mapped.{
  names, digest_of, one_block, IsMapped, entry-IsMapped, fixed_of-IsKept,
}

module _ {K : Type 0} (api : TableApi K ℕ) where
  -- A state after a block's datum has been dropped.
  pub record IsDropped (s s' : Confided K api.Table) (v b : ℕ) : Type 0 where
    pub consistent : IsMapped api s'
    pub forgotten : (id : ℕ) → names (v2fmaps_get s'.v2fmaps v b) id ≡ 0
    pub digests :
        (v' b' : ℕ) → digest_of s' v' b' ≡ (if v' == v && b' == b then none else digest_of s v' b')
    pub nel_le : api.nel s'.maps.fixedtab ≤ api.nel s.maps.fixedtab
    pub num_eq : s'.maps.fixed_num ≡ s.maps.fixed_num

  abbrev dirty : ℕ → V2f
  dirty id = record { fixed_id = id; fdirty = true }

  -- A block that no list has: its datum becomes the dirty dummy.
  trim_unmapped_f-IsDropped :
      (s : Confided K api.Table) (v b : ℕ)
      → IsMapped api s
      → v < 2 ^ 16 - 1
      → b < 2 ^ 31 - 1
      → ((id : ℕ) → id ≢ 0 → names (v2fmaps_get s.v2fmaps v b) id ≡ 0)
      → digest_of s v b ≡ none
      → (s' : Confided K api.Table) × (l : List (ℕ × ℕ)) × (trim_unmapped_f api true s v b 1
          ≡ ok (s', l, false))
        × IsDropped s s' v b
  unfolding trim_unmapped_f dummy_fixed names digest_of
  trim_unmapped_f-IsDropped s v b con vol small nowhere no_digest =
      let (w, set, fit, gets) =
        v2fmaps_get-v2fmaps_set s.v2fmaps v b (dirty dummy_id) con.fit vol small in
      let at : (b + 0) % u32_mod ≡ b = omega arith in
      (
        record s { v2fmaps = w },
        dontcare ∷ [],
        ground (arith, set, at),
        record {
          consistent =
              entry-IsMapped api s s.maps s.counts w v b (dirty dummy_id) con con.fixed fit gets
                (λ id v' b' ne. ground (arith, con.agree id v b ne, nowhere id ne));
          forgotten = λ id. ground (arith, gets v b);
          digests = λ v' b'. ground (arith, gets v' b');
          nel_le = omega arith;
          num_eq = refl;
        },
      )

  -- The list of an ID after a block has left it.
  left-agree :
      (s : Confided K api.Table) (m : FixedMaps K api.Table) (v b id0 : ℕ) (d : F2pv K)
      → IsMapped api s
      → id0 ≢ 0
      → names (v2fmaps_get s.v2fmaps v b) id0 ≡ 1
      → ((id : ℕ) → id ≢ id0 → names (v2fmaps_get s.v2fmaps v b) id ≡ 0)
      → d.fixed_id ≡ id0
      → fixed_of s.maps id0 ≡ some d
      → LeavesFixed api s.maps m v b d
      → (id v' b' : ℕ) → id ≢ 0
      → tuples v' b' (f2vs_of m id) ≡ (
          if v' == v && b' == b
          then names (some (dirty id0)) id
          else tuples v' b' (f2vs_of s.maps id))
  unfolding names f2vs_of tuples vblk_id_match
  left-agree s m v b id0 d con nz here only same there leaves id v' b' ne =
      let on : tuples v b d.f2vmaps ≡ 1 = ground (arith, con.agree id0 v b nz) in
      elim leaves.left [
        | inl (l, del, objects) ↦ elim (Bool-cases (id == id0)) [
          | inl y ↦ ground (arith, objects id, del.blocks v' b', on, same)
          | inr n ↦ ground (arith, objects id, same, con.agree id v b ne, only id)
        ]
        | inr (one, objects) ↦ elim (Bool-cases (id == id0)) [
          | inl y ↦
              ground
                (arith, objects id, same, tuples_only d.f2vmaps v b v' b' one (λ z. ground arith))
          | inr n ↦ ground (arith, objects id, same, con.agree id v b ne, only id)
        ]
      ]

  -- The digests after a block has left the list of its content.
  left-digests :
      (s s' : Confided K api.Table) (v b id0 : ℕ) (d : F2pv K)
      → IsMapped api s
      → IsMapped api s'
      → id0 ≢ 0
      → d.fixed_id ≡ id0
      → fixed_of s.maps id0 ≡ some d
      → LeavesFixed api s.maps s'.maps v b d
      → ((v' b' : ℕ)
          → v2fmaps_get s'.v2fmaps v' b'
            ≡ (if v' == v && b' == b then some (dirty id0) else v2fmaps_get s.v2fmaps v' b'))
      → (v' b' : ℕ) → digest_of s' v' b' ≡ (if v' == v && b' == b then none else digest_of s v' b')
  unfolding digest_of names f2vs_of tuples
  left-digests s s' v b id0 d con con' nz same there leaves gets v' b' =
      elim (Option-cases (v2fmaps_get s.v2fmaps v' b')) [
        | inl n ↦ ground (arith, gets v' b')
        | inr (y, h) ↦ elim leaves.left [
          | inl (l, del, objects) ↦ ground (arith, gets v' b', objects y.fixed_id, there, same)
          | inr (one, objects) ↦ elim (Bool-cases (y.fixed_id == id0)) [
            | inr n ↦ ground (arith, gets v' b', objects y.fixed_id, same)
            | inl n ↦ elim (Bool-cases (v' == v && b' == b)) [
              | inl at ↦ ground (arith, gets v' b')
              | inr off ↦ elim (Bool-cases y.fdirty) [
                | inl dirt ↦ ground (arith, gets v' b')
                | inr pure ↦
                    absurd (ground (arith, con'.agree id0 v' b' nz, gets v' b', objects id0, same))
              ]
            ]
          ]
        ]
      ]

  zero_digest :
      (s : Confided K api.Table) (v b : ℕ) (x : V2f)
      → IsFixed api s.maps
      → v2fmaps_get s.v2fmaps v b ≡ some x
      → x.fixed_id ≡ 0
      → digest_of s v b ≡ none
  unfolding digest_of
  zero_digest s v b x f at z = elim (Option-cases (fixed_of s.maps x.fixed_id)) [
    | inl e ↦ ground arith
    | inr (d, e) ↦
        let (p, kept, named, same) = fixed_of-IsKept api s.maps x.fixed_id d f e in
        absurd (omega (arith, kept.live.above_dummy, same, z))
  ]

  -- A block with a clean datum that names a content.
  trim_clean-IsDropped :
      (s : Confided K api.Table) (v b : ℕ) (x : V2f)
      → IsMapped api s
      → v < 2 ^ 16 - 1
      → b < 2 ^ 31 - 1
      → v2fmaps_get s.v2fmaps v b ≡ some x
      → x.fdirty ≡ false
      → x.fixed_id ≢ 0
      → api.nel s.maps.fixedtab < max_nodes
      → (s' : Confided K api.Table) × (l : List (ℕ × ℕ)) × (trim_fixed api false v b (b ∷ []) 0 s []
          ≡ ok (s', l))
        × IsDropped s s' v b
  unfolding trim_fixed fixed_dirty names f2vs_of tuples
  trim_clean-IsDropped s v b x con vol small at clean nz room =
      let (w, set, fit, gets) =
        v2fmaps_get-v2fmaps_set s.v2fmaps v b (dirty x.fixed_id) con.fit vol small in
      let first : (b + 0) % u32_mod ≡ b = omega arith in
      elim (Option-cases (fixed_of s.maps x.fixed_id)) [
        | inl e ↦ absurd (ground (arith, con.agree x.fixed_id v b nz))
        | inr (d, e) ↦
            let (p, kept, named, same) = fixed_of-IsKept api s.maps x.fixed_id d con.fixed e in
            let (m, o, reset, leaves) =
              reset_mappings_f-LeavesFixed api s.maps x p d v b con.fixed kept (sym same)
                (λ h. ground (arith, con.agree x.fixed_id v b nz)) room in
            let con' =
              entry-IsMapped api s m s.counts w v b (dirty x.fixed_id) con leaves.fixed fit gets (
                left-agree s m v b x.fixed_id d con nz (ground arith) (λ id ne. ground arith) same e
                  leaves) in
            let s' : Confided K api.Table = record s { v2fmaps = w; maps = m } in
            (
              s',
              leader_of o ∷ [],
              ground (arith, at, set, first, reset),
              record {
                consistent = con';
                forgotten = λ id. ground (arith, gets v b);
                digests = left-digests s s' v b x.fixed_id d con con' nz same e leaves gets;
                nel_le = leaves.nel_le;
                num_eq = leaves.num_eq;
              },
            )
      ]

  -- With deduplication across volumes and the map built at run time: from a consistent state with room in the
  -- table, `mappingTrimScanF` of one block, of a volume below 65535 and below 2^31 - 1, succeeds and leaves the
  -- state consistent: no clean datum maps the block, its digest is forgotten, and every other block keeps its
  -- digest.
  pub mapping_trim_scan_f-IsDropped :
      (modes : Modes) (s : Confided K api.Table) (v b : ℕ)
      → IsMapped api s
      → v < 2 ^ 16 - 1
      → b < 2 ^ 31 - 1
      → api.nel s.maps.fixedtab < max_nodes
      → (s' : Confided K api.Table) × (l : List (ℕ × ℕ)) × (mapping_trim_scan_f api
            (record { modes = record modes { runtimemap = true }; intraonlyflag = false })
            s
            v
            b
            1
          ≡ ok (s', l, false))
        × IsDropped s s' v b
  unfolding mapping_trim_scan_f notzero_f_vblk trim_fixed fixed_dirty names digest_of
  mapping_trim_scan_f-IsDropped modes s v b con vol small room =
      let look = one_block s.v2fmaps v b (omega arith) in
      elim (Option-cases (v2fmaps_get s.v2fmaps v b)) [
        | inl e ↦
            let (s', l, done, t) =
              trim_unmapped_f-IsDropped s v b con vol small (λ id h. ground arith) (ground arith) in
            (s', l, ground (arith, look, done), t)
        | inr (x, e) ↦ elim (Bool-cases (x.fixed_id == 0)) [
          | inl z ↦
              let (s', l, done, t) =
                trim_unmapped_f-IsDropped s v b con vol small (λ id h. ground arith)
                  (zero_digest s v b x con.fixed e (ground arith)) in
              (s', l, ground (arith, look, done), t)
          | inr nz ↦ elim (Bool-cases x.fdirty) [
            | inl dirt ↦ (
              s,
              dontcare ∷ [],
              ground (arith, look),
              record {
                consistent = con;
                forgotten = λ id. ground arith;
                digests = λ v' b'. ground arith;
                nel_le = omega arith;
                num_eq = refl;
              },
            )
            | inr pure ↦
                let (s', l, done, t) =
                  trim_clean-IsDropped s v b x con vol small e pure (λ h. ground arith) room in
                (s', l, ground (arith, look, done), t)
          ]
        ]
      ]
