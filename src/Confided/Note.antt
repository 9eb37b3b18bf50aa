-- ===== src/Confided/Note.antt =====
-- The whole of a map update: `resumeFixing` of confided/fixing.c with the datum of `v2fmaps`, which
-- `updateBlockf` or `processBlockf` of confided/v2f-map.c writes.
use sim_replay.Prelude.{
  ℕ, ◌+◌, ◌-◌, ◌^◌, ◌<◌, ◌≤◌, ◌≡◌, ◌≢◌, none, some, true, false, arith, refl, ok, ◌==◌, ◌&&◌,
  if◌then◌else◌, Option-cases, Bool-cases, inl, inr,
}
use sim_replay.Hashtab.Defs.{max_nodes}
use sim_replay.Hashtab.Api.{TableApi}
use sim_replay.Vectors.Defs.{Vector}
use sim_replay.IoDedup.P2d.{BlkFlag, zeroblk_flag, goodblk_flag, ultimate_lastblk, dontcare_lastblk}
use sim_replay.IoDedup.D2pv.{Stage, init_stage}
use sim_replay.Modes.{Modes, len_of, len_of_pos}
use sim_replay.Confided.Leaders.{vblk_id_match, get_deduped_f2v, deduped_from}
use sim_replay.Confided.Marks.{tuples}
use sim_replay.Confided.V2f.{
  V2f, v2fmaps_get, v2fmaps_set, note_v2f_map, update_blockf, process_blockf, fixed_dirty,
}
use sim_replay.Confided.Fixed.{F2pv, FixedMaps, deref_f}
use sim_replay.Confided.Defs.{Confided, FixCounts}
use sim_replay.Confided.Ops.{note_blockf, resume_fixing}
use sim_replay.Confided.Lookup.{get_fullvblk_f}
use sim_replay.Confided.View.{fixed_of}
use sim_replay.Confided.Join.{f2vs_of, JoinsFixed, fix_content-JoinsFixed}
use sim_replay.Confided.Cells.{v2fmaps_get-v2fmaps_set}
use sim_replay.Confided.Mapped.{
  names, digest_of, IsMapped, entry-IsMapped, digest_of-IsHeld, fixed_of-IsKept,
}

-- The datum of a block whose content has the ID.
abbrev pub clean : ℕ → V2f
clean id = record { fixed_id = id; fdirty = false }

note_v2f_map_lem :
    (x : V2f) (id : ℕ) (flag : BlkFlag) → flag ≢ zeroblk_flag → note_v2f_map x id flag ≡ clean id
unfolding note_v2f_map
note_v2f_map_lem x id zeroblk_flag h = absurd (h refl)
note_v2f_map_lem x id goodblk_flag h = refl
note_v2f_map_lem x id ultimate_lastblk h = refl
note_v2f_map_lem x id dontcare_lastblk h = refl

update_blockf_lem :
    (m w : Vector (Vector V2f)) (v b : ℕ) (flag : BlkFlag) (id : ℕ)
    → flag ≢ zeroblk_flag
    → v2fmaps_set m v b (clean id) ≡ ok w
    → update_blockf true m b v flag id ≡ ok (some w)
unfolding update_blockf
update_blockf_lem m w v b flag id h e = elim (Option-cases (v2fmaps_get m v b)) [
  | inl n ↦ ground (arith, note_v2f_map_lem (clean 0) id flag h)
  | inr (x, n) ↦ ground (arith, note_v2f_map_lem x id flag h)
]

module _ {K : Type 0} (api : TableApi K ℕ) where
  -- Every stage writes the same datum.
  note_blockf_lem :
      (s : Confided K api.Table) (v b : ℕ) (stage : Stage) (flag : BlkFlag) (id : ℕ)
      (w : Vector (Vector V2f))
      → flag ≢ zeroblk_flag
      → v2fmaps_set s.v2fmaps v b (clean id) ≡ ok w
      → note_blockf api true s v b stage flag id ≡ ok (record s { v2fmaps = w }, false)
  unfolding note_blockf update_blockf process_blockf
  note_blockf_lem s v b init_stage flag id w h e =
      ground (arith, note_v2f_map_lem (clean 0) id flag h)
  note_blockf_lem s v b stage flag id w h e =
      ground (arith, update_blockf_lem s.v2fmaps w v b flag id h e)

  -- A state after a block's datum has been noted: the block has the digest, the other blocks keep theirs, and a
  -- read of any block with the digest goes to the block.
  pub record IsNoted (s s' : Confided K api.Table) (v b : ℕ) (key : K) : Type 0 where
    pub consistent : IsMapped api s'
    pub digests :
        (v' b' : ℕ)
        → digest_of s' v' b' ≡ (if v' == v && b' == b then some key else digest_of s v' b')
    pub fetched :
        (v' b' : ℕ) (x : V2f)
        → v2fmaps_get s'.v2fmaps v' b' ≡ some x
        → digest_of s' v' b' ≡ some key
        → get_fullvblk_f api false s'.maps x v' ≡ ok (some (v, b))
    pub num_le : s'.maps.fixed_num ≤ s.maps.fixed_num + 1

  joined-agree :
      (s : Confided K api.Table) (m : FixedMaps K api.Table) (v b : ℕ) (key : K) (d : F2pv K)
      → IsMapped api s
      → ((id : ℕ) → id ≢ 0 → names (v2fmaps_get s.v2fmaps v b) id ≡ 0)
      → JoinsFixed api s.maps m key v b d
      → (id v' b' : ℕ) → id ≢ 0
      → tuples v' b' (f2vs_of m id) ≡ (
          if v' == v && b' == b
          then names (some (clean d.fixed_id)) id
          else tuples v' b' (f2vs_of s.maps id))
  unfolding names f2vs_of tuples vblk_id_match
  joined-agree s m v b key d con nowhere j id v' b' ne = elim (Bool-cases (id == d.fixed_id)) [
    | inr n ↦ ground (arith, j.objects id, con.agree id v b ne, nowhere id ne)
    | inl y ↦
        ground (arith, j.objects id, j.list, j.others v' b', con.agree id v b ne, nowhere id ne)
  ]

  joined-digests :
      (s : Confided K api.Table) (m : FixedMaps K api.Table) (c : FixCounts)
      (w : Vector (Vector V2f)) (v b : ℕ) (key : K) (d : F2pv K)
      → JoinsFixed api s.maps m key v b d
      → IsMapped api s
      → ((v' b' : ℕ)
          → v2fmaps_get w v' b'
            ≡ (if v' == v && b' == b then some (clean d.fixed_id) else v2fmaps_get s.v2fmaps v' b'))
      → (v' b' : ℕ)
      → digest_of (record { v2fmaps = w; maps = m; counts = c }) v' b'
        ≡ (if v' == v && b' == b then some key else digest_of s v' b')
  unfolding digest_of names f2vs_of tuples
  joined-digests s m c w v b key d j con gets v' b' = elim (Bool-cases (v' == v && b' == b)) [
    | inl at ↦ ground (arith, gets v' b', j.objects d.fixed_id, j.digest)
    | inr off ↦ elim (Option-cases (v2fmaps_get s.v2fmaps v' b')) [
      | inl n ↦ ground (arith, gets v' b')
      | inr (y, h) ↦ elim (Bool-cases (y.fixed_id == d.fixed_id)) [
        | inr n ↦ ground (arith, gets v' b', j.objects y.fixed_id)
        | inl n ↦ elim (Option-cases (fixed_of s.maps d.fixed_id)) [
          | inr (o, e) ↦ ground (arith, gets v' b', j.objects y.fixed_id, j.digest, j.before o e)
          | inl e ↦ elim (Bool-cases y.fdirty) [
            | inl dirt ↦ ground (arith, gets v' b')
            | inr pure ↦
                absurd (
                  ground (arith, con.agree d.fixed_id v' b' (λ z. omega (arith, z, j.above_dummy))))
          ]
        ]
      ]
    ]
  ]

  joined-fetched :
      (s' : Confided K api.Table) (m : FixedMaps K api.Table) (v b : ℕ) (key : K) (d : F2pv K)
      → JoinsFixed api m s'.maps key v b d
      → (v' b' : ℕ) (x : V2f) → v2fmaps_get s'.v2fmaps v' b' ≡ some x
      → digest_of s' v' b' ≡ some key
      → get_fullvblk_f api false s'.maps x v' ≡ ok (some (v, b))
  unfolding get_fullvblk_f fixed_dirty deref_f get_deduped_f2v deduped_from
  joined-fetched s' m v b key d j v' b' x at h =
      let held = digest_of-IsHeld api s' v' b' key j.fixed h in
      let (q, kept, named, same) =
        fixed_of-IsKept api s'.maps d.fixed_id d j.fixed (ground (arith, j.objects d.fixed_id)) in
      let one : held.address ≡ q =
        ground (arith, held.kept.live.by_key, kept.live.by_key, held.digest, j.digest) in
      let here : s'.maps.heap held.address ≡ some d = ground (arith, one, kept.here) in
      let entry : held.entry ≡ x = ground (arith, held.at) in
      ground (arith, held.by_entry, held.clean, entry, here, j.list)

  -- A block that no clean datum maps is on no list.
  unlisted :
      (s : Confided K api.Table) (v b : ℕ)
      → IsMapped api s
      → ((id : ℕ) → id ≢ 0 → names (v2fmaps_get s.v2fmaps v b) id ≡ 0)
      → (id : ℕ) → tuples v b (f2vs_of s.maps id) ≡ 0
  unfolding f2vs_of tuples
  unlisted s v b con nowhere id = elim (Bool-cases (id == 0)) [
    | inr n ↦ ground (arith, con.agree id v b, nowhere id)
    | inl y ↦ elim (Option-cases (fixed_of s.maps id)) [
      | inl e ↦ ground arith
      | inr (d, e) ↦
          let (p, kept, named, same) = fixed_of-IsKept api s.maps id d con.fixed e in
          absurd (ground (arith, kept.live.above_dummy, same))
    ]
  ]

module _ {K C : Type 0} (api : TableApi K ℕ) (get_hash_key : C → K) where
  -- With deduplication across volumes and the map built at run time: from a consistent state with room in the
  -- table and below the bound of the counter, for a volume below 65535 and a block below 2^31 - 1 that no clean
  -- datum maps, `resumeFixing` of a content that is no zero block, and has the length of the mode, succeeds in every stage, whatever stands for
  -- the missing argument of `unmark_old_dedupfetchF`, and leaves the state consistent: the block has the digest of
  -- the content, every other block keeps its digest, and a read of any block with this digest goes to the block.
  pub resume_fixing-IsNoted :
      (modes : Modes) (stray : ℕ) (s : Confided K api.Table) (content : C) (v b : ℕ) (stage : Stage)
      (flag : BlkFlag)
      → IsMapped api s
      → ((id : ℕ) → id ≢ 0 → names (v2fmaps_get s.v2fmaps v b) id ≡ 0)
      → flag ≢ zeroblk_flag
      → v < 2 ^ 16 - 1
      → b < 2 ^ 31 - 1
      → api.nel s.maps.fixedtab < max_nodes
      → s.maps.fixed_num + 1 < 2 ^ 31 - 1
      → (s' : Confided K api.Table) × (resume_fixing api get_hash_key
            (record { modes = record modes { runtimemap = true }; intraonlyflag = false })
            none
            stray
            s
            (some content)
            (len_of (record modes { runtimemap = true }))
            v
            b
            stage
            flag
            true
          ≡ ok (s', false))
        × IsNoted api s s' v b (get_hash_key content)
  unfolding resume_fixing
  resume_fixing-IsNoted modes stray s content v b stage flag con nowhere good vol small room nums =
      let pos = len_of_pos (record modes { runtimemap = true }) in
      let key = get_hash_key content in
      let (m, c, d, done, joins) =
        fix_content-JoinsFixed api stray s key v b stage con.fixed (unlisted api s v b con nowhere)
          room nums in
      let (w, set, fit, gets) =
        v2fmaps_get-v2fmaps_set s.v2fmaps v b (clean d.fixed_id) con.fit vol small in
      let noted =
        note_blockf_lem api (record s { maps = m; counts = c }) v b stage flag d.fixed_id w good
          set in
      let s' : Confided K api.Table = record { v2fmaps = w; maps = m; counts = c } in
      (
        s',
        ground (arith, done, noted, pos),
        record {
          consistent =
              entry-IsMapped api s m c w v b (clean d.fixed_id) con joins.fixed fit gets
                (joined-agree api s m v b key d con nowhere joins);
          digests = joined-digests api s m c w v b key d joins con gets;
          fetched = joined-fetched api s' s.maps v b key d joins;
          num_le = joins.num_le;
        },
      )
