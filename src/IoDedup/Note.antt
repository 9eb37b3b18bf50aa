-- ===== src/IoDedup/Note.antt =====
-- The whole of a map update: `resumeDeduping` with the entry of `p2dmaps`, which `updateBlockio` or
-- `processBlockio` of iodedup/p2d-map.c writes.
use sim_replay.Prelude.{
  ℕ, ◌+◌, ◌-◌, ◌^◌, ◌<◌, ◌≤◌, ◌≡◌, ◌≢◌, Option, none, some, true, false, arith, refl, ok, ◌==◌,
  if◌then◌else◌, Option-cases, Bool-cases, inl, inr,
}
use sim_replay.Hashtab.Defs.{max_nodes}
use sim_replay.Hashtab.Api.{TableApi}
use sim_replay.ContentDedup.Bag.{count}
use sim_replay.Vectors.Defs.{Vector}
use sim_replay.Modes.{Modes}
use sim_replay.IoDedup.P2d.{
  P2d, p2dmaps_get, p2dmaps_set, BlkFlag, zeroblk_flag, goodblk_flag, ultimate_lastblk,
  dontcare_lastblk, note_p2d_map, update_blockio, process_blockio,
}
use sim_replay.IoDedup.D2pv.{D2pv, Maps, Stage, init_stage}
use sim_replay.IoDedup.Defs.{IoDedup, Counts, note_blockio}
use sim_replay.IoDedup.Ops.{resume_deduping}
use sim_replay.IoDedup.Sound.{object_of}
use sim_replay.IoDedup.Consistent.{blocks_of, names, digest_of, IsConsistent}
use sim_replay.IoDedup.Entry.{p2dmaps_get-p2dmaps_set, entry-IsConsistent}
use sim_replay.IoDedup.Resume.{Joins, dedup_content-Joins}

-- The entry of a block whose content has the ID.
abbrev pub clean : ℕ → P2d
clean id = record { iodedup_id = id; pdirty = false }

note_p2d_map_lem :
    (x : P2d) (id : ℕ) (flag : BlkFlag) → flag ≢ zeroblk_flag → note_p2d_map x id flag ≡ clean id
unfolding note_p2d_map
note_p2d_map_lem x id zeroblk_flag h = absurd (h refl)
note_p2d_map_lem x id goodblk_flag h = refl
note_p2d_map_lem x id ultimate_lastblk h = refl
note_p2d_map_lem x id dontcare_lastblk h = refl

update_blockio_lem :
    (p2dmaps v : Vector P2d) (b : ℕ) (flag : BlkFlag) (id : ℕ)
    → flag ≢ zeroblk_flag
    → p2dmaps_set p2dmaps b (clean id) ≡ ok v
    → update_blockio true p2dmaps b flag id ≡ ok (some v)
unfolding update_blockio
update_blockio_lem p2dmaps v b flag id h e = elim (Option-cases (p2dmaps_get p2dmaps b)) [
  | inl n ↦ ground (arith, note_p2d_map_lem (clean 0) id flag h)
  | inr (x, n) ↦ ground (arith, note_p2d_map_lem x id flag h)
]

module _ {K : Type 0} (api : TableApi K ℕ) where
  -- Every stage writes the same entry.
  note_blockio_lem :
      (s : IoDedup K api.Table) (b : ℕ) (stage : Stage) (flag : BlkFlag) (id : ℕ) (v : Vector P2d)
      → flag ≢ zeroblk_flag
      → p2dmaps_set s.p2dmaps b (clean id) ≡ ok v
      → note_blockio api true s b stage flag id ≡ ok (record s { p2dmaps = v }, false)
  unfolding note_blockio update_blockio process_blockio
  note_blockio_lem s b init_stage flag id v h e =
      ground (arith, note_p2d_map_lem (clean 0) id flag h)
  note_blockio_lem s b stage flag id v h e =
      ground (arith, update_blockio_lem s.p2dmaps v b flag id h e)

  -- A state after a block's entry has been noted.
  pub record IsNoted (s s' : IoDedup K api.Table) (b : ℕ) (key : K) : Type 0 where
    pub consistent : IsConsistent api s'
    pub digests : (j : ℕ) → digest_of s' j ≡ (if j == b then some key else digest_of s j)
    pub nel_le : api.nel s'.maps.deduptab ≤ api.nel s.maps.deduptab + 1
    pub num_le : s'.maps.dedup_num ≤ s.maps.dedup_num + 1

  pub joined-IsNoted :
      (s : IoDedup K api.Table) (m : Maps K api.Table) (c : Counts) (v : Vector P2d) (b : ℕ)
      (key : K) (d : D2pv K)
      → IsConsistent api s
      → ((id : ℕ) → id ≢ 0 → names (p2dmaps_get s.p2dmaps b) id ≡ 0)
      → Joins api s.maps m key b d
      → v.size ≤ v.room
      → ((j : ℕ)
          → p2dmaps_get v j
            ≡ (if j == b then some (clean d.iodedup_id) else p2dmaps_get s.p2dmaps j))
      → IsNoted s (record { p2dmaps = v; maps = m; counts = c }) b key
  unfolding names digest_of blocks_of count
  joined-IsNoted s m c v b key d con nowhere joins fit gets = record {
    consistent =
        entry-IsConsistent api s m c v b (clean d.iodedup_id) con joins.sound fit gets
          (λ id j ne. elim (Bool-cases (id == d.iodedup_id)) [
            | inl y ↦ ground (arith, joins.objects id, joins.list, con.agree id j ne, nowhere id ne)
            | inr n ↦ ground (arith, joins.objects id, con.agree id b ne, nowhere id ne)
          ])
          (λ id o h. elim (Bool-cases (id == d.iodedup_id)) [
            | inl y ↦ ground (arith, joins.objects id, joins.list)
            | inr n ↦ con.kept id o (ground (arith, joins.objects id))
          ]);
    digests = λ j. elim (Option-cases (p2dmaps_get s.p2dmaps j)) [
      | inl n ↦ ground (arith, gets j, joins.objects d.iodedup_id, joins.digest)
      | inr (y, h) ↦ elim (Bool-cases (j == b)) [
        | inl at_b ↦ ground (arith, gets j, joins.objects d.iodedup_id, joins.digest)
        | inr off ↦ elim (Bool-cases y.pdirty) [
          | inl dirt ↦ ground (arith, gets j)
          | inr pure ↦ elim (Bool-cases (y.iodedup_id == d.iodedup_id)) [
            | inr n ↦ ground (arith, gets j, joins.objects y.iodedup_id)
            | inl n ↦ elim (Option-cases (object_of s.maps d.iodedup_id)) [
              | inl e ↦ absurd (
                  ground
                    (arith, con.agree d.iodedup_id j (λ z. omega (arith, z, joins.above_dummy))))
              | inr (o, e) ↦
                  ground (arith, gets j, joins.objects y.iodedup_id, joins.digest, joins.before o e)
            ]
          ]
        ]
      ]
    ];
    nel_le = joins.nel_le;
    num_le = joins.num_le;
  }

module _ {K C : Type 0} (api : TableApi K ℕ) (get_hash_key : C → K) where
  -- Where the map is built at run time, from a consistent state with room in the table and below the bound of
  -- the counter, for a block below 2^31 - 1 that no clean entry maps, `resumeDeduping` of a content that is no
  -- zero block succeeds in every stage and leaves the state consistent: the block has the digest of the content,
  -- and every other block keeps its digest.
  pub resume_deduping-IsNoted :
      (modes : Modes) (had : Option ℕ) (s : IoDedup K api.Table) (content : C) (len b : ℕ)
      (stage : Stage) (flag : BlkFlag)
      → IsConsistent api s
      → ((id : ℕ) → id ≢ 0 → names (p2dmaps_get s.p2dmaps b) id ≡ 0)
      → len ≢ 0
      → flag ≢ zeroblk_flag
      → b < 2 ^ 31 - 1
      → api.nel s.maps.deduptab < max_nodes
      → s.maps.dedup_num + 1 < 2 ^ 31 - 1
      → (s' : IoDedup K api.Table) × (resume_deduping api get_hash_key
            (record modes { runtimemap = true })
            (record { cmaphit = none; already_had = had })
            s
            (some content)
            len
            b
            stage
            flag
            true
          ≡ ok (s', false))
        × IsNoted api s s' b (get_hash_key content)
  unfolding resume_deduping
  resume_deduping-IsNoted modes had s content len b stage flag con nowhere nonzero good small room
        nums =
      let key = get_hash_key content in
      let (m, c, d, done, joins) =
        dedup_content-Joins api s key b had stage con.sound
          (λ id ne. ground (arith, con.agree id b ne, nowhere id ne)) room nums in
      let (v, set, fit, gets) =
        p2dmaps_get-p2dmaps_set s.p2dmaps b (clean d.iodedup_id) con.fit small in
      let noted =
        note_blockio_lem api (record s { maps = m; counts = c }) b stage flag d.iodedup_id v good
          set in
      (
        record { p2dmaps = v; maps = m; counts = c },
        ground (arith, done, noted),
        joined-IsNoted api s m c v b key d con nowhere joins fit gets,
      )
