-- ===== src/IoDedup/Trim.antt =====
-- `mappingTrimScanIO` of iodedup/ioserveio.c: before a write, the block's entry is dropped.
use sim_replay.Prelude.{
  ℕ, ◌-◌, ◌^◌, ◌<◌, ◌≤◌, ◌≡◌, ◌≢◌, none, some, true, false, [], ◌∷◌, arith, refl, ok, ◌==◌,
  if◌then◌else◌, Option-cases, Bool-cases, inl, inr, length, ltb, sym,
}
use sim_replay.Hashtab.Defs.{max_nodes}
use sim_replay.Hashtab.Api.{TableApi}
use sim_replay.ContentDedup.Bag.{count, erase, length-erase}
use sim_replay.IoDedup.P2d.{P2d, p2dmaps_get, notzero_io_vblk, dedup_dirty}
use sim_replay.IoDedup.D2pv.{D2pv}
use sim_replay.IoDedup.Defs.{IoDedup, dummy_id, mapping_trim_scan_io, trim_mapped, trim_unmapped}
use sim_replay.IoDedup.Blocks.{tuples, tuples-erase, tuples_only}
use sim_replay.IoDedup.Sound.{object_of}
use sim_replay.IoDedup.Consistent.{blocks_of, names, digest_of, IsConsistent, object_of-live}
use sim_replay.IoDedup.Recycle.{without, reset_mappings_io-IsSound}
use sim_replay.IoDedup.Entry.{p2dmaps_get-p2dmaps_set, one_block, entry-IsConsistent}

module _ {K : Type 0} (api : TableApi K ℕ) where
  -- A state after a block's entry has been dropped.
  pub record IsTrimmed (s s' : IoDedup K api.Table) (b : ℕ) : Type 0 where
    pub consistent : IsConsistent api s'
    pub forgotten : (id : ℕ) → names (p2dmaps_get s'.p2dmaps b) id ≡ 0
    pub digests : (j : ℕ) → digest_of s' j ≡ (if j == b then none else digest_of s j)
    pub nel_le : api.nel s'.maps.deduptab ≤ api.nel s.maps.deduptab
    pub same_num : s'.maps.dedup_num ≡ s.maps.dedup_num

  -- What is left of the list of a content.
  tuples-without :
      (d : D2pv K) (b j : ℕ)
      → tuples b d.d2pmaps ≡ 1
      → tuples j (elim (without api b d) [ none ↦ [] | some e ↦ e.d2pmaps ])
        ≡ (if j == b then 0 else tuples j d.d2pmaps)
  unfolding count
  tuples-without d b j on =
      let cut = tuples-erase d.d2pmaps b j (λ e. omega (arith, e, on)) in
      elim (Bool-cases (ltb 1 (length d.d2pmaps))) [
        | inl more ↦ ground (arith, cut)
        | inr last ↦ elim (Bool-cases (j == b)) [
          | inl e ↦ ground arith
          | inr e ↦
              let gone =
                tuples_only d.d2pmaps b j (ground arith) (λ h. omega (arith, h, on))
                  (λ h. ground arith) in
              ground (arith, gone)
        ]
      ]

  length-without :
      (d e : D2pv K) (b : ℕ)
      → tuples b d.d2pmaps ≡ 1
      → without api b d ≡ some e
      → length e.d2pmaps ≢ 0
  length-without d e b on h z =
      let cut = length-erase ◌==◌ b d.d2pmaps (λ h'. omega (arith, h', on)) in ground (arith, cut)

  -- An object that a block other than the one taken off names stays, with its digest.
  kept-without :
      (d : D2pv K) (b j : ℕ)
      → tuples b d.d2pmaps ≡ 1
      → tuples j d.d2pmaps ≢ 0
      → j ≢ b
      → without api b d ≡ some (record d { d2pmaps = erase ◌==◌ b d.d2pmaps })
  kept-without d b j on there ne = elim (Bool-cases (ltb 1 (length d.d2pmaps))) [
    | inl more ↦ ground arith
    | inr last ↦
        absurd (there (tuples_only d.d2pmaps b j (ground arith) (λ h. omega (arith, h, on)) ne))
  ]

  abbrev dirty : ℕ → P2d
  dirty id = record { iodedup_id = id; pdirty = true }

  -- A block that no list has: its entry becomes the dirty dummy.
  trim_unmapped-IsTrimmed :
      (s : IoDedup K api.Table) (b : ℕ)
      → IsConsistent api s
      → b < 2 ^ 31 - 1
      → ((id : ℕ) → id ≢ 0 → names (p2dmaps_get s.p2dmaps b) id ≡ 0)
      → (s' : IoDedup K api.Table) × (trim_unmapped api true s b ≡ ok (s', false))
        × IsTrimmed s s' b
  unfolding trim_unmapped names digest_of
  trim_unmapped-IsTrimmed s b con small nowhere =
      let (v, done, fit, gets) =
        p2dmaps_get-p2dmaps_set s.p2dmaps b (dirty dummy_id) con.fit small in
      (
        record s { p2dmaps = v },
        ground (arith, done),
        record {
          consistent =
              entry-IsConsistent api s s.maps s.counts v b (dirty dummy_id) con con.sound fit gets
                (λ id j ne. ground (arith, con.agree id j ne, nowhere id ne)) con.kept;
          forgotten = λ id. ground (arith, gets b);
          digests = λ j. ground (arith, gets j);
          nel_le = omega arith;
          same_num = refl;
        },
      )

  -- A block with a clean entry that names a content.
  trim_clean-IsTrimmed :
      (s : IoDedup K api.Table) (b : ℕ) (x : P2d)
      → IsConsistent api s
      → b < 2 ^ 31 - 1
      → p2dmaps_get s.p2dmaps b ≡ some x
      → x.pdirty ≡ false
      → x.iodedup_id ≢ 0
      → api.nel s.maps.deduptab < max_nodes
      → (s' : IoDedup K api.Table) × (trim_mapped api s (b ∷ []) ≡ ok (s', false))
        × IsTrimmed s s' b
  unfolding trim_mapped names digest_of blocks_of dedup_dirty count
  trim_clean-IsTrimmed s b x con small at clean ne room =
      let (v, done, fit, gets) =
        p2dmaps_get-p2dmaps_set s.p2dmaps b (dirty x.iodedup_id) con.fit small in
      elim (Option-cases (object_of s.maps x.iodedup_id)) [
        | inl e ↦ absurd (ground (arith, con.agree x.iodedup_id b ne))
        | inr (d, e) ↦
            let (p, live, named, same) = object_of-live api s.maps x.iodedup_id d con.sound e in
            let on : tuples b d.d2pmaps ≡ 1 = ground (arith, con.agree x.iodedup_id b ne) in
            let (m, reset, sound, fewer, num, objects) =
              reset_mappings_io-IsSound api s.maps x p d b con.sound live (sym same)
                (λ h. omega (arith, h, on)) room in
            (
              record s { p2dmaps = v; maps = m },
              ground (arith, done, reset),
              record {
                consistent =
                    entry-IsConsistent api s m s.counts v b (dirty x.iodedup_id) con sound fit gets
                      (λ id j h. elim (Bool-cases (id == d.iodedup_id)) [
                        | inl y ↦ ground (arith, objects id, tuples-without d b j on)
                        | inr n ↦ ground (arith, objects id, con.agree id b h)
                      ])
                      (λ id o h. elim (Bool-cases (id == d.iodedup_id)) [
                        | inl y ↦ length-without d o b on (ground (arith, objects id))
                        | inr n ↦ con.kept id o (ground (arith, objects id))
                      ]);
                forgotten = λ id. ground (arith, gets b);
                digests = λ j. elim (Option-cases (p2dmaps_get s.p2dmaps j)) [
                  | inl n ↦ ground (arith, gets j)
                  | inr (y, h) ↦ elim (Bool-cases (y.iodedup_id == d.iodedup_id)) [
                    | inr n ↦ ground (arith, gets j, objects y.iodedup_id)
                    | inl n ↦ elim (Bool-cases (j == b)) [
                      | inl at_b ↦ ground (arith, gets j)
                      | inr off ↦ elim (Bool-cases y.pdirty) [
                        | inl dirt ↦ ground (arith, gets j)
                        | inr pure ↦
                            let there : tuples j d.d2pmaps ≢ 0 =
                              λ z. ground (arith, con.agree x.iodedup_id j ne) in
                            let stays = kept-without d b j on there (λ q. ground arith) in
                            ground (arith, gets j, objects y.iodedup_id, stays, e, same)
                      ]
                    ]
                  ]
                ];
                nel_le = fewer;
                same_num = num;
              },
            )
      ]

  -- Where the map is built at run time, from a consistent state with room in the table, `mappingTrimScanIO` of
  -- a block below 2^31 - 1 succeeds and leaves the state consistent: no list has the block, its digest is
  -- forgotten, and every other block keeps its digest.
  pub mapping_trim_scan_io-IsTrimmed :
      (s : IoDedup K api.Table) (b : ℕ)
      → IsConsistent api s
      → b < 2 ^ 31 - 1
      → api.nel s.maps.deduptab < max_nodes
      → (s' : IoDedup K api.Table) × (mapping_trim_scan_io api true s b ≡ ok (s', false))
        × IsTrimmed s s' b
  unfolding mapping_trim_scan_io notzero_io_vblk trim_mapped dedup_dirty names digest_of
  mapping_trim_scan_io-IsTrimmed s b con small room =
      let look = one_block s.p2dmaps b (omega arith) in
      elim (Option-cases (p2dmaps_get s.p2dmaps b)) [
        | inl e ↦
            let (s', done, t) = trim_unmapped-IsTrimmed s b con small (λ id h. ground arith) in
            (s', ground (arith, look, done), t)
        | inr (x, e) ↦ elim (Bool-cases (x.iodedup_id == 0)) [
          | inl z ↦
              let (s', done, t) = trim_unmapped-IsTrimmed s b con small (λ id h. ground arith) in
              (s', ground (arith, look, done), t)
          | inr nz ↦ elim (Bool-cases x.pdirty) [
            | inl dirt ↦ (
              s,
              ground (arith, look),
              record {
                consistent = con;
                forgotten = λ id. ground arith;
                digests = λ j. ground arith;
                nel_le = omega arith;
                same_num = refl;
              },
            )
            | inr pure ↦
                let (s', done, t) =
                  trim_clean-IsTrimmed s b x con small e pure (λ h. ground arith) room in
                (s', ground (arith, look, done), t)
          ]
        ]
      ]
