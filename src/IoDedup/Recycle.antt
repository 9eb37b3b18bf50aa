-- ===== src/IoDedup/Recycle.antt =====
-- `recycleiodedupID` and `resetMappingsIO` of iodedup/ioserveio.c: a block leaves the list of its content, and
-- the last block takes the content with it.
use sim_replay.Prelude.{
  ℕ, ◌+◌, ◌<◌, ◌≤◌, ◌≡◌, ◌≢◌, Option, none, some, List, [], ◌∷◌, ◌++◌, arith, refl, ok, ◌==◌,
  if◌then◌else◌, Bool-cases, inl, inr, length, ltb,
}
use sim_replay.Hashtab.Defs.{max_nodes}
use sim_replay.Hashtab.Api.{TableApi}
use sim_replay.ContentDedup.Bag.{count, erase}
use sim_replay.IoDedup.P2d.{P2d, notzero_io_vblk}
use sim_replay.IoDedup.D2pv.{
  D2pv, Maps, store, deref, get_dedup_map, set_dedup_map, add_iodedup_id_to_recyclelist,
  add_new_to_old_recyclelist_io,
}
use sim_replay.IoDedup.Defs.{recycleiodedup_id, reset_mappings_io, unlink}
use sim_replay.IoDedup.Blocks.{tuples, tuples-append, del_d2p_from_d2pmaps_lem}
use sim_replay.IoDedup.Sound.{carry-IsLive, object_of, IsLive, IsFree, IsSound, store-IsSound}
use sim_replay.IoDedup.Entries.{dropped, dropped-IsSound}
use sim_replay.IoDedup.Consistent.{used-unlisted}

module _ {K : Type 0} (api : TableApi K ℕ) where
  -- The maps with other lists of reusable IDs.
  abbrev relisted : Maps K api.Table → List ℕ → List ℕ → Maps K api.Table
  relisted m c n = record m { curr_reusable = c; new_reusable = n }

  relisted-IsLive :
      {m : Maps K api.Table} {p : ℕ} {d : D2pv K} {c n : List ℕ}
      → IsLive api m p d
      → IsLive api (relisted m c n) p d
  unfolding get_dedup_map
  relisted-IsLive l = carry-IsLive api l l.here l.by_id l.by_key (omega arith) (omega arith)

  relisted-IsSound :
      (m : Maps K api.Table) (c n : List ℕ)
      → IsSound api m
      → ((id : ℕ) → tuples id (c ++ n) ≢ 0 → IsFree api m id)
      → ((id : ℕ) → tuples id (c ++ n) ≤ 1)
      → IsSound api (relisted m c n)
  unfolding get_dedup_map
  relisted-IsSound m c n s free once = record {
    good = s.good;
    fit = s.fit;
    keyed = λ k q h. let (e, l, ek) = s.keyed k q h in (e, relisted-IsLive l, ek);
    named = λ j q h. let (e, l, ei) = s.named j q h in (e, relisted-IsLive l, ei);
    reusable = λ j h.
        let f = free j h in
        record { unused = f.unused; above_dummy = f.above_dummy; below_num = f.below_num };
    once = once;
    started = s.started;
    small = s.small;
  }

  pub add_iodedup_id-IsSound :
      (m : Maps K api.Table) (id : ℕ)
      → IsSound api m
      → IsFree api m id
      → tuples id (m.curr_reusable ++ m.new_reusable) ≡ 0
      → IsSound api (add_iodedup_id_to_recyclelist id m)
  unfolding add_iodedup_id_to_recyclelist count
  add_iodedup_id-IsSound m id s free unlisted =
      let splits : (j : ℕ)
          → tuples j (m.curr_reusable ++ id ∷ m.new_reusable)
            ≡ tuples j (m.curr_reusable ++ m.new_reusable) + (if j == id then 1 else 0) =
        λ j. ground (
          arith,
          tuples-append j m.curr_reusable (id ∷ m.new_reusable),
          tuples-append j m.curr_reusable m.new_reusable,
        ) in
      relisted-IsSound m m.curr_reusable (id ∷ m.new_reusable) s
        (λ j h. elim (Bool-cases (j == id)) [
          | inl e ↦ record {
            unused = ground (arith, free.unused);
            above_dummy = ground (arith, free.above_dummy);
            below_num = ground (arith, free.below_num);
          }
          | inr e ↦ s.reusable j (ground (arith, splits j))
        ])
        (λ j. ground (arith, splits j, s.once j, unlisted))

  pub add_new_to_old_recyclelist_io-IsSound :
      (m : Maps K api.Table) → IsSound api m → IsSound api (add_new_to_old_recyclelist_io m)
  unfolding add_new_to_old_recyclelist_io count
  add_new_to_old_recyclelist_io-IsSound m s =
      let same : (j : ℕ)
          → tuples j ((m.curr_reusable ++ m.new_reusable) ++ [])
            ≡ tuples j (m.curr_reusable ++ m.new_reusable) =
        λ j. ground (arith, tuples-append j (m.curr_reusable ++ m.new_reusable) []) in
      relisted-IsSound m (m.curr_reusable ++ m.new_reusable) [] s
        (λ j h. s.reusable j (ground (arith, same j))) (λ j. ground (arith, same j, s.once j))

  -- The object of a content after a block has left its list.
  abbrev pub without : ℕ → D2pv K → Option (D2pv K)
  without b d =
      if ltb 1 (length d.d2pmaps)
      then some (record d { d2pmaps = erase ◌==◌ b d.d2pmaps })
      else none

  -- From sound maps, `resetMappingsIO` of a block on the list of a live object succeeds and leaves the maps
  -- sound: the block leaves the list of the object; the last block takes the object with it.
  pub reset_mappings_io-IsSound :
      (m : Maps K api.Table) (x : P2d) (p : ℕ) (d : D2pv K) (b : ℕ)
      → IsSound api m
      → IsLive api m p d
      → x.iodedup_id ≡ d.iodedup_id
      → tuples b d.d2pmaps ≢ 0
      → api.nel m.deduptab < max_nodes
      → (m' : Maps K api.Table) × (reset_mappings_io api m x b ≡ ok m')
        × IsSound api m'
        × (api.nel m'.deduptab ≤ api.nel m.deduptab)
        × (m'.dedup_num ≡ m.dedup_num)
        × ((j : ℕ) → object_of m' j ≡ (if j == d.iodedup_id then without b d else object_of m j))
  unfolding reset_mappings_io recycleiodedup_id unlink deref set_dedup_map notzero_io_vblk
      add_new_to_old_recyclelist_io add_iodedup_id_to_recyclelist object_of get_dedup_map
  reset_mappings_io-IsSound m x p d b s live same on room =
      let d' : D2pv K = record d { d2pmaps = erase ◌==◌ b d.d2pmaps } in
      let m1 = store m p d' in
      let (s1, o1) = store-IsSound api m p d d' s live refl refl in
      let del = del_d2p_from_d2pmaps_lem d.d2pmaps b on in
      elim (Bool-cases (ltb 1 (length d.d2pmaps))) [
        | inl more ↦ (
          add_new_to_old_recyclelist_io m1,
          ground (arith, del, live.by_id, live.here),
          add_new_to_old_recyclelist_io-IsSound m1 s1,
          omega arith,
          refl,
          λ j. ground (arith, o1 j),
        )
        | inr last ↦
            let live1 : IsLive api m1 p d' = record {
              here = ground arith;
              by_id = live.by_id;
              by_key = live.by_key;
              allocated = live.allocated;
              above_dummy = live.above_dummy;
              below_num = live.below_num;
            } in
            let (t, v, done, set, s2, fewer, free, o2) =
              dropped-IsSound api m1 p d' s1 live1 room in
            let m2 = dropped api m1 t v in
            let unlisted : tuples d.iodedup_id (m2.curr_reusable ++ m2.new_reusable) ≡ 0 =
              used-unlisted api m d.iodedup_id s (λ e. ground (arith, live.by_id)) in
            let s3 = add_iodedup_id-IsSound m2 d.iodedup_id s2 free unlisted in
            (
              add_new_to_old_recyclelist_io (add_iodedup_id_to_recyclelist d.iodedup_id m2),
              ground (arith, del, live.by_id, live.here, done, set, live.above_dummy, same),
              add_new_to_old_recyclelist_io-IsSound (add_iodedup_id_to_recyclelist d.iodedup_id m2)
                  s3,
              omega (arith, fewer),
              refl,
              λ j. ground (arith, o2 j, o1 j),
            )
      ]
