-- ===== src/Confided/Leave.antt =====
-- `recyclefixedID` and `resetMappingsF` of confided/fserveio.c: a block leaves the list of its content, with
-- another block marked if it was the marked one, and the last block takes the content with it.
use sim_replay.Prelude.{
  ℕ, ◌<◌, ◌≤◌, ◌≡◌, ◌≢◌, ◌⊎◌, Option, none, some, true, false, List, [], arith, refl, ◌∙◌, ◌++◌, ok,
  ◌==◌, if◌then◌else◌, Bool-cases, inl, inr, length, ltb,
}
use mathlib.Core.Path.{subst}
use sim_replay.Hashtab.Defs.{max_nodes}
use sim_replay.Hashtab.Api.{TableApi}
use sim_replay.Vectors.Laws.{get-vector32_set}
use sim_replay.IoDedup.D2pv.{
  get_dedup_map, add_iodedup_id_to_recyclelist, add_new_to_old_recyclelist_io,
}
use sim_replay.IoDedup.Blocks
use sim_replay.IoDedup.Sound.{IsSound, IsFree}
use sim_replay.IoDedup.Entries.{dropped_maps-IsSound}
use sim_replay.IoDedup.Recycle.{add_iodedup_id-IsSound, add_new_to_old_recyclelist_io-IsSound}
use sim_replay.IoDedup.Consistent.{used-unlisted}
use sim_replay.Confided.Leaders.{F2v}
use sim_replay.Confided.Marks.{
  leaders, tuples, IsDeleted, del_f2v_from_f2vmaps-IsDeleted, del_f2v_from_f2vmaps_only,
  leaders-le-length,
}
use sim_replay.Confided.V2f.{V2f, notzero_f_vblk}
use sim_replay.Confided.Fixed.{
  F2pv, FixedMaps, store_f, deref_f, get_fixed_map, set_fixed_map, add_fixed_id_to_recyclelist,
  add_new_to_old_recyclelist_f,
}
use sim_replay.Confided.Defs.{recyclefixed_id, reset_mappings_f, unlink_fixed}
use sim_replay.Confided.View.{
  as_d2pv, view, named-IsKept, fixed_of, IsKept, by_fid, kept-fixed_of, store_f-IsSound,
}
use sim_replay.Confided.Join.{IsFixed, led_of}

module _ {K : Type 0} (api : TableApi K ℕ) where
  -- The maps after a block has left the list of the object `d`: the object has another list, or it is gone.
  pub record LeavesFixed (m m' : FixedMaps K api.Table) (v b : ℕ) (d : F2pv K) : Type 0 where
    pub fixed : IsFixed api m'
    pub nel_le : api.nel m'.fixedtab ≤ api.nel m.fixedtab
    pub num_eq : m'.fixed_num ≡ m.fixed_num
    pub left :
        ((l : List F2v) × IsDeleted v b d.f2vmaps l
          × ((j : ℕ)
              → fixed_of m' j
                ≡ (if j == d.fixed_id then some (record d { f2vmaps = l }) else fixed_of m j)))
        ⊎ ((length d.f2vmaps ≡ 1)
            × ((j : ℕ) → fixed_of m' j ≡ (if j == d.fixed_id then none else fixed_of m j)))

  relisted-IsFixed :
      (m : FixedMaps K api.Table)
      → IsFixed api m
      → IsFixed api (add_new_to_old_recyclelist_f m)
        × ((j : ℕ) → fixed_of (add_new_to_old_recyclelist_f m) j ≡ fixed_of m j)
  unfolding add_new_to_old_recyclelist_f add_new_to_old_recyclelist_io fixed_of get_fixed_map
  relisted-IsFixed m f = (
    record { sound = add_new_to_old_recyclelist_io-IsSound api (view m) f.sound; led = f.led },
    λ j. refl,
  )

  -- A block that is not the only one leaves.
  shared-LeavesFixed :
      (m : FixedMaps K api.Table) (x : V2f) (p : ℕ) (d : F2pv K) (v b : ℕ)
      → IsFixed api m
      → IsKept api m p d
      → x.fixed_id ≡ d.fixed_id
      → tuples v b d.f2vmaps ≢ 0
      → 1 < length d.f2vmaps
      → (m' : FixedMaps K api.Table) × (o : Option (ℕ × ℕ)) × (reset_mappings_f api false m x v b
          ≡ ok (m', o))
        × LeavesFixed m m' v b d
  unfolding reset_mappings_f recyclefixed_id deref_f add_new_to_old_recyclelist_f
  shared-LeavesFixed m x p d v b f kept same on more =
      let (r, done, failed, del) =
        del_f2v_from_f2vmaps-IsDeleted d.f2vmaps v b (f.led d.fixed_id d (kept-fixed_of api kept))
          more on in
      let d' : F2pv K = record d { f2vmaps = r.f2vmaps } in
      let (sound, objects) = store_f-IsSound api m p d d' f.sound kept refl refl in
      let f1 : IsFixed api (store_f m p d') = record {
        sound = sound;
        led = led_of api m (store_f m p d') d' f objects del.led;
      } in
      let (f2, o2) = relisted-IsFixed (store_f m p d') f1 in
      (
        add_new_to_old_recyclelist_f (store_f m p d'),
        r.leader,
        ground (arith, by_fid api kept, same, kept.here, done),
        record {
          fixed = f2;
          nel_le = omega arith;
          num_eq = refl;
          left = inl (r.f2vmaps, del, λ j. o2 j ∙ objects j);
        },
      )

  stored-IsKept :
      (m : FixedMaps K api.Table) (p : ℕ) (d d' : F2pv K)
      → IsSound api (view (store_f m p d'))
      → IsKept api m p d
      → d'.fixed_id ≡ d.fixed_id
      → IsKept api (store_f m p d') p d'
  unfolding get_fixed_map
  stored-IsKept m p d d' s kept same =
      let (o, k, e) = named-IsKept api (store_f m p d') d.fixed_id p s (by_fid api kept) in
      subst (λ x. IsKept api (store_f m p d') p x) (ground (arith, k.here)) k

  -- The maps without the entries of an object, whose ID is reusable.
  dropped_f-IsFixed :
      (m : FixedMaps K api.Table) (p : ℕ) (d : F2pv K)
      → IsSound api (view m)
      → ((id : ℕ) (e : F2pv K) → id ≢ d.fixed_id → fixed_of m id ≡ some e → leaders e.f2vmaps ≡ 1)
      → IsKept api m p d
      → api.nel m.fixedtab < max_nodes
      → (m' : FixedMaps K api.Table) × (unlink_fixed api m d.fhashkey d.fixed_id true ≡ ok m')
        × IsFixed api m'
        × (api.nel m'.fixedtab ≤ api.nel m.fixedtab)
        × (m'.fixed_num ≡ m.fixed_num)
        × ((j : ℕ) → fixed_of m' j ≡ (if j == d.fixed_id then none else fixed_of m j))
  unfolding unlink_fixed set_fixed_map fixed_of get_fixed_map get_dedup_map
      add_fixed_id_to_recyclelist add_iodedup_id_to_recyclelist
  dropped_f-IsFixed m p d s led kept room =
      let (t, done, good, fewer, finds) =
        api.remove_stored d.fhashkey s.good room (λ e. ground (arith, kept.live.by_key)) in
      let (w, set, fit, size, gets) =
        get-vector32_set m.fixedmap_by_fid d.fixed_id none s.fit
          (omega (arith, kept.live.below_num, s.small)) in
      let m1 : FixedMaps K api.Table = record m { fixedtab = t; fixedmap_by_fid = w } in
      let free : IsFree api (view m1) d.fixed_id = record {
        unused = ground (arith, gets d.fixed_id);
        above_dummy = kept.live.above_dummy;
        below_num = kept.live.below_num;
      } in
      let unlisted : Blocks.tuples d.fixed_id (m.curr_reusable ++ m.new_reusable) ≡ 0 =
        used-unlisted api (view m) d.fixed_id s (λ e. ground (arith, by_fid api kept)) in
      let sound1 =
        dropped_maps-IsSound api (view m) p (as_d2pv d) t w s kept.live good fit finds gets in
      let objects : (j : ℕ) → fixed_of m1 j ≡ (if j == d.fixed_id then none else fixed_of m j) =
        λ j. ground (arith, gets j) in
      (
        add_fixed_id_to_recyclelist d.fixed_id m1,
        ground (arith, done, set, kept.live.above_dummy),
        record {
          sound = add_iodedup_id-IsSound api (view m1) d.fixed_id sound1 free unlisted;
          led = λ id e h. elim (Bool-cases (id == d.fixed_id)) [
            | inl y ↦ absurd (ground (arith, objects id))
            | inr n ↦ led id e (λ z. ground arith) (ground (arith, objects id))
          ];
        },
        omega (arith, fewer),
        refl,
        objects,
      )

  -- The only block leaves.
  only-LeavesFixed :
      (m : FixedMaps K api.Table) (x : V2f) (p : ℕ) (d : F2pv K) (v b : ℕ)
      → IsFixed api m
      → IsKept api m p d
      → x.fixed_id ≡ d.fixed_id
      → tuples v b d.f2vmaps ≢ 0
      → length d.f2vmaps ≡ 1
      → api.nel m.fixedtab < max_nodes
      → (m' : FixedMaps K api.Table) × (o : Option (ℕ × ℕ)) × (reset_mappings_f api false m x v b
          ≡ ok (m', o))
        × LeavesFixed m m' v b d
  unfolding reset_mappings_f recyclefixed_id deref_f notzero_f_vblk add_new_to_old_recyclelist_f
  only-LeavesFixed m x p d v b f kept same on one room =
      let there = kept-fixed_of api kept in
      let del = del_f2v_from_f2vmaps_only d.f2vmaps v b (f.led d.fixed_id d there) one on in
      let d' : F2pv K = record d { f2vmaps = [] } in
      let (s1, o1) = store_f-IsSound api m p d d' f.sound kept refl refl in
      let m1 = store_f m p d' in
      let (m2, done, f2, fewer, num, o2) =
        dropped_f-IsFixed m1 p d' s1 (λ id e ne h. f.led id e (ground (arith, o1 id)))
          (stored-IsKept m p d d' s1 kept refl) room in
      let (f3, o3) = relisted-IsFixed m2 f2 in
      (
        add_new_to_old_recyclelist_f m2,
        none,
        ground (arith, by_fid api kept, kept.here, del, done, same, kept.live.above_dummy),
        record {
          fixed = f3;
          nel_le = fewer;
          num_eq = num;
          left = inr (one, λ j. o3 j ∙ ground (arith, o2 j, o1 j));
        },
      )

  -- From sound maps, `resetMappingsF` of a block on the list of a content succeeds and leaves the maps sound.
  pub reset_mappings_f-LeavesFixed :
      (m : FixedMaps K api.Table) (x : V2f) (p : ℕ) (d : F2pv K) (v b : ℕ)
      → IsFixed api m
      → IsKept api m p d
      → x.fixed_id ≡ d.fixed_id
      → tuples v b d.f2vmaps ≢ 0
      → api.nel m.fixedtab < max_nodes
      → (m' : FixedMaps K api.Table) × (o : Option (ℕ × ℕ)) × (reset_mappings_f api false m x v b
          ≡ ok (m', o))
        × LeavesFixed m m' v b d
  reset_mappings_f-LeavesFixed m x p d v b f kept same on room =
      let there = kept-fixed_of api kept in
      let led = f.led d.fixed_id d there in
      elim (Bool-cases (ltb 1 (length d.f2vmaps))) [
        | inl more ↦ shared-LeavesFixed m x p d v b f kept same on (ground arith)
        | inr last ↦
            only-LeavesFixed m x p d v b f kept same on
              (ground (arith, leaders-le-length d.f2vmaps, led)) room
      ]
