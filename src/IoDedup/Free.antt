-- ===== src/IoDedup/Free.antt =====
-- `free_dedupmap` of iodedup/d2pv-map.c: every object is taken out of both maps.
use sim_replay.Prelude.{
  ℕ, zero, suc, ◌+◌, ◌<◌, ◌≤◌, ◌≡◌, ◌≢◌, ◌⊎◌, none, some, false, [], arith, refl, Result, ok, ◌>>=◌,
  ◌==◌, if◌then◌else◌, Option-cases, Bool-cases, inl, inr, leb,
}
use sim_replay.Hashtab.Defs.{max_nodes}
use sim_replay.Hashtab.Api.{TableApi}
use sim_replay.Vectors.Defs.{get}
use sim_replay.IoDedup.D2pv.{D2pv, Maps, store, deref, get_dedup_map, set_dedup_map}
use sim_replay.IoDedup.Defs.{unlink}
use sim_replay.IoDedup.Sound.{object_of, IsLive, IsSound, store-IsSound}
use sim_replay.IoDedup.Entries.{dropped, dropped-IsSound}
use sim_replay.IoDedup.Consistent.{object_of-live}

narrow : (i n j : ℕ) → (j == i) ≡ false → (j < i + 1) ⊎ (i + 1 + n ≤ j) → (j < i) ⊎ (i + suc n ≤ j)
narrow i n j ne (inl h) = let d : j ≢ i = ground arith in inl (omega (arith, d))
narrow i n j ne (inr h) = inr (omega arith)

module _ {K : Type 0} (api : TableApi K ℕ) where
  -- The loop over `n` IDs from `i` on. The list of the object is emptied first.
  unfoldable pub free_from : ℕ → ℕ → Maps K api.Table → Result (Maps K api.Table)
  free_from zero i m = ok m
  free_from (suc n) i m = elim (get_dedup_map m i) [
    | none ↦ free_from n (i + 1) m
    | some p ↦ do
      d ← deref m p
      m' ← unlink api (store m p (record d { d2pmaps = [] })) d.dhashkey i false
      free_from n (i + 1) m'
  ]

  -- The maps are alive, as `dedupmap_alive` says; for maps that have been freed, nothing is done. The loop goes to
  -- the size of the vector, which no write below it changes. The vector and the table are then
  -- given back.
  unfoldable pub free_dedupmap : Maps K api.Table → Result (Maps K api.Table)
  unfolding free_from
  free_dedupmap m = free_from m.dedupmap_by_did.size 0 m

  -- An ID that leads to no object is in no map.
  no_object :
      (m : Maps K api.Table) (id : ℕ)
      → IsSound api m
      → object_of m id ≡ none
      → get_dedup_map m id ≡ none
  unfolding object_of
  no_object m id sound h = elim (Option-cases (get_dedup_map m id)) [
    | inl e ↦ e
    | inr (p, e) ↦ let (d, live, same) = sound.named id p e in absurd (ground (arith, live.here))
  ]

  -- One object is freed.
  free_one :
      (m : Maps K api.Table) (p : ℕ) (d : D2pv K)
      → IsSound api m
      → IsLive api m p d
      → api.nel m.deduptab < max_nodes
      → (m' : Maps K api.Table) × (unlink api
            (store m p (record d { d2pmaps = [] }))
            d.dhashkey
            d.iodedup_id
            false
          ≡ ok m')
        × IsSound api m'
        × (api.nel m'.deduptab < max_nodes)
        × ((j : ℕ) → object_of m' j ≡ (if j == d.iodedup_id then none else object_of m j))
  unfolding unlink set_dedup_map get_dedup_map
  free_one m p d sound live room =
      let d' : D2pv K = record d { d2pmaps = [] } in
      let m1 = store m p d' in
      let (s1, o1) = store-IsSound api m p d d' sound live refl refl in
      let live1 : IsLive api m1 p d' = record {
        here = ground arith;
        by_id = live.by_id;
        by_key = live.by_key;
        allocated = live.allocated;
        above_dummy = live.above_dummy;
        below_num = live.below_num;
      } in
      let (t, v, done, set, s2, fewer, free, o2) = dropped-IsSound api m1 p d' s1 live1 room in
      (
        dropped api m1 t v,
        ground (arith, done, set),
        s2,
        omega (arith, fewer),
        λ j. ground (arith, o2 j, o1 j),
      )

  free_from_lem :
      (n i : ℕ) (m : Maps K api.Table)
      → IsSound api m
      → api.nel m.deduptab < max_nodes
      → ((j : ℕ) → (j < i) ⊎ (i + n ≤ j) → object_of m j ≡ none)
      → (m' : Maps K api.Table) × (free_from n i m ≡ ok m')
        × IsSound api m'
        × ((j : ℕ) → object_of m' j ≡ none)
  unfolding free_from deref
  free_from_lem zero i m sound room gone = (
    m,
    refl,
    sound,
    λ j. elim (Bool-cases (leb i j)) [
      | inl e ↦ gone j (inr (ground arith))
      | inr e ↦ gone j (inl (ground arith))
    ],
  )
  free_from_lem (suc n) i m sound room gone = elim (Option-cases (object_of m i)) [
    | inl e ↦
        let none_at = no_object m i sound e in
        let (m', ran, sound', all) = free_from_lem n (i + 1) m sound room (λ j h.
          elim (Bool-cases (j == i)) [
            | inl q ↦ ground (arith, e)
            | inr q ↦ gone j (narrow i n j q h)
          ]) in
        (m', ground (arith, none_at, ran), sound', all)
    | inr (d, e) ↦
        let (p, live, at, same) = object_of-live api m i d sound e in
        let (m1, one, s1, room1, objects) = free_one m p d sound live room in
        let (m', ran, sound', all) = free_from_lem n (i + 1) m1 s1 room1 (λ j h.
          elim (Bool-cases (j == i)) [
            | inl q ↦ ground (arith, objects j, same)
            | inr q ↦ ground (arith, objects j, same, gone j (narrow i n j q h))
          ]) in
        (m', ground (arith, at, live.here, one, ran, same), sound', all)
  ]

  outside :
      (m : Maps K api.Table) (j : ℕ)
      → (j < 0) ⊎ (0 + m.dedupmap_by_did.size ≤ j)
      → object_of m j ≡ none
  unfolding object_of get_dedup_map get
  outside m j (inl h) = absurd (omega arith)
  outside m j (inr h) = ground arith

  -- From sound maps with room in the table, `free_dedupmap` comes to its end, and leaves no ID and no digest in
  -- either map.
  pub free_dedupmap_lem :
      (m : Maps K api.Table)
      → IsSound api m
      → api.nel m.deduptab < max_nodes
      → (m' : Maps K api.Table) × (free_dedupmap m ≡ ok m')
        × ((id : ℕ) → get_dedup_map m' id ≡ none)
        × ((k : K) → api.lookup m'.deduptab k ≡ none)
  unfolding free_dedupmap
  free_dedupmap_lem m sound room =
      let (m', ran, sound', all) =
        free_from_lem m.dedupmap_by_did.size 0 m sound room (λ j h. outside m j h) in
      (
        m',
        ran,
        λ id. no_object m' id sound' (all id),
        λ k. elim (Option-cases (api.lookup m'.deduptab k)) [
          | inl e ↦ e
          | inr (p, e) ↦
              let (d, live, same) = sound'.keyed k p e in
              absurd
                (ground (arith, live.by_id, no_object m' d.iodedup_id sound' (all d.iodedup_id)))
        ],
      )
