-- ===== src/Arc/Pull.antt =====
-- `__arc_hash_lookup` and the first step of `__arc_move` in ARC-cache/arc.c: what a search finds, and the
-- object in hand when it is taken out of its list.
use sim_replay.Prelude.{
  ℕ, ◌+◌, ◌^◌, ◌≤◌, ◌<◌, ◌≡◌, ◌↔◌, ◌⊎◌, inl, inr, none, some, Bool, true, false, arith, ok,
  Option-cases,
}
use sim_replay.Arc.Defs.{
  Obj, ArcState, Arc, Place, in_mrug, in_mru, in_mfu, in_mfug, pull, place_of, find_obj,
  hash_lookup, slot_of,
}
use sim_replay.Arc.Lists.{
  occ, has_content, chained-times, find_obj_lem, occ_of_find_obj, total-unlink, Fits-unlink,
}
use sim_replay.Arc.Inv.{Core, StateOk, occ_all}

abbrev pub is_resident : Place → Bool
is_resident in_mru = true
is_resident in_mfu = true
is_resident in_mrug = false
is_resident in_mfug = false

abbrev pub state_at : {K C : Type 0} → Place → Arc K C → ArcState K C
state_at in_mru cache = cache.mru
state_at in_mfu cache = cache.mfu
state_at in_mrug cache = cache.mrug
state_at in_mfug cache = cache.mfug

module _ {K C : Type 0} (same_key : K → K → Bool) (ops_hash : K → ℕ)
    (same_key_iff : (a b : K) → (same_key a b ≡ true) ↔ (a ≡ b)) where
  -- `o` is the object of the name in the list of `place`.
  pub record Found (m : ℕ) (key : K) (len : ℕ) (cache : Arc K C) (place : Place) (o : Obj K C)
      : Type 0 where
    pub same_hash : o.dhashkey ≡ key
    pub same_size : o.osize ≡ len
    pub positive : 0 < len
    pub bounded : len ≤ m
    pub loaded : has_content o.content ≡ is_resident place
    pub stored : 0 < occ same_key key len (state_at place cache).objs

  pub find_obj-Found :
      {m : ℕ} {b : Bool} (key : K) (len : ℕ) (s : ArcState K C) (o : Obj K C)
      → StateOk same_key m b s
      → find_obj same_key key len s.objs ≡ some o
      → (o.dhashkey ≡ key)
        × (o.osize ≡ len)
        × (0 < len)
        × (len ≤ m)
        × (has_content o.content ≡ b)
        × (0 < occ same_key key len s.objs)
  find_obj-Found {m} {b} key len s o ok_s h =
      find_obj_lem same_key same_key_iff m b key len s.objs o ok_s.fits h

  pub place_of_lem :
      {m : ℕ} {cache : Arc K C} (key : K) (len : ℕ)
      → Core same_key ops_hash m none cache
      → ((place_of same_key cache key len ≡ none) × (occ_all same_key key len cache ≡ 0))
        ⊎ ((place : Place) × (o : Obj K C) × (place_of same_key cache key len ≡ some (place, o))
            × Found m key len cache place o)
  unfolding place_of
  place_of_lem {m} {cache} key len v =
      elim (Option-cases (find_obj same_key key len cache.mru.objs)) [
        | inr (o, h) ↦ inr (in_mru, o, ground arith, found in_mru o v.mru_ok h)
        | inl h1 ↦ elim (Option-cases (find_obj same_key key len cache.mfu.objs)) [
          | inr (o, h) ↦ inr (in_mfu, o, ground arith, found in_mfu o v.mfu_ok h)
          | inl h2 ↦ elim (Option-cases (find_obj same_key key len cache.mrug.objs)) [
            | inr (o, h) ↦ inr (in_mrug, o, ground arith, found in_mrug o v.mrug_ok h)
            | inl h3 ↦ elim (Option-cases (find_obj same_key key len cache.mfug.objs)) [
              | inr (o, h) ↦ inr (in_mfug, o, ground arith, found in_mfug o v.mfug_ok h)
              | inl h4 ↦ inl (
                ground arith,
                omega (
                  arith,
                  occ_of_find_obj same_key key len cache.mru.objs h1,
                  occ_of_find_obj same_key key len cache.mfu.objs h2,
                  occ_of_find_obj same_key key len cache.mrug.objs h3,
                  occ_of_find_obj same_key key len cache.mfug.objs h4,
                ),
              )
            ]
          ]
        ]
      ]
    where
      found :
          (place : Place) (o : Obj K C)
          → StateOk same_key m (is_resident place) (state_at place cache)
          → find_obj same_key key len (state_at place cache).objs ≡ some o
          → Found m key len cache place o
      found place o ok_s h =
          let (a, b, e, f, g, i) =
            find_obj_lem same_key same_key_iff m (is_resident place) key len
              (state_at place cache).objs o ok_s.fits h in
          record { same_hash = a; same_size = b; positive = e; bounded = f; loaded = g; stored = i }

  pub occ_all_at :
      {m : ℕ} {key : K} {len : ℕ} {cache : Arc K C} {place : Place} {o : Obj K C}
      → Found m key len cache place o
      → 0 < occ_all same_key key len cache
  occ_all_at {place = in_mru} f = omega (arith, f.stored)
  occ_all_at {place = in_mfu} f = omega (arith, f.stored)
  occ_all_at {place = in_mrug} f = omega (arith, f.stored)
  occ_all_at {place = in_mfug} f = omega (arith, f.stored)

  -- A search in a consistent cache returns; it finds an object exactly if the lists have one of the name.
  pub hash_lookup_lem :
      {m : ℕ} {cache : Arc K C} (key : K) (len : ℕ)
      → Core same_key ops_hash m none cache
      → ((hash_lookup same_key ops_hash cache key len ≡ ok none)
          × (place_of same_key cache key len ≡ none)
          × (occ_all same_key key len cache ≡ 0))
        ⊎ ((place : Place) × (o : Obj K C) × (hash_lookup same_key ops_hash cache key len
              ≡ ok (some (place, o)))
            × (place_of same_key cache key len ≡ some (place, o))
            × Found m key len cache place o)
  unfolding hash_lookup
  hash_lookup_lem {m} {cache} key len v =
      let d = v.directory key len in
      let ct =
        chained-times same_key key len (cache.bucket (slot_of same_key ops_hash cache key)) in
      elim (place_of_lem key len v) [
        | inl (h, z) ↦ inl (ground (arith, ct, d), h, z)
        | inr (place, o, h, f) ↦ inr (place, o, ground (arith, ct, d, occ_all_at f), h, f)
      ]

  -- `obj->state->size -= obj->size; __arc_list_remove(&obj->head)` of an object that is in the list.
  pub pull-StateOk :
      {m : ℕ} {b : Bool} (key : K) (len : ℕ) (s : ArcState K C)
      → StateOk same_key m b s
      → s.size < 2 ^ 40
      → 0 < occ same_key key len s.objs
      → StateOk same_key m b (pull same_key key len s)
        × ((pull same_key key len s).size + len ≡ s.size)
  unfolding pull
  pull-StateOk {m} {b} key len s ok_s small there =
      let t = total-unlink same_key same_key_iff key len s.objs there in
      (
        record {
          sized = omega (arith, t, ok_s.sized);
          fits = Fits-unlink same_key same_key_iff m b key len s.objs ok_s.fits;
        },
        omega (arith, t, ok_s.sized),
      )
