-- ===== src/Arc/Ops.antt =====
-- `__arc_lookup` and `__arc_add` of ARC-cache/arc.c on a consistent cache.
use sim_replay.Prelude.{
  ℕ, ◌+◌, ◌≤◌, ◌<◌, ◌≡◌, ◌↔◌, inl, inr, none, some, Bool, true, false, arith, refl, ok, List, ◌∷◌,
  Option-cases, Bool-cases, if◌then◌else◌, ◌∙◌,
}
use sim_replay.Arc.Defs.{
  Obj, Arc, Place, in_mrug, in_mru, in_mfu, in_mfug, push, fetch, place_of, hash_lookup,
  hash_insert, slot_of, is_named,
}
use sim_replay.Arc.Moves.{touch, lookup, back_in, create_in}
use sim_replay.Arc.Lists.{occ, one, has_content, times, is_named_iff}
use sim_replay.Arc.Inv.{Core, IsValid, occ_all}
use sim_replay.Arc.Pull.{Found, is_resident, state_at, hash_lookup_lem}
use sim_replay.Arc.Hand.{pull_from-Pulled, put_back}
use sim_replay.Arc.Enter.{cached, cached_at_head, Entered, move_in-Entered}

module _ {K C : Type 0} (same_key : K → K → Bool) (ops_hash : K → ℕ)
    (same_key_iff : (a b : K) → (same_key a b ≡ true) ↔ (a ≡ b)) where
  -- What a hit leaves: `o` is at the head of the MFU list, and the resident lists hold as much as before.
  pub record Touched (m : ℕ) (o : Obj K C) (cache next : Arc K C) : Type 0 where
    pub valid : IsValid same_key ops_hash m next
    pub same_c : next.c ≡ cache.c
    pub same_p : next.p ≡ cache.p
    pub same_load : next.mru.size + next.mfu.size ≡ cache.mru.size + cache.mfu.size
    pub rest : List (Obj K C)
    pub at_head : next.mfu.objs ≡ o ∷ rest

  fetch_ghost :
      (o : Obj K C) (content : C) (ioblk : ℕ)
      → has_content o.content ≡ false
      → fetch o (some content) ioblk ≡ ok (record o { content = some content; ioblk_id = ioblk })
  unfolding fetch
  fetch_ghost o content ioblk h = elim (Option-cases o.content) [
    | inl e ↦ ground arith
    | inr (c, e) ↦ ground arith
  ]

  own_name :
      {m : ℕ} {cache : Arc K C} {key : K} {len : ℕ} {place : Place} {o : Obj K C}
      → Found same_key ops_hash same_key_iff m key len cache place o
      → Found same_key ops_hash same_key_iff m o.dhashkey o.osize cache place o
  own_name f = record {
    same_hash = refl;
    same_size = refl;
    positive = omega (arith, f.positive, f.same_size);
    bounded = omega (arith, f.bounded, f.same_size);
    loaded = f.loaded;
    stored = rw (f.same_hash, f.same_size) f.stored;
  }

  pub touch-Touched :
      {m : ℕ} {cache : Arc K C} {key : K} {len : ℕ} (place : Place) (o : Obj K C)
      → IsValid same_key ops_hash m cache
      → is_resident place ≡ true
      → Found same_key ops_hash same_key_iff m key len cache place o
      → Touched m o cache (touch same_key ops_hash place o cache)
  unfolding touch push
  touch-Touched {m} {cache} place o v res f =
      let g = own_name f in
      let w = pull_from-Pulled same_key ops_hash same_key_iff place v.core g in
      record {
        valid =
            put_back same_key ops_hash same_key_iff true o w.core g.positive g.bounded
              (g.loaded ∙ res) (ground (arith, w.resident_part, w.same_c, v.resident_bound, res))
              (ground (arith, w.ghost_part, w.same_c, v.ghost_bound));
        same_c = w.same_c;
        same_p = w.same_p;
        same_load = ground (arith, w.resident_part, res, v.core.room);
        rest = _;
        at_head = refl;
      }

  lookup_found :
      (cache : Arc K C) (key : K) (len : ℕ) (place : Place) (o : Obj K C)
      → hash_lookup same_key ops_hash cache key len ≡ ok (some (place, o))
      → place_of same_key cache key len ≡ some (place, o)
      → lookup same_key ops_hash cache key len
        ≡ ok (
          if is_resident place then touch same_key ops_hash place o cache else cache,
          cached same_key cache key len,
        )
  unfolding lookup cached
  lookup_found cache key len in_mru o h e = ground arith
  lookup_found cache key len in_mfu o h e = ground arith
  lookup_found cache key len in_mrug o h e = ground arith
  lookup_found cache key len in_mfug o h e = ground arith

  -- `__arc_lookup` in a consistent cache returns the resident object of the name, if there is one. The
  -- cache stays consistent, holds the same object under the name, and its limit, target and load are as
  -- before.
  pub lookup_lem :
      {m : ℕ} {cache : Arc K C} (key : K) (len : ℕ)
      → IsValid same_key ops_hash m cache
      → (next : Arc K C) × (lookup same_key ops_hash cache key len
          ≡ ok (next, cached same_key cache key len))
        × IsValid same_key ops_hash m next
        × (cached same_key next key len ≡ cached same_key cache key len)
        × (next.c ≡ cache.c)
        × (next.p ≡ cache.p)
        × (next.mru.size + next.mfu.size ≡ cache.mru.size + cache.mfu.size)
  unfolding lookup cached
  lookup_lem {m} {cache} key len v =
      elim (hash_lookup_lem same_key ops_hash same_key_iff key len v.core) [
        | inl (h, e, z) ↦ (cache, ground arith, v, refl, refl, refl, refl)
        | inr (place, o, h, e, f) ↦ elim (Bool-cases (is_resident place)) [
          | inl res ↦
              let t = touch-Touched place o v res f in
              let c =
                cached_at_head same_key ops_hash same_key_iff true o t.rest t.valid.core
                  t.at_head in
              (
                touch same_key ops_hash place o cache,
                ground (arith, lookup_found cache key len place o h e, res),
                t.valid,
                ground (arith, c, f.same_hash, f.same_size),
                t.same_c,
                t.same_p,
                t.same_load,
              )
          | inr res ↦ (
            cache,
            ground (arith, lookup_found cache key len place o h e, res),
            v,
            refl,
            refl,
            refl,
            refl,
          )
        ]
      ]

  retarget :
      {m : ℕ} {cache : Arc K C} (p' : ℕ)
      → IsValid same_key ops_hash m cache
      → p' ≤ cache.c
      → IsValid same_key ops_hash m (record cache { p = p' })
  retarget p' v low = record {
    core = record {
      mru_ok = v.core.mru_ok;
      mfu_ok = v.core.mfu_ok;
      mrug_ok = v.core.mrug_ok;
      mfug_ok = v.core.mfug_ok;
      c_small = v.core.c_small;
      m_small = v.core.m_small;
      p_le = low;
      room = v.core.room;
      directory = v.core.directory;
      once = v.core.once;
    };
    resident_bound = v.resident_bound;
    ghost_bound = v.ghost_bound;
  }

  retarget-Found :
      {m : ℕ} {cache : Arc K C} {key : K} {len : ℕ} (place : Place) {o : Obj K C} (p' : ℕ)
      → Found same_key ops_hash same_key_iff m key len cache place o
      → Found same_key ops_hash same_key_iff m key len (record cache { p = p' }) place o
  retarget-Found {cache = cache} {key = key} {len = len} place p' f = record {
    same_hash = f.same_hash;
    same_size = f.same_size;
    positive = f.positive;
    bounded = f.bounded;
    loaded = f.loaded;
    stored = go place f.stored;
  }
    where
      go :
          (place : Place)
          → 0 < occ same_key key len (state_at place cache).objs
          → 0 < occ same_key key len (state_at place (record cache { p = p' })).objs
      go in_mru h = h
      go in_mfu h = h
      go in_mrug h = h
      go in_mfug h = h

  -- `__arc_move` of an object of a ghost list to the MFU list, with the target `p'`.
  pub back_in-Entered :
      {m : ℕ} {cache : Arc K C} {key : K} {len : ℕ} (place : Place) (o : Obj K C) (p' : ℕ)
      (content : C) (ioblk : ℕ)
      → IsValid same_key ops_hash m cache
      → is_resident place ≡ false
      → p' ≤ cache.c
      → Found same_key ops_hash same_key_iff m key len cache place o
      → (next : Arc K C) × (back_in same_key ops_hash cache (some p') place o content ioblk
          ≡ ok next)
        × Entered same_key ops_hash same_key_iff m true
            (record o { content = some content; ioblk_id = ioblk })
            (record cache { p = p' })
            next
  unfolding back_in
  back_in-Entered {m} {cache} place o p' content ioblk v ghost low f =
      let g = retarget-Found place p' (own_name f) in
      let w = pull_from-Pulled same_key ops_hash same_key_iff place (retarget p' v low).core g in
      let (next, done, e) =
        move_in-Entered same_key ops_hash same_key_iff true o
          (record o { content = some content; ioblk_id = ioblk }) (some content) ioblk w.core
          g.positive g.bounded (ground (arith, w.resident_part, w.same_c, v.resident_bound, ghost))
          (fetch_ghost o content ioblk (g.loaded ∙ ghost)) refl refl in
      (
        next,
        done,
        record {
          valid = e.valid;
          same_c = e.same_c ∙ w.same_c;
          same_p = e.same_p ∙ w.same_p;
          rest = e.rest;
          at_head = e.at_head;
          within = e.within;
        },
      )

  times-hash_insert :
      (cache : Arc K C) (key k : K) (len n : ℕ)
      → times same_key k n
          ((hash_insert same_key ops_hash cache key len).bucket (slot_of same_key ops_hash cache k))
        ≡ times same_key k n (cache.bucket (slot_of same_key ops_hash cache k))
          + one (is_named same_key k n (key, len))
  unfolding hash_insert times
  times-hash_insert cache key k len n =
      ground (arith, is_named_iff same_key same_key_iff k key n len)

  -- The object of a name that no list has is chained, and so in hand.
  created :
      {m : ℕ} {cache : Arc K C} (key : K) (len : ℕ)
      → Core same_key ops_hash m none cache
      → occ_all same_key key len cache ≡ 0
      → Core same_key ops_hash m (some (key, len)) (hash_insert same_key ops_hash cache key len)
  unfolding hash_insert
  created {m} {cache} key len v z = record {
    mru_ok = v.mru_ok;
    mfu_ok = v.mfu_ok;
    mrug_ok = v.mrug_ok;
    mfug_ok = v.mfug_ok;
    c_small = v.c_small;
    m_small = v.m_small;
    p_le = v.p_le;
    room = v.room;
    directory = λ k n. omega (arith, times-hash_insert cache key k len n, v.directory k n);
    once = λ k n. ground (arith, v.once k n, is_named_iff same_key same_key_iff k key n len, z);
  }

  pub create_in-Entered :
      {m : ℕ} {cache : Arc K C} (key : K) (content : C) (len ioblk : ℕ)
      → IsValid same_key ops_hash m cache
      → occ_all same_key key len cache ≡ 0
      → 0 < len
      → len ≤ m
      → (next : Arc K C) × (create_in same_key ops_hash cache key content len ioblk ≡ ok next)
        × Entered same_key ops_hash same_key_iff m false
            (record { dhashkey = key; osize = len; ioblk_id = ioblk; content = some content })
            cache
            next
  unfolding create_in hash_insert fetch
  create_in-Entered {m} {cache} key content len ioblk v z pos le =
      let o : Obj K C = record {
        dhashkey = key;
        osize = len;
        ioblk_id = ioblk;
        content = some content;
      } in
      let (next, done, e) =
        move_in-Entered same_key ops_hash same_key_iff false o o none 0 (created key len v.core z)
          pos le v.resident_bound refl refl refl in
      (
        next,
        done,
        record {
          valid = e.valid;
          same_c = e.same_c;
          same_p = e.same_p;
          rest = e.rest;
          at_head = e.at_head;
          within = e.within;
        },
      )
