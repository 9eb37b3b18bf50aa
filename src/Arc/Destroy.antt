-- ===== src/Arc/Destroy.antt =====
-- `__arc_destroy` of ARC-cache/arc.c.
use sim_replay.Prelude.{
  ℕ, zero, suc, ◌+◌, ◌≤◌, ◌<◌, ◌≡◌, ◌≢◌, ◌↔◌, ◌⊎◌, inl, inr, none, some, Bool, true, false, arith,
  refl, Result, ok, fault, ◌>>=◌, List, [], ◌∷◌, length,
}
use mathlib.Core.Path.{subst}
use sim_replay.Arc.Defs.{
  Arc, Obj, Place, in_mrug, in_mru, in_mfu, in_mfug, pull_from, pull, unlink, hash_remove, slot_of,
  chained,
}
use sim_replay.Arc.Lists.{occ, times, named_self, Fits, chained-times}
use sim_replay.Arc.Inv.{IsValid, Core, StateOk}
use sim_replay.Arc.Drops.{times-hash_remove}
use sim_replay.Arc.Pull.{Found, is_resident, state_at}
use sim_replay.Arc.Hand.{pull_from-Pulled}

module _ {K C : Type 0} (same_key : K → K → Bool) (ops_hash : K → ℕ) where
  -- A loop of `__arc_destroy`: `__arc_move(cache, obj, NULL, NULL, 0)` of the first object, until there is none.
  unfoldable pub drain : Place → ℕ → Arc K C → Result (Arc K C)
  drain place zero cache = fault
  drain place (suc fuel) cache = elim (state_at place cache).objs [
    | [] ↦ ok cache
    | o ∷ _ ↦ drain place fuel (
        hash_remove same_key ops_hash (pull_from same_key place o.dhashkey o.osize cache) o.dhashkey
          o.osize)
  ]

  abbrev pub drain_all : Place → Arc K C → Result (Arc K C)
  drain_all place cache = drain place (suc (length (state_at place cache).objs)) cache

  unfoldable pub destroy : Arc K C → Result (Arc K C)
  destroy cache = do
    no_mrug ← drain_all in_mrug cache
    no_mfug ← drain_all in_mfug no_mrug
    no_mru ← drain_all in_mru no_mfug
    drain_all in_mfu no_mru

module _ {K C : Type 0} (same_key : K → K → Bool) (ops_hash : K → ℕ)
    (same_key_iff : (a b : K) → (same_key a b ≡ true) ↔ (a ≡ b)) where
  length-unlink_le :
      (key : K) (len : ℕ) (xs : List (Obj K C)) → length (unlink same_key key len xs) ≤ length xs
  unfolding unlink
  length-unlink_le key len [] = omega arith
  length-unlink_le key len (o ∷ rest) = ground (arith, length-unlink_le key len rest)

  unlink_head :
      (o : Obj K C) (rest : List (Obj K C)) → unlink same_key o.dhashkey o.osize (o ∷ rest) ≡ rest
  unfolding unlink
  unlink_head o rest = ground (arith, named_self same_key same_key_iff o.dhashkey o.osize)

  -- No list of `next` is longer than in `cache`.
  abbrev pub NoLonger : Arc K C → Arc K C → Type 0
  NoLonger cache next =
      (length next.mru.objs ≤ length cache.mru.objs)
      × (length next.mfu.objs ≤ length cache.mfu.objs)
      × (length next.mrug.objs ≤ length cache.mrug.objs)
      × (length next.mfug.objs ≤ length cache.mfug.objs)

  pub record Drained (m : ℕ) (place : Place) (cache next : Arc K C) : Type 0 where
    pub core : Core same_key ops_hash m none next
    pub empty : length (state_at place next).objs ≡ 0
    pub no_longer : NoLonger cache next

  -- One round: the first object is in the list, and is gone after it.
  pub record Shorter (m : ℕ) (place : Place) (cache next : Arc K C) : Type 0 where
    pub core : Core same_key ops_hash m none next
    pub fewer : length (state_at place next).objs + 1 ≡ length (state_at place cache).objs
    pub no_longer : NoLonger cache next

  unchained :
      {m : ℕ} {key : K} {len : ℕ} {cache : Arc K C}
      → Core same_key ops_hash m (some (key, len)) cache
      → Core same_key ops_hash m none (hash_remove same_key ops_hash cache key len)
  unfolding hash_remove
  unchained {m} {key} {len} {cache} v =
      let there : times same_key key len (cache.bucket (slot_of same_key ops_hash cache key)) ≢ 0 =
        omega (arith, v.directory key len, named_self same_key same_key_iff key len) in
      let gone = λ (k : K) (n : ℕ).
        times-hash_remove same_key ops_hash same_key_iff cache key k len n there in
      record {
        mru_ok = v.mru_ok;
        mfu_ok = v.mfu_ok;
        mrug_ok = v.mrug_ok;
        mfug_ok = v.mfug_ok;
        c_small = v.c_small;
        m_small = v.m_small;
        p_le = v.p_le;
        room = v.room;
        directory = λ k n. omega (arith, v.directory k n, gone k n);
        once = λ k n. omega (arith, v.once k n);
      }

  lengths :
      (place : Place) (o : Obj K C) (rest : List (Obj K C)) (cache : Arc K C)
      → (state_at place cache).objs ≡ o ∷ rest
      → let next =
          hash_remove same_key ops_hash
            (pull_from same_key place o.dhashkey o.osize cache)
            o.dhashkey
            o.osize in
        (length (state_at place next).objs + 1 ≡ length (state_at place cache).objs)
        × NoLonger cache next
  unfolding hash_remove pull_from pull
  lengths in_mru o rest cache e = ground (arith, e, unlink_head o rest)
  lengths in_mfu o rest cache e = ground (arith, e, unlink_head o rest)
  lengths in_mrug o rest cache e = ground (arith, e, unlink_head o rest)
  lengths in_mfug o rest cache e = ground (arith, e, unlink_head o rest)

  at-StateOk :
      {m : ℕ} {cache : Arc K C} (place : Place)
      → Core same_key ops_hash m none cache
      → StateOk same_key m (is_resident place) (state_at place cache)
  at-StateOk in_mru v = v.mru_ok
  at-StateOk in_mfu v = v.mfu_ok
  at-StateOk in_mrug v = v.mrug_ok
  at-StateOk in_mfug v = v.mfug_ok

  head-Found :
      {m : ℕ} {cache : Arc K C} (place : Place) (o : Obj K C) (rest : List (Obj K C))
      → Core same_key ops_hash m none cache
      → (state_at place cache).objs ≡ o ∷ rest
      → Found same_key ops_hash same_key_iff m o.dhashkey o.osize cache place o
  unfolding occ
  head-Found {m} place o rest v e =
      let (pos, le, has, _) : Fits m (is_resident place) (o ∷ rest) =
        subst (λ xs. Fits m (is_resident place) xs) e (at-StateOk place v).fits in
      record {
        same_hash = refl;
        same_size = refl;
        positive = pos;
        bounded = le;
        loaded = has;
        stored = rw (e) omega (arith, named_self same_key same_key_iff o.dhashkey o.osize);
      }

  drain_step :
      {m : ℕ} {cache : Arc K C} (place : Place) (o : Obj K C) (rest : List (Obj K C))
      → Core same_key ops_hash m none cache
      → (state_at place cache).objs ≡ o ∷ rest
      → Shorter m place cache (
          hash_remove same_key ops_hash
            (pull_from same_key place o.dhashkey o.osize cache)
            o.dhashkey
            o.osize)
  drain_step {cache = cache} place o rest v e =
      let w =
        pull_from-Pulled same_key ops_hash same_key_iff place v (head-Found place o rest v e) in
      let (fewer, no_longer) = lengths place o rest cache e in
      record { core = unchained w.core; fewer = fewer; no_longer = no_longer }

  List-cases :
      (xs : List (Obj K C))
      → (xs ≡ []) ⊎ ((o : Obj K C) × (rest : List (Obj K C)) × (xs ≡ o ∷ rest))
  List-cases [] = inl refl
  List-cases (o ∷ rest) = inr (o, rest, refl)

  occ_of_empty : (k : K) (n : ℕ) (xs : List (Obj K C)) → length xs ≡ 0 → occ same_key k n xs ≡ 0
  unfolding occ
  occ_of_empty k n [] e = refl
  occ_of_empty k n (o ∷ rest) e = absurd (omega arith)

  pub drain-Drained :
      (place : Place) (fuel : ℕ) {m : ℕ} {cache : Arc K C}
      → Core same_key ops_hash m none cache
      → length (state_at place cache).objs < fuel
      → (next : Arc K C) × (drain same_key ops_hash place fuel cache ≡ ok next)
        × Drained m place cache next
  unfolding drain
  drain-Drained place zero {cache = cache} v enough = absurd (omega arith)
  drain-Drained place (suc fuel) {cache = cache} v enough =
      elim (List-cases (state_at place cache).objs) [
        | inl e ↦ (
          cache,
          ground arith,
          record { core = v; empty = ground arith; no_longer = ground arith },
        )
        | inr (o, rest, e) ↦
            let s = drain_step place o rest v e in
            let (next, done, d) = drain-Drained place fuel s.core (omega (arith, s.fewer)) in
            (
              next,
              ground (arith, done),
              record {
                core = d.core;
                empty = d.empty;
                no_longer = ground (arith, s.no_longer, d.no_longer);
              },
            )
      ]

  all_gone :
      {m : ℕ} {next : Arc K C}
      → Core same_key ops_hash m none next
      → length next.mru.objs + length next.mfu.objs + length next.mrug.objs + length next.mfug.objs
        ≡ 0
      → (key : K) (len : ℕ)
      → chained same_key key len (next.bucket (slot_of same_key ops_hash next key)) ≡ false
  all_gone {next = next} v e key len = ground (
    arith,
    chained-times same_key key len (next.bucket (slot_of same_key ops_hash next key)),
    v.directory key len,
    occ_of_empty key len next.mru.objs,
    occ_of_empty key len next.mfu.objs,
    occ_of_empty key len next.mrug.objs,
    occ_of_empty key len next.mfug.objs,
  )

  -- `__arc_destroy` of a consistent cache returns, with every list empty and no name chained in the bucket
  -- that it would be searched in.
  pub destroy_lem :
      {m : ℕ} {cache : Arc K C}
      → IsValid same_key ops_hash m cache
      → (next : Arc K C) × (destroy same_key ops_hash cache ≡ ok next)
        × (length next.mru.objs
              + length next.mfu.objs
              + length next.mrug.objs
              + length next.mfug.objs
            ≡ 0)
        × ((key : K) (len : ℕ)
            → chained same_key key len (next.bucket (slot_of same_key ops_hash next key)) ≡ false)
  unfolding destroy
  destroy_lem {cache = cache} v =
      let (a, done1, d1) =
        drain-Drained in_mrug (suc (length cache.mrug.objs)) v.core (omega arith) in
      let (b, done2, d2) = drain-Drained in_mfug (suc (length a.mfug.objs)) d1.core (omega arith) in
      let (c, done3, d3) = drain-Drained in_mru (suc (length b.mru.objs)) d2.core (omega arith) in
      let (d, done4, d4) = drain-Drained in_mfu (suc (length c.mfu.objs)) d3.core (omega arith) in
      let none_left : length d.mru.objs
            + length d.mfu.objs
            + length d.mrug.objs
            + length d.mfug.objs
          ≡ 0 =
        omega (
          arith, d1.empty, d2.empty, d3.empty, d4.empty, d2.no_longer, d3.no_longer, d4.no_longer,
        ) in
      (d, ground (arith, done1, done2, done3, done4), none_left, all_gone d4.core none_left)
