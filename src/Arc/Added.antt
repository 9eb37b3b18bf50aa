-- ===== src/Arc/Added.antt =====
-- `__arc_add` of ARC-cache/arc.c on a consistent cache.
use Prim.Native.Nat.{min}
use sim_replay.Prelude.{
  ℕ, ◌+◌, ◌-◌, ◌^◌, ◌≤◌, ◌<◌, ◌≡◌, ◌↔◌, ◌⊎◌, inl, inr, Option, none, some, Bool, true, false, arith,
  refl, sym, ◌∙◌, ok, Bool-cases, ltb,
}
use sim_replay.Arc.Defs.{
  Obj, ArcState, Arc, Place, in_mrug, in_mru, in_mfu, in_mfug, place_of, hash_lookup,
}
use sim_replay.Arc.Adapt.{Counters, step, count_hit, count_miss}
use sim_replay.Arc.Moves.{touch, add}
use sim_replay.Arc.Lists.{occ}
use sim_replay.Arc.Inv.{IsValid, StateOk}
use sim_replay.Arc.Pull.{Found, hash_lookup_lem, pull-StateOk}
use sim_replay.Arc.Target.{raised_p_lem, lowered_p_lem}
use sim_replay.Arc.Enter.{cached, cached_at_head, Entered}
use sim_replay.Arc.Ops.{Touched, touch-Touched, back_in-Entered, create_in-Entered}

module _ {K C : Type 0} (same_key : K → K → Bool) where
  -- The object that an `add` should leave under the name: the one that is resident already, or the new one.
  abbrev pub kept : Option (Obj K C) → K → C → ℕ → ℕ → Obj K C
  kept (some o) key content len ioblk = o
  kept none key content len ioblk = record {
    dhashkey = key;
    osize = len;
    ioblk_id = ioblk;
    content = some content;
  }

  abbrev pub counted : Option (Obj K C) → Bool → Bool → Counters → Counters
  counted (some o) warmup updatehits n =
      count_hit warmup updatehits
        (record n { already_had_flag = true; already_had_ioblk_id = o.ioblk_id })
  counted none warmup updatehits n = count_miss warmup updatehits n

  -- The target size after an `add`.
  unfoldable pub target : Arc K C → K → ℕ → ℕ
  unfolding place_of
  target cache key len = elim (place_of same_key cache key len) [
    | none ↦ cache.p
    | some (place, _) ↦ elim place [
      | in_mru ↦ cache.p
      | in_mfu ↦ cache.p
      | in_mrug ↦ min cache.c (cache.p + step cache.mfug.size cache.mrug.size)
      | in_mfug ↦ cache.p - step cache.mrug.size cache.mfug.size
    ]
  ]

module _ {K C : Type 0} (same_key : K → K → Bool) (ops_hash : K → ℕ)
    (same_key_iff : (a b : K) → (same_key a b ≡ true) ↔ (a ≡ b)) where
  pub record Added (m : ℕ) (n : Counters) (warmup updatehits : Bool) (key : K) (content : C)
      (len ioblk : ℕ) (cache next : Arc K C) : Type 0 where
    pub done :
        add same_key ops_hash cache n warmup updatehits true key content len ioblk
        ≡ ok (next, counted same_key (cached same_key cache key len) warmup updatehits n, true)
    pub valid : IsValid same_key ops_hash m next
    pub holds :
        cached same_key next key len
        ≡ some (kept same_key (cached same_key cache key len) key content len ioblk)
    pub same_c : next.c ≡ cache.c
    pub new_p : next.p ≡ target same_key cache key len
    pub load :
        (next.mru.size + next.mfu.size ≤ next.c)
        ⊎ ((next.mru.size + next.mfu.size ≡ cache.mru.size + cache.mfu.size)
            ⊎ (next.c < next.p + len))

  -- What holds after `__arc_move` into a resident list, by decision.
  load_of :
      {m : ℕ} {frequent : Bool} {o : Obj K C} {cache next : Arc K C}
      → Entered same_key ops_hash same_key_iff m frequent o cache next
      → (next.mru.size + next.mfu.size ≤ next.c) ⊎ (next.c < next.p + o.osize)
  load_of {o = o} {next = next} e = elim (Bool-cases (ltb next.c (next.p + o.osize))) [
    | inl over ↦ inr (ground arith)
    | inr fits ↦ inl (e.within (ground arith))
  ]

  ghost_nonempty :
      {m : ℕ} (key : K) (len : ℕ) (s : ArcState K C)
      → StateOk same_key m false s
      → s.size < 2 ^ 40
      → 0 < len
      → 0 < occ same_key key len s.objs
      → 0 < s.size
  ghost_nonempty key len s ok_s small pos there =
      let (w, e) = pull-StateOk same_key ops_hash same_key_iff key len s ok_s small there in
      omega (arith, e)

  -- An object that was resident is at the head of the MFU list.
  Touched-Added :
      {m : ℕ} {n : Counters} {warmup updatehits : Bool} {key : K} {content : C} {len ioblk : ℕ}
      {o : Obj K C} {cache next : Arc K C}
      → Touched same_key ops_hash same_key_iff m o cache next
      → o.dhashkey ≡ key
      → o.osize ≡ len
      → cached same_key cache key len ≡ some o
      → target same_key cache key len ≡ cache.p
      → add same_key ops_hash cache n warmup updatehits true key content len ioblk
        ≡ ok (next, counted same_key (some o) warmup updatehits n, true)
      → Added m n warmup updatehits key content len ioblk cache next
  Touched-Added {o = o} t same_hash same_size was p_stays done =
      let c = cached_at_head same_key ops_hash same_key_iff true o t.rest t.valid.core t.at_head in
      record {
        done = ground (arith, done, was);
        valid = t.valid;
        holds = ground (arith, c, same_hash, same_size, was);
        same_c = t.same_c;
        new_p = t.same_p ∙ sym p_stays;
        load = inr (inl t.same_load);
      }

  -- An object that was not resident is at the head of a resident list.
  Entered-Added :
      {m : ℕ} {n : Counters} {warmup updatehits : Bool} {key : K} {content : C} {len ioblk : ℕ}
      {frequent : Bool} {o : Obj K C} {cache moved next : Arc K C}
      → Entered same_key ops_hash same_key_iff m frequent o moved next
      → o ≡ kept same_key none key content len ioblk
      → cached same_key cache key len ≡ none
      → moved.c ≡ cache.c
      → moved.p ≡ target same_key cache key len
      → add same_key ops_hash cache n warmup updatehits true key content len ioblk
        ≡ ok (next, counted {C = C} same_key none warmup updatehits n, true)
      → Added m n warmup updatehits key content len ioblk cache next
  Entered-Added {frequent = frequent} {o = o} w new was same_c new_p done =
      let c =
        cached_at_head same_key ops_hash same_key_iff frequent o w.rest w.valid.core w.at_head in
      record {
        done = ground (arith, done, was);
        valid = w.valid;
        holds = ground (arith, c, new, was);
        same_c = w.same_c ∙ same_c;
        new_p = w.same_p ∙ new_p;
        load = ground (arith, load_of w, new);
      }

  add_known :
      {m : ℕ} {cache : Arc K C} {n : Counters} {warmup updatehits : Bool} {key : K} {content : C}
      {len ioblk : ℕ} (place : Place) (o : Obj K C)
      → IsValid same_key ops_hash m cache
      → hash_lookup same_key ops_hash cache key len ≡ ok (some (place, o))
      → place_of same_key cache key len ≡ some (place, o)
      → Found same_key ops_hash same_key_iff m key len cache place o
      → (next : Arc K C) × Added m n warmup updatehits key content len ioblk cache next
  unfolding add cached target
  add_known {cache = cache} in_mru o v h e f =
      let t = touch-Touched same_key ops_hash same_key_iff in_mru o v refl f in
      (
        touch same_key ops_hash in_mru o cache,
        Touched-Added t f.same_hash f.same_size (ground arith) (ground arith) (ground arith),
      )
  add_known {cache = cache} in_mfu o v h e f =
      let t = touch-Touched same_key ops_hash same_key_iff in_mfu o v refl f in
      (
        touch same_key ops_hash in_mfu o cache,
        Touched-Added t f.same_hash f.same_size (ground arith) (ground arith) (ground arith),
      )
  add_known {cache = cache} {key = key} {content = content} {len = len} {ioblk = ioblk} in_mrug o v
        h e f =
      let nonempty =
        ghost_nonempty key len cache.mrug v.core.mrug_ok (omega (arith, v.core.room)) f.positive
          f.stored in
      let aimed =
        raised_p_lem cache.c cache.p cache.mfug.size cache.mrug.size v.core.p_le v.core.c_small
          (omega (arith, v.core.room)) nonempty in
      let (next, done, w) =
        back_in-Entered same_key ops_hash same_key_iff in_mrug o
          (min cache.c (cache.p + step cache.mfug.size cache.mrug.size)) content ioblk v refl
          (omega arith) f in
      (
        next,
        Entered-Added w (ground (arith, f.same_hash, f.same_size)) (ground arith) refl
            (ground arith) (ground (arith, done, aimed)),
      )
  add_known {cache = cache} {key = key} {content = content} {len = len} {ioblk = ioblk} in_mfug o v
        h e f =
      let nonempty =
        ghost_nonempty key len cache.mfug v.core.mfug_ok (omega (arith, v.core.room)) f.positive
          f.stored in
      let aimed =
        lowered_p_lem cache.p cache.mrug.size cache.mfug.size
          (omega (arith, v.core.p_le, v.core.c_small))
          (omega (arith, v.ghost_bound, v.core.c_small)) nonempty in
      let (next, done, w) =
        back_in-Entered same_key ops_hash same_key_iff in_mfug o
          (cache.p - step cache.mrug.size cache.mfug.size) content ioblk v refl
          (omega (arith, v.core.p_le)) f in
      (
        next,
        Entered-Added w (ground (arith, f.same_hash, f.same_size)) (ground arith) refl
            (ground arith) (ground (arith, done, aimed)),
      )

  -- `__arc_add` of an object of a size from 1 to `m` returns, and `Added` holds of its result.
  pub add-Added :
      {m : ℕ} {cache : Arc K C} (n : Counters) (warmup updatehits : Bool) (key : K) (content : C)
      (len ioblk : ℕ)
      → IsValid same_key ops_hash m cache
      → 0 < len
      → len ≤ m
      → (next : Arc K C) × Added m n warmup updatehits key content len ioblk cache next
  unfolding add cached target
  add-Added {cache = cache} n warmup updatehits key content len ioblk v pos le =
      elim (hash_lookup_lem same_key ops_hash same_key_iff key len v.core) [
        | inl (h, e, z) ↦
            let (next, done, w) =
              create_in-Entered same_key ops_hash same_key_iff key content len ioblk v z pos le in
            (next, Entered-Added w refl (ground arith) refl (ground arith) (ground (arith, done)))
        | inr (place, o, h, e, f) ↦ add_known place o v h e f
      ]
