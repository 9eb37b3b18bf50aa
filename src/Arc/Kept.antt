-- ===== src/Arc/Kept.antt =====
-- `__arc_lookup` and `__arc_add` of ARC-cache/arc.c keep a predicate of every object.
use sim_replay.Prelude.{
  ℕ, ◌≡◌, ◌⊎◌, ◌↔◌, Option, none, some, Bool, true, false, ok, fault, arith, refl, inl, inr,
  Option-cases, Bool-cases,
}
use sim_replay.Arc.Defs.{
  Obj, Arc, Place, in_mru, in_mfu, in_mrug, in_mfug, evict, place_of, hash_insert, hash_lookup,
  fetch, chained, slot_of,
}
use sim_replay.Arc.Adapt.{Counters, raised_p, lowered_p}
use sim_replay.Arc.Moves.{lookup, back_in, create_in, add}
use sim_replay.Arc.Lists.{is_named_iff}
use sim_replay.Arc.Keeps.{Yields, Yields-bind, Keeps, pull_from-Keeps, place_of-Keeps}
use sim_replay.Arc.Retain.{move_in-Keeps, touch-Keeps}

module _ {K C : Type 0} (same_key : K → K → Bool) (ops_hash : K → ℕ) where
  -- The results of a search.
  hash_lookup-cases :
      (cache : Arc K C) (key : K) (len : ℕ)
      → (hash_lookup same_key ops_hash cache key len ≡ fault)
        ⊎ ((hash_lookup same_key ops_hash cache key len ≡ ok none)
            ⊎ ((place : Place) × (o : Obj K C) × (hash_lookup same_key ops_hash cache key len
                  ≡ ok (some (place, o)))
                × (place_of same_key cache key len ≡ some (place, o))))
  unfolding hash_lookup
  hash_lookup-cases cache key len =
      elim (Bool-cases
        (chained same_key key len (cache.bucket (slot_of same_key ops_hash cache key)))) [
          | inr e ↦ inr (inl (ground arith))
          | inl e ↦ elim (Option-cases (place_of same_key cache key len)) [
            | inl n ↦ inl (ground arith)
            | inr ((place, o), h) ↦ inr (inr (place, o, ground arith, h))
          ]
        ]

module _ {K C : Type 0} (same_key : K → K → Bool) (ops_hash : K → ℕ)
    (same_key_iff : (a b : K) → (same_key a b ≡ true) ↔ (a ≡ b)) (Q : Obj K C → Type 0)
    (evict_keeps : (o : Obj K C) → Q o → Q (evict o)) where
  lookup_found-Keeps :
      (place : Place) (o : Obj K C) (key : K) (len : ℕ) {cache : Arc K C}
      → hash_lookup same_key ops_hash cache key len ≡ ok (some (place, o))
      → Q o
      → Keeps Q cache
      → Yields (λ r. Keeps Q (r.0)) (lookup same_key ops_hash cache key len)
  unfolding lookup
  lookup_found-Keeps in_mru o key len h q k =
      rw (h, lookup) (touch-Keeps same_key ops_hash Q evict_keeps in_mru o q k)
  lookup_found-Keeps in_mfu o key len h q k =
      rw (h, lookup) (touch-Keeps same_key ops_hash Q evict_keeps in_mfu o q k)
  lookup_found-Keeps in_mrug o key len h q k = rw (h, lookup) k
  lookup_found-Keeps in_mfug o key len h q k = rw (h, lookup) k

  pub lookup-Keeps :
      (key : K) (len : ℕ) {cache : Arc K C}
      → Keeps Q cache
      → Yields (λ r. Keeps Q (r.0)) (lookup same_key ops_hash cache key len)
  unfolding lookup
  lookup-Keeps key len {cache} k = elim (hash_lookup-cases same_key ops_hash cache key len) [
    | inl h ↦ rw (h, lookup) tt
    | inr (inl h) ↦ rw (h, lookup) k
    | inr (inr (place, o, h, e)) ↦
        lookup_found-Keeps place o key len h ((place_of-Keeps Q same_key key len place o k e).0) k
  ]

  module _ (key : K) (content : C) (len ioblk : ℕ)
      (load : (o : Obj K C)
        → o.dhashkey ≡ key
        → Q (record o { content = some content; ioblk_id = ioblk })) where
    fetch-Keeps : (o : Obj K C) → o.dhashkey ≡ key → Yields Q (fetch o (some content) ioblk)
    unfolding fetch
    fetch-Keeps o e = elim (Option-cases o.content) [
      | inl n ↦ rw (n, fetch) (load o e)
      | inr (c, h) ↦ rw (h, fetch) tt
    ]

    back_in-Keeps :
        (p' : Option ℕ) (place : Place) (o : Obj K C) {cache : Arc K C}
        → o.dhashkey ≡ key
        → Keeps Q cache
        → Yields (Keeps Q) (back_in same_key ops_hash cache p' place o content ioblk)
    unfolding back_in
    back_in-Keeps none place o e k = tt
    back_in-Keeps (some p') place o {cache} e k =
        move_in-Keeps same_key ops_hash Q evict_keeps true o (some content) ioblk (fetch-Keeps o e)
          (pull_from-Keeps Q same_key place o.dhashkey o.osize
            (record { mru = k.mru; mfu = k.mfu; mrug = k.mrug; mfug = k.mfug }))

    create_in-Keeps :
        {cache : Arc K C}
        → Keeps Q cache
        → Yields (Keeps Q) (create_in same_key ops_hash cache key content len ioblk)
    unfolding create_in hash_insert fetch
    create_in-Keeps {cache} k =
        let o : Obj K C = record {
          dhashkey = key;
          osize = len;
          ioblk_id = ioblk;
          content = some content;
        } in
        move_in-Keeps same_key ops_hash Q evict_keeps false o none 0 (load o refl)
          (record { mru = k.mru; mfu = k.mfu; mrug = k.mrug; mfug = k.mfug })

    add_found-Keeps :
        (n : Counters) (warmup updatehits got_obj : Bool) (place : Place) (o : Obj K C)
        {cache : Arc K C}
        → hash_lookup same_key ops_hash cache key len ≡ ok (some (place, o))
        → Q o
        → o.dhashkey ≡ key
        → Keeps Q cache
        → Yields
            (λ r. Keeps Q (r.0))
            (add same_key ops_hash cache n warmup updatehits got_obj key content len ioblk)
    unfolding add
    add_found-Keeps n w u g in_mru o h q e k =
        rw (h, add) (touch-Keeps same_key ops_hash Q evict_keeps in_mru o q k)
    add_found-Keeps n w u g in_mfu o h q e k =
        rw (h, add) (touch-Keeps same_key ops_hash Q evict_keeps in_mfu o q k)
    add_found-Keeps n w u g in_mrug o {cache} h q e k =
        rw (h, add)
          (Yields-bind (Keeps Q) (λ r. Keeps Q (r.0)) _ _
            (back_in-Keeps (raised_p cache.c cache.p cache.mfug.size cache.mrug.size) in_mrug o e k)
            (λ next i. i))
    add_found-Keeps n w u g in_mfug o {cache} h q e k =
        rw (h, add)
          (Yields-bind (Keeps Q) (λ r. Keeps Q (r.0)) _ _
            (back_in-Keeps (lowered_p cache.p cache.mrug.size cache.mfug.size) in_mfug o e k)
            (λ next i. i))

    add_new-Keeps :
        (n : Counters) (warmup updatehits got_obj : Bool) {cache : Arc K C}
        → hash_lookup same_key ops_hash cache key len ≡ ok none
        → Keeps Q cache
        → Yields
            (λ r. Keeps Q (r.0))
            (add same_key ops_hash cache n warmup updatehits got_obj key content len ioblk)
    unfolding add
    add_new-Keeps n w u true h k =
        rw (h, add)
          (Yields-bind (Keeps Q) (λ r. Keeps Q (r.0)) _ _ (create_in-Keeps k) (λ next i. i))
    add_new-Keeps n w u false h k = rw (h, add) k

    pub add-Keeps :
        (n : Counters) (warmup updatehits got_obj : Bool) {cache : Arc K C}
        → Keeps Q cache
        → Yields
            (λ r. Keeps Q (r.0))
            (add same_key ops_hash cache n warmup updatehits got_obj key content len ioblk)
    unfolding add
    add-Keeps n w u g {cache} k = elim (hash_lookup-cases same_key ops_hash cache key len) [
      | inl h ↦ rw (h, add) tt
      | inr (inl h) ↦ add_new-Keeps n w u g h k
      | inr (inr (place, o, h, e)) ↦
          let (q, named) = place_of-Keeps Q same_key key len place o k e in
          let same : o.dhashkey ≡ key =
            ground (arith, is_named_iff same_key same_key_iff key o.dhashkey len o.osize) in
          add_found-Keeps n w u g place o h q same k
    ]
