-- ===== src/Arc/Defs.antt =====
-- ARC-cache/arc.h and the list and callback level of ARC-cache/arc.c. An object is named by its digest and
-- size, which is what the lookup compares, so the model has them in place of its address. A list
-- is head first: objects are prepended, and the last one is the least recently used.
use Prim.Native.Nat.{bit_and}
use sim_replay.Prelude.{
  ℕ, ◌+◌, ◌-◌, ◌%◌, ◌^◌, ◌/◌, List, [], ◌∷◌, Option, none, some, Bool, true, false, Result, ok,
  fault, ◌==◌, ◌&&◌, if◌then◌else◌,
}

abbrev pub add64 : ℕ → ℕ → ℕ
add64 a b = (a + b) % 2 ^ 64

abbrev pub sub64 : ℕ → ℕ → ℕ
sub64 a b = (a + 2 ^ 64 - b) % 2 ^ 64

-- `struct object` with its `struct __arc_object`; `content` is `none` for NULL.
pub record Obj (K C : Type 0) : Type 0 where
  pub dhashkey : K
  pub osize : ℕ
  pub ioblk_id : ℕ
  pub content : Option C

-- `struct __arc_state`
pub record ArcState (K C : Type 0) : Type 0 where
  pub size : ℕ
  pub objs : List (Obj K C)

-- `struct __arc`: the buckets hold the names of the objects that are chained in them.
pub record Arc (K C : Type 0) : Type 0 where
  pub hash_size : ℕ
  pub bucket : ℕ → List (K × ℕ)
  pub c : ℕ
  pub p : ℕ
  pub mrug : ArcState K C
  pub mru : ArcState K C
  pub mfu : ArcState K C
  pub mfug : ArcState K C

-- What `obj->state` points to.
pub data Place : Type 0 where
  in_mrug in_mru in_mfu in_mfug : Place

module _ {K C : Type 0} where
  -- `__arc_list_prepend(&obj->head, &state->head)` and `state->size += obj->size`
  unfoldable pub push : Obj K C → ArcState K C → ArcState K C
  push o s = record { size = add64 s.size o.osize; objs = o ∷ s.objs }

  unfoldable pub split_last : Obj K C → List (Obj K C) → Obj K C × List (Obj K C)
  split_last o [] = (o, [])
  split_last o (o' ∷ rest) = let (l, front) = split_last o' rest in (l, o ∷ front)

  -- `__arc_state_lru`, and the removal that follows it; on an empty list the pointer is no object.
  unfoldable pub pop_lru : ArcState K C → Result (Obj K C × ArcState K C)
  pop_lru s = elim s.objs [
    | [] ↦ fault
    | o ∷ rest ↦
        let (l, front) = split_last o rest in
        ok (l, record { size = sub64 s.size l.osize; objs = front })
  ]

  -- `__cop_evict`
  abbrev pub evict : Obj K C → Obj K C
  evict o = record o { content = none }

  -- `__cop_fetch`: both asserts on the contents; it returns 0 in all other cases. The mode is the one that
  -- `overwrite_in_contentcache` has asserted.
  unfoldable pub fetch : Obj K C → Option C → ℕ → Result (Obj K C)
  fetch o content ioblk = elim o.content [
    | none ↦ elim content [
      | none ↦ fault
      | some bytes ↦ ok (record o { content = some bytes; ioblk_id = ioblk })
    ]
    | some _ ↦ elim content [ none ↦ ok o | some _ ↦ fault ]
  ]

  -- `__arc_create`, with the hash table of `size` empty buckets.
  unfoldable pub create : ℕ → ℕ → Arc K C
  create size c = record {
    hash_size = size;
    bucket = λ _. [];
    c = c;
    p = c / 2;
    mrug = record { size = 0; objs = [] };
    mru = record { size = 0; objs = [] };
    mfu = record { size = 0; objs = [] };
    mfug = record { size = 0; objs = [] };
  }

module _ {K : Type 0} (same_key : K → K → Bool) where
  -- The test of `__arc_hash_lookup`: the digests compare as equal, and so do the sizes.
  unfoldable pub is_named : K → ℕ → K × ℕ → Bool
  is_named key len (k, n) = same_key key k && len == n

  unfoldable pub chained : K → ℕ → List (K × ℕ) → Bool
  unfolding is_named
  chained key len [] = false
  chained key len (e ∷ rest) = if is_named key len e then true else chained key len rest

  unfoldable pub unchain : K → ℕ → List (K × ℕ) → List (K × ℕ)
  unfolding is_named
  unchain key len [] = []
  unchain key len (e ∷ rest) =
      let kept = unchain key len rest in if is_named key len e then rest else e ∷ kept

module _ {K C : Type 0} (same_key : K → K → Bool) where
  -- The object with the name in a list.
  unfoldable pub find_obj : K → ℕ → List (Obj K C) → Option (Obj K C)
  unfolding is_named
  find_obj key len [] = none
  find_obj key len (o ∷ rest) =
      if is_named same_key key len (o.dhashkey, o.osize) then some o else find_obj key len rest

  -- `__arc_list_remove(&obj->head)`
  unfoldable pub unlink : K → ℕ → List (Obj K C) → List (Obj K C)
  unfolding is_named
  unlink key len [] = []
  unlink key len (o ∷ rest) =
      let kept = unlink key len rest in
      if is_named same_key key len (o.dhashkey, o.osize) then rest else o ∷ kept

  -- `obj->state->size -= obj->size; __arc_list_remove(&obj->head)`
  unfoldable pub pull : K → ℕ → ArcState K C → ArcState K C
  unfolding unlink
  pull key len s = record { size = sub64 s.size len; objs = unlink key len s.objs }

  -- The object and the list that it is in, by `obj->state`.
  unfoldable pub place_of : Arc K C → K → ℕ → Option (Place × Obj K C)
  unfolding find_obj
  place_of cache key len = elim (find_obj key len cache.mru.objs) [
    | some o ↦ some (in_mru, o)
    | none ↦ elim (find_obj key len cache.mfu.objs) [
      | some o ↦ some (in_mfu, o)
      | none ↦ elim (find_obj key len cache.mrug.objs) [
        | some o ↦ some (in_mrug, o)
        | none ↦ elim (find_obj key len cache.mfug.objs) [
          | some o ↦ some (in_mfug, o)
          | none ↦ none
        ]
      ]
    ]
  ]

  -- The first step of `__arc_move` for an object that is in a list.
  unfoldable pub pull_from : Place → K → ℕ → Arc K C → Arc K C
  unfolding pull
  pull_from in_mru key len cache = record cache { mru = pull key len cache.mru }
  pull_from in_mfu key len cache = record cache { mfu = pull key len cache.mfu }
  pull_from in_mrug key len cache = record cache { mrug = pull key len cache.mrug }
  pull_from in_mfug key len cache = record cache { mfug = pull key len cache.mfug }

module _ {K C : Type 0} (same_key : K → K → Bool) (ops_hash : K → ℕ) where
  abbrev pub slot_of : Arc K C → K → ℕ
  slot_of cache key = bit_and (ops_hash key) (cache.hash_size - 1)

  -- `__arc_hash_insert`
  unfoldable pub hash_insert : Arc K C → K → ℕ → Arc K C
  hash_insert cache key len = record cache {
    bucket = λ i. if i == slot_of cache key then (key, len) ∷ cache.bucket i else cache.bucket i;
  }

  -- `__arc_list_remove(&obj->hash)`
  unfoldable pub hash_remove : Arc K C → K → ℕ → Arc K C
  hash_remove cache key len = record cache {
    bucket = λ i.
        if i == slot_of cache key
        then unchain same_key key len (cache.bucket i)
        else cache.bucket i;
  }

  -- `__arc_hash_lookup`. A name that is chained but in no list has no object: `fault`.
  unfoldable pub hash_lookup : Arc K C → K → ℕ → Result (Option (Place × Obj K C))
  unfolding chained place_of
  hash_lookup cache key len =
      if chained same_key key len (cache.bucket (slot_of cache key))
      then elim (place_of same_key cache key len) [ none ↦ fault | some found ↦ ok (some found) ]
      else ok none
