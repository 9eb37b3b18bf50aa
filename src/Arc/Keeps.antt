-- ===== src/Arc/Keeps.antt =====
-- What the operations of ARC-cache/arc.c keep of every object: a predicate that eviction keeps, and that loading
-- gives, holds of every object after an operation if it held before.
use mathlib.Core.Path.{subst}
use sim_replay.Prelude.{
  ℕ, ◌≡◌, some, Bool, true, List, [], ◌∷◌, Result, ok, err, fault, ◌>>=◌, arith, inl, inr,
  Option-cases, Bool-cases,
}
use sim_replay.Arc.Defs.{
  Obj, ArcState, Arc, Place, in_mru, in_mfu, in_mrug, in_mfug, pop_lru, split_last, find_obj,
  unlink, is_named, pull, pull_from, place_of,
}

-- What holds of a result, if there is one.
abbrev pub Yields : {A : Type 0} → (A → Type 0) → Result A → Type 0
Yields P (ok a) = P a
Yields P (err e) = Unit
Yields P fault = Unit

pub Yields-bind :
    {A B : Type 0} (P : A → Type 0) (Q : B → Type 0) (r : Result A) (f : A → Result B)
    → Yields P r
    → ((a : A) → P a → Yields Q (f a))
    → Yields Q (r >>= f)
Yields-bind P Q (ok a) f h g = g a h
Yields-bind P Q (err e) f h g = tt
Yields-bind P Q fault f h g = tt

module _ {K C : Type 0} (Q : Obj K C → Type 0) where
  abbrev pub AllObjs : List (Obj K C) → Type 0
  AllObjs [] = Unit
  AllObjs (o ∷ rest) = Q o × AllObjs rest

  pub record Keeps (cache : Arc K C) : Type 0 where
    pub mru : AllObjs cache.mru.objs
    pub mfu : AllObjs cache.mfu.objs
    pub mrug : AllObjs cache.mrug.objs
    pub mfug : AllObjs cache.mfug.objs

  AllObjs-split_last :
      (o : Obj K C) (rest : List (Obj K C))
      → Q o
      → AllObjs rest
      → Q (split_last o rest).0 × AllObjs (split_last o rest).1
  unfolding split_last
  AllObjs-split_last o [] q all = (q, tt)
  AllObjs-split_last o (o' ∷ rest) q all =
      let (l, front) = AllObjs-split_last o' rest (all.0) (all.1) in (l, (q, front))

  pub pop_lru-AllObjs :
      (size : ℕ) (objs : List (Obj K C))
      → AllObjs objs
      → Yields (λ r. Q (r.0) × AllObjs (r.1).objs) (pop_lru (record { size = size; objs = objs }))
  unfolding pop_lru
  pop_lru-AllObjs size [] all = tt
  pop_lru-AllObjs size (o ∷ rest) all = AllObjs-split_last o rest (all.0) (all.1)

  module _ (same_key : K → K → Bool) where
    AllObjs-unlink :
        (key : K) (len : ℕ) (xs : List (Obj K C))
        → AllObjs xs
        → AllObjs (unlink same_key key len xs)
    unfolding unlink
    AllObjs-unlink key len [] all = tt
    AllObjs-unlink key len (o ∷ rest) all =
        let more = AllObjs-unlink key len rest (all.1) in
        elim (Bool-cases (is_named same_key key len (o.dhashkey, o.osize))) [
          | inl y ↦ rw (y) (all.1)
          | inr n ↦ rw (n) (all.0, more)
        ]

    -- An object that is kept, under its name.
    abbrev pub Named : K → ℕ → Obj K C → Type 0
    Named key len o = Q o × (is_named same_key key len (o.dhashkey, o.osize) ≡ true)

    find_obj-AllObjs :
        (key : K) (len : ℕ) (xs : List (Obj K C)) (o : Obj K C)
        → AllObjs xs
        → find_obj same_key key len xs ≡ some o
        → Named key len o
    unfolding find_obj
    find_obj-AllObjs key len [] o all h = absurd (ground arith)
    find_obj-AllObjs key len (x ∷ rest) o all h =
        elim (Bool-cases (is_named same_key key len (x.dhashkey, x.osize))) [
          | inl y ↦ let e : x ≡ o = ground arith in (subst Q e (all.0), ground (arith, y))
          | inr n ↦ find_obj-AllObjs key len rest o (all.1) (ground arith)
        ]

    pull-AllObjs :
        (key : K) (len : ℕ) (s : ArcState K C)
        → AllObjs s.objs
        → AllObjs (pull same_key key len s).objs
    unfolding pull
    pull-AllObjs key len s all = AllObjs-unlink key len s.objs all

    pub pull_from-Keeps :
        (place : Place) (key : K) (len : ℕ) {cache : Arc K C}
        → Keeps cache
        → Keeps (pull_from same_key place key len cache)
    unfolding pull_from
    pull_from-Keeps in_mru key len {cache} k = record {
      mru = pull-AllObjs key len cache.mru k.mru;
      mfu = k.mfu;
      mrug = k.mrug;
      mfug = k.mfug;
    }
    pull_from-Keeps in_mfu key len {cache} k = record {
      mru = k.mru;
      mfu = pull-AllObjs key len cache.mfu k.mfu;
      mrug = k.mrug;
      mfug = k.mfug;
    }
    pull_from-Keeps in_mrug key len {cache} k = record {
      mru = k.mru;
      mfu = k.mfu;
      mrug = pull-AllObjs key len cache.mrug k.mrug;
      mfug = k.mfug;
    }
    pull_from-Keeps in_mfug key len {cache} k = record {
      mru = k.mru;
      mfu = k.mfu;
      mrug = k.mrug;
      mfug = pull-AllObjs key len cache.mfug k.mfug;
    }

    pub place_of-Keeps :
        (key : K) (len : ℕ) (place : Place) (o : Obj K C) {cache : Arc K C}
        → Keeps cache
        → place_of same_key cache key len ≡ some (place, o)
        → Named key len o
    unfolding place_of
    place_of-Keeps key len place o {cache} k h =
        elim (Option-cases (find_obj same_key key len cache.mru.objs)) [
          | inr (x, e) ↦
              subst (Named key len) (ground arith)
                (find_obj-AllObjs key len cache.mru.objs x k.mru e)
          | inl e1 ↦ elim (Option-cases (find_obj same_key key len cache.mfu.objs)) [
            | inr (x, e) ↦
                subst (Named key len) (ground arith)
                  (find_obj-AllObjs key len cache.mfu.objs x k.mfu e)
            | inl e2 ↦ elim (Option-cases (find_obj same_key key len cache.mrug.objs)) [
              | inr (x, e) ↦
                  subst (Named key len) (ground arith)
                    (find_obj-AllObjs key len cache.mrug.objs x k.mrug e)
              | inl e3 ↦ elim (Option-cases (find_obj same_key key len cache.mfug.objs)) [
                | inr (x, e) ↦
                    subst (Named key len) (ground arith)
                      (find_obj-AllObjs key len cache.mfug.objs x k.mfug e)
                | inl e4 ↦ absurd (ground arith)
              ]
            ]
          ]
        ]
