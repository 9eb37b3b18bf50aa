-- ===== src/Arc/Lists.antt =====
-- The lists and hash chains of ARC-cache/arc.c under removal: total sizes, how often a name occurs, and
-- what holds of every object.
use sim_replay.Prelude.{
  ℕ, ◌+◌, ◌≤◌, ◌<◌, ◌≡◌, ◌≢◌, ◌↔◌, List, [], ◌∷◌, Option, none, some, Bool, true, false, arith,
  refl, if◌then◌else◌, length, ltb,
}
use sim_replay.Arc.Defs.{Obj, is_named, chained, unchain, split_last, find_obj, unlink}

abbrev pub has_content : {C : Type 0} → Option C → Bool
has_content none = false
has_content (some _) = true

module _ {K C : Type 0} where
  -- The total size of a list, that `size` of its state should be.
  unfoldable pub total : List (Obj K C) → ℕ
  total [] = 0
  total (o ∷ rest) = o.osize + total rest

  -- Every object has a size from 1 to `m`, and content exactly if the list is a resident one.
  abbrev pub Fits : ℕ → Bool → List (Obj K C) → Type 0
  Fits m b [] = Unit
  Fits m b (o ∷ rest) = (0 < o.osize) × (o.osize ≤ m) × (has_content o.content ≡ b) × Fits m b rest

  pub total-split_last :
      (o : Obj K C) (rest : List (Obj K C))
      → total (split_last o rest).1 + (split_last o rest).0.osize ≡ o.osize + total rest
  unfolding total split_last
  total-split_last o [] = omega arith
  total-split_last o (o' ∷ rest) = omega (arith, total-split_last o' rest)

  pub length-split_last :
      (o : Obj K C) (rest : List (Obj K C)) → length (split_last o rest).1 ≡ length rest
  unfolding split_last
  length-split_last o [] = refl
  length-split_last o (o' ∷ rest) = omega (arith, length-split_last o' rest)

  pub Fits-split_last :
      (m : ℕ) (b : Bool) (o : Obj K C) (rest : List (Obj K C))
      → Fits m b (o ∷ rest)
      → Fits m b ((split_last o rest).0 ∷ (split_last o rest).1)
  unfolding split_last
  Fits-split_last m b o [] f = f
  Fits-split_last m b o (o' ∷ rest) f =
      let (x, y, z, w) = Fits-split_last m b o' rest f.3 in (x, y, z, (f.0, f.1, f.2, w))

abbrev pub one : Bool → ℕ
one b = if b then 1 else 0

module _ {K : Type 0} (same_key : K → K → Bool) where
  -- How often a name is chained in a bucket.
  unfoldable pub times : K → ℕ → List (K × ℕ) → ℕ
  times key len [] = 0
  times key len (e ∷ rest) = one (is_named same_key key len e) + times key len rest

  pub chained-times :
      (key : K) (len : ℕ) (b : List (K × ℕ)) → chained same_key key len b ≡ ltb 0 (times key len b)
  unfolding times chained
  chained-times key len [] = refl
  chained-times key len (e ∷ rest) = ground (arith, chained-times key len rest)

  module _ (same_key_iff : (a b : K) → (same_key a b ≡ true) ↔ (a ≡ b)) where
    pub is_named_iff :
        (key k : K) (len n : ℕ)
        → (is_named same_key key len (k, n) ≡ true) ↔ ((key ≡ k) × (len ≡ n))
    unfolding is_named
    is_named_iff key k len n = ground (arith, same_key_iff key k)

    pub named_self : (key : K) (len : ℕ) → one (is_named same_key key len (key, len)) ≡ 1
    named_self key len = ground (arith, is_named_iff key key len len)

    -- Taking one name out of a bucket counts that name once less, and no other.
    pub times-unchain :
        (key k : K) (len n : ℕ) (b : List (K × ℕ))
        → times key len b ≢ 0
        → times k n (unchain same_key key len b) + one (is_named same_key k n (key, len))
          ≡ times k n b
    unfolding times unchain
    times-unchain key k len n [] h = absurd (h refl)
    times-unchain key k len n ((key', len') ∷ rest) h = ground (
      arith,
      is_named_iff key key' len len',
      is_named_iff k key n len,
      is_named_iff k key' n len',
      times-unchain key k len n rest,
    )

module _ {K C : Type 0} (same_key : K → K → Bool) where
  -- How often a name occurs in a list.
  unfoldable pub occ : K → ℕ → List (Obj K C) → ℕ
  occ key len [] = 0
  occ key len (o ∷ rest) = one (is_named same_key key len (o.dhashkey, o.osize)) + occ key len rest

  pub occ-split_last :
      (key : K) (len : ℕ) (o : Obj K C) (rest : List (Obj K C))
      → occ key len (split_last o rest).1
          + one (
              is_named same_key key len
                ((split_last o rest).0.dhashkey, (split_last o rest).0.osize))
        ≡ one (is_named same_key key len (o.dhashkey, o.osize)) + occ key len rest
  unfolding occ split_last
  occ-split_last key len o [] = omega arith
  occ-split_last key len o (o' ∷ rest) = omega (arith, occ-split_last key len o' rest)

  pub occ_of_find_obj :
      (key : K) (len : ℕ) (xs : List (Obj K C))
      → find_obj same_key key len xs ≡ none
      → occ key len xs ≡ 0
  unfolding occ find_obj
  occ_of_find_obj key len [] h = refl
  occ_of_find_obj key len (o ∷ rest) h = ground (arith, occ_of_find_obj key len rest)

  module _ (same_key_iff : (a b : K) → (same_key a b ≡ true) ↔ (a ≡ b)) where
    -- What a search finds has the name, and fits the list.
    pub find_obj_lem :
        (m : ℕ) (b : Bool) (key : K) (len : ℕ) (xs : List (Obj K C)) (o : Obj K C)
        → Fits m b xs
        → find_obj same_key key len xs ≡ some o
        → (o.dhashkey ≡ key)
          × (o.osize ≡ len)
          × (0 < len)
          × (len ≤ m)
          × (has_content o.content ≡ b)
          × (0 < occ key len xs)
    unfolding occ find_obj
    find_obj_lem m b key len [] o f h = absurd (ground arith)
    find_obj_lem m b key len (x ∷ rest) o f h = ground (
      arith,
      is_named_iff same_key same_key_iff key x.dhashkey len x.osize,
      find_obj_lem m b key len rest o f.3,
    )

    pub total-unlink :
        (key : K) (len : ℕ) (xs : List (Obj K C))
        → 0 < occ key len xs
        → total (unlink same_key key len xs) + len ≡ total xs
    unfolding occ unlink total
    total-unlink key len [] h = absurd (omega arith)
    total-unlink key len (x ∷ rest) h = ground (
      arith,
      is_named_iff same_key same_key_iff key x.dhashkey len x.osize,
      total-unlink key len rest,
    )

    pub occ-unlink :
        (key k : K) (len n : ℕ) (xs : List (Obj K C))
        → 0 < occ key len xs
        → occ k n (unlink same_key key len xs) + one (is_named same_key k n (key, len)) ≡ occ k n xs
    unfolding occ unlink
    occ-unlink key k len n [] h = absurd (omega arith)
    occ-unlink key k len n (x ∷ rest) h = ground (
      arith,
      is_named_iff same_key same_key_iff key x.dhashkey len x.osize,
      is_named_iff same_key same_key_iff k key n len,
      is_named_iff same_key same_key_iff k x.dhashkey n x.osize,
      occ-unlink key k len n rest,
    )

    pub Fits-unlink :
        (m : ℕ) (b : Bool) (key : K) (len : ℕ) (xs : List (Obj K C))
        → Fits m b xs
        → Fits m b (unlink same_key key len xs)
    unfolding unlink
    Fits-unlink m b key len [] f = tt
    Fits-unlink m b key len (x ∷ rest) f = ground (arith, Fits-unlink m b key len rest f.3)
