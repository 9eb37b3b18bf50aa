-- ===== src/ContentDedup/Bag.antt =====
-- The bag of contents that the caches hold, as a list in any order: the description that the reference
-- counts are compared with.
use sim_replay.Prelude.{
  ℕ, ◌+◌, ◌-◌, ◌≤◌, ◌≡◌, ◌≢◌, List, [], ◌∷◌, Bool, true, arith, refl, length, ◌==◌, if◌then◌else◌,
  ◌↔◌,
}

module _ {K : Type 0} (same_key : K → K → Bool) where
  unfoldable pub count : K → List K → ℕ
  count k [] = 0
  count k (x ∷ xs) = (if same_key k x then 1 else 0) + count k xs

  -- One copy less.
  unfoldable pub erase : K → List K → List K
  erase k [] = []
  erase k (x ∷ xs) = let rest = erase k xs in if same_key k x then xs else x ∷ rest

  -- How many different keys there are.
  unfoldable pub distinct : List K → ℕ
  distinct [] = 0
  distinct (x ∷ xs) = (if count x xs == 0 then 1 else 0) + distinct xs

  pub count-le-length : (k : K) (xs : List K) → count k xs ≤ length xs
  unfolding count
  count-le-length k [] = omega arith
  count-le-length k (x ∷ xs) = ground (arith, count-le-length k xs)

  pub distinct-le-length : (xs : List K) → distinct xs ≤ length xs
  unfolding distinct
  distinct-le-length [] = omega arith
  distinct-le-length (x ∷ xs) = ground (arith, distinct-le-length xs)

  pub length-erase : (k : K) (xs : List K) → count k xs ≢ 0 → length (erase k xs) + 1 ≡ length xs
  unfolding count erase
  length-erase k [] h = absurd (h refl)
  length-erase k (x ∷ xs) h = ground (arith, length-erase k xs)

  module _ (same_key_iff : (a b : K) → (same_key a b ≡ true) ↔ (a ≡ b)) where
    pub count-erase :
        (k j : K) (xs : List K)
        → count k xs ≢ 0
        → count j (erase k xs) ≡ (if same_key j k then count k xs - 1 else count j xs)
    unfolding count erase
    count-erase k j [] h = absurd (h refl)
    count-erase k j (x ∷ xs) h =
        ground (arith, same_key_iff k x, same_key_iff j k, same_key_iff j x, count-erase k j xs)

    pub distinct-erase :
        (k : K) (xs : List K)
        → count k xs ≢ 0
        → distinct (erase k xs) + (if count k xs == 1 then 1 else 0) ≡ distinct xs
    unfolding count erase distinct
    distinct-erase k [] h = absurd (h refl)
    distinct-erase k (x ∷ xs) h = ground (
      arith,
      same_key_iff k x,
      same_key_iff x k,
      same_key_iff k k,
      distinct-erase k xs,
      count-erase k x xs,
    )
