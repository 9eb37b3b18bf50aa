-- ===== src/Lru/Uthash.antt =====
-- What LRU-cache/lru_cache.c relies on in uthash.h, a library: a table that is walked in the order of insertion.
use sim_replay.Prelude.{
  ℕ, ◌≡◌, ◌↔◌, List, [], ◌∷◌, ◌++◌, Option, none, some, Bool, true, if◌then◌else◌, length,
}

module _ {K V : Type 0} (same_key : K → K → Bool) where
  -- The first entry of a key.
  unfoldable pub assoc : K → List (K × V) → Option V
  assoc key [] = none
  assoc key ((k, v) ∷ rest) = if same_key key k then some v else assoc key rest

  -- The entries without the first one of a key.
  unfoldable pub without : K → List (K × V) → List (K × V)
  without key [] = []
  without key ((k, v) ∷ rest) =
      let kept = without key rest in if same_key key k then rest else (k, v) ∷ kept

-- The macros, and what the manual of the library says of them.
pub record Uthash (K V : Type 0) : Type 1 where
  pub Table : Type 0
  pub same_key : K → K → Bool
  pub same_key_iff : (a b : K) → (same_key a b ≡ true) ↔ (a ≡ b)
  pub hash_find_str : Table → K → Option V
  pub hash_delete : Table → K → Table
  pub hash_add_keyptr : Table → K → V → Table
  pub hash_count : Table → ℕ
  pub hash_iter : Table → List (K × V)
  pub find_iter : (t : Table) (k : K) → hash_find_str t k ≡ assoc same_key k (hash_iter t)
  pub count_iter : (t : Table) → hash_count t ≡ length (hash_iter t)
  pub iter_delete :
      (t : Table) (k : K) → hash_iter (hash_delete t k) ≡ without same_key k (hash_iter t)
  pub iter_add :
      (t : Table) (k : K) (v : V) → hash_iter (hash_add_keyptr t k v) ≡ hash_iter t ++ (k, v) ∷ []
