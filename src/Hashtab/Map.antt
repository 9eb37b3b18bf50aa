-- ===== src/Hashtab/Map.antt =====
-- `hashtab_map` of utils/uhashtab.c is one walk over the nodes, slot after slot.
use mathlib.Core.Path.{subst}
use sim_replay.Prelude.{
  ℕ, ◌≡◌, ◌≢◌, ◌⊎◌, [], ◌∷◌, some, arith, refl, if◌then◌else◌, inl, inr, Bool-cases, ◌==◌, sym,
  List, ◌++◌,
}
use sim_replay.Hashtab.Defs.{Chain, Hashtab, nodes, chain_map, table_map, hashtab_map}

module _ {ℓ κ σ} {K : Type ℓ} {V : Type κ} {S : Type σ} (apply : K → V → S → S × ℕ) where
  -- A walk over nodes that starts at `s` and ends with `r`: a node with status 0 is passed, and one with another
  -- status ends the walk, with what `apply` has made of the state there.
  unfoldable pub Walks : List (K × V) → S → S × ℕ → Type σ
  Walks [] s r = r ≡ (s, 0)
  Walks ((k, d) ∷ rest) s r =
      (((apply k d s).1 ≡ 0) × Walks rest (apply k d s).0 r)
      ⊎ (((apply k d s).1 ≢ 0) × (r ≡ apply k d s))

  chain_map-Walks : (xs : List (K × V)) (s : S) → Walks xs s (chain_map apply xs s)
  unfolding chain_map Walks
  chain_map-Walks [] s = refl
  chain_map-Walks ((k, d) ∷ rest) s = elim (Bool-cases ((apply k d s).1 == 0)) [
    | inl y ↦ inl (ground arith, rw (y, chain_map) (chain_map-Walks rest (apply k d s).0))
    | inr n ↦ inr (ground arith, rw (n, chain_map) refl)
  ]

  chain_map-append :
      (xs ys : List (K × V)) (s : S)
      → chain_map apply (xs ++ ys) s ≡ (
          if (chain_map apply xs s).1 == 0
          then chain_map apply ys (chain_map apply xs s).0
          else chain_map apply xs s)
  unfolding chain_map
  chain_map-append [] ys s = refl
  chain_map-append ((k, d) ∷ rest) ys s = ground (arith, chain_map-append rest ys (apply k d s).0)

  table_map-nodes :
      (cs : List (Chain K V)) (s : S) → table_map apply cs s ≡ chain_map apply (nodes cs) s
  unfolding table_map nodes chain_map
  table_map-nodes [] s = refl
  table_map-nodes (c ∷ cs) s =
      ground (arith, chain_map-append c (nodes cs) s, table_map-nodes cs (chain_map apply c s).0)

  -- `hashtab_map` on a table walks over all nodes, slot after slot: a node for which `apply` returns 0 is passed, and
  -- the first one for which it returns another status ends the walk with this status. What is returned after the
  -- last node is 0.
  pub hashtab_map-Walks :
      (h : Hashtab K V) (s : S) → Walks (nodes h.htable) s (hashtab_map apply (some h) s)
  unfolding hashtab_map
  hashtab_map-Walks h s =
      subst (Walks (nodes h.htable) s) (sym (table_map-nodes h.htable s))
        (chain_map-Walks (nodes h.htable) s)
