-- ===== src/Hashtab/Table.antt =====
-- A whole table of utils/uhashtab.c: its representation invariant, and the association list that it
-- stands for.
use mathlib.Core.Option.{some-injective}
use mathlib.Core.Path.{subst}
use native.Mathlib.Nat.{add-zero}
use sim_replay.Prelude.{
  ap, ℕ, suc, zero, ◌+◌, ◌<◌, ◌≤◌, ◌≡◌, ◌≢◌, List, [], ◌∷◌, Option, none, some, arith, refl, length,
  length-append, get_elem?, set, inl, inr, ◌∙◌, Option-cases, Result-cases, ok,
}
use sim_replay.Hashtab.Defs.{
  Sign, Chain, Hashtab, nodes, max_nodes, chain_insert, chain_remove, chain_update,
}
use sim_replay.Hashtab.Order.{IsKeyCmp, assoc, Ordered, assoc-append, assoc-append_absent}

module _ {ℓ κ} {K : Type ℓ} {V : Type κ} (keycmp : K → K → Sign) (place : K → ℕ) where
  -- Every key of the chain hashes to slot `i`.
  abbrev pub Placed : ℕ → Chain K V → Type 0
  Placed i [] = Unit
  Placed i ((k, _) ∷ rest) = (place k ≡ i) × Placed i rest

  -- The slots from number `i` on: each is ordered, and holds only keys of its own.
  abbrev pub Slots : ℕ → List (Chain K V) → Type 0
  Slots i [] = Unit
  Slots i (c ∷ cs) = Ordered keycmp c × Placed i c × Slots (suc i) cs

  module _ (laws : IsKeyCmp keycmp) where
    open laws use {same_iff}

    assoc_elsewhere :
        (key : K) (i : ℕ) (c : Chain K V) → Placed i c → place key ≢ i → assoc keycmp key c ≡ none
    unfolding assoc
    assoc_elsewhere key i [] p h = refl
    assoc_elsewhere key i ((k, d) ∷ rest) p h =
        ground (arith, same_iff key k, assoc_elsewhere key i rest p.1 h)

    assoc_later :
        (key : K) (i : ℕ) (cs : List (Chain K V))
        → Slots i cs
        → place key < i
        → assoc keycmp key (nodes cs) ≡ none
    unfolding nodes assoc
    assoc_later key i [] s h = refl
    assoc_later key i (c ∷ cs) s h =
        assoc-append keycmp key c (nodes cs) (assoc_elsewhere key i c s.1 (omega arith))
        ∙ assoc_later key (suc i) cs s.2 (omega arith)

    -- A key is in the table exactly as it is in its own slot.
    pub assoc-nodes :
        (key : K) (i j : ℕ) (cs : List (Chain K V)) {c : Chain K V}
        → Slots i cs
        → place key ≡ i + j
        → get_elem? cs j ≡ some c
        → assoc keycmp key (nodes cs) ≡ assoc keycmp key c
    unfolding nodes
    assoc-nodes key i j [] s e g = absurd (ground arith)
    assoc-nodes key i zero (c ∷ cs) s e g =
        assoc-append_absent keycmp key c (nodes cs) (assoc_later key (suc i) cs s.2 (omega arith))
        ∙ ground arith
    assoc-nodes key i (suc j) (c ∷ cs) s e g =
        assoc-append keycmp key c (nodes cs) (assoc_elsewhere key i c s.1 (omega arith))
        ∙ assoc-nodes key (suc i) j cs s.2 (omega arith) g

  pub Slots-at :
      (i j : ℕ) (cs : List (Chain K V)) {c : Chain K V}
      → Slots i cs
      → get_elem? cs j ≡ some c
      → Ordered keycmp c × Placed (i + j) c
  Slots-at i j [] s g = absurd (ground arith)
  Slots-at i zero (c ∷ cs) {c = c'} s g =
      let e : c ≡ c' = ground arith in
      subst (λ x. Ordered keycmp x × Placed (i + 0) x) e (s.0, rw add-zero s.1)
  Slots-at i (suc j) (c ∷ cs) s g =
      let e : i + suc j ≡ suc i + j = omega arith in rw e (Slots-at (suc i) j cs s.2 g)

  pub Slots-set :
      (i j : ℕ) (cs : List (Chain K V)) (c : Chain K V)
      → Slots i cs
      → Ordered keycmp c
      → Placed (i + j) c
      → Slots i (set cs j c)
  Slots-set i j [] c s o p = tt
  Slots-set i zero (c' ∷ cs) c s o p = (o, rw add-zero at p, s.2)
  Slots-set i (suc j) (c' ∷ cs) c s o p =
      let e : i + suc j ≡ suc i + j = omega arith in
      (s.0, s.1, Slots-set (suc i) j cs c s.2 o (rw e at p))

pub length-nodes-set {ℓ κ} :
    {K : Type ℓ} {V : Type κ} (cs : List (Chain K V)) (j : ℕ) (c c' : Chain K V)
    → get_elem? cs j ≡ some c
    → length (nodes (set cs j c')) + length c ≡ length (nodes cs) + length c'
unfolding nodes
length-nodes-set [] j c c' g = absurd (ground arith)
length-nodes-set (x ∷ cs) zero c c' g = omega (
  arith,
  length-append c' (nodes cs),
  length-append x (nodes cs),
  ap length (some-injective x c g),
)
length-nodes-set (x ∷ cs) (suc j) c c' g = omega (
  arith,
  length-append x (nodes (set cs j c')),
  length-append x (nodes cs),
  length-nodes-set cs j c c' g,
)

-- The representation invariant. The hash callback stays inside the table.
pub record IsValid {ℓ κ} {K : Type ℓ} {V : Type κ} (keycmp : K → K → Sign) (hash_value : ℕ → K → ℕ)
    (h : Hashtab K V) : Type (ℓ ⊔ κ) where
  pub in_range : (k : K) → hash_value h.size k < h.size
  pub sized : length h.htable ≡ h.size
  pub slots : Slots keycmp (hash_value h.size) 0 h.htable
  pub counted : h.nel ≡ length (nodes h.htable)
  pub bounded : h.nel ≤ max_nodes

-- The abstract view: what the table stores under a key.
unfoldable pub lookup {ℓ κ} :
    {K : Type ℓ} {V : Type κ} → (K → K → Sign) → Hashtab K V → K → Option V
lookup keycmp h key = assoc keycmp key (nodes h.htable)

module _ {ℓ κ} {K : Type ℓ} {V : Type κ} (place : K → ℕ) (keycmp : K → K → Sign) where
  pub Placed-chain_insert :
      (i : ℕ) (key : K) (datum : V) (l l' : Chain K V)
      → place key ≡ i
      → Placed {V = V} keycmp place i l
      → chain_insert keycmp key datum l ≡ some l'
      → Placed {V = V} keycmp place i l'
  unfolding chain_insert
  Placed-chain_insert i key datum [] l' e p h = ground arith
  Placed-chain_insert i key datum ((k, d) ∷ rest) l' e p h =
      elim (Option-cases (chain_insert keycmp key datum rest)) [
        | inl n ↦ ground arith
        | inr (r, n) ↦ ground (arith, Placed-chain_insert i key datum rest r e p.1 n)
      ]

  pub Placed-chain_remove :
      (i : ℕ) (key : K) (l l' : Chain K V)
      → Placed {V = V} keycmp place i l
      → chain_remove keycmp key l ≡ ok l'
      → Placed {V = V} keycmp place i l'
  unfolding chain_remove
  Placed-chain_remove i key [] l' p h = ground arith
  Placed-chain_remove i key ((k, d) ∷ rest) l' p h =
      elim (Result-cases (chain_remove keycmp key rest)) [
        | inl (r, n) ↦ ground (arith, Placed-chain_remove i key rest r p.1 n)
        | inr n ↦ ground arith
      ]

  pub Placed-chain_update :
      (i : ℕ) (key : K) (datum : V) (l : Chain K V)
      → Placed {V = V} keycmp place i l
      → Placed {V = V} keycmp place i (chain_update keycmp key datum l)
  unfolding chain_update
  Placed-chain_update i key datum [] p = tt
  Placed-chain_update i key datum ((k, d) ∷ rest) p =
      ground (arith, Placed-chain_update i key datum rest p.1)
