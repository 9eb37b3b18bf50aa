-- ===== src/Hashtab/Slot.antt =====
-- The slot that an operation of utils/uhashtab.c works on: what the invariant says of its chain, and
-- what replacing that chain does to the table.
use mathlib.Core.Logic.{ite, if_pos, if_neg}
use native.Mathlib.Decide.{ℕ_discrete}
use native.Mathlib.Nat.{zero-add}
use sim_replay.Prelude.{
  get_elem?-set_ne, length-set, sym, ℕ, zero, suc, ◌<◌, ◌≤◌, ◌≡◌, List, [], ◌∷◌, some, arith, refl,
  length, get_elem?, set, ◌∙◌, ok,
}
use sim_replay.Hashtab.Defs.{Sign, Chain, Hashtab, nodes, max_nodes, search}
use sim_replay.Hashtab.Order.{IsKeyCmp, assoc, Ordered}
use sim_replay.Hashtab.Chain.{chain_search-assoc}
use sim_replay.Hashtab.Table.{IsValid, lookup, Placed, Slots-at, Slots-set, assoc-nodes}

-- An index below the length of a list reads an element of it.
slot_exists {ℓ} :
    {A : Type ℓ} (xs : List A) (i : ℕ) → i < length xs → (x : A) × (get_elem? xs i ≡ some x)
slot_exists [] i h = absurd (omega arith)
slot_exists (x ∷ xs) zero h = (x, refl)
slot_exists (x ∷ xs) (suc i) h = slot_exists xs i (omega arith)

pub get_elem?-set_again {ℓ} :
    {A : Type ℓ} (xs : List A) (i : ℕ) (x v : A)
    → get_elem? xs i ≡ some x
    → get_elem? (set xs i v) i ≡ some v
get_elem?-set_again [] i x v h = absurd (ground arith)
get_elem?-set_again (y ∷ xs) zero x v h = refl
get_elem?-set_again (y ∷ xs) (suc i) x v h = get_elem?-set_again xs i x v h

-- The table with another chain in slot `i` and another count.
abbrev pub replaced {ℓ κ} :
    {K : Type ℓ} {V : Type κ} → Hashtab K V → ℕ → Chain K V → ℕ → Hashtab K V
replaced h i c' n = record h { htable = set h.htable i c'; nel = n }

module _ {ℓ κ} {K : Type ℓ} {V : Type κ} (keycmp : K → K → Sign) (hash_value : ℕ → K → ℕ)
    (laws : IsKeyCmp keycmp) where
  pub lookup_in_slot :
      {h : Hashtab K V} (key : K) {c : Chain K V}
      → IsValid keycmp hash_value h
      → get_elem? h.htable (hash_value h.size key) ≡ some c
      → lookup keycmp h key ≡ assoc keycmp key c
  unfolding lookup
  lookup_in_slot {h} key v g =
      assoc-nodes keycmp (hash_value h.size) laws key 0 (hash_value h.size key) h.htable v.slots
        (omega arith) g

  -- The chain that the operations work on, with what the invariant says of it.
  pub slot :
      {h : Hashtab K V} (key : K)
      → IsValid keycmp hash_value h
      → (c : Chain K V) × (get_elem? h.htable (hash_value h.size key) ≡ some c)
        × Ordered keycmp c
        × Placed keycmp (hash_value h.size) (hash_value h.size key) c
        × (lookup keycmp h key ≡ assoc keycmp key c)
  unfolding lookup
  slot {h} key v =
      let (c, g) =
        slot_exists h.htable (hash_value h.size key) (omega (arith, v.in_range key, v.sized)) in
      let (o, p) =
        Slots-at keycmp (hash_value h.size) 0 (hash_value h.size key) h.htable v.slots g in
      (c, g, o, rw zero-add at p, lookup_in_slot key v g)

  -- On a valid table `hashtab_search`, which looks at one slot and stops early, returns what a search
  -- through all nodes finds.
  pub search-lookup :
      {h : Hashtab K V} (key : K)
      → IsValid keycmp hash_value h
      → search keycmp hash_value (some h) key ≡ ok (lookup keycmp h key)
  unfolding search
  search-lookup {h} key v =
      let (c, g, o, p, e) = slot key v in ground (arith, chain_search-assoc keycmp laws key c o)

  -- Replacing the chain of a key's slot keeps the invariant.
  pub replaced-IsValid :
      {h : Hashtab K V} (key : K) (c' : Chain K V) (n : ℕ)
      → IsValid keycmp hash_value h
      → Ordered keycmp c'
      → Placed keycmp (hash_value h.size) (hash_value h.size key) c'
      → n ≡ length (nodes (set h.htable (hash_value h.size key) c'))
      → n ≤ max_nodes
      → IsValid keycmp hash_value (replaced h (hash_value h.size key) c' n)
  replaced-IsValid {h} key c' n v o p e b = record {
    in_range = v.in_range;
    sized = length-set h.htable (hash_value h.size key) c' ∙ v.sized;
    slots =
        Slots-set keycmp (hash_value h.size) 0 (hash_value h.size key) h.htable c' v.slots o
          (rw zero-add p);
    counted = e;
    bounded = b;
  }

  -- It changes what is stored under the keys of that slot alone.
  pub lookup-replaced :
      {h : Hashtab K V} (key j : K) (c' : Chain K V) (n : ℕ)
      → IsValid keycmp hash_value h
      → IsValid keycmp hash_value (replaced h (hash_value h.size key) c' n)
      → lookup keycmp (replaced h (hash_value h.size key) c' n) j
        ≡ ite
            (ℕ_discrete (hash_value h.size j) (hash_value h.size key))
            (assoc keycmp j c')
            (lookup keycmp h j)
  unfolding lookup
  lookup-replaced {h} key j c' n v w =
      let place = hash_value h.size in
      let new = set h.htable (place key) c' in
      let (c, g, _, _, _) = slot key v in
      let (cj, gj, _, _, ej) = slot j v in
      elim (ℕ_discrete (place j) (place key)) [
        | yes p ↦ rw (if_pos _ p) (
            assoc-nodes keycmp place laws j 0 (place key) new w.slots (omega arith)
              (get_elem?-set_again h.htable (place key) c c' g))
        | no p ↦ rw (if_neg _ p) (
            assoc-nodes keycmp place laws j 0 (place j) new w.slots (omega arith)
              (get_elem?-set_ne h.htable c' (λ e. p (sym e)) ∙ gj)
            ∙ sym ej)
      ]
