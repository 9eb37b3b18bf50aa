-- ===== src/Hashtab/Ops.antt =====
-- `hashtab_insert`, `hashtab_remove` and a write in place on a valid table of utils/uhashtab.c, against
-- the association list that the table stands for: every status, and what is stored afterwards.
use mathlib.Core.Logic.{if_pos, if_neg}
use native.Mathlib.Decide.{ℕ_discrete}
use sim_replay.Prelude.{
  ℕ, ◌+◌, ◌<◌, ◌≡◌, ◌≢◌, Option, none, some, arith, refl, if◌then◌else◌, get_elem?, inl, inr, ◌∙◌,
  Option-cases, ok, true, inc32, dec32, ap, sym,
}
use sim_replay.Hashtab.Defs.{
  Sign, Chain, Hashtab, max_nodes, chain_insert, chain_update, insert, remove, update,
}
use sim_replay.Hashtab.Order.{IsKeyCmp, is_same, assoc}
use sim_replay.Hashtab.Chain.{
  chain_insert_refused, Ordered-chain_insert, assoc-chain_insert, length-chain_insert,
  chain_remove_present, Ordered-chain_remove, assoc-chain_remove, length-chain_remove,
  Ordered-chain_update, assoc-chain_update, length-chain_update,
}
use sim_replay.Hashtab.Table.{
  IsValid, lookup, length-nodes-set, Placed-chain_insert, Placed-chain_remove, Placed-chain_update,
}
use sim_replay.Hashtab.Slot.{lookup_in_slot, slot, replaced, replaced-IsValid, lookup-replaced}

module _ {ℓ κ} {K : Type ℓ} {V : Type κ} (keycmp : K → K → Sign) (hash_value : ℕ → K → ℕ)
    (laws : IsKeyCmp keycmp) where
  open laws use {same_iff}

  -- What is stored after an operation that gives `key` the datum `o`.
  abbrev pub Stores : Hashtab K V → Hashtab K V → K → Option V → Type (ℓ ⊔ κ)
  Stores h h' key o =
      (j : K) → lookup keycmp h' j ≡ (if is_same (keycmp j key) then o else lookup keycmp h j)

  chain-Stores :
      {h : Hashtab K V} (key : K) (c c' : Chain K V) (n : ℕ) (o : Option V)
      → IsValid keycmp hash_value h
      → IsValid keycmp hash_value (replaced h (hash_value h.size key) c' n)
      → get_elem? h.htable (hash_value h.size key) ≡ some c
      → ((j : K) → assoc keycmp j c' ≡ (if is_same (keycmp j key) then o else assoc keycmp j c))
      → Stores h (replaced h (hash_value h.size key) c' n) key o
  chain-Stores {h} key c c' n o v w g law j =
      elim (ℕ_discrete (hash_value h.size j) (hash_value h.size key)) [
        | yes p ↦
            lookup-replaced keycmp hash_value laws key j c' n v w
            ∙ if_pos (ℕ_discrete (hash_value h.size j) (hash_value h.size key)) p
                (assoc keycmp j c') (lookup keycmp h j)
            ∙ law j
            ∙ ap (λ x. if is_same (keycmp j key) then o else x)
                (sym (lookup_in_slot keycmp hash_value laws j v (rw p g)))
        | no p ↦
            let kept : lookup keycmp h j
                ≡ (if is_same (keycmp j key) then o else lookup keycmp h j) =
              ground (arith, same_iff j key) in
            lookup-replaced keycmp hash_value laws key j c' n v w
            ∙ if_neg (ℕ_discrete (hash_value h.size j) (hash_value h.size key)) p
                (assoc keycmp j c') (lookup keycmp h j)
            ∙ kept
      ]

  -- `hashtab_insert` of a new key into a valid table that is not full, with memory for the node, succeeds.
  -- The table stays valid and keeps its size, counts one more, and stores the datum under the key and what
  -- it did under every other.
  pub insert_new :
      {h : Hashtab K V} (key : K) (datum : V)
      → IsValid keycmp hash_value h
      → h.nel < max_nodes
      → lookup keycmp h key ≡ none
      → (h' : Hashtab K V) × (insert keycmp hash_value (some h) key datum true ≡ ok h')
        × IsValid keycmp hash_value h'
        × (h'.nel ≡ h.nel + 1)
        × (h'.size ≡ h.size)
        × Stores h h' key (some datum)
  unfolding insert
  insert_new {h} key datum v room absent =
      let (c, g, o, p, e) = slot keycmp hash_value laws key v in
      elim (Option-cases (chain_insert keycmp key datum c)) [
        | inl refused ↦
            absurd (chain_insert_refused keycmp laws key datum c o refused (sym e ∙ absent))
        | inr (c', linked) ↦
            let n = inc32 h.nel in
            let w : IsValid keycmp hash_value (replaced h (hash_value h.size key) c' n) =
              replaced-IsValid keycmp hash_value laws key c' n v
                (Ordered-chain_insert keycmp laws key datum c c' o linked)
                (Placed-chain_insert (hash_value h.size) keycmp (hash_value h.size key) key datum c
                  c' refl p linked)
                (omega (
                  arith,
                  v.counted,
                  length-nodes-set h.htable (hash_value h.size key) c c' g,
                  length-chain_insert keycmp laws key datum c c' linked,
                ))
                (omega arith) in
            (
              replaced h (hash_value h.size key) c' n,
              ground arith,
              w,
              omega arith,
              refl,
              chain-Stores key c c' n (some datum) v w g
                  (λ j. assoc-chain_insert keycmp laws key j datum c c' linked),
            )
      ]

  -- `hashtab_remove` of a stored key from a valid table that is not full succeeds. The table stays valid
  -- and keeps its size, counts one less, and stores nothing under the key and what it did under every
  -- other.
  pub remove_stored :
      {h : Hashtab K V} (key : K)
      → IsValid keycmp hash_value h
      → h.nel < max_nodes
      → lookup keycmp h key ≢ none
      → (h' : Hashtab K V) × (remove keycmp hash_value (some h) key ≡ ok h')
        × IsValid keycmp hash_value h'
        × (h.nel ≡ h'.nel + 1)
        × (h'.size ≡ h.size)
        × Stores h h' key none
  unfolding remove
  remove_stored {h} key v room present =
      let (c, g, o, p, e) = slot keycmp hash_value laws key v in
      let (c', cut) = chain_remove_present keycmp laws key c o (λ q. present (e ∙ q)) in
      let n = dec32 h.nel in
      let gone = length-chain_remove keycmp laws key c c' cut in
      let fits = length-nodes-set h.htable (hash_value h.size key) c c' g in
      let w : IsValid keycmp hash_value (replaced h (hash_value h.size key) c' n) =
        replaced-IsValid keycmp hash_value laws key c' n v
          (Ordered-chain_remove keycmp laws key c c' o cut)
          (Placed-chain_remove (hash_value h.size) keycmp (hash_value h.size key) key c c' p cut)
          (omega (arith, v.counted, gone, fits)) (omega (arith, v.counted, gone, fits)) in
      (
        replaced h (hash_value h.size key) c' n,
        ground arith,
        w,
        omega (arith, v.counted, gone, fits),
        refl,
        chain-Stores key c c' n none v w g (λ j. assoc-chain_remove keycmp laws key j c c' o cut),
      )

  -- On a valid table, a write through the pointer that a search for a stored key returned keeps the table
  -- valid with its size and count, and changes what is stored under that key alone.
  pub update_stored :
      {h : Hashtab K V} (key : K) (datum : V)
      → IsValid keycmp hash_value h
      → lookup keycmp h key ≢ none
      → let h' = update keycmp hash_value h key datum in
        IsValid keycmp hash_value h'
        × (h'.nel ≡ h.nel)
        × (h'.size ≡ h.size)
        × Stores h h' key (some datum)
  unfolding update
  update_stored {h} key datum v present =
      let (c, g, o, p, e) = slot keycmp hash_value laws key v in
      let c' = chain_update keycmp key datum c in
      let e' : update keycmp hash_value h key datum ≡ replaced h (hash_value h.size key) c' h.nel =
        ground arith in
      let w : IsValid keycmp hash_value (replaced h (hash_value h.size key) c' h.nel) =
        replaced-IsValid keycmp hash_value laws key c' h.nel v
          (Ordered-chain_update keycmp laws key datum c o)
          (Placed-chain_update (hash_value h.size) keycmp (hash_value h.size key) key datum c p)
          (omega (
            arith,
            v.counted,
            length-nodes-set h.htable (hash_value h.size key) c c' g,
            length-chain_update keycmp laws key datum c,
          ))
          v.bounded in
      rw e' (
        w,
        refl,
        refl,
        chain-Stores key c c' h.nel (some datum) v w g
            (λ j. assoc-chain_update keycmp laws key j datum c o (λ q. present (e ∙ q))),
      )
