-- ===== src/Hashtab/Status.antt =====
-- What `hashtab_insert` and `hashtab_remove` of utils/uhashtab.c return when they change nothing, and that
-- removal undoes insertion exactly.
use mathlib.Core.Option.{some-injective}
use sim_replay.Prelude.{
  zero, suc, ℕ, ◌+◌, ◌<◌, ◌≡◌, ◌≢◌, ◌⊎◌, [], ◌∷◌, none, some, arith, refl, if◌then◌else◌, get_elem?,
  set, inl, inr, ◌∙◌, Option-cases, Bool-cases, Option, Errno, ok, err, fault, einval, eexist,
  enomem, enoent, true, false, Bool, ◌==◌, ap, sym, List,
}
use sim_replay.Hashtab.Defs.{
  Sign, Chain, Hashtab, max_nodes, chain_insert, chain_remove, insert, remove,
}
use sim_replay.Hashtab.Order.{IsKeyCmp, assoc, Ordered, AllMore, same_self, assoc_past}
use sim_replay.Hashtab.Chain.{chain_remove_off_end, chain_insert_refused}
use sim_replay.Hashtab.Table.{IsValid, lookup}
use sim_replay.Hashtab.Slot.{slot, get_elem?-set_again}

module _ {ℓ κ} {K : Type ℓ} {V : Type κ} (keycmp : K → K → Sign) (laws : IsKeyCmp keycmp) where
  open laws use {same_iff}

  chain_insert_stored :
      (key : K) (datum : V) (l : Chain K V)
      → Ordered keycmp l
      → assoc keycmp key l ≢ none
      → chain_insert keycmp key datum l ≡ none
  unfolding chain_insert assoc
  chain_insert_stored key datum [] o h = absurd (h refl)
  chain_insert_stored key datum ((k, d) ∷ rest) o h =
      ground (arith, assoc_past keycmp laws key k rest o.0, chain_insert_stored key datum rest o.1)

  chain_insert_absent :
      (key : K) (datum : V) (l : Chain K V)
      → Ordered keycmp l
      → assoc keycmp key l ≡ none
      → (l' : Chain K V) × (chain_insert keycmp key datum l ≡ some l')
  unfolding chain_insert assoc
  chain_insert_absent key datum l o h = elim (Option-cases (chain_insert keycmp key datum l)) [
    | inl e ↦ absurd (chain_insert_refused keycmp laws key datum l o e h)
    | inr (l', e) ↦ (l', e)
  ]

  chain_remove-chain_insert :
      (key : K) (datum : V) (l l' : Chain K V)
      → chain_insert keycmp key datum l ≡ some l'
      → chain_remove keycmp key l' ≡ ok l
  unfolding chain_insert chain_remove
  chain_remove-chain_insert key datum [] l' h = ground (arith, same_self keycmp laws key)
  chain_remove-chain_insert key datum ((k, d) ∷ rest) l' h =
      elim (Option-cases (chain_insert keycmp key datum rest)) [
        | inl e ↦ ground (arith, same_self keycmp laws key)
        | inr (r, e) ↦
            ground (arith, same_self keycmp laws key, chain_remove-chain_insert key datum rest r e)
      ]

  chain_remove_absent :
      (key : K) (l : Chain K V)
      → assoc keycmp key l ≡ none
      → (chain_remove keycmp key l ≡ err enoent) ⊎ (chain_remove keycmp key l ≡ fault)
  unfolding chain_remove assoc
  chain_remove_absent key [] h = inr refl
  chain_remove_absent key ((k, d) ∷ rest) h = ground (arith, chain_remove_absent key rest)

set_twice {ℓ} :
    {A : Type ℓ} (xs : List A) (i : ℕ) (x y : A)
    → get_elem? xs i ≡ some x
    → set (set xs i y) i x ≡ xs
set_twice [] i x y h = refl
set_twice (z ∷ xs) zero x y h = ap (λ w. w ∷ xs) (sym (some-injective z x h))
set_twice (z ∷ xs) (suc i) x y h = ap (◌∷◌ z) (set_twice xs i x y h)

module _ {ℓ κ} {K : Type ℓ} {V : Type κ} (keycmp : K → K → Sign) (hash_value : ℕ → K → ℕ)
    (laws : IsKeyCmp keycmp) where
  -- The statuses of `hashtab_insert` that change nothing: no table or a full one is -EINVAL, a key
  -- that is stored is -EEXIST whatever malloc would give, and a new key without memory is -ENOMEM.
  pub insert_refused :
      {h : Hashtab K V} (key : K) (datum : V) (got_node : Bool)
      → IsValid keycmp hash_value h
      → (insert keycmp hash_value none key datum got_node ≡ err einval)
        × (h.nel ≡ max_nodes → insert keycmp hash_value (some h) key datum got_node ≡ err einval)
        × (h.nel < max_nodes
            → lookup keycmp h key ≢ none
            → insert keycmp hash_value (some h) key datum got_node ≡ err eexist)
        × (h.nel < max_nodes
            → lookup keycmp h key ≡ none
            → insert keycmp hash_value (some h) key datum false ≡ err enomem)
  unfolding insert
  insert_refused {h} key datum got_node v =
      let (c, g, o, p, e) = slot keycmp hash_value laws key v in
      (
        refl,
        (λ full. ground arith),
        (λ room stored.
            ground (arith, chain_insert_stored keycmp laws key datum c o (λ q. stored (e ∙ q)))),
        (λ room absent.
            let (c', linked) = chain_insert_absent keycmp laws key datum c o (sym e ∙ absent) in
            ground arith),
      )

  -- Removing a key that is not stored never succeeds: it is -ENOENT, or it reads through NULL.
  pub remove_absent :
      {h : Hashtab K V} (key : K)
      → IsValid keycmp hash_value h
      → h.nel < max_nodes
      → lookup keycmp h key ≡ none
      → (remove keycmp hash_value (some h) key ≡ err enoent)
        ⊎ (remove keycmp hash_value (some h) key ≡ fault)
  unfolding remove
  remove_absent {h} key v room absent =
      let (c, g, o, p, e) = slot keycmp hash_value laws key v in
      ground (arith, chain_remove_absent keycmp laws key c (sym e ∙ absent))

  -- `hashtab_remove` on a table that is not full reads through NULL for every key that compares as greater
  -- than all nodes of its slot, so for any key whose slot is empty.
  pub remove_off_end :
      (h : Hashtab K V) (key : K) (c : Chain K V)
      → h.nel < max_nodes
      → get_elem? h.htable (hash_value h.size key) ≡ some c
      → AllMore keycmp key c
      → remove keycmp hash_value (some h) key ≡ fault
  unfolding remove
  remove_off_end h key c room g a = ground (arith, chain_remove_off_end keycmp laws key c a)

  -- Removing a key right after its insertion into a valid table, one below the limit on nodes at least,
  -- gives back the very same table.
  pub remove-insert :
      {h h' : Hashtab K V} (key : K) (datum : V)
      → IsValid keycmp hash_value h
      → h.nel + 1 < max_nodes
      → insert keycmp hash_value (some h) key datum true ≡ ok h'
      → remove keycmp hash_value (some h') key ≡ ok h
  unfolding insert remove
  remove-insert {h} {h'} key datum v room done =
      let (c, g, o, p, e) = slot keycmp hash_value laws key v in
      elim (Option-cases (chain_insert keycmp key datum c)) [
        | inl refused ↦ absurd (ground arith)
        | inr (c', linked) ↦
            let i = hash_value h.size key in
            ground (
              arith,
              chain_remove-chain_insert keycmp laws key datum c c' linked,
              get_elem?-set_again h.htable i c c' g,
              set_twice h.htable i c c' g,
            )
      ]

module _ {K V : Type 0} (keycmp : K → K → Sign) (hash_value : ℕ → K → ℕ)
    (laws : IsKeyCmp keycmp) where
  -- The status that `hashtab_insert` should refuse with, if it should refuse.
  abbrev pub refusal : Hashtab K V → K → Bool → Option Errno
  refusal h key got_node = if h.nel == max_nodes then some einval else elim (lookup keycmp h key) [
    | some _ ↦ some eexist
    | none ↦ if got_node then none else some enomem
  ]

  -- `hashtab_insert` on a valid table refuses whenever it should, and with the right status: a full table
  -- is -EINVAL, a stored key is -EEXIST whatever malloc would give, and a new key without memory is
  -- -ENOMEM.
  pub insert-refusal :
      {h : Hashtab K V} (key : K) (datum : V) (got_node : Bool) (e : Errno)
      → IsValid keycmp hash_value h
      → refusal h key got_node ≡ some e
      → insert keycmp hash_value (some h) key datum got_node ≡ err e
  insert-refusal {h} key datum got_node e v r =
      let (no_table, full, stored, no_memory) =
        insert_refused keycmp hash_value laws key datum got_node v in
      elim (Bool-cases (h.nel == max_nodes)) [
        | inl q ↦ ground (arith, full, r, q)
        | inr q ↦ elim (Option-cases (lookup keycmp h key)) [
          | inl absent ↦ ground (arith, no_memory, r, q, v.bounded)
          | inr (d, there) ↦ ground (arith, stored, r, q, v.bounded)
        ]
      ]
