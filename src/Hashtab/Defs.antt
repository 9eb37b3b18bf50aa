-- ===== src/Hashtab/Defs.antt =====
-- utils/uhashtab.c and utils/uhashtab.h. A chain is the list of its nodes. The two callbacks of
-- `hashtab_create` are arguments: `keycmp` by the sign of the int that it returns, and
-- `hash_value` with the size that it reads from the table. What malloc gives is an argument too.
use sim_replay.Prelude.{
  ℕ, ◌-◌, List, [], ◌∷◌, ◌++◌, Option, none, some, Bool, Result, ok, err, fault, einval, eexist,
  enomem, enoent, get_elem?, set, replicate, ◌==◌, if◌then◌else◌, inc32, dec32, u32_mod, ◌>>=◌,
}

-- The sign of the int that a key comparison returns.
pub data Sign : Type 0 where
  less same more : Sign

abbrev pub Chain {ℓ κ} : Type ℓ → Type κ → Type (ℓ ⊔ κ)
Chain K V = List (K × V)

-- HASHTAB_MAX_NODES
abbrev pub max_nodes : ℕ
max_nodes = u32_mod - 1

pub record Hashtab {ℓ κ} (K : Type ℓ) (V : Type κ) : Type (ℓ ⊔ κ) where
  pub htable : List (Chain K V)
  pub size : ℕ
  pub nel : ℕ

-- `hashtab_create`: the two flags say whether the two calls of malloc succeed.
unfoldable pub create {ℓ κ} : (K : Type ℓ) (V : Type κ) → ℕ → Bool → Bool → Option (Hashtab K V)
create K V size got_table got_slots =
    if got_table
    then if got_slots
      then some (record { htable = replicate size []; size = size; nel = 0 })
      else none
    else none

module _ {ℓ κ} {K : Type ℓ} {V : Type κ} (keycmp : K → K → Sign) where
  -- The loop of `hashtab_search`, and the test behind it.
  unfoldable pub chain_search : K → Chain K V → Option V
  chain_search key [] = none
  chain_search key ((k, d) ∷ rest) = elim (keycmp key k) [
    | more ↦ chain_search key rest
    | same ↦ some d
    | less ↦ none
  ]

  -- The loop of `hashtab_insert` and its link step; `none` is -EEXIST.
  unfoldable pub chain_insert : K → V → Chain K V → Option (Chain K V)
  chain_insert key datum [] = some ((key, datum) ∷ [])
  chain_insert key datum ((k, d) ∷ rest) = elim (keycmp key k) [
    | more ↦ elim (chain_insert key datum rest) [ none ↦ none | some r ↦ some ((k, d) ∷ r) ]
    | same ↦ none
    | less ↦ some ((key, datum) ∷ (k, d) ∷ rest)
  ]

  -- The loop of `hashtab_remove` and its unlink step. Its guard is `cur && keycmp(..) != 0`, so at
  -- the end of a chain `cur->next` is read through NULL.
  unfoldable pub chain_remove : K → Chain K V → Result (Chain K V)
  chain_remove key [] = fault
  chain_remove key ((k, d) ∷ rest) = elim (keycmp key k) [
    | more ↦ elim (chain_remove key rest) [ ok r ↦ ok ((k, d) ∷ r) | err e ↦ err e | fault ↦ fault ]
    | same ↦ ok rest
    | less ↦ err enoent
  ]

  -- A write through the pointer that `hashtab_search` returned: the datum is changed in place.
  unfoldable pub chain_update : K → V → Chain K V → Chain K V
  chain_update key datum [] = []
  chain_update key datum ((k, d) ∷ rest) = elim (keycmp key k) [
    | more ↦ (k, d) ∷ chain_update key datum rest
    | same ↦ (k, datum) ∷ rest
    | less ↦ (k, d) ∷ rest
  ]

  module _ (hash_value : ℕ → K → ℕ) where
    -- `hashtab_search`; it does not return when `h` is NULL, nor when the slot is out of range.
    unfoldable pub search : Option (Hashtab K V) → K → Result (Option V)
    search none key = fault
    search (some h) key = elim (get_elem? h.htable (hash_value h.size key)) [
      | none ↦ fault
      | some chain ↦ ok (chain_search key chain)
    ]

    link : Hashtab K V → ℕ → Bool → Option (Chain K V) → Result (Hashtab K V)
    link h hvalue got_node none = err eexist
    link h hvalue got_node (some chain) =
        if got_node
        then ok (record h { htable = set h.htable hvalue chain; nel = inc32 h.nel })
        else err enomem

    unfoldable pub insert : Option (Hashtab K V) → K → V → Bool → Result (Hashtab K V)
    unfolding link
    insert none key datum got_node = err einval
    insert (some h) key datum got_node =
        let hvalue = hash_value h.size key in
        if h.nel == max_nodes then err einval else elim (get_elem? h.htable hvalue) [
          | none ↦ fault
          | some chain ↦ link h hvalue got_node (chain_insert key datum chain)
        ]

    unlink : Hashtab K V → ℕ → Result (Chain K V) → Result (Hashtab K V)
    unlink h hvalue m = do
      chain ← m
      ok (record h { htable = set h.htable hvalue chain; nel = dec32 h.nel })

    unfoldable pub remove : Option (Hashtab K V) → K → Result (Hashtab K V)
    unfolding unlink
    remove none key = err einval
    remove (some h) key =
        let hvalue = hash_value h.size key in
        if h.nel == max_nodes then err einval else elim (get_elem? h.htable hvalue) [
          | none ↦ fault
          | some chain ↦ unlink h hvalue (chain_remove key chain)
        ]

    -- `p = hashtab_search(h, key); *p = datum`
    unfoldable pub update : Hashtab K V → K → V → Hashtab K V
    update h key datum =
        let hvalue = hash_value h.size key in
        elim (get_elem? h.htable hvalue) [
          | none ↦ h
          | some chain ↦ record h { htable = set h.htable hvalue (chain_update key datum chain) }
        ]

module _ {ℓ κ} {K : Type ℓ} {V : Type κ} where
  -- All nodes, slot after slot: the order in which `hashtab_map` and `hashtab_destroy` walk.
  unfoldable pub nodes : List (Chain K V) → List (K × V)
  nodes [] = []
  nodes (c ∷ cs) = c ++ nodes cs

  -- `hashtab_destroy`: the data given to `rementry` and freed, in order.
  unfoldable pub destroy : Option (Hashtab K V) → List (K × V)
  destroy none = []
  destroy (some h) = nodes h.htable

  module _ {σ} {S : Type σ} (apply : K → V → S → S × ℕ) where
    -- `hashtab_map`: `apply` changes the state behind `args`; a nonzero status ends the walk.
    unfoldable pub chain_map : Chain K V → S → S × ℕ
    chain_map [] s = (s, 0)
    chain_map ((k, d) ∷ rest) s =
        let (s', ret) = apply k d s in
        let next = chain_map rest s' in if ret == 0 then next else (s', ret)

    unfoldable pub table_map : List (Chain K V) → S → S × ℕ
    table_map [] s = (s, 0)
    table_map (c ∷ cs) s =
        let (s', ret) = chain_map c s in
        let next = table_map cs s' in if ret == 0 then next else (s', ret)

    unfoldable pub hashtab_map : Option (Hashtab K V) → S → S × ℕ
    hashtab_map none s = (s, 0)
    hashtab_map (some h) s = table_map h.htable s
