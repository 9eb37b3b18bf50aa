-- ===== src/Hashtab/Chain.antt =====
-- One chain of utils/uhashtab.c: the walks that stop early agree with plain association lists, and
-- linking, unlinking and writing in place keep the order.
use sim_replay.Prelude.{
  ◌≡◌, ◌≢◌, [], ◌∷◌, none, some, arith, refl, if◌then◌else◌, ok, fault, suc, Result-cases, length,
  Option-cases, inl, inr,
}
use sim_replay.Hashtab.Defs.{
  Sign, more, Chain, chain_search, chain_insert, chain_remove, chain_update,
}
use sim_replay.Hashtab.Order.{
  IsKeyCmp, is_same, assoc, Behind, Ordered, assoc_past, Behind-below, Sign-cases, AllMore,
}

module _ {ℓ κ} {K : Type ℓ} {V : Type κ} (keycmp : K → K → Sign) (laws : IsKeyCmp keycmp) where
  open laws use {same_iff, flip_less}

  pub chain_search-assoc :
      (key : K) (l : Chain K V) → Ordered keycmp l → chain_search keycmp key l ≡ assoc keycmp key l
  unfolding chain_search assoc
  chain_search-assoc key [] o = refl
  chain_search-assoc key ((k, d) ∷ rest) o =
      ground (arith, chain_search-assoc key rest o.1, assoc_past keycmp laws key k rest o.0)

  -- Insertion is refused exactly when the key is there.
  pub chain_insert_refused :
      (key : K) (datum : V) (l : Chain K V)
      → Ordered keycmp l
      → chain_insert keycmp key datum l ≡ none
      → assoc keycmp key l ≢ none
  unfolding chain_insert assoc
  chain_insert_refused key datum [] o h = ground arith
  chain_insert_refused key datum ((k, d) ∷ rest) o h =
      ground (arith, chain_insert_refused key datum rest o.1)

  pub Behind-chain_insert :
      (key c : K) (datum : V) (l l' : Chain K V)
      → keycmp key c ≡ more
      → Behind keycmp c l
      → chain_insert keycmp key datum l ≡ some l'
      → Behind keycmp c l'
  unfolding chain_insert
  Behind-chain_insert key c datum [] l' p b h = ground arith
  Behind-chain_insert key c datum ((k, d) ∷ rest) l' p b h =
      elim (Option-cases (chain_insert keycmp key datum rest)) [
        | inl e ↦ ground arith
        | inr (r, e) ↦ ground (arith, Behind-chain_insert key c datum rest r p b.1 e)
      ]

  pub Ordered-chain_insert :
      (key : K) (datum : V) (l l' : Chain K V)
      → Ordered keycmp l
      → chain_insert keycmp key datum l ≡ some l'
      → Ordered keycmp l'
  unfolding chain_insert
  Ordered-chain_insert key datum [] l' o h = ground arith
  Ordered-chain_insert key datum ((k, d) ∷ rest) l' o h =
      elim (Option-cases (chain_insert keycmp key datum rest)) [
        | inl e ↦ ground (arith, flip_less key k, Behind-below keycmp laws key k rest)
        | inr (r, e) ↦ ground (
          arith,
          flip_less key k,
          Behind-below keycmp laws key k rest,
          Ordered-chain_insert key datum rest r o.1 e,
          Behind-chain_insert key k datum rest r,
        )
      ]

  pub assoc-chain_insert :
      (key j : K) (datum : V) (l l' : Chain K V)
      → chain_insert keycmp key datum l ≡ some l'
      → assoc keycmp j l' ≡ (if is_same (keycmp j key) then some datum else assoc keycmp j l)
  unfolding chain_insert assoc
  assoc-chain_insert key j datum [] l' h = ground arith
  assoc-chain_insert key j datum ((k, d) ∷ rest) l' h =
      elim (Option-cases (chain_insert keycmp key datum rest)) [
        | inl e ↦ ground arith
        | inr (r, e) ↦ ground (
          arith,
          same_iff key k,
          same_iff j key,
          same_iff j k,
          assoc-chain_insert key j datum rest r e,
        )
      ]

  pub length-chain_insert :
      (key : K) (datum : V) (l l' : Chain K V)
      → chain_insert keycmp key datum l ≡ some l'
      → length l' ≡ suc (length l)
  unfolding chain_insert
  length-chain_insert key datum [] l' h = ground arith
  length-chain_insert key datum ((k, d) ∷ rest) l' h =
      elim (Option-cases (chain_insert keycmp key datum rest)) [
        | inl e ↦ ground arith
        | inr (r, e) ↦ ground (arith, length-chain_insert key datum rest r e)
      ]

  -- A key that is in the chain is found and unlinked.
  pub chain_remove_present :
      (key : K) (l : Chain K V)
      → Ordered keycmp l
      → assoc keycmp key l ≢ none
      → (l' : Chain K V) × (chain_remove keycmp key l ≡ ok l')
  unfolding chain_remove assoc
  chain_remove_present key [] o h = absurd (h refl)
  chain_remove_present key ((k, d) ∷ rest) o h = elim (Sign-cases (keycmp key k)) [
    | inl e ↦ absurd (ground (arith, assoc_past keycmp laws key k rest o.0))
    | inr (inl e) ↦ (rest, ground arith)
    | inr (inr e) ↦
        let (r, step) = chain_remove_present key rest o.1 (ground arith) in
        ((k, d) ∷ r, ground arith)
  ]

  pub Behind-chain_remove :
      (key c : K) (l l' : Chain K V)
      → Behind keycmp c l
      → chain_remove keycmp key l ≡ ok l'
      → Behind keycmp c l'
  unfolding chain_remove
  Behind-chain_remove key c [] l' b h = ground arith
  Behind-chain_remove key c ((k, d) ∷ rest) l' b h =
      elim (Result-cases (chain_remove keycmp key rest)) [
        | inl (r, e) ↦ ground (arith, Behind-chain_remove key c rest r b.1 e)
        | inr e ↦ ground arith
      ]

  pub Ordered-chain_remove :
      (key : K) (l l' : Chain K V)
      → Ordered keycmp l
      → chain_remove keycmp key l ≡ ok l'
      → Ordered keycmp l'
  unfolding chain_remove
  Ordered-chain_remove key [] l' o h = ground arith
  Ordered-chain_remove key ((k, d) ∷ rest) l' o h =
      elim (Result-cases (chain_remove keycmp key rest)) [
        | inl (r, e) ↦
            ground
              (arith, Ordered-chain_remove key rest r o.1 e, Behind-chain_remove key k rest r o.0 e)
        | inr e ↦ ground arith
      ]

  pub assoc-chain_remove :
      (key j : K) (l l' : Chain K V)
      → Ordered keycmp l
      → chain_remove keycmp key l ≡ ok l'
      → assoc keycmp j l' ≡ (if is_same (keycmp j key) then none else assoc keycmp j l)
  unfolding chain_remove assoc
  assoc-chain_remove key j [] l' o h = ground arith
  assoc-chain_remove key j ((k, d) ∷ rest) l' o h =
      elim (Result-cases (chain_remove keycmp key rest)) [
        | inl (r, e) ↦ ground (
          arith,
          same_iff key k,
          same_iff j key,
          same_iff j k,
          assoc_past keycmp laws key k rest o.0,
          assoc-chain_remove key j rest r o.1 e,
        )
        | inr e ↦ ground (
          arith,
          same_iff key k,
          same_iff j key,
          same_iff j k,
          assoc_past keycmp laws j k rest o.0,
        )
      ]

  pub length-chain_remove :
      (key : K) (l l' : Chain K V) → chain_remove keycmp key l ≡ ok l' → length l ≡ suc (length l')
  unfolding chain_remove
  length-chain_remove key [] l' h = ground arith
  length-chain_remove key ((k, d) ∷ rest) l' h =
      elim (Result-cases (chain_remove keycmp key rest)) [
        | inl (r, e) ↦ ground (arith, length-chain_remove key rest r e)
        | inr e ↦ ground arith
      ]

  -- A key that every node of the chain precedes runs the walk off the end.
  pub chain_remove_off_end :
      (key : K) (l : Chain K V) → AllMore keycmp key l → chain_remove keycmp key l ≡ fault
  unfolding chain_remove
  chain_remove_off_end key [] a = refl
  chain_remove_off_end key ((k, d) ∷ rest) a = ground (arith, chain_remove_off_end key rest a.1)

  pub Behind-chain_update :
      (key c : K) (datum : V) (l : Chain K V)
      → Behind keycmp c l
      → Behind keycmp c (chain_update keycmp key datum l)
  unfolding chain_update
  Behind-chain_update key c datum [] b = tt
  Behind-chain_update key c datum ((k, d) ∷ rest) b =
      ground (arith, Behind-chain_update key c datum rest b.1)

  pub Ordered-chain_update :
      (key : K) (datum : V) (l : Chain K V)
      → Ordered keycmp l
      → Ordered keycmp (chain_update keycmp key datum l)
  unfolding chain_update
  Ordered-chain_update key datum [] o = tt
  Ordered-chain_update key datum ((k, d) ∷ rest) o =
      ground
        (arith, Ordered-chain_update key datum rest o.1, Behind-chain_update key k datum rest o.0)

  pub assoc-chain_update :
      (key j : K) (datum : V) (l : Chain K V)
      → Ordered keycmp l
      → assoc keycmp key l ≢ none
      → assoc keycmp j (chain_update keycmp key datum l)
        ≡ (if is_same (keycmp j key) then some datum else assoc keycmp j l)
  unfolding chain_update assoc
  assoc-chain_update key j datum [] o h = absurd (h refl)
  assoc-chain_update key j datum ((k, d) ∷ rest) o h = ground (
    arith,
    same_iff key k,
    same_iff j key,
    same_iff j k,
    assoc_past keycmp laws key k rest o.0,
    assoc-chain_update key j datum rest o.1,
  )

  pub length-chain_update :
      (key : K) (datum : V) (l : Chain K V) → length (chain_update keycmp key datum l) ≡ length l
  unfolding chain_update
  length-chain_update key datum [] = refl
  length-chain_update key datum ((k, d) ∷ rest) = ground (arith, length-chain_update key datum rest)
