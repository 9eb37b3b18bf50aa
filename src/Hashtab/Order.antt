-- ===== src/Hashtab/Order.antt =====
-- What a key comparison has to satisfy, the order of a chain, and plain association lists, the
-- description that the chains of utils/uhashtab.c are compared with.
use sim_replay.Prelude.{
  ◌≡◌, ◌↔◌, ◌≢◌, ◌⊎◌, inl, inr, List, [], ◌∷◌, ◌++◌, Option, none, some, arith, refl, if◌then◌else◌,
  Bool, true, false,
}
use sim_replay.Hashtab.Defs.{Sign, less, same, more, Chain}

-- Less than a total order: `less` is asymmetric, and `more` is kept by going below. The comparison
-- of block keys, which answers `more` both ways at different lengths, satisfies this.
pub record IsKeyCmp {ℓ} {K : Type ℓ} (keycmp : K → K → Sign) : Type ℓ where
  pub same_iff : (a b : K) → (keycmp a b ≡ same) ↔ (a ≡ b)
  pub flip_less : (a b : K) → keycmp a b ≡ less → keycmp b a ≡ more
  pub more_below : (k c y : K) → keycmp k c ≡ less → keycmp y c ≡ more → keycmp y k ≡ more

pub same_self {ℓ} :
    {K : Type ℓ} (keycmp : K → K → Sign) → IsKeyCmp keycmp → (k : K) → keycmp k k ≡ same
same_self keycmp laws k = (laws.same_iff k k).1 refl

abbrev pub is_same : Sign → Bool
is_same same = true
is_same less = false
is_same more = false

pub Sign-cases : (s : Sign) → (s ≡ less) ⊎ (s ≡ same) ⊎ (s ≡ more)
Sign-cases less = inl refl
Sign-cases same = inr (inl refl)
Sign-cases more = inr (inr refl)

module _ {ℓ κ} {K : Type ℓ} {V : Type κ} (keycmp : K → K → Sign) where
  -- Every node of the chain precedes the key.
  abbrev pub AllMore : K → Chain K V → Type 0
  AllMore key [] = Unit
  AllMore key ((k, _) ∷ rest) = (keycmp key k ≡ more) × AllMore key rest

  -- The first datum under the key, in a list of nodes in any order.
  unfoldable pub assoc : K → List (K × V) → Option V
  assoc key [] = none
  assoc key ((k, d) ∷ rest) = if is_same (keycmp key k) then some d else assoc key rest

  -- Every key of the list compares as greater than `c`.
  abbrev pub Behind : K → Chain K V → Type 0
  Behind c [] = Unit
  Behind c ((y, _) ∷ rest) = (keycmp y c ≡ more) × Behind c rest

  -- A walk for a key of the chain passes every node before it.
  abbrev pub Ordered : Chain K V → Type 0
  Ordered [] = Unit
  Ordered ((c, _) ∷ rest) = Behind c rest × Ordered rest

  pub assoc-append :
      (key : K) (xs ys : List (K × V)) → assoc key xs ≡ none → assoc key (xs ++ ys) ≡ assoc key ys
  unfolding assoc
  assoc-append key [] ys h = refl
  assoc-append key ((k, d) ∷ rest) ys h = ground (arith, assoc-append key rest ys)

  pub assoc-append_some :
      (key : K) (xs ys : List (K × V)) (v : V)
      → assoc key xs ≡ some v
      → assoc key (xs ++ ys) ≡ some v
  unfolding assoc
  assoc-append_some key [] ys v h = ground arith
  assoc-append_some key ((k, d) ∷ rest) ys v h = ground (arith, assoc-append_some key rest ys v)

  pub assoc-append_absent :
      (key : K) (xs ys : List (K × V)) → assoc key ys ≡ none → assoc key (xs ++ ys) ≡ assoc key xs
  unfolding assoc
  assoc-append_absent key [] ys h = h
  assoc-append_absent key ((k, d) ∷ rest) ys h = ground (arith, assoc-append_absent key rest ys)

  module _ (laws : IsKeyCmp keycmp) where
    open laws use {same_iff, more_below}

    -- A key that does not pass `c` is not behind it.
    pub assoc_past :
        (key c : K) (l : Chain K V) → Behind c l → keycmp key c ≢ more → assoc key l ≡ none
    unfolding assoc
    assoc_past key c [] b h = refl
    assoc_past key c ((y, d) ∷ rest) b h =
        ground (arith, same_iff key y, assoc_past key c rest b.1 h)

    pub Behind-below : (k c : K) (l : Chain K V) → keycmp k c ≡ less → Behind c l → Behind k l
    Behind-below k c [] h b = tt
    Behind-below k c ((y, d) ∷ rest) h b = (more_below k c y h b.0, Behind-below k c rest h b.1)
