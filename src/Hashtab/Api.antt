-- ===== src/Hashtab/Api.antt =====
-- The table of utils/uhashtab.c as its users see it: the calls, and what a user may rely on. The
-- theorems on the implementation fill it in.
use sim_replay.Prelude.{
  ℕ, ◌+◌, ◌<◌, ◌≡◌, ◌≢◌, ◌↔◌, Option, none, some, if◌then◌else◌, ok, err, enomem, true, false, Bool,
  Result, arith,
}
use sim_replay.Hashtab.Defs.{Sign, Hashtab, max_nodes, search, insert, remove, update}
use sim_replay.Hashtab.Order.{IsKeyCmp, is_same}
use sim_replay.Hashtab.Table.{IsValid, lookup}
use sim_replay.Hashtab.Slot.{search-lookup}
use sim_replay.Hashtab.Ops.{insert_new, remove_stored, update_stored}
use sim_replay.Hashtab.Status.{insert_refused}

pub record TableApi (K V : Type 0) : Type 1 where
  pub Table : Type 0
  pub search : Table → K → Result (Option V)
  pub insert : Table → K → V → Bool → Result Table
  pub remove : Table → K → Result Table
  pub update : Table → K → V → Table
  pub same_key : K → K → Bool
  pub same_key_iff : (a b : K) → (same_key a b ≡ true) ↔ (a ≡ b)
  pub IsGood : Table → Type 0
  pub nel : Table → ℕ
  pub lookup : Table → K → Option V
  pub search_lem : {t : Table} (k : K) → IsGood t → search t k ≡ ok (lookup t k)
  pub insert_new :
      {t : Table} (k : K) (v : V)
      → IsGood t
      → nel t < max_nodes
      → lookup t k ≡ none
      → (t' : Table) × (insert t k v true ≡ ok t')
        × IsGood t'
        × (nel t' ≡ nel t + 1)
        × ((j : K) → lookup t' j ≡ (if same_key j k then some v else lookup t j))
  pub insert_no_memory :
      {t : Table} (k : K) (v : V)
      → IsGood t
      → nel t < max_nodes
      → lookup t k ≡ none
      → insert t k v false ≡ err enomem
  pub remove_stored :
      {t : Table} (k : K)
      → IsGood t
      → nel t < max_nodes
      → lookup t k ≢ none
      → (t' : Table) × (remove t k ≡ ok t')
        × IsGood t'
        × (nel t ≡ nel t' + 1)
        × ((j : K) → lookup t' j ≡ (if same_key j k then none else lookup t j))
  pub update_stored :
      {t : Table} (k : K) (v : V)
      → IsGood t
      → lookup t k ≢ none
      → IsGood (update t k v)
        × (nel (update t k v) ≡ nel t)
        × ((j : K) → lookup (update t k v) j ≡ (if same_key j k then some v else lookup t j))

pub is_same_iff {ℓ} :
    {K : Type ℓ} (keycmp : K → K → Sign)
    → IsKeyCmp keycmp
    → (a b : K) → (is_same (keycmp a b) ≡ true) ↔ (a ≡ b)
is_same_iff keycmp laws a b = ground (arith, laws.same_iff a b)

-- The implementation, at any comparison that satisfies the laws and any hash function.
unfoldable pub hashtab_api :
    {K : Type 0} (V : Type 0) (keycmp : K → K → Sign) (hash_value : ℕ → K → ℕ)
    → IsKeyCmp keycmp
    → TableApi K V
hashtab_api {K} V keycmp hash_value laws = record {
  Table = Hashtab K V;
  search = λ t k. search keycmp hash_value (some t) k;
  insert = λ t k v m. insert keycmp hash_value (some t) k v m;
  remove = λ t k. remove keycmp hash_value (some t) k;
  update = λ t k v. update keycmp hash_value t k v;
  same_key = λ a b. is_same (keycmp a b);
  same_key_iff = is_same_iff keycmp laws;
  IsGood = IsValid keycmp hash_value;
  nel = λ t. t.nel;
  lookup = lookup keycmp;
  search_lem = λ {t} k v. search-lookup keycmp hash_value laws k v;
  insert_new = λ {t} k v g room absent.
      let (t', done, valid, count, size, stores) =
        insert_new keycmp hash_value laws k v g room absent in
      (t', done, valid, count, stores);
  insert_no_memory =
      λ {t} k v g room absent. (insert_refused keycmp hash_value laws k v false g).3 room absent;
  remove_stored = λ {t} k g room present.
      let (t', done, valid, count, size, stores) =
        remove_stored keycmp hash_value laws k g room present in
      (t', done, valid, count, stores);
  update_stored = λ {t} k v g present.
      let (valid, count, size, stores) = update_stored keycmp hash_value laws k v g present in
      (valid, count, stores);
}
