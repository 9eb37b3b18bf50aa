-- ===== src/Hashtab/Tests.antt =====
-- utils/uhashtab.c at concrete tables: number keys, and a hash function that takes the remainder.
use Prim.Native.Nat.{compare, Ordering}
use sim_replay.Prelude.{
  ℕ, ◌+◌, ◌%◌, ◌≡◌, [], ◌∷◌, none, some, arith, refl, ok, err, fault, eexist, true, false,
}
use sim_replay.Hashtab.Defs.{
  Sign, less, same, more, Hashtab, insert, remove, search, nodes, chain_insert, hashtab_map,
  chain_map, table_map,
}
use sim_replay.Hashtab.Order.{IsKeyCmp, assoc}
use sim_replay.Hashtab.Table.{IsValid, lookup}
use sim_replay.Hashtab.Slot.{search-lookup}
use sim_replay.Hashtab.Ops.{Stores, insert_new, remove_stored}
use sim_replay.Hashtab.Map.{Walks, hashtab_map-Walks}
use sim_replay.Hashtab.Status.{insert-refusal, remove_off_end, remove-insert}

abbrev pub number_cmp : ℕ → ℕ → Sign
number_cmp a b = elim (compare a b) [ Ordering.lt ↦ less | Ordering.eq ↦ same | Ordering.gt ↦ more ]

pub number_cmp-IsKeyCmp : IsKeyCmp number_cmp
number_cmp-IsKeyCmp = record {
  same_iff = λ a b. ground arith;
  flip_less = λ a b h. ground arith;
  more_below = λ k c y h h'. ground arith;
}

abbrev pub remainder : ℕ → ℕ → ℕ
remainder size key = key % size

-- Keys 8 and 4 share slot 0, and slot 3 is empty.
abbrev three_keys : Hashtab ℕ ℕ
three_keys = record {
  htable = ((4, 40) ∷ (8, 80) ∷ []) ∷ ((5, 50) ∷ []) ∷ [] ∷ [] ∷ [];
  size = 4;
  nel = 3;
}

three_keys-IsValid : IsValid number_cmp remainder three_keys
unfolding nodes
three_keys-IsValid = record {
  in_range = λ k. omega arith;
  sized = refl;
  slots =
      (((refl, tt), (tt, tt)), (refl, (refl, tt)), ((tt, tt), (refl, tt), (tt, tt, (tt, tt, tt))));
  counted = refl;
  bounded = omega arith;
}

insert_new_example :
    (h' : Hashtab ℕ ℕ) × (insert number_cmp remainder (some three_keys) 6 60 true ≡ ok h')
    × IsValid number_cmp remainder h'
    × (h'.nel ≡ 4)
    × (h'.size ≡ 4)
    × Stores number_cmp remainder number_cmp-IsKeyCmp three_keys h' 6 (some 60)
unfolding lookup assoc nodes
insert_new_example =
    insert_new number_cmp remainder number_cmp-IsKeyCmp 6 60 three_keys-IsValid (omega arith) refl

remove_stored_example :
    (h' : Hashtab ℕ ℕ) × (remove number_cmp remainder (some three_keys) 8 ≡ ok h')
    × IsValid number_cmp remainder h'
    × (3 ≡ h'.nel + 1)
    × (h'.size ≡ 4)
    × Stores number_cmp remainder number_cmp-IsKeyCmp three_keys h' 8 none
unfolding lookup assoc nodes
remove_stored_example =
    remove_stored number_cmp remainder number_cmp-IsKeyCmp 8 three_keys-IsValid (omega arith)
      (λ e. ground arith)

search-lookup_example :
    search number_cmp remainder (some three_keys) 8 ≡ ok (lookup number_cmp three_keys 8)
search-lookup_example = search-lookup number_cmp remainder number_cmp-IsKeyCmp 8 three_keys-IsValid

insert-refusal_example : insert number_cmp remainder (some three_keys) 5 51 false ≡ err eexist
unfolding lookup assoc nodes
insert-refusal_example =
    insert-refusal number_cmp remainder number_cmp-IsKeyCmp 5 51 false eexist three_keys-IsValid
      refl

-- Slot 3 is empty: the removal of 7 reads through NULL.
remove_off_end_example : remove number_cmp remainder (some three_keys) 7 ≡ fault
remove_off_end_example =
    remove_off_end number_cmp remainder number_cmp-IsKeyCmp three_keys 7 [] (omega arith) refl tt

abbrev four_keys : Hashtab ℕ ℕ
four_keys = record {
  htable = ((4, 40) ∷ (8, 80) ∷ []) ∷ ((5, 50) ∷ []) ∷ ((6, 60) ∷ []) ∷ [] ∷ [];
  size = 4;
  nel = 4;
}

inserted_six : insert number_cmp remainder (some three_keys) 6 60 true ≡ ok four_keys
unfolding insert chain_insert
inserted_six = refl

remove-insert_example : remove number_cmp remainder (some four_keys) 6 ≡ ok three_keys
remove-insert_example =
    remove-insert number_cmp remainder number_cmp-IsKeyCmp 6 60 three_keys-IsValid (omega arith)
      inserted_six

-- A walk that adds up the data, and stops at the first above 45.
abbrev add_up : ℕ → ℕ → ℕ → ℕ × ℕ
add_up key datum sum = (sum + datum, elim (compare 45 datum) [ Ordering.lt ↦ 1 | _ ↦ 0 ])

hashtab_map-Walks_example :
    Walks add_up (nodes three_keys.htable) 0 (hashtab_map add_up (some three_keys) 0)
hashtab_map-Walks_example = hashtab_map-Walks add_up three_keys 0

stops_early : hashtab_map add_up (some three_keys) 0 ≡ (120, 1)
unfolding hashtab_map table_map chain_map
stops_early = refl
