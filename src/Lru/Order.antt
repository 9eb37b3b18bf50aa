-- ===== src/Lru/Order.antt =====
-- LRU-cache/lru_cache.c against a list of entries, the least recently used one first.
use mathlib.Core.Path.{subst, sym, ◌∙◌}
use sim_replay.Prelude.{
  ℕ, zero, suc, ◌+◌, ◌-◌, ◌≤◌, ◌<◌, ◌≡◌, ◌⊎◌, List, [], ◌∷◌, ◌++◌, none, some, Bool, true, ok, ltb,
  length, length-append, arith, refl, Option-cases, Bool-cases, inl, inr,
}
use sim_replay.Lru.Uthash.{Uthash, assoc, without}
use sim_replay.Lru.Defs.{Lru, is_some, find_in_cache, prune, note_write, add_to_cache}

-- The list without its first `n` entries.
unfoldable pub newest : {A : Type 0} → ℕ → List A → List A
newest zero xs = xs
newest (suc n) [] = []
newest (suc n) (x ∷ xs) = newest n xs

module _ {K V : Type 0} (ut : Uthash K V) where
  self : (k : K) → ut.same_key k k ≡ true
  self k = (ut.same_key_iff k k).1 refl

  -- What an `add` leaves: the key last, without its former entry, cut to the newest `limit` entries.
  abbrev pub used : ℕ → K → V → List (K × V) → List (K × V)
  used limit key value es =
      let all = without ut.same_key key es ++ (key, value) ∷ [] in newest (length all - limit) all

  without_absent :
      (key : K) (es : List (K × V))
      → assoc ut.same_key key es ≡ none
      → without ut.same_key key es ≡ es
  unfolding assoc without
  without_absent key [] h = refl
  without_absent key ((k, v) ∷ rest) h = ground (arith, without_absent key rest)

  assoc-append_last :
      (key : K) (v : V) (es : List (K × V))
      → assoc ut.same_key key es ≡ none
      → assoc ut.same_key key (es ++ (key, v) ∷ []) ≡ some v
  unfolding assoc
  assoc-append_last key v [] h = ground (arith, self key)
  assoc-append_last key v ((k, w) ∷ rest) h = ground (arith, assoc-append_last key v rest)

  List-cases :
      (xs : List (K × V))
      → (xs ≡ []) ⊎ ((k : K) × (v : V) × (rest : List (K × V)) × (xs ≡ (k, v) ∷ rest))
  List-cases [] = inl refl
  List-cases ((k, v) ∷ rest) = inr (k, v, rest, refl)

  -- The pruning loop, with one round more than there are entries, leaves the newest ones.
  prune_lem :
      (fuel limit : ℕ) (t : ut.Table)
      → 0 < limit
      → length (ut.hash_iter t) < fuel
      → (t' : ut.Table) × (prune ut fuel limit t ≡ ok t')
        × (ut.hash_iter t' ≡ newest (length (ut.hash_iter t) - limit) (ut.hash_iter t))
  unfolding prune newest without
  prune_lem zero limit t pos enough = absurd (omega arith)
  prune_lem (suc fuel) limit t pos enough = elim (Bool-cases (ltb limit (ut.hash_count t))) [
    | inr fits ↦
        let none_over : length (ut.hash_iter t) - limit ≡ 0 = ground (arith, ut.count_iter t) in
        (t, ground arith, ground (arith, none_over))
    | inl over ↦ elim (List-cases (ut.hash_iter t)) [
      | inl e ↦ absurd (ground (arith, ut.count_iter t))
      | inr (k, v, rest, e) ↦
          let oldest : ut.hash_iter (ut.hash_delete t k) ≡ rest =
            ground (arith, ut.iter_delete t k, self k) in
          let shorter : length (ut.hash_iter (ut.hash_delete t k)) + 1 ≡ length (ut.hash_iter t) =
            ground arith in
          let (t', done, kept) =
            prune_lem fuel limit (ut.hash_delete t k) pos (omega (arith, shorter)) in
          let count : length (ut.hash_iter t) - limit
              ≡ suc (length (ut.hash_iter (ut.hash_delete t k)) - limit) =
            ground (arith, ut.count_iter t, shorter) in
          (t', ground (arith, done), ground (arith, kept, oldest, count, e))
    ]
  ]

  -- `find_in_cache` returns the value of the key, and makes the key the most recently used one.
  pub find_in_cache_lem :
      (s : Lru ut.Table) (key : K)
      → ((find_in_cache ut s key).1 ≡ assoc ut.same_key key (ut.hash_iter s.cache))
        × (ut.hash_iter (find_in_cache ut s key).0.cache
            ≡ elim (assoc ut.same_key key (ut.hash_iter s.cache)) [
              | none ↦ ut.hash_iter s.cache
              | some value ↦ without ut.same_key key (ut.hash_iter s.cache) ++ (key, value) ∷ []
            ])
  unfolding find_in_cache
  find_in_cache_lem s key = elim (Option-cases (ut.hash_find_str s.cache key)) [
    | inl e ↦ ground (arith, ut.find_iter s.cache key)
    | inr (v, e) ↦ ground (
      arith,
      ut.find_iter s.cache key,
      ut.iter_delete s.cache key,
      ut.iter_add (ut.hash_delete s.cache key) key v,
    )
  ]

  -- `add_to_cache` with a limit that is not 0 and memory for the entry returns; the walk then is the former one
  -- with the key moved to its end, cut from its start to the limit, and the counters are those of the path.
  pub add_to_cache_lem :
      (limit : ℕ) (s : Lru ut.Table) (key : K) (value : V) (updatehits warmup : Bool)
      (found_out : ℕ)
      → 0 < limit
      → let known = is_some (assoc ut.same_key key (ut.hash_iter s.cache)) in
        let (noted, out) = note_write ut known updatehits warmup s found_out in
        (t : ut.Table) × (add_to_cache ut limit s key value updatehits warmup found_out true
          ≡ ok (record noted { cache = t }, out))
        × (ut.hash_iter t ≡ used limit key value (ut.hash_iter s.cache))
  unfolding add_to_cache
  add_to_cache_lem limit s key value updatehits warmup found_out pos =
      elim (Option-cases (ut.hash_find_str s.cache key)) [
        | inl e ↦
            let added = ut.hash_add_keyptr s.cache key value in
            let (t, done, kept) =
              prune_lem (suc (length (ut.hash_iter added))) limit added pos (omega arith) in
            let absent : assoc ut.same_key key (ut.hash_iter s.cache) ≡ none =
              sym (ut.find_iter s.cache key) ∙ e in
            let walk : ut.hash_iter added
                ≡ without ut.same_key key (ut.hash_iter s.cache) ++ (key, value) ∷ [] =
              rw (without_absent key (ut.hash_iter s.cache) absent)
                (ut.iter_add s.cache key value) in
            (
              t,
              ground (arith, done, absent, e),
              subst (λ es. ut.hash_iter t ≡ newest (length es - limit) es) walk kept,
            )
        | inr (v, e) ↦
            let added = ut.hash_add_keyptr (ut.hash_delete s.cache key) key value in
            let (t, done, kept) =
              prune_lem (suc (length (ut.hash_iter added))) limit added pos (omega arith) in
            let present : assoc ut.same_key key (ut.hash_iter s.cache) ≡ some v =
              sym (ut.find_iter s.cache key) ∙ e in
            let walk : ut.hash_iter added
                ≡ without ut.same_key key (ut.hash_iter s.cache) ++ (key, value) ∷ [] =
              ground (
                arith,
                ut.iter_add (ut.hash_delete s.cache key) key value,
                ut.iter_delete s.cache key,
              ) in
            (
              t,
              ground (arith, done, present, e),
              subst (λ es. ut.hash_iter t ≡ newest (length es - limit) es) walk kept,
            )
      ]

  length-newest : (n : ℕ) (es : List (K × V)) → length (newest n es) ≡ length es - n
  unfolding newest
  length-newest zero es = omega arith
  length-newest (suc n) [] = omega arith
  length-newest (suc n) (e ∷ es) = omega (arith, length-newest n es)

  assoc-newest :
      (n : ℕ) (key : K) (v : V) (es : List (K × V))
      → assoc ut.same_key key es ≡ none
      → n ≤ length es
      → assoc ut.same_key key (newest n (es ++ (key, v) ∷ [])) ≡ some v
  unfolding newest assoc
  assoc-newest zero key v es h le = assoc-append_last key v es h
  assoc-newest (suc n) key v [] h le = absurd (omega arith)
  assoc-newest (suc n) key v ((k, w) ∷ rest) h le =
      assoc-newest n key v rest (ground arith) (omega arith)

  -- After `add_to_cache` with a limit that is not 0, of a key that has at most one entry, the cache is
  -- within the limit and `find_in_cache` returns the new value.
  pub add_to_cache-limit :
      (limit : ℕ) (s : Lru ut.Table) {s' : Lru ut.Table} (key : K) (value : V)
      (updatehits warmup : Bool) (found_out : ℕ) {out : ℕ}
      → 0 < limit
      → assoc ut.same_key key (without ut.same_key key (ut.hash_iter s.cache)) ≡ none
      → add_to_cache ut limit s key value updatehits warmup found_out true ≡ ok (s', out)
      → (length (ut.hash_iter s'.cache) ≤ limit) × ((find_in_cache ut s' key).1 ≡ some value)
  add_to_cache-limit limit s {s'} key value updatehits warmup found_out pos distinct h =
      let (t, done, walk) = add_to_cache_lem limit s key value updatehits warmup found_out pos in
      let here : s'.cache ≡ t = ground (arith, done, h) in
      let es = without ut.same_key key (ut.hash_iter s.cache) in
      let count = length-append es ((key, value) ∷ []) in
      let all = es ++ (key, value) ∷ [] in
      let cut = length-newest (length all - limit) all in
      let stays = assoc-newest (length all - limit) key value es distinct (omega (arith, count)) in
      (
        ground (arith, here, walk, cut),
        ground (arith, here, walk, stays, (find_in_cache_lem s' key).0),
      )
