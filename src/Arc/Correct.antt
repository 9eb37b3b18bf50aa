-- ===== src/Arc/Correct.antt =====
-- The cache of ARC-cache/arc.c as its callers see it: `__arc_create`, `__arc_add` and `__arc_lookup`.
use sim_replay.Prelude.{
  ℕ, ◌+◌, ◌^◌, ◌≤◌, ◌<◌, ◌≡◌, ◌↔◌, ◌⊎◌, none, some, Bool, true, false, arith, refl, ok, inl, inr,
}
use sim_replay.Arc.Defs.{Arc, create, place_of}
use sim_replay.Arc.Adapt.{Counters, count_miss}
use sim_replay.Arc.Moves.{lookup, add}
use sim_replay.Arc.Lists.{occ, times, total}
use sim_replay.Arc.Inv.{IsValid}
use sim_replay.Arc.Pull.{hash_lookup_lem}
use sim_replay.Arc.Enter.{cached}
use sim_replay.Arc.Ops.{lookup_lem}
use sim_replay.Arc.Added.{kept, counted, target, add-Added}

module _ {K C : Type 0} (same_key : K → K → Bool) (ops_hash : K → ℕ) where
  -- A new cache of a size below 2^31 is consistent, for every bound on the object sizes below 2^31.
  pub create-IsValid :
      (m size c : ℕ)
      → c < 2 ^ 31
      → m < 2 ^ 31
      → IsValid same_key ops_hash m (create {K = K} {C = C} size c)
  unfolding create occ times total
  create-IsValid m size c c_small m_small = record {
    core = record {
      mru_ok = record { sized = refl; fits = tt };
      mfu_ok = record { sized = refl; fits = tt };
      mrug_ok = record { sized = refl; fits = tt };
      mfug_ok = record { sized = refl; fits = tt };
      c_small = c_small;
      m_small = m_small;
      p_le = omega arith;
      room = omega arith;
      directory = λ k n. refl;
      once = λ k n. omega arith;
    };
    resident_bound = omega arith;
    ghost_bound = omega arith;
  }

module _ {K C : Type 0} (same_key : K → K → Bool) (ops_hash : K → ℕ)
    (same_key_iff : (a b : K) → (same_key a b ≡ true) ↔ (a ≡ b)) where
  -- `__arc_add` of an object of a size from 1 to `m` to a consistent cache returns an object when there is
  -- memory for one. The cache stays consistent, the limit is as before, the target and the counters
  -- are adapted by whether the name is resident, in a ghost list or unknown.
  pub add_returns :
      {m : ℕ} {cache : Arc K C} (n : Counters) (warmup updatehits : Bool) (key : K) (content : C)
      (len ioblk : ℕ)
      → IsValid same_key ops_hash m cache
      → 0 < len
      → len ≤ m
      → (next : Arc K C) × (add same_key ops_hash cache n warmup updatehits true key content len
            ioblk
          ≡ ok (next, counted same_key (cached same_key cache key len) warmup updatehits n, true))
        × IsValid same_key ops_hash m next
        × (next.c ≡ cache.c)
        × (next.p ≡ target same_key cache key len)
  add_returns n warmup updatehits key content len ioblk v pos le =
      let (next, a) =
        add-Added same_key ops_hash same_key_iff n warmup updatehits key content len ioblk v pos
          le in
      (next, a.done, a.valid, a.same_c, a.new_p)

  -- After `__arc_add`, with memory, of an object of a size from 1 to the bound `m` to a consistent cache,
  -- `__arc_lookup` of the name returns the object that was resident, or else one with the new content and
  -- I/O block.
  pub lookup-add :
      {m : ℕ} {cache next : Arc K C} (n : Counters) {n' : Counters} (warmup updatehits : Bool)
      {got : Bool} (key : K) (content : C) (len ioblk : ℕ)
      → IsValid same_key ops_hash m cache
      → 0 < len
      → len ≤ m
      → add same_key ops_hash cache n warmup updatehits true key content len ioblk
        ≡ ok (next, n', got)
      → (after : Arc K C) × (lookup same_key ops_hash next key len
          ≡ ok (after, some (kept same_key (cached same_key cache key len) key content len ioblk)))
  lookup-add {next = next} n warmup updatehits key content len ioblk v pos le h =
      let (next', a) =
        add-Added same_key ops_hash same_key_iff n warmup updatehits key content len ioblk v pos
          le in
      let (after, done, _, _, _, _, _) =
        lookup_lem same_key ops_hash same_key_iff key len a.valid in
      (after, ground (arith, done, h, a.done, a.holds))

  -- The load of the resident lists after `__arc_add`, with memory, of an object of a size from 1 to the
  -- bound `m` to a consistent cache: it is within the limit, or it is what it was, or the new target and
  -- the object together exceed the limit.
  pub load-add :
      {m : ℕ} {cache next : Arc K C} (n : Counters) {n' : Counters} (warmup updatehits : Bool)
      {got : Bool} (key : K) (content : C) (len ioblk : ℕ)
      → IsValid same_key ops_hash m cache
      → 0 < len
      → len ≤ m
      → add same_key ops_hash cache n warmup updatehits true key content len ioblk
        ≡ ok (next, n', got)
      → (next.mru.size + next.mfu.size ≤ next.c)
        ⊎ ((next.mru.size + next.mfu.size ≡ cache.mru.size + cache.mfu.size)
            ⊎ (next.c < next.p + len))
  load-add {next = next} n warmup updatehits key content len ioblk v pos le h =
      let (next', a) =
        add-Added same_key ops_hash same_key_iff n warmup updatehits key content len ioblk v pos
          le in
      ground (arith, a.load, h, a.done)

  -- Without memory for an object, `__arc_add` of a name that is in no list of a consistent cache counts a
  -- miss, and leaves the cache as it is.
  pub add_no_memory :
      {m : ℕ} {cache : Arc K C} (n : Counters) (warmup updatehits : Bool) (key : K) (content : C)
      (len ioblk : ℕ)
      → IsValid same_key ops_hash m cache
      → place_of same_key cache key len ≡ none
      → add same_key ops_hash cache n warmup updatehits false key content len ioblk
        ≡ ok (cache, count_miss warmup updatehits n, false)
  unfolding add
  add_no_memory n warmup updatehits key content len ioblk v h =
      elim (hash_lookup_lem same_key ops_hash same_key_iff key len v.core) [
        | inl (done, e, z) ↦ ground (arith, done)
        | inr (place, o, done, e, f) ↦ ground (arith, e, h)
      ]
