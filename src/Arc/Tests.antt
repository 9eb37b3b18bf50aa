-- ===== src/Arc/Tests.antt =====
-- ARC-cache/arc.c at concrete caches: number keys, and one bucket.
use sim_replay.Prelude.{
  ℕ, ◌+◌, ◌≤◌, ◌<◌, ◌≡◌, ◌⊎◌, [], ◌∷◌, Option, none, some, Bool, arith, refl, ok, true, false, ◌==◌,
  ==_iff, length,
}
use sim_replay.Arc.Defs.{
  Obj, Arc, find_obj, place_of, hash_lookup, hash_insert, hash_remove, pull_from, pull, push,
  pop_lru, split_last, fetch, is_named, unlink, chained, unchain, slot_of,
}
use sim_replay.Arc.Adapt.{Counters, raised_p, lowered_p, count_hit, count_miss}
use sim_replay.Arc.Balance.{
  balance, balance_resident, balance_ghosts, mru_to_ghost, mfu_to_ghost, drop_mfug, drop_mrug,
}
use sim_replay.Arc.Moves.{move_in, touch, lookup, back_in, create_in, add}
use sim_replay.Arc.Lists.{occ, times, total}
use sim_replay.Arc.Inv.{IsValid}
use sim_replay.Arc.Enter.{cached}
use sim_replay.Arc.Fit.{Roomy, balance-Balanced}
use sim_replay.Arc.Ops.{lookup_lem}
use sim_replay.Arc.Added.{target}
use sim_replay.Arc.Destroy.{destroy, destroy_lem}
use sim_replay.Arc.Correct.{add_returns, lookup-add, load-add}

abbrev same : ℕ → ℕ → Bool
same a b = a == b

abbrev hash : ℕ → ℕ
hash k = k

abbrev block : ℕ → Option ℕ → Obj ℕ ℕ
block key content = record { dhashkey = key; osize = 4; ioblk_id = key; content = content }

-- Names 1 and 2 are resident, name 3 is in the MRU ghost list.
abbrev small : Arc ℕ ℕ
small = record {
  hash_size = 1;
  bucket = λ _. (1, 4) ∷ (2, 4) ∷ (3, 4) ∷ [];
  c = 8;
  p = 4;
  mrug = record { size = 4; objs = block 3 none ∷ [] };
  mru = record { size = 4; objs = block 1 (some 10) ∷ [] };
  mfu = record { size = 4; objs = block 2 (some 20) ∷ [] };
  mfug = record { size = 0; objs = [] };
}

small-IsValid : IsValid same hash 4 small
unfolding occ times total is_named
small-IsValid = record {
  core = record {
    mru_ok = record { sized = refl; fits = (omega arith, omega arith, refl, tt) };
    mfu_ok = record { sized = refl; fits = (omega arith, omega arith, refl, tt) };
    mrug_ok = record { sized = refl; fits = (omega arith, omega arith, refl, tt) };
    mfug_ok = record { sized = refl; fits = tt };
    c_small = omega arith;
    m_small = omega arith;
    p_le = omega arith;
    room = omega arith;
    directory = λ k n. ground arith;
    once = λ k n. ground arith;
  };
  resident_bound = omega arith;
  ghost_bound = omega arith;
}

abbrev zero_counters : Counters
zero_counters = record {
  hits = 0;
  hits_w = 0;
  misses = 0;
  misses_w = 0;
  already_had_flag = false;
  already_had_ioblk_id = 0;
}

-- Name 3 comes back from the ghost list, and the target grows to 5.
add_returns_example :
    (next : Arc ℕ ℕ) × (add same hash small zero_counters false true true 3 30 4 9
      ≡ ok (next, record zero_counters { misses = 1; misses_w = 1 }, true))
    × IsValid same hash 4 next
    × (next.c ≡ 8)
    × (next.p ≡ 5)
unfolding cached target place_of find_obj is_named count_miss
add_returns_example =
    add_returns same hash ==_iff zero_counters false true 3 30 4 9 small-IsValid (omega arith)
      (omega arith)

abbrev with_three : Arc ℕ ℕ
with_three = record small {
  p = 5;
  mrug = record { size = 0; objs = [] };
  mfu = record { size = 4; objs = record (block 3 (some 30)) { ioblk_id = 9 } ∷ [] };
  mfug = record { size = 4; objs = block 2 none ∷ [] };
}

program : Unit {0}
unfolding add back_in create_in move_in touch hash_lookup place_of find_obj is_named chained unchain
    count_miss count_hit raised_p lowered_p balance balance_resident balance_ghosts mru_to_ghost
    mfu_to_ghost drop_mfug drop_mrug pop_lru split_last push pull_from pull unlink fetch hash_insert
    hash_remove
program = tt

added_three :
    add same hash small zero_counters false true true 3 30 4 9
    ≡ ok (with_three, record zero_counters { misses = 1; misses_w = 1 }, true)
unfolding program
added_three = refl

lookup-add_example :
    (after : Arc ℕ ℕ) × (lookup same hash with_three 3 4
      ≡ ok (after, some (record (block 3 (some 30)) { ioblk_id = 9 })))
unfolding cached place_of find_obj is_named
lookup-add_example =
    lookup-add same hash ==_iff zero_counters false true 3 30 4 9 small-IsValid (omega arith)
      (omega arith) added_three

load-add_example :
    (with_three.mru.size + with_three.mfu.size ≤ with_three.c)
    ⊎ ((with_three.mru.size + with_three.mfu.size ≡ small.mru.size + small.mfu.size)
        ⊎ (with_three.c < with_three.p + 4))
load-add_example =
    load-add same hash ==_iff zero_counters false true 3 30 4 9 small-IsValid (omega arith)
      (omega arith) added_three

lookup_lem_example :
    (next : Arc ℕ ℕ) × (lookup same hash small 1 4 ≡ ok (next, cached same small 1 4))
    × IsValid same hash 4 next
    × (cached same next 1 4 ≡ cached same small 1 4)
    × (next.c ≡ 8)
    × (next.p ≡ 4)
    × (next.mru.size + next.mfu.size ≡ 8)
lookup_lem_example = lookup_lem same hash ==_iff 1 4 small-IsValid

balance-Balanced_example :
    (next : Arc ℕ ℕ) × (balance same hash 4 small ≡ ok next)
    × Roomy same hash ==_iff 4 none 4 small next
    × (next.mrug.size + next.mfug.size ≤ 8)
balance-Balanced_example = balance-Balanced same hash ==_iff 4 small-IsValid.core (omega arith)

destroy_lem_example :
    (next : Arc ℕ ℕ) × (destroy same hash small ≡ ok next)
    × (length next.mru.objs + length next.mfu.objs + length next.mrug.objs + length next.mfug.objs
        ≡ 0)
    × ((key len : ℕ) → chained same key len (next.bucket (slot_of same hash next key)) ≡ false)
destroy_lem_example = destroy_lem same hash ==_iff small-IsValid

-- The MFU list is empty and the MRU list is within its target: `__arc_balance` gives up, and the residents
-- exceed the limit.
abbrev stuck : Arc ℕ ℕ
stuck = record small {
  c = 6;
  p = 6;
  mfu = record { size = 0; objs = [] };
  mrug = record { size = 0; objs = [] };
}

gives_up : balance same hash 4 stuck ≡ ok stuck
unfolding program
gives_up = refl
