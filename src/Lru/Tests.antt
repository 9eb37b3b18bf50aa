-- ===== src/Lru/Tests.antt =====
-- The block cache at concrete entries, with a list in the place of the hash table of the library.
use sim_replay.Prelude.{
  ℕ, ◌≤◌, ◌≡◌, List, [], ◌∷◌, ◌++◌, some, Bool, true, false, ok, ◌==◌, ==_iff, arith, refl, length,
}
use sim_replay.Lru.Uthash.{Uthash, assoc, without}
use sim_replay.Lru.Defs.{Lru, prune, note_write, add_to_cache}
use sim_replay.Lru.Order.{used, add_to_cache_lem}
use sim_replay.Lru.Sector.{
  Flags, Stored, bytes, Preq, Sector, len_of, sectorcache_add, find_in_sectorcache, stored_value,
  overwrite_in_sectorcache,
}
use sim_replay.Lru.Replay.{find_in_sectorcache-overwrite}

abbrev in_list : (V : Type 0) → Uthash ℕ V
in_list V = record {
  Table = List (ℕ × V);
  same_key = λ a b. a == b;
  same_key_iff = ==_iff;
  hash_find_str = λ t k. assoc (λ a b. a == b) k t;
  hash_delete = λ t k. without (λ a b. a == b) k t;
  hash_add_keyptr = λ t k v. t ++ (k, v) ∷ [];
  hash_count = λ t. length t;
  hash_iter = λ t. t;
  find_iter = λ t k. refl;
  count_iter = λ t. refl;
  iter_delete = λ t k. refl;
  iter_add = λ t k v. refl;
}

abbrev two : Lru (List (ℕ × ℕ))
two = record {
  cache = (1, 10) ∷ (2, 20) ∷ [];
  bcache_hits = 0;
  bcache_hits_w = 0;
  bcache_misses = 0;
  bcache_misses_w = 0;
}

abbrev numbers : Uthash ℕ ℕ
numbers = in_list ℕ

abbrev after : Lru (List (ℕ × ℕ))
after = record two { cache = (2, 20) ∷ (3, 30) ∷ []; bcache_misses = 1; bcache_misses_w = 1 }

add_to_cache_lem_example :
    (t : List (ℕ × ℕ)) × (add_to_cache numbers 2 two 3 30 true false 3 true
      ≡ ok (record after { cache = t }, 0))
    × (t ≡ used numbers 2 3 30 two.cache)
unfolding assoc note_write
add_to_cache_lem_example = add_to_cache_lem numbers 2 two 3 30 true false 3 (omega arith)

evicts_oldest : add_to_cache numbers 2 two 3 30 true false 3 true ≡ ok (after, 0)
unfolding add_to_cache prune note_write assoc without
evicts_oldest = refl

abbrev contents : Uthash ℕ (Stored ℕ)
contents = in_list (Stored ℕ)

abbrev flags : Flags
flags = record {
  preplayflag = true;
  freplayflag = false;
  sreplayflag = false;
  ioreplayflag = false;
  collectformat = true;
  disksimflag = true;
  cachesimflag = true;
  warmupflag = false;
  read_enabled = true;
  write_enabled = true;
  hash_format = true;
  block_format = false;
  real_scan = false;
  fmaphit_flag = false;
  fmapdirty_flag = false;
  vmaphit_flag = false;
  vmapdirty_flag = false;
}

abbrev start : Sector (List (ℕ × Stored ℕ))
start = record {
  lru = record {
    cache = (7, bytes 32 70) ∷ [];
    bcache_hits = 0;
    bcache_hits_w = 0;
    bcache_misses = 0;
    bcache_misses_w = 0;
  };
  bcache_hits_r = 0;
  bcache_misses_r = 0;
  compulsory_misses = 0;
  capacity_misses = 0;
}

abbrev request : Bool → ℕ → Preq ℕ ℕ
request rw content = record {
  rw = rw;
  ioblk = 9;
  blkidkey = 9;
  content = some content;
  done = false;
  bcachefound = false;
}

abbrev same : ℕ → ℕ → ℕ → Bool
same n a b = a == b

abbrev name : ℕ → ℕ
name k = k

abbrev written : Sector (List (ℕ × Stored ℕ))
written = record start {
  lru = record {
    cache = (9, bytes 32 90) ∷ [];
    bcache_hits = 0;
    bcache_hits_w = 0;
    bcache_misses = 1;
    bcache_misses_w = 1;
  };
}

writes :
    overwrite_in_sectorcache contents name name same flags 1 start (request false 90)
    ≡ ok (written, request false 90)
unfolding overwrite_in_sectorcache len_of stored_value sectorcache_add add_to_cache prune note_write
    assoc without
writes = refl

find_in_sectorcache-overwrite_example :
    (length written.lru.cache ≤ 1)
    × ((s : Sector (List (ℕ × Stored ℕ))) × (find_in_sectorcache contents name name same flags
            written
            (request true 90)
          ≡ ok (s, record (request true 90) { done = true; bcachefound = true })))
unfolding assoc without
find_in_sectorcache-overwrite_example =
    find_in_sectorcache-overwrite contents name name same flags 1 start (request false 90)
      (request true 90) 90 90 refl refl refl refl refl (omega arith) refl refl refl refl refl refl
      refl writes
