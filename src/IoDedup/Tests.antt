-- ===== src/IoDedup/Tests.antt =====
-- iodedup/ over the table of utils/uhashtab.c, at a concrete state: blocks 1 and 2 hold content 8, under ID 3.
use mathlib.Core.Path.{subst}
use sim_replay.Prelude.{
  ℕ, ◌≡◌, ◌≢◌, List, [], ◌∷◌, arith, refl, ok, none, some, true, false, if◌then◌else◌, ◌==◌, Bool,
  leb, ltb, ◌-◌, ◌%◌, ◌&&◌,
}
use sim_replay.Hashtab.Defs.{Hashtab, nodes}
use sim_replay.Hashtab.Order.{assoc}
use sim_replay.Hashtab.Table.{IsValid, lookup}
use sim_replay.Hashtab.Api.{TableApi, hashtab_api}
use sim_replay.Hashtab.Tests.{number_cmp, number_cmp-IsKeyCmp, remainder}
use sim_replay.ContentDedup.Bag.{count}
use sim_replay.Vectors.Defs.{get}
use sim_replay.Modes.{Modes}
use sim_replay.IoDedup.P2d.{P2d, p2dmaps_get, dontcare_lastblk, zeroblk_flag}
use sim_replay.IoDedup.D2pv.{D2pv, Maps, get_dedup_map, noinit_stage}
use sim_replay.IoDedup.Defs.{IoDedup, mapping_trim_scan_io}
use sim_replay.IoDedup.Ops.{MapCounts, resume_deduping}
use sim_replay.IoDedup.Sound.{object_of, IsSound, IsLive}
use sim_replay.IoDedup.Consistent.{blocks_of, names, digest_of, IsConsistent}
use sim_replay.IoDedup.Trim.{IsTrimmed, mapping_trim_scan_io-IsTrimmed}
use sim_replay.IoDedup.Note.{IsNoted, resume_deduping-IsNoted}
use sim_replay.VolMap.Defs.{VolMap, get_virt_to_phys}
use sim_replay.IoDedup.Scan.{ioscan_vm_image, digest, ioscan_vm_image_lem}
use sim_replay.IoDedup.Free.{free_dedupmap, free_dedupmap_lem}
use sim_replay.IoDedup.Refine.{config, Write, last_write, run_writes, run_writes_lem, Below}

abbrev pub api : TableApi ℕ ℕ
api = hashtab_api ℕ number_cmp remainder number_cmp-IsKeyCmp

abbrev pub table : Hashtab ℕ ℕ
table = record { htable = ((8, 0) ∷ []) ∷ [] ∷ [] ∷ [] ∷ []; size = 4; nel = 1 }

table-IsValid : IsValid number_cmp remainder table
unfolding nodes
table-IsValid = record {
  in_range = λ k. omega arith;
  sized = refl;
  slots = ((tt, tt), (refl, tt), (tt, tt, (tt, tt, (tt, tt, tt))));
  counted = refl;
  bounded = omega arith;
}

abbrev pub entry : P2d
entry = record { iodedup_id = 3; pdirty = false }

abbrev pub object : D2pv ℕ
object = record { ioblk_id = 1; iodedup_id = 3; dhashkey = 8; d2pmaps = 2 ∷ 1 ∷ [] }

abbrev pub maps : Maps ℕ (api.Table)
unfolding hashtab_api
maps = record {
  heap = λ q. if q == 0 then some object else none;
  next = 1;
  dedupmap_by_did = record { data_at = λ i. if i == 3 then some 0 else none; size = 8; room = 8 };
  deduptab = table;
  dedup_num = 3;
  curr_reusable = [];
  new_reusable = [];
}

abbrev pub state : IoDedup ℕ (api.Table)
state = record {
  p2dmaps = record {
    data_at = λ i. if i == 1 then some entry else if i == 2 then some entry else none;
    size = 4;
    room = 4;
  };
  maps = maps;
  counts = record { iocollisionstp = 1; max_dedupfactor = 2; dedupfactor = λ i. 0 };
}

object-IsLive : IsLive api maps 0 object
unfolding hashtab_api lookup assoc nodes get_dedup_map get
object-IsLive = record {
  here = refl;
  by_id = refl;
  by_key = refl;
  allocated = omega arith;
  above_dummy = omega arith;
  below_num = omega arith;
}

maps-IsSound : IsSound api maps
unfolding hashtab_api lookup assoc nodes get_dedup_map get count
maps-IsSound = record {
  good = table-IsValid;
  fit = omega arith;
  keyed = λ k p h.
      (object, subst (λ q. IsLive api maps q object) (ground arith) object-IsLive, ground arith);
  named = λ id p h.
      (object, subst (λ q. IsLive api maps q object) (ground arith) object-IsLive, ground arith);
  reusable = λ id h. absurd (h refl);
  once = λ id. omega arith;
  started = omega arith;
  small = omega arith;
}

pub state-IsConsistent : IsConsistent api state
unfolding hashtab_api count get_dedup_map get object_of blocks_of names p2dmaps_get
state-IsConsistent = record {
  sound = maps-IsSound;
  fit = omega arith;
  agree = λ id b ne. ground arith;
  kept = λ id d h. ground arith;
}

-- A simulated disk, with digests in the trace.
abbrev modes : Modes
modes = record {
  disksimflag = true;
  runtimemap = true;
  collectformat = true;
  vmbunchreplay = false;
  scan = false;
  sreplayflag = false;
}

abbrev hash : ℕ → ℕ
hash c = c

abbrev pub no_counts : MapCounts
no_counts = record {
  cmap_hits = 0;
  cmap_misses = 0;
  cmap_dirties = 0;
  compulsory_misses = 0;
  capacity_misses = 0;
}

flag_good : dontcare_lastblk ≢ zeroblk_flag
flag_good e = ground arith

mapping_trim_scan_io-IsTrimmed_example :
    (s' : IoDedup ℕ (api.Table)) × (mapping_trim_scan_io api true state 2 ≡ ok (s', false))
    × IsTrimmed api state s' 2
unfolding hashtab_api
mapping_trim_scan_io-IsTrimmed_example =
    mapping_trim_scan_io-IsTrimmed api state 2 state-IsConsistent (omega arith) (omega arith)

resume_deduping-IsNoted_example :
    (s' : IoDedup ℕ (api.Table)) × (resume_deduping api hash
        (config modes)
        (record { cmaphit = none; already_had = none })
        state
        (some 8)
        32
        5
        noinit_stage
        dontcare_lastblk
        true
      ≡ ok (s', false))
    × IsNoted api state s' 5 8
unfolding hashtab_api names p2dmaps_get get
resume_deduping-IsNoted_example =
    resume_deduping-IsNoted api hash modes none state 8 32 5 noinit_stage dontcare_lastblk
      state-IsConsistent (λ id ne. refl) (λ e. ground arith) flag_good (omega arith) (omega arith)
      (omega arith)

abbrev writes : List (Write ℕ)
writes =
    record { block = 1; content = 6; had = none }
    ∷ record { block = 7; content = 8; had = none }
    ∷ record { block = 1; content = 9; had = none }
    ∷ []

run_writes_lem_example :
    (s' : IoDedup ℕ (api.Table)) × (run_writes api hash modes writes state ≡ ok (s', false))
    × IsConsistent api s'
    × ((j : ℕ)
        → digest_of s' j
          ≡ elim (last_write writes j) [ some content ↦ some content | none ↦ digest_of state j ])
unfolding hashtab_api Below
run_writes_lem_example =
    run_writes_lem api hash modes refl writes state state-IsConsistent
      (omega arith, (omega arith, (omega arith, tt))) (omega arith) (omega arith)

-- Volume 0 is at block 10 of the disk.
abbrev volmap : VolMap ℕ ℕ
volmap = record {
  volumes = record {
    data_at =
        λ i. if i == 0 then some (record { vmname = 0; vol_id = 0; base = 10; cap = 4 }) else none;
    size = 1;
    room = 1;
  };
  voltab = 0;
  num_vol = 1;
}

abbrev even_is_zero : ℕ → Bool
even_is_zero c = c % 2 == 0

ioscan_vm_image_lem_example :
    (s' : IoDedup ℕ (api.Table)) × (ioscan_vm_image api hash even_is_zero
        (config modes)
        volmap
        0
        (λ i. i)
        (λ i. false)
        state
        0
        3
      ≡ ok (s', false))
    × IsConsistent api s'
    × ((j : ℕ)
        → digest_of s' j
          ≡ (if leb 10 j && ltb j 13 then digest hash even_is_zero (j - 10) else digest_of state j))
unfolding hashtab_api names p2dmaps_get get get_virt_to_phys
ioscan_vm_image_lem_example =
    ioscan_vm_image_lem api hash even_is_zero (config modes) volmap 0 10 (λ i. i) (λ i. false) 3
      state 0 (λ i a b. refl) (λ i a b. ground arith) state-IsConsistent
      (λ j id a b ne. ground arith) (omega arith) (omega arith) (omega arith)

free_dedupmap_lem_example :
    (m' : Maps ℕ (api.Table)) × (free_dedupmap api maps ≡ ok m')
    × ((id : ℕ) → get_dedup_map m' id ≡ none)
    × ((k : ℕ) → api.lookup m'.deduptab k ≡ none)
unfolding hashtab_api maps
free_dedupmap_lem_example = free_dedupmap_lem api maps maps-IsSound (omega arith)
