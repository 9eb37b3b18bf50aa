-- ===== src/VolMap/Tests.antt =====
-- controller-utils/v2p-map.c on a map file of two lines, with numbers for names.
use sim_replay.Prelude.{
  ℕ, ◌≡◌, ◌≢◌, List, [], ◌∷◌, none, some, true, false, arith, refl, ok, if◌then◌else◌, ◌==◌,
}
use sim_replay.Hashtab.Defs.{Hashtab, search, insert, chain_search, chain_insert}
use sim_replay.Hashtab.Api.{TableApi, hashtab_api}
use sim_replay.Hashtab.Tests.{number_cmp, number_cmp-IsKeyCmp, remainder}
use sim_replay.Vectors.Defs.{Vector, vector16_set, get, init, write, cleared}
use sim_replay.VolMap.Defs.{
  VmInfo, VolMap, test_overlap, test_overlap_vm, overlaps_from, verify_vm_info, read_line, read_map,
  create, get_virt_to_phys, update_virt_to_phys,
}
use sim_replay.VolMap.Injective.{AreApart, get_virt_to_phys-read_map}
use sim_replay.VolMap.Update.{update_virt_to_phys-AreApart, update_virt_to_phys_refused}

abbrev first : VmInfo ℕ
first = record { vmname = 1; vol_id = 0; cap = 10; base = 0 }

abbrev second : VmInfo ℕ
second = record { vmname = 2; vol_id = 1; cap = 5; base = 12 }

abbrev api : TableApi ℕ ℕ
api = hashtab_api ℕ number_cmp remainder number_cmp-IsKeyCmp

abbrev empty : api.Table
unfolding hashtab_api
empty = record { htable = [] ∷ [] ∷ []; size = 2; nel = 0 }

abbrev known : Hashtab ℕ ℕ
known = record { htable = ((2, 1) ∷ []) ∷ ((1, 0) ∷ []) ∷ []; size = 2; nel = 2 }

abbrev volumes : Vector (VmInfo ℕ)
volumes = record {
  data_at = λ i.
      if i == 1
      then some second
      else cleared 1 2 (λ i. if i == 0 then some first else cleared 0 1 (λ _. none) i) i;
  size = 2;
  room = 2;
}

abbrev both : VolMap ℕ (api.Table)
unfolding hashtab_api
both = record { volumes = volumes; voltab = known; num_vol = 2 }

abbrev grown : ℕ → VolMap ℕ (api.Table)
unfolding both
grown blocks = record both {
  volumes = record volumes {
    data_at = λ i. if i == 0 then some (record first { cap = blocks }) else volumes.data_at i;
  };
}

program : Unit {0}
unfolding hashtab_api empty both grown search insert chain_search chain_insert vector16_set get init
    write cleared test_overlap test_overlap_vm overlaps_from verify_vm_info read_line read_map
    get_virt_to_phys update_virt_to_phys
program = tt

abbrev lines : List (ℕ × ℕ × ℕ)
lines = (1, 10, 0) ∷ (2, 5, 12) ∷ []

reads_both : read_map api (create api empty) lines ≡ ok (both, true)
unfolding program
reads_both = refl

third : get_virt_to_phys false both 1 2 ≡ ok (some 14)
unfolding program
third = refl

get_virt_to_phys-read_map_example : (◌≡◌ {A = ℕ} 1 1) × (◌≡◌ {A = ℕ} 2 2)
unfolding hashtab_api
get_virt_to_phys-read_map_example =
    get_virt_to_phys-read_map api empty lines 1 1 2 2 14
      ((omega arith, omega arith, omega arith), ((omega arith, omega arith, omega arith), tt))
      (omega arith) reads_both third third

both-AreApart : AreApart both
unfolding get cleared test_overlap_vm test_overlap both
both-AreApart = record {
  fit = omega arith;
  counted = refl;
  sane = λ i p g. ground arith;
  apart = λ i j p q g h ne. ground arith;
}

grows : update_virt_to_phys both 0 11 ≡ ok (grown 12, true)
unfolding program
grows = refl

update_virt_to_phys-AreApart_example : AreApart (grown 12)
update_virt_to_phys-AreApart_example =
    update_virt_to_phys-AreApart 0 11 both-AreApart (omega arith) grows

-- Block 12 of the disk belongs to the second volume.
refused : update_virt_to_phys both 0 12 ≡ ok (grown 13, false)
unfolding program
refused = refl

found : get both.volumes 0 ≡ some first
unfolding program
found = refl

-- Block 11 as well, that is below it.
update_virt_to_phys_refused_example :
    (get_virt_to_phys false both 0 12 ≡ ok none)
    × (get_virt_to_phys false (grown 13) 0 11 ≡ ok (some 11))
    × ((j : ℕ) × (p : VmInfo ℕ) × (j ≢ 0)
        × (get (grown 13).volumes j ≡ some p)
        × (test_overlap_vm p (record first { cap = 13 }) ≡ true))
update_virt_to_phys_refused_example =
    update_virt_to_phys_refused both 0 12 11 first found (omega arith) (omega arith) refused

-- The refused block is in bounds afterwards, and is the first block of the second volume.
shared :
    (get_virt_to_phys false (grown 13) 0 12 ≡ ok (some 12))
    × (get_virt_to_phys false (grown 13) 1 0 ≡ ok (some 12))
unfolding program
shared = (refl, refl)
