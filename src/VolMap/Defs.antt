-- ===== src/VolMap/Defs.antt =====
-- controller-utils/v2p-map.c. A line of the map file is given as read: name, capacity and base, for which the
-- code calls strtok_r, sscanf and atol. What calloc gives is a flag.
use sim_replay.Prelude.{
  ℕ, zero, suc, ◌+◌, ◌-◌, ◌%◌, ◌^◌, List, [], ◌∷◌, Option, none, some, Bool, true, false, not, ◌&&◌,
  Result, ok, err, fault, ◌==◌, leb, if◌then◌else◌, ◌>>=◌,
}
use sim_replay.Hashtab.Api.{TableApi}
use sim_replay.Vectors.Defs.{Vector, vector16_set, get, init}

-- `struct vm_info`
pub record VmInfo (N : Type 0) : Type 0 where
  pub vmname : N
  pub vol_id : ℕ
  pub cap : ℕ
  pub base : ℕ

-- `v2pmaps`, `voltab` and `numVolID`
pub record VolMap (N T : Type 0) : Type 0 where
  pub volumes : Vector (VmInfo N)
  pub voltab : T
  pub num_vol : ℕ

-- `testOverlap`
unfoldable pub test_overlap : ℕ → ℕ → ℕ → ℕ → Bool
test_overlap x1 x2 y1 y2 = leb x1 y2 && leb y1 x2

module _ {N : Type 0} where
  -- `pBlkID_base + vBlkID_cap - 1`
  abbrev pub last_blk : VmInfo N → ℕ
  last_blk v = (v.base + v.cap + 2 ^ 32 - 1) % 2 ^ 32

  -- `testOverlapVM`
  unfoldable pub test_overlap_vm : VmInfo N → VmInfo N → Bool
  unfolding test_overlap
  test_overlap_vm a v = test_overlap a.base (last_blk a) v.base (last_blk v)

  -- The loop over `v2pmaps` from index `i`, for `n` more; `skip` is the test `ptri != v`.
  unfoldable pub overlaps_from : ℕ → ℕ → Vector (VmInfo N) → (ℕ → Bool) → VmInfo N → Bool
  overlaps_from zero i volumes skip v = false
  overlaps_from (suc n) i volumes skip v =
      let rest = overlaps_from n (suc i) volumes skip v in
      elim (get volumes i) [
        | none ↦ rest
        | some p ↦ if skip i then rest else if test_overlap_vm p v then true else rest
      ]

module _ {N T : Type 0} where
  -- `getVirttoPhysMap`: `ok none` is the out-of-bounds error, and an unknown volume is a NULL read.
  unfoldable pub get_virt_to_phys : Bool → VolMap N T → ℕ → ℕ → Result (Option ℕ)
  get_virt_to_phys disksimflag s vol_id blk = elim (get s.volumes vol_id) [
    | none ↦ fault
    | some v ↦
        if leb v.cap blk && not disksimflag then ok none else ok (some ((v.base + blk) % 2 ^ 32))
  ]

  -- `updateVirttoPhysMap`: the capacity is raised in place before the test. The Boolean says success.
  unfoldable pub update_virt_to_phys : VolMap N T → ℕ → ℕ → Result (VolMap N T × Bool)
  update_virt_to_phys s vol_id blk = elim (get s.volumes vol_id) [
    | none ↦ fault
    | some v ↦
        let v' = record v { cap = (blk + 1) % 2 ^ 32 } in
        let volumes = record s.volumes {
          data_at = λ i. if i == vol_id then some v' else s.volumes.data_at i;
        } in
        if leb ((blk + 1) % 2 ^ 32) v.cap
        then ok (s, true)
        else ok (
          record s { volumes = volumes },
          not (overlaps_from volumes.size 0 volumes (λ i. i == vol_id) v'),
        )
  ]

  -- `volIDexists` and `getLastvBlk`
  unfoldable pub vol_id_exists : VolMap N T → ℕ → Bool
  vol_id_exists s vol_id = elim (get s.volumes vol_id) [ none ↦ false | some _ ↦ true ]

  unfoldable pub get_last_v_blk : VolMap N T → ℕ → Option ℕ
  get_last_v_blk s vol_id = elim (get s.volumes vol_id) [
    | none ↦ none
    | some v ↦ some ((v.cap + 2 ^ 32 - 1) % 2 ^ 32)
  ]

module _ {N : Type 0} (api : TableApi N ℕ) where
  -- The end of `verify_vm_info`, on the status of `hashtab_insert`.
  registered :
      VolMap N api.Table
      → VmInfo N
      → Result api.Table
      → Result (VolMap N api.Table × VmInfo N × Bool)
  registered s v (ok t) = ok (record s { voltab = t }, v, true)
  registered s v (err e) = ok (s, v, false)
  registered s v fault = fault

  -- `verify_vm_info`; the Boolean says success.
  unfoldable pub verify_vm_info :
      VolMap N api.Table → VmInfo N → Bool → Bool → Result (VolMap N api.Table × VmInfo N × Bool)
  unfolding registered
  verify_vm_info s v got_vdatum got_node = do
    found ← api.search s.voltab v.vmname
    elim found [
      | some _ ↦ ok (s, v, false)
      | none ↦
          if overlaps_from s.volumes.size 0 s.volumes (λ _. false) v
          then ok (s, v, false)
          else let v' = record v { vol_id = s.num_vol } in
            let s' = record s { num_vol = (s.num_vol + 1) % 2 ^ 16 } in
            if got_vdatum
            then registered s' v' (api.insert s.voltab v.vmname s.num_vol got_node)
            else ok (s', v', false)
    ]

  -- One line of the map file: `interpret_one_v2p_map`, and the entry into `v2pmaps`.
  unfoldable pub read_line :
      VolMap N api.Table → N × ℕ × ℕ → Bool → Bool → Result (VolMap N api.Table × Bool)
  unfolding verify_vm_info
  read_line s (name, blocks, first) got_vdatum got_node = do
    (s', v, good) ←
        verify_vm_info s (record { vmname = name; vol_id = 0; cap = blocks; base = first })
          got_vdatum got_node
    elim good [
      | true ↦ vector16_set s'.volumes v.vol_id (some v) >>= λ volumes.
          ok (record s' { volumes = volumes }, true)
      | false ↦ ok (s', false)
    ]

  -- `read_default_input_v2p_mapping`, for the lines that do not start with # and with memory: it ends at the first
  -- line that fails.
  unfoldable pub read_map :
      VolMap N api.Table → List (N × ℕ × ℕ) → Result (VolMap N api.Table × Bool)
  read_map s [] = ok (s, true)
  read_map s (line ∷ lines) = do
    (s', good) ← read_line s line true true
    (let rest = read_map s' lines in if good then rest else ok (s', false))

  -- `create_v2pmaps`
  abbrev pub create : api.Table → VolMap N api.Table
  create t = record { volumes = init; voltab = t; num_vol = 0 }
