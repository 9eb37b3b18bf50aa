-- ===== src/VolMap/Apart.antt =====
-- When two volumes of controller-utils/v2p-map.c share a block, and what the loop over all volumes finds.
use sim_replay.Prelude.{
  ℕ, zero, suc, ◌+◌, ◌-◌, ◌%◌, ◌^◌, ◌≤◌, ◌<◌, ◌≡◌, ◌↔◌, some, Bool, true, false, arith, refl, leb,
  Option-cases, Bool-cases, inl, inr, ◌==◌,
}
use sim_replay.Vectors.Defs.{Vector, get}
use sim_replay.VolMap.Defs.{VmInfo, test_overlap, test_overlap_vm, overlaps_from}

module _ {N : Type 0} where
  -- A volume has blocks, and they end before the largest block number.
  abbrev pub Sane : VmInfo N → Type 0
  Sane v = (0 < v.cap) × (v.cap ≤ 2 ^ 31) × (v.base ≤ 2 ^ 31 - 1)

  -- `testOverlapVM` on volumes with 1 to 2^31 blocks that start below 2^31: it says that they overlap
  -- exactly if some block is in both.
  pub test_overlap_vm_iff :
      (a b : VmInfo N)
      → Sane a
      → Sane b
      → (test_overlap_vm a b ≡ true)
        ↔ ((x : ℕ) × (a.base ≤ x) × (x < a.base + a.cap) × (b.base ≤ x) × (x < b.base + b.cap))
  unfolding test_overlap_vm test_overlap
  test_overlap_vm_iff a b p q = (forth, λ (x, h1, h2, h3, h4). ground arith)
    where
      forth :
          test_overlap_vm a b ≡ true
          → (x : ℕ) × (a.base ≤ x) × (x < a.base + a.cap) × (b.base ≤ x) × (x < b.base + b.cap)
      forth h = elim (Bool-cases (leb a.base b.base)) [
        | inl le ↦ (b.base, ground arith, ground arith, ground arith, ground arith)
        | inr gt ↦ (a.base, ground arith, ground arith, ground arith, ground arith)
      ]

  -- Volumes that do not overlap give different blocks.
  pub apart_blocks :
      (a b : VmInfo N) (i j : ℕ)
      → Sane a
      → Sane b
      → test_overlap_vm a b ≡ false
      → i < a.cap
      → j < b.cap
      → (a.base + i) % 2 ^ 32 ≡ (b.base + j) % 2 ^ 32
      → false ≡ true
  unfolding test_overlap_vm test_overlap
  apart_blocks a b i j p q h hi hj e = ground arith

  pub overlap_comm : (a b : VmInfo N) → test_overlap_vm a b ≡ test_overlap_vm b a
  unfolding test_overlap_vm test_overlap
  overlap_comm a b = ground arith

  -- If the loop finds nothing, no volume that it looked at overlaps.
  pub overlaps_from_none :
      (n i : ℕ) (volumes : Vector (VmInfo N)) (skip : ℕ → Bool) (v : VmInfo N)
      → overlaps_from n i volumes skip v ≡ false
      → (j : ℕ) (p : VmInfo N) → i ≤ j
      → j < i + n
      → get volumes j ≡ some p
      → skip j ≡ false
      → test_overlap_vm p v ≡ false
  unfolding overlaps_from
  overlaps_from_none zero i volumes skip v h j p lo hi g s = absurd (omega arith)
  overlaps_from_none (suc n) i volumes skip v h j p lo hi g s = elim (Bool-cases (i == j)) [
    | inl e ↦
        let here : get volumes i ≡ some p = ground arith in
        let kept : skip i ≡ false = ground arith in ground (arith, here, kept, h)
    | inr e ↦
        let rest : overlaps_from n (suc i) volumes skip v ≡ false =
          elim (Option-cases (get volumes i)) [
            | inl q ↦ ground (arith, h, q)
            | inr (p', q) ↦ elim (Bool-cases (skip i)) [
              | inl r ↦ ground (arith, h, q, r)
              | inr r ↦ ground (arith, h, q, r)
            ]
          ] in
        overlaps_from_none n (suc i) volumes skip v rest j p (ground arith) (omega arith) g s
  ]

  -- If the loop finds an overlap, it is with a volume that it looked at.
  pub overlaps_from_lem :
      (n i : ℕ) (volumes : Vector (VmInfo N)) (skip : ℕ → Bool) (v : VmInfo N)
      → overlaps_from n i volumes skip v ≡ true
      → (j : ℕ) × (p : VmInfo N) × (get volumes j ≡ some p)
        × (skip j ≡ false)
        × (test_overlap_vm p v ≡ true)
  unfolding overlaps_from
  overlaps_from_lem zero i volumes skip v h = absurd (ground arith)
  overlaps_from_lem (suc n) i volumes skip v h = elim (Option-cases (get volumes i)) [
    | inl e ↦ overlaps_from_lem n (suc i) volumes skip v (ground (arith, h, e))
    | inr (p, e) ↦ elim (Bool-cases (skip i)) [
      | inl y ↦ overlaps_from_lem n (suc i) volumes skip v (ground (arith, h, e, y))
      | inr y ↦ elim (Bool-cases (test_overlap_vm p v)) [
        | inl z ↦ (i, p, e, y, z)
        | inr z ↦ overlaps_from_lem n (suc i) volumes skip v (ground (arith, h, e, y, z))
      ]
    ]
  ]

  -- The loop reads the extent of the new volume, and not its number.
  pub overlaps_from-vol_id :
      (n i : ℕ) (volumes : Vector (VmInfo N)) (skip : ℕ → Bool) (v : VmInfo N) (vol_id : ℕ)
      → overlaps_from n i volumes skip (record v { vol_id = vol_id })
        ≡ overlaps_from n i volumes skip v
  unfolding overlaps_from test_overlap_vm
  overlaps_from-vol_id zero i volumes skip v vol_id = refl
  overlaps_from-vol_id (suc n) i volumes skip v vol_id = elim (Option-cases (get volumes i)) [
    | inl e ↦ ground (arith, overlaps_from-vol_id n (suc i) volumes skip v vol_id)
    | inr (p, e) ↦ ground (arith, overlaps_from-vol_id n (suc i) volumes skip v vol_id)
  ]
