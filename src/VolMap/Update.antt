-- ===== src/VolMap/Update.antt =====
-- `updateVirttoPhysMap` of controller-utils/v2p-map.c: the capacity of a volume grows with the trace.
use mathlib.Core.Path.{subst, sym}
use sim_replay.Prelude.{
  ℕ, ◌+◌, ◌%◌, ◌^◌, ◌<◌, ◌≤◌, ◌-◌, ◌≡◌, ◌≢◌, none, some, true, false, arith, refl, ok, Option-cases,
  Bool-cases, inl, inr, if◌then◌else◌, ◌==◌, leb,
}
use sim_replay.Vectors.Defs.{Vector, get}
use sim_replay.VolMap.Defs.{
  VmInfo, VolMap, test_overlap_vm, overlaps_from, get_virt_to_phys, update_virt_to_phys,
}
use sim_replay.VolMap.Apart.{Sane, overlap_comm, overlaps_from_none, overlaps_from_lem}
use sim_replay.VolMap.Injective.{AreApart}

module _ {N T : Type 0} where
  -- A volume that grows without meeting another keeps the volumes apart.
  grown_apart :
      {s : VolMap N T} (i : ℕ) (v v' : VmInfo N)
      → AreApart s
      → get s.volumes i ≡ some v
      → Sane v'
      → (vs : Vector (VmInfo N))
      → vs ≡ (record s.volumes { data_at = λ k. if k == i then some v' else s.volumes.data_at k })
      → overlaps_from s.volumes.size 0 vs (λ k. k == i) v' ≡ false
      → AreApart (record s { volumes = vs })
  unfolding get
  grown_apart {s} i v v' w e ok_v vs is clear =
      let at : (j : ℕ) → get vs j ≡ (if j == i then some v' else get s.volumes j) =
        λ j. ground arith in
      let free : (j : ℕ) (p : VmInfo N)
          → (j == i) ≡ false
          → get vs j ≡ some p
          → test_overlap_vm p v' ≡ false =
        λ j p ne g.
          overlaps_from_none s.volumes.size 0 vs (λ k. k == i) v' clear j p (omega arith)
            (ground arith) g ne in
      record {
        fit = ground (arith, w.fit);
        counted = ground (arith, w.counted);
        sane = λ j p g. elim (Bool-cases (j == i)) [
          | inl q ↦ let this : v' ≡ p = ground (arith, at j) in ground (arith, ok_v)
          | inr q ↦ w.sane j p (ground (arith, at j))
        ];
        apart = λ j k p q g h ne. elim (Bool-cases (j == i)) [
          | inl x ↦
              let this : v' ≡ p = ground (arith, at j) in
              let other : (k == i) ≡ false = ground arith in
              ground (arith, overlap_comm p q, free k q other h)
          | inr x ↦ elim (Bool-cases (k == i)) [
            | inl y ↦ let other : v' ≡ q = ground (arith, at k) in ground (arith, free j p x g)
            | inr y ↦ w.apart j k p q (ground (arith, at j)) (ground (arith, at k)) ne
          ]
        ];
      }

  -- `updateVirttoPhysMap` for a block below 2^31, when it succeeds on volumes that are apart, leaves them
  -- apart.
  pub update_virt_to_phys-AreApart :
      {s s' : VolMap N T} (i blk : ℕ)
      → AreApart s
      → blk < 2 ^ 31
      → update_virt_to_phys s i blk ≡ ok (s', true)
      → AreApart s'
  unfolding update_virt_to_phys get
  update_virt_to_phys-AreApart {s} {s'} i blk w small h = elim (Option-cases (get s.volumes i)) [
    | inl e ↦ absurd (ground arith)
    | inr (v, e) ↦ elim (Bool-cases (leb ((blk + 1) % 2 ^ 32) v.cap)) [
      | inl enough ↦ let same : s ≡ s' = ground arith in ground arith
      | inr grows ↦
          let v' : VmInfo N = record v { cap = (blk + 1) % 2 ^ 32 } in
          let vs : Vector (VmInfo N) = record s.volumes {
            data_at = λ k. if k == i then some v' else s.volumes.data_at k;
          } in
          let is : s' ≡ (record s { volumes = vs }) = ground arith in
          let clear : overlaps_from s.volumes.size 0 vs (λ k. k == i) v' ≡ false = ground arith in
          let ok_v : Sane v' = ground (arith, w.sane i v e) in
          let apart = grown_apart i v v' w e ok_v vs refl clear in subst AreApart (sym is) apart
    ]
  ]

  -- When `updateVirttoPhysMap` fails for a known volume and a block below 2^32 - 1, the capacity is raised all the
  -- same, to an extent that meets another volume's: without a simulated disk, the block was out of bounds for
  -- `getVirttoPhysMap`, and it and every block below it are translated from then on, without an error.
  pub update_virt_to_phys_refused :
      (s : VolMap N T) {s' : VolMap N T} (i blk c : ℕ) (v : VmInfo N)
      → get s.volumes i ≡ some v
      → blk < 2 ^ 32 - 1
      → c ≤ blk
      → update_virt_to_phys s i blk ≡ ok (s', false)
      → (get_virt_to_phys false s i blk ≡ ok none)
        × (get_virt_to_phys false s' i c ≡ ok (some ((v.base + c) % 2 ^ 32)))
        × ((j : ℕ) × (p : VmInfo N) × (j ≢ i)
            × (get s'.volumes j ≡ some p)
            × (test_overlap_vm p (record v { cap = blk + 1 }) ≡ true))
  unfolding update_virt_to_phys get_virt_to_phys get
  update_virt_to_phys_refused s {s'} i blk c v e small le h =
      elim (Bool-cases (leb ((blk + 1) % 2 ^ 32) v.cap)) [
        | inl enough ↦ absurd (ground arith)
        | inr grows ↦
            let next : (blk + 1) % 2 ^ 32 ≡ blk + 1 = omega arith in
            let v' : VmInfo N = record v { cap = (blk + 1) % 2 ^ 32 } in
            let vs : Vector (VmInfo N) = record s.volumes {
              data_at = λ k. if k == i then some v' else s.volumes.data_at k;
            } in
            let is : s' ≡ (record s { volumes = vs }) = ground arith in
            let met : overlaps_from s.volumes.size 0 vs (λ k. k == i) v' ≡ true = ground arith in
            let (j, p, at, other, meets) =
              overlaps_from_lem s.volumes.size 0 vs (λ k. k == i) v' met in
            (
              ground (arith, e, grows, next),
              ground (arith, e, is, next),
              (j, p, ground (arith, other), ground (arith, at, is), ground (arith, meets, next)),
            )
      ]
