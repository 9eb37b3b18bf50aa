-- ===== src/VolMap/Injective.antt =====
-- The volumes that controller-utils/v2p-map.c reads, and extends, stay apart: no block of the disk belongs to
-- two of them.
use sim_replay.Prelude.{
  ℕ, ◌+◌, ◌-◌, ◌%◌, ◌^◌, ◌≤◌, ◌<◌, ◌≡◌, ◌≢◌, List, [], ◌∷◌, none, some, true, false, arith, refl,
  ok, Option-cases, Bool-cases, Result-cases, inl, inr, if◌then◌else◌, ◌==◌, length, ◌∙◌,
}
use sim_replay.Hashtab.Api.{TableApi}
use sim_replay.Vectors.Defs.{get, vector16_set, init}
use sim_replay.Vectors.Laws.{get-vector16_set}
use sim_replay.VolMap.Defs.{
  VmInfo, VolMap, test_overlap_vm, overlaps_from, verify_vm_info, read_line, read_map, create,
  get_virt_to_phys,
}
use sim_replay.VolMap.Apart.{
  Sane, apart_blocks, overlap_comm, overlaps_from_none, overlaps_from-vol_id,
}

module _ {N T : Type 0} where
  pub record AreApart (s : VolMap N T) : Type 0 where
    pub fit : s.volumes.size ≤ s.volumes.room
    pub counted : s.volumes.size ≡ s.num_vol
    pub sane : (i : ℕ) (p : VmInfo N) → get s.volumes i ≡ some p → Sane p
    pub apart :
        (i j : ℕ) (p q : VmInfo N)
        → get s.volumes i ≡ some p
        → get s.volumes j ≡ some q
        → i ≢ j
        → test_overlap_vm p q ≡ false

  -- The translation of apart volumes is injective.
  pub get_virt_to_phys-AreApart :
      {s : VolMap N T} (i j a b pblk : ℕ)
      → AreApart s
      → get_virt_to_phys false s i a ≡ ok (some pblk)
      → get_virt_to_phys false s j b ≡ ok (some pblk)
      → (i ≡ j) × (a ≡ b)
  unfolding get_virt_to_phys
  get_virt_to_phys-AreApart {s} i j a b pblk w h h' = elim (Option-cases (get s.volumes i)) [
    | inl e ↦ absurd (ground arith)
    | inr (p, e) ↦ elim (Option-cases (get s.volumes j)) [
      | inl e' ↦ absurd (ground arith)
      | inr (q, e') ↦
          let hi : (a < p.cap) × ((p.base + a) % 2 ^ 32 ≡ pblk) = ground arith in
          let hj : (b < q.cap) × ((q.base + b) % 2 ^ 32 ≡ pblk) = ground arith in
          elim (Bool-cases (i == j)) [
            | inr ne ↦ absurd (
                ground (
                  arith,
                  apart_blocks p q a b (w.sane i p e) (w.sane j q e')
                      (w.apart i j p q e e' (λ x. ground arith)) hi.0 hj.0,
                ))
            | inl eq ↦
                let same : p ≡ q = ground arith in ground (arith, w.sane i p e, w.sane j q e')
          ]
    ]
  ]

  -- One more volume that overlaps none keeps the volumes apart.
  added_apart :
      {s s' : VolMap N T} (v : VmInfo N)
      → AreApart s
      → s.num_vol < 2 ^ 16 - 1
      → Sane v
      → overlaps_from s.volumes.size 0 s.volumes (λ _. false) v ≡ false
      → s'.num_vol ≡ s.num_vol + 1
      → vector16_set s.volumes s.num_vol (some v) ≡ ok s'.volumes
      → AreApart s'
  unfolding get
  added_apart {s} {s'} v w small ok_v none_over count done =
      let (vs, set, fit, size, at) = get-vector16_set s.volumes s.num_vol (some v) w.fit small in
      let same : vs ≡ s'.volumes = ground arith in
      let at' : (j : ℕ) → get s'.volumes j ≡ (if j == s.num_vol then some v else get s.volumes j) =
        λ j. ground (arith, at j) in
      let free : (j : ℕ) (p : VmInfo N) → get s.volumes j ≡ some p → test_overlap_vm p v ≡ false =
        λ j p g.
          overlaps_from_none s.volumes.size 0 s.volumes (λ _. false) v none_over j p (omega arith)
            (ground arith) g refl in
      record {
        fit = ground arith;
        counted = ground (arith, w.counted);
        sane = λ i p g. elim (Bool-cases (i == s.num_vol)) [
          | inl e ↦ let this : v ≡ p = ground (arith, at' i) in ground (arith, ok_v)
          | inr e ↦ w.sane i p (ground (arith, at' i))
        ];
        apart = λ i j p q g h ne. elim (Bool-cases (i == s.num_vol)) [
          | inl e ↦
              let this : v ≡ p = ground (arith, at' i) in
              let other : get s.volumes j ≡ some q = ground (arith, at' j) in
              ground (arith, overlap_comm p q, free j q other)
          | inr e ↦
              let this : get s.volumes i ≡ some p = ground (arith, at' i) in
              elim (Bool-cases (j == s.num_vol)) [
                | inl e' ↦
                    let other : v ≡ q = ground (arith, at' j) in ground (arith, free i p this)
                | inr e' ↦ w.apart i j p q this (ground (arith, at' j)) ne
              ]
        ];
      }

module _ {N : Type 0} (api : TableApi N ℕ) where
  abbrev pub SaneLine : N × ℕ × ℕ → Type 0
  SaneLine (name, blocks, first) = (0 < blocks) × (blocks ≤ 2 ^ 31) × (first ≤ 2 ^ 31 - 1)

  abbrev pub SaneLines : List (N × ℕ × ℕ) → Type 0
  SaneLines [] = Unit
  SaneLines (line ∷ lines) = SaneLine line × SaneLines lines

  read_line-AreApart :
      (s s' : VolMap N api.Table) (line : N × ℕ × ℕ)
      → AreApart s
      → s.num_vol < 2 ^ 16 - 1
      → SaneLine line
      → read_line api s line true true ≡ ok (s', true)
      → AreApart s' × (s'.num_vol ≡ s.num_vol + 1)
  unfolding read_line verify_vm_info
  read_line-AreApart s s' (name, blocks, first) w small ok_l h =
      let v : VmInfo N = record { vmname = name; vol_id = s.num_vol; cap = blocks; base = first } in
      elim (Result-cases (api.search s.voltab name)) [
        | inr bad ↦ absurd (ground arith)
        | inl (some d, e) ↦ absurd (ground arith)
        | inl (none, e) ↦
            elim (Bool-cases (
              overlaps_from s.volumes.size 0 s.volumes (λ _. false)
                (record { vmname = name; vol_id = 0; cap = blocks; base = first }))) [
                  | inl o ↦ absurd (ground arith)
                  | inr o ↦ elim (Result-cases (api.insert s.voltab name s.num_vol true)) [
                    | inr bad ↦ absurd (ground arith)
                    | inl (t, i) ↦
                        let (vs, set, _, _, _) =
                          get-vector16_set s.volumes s.num_vol (some v) w.fit small in
                        let is : s' ≡ (record {
                          volumes = vs;
                          voltab = t;
                          num_vol = (s.num_vol + 1) % 2 ^ 16;
                        }) =
                          ground arith in
                        let count : s'.num_vol ≡ s.num_vol + 1 = ground arith in
                        (
                          added_apart v w small ok_l
                              (overlaps_from-vol_id s.volumes.size 0 s.volumes (λ _. false)
                                  (record { vmname = name; vol_id = 0; cap = blocks; base = first })
                                  s.num_vol
                                ∙ o)
                              count (ground arith),
                          count,
                        )
                  ]
                ]
      ]

  read_map-AreApart :
      (lines : List (N × ℕ × ℕ)) (s s' : VolMap N api.Table)
      → AreApart s
      → s.num_vol + length lines < 2 ^ 16 - 1
      → SaneLines lines
      → read_map api s lines ≡ ok (s', true)
      → AreApart s'
  unfolding read_map
  read_map-AreApart [] s s' w small ok_l h = ground arith
  read_map-AreApart (line ∷ lines) s s' w small ok_l h =
      elim (Result-cases (read_line api s line true true)) [
        | inr bad ↦ absurd (ground arith)
        | inl ((mid, false), e) ↦ absurd (ground arith)
        | inl ((mid, true), e) ↦
            let (w', count) = read_line-AreApart s mid line w (omega arith) ok_l.0 e in
            read_map-AreApart lines mid s' w' (omega (arith, count)) ok_l.1 (ground arith)
      ]

  empty_apart : (t : api.Table) → AreApart (create api t)
  unfolding init get
  empty_apart t = record {
    fit = omega arith;
    counted = refl;
    sane = λ i p g. absurd (ground arith);
    apart = λ i j p q g h ne. absurd (ground arith);
  }

  -- After a map file of fewer than 65535 lines is read with success, each line with 1 to 2^31 blocks that
  -- start below 2^31, and with a disk that is not simulated, `getVirttoPhysMap` gives two blocks that are
  -- in bounds the same block of the disk only if they are the same block of the same volume.
  pub get_virt_to_phys-read_map :
      {s : VolMap N api.Table} (t : api.Table) (lines : List (N × ℕ × ℕ)) (i j a b pblk : ℕ)
      → SaneLines lines
      → length lines < 2 ^ 16 - 1
      → read_map api (create api t) lines ≡ ok (s, true)
      → get_virt_to_phys false s i a ≡ ok (some pblk)
      → get_virt_to_phys false s j b ≡ ok (some pblk)
      → (i ≡ j) × (a ≡ b)
  get_virt_to_phys-read_map {s} t lines i j a b pblk ok_l small h =
      get_virt_to_phys-AreApart i j a b pblk
        (read_map-AreApart lines (create api t) s (empty_apart t) (omega arith) ok_l h)
