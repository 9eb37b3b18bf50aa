-- ===== src/IoDedup/Scan.antt =====
-- apriori-fixed/ioscandisk.c: the map of a volume is built from its image. What a block of the image holds, and whether
-- the scan is told to stop, are arguments.
use sim_replay.Prelude.{
  ℕ, zero, suc, ◌+◌, ◌-◌, ◌^◌, ◌%◌, ◌<◌, ◌≤◌, ◌≡◌, ◌≢◌, Option, none, some, Bool, true, false, ◌&&◌,
  arith, refl, Result, ok, fault, ◌>>=◌, ◌==◌, if◌then◌else◌, Option-cases, Bool-cases, inl, inr,
  leb, ltb,
}
use sim_replay.Hashtab.Defs.{max_nodes}
use sim_replay.Hashtab.Api.{TableApi}
use sim_replay.VolMap.Defs.{VolMap, get_virt_to_phys}
use sim_replay.IoDedup.P2d.{p2dmaps_get, zeroblk_flag, goodblk_flag, note_p2d_map, process_blockio}
use sim_replay.IoDedup.D2pv.{init_stage}
use sim_replay.IoDedup.Defs.{IoDedup, note_blockio}
use sim_replay.Modes.{Modes}
use sim_replay.IoDedup.Ops.{Flags, resume_deduping}
use sim_replay.IoDedup.Consistent.{names, digest_of, IsConsistent, object_of-live}
use sim_replay.IoDedup.Sound.{object_of}
use sim_replay.IoDedup.Entry.{p2dmaps_get-p2dmaps_set, entry-IsConsistent}
use sim_replay.IoDedup.Resume.{dedup_content-Joins}
use sim_replay.IoDedup.Note.{clean, joined-IsNoted}

-- No request is being served.
abbrev no_flags : Flags
no_flags = record { cmaphit = none; already_had = none }

-- A value over a range, from the one at its start and those over the rest.
range_step :
    {A : Type 0} (base iter n j : ℕ) (x y z : A) (f : ℕ → A)
    → x ≡ (if leb (base + (iter + 1)) j && ltb j (base + (iter + 1) + n) then f (j - base) else y)
    → y ≡ (if j == base + iter then f iter else z)
    → x ≡ (if leb (base + iter) j && ltb j (base + iter + suc n) then f (j - base) else z)
range_step base iter n j x y z f hx hy = elim (Bool-cases (j == base + iter)) [
  | inl e ↦
      let back : j - base ≡ iter = ground arith in
      let out : (leb (base + (iter + 1)) j && ltb j (base + (iter + 1) + n)) ≡ false =
        ground arith in
      let inside : (leb (base + iter) j && ltb j (base + iter + suc n)) ≡ true = ground arith in
      ground (arith, back, out, inside, hx, hy)
  | inr e ↦
      let same : (leb (base + (iter + 1)) j && ltb j (base + (iter + 1) + n))
          ≡ (leb (base + iter) j && ltb j (base + iter + suc n)) =
        ground arith in
      ground (arith, same, hx, hy)
]

module _ {K : Type 0} (api : TableApi K ℕ) where
  -- A state after the block has been scanned.
  pub record IsScanned (s s' : IoDedup K api.Table) (b : ℕ) (d : Option K) : Type 0 where
    pub consistent : IsConsistent api s'
    pub digests : (j : ℕ) → digest_of s' j ≡ (if j == b then d else digest_of s j)
    pub others : (j : ℕ) → j ≢ b → p2dmaps_get s'.p2dmaps j ≡ p2dmaps_get s.p2dmaps j
    pub nel_le : api.nel s'.maps.deduptab ≤ api.nel s.maps.deduptab + 1
    pub num_le : s'.maps.dedup_num ≤ s.maps.dedup_num + 1

  -- No object has the ID of a zero block.
  no_zero_object : (s : IoDedup K api.Table) → IsConsistent api s → object_of s.maps 0 ≡ none
  no_zero_object s con = elim (Option-cases (object_of s.maps 0)) [
    | inl e ↦ e
    | inr (d, e) ↦
        let (p, live, named, same) = object_of-live api s.maps 0 d con.sound e in
        absurd (omega (arith, live.above_dummy, same))
  ]

module _ {K C : Type 0} (get_hash_key : C → K) (is_zero : C → Bool) where
  -- The digest that a scan gives a block of this content.
  abbrev pub digest : C → Option K
  digest content = if is_zero content then none else some (get_hash_key content)

module _ {K C N T : Type 0} (api : TableApi K ℕ) (get_hash_key : C → K) (is_zero : C → Bool)
    (config : Modes) where
  -- A block of the image: its place on the disk, and its content. A block without a place is only reported, and
  -- the place is then not set.
  unfoldable pub scan_block :
      VolMap N T → ℕ → IoDedup K api.Table → ℕ → C → Bool → Result (IoDedup K api.Table × Bool)
  scan_block volmap vol_id s iter content got_node = do
    place ← get_virt_to_phys config.disksimflag volmap vol_id iter
    elim place [
      | none ↦ fault
      | some ioblk ↦ elim (is_zero content) [
        | true ↦
            resume_deduping api get_hash_key config no_flags s none 0 ioblk init_stage zeroblk_flag
              got_node
        | false ↦
            resume_deduping api get_hash_key config no_flags s (some content) 4096 ioblk init_stage
              goodblk_flag got_node
      ]
    ]

  -- The loop over `n` blocks from `iter` on. Every 512 blocks it is looked at whether to stop.
  unfoldable pub ioscan_vm_image :
      VolMap N T
      → ℕ
      → (ℕ → C)
      → (ℕ → Bool)
      → IoDedup K api.Table
      → ℕ
      → ℕ
      → Result (IoDedup K api.Table × Bool)
  ioscan_vm_image volmap vol_id image signal_done s iter zero = ok (s, false)
  ioscan_vm_image volmap vol_id image signal_done s iter (suc n) =
      elim ((iter % 512 == 0) && signal_done iter) [
        | true ↦ ok (s, true)
        | false ↦ do
          r ← scan_block volmap vol_id s iter (image iter) true
          elim (r.1) [
            | true ↦ ok r
            | false ↦ ioscan_vm_image volmap vol_id image signal_done r.0 (iter + 1) n
          ]
      ]

  scan_block-IsScanned :
      (volmap : VolMap N T) (vol_id iter b : ℕ) (s : IoDedup K api.Table) (content : C)
      → get_virt_to_phys config.disksimflag volmap vol_id iter ≡ ok (some b)
      → IsConsistent api s
      → ((id : ℕ) → id ≢ 0 → names (p2dmaps_get s.p2dmaps b) id ≡ 0)
      → b < 2 ^ 31 - 1
      → api.nel s.maps.deduptab < max_nodes
      → s.maps.dedup_num + 1 < 2 ^ 31 - 1
      → (s' : IoDedup K api.Table) × (scan_block volmap vol_id s iter content true ≡ ok (s', false))
        × IsScanned api s s' b (digest get_hash_key is_zero content)
  unfolding scan_block resume_deduping note_blockio process_blockio note_p2d_map digest_of names
  scan_block-IsScanned volmap vol_id iter b s content at con nowhere small room nums =
      elim (Bool-cases (is_zero content)) [
        | inl z ↦
            let (v, set, fit, gets) = p2dmaps_get-p2dmaps_set s.p2dmaps b (clean 0) con.fit small in
            (
              record s { p2dmaps = v },
              ground (arith, at, set),
              record {
                consistent =
                    entry-IsConsistent api s s.maps s.counts v b (clean 0) con con.sound fit gets
                      (λ id j ne. ground (arith, con.agree id j ne, nowhere id ne)) con.kept;
                digests = λ j. ground (arith, gets j, no_zero_object api s con);
                others = λ j ne. ground (arith, gets j);
                nel_le = omega arith;
                num_le = omega arith;
              },
            )
        | inr nz ↦
            let key = get_hash_key content in
            let (m, c, d, ran, joins) =
              dedup_content-Joins api s key b none init_stage con.sound
                (λ id ne. ground (arith, con.agree id b ne, nowhere id ne)) room nums in
            let (v, set, fit, gets) =
              p2dmaps_get-p2dmaps_set s.p2dmaps b (clean d.iodedup_id) con.fit small in
            let noted = joined-IsNoted api s m c v b key d con nowhere joins fit gets in
            (
              record { p2dmaps = v; maps = m; counts = c },
              ground (arith, at, ran, set),
              record {
                consistent = noted.consistent;
                digests = λ j. ground (arith, noted.digests j);
                others = λ j ne. ground (arith, gets j);
                nel_le = noted.nel_le;
                num_le = noted.num_le;
              },
            )
      ]

  -- From a consistent state with room for each block, a scan that is not told to stop, of `n` blocks whose places
  -- on the disk follow each other from `base + iter` on, are below 2^31 - 1 and have no clean entry yet,
  -- succeeds and leaves the state consistent: each place has the digest of its block, or none if that is a
  -- zero block, and every other place keeps its digest.
  pub ioscan_vm_image_lem :
      (volmap : VolMap N T) (vol_id base : ℕ) (image : ℕ → C) (signal_done : ℕ → Bool) (n : ℕ)
      (s : IoDedup K api.Table) (iter : ℕ)
      → ((i : ℕ) → iter ≤ i → i < iter + n → signal_done i ≡ false)
      → ((i : ℕ)
          → iter ≤ i
          → i < iter + n
          → get_virt_to_phys config.disksimflag volmap vol_id i ≡ ok (some (base + i)))
      → IsConsistent api s
      → ((j id : ℕ)
          → base + iter ≤ j
          → j < base + iter + n
          → id ≢ 0
          → names (p2dmaps_get s.p2dmaps j) id ≡ 0)
      → base + iter + n < 2 ^ 31
      → api.nel s.maps.deduptab + n ≤ max_nodes
      → s.maps.dedup_num + n < 2 ^ 31 - 1
      → (s' : IoDedup K api.Table) × (ioscan_vm_image volmap vol_id image signal_done s iter n
          ≡ ok (s', false))
        × IsConsistent api s'
        × ((j : ℕ)
            → digest_of s' j ≡ (
                if leb (base + iter) j && ltb j (base + iter + n)
                then digest get_hash_key is_zero (image (j - base))
                else digest_of s j))
  unfolding ioscan_vm_image
  ioscan_vm_image_lem volmap vol_id base image signal_done zero s iter calm places con fresh small
        room nums =
      (s, refl, con, λ j. ground arith)
  ioscan_vm_image_lem volmap vol_id base image signal_done (suc n) s iter calm places con fresh
        small room nums =
      let (s1, ran, one) =
        scan_block-IsScanned volmap vol_id iter (base + iter) s (image iter)
          (places iter (omega arith) (omega arith)) con
          (λ id ne. fresh (base + iter) id (omega arith) (omega arith) ne) (omega arith)
          (omega arith) (omega arith) in
      let (s2, rest, con', digests) =
        ioscan_vm_image_lem volmap vol_id base image signal_done n s1 (iter + 1)
          (λ i a b. calm i (omega arith) (omega arith))
          (λ i a b. places i (omega arith) (omega arith)) one.consistent
          (λ j id a b ne. ground (
            arith,
            one.others j (λ e. omega (arith, e)),
            fresh j id (omega arith) (omega arith) ne,
          ))
          (omega arith) (omega (arith, one.nel_le)) (omega (arith, one.num_le)) in
      (
        s2,
        ground (arith, calm iter (omega arith) (omega arith), ran, rest),
        con',
        λ j.
            range_step base iter n j (digest_of s2 j) (digest_of s1 j) (digest_of s j)
              (λ i. digest get_hash_key is_zero (image i)) (digests j) (one.digests j),
      )
