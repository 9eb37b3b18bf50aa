-- ===== src/Confided/Defs.antt =====
-- confided/fixing.c and confided/fserveio.c: the map of a block is dropped before a write, noted after a request,
-- and looked up for a read. A Boolean beside a state says that the C function returned an error.
use sim_replay.Prelude.{
  ℕ, zero, suc, ◌+◌, ◌%◌, Option, none, some, Bool, true, false, List, [], ◌∷◌, Result, ok, err,
  fault, ◌>>=◌, ◌==◌, if◌then◌else◌, inc32, length, ltb, leb, u32_mod,
}
use sim_replay.Hashtab.Api.{TableApi}
use sim_replay.Vectors.Defs.{Vector}
use sim_replay.IoDedup.P2d.{mapped, zero_blocks, unmapped}
use sim_replay.IoDedup.Defs.{dummy_id}
use sim_replay.Modes.{Modes}
use sim_replay.Confided.Leaders.{del_f2v_from_f2vmaps}
use sim_replay.Confided.V2f.{
  V2f, v2fmaps_set, v2fmaps_get, notzero_f_vblk, fixed_dirty, get_virtto_fixed_map,
}
use sim_replay.Confided.Fixed.{
  FixedMaps, deref_f, store_f, get_fixed_map, set_fixed_map, add_fixed_id_to_recyclelist,
  add_new_to_old_recyclelist_f,
}

-- The flags of the command line.
pub record FixConfig : Type 0 where
  pub modes : Modes
  pub intraonlyflag : Bool

-- The counters of the deduplication.
pub record FixCounts : Type 0 where
  pub fcollisionstp : ℕ
  pub max_dedupfactor : ℕ
  pub dedupfactor : ℕ → ℕ

pub record Confided (K T : Type 0) : Type 0 where
  pub v2fmaps : Vector (Vector V2f)
  pub maps : FixedMaps K T
  pub counts : FixCounts

-- `dedupfactor[i]++`
abbrev pub count_fixed : ℕ → FixCounts → FixCounts
count_fixed i c = record c {
  dedupfactor = λ j. if j == i then inc32 (c.dedupfactor j) else c.dedupfactor j;
}

-- What a hit on content that is there counts, with the length of its list.
abbrev pub count_shared : ℕ → FixCounts → FixCounts
count_shared n c =
    let c' : FixCounts = record c {
      fcollisionstp = inc32 c.fcollisionstp;
      max_dedupfactor = if ltb c.max_dedupfactor n then n else c.max_dedupfactor;
    } in
    if leb n 9 then count_fixed n c' else c'

-- What stands for no leader: DONTCARE_VOLID, and block 0.
abbrev pub dontcare : ℕ × ℕ
dontcare = (5000, 0)

abbrev pub leader_of : Option (ℕ × ℕ) → ℕ × ℕ
leader_of none = dontcare
leader_of (some l) = l

module _ {K : Type 0} (api : TableApi K ℕ) where
  -- The end of `recyclefixedID`: the object is unlinked, and its ID becomes reusable.
  unfoldable pub unlink_fixed :
      FixedMaps K api.Table → K → ℕ → Bool → Result (FixedMaps K api.Table)
  unlink_fixed m key fixed_id nozero_flag = do
    t ← elim (api.remove m.fixedtab key) [ ok t ↦ ok t | err e ↦ ok m.fixedtab | fault ↦ fault ]
    m' ← set_fixed_map (record m { fixedtab = t }) fixed_id none
    ok (
        if nozero_flag
        then if fixed_id == dummy_id then m' else add_fixed_id_to_recyclelist fixed_id m'
        else m')

  -- Beside the maps is the new leader, if one was marked. The status of `del_f2v_from_f2vmaps` and of
  -- `hashtab_remove` is not looked at.
  unfoldable pub recyclefixed_id :
      Bool
      → FixedMaps K api.Table
      → ℕ
      → Bool
      → ℕ
      → ℕ
      → Result (FixedMaps K api.Table × Option (ℕ × ℕ))
  unfolding unlink_fixed
  recyclefixed_id intraonlyflag m fixed_id nozero_flag vol_id block_id =
      elim (get_fixed_map m fixed_id) [
        | none ↦ fault
        | some p ↦ do
          d ← deref_f m p
          r ← del_f2v_from_f2vmaps intraonlyflag d.f2vmaps vol_id block_id
          let m' = store_f m p (record d { f2vmaps = r.f2vmaps })
          elim (ltb 1 (length d.f2vmaps)) [
            | true ↦ ok (m', r.leader)
            | false ↦ do m'' ← unlink_fixed m' d.fhashkey fixed_id nozero_flag; ok (m'', r.leader)
          ]
      ]

  unfoldable pub reset_mappings_f :
      Bool → FixedMaps K api.Table → V2f → ℕ → ℕ → Result (FixedMaps K api.Table × Option (ℕ × ℕ))
  reset_mappings_f intraonlyflag m v2f vol_id block_id = do
    r ← recyclefixed_id intraonlyflag m v2f.fixed_id (notzero_f_vblk v2f) vol_id block_id
    ok (add_new_to_old_recyclelist_f (r.0), r.1)

  -- The loop of `mappingTrimScanF` over the list of maps: `i` counts the maps that were not dirty, and the block
  -- that is dropped is `vBlkID + i`. Beside the state is the list of the new leaders, the last on top.
  unfoldable pub trim_fixed :
      Bool
      → ℕ
      → ℕ
      → List ℕ
      → ℕ
      → Confided K api.Table
      → List (ℕ × ℕ)
      → Result (Confided K api.Table × List (ℕ × ℕ))
  trim_fixed intraonlyflag vol_id v_blk_id [] i s leader_list = ok (s, leader_list)
  trim_fixed intraonlyflag vol_id v_blk_id (p ∷ v2flist) i s leader_list =
      elim (v2fmaps_get s.v2fmaps vol_id p) [
        | none ↦ fault
        | some v2f ↦ elim (fixed_dirty v2f) [
          | true ↦ trim_fixed intraonlyflag vol_id v_blk_id v2flist i s (dontcare ∷ leader_list)
          | false ↦ do
            v ← v2fmaps_set s.v2fmaps vol_id p (record v2f { fdirty = true })
            r ← reset_mappings_f intraonlyflag s.maps v2f vol_id ((v_blk_id + i) % u32_mod)
            trim_fixed intraonlyflag vol_id v_blk_id v2flist (i + 1)
                (record s { v2fmaps = v; maps = r.0 }) (leader_of (r.1) ∷ leader_list)
        ]
      ]

  -- The dirty dummy maps of `n` blocks from `vBlkID + i` on.
  unfoldable pub dummy_fixed : ℕ → ℕ → ℕ → ℕ → Vector (Vector V2f) → Result (Vector (Vector V2f))
  dummy_fixed vol_id v_blk_id i zero v2fmaps = ok v2fmaps
  dummy_fixed vol_id v_blk_id i (suc n) v2fmaps = do
    v ←
        v2fmaps_set v2fmaps vol_id ((v_blk_id + i) % u32_mod)
          (record { fixed_id = dummy_id; fdirty = true })
    dummy_fixed vol_id v_blk_id (i + 1) n v

  dontcares : ℕ → List (ℕ × ℕ)
  dontcares zero = []
  dontcares (suc n) = dontcare ∷ dontcares n

  -- Some block without a map, or zero blocks only.
  unfoldable pub trim_unmapped_f :
      Bool → Confided K api.Table → ℕ → ℕ → ℕ → Result (Confided K api.Table × List (ℕ × ℕ) × Bool)
  unfolding dontcares dummy_fixed
  trim_unmapped_f true s vol_id v_blk_id num_blocks = do
    v ← dummy_fixed vol_id v_blk_id 0 num_blocks s.v2fmaps
    ok (record s { v2fmaps = v }, dontcares num_blocks, false)
  trim_unmapped_f false s vol_id v_blk_id num_blocks = ok (s, [], true)

  unfoldable pub mapping_trim_scan_f :
      FixConfig
      → Confided K api.Table
      → ℕ
      → ℕ
      → ℕ
      → Result (Confided K api.Table × List (ℕ × ℕ) × Bool)
  unfolding trim_fixed trim_unmapped_f
  mapping_trim_scan_f config s vol_id v_blk_id num_blocks =
      elim (get_virtto_fixed_map s.v2fmaps vol_id v_blk_id num_blocks) [
        | mapped v2flist ↦ do
          r ← trim_fixed config.intraonlyflag vol_id v_blk_id v2flist 0 s []
          ok (r.0, r.1, false)
        | zero_blocks v2flist ↦ trim_unmapped_f config.modes.runtimemap s vol_id v_blk_id num_blocks
        | unmapped ↦ trim_unmapped_f config.modes.runtimemap s vol_id v_blk_id num_blocks
      ]
