-- ===== src/Confided/V2f.antt =====
-- confided/v2f-map.c: the map from the blocks of the volumes to fixed IDs, a vector of vectors. A `V2f` has one
-- owner, its cell, and so has the row of a volume: a write through a pointer to one is a write of its cell.
use sim_replay.Prelude.{
  ℕ, zero, suc, ◌+◌, ◌%◌, Option, none, some, Bool, true, false, not, List, [], ◌∷◌, Result, ok,
  ◌>>=◌, ◌==◌, leb, if◌then◌else◌, u32_mod,
}
use sim_replay.Vectors.Defs.{Vector, init, get, resize, vector16_set, vector32_set}
use sim_replay.IoDedup.P2d.{
  BlkFlag, zeroblk_flag, goodblk_flag, ultimate_lastblk, dontcare_lastblk, Mapping, mapped,
  zero_blocks, unmapped,
}

-- `V2F_t`
pub record V2f : Type 0 where
  pub fixed_id : ℕ
  pub fdirty : Bool

-- A write of the row of a volume that is there.
abbrev pub put_row : Vector (Vector V2f) → ℕ → Vector V2f → Vector (Vector V2f)
put_row v2fmaps x row = record v2fmaps {
  data_at = λ i. if i == x then some row else v2fmaps.data_at i;
}

unfoldable pub v2fmaps_resize : Vector (Vector V2f) → ℕ → ℕ → Result (Vector (Vector V2f))
unfolding resize
v2fmaps_resize v2fmaps x size = elim (get v2fmaps x) [
  | none ↦ do m ← vector16_set v2fmaps x (some init); ok (put_row m x (resize init size))
  | some ptr ↦ ok (put_row v2fmaps x (resize ptr size))
]

-- `create_v2f_mapping_space` where `v2fmaps_alive` is not set.
unfoldable pub create_v2f_mapping_space : Result (Vector (Vector V2f))
unfolding v2fmaps_resize
create_v2f_mapping_space = v2fmaps_resize init 0 54642298

unfoldable pub v2fmaps_set : Vector (Vector V2f) → ℕ → ℕ → V2f → Result (Vector (Vector V2f))
v2fmaps_set v2fmaps x y e = elim (get v2fmaps x) [
  | none ↦ do
    m ← vector16_set v2fmaps x (some init)
    row ← vector32_set init y (some e)
    ok (put_row m x row)
  | some ptr ↦ do row ← vector32_set ptr y (some e); ok (put_row v2fmaps x row)
]

unfoldable pub v2fmaps_get : Vector (Vector V2f) → ℕ → ℕ → Option V2f
v2fmaps_get v2fmaps x y =
    if leb v2fmaps.size x then none else elim (get v2fmaps x) [ none ↦ none | some ptr ↦ get ptr y ]

unfoldable pub notzero_f_vblk : V2f → Bool
notzero_f_vblk v2f = not (v2f.fixed_id == 0)

unfoldable pub note_v2f_map : V2f → ℕ → BlkFlag → V2f
note_v2f_map v2f fixed_id zeroblk_flag = record v2f { fixed_id = 0; fdirty = false }
note_v2f_map v2f fixed_id goodblk_flag = record v2f { fixed_id = fixed_id; fdirty = false }
note_v2f_map v2f fixed_id ultimate_lastblk = record v2f { fixed_id = fixed_id; fdirty = false }
note_v2f_map v2f fixed_id dontcare_lastblk = record v2f { fixed_id = fixed_id; fdirty = false }

unfoldable pub fixed_dirty : V2f → Bool
fixed_dirty v2f = v2f.fdirty

-- The loop of `getVirttoFixedMap` from block `i` on, with `success` and the list of the blocks so far.
unfoldable pub fixed_blocks : Vector (Vector V2f) → ℕ → ℕ → ℕ → ℕ → Bool → List ℕ → Mapping
fixed_blocks v2fmaps vol_id v_blk_id i zero true v2flist = mapped v2flist
fixed_blocks v2fmaps vol_id v_blk_id i zero false v2flist = zero_blocks v2flist
fixed_blocks v2fmaps vol_id v_blk_id i (suc n) success v2flist =
    elim (v2fmaps_get v2fmaps vol_id ((v_blk_id + i) % u32_mod)) [
      | none ↦ unmapped
      | some v2f ↦
          fixed_blocks v2fmaps vol_id v_blk_id (i + 1) n
            (if notzero_f_vblk v2f then true else success) ((v_blk_id + i) % u32_mod ∷ v2flist)
    ]

unfoldable pub get_virtto_fixed_map : Vector (Vector V2f) → ℕ → ℕ → ℕ → Mapping
unfolding fixed_blocks
get_virtto_fixed_map v2fmaps vol_id v_blk_id count =
    fixed_blocks v2fmaps vol_id v_blk_id 0 count false []

-- A new `V2f`, as calloc gives it.
abbrev cleared_v2f : V2f
cleared_v2f = record { fixed_id = 0; fdirty = false }

-- `none` is the error of a block without a map where the map is not built at run time.
unfoldable pub update_blockf :
    Bool → Vector (Vector V2f) → ℕ → ℕ → BlkFlag → ℕ → Result (Option (Vector (Vector V2f)))
update_blockf runtimemap v2fmaps block_id vol_id lastblk_flag fixed_id =
    elim (v2fmaps_get v2fmaps vol_id block_id) [
      | some v2f ↦ do
        m ← v2fmaps_set v2fmaps vol_id block_id (note_v2f_map v2f fixed_id lastblk_flag)
        ok (some m)
      | none ↦ elim runtimemap [
        | true ↦ do
          m ← v2fmaps_set v2fmaps vol_id block_id (note_v2f_map cleared_v2f fixed_id lastblk_flag)
          ok (some m)
        | false ↦ ok none
      ]
    ]

unfoldable pub process_blockf :
    Vector (Vector V2f) → ℕ → ℕ → BlkFlag → ℕ → Result (Vector (Vector V2f))
process_blockf v2fmaps block_id vol_id lastblk_flag fixed_id =
    v2fmaps_set v2fmaps vol_id block_id (note_v2f_map cleared_v2f fixed_id lastblk_flag)
