-- ===== src/IoDedup/P2d.antt =====
-- iodedup/p2d-map.c: the map from physical blocks to deduplication IDs. A `P2d` has one owner, its cell of
-- `p2dmaps`, so a pointer to it is its index, and a write through the pointer is a write of the cell.
use sim_replay.Prelude.{
  ℕ, zero, suc, ◌+◌, ◌%◌, Option, none, some, Bool, true, false, not, List, [], ◌∷◌, Result, ok,
  ◌>>=◌, ◌==◌, leb, if◌then◌else◌, u32_mod,
}
use sim_replay.Vectors.Defs.{Vector, init, get, vector32_set}

-- The flags of a block, an enum of utils/utils.h.
pub data BlkFlag : Type 0 where
  zeroblk_flag goodblk_flag ultimate_lastblk dontcare_lastblk : BlkFlag

-- `P2D_t`
pub record P2d : Type 0 where
  pub iodedup_id : ℕ
  pub pdirty : Bool

unfoldable pub create_p2d_mapping_space : Vector P2d
create_p2d_mapping_space = init

unfoldable pub p2dmaps_set : Vector P2d → ℕ → P2d → Result (Vector P2d)
p2dmaps_set p2dmaps x e = vector32_set p2dmaps x (some e)

unfoldable pub p2dmaps_get : Vector P2d → ℕ → Option P2d
p2dmaps_get p2dmaps x = if leb p2dmaps.size x then none else get p2dmaps x

unfoldable pub notzero_io_vblk : P2d → Bool
notzero_io_vblk p2d = not (p2d.iodedup_id == 0)

unfoldable pub note_p2d_map : P2d → ℕ → BlkFlag → P2d
note_p2d_map p2d iodedup_id zeroblk_flag = record p2d { iodedup_id = 0; pdirty = false }
note_p2d_map p2d iodedup_id goodblk_flag = record p2d { iodedup_id = iodedup_id; pdirty = false }
note_p2d_map p2d iodedup_id ultimate_lastblk = record p2d {
  iodedup_id = iodedup_id;
  pdirty = false;
}
note_p2d_map p2d iodedup_id dontcare_lastblk = record p2d {
  iodedup_id = iodedup_id;
  pdirty = false;
}

unfoldable pub dedup_dirty : P2d → Bool
dedup_dirty p2d = p2d.pdirty

-- What `getVirttoDedupMap` returns, with the list it has built: 0, ZEROBLK_FLAG, or a block without a map,
-- which is -1 where the map is built at run time and an error where it is not.
pub data Mapping : Type 0 where
  mapped : List ℕ → Mapping
  zero_blocks : List ℕ → Mapping
  unmapped : Mapping

-- The loop from block `i` on, with `success` and the list so far.
unfoldable pub map_blocks : Vector P2d → ℕ → ℕ → ℕ → Bool → List ℕ → Mapping
map_blocks p2dmaps ioblk_id i zero true p2dlist = mapped p2dlist
map_blocks p2dmaps ioblk_id i zero false p2dlist = zero_blocks p2dlist
map_blocks p2dmaps ioblk_id i (suc n) success p2dlist =
    elim (p2dmaps_get p2dmaps ((ioblk_id + i) % u32_mod)) [
      | none ↦ unmapped
      | some p2d ↦
          map_blocks p2dmaps ioblk_id (i + 1) n (if notzero_io_vblk p2d then true else success)
            ((ioblk_id + i) % u32_mod ∷ p2dlist)
    ]

unfoldable pub get_virtto_dedup_map : Vector P2d → ℕ → ℕ → Mapping
unfolding map_blocks
get_virtto_dedup_map p2dmaps ioblk_id count = map_blocks p2dmaps ioblk_id 0 count false []

-- A new `P2d`, as calloc gives it.
abbrev cleared_p2d : P2d
cleared_p2d = record { iodedup_id = 0; pdirty = false }

-- `none` is the error of a block without a map where the map is not built at run time.
unfoldable pub update_blockio : Bool → Vector P2d → ℕ → BlkFlag → ℕ → Result (Option (Vector P2d))
update_blockio runtimemap p2dmaps ioblk_id lastblk_flag iodedup_id =
    elim (p2dmaps_get p2dmaps ioblk_id) [
      | some p2d ↦ do
        v ← p2dmaps_set p2dmaps ioblk_id (note_p2d_map p2d iodedup_id lastblk_flag)
        ok (some v)
      | none ↦ elim runtimemap [
        | true ↦ do
          v ← p2dmaps_set p2dmaps ioblk_id (note_p2d_map cleared_p2d iodedup_id lastblk_flag)
          ok (some v)
        | false ↦ ok none
      ]
    ]

unfoldable pub process_blockio : Vector P2d → ℕ → BlkFlag → ℕ → Result (Vector P2d)
process_blockio p2dmaps ioblk_id lastblk_flag iodedup_id =
    p2dmaps_set p2dmaps ioblk_id (note_p2d_map cleared_p2d iodedup_id lastblk_flag)
