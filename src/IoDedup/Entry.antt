-- ===== src/IoDedup/Entry.antt =====
-- A request changes one entry of `p2dmaps`: what the calls of iodedup/p2d-map.c do to it, and what the maps of
-- the contents must do for the whole to stay consistent.
use sim_replay.Prelude.{
  ℕ, ◌+◌, ◌-◌, ◌%◌, ◌^◌, ◌<◌, ◌≤◌, ◌≡◌, ◌≢◌, none, some, [], ◌∷◌, arith, ok, ◌==◌, if◌then◌else◌,
  Option-cases, inl, inr, length, u32_mod,
}
use sim_replay.Hashtab.Api.{TableApi}
use sim_replay.Vectors.Defs.{Vector, get}
use sim_replay.Vectors.Laws.{get-vector32_set}
use sim_replay.IoDedup.P2d.{
  P2d, p2dmaps_get, p2dmaps_set, mapped, zero_blocks, unmapped, notzero_io_vblk, map_blocks,
  get_virtto_dedup_map,
}
use sim_replay.IoDedup.D2pv.{D2pv, Maps}
use sim_replay.IoDedup.Defs.{IoDedup, Counts}
use sim_replay.IoDedup.Blocks.{tuples}
use sim_replay.IoDedup.Sound.{object_of, IsSound}
use sim_replay.IoDedup.Consistent.{blocks_of, names, IsConsistent}

pub p2dmaps_get-p2dmaps_set :
    (v : Vector P2d) (b : ℕ) (x : P2d)
    → v.size ≤ v.room
    → b < 2 ^ 31 - 1
    → (v' : Vector P2d) × (p2dmaps_set v b x ≡ ok v')
      × (v'.size ≤ v'.room)
      × ((j : ℕ) → p2dmaps_get v' j ≡ (if j == b then some x else p2dmaps_get v j))
unfolding p2dmaps_get p2dmaps_set get
p2dmaps_get-p2dmaps_set v b x fit small =
    let (v', done, fit', size, gets) = get-vector32_set v b (some x) fit small in
    (v', done, fit', λ j. ground (arith, gets j))

-- The look-up of one block.
pub one_block :
    (v : Vector P2d) (b : ℕ)
    → b < u32_mod
    → get_virtto_dedup_map v b 1 ≡ elim (p2dmaps_get v b) [
      | none ↦ unmapped
      | some x ↦ if notzero_io_vblk x then mapped (b ∷ []) else zero_blocks (b ∷ [])
    ]
unfolding get_virtto_dedup_map map_blocks
one_block v b h =
    let at : (b + 0) % u32_mod ≡ b = omega arith in
    elim (Option-cases (p2dmaps_get v b)) [
      | inl e ↦ ground (arith, at)
      | inr (x, e) ↦ ground (arith, at)
    ]

module _ {K : Type 0} (api : TableApi K ℕ) where
  -- The whole stays consistent where the block is on the lists that its new entry names, and the other blocks
  -- stay where they are.
  pub entry-IsConsistent :
      (s : IoDedup K api.Table) (m : Maps K api.Table) (c : Counts) (v : Vector P2d) (b : ℕ)
      (x : P2d)
      → IsConsistent api s
      → IsSound api m
      → v.size ≤ v.room
      → ((j : ℕ) → p2dmaps_get v j ≡ (if j == b then some x else p2dmaps_get s.p2dmaps j))
      → ((id j : ℕ)
          → id ≢ 0
          → tuples j (blocks_of m id)
            ≡ (if j == b then names (some x) id else tuples j (blocks_of s.maps id)))
      → ((id : ℕ) (d : D2pv K) → object_of m id ≡ some d → length d.d2pmaps ≢ 0)
      → IsConsistent api (record { p2dmaps = v; maps = m; counts = c })
  entry-IsConsistent s m c v b x con sound fit gets lists kept = record {
    sound = sound;
    fit = fit;
    agree = λ id j ne. ground (arith, con.agree id j ne, gets j, lists id j ne);
    kept = kept;
  }
