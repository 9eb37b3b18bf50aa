-- ===== src/Confided/Lookup.antt =====
-- The look-up of one block in `confideReadRequest` of confided/fserveio.c.
use sim_replay.Prelude.{
  ℕ, Option, none, some, Bool, true, false, not, ◌&&◌, Result, ok, fault, ◌>>=◌, ◌==◌,
  if◌then◌else◌,
}
use sim_replay.Hashtab.Api.{TableApi}
use sim_replay.Lru.Sector.{inc64}
use sim_replay.IoDedup.P2d.{mapped, zero_blocks, unmapped}
use sim_replay.Confided.Leaders.{get_deduped_f2v}
use sim_replay.Confided.V2f.{V2f, v2fmaps_get, fixed_dirty, get_virtto_fixed_map}
use sim_replay.Confided.Fixed.{FixedMaps, deref_f, get_fixed_map}
use sim_replay.Confided.Defs.{FixConfig, Confided}

-- The counters of the look-up.
pub record FixedHits : Type 0 where
  pub fmap_hits : ℕ
  pub fmap_misses : ℕ
  pub fmap_dirties : ℕ
  pub fmap_self_is_leader : ℕ
  pub fmap_self_is_not_leader : ℕ

-- How a read goes on after the look-up of a block: to another block that has its content, with the ID of the
-- content; to the block itself; with a block of zeroes; or not at all.
pub data Redirect : Type 0 where
  redirected : ℕ → ℕ → ℕ → Redirect
  original : Redirect
  zeroes : Redirect
  refused : Redirect

module _ {K : Type 0} (api : TableApi K ℕ) where
  -- `get_fullvblkF`, for a request with a content, which a simulated disk asserts; `none` is the fall-back to the block itself. An object without blocks is a fault: the code
  -- returns -1 for it as a length.
  unfoldable pub get_fullvblk_f : Bool → FixedMaps K api.Table → V2f → ℕ → Result (Option (ℕ × ℕ))
  get_fullvblk_f intraonlyflag m v2f vol_id = elim (fixed_dirty v2f) [
    | true ↦ ok none
    | false ↦ elim (get_fixed_map m v2f.fixed_id) [
      | none ↦ fault
      | some p ↦ do
        d ← deref_f m p
        found ← get_deduped_f2v intraonlyflag vol_id d.f2vmaps
        elim found [
          | none ↦ fault
          | some f ↦ ok (
              if intraonlyflag && not (f.vol_id == vol_id)
              then none
              else some (f.vol_id, f.block_id))
        ]
    ]
  ]

  -- The physical block of the request that was made against the one of the block itself. Without a request,
  -- the code reads the element before the first of the list.
  unfoldable pub count_leader :
      (ℕ → ℕ → ℕ) → Bool → ℕ → ℕ → Option (ℕ × ℕ) → FixedHits → Result FixedHits
  count_leader ioblk true vol_id v_blk_id preq c = ok c
  count_leader ioblk false vol_id v_blk_id none c = fault
  count_leader ioblk false vol_id v_blk_id (some (v, b)) c = ok (
      if ioblk v b == ioblk vol_id v_blk_id
      then record c { fmap_self_is_leader = inc64 c.fmap_self_is_leader }
      else record c { fmap_self_is_not_leader = inc64 c.fmap_self_is_not_leader })

  abbrev count_unless : Bool → (FixedHits → FixedHits) → FixedHits → FixedHits
  count_unless true f c = c
  count_unless false f c = f c

  -- Where no other block is found, the request goes to the block itself.
  abbrev pub missed : Bool → FixedHits → Redirect × FixedHits
  missed warmupflag c =
      (original, count_unless warmupflag (λ c. record c { fmap_misses = inc64 c.fmap_misses }) c)

  abbrev pub hit_fixed : Bool → ℕ → Option (ℕ × ℕ) → FixedHits → Redirect × FixedHits
  hit_fixed warmupflag id none c = missed warmupflag c
  hit_fixed warmupflag id (some (v, b)) c = (
    redirected v b id,
    count_unless warmupflag (λ c. record c { fmap_hits = inc64 c.fmap_hits }) c,
  )

  -- The loop of `confideReadRequest` for one block, where `ioblk` is `getVirttoPhysMap`.
  unfoldable pub confide_read_block :
      (ℕ → ℕ → ℕ)
      → FixConfig
      → Bool
      → Confided K api.Table
      → ℕ
      → ℕ
      → FixedHits
      → Result (Redirect × FixedHits)
  unfolding get_fullvblk_f count_leader
  confide_read_block ioblk config warmupflag s vol_id v_blk_id c =
      elim (get_virtto_fixed_map s.v2fmaps vol_id v_blk_id 1) [
        | zero_blocks v2flist ↦ ok (zeroes, c)
        | unmapped ↦ ok (if config.modes.runtimemap then missed warmupflag c else (refused, c))
        | mapped v2flist ↦ elim (v2fmaps_get s.v2fmaps vol_id v_blk_id) [
          | none ↦ fault
          | some v2f ↦ elim (fixed_dirty v2f) [
            | true ↦ ok (
                missed warmupflag (
                  count_unless warmupflag (λ c. record c { fmap_dirties = inc64 c.fmap_dirties })
                    c))
            | false ↦ do
              preq ← get_fullvblk_f config.intraonlyflag s.maps v2f vol_id
              c' ← count_leader ioblk warmupflag vol_id v_blk_id preq c
              ok (hit_fixed warmupflag v2f.fixed_id preq c')
          ]
        ]
      ]
