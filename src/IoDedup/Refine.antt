-- ===== src/IoDedup/Refine.antt =====
-- The map of the blocks against its specification, a function from blocks to digests: a write of a block changes
-- the function at the block, and a run of writes leaves the digest of the last one.
use sim_replay.Prelude.{
  ℕ, ◌+◌, ◌-◌, ◌^◌, ◌<◌, ◌≤◌, ◌≡◌, ◌≢◌, Option, none, some, Bool, true, false, List, [], ◌∷◌, arith,
  refl, Result, ok, ◌>>=◌, ◌==◌, ◌||◌, if◌then◌else◌, length,
}
use sim_replay.Hashtab.Defs.{max_nodes}
use sim_replay.Hashtab.Api.{TableApi}
use sim_replay.Modes.{Modes, has_digests, has_blocks, len_of, len_of_pos}
use sim_replay.IoDedup.P2d.{dontcare_lastblk, zeroblk_flag}
use sim_replay.IoDedup.D2pv.{noinit_stage}
use sim_replay.IoDedup.Defs.{IoDedup}
use sim_replay.IoDedup.Ops.{
  Request, perf_read_write_deduping, io_mapupdate, update_after_write, write_block,
}
use sim_replay.IoDedup.Consistent.{digest_of, IsConsistent}
use sim_replay.IoDedup.Trim.{mapping_trim_scan_io-IsTrimmed}
use sim_replay.IoDedup.Note.{IsNoted, resume_deduping-IsNoted}

no_zero_flag : dontcare_lastblk ≢ zeroblk_flag
no_zero_flag e = ground arith

-- The request that writes a content to a block.
abbrev pub write_of : {C : Type 0} → ℕ → C → Request C
write_of b content = record { ioblk = b; content = some content; rw = false; done = false }

-- A write of a run: the block, the content, and what the content cache had.
pub record Write (C : Type 0) : Type 0 where
  pub block : ℕ
  pub content : C
  pub had : Option ℕ

unfoldable pub Below : {C : Type 0} → List (Write C) → Type 0
Below [] = Unit
Below (w ∷ ws) = (w.block < 2 ^ 31 - 1) × Below ws

-- What the last write of the run to the block has written.
unfoldable pub last_write : {C : Type 0} → List (Write C) → ℕ → Option C
last_write [] j = none
last_write (w ∷ ws) j = elim (last_write ws j) [
  | some content ↦ some content
  | none ↦ if j == w.block then some w.content else none
]

-- The map is built at run time.
abbrev pub config : Modes → Modes
config modes = record modes { runtimemap = true }

module _ {K C : Type 0} (api : TableApi K ℕ) (get_hash_key : C → K) (modes : Modes) where
  -- The writes of a run, one after the other, until an error.
  unfoldable pub run_writes :
      List (Write C) → IoDedup K api.Table → Result (IoDedup K api.Table × Bool)
  run_writes [] s = ok (s, false)
  run_writes (w ∷ ws) s = do
    r ← write_block api get_hash_key true (config modes) w.had s (write_of w.block w.content) true
    elim (r.1) [ true ↦ ok r | false ↦ run_writes ws r.0 ]

module _ {K C : Type 0} (api : TableApi K ℕ) (get_hash_key : C → K) (modes : Modes)
    (mode : (has_digests (config modes) || has_blocks (config modes)) ≡ true) where
  -- Where the map is built at run time and updated upon writes, in a mode that the code provides for, from a consistent state with room, a write of a
  -- block below 2^31 - 1 succeeds and leaves the state consistent: the block has the digest of what was
  -- written, and every other block keeps its digest.
  pub write_block_lem :
      (s : IoDedup K api.Table) (b : ℕ) (content : C) (had : Option ℕ)
      → IsConsistent api s
      → b < 2 ^ 31 - 1
      → api.nel s.maps.deduptab < max_nodes
      → s.maps.dedup_num + 1 < 2 ^ 31 - 1
      → (s' : IoDedup K api.Table) × (write_block api get_hash_key true
            (config modes)
            had
            s
            (write_of b content)
            true
          ≡ ok (s', false))
        × IsNoted api s s' b (get_hash_key content)
  unfolding write_block update_after_write io_mapupdate perf_read_write_deduping
  write_block_lem s b content had con small room nums =
      let (s1, trimmed, t) = mapping_trim_scan_io-IsTrimmed api s b con small room in
      let (s2, noted, n) =
        resume_deduping-IsNoted api get_hash_key modes had s1 content (len_of (config modes)) b
          noinit_stage dontcare_lastblk t.consistent (λ id h. t.forgotten id)
          (λ z. omega (arith, z, len_of_pos (config modes))) no_zero_flag small
          (omega (arith, t.nel_le)) (omega (arith, t.same_num)) in
      (
        s2,
        ground (arith, trimmed, noted, mode),
        record {
          consistent = n.consistent;
          digests = λ j. ground (arith, n.digests j, t.digests j);
          nel_le = omega (arith, n.nel_le, t.nel_le);
          num_le = omega (arith, n.num_le, t.same_num);
        },
      )

  -- Where the map is built at run time and updated upon writes, in a mode that the code provides for: from a
  -- consistent state with room for each, a run of writes to blocks below 2^31 - 1 succeeds and leaves
  -- the state consistent: a block that the run writes has the digest of what it has written there last, and
  -- every other block keeps its digest.
  pub run_writes_lem :
      (ws : List (Write C)) (s : IoDedup K api.Table)
      → IsConsistent api s
      → Below ws
      → api.nel s.maps.deduptab + length ws ≤ max_nodes
      → s.maps.dedup_num + length ws < 2 ^ 31 - 1
      → (s' : IoDedup K api.Table) × (run_writes api get_hash_key modes ws s ≡ ok (s', false))
        × IsConsistent api s'
        × ((j : ℕ)
            → digest_of s' j ≡ elim (last_write ws j) [
              | some content ↦ some (get_hash_key content)
              | none ↦ digest_of s j
            ])
  unfolding run_writes last_write Below
  run_writes_lem [] s con below room nums = (s, refl, con, λ j. refl)
  run_writes_lem (w ∷ ws) s con (small, below) room nums =
      let (s1, done, n) =
        write_block_lem s w.block w.content w.had con small (omega arith) (omega arith) in
      let (s2, rest, con', digests) =
        run_writes_lem ws s1 n.consistent below (omega (arith, n.nel_le))
          (omega (arith, n.num_le)) in
      (s2, ground (arith, done, rest), con', λ j. ground (arith, digests j, n.digests j))
