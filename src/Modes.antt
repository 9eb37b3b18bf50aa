-- ===== src/Modes.antt =====
-- generic-replay/replay-defines.h: the modes of the program, that its asserts name, by the flags of the command line.
use sim_replay.Prelude.{ℕ, ◌<◌, Bool, not, ◌&&◌, ◌||◌, if◌then◌else◌, arith, Bool-cases, inl, inr}

-- The flags; `scan` is that of a scan before the replay, and `sreplayflag` that of a replay without deduplication.
pub record Modes : Type 0 where
  pub disksimflag : Bool
  pub runtimemap : Bool
  pub collectformat : Bool
  pub vmbunchreplay : Bool
  pub scan : Bool
  pub sreplayflag : Bool

-- The two modes of a simulated disk where the trace has digests in place of contents.
abbrev pub has_digests : Modes → Bool
has_digests modes =
    (modes.disksimflag && modes.runtimemap && modes.collectformat && modes.vmbunchreplay)
    || (modes.disksimflag && modes.runtimemap && modes.collectformat && not modes.vmbunchreplay)

-- The two modes of a simulated disk where the map updates and the content cache take whole blocks.
abbrev pub has_blocks : Modes → Bool
has_blocks modes =
    (modes.collectformat && modes.disksimflag && modes.scan && not modes.vmbunchreplay)
    || (modes.disksimflag && modes.runtimemap && not modes.collectformat && not modes.vmbunchreplay)

-- The two modes of a simulated disk that never stores digests.
abbrev pub stores_blocks : Modes → Bool
stores_blocks modes =
    (modes.disksimflag && modes.runtimemap && not modes.collectformat && not modes.vmbunchreplay)
    || (modes.disksimflag
        && modes.sreplayflag
        && not modes.collectformat
        && not modes.vmbunchreplay)

-- The scan of a real disk.
abbrev pub scanned_disk : Modes → Bool
scanned_disk modes =
    not modes.disksimflag && not modes.collectformat && modes.vmbunchreplay && modes.scan

-- The length of a content: 32 for a digest, and else a block.
unfoldable pub len_of : Modes → ℕ
len_of modes = if has_digests modes then 32 else 4096

pub len_of_pos : (modes : Modes) → 0 < len_of modes
unfolding len_of
len_of_pos modes = elim (Bool-cases (has_digests modes)) [
  | inl y ↦ rw (y, len_of) (omega arith)
  | inr n ↦ rw (n, len_of) (omega arith)
]
