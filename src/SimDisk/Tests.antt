-- ===== src/SimDisk/Tests.antt =====
-- simdisk-runtime/ over the table of utils/uhashtab.c, at a disk that has the digest of one block.
use sim_replay.Prelude.{
  ℕ, ◌+◌, ◌%◌, ◌^◌, ◌<◌, ◌≡◌, ◌&&◌, ◌==◌, List, [], ◌∷◌, none, some, true, arith, refl, ok,
  if◌then◌else◌, length, replicate, false,
}
use sim_replay.Modes.{Modes}
use sim_replay.Hashtab.Defs.{Hashtab, nodes}
use sim_replay.Hashtab.Order.{assoc}
use sim_replay.Hashtab.Table.{IsValid, lookup}
use sim_replay.Hashtab.Api.{TableApi, hashtab_api}
use sim_replay.SimDisk.Key.{construct_key_volid_blkid, blkidcmp, blkidcmp-IsKeyCmp}
use sim_replay.SimDisk.File.{get_simcontent, append_simcontent}
use sim_replay.SimDisk.Defs.{
  watched, has_nul, SimDisk, refused, done, agrees, same_bytes, disk_write_trap, disk_read_trap,
  disk_read_checkconsistency,
}
use sim_replay.SimDisk.Slots.{digest_slots}
use sim_replay.SimDisk.Sound.{IsSound, Stores}
use sim_replay.SimDisk.Disk.{stored_or}
use sim_replay.SimDisk.Replay.{
  block_at, disk_read_trap-disk_write_trap, disk_read_checkconsistency_lem,
  get_simcontent-append_simcontent_wrapped,
}

abbrev by_length : ℕ → List ℕ → ℕ
by_length size key = length key % size

abbrev api : TableApi (List ℕ) ℕ
api = hashtab_api ℕ blkidcmp by_length blkidcmp-IsKeyCmp

-- Block 7 of volume 1 is at place 0.
abbrev table : Hashtab (List ℕ) ℕ
table = record { htable = [] ∷ ((49 ∷ 58 ∷ 55 ∷ [], 0) ∷ []) ∷ []; size = 2; nel = 1 }

table-IsValid : IsValid blkidcmp by_length table
unfolding nodes
table-IsValid = record {
  in_range = λ k. omega arith;
  sized = refl;
  slots = (tt, tt, ((tt, tt), (refl, tt), tt));
  counted = refl;
  bounded = omega arith;
}

-- A simulated disk, with digests in the trace.
abbrev modes : Modes
modes = record {
  disksimflag = true;
  runtimemap = true;
  collectformat = true;
  vmbunchreplay = false;
  scan = false;
  sreplayflag = false;
}

abbrev disk : SimDisk (api.Table)
unfolding hashtab_api
disk = record {
  file = record { byte_at = λ i. 98; size = 32 };
  blkidtab = table;
  simdisk_blkid = 1;
}

disk-IsSound : IsSound api modes 32 (digest_slots api modes refl) disk
unfolding hashtab_api lookup assoc nodes digest_slots
disk-IsSound = record {
  good = table-IsValid;
  placed = λ k id h. ground arith;
  own = λ j k id h h'. ground (
    arith,
    blkidcmp-IsKeyCmp.same_iff j (49 ∷ 58 ∷ 55 ∷ []),
    blkidcmp-IsKeyCmp.same_iff k (49 ∷ 58 ∷ 55 ∷ []),
  );
  filled = omega arith;
  small = omega arith;
}

abbrev digest : List ℕ
digest = replicate 32 97

disk_read_trap-disk_write_trap_example :
    (s' : SimDisk (api.Table)) × (disk_write_trap api modes disk 1 7 digest 32 32 true
      ≡ ok (s', done none))
    × IsSound api modes 32 (digest_slots api modes refl) s'
    × ((w c : ℕ) (buf : List ℕ)
        → w < 2 ^ 16
        → c < 2 ^ 32
        → ((32 == 32) && watched c) ≡ false
        → disk_read_trap api modes s' w c buf 32 ≡ (
            if (w == 1) && (c == 7)
            then ok (s', done (some digest))
            else elim (block_at api modes 32 (digest_slots api modes refl) disk w c) [
              | none ↦ ok (s', refused)
              | some old ↦ ok (s', done (some old))
            ]))
unfolding hashtab_api digest_slots
disk_read_trap-disk_write_trap_example =
    disk_read_trap-disk_write_trap api modes 32 (digest_slots api modes refl) disk 1 7 digest
      disk-IsSound refl (omega arith) (omega arith) (omega arith) (omega arith)

disk_read_checkconsistency_lem_example :
    let key = construct_key_volid_blkid 1 7 in
    (s' : SimDisk (api.Table)) × (disk_read_checkconsistency api modes disk 1 7 digest 32 32 true
      ≡ ok (
        s',
        if same_bytes digest (stored_or api modes 32 (digest_slots api modes refl) disk key digest)
            then agrees (some digest)
            else done (some (stored_or api modes 32 (digest_slots api modes refl) disk key digest)),
      ))
    × Stores api modes 32
        (digest_slots api modes refl)
        disk
        s'
        key
        (stored_or api modes 32 (digest_slots api modes refl) disk key digest)
unfolding hashtab_api digest_slots has_nul
disk_read_checkconsistency_lem_example =
    disk_read_checkconsistency_lem api modes 32 (digest_slots api modes refl) disk 1 7 digest
      disk-IsSound refl (omega arith) (omega arith) refl

get_simcontent-append_simcontent_wrapped_example :
    get_simcontent
      ((append_simcontent (record { byte_at = λ i. 98; size = 32 }) (0 + 2 ^ 27) digest 32).0)
      0
    ≡ some digest
get_simcontent-append_simcontent_wrapped_example =
    get_simcontent-append_simcontent_wrapped (record { byte_at = λ i. 98; size = 32 }) 0 digest refl
