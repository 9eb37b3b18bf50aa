-- ===== src/SimDisk/Replay.antt =====
-- The calls that a replay makes of simdisk-runtime/simdisk-API.c, by volume and block.
use sim_replay.Prelude.{
  ℕ, ◌+◌, ◌*◌, ◌%◌, ◌^◌, ◌<◌, ◌≡◌, Option, none, some, List, true, false, not, ◌&&◌, arith, length,
  ◌==◌, if◌then◌else◌, inl, inr, Bool-cases, ok,
}
use sim_replay.Modes.{Modes}
use sim_replay.Hashtab.Defs.{max_nodes}
use sim_replay.Hashtab.Api.{TableApi}
use sim_replay.SimDisk.Key.{construct_key_volid_blkid, construct_key_volid_blkid_injective}
use sim_replay.SimDisk.File.{SimFile, get_simcontent, append_simcontent, fread-fwrite}
use sim_replay.SimDisk.Defs.{
  SimDisk, refused, done, agrees, same_bytes, watched, has_nul, simdisk_trap, disk_write_trap,
  disk_read_trap, disk_read_checkconsistency,
}
use sim_replay.SimDisk.Slots.{Slots, take_all}
use sim_replay.SimDisk.Sound.{IsSound, content_at, Stores}
use sim_replay.SimDisk.Disk.{stored_or, disk_write-Stores, disk_read-content_at, disk_read-check}

module _ (api : TableApi (List ℕ) ℕ) (modes : Modes) (len : ℕ) (slots : Slots api modes len) where
  -- The content of a block of a volume; none if it has never been written.
  abbrev pub block_at : SimDisk api.Table → ℕ → ℕ → Option (List ℕ)
  block_at s vol_id block_id =
      content_at api modes len slots s (construct_key_volid_blkid vol_id block_id)

  -- Keys are the same exactly where volume and block are.
  same_block :
      (w v c b : ℕ)
      → w < 2 ^ 16
      → v < 2 ^ 16
      → c < 2 ^ 32
      → b < 2 ^ 32
      → api.same_key (construct_key_volid_blkid w c) (construct_key_volid_blkid v b)
        ≡ ((w == v) && (c == b))
  same_block w v c b hw hv hc hb =
      let key = construct_key_volid_blkid v b in
      let other = construct_key_volid_blkid w c in
      let differ = construct_key_volid_blkid_injective w v c b hw hv hc hb in
      elim (Bool-cases ((w == v) && (c == b))) [
        | inl y ↦
            let ew : w ≡ v = ground arith in
            let ec : c ≡ b = ground arith in
            let eq : other ≡ key = cc in ground (arith, api.same_key_iff other key, eq)
        | inr n ↦ elim (Bool-cases (api.same_key other key)) [
          | inl k ↦
              let both = differ ((api.same_key_iff other key).0 k) in absurd (ground (arith, both))
          | inr k ↦ ground arith
        ]
      ]

  -- On a sound disk with room, of blocks, or of digests in a mode that does not store blocks, `disk_write_trap` of a
  -- content of the stored length succeeds and leaves the disk sound; `disk_read_trap` then gives the content at
  -- the block, and at every other block what was there: its content, or the error for a block that has never been
  -- written. Reads of digests are of blocks that are not among the four that the debugging output watches.
  pub disk_read_trap-disk_write_trap :
      (s : SimDisk api.Table) (v b : ℕ) (content : List ℕ)
      → IsSound api modes len slots s
      → length content ≡ len
      → v < 2 ^ 16
      → b < 2 ^ 32
      → api.nel s.blkidtab < max_nodes
      → s.simdisk_blkid < slots.bound
      → (s' : SimDisk api.Table) × (disk_write_trap api modes s v b content len len true
          ≡ ok (s', done none))
        × IsSound api modes len slots s'
        × ((w c : ℕ) (buf : List ℕ)
            → w < 2 ^ 16
            → c < 2 ^ 32
            → ((len == 32) && watched c) ≡ false
            → disk_read_trap api modes s' w c buf len ≡ (
                if (w == v) && (c == b)
                then ok (s', done (some content))
                else elim (block_at s w c) [
                  | none ↦ ok (s', refused)
                  | some old ↦ ok (s', done (some old))
                ]))
  unfolding disk_write_trap disk_read_trap simdisk_trap
  disk_read_trap-disk_write_trap s v b content sound e hv hb room below =
      let key = construct_key_volid_blkid v b in
      let (s', ran, stores) =
        disk_write-Stores api modes len slots s key content sound e room below in
      (
        s',
        ran,
        stores.sound,
        λ w c buf hw hc free.
            let other = construct_key_volid_blkid w c in
            let read = disk_read-content_at api modes len slots s' c other buf stores.sound free in
            let at = stores.contents other in
            let same = same_block w v c b hw hv hc hb in ground (arith, read, at, same),
      )

  -- On a sound disk with room, of blocks, or of digests in a mode that does not store blocks,
  -- `disk_read_checkconsistency` of a content of the stored length, that has a byte 0 if the block is one of the four
  -- that the debugging output watches, leaves the disk
  -- sound, and leaves every block's content, except that a block read for the first time gets the content of the
  -- request. It answers 1 where the request agrees with what the disk then has, and else 0 with the
  -- disk's content.
  pub disk_read_checkconsistency_lem :
      (s : SimDisk api.Table) (v b : ℕ) (content : List ℕ)
      → IsSound api modes len slots s
      → length content ≡ len
      → api.nel s.blkidtab < max_nodes
      → s.simdisk_blkid < slots.bound
      → (watched b && not (has_nul content)) ≡ false
      → let key = construct_key_volid_blkid v b in
        (s' : SimDisk api.Table) × (disk_read_checkconsistency api modes s v b content len len true
          ≡ ok (
            s',
            if same_bytes content (stored_or api modes len slots s key content)
                then agrees (some content)
                else done (some (stored_or api modes len slots s key content)),
          ))
        × Stores api modes len slots s s' key (stored_or api modes len slots s key content)
  unfolding disk_read_checkconsistency simdisk_trap
  disk_read_checkconsistency_lem s v b content sound e room below free =
      rw (free, disk_read_checkconsistency)
        (disk_read-check api modes len slots s b (construct_key_volid_blkid v b) content sound e
          room below)

-- The offset of a digest is computed on 32 bits: a write of a digest at a place 2^27 or more replaces the digest
-- at the place 2^27 below.
pub get_simcontent-append_simcontent_wrapped :
    (f : SimFile) (id : ℕ) (buf : List ℕ)
    → length buf ≡ 32
    → get_simcontent ((append_simcontent f (id + 2 ^ 27) buf 32).0) id ≡ some buf
unfolding get_simcontent append_simcontent
get_simcontent-append_simcontent_wrapped f id buf e =
    let at : (id + 2 ^ 27) * 2 ^ 5 % 2 ^ 32 ≡ id * 2 ^ 5 % 2 ^ 32 = omega arith in
    let same = fread-fwrite f (id * 2 ^ 5 % 2 ^ 32) buf (λ z. omega (arith, z, e)) in
    ground (arith, at, take_all 32 buf e, same, e)
