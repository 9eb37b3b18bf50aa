-- ===== src/SimDisk/Defs.antt =====
-- simdisk-runtime/simdisk-API.c: where each block is in the file of the simulated disk. The table is blkidtab, from
-- the key of a block to its place in the file.
use sim_replay.Prelude.{
  ℕ, ◌==◌, Option, none, some, Bool, true, false, not, ◌&&◌, ◌||◌, List, [], ◌∷◌, Result, ok, err,
  fault, ◌>>=◌, if◌then◌else◌, inc32, Errno,
}
use sim_replay.Modes.{Modes, stores_blocks}
use sim_replay.Hashtab.Api.{TableApi}
use sim_replay.SimDisk.Key.{construct_key_volid_blkid}
use sim_replay.SimDisk.File.{
  SimFile, blksize, md5_chars, read_simdisk, get_simcontent, write_simdisk, append_simcontent,
}

pub record SimDisk (T : Type 0) : Type 0 where
  pub file : SimFile
  pub blkidtab : T
  pub simdisk_blkid : ℕ

-- What `simdisk_trap` returns, with `simcontent` as it is left: RET_ERR, or 0 or 1, which `agrees` says.
pub data Reply : Type 0 where
  refused : Reply
  done : Option (List ℕ) → Reply
  agrees : Option (List ℕ) → Reply

-- memcmp as a test of equality.
unfoldable pub same_bytes : List ℕ → List ℕ → Bool
same_bytes [] [] = true
same_bytes [] (y ∷ ys) = false
same_bytes (x ∷ xs) [] = false
same_bytes (x ∷ xs) (y ∷ ys) = let rest = same_bytes xs ys in (x == y) && rest

-- The blocks that are printed on the way.
abbrev pub watched : ℕ → Bool
watched block_id =
    (block_id == 10) || (block_id == 33414267) || (block_id == 34600770) || (block_id == 10100928)

-- `printf` of a `%s` needs a byte 0.
unfoldable pub has_nul : List ℕ → Bool
has_nul [] = false
has_nul (x ∷ xs) = let rest = has_nul xs in (x == 0) || rest

-- A write of a block or of a digest, by its length. A mode that stores blocks asserts that it is no digest.
unfoldable pub put : Modes → ℕ → SimFile → ℕ → List ℕ → ℕ → Result (SimFile × Bool)
put modes len f id buf written =
    if len == blksize
    then ok (write_simdisk f id buf written)
    else if len == md5_chars
    then if stores_blocks modes then fault else ok (append_simcontent f id buf written)
    else fault

module _ (api : TableApi (List ℕ) ℕ) (modes : Modes) where
  -- A block that has been seen, with a consistency check. What get_simcontent returns is not looked at, so after
  -- a short read the buffer that is compared is not set.
  unfoldable pub check_seen :
      SimDisk api.Table → ℕ → List ℕ → ℕ → Result (SimDisk api.Table × Reply)
  check_seen s id simcontent len =
      let compared : List ℕ → Result (SimDisk api.Table × Reply) = λ tempbuf.
        if same_bytes simcontent tempbuf
        then ok (s, agrees (some simcontent))
        else ok (s, done (some tempbuf)) in
      if len == blksize
      then elim (read_simdisk s.file id) [
        | none ↦ ok (s, refused)
        | some tempbuf ↦ compared tempbuf
      ]
      else if len == md5_chars
      then if stores_blocks modes
        then fault
        else elim (get_simcontent s.file id) [ none ↦ fault | some tempbuf ↦ compared tempbuf ]
      else fault

  -- A read of a block that has been seen. After a short read of a digest, `simcontent` is as it was. For a block
  -- that is watched, the hash of a whole block is then printed, and runs past the end of a digest.
  unfoldable pub read_seen :
      SimDisk api.Table → ℕ → ℕ → List ℕ → ℕ → Result (SimDisk api.Table × Reply)
  read_seen s block_id id simcontent len =
      if len == blksize
      then elim (read_simdisk s.file id) [
        | none ↦ ok (s, refused)
        | some buf ↦ ok (s, done (some buf))
      ]
      else if len == md5_chars
      then if stores_blocks modes || watched block_id
        then fault
        else elim (get_simcontent s.file id) [
          | none ↦ ok (s, done (some simcontent))
          | some buf ↦ ok (s, done (some buf))
        ]
      else fault

  unfoldable pub write_seen :
      SimDisk api.Table → ℕ → List ℕ → ℕ → ℕ → Result (SimDisk api.Table × Reply)
  write_seen s id md5string len written = do
    r ← put modes len s.file id md5string written
    ok (record s { file = r.0 }, if r.1 then refused else done none)

  -- The end of a new block, by the status of `hashtab_insert`.
  unfoldable pub entered :
      SimDisk api.Table → Result api.Table → Reply → Result (SimDisk api.Table × Reply)
  entered s (ok t) reply =
      ok (record s { blkidtab = t; simdisk_blkid = inc32 s.simdisk_blkid }, reply)
  entered s (err Errno.eexist) reply = ok (s, refused)
  entered s (err Errno.enomem) reply = ok (s, refused)
  entered s (err e) reply = ok (record s { simdisk_blkid = inc32 s.simdisk_blkid }, reply)
  entered s fault reply = fault

  unfoldable pub write_new :
      SimDisk api.Table
      → List ℕ
      → List ℕ
      → ℕ
      → ℕ
      → Bool
      → Reply
      → Result (SimDisk api.Table × Reply)
  unfolding entered
  write_new s key bufptr len written got_node reply = do
    r ← put modes len s.file s.simdisk_blkid bufptr written
    elim (r.1) [
      | true ↦ ok (record s { file = r.0 }, refused)
      | false ↦
          entered (record s { file = r.0 }) (api.insert s.blkidtab key s.simdisk_blkid got_node)
            reply
    ]

  -- `simcontent` stands for a read, `md5string` for a write: the asserts at the start ask for just one.
  unfoldable pub disk_read :
      SimDisk api.Table
      → ℕ
      → List ℕ
      → List ℕ
      → ℕ
      → Bool
      → ℕ
      → Bool
      → Result (SimDisk api.Table × Reply)
  disk_read s block_id key simcontent len consistencycheck written got_node = do
    found ← api.search s.blkidtab key
    elim found [
      | some id ↦
          if consistencycheck
          then check_seen s id simcontent len
          else read_seen s block_id id simcontent len
      | none ↦
          if consistencycheck
          then write_new s key simcontent len written got_node (agrees (some simcontent))
          else ok (s, refused)
    ]

  unfoldable pub disk_write :
      SimDisk api.Table → List ℕ → List ℕ → ℕ → ℕ → Bool → Result (SimDisk api.Table × Reply)
  disk_write s key md5string len written got_node = do
    found ← api.search s.blkidtab key
    elim found [
      | some id ↦ write_seen s id md5string len written
      | none ↦ write_new s key md5string len written got_node (done none)
    ]

  unfoldable pub simdisk_trap :
      SimDisk api.Table
      → ℕ
      → ℕ
      → Option (List ℕ)
      → Option (List ℕ)
      → Bool
      → ℕ
      → Bool
      → ℕ
      → Bool
      → Result (SimDisk api.Table × Reply)
  simdisk_trap s vol_id block_id (some simcontent) none true len consistencycheck written got_node =
      disk_read s block_id (construct_key_volid_blkid vol_id block_id) simcontent len
        consistencycheck written got_node
  simdisk_trap s vol_id block_id none (some md5string) false len false written got_node =
      disk_write s (construct_key_volid_blkid vol_id block_id) md5string len written got_node
  simdisk_trap s vol_id block_id simcontent md5string rw len consistencycheck written got_node =
      fault

  unfoldable pub disk_write_trap :
      SimDisk api.Table → ℕ → ℕ → List ℕ → ℕ → ℕ → Bool → Result (SimDisk api.Table × Reply)
  disk_write_trap s vol_id block_id md5string len written got_node =
      simdisk_trap s vol_id block_id none (some md5string) false len false written got_node

  unfoldable pub disk_read_trap :
      SimDisk api.Table → ℕ → ℕ → List ℕ → ℕ → Result (SimDisk api.Table × Reply)
  disk_read_trap s vol_id block_id simcontent len =
      simdisk_trap s vol_id block_id (some simcontent) none true len false 0 true

  -- The content of a block that is watched is printed as a string.
  unfoldable pub disk_read_checkconsistency :
      SimDisk api.Table → ℕ → ℕ → List ℕ → ℕ → ℕ → Bool → Result (SimDisk api.Table × Reply)
  disk_read_checkconsistency s vol_id block_id simcontent len written got_node =
      if watched block_id && not (has_nul simcontent)
      then fault
      else simdisk_trap s vol_id block_id (some simcontent) none true len true written got_node
