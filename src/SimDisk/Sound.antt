-- ===== src/SimDisk/Sound.antt =====
-- What the disk of simdisk-runtime/simdisk-API.c stores: the content of a key, and what holds of the table and
-- the file between two calls.
use sim_replay.Prelude.{
  ℕ, ◌+◌, ◌-◌, ◌*◌, ◌<◌, ◌≤◌, ◌≡◌, ◌≢◌, Option, none, some, List, arith, sym, ◌∙◌, length,
  if◌then◌else◌,
}
use Prim.Native.Nat.{min}
use sim_replay.Modes.{Modes}
use sim_replay.Hashtab.Api.{TableApi}
use sim_replay.SimDisk.File.{
  SimFile, fread, fwrite, fread-fwrite, fread-fwrite_apart, length-bytes_from,
}
use sim_replay.SimDisk.Defs.{SimDisk}
use sim_replay.SimDisk.Slots.{Slots, slot}

module _ (api : TableApi (List ℕ) ℕ) (modes : Modes) (len : ℕ) (slots : Slots api modes len) where
  -- Every key of the table has its own place, and the file has the bytes of every place.
  pub record IsSound (s : SimDisk api.Table) : Type 0 where
    pub good : api.IsGood s.blkidtab
    pub placed : (k : List ℕ) (id : ℕ) → api.lookup s.blkidtab k ≡ some id → id < s.simdisk_blkid
    pub own :
        (j k : List ℕ) (id : ℕ)
        → api.lookup s.blkidtab j ≡ some id
        → api.lookup s.blkidtab k ≡ some id
        → j ≡ k
    pub filled : s.simdisk_blkid * len ≤ s.file.size
    pub small : s.simdisk_blkid ≤ slots.bound

  -- The content of a key; none if it has never been written.
  unfoldable pub content_at : SimDisk api.Table → List ℕ → Option (List ℕ)
  content_at s k = elim (api.lookup s.blkidtab k) [
    | none ↦ none
    | some id ↦ some (slot len s.file id)
  ]

  pub length-slot :
      (s : SimDisk api.Table) (id : ℕ)
      → IsSound s
      → id < s.simdisk_blkid
      → length (slot len s.file id) ≡ len
  unfolding fread
  length-slot s id sound h =
      let fits = slots.inside id s.simdisk_blkid h in
      let all : min len (s.file.size - id * len) ≡ len = omega (arith, fits, sound.filled) in
      length-bytes_from s.file.byte_at (id * len) (min len (s.file.size - id * len)) ∙ all

  -- A write of one place shows at the place and nowhere else.
  pub slot-fwrite :
      (f : SimFile) (id : ℕ) (buf : List ℕ)
      → length buf ≡ len
      → slot len (fwrite f (id * len) buf) id ≡ buf
  slot-fwrite f id buf e =
      let same = fread-fwrite f (id * len) buf (λ z. slots.some_bytes (sym e ∙ z)) in
      ground (arith, same, e)

  pub slot-fwrite_other :
      (f : SimFile) (i j : ℕ) (buf : List ℕ)
      → length buf ≡ len
      → i ≢ j
      → i * len + len ≤ f.size
      → slot len (fwrite f (j * len) buf) i ≡ slot len f i
  slot-fwrite_other f i j buf e ne room =
      fread-fwrite_apart f (j * len) (i * len) len buf room
        (λ (a, b). slots.apart i j ne (omega (arith, b), omega (arith, a, e)))

  -- A disk after a key has got a content.
  pub record Stores (s s' : SimDisk api.Table) (key content : List ℕ) : Type 0 where
    pub sound : IsSound s'
    pub contents :
        (j : List ℕ)
        → content_at s' j ≡ (if api.same_key j key then some content else content_at s j)
