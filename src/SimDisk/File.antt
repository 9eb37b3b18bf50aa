-- ===== src/SimDisk/File.antt =====
-- content-simfile.c: the file of the simulated disk, as bytes. fseek past the end is allowed, and a later write
-- fills the hole with zeroes; a read gives what there is up to the end.
use sim_replay.Prelude.{
  ℕ, zero, suc, ◌+◌, ◌-◌, ◌*◌, ◌%◌, ◌^◌, ◌<◌, ◌≤◌, ◌≡◌, ◌≢◌, Option, none, some, List, [], ◌∷◌,
  Bool, true, false, ◌&&◌, arith, refl, ap, length, take, get_or, ltb, leb, ◌==◌, if◌then◌else◌,
}
use Prim.Native.Nat.{min, max}

-- `simdiskptr`
pub record SimFile : Type 0 where
  pub byte_at : ℕ → ℕ
  pub size : ℕ

-- `n` bytes from an offset.
unfoldable pub bytes_from : (ℕ → ℕ) → ℕ → ℕ → List ℕ
bytes_from bytes offset zero = []
bytes_from bytes offset (suc n) = bytes offset ∷ bytes_from bytes (offset + 1) n

-- fread of `n` bytes: the bytes that there are.
unfoldable pub fread : SimFile → ℕ → ℕ → List ℕ
fread f offset n = bytes_from f.byte_at offset (min n (f.size - offset))

-- fwrite of the bytes at an offset.
unfoldable pub fwrite : SimFile → ℕ → List ℕ → SimFile
fwrite f offset [] = f
fwrite f offset (x ∷ xs) = record {
  byte_at = λ i.
      if leb offset i && ltb i (offset + length (x ∷ xs))
      then get_or (x ∷ xs) (i - offset) 0
      else if ltb i f.size
      then f.byte_at i
      else 0;
  size = max f.size (offset + length (x ∷ xs));
}

-- BLKSIZE, and MD5HASHLEN_STR - 1 of pdd_config.h.
abbrev pub blksize : ℕ
blksize = 4096

abbrev pub md5_chars : ℕ
md5_chars = 32

-- A short read is an error.
unfoldable pub read_simdisk : SimFile → ℕ → Option (List ℕ)
read_simdisk f simdisk_blkid =
    let buf = fread f (simdisk_blkid * 2 ^ 12) blksize in
    if length buf == blksize then some buf else none

-- `get_simcontent`, with `generate` 0. The offset is computed on 32 bits.
unfoldable pub get_simcontent : SimFile → ℕ → Option (List ℕ)
get_simcontent f ioblk =
    let buf = fread f (ioblk * 2 ^ 5 % 2 ^ 32) md5_chars in
    if length buf == md5_chars then some buf else none

-- fwrite takes `written` bytes; fewer than asked for are an error, which the Boolean says.
unfoldable pub write_simdisk : SimFile → ℕ → List ℕ → ℕ → SimFile × Bool
write_simdisk f simdisk_blkid buf written = (
  fwrite f (simdisk_blkid * 2 ^ 12) (take written buf),
  if written == blksize then false else true,
)

unfoldable pub append_simcontent : SimFile → ℕ → List ℕ → ℕ → SimFile × Bool
append_simcontent f ioblk buf written = (
  fwrite f (ioblk * 2 ^ 5 % 2 ^ 32) (take written buf),
  if written == md5_chars then false else true,
)

pub length-bytes_from : (bytes : ℕ → ℕ) (offset n : ℕ) → length (bytes_from bytes offset n) ≡ n
unfolding bytes_from
length-bytes_from bytes offset zero = refl
length-bytes_from bytes offset (suc n) = ap suc (length-bytes_from bytes (offset + 1) n)

bytes_from-list :
    (bytes : ℕ → ℕ) (offset : ℕ) (xs : List ℕ)
    → ((i : ℕ) → i < length xs → bytes (offset + i) ≡ get_or xs i 0)
    → bytes_from bytes offset (length xs) ≡ xs
unfolding bytes_from
bytes_from-list bytes offset [] h = refl
bytes_from-list bytes offset (x ∷ xs) h =
    let head : bytes offset ≡ x = ground (arith, h 0 (omega arith)) in
    let rest =
      bytes_from-list bytes (offset + 1) xs (λ i small. ground (arith, h (suc i) (omega arith))) in
    ground (arith, head, rest)

bytes_from-agree :
    (f g : ℕ → ℕ) (offset n : ℕ)
    → ((i : ℕ) → offset ≤ i → i < offset + n → f i ≡ g i)
    → bytes_from f offset n ≡ bytes_from g offset n
unfolding bytes_from
bytes_from-agree f g offset zero h = refl
bytes_from-agree f g offset (suc n) h = ground (
  arith,
  h offset (omega arith) (omega arith),
  bytes_from-agree f g (offset + 1) n (λ i a b. h i (omega arith) (omega arith)),
)

-- A read of what was just written.
pub fread-fwrite :
    (f : SimFile) (offset : ℕ) (xs : List ℕ)
    → length xs ≢ 0
    → fread (fwrite f offset xs) offset (length xs) ≡ xs
unfolding fread fwrite
fread-fwrite f offset [] h = absurd (h refl)
fread-fwrite f offset (x ∷ xs) h =
    let all : min (suc (length xs)) (max f.size (offset + suc (length xs)) - offset)
        ≡ suc (length xs) =
      omega arith in
    rw all (
      bytes_from-list ((fwrite f offset (x ∷ xs)).byte_at) offset (x ∷ xs)
        (λ i small. let at : offset + i - offset ≡ i = omega arith in ground (arith, at)))

-- A read of bytes that the file had and the write did not touch.
pub fread-fwrite_apart :
    (f : SimFile) (offset at n : ℕ) (xs : List ℕ)
    → at + n ≤ f.size
    → ¬ ((at < offset + length xs) × (offset < at + n))
    → fread (fwrite f offset xs) at n ≡ fread f at n
unfolding fread fwrite
fread-fwrite_apart f offset at n [] room apart = refl
fread-fwrite_apart f offset at n (x ∷ xs) room apart =
    let all : min n (max f.size (offset + suc (length xs)) - at) ≡ n = omega arith in
    let old : min n (f.size - at) ≡ n = omega arith in
    rw all (
      rw old (
        bytes_from-agree ((fwrite f offset (x ∷ xs)).byte_at) f.byte_at at n (λ i a b.
          let out : (leb offset i && ltb i (offset + suc (length xs))) ≡ false = ground arith in
          ground (arith, out))))

-- A write does not shorten the file, and the file then has the bytes written.
pub size-fwrite :
    (f : SimFile) (offset : ℕ) (xs : List ℕ)
    → (f.size ≤ (fwrite f offset xs).size)
      × (length xs ≢ 0 → offset + length xs ≤ (fwrite f offset xs).size)
unfolding fwrite
size-fwrite f offset [] = (omega arith, λ h. absurd (h refl))
size-fwrite f offset (x ∷ xs) = (omega arith, λ h. omega arith)
