-- ===== src/SimDisk/Slots.antt =====
-- The places of the file of the simulated disk, of the two lengths that simdisk-runtime/simdisk-API.c stores.
use sim_replay.Prelude.{
  ℕ, zero, suc, ◌+◌, ◌-◌, ◌*◌, ◌%◌, ◌^◌, ◌<◌, ◌≤◌, ◌≡◌, ◌≢◌, ◌↔◌, some, List, [], ◌∷◌, true, false,
  arith, refl, ap, length, take, if◌then◌else◌, ok, ◌==◌, ◌&&◌,
}
use sim_replay.Modes.{Modes, stores_blocks}
use sim_replay.Hashtab.Api.{TableApi}
use sim_replay.SimDisk.File.{
  SimFile, fread, fwrite, read_simdisk, get_simcontent, write_simdisk, append_simcontent,
}
use sim_replay.SimDisk.Defs.{SimDisk, done, agrees, same_bytes, watched, put, check_seen, read_seen}

pub same_bytes_iff : (xs ys : List ℕ) → (same_bytes xs ys ≡ true) ↔ (xs ≡ ys)
unfolding same_bytes
same_bytes_iff [] [] = ground arith
same_bytes_iff [] (y ∷ ys) = ground arith
same_bytes_iff (x ∷ xs) [] = ground arith
same_bytes_iff (x ∷ xs) (y ∷ ys) = ground (arith, same_bytes_iff xs ys)

pub take_all : (n : ℕ) (xs : List ℕ) → length xs ≡ n → take n xs ≡ xs
take_all zero [] e = refl
take_all zero (x ∷ xs) e = absurd (omega (arith, e))
take_all (suc n) [] e = refl
take_all (suc n) (x ∷ xs) e = ap (λ l. x ∷ l) (take_all n xs (omega (arith, e)))

-- What is at a place of the file.
abbrev pub slot : ℕ → SimFile → ℕ → List ℕ
slot len f id = fread f (id * len) len

-- How contents of a length are stored: place after place, up to a bound.
pub record Slots (api : TableApi (List ℕ) ℕ) (modes : Modes) (len : ℕ) : Type 0 where
  pub bound : ℕ
  pub some_bytes : len ≢ 0
  pub bound_small : bound < 2 ^ 32
  pub next_place : (n : ℕ) → (n + 1) * len ≡ n * len + len
  pub inside : (i n : ℕ) → i < n → i * len + len ≤ n * len
  pub apart : (i j : ℕ) → i ≢ j → ¬ ((j * len < i * len + len) × (i * len < j * len + len))
  pub put_lem :
      (f : SimFile) (id : ℕ) (buf : List ℕ)
      → id < bound
      → length buf ≡ len
      → put modes len f id buf len ≡ ok (fwrite f (id * len) buf, false)
  pub read_lem :
      (s : SimDisk api.Table) (block_id id : ℕ) (buf : List ℕ)
      → id < bound
      → length (slot len s.file id) ≡ len
      → ((len == 32) && watched block_id) ≡ false
      → read_seen api modes s block_id id buf len ≡ ok (s, done (some (slot len s.file id)))
  pub check_lem :
      (s : SimDisk api.Table) (id : ℕ) (buf : List ℕ)
      → id < bound
      → length (slot len s.file id) ≡ len
      → check_seen api modes s id buf len ≡ (
          if same_bytes buf (slot len s.file id)
          then ok (s, agrees (some buf))
          else ok (s, done (some (slot len s.file id))))

-- Whole blocks: as many as a __u32 counts.
unfoldable pub block_slots : (api : TableApi (List ℕ) ℕ) (modes : Modes) → Slots api modes 4096
unfolding put read_seen check_seen read_simdisk write_simdisk
block_slots api modes = record {
  bound = 2 ^ 32 - 1;
  some_bytes = λ e. omega (arith, e);
  bound_small = omega arith;
  next_place = λ n. omega arith;
  inside = λ i n h. omega arith;
  apart = λ i j ne (a, b). ne (omega arith);
  put_lem = λ f id buf h e. ap (λ l. ok (fwrite f (id * 4096) l, false)) (take_all 4096 buf e);
  read_lem = λ s block_id id buf h e free. ground (arith, e);
  check_lem = λ s id buf h e. ground (arith, e);
}

-- Digests, unless the mode stores blocks: as many as have offsets below 2^32.
unfoldable pub digest_slots :
    (api : TableApi (List ℕ) ℕ) (modes : Modes) → stores_blocks modes ≡ false → Slots api modes 32
unfolding put read_seen check_seen get_simcontent append_simcontent
digest_slots api modes mode = record {
  bound = 2 ^ 27;
  some_bytes = λ e. omega (arith, e);
  bound_small = omega arith;
  next_place = λ n. omega arith;
  inside = λ i n h. omega arith;
  apart = λ i j ne (a, b). ne (omega arith);
  put_lem = λ f id buf h e.
      let at : id * 2 ^ 5 % 2 ^ 32 ≡ id * 32 = omega arith in
      ground (arith, take_all 32 buf e, at, mode);
  read_lem = λ s block_id id buf h e free.
      let at : id * 2 ^ 5 % 2 ^ 32 ≡ id * 32 = omega arith in ground (arith, e, at, mode, free);
  check_lem = λ s id buf h e.
      let at : id * 2 ^ 5 % 2 ^ 32 ≡ id * 32 = omega arith in ground (arith, e, at, mode);
}
