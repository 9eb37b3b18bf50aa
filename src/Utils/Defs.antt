-- ===== src/Utils/Defs.antt =====
-- utils/utils.c, and the choice of a table size in contentdedup/contentdeduptab.c.
use sim_replay.Prelude.{
  ℕ, zero, suc, ◌+◌, ◌-◌, ◌/◌, ◌%◌, ◌^◌, Bool, true, false, Result, ok, fault, ◌==◌, leb,
  if◌then◌else◌, ◌>>=◌, dec32,
}

-- `inc_blkoffset` and `dec_blkoffset`, with `BLKSIZE` 4096.
unfoldable pub inc_blkoffset : ℕ → ℕ
inc_blkoffset val = if val == 4095 then 0 else (val + 1) % 2 ^ 16

unfoldable pub dec_blkoffset : ℕ → ℕ
dec_blkoffset val = if val == 0 then 4095 else val - 1

-- The loop of `isPrime`.
unfoldable pub trial : ℕ → ℕ → ℕ → Result Bool
trial zero i num = fault
trial (suc fuel) i num =
    let rest = trial fuel (i + 2) num in
    if leb i (num / 2) then if num % i == 0 then ok false else rest else ok true

-- `isPrime`; the divisor grows by 2 in each round.
unfoldable pub is_prime : ℕ → Result Bool
is_prime num = if num % 2 == 0 then ok false else trial (suc num) 3 num

-- `for (prim = size; ; prim--)` of `contentdeduptab_init`.
unfoldable pub prime_from : ℕ → ℕ → Result ℕ
prime_from zero prim = fault
prime_from (suc fuel) prim =
    is_prime prim >>= λ found. elim found [ true ↦ ok prim | false ↦ prime_from fuel (dec32 prim) ]

-- The size that the table gets.
unfoldable pub table_size : ℕ → Result ℕ
table_size size = do
  found ← is_prime size
  elim found [ true ↦ ok size | false ↦ prime_from size size ]
