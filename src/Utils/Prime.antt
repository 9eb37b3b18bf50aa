-- ===== src/Utils/Prime.antt =====
-- `isPrime` of utils/utils.c, and the size that `contentdeduptab_init` of contentdedup/contentdeduptab.c chooses.
use native.Mathlib.Nat.{div-add-mod}
use sim_replay.Prelude.{
  ℕ, zero, suc, ◌+◌, ◌*◌, ◌/◌, ◌%◌, ◌^◌, ◌≤◌, ◌<◌, ◌≡◌, ◌≢◌, ◌⊎◌, inl, inr, true, false, ok, ◌==◌,
  leb, arith, refl, Bool-cases, dec32,
}
use sim_replay.Utils.Defs.{inc_blkoffset, dec_blkoffset, trial, is_prime, prime_from, table_size}

trial_returns :
    (fuel i num : ℕ)
    → num < i + fuel
    → 0 < fuel
    → 0 < i
    → (trial fuel i num ≡ ok true) ⊎ (trial fuel i num ≡ ok false)
unfolding trial
trial_returns zero i num enough pos start = absurd (omega arith)
trial_returns (suc fuel) i num enough pos start = elim (Bool-cases (leb i (num / 2))) [
  | inl more ↦
      let next = trial_returns fuel (i + 2) num (omega arith) (ground arith) (omega arith) in
      ground (arith, next)
  | inr over ↦ ground arith
]

-- A loop that ends with 1 has tried every odd number from its start on.
trial_tried :
    (fuel i num d : ℕ)
    → trial fuel i num ≡ ok true
    → i ≤ d
    → d ≤ num / 2
    → d % 2 ≡ i % 2
    → num % d ≢ 0
unfolding trial
trial_tried zero i num d h lo hi par e = absurd (ground arith)
trial_tried (suc fuel) i num d h lo hi par e = elim (Bool-cases (i == d)) [
  | inl q ↦ ground arith
  | inr q ↦ trial_tried fuel (i + 2) num d (ground arith) (ground arith) hi (omega arith) e
]

is_prime_returns : (num : ℕ) → (is_prime num ≡ ok true) ⊎ (is_prime num ≡ ok false)
unfolding is_prime
is_prime_returns num =
    ground (arith, trial_returns (suc num) 3 num (omega arith) (omega arith) (omega arith))

even_times : (a k : ℕ) → 2 * a * k % 2 ≡ 0
even_times a zero = omega arith
even_times a (suc k) = omega (arith, even_times a k)

even_num : (num d k : ℕ) → d % 2 ≡ 0 → num % d ≡ 0 → d * k + num % d ≡ num → num % 2 ≡ 0
even_num num d k even e q =
    let m : (2 * (d / 2)) * k % 2 ≡ 0 = even_times (d / 2) k in
    let twice : 2 * (d / 2) ≡ d = omega arith in
    let m' : d * k % 2 ≡ 0 = rw twice at m in omega (arith, m')

-- A divisor of an odd number, other than 1 and itself, is odd and at most half of it.
proper_divisor :
    (num d : ℕ)
    → num % 2 ≢ 0
    → 1 < d
    → d < num
    → num % d ≡ 0
    → (3 ≤ d) × (d ≤ num / 2) × (d % 2 ≡ 1)
proper_divisor num d odd lo hi e = go (num / d) (div-add-mod num d)
  where
    go : (k : ℕ) → d * k + num % d ≡ num → (3 ≤ d) × (d ≤ num / 2) × (d % 2 ≡ 1)
    go zero q = absurd (omega arith)
    go (suc zero) q = absurd (omega arith)
    go (suc (suc k)) q =
        let whole : num ≡ d * k + 2 * d = omega arith in
        let odd_part : d % 2 ≢ 0 = λ even. odd (even_num num d (suc (suc k)) even e q) in
        (omega (arith, odd_part), omega (arith, whole), omega (arith, odd_part))

-- A number that `isPrime` accepts has no divisor between 1 and itself.
pub is_prime_lem : (num d : ℕ) → is_prime num ≡ ok true → 1 < d → d < num → num % d ≢ 0
unfolding is_prime
is_prime_lem num d h lo hi e =
    let odd : num % 2 ≢ 0 = λ q. ground arith in
    let (three, half, par) = proper_divisor num d odd lo hi e in
    trial_tried (suc num) 3 num d (ground arith) three half par e

one_accepted : is_prime 1 ≡ ok true
unfolding is_prime trial
one_accepted = refl

prime_from_lem :
    (fuel prim : ℕ)
    → 0 < prim
    → prim < 2 ^ 32
    → prim ≤ fuel
    → (p : ℕ) × (prime_from fuel prim ≡ ok p) × (0 < p) × (p ≤ prim) × (is_prime p ≡ ok true)
unfolding prime_from
prime_from_lem zero prim pos small enough = absurd (omega arith)
prime_from_lem (suc fuel) prim pos small enough = elim (is_prime_returns prim) [
  | inl found_one ↦ (prim, ground (arith, found_one), pos, omega arith, found_one)
  | inr refused ↦
      let above : 1 < prim = elim (Bool-cases (prim == 1)) [
        | inl q ↦ absurd (ground (arith, one_accepted, refused))
        | inr q ↦ ground arith
      ] in
      let (p, done, low, high, found) =
        prime_from_lem fuel (dec32 prim) (omega arith) (omega arith) (omega arith) in
      (p, ground (arith, done, refused), low, omega (arith, high), found)
]

-- The search for a table size from a size of 1 to 2^32 - 1 returns: a number that `isPrime` accepts, from 1
-- to that size.
pub table_size_lem :
    (size : ℕ)
    → 0 < size
    → size < 2 ^ 32
    → (p : ℕ) × (table_size size ≡ ok p) × (0 < p) × (p ≤ size) × (is_prime p ≡ ok true)
unfolding table_size
table_size_lem size pos small = elim (is_prime_returns size) [
  | inl found_one ↦ (size, ground arith, pos, omega arith, found_one)
  | inr refused ↦
      let (p, done, low, high, found) = prime_from_lem size size pos small (omega arith) in
      (p, ground (arith, done, refused), low, high, found)
]

-- A block offset below the block size stays below it when it is stepped on, and stepping on and back undo
-- each other, also around the end.
pub dec_blkoffset-inc_blkoffset :
    (val : ℕ)
    → val < 4096
    → (inc_blkoffset val < 4096)
      × (dec_blkoffset (inc_blkoffset val) ≡ val)
      × (inc_blkoffset (dec_blkoffset val) ≡ val)
unfolding inc_blkoffset dec_blkoffset
dec_blkoffset-inc_blkoffset val h = ground arith

-- A prime number, by its divisors.
unfoldable pub IsPrime : ℕ → Type 0
IsPrime p = (1 < p) × ((d : ℕ) → 1 < d → d < p → p % d ≢ 0)

three_accepted : is_prime 3 ≡ ok true
unfolding is_prime trial
three_accepted = refl

-- From a number above 2, the search does not pass 3.
prime_from_above :
    (fuel prim p : ℕ) → 2 < prim → prim < 2 ^ 32 → prime_from fuel prim ≡ ok p → 2 < p
unfolding prime_from
prime_from_above zero prim p above small h = absurd (ground arith)
prime_from_above (suc fuel) prim p above small h = elim (is_prime_returns prim) [
  | inl found_one ↦ ground (arith, found_one, h)
  | inr refused ↦
      let past : prim ≢ 3 = λ q. ground (arith, three_accepted, refused, q) in
      prime_from_above fuel (dec32 prim) p (omega (arith, past, above, small))
        (omega (arith, past, above, small)) (ground (arith, h, refused))
]

-- The size that is found from one of 3 to 2^32 - 1 is a prime number, by its divisors, and not larger.
pub table_size-IsPrime :
    (size : ℕ)
    → 2 < size
    → size < 2 ^ 32
    → (p : ℕ) × (table_size size ≡ ok p) × (p ≤ size) × IsPrime p
unfolding table_size IsPrime
table_size-IsPrime size above small =
    let (p, done, low, high, found) = table_size_lem size (omega (arith, above)) small in
    let more : 2 < p = elim (is_prime_returns size) [
      | inl found_one ↦ ground (arith, done, found_one)
      | inr refused ↦ prime_from_above size size p above small (ground (arith, done, refused))
    ] in
    (p, done, high, (omega (arith, more), λ d lo hi. is_prime_lem p d found lo hi))
