-- ===== src/Prelude/Machine.antt =====
-- What the C sources return and how their unsigned arithmetic wraps: a result with the error codes
-- of <errno.h>, a fault for undefined behaviour, and 32-bit counters.
use Prim.Native.Nat.{ℕ, ◌+◌, ◌-◌, ◌%◌, ◌^◌, ◌<◌}
use mathlib.Core.Logic.{◌⊎◌, inl, inr}
use mathlib.Core.Path.{◌≡◌, refl}
use native.Mathlib.Omega.{arith}

pub data Errno : Type 0 where
  einval enoent eexist enomem eio : Errno

-- `fault` is a dereference of NULL or an access out of range: the C program has no defined result.
pub data Result {ℓ} (A : Type ℓ) : Type ℓ where
  ok : A → Result A
  err : Errno → Result A
  fault : Result A

infixl 5 ◌>>=◌
abbrev pub ◌>>=◌ {ℓ κ} : {A : Type ℓ} {B : Type κ} → Result A → (A → Result B) → Result B
ok a >>= f = f a
err e >>= f = err e
fault >>= f = fault

pub Result-cases {ℓ} :
    {A : Type ℓ} (m : Result A) → ((a : A) × (m ≡ ok a)) ⊎ ((e : Errno) × (m ≡ err e)) ⊎ (m ≡ fault)
Result-cases (ok a) = inl (a, refl)
Result-cases (err e) = inr (inl (e, refl))
Result-cases fault = inr (inr refl)

abbrev pub u32_mod : ℕ
u32_mod = 2 ^ 32

-- `x++` and `x--` on a __u32.
abbrev pub inc32 : ℕ → ℕ
inc32 x = (x + 1) % u32_mod

abbrev pub dec32 : ℕ → ℕ
dec32 x = (x + u32_mod - 1) % u32_mod

pub dec32-inc32 : (x : ℕ) → x < u32_mod → dec32 (inc32 x) ≡ x
dec32-inc32 x h = omega arith
