-- ===== src/Vectors/Defs.antt =====
-- The operations of utils/vector16.c and utils/vector32.c. `none` is NULL, and `room` counts the cells that are
-- allocated; realloc is taken to succeed.
use sim_replay.Prelude.{
  ℕ, ◌+◌, ◌*◌, ◌%◌, ◌^◌, Option, none, some, Result, ok, fault, ◌==◌, leb, ltb, if◌then◌else◌, ◌&&◌,
}

-- `vector16` and `vector32`
pub record Vector {ℓ} (A : Type ℓ) : Type ℓ where
  pub data_at : ℕ → Option A
  pub size : ℕ
  pub room : ℕ

module _ {ℓ} {A : Type ℓ} where
  -- `vector16_init`
  unfoldable pub init : Vector A
  init = record { data_at = λ _. none; size = 0; room = 0 }

  -- `for (i = from; i < to; i++) v->data[i] = NULL`
  unfoldable pub cleared : ℕ → ℕ → (ℕ → Option A) → ℕ → Option A
  cleared from to cells i = if leb from i && ltb i to then none else cells i

  -- `v->data[index] = e`
  unfoldable pub write : Vector A → ℕ → Option A → Result (Vector A)
  write v index e =
      if ltb index v.room
      then ok (record v { data_at = λ i. if i == index then e else v.data_at i })
      else fault

  -- `vector16_set`; the element that was at the index is freed.
  unfoldable pub vector16_set : Vector A → ℕ → Option A → Result (Vector A)
  unfolding write cleared
  vector16_set v index e =
      if leb v.size index
      then write
          (record {
            data_at = cleared v.size (index + 1) v.data_at;
            size = (index + 1) % 2 ^ 16;
            room = index + 1;
          })
          index e
      else write v index e

  -- `vector32_set`
  unfoldable pub vector32_set : Vector A → ℕ → Option A → Result (Vector A)
  unfolding write cleared
  vector32_set v index e =
      if leb v.size index
      then write
          (record {
            data_at = cleared v.size ((index + 1) % 2 ^ 32 * 2 % 2 ^ 32) v.data_at;
            size = (index + 1) % 2 ^ 32 * 2 % 2 ^ 32;
            room = (index + 1) % 2 ^ 32 * 2;
          })
          index e
      else write v index e

  -- `vector16_get` and `vector32_get`
  unfoldable pub get : Vector A → ℕ → Option A
  get v index = if leb v.size index then none else v.data_at index

  -- `vector16_resize`: on growth the new cells are cleared.
  unfoldable pub resize : Vector A → ℕ → Vector A
  unfolding cleared
  resize v newsize =
      if ltb v.size newsize
      then record { data_at = cleared v.size newsize v.data_at; size = newsize; room = newsize }
      else record { data_at = v.data_at; size = newsize; room = newsize }

  -- `vector16_delete`
  unfoldable pub delete : Vector A → ℕ → Vector A
  delete v index = if leb v.size index then v else elim (v.data_at index) [
    | none ↦ v
    | some _ ↦ record v { data_at = λ i. if i == index then none else v.data_at i }
  ]
