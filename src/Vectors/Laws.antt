-- ===== src/Vectors/Laws.antt =====
-- What a user of utils/vector16.c and utils/vector32.c may rely on, and where the sizes wrap around.
use sim_replay.Prelude.{
  ℕ, ◌+◌, ◌*◌, ◌-◌, ◌^◌, ◌≤◌, ◌<◌, ◌≡◌, Option, none, inl, inr, Bool-cases, Option-cases, ◌%◌, ok,
  ◌==◌, leb, ltb, if◌then◌else◌, arith,
}
use sim_replay.Vectors.Defs.{
  Vector, vector16_set, vector32_set, get, resize, delete, write, cleared,
}

module _ {A : Type 0} where
  -- `vector16_set` below index 65535 succeeds. The size grows just to the index if that was outside; the
  -- index then holds the element and every other index what it held, where an index beyond the size holds
  -- NULL.
  pub get-vector16_set :
      (v : Vector A) (index : ℕ) (e : Option A)
      → v.size ≤ v.room
      → index < 2 ^ 16 - 1
      → (v' : Vector A) × (vector16_set v index e ≡ ok v')
        × (v'.size ≤ v'.room)
        × (v'.size ≡ (if leb v.size index then index + 1 else v.size))
        × ((j : ℕ) → get v' j ≡ (if j == index then e else get v j))
  unfolding vector16_set get write cleared
  get-vector16_set v index e fit small = elim (Bool-cases (leb v.size index)) [
    | inl grows ↦ (
      record {
        data_at = λ i. if i == index then e else cleared v.size (index + 1) v.data_at i;
        size = (index + 1) % 2 ^ 16;
        room = index + 1;
      },
      ground arith,
      omega arith,
      ground arith,
      λ j. ground arith,
    )
    | inr inside ↦ (
      record v { data_at = λ i. if i == index then e else v.data_at i },
      ground arith,
      fit,
      ground arith,
      λ j. ground arith,
    )
  ]

  -- `vector32_set` below index 2^31 - 1 succeeds. The size becomes twice what is needed if the index was
  -- outside; the index then holds the element and every other index what it held.
  pub get-vector32_set :
      (v : Vector A) (index : ℕ) (e : Option A)
      → v.size ≤ v.room
      → index < 2 ^ 31 - 1
      → (v' : Vector A) × (vector32_set v index e ≡ ok v')
        × (v'.size ≤ v'.room)
        × (v'.size ≡ (if leb v.size index then (index + 1) * 2 else v.size))
        × ((j : ℕ) → get v' j ≡ (if j == index then e else get v j))
  unfolding vector32_set get write cleared
  get-vector32_set v index e fit small = elim (Bool-cases (leb v.size index)) [
    | inl grows ↦ (
      record {
        data_at = λ i.
            if i == index
            then e
            else cleared v.size ((index + 1) % 2 ^ 32 * 2 % 2 ^ 32) v.data_at i;
        size = ((index + 1) % 2 ^ 32 * 2 % 2 ^ 32);
        room = (index + 1) % 2 ^ 32 * 2;
      },
      ground arith,
      omega arith,
      ground arith,
      λ j. ground arith,
    )
    | inr inside ↦ (
      record v { data_at = λ i. if i == index then e else v.data_at i },
      ground arith,
      fit,
      ground arith,
      λ j. ground arith,
    )
  ]

  -- `vector32_set` outside the size, at an index from 2^31 - 1 to 2^32 - 2: the doubled size wraps around,
  -- so the element that was just set reads as NULL.
  pub get-vector32_set_wrapped :
      (v : Vector A) (index : ℕ) (e : Option A)
      → v.size ≤ index
      → 2 ^ 31 - 1 ≤ index
      → index < 2 ^ 32 - 1
      → (v' : Vector A) × (vector32_set v index e ≡ ok v')
        × (v'.size ≤ index)
        × (get v' index ≡ none)
  unfolding vector32_set get write cleared
  get-vector32_set_wrapped v index e outside large small = (
    record {
      data_at = λ i.
          if i == index then e else cleared v.size ((index + 1) % 2 ^ 32 * 2 % 2 ^ 32) v.data_at i;
      size = (index + 1) % 2 ^ 32 * 2 % 2 ^ 32;
      room = (index + 1) % 2 ^ 32 * 2;
    },
    ground arith,
    omega arith,
    ground arith,
  )

  -- `vector16_resize` keeps what is below both sizes, and every other index reads as NULL.
  pub get-resize :
      (v : Vector A) (newsize j : ℕ)
      → get (resize v newsize) j ≡ (if ltb j newsize then get v j else none)
  unfolding resize get cleared
  get-resize v newsize j = ground arith

  -- `vector16_delete` makes the index read as NULL and leaves every other index.
  pub get-delete :
      (v : Vector A) (index j : ℕ) → get (delete v index) j ≡ (if j == index then none else get v j)
  unfolding delete get
  get-delete v index j = elim (Option-cases (v.data_at index)) [
    | inl e ↦ ground arith
    | inr (x, e) ↦ ground arith
  ]
