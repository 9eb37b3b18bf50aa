-- ===== src/Vectors/Wide.antt =====
-- utils/vector64.c: the loop of `vector64_set`, whose counter has 32 bits where the index has 64. The counter
-- stands for `__u32 i`; the fuel is the number of turns, and `none` says that the loop is not yet over.
use sim_replay.Prelude.{
  ℕ, zero, suc, ◌+◌, ◌-◌, ◌^◌, ◌≤◌, ◌<◌, ◌≡◌, Option, none, some, inl, inr, Bool-cases, ◌%◌, Result,
  ok, ◌==◌, leb, ltb, if◌then◌else◌, arith,
}
use sim_replay.Vectors.Defs.{Vector, get, write}

module _ {A : Type 0} where
  -- `for (i = v->size; i < (index + 1); i++) v->data[i] = NULL`
  unfoldable clear_cells : ℕ → ℕ → ℕ → (ℕ → Option A) → Option (ℕ → Option A)
  clear_cells zero i to cells = if ltb i to then none else some cells
  clear_cells (suc fuel) i to cells =
      let rest = clear_cells fuel ((i + 1) % 2 ^ 32) to (λ j. if j == i then none else cells j) in
      if ltb i to then rest else some cells

  -- `vector64_set`; `room` counts the cells of the `8 * (index + 1)` bytes that realloc is asked for.
  unfoldable pub vector64_set : ℕ → Vector A → ℕ → Option A → Option (Result (Vector A))
  unfolding clear_cells write
  vector64_set fuel v index e =
      if leb v.size index
      then elim (clear_cells fuel (v.size % 2 ^ 32) ((index + 1) % 2 ^ 64) v.data_at) [
        | none ↦ none
        | some cells ↦ some (
            write
              (record { data_at = cells; size = (index + 1) % 2 ^ 64; room = (index + 1) % 2 ^ 61 })
              index e)
      ]
      else some (write v index e)

  -- While the bound fits in the counter, the loop ends, and clears the cells from the counter to the bound.
  clear_cells_lem :
      (fuel i to : ℕ) (cells : ℕ → Option A)
      → to ≤ i + fuel
      → to < 2 ^ 32
      → (after : ℕ → Option A) × (clear_cells fuel i to cells ≡ some after)
        × ((j : ℕ) → j < to → after j ≡ (if leb i j then none else cells j))
  unfolding clear_cells
  clear_cells_lem zero i to cells enough small = (cells, ground arith, λ j h. ground arith)
  clear_cells_lem (suc fuel) i to cells enough small = elim (Bool-cases (ltb i to)) [
    | inr over ↦ (cells, ground arith, λ j h. ground arith)
    | inl on ↦
        let next : (i + 1) % 2 ^ 32 ≡ i + 1 = ground arith in
        let (after, done, cleared) =
          clear_cells_lem fuel ((i + 1) % 2 ^ 32) to (λ j. if j == i then none else cells j)
            (ground (arith, next)) small in
        (after, ground (arith, done), λ j h. ground (arith, cleared j h, next))
  ]

  -- When the bound does not fit in the counter, the loop is on after any number of turns.
  clear_cells_runs_on :
      (fuel i to : ℕ) (cells : ℕ → Option A)
      → i < 2 ^ 32
      → 2 ^ 32 ≤ to
      → clear_cells fuel i to cells ≡ none
  unfolding clear_cells
  clear_cells_runs_on zero i to cells small large = ground arith
  clear_cells_runs_on (suc fuel) i to cells small large =
      let rest =
        clear_cells_runs_on fuel ((i + 1) % 2 ^ 32) to (λ j. if j == i then none else cells j)
          (omega arith) large in
      ground (arith, rest)

  -- `vector64_set` below index 2^32 - 1 returns, within index + 1 turns of its loop; the
  -- index then holds the element and every other index what it held, where an index beyond the size holds
  -- NULL.
  pub get-vector64_set :
      (v : Vector A) (index : ℕ) (e : Option A)
      → v.size ≤ v.room
      → index < 2 ^ 32 - 1
      → (v' : Vector A) × (vector64_set (index + 1) v index e ≡ some (ok v'))
        × (v'.size ≤ v'.room)
        × ((j : ℕ) → get v' j ≡ (if j == index then e else get v j))
  unfolding vector64_set get write
  get-vector64_set v index e fit small = elim (Bool-cases (leb v.size index)) [
    | inl grows ↦
        let from : v.size % 2 ^ 32 ≡ v.size = ground arith in
        let to : (index + 1) % 2 ^ 64 ≡ index + 1 = ground arith in
        let (after, done, cleared) =
          clear_cells_lem (index + 1) (v.size % 2 ^ 32) ((index + 1) % 2 ^ 64) v.data_at
            (omega arith) (omega arith) in
        (
          record {
            data_at = λ i. if i == index then e else after i;
            size = (index + 1) % 2 ^ 64;
            room = (index + 1) % 2 ^ 61;
          },
          ground (arith, done),
          omega arith,
          λ j. elim (Bool-cases (ltb j (index + 1))) [
            | inl below ↦ ground (arith, cleared j, from, to)
            | inr above ↦ ground (arith, to)
          ],
        )
    | inr inside ↦ (
      record v { data_at = λ i. if i == index then e else v.data_at i },
      ground arith,
      fit,
      λ j. ground arith,
    )
  ]

  -- `vector64_set` outside the size, at an index from 2^32 - 1 to 2^61 - 2, never returns: whatever the number
  -- of turns, the loop that clears the new cells is not over.
  vector64_set_runs_on :
      (fuel : ℕ) (v : Vector A) (index : ℕ) (e : Option A)
      → v.size ≤ index
      → 2 ^ 32 - 1 ≤ index
      → index < 2 ^ 61 - 1
      → vector64_set fuel v index e ≡ none
  unfolding vector64_set
  vector64_set_runs_on fuel v index e outside large small =
      let on =
        clear_cells_runs_on fuel (v.size % 2 ^ 32) ((index + 1) % 2 ^ 64) v.data_at (omega arith)
          (omega arith) in
      ground (arith, on)
