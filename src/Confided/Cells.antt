-- ===== src/Confided/Cells.antt =====
-- The vector of vectors of confided/v2f-map.c as a map from pairs of a volume and a block.
use sim_replay.Prelude.{
  ℕ, ◌-◌, ◌^◌, ◌<◌, ◌≤◌, ◌≡◌, none, some, arith, ok, ◌==◌, ◌&&◌, if◌then◌else◌, Option-cases,
  Bool-cases, inl, inr,
}
use sim_replay.Vectors.Defs.{Vector, get, init}
use sim_replay.Vectors.Laws.{get-vector16_set, get-vector32_set}
use sim_replay.Confided.V2f.{V2f, v2fmaps_set, v2fmaps_get, put_row}

-- Every row has the room for its size, and so has the vector of the rows.
pub record IsFit (v2fmaps : Vector (Vector V2f)) : Type 0 where
  pub fit : v2fmaps.size ≤ v2fmaps.room
  pub rows : (x : ℕ) (row : Vector V2f) → get v2fmaps x ≡ some row → row.size ≤ row.room

get-put_row :
    (v2fmaps : Vector (Vector V2f)) (x : ℕ) (row : Vector V2f)
    → x < v2fmaps.size
    → (j : ℕ) → get (put_row v2fmaps x row) j ≡ (if j == x then some row else get v2fmaps j)
unfolding get
get-put_row v2fmaps x row h j = ground arith

put_row-IsFit :
    (v2fmaps : Vector (Vector V2f)) (x : ℕ) (row : Vector V2f)
    → IsFit v2fmaps
    → x < v2fmaps.size
    → row.size ≤ row.room
    → IsFit (put_row v2fmaps x row)
put_row-IsFit v2fmaps x row f h fit = record {
  fit = f.fit;
  rows = λ j r e. elim (Bool-cases (j == x)) [
    | inl y ↦ ground (arith, get-put_row v2fmaps x row h j)
    | inr n ↦ f.rows j r (ground (arith, get-put_row v2fmaps x row h j))
  ];
}

get-some : {A : Type 0} (v : Vector A) (x : ℕ) (a : A) → get v x ≡ some a → x < v.size
unfolding get
get-some v x a h = ground arith

v2fmaps_get_lem :
    (v2fmaps : Vector (Vector V2f)) (x y : ℕ)
    → v2fmaps_get v2fmaps x y ≡ elim (get v2fmaps x) [ none ↦ none | some row ↦ get row y ]
unfolding v2fmaps_get get
v2fmaps_get_lem v2fmaps x y = ground arith

get-init : {A : Type 0} (y : ℕ) → get (init {A = A}) y ≡ none
unfolding get init
get-init y = ground arith

init_fit : (A : Type 0) → (init {A = A}).size ≤ (init {A = A}).room
unfolding init
init_fit A = omega arith

-- A block reads as what was set last: `v2fmaps_set` of a volume below 65535 and a block below 2^31 - 1 succeeds,
-- `v2fmaps_get` then gives the new datum for this block of this volume, and what it gave for every other pair.
pub v2fmaps_get-v2fmaps_set :
    (v2fmaps : Vector (Vector V2f)) (x y : ℕ) (e : V2f)
    → IsFit v2fmaps
    → x < 2 ^ 16 - 1
    → y < 2 ^ 31 - 1
    → (m : Vector (Vector V2f)) × (v2fmaps_set v2fmaps x y e ≡ ok m)
      × IsFit m
      × ((x' y' : ℕ)
          → v2fmaps_get m x' y'
            ≡ (if x' == x && y' == y then some e else v2fmaps_get v2fmaps x' y'))
unfolding v2fmaps_set
v2fmaps_get-v2fmaps_set v2fmaps x y e f hx hy = elim (Option-cases (get v2fmaps x)) [
  | inr (row, there) ↦
      let (row', set, fit, size, gets) = get-vector32_set row y (some e) (f.rows x row there) hy in
      let inside = get-some v2fmaps x row there in
      (
        put_row v2fmaps x row',
        ground (arith, there, set),
        put_row-IsFit v2fmaps x row' f inside fit,
        λ x' y'. ground (
          arith,
          v2fmaps_get_lem (put_row v2fmaps x row') x' y',
          v2fmaps_get_lem v2fmaps x' y',
          get-put_row v2fmaps x row' inside x',
          there,
          gets y',
        ),
      )
  | inl gone ↦
      let (m, grown, fit16, size16, gets16) = get-vector16_set v2fmaps x (some init) f.fit hx in
      let (row', set, fit, size, gets) =
        get-vector32_set (init {A = V2f}) y (some e) (init_fit V2f) hy in
      let inside : x < m.size = get-some m x init (ground (arith, gets16 x)) in
      let m_fit : IsFit m = record {
        fit = fit16;
        rows = λ j r h. elim (Bool-cases (j == x)) [
          | inl at ↦ ground (arith, gets16 j, init_fit V2f)
          | inr off ↦ f.rows j r (ground (arith, gets16 j))
        ];
      } in
      (
        put_row m x row',
        ground (arith, gone, grown, set),
        put_row-IsFit m x row' m_fit inside fit,
        λ x' y'. ground (
          arith,
          v2fmaps_get_lem (put_row m x row') x' y',
          v2fmaps_get_lem v2fmaps x' y',
          get-put_row m x row' inside x',
          gets16 x',
          gone,
          gets y',
          get-init {A = V2f} y',
        ),
      )
]
