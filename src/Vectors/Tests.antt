-- ===== src/Vectors/Tests.antt =====
-- utils/vector16.c, utils/vector32.c and utils/vector64.c at concrete vectors.
use sim_replay.Prelude.{ℕ, ◌≤◌, ◌≡◌, none, some, ok, ◌==◌, if◌then◌else◌, arith}
use sim_replay.Vectors.Defs.{Vector, vector32_set, get}
use sim_replay.Vectors.Laws.{get-vector32_set_wrapped}

abbrev two : Vector ℕ
two = record {
  data_at = λ i. if i == 0 then some 10 else if i == 1 then some 11 else none;
  size = 2;
  room = 2;
}

get-vector32_set_wrapped_example :
    (v' : Vector ℕ) × (vector32_set two 2147483648 (some 15) ≡ ok v')
    × (v'.size ≤ 2147483648)
    × (get v' 2147483648 ≡ none)
get-vector32_set_wrapped_example =
    get-vector32_set_wrapped two 2147483648 (some 15) (omega arith) (omega arith) (omega arith)
