-- ===== src/Utils/Tests.antt =====
-- utils/utils.c at concrete numbers.
use sim_replay.Prelude.{ℕ, ◌<◌, ◌≤◌, ◌≡◌, true, false, ok, arith, refl}
use sim_replay.Utils.Defs.{trial, is_prime, table_size}
use sim_replay.Utils.Prime.{table_size_lem}

accepted : is_prime 97 ≡ ok true
unfolding is_prime trial
accepted = refl

table_size_lem_example :
    (p : ℕ) × (table_size 200 ≡ ok p) × (0 < p) × (p ≤ 200) × (is_prime p ≡ ok true)
table_size_lem_example = table_size_lem 200 (omega arith) (omega arith)

-- The only even prime is refused, and 1 is accepted.
two_refused : is_prime 2 ≡ ok false
unfolding is_prime trial
two_refused = refl

one_accepted : is_prime 1 ≡ ok true
unfolding is_prime trial
one_accepted = refl
