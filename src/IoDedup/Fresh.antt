-- ===== src/IoDedup/Fresh.antt =====
-- `getNextDedupNum` of iodedup/d2pv-map.c gives an ID that no object has, and the entries of a new object.
use sim_replay.Prelude.{
  ℕ, ◌+◌, ◌-◌, ◌^◌, ◌<◌, ◌≤◌, ◌≡◌, List, [], ◌∷◌, ◌++◌, arith, refl, ◌==◌, if◌then◌else◌,
  Option-cases, Bool-cases, inl, inr, inc32,
}
use sim_replay.Hashtab.Api.{TableApi}
use sim_replay.ContentDedup.Bag.{count}
use sim_replay.IoDedup.D2pv.{
  D2pv, Maps, get_dedup_map, Stage, init_stage, noinit_stage, init_immaterial, noinit_mapmiss,
  noinit_maphit, noinit_mapdirty, get_next_dedup_num,
}
use sim_replay.IoDedup.Blocks.{tuples}
use sim_replay.IoDedup.Sound.{IsLive, IsFree, IsSound, carry-IsLive}

module _ {K : Type 0} (api : TableApi K ℕ) where
  -- The maps after an ID is taken, from the counter or from the list of reusable IDs.
  abbrev pub taken : Maps K api.Table → ℕ → List ℕ → Maps K api.Table
  taken m n l = record m { dedup_num = n; curr_reusable = l }

  pub taken-IsLive :
      (m : Maps K api.Table) {n p : ℕ} {l : List ℕ} {d : D2pv K}
      → m.dedup_num ≤ n
      → IsLive api m p d
      → IsLive api (taken m n l) p d
  unfolding get_dedup_map
  taken-IsLive m h live = carry-IsLive api live live.here live.by_id live.by_key (omega arith) h

  -- Taking keeps the maps sound where the counter does not go back and no ID comes onto the list.
  pub taken-IsSound :
      (m : Maps K api.Table) (n : ℕ) (l : List ℕ)
      → IsSound api m
      → m.dedup_num ≤ n
      → n < 2 ^ 31 - 1
      → ((j : ℕ) → tuples j (l ++ m.new_reusable) ≤ tuples j (m.curr_reusable ++ m.new_reusable))
      → IsSound api (taken m n l)
  unfolding get_dedup_map
  taken-IsSound m n l s grows small fewer = record {
    good = s.good;
    fit = s.fit;
    keyed = λ k p h. let (d, live, e) = s.keyed k p h in (d, taken-IsLive m grows live, e);
    named = λ id p h. let (d, live, e) = s.named id p h in (d, taken-IsLive m grows live, e);
    reusable = λ id h.
        let f = s.reusable id (omega (arith, fewer id)) in
        record {
          unused = f.unused;
          above_dummy = f.above_dummy;
          below_num = omega (arith, f.below_num);
        };
    once = λ id. omega (arith, s.once id, fewer id);
    started = omega (arith, s.started);
    small = small;
  }

  -- An ID that is taken: no object has it and it is on no list, and the other maps stay.
  pub record IsTaken (m : Maps K api.Table) (got : ℕ × Maps K api.Table) : Type 0 where
    pub num : ℕ
    pub rest : List ℕ
    pub step : num ≤ m.dedup_num + 1
    pub change : got.1 ≡ taken m num rest
    pub sound : IsSound api (taken m num rest)
    pub free : IsFree api (taken m num rest) (got.0)
    pub unlisted : tuples (got.0) (rest ++ m.new_reusable) ≡ 0

  pub next_num-IsTaken :
      (m : Maps K api.Table)
      → IsSound api m
      → m.dedup_num + 1 < 2 ^ 31 - 1
      → IsTaken m (inc32 m.dedup_num, taken m (inc32 m.dedup_num) m.curr_reusable)
  unfolding get_dedup_map
  next_num-IsTaken m s room =
      let above : inc32 m.dedup_num ≡ m.dedup_num + 1 = omega arith in
      record {
        num = inc32 m.dedup_num;
        rest = m.curr_reusable;
        step = omega arith;
        change = refl;
        sound =
            taken-IsSound m (inc32 m.dedup_num) m.curr_reusable s (omega arith) (omega arith)
              (λ j. omega arith);
        free = record {
          unused = elim (Option-cases (get_dedup_map m (inc32 m.dedup_num))) [
            | inl e ↦ e
            | inr (p, e) ↦
                let (d, live, ei) = s.named (inc32 m.dedup_num) p e in
                absurd (omega (arith, live.below_num))
          ];
          above_dummy = omega (arith, s.started);
          below_num = omega arith;
        };
        unlisted =
            elim (Bool-cases
              (tuples (inc32 m.dedup_num) (m.curr_reusable ++ m.new_reusable) == 0)) [
                | inl e ↦ ground arith
                | inr e ↦
                    let f = s.reusable (inc32 m.dedup_num) (ground arith) in
                    absurd (omega (arith, f.below_num))
              ];
      }

  pub pop-IsTaken :
      (m : Maps K api.Table) (id : ℕ) (rest : List ℕ)
      → IsSound api m
      → m.curr_reusable ≡ id ∷ rest
      → IsTaken m (id, taken m m.dedup_num rest)
  unfolding get_dedup_map count
  pop-IsTaken m id rest s e =
      let split : (j : ℕ)
          → tuples j (m.curr_reusable ++ m.new_reusable)
            ≡ (if j == id then 1 else 0) + tuples j (rest ++ m.new_reusable) =
        λ j. rw e in
      let f = s.reusable id (ground (arith, split id)) in
      record {
        num = m.dedup_num;
        rest = rest;
        step = omega arith;
        change = refl;
        sound =
            taken-IsSound m m.dedup_num rest s (omega arith) s.small (λ j. omega (arith, split j));
        free = record { unused = f.unused; above_dummy = f.above_dummy; below_num = f.below_num };
        unlisted = ground (arith, split id, s.once id);
      }

  -- In the stage that reuses IDs: the first of the list, or the counter's where the list is empty.
  reuse-IsTaken :
      (m : Maps K api.Table) (l : List ℕ)
      → IsSound api m
      → m.dedup_num + 1 < 2 ^ 31 - 1
      → m.curr_reusable ≡ l
      → IsTaken m (elim l [
        | [] ↦ (inc32 m.dedup_num, record m { dedup_num = inc32 m.dedup_num })
        | val ∷ rest ↦ (val, record m { curr_reusable = rest })
      ])
  reuse-IsTaken m [] s room e = next_num-IsTaken m s room
  reuse-IsTaken m (id ∷ rest) s room e = pop-IsTaken m id rest s e

  -- From sound maps whose counter is not near its bound, `getNextDedupNum` gives, in every stage, an ID above
  -- DUMMY_ID that no object has and that is on no list of reusable IDs, and leaves the maps sound.
  pub get_next_dedup_num-IsTaken :
      (stage : Stage) (m : Maps K api.Table)
      → IsSound api m
      → m.dedup_num + 1 < 2 ^ 31 - 1
      → IsTaken m (get_next_dedup_num stage m)
  unfolding get_next_dedup_num
  get_next_dedup_num-IsTaken init_stage m s room = next_num-IsTaken m s room
  get_next_dedup_num-IsTaken init_immaterial m s room = next_num-IsTaken m s room
  get_next_dedup_num-IsTaken noinit_mapmiss m s room = next_num-IsTaken m s room
  get_next_dedup_num-IsTaken noinit_maphit m s room = next_num-IsTaken m s room
  get_next_dedup_num-IsTaken noinit_mapdirty m s room = next_num-IsTaken m s room
  get_next_dedup_num-IsTaken noinit_stage m s room = reuse-IsTaken m m.curr_reusable s room refl
