-- ===== src/IoDedup/Entries.antt =====
-- The entries of `deduptab` and `dedupmap_by_did`: those of a new object, and of one that is dropped.
use sim_replay.Prelude.{
  ◌≤◌, ℕ, ◌+◌, ◌<◌, ◌≡◌, ◌≢◌, none, some, true, ◌++◌, arith, refl, ok, ◌==◌, if◌then◌else◌,
  Option-cases, Bool-cases, inl, inr,
}
use sim_replay.Hashtab.Defs.{max_nodes}
use sim_replay.Hashtab.Api.{TableApi}
use sim_replay.Vectors.Defs.{Vector, get, vector32_set}
use sim_replay.Vectors.Laws.{get-vector32_set}
use sim_replay.IoDedup.D2pv.{D2pv, Maps, get_dedup_map}
use sim_replay.IoDedup.Blocks.{tuples}
use sim_replay.IoDedup.Sound.{object_of, IsLive, IsFree, IsSound, carry-IsLive}

module _ {K : Type 0} (api : TableApi K ℕ) where
  -- The maps with an object at the next address, and its entries.
  abbrev pub entered : Maps K api.Table → D2pv K → api.Table → Vector ℕ → Maps K api.Table
  entered m d t v = record m {
    heap = λ q. if q == m.next then some d else m.heap q;
    next = m.next + 1;
    deduptab = t;
    dedupmap_by_did = v;
  }

  pub entered_maps-IsSound :
      (m : Maps K api.Table) (d : D2pv K) (t : api.Table) (v : Vector ℕ)
      → IsSound api m
      → IsFree api m d.iodedup_id
      → tuples d.iodedup_id (m.curr_reusable ++ m.new_reusable) ≡ 0
      → api.lookup m.deduptab d.dhashkey ≡ none
      → api.IsGood t
      → v.size ≤ v.room
      → ((k : K)
          → api.lookup t k
            ≡ (if api.same_key k d.dhashkey then some m.next else api.lookup m.deduptab k))
      → ((j : ℕ) → get v j ≡ (if j == d.iodedup_id then some m.next else get m.dedupmap_by_did j))
      → IsSound api (entered m d t v)
  unfolding get_dedup_map
  entered_maps-IsSound m d t v s free unlisted absent good fit finds gets =
      let m' = entered m d t v in
      let self : api.same_key d.dhashkey d.dhashkey ≡ true =
        (api.same_key_iff d.dhashkey d.dhashkey).1 refl in
      let new : (q : ℕ) → q ≡ m.next → IsLive api m' q d = λ q at. record {
        here = ground arith;
        by_id = ground (arith, gets d.iodedup_id);
        by_key = ground (arith, finds d.dhashkey, self);
        allocated = omega (arith, at);
        above_dummy = free.above_dummy;
        below_num = free.below_num;
      } in
      let keeps : (q : ℕ) (e : D2pv K) → IsLive api m q e → IsLive api m' q e = λ q e l.
        carry-IsLive api l (ground (arith, l.here, l.allocated))
          (ground (arith, gets e.iodedup_id, l.by_id, free.unused))
          (ground
            (arith, finds e.dhashkey, l.by_key, absent, api.same_key_iff e.dhashkey d.dhashkey))
          (omega arith) (omega arith) in
      record {
        good = good;
        fit = fit;
        keyed = λ k q h. elim (Bool-cases (api.same_key k d.dhashkey)) [
          | inl e ↦
              (d, new q (ground (arith, finds k)), ground (arith, api.same_key_iff k d.dhashkey))
          | inr e ↦ let (o, l, ek) = s.keyed k q (ground (arith, finds k)) in (o, keeps q o l, ek)
        ];
        named = λ id q h. elim (Bool-cases (id == d.iodedup_id)) [
          | inl e ↦ (d, new q (ground (arith, gets id)), ground arith)
          | inr e ↦ let (o, l, ei) = s.named id q (ground (arith, gets id)) in (o, keeps q o l, ei)
        ];
        reusable = λ id h.
            let f = s.reusable id h in
            record {
              unused = ground (arith, gets id, f.unused, unlisted);
              above_dummy = f.above_dummy;
              below_num = f.below_num;
            };
        once = s.once;
        started = s.started;
        small = s.small;
      }

  entered-object_of :
      (m : Maps K api.Table) (d : D2pv K) (t : api.Table) (v : Vector ℕ)
      → IsSound api m
      → ((j : ℕ) → get v j ≡ (if j == d.iodedup_id then some m.next else get m.dedupmap_by_did j))
      → (j : ℕ)
      → object_of (entered m d t v) j ≡ (if j == d.iodedup_id then some d else object_of m j)
  unfolding object_of get_dedup_map
  entered-object_of m d t v s gets j = elim (Option-cases (get m.dedupmap_by_did j)) [
    | inl e ↦ ground (arith, gets j)
    | inr (q, e) ↦ let (o, l, ei) = s.named j q e in ground (arith, gets j, l.allocated)
  ]

  pub entered-IsSound :
      (m : Maps K api.Table) (d : D2pv K)
      → IsSound api m
      → IsFree api m d.iodedup_id
      → tuples d.iodedup_id (m.curr_reusable ++ m.new_reusable) ≡ 0
      → api.lookup m.deduptab d.dhashkey ≡ none
      → api.nel m.deduptab < max_nodes
      → (t : api.Table) × (v : Vector ℕ) × (api.insert m.deduptab d.dhashkey m.next true ≡ ok t)
        × (vector32_set m.dedupmap_by_did d.iodedup_id (some m.next) ≡ ok v)
        × IsSound api (entered m d t v)
        × (api.nel t ≡ api.nel m.deduptab + 1)
        × ((j : ℕ)
            → object_of (entered m d t v) j ≡ (if j == d.iodedup_id then some d else object_of m j))
  entered-IsSound m d s free unlisted absent room =
      let (t, done, good, more, finds) = api.insert_new d.dhashkey m.next s.good room absent in
      let (v, set, fit, size, gets) =
        get-vector32_set m.dedupmap_by_did d.iodedup_id (some m.next) s.fit
          (omega (arith, free.below_num, s.small)) in
      (
        t,
        v,
        done,
        set,
        entered_maps-IsSound m d t v s free unlisted absent good fit finds gets,
        more,
        entered-object_of m d t v s gets,
      )

  -- The maps without the entries of an object.
  abbrev pub dropped : Maps K api.Table → api.Table → Vector ℕ → Maps K api.Table
  dropped m t v = record m { deduptab = t; dedupmap_by_did = v }

  pub dropped_maps-IsSound :
      (m : Maps K api.Table) (p : ℕ) (d : D2pv K) (t : api.Table) (v : Vector ℕ)
      → IsSound api m
      → IsLive api m p d
      → api.IsGood t
      → v.size ≤ v.room
      → ((k : K)
          → api.lookup t k ≡ (if api.same_key k d.dhashkey then none else api.lookup m.deduptab k))
      → ((j : ℕ) → get v j ≡ (if j == d.iodedup_id then none else get m.dedupmap_by_did j))
      → IsSound api (dropped m t v)
  unfolding get_dedup_map
  dropped_maps-IsSound m p d t v s live good fit finds gets =
      let keeps : (q : ℕ) (e : D2pv K) → IsLive api m q e → q ≢ p → IsLive api (dropped m t v) q e =
        λ q e l ne.
          carry-IsLive api l l.here (ground (arith, gets e.iodedup_id, l.by_id, live.by_id))
            (ground (
              arith,
              finds e.dhashkey,
              l.by_key,
              live.by_key,
              api.same_key_iff e.dhashkey d.dhashkey,
            ))
            (omega arith) (omega arith) in
      record {
        good = good;
        fit = fit;
        keyed = λ k q h.
            let (o, l, ek) = s.keyed k q (ground (arith, finds k)) in
            (
              o,
              keeps q o l
                  (λ e. ground (arith, finds k, l.here, live.here, api.same_key_iff k d.dhashkey)),
              ek,
            );
        named = λ id q h.
            let (o, l, ei) = s.named id q (ground (arith, gets id)) in
            (o, keeps q o l (λ e. ground (arith, gets id, l.here, live.here)), ei);
        reusable = λ id h.
            let f = s.reusable id h in
            record {
              unused = ground (arith, gets id, f.unused);
              above_dummy = f.above_dummy;
              below_num = f.below_num;
            };
        once = s.once;
        started = s.started;
        small = s.small;
      }

  pub dropped-IsSound :
      (m : Maps K api.Table) (p : ℕ) (d : D2pv K)
      → IsSound api m
      → IsLive api m p d
      → api.nel m.deduptab < max_nodes
      → (t : api.Table) × (v : Vector ℕ) × (api.remove m.deduptab d.dhashkey ≡ ok t)
        × (vector32_set m.dedupmap_by_did d.iodedup_id none ≡ ok v)
        × IsSound api (dropped m t v)
        × (api.nel m.deduptab ≡ api.nel t + 1)
        × IsFree api (dropped m t v) d.iodedup_id
        × ((j : ℕ)
            → object_of (dropped m t v) j ≡ (if j == d.iodedup_id then none else object_of m j))
  unfolding object_of get_dedup_map
  dropped-IsSound m p d s live room =
      let (t, done, good, fewer, finds) =
        api.remove_stored d.dhashkey s.good room (λ e. ground (arith, live.by_key)) in
      let (v, set, fit, size, gets) =
        get-vector32_set m.dedupmap_by_did d.iodedup_id none s.fit
          (omega (arith, live.below_num, s.small)) in
      (
        t,
        v,
        done,
        set,
        dropped_maps-IsSound m p d t v s live good fit finds gets,
        fewer,
        record {
          unused = ground (arith, gets d.iodedup_id);
          above_dummy = live.above_dummy;
          below_num = live.below_num;
        },
        λ j. ground (arith, gets j),
      )
