-- ===== src/IoDedup/Sound.antt =====
-- What holds of the maps of iodedup/d2pv-map.c between two calls: `dedupmap_by_did` and `deduptab` point to the
-- same objects, each under its own ID and digest, and the reusable IDs are used by none.
use sim_replay.Prelude.{
  ℕ, ◌-◌, ◌^◌, ◌<◌, ◌≤◌, ◌≡◌, ◌≢◌, Option, none, some, ◌++◌, arith, refl, ◌==◌, if◌then◌else◌,
  Option-cases, Bool-cases, inl, inr, ◌∙◌,
}
use sim_replay.Hashtab.Api.{TableApi}
use sim_replay.IoDedup.D2pv.{D2pv, Maps, store, get_dedup_map}
use sim_replay.IoDedup.Blocks.{tuples}

-- The object that an ID leads to.
unfoldable pub object_of : {K T : Type 0} → Maps K T → ℕ → Option (D2pv K)
object_of m id = elim (get_dedup_map m id) [ none ↦ none | some p ↦ m.heap p ]

module _ {K : Type 0} (api : TableApi K ℕ) where
  -- An object that both maps point to.
  pub record IsLive (m : Maps K api.Table) (p : ℕ) (d : D2pv K) : Type 0 where
    pub here : m.heap p ≡ some d
    pub by_id : get_dedup_map m d.iodedup_id ≡ some p
    pub by_key : api.lookup m.deduptab d.dhashkey ≡ some p
    pub allocated : p < m.next
    pub above_dummy : 2 < d.iodedup_id
    pub below_num : d.iodedup_id ≤ m.dedup_num

  -- An ID that no object has, and that is on a list of reusable IDs once.
  pub record IsFree (m : Maps K api.Table) (id : ℕ) : Type 0 where
    pub unused : get_dedup_map m id ≡ none
    pub above_dummy : 2 < id
    pub below_num : id ≤ m.dedup_num

  -- A live object stays live where its address and both its entries stay, and nothing that bounds it goes back.
  pub carry-IsLive :
      {m m' : Maps K api.Table} {p : ℕ} {d : D2pv K}
      → IsLive m p d
      → m'.heap p ≡ some d
      → get_dedup_map m' d.iodedup_id ≡ some p
      → api.lookup m'.deduptab d.dhashkey ≡ some p
      → m.next ≤ m'.next
      → m.dedup_num ≤ m'.dedup_num
      → IsLive m' p d
  carry-IsLive l here by_id by_key next_le num_le = record {
    here = here;
    by_id = by_id;
    by_key = by_key;
    allocated = omega (arith, l.allocated, next_le);
    above_dummy = l.above_dummy;
    below_num = omega (arith, l.below_num, num_le);
  }

  pub record IsSound (m : Maps K api.Table) : Type 0 where
    pub good : api.IsGood m.deduptab
    pub fit : m.dedupmap_by_did.size ≤ m.dedupmap_by_did.room
    pub keyed :
        (k : K) (p : ℕ)
        → api.lookup m.deduptab k ≡ some p
        → (d : D2pv K) × IsLive m p d × (d.dhashkey ≡ k)
    pub named :
        (id p : ℕ) → get_dedup_map m id ≡ some p → (d : D2pv K) × IsLive m p d × (d.iodedup_id ≡ id)
    pub reusable : (id : ℕ) → tuples id (m.curr_reusable ++ m.new_reusable) ≢ 0 → IsFree m id
    pub once : (id : ℕ) → tuples id (m.curr_reusable ++ m.new_reusable) ≤ 1
    pub started : 2 ≤ m.dedup_num
    pub small : m.dedup_num < 2 ^ 31 - 1

  -- A change of the list or of the leader of a live object keeps the maps sound, and the object is changed for
  -- its ID alone.
  pub store-IsSound :
      (m : Maps K api.Table) (p : ℕ) (d d' : D2pv K)
      → IsSound m
      → IsLive m p d
      → d'.iodedup_id ≡ d.iodedup_id
      → d'.dhashkey ≡ d.dhashkey
      → IsSound (store m p d')
        × ((j : ℕ)
            → object_of (store m p d') j ≡ (if j == d.iodedup_id then some d' else object_of m j))
  unfolding object_of get_dedup_map
  store-IsSound m p d d' s live same_id same_key =
      let m' = store m p d' in
      let keeps : (q : ℕ) (e : D2pv K)
          → IsLive m q e
          → (e' : D2pv K) × IsLive m' q e'
            × (e'.iodedup_id ≡ e.iodedup_id)
            × (e'.dhashkey ≡ e.dhashkey) =
        λ q e l. elim (Bool-cases (q == p)) [
          | inl eq ↦ (
            d',
            record {
              here = ground arith;
              by_id = ground (arith, live.by_id);
              by_key = ground (arith, live.by_key);
              allocated = ground (arith, live.allocated);
              above_dummy = ground (arith, live.above_dummy);
              below_num = ground (arith, live.below_num);
            },
            ground (arith, l.here, live.here),
            ground (arith, l.here, live.here),
          )
          | inr ne ↦ (
            e,
            carry-IsLive l (ground (arith, l.here)) l.by_id l.by_key (omega arith) (omega arith),
            refl,
            refl,
          )
        ] in
      (
        record {
          good = s.good;
          fit = s.fit;
          keyed = λ k q h.
              let (e, l, ek) = s.keyed k q h in
              let (e', l', ei, ek') = keeps q e l in (e', l', ek' ∙ ek);
          named = λ id q h.
              let (e, l, ei) = s.named id q h in
              let (e', l', ei', ek') = keeps q e l in (e', l', ei' ∙ ei);
          reusable = λ id h.
              let f = s.reusable id h in
              record { unused = f.unused; above_dummy = f.above_dummy; below_num = f.below_num };
          once = s.once;
          started = s.started;
          small = s.small;
        },
        λ j. elim (Option-cases (get_dedup_map m j)) [
          | inl e ↦ ground (arith, live.by_id)
          | inr (q, e) ↦
              let (o, l, ei) = s.named j q e in ground (arith, live.by_id, l.here, live.here)
        ],
      )
