-- ===== src/IoDedup/Consistent.antt =====
-- What holds of the whole map between two requests: the list of each content has the blocks whose entry of
-- `p2dmaps` names it, each once.
use sim_replay.Prelude.{
  ℕ, ◌≤◌, ◌≡◌, ◌≢◌, Option, none, some, List, [], ◌++◌, arith, ◌==◌, if◌then◌else◌, Option-cases,
  Bool-cases, inl, inr, length,
}
use mathlib.Core.Path.{subst}
use sim_replay.Hashtab.Api.{TableApi}
use sim_replay.IoDedup.P2d.{P2d, p2dmaps_get}
use sim_replay.IoDedup.D2pv.{D2pv, Maps, get_dedup_map}
use sim_replay.IoDedup.Defs.{IoDedup}
use sim_replay.IoDedup.Blocks.{tuples}
use sim_replay.IoDedup.Sound.{object_of, IsLive, IsSound}

-- The blocks that an ID leads to.
unfoldable pub blocks_of : {K T : Type 0} → Maps K T → ℕ → List ℕ
blocks_of m id = elim (object_of m id) [ none ↦ [] | some d ↦ d.d2pmaps ]

-- Whether an entry of `p2dmaps` names the ID: a dirty one names none.
unfoldable pub names : Option P2d → ℕ → ℕ
names none id = 0
names (some x) id = if x.pdirty then 0 else if x.iodedup_id == id then 1 else 0

-- The digest that the map holds for a block; none for a zero block, and for one without a map or a dirty one.
unfoldable pub digest_of : {K T : Type 0} → IoDedup K T → ℕ → Option K
digest_of s b = elim (p2dmaps_get s.p2dmaps b) [
  | none ↦ none
  | some x ↦
      if x.pdirty
      then none
      else elim (object_of s.maps x.iodedup_id) [ none ↦ none | some d ↦ some d.dhashkey ]
]

module _ {K : Type 0} (api : TableApi K ℕ) where
  pub record IsConsistent (s : IoDedup K api.Table) : Type 0 where
    pub sound : IsSound api s.maps
    pub fit : s.p2dmaps.size ≤ s.p2dmaps.room
    pub agree :
        (id b : ℕ) → id ≢ 0 → tuples b (blocks_of s.maps id) ≡ names (p2dmaps_get s.p2dmaps b) id
    pub kept : (id : ℕ) (d : D2pv K) → object_of s.maps id ≡ some d → length d.d2pmaps ≢ 0

  pub live-object_of :
      {m : Maps K api.Table} {p : ℕ} {d : D2pv K}
      → IsLive api m p d
      → object_of m d.iodedup_id ≡ some d
  unfolding object_of
  live-object_of live = ground (arith, live.here, live.by_id)

  -- An ID that leads to an object is the ID of a live one.
  pub object_of-live :
      (m : Maps K api.Table) (id : ℕ) (d : D2pv K)
      → IsSound api m
      → object_of m id ≡ some d
      → (p : ℕ) × IsLive api m p d × (get_dedup_map m id ≡ some p) × (d.iodedup_id ≡ id)
  unfolding object_of
  object_of-live m id d s h = elim (Option-cases (get_dedup_map m id)) [
    | inl e ↦ absurd (ground arith)
    | inr (p, e) ↦
        let (o, live, same) = s.named id p e in
        let eq : o ≡ d = ground (arith, live.here) in
        (p, subst (λ x. IsLive api m p x) eq live, e, ground (arith, same))
  ]

  -- An object's ID is on no list of reusable IDs.
  pub used-unlisted :
      (m : Maps K api.Table) (id : ℕ)
      → IsSound api m
      → get_dedup_map m id ≢ none
      → tuples id (m.curr_reusable ++ m.new_reusable) ≡ 0
  used-unlisted m id s h = elim (Bool-cases (tuples id (m.curr_reusable ++ m.new_reusable) == 0)) [
    | inl e ↦ ground arith
    | inr e ↦ absurd (h ((s.reusable id (ground arith)).unused))
  ]
