-- ===== src/Confided/Mapped.antt =====
-- What holds of the whole map of confided/ between two requests: the list of each content has the blocks whose
-- datum names it, each once, and one of them is marked.
use sim_replay.Prelude.{
  ℕ, ◌+◌, ◌%◌, ◌<◌, ◌≡◌, ◌≢◌, Option, none, some, false, [], ◌∷◌, arith, ◌==◌, ◌&&◌, if◌then◌else◌,
  Option-cases, inl, inr, u32_mod,
}
use mathlib.Core.Path.{subst}
use sim_replay.Hashtab.Api.{TableApi}
use sim_replay.Vectors.Defs.{Vector}
use sim_replay.IoDedup.P2d.{mapped, zero_blocks, unmapped}
use sim_replay.Confided.Marks.{tuples}
use sim_replay.Confided.V2f.{V2f, v2fmaps_get, notzero_f_vblk, fixed_blocks, get_virtto_fixed_map}
use sim_replay.Confided.Fixed.{F2pv, FixedMaps, get_fixed_map}
use sim_replay.Confided.Defs.{Confided, FixCounts}
use sim_replay.Confided.View.{fixed_of, IsKept, named-IsKept}
use sim_replay.Confided.Join.{f2vs_of, IsFixed}
use sim_replay.Confided.Cells.{IsFit}

-- Whether the datum of a block names the ID: a dirty one names none.
unfoldable pub names : Option V2f → ℕ → ℕ
names none id = 0
names (some x) id = if x.fdirty then 0 else if x.fixed_id == id then 1 else 0

-- The digest that the map holds for a block of a volume; none for a zero block, and for one without a map or a
-- dirty one.
unfoldable pub digest_of : {K T : Type 0} → Confided K T → ℕ → ℕ → Option K
digest_of s v b = elim (v2fmaps_get s.v2fmaps v b) [
  | none ↦ none
  | some x ↦
      if x.fdirty
      then none
      else elim (fixed_of s.maps x.fixed_id) [ none ↦ none | some d ↦ some d.fhashkey ]
]

-- The look-up of one block.
pub one_block :
    (v2fmaps : Vector (Vector V2f)) (v b : ℕ)
    → b < u32_mod
    → get_virtto_fixed_map v2fmaps v b 1 ≡ elim (v2fmaps_get v2fmaps v b) [
      | none ↦ unmapped
      | some x ↦ if notzero_f_vblk x then mapped (b ∷ []) else zero_blocks (b ∷ [])
    ]
unfolding get_virtto_fixed_map fixed_blocks
one_block v2fmaps v b h =
    let at : (b + 0) % u32_mod ≡ b = omega arith in
    elim (Option-cases (v2fmaps_get v2fmaps v b)) [
      | inl e ↦ ground (arith, at)
      | inr (x, e) ↦ ground (arith, at)
    ]

module _ {K : Type 0} (api : TableApi K ℕ) where
  pub record IsMapped (s : Confided K api.Table) : Type 0 where
    pub fixed : IsFixed api s.maps
    pub fit : IsFit s.v2fmaps
    pub agree :
        (id v b : ℕ)
        → id ≢ 0
        → tuples v b (f2vs_of s.maps id) ≡ names (v2fmaps_get s.v2fmaps v b) id

  -- The object that an ID leads to is kept, under this ID.
  pub fixed_of-IsKept :
      (m : FixedMaps K api.Table) (id : ℕ) (d : F2pv K)
      → IsFixed api m
      → fixed_of m id ≡ some d
      → (p : ℕ) × IsKept api m p d × (get_fixed_map m id ≡ some p) × (d.fixed_id ≡ id)
  unfolding fixed_of
  fixed_of-IsKept m id d f h = elim (Option-cases (get_fixed_map m id)) [
    | inl e ↦ absurd (ground arith)
    | inr (p, e) ↦
        let (o, kept, same) = named-IsKept api m id p f.sound e in
        let at : o ≡ d = ground (arith, kept.here) in
        (p, subst (λ x. IsKept api m p x) at kept, e, ground (arith, same, at))
  ]

  -- A block with a digest: its clean datum, and the object of its content.
  pub record IsHeld (s : Confided K api.Table) (v b : ℕ) (key : K) : Type 0 where
    pub entry : V2f
    pub object : F2pv K
    pub address : ℕ
    pub at : v2fmaps_get s.v2fmaps v b ≡ some entry
    pub clean : entry.fdirty ≡ false
    pub leads : fixed_of s.maps entry.fixed_id ≡ some object
    pub kept : IsKept api s.maps address object
    pub by_entry : get_fixed_map s.maps entry.fixed_id ≡ some address
    pub same_id : object.fixed_id ≡ entry.fixed_id
    pub digest : object.fhashkey ≡ key

  pub digest_of-IsHeld :
      (s : Confided K api.Table) (v b : ℕ) (key : K)
      → IsFixed api s.maps
      → digest_of s v b ≡ some key
      → IsHeld s v b key
  unfolding digest_of
  digest_of-IsHeld s v b key f h = elim (Option-cases (v2fmaps_get s.v2fmaps v b)) [
    | inl e ↦ absurd (ground arith)
    | inr (x, e) ↦ elim (Option-cases (fixed_of s.maps x.fixed_id)) [
      | inl n ↦ absurd (ground arith)
      | inr (d, leads) ↦
          let (p, kept, named, same) = fixed_of-IsKept s.maps x.fixed_id d f leads in
          record {
            entry = x;
            object = d;
            address = p;
            at = e;
            clean = ground arith;
            leads = leads;
            kept = kept;
            by_entry = named;
            same_id = same;
            digest = ground arith;
          }
    ]
  ]

  -- A block on the list of a content has its digest.
  pub listed-digest_of :
      (s : Confided K api.Table) (id v b : ℕ) (d : F2pv K)
      → IsMapped s
      → id ≢ 0
      → fixed_of s.maps id ≡ some d
      → tuples v b d.f2vmaps ≢ 0
      → digest_of s v b ≡ some d.fhashkey
  unfolding digest_of names f2vs_of
  listed-digest_of s id v b d con ne h on = elim (Option-cases (v2fmaps_get s.v2fmaps v b)) [
    | inl e ↦ absurd (ground (arith, con.agree id v b ne))
    | inr (x, e) ↦ ground (arith, con.agree id v b ne)
  ]

  -- The whole stays consistent where the block is on the lists that its new datum names, and the other blocks
  -- stay where they are.
  pub entry-IsMapped :
      (s : Confided K api.Table) (m : FixedMaps K api.Table) (c : FixCounts)
      (w : Vector (Vector V2f)) (v b : ℕ) (x : V2f)
      → IsMapped s
      → IsFixed api m
      → IsFit w
      → ((v' b' : ℕ)
          → v2fmaps_get w v' b'
            ≡ (if v' == v && b' == b then some x else v2fmaps_get s.v2fmaps v' b'))
      → ((id v' b' : ℕ)
          → id ≢ 0
          → tuples v' b' (f2vs_of m id)
            ≡ (if v' == v && b' == b then names (some x) id else tuples v' b' (f2vs_of s.maps id)))
      → IsMapped (record { v2fmaps = w; maps = m; counts = c })
  entry-IsMapped s m c w v b x con fixed fit gets lists = record {
    fixed = fixed;
    fit = fit;
    agree = λ id v' b' ne. ground (arith, con.agree id v' b' ne, gets v' b', lists id v' b' ne);
  }
