-- ===== src/Confided/View.antt =====
-- The maps of confided/f2pv-map.c are kept as those of iodedup/d2pv-map.c are: with the lists of the blocks left
-- out, an object of the one is an object of the other, so what holds of those maps holds of these.
use sim_replay.Prelude.{
  ℕ, ◌+◌, ◌-◌, ◌^◌, ◌<◌, ◌≤◌, ◌≡◌, Option, none, some, List, [], ◌∷◌, ◌++◌, arith, refl, sym, ap,
  ◌==◌, if◌then◌else◌, Option-cases, Bool-cases, inl, inr, inc32,
}
use mathlib.Core.Path.{subst, fun_ext}
use sim_replay.Hashtab.Api.{TableApi}
use sim_replay.Vectors.Defs.{Vector}
use sim_replay.IoDedup.D2pv.{
  D2pv, Maps, store, get_dedup_map, Stage, init_stage, noinit_stage, init_immaterial,
  noinit_mapmiss, noinit_maphit, noinit_mapdirty,
}
use sim_replay.IoDedup.Blocks.{tuples}
use sim_replay.IoDedup.Sound.{IsLive, IsFree, IsSound, store-IsSound}
use sim_replay.IoDedup.Fresh.{IsTaken, next_num-IsTaken, pop-IsTaken}
use sim_replay.IoDedup.Entries.{entered}
use sim_replay.Confided.Fixed.{F2pv, FixedMaps, store_f, get_fixed_map, get_next_fixed_num}

-- An object without its blocks.
abbrev pub as_d2pv : {K : Type 0} → F2pv K → D2pv K
as_d2pv d = record { ioblk_id = 0; iodedup_id = d.fixed_id; dhashkey = d.fhashkey; d2pmaps = [] }

abbrev pub bare : {K : Type 0} → Option (F2pv K) → Option (D2pv K)
bare none = none
bare (some d) = some (as_d2pv d)

abbrev pub view : {K T : Type 0} → FixedMaps K T → Maps K T
view m = record {
  heap = λ q. bare (m.heap q);
  next = m.next;
  dedupmap_by_did = m.fixedmap_by_fid;
  deduptab = m.fixedtab;
  dedup_num = m.fixed_num;
  curr_reusable = m.curr_reusable;
  new_reusable = m.new_reusable;
}

-- The object that an ID leads to.
unfoldable pub fixed_of : {K T : Type 0} → FixedMaps K T → ℕ → Option (F2pv K)
fixed_of m id = elim (get_fixed_map m id) [ none ↦ none | some p ↦ m.heap p ]

bare-some :
    {K : Type 0} (o : Option (F2pv K)) (e : D2pv K)
    → bare o ≡ some e
    → (d : F2pv K) × (o ≡ some d) × (e ≡ as_d2pv d)
bare-some none e h = absurd (ground arith)
bare-some (some d) e h = (d, refl, ground arith)

pub view-store :
    {K T : Type 0} (m : FixedMaps K T) (p : ℕ) (d : F2pv K)
    → store (view m) p (as_d2pv d) ≡ view (store_f m p d)
view-store m p d =
    let here : (q : ℕ)
        → (if q == p then some (as_d2pv d) else bare (m.heap q))
          ≡ bare (if q == p then some d else m.heap q) =
      λ q. elim (Bool-cases (q == p)) [ inl y ↦ ground arith | inr n ↦ ground arith ] in
    ap (λ h. record (view m) { heap = h }) (fun_ext here)

module _ {K : Type 0} (api : TableApi K ℕ) where
  -- The maps with an object at the next address, and its entries.
  abbrev pub entered_f :
      FixedMaps K api.Table → F2pv K → api.Table → Vector ℕ → FixedMaps K api.Table
  entered_f m d t v = record m {
    heap = λ q. if q == m.next then some d else m.heap q;
    next = m.next + 1;
    fixedtab = t;
    fixedmap_by_fid = v;
  }

  pub view-entered :
      (m : FixedMaps K api.Table) (d : F2pv K) (t : api.Table) (v : Vector ℕ)
      → entered api (view m) (as_d2pv d) t v ≡ view (entered_f m d t v)
  view-entered m d t v =
      ap (λ h. record (view m) { heap = h; next = m.next + 1; deduptab = t; dedupmap_by_did = v })
        (ap (λ (x : Maps K api.Table). x.heap) (view-store m m.next d))

  -- An object that both maps point to.
  pub record IsKept (m : FixedMaps K api.Table) (p : ℕ) (d : F2pv K) : Type 0 where
    pub here : m.heap p ≡ some d
    pub live : IsLive api (view m) p (as_d2pv d)

  pub IsLive-IsKept :
      (m : FixedMaps K api.Table) (p : ℕ) (e : D2pv K)
      → IsLive api (view m) p e
      → (d : F2pv K) × IsKept m p d × (e ≡ as_d2pv d)
  IsLive-IsKept m p e live =
      let (d, here, same) = bare-some (m.heap p) e live.here in
      (d, record { here = here; live = subst (λ e. IsLive api (view m) p e) same live }, same)

  -- The object of a digest, and the one of an ID.
  pub keyed-IsKept :
      (m : FixedMaps K api.Table) (k : K) (p : ℕ)
      → IsSound api (view m)
      → api.lookup m.fixedtab k ≡ some p
      → (d : F2pv K) × IsKept m p d × (d.fhashkey ≡ k)
  keyed-IsKept m k p s h =
      let (e, live, ek) = s.keyed k p h in
      let (d, kept, same) = IsLive-IsKept m p e live in (d, kept, ground (arith, same, ek))

  pub named-IsKept :
      (m : FixedMaps K api.Table) (id p : ℕ)
      → IsSound api (view m)
      → get_fixed_map m id ≡ some p
      → (d : F2pv K) × IsKept m p d × (d.fixed_id ≡ id)
  unfolding get_fixed_map get_dedup_map
  named-IsKept m id p s h =
      let (e, live, ei) = s.named id p h in
      let (d, kept, same) = IsLive-IsKept m p e live in (d, kept, ground (arith, same, ei))

  pub by_fid :
      {m : FixedMaps K api.Table} {p : ℕ} {d : F2pv K}
      → IsKept m p d
      → get_fixed_map m d.fixed_id ≡ some p
  unfolding get_fixed_map get_dedup_map
  by_fid kept = kept.live.by_id

  pub kept-fixed_of :
      {m : FixedMaps K api.Table} {p : ℕ} {d : F2pv K}
      → IsKept m p d
      → fixed_of m d.fixed_id ≡ some d
  unfolding fixed_of
  kept-fixed_of kept = ground (arith, by_fid kept, kept.here)

  -- A change of the list of an object keeps the maps sound, and the object is changed for its ID alone.
  pub store_f-IsSound :
      (m : FixedMaps K api.Table) (p : ℕ) (d d' : F2pv K)
      → IsSound api (view m)
      → IsKept m p d
      → d'.fixed_id ≡ d.fixed_id
      → d'.fhashkey ≡ d.fhashkey
      → IsSound api (view (store_f m p d'))
        × ((j : ℕ)
            → fixed_of (store_f m p d') j ≡ (if j == d.fixed_id then some d' else fixed_of m j))
  unfolding fixed_of get_fixed_map
  store_f-IsSound m p d d' s kept same_id same_key = (
    subst (λ x. IsSound api x) (view-store m p d')
        (store-IsSound api (view m) p (as_d2pv d) (as_d2pv d') s kept.live same_id same_key).0,
    λ j. elim (Option-cases (get_fixed_map m j)) [
      | inl e ↦ ground (arith, by_fid kept)
      | inr (q, e) ↦
          let (o, k, ei) = named-IsKept m j q s e in ground (arith, by_fid kept, k.here, kept.here)
    ],
  )

  -- An ID that is taken: no object has it, and the maps but for the counter and the list stay.
  pub record IsNext (m : FixedMaps K api.Table) (got : ℕ × FixedMaps K api.Table) : Type 0 where
    pub step : got.1.fixed_num ≤ m.fixed_num + 1
    pub same_tab : got.1.fixedtab ≡ m.fixedtab
    pub objects : (j : ℕ) → fixed_of got.1 j ≡ fixed_of m j
    pub sound : IsSound api (view got.1)
    pub free : IsFree api (view got.1) (got.0)
    pub unlisted : tuples (got.0) (got.1.curr_reusable ++ got.1.new_reusable) ≡ 0

  taken-IsNext :
      (m : FixedMaps K api.Table) (id n : ℕ) (l : List ℕ)
      → IsTaken api (view m) (id, view (record m { fixed_num = n; curr_reusable = l }))
      → IsNext m (id, record m { fixed_num = n; curr_reusable = l })
  unfolding fixed_of get_fixed_map
  taken-IsNext m id n l t =
      let m1 = record m { fixed_num = n; curr_reusable = l } in
      let back = sym t.change in
      let num : n ≡ t.num = ap (λ (x : Maps K api.Table). x.dedup_num) t.change in
      let rest : l ≡ t.rest = ap (λ (x : Maps K api.Table). x.curr_reusable) t.change in
      record {
        step = omega (arith, num, t.step);
        same_tab = refl;
        objects = λ j. refl;
        sound = subst (λ x. IsSound api x) back t.sound;
        free = subst (λ x. IsFree api x id) back t.free;
        unlisted = rw rest t.unlisted;
      }

  reuse-IsNext :
      (m : FixedMaps K api.Table) (l : List ℕ)
      → IsSound api (view m)
      → m.fixed_num + 1 < 2 ^ 31 - 1
      → m.curr_reusable ≡ l
      → IsNext m (elim l [
        | [] ↦ (inc32 m.fixed_num, record m { fixed_num = inc32 m.fixed_num })
        | val ∷ rest ↦ (val, record m { curr_reusable = rest })
      ])
  reuse-IsNext m [] s room e =
      taken-IsNext m (inc32 m.fixed_num) (inc32 m.fixed_num) m.curr_reusable
        (next_num-IsTaken api (view m) s room)
  reuse-IsNext m (id ∷ rest) s room e =
      taken-IsNext m id m.fixed_num rest (pop-IsTaken api (view m) id rest s e)

  -- `getNextFixedNum` gives, in every stage, an ID that no object has, and leaves the maps sound.
  pub get_next_fixed_num-IsNext :
      (stage : Stage) (m : FixedMaps K api.Table)
      → IsSound api (view m)
      → m.fixed_num + 1 < 2 ^ 31 - 1
      → IsNext m (get_next_fixed_num stage m)
  unfolding get_next_fixed_num
  get_next_fixed_num-IsNext init_stage m s room =
      taken-IsNext m _ _ m.curr_reusable (next_num-IsTaken api (view m) s room)
  get_next_fixed_num-IsNext init_immaterial m s room =
      taken-IsNext m _ _ m.curr_reusable (next_num-IsTaken api (view m) s room)
  get_next_fixed_num-IsNext noinit_mapmiss m s room =
      taken-IsNext m _ _ m.curr_reusable (next_num-IsTaken api (view m) s room)
  get_next_fixed_num-IsNext noinit_maphit m s room =
      taken-IsNext m _ _ m.curr_reusable (next_num-IsTaken api (view m) s room)
  get_next_fixed_num-IsNext noinit_mapdirty m s room =
      taken-IsNext m _ _ m.curr_reusable (next_num-IsTaken api (view m) s room)
  get_next_fixed_num-IsNext noinit_stage m s room = reuse-IsNext m m.curr_reusable s room refl
