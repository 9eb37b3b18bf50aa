-- ===== src/Confided/Join.antt =====
-- `resumeFixing` of confided/fixing.c for a request whose map was not found: the block joins the list of its
-- content and is marked in place of the one that was, and a content that no block has gets an object.
use sim_replay.Prelude.{
  ℕ, ◌+◌, ◌-◌, ◌^◌, ◌<◌, ◌≤◌, ◌≡◌, none, some, true, false, List, [], ◌∷◌, arith, refl, ok, ◌==◌,
  if◌then◌else◌, Option-cases, Bool-cases, inl, inr, length, ◌∙◌, sym, ap,
}
use mathlib.Core.Path.{subst}
use sim_replay.Hashtab.Defs.{max_nodes}
use sim_replay.Hashtab.Api.{TableApi}
use sim_replay.IoDedup.D2pv.{Stage, get_dedup_map}
use sim_replay.IoDedup.Defs.{insert_status}
use sim_replay.IoDedup.Sound.{IsSound}
use sim_replay.Vectors.Defs.{Vector, get}
use sim_replay.Vectors.Laws.{get-vector32_set}
use sim_replay.IoDedup.Entries.{entered_maps-IsSound}
use sim_replay.Confided.Leaders.{F2v, get_nondeduped_f2v}
use sim_replay.Confided.Marks.{
  leaders, tuples, unmark_old_dedupfetch_f_lem, tuples-get_nondeduped_f2v,
}
use sim_replay.Confided.Fixed.{
  F2pv, FixedMaps, store_f, deref_f, get_fixed_map, set_fixed_map, get_next_fixed_num,
  add_f2v_tuple_to_map, note_fixed_attrs,
}
use sim_replay.Confided.Defs.{Confided, FixCounts, count_fixed, count_shared}
use sim_replay.Confided.Ops.{fix_found, fix_new, fix_content}
use sim_replay.Confided.View.{
  as_d2pv, view, fixed_of, entered_f, view-entered, IsKept, keyed-IsKept, named-IsKept,
  kept-fixed_of, store_f-IsSound, get_next_fixed_num-IsNext,
}

-- The blocks that an ID leads to.
unfoldable pub f2vs_of : {K T : Type 0} → FixedMaps K T → ℕ → List F2v
f2vs_of m id = elim (fixed_of m id) [ none ↦ [] | some d ↦ d.f2vmaps ]

-- The tuple of a block that is marked.
abbrev pub marked : ℕ → ℕ → F2v
marked v b = record { dedupfetch = true; vol_id = v; block_id = b }

module _ {K : Type 0} (api : TableApi K ℕ) where
  -- Between two calls, every object that an ID leads to has one marked block.
  pub record IsFixed (m : FixedMaps K api.Table) : Type 0 where
    pub sound : IsSound api (view m)
    pub led : (id : ℕ) (d : F2pv K) → fixed_of m id ≡ some d → leaders d.f2vmaps ≡ 1

  -- The maps after a block has joined the list of a content, whose object is `d`.
  pub record JoinsFixed (m m' : FixedMaps K api.Table) (key : K) (v b : ℕ) (d : F2pv K)
      : Type 0 where
    pub fixed : IsFixed m'
    pub objects : (j : ℕ) → fixed_of m' j ≡ (if j == d.fixed_id then some d else fixed_of m j)
    pub digest : d.fhashkey ≡ key
    pub before : (e : F2pv K) → fixed_of m d.fixed_id ≡ some e → e.fhashkey ≡ key
    pub rest : List F2v
    pub list : d.f2vmaps ≡ marked v b ∷ rest
    pub others : (v' b' : ℕ) → tuples v' b' rest ≡ tuples v' b' (f2vs_of m d.fixed_id)
    pub above_dummy : 2 < d.fixed_id
    pub num_le : m'.fixed_num ≤ m.fixed_num + 1

  pub led_of :
      (m m' : FixedMaps K api.Table) (d : F2pv K)
      → IsFixed m
      → ((j : ℕ) → fixed_of m' j ≡ (if j == d.fixed_id then some d else fixed_of m j))
      → leaders d.f2vmaps ≡ 1
      → (id : ℕ) (e : F2pv K) → fixed_of m' id ≡ some e
      → leaders e.f2vmaps ≡ 1
  led_of m m' d f objects one id e h = elim (Bool-cases (id == d.fixed_id)) [
    | inl y ↦ ground (arith, objects id, one)
    | inr n ↦ f.led id e (ground (arith, objects id))
  ]

  fix_found-JoinsFixed :
      (stray : ℕ) (s : Confided K api.Table) (p v b : ℕ) (d : F2pv K)
      → IsFixed s.maps
      → IsKept api s.maps p d
      → tuples v b d.f2vmaps ≡ 0
      → (m' : FixedMaps K api.Table) × (c : FixCounts) × (d' : F2pv K) × (fix_found api false stray
            s p v b
          ≡ ok (record s { maps = m'; counts = c }, d'.fixed_id))
        × JoinsFixed s.maps m' d.fhashkey v b d'
  unfolding fix_found deref_f add_f2v_tuple_to_map f2vs_of leaders
  fix_found-JoinsFixed stray s p v b d f kept off =
      let there = kept-fixed_of api kept in
      let (l, done, unled, len, same) =
        unmark_old_dedupfetch_f_lem stray d.f2vmaps (f.led d.fixed_id d there) in
      let d' : F2pv K = record d { f2vmaps = marked v b ∷ l } in
      let (sound', objects) = store_f-IsSound api s.maps p d d' f.sound kept refl refl in
      elim (Option-cases (get_nondeduped_f2v d.f2vmaps v b)) [
        | inr ((i, g), e) ↦ absurd (tuples-get_nondeduped_f2v d.f2vmaps v b i g e off)
        | inl e ↦ (
          store_f s.maps p d',
          count_shared (length d'.f2vmaps) s.counts,
          d',
          ground (arith, kept.here, e, done),
          record {
            fixed = record {
              sound = sound';
              led = led_of s.maps (store_f s.maps p d') d' f objects (ground (arith, unled));
            };
            objects = objects;
            digest = refl;
            before = λ o h. ground (arith, there);
            rest = l;
            list = refl;
            others = λ v' b'. ground (arith, there, same v' b');
            above_dummy = kept.live.above_dummy;
            num_le = omega arith;
          },
        )
      ]

  entered-fixed_of :
      (m : FixedMaps K api.Table) (d : F2pv K) (t : api.Table) (w : Vector ℕ)
      → IsSound api (view m)
      → ((j : ℕ) → get w j ≡ (if j == d.fixed_id then some m.next else get m.fixedmap_by_fid j))
      → (j : ℕ)
      → fixed_of (entered_f api m d t w) j ≡ (if j == d.fixed_id then some d else fixed_of m j)
  unfolding fixed_of get_fixed_map
  entered-fixed_of m d t w s gets j = elim (Option-cases (get m.fixedmap_by_fid j)) [
    | inl e ↦ ground (arith, gets j)
    | inr (q, e) ↦
        let (o, k, ei) = named-IsKept api m j q s e in ground (arith, gets j, k.live.allocated)
  ]

  free-fixed_of :
      (m : FixedMaps K api.Table) (id : ℕ) → get_dedup_map (view m) id ≡ none → fixed_of m id ≡ none
  unfolding fixed_of get_fixed_map get_dedup_map
  free-fixed_of m id h = ground arith

  fix_new-JoinsFixed :
      (s : Confided K api.Table) (key : K) (v b : ℕ) (stage : Stage)
      → IsFixed s.maps
      → api.lookup s.maps.fixedtab key ≡ none
      → api.nel s.maps.fixedtab < max_nodes
      → s.maps.fixed_num + 1 < 2 ^ 31 - 1
      → (m' : FixedMaps K api.Table) × (c : FixCounts) × (d' : F2pv K) × (fix_new api s key v b
            stage true
          ≡ ok (record s { maps = m'; counts = c }, some d'.fixed_id))
        × JoinsFixed s.maps m' key v b d'
  unfolding fix_new insert_status set_fixed_map add_f2v_tuple_to_map note_fixed_attrs f2vs_of
      leaders
  fix_new-JoinsFixed s key v b stage f absent room nums =
      let got = get_next_fixed_num-IsNext api stage s.maps f.sound nums in
      let id = (get_next_fixed_num stage s.maps).0 in
      let m1 = (get_next_fixed_num stage s.maps).1 in
      let d' : F2pv K = record { fixed_id = id; fhashkey = key; f2vmaps = marked v b ∷ [] } in
      let (t, done, good, more, finds) =
        api.insert_new key m1.next got.sound.good (ground (arith, got.same_tab, room))
          (ground (arith, got.same_tab, absent)) in
      let (w, set, fit, size, gets) =
        get-vector32_set m1.fixedmap_by_fid id (some m1.next) got.sound.fit
          (omega (arith, got.free.below_num, got.sound.small)) in
      let m' = entered_f api m1 d' t w in
      let objects : (j : ℕ) → fixed_of m' j ≡ (if j == id then some d' else fixed_of s.maps j) =
        λ j.
          entered-fixed_of m1 d' t w got.sound gets j
          ∙ ap (λ o. if j == id then some d' else o) (got.objects j) in
      let empty : fixed_of s.maps id ≡ none =
        sym (got.objects id) ∙ free-fixed_of m1 id got.free.unused in
      (
        m',
        count_fixed (length d'.f2vmaps) s.counts,
        d',
        ground (arith, done, set),
        record {
          fixed = record {
            sound =
                subst (λ x. IsSound api x) (view-entered api m1 d' t w)
                  (entered_maps-IsSound api (view m1) (as_d2pv d') t w got.sound got.free
                    got.unlisted (ground (arith, got.same_tab, absent)) good fit finds gets);
            led = led_of s.maps m' d' f objects (ground arith);
          };
          objects = objects;
          digest = refl;
          before = λ o h. absurd (ground (arith, empty));
          rest = [];
          list = refl;
          others = λ v' b'. ground (arith, empty);
          above_dummy = got.free.above_dummy;
          num_le = got.step;
        },
      )

  -- The block joins the list of its content, whether or not there was one.
  pub fix_content-JoinsFixed :
      (stray : ℕ) (s : Confided K api.Table) (key : K) (v b : ℕ) (stage : Stage)
      → IsFixed s.maps
      → ((id : ℕ) → tuples v b (f2vs_of s.maps id) ≡ 0)
      → api.nel s.maps.fixedtab < max_nodes
      → s.maps.fixed_num + 1 < 2 ^ 31 - 1
      → (m' : FixedMaps K api.Table) × (c : FixCounts) × (d' : F2pv K) × (fix_content api false
            stray s key v b stage true
          ≡ ok (record s { maps = m'; counts = c }, some d'.fixed_id))
        × JoinsFixed s.maps m' key v b d'
  unfolding fix_content f2vs_of
  fix_content-JoinsFixed stray s key v b stage f off room nums =
      let search = api.search_lem key f.sound.good in
      elim (Option-cases (api.lookup s.maps.fixedtab key)) [
        | inl absent ↦
            let (m, c, d, done, joins) = fix_new-JoinsFixed s key v b stage f absent room nums in
            (m, c, d, ground (arith, search, done), joins)
        | inr (p, e) ↦
            let (o, kept, same) = keyed-IsKept api s.maps key p f.sound e in
            let there = kept-fixed_of api kept in
            let (m, c, d, done, joins) =
              fix_found-JoinsFixed stray s p v b o f kept (ground (arith, there, off o.fixed_id)) in
            (
              m,
              c,
              d,
              ground (arith, search, done),
              subst (λ k. JoinsFixed s.maps m k v b d) same joins,
            )
      ]
