-- ===== src/IoDedup/Resume.antt =====
-- `resumeDeduping` of iodedup/iodeduping.c for a request whose map was not found: the block joins the list of its
-- content, which is a new object if no block has the content.
use sim_replay.Prelude.{
  ℕ, ◌+◌, ◌-◌, ◌^◌, ◌<◌, ◌≤◌, ◌≡◌, ◌≢◌, Option, none, some, true, [], ◌∷◌, arith, refl, ok, ◌==◌,
  if◌then◌else◌, Option-cases, inl, inr, length,
}
use mathlib.Core.Path.{subst}
use sim_replay.Hashtab.Defs.{max_nodes}
use sim_replay.Hashtab.Api.{TableApi}
use sim_replay.IoDedup.D2pv.{
  D2pv, Maps, store, deref, get_dedup_map, set_dedup_map, get_next_dedup_num, Stage,
  add_d2p_tuple_to_map, note_dedup_attrs, get_nondeduped_d2p,
}
use sim_replay.IoDedup.Defs.{
  IoDedup, Counts, dedup_found, dedup_new, dedup_content, leader, insert_status, count_found,
  count_factor,
}
use sim_replay.IoDedup.Blocks.{tuples, get_nondeduped_d2p-some}
use sim_replay.IoDedup.Sound.{object_of, IsLive, IsSound, store-IsSound}
use sim_replay.IoDedup.Fresh.{taken, get_next_dedup_num-IsTaken}
use sim_replay.IoDedup.Entries.{entered, entered-IsSound}
use sim_replay.IoDedup.Consistent.{blocks_of, live-object_of}

module _ {K : Type 0} (api : TableApi K ℕ) where
  -- The maps after a block has joined the list of a content, whose object is `d`.
  pub record Joins (m m' : Maps K api.Table) (key : K) (b : ℕ) (d : D2pv K) : Type 0 where
    pub sound : IsSound api m'
    pub objects : (j : ℕ) → object_of m' j ≡ (if j == d.iodedup_id then some d else object_of m j)
    pub digest : d.dhashkey ≡ key
    pub before : (e : D2pv K) → object_of m d.iodedup_id ≡ some e → e.dhashkey ≡ key
    pub list : d.d2pmaps ≡ b ∷ blocks_of m d.iodedup_id
    pub above_dummy : 2 < d.iodedup_id
    pub nel_le : api.nel m'.deduptab ≤ api.nel m.deduptab + 1
    pub num_le : m'.dedup_num ≤ m.dedup_num + 1

  dedup_found-Joins :
      (s : IoDedup K api.Table) (p b : ℕ) (d : D2pv K) (had : Option ℕ)
      → IsSound api s.maps
      → IsLive api s.maps p d
      → tuples b d.d2pmaps ≡ 0
      → (m' : Maps K api.Table) × (c : Counts) × (d' : D2pv K) × (dedup_found api s p b had
          ≡ ok (record s { maps = m'; counts = c }, d'.iodedup_id))
        × Joins s.maps m' d.dhashkey b d'
  unfolding dedup_found deref add_d2p_tuple_to_map blocks_of
  dedup_found-Joins s p b d had sound live off =
      let d' : D2pv K = record d { ioblk_id = leader had b; d2pmaps = b ∷ d.d2pmaps } in
      let (sound', objects) = store-IsSound api s.maps p d d' sound live refl refl in
      elim (Option-cases (get_nondeduped_d2p d.d2pmaps b)) [
        | inr (i, e) ↦ absurd ((get_nondeduped_d2p-some d.d2pmaps b i e).0 off)
        | inl e ↦ (
          store s.maps p d',
          count_found (length d'.d2pmaps) s.counts,
          d',
          ground (arith, live.here, e),
          record {
            sound = sound';
            objects = objects;
            digest = refl;
            before = λ o h. ground (arith, live-object_of api live);
            list = ground (arith, live-object_of api live);
            above_dummy = live.above_dummy;
            nel_le = omega arith;
            num_le = omega arith;
          },
        )
      ]

  dedup_new-Joins :
      (s : IoDedup K api.Table) (key : K) (b : ℕ) (had : Option ℕ) (stage : Stage)
      → IsSound api s.maps
      → api.lookup s.maps.deduptab key ≡ none
      → api.nel s.maps.deduptab < max_nodes
      → s.maps.dedup_num + 1 < 2 ^ 31 - 1
      → (m' : Maps K api.Table) × (c : Counts) × (d' : D2pv K) × (dedup_new api s key b had stage
            true
          ≡ ok (record s { maps = m'; counts = c }, some d'.iodedup_id))
        × Joins s.maps m' key b d'
  unfolding dedup_new insert_status set_dedup_map add_d2p_tuple_to_map note_dedup_attrs blocks_of
      object_of get_dedup_map
  dedup_new-Joins s key b had stage sound absent room nums =
      let id = (get_next_dedup_num stage s.maps).0 in
      let got = get_next_dedup_num-IsTaken api stage s.maps sound nums in
      let m1 = taken api s.maps got.num got.rest in
      let d' : D2pv K = record {
        ioblk_id = leader had b;
        iodedup_id = id;
        dhashkey = key;
        d2pmaps = b ∷ [];
      } in
      let (t, v, done, set, sound', more, objects) =
        entered-IsSound api m1 d' got.sound got.free got.unlisted absent room in
      let empty : object_of s.maps id ≡ none = ground (arith, got.free.unused) in
      (
        entered api m1 d' t v,
        count_factor (length d'.d2pmaps) s.counts,
        d',
        ground (arith, got.change, done, set),
        record {
          sound = sound';
          objects = λ j. ground (arith, objects j);
          digest = refl;
          before = λ o h. absurd (ground (arith, empty));
          list = ground (arith, empty);
          above_dummy = got.free.above_dummy;
          nel_le = omega (arith, more);
          num_le = got.step;
        },
      )

  -- The block joins the list of its content, whether or not there was one.
  pub dedup_content-Joins :
      (s : IoDedup K api.Table) (key : K) (b : ℕ) (had : Option ℕ) (stage : Stage)
      → IsSound api s.maps
      → ((id : ℕ) → id ≢ 0 → tuples b (blocks_of s.maps id) ≡ 0)
      → api.nel s.maps.deduptab < max_nodes
      → s.maps.dedup_num + 1 < 2 ^ 31 - 1
      → (m' : Maps K api.Table) × (c : Counts) × (d' : D2pv K) × (dedup_content api s key b had
            stage true
          ≡ ok (record s { maps = m'; counts = c }, some d'.iodedup_id))
        × Joins s.maps m' key b d'
  unfolding dedup_content blocks_of
  dedup_content-Joins s key b had stage sound off room nums =
      let search = api.search_lem key sound.good in
      elim (Option-cases (api.lookup s.maps.deduptab key)) [
        | inl absent ↦
            let (m, c, d, done, joins) = dedup_new-Joins s key b had stage sound absent room nums in
            (m, c, d, ground (arith, search, done), joins)
        | inr (p, e) ↦
            let (o, live, same) = sound.keyed key p e in
            let there = live-object_of api live in
            let free : tuples b o.d2pmaps ≡ 0 =
              ground (arith, there, off o.iodedup_id (λ z. omega (arith, z, live.above_dummy))) in
            let (m, c, d, done, joins) = dedup_found-Joins s p b o had sound live free in
            (m, c, d, ground (arith, search, done), subst (λ k. Joins s.maps m k b d) same joins)
      ]
