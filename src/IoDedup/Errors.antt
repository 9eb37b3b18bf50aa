-- ===== src/IoDedup/Errors.antt =====
-- The errors of iodedup/: no memory for a node of the table, content that is not the one of the map, and blocks
-- without a map.
use sim_replay.Prelude.{
  ℕ, ◌+◌, ◌-◌, ◌^◌, ◌<◌, ◌≡◌, ◌≢◌, Option, none, some, Bool, true, false, [], ◌∷◌, ◌++◌, arith,
  refl, ok, fault, ◌==◌, if◌then◌else◌, Option-cases, inl, inr, u32_mod,
}
use sim_replay.Hashtab.Defs.{max_nodes}
use sim_replay.Hashtab.Api.{TableApi}
use sim_replay.Modes.{Modes}
use sim_replay.IoDedup.P2d.{P2d, p2dmaps_get, notzero_io_vblk}
use sim_replay.IoDedup.D2pv.{
  D2pv, Maps, get_dedup_map, Stage, get_next_dedup_num, add_d2p_tuple_to_map, note_dedup_attrs,
}
use sim_replay.IoDedup.Defs.{
  IoDedup, dedup_hit, dedup_new, dedup_content, insert_status, leader, mapping_trim_scan_io,
  trim_unmapped,
}
use sim_replay.IoDedup.Ops.{MapCounts, read_lookup, looked_up}
use sim_replay.IoDedup.Blocks.{tuples}
use sim_replay.IoDedup.Sound.{carry-IsLive, object_of, IsLive, IsSound}
use sim_replay.IoDedup.Fresh.{taken, get_next_dedup_num-IsTaken}
use sim_replay.IoDedup.Consistent.{blocks_of, digest_of, IsConsistent}
use sim_replay.IoDedup.Reads.{digest_of-IsHeld}
use sim_replay.IoDedup.Entry.{one_block}

module _ {K : Type 0} (api : TableApi K ℕ) where
  -- The maps with an object that nothing points to.
  abbrev leaked : Maps K api.Table → D2pv K → Maps K api.Table
  leaked m d = record m { heap = λ q. if q == m.next then some d else m.heap q; next = m.next + 1 }

  leaked-IsSound :
      (m : Maps K api.Table) (d : D2pv K)
      → IsSound api m
      → IsSound api (leaked m d) × ((j : ℕ) → object_of (leaked m d) j ≡ object_of m j)
  unfolding object_of get_dedup_map
  leaked-IsSound m d s =
      let keeps : (q : ℕ) (e : D2pv K) → IsLive api m q e → IsLive api (leaked m d) q e = λ q e l.
        carry-IsLive api l (ground (arith, l.here, l.allocated)) l.by_id l.by_key (omega arith)
          (omega arith) in
      (
        record {
          good = s.good;
          fit = s.fit;
          keyed = λ k q h. let (e, l, ek) = s.keyed k q h in (e, keeps q e l, ek);
          named = λ j q h. let (e, l, ei) = s.named j q h in (e, keeps q e l, ei);
          reusable = λ j h.
              let f = s.reusable j h in
              record { unused = f.unused; above_dummy = f.above_dummy; below_num = f.below_num };
          once = s.once;
          started = s.started;
          small = s.small;
        },
        λ j. elim (Option-cases (get_dedup_map m j)) [
          | inl e ↦ ground arith
          | inr (q, e) ↦ let (o, l, ei) = s.named j q e in ground (arith, l.allocated)
        ],
      )

  -- From a consistent state with room, new content without memory for the node of the table is an error that
  -- leaves the state consistent with every digest and the table as they were; but the ID that was taken is
  -- lost, as no object has it and it is on no list of reusable IDs.
  pub dedup_new_no_memory :
      (s : IoDedup K api.Table) (key : K) (b : ℕ) (had : Option ℕ) (stage : Stage)
      → IsConsistent api s
      → api.lookup s.maps.deduptab key ≡ none
      → api.nel s.maps.deduptab < max_nodes
      → s.maps.dedup_num + 1 < 2 ^ 31 - 1
      → (s' : IoDedup K api.Table) × (dedup_content api s key b had stage false ≡ ok (s', none))
        × IsConsistent api s'
        × ((j : ℕ) → digest_of s' j ≡ digest_of s j)
        × (s'.maps.deduptab ≡ s.maps.deduptab)
        × (get_dedup_map s'.maps ((get_next_dedup_num stage s.maps).0) ≡ none)
        × (tuples
              ((get_next_dedup_num stage s.maps).0)
              (s'.maps.curr_reusable ++ s'.maps.new_reusable)
            ≡ 0)
  unfolding dedup_content dedup_new insert_status add_d2p_tuple_to_map note_dedup_attrs digest_of
      blocks_of get_dedup_map object_of
  dedup_new_no_memory s key b had stage con absent room nums =
      let id = (get_next_dedup_num stage s.maps).0 in
      let got = get_next_dedup_num-IsTaken api stage s.maps con.sound nums in
      let m1 = taken api s.maps got.num got.rest in
      let d' : D2pv K = record {
        ioblk_id = leader had b;
        iodedup_id = id;
        dhashkey = key;
        d2pmaps = b ∷ [];
      } in
      let (sound, objects) = leaked-IsSound m1 d' got.sound in
      let search = api.search_lem key con.sound.good in
      let refused = api.insert_no_memory key s.maps.next con.sound.good room absent in
      (
        record s { maps = leaked m1 d' },
        ground (arith, search, absent, got.change, refused),
        record {
          sound = sound;
          fit = con.fit;
          agree = λ id j ne. ground (arith, con.agree id j ne, objects id);
          kept = λ id o h. con.kept id o (ground (arith, objects id));
        },
        λ j. elim (Option-cases (p2dmaps_get s.p2dmaps j)) [
          | inl e ↦ ground arith
          | inr (y, e) ↦ ground (arith, objects y.iodedup_id)
        ],
        refl,
        got.free.unused,
        got.unlisted,
      )

  -- In a consistent state, for a read whose map was found: content with the digest of another object is an
  -- error that changes nothing, and content that the table does not have fails an assertion.
  pub dedup_hit_inconsistent :
      (s : IoDedup K api.Table) (b : ℕ) (e : P2d) (key other : K) (had : Option ℕ)
      → IsConsistent api s
      → p2dmaps_get s.p2dmaps b ≡ some e
      → digest_of s b ≡ some key
      → other ≢ key
      → dedup_hit api s other b had e.iodedup_id
        ≡ elim (api.lookup s.maps.deduptab other) [ none ↦ fault | some p ↦ ok (s, true) ]
  unfolding dedup_hit
  dedup_hit_inconsistent s b e key other had con at h ne =
      let x = digest_of-IsHeld api s b key con.sound h in
      let same : x.entry ≡ e = ground (arith, x.at) in
      elim (Option-cases (api.lookup s.maps.deduptab other)) [
        | inl n ↦ ground (arith, api.search_lem other con.sound.good)
        | inr (p, there) ↦
            let (o, l, eo) = con.sound.keyed other p there in
            ground (
              arith,
              api.search_lem other con.sound.good,
              x.by_entry,
              l.here,
              x.live.here,
              x.digest,
              same,
            )
      ]

-- Where the map is not built at run time, a read of a block without an entry, which the function means to
-- report as an error, reads through NULL first.
pub read_lookup_unmapped :
    {K T : Type 0} (s : IoDedup K T) (c : MapCounts) (modes : Modes) (warmupflag : Bool) (b : ℕ)
    → modes.runtimemap ≡ false
    → b < u32_mod
    → p2dmaps_get s.p2dmaps b ≡ none
    → read_lookup modes warmupflag s c b ≡ fault
unfolding read_lookup looked_up
read_lookup_unmapped s c modes warmupflag b given small e =
    ground (arith, one_block s.p2dmaps b small)

-- Where the map is not built at run time, `mappingTrimScanIO` of a block without an entry, or of a zero block,
-- is an error and changes nothing.
pub mapping_trim_scan_io_refused :
    {K : Type 0} (api : TableApi K ℕ) (s : IoDedup K api.Table) (b : ℕ)
    → b < u32_mod
    → ((x : P2d) → p2dmaps_get s.p2dmaps b ≡ some x → x.iodedup_id ≡ 0)
    → mapping_trim_scan_io api false s b ≡ ok (s, true)
unfolding mapping_trim_scan_io trim_unmapped notzero_io_vblk
mapping_trim_scan_io_refused api s b small zero_blk =
    elim (Option-cases (p2dmaps_get s.p2dmaps b)) [
      | inl e ↦ ground (arith, one_block s.p2dmaps b small)
      | inr (x, e) ↦ ground (arith, one_block s.p2dmaps b small, zero_blk x e)
    ]
