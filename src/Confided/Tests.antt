-- ===== src/Confided/Tests.antt =====
-- confided/ over the table of utils/uhashtab.c, at a concrete state: blocks 1 and 2 of volume 0 hold content 8,
-- under ID 3, and block 2 is marked.
use mathlib.Core.Path.{subst}
use sim_replay.Prelude.{
  ℕ, ◌+◌, ◌*◌, ◌≡◌, List, [], ◌∷◌, arith, refl, ok, none, some, true, false, if◌then◌else◌, ◌==◌,
  Bool, ◌&&◌,
}
use sim_replay.Hashtab.Defs.{Hashtab, nodes}
use sim_replay.Hashtab.Order.{assoc}
use sim_replay.Hashtab.Table.{IsValid, lookup}
use sim_replay.Hashtab.Api.{TableApi, hashtab_api}
use sim_replay.Hashtab.Tests.{number_cmp, number_cmp-IsKeyCmp, remainder}
use sim_replay.ContentDedup.Bag.{count}
use sim_replay.Vectors.Defs.{Vector, get}
use sim_replay.IoDedup.D2pv.{get_dedup_map}
use sim_replay.IoDedup.Sound.{IsSound, IsLive}
use sim_replay.Modes.{Modes}
use sim_replay.Confided.Leaders.{F2v, vblk_id_match, Deleted, del_f2v_from_f2vmaps, get_deduped_f2v}
use sim_replay.Confided.Marks.{
  leaders, tuples, IsDeleted, del_f2v_from_f2vmaps-IsDeleted, get_deduped_f2v_first,
}
use sim_replay.Confided.V2f.{V2f, v2fmaps_get, v2fmaps_set}
use sim_replay.Confided.Fixed.{F2pv, FixedMaps, get_fixed_map}
use sim_replay.Confided.Defs.{Confided, FixConfig, mapping_trim_scan_f}
use sim_replay.Confided.Ops.{perf_read_write_fixing}
use sim_replay.Confided.Lookup.{FixedHits, redirected, confide_read_block}
use sim_replay.Confided.View.{as_d2pv, view, fixed_of}
use sim_replay.Confided.Join.{f2vs_of, IsFixed}
use sim_replay.Confided.Cells.{IsFit, v2fmaps_get-v2fmaps_set}
use sim_replay.Confided.Mapped.{names, digest_of, IsMapped}
use sim_replay.Confided.Note.{IsNoted}
use sim_replay.Confided.Reads.{
  confide_read_block-digest_of, perf_read_write_fixing-mapping_trim_scan_f,
}

abbrev api : TableApi ℕ ℕ
api = hashtab_api ℕ number_cmp remainder number_cmp-IsKeyCmp

abbrev table : Hashtab ℕ ℕ
table = record { htable = ((8, 0) ∷ []) ∷ [] ∷ [] ∷ [] ∷ []; size = 4; nel = 1 }

table-IsValid : IsValid number_cmp remainder table
unfolding nodes
table-IsValid = record {
  in_range = λ k. omega arith;
  sized = refl;
  slots = ((tt, tt), (refl, tt), (tt, tt, (tt, tt, (tt, tt, tt))));
  counted = refl;
  bounded = omega arith;
}

abbrev tuple : Bool → ℕ → ℕ → F2v
tuple mark v b = record { dedupfetch = mark; vol_id = v; block_id = b }

abbrev pair : List F2v
pair = tuple true 0 2 ∷ tuple false 0 1 ∷ []

abbrev entry : V2f
entry = record { fixed_id = 3; fdirty = false }

abbrev object : F2pv ℕ
object = record { fixed_id = 3; fhashkey = 8; f2vmaps = pair }

abbrev maps : FixedMaps ℕ (api.Table)
unfolding hashtab_api
maps = record {
  heap = λ q. if q == 0 then some object else none;
  next = 1;
  fixedmap_by_fid = record { data_at = λ i. if i == 3 then some 0 else none; size = 8; room = 8 };
  fixedtab = table;
  fixed_num = 3;
  curr_reusable = [];
  new_reusable = [];
}

abbrev row : Vector V2f
row = record {
  data_at = λ i. if i == 1 then some entry else if i == 2 then some entry else none;
  size = 4;
  room = 4;
}

abbrev volumes : Vector (Vector V2f)
volumes = record { data_at = λ i. if i == 0 then some row else none; size = 1; room = 1 }

abbrev state : Confided ℕ (api.Table)
state = record {
  v2fmaps = volumes;
  maps = maps;
  counts = record { fcollisionstp = 1; max_dedupfactor = 2; dedupfactor = λ i. 0 };
}

object-IsLive : IsLive api (view maps) 0 (as_d2pv object)
unfolding hashtab_api lookup assoc nodes get_dedup_map get
object-IsLive = record {
  here = refl;
  by_id = refl;
  by_key = refl;
  allocated = omega arith;
  above_dummy = omega arith;
  below_num = omega arith;
}

maps-IsSound : IsSound api (view maps)
unfolding hashtab_api lookup assoc nodes get_dedup_map get count
maps-IsSound = record {
  good = table-IsValid;
  fit = omega arith;
  keyed = λ k p h. (
    as_d2pv object,
    subst (λ q. IsLive api (view maps) q (as_d2pv object)) (ground arith) object-IsLive,
    ground arith,
  );
  named = λ id p h. (
    as_d2pv object,
    subst (λ q. IsLive api (view maps) q (as_d2pv object)) (ground arith) object-IsLive,
    ground arith,
  );
  reusable = λ id h. absurd (h refl);
  once = λ id. omega arith;
  started = omega arith;
  small = omega arith;
}

maps-IsFixed : IsFixed api maps
unfolding hashtab_api fixed_of get_fixed_map get leaders
maps-IsFixed = record { sound = maps-IsSound; led = λ id d h. ground arith }

volumes-IsFit : IsFit volumes
unfolding get
volumes-IsFit = record { fit = omega arith; rows = λ x r h. ground arith }

state-IsMapped : IsMapped api state
unfolding hashtab_api fixed_of get_fixed_map get f2vs_of names v2fmaps_get tuples vblk_id_match
state-IsMapped = record {
  fixed = maps-IsFixed;
  fit = volumes-IsFit;
  agree = λ id v b ne. ground arith;
}

abbrev hash : ℕ → ℕ
hash c = c

abbrev is_zero : ℕ → Bool
is_zero c = c == 0

abbrev no_hits : FixedHits
no_hits = record {
  fmap_hits = 0;
  fmap_misses = 0;
  fmap_dirties = 0;
  fmap_self_is_leader = 0;
  fmap_self_is_not_leader = 0;
}

-- A simulated disk, with digests in the trace.
abbrev modes : Modes
modes = record {
  disksimflag = true;
  runtimemap = true;
  collectformat = true;
  vmbunchreplay = false;
  scan = false;
  sreplayflag = false;
}

abbrev across : FixConfig
across = record { modes = modes; intraonlyflag = false }

perf_read_write_fixing-mapping_trim_scan_f_example :
    (s1 : Confided ℕ (api.Table)) × (l : List (ℕ × ℕ)) × (s2 : Confided ℕ (api.Table))
    × (mapping_trim_scan_f api across state 0 2 1 ≡ ok (s1, l, false))
    × (perf_read_write_fixing api hash is_zero across none 7 s1 (some 5) true 0 2 true
        ≡ ok (s2, false))
    × IsNoted api state s2 0 2 5
unfolding hashtab_api
perf_read_write_fixing-mapping_trim_scan_f_example =
    perf_read_write_fixing-mapping_trim_scan_f api hash is_zero modes 7 state 5 true 0 2 refl
      state-IsMapped refl (omega arith) (omega arith) (omega arith) (omega arith)

confide_read_block-digest_of_example :
    (v' : ℕ) × (b' : ℕ) × (id : ℕ) × (c' : FixedHits) × (confide_read_block api
        (λ v b. 1000 * v + b)
        across
        false
        state
        0
        1
        no_hits
      ≡ ok (redirected v' b' id, c'))
    × (digest_of state v' b' ≡ some 8)
    × (c'.fmap_hits ≡ 1)
    × (c'.fmap_misses ≡ 0)
    × (c'.fmap_dirties ≡ 0)
unfolding hashtab_api digest_of v2fmaps_get get fixed_of get_fixed_map
confide_read_block-digest_of_example =
    confide_read_block-digest_of api (λ v b. 1000 * v + b) modes false state 0 1 no_hits 8
      state-IsMapped (omega arith) refl

v2fmaps_get-v2fmaps_set_example :
    (m : Vector (Vector V2f)) × (v2fmaps_set volumes 2 7 entry ≡ ok m)
    × IsFit m
    × ((x' y' : ℕ)
        → v2fmaps_get m x' y'
          ≡ (if x' == 2 && y' == 7 then some entry else v2fmaps_get volumes x' y'))
v2fmaps_get-v2fmaps_set_example =
    v2fmaps_get-v2fmaps_set volumes 2 7 entry volumes-IsFit (omega arith) (omega arith)

del_f2v_from_f2vmaps-IsDeleted_example :
    (r : Deleted) × (del_f2v_from_f2vmaps false pair 0 2 ≡ ok r)
    × (r.failed ≡ false)
    × IsDeleted 0 2 pair r.f2vmaps
unfolding leaders tuples vblk_id_match
del_f2v_from_f2vmaps-IsDeleted_example =
    del_f2v_from_f2vmaps-IsDeleted pair 0 2 refl (omega arith) (λ e. ground arith)

get_deduped_f2v_first_example :
    get_deduped_f2v true 0 (tuple false 0 1 ∷ tuple true 1 4 ∷ tuple true 0 2 ∷ [])
    ≡ ok (some (tuple true 1 4))
unfolding leaders
get_deduped_f2v_first_example =
    get_deduped_f2v_first true 0 (tuple false 0 1 ∷ []) (tuple true 1 4) (tuple true 0 2 ∷ []) refl
      refl
