-- ===== src/IoDedup/D2pv.antt =====
-- iodedup/d2pv-map.c and the lists of iodedup/ioserveio.c: the objects of the contents, found by their ID in
-- `dedupmap_by_did` and by their digest in `deduptab`. Both hold pointers to the same object, so the objects
-- stand in a heap; `next` is the address that the next calloc gives. The lists of IDs are utils/ulist.c's.
use sim_replay.Prelude.{
  ℕ, zero, suc, Option, none, some, Bool, true, false, List, [], ◌∷◌, ◌++◌, Result, ok, fault,
  ◌>>=◌, ◌==◌, if◌then◌else◌, inc32,
}
use sim_replay.Vectors.Defs.{Vector, get, vector32_set}

-- `initflag`, an enum of defs.h.
pub data Stage : Type 0 where
  noinit_stage init_stage init_immaterial noinit_mapmiss noinit_maphit noinit_mapdirty : Stage

-- `dedupmap_t`; a `D2P_tuple_t` is its block.
pub record D2pv (K : Type 0) : Type 0 where
  pub ioblk_id : ℕ
  pub iodedup_id : ℕ
  pub dhashkey : K
  pub d2pmaps : List ℕ

-- The maps of the contents: `dedupmap_by_did`, `deduptab`, `dedupNum` and the two lists of reusable IDs.
pub record Maps (K T : Type 0) : Type 0 where
  pub heap : ℕ → Option (D2pv K)
  pub next : ℕ
  pub dedupmap_by_did : Vector ℕ
  pub deduptab : T
  pub dedup_num : ℕ
  pub curr_reusable : List ℕ
  pub new_reusable : List ℕ

-- The position of the tuple of the block.
unfoldable pub get_nondeduped_d2p : List ℕ → ℕ → Option ℕ
get_nondeduped_d2p [] ioblk_id = none
get_nondeduped_d2p (d2p ∷ d2ps) ioblk_id =
    let rest = get_nondeduped_d2p d2ps ioblk_id in
    if d2p == ioblk_id then some 0 else elim rest [ none ↦ none | some i ↦ some (suc i) ]

unfoldable pub get_deduped_d2p : List ℕ → Option ℕ
get_deduped_d2p [] = none
get_deduped_d2p (d2p ∷ d2ps) = some d2p

-- `remove_d2p_tuple_from_map`, of the tuple at a position: `slist_del`.
unfoldable pub remove_d2p_tuple_from_map : ℕ → List ℕ → List ℕ
remove_d2p_tuple_from_map i [] = []
remove_d2p_tuple_from_map zero (d2p ∷ d2ps) = d2ps
remove_d2p_tuple_from_map (suc i) (d2p ∷ d2ps) = d2p ∷ remove_d2p_tuple_from_map i d2ps

-- The Boolean says that the block was not found.
unfoldable pub del_d2p_from_d2pmaps : List ℕ → ℕ → List ℕ × Bool
unfolding get_nondeduped_d2p remove_d2p_tuple_from_map
del_d2p_from_d2pmaps d2pmaps ioblk_id = elim (get_nondeduped_d2p d2pmaps ioblk_id) [
  | none ↦ (d2pmaps, true)
  | some i ↦ (remove_d2p_tuple_from_map i d2pmaps, false)
]

module _ {K : Type 0} where
  unfoldable pub note_dedup_attrs : D2pv K → K → ℕ → ℕ → D2pv K
  note_dedup_attrs d2pv key iodedup_id ioblk_id = record d2pv {
    dhashkey = key;
    iodedup_id = iodedup_id;
    ioblk_id = ioblk_id;
  }

  unfoldable pub add_d2p_tuple_to_map : ℕ → D2pv K → D2pv K
  add_d2p_tuple_to_map d2p d2pv = record d2pv { d2pmaps = d2p ∷ d2pv.d2pmaps }

module _ {K T : Type 0} where
  -- A read through a pointer to an object.
  unfoldable pub deref : Maps K T → ℕ → Result (D2pv K)
  deref m p = elim (m.heap p) [ none ↦ fault | some d ↦ ok d ]

  -- A write through a pointer to an object.
  abbrev pub store : Maps K T → ℕ → D2pv K → Maps K T
  store m p d = record m { heap = λ q. if q == p then some d else m.heap q }

  unfoldable pub get_dedup_map : Maps K T → ℕ → Option ℕ
  get_dedup_map m iodedup_id = get m.dedupmap_by_did iodedup_id

  unfoldable pub set_dedup_map : Maps K T → ℕ → Option ℕ → Result (Maps K T)
  set_dedup_map m iodedup_id d2pv = do
    v ← vector32_set m.dedupmap_by_did iodedup_id d2pv
    ok (record m { dedupmap_by_did = v })

  -- The ID from the counter: `__sync_add_and_fetch(&dedupNum, 1)`.
  abbrev next_num : Maps K T → ℕ × Maps K T
  next_num m = (inc32 m.dedup_num, record m { dedup_num = inc32 m.dedup_num })

  unfoldable pub get_next_dedup_num : Stage → Maps K T → ℕ × Maps K T
  get_next_dedup_num noinit_stage m = elim m.curr_reusable [
    | [] ↦ next_num m
    | val ∷ rest ↦ (val, record m { curr_reusable = rest })
  ]
  get_next_dedup_num init_stage m = next_num m
  get_next_dedup_num init_immaterial m = next_num m
  get_next_dedup_num noinit_mapmiss m = next_num m
  get_next_dedup_num noinit_maphit m = next_num m
  get_next_dedup_num noinit_mapdirty m = next_num m

  unfoldable pub add_iodedup_id_to_recyclelist : ℕ → Maps K T → Maps K T
  add_iodedup_id_to_recyclelist iodedup_id m = record m {
    new_reusable = iodedup_id ∷ m.new_reusable;
  }

  unfoldable pub add_new_to_old_recyclelist_io : Maps K T → Maps K T
  add_new_to_old_recyclelist_io m = record m {
    curr_reusable = m.curr_reusable ++ m.new_reusable;
    new_reusable = [];
  }
