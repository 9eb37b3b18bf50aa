-- ===== src/Confided/Fixed.antt =====
-- confided/f2pv-map.c and the lists of confided/fserveio.c: the objects of the contents, found by their ID in
-- `fixedmap_by_fid` and by their digest in `fixedtab`. Both hold pointers to the same object, so the objects
-- stand in a heap; `next` is the address that the next calloc gives.
use sim_replay.Prelude.{
  ℕ, Option, none, some, List, [], ◌∷◌, ◌++◌, Result, ok, fault, ◌>>=◌, ◌==◌, if◌then◌else◌, inc32,
}
use sim_replay.Vectors.Defs.{Vector, get, vector32_set}
use sim_replay.IoDedup.D2pv.{
  Stage, init_stage, noinit_stage, init_immaterial, noinit_mapmiss, noinit_maphit, noinit_mapdirty,
}
use sim_replay.Confided.Leaders.{F2v}

-- `fixedmap_t`
pub record F2pv (K : Type 0) : Type 0 where
  pub fixed_id : ℕ
  pub fhashkey : K
  pub f2vmaps : List F2v

-- The maps of the contents: `fixedmap_by_fid`, `fixedtab`, `fixedNum` and the two lists of reusable IDs.
pub record FixedMaps (K T : Type 0) : Type 0 where
  pub heap : ℕ → Option (F2pv K)
  pub next : ℕ
  pub fixedmap_by_fid : Vector ℕ
  pub fixedtab : T
  pub fixed_num : ℕ
  pub curr_reusable : List ℕ
  pub new_reusable : List ℕ

module _ {K : Type 0} where
  unfoldable pub note_fixed_attrs : F2pv K → K → ℕ → F2pv K
  note_fixed_attrs f2pv key fixed_id = record f2pv { fhashkey = key; fixed_id = fixed_id }

  unfoldable pub add_f2v_tuple_to_map : F2v → F2pv K → F2pv K
  add_f2v_tuple_to_map f2v f2pv = record f2pv { f2vmaps = f2v ∷ f2pv.f2vmaps }

module _ {K T : Type 0} where
  -- A read through a pointer to an object.
  unfoldable pub deref_f : FixedMaps K T → ℕ → Result (F2pv K)
  deref_f m p = elim (m.heap p) [ none ↦ fault | some d ↦ ok d ]

  -- A write through a pointer to an object.
  abbrev pub store_f : FixedMaps K T → ℕ → F2pv K → FixedMaps K T
  store_f m p d = record m { heap = λ q. if q == p then some d else m.heap q }

  unfoldable pub get_fixed_map : FixedMaps K T → ℕ → Option ℕ
  get_fixed_map m fixed_id = get m.fixedmap_by_fid fixed_id

  unfoldable pub set_fixed_map : FixedMaps K T → ℕ → Option ℕ → Result (FixedMaps K T)
  set_fixed_map m fixed_id f2pv = do
    v ← vector32_set m.fixedmap_by_fid fixed_id f2pv
    ok (record m { fixedmap_by_fid = v })

  -- The ID from the counter: `__sync_add_and_fetch(&fixedNum, 1)`.
  abbrev next_num : FixedMaps K T → ℕ × FixedMaps K T
  next_num m = (inc32 m.fixed_num, record m { fixed_num = inc32 m.fixed_num })

  unfoldable pub get_next_fixed_num : Stage → FixedMaps K T → ℕ × FixedMaps K T
  get_next_fixed_num noinit_stage m = elim m.curr_reusable [
    | [] ↦ next_num m
    | val ∷ rest ↦ (val, record m { curr_reusable = rest })
  ]
  get_next_fixed_num init_stage m = next_num m
  get_next_fixed_num init_immaterial m = next_num m
  get_next_fixed_num noinit_mapmiss m = next_num m
  get_next_fixed_num noinit_maphit m = next_num m
  get_next_fixed_num noinit_mapdirty m = next_num m

  unfoldable pub add_fixed_id_to_recyclelist : ℕ → FixedMaps K T → FixedMaps K T
  add_fixed_id_to_recyclelist fixed_id m = record m { new_reusable = fixed_id ∷ m.new_reusable }

  unfoldable pub add_new_to_old_recyclelist_f : FixedMaps K T → FixedMaps K T
  add_new_to_old_recyclelist_f m = record m {
    curr_reusable = m.curr_reusable ++ m.new_reusable;
    new_reusable = [];
  }
