-- ===== src/Confided/Leaders.antt =====
-- The lists of confided/fserveio.c and confided/f2pv-map.c: the blocks that share a content, with the mark of
-- the block that is fetched for all of them. A `fault` is `assert(0)`.
use sim_replay.Prelude.{
  ℕ, zero, suc, Option, none, some, Bool, true, false, not, ◌&&◌, ◌||◌, List, [], ◌∷◌, Result, ok,
  fault, ◌>>=◌, ◌==◌, if◌then◌else◌, length,
}

-- `F2V_tuple_t`
pub record F2v : Type 0 where
  pub dedupfetch : Bool
  pub vol_id : ℕ
  pub block_id : ℕ

-- `vblkIDMatch` of generic-replay/request-generic.c.
unfoldable pub vblk_id_match : ℕ → ℕ → ℕ → ℕ → Bool
vblk_id_match newvol_id newblk_id vol_id v_blk_id = newvol_id == vol_id && newblk_id == v_blk_id

-- The tuple of the block, with its position.
unfoldable pub get_nondeduped_f2v : List F2v → ℕ → ℕ → Option (ℕ × F2v)
unfolding vblk_id_match
get_nondeduped_f2v [] vol_id v_blk_id = none
get_nondeduped_f2v (f2v ∷ f2vs) vol_id v_blk_id =
    let rest = get_nondeduped_f2v f2vs vol_id v_blk_id in
    if vblk_id_match f2v.vol_id f2v.block_id vol_id v_blk_id
    then some (0, f2v)
    else elim rest [ none ↦ none | some (i, f) ↦ some (suc i, f) ]

-- `unmark_old_dedupfetchF`
unfoldable pub unmark_old_dedupfetch_f : Bool → ℕ → List F2v → Result (List F2v)
unmark_old_dedupfetch_f intraonlyflag vol_id [] = if intraonlyflag then ok [] else fault
unmark_old_dedupfetch_f intraonlyflag vol_id (f2v ∷ f2vs) =
    let rest = unmark_old_dedupfetch_f intraonlyflag vol_id f2vs >>= λ l. ok (f2v ∷ l) in
    if (not intraonlyflag && f2v.dedupfetch)
      || (intraonlyflag && f2v.vol_id == vol_id && f2v.dedupfetch)
    then ok (record f2v { dedupfetch = false } ∷ f2vs)
    else rest

-- The loop of `mark_another_dedupfetchF`; beside the list is the block that is marked.
unfoldable pub mark_from : Bool → ℕ → List F2v → Result (List F2v × Option (ℕ × ℕ))
mark_from intraonlyflag vol_id [] = if intraonlyflag then ok ([], none) else fault
mark_from intraonlyflag vol_id (f2v ∷ f2vs) =
    let rest = mark_from intraonlyflag vol_id f2vs >>= λ r. ok (f2v ∷ r.0, r.1) in
    if (not intraonlyflag && not f2v.dedupfetch)
      || (intraonlyflag && f2v.vol_id == vol_id && not f2v.dedupfetch)
    then ok (record f2v { dedupfetch = true } ∷ f2vs, some (f2v.vol_id, f2v.block_id))
    else rest

-- `mark_another_dedupfetchF`
unfoldable pub mark_another_dedupfetch_f : Bool → ℕ → List F2v → Result (List F2v × Option (ℕ × ℕ))
mark_another_dedupfetch_f intraonlyflag vol_id f2vmaps =
    if not intraonlyflag && length f2vmaps == 1
    then ok (f2vmaps, none)
    else mark_from intraonlyflag vol_id f2vmaps

-- `remove_f2v_tuple_from_map`, of the tuple at a position: `slist_del`.
unfoldable pub remove_f2v_tuple_from_map : ℕ → List F2v → List F2v
remove_f2v_tuple_from_map i [] = []
remove_f2v_tuple_from_map zero (f2v ∷ f2vs) = f2vs
remove_f2v_tuple_from_map (suc i) (f2v ∷ f2vs) = f2v ∷ remove_f2v_tuple_from_map i f2vs

-- What `del_f2v_from_f2vmaps` leaves: the list, the new leader if one is marked, and whether it is an error.
pub record Deleted : Type 0 where
  pub f2vmaps : List F2v
  pub leader : Option (ℕ × ℕ)
  pub failed : Bool

unfoldable pub del_f2v_from_f2vmaps : Bool → List F2v → ℕ → ℕ → Result Deleted
unfolding get_nondeduped_f2v mark_another_dedupfetch_f mark_from remove_f2v_tuple_from_map
del_f2v_from_f2vmaps intraonlyflag f2vmaps vol_id v_blk_id =
    elim (get_nondeduped_f2v f2vmaps vol_id v_blk_id) [
      | none ↦ ok (record { f2vmaps = f2vmaps; leader = none; failed = true })
      | some (i, f2v) ↦ elim f2v.dedupfetch [
        | true ↦ do
          r ← mark_another_dedupfetch_f intraonlyflag vol_id f2vmaps
          ok (record { f2vmaps = remove_f2v_tuple_from_map i (r.0); leader = r.1; failed = false })
        | false ↦ ok (record {
          f2vmaps = remove_f2v_tuple_from_map i f2vmaps;
          leader = none;
          failed = false;
        })
      ]
    ]

-- The loop of `get_deduped_f2v`; `last` is the tuple that the loop has passed.
unfoldable pub deduped_from : Bool → ℕ → List F2v → Option F2v → Result (Option F2v)
deduped_from intraonlyflag vol_id [] last = if intraonlyflag then ok last else fault
deduped_from intraonlyflag vol_id (f2v ∷ f2vs) last =
    let rest = deduped_from intraonlyflag vol_id f2vs (some f2v) in
    if intraonlyflag && f2v.vol_id == vol_id && f2v.dedupfetch
    then ok (some f2v)
    else if f2v.dedupfetch
    then ok (some f2v)
    else rest

unfoldable pub get_deduped_f2v : Bool → ℕ → List F2v → Result (Option F2v)
unfolding deduped_from
get_deduped_f2v intraonlyflag vol_id f2vmaps = deduped_from intraonlyflag vol_id f2vmaps none
