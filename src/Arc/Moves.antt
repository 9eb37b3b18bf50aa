-- ===== src/Arc/Moves.antt =====
-- ARC-cache/arc.c: `__arc_move` of an object into a resident list, `__arc_lookup` and `__arc_add`.
use sim_replay.Prelude.{
  ℕ, Option, none, some, Bool, true, false, Result, ok, fault, if◌then◌else◌, ◌>>=◌,
}
use sim_replay.Arc.Defs.{
  Obj, Arc, Place, in_mrug, in_mru, in_mfu, in_mfug, push, fetch, hash_insert, hash_lookup,
  pull_from,
}
use sim_replay.Arc.Adapt.{Counters, raised_p, lowered_p, count_hit, count_miss}
use sim_replay.Arc.Balance.{balance}

module _ {K C : Type 0} (same_key : K → K → Bool) (ops_hash : K → ℕ) where
  -- `__arc_move` of an object that is in no resident list, to the MRU or (`true`) the MFU list.
  unfoldable pub move_in : Bool → Obj K C → Option C → ℕ → Arc K C → Result (Arc K C)
  move_in frequent o content ioblk cache = do
    room ← balance same_key ops_hash o.osize cache
    loaded ← fetch o content ioblk
    ok (
        if frequent
        then record room { mfu = push loaded room.mfu }
        else record room { mru = push loaded room.mru })

  -- `__arc_move` of a resident object to the head of the MFU list.
  unfoldable pub touch : Place → Obj K C → Arc K C → Arc K C
  touch place o cache =
      let pulled = pull_from same_key place o.dhashkey o.osize cache in
      record pulled { mfu = push o pulled.mfu }

  unfoldable pub lookup : Arc K C → K → ℕ → Result (Arc K C × Option (Obj K C))
  lookup cache dhashkey len = do
    found ← hash_lookup same_key ops_hash cache dhashkey len
    elim found [
      | none ↦ ok (cache, none)
      | some (place, o) ↦ elim place [
        | in_mru ↦ ok (touch in_mru o cache, some o)
        | in_mfu ↦ ok (touch in_mfu o cache, some o)
        | in_mrug ↦ ok (cache, none)
        | in_mfug ↦ ok (cache, none)
      ]
    ]

  -- The branch of `__arc_add` for an object in a ghost list, once `p` is adapted.
  unfoldable pub back_in : Arc K C → Option ℕ → Place → Obj K C → C → ℕ → Result (Arc K C)
  back_in cache none place o content ioblk = fault
  back_in cache (some p) place o content ioblk =
      move_in true o (some content) ioblk
        (pull_from same_key place o.dhashkey o.osize (record cache { p = p }))

  -- The branch for a digest that is in no list. `__cop_create` copies the content, in a mode that
  -- `overwrite_in_contentcache` has asserted.
  unfoldable pub create_in : Arc K C → K → C → ℕ → ℕ → Result (Arc K C)
  create_in cache dhashkey content datalen ioblk =
      let o : Obj K C = record {
        dhashkey = dhashkey;
        osize = datalen;
        ioblk_id = ioblk;
        content = some content;
      } in
      move_in false o none 0 (hash_insert same_key ops_hash cache dhashkey datalen)

  -- `__arc_add`; the Boolean result says that an object is returned, and `got_obj` that `create` has
  -- memory for one.
  unfoldable pub add :
      Arc K C → Counters → Bool → Bool → Bool → K → C → ℕ → ℕ → Result (Arc K C × Counters × Bool)
  unfolding back_in create_in
  add cache n warmup updatehits got_obj dhashkey content datalen ioblk = do
    found ← hash_lookup same_key ops_hash cache dhashkey datalen
    elim found [
      | some (place, o) ↦
          let seen = record n { already_had_flag = true; already_had_ioblk_id = o.ioblk_id } in
          elim place [
            | in_mru ↦ ok (touch in_mru o cache, count_hit warmup updatehits seen, true)
            | in_mfu ↦ ok (touch in_mfu o cache, count_hit warmup updatehits seen, true)
            | in_mrug ↦ do
              next ←
                  back_in cache (raised_p cache.c cache.p cache.mfug.size cache.mrug.size) in_mrug o
                    content ioblk
              ok (next, count_miss warmup updatehits n, true)
            | in_mfug ↦ do
              next ←
                  back_in cache (lowered_p cache.p cache.mrug.size cache.mfug.size) in_mfug o
                    content ioblk
              ok (next, count_miss warmup updatehits n, true)
          ]
      | none ↦
          if got_obj
          then (do
            next ← create_in cache dhashkey content datalen ioblk
            ok (next, count_miss warmup updatehits n, true))
          else ok (cache, count_miss warmup updatehits n, false)
    ]
