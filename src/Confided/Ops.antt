-- ===== src/Confided/Ops.antt =====
-- `resumeFixing` of confided/fixing.c with its caller in runtime-fixed/fruntime.c.
use sim_replay.Prelude.{
  ℕ, ◌+◌, Option, none, some, Bool, true, false, not, ◌&&◌, [], Result, ok, fault, ◌>>=◌, ◌==◌,
  ◌||◌, if◌then◌else◌, length,
}
use sim_replay.Hashtab.Api.{TableApi}
use sim_replay.IoDedup.P2d.{BlkFlag, zeroblk_flag, goodblk_flag}
use sim_replay.IoDedup.D2pv.{Stage, init_stage, noinit_stage}
use sim_replay.IoDedup.Defs.{insert_status}
use sim_replay.Modes.{has_digests, has_blocks, len_of}
use sim_replay.Confided.Leaders.{F2v, get_nondeduped_f2v, unmark_old_dedupfetch_f}
use sim_replay.Confided.V2f.{update_blockf, process_blockf}
use sim_replay.Confided.Fixed.{
  F2pv, FixedMaps, deref_f, store_f, get_fixed_map, set_fixed_map, get_next_fixed_num,
  note_fixed_attrs, add_f2v_tuple_to_map,
}
use sim_replay.Confided.Defs.{FixConfig, Confided, count_fixed, count_shared}

module _ {K : Type 0} (api : TableApi K ℕ) where
  -- Content that `fixedtab` has: the block joins the list and becomes its leader, unless it is on the list.
  -- `unmark_old_dedupfetchF` is called without its second argument, so `stray` is what it finds there.
  unfoldable pub fix_found :
      Bool → ℕ → Confided K api.Table → ℕ → ℕ → ℕ → Result (Confided K api.Table × ℕ)
  fix_found intraonlyflag stray s p vol_id block_id = do
    d ← deref_f s.maps p
    d' ← elim (get_nondeduped_f2v d.f2vmaps vol_id block_id) [
      | some f ↦ ok d
      | none ↦ do
        l ← unmark_old_dedupfetch_f intraonlyflag stray d.f2vmaps
        ok (
            add_f2v_tuple_to_map
              (record { dedupfetch = true; vol_id = vol_id; block_id = block_id })
              (record d { f2vmaps = l }))
    ]
    ok (
      record s { maps = store_f s.maps p d'; counts = count_shared (length d'.f2vmaps) s.counts },
      d.fixed_id,
    )

  -- New content: an object, its ID and its entries. Beside the state is the ID, or `none` for -ENOMEM.
  unfoldable pub fix_new :
      Confided K api.Table → K → ℕ → ℕ → Stage → Bool → Result (Confided K api.Table × Option ℕ)
  unfolding insert_status
  fix_new s key vol_id block_id initflag got_node = do
    let id : ℕ = (get_next_fixed_num initflag s.maps).0
    let m : FixedMaps K api.Table = (get_next_fixed_num initflag s.maps).1
    let p : ℕ = m.next
    let blank : F2pv K = record { fixed_id = 0; fhashkey = key; f2vmaps = [] }
    let f2v : F2v = record { dedupfetch = true; vol_id = vol_id; block_id = block_id }
    let d = add_f2v_tuple_to_map f2v (note_fixed_attrs blank key id)
    let m' : FixedMaps K api.Table = store_f (record m { next = p + 1 }) p d
    done ← insert_status api m'.fixedtab (api.insert m'.fixedtab key p got_node)
    elim done [
      | none ↦ ok (record s { maps = m' }, none)
      | some t ↦ do
        m'' ← set_fixed_map (record m' { fixedtab = t }) id (some p)
        ok (record s { maps = m''; counts = count_fixed (length d.f2vmaps) s.counts }, some id)
    ]

  -- The ID of the content of a block that is not a zero block.
  unfoldable pub fix_content :
      Bool
      → ℕ
      → Confided K api.Table
      → K
      → ℕ
      → ℕ
      → Stage
      → Bool
      → Result (Confided K api.Table × Option ℕ)
  fix_content intraonlyflag stray s key vol_id block_id initflag got_node = do
    found ← api.search s.maps.fixedtab key
    elim found [
      | some p ↦ do r ← fix_found intraonlyflag stray s p vol_id block_id; ok (r.0, some (r.1))
      | none ↦ fix_new s key vol_id block_id initflag got_node
    ]

  -- A read whose map was found: the content must be the one of the ID that was found. The Boolean is an error.
  unfoldable pub fix_hit : FixedMaps K api.Table → K → ℕ → Result Bool
  fix_hit m key fmaphit_fixed_id = do
    found ← api.search m.fixedtab key
    elim found [
      | none ↦ ok true
      | some p ↦ elim (get_fixed_map m fmaphit_fixed_id) [
        | none ↦ fault
        | some q ↦ ok (not (p == q))
      ]
    ]

  -- The end of `resumeFixing`: the entry of `v2fmaps`.
  unfoldable pub note_blockf :
      Bool
      → Confided K api.Table
      → ℕ
      → ℕ
      → Stage
      → BlkFlag
      → ℕ
      → Result (Confided K api.Table × Bool)
  note_blockf runtimemap s vol_id block_id init_stage lastblk_flag fixed_id = do
    v ← process_blockf s.v2fmaps block_id vol_id lastblk_flag fixed_id
    ok (record s { v2fmaps = v }, false)
  note_blockf runtimemap s vol_id block_id initflag lastblk_flag fixed_id = do
    r ← update_blockf runtimemap s.v2fmaps block_id vol_id lastblk_flag fixed_id
    elim r [ none ↦ ok (s, true) | some v ↦ ok (record s { v2fmaps = v }, false) ]

module _ {K C : Type 0} (api : TableApi K ℕ) (get_hash_key : C → K) where
  -- `len` is 0 for a zero block only, and else the length of the mode; `fmaphit` is `fmaphit_flag` with `fmaphit_fixedID`.
  unfoldable pub resume_fixing :
      FixConfig
      → Option ℕ
      → ℕ
      → Confided K api.Table
      → Option C
      → ℕ
      → ℕ
      → ℕ
      → Stage
      → BlkFlag
      → Bool
      → Result (Confided K api.Table × Bool)
  resume_fixing config fmaphit stray s buf len vol_id block_id initflag lastblk_flag got_node =
      elim (len == 0) [
        | true ↦ note_blockf api config.modes.runtimemap s vol_id block_id initflag lastblk_flag 0
        | false ↦ elim (if len == len_of config.modes then buf else none) [
          | none ↦ fault
          | some content ↦ elim fmaphit [
            | some fmaphit_fixed_id ↦ elim config.modes.disksimflag [
              | false ↦ fault
              | true ↦ do
                wrong ← fix_hit api s.maps (get_hash_key content) fmaphit_fixed_id
                ok (s, wrong)
            ]
            | none ↦ do
              r ←
                  fix_content api config.intraonlyflag stray s (get_hash_key content) vol_id
                    block_id initflag got_node
              elim (r.1) [
                | none ↦ ok (r.0, true)
                | some id ↦
                    note_blockf api config.modes.runtimemap (r.0) vol_id block_id initflag
                      lastblk_flag id
              ]
          ]
        ]
      ]

  -- `perfReadWriteFixing`. The mode must be one of the four that the code provides for; it gives the length. The
  -- comparison with zeroes, `is_zero`, is of a whole block: of a digest that is all zeroes it runs past the end.
  unfoldable pub perf_read_write_fixing :
      (C → Bool)
      → FixConfig
      → Option ℕ
      → ℕ
      → Confided K api.Table
      → Option C
      → Bool
      → ℕ
      → ℕ
      → Bool
      → Result (Confided K api.Table × Bool)
  perf_read_write_fixing is_zero config fmaphit stray s content rw vol_id blk_id got_node =
      let buf : Option C =
        if config.modes.disksimflag then content else if rw then none else content in
      elim (if has_digests config.modes || has_blocks config.modes then buf else none) [
        | none ↦ fault
        | some b ↦
            if has_digests config.modes && is_zero b
            then fault
            else resume_fixing config fmaphit stray s (some b) (len_of config.modes) vol_id blk_id
                noinit_stage (if is_zero b then zeroblk_flag else goodblk_flag) got_node
      ]
