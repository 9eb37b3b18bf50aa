-- ===== src/IoDedup/Defs.antt =====
-- iodedup/iodeduping.c, iodedup/ioserveio.c and runtime-fixed/ioruntime.c: the map of a block is dropped before
-- a write and noted after a request. A Boolean beside a state says that the C function returned an error.
use sim_replay.Prelude.{
  ℕ, ◌+◌, Option, none, some, Bool, true, false, List, [], ◌∷◌, Result, ok, err, fault, ◌>>=◌, ◌==◌,
  if◌then◌else◌, inc32, length, ltb, leb, Errno,
}
use sim_replay.Hashtab.Api.{TableApi}
use sim_replay.Vectors.Defs.{Vector}
use sim_replay.IoDedup.P2d.{
  BlkFlag, P2d, p2dmaps_set, p2dmaps_get, notzero_io_vblk, dedup_dirty, mapped, zero_blocks,
  unmapped, get_virtto_dedup_map, update_blockio, process_blockio,
}
use sim_replay.IoDedup.D2pv.{
  Stage, init_stage, D2pv, Maps, deref, store, get_dedup_map, set_dedup_map, get_next_dedup_num,
  note_dedup_attrs, add_d2p_tuple_to_map, add_iodedup_id_to_recyclelist,
  add_new_to_old_recyclelist_io, get_nondeduped_d2p, del_d2p_from_d2pmaps,
}

-- DUMMY_ID of pdd_config.h
abbrev pub dummy_id : ℕ
dummy_id = 1

-- The counters of the deduplication.
pub record Counts : Type 0 where
  pub iocollisionstp : ℕ
  pub max_dedupfactor : ℕ
  pub dedupfactor : ℕ → ℕ

pub record IoDedup (K T : Type 0) : Type 0 where
  pub p2dmaps : Vector P2d
  pub maps : Maps K T
  pub counts : Counts

-- `dedupfactor[i]++`
abbrev pub count_factor : ℕ → Counts → Counts
count_factor i c = record c {
  dedupfactor = λ j. if j == i then inc32 (c.dedupfactor j) else c.dedupfactor j;
}

-- What a hit on content that is there counts, with the length of its list.
abbrev pub count_found : ℕ → Counts → Counts
count_found n c =
    let c' : Counts = record c {
      iocollisionstp = inc32 c.iocollisionstp;
      max_dedupfactor = if ltb c.max_dedupfactor n then n else c.max_dedupfactor;
    } in
    if leb n 9 then count_factor n c' else c'

-- The block that the object of a content is counted under: `ccache_already_had_obj_ioblkID` where
-- `ccache_already_had_flag` is set, and the request's block where it is not.
abbrev pub leader : Option ℕ → ℕ → ℕ
leader none ioblk_id = ioblk_id
leader (some had_ioblk_id) ioblk_id = had_ioblk_id

module _ {K : Type 0} (api : TableApi K ℕ) where
  -- The end of a recycling: the object is unlinked, and its ID becomes reusable.
  unfoldable pub unlink : Maps K api.Table → K → ℕ → Bool → Result (Maps K api.Table)
  unlink m key iodedup_id nozero_flag = do
    t ← elim (api.remove m.deduptab key) [ ok t ↦ ok t | err e ↦ ok m.deduptab | fault ↦ fault ]
    m' ← set_dedup_map (record m { deduptab = t }) iodedup_id none
    ok (
        if nozero_flag
        then if iodedup_id == dummy_id then m' else add_iodedup_id_to_recyclelist iodedup_id m'
        else m')

  -- The status of `del_d2p_from_d2pmaps` and of `hashtab_remove` is not looked at.
  unfoldable pub recycleiodedup_id : Maps K api.Table → ℕ → Bool → ℕ → Result (Maps K api.Table)
  unfolding unlink
  recycleiodedup_id m iodedup_id nozero_flag ioblk_id = elim (get_dedup_map m iodedup_id) [
    | none ↦ fault
    | some p ↦ do
      d ← deref m p
      let m' = store m p (record d { d2pmaps = (del_d2p_from_d2pmaps d.d2pmaps ioblk_id).0 })
      elim (ltb 1 (length d.d2pmaps)) [
        | true ↦ ok m'
        | false ↦ unlink m' d.dhashkey iodedup_id nozero_flag
      ]
  ]

  unfoldable pub reset_mappings_io : Maps K api.Table → P2d → ℕ → Result (Maps K api.Table)
  reset_mappings_io m p2d ioblk_id = do
    m' ← recycleiodedup_id m p2d.iodedup_id (notzero_io_vblk p2d) ioblk_id
    ok (add_new_to_old_recyclelist_io m')

  -- The first block of the list, which has one block.
  unfoldable pub trim_mapped : IoDedup K api.Table → List ℕ → Result (IoDedup K api.Table × Bool)
  trim_mapped s [] = ok (s, true)
  trim_mapped s (ioblk_id ∷ x ∷ xs) = ok (s, true)
  trim_mapped s (ioblk_id ∷ []) = elim (p2dmaps_get s.p2dmaps ioblk_id) [
    | none ↦ fault
    | some p2d ↦ elim (dedup_dirty p2d) [
      | true ↦ ok (s, false)
      | false ↦ do
        v ← p2dmaps_set s.p2dmaps ioblk_id (record p2d { pdirty = true })
        m ← reset_mappings_io s.maps p2d ioblk_id
        ok (record s { p2dmaps = v; maps = m }, false)
    ]
  ]

  -- A miss, or a zero block: where the map is built at run time, the block gets a dirty dummy map.
  unfoldable pub trim_unmapped :
      Bool → IoDedup K api.Table → ℕ → Result (IoDedup K api.Table × Bool)
  trim_unmapped true s ioblk_id = do
    v ← p2dmaps_set s.p2dmaps ioblk_id (record { iodedup_id = dummy_id; pdirty = true })
    ok (record s { p2dmaps = v }, false)
  trim_unmapped false s ioblk_id = ok (s, true)

  unfoldable pub mapping_trim_scan_io :
      Bool → IoDedup K api.Table → ℕ → Result (IoDedup K api.Table × Bool)
  unfolding trim_mapped trim_unmapped
  mapping_trim_scan_io runtimemap s ioblk_id = elim (get_virtto_dedup_map s.p2dmaps ioblk_id 1) [
    | mapped p2dlist ↦ trim_mapped s p2dlist
    | zero_blocks p2dlist ↦ trim_unmapped runtimemap s ioblk_id
    | unmapped ↦ trim_unmapped runtimemap s ioblk_id
  ]

  -- Content that `deduptab` has: its ID, with the block on the list of its object.
  unfoldable pub dedup_found :
      IoDedup K api.Table → ℕ → ℕ → Option ℕ → Result (IoDedup K api.Table × ℕ)
  dedup_found s p ioblk_id had = do
    d ← deref s.maps p
    let d' : D2pv K = elim (get_nondeduped_d2p d.d2pmaps ioblk_id) [
      | none ↦ add_d2p_tuple_to_map ioblk_id d
      | some i ↦ d
    ]
    let d'' : D2pv K = record d' { ioblk_id = leader had ioblk_id }
    ok (
      record s { maps = store s.maps p d''; counts = count_found (length d''.d2pmaps) s.counts },
      d.iodedup_id,
    )

  -- Of the errors of `hashtab_insert`, only -ENOMEM ends the function. -EEXIST, where the mode is asserted before a
  -- message, does not come: the key has just been searched for.
  unfoldable pub insert_status : api.Table → Result api.Table → Result (Option api.Table)
  insert_status t (ok t') = ok (some t')
  insert_status t (err Errno.enomem) = ok none
  insert_status t (err e) = ok (some t)
  insert_status t fault = fault

  -- New content: an object, its ID and its entries. Beside the state is the ID, or `none` for -ENOMEM.
  unfoldable pub dedup_new :
      IoDedup K api.Table
      → K
      → ℕ
      → Option ℕ
      → Stage
      → Bool
      → Result (IoDedup K api.Table × Option ℕ)
  unfolding insert_status
  dedup_new s key ioblk_id had initflag got_node = do
    let id : ℕ = (get_next_dedup_num initflag s.maps).0
    let m : Maps K api.Table = (get_next_dedup_num initflag s.maps).1
    let p : ℕ = m.next
    let blank : D2pv K = record { ioblk_id = 0; iodedup_id = 0; dhashkey = key; d2pmaps = [] }
    let d = add_d2p_tuple_to_map ioblk_id (note_dedup_attrs blank key id (leader had ioblk_id))
    let m' : Maps K api.Table = store (record m { next = p + 1 }) p d
    done ← insert_status m'.deduptab (api.insert m'.deduptab key p got_node)
    elim done [
      | none ↦ ok (record s { maps = m' }, none)
      | some t ↦ do
        m'' ← set_dedup_map (record m' { deduptab = t }) id (some p)
        ok (record s { maps = m''; counts = count_factor (length d.d2pmaps) s.counts }, some id)
    ]

  -- The ID of the content of a block that is not a zero block.
  unfoldable pub dedup_content :
      IoDedup K api.Table
      → K
      → ℕ
      → Option ℕ
      → Stage
      → Bool
      → Result (IoDedup K api.Table × Option ℕ)
  dedup_content s key ioblk_id had initflag got_node = do
    found ← api.search s.maps.deduptab key
    elim found [
      | some p ↦ do r ← dedup_found s p ioblk_id had; ok (r.0, some r.1)
      | none ↦ dedup_new s key ioblk_id had initflag got_node
    ]

  -- The end of `resumeDeduping`: the block's entry of `p2dmaps`.
  unfoldable pub note_blockio :
      Bool → IoDedup K api.Table → ℕ → Stage → BlkFlag → ℕ → Result (IoDedup K api.Table × Bool)
  note_blockio runtimemap s ioblk_id init_stage lastblk_flag iodedup_id = do
    v ← process_blockio s.p2dmaps ioblk_id lastblk_flag iodedup_id
    ok (record s { p2dmaps = v }, false)
  note_blockio runtimemap s ioblk_id initflag lastblk_flag iodedup_id = do
    r ← update_blockio runtimemap s.p2dmaps ioblk_id lastblk_flag iodedup_id
    elim r [ none ↦ ok (s, true) | some v ↦ ok (record s { p2dmaps = v }, false) ]

  -- A request whose map was found: the content must be the one of the ID that was found, and only the block
  -- that it is counted under changes.
  unfoldable pub dedup_hit :
      IoDedup K api.Table → K → ℕ → Option ℕ → ℕ → Result (IoDedup K api.Table × Bool)
  dedup_hit s key ioblk_id had cmaphit_iodedup_id = do
    found ← api.search s.maps.deduptab key
    elim found [
      | none ↦ fault
      | some p ↦ elim (get_dedup_map s.maps cmaphit_iodedup_id) [
        | none ↦ fault
        | some q ↦ elim (p == q) [
          | false ↦ ok (s, true)
          | true ↦ do
            d ← deref s.maps q
            ok (
              record s { maps = store s.maps q (record d { ioblk_id = leader had ioblk_id }) },
              false,
            )
        ]
      ]
    ]
