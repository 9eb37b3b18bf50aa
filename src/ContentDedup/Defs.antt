-- ===== src/ContentDedup/Defs.antt =====
-- contentdedup/contentdedup-API.c and the counters of contentdedup/contentdeduptab.c. The datum of a
-- table entry is its `numcopies`; its `hashkey` is the key. What calloc and malloc give are flags.
use sim_replay.Prelude.{
  ℕ, none, some, Bool, true, false, Result, ok, err, fault, inc32, dec32, ◌==◌, if◌then◌else◌,
  ◌>>=◌, Errno,
}
use sim_replay.Hashtab.Api.{TableApi}

pub record Dedup (T : Type 0) : Type 0 where
  pub table : T
  pub uniq_items : ℕ
  pub total_items : ℕ

-- `total_items++; uniq_items++` of a new item, before its insertion.
abbrev pub counted : {T : Type 0} → Dedup T → Dedup T
counted s = record s { uniq_items = inc32 s.uniq_items; total_items = inc32 s.total_items }

module _ {K : Type 0} (api : TableApi K ℕ) where
  -- The tests on the status of `hashtab_insert`: -EEXIST and -ENOMEM are errors, -EINVAL is not seen.
  inserted : Dedup api.Table → Result api.Table → Result (Dedup api.Table × Bool)
  inserted s (ok t) = ok (record s { table = t }, false)
  inserted s (err Errno.eexist) = ok (s, true)
  inserted s (err Errno.enomem) = ok (s, true)
  inserted s (err e) = ok (s, false)
  inserted s fault = fault

  -- A new item; `calloc` is not checked, so without memory the copy of the key goes through NULL.
  new_item : Dedup api.Table → K → Bool → Bool → Result (Dedup api.Table × Bool)
  new_item s key true got_node = inserted (counted s) (api.insert s.table key 1 got_node)
  new_item s key false got_node = fault

  -- The Boolean beside the state says that the function returned an error.
  unfoldable pub cache_insert_trap :
      Dedup api.Table → K → Bool → Bool → Result (Dedup api.Table × Bool)
  unfolding inserted new_item
  cache_insert_trap s key got_item got_node = do
    found ← api.search s.table key
    elim found [
      | some numcopies ↦ ok (
        record s {
          table = api.update s.table key (inc32 numcopies);
          total_items = inc32 s.total_items;
        },
        false,
      )
      | none ↦ new_item s key got_item got_node
    ]

  removed : Dedup api.Table → Result api.Table → Result (Dedup api.Table × Bool)
  removed s (ok t) = ok (
    record { table = t; uniq_items = dec32 s.uniq_items; total_items = dec32 s.total_items },
    false,
  )
  removed s (err e) = ok (s, true)
  removed s fault = fault

  unfoldable pub cache_delete_trap : Dedup api.Table → K → Result (Dedup api.Table × Bool)
  unfolding removed
  cache_delete_trap s key = do
    found ← api.search s.table key
    elim found [
      | none ↦ ok (s, true)
      | some numcopies ↦
          if numcopies == 1
          then removed s (api.remove s.table key)
          else ok (
            record s {
              table = api.update s.table key (dec32 numcopies);
              total_items = dec32 s.total_items;
            },
            false,
          )
    ]
