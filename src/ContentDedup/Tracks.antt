-- ===== src/ContentDedup/Tracks.antt =====
-- The reference counts of contentdedup/contentdedup-API.c against the bag of contents that the caches
-- hold: what `cache_insert_trap` and `cache_delete_trap` do to it, on every path.
use sim_replay.Prelude.{
  ℕ, ◌+◌, ◌<◌, ◌≡◌, ◌≢◌, List, ◌∷◌, Option, none, some, true, false, ok, arith, refl, length, ◌==◌,
  if◌then◌else◌, inc32, dec32, ◌∙◌, Option-cases, Bool-cases, inl, inr,
}
use sim_replay.Hashtab.Defs.{max_nodes}
use sim_replay.Hashtab.Api.{TableApi}
use sim_replay.ContentDedup.Defs.{counted, Dedup, cache_insert_trap, cache_delete_trap}
use sim_replay.ContentDedup.Bag.{
  count, erase, distinct, count-le-length, distinct-le-length, length-erase, count-erase,
  distinct-erase,
}

module _ {K : Type 0} (api : TableApi K ℕ) where
  abbrev pub copies : K → List K → Option ℕ
  copies k live = if count api.same_key k live == 0 then none else some (count api.same_key k live)

  -- The counters and the table agree with the bag, and the bag is small enough that no __u32 wraps.
  pub record Tracks (s : Dedup api.Table) (live : List K) : Type 0 where
    pub good : api.IsGood s.table
    pub entries : api.nel s.table ≡ s.uniq_items
    pub uniq : s.uniq_items ≡ distinct api.same_key live
    pub total : s.total_items ≡ length live
    pub small : length live < max_nodes
    pub stored : (k : K) → api.lookup s.table k ≡ copies k live

  self : (k : K) → api.same_key k k ≡ true
  self k = (api.same_key_iff k k).1 refl

  -- From a state that tracks a bag of contents, small enough to take one more, `cache_insert_trap` with
  -- memory succeeds, and the state tracks the bag with one more copy of the content.
  pub cache_insert_trap-Tracks :
      (s : Dedup api.Table) (live : List K) (k : K)
      → Tracks s live
      → length live + 1 < max_nodes
      → (s' : Dedup api.Table) × (cache_insert_trap api s k true true ≡ ok (s', false))
        × Tracks s' (k ∷ live)
  unfolding cache_insert_trap count distinct
  cache_insert_trap-Tracks s live k t room = elim (Option-cases (api.lookup s.table k)) [
    | inl absent ↦
        let (t', done, g, m, l) =
          api.insert_new k 1 t.good
            (omega (arith, t.entries, t.uniq, distinct-le-length api.same_key live)) absent in
        (
          record (counted s) { table = t' },
          ground (arith, api.search_lem k t.good),
          record {
            good = g;
            entries = ground (arith, m, t.entries, t.uniq, distinct-le-length api.same_key live);
            uniq = ground (arith, t.uniq, t.stored k, distinct-le-length api.same_key live);
            total = ground (arith, t.total);
            small = omega arith;
            stored = λ j. ground (arith, l j, t.stored j, t.stored k, self k, api.same_key_iff j k);
          },
        )
    | inr (n, there) ↦
        let s' : Dedup api.Table = record s {
          table = api.update s.table k (inc32 n);
          total_items = inc32 s.total_items;
        } in
        let (g, m, l) = api.update_stored k (inc32 n) t.good (ground arith) in
        (
          s',
          ground (arith, api.search_lem k t.good),
          record {
            good = g;
            entries = m ∙ t.entries;
            uniq = ground (arith, t.uniq, t.stored k);
            total = ground (arith, t.total);
            small = omega arith;
            stored = λ j. ground (
              arith,
              l j,
              t.stored j,
              t.stored k,
              self k,
              api.same_key_iff j k,
              count-le-length api.same_key k live,
            );
          },
        )
  ]

  -- From a state that tracks a bag of contents, `cache_delete_trap` of a content of the bag succeeds, and
  -- the state tracks the bag with one copy less.
  pub cache_delete_trap-Tracks :
      (s : Dedup api.Table) (live : List K) (k : K)
      → Tracks s live
      → count api.same_key k live ≢ 0
      → (s' : Dedup api.Table) × (cache_delete_trap api s k ≡ ok (s', false))
        × Tracks s' (erase api.same_key k live)
  unfolding cache_delete_trap
  cache_delete_trap-Tracks s live k t held =
      let n = count api.same_key k live in
      let there : api.lookup s.table k ≡ some n = ground (arith, t.stored k) in
      let lens = length-erase api.same_key k live held in
      let uniqs = distinct-erase api.same_key api.same_key_iff k live held in
      let few = distinct-le-length api.same_key live in
      elim (Bool-cases (n == 1)) [
        | inl last ↦
            let (t', done, g, m, l) =
              api.remove_stored k t.good (omega (arith, t.entries, t.uniq, few)) (ground arith) in
            (
              record {
                table = t';
                uniq_items = dec32 s.uniq_items;
                total_items = dec32 s.total_items;
              },
              ground (arith, api.search_lem k t.good),
              record {
                good = g;
                entries = ground (arith, m, t.entries, t.uniq);
                uniq = ground (arith, t.uniq);
                total = ground (arith, t.total);
                small = omega arith;
                stored = λ j. ground (
                  arith,
                  l j,
                  t.stored j,
                  count-erase api.same_key api.same_key_iff k j live held,
                );
              },
            )
        | inr more ↦
            let (g, m, l) = api.update_stored k (dec32 n) t.good (ground arith) in
            (
              record s {
                table = api.update s.table k (dec32 n);
                total_items = dec32 s.total_items;
              },
              ground (arith, api.search_lem k t.good),
              record {
                good = g;
                entries = m ∙ t.entries;
                uniq = ground (arith, t.uniq);
                total = ground (arith, t.total);
                small = omega arith;
                stored = λ j. ground (
                  arith,
                  l j,
                  t.stored j,
                  count-le-length api.same_key k live,
                  count-erase api.same_key api.same_key_iff k j live held,
                );
              },
            )
      ]

  -- From a state that tracks a bag of contents, `cache_delete_trap` of a content outside the bag returns an
  -- error and changes nothing.
  pub cache_delete_trap_absent :
      (s : Dedup api.Table) (live : List K) (k : K)
      → Tracks s live
      → count api.same_key k live ≡ 0
      → cache_delete_trap api s k ≡ ok (s, true)
  unfolding cache_delete_trap
  cache_delete_trap_absent s live k t gone = ground (arith, api.search_lem k t.good, t.stored k)

  -- From a state that tracks a bag of contents, `cache_insert_trap` of a content outside the bag, with
  -- memory for the item but not for the node, returns an error and leaves the table; but both counters have
  -- counted the item.
  pub cache_insert_trap_no_memory :
      (s : Dedup api.Table) (live : List K) (k : K)
      → Tracks s live
      → count api.same_key k live ≡ 0
      → (s' : Dedup api.Table) × (cache_insert_trap api s k true false ≡ ok (s', true))
        × (s'.uniq_items ≡ api.nel s'.table + 1)
        × (s'.total_items ≡ s.total_items + 1)
        × (s'.table ≡ s.table)
  unfolding cache_insert_trap
  cache_insert_trap_no_memory s live k t gone =
      let few = distinct-le-length api.same_key live in
      let room : api.nel s.table < max_nodes = omega (arith, t.entries, t.uniq, few) in
      let absent : api.lookup s.table k ≡ none = ground (arith, t.stored k) in
      (
        counted s,
        ground (arith, api.search_lem k t.good, api.insert_no_memory k 1 t.good room absent),
        omega (arith, t.entries, t.uniq, few),
        omega (arith, t.total),
        refl,
      )
