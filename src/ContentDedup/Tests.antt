-- ===== src/ContentDedup/Tests.antt =====
-- contentdedup/contentdedup-API.c over the table of utils/uhashtab.c, at a concrete state.
use sim_replay.Prelude.{ℕ, ◌≡◌, List, [], ◌∷◌, arith, refl, ok, true, false}
use sim_replay.Hashtab.Defs.{Hashtab, nodes}
use sim_replay.Hashtab.Order.{assoc}
use sim_replay.Hashtab.Table.{IsValid, lookup}
use sim_replay.Hashtab.Api.{TableApi, hashtab_api}
use sim_replay.Hashtab.Tests.{number_cmp, number_cmp-IsKeyCmp, remainder}
use sim_replay.ContentDedup.Defs.{Dedup, cache_insert_trap, cache_delete_trap}
use sim_replay.ContentDedup.Bag.{count, erase, distinct}
use sim_replay.ContentDedup.Tracks.{Tracks, cache_insert_trap-Tracks, cache_delete_trap-Tracks}

abbrev api : TableApi ℕ ℕ
api = hashtab_api ℕ number_cmp remainder number_cmp-IsKeyCmp

-- Content 8 is held twice, and content 5 once.
abbrev counts : Hashtab ℕ ℕ
counts = record { htable = ((8, 2) ∷ []) ∷ ((5, 1) ∷ []) ∷ [] ∷ [] ∷ []; size = 4; nel = 2 }

counts-IsValid : IsValid number_cmp remainder counts
unfolding nodes
counts-IsValid = record {
  in_range = λ k. omega arith;
  sized = refl;
  slots = ((tt, tt), (refl, tt), ((tt, tt), (refl, tt), (tt, tt, (tt, tt, tt))));
  counted = refl;
  bounded = omega arith;
}

program : Unit {0}
unfolding hashtab_api
program = tt

abbrev live : List ℕ
live = 8 ∷ 5 ∷ 8 ∷ []

abbrev state : Dedup (api.Table)
unfolding hashtab_api
state = record { table = counts; uniq_items = 2; total_items = 3 }

state-Tracks : Tracks api state live
unfolding hashtab_api count distinct lookup assoc nodes
state-Tracks = record {
  good = counts-IsValid;
  entries = refl;
  uniq = refl;
  total = refl;
  small = omega arith;
  stored = λ k. ground arith;
}

cache_insert_trap-Tracks_example :
    (s' : Dedup api.Table) × (cache_insert_trap api state 6 true true ≡ ok (s', false))
    × Tracks api s' (6 ∷ live)
cache_insert_trap-Tracks_example =
    cache_insert_trap-Tracks api state live 6 state-Tracks (omega arith)

cache_delete_trap-Tracks_example :
    (s' : Dedup api.Table) × (cache_delete_trap api state 8 ≡ ok (s', false))
    × Tracks api s' (erase api.same_key 8 live)
unfolding hashtab_api count
cache_delete_trap-Tracks_example =
    cache_delete_trap-Tracks api state live 8 state-Tracks (λ e. ground arith)
