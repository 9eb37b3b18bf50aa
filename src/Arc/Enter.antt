-- ===== src/Arc/Enter.antt =====
-- `__arc_move` into a resident list in ARC-cache/arc.c: it returns with the object at the head of the list.
use sim_replay.Prelude.{
  ℕ, ◌+◌, ◌≤◌, ◌<◌, ◌≡◌, ◌↔◌, Option, none, some, Bool, true, false, arith, refl, ok, List, ◌∷◌, [],
  if◌then◌else◌,
}
use sim_replay.Arc.Defs.{Obj, Arc, in_mru, in_mfu, push, fetch, find_obj, place_of}
use sim_replay.Arc.Moves.{move_in}
use sim_replay.Arc.Lists.{occ, has_content, named_self}
use sim_replay.Arc.Inv.{Core, IsValid}
use sim_replay.Arc.Pull.{is_resident, state_at}
use sim_replay.Arc.Fit.{Roomy, balance-Balanced}
use sim_replay.Arc.Hand.{put_back}

-- The resident object of a name: what the cache holds, whatever the order of its lists.
unfoldable pub cached : {K C : Type 0} → (K → K → Bool) → Arc K C → K → ℕ → Option (Obj K C)
unfolding place_of
cached same_key cache key len = elim (place_of same_key cache key len) [
  | none ↦ none
  | some (place, o) ↦ if is_resident place then some o else none
]

module _ {K C : Type 0} (same_key : K → K → Bool) where
  find_obj_of_occ :
      (key : K) (len : ℕ) (xs : List (Obj K C))
      → occ same_key key len xs ≡ 0
      → find_obj same_key key len xs ≡ none
  unfolding occ find_obj
  find_obj_of_occ key len [] h = refl
  find_obj_of_occ key len (o ∷ rest) h = ground (arith, find_obj_of_occ key len rest)

module _ {K C : Type 0} (same_key : K → K → Bool) (ops_hash : K → ℕ)
    (same_key_iff : (a b : K) → (same_key a b ≡ true) ↔ (a ≡ b)) where
  -- An object at the head of a resident list is what the cache holds under its name.
  pub cached_at_head :
      {m : ℕ} {cache : Arc K C} (frequent : Bool) (o : Obj K C) (rest : List (Obj K C))
      → Core same_key ops_hash m none cache
      → (state_at (if frequent then in_mfu else in_mru) cache).objs ≡ o ∷ rest
      → cached same_key cache o.dhashkey o.osize ≡ some o
  unfolding cached place_of find_obj occ
  cached_at_head {cache = cache} true o rest v e =
      let s = named_self same_key same_key_iff o.dhashkey o.osize in
      let z : occ same_key o.dhashkey o.osize cache.mru.objs ≡ 0 =
        ground (arith, v.once o.dhashkey o.osize, s, e) in
      ground (arith, s, e, find_obj_of_occ same_key o.dhashkey o.osize cache.mru.objs z)
  cached_at_head {cache = cache} false o rest v e =
      let s = named_self same_key same_key_iff o.dhashkey o.osize in rw (e) ground (arith, s)

  -- What `__arc_move` into a resident list leaves.
  pub record Entered (m : ℕ) (frequent : Bool) (loaded : Obj K C) (cache next : Arc K C)
      : Type 0 where
    pub valid : IsValid same_key ops_hash m next
    pub same_c : next.c ≡ cache.c
    pub same_p : next.p ≡ cache.p
    pub rest : List (Obj K C)
    pub at_head : (state_at (if frequent then in_mfu else in_mru) next).objs ≡ loaded ∷ rest
    pub within : next.p + loaded.osize ≤ next.c → next.mru.size + next.mfu.size ≤ next.c

  entered :
      {m : ℕ} {cache room : Arc K C} (frequent : Bool) (loaded : Obj K C)
      → Roomy same_key ops_hash same_key_iff m
          (some (loaded.dhashkey, loaded.osize))
          loaded.osize
          cache
          room
      → room.mrug.size + room.mfug.size ≤ cache.c
      → 0 < loaded.osize
      → loaded.osize ≤ m
      → cache.mru.size + cache.mfu.size ≤ cache.c + m
      → has_content loaded.content ≡ true
      → Entered m frequent loaded cache (
          if frequent
          then record room { mfu = push loaded room.mfu }
          else record room { mru = push loaded room.mru })
  unfolding push
  entered {m} {cache} {room} true loaded r g pos le fit has = record {
    valid =
        put_back same_key ops_hash same_key_iff true loaded r.core pos le has
          (omega (arith, r.room_or_stuck, r.same_c, r.same_p, r.core.p_le))
          (omega (arith, g, r.same_c));
    same_c = r.same_c;
    same_p = r.same_p;
    rest = room.mfu.objs;
    at_head = refl;
    within =
        λ h. omega (arith, r.room_or_stuck, r.same_c, r.same_p, r.core.room, r.core.m_small, h);
  }
  entered {m} {cache} {room} false loaded r g pos le fit has = record {
    valid =
        put_back same_key ops_hash same_key_iff false loaded r.core pos le has
          (omega (arith, r.room_or_stuck, r.same_c, r.same_p, r.core.p_le))
          (omega (arith, g, r.same_c));
    same_c = r.same_c;
    same_p = r.same_p;
    rest = room.mru.objs;
    at_head = refl;
    within =
        λ h. omega (arith, r.room_or_stuck, r.same_c, r.same_p, r.core.room, r.core.m_small, h);
  }

  pub move_in-Entered :
      {m : ℕ} {cache : Arc K C} (frequent : Bool) (o loaded : Obj K C) (content : Option C)
      (ioblk : ℕ)
      → Core same_key ops_hash m (some (loaded.dhashkey, loaded.osize)) cache
      → 0 < loaded.osize
      → loaded.osize ≤ m
      → cache.mru.size + cache.mfu.size ≤ cache.c + m
      → fetch o content ioblk ≡ ok loaded
      → loaded.osize ≡ o.osize
      → has_content loaded.content ≡ true
      → (next : Arc K C) × (move_in same_key ops_hash frequent o content ioblk cache ≡ ok next)
        × Entered m frequent loaded cache next
  unfolding move_in
  move_in-Entered {m} {cache} frequent o loaded content ioblk v pos le fit fetched same_size has =
      let (room, done, r, g) =
        balance-Balanced same_key ops_hash same_key_iff loaded.osize v (omega (arith, v.m_small)) in
      (_, ground (arith, done, fetched, same_size), entered frequent loaded r g pos le fit has)
