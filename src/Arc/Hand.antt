-- ===== src/Arc/Hand.antt =====
-- `__arc_move` in ARC-cache/arc.c: an object is taken out of its list, is in hand while room is made, and
-- is prepended to a resident list.
use sim_replay.Prelude.{
  ℕ, ◌+◌, ◌≤◌, ◌<◌, ◌≡◌, ◌↔◌, Option, none, some, Bool, true, false, arith, refl, if◌then◌else◌,
  ◌^◌,
}
use sim_replay.Arc.Defs.{
  Obj, Arc, ArcState, is_named, Place, in_mrug, in_mru, in_mfu, in_mfug, pull, pull_from, push,
}
use sim_replay.Arc.Lists.{occ, one, has_content, occ-unlink}
use sim_replay.Arc.Inv.{Core, StateOk, IsValid, held, occ_all, push-StateOk, occ-push}
use sim_replay.Arc.Pull.{Found, is_resident, pull-StateOk}

module _ {K C : Type 0} (same_key : K → K → Bool) (ops_hash : K → ℕ)
    (same_key_iff : (a b : K) → (same_key a b ≡ true) ↔ (a ≡ b)) where
  -- The object of the name is in hand, and its size is taken from the list that it was in.
  pub record Pulled (m : ℕ) (key : K) (len : ℕ) (place : Place) (cache next : Arc K C)
      : Type 0 where
    pub core : Core same_key ops_hash m (some (key, len)) next
    pub same_c : next.c ≡ cache.c
    pub same_p : next.p ≡ cache.p
    pub resident_part :
        next.mru.size + next.mfu.size + (if is_resident place then len else 0)
        ≡ cache.mru.size + cache.mfu.size
    pub ghost_part :
        next.mrug.size + next.mfug.size + (if is_resident place then 0 else len)
        ≡ cache.mrug.size + cache.mfug.size

  -- The four lists are replaced: the objects in the lists and in hand stay the same in number.
  relist-Core :
      {m : ℕ} {cache : Arc K C} (hand hand' : Option (K × ℕ)) (mru mfu mrug mfug : ArcState K C)
      → Core same_key ops_hash m hand cache
      → StateOk same_key m true mru
      → StateOk same_key m true mfu
      → StateOk same_key m false mrug
      → StateOk same_key m false mfug
      → mru.size + mfu.size + (mrug.size + mfug.size) < 2 ^ 40
      → ((k : K) (n : ℕ)
          → occ same_key k n mru.objs
              + occ same_key k n mfu.objs
              + (occ same_key k n mrug.objs + occ same_key k n mfug.objs)
              + held same_key k n hand'
            ≡ occ_all same_key k n cache + held same_key k n hand)
      → Core same_key ops_hash m hand'
          (record cache { mru = mru; mfu = mfu; mrug = mrug; mfug = mfug })
  relist-Core hand hand' mru mfu mrug mfug v mru_ok mfu_ok mrug_ok mfug_ok room same = record {
    mru_ok = mru_ok;
    mfu_ok = mfu_ok;
    mrug_ok = mrug_ok;
    mfug_ok = mfug_ok;
    c_small = v.c_small;
    m_small = v.m_small;
    p_le = v.p_le;
    room = room;
    directory = λ k n. omega (arith, v.directory k n, same k n);
    once = λ k n. omega (arith, v.once k n, same k n);
  }

  -- What is said of a list that the object of the name is taken from.
  taken_lem :
      {m : ℕ} {b : Bool} (key : K) (len : ℕ) (s : ArcState K C)
      → StateOk same_key m b s
      → s.size < 2 ^ 40
      → 0 < occ same_key key len s.objs
      → StateOk same_key m b (pull same_key key len s)
        × ((pull same_key key len s).size + len ≡ s.size)
        × ((k : K) (n : ℕ)
            → occ same_key k n (pull same_key key len s).objs
                + one (is_named same_key k n (key, len))
              ≡ occ same_key k n s.objs)
  unfolding pull
  taken_lem key len s ok_s small there =
      let (w, e) = pull-StateOk same_key ops_hash same_key_iff key len s ok_s small there in
      (w, e, λ k n. occ-unlink same_key same_key_iff key k len n s.objs there)

  pub pull_from-Pulled :
      {m : ℕ} {cache : Arc K C} {key : K} {len : ℕ} (place : Place) {o : Obj K C}
      → Core same_key ops_hash m none cache
      → Found same_key ops_hash same_key_iff m key len cache place o
      → Pulled m key len place cache (pull_from same_key place key len cache)
  unfolding pull_from
  pull_from-Pulled {m} {cache} {key} {len} in_mru v f =
      let (w, e, u) = taken_lem key len cache.mru v.mru_ok (omega (arith, v.room)) f.stored in
      record {
        core =
            relist-Core none (some (key, len)) (pull same_key key len cache.mru) cache.mfu
              cache.mrug cache.mfug v w v.mfu_ok v.mrug_ok v.mfug_ok (omega (arith, v.room, e))
              (λ k n. omega (arith, u k n));
        same_c = refl;
        same_p = refl;
        resident_part = omega (arith, e);
        ghost_part = omega (arith, e);
      }
  pull_from-Pulled {m} {cache} {key} {len} in_mfu v f =
      let (w, e, u) = taken_lem key len cache.mfu v.mfu_ok (omega (arith, v.room)) f.stored in
      record {
        core =
            relist-Core none (some (key, len)) cache.mru (pull same_key key len cache.mfu)
              cache.mrug cache.mfug v v.mru_ok w v.mrug_ok v.mfug_ok (omega (arith, v.room, e))
              (λ k n. omega (arith, u k n));
        same_c = refl;
        same_p = refl;
        resident_part = omega (arith, e);
        ghost_part = omega (arith, e);
      }
  pull_from-Pulled {m} {cache} {key} {len} in_mrug v f =
      let (w, e, u) = taken_lem key len cache.mrug v.mrug_ok (omega (arith, v.room)) f.stored in
      record {
        core =
            relist-Core none (some (key, len)) cache.mru cache.mfu
              (pull same_key key len cache.mrug) cache.mfug v v.mru_ok v.mfu_ok w v.mfug_ok
              (omega (arith, v.room, e)) (λ k n. omega (arith, u k n));
        same_c = refl;
        same_p = refl;
        resident_part = omega (arith, e);
        ghost_part = omega (arith, e);
      }
  pull_from-Pulled {m} {cache} {key} {len} in_mfug v f =
      let (w, e, u) = taken_lem key len cache.mfug v.mfug_ok (omega (arith, v.room)) f.stored in
      record {
        core =
            relist-Core none (some (key, len)) cache.mru cache.mfu cache.mrug
              (pull same_key key len cache.mfug) v v.mru_ok v.mfu_ok v.mrug_ok w
              (omega (arith, v.room, e)) (λ k n. omega (arith, u k n));
        same_c = refl;
        same_p = refl;
        resident_part = omega (arith, e);
        ghost_part = omega (arith, e);
      }

  -- An object in hand goes to the head of the MRU or (`true`) the MFU list.
  pub put_back :
      {m : ℕ} {cache : Arc K C} (frequent : Bool) (o : Obj K C)
      → Core same_key ops_hash m (some (o.dhashkey, o.osize)) cache
      → 0 < o.osize
      → o.osize ≤ m
      → has_content o.content ≡ true
      → cache.mru.size + cache.mfu.size + o.osize ≤ cache.c + m
      → cache.mrug.size + cache.mfug.size ≤ cache.c
      → IsValid same_key ops_hash m (
          if frequent
          then record cache { mfu = push o cache.mfu }
          else record cache { mru = push o cache.mru })
  put_back {m} {cache} true o v pos le has fit gfit =
      let (w, e) =
        push-StateOk same_key m true o cache.mfu v.mfu_ok (omega (arith, v.room)) pos le v.m_small
          has in
      record {
        core =
            relist-Core (some (o.dhashkey, o.osize)) none cache.mru (push o cache.mfu) cache.mrug
              cache.mfug v v.mru_ok w v.mrug_ok v.mfug_ok (omega (arith, e, v.c_small, v.m_small))
              (λ k n. omega (arith, occ-push same_key k n o cache.mfu));
        resident_bound = omega (arith, e);
        ghost_bound = gfit;
      }
  put_back {m} {cache} false o v pos le has fit gfit =
      let (w, e) =
        push-StateOk same_key m true o cache.mru v.mru_ok (omega (arith, v.room)) pos le v.m_small
          has in
      record {
        core =
            relist-Core (some (o.dhashkey, o.osize)) none (push o cache.mru) cache.mfu cache.mrug
              cache.mfug v w v.mfu_ok v.mrug_ok v.mfug_ok (omega (arith, e, v.c_small, v.m_small))
              (λ k n. omega (arith, occ-push same_key k n o cache.mru));
        resident_bound = omega (arith, e);
        ghost_bound = gfit;
      }
