-- ===== src/Arc/Inv.antt =====
-- The invariant of the cache of ARC-cache/arc.c, also for the moments at which `__arc_move` has an object
-- in hand that is chained in the hash table but stands in no list.
use sim_replay.Prelude.{
  ℕ, ◌+◌, ◌^◌, ◌≤◌, ◌<◌, ◌≡◌, Option, none, some, Bool, true, false, arith, refl, ok, List, [], ◌∷◌,
  length,
}
use sim_replay.Arc.Defs.{sub64, Obj, ArcState, Arc, is_named, push, pop_lru, split_last, slot_of}
use sim_replay.Arc.Lists.{
  total, Fits, occ, one, times, has_content, total-split_last, Fits-split_last, occ-split_last,
  length-split_last,
}

abbrev pub held : {K : Type 0} → (K → K → Bool) → K → ℕ → Option (K × ℕ) → ℕ
held same_key k n none = 0
held same_key k n (some e) = one (is_named same_key k n e)

module _ {K C : Type 0} (same_key : K → K → Bool) where
  pub record StateOk (m : ℕ) (b : Bool) (s : ArcState K C) : Type 0 where
    pub sized : s.size ≡ total s.objs
    pub fits : Fits m b s.objs

  abbrev pub occ_all : K → ℕ → Arc K C → ℕ
  occ_all k n cache =
      occ same_key k n cache.mru.objs
      + occ same_key k n cache.mfu.objs
      + (occ same_key k n cache.mrug.objs + occ same_key k n cache.mfug.objs)

abbrev pub sum_sizes : {K C : Type 0} → Arc K C → ℕ
sum_sizes cache = cache.mru.size + cache.mfu.size + (cache.mrug.size + cache.mfug.size)

module _ {K C : Type 0} (same_key : K → K → Bool) (ops_hash : K → ℕ) where
  -- `m` bounds the object sizes, and `hand` names the object in hand.
  pub record Core (m : ℕ) (hand : Option (K × ℕ)) (cache : Arc K C) : Type 0 where
    pub mru_ok : StateOk same_key m true cache.mru
    pub mfu_ok : StateOk same_key m true cache.mfu
    pub mrug_ok : StateOk same_key m false cache.mrug
    pub mfug_ok : StateOk same_key m false cache.mfug
    pub c_small : cache.c < 2 ^ 31
    pub m_small : m < 2 ^ 31
    pub p_le : cache.p ≤ cache.c
    pub room : sum_sizes cache < 2 ^ 40
    pub directory :
        (k : K) (n : ℕ)
        → times same_key k n (cache.bucket (slot_of same_key ops_hash cache k))
          ≡ occ_all same_key k n cache + held same_key k n hand
    pub once : (k : K) (n : ℕ) → occ_all same_key k n cache + held same_key k n hand ≤ 1

  -- Between two calls: nothing is in hand, and the sizes are bounded.
  pub record IsValid (m : ℕ) (cache : Arc K C) : Type 0 where
    pub core : Core m none cache
    pub resident_bound : cache.mru.size + cache.mfu.size ≤ cache.c + m
    pub ghost_bound : cache.mrug.size + cache.mfug.size ≤ cache.c

module _ {K C : Type 0} (same_key : K → K → Bool) where
  -- What `__arc_state_lru` and the removal do to a list: `o` is taken out, and nothing else.
  pub record Popped (m : ℕ) (b : Bool) (s s' : ArcState K C) (o : Obj K C) : Type 0 where
    pub done : pop_lru s ≡ ok (o, s')
    pub state_ok : StateOk same_key m b s'
    pub size_sum : s'.size + o.osize ≡ s.size
    pub one_less : length s'.objs + 1 ≡ length s.objs
    pub positive : 0 < o.osize
    pub bounded : o.osize ≤ m
    pub content : has_content o.content ≡ b
    pub occurs :
        (k : K) (n : ℕ)
        → occ same_key k n s'.objs + one (is_named same_key k n (o.dhashkey, o.osize))
          ≡ occ same_key k n s.objs

  pop_lru-Popped :
      (m : ℕ) (b : Bool) (size : ℕ) (x : Obj K C) (rest : List (Obj K C))
      → StateOk same_key m b (record { size = size; objs = x ∷ rest })
      → size < 2 ^ 40
      → let (l, front) = split_last x rest in
        Popped m b
          (record { size = size; objs = x ∷ rest })
          (record { size = sub64 size l.osize; objs = front })
          l
  unfolding pop_lru occ total
  pop_lru-Popped m b size x rest ok_s small =
      let parts = total-split_last x rest in
      let (pos, le, has, fits) = Fits-split_last m b x rest ok_s.fits in
      record {
        done = refl;
        state_ok = record { sized = omega (arith, parts, ok_s.sized); fits = fits };
        size_sum = omega (arith, parts, ok_s.sized);
        one_less = omega (arith, length-split_last x rest);
        positive = pos;
        bounded = le;
        content = has;
        occurs = λ k n. occ-split_last same_key k n x rest;
      }

  -- A list whose size is not 0 has a last object.
  pub pop_lru_lem :
      (m : ℕ) (b : Bool) (s : ArcState K C)
      → StateOk same_key m b s
      → s.size < 2 ^ 40
      → 0 < s.size
      → (o : Obj K C) × (s' : ArcState K C) × Popped m b s s' o
  unfolding total
  pop_lru_lem m b s ok_s small pos = go s.objs ok_s.fits ok_s.sized
    where
      go :
          (xs : List (Obj K C))
          → Fits m b xs
          → s.size ≡ total xs
          → (o : Obj K C) × (s' : ArcState K C) × Popped m b
              (record { size = s.size; objs = xs })
              s'
              o
      go [] f e = absurd (omega arith)
      go (x ∷ rest) f e =
          (_, _, pop_lru-Popped m b s.size x rest (record { sized = e; fits = f }) small)

  pub push-StateOk :
      (m : ℕ) (b : Bool) (o : Obj K C) (s : ArcState K C)
      → StateOk same_key m b s
      → s.size < 2 ^ 40
      → 0 < o.osize
      → o.osize ≤ m
      → m < 2 ^ 31
      → has_content o.content ≡ b
      → StateOk same_key m b (push o s) × ((push o s).size ≡ s.size + o.osize)
  unfolding push total
  push-StateOk m b o s ok_s small pos le lm has = ground (arith, ok_s.sized)

  pub occ-push :
      (k : K) (n : ℕ) (o : Obj K C) (s : ArcState K C)
      → occ same_key k n (push o s).objs
        ≡ one (is_named same_key k n (o.dhashkey, o.osize)) + occ same_key k n s.objs
  unfolding push occ
  occ-push k n o s = refl
