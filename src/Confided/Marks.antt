-- ===== src/Confided/Marks.antt =====
-- One block of each list of confided/fserveio.c is marked, through marking, unmarking and deletion.
use sim_replay.Prelude.{
  ℕ, zero, suc, ◌+◌, ◌<◌, ◌≤◌, ◌≡◌, ◌≢◌, Option, none, some, Bool, true, false, List, [], ◌∷◌, ◌++◌,
  arith, refl, ok, ◌==◌, ◌&&◌, if◌then◌else◌, length, get_elem?, Option-cases, Bool-cases, inl, inr,
}
use sim_replay.Confided.Leaders.{
  F2v, vblk_id_match, get_nondeduped_f2v, unmark_old_dedupfetch_f, mark_from,
  mark_another_dedupfetch_f, remove_f2v_tuple_from_map, del_f2v_from_f2vmaps, Deleted, deduped_from,
  get_deduped_f2v,
}

-- How many blocks of the list are marked.
unfoldable pub leaders : List F2v → ℕ
leaders [] = 0
leaders (f ∷ l) = (if f.dedupfetch then 1 else 0) + leaders l

-- How often the block is on the list.
unfoldable pub tuples : ℕ → ℕ → List F2v → ℕ
tuples v b [] = 0
tuples v b (f ∷ l) = (if vblk_id_match f.vol_id f.block_id v b then 1 else 0) + tuples v b l

get_nondeduped_f2v-none :
    (l : List F2v) (v b : ℕ) → get_nondeduped_f2v l v b ≡ none → tuples v b l ≡ 0
unfolding get_nondeduped_f2v tuples
get_nondeduped_f2v-none [] v b h = refl
get_nondeduped_f2v-none (x ∷ l) v b h = elim (Option-cases (get_nondeduped_f2v l v b)) [
  | inl e ↦ ground (arith, get_nondeduped_f2v-none l v b e)
  | inr ((i, f), e) ↦ ground arith
]

get_nondeduped_f2v-some :
    (l : List F2v) (v b i : ℕ) (f : F2v)
    → get_nondeduped_f2v l v b ≡ some (i, f)
    → (get_elem? l i ≡ some f) × (vblk_id_match f.vol_id f.block_id v b ≡ true)
unfolding get_nondeduped_f2v
get_nondeduped_f2v-some [] v b i f h = absurd (ground arith)
get_nondeduped_f2v-some (x ∷ l) v b zero f h = elim (Option-cases (get_nondeduped_f2v l v b)) [
  | inl e ↦ ground arith
  | inr ((j, g), e) ↦ ground arith
]
get_nondeduped_f2v-some (x ∷ l) v b (suc i) f h = elim (Option-cases (get_nondeduped_f2v l v b)) [
  | inl e ↦ absurd (ground arith)
  | inr ((j, g), e) ↦ ground (arith, get_nondeduped_f2v-some l v b j g e)
]

remove_lem :
    (l : List F2v) (i : ℕ) (f : F2v)
    → get_elem? l i ≡ some f
    → (leaders (remove_f2v_tuple_from_map i l) + (if f.dedupfetch then 1 else 0) ≡ leaders l)
      × (length (remove_f2v_tuple_from_map i l) + 1 ≡ length l)
unfolding leaders remove_f2v_tuple_from_map
remove_lem [] i f h = absurd (ground arith)
remove_lem (x ∷ l) zero f h = ground arith
remove_lem (x ∷ l) (suc i) f h = ground (arith, remove_lem l i f h)

tuples-remove :
    (l : List F2v) (i : ℕ) (f : F2v) (v b : ℕ)
    → get_elem? l i ≡ some f
    → tuples v b (remove_f2v_tuple_from_map i l)
        + (if vblk_id_match f.vol_id f.block_id v b then 1 else 0)
      ≡ tuples v b l
unfolding tuples remove_f2v_tuple_from_map
tuples-remove [] i f v b h = absurd (ground arith)
tuples-remove (x ∷ l) zero f v b h = ground arith
tuples-remove (x ∷ l) (suc i) f v b h = ground (arith, tuples-remove l i f v b h)

-- A list with one mark is left with none, and has the same blocks.
pub unmark_old_dedupfetch_f_lem :
    (vol : ℕ) (l : List F2v)
    → leaders l ≡ 1
    → (l' : List F2v) × (unmark_old_dedupfetch_f false vol l ≡ ok l')
      × (leaders l' ≡ 0)
      × (length l' ≡ length l)
      × ((v b : ℕ) → tuples v b l' ≡ tuples v b l)
unfolding unmark_old_dedupfetch_f leaders tuples
unmark_old_dedupfetch_f_lem vol [] h = absurd (ground arith)
unmark_old_dedupfetch_f_lem vol (f ∷ l) h = elim (Bool-cases f.dedupfetch) [
  | inl y ↦ (
    record f { dedupfetch = false } ∷ l,
    ground arith,
    ground arith,
    ground arith,
    λ v b. ground arith,
  )
  | inr n ↦
      let (l', done, none_left, len, same) = unmark_old_dedupfetch_f_lem vol l (ground arith) in
      (
        f ∷ l',
        ground (arith, done),
        ground (arith, none_left),
        ground (arith, len),
        λ v b. ground (arith, same v b),
      )
]

-- Where a block is not marked, one more is, which was not: the others stay.
record Marked (l l' : List F2v) : Type 0 where
  more : leaders l' ≡ leaders l + 1
  same_length : length l' ≡ length l
  same_blocks : (v b : ℕ) → tuples v b l' ≡ tuples v b l
  keeps : (i : ℕ) (f : F2v) → get_elem? l i ≡ some f → f.dedupfetch ≡ true → get_elem? l' i ≡ some f

keeps_head :
    (x x' : F2v) (l l' : List F2v)
    → (x.dedupfetch ≡ true → x' ≡ x)
    → ((i : ℕ) (f : F2v) → get_elem? l i ≡ some f → f.dedupfetch ≡ true → get_elem? l' i ≡ some f)
    → (i : ℕ) (f : F2v) → get_elem? (x ∷ l) i ≡ some f
    → f.dedupfetch ≡ true
    → get_elem? (x' ∷ l') i ≡ some f
keeps_head x x' l l' head tail zero f h y = ground (arith, head)
keeps_head x x' l l' head tail (suc i) f h y = tail i f h y

mark_from_lem :
    (vol : ℕ) (l : List F2v)
    → leaders l < length l
    → (l' : List F2v) × (o : ℕ × ℕ) × (mark_from false vol l ≡ ok (l', some o)) × Marked l l'
unfolding mark_from leaders tuples
mark_from_lem vol [] h = absurd (omega arith)
mark_from_lem vol (f ∷ l) h = elim (Bool-cases f.dedupfetch) [
  | inr n ↦
      let f' : F2v = record f { dedupfetch = true } in
      (
        f' ∷ l,
        (f.vol_id, f.block_id),
        ground arith,
        record {
          more = ground arith;
          same_length = refl;
          same_blocks = λ v b. refl;
          keeps = keeps_head f f' l l (λ y. ground arith) (λ i g e y. e);
        },
      )
  | inl y ↦
      let (l', o, done, marked) = mark_from_lem vol l (ground arith) in
      (
        f ∷ l',
        o,
        ground (arith, done),
        record {
          more = ground (arith, marked.more);
          same_length = ground (arith, marked.same_length);
          same_blocks = λ v b. ground (arith, marked.same_blocks v b);
          keeps = keeps_head f f l l' (λ e. refl) marked.keeps;
        },
      )
]

-- What a deletion leaves of the list: the block is gone once, and one block is marked.
pub record IsDeleted (v b : ℕ) (l l' : List F2v) : Type 0 where
  pub led : leaders l' ≡ 1
  pub less : length l' + 1 ≡ length l
  pub blocks :
      (v' b' : ℕ) → tuples v' b' l' + (if vblk_id_match v b v' b' then 1 else 0) ≡ tuples v' b' l

match_of :
    (f : F2v) (v b v' b' : ℕ)
    → vblk_id_match f.vol_id f.block_id v b ≡ true
    → vblk_id_match f.vol_id f.block_id v' b' ≡ vblk_id_match v b v' b'
unfolding vblk_id_match
match_of f v b v' b' h = ground arith

removed-IsDeleted :
    (l l' : List F2v) (v b i : ℕ) (f : F2v)
    → get_elem? l' i ≡ some f
    → vblk_id_match f.vol_id f.block_id v b ≡ true
    → leaders l' ≡ 1 + (if f.dedupfetch then 1 else 0)
    → length l' ≡ length l
    → ((v b : ℕ) → tuples v b l' ≡ tuples v b l)
    → IsDeleted v b l (remove_f2v_tuple_from_map i l')
removed-IsDeleted l l' v b i f at same led len blocks = record {
  led = ground (arith, (remove_lem l' i f at).0);
  less = omega (arith, (remove_lem l' i f at).1, len);
  blocks = λ v' b'.
      ground (arith, tuples-remove l' i f v' b' at, match_of f v b v' b' same, blocks v' b');
}

-- In a list of two blocks or more with one mark, that has the block, `del_f2v_from_f2vmaps` deletes the block
-- and leaves one mark, on another block if the deleted one had it.
pub del_f2v_from_f2vmaps-IsDeleted :
    (l : List F2v) (v b : ℕ)
    → leaders l ≡ 1
    → 1 < length l
    → tuples v b l ≢ 0
    → (r : Deleted) × (del_f2v_from_f2vmaps false l v b ≡ ok r)
      × (r.failed ≡ false)
      × IsDeleted v b l r.f2vmaps
unfolding del_f2v_from_f2vmaps mark_another_dedupfetch_f
del_f2v_from_f2vmaps-IsDeleted l v b led more on = elim (Option-cases (get_nondeduped_f2v l v b)) [
  | inl e ↦ absurd (on (get_nondeduped_f2v-none l v b e))
  | inr ((i, f), e) ↦
      let (at, same) = get_nondeduped_f2v-some l v b i f e in
      elim (Bool-cases f.dedupfetch) [
        | inl y ↦
            let (l', o, done, m) = mark_from_lem v l (omega (arith, led)) in
            (
              record { f2vmaps = remove_f2v_tuple_from_map i l'; leader = some o; failed = false },
              ground (arith, e, done),
              refl,
              removed-IsDeleted l l' v b i f (m.keeps i f at y) same (ground (arith, m.more, led))
                  m.same_length m.same_blocks,
            )
        | inr n ↦ (
          record { f2vmaps = remove_f2v_tuple_from_map i l; leader = none; failed = false },
          ground (arith, e),
          refl,
          removed-IsDeleted l l v b i f at same (ground (arith, led)) refl (λ v b. refl),
        )
      ]
]

deduped_from_lem :
    (vol : ℕ) (l : List F2v) (last : Option F2v)
    → leaders l ≡ 1
    → (f : F2v) × (deduped_from false vol l last ≡ ok (some f))
      × (f.dedupfetch ≡ true)
      × (tuples f.vol_id f.block_id l ≢ 0)
unfolding deduped_from leaders tuples vblk_id_match
deduped_from_lem vol [] last h = absurd (ground arith)
deduped_from_lem vol (x ∷ l) last h = elim (Bool-cases x.dedupfetch) [
  | inl y ↦ (x, ground arith, y, λ e. ground arith)
  | inr n ↦
      let (f, done, y, on) = deduped_from_lem vol l (some x) (ground arith) in
      (f, ground (arith, done), y, λ e. on (ground arith))
]

-- Of a list with one mark, `get_deduped_f2v` finds the marked block, which is on the list.
pub get_deduped_f2v_lem :
    (vol : ℕ) (l : List F2v)
    → leaders l ≡ 1
    → (f : F2v) × (get_deduped_f2v false vol l ≡ ok (some f))
      × (f.dedupfetch ≡ true)
      × (tuples f.vol_id f.block_id l ≢ 0)
unfolding get_deduped_f2v
get_deduped_f2v_lem vol l h = deduped_from_lem vol l none h

first_mark :
    (intraonlyflag : Bool) (vol : ℕ) (before : List F2v) (f : F2v) (after : List F2v)
    (last : Option F2v)
    → leaders before ≡ 0
    → f.dedupfetch ≡ true
    → deduped_from intraonlyflag vol (before ++ f ∷ after) last ≡ ok (some f)
unfolding deduped_from leaders
first_mark intra vol [] f after last h y = ground arith
first_mark intra vol (x ∷ l) f after last h y =
    ground (arith, first_mark intra vol l f after (some x))

-- The first mark of a list is found, whichever the volume: with `intraonlyflag` too, a marked block of another
-- volume hides the one of the volume itself behind it.
pub get_deduped_f2v_first :
    (intraonlyflag : Bool) (vol : ℕ) (before : List F2v) (f : F2v) (after : List F2v)
    → leaders before ≡ 0
    → f.dedupfetch ≡ true
    → get_deduped_f2v intraonlyflag vol (before ++ f ∷ after) ≡ ok (some f)
unfolding get_deduped_f2v
get_deduped_f2v_first intraonlyflag vol before f after h y =
    first_mark intraonlyflag vol before f after none h y

pub tuples-get_nondeduped_f2v :
    (l : List F2v) (v b i : ℕ) (f : F2v) → get_nondeduped_f2v l v b ≡ some (i, f) → tuples v b l ≢ 0
tuples-get_nondeduped_f2v l v b i f h z =
    let (at, same) = get_nondeduped_f2v-some l v b i f h in
    absurd (ground (arith, tuples-remove l i f v b at, same))

-- The deletion of the only block leaves the empty list, and marks none.
pub del_f2v_from_f2vmaps_only :
    (l : List F2v) (v b : ℕ)
    → leaders l ≡ 1
    → length l ≡ 1
    → tuples v b l ≢ 0
    → del_f2v_from_f2vmaps false l v b ≡ ok (record { f2vmaps = []; leader = none; failed = false })
unfolding del_f2v_from_f2vmaps get_nondeduped_f2v mark_another_dedupfetch_f leaders tuples
    remove_f2v_tuple_from_map
del_f2v_from_f2vmaps_only [] v b led one on = absurd (omega arith)
del_f2v_from_f2vmaps_only (x ∷ []) v b led one on = ground arith
del_f2v_from_f2vmaps_only (x ∷ y ∷ l) v b led one on = absurd (omega arith)

pub leaders-le-length : (l : List F2v) → leaders l ≤ length l
unfolding leaders
leaders-le-length [] = omega arith
leaders-le-length (x ∷ l) = ground (arith, leaders-le-length l)

-- A list of one block that has the block has no other.
pub tuples_only :
    (l : List F2v) (v b v' b' : ℕ)
    → length l ≡ 1
    → tuples v b l ≢ 0
    → tuples v' b' l ≡ (if v' == v && b' == b then 1 else 0)
unfolding tuples vblk_id_match
tuples_only [] v b v' b' one on = absurd (omega arith)
tuples_only (x ∷ []) v b v' b' one on = ground arith
tuples_only (x ∷ y ∷ l) v b v' b' one on = absurd (omega arith)
