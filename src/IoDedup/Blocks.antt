-- ===== src/IoDedup/Blocks.antt =====
-- The list of the blocks that share a content: `del_d2p_from_d2pmaps` takes one occurrence away.
use sim_replay.Prelude.{
  ℕ, zero, suc, ◌+◌, ◌<◌, ◌≡◌, ◌≢◌, none, some, false, List, [], ◌∷◌, ◌++◌, arith, refl, length,
  ◌==◌, if◌then◌else◌, Option-cases, inl, inr, ==_iff,
}
use sim_replay.ContentDedup.Bag.{count, erase, count-erase}
use sim_replay.IoDedup.D2pv.{get_nondeduped_d2p, remove_d2p_tuple_from_map, del_d2p_from_d2pmaps}

-- How often the block is on the list.
abbrev pub tuples : ℕ → List ℕ → ℕ
tuples b l = count ◌==◌ b l

pub get_nondeduped_d2p-none : (l : List ℕ) (b : ℕ) → get_nondeduped_d2p l b ≡ none → tuples b l ≡ 0
unfolding get_nondeduped_d2p count
get_nondeduped_d2p-none [] b h = refl
get_nondeduped_d2p-none (x ∷ l) b h = elim (Option-cases (get_nondeduped_d2p l b)) [
  | inl e ↦ ground (arith, get_nondeduped_d2p-none l b e)
  | inr (i, e) ↦ ground arith
]

pub get_nondeduped_d2p-some :
    (l : List ℕ) (b i : ℕ)
    → get_nondeduped_d2p l b ≡ some i
    → (tuples b l ≢ 0) × (remove_d2p_tuple_from_map i l ≡ erase ◌==◌ b l)
unfolding get_nondeduped_d2p count erase remove_d2p_tuple_from_map
get_nondeduped_d2p-some [] b i h = absurd (ground arith)
get_nondeduped_d2p-some (x ∷ l) b zero h = elim (Option-cases (get_nondeduped_d2p l b)) [
  | inl e ↦ ground arith
  | inr (j, e) ↦ ground arith
]
get_nondeduped_d2p-some (x ∷ l) b (suc i) h = elim (Option-cases (get_nondeduped_d2p l b)) [
  | inl e ↦ absurd (ground arith)
  | inr (j, e) ↦ ground (arith, get_nondeduped_d2p-some l b j e)
]

pub del_d2p_from_d2pmaps_lem :
    (l : List ℕ) (b : ℕ) → tuples b l ≢ 0 → del_d2p_from_d2pmaps l b ≡ (erase ◌==◌ b l, false)
unfolding del_d2p_from_d2pmaps
del_d2p_from_d2pmaps_lem l b h = elim (Option-cases (get_nondeduped_d2p l b)) [
  | inl e ↦ absurd (h (get_nondeduped_d2p-none l b e))
  | inr (i, e) ↦ ground (arith, get_nondeduped_d2p-some l b i e)
]

pub tuples-erase :
    (l : List ℕ) (b j : ℕ)
    → tuples b l ≢ 0
    → tuples j l ≡ tuples j (erase ◌==◌ b l) + (if j == b then 1 else 0)
tuples-erase l b j h = ground (arith, count-erase ◌==◌ ==_iff b j l h)

pub tuples-append : (j : ℕ) (l m : List ℕ) → tuples j (l ++ m) ≡ tuples j l + tuples j m
unfolding count
tuples-append j [] m = omega arith
tuples-append j (x ∷ l) m = ground (arith, tuples-append j l m)

-- A list of at most one block that has the block has no other.
pub tuples_only : (l : List ℕ) (b j : ℕ) → length l < 2 → tuples b l ≢ 0 → j ≢ b → tuples j l ≡ 0
unfolding count
tuples_only [] b j h h' ne = refl
tuples_only (x ∷ []) b j h h' ne = ground arith
tuples_only (x ∷ y ∷ l) b j h h' ne = absurd (omega arith)
