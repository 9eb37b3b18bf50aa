-- ===== src/SimDisk/Key.antt =====
-- The keys of blkID-hashtab/: `construct_key_volid_blkid` of blkidtab-API.c and `blkidcmp` of blkidtab.c. A string is
-- the list of its bytes, without the terminating zero.
use Prim.Native.Nat.{compare, Ordering}
use sim_replay.Prelude.{
  ℕ, zero, suc, ◌+◌, ◌-◌, ◌*◌, ◌/◌, ◌%◌, ◌^◌, ◌<◌, ◌≡◌, ◌≢◌, ◌↔◌, List, [], ◌∷◌, ◌++◌, Bool, false,
  ◌||◌, arith, refl, ap, sym, ◌∙◌, length, ltb, ◌==◌, if◌then◌else◌, inl, inr, Bool-cases,
}
use sim_replay.Hashtab.Defs.{Sign, less, same, more}
use sim_replay.Hashtab.Order.{IsKeyCmp}

-- `%u` of sprintf: the decimal digits, at most `fuel` of them.
unfoldable pub digits : ℕ → ℕ → List ℕ
digits zero n = []
digits (suc fuel) n =
    let rest = digits fuel (n / 10) in
    if ltb n 10 then (48 + n) ∷ [] else rest ++ (48 + n % 10) ∷ []

-- A __u32 has at most ten digits. The byte of ':' is 58.
unfoldable pub construct_key_volid_blkid : ℕ → ℕ → List ℕ
unfolding digits
construct_key_volid_blkid vol_id blk_id = digits 10 vol_id ++ 58 ∷ digits 10 blk_id

-- The order of memcmp on strings of one length.
unfoldable pub memcmp : List ℕ → List ℕ → Sign
memcmp [] ys = same
memcmp (x ∷ xs) [] = same
memcmp (x ∷ xs) (y ∷ ys) = elim (compare x y) [
  | Ordering.lt ↦ less
  | Ordering.gt ↦ more
  | Ordering.eq ↦ memcmp xs ys
]

-- Keys of different lengths differ, whichever comes first.
unfoldable pub blkidcmp : List ℕ → List ℕ → Sign
unfolding memcmp
blkidcmp key1 key2 = if length key1 == length key2 then memcmp key1 key2 else more

-- The number that decimal digits show, after those read so far.
unfoldable shown : ℕ → List ℕ → ℕ
shown n [] = n
shown n (x ∷ xs) = shown (n * 10 + (x - 48)) xs

shown-append : (n : ℕ) (xs : List ℕ) (x : ℕ) → shown n (xs ++ x ∷ []) ≡ shown n xs * 10 + (x - 48)
unfolding shown
shown-append n [] x = refl
shown-append n (y ∷ ys) x = shown-append (n * 10 + (y - 48)) ys x

shown-digits : (fuel n : ℕ) → n < 10 ^ fuel → shown 0 (digits fuel n) ≡ n
unfolding digits shown
shown-digits zero n h = omega arith
shown-digits (suc fuel) n h = elim (Bool-cases (ltb n 10)) [
  | inl small ↦ ground arith
  | inr large ↦
      let ih = shown-digits fuel (n / 10) (omega arith) in
      ground (arith, ih, shown-append 0 (digits fuel (n / 10)) (48 + n % 10))
]

-- The bytes before the first ':', and those after it.
unfoldable before : List ℕ → List ℕ
before [] = []
before (x ∷ xs) = let rest = before xs in if x == 58 then [] else x ∷ rest

unfoldable after : List ℕ → List ℕ
after [] = []
after (x ∷ xs) = let rest = after xs in if x == 58 then xs else rest

unfoldable has_colon : List ℕ → Bool
has_colon [] = false
has_colon (x ∷ xs) = (x == 58) || has_colon xs

has_colon-append :
    (xs : List ℕ) (x : ℕ) → x ≢ 58 → has_colon xs ≡ false → has_colon (xs ++ x ∷ []) ≡ false
unfolding has_colon
has_colon-append [] x h e = ground arith
has_colon-append (y ∷ ys) x h e = ground (arith, has_colon-append ys x h)

has_colon-digits : (fuel n : ℕ) → has_colon (digits fuel n) ≡ false
unfolding digits has_colon
has_colon-digits zero n = refl
has_colon-digits (suc fuel) n = elim (Bool-cases (ltb n 10)) [
  | inl small ↦ ground arith
  | inr large ↦ ground (
    arith,
    has_colon-append (digits fuel (n / 10)) (48 + n % 10) (λ e. omega (arith, e))
        (has_colon-digits fuel (n / 10)),
  )
]

before-append : (xs ys : List ℕ) → has_colon xs ≡ false → before (xs ++ 58 ∷ ys) ≡ xs
unfolding before has_colon
before-append [] ys h = ground arith
before-append (x ∷ xs) ys h = ground (arith, before-append xs ys)

after-append : (xs ys : List ℕ) → has_colon xs ≡ false → after (xs ++ 58 ∷ ys) ≡ ys
unfolding after has_colon
after-append [] ys h = ground arith
after-append (x ∷ xs) ys h = ground (arith, after-append xs ys)

-- Two blocks of volumes have the same key only if they are the same block of the same volume.
pub construct_key_volid_blkid_injective :
    (v w b c : ℕ)
    → v < 2 ^ 16
    → w < 2 ^ 16
    → b < 2 ^ 32
    → c < 2 ^ 32
    → construct_key_volid_blkid v b ≡ construct_key_volid_blkid w c
    → (v ≡ w) × (b ≡ c)
unfolding construct_key_volid_blkid
construct_key_volid_blkid_injective v w b c hv hw hb hc e =
    let front : digits 10 v ≡ digits 10 w =
      sym (before-append (digits 10 v) (digits 10 b) (has_colon-digits 10 v))
      ∙ ap before e
      ∙ before-append (digits 10 w) (digits 10 c) (has_colon-digits 10 w) in
    let back : digits 10 b ≡ digits 10 c =
      sym (after-append (digits 10 v) (digits 10 b) (has_colon-digits 10 v))
      ∙ ap after e
      ∙ after-append (digits 10 w) (digits 10 c) (has_colon-digits 10 w) in
    (
      sym (shown-digits 10 v (omega arith)) ∙ ap (shown 0) front ∙ shown-digits 10 w (omega arith),
      sym (shown-digits 10 b (omega arith)) ∙ ap (shown 0) back ∙ shown-digits 10 c (omega arith),
    )

memcmp_iff : (xs ys : List ℕ) → length xs ≡ length ys → (memcmp xs ys ≡ same) ↔ (xs ≡ ys)
unfolding memcmp
memcmp_iff [] [] h = ground arith
memcmp_iff [] (y ∷ ys) h = absurd (omega (arith, h))
memcmp_iff (x ∷ xs) [] h = absurd (omega (arith, h))
memcmp_iff (x ∷ xs) (y ∷ ys) h = ground (arith, memcmp_iff xs ys (omega (arith, h)))

memcmp_flip : (xs ys : List ℕ) → memcmp xs ys ≡ less → memcmp ys xs ≡ more
unfolding memcmp
memcmp_flip [] ys h = absurd (ground arith)
memcmp_flip (x ∷ xs) [] h = absurd (ground arith)
memcmp_flip (x ∷ xs) (y ∷ ys) h = ground (arith, memcmp_flip xs ys)

memcmp_one_way : (xs ys : List ℕ) → memcmp xs ys ≡ more → memcmp ys xs ≢ more
unfolding memcmp
memcmp_one_way [] ys h k = ground arith
memcmp_one_way (x ∷ xs) [] h k = ground arith
memcmp_one_way (x ∷ xs) (y ∷ ys) h k = ground (arith, memcmp_one_way xs ys)

memcmp_below :
    (ks cs ys : List ℕ)
    → length ks ≡ length cs
    → memcmp ks cs ≡ less
    → memcmp ys cs ≡ more
    → memcmp ys ks ≡ more
unfolding memcmp
memcmp_below [] cs ys h l m = absurd (ground arith)
memcmp_below (k ∷ ks) [] ys h l m = absurd (ground arith)
memcmp_below (k ∷ ks) (c ∷ cs) [] h l m = absurd (ground arith)
memcmp_below (k ∷ ks) (c ∷ cs) (y ∷ ys) h l m =
    ground (arith, memcmp_below ks cs ys (omega (arith, h)))

pub blkidcmp-IsKeyCmp : IsKeyCmp blkidcmp
unfolding blkidcmp
blkidcmp-IsKeyCmp = record {
  same_iff = λ a b. elim (Bool-cases (length a == length b)) [
    | inl e ↦ ground (arith, memcmp_iff a b (ground arith))
    | inr e ↦ (λ h. absurd (ground arith), λ h. absurd (ground (arith, ap length h)))
  ];
  flip_less = λ a b h. ground (arith, memcmp_flip a b);
  more_below = λ k c y h h'. ground (arith, memcmp_below k c y);
}

-- `blkidcmp` serves the hash table as a comparison of keys, and is no total order: it answers `more` both ways
-- exactly for keys of different lengths.
pub blkidcmp_lem :
    IsKeyCmp blkidcmp
    × ((a b : List ℕ) → ((blkidcmp a b ≡ more) × (blkidcmp b a ≡ more)) ↔ (length a ≢ length b))
unfolding blkidcmp
blkidcmp_lem = (
  blkidcmp-IsKeyCmp,
  λ a b. elim (Bool-cases (length a == length b)) [
    | inl e ↦ (λ (m, n). absurd (ground (arith, memcmp_one_way a b)), λ ne. absurd (ground arith))
    | inr e ↦ (λ m. ground arith, λ ne. ground arith)
  ],
)
