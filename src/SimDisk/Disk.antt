-- ===== src/SimDisk/Disk.antt =====
-- simdisk-runtime/simdisk-API.c against its specification, a function from keys to what was last written.
use sim_replay.Prelude.{
  ℕ, ◌+◌, ◌*◌, ◌<◌, ◌≡◌, ◌≢◌, none, some, List, true, false, arith, ap, sym, ◌∙◌, length,
  if◌then◌else◌, ◌==◌, ◌&&◌, inl, inr, Bool-cases, Option-cases, ok, inc32,
}
use sim_replay.Modes.{Modes}
use sim_replay.Hashtab.Defs.{max_nodes}
use sim_replay.Hashtab.Api.{TableApi}
use sim_replay.SimDisk.File.{fwrite, size-fwrite}
use sim_replay.SimDisk.Defs.{
  SimDisk, Reply, refused, done, agrees, same_bytes, watched, write_seen, entered, write_new,
  disk_read, disk_write,
}
use sim_replay.SimDisk.Slots.{Slots, same_bytes_iff}
use sim_replay.SimDisk.Sound.{
  IsSound, content_at, length-slot, slot-fwrite, slot-fwrite_other, Stores,
}

module _ (api : TableApi (List ℕ) ℕ) (modes : Modes) (len : ℕ) (slots : Slots api modes len) where
  write_seen-Stores :
      (s : SimDisk api.Table) (key content : List ℕ) (id : ℕ)
      → IsSound api modes len slots s
      → length content ≡ len
      → api.lookup s.blkidtab key ≡ some id
      → (s' : SimDisk api.Table) × (write_seen api modes s id content len len ≡ ok (s', done none))
        × Stores api modes len slots s s' key content
  unfolding write_seen content_at
  write_seen-Stores s key content id sound e there =
      let under = sound.placed key id there in
      let wrote = slots.put_lem s.file id content (omega (arith, under, sound.small)) e in
      (
        record s { file = fwrite s.file (id * len) content },
        ground (arith, wrote),
        record {
          sound = record {
            good = sound.good;
            placed = sound.placed;
            own = sound.own;
            filled = omega (arith, sound.filled, (size-fwrite s.file (id * len) content).0);
            small = sound.small;
          };
          contents = λ j. elim (Bool-cases (api.same_key j key)) [
            | inl y ↦ ground (
              arith,
              api.same_key_iff j key,
              there,
              slot-fwrite api modes len slots s.file id content e,
            )
            | inr n ↦ elim (Option-cases (api.lookup s.blkidtab j)) [
              | inl z ↦ ground arith
              | inr (i, z) ↦
                  let ne : i ≢ id =
                    λ q. ground (arith, sound.own j key id, api.same_key_iff j key) in
                  let room = slots.inside i s.simdisk_blkid (sound.placed j i z) in
                  ground (
                    arith,
                    slot-fwrite_other api modes len slots s.file i id content e ne
                        (omega (arith, room, sound.filled)),
                  )
            ]
          ];
        },
      )

  write_new-Stores :
      (s : SimDisk api.Table) (key content : List ℕ) (reply : Reply)
      → IsSound api modes len slots s
      → length content ≡ len
      → api.lookup s.blkidtab key ≡ none
      → api.nel s.blkidtab < max_nodes
      → s.simdisk_blkid < slots.bound
      → (s' : SimDisk api.Table) × (write_new api modes s key content len len true reply
          ≡ ok (s', reply))
        × Stores api modes len slots s s' key content
  unfolding write_new entered content_at
  write_new-Stores s key content reply sound e absent room below =
      let id = s.simdisk_blkid in
      let wrote = slots.put_lem s.file id content below e in
      let (t, ran, good, more, finds) = api.insert_new key id sound.good room absent in
      let step : inc32 id ≡ id + 1 = omega (arith, below, slots.bound_small) in
      (
        record { file = fwrite s.file (id * len) content; blkidtab = t; simdisk_blkid = inc32 id },
        ground (arith, wrote, ran),
        record {
          sound = record {
            good = good;
            placed = λ k i h. elim (Bool-cases (api.same_key k key)) [
              | inl y ↦ ground (arith, finds k, step)
              | inr n ↦ omega (arith, sound.placed k i (ground (arith, finds k)), step)
            ];
            own = λ j k i h h'. ground (
              arith,
              finds j,
              finds k,
              sound.own j k i,
              sound.placed j i,
              sound.placed k i,
              api.same_key_iff j key,
              api.same_key_iff k key,
            );
            filled = omega (
              arith,
              ap (λ n. n * len) step ∙ slots.next_place id,
              (size-fwrite s.file (id * len) content).1 (λ z. slots.some_bytes (sym e ∙ z)),
              e,
            );
            small = omega (arith, step, below);
          };
          contents = λ j. elim (Bool-cases (api.same_key j key)) [
            | inl y ↦ ground (arith, finds j, slot-fwrite api modes len slots s.file id content e)
            | inr n ↦ elim (Option-cases (api.lookup s.blkidtab j)) [
              | inl z ↦ ground (arith, finds j)
              | inr (i, z) ↦
                  let under = sound.placed j i z in
                  let old = slots.inside i s.simdisk_blkid under in
                  let kept =
                    slot-fwrite_other api modes len slots s.file i id content e
                      (λ q. omega (arith, q, under)) (omega (arith, old, sound.filled)) in
                  ground (arith, finds j, kept)
            ]
          ];
        },
      )

  -- A write of a key, whether it is new or not.
  pub disk_write-Stores :
      (s : SimDisk api.Table) (key content : List ℕ)
      → IsSound api modes len slots s
      → length content ≡ len
      → api.nel s.blkidtab < max_nodes
      → s.simdisk_blkid < slots.bound
      → (s' : SimDisk api.Table) × (disk_write api modes s key content len len true
          ≡ ok (s', done none))
        × Stores api modes len slots s s' key content
  unfolding disk_write
  disk_write-Stores s key content sound e room below =
      let search = api.search_lem key sound.good in
      elim (Option-cases (api.lookup s.blkidtab key)) [
        | inl absent ↦
            let (s', ran, stores) =
              write_new-Stores s key content (done none) sound e absent room below in
            (s', ground (arith, search, ran), stores)
        | inr (id, there) ↦
            let (s', ran, stores) = write_seen-Stores s key content id sound e there in
            (s', ground (arith, search, ran), stores)
      ]

  -- A read of a key without a consistency check.
  pub disk_read-content_at :
      (s : SimDisk api.Table) (block_id : ℕ) (key buf : List ℕ)
      → IsSound api modes len slots s
      → ((len == 32) && watched block_id) ≡ false
      → disk_read api modes s block_id key buf len false 0 true
        ≡ elim (content_at api modes len slots s key) [
          | none ↦ ok (s, refused)
          | some content ↦ ok (s, done (some content))
        ]
  unfolding disk_read content_at
  disk_read-content_at s block_id key buf sound free =
      let search = api.search_lem key sound.good in
      elim (Option-cases (api.lookup s.blkidtab key)) [
        | inl absent ↦ ground (arith, search)
        | inr (id, there) ↦
            let under = sound.placed key id there in
            let read =
              slots.read_lem s block_id id buf (omega (arith, under, sound.small))
                (length-slot api modes len slots s id sound under) free in
            ground (arith, search, read)
      ]

  -- The content of a key, or else the one that a first read brings.
  abbrev pub stored_or : SimDisk api.Table → List ℕ → List ℕ → List ℕ
  stored_or s key content = elim (content_at api modes len slots s key) [
    | none ↦ content
    | some stored ↦ stored
  ]

  -- A read of a key with a consistency check: what is stored decides, and a key that is new is stored.
  pub disk_read-check :
      (s : SimDisk api.Table) (block_id : ℕ) (key content : List ℕ)
      → IsSound api modes len slots s
      → length content ≡ len
      → api.nel s.blkidtab < max_nodes
      → s.simdisk_blkid < slots.bound
      → (s' : SimDisk api.Table) × (disk_read api modes s block_id key content len true len true
          ≡ ok (
            s',
            if same_bytes content (stored_or s key content)
                then agrees (some content)
                else done (some (stored_or s key content)),
          ))
        × Stores api modes len slots s s' key (stored_or s key content)
  unfolding disk_read content_at
  disk_read-check s block_id key content sound e room below =
      let search = api.search_lem key sound.good in
      elim (Option-cases (api.lookup s.blkidtab key)) [
        | inl absent ↦
            let (s', ran, stores) =
              write_new-Stores s key content (agrees (some content)) sound e absent room below in
            (
              s',
              ground (arith, search, ran, same_bytes_iff content content),
              record { sound = stores.sound; contents = λ j. ground (arith, stores.contents j) },
            )
        | inr (id, there) ↦
            let under = sound.placed key id there in
            let check =
              slots.check_lem s id content (omega (arith, under, sound.small))
                (length-slot api modes len slots s id sound under) in
            (
              s,
              ground (arith, search, check),
              record {
                sound = sound;
                contents = λ j. ground (arith, there, api.same_key_iff j key);
              },
            )
      ]
