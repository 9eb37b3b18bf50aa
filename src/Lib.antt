-- ===== src/Lib.antt =====
-- sim_replay replays block traces against a simulated disk with caches that share equal contents.
--
-- Parts, and the files that model them (paths from the repository's root):
--   Hashtab       utils/uhashtab.c, utils/uhashtab.h: the chained hash table under every lookup table of
--                 the program. Defs has one function for each of hashtab_create, _insert, _remove, _search,
--                 _map and _destroy; Api is the interface that clients take as a parameter.
--   ContentDedup  contentdedup/contentdedup-API.c: reference counts of cached contents, kept in such a table
--                 by cache_insert_trap and cache_delete_trap.
--   Arc           ARC-cache/arc.c, ARC-cache/arc.h and the object callbacks of
--                 content-cache/contentcache.c: the adaptive replacement cache of contents.
--   Utils         utils/utils.c: block offsets and isPrime, with the choice of a table size in
--                 contentdedup/contentdeduptab.c.
--   Vectors       utils/vector16.c, vector32.c, vector64.c: arrays of pointers that grow when an element is set.
--   VolMap        controller-utils/v2p-map.c: the volumes' places on the disk, in a vector and a hash table.
--   Lru           LRU-cache/lru_cache.c and sector-cache/sectorcache.c: the cache of blocks. uthash.h is a
--                 parameter, an insertion-ordered table with the laws of its manual; a list is one.
--   IoDedup       iodedup/iodeduping.c, ioserveio.c, p2d-map.c and d2pv-map.c with runtime-fixed/ioruntime.c
--                 and apriori-fixed/ioscandisk.c: which block holds which content. P2d is the map from blocks to
--                 IDs, D2pv the objects of the contents in a heap that deduptab and dedupmap_by_did point into,
--                 Defs and Ops the operations.
--                 Sound, Fresh, Entries, Recycle are about the objects; Consistent, Entry, Trim, Resume, Note
--                 about the whole map; Refine, Scan, Reads, Errors hold the
--                 results.
--   SimDisk       simdisk-runtime/simdisk-API.c, content-simfile.c and the keys of blkID-hashtab/: the file that
--                 stands for the disk. File has the file as bytes, with short writes as an argument; Slots the
--                 two lengths that are stored, whole blocks and digests.
--   Confided      confided/ and runtime-fixed/fruntime.c: which blocks of the volumes share a content, and which
--                 of them is read for all. Leaders has the lists with their marks, V2f the map of the blocks,
--                 Fixed, Defs, Ops, Lookup the handlers; View sees the maps of the contents as those of IoDedup, from
--                 which their soundness follows; Cells, Join, Leave, Mapped, Note, Drop, Reads hold the results.
--   ContentCache  content-cache/contentcache.c and its callers in iodedup/ioserveio.c: the cache of contents that
--                 serves the reads of deduplicated blocks, with what a read does after the look-up of the map.
--                 Modes, Defs, Init, Own, Served, and Reads, that joins Arc and IoDedup.
--   Modes         generic-replay/replay-defines.h: the modes that asserts name, by the flags of the command line.
--   Prelude       names, tests on numbers, lists over native numbers, machine integers and results.
--
-- State is passed explicitly. A result is `ok`, `err` with an errno, or `fault` for what C leaves undefined: a
-- read through NULL, a failed assert, an index out of range. A __u32 or an unsigned long wraps around where
-- it is written. What malloc gives is a Boolean argument;
-- where IoDedup and Vectors allocate without a check, the allocation is taken to succeed. The fuel of vector64_set
-- is an argument, and index + 1 turns are enough. The loops of ARC-cache/arc.c run on fuel, one more than
-- the objects that they can take away, and the theorems show that this is enough. Objects
-- are named by digest and size in place of their address, which is what the searches of the code compare.
--
-- Comparison and hash callbacks are parameters. A key comparison satisfies `IsKeyCmp`, and the digest
-- comparison of the cache is equality, as memcmp gives it.
--
-- The build of the Makefile leaves NDEBUG undefined, so an assert that does not hold is a `fault`.
--
-- Not modelled: parsing, printing, option handling, threads and device I/O.
pub mod Prelude
pub mod Arc
pub mod Confided
pub mod ContentCache
pub mod ContentDedup
pub mod Hashtab
pub mod IoDedup
pub mod Lru
pub mod Modes
pub mod SimDisk
pub mod Utils
pub mod Vectors
pub mod VolMap
