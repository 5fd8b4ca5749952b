-- ===== src/Lib.antt =====
-- Verification of the core of Itoyori, a C++ library for global-view fork-join parallelism on a
-- partitioned global address space (PGAS). Paths are below include/ityr/.
--
-- The program has three layers. common/ holds what the others share: the process topology, MPI calls,
-- physical and virtual memory, and small data structures. ori/ is the PGAS: memory is distributed
-- over the processes by a memory mapper, and `core` answers a checkout of a global address range from
-- home memory that is mapped locally or from a cache of fixed-size blocks. Each cached block records
-- in region sets which of its bytes are valid and which are dirty; the cache system decides which
-- block has which slot; a translation buffer in front of it remembers the last few lookups; the
-- noncollective memory takes its addresses from freelists. ito/ is the task scheduler with its
-- work-stealing queues, and container/ and pattern/ are the interface for users.
--
-- Files and the code they model:
--   RegionSet    ori/block_region_set.hpp. `region` and `region_set`: a set is the list of its regions
--                in order, an iterator is an index. add, remove, include, complement, size and both
--                kinds of intersection are one function each, whose `if`s are the code's.
--   Pow2         common/util.hpp, the functions on powers of two, over 64-bit words.
--   Freelist     common/freelist.hpp. `freelist` is the list of its entries; get, get with an
--                alignment and add take the list and return the list that is left.
--   MemMapper    ori/mem_mapper.hpp. `block`, `cyclic` and `block_adws` are records of their fields
--                in child modules of their own; products and sums wrap at 64 bits.
--   CacheSystem  ori/cache_system.hpp. The record has the class's fields. The template argument
--                `Entry` is a parameter with the operations that the code calls on it. An index into
--                `entries_` stands for a reference, the slot's index for its list iterator.
--   Tlb          ori/tlb.hpp. Element 0 of `entries_`, which holds the invalid entry, is a field of
--                its own; the others are a list.
--   CacheManager ori/cache_manager.hpp, with the epochs of ori/release_manager.hpp. A pointer to a block
--                is the index of its slot in the cache system; `get_nb`, `put_nb`, `flush` and the
--                changes of the mappings are entries of a log, in order; the switches of the build are
--                fields. Writeback, Fetch, Lookup, Checkout and Release hold the operations.
--   HomeManager  ori/home_manager.hpp: the mappings of the segments at home, on the cache system and the
--                translation buffer, with the calls of the operating system in a log.
--   Core         ori/core.hpp, with the collective memory of ori/coll_mem.hpp and
--                ori/coll_mem_manager.hpp and three functions of ori/noncoll_mem.hpp. A checkout looks in
--                the home manager and the cache manager, and then calls them for the segments and
--                blocks of the range. The mapper of a memory is given by its functions.
--   Pattern      pattern/: the serial and the parallel loop, reverse, rotate, merge, merge sort, stable
--                partition, reduction, minimum and maximum. A range is a list; the tasks of a fork
--                work on disjoint parts of it. Std has the algorithms of the standard library that the
--                leaves call, with their documented behaviour in Order and an instance in Reference.
--   GlobalLock   common/global_lock.hpp: the lock word, and the steps of the processes that use it.
--   WsQueue      ito/wsqueue.hpp, one queue of a process, whose operations run one after the other,
--                with its lock word from common/global_lock.hpp. An operation ends with a result, with
--                the exception, or stuck.
--   Base         shared names, Boolean tests on numbers, lists indexed by numbers, and the dictionary.
-- Under each, the modules named for what they prove hold the theorems and Tests holds runs of the
-- definitions and the theorems at concrete inputs.
--
-- ITYR_CHECK is modelled as switched on: a failed check, as an exception, gives `none`, unless the
-- comment of a definition says otherwise. The regions' positions are 32-bit, as `block_size_t` is, and
-- those of the read-only regions are 64-bit addresses; the code only compares and subtracts them, and
-- `checked_region` has the constructor's checks where a position can be out of range. The place of a
-- block in the cache is computed in 32 bits, `cache_offset`, and wraps in a cache of more than 4 GiB:
-- what is stated of the bytes sent or fetched asks that it is not larger. Loops are recursion on the list that they walk through.
-- `intersect_loop` walks two lists and has fuel, the sum of their lengths, which is enough because a
-- round advances one of the two. The epochs of the cache manager are 64-bit; its theorems ask that
-- they do not wrap during the operation, since a block whose epoch is the current one counts as being
-- written back.
--
-- The parallel patterns have fuel for the depth of their recursion and for the rounds of the binary
-- search; their theorems show how much is enough.
--
-- Not modelled: the transfer of the bytes, of which the log is the request, and copying within the
-- process; the waiting of an acquire for another process; the profilers; the execution of a queue's
-- operation while another one runs; timestamps of the translation buffer that exceed `int`; the hash
-- order of the cache's table; MPI, the operating system and the assembly of the context switches,
-- which the code calls; the scheduler but for its queues; the containers, the iterators and the
-- pointers; the interleaving of the tasks of a parallel pattern with the accesses of other tasks.
pub mod Base
pub mod CacheManager
pub mod CacheSystem
pub mod Core
pub mod Freelist
pub mod GlobalLock
pub mod HomeManager
pub mod MemMapper
pub mod Pattern
pub mod Pow2
pub mod RegionSet
pub mod Tlb
pub mod WsQueue
