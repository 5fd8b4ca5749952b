-- ===== src/CacheManager/Lookup.antt =====
-- The lookup of cache blocks in cache_manager.hpp, with the callbacks for the cache system.
use itoyori_github_io.Base.{
  ℕ, ◌^◌, ◌-◌, ◌/◌, ◌%◌, Bool, false, not, ◌||◌, Option, none, some, [], ◌==◌, if◌then◌else◌, ◌>>=◌,
  get_elem?,
}
use itoyori_github_io.Base.Assoc.{find}
use itoyori_github_io.CacheSystem.{EntryOps, Slot, CacheSystem, ensure_cached, is_cached}
use itoyori_github_io.CacheSystem as CS
use itoyori_github_io.Tlb as T
use itoyori_github_io.CacheManager.{Block, Manager, is_empty, is_writing_back, is_evictable}
use itoyori_github_io.CacheManager.Writeback.{ensure_all_cache_clean}

-- The initial value of `entry_idx`.
abbrev pub invalid_idx : ℕ
invalid_idx = 2 ^ 31 - 1

-- `cache_block::invalidate`
unfoldable pub invalidate : ℕ → Block → Option Block
invalidate epoch b =
    if is_writing_back epoch b || not (is_empty b.dirty_regions)
    then none
    else if is_evictable epoch b
    then some (record b { valid_regions = [] })
    else none

-- The callbacks. `on_evict` is only called on an evictable block, whose checks pass; that it clears
-- the translation buffer stands in `ensure`.
abbrev pub block_ops : ℕ → EntryOps Block
block_ops epoch = record {
  is_evictable = is_evictable epoch;
  on_evict = λ b. record b { valid_regions = []; entry_idx = invalid_idx };
  on_cache_map = λ i b. record b { entry_idx = i };
}

-- The key is not cached and the slot that it has got was in use.
unfoldable pub evicts : ℕ → ℕ → CacheSystem Block → Bool
evicts key i c = elim (find key c.table) [
  | some _ ↦ false
  | none ↦ elim (get_elem? c.entries i) [ none ↦ false | some s ↦ s.allocated ]
]

-- `cache_key`; `none` is a failed check.
unfoldable pub cache_key : ℕ → Manager → Option ℕ
cache_key addr m =
    if (addr == 0) || not (addr % m.block_size == 0) then none else some (addr / m.block_size)

-- `cs_.ensure_cached` with what the callback `on_evict` does to the manager; `none` is the exception.
unfoldable pub ensure : Bool → ℕ → Manager → Option (Manager × ℕ)
unfolding evicts
ensure update_lru key m = ensure_cached (block_ops m.epoch) update_lru key m.cs >>= λ (cs, i).
    some (
      record m {
        cs = cs;
        cache_tlb = if evicts key i m.cs then T.clear m.cache_tlb else m.cache_tlb;
      },
      i,
    )

-- A handler for the exception.
abbrev pub catch : Option (Manager × ℕ) → Option (Manager × ℕ) → Option (Manager × ℕ)
catch (some r) handler = some r
catch none handler = handler

-- With no slot to be had all dirty blocks are written back, and it is tried again.
unfoldable pub ensure_or_clean : Bool → ℕ → Manager → Option (Manager × ℕ)
unfolding ensure ensure_all_cache_clean
ensure_or_clean update_lru key m =
    catch (ensure update_lru key m) (ensure_all_cache_clean m >>= λ m1. ensure update_lru key m1)

-- `get_entry`: the new state and the slot.
unfoldable pub get_entry : Bool → ℕ → Manager → Option (Manager × ℕ)
unfolding cache_key ensure_or_clean
get_entry update_lru addr m = cache_key addr m >>= λ key. ensure_or_clean update_lru key m

unfoldable pub is_cached_blk : ℕ → Manager → Option Bool
unfolding cache_key
is_cached_blk addr m = cache_key addr m >>= λ key. some (is_cached key m.cs)

-- `ensure_evicted`, which evicts by the callback too.
unfoldable pub ensure_evicted : ℕ → Manager → Option Manager
unfolding cache_key
ensure_evicted addr m = cache_key addr m >>= λ key.
    CS.ensure_evicted (block_ops m.epoch) key m.cs >>= λ cs. some (record m {
      cs = cs;
      cache_tlb = if is_cached key m.cs then T.clear m.cache_tlb else m.cache_tlb;
    })

unfoldable pub clear_tlb : Manager → Manager
clear_tlb m = record m { cache_tlb = T.clear m.cache_tlb }
