-- ===== src/CacheManager/Release.antt =====
-- Release, acquire and the read-only regions of cache_manager.hpp, and the epochs of release_manager.hpp
-- as the cache manager uses them.
use itoyori_github_io.Base.{
  ℕ, ◌+◌, ◌-◌, ◌%◌, ◌^◌, Bool, false, not, ◌&&◌, Option, none, some, List, [], ◌∷◌, ltb, ◌==◌,
  if◌then◌else◌, ◌>>=◌,
}
use itoyori_github_io.RegionSet.{
  Region, region, checked_region, RegionSet, add, add_at, remove, intersection, intersection_sets,
}
use itoyori_github_io.CacheSystem.{Slot}
use itoyori_github_io.CacheManager.{Block, Manager, is_empty}
use itoyori_github_io.CacheManager.Writeback.{ensure_all_cache_clean}
use itoyori_github_io.CacheManager.Lookup.{invalidate}

unfoldable pub release : Manager → Option Manager
unfolding ensure_all_cache_clean
release m = ensure_all_cache_clean m

-- `release_handler`
pub record Handler : Type 0 where
  pub target_rank : ℕ
  pub required_epoch : ℕ

-- `release_lazy` on the process `my_rank`.
unfoldable pub release_lazy : ℕ → Manager → Option (Manager × Handler)
unfolding release
release_lazy my_rank m =
    let dummy : Handler = record { target_rank = 0; required_epoch = 0 } in
    if m.enable_lazy_release
    then some (
      m,
      if m.has_dirty_cache
          then record { target_rank = my_rank; required_epoch = (m.current_epoch + 1) % 2 ^ 64 }
          else dummy,
    )
    else (release m >>= λ m1. some (m1, dummy))

-- `release_manager::release_requested`
unfoldable pub release_requested : Manager → Bool
release_requested m = ltb m.current_epoch m.requested_epoch

unfoldable pub poll : Manager → Option Manager
unfolding ensure_all_cache_clean release_requested
poll m =
    if m.enable_lazy_release && release_requested m
    then (ensure_all_cache_clean m >>= λ m1. if release_requested m1 then none else some m1)
    else some m

-- A difference of addresses, which are `uintptr_t`.
abbrev offset_in : ℕ → ℕ → ℕ
offset_in blk_addr addr = (addr + 2 ^ 64 - blk_addr) % 2 ^ 64

-- The loop over the read-only parts of a block: `it` is the iterator, positions become offsets, which
-- the constructor of a region of the block checks.
unfoldable pub offsets : ℕ → RegionSet → ℕ → RegionSet → Option RegionSet
unfolding add_at checked_region
offsets blk_addr [] it brs = some brs
offsets blk_addr (r ∷ rs) it brs =
    checked_region 32 (offset_in blk_addr r.begin) (offset_in blk_addr r.end) >>= λ br.
    add_at br it brs >>= λ (out, next). offsets blk_addr rs next out

-- The first of the regions is not the whole block.
unfoldable pub partly : Region → RegionSet → Bool
partly blk [] = false
partly blk (r ∷ rs) = not (r.begin == blk.begin && r.end == blk.end)

-- What `invalidate_all` does to a block.
unfoldable pub invalidate_writable : ℕ → ℕ → RegionSet → Block → Option Block
unfolding invalidate intersection offsets partly intersection_sets
invalidate_writable epoch block_size readonly b =
    let blk = region b.addr (b.addr + block_size) in
    if is_empty readonly
    then invalidate epoch b
    else if is_empty b.valid_regions
    then some b
    else if b.addr == 0
    then none
    else intersection readonly blk >>= λ ro.
        if is_empty ro
        then invalidate epoch b
        else if partly blk ro
        then (offsets b.addr ro 0 [] >>= λ brs. intersection_sets b.valid_regions brs >>= λ valid.
            some (record b { valid_regions = valid }))
        else some b

-- `for_each_entry` with a function that can fail.
unfoldable pub try_each_entry :
    (Block → Option Block) → List (Slot Block) → Option (List (Slot Block))
try_each_entry f [] = some []
try_each_entry f (ce ∷ ces) =
    let rest = try_each_entry f ces in
    if ce.allocated
    then (f ce.entry >>= λ b. rest >>= λ out. some (record ce { entry = b } ∷ out))
    else (rest >>= λ out. some (ce ∷ out))

unfoldable pub invalidate_all : Manager → Option Manager
unfolding try_each_entry invalidate_writable
invalidate_all m =
    try_each_entry (invalidate_writable m.epoch m.block_size m.readonly_regions) m.cs.entries
    >>= λ entries. some (record m { cs = record (m.cs) { entries = entries } })

-- `acquire()`
unfoldable pub acquire : Manager → Option Manager
unfolding ensure_all_cache_clean invalidate_all
acquire m = ensure_all_cache_clean m >>= λ m1. invalidate_all m1

-- `set_readonly` and `unset_readonly`; the addresses are 64-bit.
unfoldable pub set_readonly : ℕ → ℕ → Manager → Option Manager
unfolding add
set_readonly addr size m =
    add (region addr ((addr + size) % 2 ^ 64)) m.readonly_regions >>= λ (rs, _).
    some (record m { readonly_regions = rs })

unfoldable pub unset_readonly : ℕ → ℕ → Manager → Option Manager
unfolding remove
unset_readonly addr size m =
    remove (region addr ((addr + size) % 2 ^ 64)) m.readonly_regions >>= λ rs.
    some (record m { readonly_regions = rs })
