-- ===== src/CacheManager/Checkout.antt =====
-- Checkout and checkin of a part of a cache block in cache_manager.hpp. The template arguments
-- SkipFetch, IncrementRef, RegisterDirty and DecrementRef are Booleans.
use itoyori_github_io.Base.{
  ℕ, ◌+◌, ◌-◌, Bool, true, false, ◌&&◌, ◌||◌, Option, none, some, List, [], ◌∷◌, ◌++◌, ltb, leb,
  ◌==◌, if◌then◌else◌, ◌>>=◌,
}
use itoyori_github_io.RegionSet.{Region, region, add, remove}
use itoyori_github_io.Pow2.{round_down_pow2}
use itoyori_github_io.Tlb as T
use itoyori_github_io.CacheManager.{
  Manager, Request, slot, put_block, is_writing_back, cache_offset,
}
use itoyori_github_io.CacheManager.Writeback.{add_dirty_region, writeback_complete}
use itoyori_github_io.CacheManager.Fetch.{fetch_begin, fetch_complete, add_fetching_win}
use itoyori_github_io.CacheManager.Lookup.{get_entry, is_cached_blk}

-- `cb.ref_count++` and `cb.ref_count--` with its check, if the flag is set.
unfoldable pub increment_ref : Bool → ℕ → Manager → Option Manager
increment_ref flag i m = slot i m >>= λ s.
    some
      (if flag then put_block i s (record (s.entry) { ref_count = s.entry.ref_count + 1 }) m else m)

unfoldable pub decrement_ref : Bool → ℕ → Manager → Option Manager
decrement_ref flag i m = slot i m >>= λ s.
    if flag
    then if s.entry.ref_count == 0
      then none
      else some (put_block i s (record (s.entry) { ref_count = s.entry.ref_count - 1 }) m)
    else some m

-- Without a fetch the region counts as valid.
unfoldable pub skip_fetch : ℕ → Region → Manager → Option Manager
unfolding add
skip_fetch i br m = slot i m >>= λ s. add br s.entry.valid_regions >>= λ (valid, _).
    some (put_block i s (record (s.entry) { valid_regions = valid }) m)

-- What both kinds of checkout do with the bytes: the new state, and whether nothing is fetched.
unfoldable pub provide : Bool → ℕ → ℕ → Region → Manager → Option (Manager × Bool)
unfolding skip_fetch fetch_begin add_fetching_win
provide skip i win br m =
    if skip
    then (skip_fetch i br m >>= λ m1. some (m1, true))
    else (fetch_begin i br m >>= λ (m1, fetching).
        some (if fetching then (add_fetching_win win m1, false) else (m1, true)))

-- The block of an address, or 0 if the bytes do not lie in one block.
unfoldable pub single_block : ℕ → ℕ → ℕ → ℕ
single_block block_size addr size =
    let blk_addr = round_down_pow2 addr block_size in
    if ltb (blk_addr + block_size) (addr + size) then 0 else blk_addr

-- `checkout_fast`: `none` in the result is {false, false}, `some` holds `fetch_completed`.
unfoldable pub checkout_fast : Bool → Bool → ℕ → ℕ → Manager → Option (Manager × Option Bool)
unfolding single_block provide increment_ref
checkout_fast skip increment addr size m =
    let blk_addr = single_block m.block_size addr size in
    let (t, found) = T.get (λ k. k == blk_addr) m.cache_tlb in
    let m1 = record m { cache_tlb = t } in
    let br = region (addr - blk_addr) (addr + size - blk_addr) in
    if (addr == 0) || (size == 0) then none else elim found [
      | none ↦ some (m1, none)
      | some i ↦ slot i m1 >>= λ s. provide skip i s.entry.win br m1 >>= λ (m2, completed).
          increment_ref increment i m2 >>= λ m3. some (m3, some completed)
    ]

-- The checks on a block and a request.
unfoldable pub request_ok : ℕ → ℕ → ℕ → ℕ → Bool
request_ok block_size blk_addr req_b req_e =
    leb blk_addr req_b
    && (leb blk_addr req_e
        && (leb req_b (blk_addr + block_size)
            && (leb req_e (blk_addr + block_size) && ltb req_b req_e)))

-- A block that is not mapped at its address yet gets its place: the state, and whether that is done.
unfoldable pub place_block : ℕ → ℕ → ℕ → Option ℕ → ℕ → Manager → Option (Manager × Bool)
place_block i blk_addr win owner pm_offset m = slot i m >>= λ s.
    let b = record (s.entry) { addr = blk_addr; win = win; owner = owner; pm_offset = pm_offset } in
    if s.entry.mapped_addr == blk_addr
    then some (m, true)
    else if m.enable_vm_map
    then some (
      put_block i s b (record m { cache_blocks_to_map = m.cache_blocks_to_map ++ (i ∷ []) }),
      false,
    )
    else some (put_block i s (record b { mapped_addr = blk_addr }) m, true)

unfoldable pub checkout_blk :
    Bool → Bool → ℕ → ℕ → ℕ → ℕ → Option ℕ → ℕ → Manager → Option (Manager × Bool)
unfolding request_ok get_entry place_block provide increment_ref
checkout_blk skip increment blk_addr req_b req_e win owner pm_offset m =
    if request_ok m.block_size blk_addr req_b req_e
    then (get_entry true blk_addr m >>= λ (m1, i).
        place_block i blk_addr win owner pm_offset m1 >>= λ (m2, placed).
        provide skip i win (region (req_b - blk_addr) (req_e - blk_addr)) m2 >>= λ (m3, here).
        increment_ref increment i m3 >>= λ m4. some (
          record m4 { cache_tlb = T.add (λ j k. j == k) blk_addr (some i) m4.cache_tlb },
          placed && here,
        ))
    else none

-- `update_mapping` at the block in slot `i`.
unfoldable pub update_mapping : ℕ → Manager → Option Manager
update_mapping i m = slot i m >>= λ s.
    let b = s.entry in
    let unmaps : List Request =
      if b.mapped_addr == 0 then [] else Request.unmap b.mapped_addr m.block_size ∷ [] in
    if b.addr == 0
    then none
    else some (
        put_block i s (record b { mapped_addr = b.addr })
          (record m {
            log =
                m.log
                ++ (unmaps
                    ++ (Request.map_to_vm b.addr m.block_size
                          (cache_offset b.entry_idx m.block_size)
                        ∷ []));
          }))

unfoldable pub update_mappings : List ℕ → Manager → Option Manager
unfolding update_mapping
update_mappings [] m = some m
update_mappings (i ∷ is) m = update_mapping i m >>= λ m1. update_mappings is m1

unfoldable pub checkout_complete : Manager → Option Manager
unfolding update_mappings fetch_complete
checkout_complete m =
    if m.enable_vm_map
    then (update_mappings m.cache_blocks_to_map m >>= λ m1.
        some (fetch_complete (record m1 { cache_blocks_to_map = [] })))
    else some (fetch_complete m)

unfoldable pub checkin_fast : Bool → Bool → ℕ → ℕ → Manager → Option (Manager × Bool)
unfolding single_block add_dirty_region decrement_ref
checkin_fast dirty decrement addr size m =
    let blk_addr = single_block m.block_size addr size in
    let (t, found) = T.get (λ k. k == blk_addr) m.cache_tlb in
    let m1 = record m { cache_tlb = t } in
    let br = region (addr - blk_addr) (addr + size - blk_addr) in
    if (addr == 0) || (size == 0) then none else elim found [
      | none ↦ some (m1, false)
      | some i ↦ (if dirty then add_dirty_region i br m1 else some m1) >>= λ m2.
          decrement_ref decrement i m2 >>= λ m3. some (m3, true)
    ]

unfoldable pub checkin_blk : Bool → Bool → ℕ → ℕ → ℕ → Manager → Option Manager
unfolding request_ok get_entry add_dirty_region decrement_ref
checkin_blk dirty decrement blk_addr req_b req_e m =
    if request_ok m.block_size blk_addr req_b req_e
    then (get_entry false blk_addr m >>= λ (m1, i).
        (if dirty
          then add_dirty_region i (region (req_b - blk_addr) (req_e - blk_addr)) m1
          else some m1)
        >>= λ m2. decrement_ref decrement i m2)
    else none

unfoldable pub discard_dirty : ℕ → ℕ → ℕ → Manager → Option Manager
unfolding request_ok is_cached_blk get_entry writeback_complete remove
discard_dirty blk_addr req_b req_e m =
    if request_ok m.block_size blk_addr req_b req_e
    then (is_cached_blk blk_addr m >>= λ cached.
        if cached
        then (get_entry true blk_addr m >>= λ (m1, i). slot i m1 >>= λ s.
            let m2 = if is_writing_back m1.epoch s.entry then writeback_complete m1 else m1 in
            remove (region (req_b - blk_addr) (req_e - blk_addr)) s.entry.dirty_regions >>= λ dirty.
            some (put_block i s (record (s.entry) { dirty_regions = dirty }) m2))
        else some m)
    else none
