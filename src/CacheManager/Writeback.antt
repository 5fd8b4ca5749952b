-- ===== src/CacheManager/Writeback.antt =====
-- The writing back of dirty cache blocks in cache_manager.hpp.
use itoyori_github_io.Base.{
  ℕ, ◌+◌, true, false, ◌&&◌, Option, none, some, List, [], ◌∷◌, ◌++◌, ltb, leb, ◌==◌, if◌then◌else◌,
  ◌>>=◌, map, length,
}
use itoyori_github_io.RegionSet.{Region, RegionSet, region_size, add}
use itoyori_github_io.CacheManager.{
  Block, Manager, Request, is_empty, next_epoch, slot, put_block, is_writing_back, cache_offset,
}
use itoyori_github_io.CacheSystem.{Slot}

-- `std::sort` and `std::unique` on a list of windows: one is put into a list that is in order.
unfoldable pub insert_win : ℕ → List ℕ → List ℕ
insert_win w [] = w ∷ []
insert_win w (v ∷ vs) =
    let rest = v ∷ insert_win w vs in
    if ltb w v then w ∷ v ∷ vs else if w == v then v ∷ vs else rest

unfoldable pub sort_unique : List ℕ → List ℕ
unfolding insert_win
sort_unique [] = []
sort_unique (w ∷ ws) = insert_win w (sort_unique ws)

-- The first part of `writeback_complete`.
unfoldable pub flush_writebacks : Manager → Manager
unfolding sort_unique
flush_writebacks m = if is_empty m.writing_back_wins then m else record m {
  log = m.log ++ map Request.flush (sort_unique m.writing_back_wins);
  writing_back_wins = [];
  epoch = next_epoch m.epoch;
}

-- The second part of it: with no pending block all blocks are clean.
unfoldable pub settle : Manager → Manager
settle m =
    if is_empty m.dirty_cache_blocks && m.has_dirty_cache
    then record m { has_dirty_cache = false; current_epoch = next_epoch m.current_epoch }
    else m

unfoldable pub writeback_complete : Manager → Manager
unfolding flush_writebacks settle
writeback_complete m = settle (flush_writebacks m)

-- The loop of `writeback_begin(cb)` over the dirty regions.
unfoldable pub put_requests : ℕ → ℕ → Block → RegionSet → Option (List Request)
put_requests nentries block_size b [] = some []
put_requests nentries block_size b (r ∷ rs) =
    let rest = put_requests nentries block_size b rs in
    if ltb b.entry_idx nentries
    then (rest >>= λ out. some (
        Request.put_nb (cache_offset b.entry_idx block_size + r.begin) (region_size r) b.win b.owner
          (b.pm_offset + r.begin)
        ∷ out))
    else none

-- `writeback_begin(cb)` at the block in slot `i`, once no writing back of it is under way.
unfoldable pub start_writeback : ℕ → Slot Block → Manager → Option Manager
unfolding put_requests
start_writeback i s m =
    put_requests m.cs.nentries m.block_size s.entry s.entry.dirty_regions >>= λ puts. some (
      put_block i s (record (s.entry) { dirty_regions = []; writeback_epoch = m.epoch })
        (record m {
          log = m.log ++ puts;
          writing_back_wins = m.writing_back_wins ++ (s.entry.win ∷ []);
        }))

unfoldable pub writeback_begin_block : ℕ → Manager → Option Manager
unfolding start_writeback writeback_complete
writeback_begin_block i m = slot i m >>= λ s.
    let m1 = writeback_complete m in
    if is_writing_back m.epoch s.entry
    then if ltb s.entry.writeback_epoch m1.epoch then start_writeback i s m1 else none
    else start_writeback i s m

-- The loop of `writeback_begin()`.
unfoldable pub writeback_blocks : List ℕ → Manager → Option Manager
unfolding writeback_begin_block
writeback_blocks [] m = some m
writeback_blocks (i ∷ is) m = slot i m >>= λ s.
    (if is_empty s.entry.dirty_regions then some m else writeback_begin_block i m) >>= λ m1.
    writeback_blocks is m1

unfoldable pub writeback_begin : Manager → Option Manager
unfolding writeback_blocks
writeback_begin m =
    writeback_blocks m.dirty_cache_blocks m >>= λ m1. some (record m1 { dirty_cache_blocks = [] })

unfoldable pub ensure_all_cache_clean : Manager → Option Manager
unfolding writeback_begin writeback_complete
ensure_all_cache_clean m = writeback_begin m >>= λ m1.
    let m2 = writeback_complete m1 in if m2.has_dirty_cache then none else some m2

-- `add_dirty_region` at the block in slot `i`.
unfoldable pub add_dirty_region : ℕ → Region → Manager → Option Manager
unfolding ensure_all_cache_clean writeback_begin add
add_dirty_region i br m = slot i m >>= λ s. add br s.entry.dirty_regions >>= λ (dirty, _).
    let m1 = put_block i s (record (s.entry) { dirty_regions = dirty }) m in
    let m2 = record m1 {
      dirty_cache_blocks = m1.dirty_cache_blocks ++ (i ∷ []);
      has_dirty_cache = true;
    } in
    if is_empty s.entry.dirty_regions
    then if m2.enable_write_through
      then ensure_all_cache_clean m2
      else if leb m2.max_dirty_cache_blocks (length m2.dirty_cache_blocks)
      then writeback_begin m2
      else some m2
    else some m1
