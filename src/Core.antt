-- ===== src/Core.antt =====
-- include/ityr/ori/core.hpp: `core_default<BlockSize>`, which answers a checkout of a range of global
-- addresses from the home manager and the cache manager.
-- Ranges has the loop over blocks, Collective the collective memory and the loop over segments. Blocks,
-- Mapper, Calls and Segments are on what the loops go through, and Distributed on a memory with the
-- mapper `block`; Lookup, Created, Erased and Destroyed are on the list of memories.
pub mod Ranges
pub mod Collective
pub mod Blocks
pub mod Mapper
pub mod Calls
pub mod Segments
pub mod Lookup
pub mod Created
pub mod Erased
pub mod Destroyed
pub mod Distributed
mod Tests
use itoyori_github_io.Base.{
  ℕ, ◌+◌, ◌-◌, ◌*◌, ◌/◌, ◌%◌, Bool, true, false, ◌&&◌, ◌||◌, Option, none, some, List, [], ◌∷◌,
  ◌==◌, ltb, leb, if◌then◌else◌, ◌>>=◌, suc, zero, not,
}
use itoyori_github_io.Core.Ranges.{BlockCall, Call, for_each_block}
use itoyori_github_io.Core.Collective.{CollMem, Colls, get, destroy, for_each_seg_blk}
use itoyori_github_io.HomeManager.{HomeManager}
use itoyori_github_io.HomeManager as H
use itoyori_github_io.CacheManager.{Manager}
use itoyori_github_io.CacheManager.Checkout as K
use itoyori_github_io.CacheManager.Lookup as L
use itoyori_github_io.CacheManager.Writeback.{ensure_all_cache_clean}

-- The fields, with what the code asks of the topology: the rank within its group, the global rank of a
-- group's process with the same place, and whether a process shares its memory with this one. Of
-- `noncoll_mem_` there are the addresses and the window.
pub record Core : Type 0 where
  pub block_size : ℕ
  pub inter_my_rank : ℕ
  pub n_ranks : ℕ
  pub inter2global_rank : ℕ → ℕ
  pub is_locally_accessible : ℕ → Bool
  pub cm_manager : Colls
  pub noncoll_addr : ℕ
  pub local_max_size : ℕ
  pub global_max_size : ℕ
  pub noncoll_win : ℕ
  pub home_manager : HomeManager
  pub cache_manager : Manager

-- `noncoll_mem::has`, `get_owner` and `get_disp`
unfoldable pub has : Core → ℕ → Bool
has c p = leb c.noncoll_addr p && ltb p (c.noncoll_addr + c.global_max_size)

unfoldable pub get_owner : Core → ℕ → ℕ
get_owner c p = (p - c.noncoll_addr) / c.local_max_size

unfoldable pub get_disp : Core → ℕ → ℕ
get_disp c p = (p - c.noncoll_addr) % c.local_max_size

-- The callbacks of `checkout_coll_nb`: a call for a home segment or for a cache block.
unfoldable pub checkout_call : Bool → Bool → CollMem → Call → Core → Option (Core × Bool)
checkout_call skip increment cm (Call.home_seg seg_addr seg_size pm_offset) c =
    H.checkout_seg increment seg_addr seg_size cm.home_pm pm_offset cm.home_all_mapped
      c.home_manager
    >>= λ (h, done). some (record c { home_manager = h }, done)
checkout_call skip increment cm (Call.cache_blk b owner pm_offset) c =
    K.checkout_blk skip increment b.blk_addr b.req_addr_b b.req_addr_e cm.win
      (some (c.inter2global_rank owner)) pm_offset c.cache_manager
    >>= λ (m, done). some (record c { cache_manager = m }, done)

unfoldable pub checkout_calls : Bool → Bool → CollMem → List Call → Core → Option (Core × Bool)
unfolding checkout_call
checkout_calls skip increment cm [] c = some (c, true)
checkout_calls skip increment cm (k ∷ ks) c = checkout_call skip increment cm k c >>= λ (c1, done).
    checkout_calls skip increment cm ks c1 >>= λ (c2, rest). some (c2, done && rest)

unfoldable pub checkout_coll_nb : Bool → Bool → ℕ → ℕ → Core → Option (Core × Bool)
unfolding checkout_calls get for_each_seg_blk
checkout_coll_nb skip increment addr size c =
    H.checkout_fast increment addr size c.home_manager >>= λ (h, hit).
    let c1 = record c { home_manager = h } in
    if hit
    then some (c1, true)
    else (K.checkout_fast skip increment addr size c1.cache_manager >>= λ (m, found).
        let c2 = record c1 { cache_manager = m } in
        elim found [
          | some completed ↦ some (c2, completed)
          | none ↦ get addr c2.cm_manager >>= λ cm.
              for_each_seg_blk c2.block_size c2.inter_my_rank cm addr size >>= λ ks.
              checkout_calls skip increment cm ks c2
        ])

-- The callback of `checkout_noncoll_nb`, for memory of the process `target`.
unfoldable pub checkout_blocks : Bool → Bool → ℕ → List BlockCall → Core → Option (Core × Bool)
unfolding get_disp
checkout_blocks skip increment target [] c = some (c, true)
checkout_blocks skip increment target (b ∷ bs) c =
    K.checkout_blk skip increment b.blk_addr b.req_addr_b b.req_addr_e c.noncoll_win (some target)
      (get_disp c b.blk_addr) c.cache_manager
    >>= λ (m, done).
        checkout_blocks skip increment target bs (record c { cache_manager = m }) >>= λ (c1, rest).
        some (c1, done && rest)

unfoldable pub checkout_noncoll_nb : Bool → Bool → ℕ → ℕ → Core → Option (Core × Bool)
unfolding has get_owner checkout_blocks for_each_block
checkout_noncoll_nb skip increment addr size c =
    let target = get_owner c addr in
    let remote = K.checkout_fast skip increment addr size c.cache_manager >>= λ (m, found).
    let c1 = record c { cache_manager = m } in
    elim found [
      | some completed ↦ some (c1, completed)
      | none ↦ checkout_blocks skip increment target (for_each_block c1.block_size addr size) c1
    ] in
    if has c addr && ltb target c.n_ranks
    then if c.is_locally_accessible target then some (c, true) else remote
    else none

unfoldable pub checkout_impl_nb : Bool → Bool → ℕ → ℕ → Core → Option (Core × Bool)
unfolding has checkout_noncoll_nb checkout_coll_nb
checkout_impl_nb skip increment addr size c =
    if has c addr
    then checkout_noncoll_nb skip increment addr size c
    else checkout_coll_nb skip increment addr size c

unfoldable pub checkin_call : Bool → Bool → CollMem → Call → Core → Option Core
checkin_call dirty decrement cm (Call.home_seg seg_addr seg_size pm_offset) c =
    H.checkin_seg decrement seg_addr cm.home_all_mapped c.home_manager >>= λ h.
    some (record c { home_manager = h })
checkin_call dirty decrement cm (Call.cache_blk b owner pm_offset) c =
    K.checkin_blk dirty decrement b.blk_addr b.req_addr_b b.req_addr_e c.cache_manager >>= λ m.
    some (record c { cache_manager = m })

unfoldable pub checkin_calls : Bool → Bool → CollMem → List Call → Core → Option Core
unfolding checkin_call
checkin_calls dirty decrement cm [] c = some c
checkin_calls dirty decrement cm (k ∷ ks) c =
    checkin_call dirty decrement cm k c >>= λ c1. checkin_calls dirty decrement cm ks c1

unfoldable pub checkin_coll : Bool → Bool → ℕ → ℕ → Core → Option Core
unfolding checkin_calls get for_each_seg_blk
checkin_coll dirty decrement addr size c =
    H.checkin_fast decrement addr size c.home_manager >>= λ (h, hit).
    let c1 = record c { home_manager = h } in
    if hit
    then some c1
    else (K.checkin_fast dirty decrement addr size c1.cache_manager >>= λ (m, found).
        let c2 = record c1 { cache_manager = m } in
        let slow = get addr c2.cm_manager >>= λ cm.
        for_each_seg_blk c2.block_size c2.inter_my_rank cm addr size >>= λ ks.
        checkin_calls dirty decrement cm ks c2 in
        if found then some c2 else slow)

unfoldable pub checkin_blocks : Bool → Bool → List BlockCall → Core → Option Core
checkin_blocks dirty decrement [] c = some c
checkin_blocks dirty decrement (b ∷ bs) c =
    K.checkin_blk dirty decrement b.blk_addr b.req_addr_b b.req_addr_e c.cache_manager >>= λ m.
    checkin_blocks dirty decrement bs (record c { cache_manager = m })

unfoldable pub checkin_noncoll : Bool → Bool → ℕ → ℕ → Core → Option Core
unfolding has get_owner checkin_blocks for_each_block
checkin_noncoll dirty decrement addr size c =
    let target = get_owner c addr in
    let remote = K.checkin_fast dirty decrement addr size c.cache_manager >>= λ (m, found).
    let c1 = record c { cache_manager = m } in
    if found
    then some c1
    else checkin_blocks dirty decrement (for_each_block c1.block_size addr size) c1 in
    if has c addr && ltb target c.n_ranks
    then if c.is_locally_accessible target then some c else remote
    else none

unfoldable pub checkin_impl : Bool → Bool → ℕ → ℕ → Core → Option Core
unfolding has checkin_noncoll checkin_coll
checkin_impl dirty decrement addr size c =
    if has c addr
    then checkin_noncoll dirty decrement addr size c
    else checkin_coll dirty decrement addr size c

unfoldable pub checkout_complete_impl : Core → Option Core
checkout_complete_impl c = H.checkout_complete c.home_manager >>= λ h.
    K.checkout_complete c.cache_manager >>= λ m.
    some (record c { home_manager = h; cache_manager = m })

-- The modes of a checkout: a write skips the fetch, and a read registers nothing dirty.
pub data Mode : Type 0 where
  read : Mode
  write : Mode
  read_write : Mode

abbrev pub skips_fetch : Mode → Bool
skips_fetch Mode.read = false
skips_fetch Mode.write = true
skips_fetch Mode.read_write = false

abbrev pub registers_dirty : Mode → Bool
registers_dirty Mode.read = false
registers_dirty Mode.write = true
registers_dirty Mode.read_write = true

unfoldable pub checkout_nb : Mode → ℕ → ℕ → Core → Option (Core × Bool)
unfolding checkout_impl_nb
checkout_nb mode addr size c =
    if not c.cache_manager.enable_vm_map || ((addr == 0) || (size == 0))
    then none
    else checkout_impl_nb (skips_fetch mode) true addr size c

unfoldable pub checkout : Mode → ℕ → ℕ → Core → Option Core
unfolding checkout_nb checkout_complete_impl
checkout mode addr size c = checkout_nb mode addr size c >>= λ (c1, done).
    if done then some c1 else checkout_complete_impl c1

unfoldable pub checkin : Mode → ℕ → ℕ → Core → Option Core
unfolding checkin_impl
checkin mode addr size c =
    if not c.cache_manager.enable_vm_map || ((addr == 0) || (size == 0))
    then none
    else checkin_impl (registers_dirty mode) true addr size c

-- The loop of `free_coll` over the blocks from offset `o` of a memory at `addr`, with `n` rounds left.
unfoldable pub evict_blocks : ℕ → ℕ → ℕ → Core → Option Core
evict_blocks zero addr o c = some c
evict_blocks (suc n) addr o c = H.ensure_evicted (addr + o) c.home_manager >>= λ h.
    L.ensure_evicted (addr + o) c.cache_manager >>= λ m.
    evict_blocks n addr (o + c.block_size) (record c { home_manager = h; cache_manager = m })

-- `free_coll`, without the comparison of the address with the other processes'.
unfoldable pub free_coll : ℕ → Core → Option Core
unfolding get evict_blocks destroy
free_coll addr c =
    if addr == 0
    then none
    else ensure_all_cache_clean c.cache_manager >>= λ m. get addr c.cm_manager >>= λ cm.
        if cm.addr == addr
        then (evict_blocks ((cm.effective_size + c.block_size - 1) / c.block_size) cm.addr 0
              (record c { cache_manager = m })
            >>= λ c1. destroy cm c1.cm_manager >>= λ colls. some (record c1 {
              cm_manager = colls;
              home_manager = H.clear_tlb c1.home_manager;
              cache_manager = L.clear_tlb c1.cache_manager;
            }))
        else none
