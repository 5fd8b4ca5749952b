-- ===== src/CacheManager.antt =====
-- include/ityr/ori/cache_manager.hpp: `cache_manager<BlockSize>`, the cache of remote memory in blocks.
-- A pointer to a cache block is the index of its slot in the cache system, an address or a window is a
-- number (0 is `nullptr`). What is asked of the network and of the operating system is kept in a log,
-- in order. `none` is an abort: a failed ITYR_CHECK, `die`, or an access outside of an array.
pub mod Writeback
pub mod Fetch
pub mod Lookup
pub mod Checkout
pub mod Release
pub mod Inv
pub mod Clean
pub mod Sent
pub mod Loop
pub mod Round
pub mod Cleaning
pub mod Given
pub mod Carried
pub mod Blocks
pub mod Coverage
pub mod Fetched
pub mod CheckedOut
pub mod Counted
pub mod Supplied
pub mod Provided
pub mod CheckedIn
pub mod Dirtying
pub mod Checkin
pub mod Shrunk
pub mod Acquired
mod Tests
use itoyori_github_io.Base.{
  ℕ, ◌+◌, ◌*◌, ◌%◌, ◌^◌, Bool, true, false, ◌&&◌, not, Option, none, some, List, [], ◌∷◌, ◌++◌,
  ◌==◌, if◌then◌else◌, ◌>>=◌, get_elem?, set,
}
use itoyori_github_io.CacheSystem.{Slot, CacheSystem}
use itoyori_github_io.RegionSet.{RegionSet}
use itoyori_github_io.Tlb.{Tlb}

-- `cache_block`. The owner is `none` for -1.
pub record Block : Type 0 where
  pub entry_idx : ℕ
  pub addr : ℕ
  pub mapped_addr : ℕ
  pub win : ℕ
  pub owner : Option ℕ
  pub pm_offset : ℕ
  pub ref_count : ℕ
  pub writeback_epoch : ℕ
  pub valid_regions : RegionSet
  pub dirty_regions : RegionSet

-- What the manager asks for: `rma::get_nb` and `rma::put_nb` between an offset in the cache's memory
-- and a displacement in a window of a process, `rma::flush`, and the changes of the mappings.
pub data Request : Type 0 where
  get_nb : (cache_offset size win : ℕ) → Option ℕ → (disp : ℕ) → Request
  put_nb : (cache_offset size win : ℕ) → Option ℕ → (disp : ℕ) → Request
  flush : (win : ℕ) → Request
  unmap : (addr size : ℕ) → Request
  map_to_vm : (addr size pm_offset : ℕ) → Request

-- The fields, with those of the release manager's own `rma_data`, and the constants of the build.
pub record Manager : Type 0 where
  pub enable_vm_map : Bool
  pub enable_write_through : Bool
  pub enable_lazy_release : Bool
  pub block_size : ℕ
  pub sub_block_size : ℕ
  pub n_ranks : ℕ
  pub cs : CacheSystem Block
  pub cache_tlb : Tlb ℕ (Option ℕ)
  pub fetching_wins : List ℕ
  pub cache_blocks_to_map : List ℕ
  pub dirty_cache_blocks : List ℕ
  pub max_dirty_cache_blocks : ℕ
  pub epoch : ℕ
  pub writing_back_wins : List ℕ
  pub has_dirty_cache : Bool
  pub current_epoch : ℕ
  pub requested_epoch : ℕ
  pub readonly_regions : RegionSet
  pub log : List Request

abbrev pub is_empty {ℓ} : {A : Type ℓ} → List A → Bool
is_empty [] = true
is_empty (x ∷ xs) = false

-- An epoch is a `uint64_t`.
abbrev pub next_epoch : ℕ → ℕ
next_epoch e = (e + 1) % 2 ^ 64

-- `cb.entry_idx * BlockSize`: an `int` by a `block_size_t`, of 32 bits.
abbrev pub cache_offset : ℕ → ℕ → ℕ
cache_offset entry_idx block_size = entry_idx * block_size % 2 ^ 32

abbrev pub slot : ℕ → Manager → Option (Slot Block)
slot i m = get_elem? m.cs.entries i

-- A write to the block in slot `i`, which holds `s`.
abbrev pub put_block : ℕ → Slot Block → Block → Manager → Manager
put_block i s b m = record m {
  cs = record (m.cs) { entries = set m.cs.entries i (record s { entry = b }) };
}

-- `cache_block::is_writing_back`, with the manager's epoch.
abbrev pub is_writing_back : ℕ → Block → Bool
is_writing_back e b = b.writeback_epoch == e

-- `cache_block::is_evictable`
abbrev pub is_evictable : ℕ → Block → Bool
is_evictable e b = b.ref_count == 0 && (is_empty b.dirty_regions && not (is_writing_back e b))
