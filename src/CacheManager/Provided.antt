-- ===== src/CacheManager/Provided.antt =====
-- `checkout_blk` of cache_manager.hpp: the bytes that are asked for become valid.
use itoyori_github_io.CacheSystem.Inv as CI
use itoyori_github_io.RegionSet.{Region}
use itoyori_github_io.RegionSet.Cover.{covers}
use itoyori_github_io.CacheSystem.{Slot}
use itoyori_github_io.Tlb as T
use itoyori_github_io.CacheManager.{Block, Manager, Request, slot, is_evictable}
use itoyori_github_io.CacheManager.Fetch.{ends_with}
use itoyori_github_io.CacheManager.Checkout.{request_ok}
use itoyori_github_io.CacheManager.Carried.{was_valid, SamePlace}
use itoyori_github_io.CacheManager.Coverage.{Covered}
use itoyori_github_io.CacheManager.Supplied.{Supplies}
use itoyori_github_io.CacheManager.CheckedOut.{Holds}
use itoyori_github_io.Base.{
  ℕ, [], ◌<◌, Option, List, Bool, ◌≤◌, true, ◌≡◌, ◌≢◌, arith, false, some, ◌⊎◌, ◌++◌, ◌-◌,
}

-- What a checkout did for the block of `key` in slot `i`, which is `s` afterwards. `before` is the
-- block before the bytes came: it holds no byte as valid that was not in the cache, and its place at
-- home is the one that is asked for, or, if the slot was mapped at the address already, the slot's.
-- `gets` is what is fetched for it. If the flag is set, nothing is to be waited for and the block is
-- mapped at its address; if not, the block is to be mapped or the window is waited for.
pub record Delivers (skip : Bool) (key blk_addr win : ℕ) (owner : Option ℕ) (pm_offset : ℕ)
    (br : Region) (m m' : Manager) (done : Bool) (i : ℕ) (s : Slot Block) : Type 0 where
  pub before : Block
  pub sent : List Request
  pub gets : List Request
  pub logged : m'.log ≡ m.log ++ (sent ++ gets)
  pub indexed : before.entry_idx ≡ i
  pub valid_before : (x : ℕ) → covers before.valid_regions x ≡ true → was_valid key m x ≡ true
  pub home :
      (before.win ≡ win) × (before.owner ≡ owner) × (before.pm_offset ≡ pm_offset)
      ⊎ ((t : Slot Block) × (slot i m ≡ some t)
          × (t.entry.mapped_addr ≡ blk_addr)
          × SamePlace before t.entry)
  pub place : SamePlace s.entry before
  pub supplies : Supplies skip m.block_size br before gets
  pub flag :
      (done ≡ true) × (gets ≡ []) × (s.entry.mapped_addr ≡ blk_addr)
      ⊎ (done ≡ false)
        × ((CI.occurs i m'.cache_blocks_to_map ≢ 0) ⊎ (ends_with win m'.fetching_wins ≡ true))

-- A checked-out block: slot `i` is the key's, all the bytes that were asked for are valid, since they
-- were or are fetched, and a block that is referenced cannot be evicted.
abbrev pub ChecksOut :
    Bool → Bool → ℕ → ℕ → ℕ → Option ℕ → ℕ → Region → Manager → Option (Manager × Bool) → Type 0
ChecksOut skip increment key blk_addr win owner pm_offset br m result =
    (m' : Manager) × (done : Bool) × (i : ℕ) × (s : Slot Block) × (result ≡ some (m', done))
    × Holds key i m' s
    × Covered br s.entry.valid_regions
    × ((increment ≡ false) ⊎ (is_evictable m'.epoch s.entry ≡ false))
    × Delivers skip key blk_addr win owner pm_offset br m m' done i s

pub request_ne :
    (size blk_addr req_b req_e : ℕ)
    → request_ok size blk_addr req_b req_e ≡ true
    → req_b - blk_addr < req_e - blk_addr
unfolding request_ok
request_ne size blk_addr req_b req_e ok = ground (arith, ok)

pub request_inside :
    (size blk_addr req_b req_e : ℕ)
    → request_ok size blk_addr req_b req_e ≡ true
    → req_e - blk_addr ≤ size
unfolding request_ok
request_inside size blk_addr req_b req_e ok = ground (arith, ok)
