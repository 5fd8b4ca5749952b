-- ===== src/Core/Ranges.antt =====
-- The loop over the blocks of a range in ori/core.hpp: `for_each_block`.
use itoyori_github_io.Base.{ℕ, ◌+◌, ◌-◌, List, [], ◌∷◌, ltb, if◌then◌else◌, suc, zero, min, max}
use itoyori_github_io.Pow2.{round_down_pow2}

-- The arguments of the callback.
pub record BlockCall : Type 0 where
  pub blk_addr : ℕ
  pub req_addr_b : ℕ
  pub req_addr_e : ℕ

-- The loop from `blk_addr` on. A round goes on by a block, so the length of the range is enough fuel.
unfoldable pub blocks : ℕ → ℕ → ℕ → ℕ → ℕ → List BlockCall
blocks zero block_size addr size blk_addr = []
blocks (suc fuel) block_size addr size blk_addr =
    let calls =
      record {
        blk_addr = blk_addr;
        req_addr_b = max addr blk_addr;
        req_addr_e = min (addr + size) (blk_addr + block_size);
      }
      ∷ blocks fuel block_size addr size (blk_addr + block_size) in
    if ltb blk_addr (addr + size) then calls else []

unfoldable pub for_each_block : ℕ → ℕ → ℕ → List BlockCall
unfolding blocks
for_each_block block_size addr size =
    let blk_addr_b = round_down_pow2 addr block_size in
    blocks (addr + size - blk_addr_b) block_size addr size blk_addr_b

-- A call of one of the callbacks of `for_each_seg_blk`: `home_seg_fn` or `cache_blk_fn`.
pub data Call : Type 0 where
  home_seg : (seg_addr seg_size pm_offset : ℕ) → Call
  cache_blk : BlockCall → (owner pm_offset : ℕ) → Call
