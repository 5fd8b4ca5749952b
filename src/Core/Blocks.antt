-- ===== src/Core/Blocks.antt =====
-- What `for_each_block` of core.hpp calls its function with.
use itoyori_github_io.Pow2.{round_down_pow2, word}
use itoyori_github_io.Pow2.Rounding.{round_down_pow2_lem, pow_pos}
use itoyori_github_io.CacheManager.Checkout.{request_ok}
use itoyori_github_io.Core.Ranges.{BlockCall, blocks, for_each_block}
use native.Mathlib.Nat.{add-mod_right}
use itoyori_github_io.Base.{
  subst, ◌∙◌, ℕ, List, [], ◌∷◌, zero, suc, ◌<◌, ◌≤◌, ◌+◌, ◌-◌, ◌%◌, ◌^◌, ◌≡◌, true, arith, min, max,
  Bool-cases, ltb, inl, inr,
}

-- The calls go from `lo` to `hi` without a gap, each for a non-empty part of an aligned block.
abbrev pub Tiles : ℕ → ℕ → ℕ → List BlockCall → Type 0
Tiles block_size lo hi [] = lo ≡ hi
Tiles block_size lo hi (b ∷ bs) =
    (b.req_addr_b ≡ lo)
    × (request_ok block_size b.blk_addr b.req_addr_b b.req_addr_e ≡ true)
    × (b.blk_addr % block_size ≡ 0)
    × Tiles block_size b.req_addr_e hi bs

blocks_lem :
    (fuel block_size addr size blk_addr : ℕ)
    → 0 < block_size
    → 0 < size
    → addr + size - blk_addr ≤ fuel
    → addr < blk_addr + block_size
    → blk_addr % block_size ≡ 0
    → Tiles block_size
        (min (max addr blk_addr) (addr + size))
        (addr + size)
        (blocks fuel block_size addr size blk_addr)
unfolding blocks request_ok
blocks_lem zero block_size addr size blk_addr p n f h a = omega arith
blocks_lem (suc fuel) block_size addr size blk_addr p n f h a =
    elim (Bool-cases (ltb blk_addr (addr + size))) [
      | inl t ↦
          let next : (blk_addr + block_size) % block_size ≡ 0 =
            add-mod_right blk_addr block_size ∙ a in
          let rest =
            blocks_lem fuel block_size addr size (blk_addr + block_size) p n (ground (arith, t))
              (omega arith) next in
          let same : min (max addr (blk_addr + block_size)) (addr + size)
              ≡ min (addr + size) (blk_addr + block_size) =
            omega (arith, h) in
          rw (t) (
            ground (arith, t, n),
            ground (arith, t, n, h, p),
            a,
            subst
                (λ (lo : ℕ).
                  Tiles block_size lo (addr + size)
                    (blocks fuel block_size addr size (blk_addr + block_size)))
                same rest,
          )
      | inr g ↦ rw (g) (ground (arith, g))
    ]

-- At a block size that is a power of two and a range of positive size within 64 bits, the calls go
-- through the range from its begin to its end without a gap or an overlap. Each is for a non-empty
-- part of one block, and passes the checks of the cache manager on a block and a request.
pub for_each_block_lem :
    (k addr size : ℕ)
    → k ≤ 64
    → addr + size ≤ word
    → 0 < size
    → Tiles (2 ^ k) addr (addr + size) (for_each_block (2 ^ k) addr size)
unfolding for_each_block
for_each_block_lem k addr size small fits n =
    let (aligned, le, lt) = round_down_pow2_lem addr k (omega arith) small in
    let blk = round_down_pow2 addr (2 ^ k) in
    let whole =
      blocks_lem (addr + size - blk) (2 ^ k) addr size blk (pow_pos k) n (omega arith) lt aligned in
    subst
      (λ (lo : ℕ).
        Tiles (2 ^ k) lo (addr + size) (blocks (addr + size - blk) (2 ^ k) addr size blk))
      (omega arith) whole
