-- ===== src/MemMapper/Block.antt =====
-- include/ityr/ori/mem_mapper.hpp: `block`, which gives each process one run of blocks.
-- `none` is a failed ITYR_CHECK.
pub mod Laws
use itoyori_github_io.Base.{
  ℕ, ◌+◌, ◌/◌, max, Bool, true, ◌&&◌, Option, none, some, ltb, leb, if◌then◌else◌,
}
use itoyori_github_io.Pow2.{sub64}
use itoyori_github_io.MemMapper.{mul64, ceil_div, Segment, NumaSegment}

-- `bs` is the template argument `BlockSize`.
pub record Block : Type 0 where
  pub bs : ℕ
  pub n_inter_ranks : ℕ
  pub n_intra_ranks : ℕ
  pub n_blk : ℕ

unfoldable pub init : ℕ → ℕ → ℕ → ℕ → Block
init bs size n_inter n_intra = record {
  bs = bs;
  n_inter_ranks = n_inter;
  n_intra_ranks = n_intra;
  n_blk = ceil_div size bs;
}

unfoldable pub get_seg_range : Block → ℕ → ℕ × ℕ
get_seg_range m seg_id = (
  ceil_div (mul64 seg_id m.n_blk) m.n_inter_ranks,
  ceil_div (mul64 (seg_id + 1) m.n_blk) m.n_inter_ranks,
)

unfoldable pub local_size : Block → ℕ → ℕ
unfolding get_seg_range
local_size m inter_rank =
    let (blk_id_b, blk_id_e) = get_seg_range m inter_rank in
    mul64 (max 1 (sub64 blk_id_e blk_id_b)) m.bs

unfoldable pub effective_size : Block → ℕ
effective_size m = mul64 m.n_blk m.bs

unfoldable pub get_segment : Block → ℕ → Option Segment
unfolding get_seg_range effective_size
get_segment m offset =
    let blk_id = offset / m.bs in
    let seg_id = mul64 blk_id m.n_inter_ranks / m.n_blk in
    let (blk_id_b, blk_id_e) = get_seg_range m seg_id in
    if ltb offset (effective_size m) && (leb blk_id_b blk_id && ltb blk_id blk_id_e)
    then some (record {
      owner = seg_id;
      offset_b = mul64 blk_id_b m.bs;
      offset_e = mul64 blk_id_e m.bs;
      pm_offset = 0;
    })
    else none

unfoldable pub get_numa_segment : Block → ℕ → ℕ → Option NumaSegment
unfolding local_size
get_numa_segment m inter_rank pm_offset =
    let n_numa_blk = ceil_div (local_size m inter_rank) m.bs in
    let blk_id = pm_offset / m.bs in
    let seg_id = mul64 blk_id m.n_intra_ranks / n_numa_blk in
    let blk_id_b = ceil_div (mul64 seg_id n_numa_blk) m.n_intra_ranks in
    let blk_id_e = ceil_div (mul64 (seg_id + 1) n_numa_blk) m.n_intra_ranks in
    if ltb pm_offset (local_size m inter_rank) && (leb blk_id_b blk_id && ltb blk_id blk_id_e)
    then some (record {
      owner = some seg_id;
      pm_offset_b = mul64 blk_id_b m.bs;
      pm_offset_e = mul64 blk_id_e m.bs;
    })
    else none

unfoldable pub should_map_all_home : Block → Bool
should_map_all_home m = true
