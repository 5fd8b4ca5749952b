-- ===== src/MemMapper/BlockAdws.antt =====
-- include/ityr/ori/mem_mapper.hpp: `block_adws`, which gives each
-- process one run of blocks, the first run to the last process. `rank - 1` and the like are taken at
-- ranks in range, where they do not go below 0.
-- `none` is a failed ITYR_CHECK.
pub mod Laws
use itoyori_github_io.Base.{
  ℕ, ◌+◌, ◌-◌, ◌/◌, max, Bool, true, ◌&&◌, Option, none, some, ltb, leb, if◌then◌else◌,
}
use itoyori_github_io.Pow2.{add64, sub64}
use itoyori_github_io.MemMapper.{mul64, ceil_div, Segment, NumaSegment}

-- `bs` is the template argument `BlockSize`.
pub record BlockAdws : Type 0 where
  pub bs : ℕ
  pub n_inter_ranks : ℕ
  pub n_intra_ranks : ℕ
  pub n_blk : ℕ

unfoldable pub init : ℕ → ℕ → ℕ → ℕ → BlockAdws
init bs size n_inter n_intra = record {
  bs = bs;
  n_inter_ranks = n_inter;
  n_intra_ranks = n_intra;
  n_blk = ceil_div size bs;
}

unfoldable pub get_seg_range : BlockAdws → ℕ → ℕ × ℕ
get_seg_range m seg_id =
    (mul64 seg_id m.n_blk / m.n_inter_ranks, mul64 (seg_id + 1) m.n_blk / m.n_inter_ranks)

unfoldable pub local_size : BlockAdws → ℕ → ℕ
unfolding get_seg_range
local_size m inter_rank =
    let seg_id = m.n_inter_ranks - inter_rank - 1 in
    let (blk_id_b, blk_id_e) = get_seg_range m seg_id in
    mul64 (max 1 (sub64 blk_id_e blk_id_b)) m.bs

unfoldable pub effective_size : BlockAdws → ℕ
effective_size m = mul64 m.n_blk m.bs

unfoldable pub get_segment : BlockAdws → ℕ → Option Segment
unfolding get_seg_range effective_size
get_segment m offset =
    let blk_id = offset / m.bs in
    let seg_id = sub64 (ceil_div (mul64 (add64 blk_id 1) m.n_inter_ranks) m.n_blk) 1 in
    let (blk_id_b, blk_id_e) = get_seg_range m seg_id in
    if ltb offset (effective_size m) && (leb blk_id_b blk_id && ltb blk_id blk_id_e)
    then some (record {
      owner = m.n_inter_ranks - seg_id - 1;
      offset_b = mul64 blk_id_b m.bs;
      offset_e = mul64 blk_id_e m.bs;
      pm_offset = 0;
    })
    else none

unfoldable pub get_numa_segment : BlockAdws → ℕ → ℕ → Option NumaSegment
unfolding local_size
get_numa_segment m inter_rank pm_offset =
    let n_numa_blk = ceil_div (local_size m inter_rank) m.bs in
    let blk_id = pm_offset / m.bs in
    let seg_id = sub64 (ceil_div (mul64 (add64 blk_id 1) m.n_intra_ranks) n_numa_blk) 1 in
    let blk_id_b = mul64 seg_id n_numa_blk / m.n_intra_ranks in
    let blk_id_e = mul64 (seg_id + 1) n_numa_blk / m.n_intra_ranks in
    if ltb pm_offset (local_size m inter_rank) && (leb blk_id_b blk_id && ltb blk_id blk_id_e)
    then some (record {
      owner = some (m.n_intra_ranks - seg_id - 1);
      pm_offset_b = mul64 blk_id_b m.bs;
      pm_offset_e = mul64 blk_id_e m.bs;
    })
    else none

unfoldable pub should_map_all_home : BlockAdws → Bool
should_map_all_home m = true
