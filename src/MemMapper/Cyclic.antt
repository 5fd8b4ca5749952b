-- ===== src/MemMapper/Cyclic.antt =====
-- include/ityr/ori/mem_mapper.hpp: `cyclic`, which deals segments out to the processes in turn.
-- `none` is a failed ITYR_CHECK.
pub mod Laws
use itoyori_github_io.Base.{
  ℕ, ◌+◌, ◌/◌, ◌%◌, Bool, false, ◌&&◌, ◌==◌, Option, none, some, ltb, leb, if◌then◌else◌,
}
use itoyori_github_io.Pow2.{add64}
use itoyori_github_io.MemMapper.{mul64, ceil_div, Segment, NumaSegment}

-- `bs` is the template argument `BlockSize`.
pub record Cyclic : Type 0 where
  pub bs : ℕ
  pub size : ℕ
  pub n_inter_ranks : ℕ
  pub n_intra_ranks : ℕ
  pub seg_size : ℕ

unfoldable pub init : ℕ → ℕ → ℕ → ℕ → ℕ → Option Cyclic
init bs size n_inter n_intra seg_size =
    if leb bs seg_size && seg_size % bs == 0
    then some (record {
      bs = bs;
      size = size;
      n_inter_ranks = n_inter;
      n_intra_ranks = n_intra;
      seg_size = seg_size;
    })
    else none

unfoldable pub local_size_impl : Cyclic → ℕ
local_size_impl m =
    let n_blk_g = ceil_div m.size m.seg_size in
    let n_blk_l = ceil_div n_blk_g m.n_inter_ranks in mul64 n_blk_l m.seg_size

unfoldable pub local_size : Cyclic → ℕ → ℕ
unfolding local_size_impl
local_size m inter_rank = local_size_impl m

unfoldable pub effective_size : Cyclic → ℕ
unfolding local_size_impl
effective_size m = mul64 (local_size_impl m) m.n_inter_ranks

unfoldable pub get_segment : Cyclic → ℕ → Option Segment
unfolding effective_size
get_segment m offset =
    let blk_id_g = offset / m.seg_size in
    let blk_id_l = blk_id_g / m.n_inter_ranks in
    if ltb offset (effective_size m)
    then some (record {
      owner = blk_id_g % m.n_inter_ranks;
      offset_b = mul64 blk_id_g m.seg_size;
      offset_e = mul64 (add64 blk_id_g 1) m.seg_size;
      pm_offset = mul64 blk_id_l m.seg_size;
    })
    else none

unfoldable pub get_numa_segment : Cyclic → ℕ → ℕ → NumaSegment
unfolding local_size
get_numa_segment m inter_rank pm_offset = record {
  owner = none;
  pm_offset_b = 0;
  pm_offset_e = local_size m inter_rank;
}

unfoldable pub should_map_all_home : Cyclic → Bool
should_map_all_home m = false
