-- ===== src/MemMapper/Tests.antt =====
-- The test cases of mem_mapper.hpp, and the theorems at concrete inputs.
use itoyori_github_io.Base.{ℕ, ◌+◌, ◌-◌, ◌*◌, ◌≡◌, refl, arith, some}
use itoyori_github_io.MemMapper.{Segment}
use itoyori_github_io.MemMapper.Block
use itoyori_github_io.MemMapper.Block.{Block}
use itoyori_github_io.MemMapper.BlockAdws.{BlockAdws}
use itoyori_github_io.MemMapper.Cyclic
use itoyori_github_io.MemMapper.Cyclic.{Cyclic}
use itoyori_github_io.MemMapper.Block.Laws.{
  get_segment_lem, get_segment_same, get_numa_segment_lem, effective_size_bounds,
}
use itoyori_github_io.MemMapper.Cyclic.Laws.{location_injective}

abbrev kb64 : ℕ
kb64 = 65536

-- 14 blocks over 4 processes of 2 nodes
abbrev block14 : Block
block14 = record { bs = kb64; n_inter_ranks = 4; n_intra_ranks = 2; n_blk = 14 }

abbrev adws14 : BlockAdws
adws14 = record { bs = kb64; n_inter_ranks = 4; n_intra_ranks = 2; n_blk = 14 }

abbrev cyclic12 : Cyclic
cyclic12 = record {
  bs = kb64;
  size = kb64 * 24;
  n_inter_ranks = 4;
  n_intra_ranks = 2;
  seg_size = kb64 * 2;
}

abbrev segment : ℕ → ℕ → ℕ → ℕ → Segment
segment o b e p = record { owner = o; offset_b = b; offset_e = e; pm_offset = p }

init_test : Block.init kb64 (kb64 * 14 - 1) 4 2 ≡ block14
unfolding Block.init
init_test = refl

local_size_test : (Block.local_size block14 0 ≡ kb64 * 4) × (Block.local_size block14 3 ≡ kb64 * 3)
unfolding Block.local_size
local_size_test = (refl, refl)

get_segment_test : Block.get_segment block14 (kb64 * 5) ≡ some (segment 1 (kb64 * 4) (kb64 * 7) 0)
unfolding Block.get_segment
get_segment_test = refl

cyclic_test :
    Cyclic.get_segment cyclic12 (kb64 * 10 + 2)
    ≡ some (segment 1 (kb64 * 10) (kb64 * 12) (kb64 * 2))
unfolding Cyclic.get_segment
cyclic_test = refl

get_segment_lem_example :
    (s : Segment) × (Block.get_segment block14 (kb64 * 5) ≡ some s)
    × Block.Laws.Holds block14 (kb64 * 5) s
unfolding Block.effective_size
get_segment_lem_example = get_segment_lem block14 (kb64 * 5) (omega arith) (omega arith)

abbrev place : ℕ
place = kb64 * 10 + 2

location_injective_example : place ≡ place
unfolding Cyclic.effective_size Cyclic.get_segment
location_injective_example =
    location_injective cyclic12 place place (segment 1 (kb64 * 10) (kb64 * 12) (kb64 * 2))
      (segment 1 (kb64 * 10) (kb64 * 12) (kb64 * 2)) (omega arith) (omega arith) (omega arith) refl
      refl refl refl
