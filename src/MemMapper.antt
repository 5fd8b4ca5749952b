-- ===== src/MemMapper.antt =====
-- include/ityr/ori/mem_mapper.hpp: how the blocks of a global memory region are spread over processes
-- and over the NUMA nodes of a process. Offsets and counts are 64-bit and wrap. Ranks are `int`s of the
-- source that are not negative; a rank that is computed is below the number of ranks, so no narrowing
-- is written out.
pub mod Division
pub mod Block
pub mod BlockAdws
pub mod Cyclic
mod Tests
use itoyori_github_io.Base.{ℕ, ◌*◌, ◌%◌, ◌/◌, Option}
use itoyori_github_io.Pow2.{word, add64, sub64}

abbrev pub mul64 : ℕ → ℕ → ℕ
mul64 a b = a * b % word

-- `(a + b - 1) / b`
abbrev pub ceil_div : ℕ → ℕ → ℕ
ceil_div a b = sub64 (add64 a b) 1 / b

pub record Segment : Type 0 where
  pub owner : ℕ
  pub offset_b : ℕ
  pub offset_e : ℕ
  pub pm_offset : ℕ

-- An owner of -1 (interleave over all nodes) is `none`.
pub record NumaSegment : Type 0 where
  pub owner : Option ℕ
  pub pm_offset_b : ℕ
  pub pm_offset_e : ℕ
