-- ===== src/Core/Distributed.antt =====
-- A collective memory that the mapper `block` of mem_mapper.hpp distributes keeps to the laws of a
-- mapper.
use itoyori_github_io.Base.{ℕ, Bool}
use itoyori_github_io.MemMapper.Block.{Block, local_size, effective_size, get_segment}
use itoyori_github_io.MemMapper.Block.Laws.{
  IsValid, get_segment_lem, get_segment_same, get_segment_aligned,
}
use itoyori_github_io.Core.Collective.{CollMem}
use itoyori_github_io.Core.Mapper.{MapperLaws}

-- The memory that `coll_mem` makes with the mapper `m`.
abbrev pub block_mem : Block → ℕ → ℕ → ℕ → ℕ → ℕ → Bool → CollMem
block_mem m size id addr win home_pm home_all_mapped = record {
  size = size;
  id = id;
  get_segment = get_segment m;
  local_size = local_size m;
  addr = addr;
  effective_size = effective_size m;
  home_pm = home_pm;
  win = win;
  home_all_mapped = home_all_mapped;
}

pub block_mem-MapperLaws :
    (m : Block) (size id addr win home_pm : ℕ) (home_all_mapped : Bool)
    → IsValid m
    → MapperLaws m.bs (block_mem m size id addr win home_pm home_all_mapped)
block_mem-MapperLaws m size id addr win home_pm home_all_mapped v = record {
  total = λ offset h.
      let (s, e, (r, l, u, t, room)) = get_segment_lem m offset v h in
      let (a, b) = get_segment_aligned m offset s v h e in (s, e, (l, u, t, room, a, b));
  same = λ offset offset' s h e l u. get_segment_same m offset offset' s v h e l u;
}
