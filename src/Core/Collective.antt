-- ===== src/Core/Collective.antt =====
-- Collective memory: coll_mem.hpp and coll_mem_manager.hpp, with the loop over segments and blocks
-- in core.hpp.
use itoyori_github_io.Base.{
  ℕ, ◌+◌, ◌-◌, Bool, ◌&&◌, Option, none, some, List, [], ◌∷◌, ◌++◌, ◌==◌, ltb, leb, if◌then◌else◌,
  ◌>>=◌, suc, zero, min, max, get_elem?, set, length,
}
use itoyori_github_io.MemMapper.{Segment}
use itoyori_github_io.Core.Ranges.{BlockCall, Call, for_each_block}

-- `coll_mem`. The virtual functions of its mapper are fields; `addr` and `effective_size` are those of
-- its virtual memory, `win` its window and `home_pm` its physical memory.
pub record CollMem : Type 0 where
  pub size : ℕ
  pub id : ℕ
  pub get_segment : ℕ → Option Segment
  pub local_size : ℕ → ℕ
  pub addr : ℕ
  pub effective_size : ℕ
  pub home_pm : ℕ
  pub win : ℕ
  pub home_all_mapped : Bool

-- The loop of `for_each_mem_segment`. A segment ends after the offset, so the rest of the range is
-- enough fuel; `none` is an abort, or that the fuel has run out.
unfoldable pub segments : ℕ → CollMem → ℕ → ℕ → Option (List Segment)
segments zero cm offset offset_e = if ltb offset offset_e then none else some []
segments (suc fuel) cm offset offset_e =
    let next = cm.get_segment offset >>= λ seg.
    segments fuel cm seg.offset_e offset_e >>= λ rest. some (seg ∷ rest) in
    if ltb offset offset_e then next else some []

unfoldable pub for_each_mem_segment : CollMem → ℕ → ℕ → Option (List Segment)
unfolding segments
for_each_mem_segment cm addr size =
    let offset_b = addr - cm.addr in
    if leb cm.addr addr && leb (offset_b + size) cm.size
    then segments size cm offset_b (offset_b + size)
    else none

-- The calls for the blocks of a segment at `seg_addr` that another process owns.
unfoldable pub block_calls : ℕ → CollMem → Segment → ℕ → List BlockCall → Option (List Call)
block_calls block_size cm seg seg_addr [] = some []
block_calls block_size cm seg seg_addr (b ∷ bs) =
    let pm_offset = seg.pm_offset + (b.blk_addr - seg_addr) in
    let rest = block_calls block_size cm seg seg_addr bs in
    if leb (pm_offset + block_size) (cm.local_size seg.owner)
    then (rest >>= λ calls. some (Call.cache_blk b seg.owner pm_offset ∷ calls))
    else none

unfoldable pub segment_calls : ℕ → ℕ → CollMem → ℕ → ℕ → Segment → Option (List Call)
unfolding block_calls for_each_block
segment_calls block_size my_rank cm addr size seg =
    let seg_addr = cm.addr + seg.offset_b in
    let seg_size = seg.offset_e - seg.offset_b in
    let addr_b = max seg_addr addr in
    let addr_e = min (seg_addr + seg_size) (addr + size) in
    if seg.owner == my_rank
    then some (Call.home_seg seg_addr seg_size seg.pm_offset ∷ [])
    else block_calls block_size cm seg seg_addr (for_each_block block_size addr_b (addr_e - addr_b))

unfoldable pub all_calls : ℕ → ℕ → CollMem → ℕ → ℕ → List Segment → Option (List Call)
unfolding segment_calls
all_calls block_size my_rank cm addr size [] = some []
all_calls block_size my_rank cm addr size (s ∷ ss) =
    segment_calls block_size my_rank cm addr size s >>= λ calls.
    all_calls block_size my_rank cm addr size ss >>= λ rest. some (calls ++ rest)

unfoldable pub for_each_seg_blk : ℕ → ℕ → CollMem → ℕ → ℕ → Option (List Call)
unfolding for_each_mem_segment all_calls
for_each_seg_blk block_size my_rank cm addr size =
    for_each_mem_segment cm addr size >>= λ segs. all_calls block_size my_rank cm addr size segs

-- `coll_mem_manager`: the memories by their ids, and the list of begin, end and id.
pub record Colls : Type 0 where
  pub coll_mems : List (Option CollMem)
  pub coll_mem_ids : List (ℕ × ℕ × ℕ)

-- The loop of `get`: the first range with the address. `none` is `die`, or an `id` that is not there.
unfoldable pub find_id : ℕ → List (ℕ × ℕ × ℕ) → Option ℕ
find_id addr [] = none
find_id addr ((addr_begin, addr_end, id) ∷ ids) =
    if leb addr_begin addr && ltb addr addr_end then some id else find_id addr ids

unfoldable pub get : ℕ → Colls → Option CollMem
unfolding find_id
get addr cs = find_id addr cs.coll_mem_ids >>= λ id. get_elem? cs.coll_mems id >>= λ cm. cm

-- `create`, with the memory that the constructor makes for an id.
unfoldable pub create : (ℕ → CollMem) → Colls → Colls × CollMem
create make cs =
    let id = length cs.coll_mems in
    let cm = make id in
    (
      record {
        coll_mems = cs.coll_mems ++ (some cm ∷ []);
        coll_mem_ids = cs.coll_mem_ids ++ ((cm.addr, cm.addr + cm.size, id) ∷ []);
      },
      cm,
    )

-- `std::find` and `erase`; `none` is the failed check.
unfoldable pub erase_id : ℕ × ℕ × ℕ → List (ℕ × ℕ × ℕ) → Option (List (ℕ × ℕ × ℕ))
erase_id (b, e, i) [] = none
erase_id (b, e, i) ((b', e', i') ∷ ids) =
    let rest = erase_id (b, e, i) ids >>= λ out. some ((b', e', i') ∷ out) in
    if (b == b') && ((e == e') && (i == i')) then some ids else rest

unfoldable pub destroy : CollMem → Colls → Option Colls
unfolding erase_id
destroy cm cs = erase_id (cm.addr, cm.addr + cm.size, cm.id) cs.coll_mem_ids >>= λ ids.
    some (record { coll_mems = set cs.coll_mems cm.id none; coll_mem_ids = ids })
