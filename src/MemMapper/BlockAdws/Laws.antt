-- ===== src/MemMapper/BlockAdws/Laws.antt =====
-- Where `block_adws` of mem_mapper.hpp puts an offset.
use native.Mathlib.Nat.{div-lt_iff_lt-mul, mul-le-mul_right}
use itoyori_github_io.Base.{
  ℕ, ◌+◌, ◌-◌, ◌*◌, ◌/◌, ◌≤◌, ◌<◌, ◌≡◌, arith, max, some, lt→ltb, le→leb, refl, sym, ap, ◌∙◌,
}
use itoyori_github_io.Pow2.{word, sub64}
use itoyori_github_io.MemMapper.{mul64, Segment, NumaSegment}
use itoyori_github_io.MemMapper.Division.{
  Fits, down_run, down_bound, down_run_lem, down_run_unique, down_bound-le-blocks, in_blocks,
  of_blocks, range_top, range_room, room_blocks, round_blocks,
}
use itoyori_github_io.MemMapper.BlockAdws.{
  BlockAdws, init, local_size, effective_size, get_segment, get_numa_segment,
}

-- Positive sizes, and no product that wraps.
abbrev pub IsValid : BlockAdws → Type 0
IsValid m = (0 < m.bs) × Fits m.n_blk m.n_inter_ranks × (m.n_blk * m.bs < word)

-- The segment of run `s`.
abbrev run_segment : BlockAdws → ℕ → Segment
run_segment m s = record {
  owner = m.n_inter_ranks - s - 1;
  offset_b = mul64 (down_bound m.n_blk m.n_inter_ranks s) m.bs;
  offset_e = mul64 (down_bound m.n_blk m.n_inter_ranks (s + 1)) m.bs;
  pm_offset = 0;
}

abbrev run_of : BlockAdws → ℕ → ℕ
run_of m offset = down_run m.n_blk m.n_inter_ranks (offset / m.bs)

block_lt :
    (m : BlockAdws) (offset : ℕ) → IsValid m → offset < effective_size m → offset / m.bs < m.n_blk
unfolding effective_size
block_lt m offset v h = (div-lt_iff_lt-mul v.0).1 (omega arith)

get_segment_run :
    (m : BlockAdws) (offset : ℕ)
    → IsValid m
    → offset < effective_size m
    → get_segment m offset ≡ some (run_segment m (run_of m offset))
unfolding get_segment
get_segment_run m offset v h =
    let (r, l, u) =
      down_run_lem m.n_blk m.n_inter_ranks v.1 (offset / m.bs) (block_lt m offset v h) in
    rw (lt→ltb _ _ h, le→leb _ _ l, lt→ltb _ _ u)

-- What a segment promises of an offset in it: the owner is a process, the range is within the region
-- and contains the offset, and the owner's memory has room for the range.
abbrev pub Holds : BlockAdws → ℕ → Segment → Type 0
Holds m offset s =
    (s.owner < m.n_inter_ranks)
    × (s.offset_b ≤ offset)
    × (offset < s.offset_e)
    × (s.offset_e ≤ effective_size m)
    × (s.pm_offset + (s.offset_e - s.offset_b) ≤ local_size m s.owner)

-- The mirrored rank, and back.
mirror : (n s : ℕ) → s < n → (n - s - 1 < n) × (n - (n - s - 1) - 1 ≡ s)
mirror n s h = (omega arith, omega arith)

run_segment-Holds :
    (m : BlockAdws) (offset : ℕ)
    → IsValid m
    → offset < effective_size m
    → Holds m offset (run_segment m (run_of m offset))
unfolding local_size effective_size
run_segment-Holds m offset v h =
    let (r, l, u) =
      down_run_lem m.n_blk m.n_inter_ranks v.1 (offset / m.bs) (block_lt m offset v h) in
    let s = run_of m offset in
    let lo = down_bound m.n_blk m.n_inter_ranks s in
    let hi = down_bound m.n_blk m.n_inter_ranks (s + 1) in
    let top = down_bound-le-blocks m.n_blk m.n_inter_ranks v.1 (s + 1) (omega arith) in
    let small = mul-le-mul_right m.bs top in
    let (a, b) = in_blocks offset m.bs lo hi v.0 (omega arith) l u in
    (
      (mirror m.n_inter_ranks s r).0,
      a,
      b,
      range_top m.bs hi m.n_blk top v.2,
      let room = range_room m.bs lo hi v.0 (omega arith) (omega arith) in
          rw ((mirror m.n_inter_ranks s r).1) (omega arith),
    )

-- With positive sizes and products that fit in 64 bits, every offset of the region has a segment: the
-- checks pass, its owner is a process, its range lies in the region and contains the offset, and fits
-- in the memory that `local_size` gives the owner.
pub adws_get_segment_lem :
    (m : BlockAdws) (offset : ℕ)
    → IsValid m
    → offset < effective_size m
    → (s : Segment) × (get_segment m offset ≡ some s) × Holds m offset s
adws_get_segment_lem m offset v h =
    (run_segment m (run_of m offset), get_segment_run m offset v h, run_segment-Holds m offset v h)

-- All the offsets in the range of a segment have that same segment.
pub adws_get_segment_same :
    (m : BlockAdws) (offset offset' : ℕ) (s : Segment)
    → IsValid m
    → offset < effective_size m
    → get_segment m offset ≡ some s
    → s.offset_b ≤ offset'
    → offset' < s.offset_e
    → get_segment m offset' ≡ some s
adws_get_segment_same m offset offset' s v h e l u =
    let r = run_of m offset in
    let eq : some (run_segment m r) ≡ some s = sym (get_segment_run m offset v h) ∙ e in
    let (fr, fl, fu) =
      down_run_lem m.n_blk m.n_inter_ranks v.1 (offset / m.bs) (block_lt m offset v h) in
    let lo = down_bound m.n_blk m.n_inter_ranks r in
    let hi = down_bound m.n_blk m.n_inter_ranks (r + 1) in
    let b : s.offset_b ≡ mul64 lo m.bs = cc in
    let t : s.offset_e ≡ mul64 hi m.bs = cc in
    let top =
      range_top m.bs hi m.n_blk
        (down_bound-le-blocks m.n_blk m.n_inter_ranks v.1 (r + 1) (omega arith)) v.2 in
    let whole : effective_size m ≡ mul64 m.n_blk m.bs = unfold effective_size in refl in
    let h' : offset' < effective_size m = omega arith in
    let small =
      mul-le-mul_right m.bs
        (down_bound-le-blocks m.n_blk m.n_inter_ranks v.1 (r + 1) (omega arith)) in
    let (p, q) =
      of_blocks offset' m.bs lo hi v.0 (omega arith) (omega arith) (omega arith) (omega arith) in
    let same =
      down_run_unique m.n_blk m.n_inter_ranks v.1 (offset' / m.bs) r (block_lt m offset' v h') fr p
        q in
    get_segment_run m offset' v h' ∙ ap (λ (t : ℕ). some (run_segment m t)) same ∙ eq

-- The region is the requested size rounded up to whole blocks.
pub adws_effective_size_bounds :
    (bs size n_inter n_intra : ℕ)
    → 0 < bs
    → 0 < size
    → size + bs ≤ word
    → (size ≤ effective_size (init bs size n_inter n_intra))
      × (effective_size (init bs size n_inter n_intra) < size + bs)
unfolding effective_size init
adws_effective_size_bounds bs size n_inter n_intra h k w =
    let b = round_blocks bs size h k w in (b.1, b.2)

-- The number of blocks in the memory of a process.
abbrev pub local_blocks : BlockAdws → ℕ → ℕ
local_blocks m r =
    let s = m.n_inter_ranks - r - 1 in
    max 1
      (sub64 (down_bound m.n_blk m.n_inter_ranks (s + 1)) (down_bound m.n_blk m.n_inter_ranks s))

-- Every offset in a process's memory lies in a range of that memory, which is given to one of its
-- NUMA nodes: the checks pass.
pub adws_get_numa_segment_lem :
    (m : BlockAdws) (r pm_offset : ℕ)
    → 0 < m.bs
    → Fits (local_blocks m r) m.n_intra_ranks
    → local_blocks m r * m.bs + m.bs ≤ word
    → pm_offset < local_size m r
    → (s : NumaSegment) × (node : ℕ) × (get_numa_segment m r pm_offset ≡ some s)
      × (s.owner ≡ some node)
      × (node < m.n_intra_ranks)
      × (s.pm_offset_b ≤ pm_offset)
      × (pm_offset < s.pm_offset_e)
      × (s.pm_offset_e ≤ local_size m r)
unfolding get_numa_segment
adws_get_numa_segment_lem m r pm_offset h f w l =
    let k = local_blocks m r in
    let n = m.n_intra_ranks in
    let blocks = room_blocks m.bs k h w in
    let inside : pm_offset / m.bs < k = (div-lt_iff_lt-mul h).1 (omega arith) in
    let (fr, fl, fu) = down_run_lem k n f (pm_offset / m.bs) inside in
    let t = down_run k n (pm_offset / m.bs) in
    let lo = down_bound k n t in
    let hi = down_bound k n (t + 1) in
    let top = down_bound-le-blocks k n f (t + 1) (omega arith) in
    let small = mul-le-mul_right m.bs top in
    let (a, b) = in_blocks pm_offset m.bs lo hi h (omega arith) fl fu in
    (
      record { owner = some (n - t - 1); pm_offset_b = mul64 lo m.bs; pm_offset_e = mul64 hi m.bs },
      n - t - 1,
      rw (blocks, lt→ltb pm_offset (mul64 k m.bs) l, le→leb _ _ fl, lt→ltb _ _ fu),
      refl,
      (mirror n t fr).0,
      a,
      b,
      range_top m.bs hi k top (omega arith),
    )
