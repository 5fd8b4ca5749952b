-- ===== src/Core/Segments.antt =====
-- What `for_each_seg_blk` of core.hpp calls its functions with.
use itoyori_github_io.Base.{
  subst, ap, ◌∙◌, refl, ℕ, List, [], ◌∷◌, ◌++◌, ◌<◌, ◌≤◌, ◌+◌, ◌-◌, ◌%◌, ◌^◌, ◌≡◌, ◌≢◌, arith, min,
  max, Bool-cases, ◌==◌, inl, inr, Option, some, ◌>>=◌, le→leb,
}
use itoyori_github_io.Pow2.{word}
use itoyori_github_io.Pow2.Rounding.{pow_pos}
use itoyori_github_io.MemMapper.{Segment}
use itoyori_github_io.Core.Ranges.{Call, for_each_block}
use itoyori_github_io.Core.Collective.{
  CollMem, for_each_mem_segment, block_calls, segment_calls, all_calls, for_each_seg_blk,
}
use itoyori_github_io.Core.Blocks.{Tiles, for_each_block_lem}
use itoyori_github_io.Core.Mapper.{Holds, MapperLaws, Chain, segments_lem, Starts, starts_lem}
use itoyori_github_io.Core.Calls.{Calls, Calls-append, block_calls_lem}

-- What is asked of the memory and of a range of it.
abbrev pub Within : ℕ → CollMem → ℕ → ℕ → Type 0
Within k cm addr size =
    (k ≤ 64)
    × (cm.addr % (2 ^ k) ≡ 0)
    × (cm.addr + cm.effective_size ≤ word)
    × (cm.size ≤ cm.effective_size)
    × (cm.addr ≤ addr)
    × (addr + size ≤ cm.addr + cm.size)

segment_calls_lem :
    (k my_rank : ℕ) (cm : CollMem) (addr size : ℕ) (s : Segment) (lo : ℕ)
    → MapperLaws (2 ^ k) cm
    → Within k cm addr size
    → cm.addr + lo < addr + size
    → cm.addr + lo ≡ max (cm.addr + s.offset_b) addr
    → cm.get_segment lo ≡ some s
    → Holds (2 ^ k) cm lo s
    → (ks : List Call) × (segment_calls (2 ^ k) my_rank cm addr size s ≡ some ks)
      × Calls
          (2 ^ k)
          my_rank
          cm
          (addr + size)
          (cm.addr + lo)
          (min (cm.addr + s.offset_e) (addr + size))
          ks
unfolding segment_calls
segment_calls_lem k r cm addr size s lo m (k1, k2, k3, k4, k5, k6) l start e
      (h1, h2, h3, h4, h5, h6) =
    let p = pow_pos k in
    let stop : cm.addr + s.offset_b + (s.offset_e - s.offset_b) ≡ cm.addr + s.offset_e =
      omega arith in
    elim (Bool-cases (s.owner == r)) [
      | inl t ↦
          let whole : (cm.addr + lo) - cm.addr ≡ lo = omega arith in
          (
            Call.home_seg (cm.addr + s.offset_b) (s.offset_e - s.offset_b) s.pm_offset ∷ [],
            rw (t) refl,
            (
              (s, ap cm.get_segment whole ∙ e, ground (arith, t), refl, stop, refl),
              omega arith,
              omega arith,
              ap (λ (x : ℕ). min x (addr + size)) stop,
            ),
          )
      | inr g ↦
          let hi = min (cm.addr + s.offset_e) (addr + size) in
          let ne : s.owner ≢ r = ground (arith, g) in
          let tiles =
            for_each_block_lem k (cm.addr + lo) (hi - (cm.addr + lo)) k1 (omega arith)
              (omega arith) in
          let top : cm.addr + lo + (hi - (cm.addr + lo)) ≡ hi = omega arith in
          let same : for_each_block (2 ^ k) (max (cm.addr + s.offset_b) addr) (
                min (cm.addr + s.offset_b + (s.offset_e - s.offset_b)) (addr + size)
                - max (cm.addr + s.offset_b) addr)
              ≡ for_each_block (2 ^ k) (cm.addr + lo) (hi - (cm.addr + lo)) =
            subst
              (λ (x : ℕ).
                for_each_block (2 ^ k) x
                  (min (cm.addr + s.offset_b + (s.offset_e - s.offset_b)) (addr + size) - x)
                ≡ for_each_block (2 ^ k) (cm.addr + lo) (hi - (cm.addr + lo)))
              start
              (ap
                (λ (x : ℕ).
                  for_each_block (2 ^ k) (cm.addr + lo) (min x (addr + size) - (cm.addr + lo)))
                stop) in
          let (ks, run, c) =
            block_calls_lem (2 ^ k) r cm s (addr + size) lo (cm.addr + lo) hi
              (for_each_block (2 ^ k) (cm.addr + lo) (hi - (cm.addr + lo))) m p k2 (omega arith) e
              (h1, h2, h3, h4, h5, h6) ne (omega arith) (omega arith)
              (subst
                (λ (x : ℕ).
                  Tiles (2 ^ k) (cm.addr + lo) x
                    (for_each_block (2 ^ k) (cm.addr + lo) (hi - (cm.addr + lo))))
                top tiles) in
          (ks, rw (g) (ap (block_calls (2 ^ k) cm s (cm.addr + s.offset_b)) same ∙ run), c)
    ]

all_calls_lem :
    (k my_rank : ℕ) (cm : CollMem) (addr size lo : ℕ) (ss : List Segment)
    → MapperLaws (2 ^ k) cm
    → Within k cm addr size
    → addr ≤ cm.addr + lo
    → Chain (2 ^ k) cm lo (addr + size - cm.addr) ss
    → Starts cm addr lo
    → (ks : List Call) × (all_calls (2 ^ k) my_rank cm addr size ss ≡ some ks)
      × Calls (2 ^ k) my_rank cm (addr + size) (min (cm.addr + lo) (addr + size)) (addr + size) ks
unfolding all_calls
all_calls_lem k r cm addr size lo [] m w a c i = ([], refl, omega arith)
all_calls_lem k r cm addr size lo (s ∷ ss) m w a (l, e, h, c) i =
    let (h1, h2, h3, h4, h5, h6) = h in
    let start = starts_lem (2 ^ k) cm addr lo s m a e h i in
    let in_range : lo < cm.effective_size = omega arith in
    let (ks, run, d) = segment_calls_lem k r cm addr size s lo m w (omega arith) start e h in
    let next : cm.get_segment (s.offset_e - 1) ≡ some s =
      m.same lo (s.offset_e - 1) s in_range e (omega arith) (omega arith) in
    let (rest, run', d') =
      all_calls_lem k r cm addr size s.offset_e ss m w (omega arith) c
        (inr (s, omega arith, next, refl)) in
    let here : cm.addr + lo ≡ min (cm.addr + lo) (addr + size) = omega arith in
    (
      ks ++ rest,
      ap
            (λ (o : Option (List Call)).
              o >>= λ calls. all_calls (2 ^ k) r cm addr size ss >>= λ rest. some (calls ++ rest))
            run
          ∙ ap (λ (o : Option (List Call)). o >>= λ rest. some (ks ++ rest)) run',
      subst (λ (x : ℕ). Calls (2 ^ k) r cm (addr + size) x (addr + size) (ks ++ rest)) here
          (Calls-append (2 ^ k) r cm (addr + size) (cm.addr + lo)
            (min (cm.addr + s.offset_e) (addr + size)) (addr + size) ks rest d d'),
    )

-- For any mapper that keeps to its laws and an aligned memory within 64 bits, `for_each_seg_blk` of a
-- non-empty range of the memory, with blocks of a power of two, neither aborts nor runs out of fuel.
-- Its calls go through the range from begin to end without a gap or an overlap: a home segment for
-- what this process owns, and otherwise a non-empty part of one aligned block, at the place in the
-- owner's memory that the mapper gives it, which has room for the block.
pub for_each_seg_blk_lem :
    (k my_rank : ℕ) (cm : CollMem) (addr size : ℕ)
    → MapperLaws (2 ^ k) cm
    → Within k cm addr size
    → 0 < size
    → (ks : List Call) × (for_each_seg_blk (2 ^ k) my_rank cm addr size ≡ some ks)
      × Calls (2 ^ k) my_rank cm (addr + size) addr (addr + size) ks
unfolding for_each_seg_blk for_each_mem_segment
for_each_seg_blk_lem k r cm addr size m w n =
    let (w1, w2, w3, w4, w5, w6) = w in
    let top : addr - cm.addr + size ≡ addr + size - cm.addr = omega arith in
    let (ss, run, c) =
      segments_lem size (2 ^ k) cm (addr - cm.addr) (addr - cm.addr + size) m (omega arith)
        (omega arith) in
    let whole : addr ≡ cm.addr + (addr - cm.addr) = omega arith in
    let first : min (cm.addr + (addr - cm.addr)) (addr + size) ≡ addr = omega arith in
    let (ks, run', d) =
      all_calls_lem k r cm addr size (addr - cm.addr) ss m w (omega arith)
        (subst (λ (x : ℕ). Chain (2 ^ k) cm (addr - cm.addr) x ss) top c) (inl whole) in
    (
      ks,
      rw (le→leb cm.addr addr (omega arith), le→leb (addr - cm.addr + size) cm.size (omega arith))
          (ap (λ (o : Option (List Segment)). o >>= λ segs. all_calls (2 ^ k) r cm addr size segs)
              run
            ∙ run'),
      subst (λ (x : ℕ). Calls (2 ^ k) r cm (addr + size) x (addr + size) ks) first d,
    )
