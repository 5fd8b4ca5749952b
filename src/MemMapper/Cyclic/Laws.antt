-- ===== src/MemMapper/Cyclic/Laws.antt =====
-- Where `cyclic` of mem_mapper.hpp puts an offset.
use native.Mathlib.Nat.{div-lt_iff_lt-mul, mul-le-mul_right, mul-le-mul_left, div-add-mod', mod-lt}
use native.Mathlib.Decide.{dec_lt}
use itoyori_github_io.Base.{
  ℕ, ◌+◌, ◌-◌, ◌*◌, ◌/◌, ◌%◌, ◌≤◌, ◌<◌, ◌≡◌, arith, some, lt→ltb, sym, ap, ap₂, ◌∙◌,
}
use itoyori_github_io.Pow2.{word, add64}
use itoyori_github_io.MemMapper.{mul64, ceil_div, Segment}
use itoyori_github_io.MemMapper.Division.{ceil_le, round_blocks}
use itoyori_github_io.MemMapper.Cyclic.{Cyclic, local_size, effective_size, get_segment}

-- The number of segments of each process.
abbrev pub rounds : Cyclic → ℕ
rounds m = ceil_div (ceil_div m.size m.seg_size) m.n_inter_ranks

-- Positive sizes, and no sum or product that wraps.
abbrev pub IsValid : Cyclic → Type 0
IsValid m =
    (0 < m.seg_size)
    × (0 < m.n_inter_ranks)
    × (0 < m.size)
    × (m.size + m.seg_size ≤ word)
    × (ceil_div m.size m.seg_size + m.n_inter_ranks ≤ word)
    × (rounds m * m.seg_size * m.n_inter_ranks < word)

-- The numbers behind `get_segment`: `q` segments of `g` bytes for each of `n` processes.
location :
    (g n q offset : ℕ)
    → 0 < g
    → 0 < n
    → q * g * n < word
    → offset < mul64 (mul64 q g) n
    → (offset / g % n < n)
      × (mul64 (offset / g) g ≡ offset / g * g)
      × (mul64 (add64 (offset / g) 1) g ≡ offset / g * g + g)
      × (mul64 (offset / g / n) g ≡ offset / g / n * g)
      × (offset / g * g ≤ offset)
      × (offset < offset / g * g + g)
      × (offset / g * g + g ≤ mul64 (mul64 q g) n)
      × (offset / g / n * g + g ≤ mul64 q g)
location g n q offset h k w l =
    let b = offset / g in
    let p = offset / g / n in
    let big : q * g * 1 ≤ q * g * n = mul-le-mul_left (q * g) k in
    let e1 : mul64 (mul64 q g) n ≡ q * g * n =
      let e0 : mul64 q g ≡ q * g = omega arith in rw e0 (omega arith) in
    let d1 = div-add-mod' offset g in
    let d2 = div-add-mod' (offset / g) n in
    let r1 = mod-lt offset h in
    let r2 = mod-lt (offset / g) k in
    let comm : q * g * n ≡ q * n * g = omega arith in
    let below : b < q * n = (div-lt_iff_lt-mul {x = offset} {y = q * n} h).1 (omega arith) in
    let below' : p < q = (div-lt_iff_lt-mul {x = b} {y = q} k).1 below in
    let top : (b + 1) * g ≤ q * n * g = mul-le-mul_right g (omega arith) in
    let top' : (p + 1) * g ≤ q * g = mul-le-mul_right g (omega arith) in
    let big2 : b * 1 ≤ b * g = mul-le-mul_left b h in
    let e3 : add64 b 1 ≡ b + 1 = omega arith in
    (
      r2,
      omega arith,
      rw e3 (omega arith),
      omega arith,
      omega arith,
      omega arith,
      rw e1 (omega arith),
      omega arith,
    )

-- What a segment promises of an offset in it: the owner is a process, the range is within the region
-- and contains the offset, and the owner's memory has room for it behind `pm_offset`.
abbrev pub Holds : Cyclic → ℕ → Segment → Type 0
Holds m offset s =
    (s.owner < m.n_inter_ranks)
    × (s.offset_b ≤ offset)
    × (offset < s.offset_e)
    × (s.offset_e ≤ effective_size m)
    × (s.pm_offset + (s.offset_e - s.offset_b) ≤ local_size m s.owner)

abbrev segment_of : Cyclic → ℕ → Segment
segment_of m offset = record {
  owner = offset / m.seg_size % m.n_inter_ranks;
  offset_b = mul64 (offset / m.seg_size) m.seg_size;
  offset_e = mul64 (add64 (offset / m.seg_size) 1) m.seg_size;
  pm_offset = mul64 (offset / m.seg_size / m.n_inter_ranks) m.seg_size;
}

get_segment_of :
    (m : Cyclic) (offset : ℕ)
    → offset < effective_size m
    → get_segment m offset ≡ some (segment_of m offset)
unfolding get_segment
get_segment_of m offset h = rw (lt→ltb _ _ h)

-- With positive sizes and products that fit in 64 bits, every offset of the region has a segment: the
-- check passes, its owner is a process, its range lies in the region and contains the offset, and the
-- owner's memory has room for it.
pub cyclic_get_segment_lem :
    (m : Cyclic) (offset : ℕ)
    → IsValid m
    → offset < effective_size m
    → (s : Segment) × (get_segment m offset ≡ some s) × Holds m offset s
unfolding effective_size local_size
cyclic_get_segment_lem m offset v h =
    let (a, b, c, d, e, f, g, i) =
      location m.seg_size m.n_inter_ranks (rounds m) offset v.0 v.1 v.5 h in
    (
      segment_of m offset,
      get_segment_of m offset h,
      (a, omega arith, omega arith, omega arith, omega arith),
    )

fits_whole :
    (x c q g n : ℕ) → x ≤ mul64 c g → c * g ≤ q * n * g → q * g * n < word → x ≤ q * g * n % word
fits_whole x c q g n h k w = omega arith

-- A quotient and a remainder determine one another's number.
parts_unique : (g p p' r r' : ℕ) → r < g → r' < g → p * g + r ≡ p' * g + r' → (p ≡ p') × (r ≡ r')
parts_unique g p p' r r' h h' e = elim (dec_lt p p') [
  | yes l ↦ let m : (p + 1) * g ≤ p' * g = mul-le-mul_right g (omega arith) in absurd (omega arith)
  | no k ↦ elim (dec_lt p' p) [
    | yes l ↦
        let m : (p' + 1) * g ≤ p * g = mul-le-mul_right g (omega arith) in absurd (omega arith)
    | no l ↦
        let q : p ≡ p' = omega arith in
        let x : p * g ≡ p' * g = ap (λ (t : ℕ). t * g) q in (q, omega arith)
  ]
]

-- The owner and the place in its memory determine the offset.
place_injective :
    (g n o o' : ℕ)
    → 0 < g
    → 0 < n
    → o / g % n ≡ o' / g % n
    → o / g / n * g + o % g ≡ o' / g / n * g + o' % g
    → o ≡ o'
place_injective g n o o' h k w p =
    let (a, b) =
      parts_unique g (o / g / n) (o' / g / n) (o % g) (o' % g) (mod-lt o h) (mod-lt o' h) p in
    let block : o / g ≡ o' / g =
      sym (div-add-mod' (o / g) n) ∙ ap₂ (λ (s t : ℕ). s * n + t) a w ∙ div-add-mod' (o' / g) n in
    sym (div-add-mod' o g) ∙ ap₂ (λ (s t : ℕ). s * g + t) block b ∙ div-add-mod' o' g

-- The requested size fits in the region.
pub size-le-effective : (m : Cyclic) → IsValid m → m.size ≤ effective_size m
unfolding effective_size
size-le-effective m v =
    let (p, q, r) = round_blocks m.seg_size m.size v.0 v.2 v.3 in
    let c = ceil_div m.size m.seg_size in
    let up = (ceil_le c m.n_inter_ranks (rounds m) v.1 v.4).0 (omega arith) in
    let t = mul-le-mul_right m.seg_size up in
    let big : rounds m * m.seg_size * 1 ≤ rounds m * m.seg_size * m.n_inter_ranks =
      mul-le-mul_left (rounds m * m.seg_size) v.1 in
    let e0 : mul64 (rounds m) m.seg_size ≡ rounds m * m.seg_size = omega arith in
    rw e0 (fits_whole m.size c (rounds m) m.seg_size m.n_inter_ranks q t v.5)

-- Two offsets never share a byte of physical memory: with the same owner and the same place in its
-- memory they are equal.
pub location_injective :
    (m : Cyclic) (o o' : ℕ) (s s' : Segment)
    → IsValid m
    → o < effective_size m
    → o' < effective_size m
    → get_segment m o ≡ some s
    → get_segment m o' ≡ some s'
    → s.owner ≡ s'.owner
    → s.pm_offset + (o - s.offset_b) ≡ s'.pm_offset + (o' - s'.offset_b)
    → o ≡ o'
unfolding effective_size
location_injective m o o' s s' v h h' e e' w p =
    let (a, b, c, d, f, g, i, j) = location m.seg_size m.n_inter_ranks (rounds m) o v.0 v.1 v.5 h in
    let (a', b', c', d', f', g', i', j') =
      location m.seg_size m.n_inter_ranks (rounds m) o' v.0 v.1 v.5 h' in
    let x : some (segment_of m o) ≡ some s = sym (get_segment_of m o h) ∙ e in
    let x' : some (segment_of m o') ≡ some s' = sym (get_segment_of m o' h') ∙ e' in
    let own : s.owner ≡ o / m.seg_size % m.n_inter_ranks = cc in
    let own' : s'.owner ≡ o' / m.seg_size % m.n_inter_ranks = cc in
    let pm : s.pm_offset ≡ mul64 (o / m.seg_size / m.n_inter_ranks) m.seg_size = cc in
    let pm' : s'.pm_offset ≡ mul64 (o' / m.seg_size / m.n_inter_ranks) m.seg_size = cc in
    let ob : s.offset_b ≡ mul64 (o / m.seg_size) m.seg_size = cc in
    let ob' : s'.offset_b ≡ mul64 (o' / m.seg_size) m.seg_size = cc in
    let r = div-add-mod' o m.seg_size in
    let r' = div-add-mod' o' m.seg_size in
    place_injective m.seg_size m.n_inter_ranks o o' v.0 v.1 (sym own ∙ w ∙ own') (omega arith)
