-- ===== src/Core/Mapper.antt =====
-- The segments that `for_each_mem_segment` of coll_mem.hpp goes through, for any mapper that keeps to
-- the laws below.
use itoyori_github_io.Base.{
  sym, ap, ◌∙◌, refl, ℕ, List, [], ◌∷◌, zero, suc, ◌<◌, ◌≤◌, ◌+◌, ◌-◌, ◌%◌, ◌≡◌, arith, max,
  Bool-cases, ltb, inl, inr, Option, some, ◌>>=◌, ◌⊎◌,
}
use itoyori_github_io.MemMapper.{Segment}
use itoyori_github_io.Core.Collective.{CollMem, segments}

-- What the segment of an offset promises: its range consists of whole blocks, lies in the memory and
-- contains the offset, and the owner's memory has room for it.
abbrev pub Holds : ℕ → CollMem → ℕ → Segment → Type 0
Holds block_size cm offset s =
    (s.offset_b ≤ offset)
    × (offset < s.offset_e)
    × (s.offset_e ≤ cm.effective_size)
    × (s.pm_offset + (s.offset_e - s.offset_b) ≤ cm.local_size s.owner)
    × (s.offset_b % block_size ≡ 0)
    × (s.offset_e % block_size ≡ 0)

-- The laws of a mapper: every offset has a segment, and all offsets of a segment have the same one.
pub record MapperLaws (block_size : ℕ) (cm : CollMem) : Type 0 where
  pub total :
      (offset : ℕ)
      → offset < cm.effective_size
      → (s : Segment) × (cm.get_segment offset ≡ some s) × Holds block_size cm offset s
  pub same :
      (offset offset' : ℕ) (s : Segment)
      → offset < cm.effective_size
      → cm.get_segment offset ≡ some s
      → s.offset_b ≤ offset'
      → offset' < s.offset_e
      → cm.get_segment offset' ≡ some s

-- The segments of `lo`, of the end of its segment, and so on up to `hi`.
abbrev pub Chain : ℕ → CollMem → ℕ → ℕ → List Segment → Type 0
Chain block_size cm lo hi [] = hi ≤ lo
Chain block_size cm lo hi (s ∷ ss) =
    (lo < hi)
    × (cm.get_segment lo ≡ some s)
    × Holds block_size cm lo s
    × Chain block_size cm s.offset_e hi ss

pub segments_lem :
    (fuel block_size : ℕ) (cm : CollMem) (lo hi : ℕ)
    → MapperLaws block_size cm
    → hi ≤ cm.effective_size
    → hi - lo ≤ fuel
    → (ss : List Segment) × (segments fuel cm lo hi ≡ some ss) × Chain block_size cm lo hi ss
unfolding segments
segments_lem zero block_size cm lo hi m w f = ([], ground (arith, f), omega arith)
segments_lem (suc fuel) block_size cm lo hi m w f = elim (Bool-cases (ltb lo hi)) [
  | inr g ↦ ([], rw (g) refl, ground (arith, g))
  | inl t ↦
      let l : lo < hi = ground (arith, t) in
      let (s, e, h) = m.total lo (omega arith) in
      let (ss, r, c) = segments_lem fuel block_size cm s.offset_e hi m w (omega arith) in
      (
        s ∷ ss,
        rw (t) (
            ap
              (λ (o : Option Segment).
                o >>= λ seg. segments fuel cm seg.offset_e hi >>= λ rest. some (seg ∷ rest))
              e
            ∙ ap (λ (o : Option (List Segment)). o >>= λ rest. some (s ∷ rest)) r),
        (l, e, h, c),
      )
]

-- The offset of the range's begin, or one where a segment ends.
abbrev pub Starts : CollMem → ℕ → ℕ → Type 0
Starts cm addr lo =
    (addr ≡ cm.addr + lo)
    ⊎ ((p : Segment) × (0 < lo) × (cm.get_segment (lo - 1) ≡ some p) × (p.offset_e ≡ lo))

-- The segment of such an offset starts there, or at the range's begin.
pub starts_lem :
    (block_size : ℕ) (cm : CollMem) (addr lo : ℕ) (s : Segment)
    → MapperLaws block_size cm
    → addr ≤ cm.addr + lo
    → cm.get_segment lo ≡ some s
    → Holds block_size cm lo s
    → Starts cm addr lo
    → cm.addr + lo ≡ max (cm.addr + s.offset_b) addr
starts_lem bs cm addr lo s m a e (h1, h2, h3, h4, h5, h6) (inl q) = omega arith
starts_lem bs cm addr lo s m a e (h1, h2, h3, h4, h5, h6) (inr (p, n, f, q)) =
    elim (Bool-cases (ltb s.offset_b lo)) [
      | inl t ↦
          let g : cm.get_segment (lo - 1) ≡ some s =
            m.same lo (lo - 1) s (omega arith) e (ground (arith, t)) (omega arith) in
          let eq : some p ≡ some s = sym f ∙ g in
          let x : p.offset_e ≡ s.offset_e = cc in omega arith
      | inr g ↦ let l : lo ≤ s.offset_b = ground (arith, g) in omega arith
    ]
