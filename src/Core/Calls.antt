-- ===== src/Core/Calls.antt =====
-- The calls of `for_each_seg_blk` of core.hpp for the blocks of one segment.
use native.Mathlib.Nat.{
  div-lt_iff_lt-mul, mul-le-mul_right, div-add-mod', add-mod_right, add-mod, zero-mod,
}
use itoyori_github_io.Base.{
  subst, sym, ap, ◌∙◌, refl, ℕ, List, [], ◌∷◌, ◌++◌, suc, ◌<◌, ◌≤◌, ◌+◌, ◌-◌, ◌*◌, ◌/◌, ◌%◌, ◌≡◌,
  ◌≢◌, true, arith, min, Option, some, ◌>>=◌, le→leb,
}
use itoyori_github_io.MemMapper.{Segment}
use itoyori_github_io.CacheManager.Checkout.{request_ok}
use itoyori_github_io.Core.Ranges.{BlockCall, Call}
use itoyori_github_io.Core.Collective.{CollMem, block_calls}
use itoyori_github_io.Core.Blocks.{Tiles}
use itoyori_github_io.Core.Mapper.{Holds, MapperLaws}

-- The calls go from `lo` to `hi`, within a range that ends at `top`, without a gap. A call for a home
-- segment is for the segment of the address, owned by this process. A call for a cache block is for a
-- non-empty part of an aligned block, at the place in the owner's memory that the mapper gives it.
abbrev pub Calls : ℕ → ℕ → CollMem → ℕ → ℕ → ℕ → List Call → Type 0
Calls block_size my_rank cm top lo hi [] = lo ≡ hi
Calls block_size my_rank cm top lo hi (Call.home_seg seg_addr seg_size pm_offset ∷ ks) =
    ((s : Segment) × (cm.get_segment (lo - cm.addr) ≡ some s)
      × (s.owner ≡ my_rank)
      × (seg_addr ≡ cm.addr + s.offset_b)
      × (seg_addr + seg_size ≡ cm.addr + s.offset_e)
      × (pm_offset ≡ s.pm_offset))
    × (seg_addr ≤ lo)
    × (lo < seg_addr + seg_size)
    × Calls block_size my_rank cm top (min (seg_addr + seg_size) top) hi ks
Calls block_size my_rank cm top lo hi (Call.cache_blk b owner pm_offset ∷ ks) =
    ((s : Segment) × (cm.get_segment (lo - cm.addr) ≡ some s)
      × (s.owner ≡ owner)
      × (cm.addr + s.offset_b + pm_offset ≡ b.blk_addr + s.pm_offset))
    × (owner ≢ my_rank)
    × (pm_offset + block_size ≤ cm.local_size owner)
    × (b.req_addr_b ≡ lo)
    × (request_ok block_size b.blk_addr b.req_addr_b b.req_addr_e ≡ true)
    × (b.blk_addr % block_size ≡ 0)
    × Calls block_size my_rank cm top b.req_addr_e hi ks

pub Calls-append :
    (block_size my_rank : ℕ) (cm : CollMem) (top lo mid hi : ℕ) (ks rest : List Call)
    → Calls block_size my_rank cm top lo mid ks
    → Calls block_size my_rank cm top mid hi rest
    → Calls block_size my_rank cm top lo hi (ks ++ rest)
Calls-append bs r cm top lo mid hi [] rest c d =
    subst (λ (x : ℕ). Calls bs r cm top x hi rest) (sym c) d
Calls-append bs r cm top lo mid hi (Call.home_seg a n p ∷ ks) rest (w, l, u, c) d =
    (w, l, u, Calls-append bs r cm top (min (a + n) top) mid hi ks rest c d)
Calls-append bs r cm top lo mid hi (Call.cache_blk b o p ∷ ks) rest (w, ne, f, e, ok, al, c) d =
    (w, ne, f, e, ok, al, Calls-append bs r cm top b.req_addr_e mid hi ks rest c d)

aligned_add : (a c b : ℕ) → a % b ≡ 0 → c % b ≡ 0 → (a + c) % b ≡ 0
aligned_add a c b x y =
    let e : a % b + c % b ≡ 0 = omega arith in add-mod a c b ∙ ap (λ (t : ℕ). t % b) e ∙ zero-mod b

-- Of two multiples, one that is not a whole step above the other is not above it.
aligned_le : (a c b : ℕ) → 0 < b → a % b ≡ 0 → c % b ≡ 0 → a < c + b → a ≤ c
aligned_le a c b p x y l =
    let ea : a / b * b + a % b ≡ a = div-add-mod' a b in
    let ec : c / b * b + c % b ≡ c = div-add-mod' c b in
    let step : suc (c / b) * b ≡ c / b * b + b = omega arith in
    let q : a / b < suc (c / b) = (div-lt_iff_lt-mul p).1 (omega arith) in
    let m : a / b * b ≤ c / b * b = mul-le-mul_right b (omega arith) in omega arith

Tiles-le : (block_size lo hi : ℕ) (bs : List BlockCall) → Tiles block_size lo hi bs → lo ≤ hi
unfolding request_ok
Tiles-le block_size lo hi [] t = omega arith
Tiles-le block_size lo hi (b ∷ bs) (e, ok, al, t) =
    let rest = Tiles-le block_size b.req_addr_e hi bs t in
    let lt : b.req_addr_b < b.req_addr_e = ground (arith, ok) in omega arith

-- The calls for the blocks of a part of a segment that another process owns.
pub block_calls_lem :
    (block_size my_rank : ℕ) (cm : CollMem) (s : Segment) (top offset lo hi : ℕ)
    (bs : List BlockCall)
    → MapperLaws block_size cm
    → 0 < block_size
    → cm.addr % block_size ≡ 0
    → offset < cm.effective_size
    → cm.get_segment offset ≡ some s
    → Holds block_size cm offset s
    → s.owner ≢ my_rank
    → cm.addr + s.offset_b ≤ lo
    → hi ≤ cm.addr + s.offset_e
    → Tiles block_size lo hi bs
    → (ks : List Call) × (block_calls block_size cm s (cm.addr + s.offset_b) bs ≡ some ks)
      × Calls block_size my_rank cm top lo hi ks
unfolding block_calls request_ok
block_calls_lem block_size r cm s top offset lo hi [] m p al w e h ne l u t = ([], refl, t)
block_calls_lem block_size r cm s top offset lo hi (b ∷ bs) m p al w e h ne l u (te, ok, ba, t) =
    let (h1, h2, h3, h4, h5, h6) = h in
    let (k1, k2, k3) : (b.blk_addr ≤ b.req_addr_b)
        × (b.req_addr_b < b.req_addr_e)
        × (b.req_addr_e ≤ b.blk_addr + block_size) =
      (ground (arith, ok), ground (arith, ok), ground (arith, ok)) in
    let le = Tiles-le block_size b.req_addr_e hi bs t in
    let start : (cm.addr + s.offset_b) % block_size ≡ 0 =
      aligned_add cm.addr s.offset_b block_size al h5 in
    let stop : (cm.addr + s.offset_e) % block_size ≡ 0 =
      aligned_add cm.addr s.offset_e block_size al h6 in
    let next : (b.blk_addr + block_size) % block_size ≡ 0 =
      add-mod_right b.blk_addr block_size ∙ ba in
    let low : cm.addr + s.offset_b ≤ b.blk_addr =
      aligned_le (cm.addr + s.offset_b) b.blk_addr block_size p start ba (omega arith) in
    let high : b.blk_addr + block_size ≤ cm.addr + s.offset_e =
      aligned_le (b.blk_addr + block_size) (cm.addr + s.offset_e) block_size p next stop
        (omega arith) in
    let (ks, run, c) =
      block_calls_lem block_size r cm s top offset b.req_addr_e hi bs m p al w e h ne (omega arith)
        u t in
    let pm = s.pm_offset + (b.blk_addr - (cm.addr + s.offset_b)) in
    let room : pm + block_size ≤ cm.local_size s.owner = omega arith in
    (
      Call.cache_blk b s.owner pm ∷ ks,
      rw (le→leb _ _ room) (
          ap (λ (o : Option (List Call)). o >>= λ calls. some (Call.cache_blk b s.owner pm ∷ calls))
            run),
      (
        (s, m.same offset (lo - cm.addr) s w e (omega arith) (omega arith), refl, omega arith),
        ne,
        room,
        te,
        ok,
        ba,
        c,
      ),
    )
