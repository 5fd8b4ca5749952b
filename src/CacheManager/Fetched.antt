-- ===== src/CacheManager/Fetched.antt =====
-- `fetch_begin` of cache_manager.hpp.
use native.Mathlib.Nat.{pow-le-pow_right}
use itoyori_github_io.RegionSet.{Region, RegionSet, add, include, complement}
use itoyori_github_io.RegionSet.Cover.{covers, within, IsValid}
use itoyori_github_io.RegionSet.Add.{add_lem}
use itoyori_github_io.RegionSet.Query.{complement_lem, include_iff}
use itoyori_github_io.CacheSystem.{Slot}
use itoyori_github_io.CacheManager.Sent.{ends_le, FitsOffsets, cache_offset_lem}
use itoyori_github_io.CacheManager.{Block, Manager, Request, slot, put_block, cache_offset}
use itoyori_github_io.CacheManager.Fetch.{
  pad_fetch_region, get_requests, owner_in_range, fetch_begin,
}
use itoyori_github_io.CacheManager.Inv.{IsConsistent}
use itoyori_github_io.CacheManager.Coverage.{
  overwrites, Covered, get_requests_lem, pad_fetch_region_lem, fetches,
}
use itoyori_github_io.Base.{
  ℕ, Bool-cases, ◌<◌, ◌≡◌, Option, List, ◌≤◌, subst, ◌^◌, some, Bool, ◌++◌, true, false, sym, ◌⊎◌,
  arith, inl, inr, ◌||◌, ◌-◌, ◌*◌, get_elem?-lt, ◌&&◌, not, suc, ◌∙◌, ap,
}

-- The sizes are powers of two that fit in `block_size_t`, and a sub-block is not larger than a block.
pub record IsSized (m : Manager) : Type 0 where
  pub block_log : ℕ
  pub sub_log : ℕ
  pub block_eq : m.block_size ≡ 2 ^ block_log
  pub sub_eq : m.sub_block_size ≡ 2 ^ sub_log
  pub sub_le : sub_log ≤ block_log
  pub fits : block_log ≤ 31

-- The state after the requests are sent and the regions are recorded.
abbrev pub fetched : ℕ → Slot Block → List Request → RegionSet → Manager → Manager
fetched i s gets valid m =
    put_block i s (record (s.entry) { valid_regions = valid }) (record m { log = m.log ++ gets })

-- The bytes of a region that are not valid are fetched into their places in the cache, each from its
-- place at home, and no others.
abbrev pub Brings : ℕ → Block → Region → List Request → Type 0
Brings size b br gets =
    (x : ℕ)
    → (overwrites (b.entry_idx * size) gets x ≡ within br x && not (covers b.valid_regions x))
      × (fetches b (b.entry_idx * size) gets x ≡ within br x && not (covers b.valid_regions x))

-- All that is asked for is valid, or what the padded region lacks is fetched.
abbrev pub Fetches : ℕ → Slot Block → Region → Manager → Option (Manager × Bool) → Type 0
Fetches i s br m result =
    (result ≡ some (m, false)) × Covered br s.entry.valid_regions
    ⊎ ((gets : List Request) × (valid : RegionSet) × (result
          ≡ some (fetched i s gets valid m, true))
        × IsValid valid
        × ((pad_fetch_region m.sub_block_size br).begin ≤ br.begin)
        × (br.end ≤ (pad_fetch_region m.sub_block_size br).end)
        × ((pad_fetch_region m.sub_block_size br).end ≤ m.block_size)
        × Covered br valid
        × ((x : ℕ)
            → covers valid x
              ≡ within (pad_fetch_region m.sub_block_size br) x || covers s.entry.valid_regions x)
        × Brings m.block_size s.entry (pad_fetch_region m.sub_block_size br) gets)

fetch_begin_run :
    (i : ℕ) (br : Region) (m : Manager) (s : Slot Block) (gets : List Request) (valid : RegionSet)
    (j : ℕ)
    → slot i m ≡ some s
    → owner_in_range m.n_ranks s.entry.owner ≡ true
    → include br s.entry.valid_regions ≡ false
    → get_requests m.cs.nentries m.block_size s.entry
        (complement s.entry.valid_regions (pad_fetch_region m.sub_block_size br))
      ≡ some gets
    → add (pad_fetch_region m.sub_block_size br) s.entry.valid_regions ≡ some (valid, j)
    → fetch_begin i br m ≡ some (fetched i s gets valid m, true)
unfolding fetch_begin
fetch_begin_run i br m s gets valid j at owner miss requests grown =
    rw (at, owner, miss, requests, grown)

fetch_begin_skip :
    (i : ℕ) (br : Region) (m : Manager) (s : Slot Block)
    → slot i m ≡ some s
    → owner_in_range m.n_ranks s.entry.owner ≡ true
    → include br s.entry.valid_regions ≡ true
    → fetch_begin i br m ≡ some (m, false)
unfolding fetch_begin
fetch_begin_skip i br m s at owner hit = rw (at, owner, hit)

padded :
    (br : Region) (m : Manager)
    → IsSized m
    → br.begin < br.end
    → br.end ≤ m.block_size
    → ((pad_fetch_region m.sub_block_size br).begin ≤ br.begin)
      × (br.end ≤ (pad_fetch_region m.sub_block_size br).end)
      × ((pad_fetch_region m.sub_block_size br).end ≤ m.block_size)
padded br m z ne inside =
    subst
      (λ (a : ℕ).
        ((pad_fetch_region a br).begin ≤ br.begin)
        × (br.end ≤ (pad_fetch_region a br).end)
        × ((pad_fetch_region a br).end ≤ m.block_size))
      (sym z.sub_eq)
      (subst
        (λ (b : ℕ).
          ((pad_fetch_region (2 ^ z.sub_log) br).begin ≤ br.begin)
          × (br.end ≤ (pad_fetch_region (2 ^ z.sub_log) br).end)
          × ((pad_fetch_region (2 ^ z.sub_log) br).end ≤ b))
        (sym z.block_eq)
        (pad_fetch_region_lem br z.sub_log z.block_log ne
          (subst (λ (b : ℕ). br.end ≤ b) z.block_eq inside) z.sub_le z.fits))

pub block_size_le : (m : Manager) → IsSized m → m.block_size ≤ 2 ^ 31
block_size_le m z =
    subst (λ (b : ℕ). b ≤ 2 ^ 31) (sym z.block_eq) (pow-le-pow_right (omega arith) z.fits)

-- In a consistent state of a cache of at most 4 GiB whose block sizes are powers of two, `fetch_begin`
-- for a non-empty region within the block of a used slot succeeds. It fetches nothing only if all of
-- the region is valid; otherwise exactly the bytes of the padded region that are not valid are
-- fetched, each from its place at home, by window, owner and displacement, to its place in the
-- cache, and the padded region counts as valid besides what was.
pub fetch_begin_lem :
    (i : ℕ) (br : Region) (m : Manager) (s : Slot Block)
    → IsConsistent m
    → IsSized m
    → FitsOffsets m
    → slot i m ≡ some s
    → s.allocated ≡ true
    → br.begin < br.end
    → br.end ≤ m.block_size
    → Fetches i s br m (fetch_begin i br m)
fetch_begin_lem i br m s v z fits at held ne inside =
    let w = v.slots i s at in
    let owner = w.ranked in
    let iff = include_iff br s.entry.valid_regions w.valid_ok ne in
    elim (Bool-cases (include br s.entry.valid_regions)) [
      | inl t ↦ inl (fetch_begin_skip i br m s at owner t, iff.0 t)
      | inr f ↦
          let pad = pad_fetch_region m.sub_block_size br in
          let (down, up, top) = padded br m z ne inside in
          let wide : pad.begin < pad.end = omega arith in
          let (gap_ok, gap) = complement_lem s.entry.valid_regions pad w.valid_ok wide in
          let limit : pad.end ≤ 2 ^ 32 - 1 = omega (arith, block_size_le m z) in
          let short =
            ends_le 0 (2 ^ 32 - 1) (complement s.entry.valid_regions pad) gap_ok
              (λ x c. ground (arith, gap x, c, limit)) in
          let in_range = get_elem?-lt m.cs.entries i s at in
          let indexed : s.entry.entry_idx < m.cs.nentries =
            omega (arith, w.numbered held, v.cs_ok.sized, in_range) in
          let (gets, requests, over, from) =
            get_requests_lem m.cs.nentries m.block_size 0 s.entry
              (complement s.entry.valid_regions pad) gap_ok short indexed in
          let place : cache_offset s.entry.entry_idx m.block_size
              ≡ s.entry.entry_idx * m.block_size =
            cache_offset_lem s.entry.entry_idx m.cs.nentries m.block_size indexed fits in
          let (valid, j, _, grown, ok, cover, _, _, _) =
            add_lem pad s.entry.valid_regions wide w.valid_ok in
          inr (
            gets,
            valid,
            fetch_begin_run i br m s gets valid (suc j) at owner f requests grown,
            ok,
            down,
            up,
            top,
            λ x c. ground (arith, cover x, c, down, up),
            cover,
            λ x. (
              ap (λ (n : ℕ). overwrites n gets x) (sym place) ∙ (over x ∙ gap x),
              ap (λ (n : ℕ). fetches s.entry n gets x) (sym place) ∙ (from x ∙ gap x),
            ),
          )
    ]
