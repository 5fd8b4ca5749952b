-- ===== src/CacheManager/Coverage.antt =====
-- The bytes that cache_manager.hpp fetches.
use native.Mathlib.Nat.{pow-le-pow_right, mul-le-mul_right, div-add-mod'}
use itoyori_github_io.Pow2.Rounding.{pow_add, pow_pos}
use itoyori_github_io.RegionSet.{Region, RegionSet, region_size}
use itoyori_github_io.RegionSet.Cover.{covers, within, IsValidFrom}
use itoyori_github_io.Pow2.{round_up_pow2}
use itoyori_github_io.Pow2.Rounding.{round_down_pow2_lem, round_up_pow2_lem}
use itoyori_github_io.CacheManager.Sent.{region_size_lem, same_owner, same_owner_self}
use itoyori_github_io.CacheManager.{Block, Request, cache_offset}
use itoyori_github_io.CacheManager.Fetch.{pad_fetch_region, get_requests}
use itoyori_github_io.Base.{
  [], ◌∷◌, ℕ, refl, Bool-cases, List, All, ◌<◌, ◌≡◌, Bool, ◌≤◌, true, ◌^◌, ◌∷◌, false, leb, ◌-◌,
  arith, some, ◌+◌, ◌*◌, suc, ◌&&◌, ltb, ◌||◌, ap, ◌%◌, ◌∙◌, ◌/◌, inl, leb→le, inr, ◌==◌,
}

-- A request overwrites byte `x` of the cache's memory after `base`.
abbrev pub overwrites : ℕ → List Request → ℕ → Bool
overwrites base [] x = false
overwrites base (Request.get_nb offset size win owner disp ∷ rs) x =
    (leb offset (base + x) && ltb (base + x) (offset + size)) || overwrites base rs x
overwrites base (Request.put_nb offset size win owner disp ∷ rs) x = overwrites base rs x
overwrites base (Request.flush win ∷ rs) x = overwrites base rs x
overwrites base (Request.unmap addr size ∷ rs) x = overwrites base rs x
overwrites base (Request.map_to_vm addr size disp ∷ rs) x = overwrites base rs x

-- A request fetches byte `x` of the block from its place at home into its place in the cache, which
-- begins at `base`.
abbrev pub fetches_byte : Block → ℕ → Request → ℕ → Bool
fetches_byte b base (Request.get_nb offset size win owner disp) x =
    (leb offset (base + x) && ltb (base + x) (offset + size))
    && ((win == b.win && same_owner owner b.owner) && (disp + base == offset + b.pm_offset))
fetches_byte b base (Request.put_nb offset size win owner disp) x = false
fetches_byte b base (Request.flush win) x = false
fetches_byte b base (Request.unmap addr size) x = false
fetches_byte b base (Request.map_to_vm addr size disp) x = false

abbrev pub fetches : Block → ℕ → List Request → ℕ → Bool
fetches b base [] x = false
fetches b base (r ∷ rs) x = fetches_byte b base r x || fetches b base rs x

-- The whole region is covered.
abbrev pub Covered : Region → RegionSet → Type 0
Covered br rs = (x : ℕ) → within br x ≡ true → covers rs x ≡ true

-- The requests are for the bytes of the regions, and each is for its place at home.
pub get_requests_lem :
    (n size lo : ℕ) (b : Block) (rs : RegionSet)
    → IsValidFrom lo rs
    → All (λ r. r.end ≤ 2 ^ 32 - 1) rs
    → b.entry_idx < n
    → (gets : List Request) × (get_requests n size b rs ≡ some gets)
      × ((x : ℕ) → overwrites (cache_offset b.entry_idx size) gets x ≡ covers rs x)
      × ((x : ℕ) → fetches b (cache_offset b.entry_idx size) gets x ≡ covers rs x)
unfolding get_requests
get_requests_lem n size lo b [] v h l = ([], refl, λ x. refl, λ x. refl)
get_requests_lem n size lo b (r ∷ rs) (u, v, w) (h, hs) l =
    let (gets, run, same, from) = get_requests_lem n size (suc r.end) b rs w hs l in
    let t : ltb b.entry_idx n ≡ true = ground (arith, l) in
    let long : region_size r ≡ r.end - r.begin = region_size_lem r v h in
    (
      Request.get_nb (cache_offset b.entry_idx size + r.begin) (region_size r) b.win b.owner
            (b.pm_offset + r.begin)
          ∷ gets,
      rw (get_requests, t, run),
      λ x. ground (arith, same x, long, v),
      λ x. ground (arith, from x, long, v, same_owner_self b.owner),
    )

-- A multiple of `a` that lies less than `a` beyond `b * a` does not lie beyond it.
multiple-le : (a b r : ℕ) → 0 < a → r % a ≡ 0 → r < b * a + a → r ≤ b * a
multiple-le a b r pos mult near = elim (Bool-cases (leb (r / a) b)) [
  | inl t ↦
      let le : r / a * a ≤ b * a = mul-le-mul_right a (leb→le (r / a) b t) in
      omega (arith, div-add-mod' r a)
  | inr f ↦
      let le : suc b * a ≤ r / a * a = mul-le-mul_right a (ground (arith, f)) in
      omega (arith, div-add-mod' r a)
]

-- With a sub-block size that is a power of two the padded region contains the region and does
-- not go beyond the block.
pub pad_fetch_region_lem :
    (br : Region) (k j : ℕ)
    → br.begin < br.end
    → br.end ≤ 2 ^ j
    → k ≤ j
    → j ≤ 31
    → ((pad_fetch_region (2 ^ k) br).begin ≤ br.begin)
      × (br.end ≤ (pad_fetch_region (2 ^ k) br).end)
      × ((pad_fetch_region (2 ^ k) br).end ≤ 2 ^ j)
unfolding pad_fetch_region
pad_fetch_region_lem br k j ne inside le small =
    let a = 2 ^ k in
    let b = 2 ^ (j - k) in
    let whole : 2 ^ j ≡ b * a =
      ap (λ (t : ℕ). 2 ^ t) (let q : j ≡ k + (j - k) = omega arith in q) ∙ pow_add k (j - k) in
    let bound : 2 ^ j ≤ 2 ^ 31 = pow-le-pow_right (omega arith) small in
    let small_k : k ≤ 31 = omega arith in
    let bound_k : 2 ^ k ≤ 2 ^ 31 = pow-le-pow_right (omega arith) small_k in
    let (_, down, _) = round_down_pow2_lem br.begin k (omega arith) (omega arith) in
    let (mult, up, near) = round_up_pow2_lem br.end k (omega arith) (omega arith) in
    let top : round_up_pow2 br.end a ≤ b * a =
      multiple-le a b (round_up_pow2 br.end a) (pow_pos k) mult (omega arith) in
    (down, omega arith, omega arith)
