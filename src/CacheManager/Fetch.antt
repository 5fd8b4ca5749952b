-- ===== src/CacheManager/Fetch.antt =====
-- The fetching of missing bytes in cache_manager.hpp.
use itoyori_github_io.Base.{
  ℕ, ◌+◌, ◌%◌, ◌^◌, Bool, true, false, Option, none, some, List, [], ◌∷◌, ◌++◌, ltb, ◌==◌,
  if◌then◌else◌, ◌>>=◌, map,
}
use itoyori_github_io.RegionSet.{Region, region, RegionSet, region_size, add, include, complement}
use itoyori_github_io.Pow2.{round_down_pow2, round_up_pow2}
use itoyori_github_io.CacheManager.{
  Block, Manager, Request, is_empty, slot, put_block, cache_offset,
}

-- The bounds are `block_size_t`, of 32 bits.
unfoldable pub pad_fetch_region : ℕ → Region → Region
pad_fetch_region sub br = region (round_down_pow2 br.begin sub) (round_up_pow2 br.end sub % 2 ^ 32)

-- The loop of `fetch_begin` over the regions to fetch.
unfoldable pub get_requests : ℕ → ℕ → Block → RegionSet → Option (List Request)
get_requests nentries block_size b [] = some []
get_requests nentries block_size b (r ∷ rs) =
    let rest = get_requests nentries block_size b rs in
    if ltb b.entry_idx nentries
    then (rest >>= λ out. some (
        Request.get_nb (cache_offset b.entry_idx block_size + r.begin) (region_size r) b.win b.owner
          (b.pm_offset + r.begin)
        ∷ out))
    else none

-- The owner -1 passes the check.
unfoldable pub owner_in_range : ℕ → Option ℕ → Bool
owner_in_range n_ranks none = true
owner_in_range n_ranks (some rank) = ltb rank n_ranks

-- `fetch_begin` at the block in slot `i`: whether something is fetched.
unfoldable pub fetch_begin : ℕ → Region → Manager → Option (Manager × Bool)
unfolding owner_in_range include pad_fetch_region complement get_requests add
fetch_begin i br m = slot i m >>= λ s.
    let b = s.entry in
    let br_pad = pad_fetch_region m.sub_block_size br in
    let fetched =
      get_requests m.cs.nentries m.block_size b (complement b.valid_regions br_pad) >>= λ gets.
      add br_pad b.valid_regions >>= λ (valid, _). some (
        put_block i s (record b { valid_regions = valid }) (record m { log = m.log ++ gets }),
        true,
      ) in
    if owner_in_range m.n_ranks b.owner
    then if include br b.valid_regions then some (m, false) else fetched
    else none

unfoldable pub fetch_complete : Manager → Manager
fetch_complete m =
    if is_empty m.fetching_wins
    then m
    else record m { log = m.log ++ map Request.flush m.fetching_wins; fetching_wins = [] }

-- `fetching_wins_.back() == &win`
unfoldable pub ends_with : ℕ → List ℕ → Bool
ends_with w [] = false
ends_with w (v ∷ vs) = if is_empty vs then v == w else ends_with w vs

unfoldable pub add_fetching_win : ℕ → Manager → Manager
unfolding ends_with
add_fetching_win win m =
    if ends_with win m.fetching_wins
    then m
    else record m { fetching_wins = m.fetching_wins ++ (win ∷ []) }
