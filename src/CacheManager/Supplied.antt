-- ===== src/CacheManager/Supplied.antt =====
-- How the bytes of a checkout in cache_manager.hpp become valid: they are fetched, or a write skips it.
use itoyori_github_io.RegionSet.{Region}
use itoyori_github_io.RegionSet.Cover.{covers, within}
use itoyori_github_io.RegionSet.Add.{add_lem}
use itoyori_github_io.CacheSystem.{Slot}
use itoyori_github_io.CacheManager.Sent.{FitsOffsets}
use itoyori_github_io.CacheManager.Carried.{SamePlace}
use itoyori_github_io.CacheManager.{Block, Manager, Request, put_block}
use itoyori_github_io.CacheManager.Fetch.{add_fetching_win, ends_with}
use itoyori_github_io.CacheManager.Checkout.{skip_fetch, provide}
use itoyori_github_io.CacheManager.Coverage.{Covered, overwrites, fetches}
use itoyori_github_io.CacheManager.Fetched.{fetched, fetch_begin_lem, block_size_le}
use itoyori_github_io.CacheManager.CheckedOut.{
  Holds, Holds-view, put_block-Holds, grown-SlotIsSound,
}
use mathlib.Core.List.{append-nil}
use itoyori_github_io.Base.{
  ℕ, refl, Bool-cases, [], ◌∷◌, ◌<◌, Option, List, Bool, inl, ◌≤◌, true, ◌≡◌, arith, false, some,
  ◌⊎◌, sym, inr, ◌++◌, ◌&&◌, ◌*◌,
}

ends_with-snoc : (w : ℕ) (vs : List ℕ) → ends_with w (vs ++ (w ∷ [])) ≡ true
unfolding ends_with
ends_with-snoc w [] = ground arith
ends_with-snoc w (v ∷ []) = ground arith
ends_with-snoc w (v ∷ (u ∷ vs)) = ends_with-snoc w (u ∷ vs)

-- The window is the last of those that are waited for.
add_fetching_win_lem :
    (win : ℕ) (m : Manager)
    → (fetching : List ℕ) × (add_fetching_win win m ≡ record m { fetching_wins = fetching })
      × (ends_with win fetching ≡ true)
unfolding add_fetching_win
add_fetching_win_lem win m = elim (Bool-cases (ends_with win m.fetching_wins)) [
  | inl t ↦ (m.fetching_wins, rw (t), t)
  | inr f ↦ (m.fetching_wins ++ (win ∷ []), rw (f), ends_with-snoc win m.fetching_wins)
]

-- What is fetched for a region of a block: no byte that is valid is overwritten, and without the skip
-- every byte that is not valid comes from its place at home. A skip fetches nothing.
abbrev pub Supplies : Bool → ℕ → Region → Block → List Request → Type 0
Supplies skip size br b gets =
    ((x : ℕ) → (overwrites (b.entry_idx * size) gets x && covers b.valid_regions x) ≡ false)
    × ((skip ≡ true) × (gets ≡ [])
        ⊎ (skip ≡ false)
          × ((x : ℕ)
              → within br x ≡ true
              → (covers b.valid_regions x ≡ true) ⊎ (fetches b (b.entry_idx * size) gets x ≡ true)))

-- The state after the region has become valid: what is fetched, the state of the slot, and what stays.
-- The flag says that nothing is fetched; otherwise the window is waited for.
abbrev pub Provides :
    Bool → ℕ → ℕ → ℕ → Region → Manager → Slot Block → Option (Manager × Bool) → Type 0
Provides skip key i win br m s result =
    (m' : Manager) × (here : Bool) × (s' : Slot Block) × (gets : List Request) × (result
      ≡ some (m', here))
    × Holds key i m' s'
    × Covered br s'.entry.valid_regions
    × (m'.log ≡ m.log ++ gets)
    × Supplies skip m.block_size br s.entry gets
    × ((here ≡ true) × (gets ≡ []) ⊎ (here ≡ false) × (ends_with win m'.fetching_wins ≡ true))
    × SamePlace s'.entry s.entry
    × (m'.cache_blocks_to_map ≡ m.cache_blocks_to_map)

skip_fetch_lem :
    (key i win : ℕ) (br : Region) (m : Manager) (s : Slot Block)
    → Holds key i m s
    → br.begin < br.end
    → br.end ≤ m.block_size
    → Provides true key i win br m s (provide true i win br m)
unfolding provide skip_fetch
skip_fetch_lem key i win br m s h ne inside =
    let v = h.consistent.slots i s h.at in
    let (valid, j, _, grown, ok, cover, _, _, _) = add_lem br s.entry.valid_regions ne v.valid_ok in
    (
      put_block i s (record (s.entry) { valid_regions = valid }) m,
      true,
      record s { entry = record (s.entry) { valid_regions = valid } },
      [],
      rw (h.at, grown),
      put_block-Holds key i m s (record (s.entry) { valid_regions = valid }) h
          (grown-SlotIsSound m.n_ranks m.epoch m.writing_back_wins m.dirty_cache_blocks i s valid
            h.allocated ok
            (λ x c. ground (arith, cover x, c, v.bounded x, inside, block_size_le m h.sized))
            (λ x c. ground (arith, cover x, c)) v),
      λ x c. ground (arith, cover x, c),
      sym (append-nil m.log),
      (λ x. refl, inl (refl, refl)),
      inl (refl, refl),
      (refl, refl, refl, refl),
      refl,
    )

fetch_lem :
    (key i win : ℕ) (br : Region) (m : Manager) (s : Slot Block)
    → Holds key i m s
    → FitsOffsets m
    → br.begin < br.end
    → br.end ≤ m.block_size
    → Provides false key i win br m s (provide false i win br m)
unfolding provide
fetch_lem key i win br m s h fits ne inside =
    let v = h.consistent.slots i s h.at in
    elim (fetch_begin_lem i br m s h.consistent h.sized fits h.at h.allocated ne inside) [
      | inl (run, all) ↦ (
        m,
        true,
        s,
        [],
        rw (run),
        h,
        all,
        sym (append-nil m.log),
        (λ x. refl, inr (refl, λ x c. inl (all x c))),
        inl (refl, refl),
        (refl, refl, refl, refl),
        refl,
      )
      | inr (gets, valid, run, ok, down, up, top, all, cover, brings) ↦
          let (fetching, listed, last) = add_fetching_win_lem win (fetched i s gets valid m) in
          let b : Block = record (s.entry) { valid_regions = valid } in
          (
            record (fetched i s gets valid m) { fetching_wins = fetching },
            false,
            record s { entry = b },
            gets,
            rw (run, listed),
            put_block-Holds key i (record m { log = m.log ++ gets; fetching_wins = fetching }) s b
                (Holds-view m.cache_tlb fetching m.cache_blocks_to_map (m.log ++ gets) key i m s h)
                (grown-SlotIsSound m.n_ranks m.epoch m.writing_back_wins m.dirty_cache_blocks i s
                  valid h.allocated ok
                  (λ x c. ground (arith, cover x, c, v.bounded x, top, block_size_le m h.sized))
                  (λ x c. ground (arith, cover x, c)) v),
            all,
            refl,
            (
              λ x. ground (arith, (brings x).0),
              inr (
                refl,
                λ x c. elim (Bool-cases (covers s.entry.valid_regions x)) [
                  | inl had ↦ inl had
                  | inr lacked ↦ inr (ground (arith, (brings x).1, c, down, up, lacked))
                ],
              ),
            ),
            inr (refl, last),
            (refl, refl, refl, refl),
            refl,
          )
    ]

pub provide_lem :
    (skip : Bool) (key i win : ℕ) (br : Region) (m : Manager) (s : Slot Block)
    → Holds key i m s
    → FitsOffsets m
    → br.begin < br.end
    → br.end ≤ m.block_size
    → Provides skip key i win br m s (provide skip i win br m)
provide_lem true key i win br m s h fits ne inside = skip_fetch_lem key i win br m s h ne inside
provide_lem false key i win br m s h fits ne inside = fetch_lem key i win br m s h fits ne inside
