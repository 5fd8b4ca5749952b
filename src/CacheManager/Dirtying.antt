-- ===== src/CacheManager/Dirtying.antt =====
-- `add_dirty_region` of cache_manager.hpp.
use itoyori_github_io.CacheManager.Sent.{FitsOffsets}
use itoyori_github_io.CacheManager.Cleaning.{
  ensure_all_cache_clean-Cleans, writeback_begin_lem, true-ne-false,
}
use itoyori_github_io.CacheManager.Coverage.{Covered}
use itoyori_github_io.CacheManager.CheckedOut.{Holds, put_block-Holds, occurs-snoc}
use itoyori_github_io.Base.{
  ℕ, Option, if◌then◌else◌, ◌<◌, leb, length, ◌+◌, ◌^◌, some, Bool-cases, ◌≡◌, ◌||◌, ◌∷◌, true, inl,
  ◌≢◌, [], arith, subst, sym, inr, length-append, ap, ◌∙◌, refl, Bool,
}
use itoyori_github_io.CacheManager.{
  Manager, Option, Slot, if◌then◌else◌, Block, is_empty, put_block,
}
use itoyori_github_io.CacheManager.Writeback.{
  add_dirty_region, ensure_all_cache_clean, writeback_begin,
}
use itoyori_github_io.CacheSystem.Inv as CI
use itoyori_github_io.RegionSet.Cover.{covers, within, IsValid}
use itoyori_github_io.RegionSet.Add.{add_lem}
use itoyori_github_io.CacheSystem.{Slot}
use itoyori_github_io.RegionSet.{Region, RegionSet}
use itoyori_github_io.CacheManager.CheckedIn.{
  listing, listing-Holds, dirtied-SlotIsSound, kept-Dirties, Dirties,
}

-- With a block that is on the list already, only its dirty bytes grow.
again_lem :
    (key i : ℕ) (br : Region) (m : Manager) (s : Slot Block) (d : RegionSet)
    → Holds key i m s
    → IsValid d
    → ((x : ℕ) → covers d x ≡ (within br x || covers s.entry.dirty_regions x))
    → Covered br s.entry.valid_regions
    → CI.occurs i m.dirty_cache_blocks ≢ 0
    → Holds key i
        (put_block i s (record (s.entry) { dirty_regions = d }) m)
        (record s { entry = record (s.entry) { dirty_regions = d } })
again_lem key i br m s d h ok cover valid l =
    let v = h.consistent.slots i s h.at in
    put_block-Holds key i m s (record (s.entry) { dirty_regions = d }) h
      (dirtied-SlotIsSound m.n_ranks m.epoch m.writing_back_wins m.dirty_cache_blocks i s d
        h.allocated ok (λ x c. ground (arith, cover x, c, v.dirty_valid x, valid x)) l v)

-- What follows the new dirty bytes of a block that had none.
abbrev settle_dirty : Manager → Option Manager
settle_dirty m =
    if m.enable_write_through
    then ensure_all_cache_clean m
    else if leb m.max_dirty_cache_blocks (length m.dirty_cache_blocks)
    then writeback_begin m
    else some m

settle_dirty_lem :
    (key i : ℕ) (br : Region) (m : Manager) (s : Slot Block)
    → Holds key i m s
    → FitsOffsets m
    → ((x : ℕ) → within br x ≡ true → covers s.entry.dirty_regions x ≡ true)
    → m.epoch + length m.dirty_cache_blocks + 1 < 2 ^ 64
    → Dirties key i br s (settle_dirty m)
settle_dirty_lem key i br m s h fits all room =
    let begins : Option Manager =
      if leb m.max_dirty_cache_blocks (length m.dirty_cache_blocks)
      then writeback_begin m
      else some m in
    elim (Bool-cases m.enable_write_through) [
      | inl t ↦
          let (m', run, c) = ensure_all_cache_clean-Cleans m h.consistent room in
          let cleans : settle_dirty m ≡ some m' =
            ap (λ (b : Bool). if b then ensure_all_cache_clean m else begins) t ∙ run in
          subst (Dirties key i br s) (sym cleans)
            (kept-Dirties key i br s m m' h fits c.consistent c.frame c.slots all)
      | inr f ↦
          let later : settle_dirty m ≡ begins =
            ap (λ (b : Bool). if b then ensure_all_cache_clean m else begins) f in
          elim (Bool-cases (leb m.max_dirty_cache_blocks (length m.dirty_cache_blocks))) [
            | inl t ↦
                let (m', run, b) = writeback_begin_lem m h.consistent (omega arith) in
                let writes : begins ≡ some m' =
                  ap (λ (c : Bool). if c then writeback_begin m else some m) t ∙ run in
                subst (Dirties key i br s) (sym (later ∙ writes))
                  (kept-Dirties key i br s m m' h fits b.consistent b.frame b.slots all)
            | inr g ↦
                let stays : begins ≡ some m =
                  ap (λ (c : Bool). if c then writeback_begin m else some m) g in
                subst (Dirties key i br s) (sym (later ∙ stays))
                  (m, s, refl, h, λ x c. ground (arith, all x c), refl)
          ]
    ]

-- If a key holds a slot in a consistent state of a cache of at most 4 GiB whose epoch does not wrap
-- and whose block sizes are powers of two, a write to a non-empty region of valid bytes of its block
-- succeeds, whatever the policy of writing back. The key still holds the slot in a consistent state,
-- every byte of the region is dirty or has been sent from its place in the cache to its place at
-- home, and the count is the same.
pub add_dirty_region_lem :
    (key i : ℕ) (br : Region) (m : Manager) (s : Slot Block)
    → Holds key i m s
    → FitsOffsets m
    → br.begin < br.end
    → Covered br s.entry.valid_regions
    → m.epoch + length m.dirty_cache_blocks + 2 < 2 ^ 64
    → Dirties key i br s (add_dirty_region i br m)
unfolding add_dirty_region
add_dirty_region_lem key i br m s h fits ne valid room =
    let v = h.consistent.slots i s h.at in
    let (d, j, _, grown, ok, cover, _, _, _) = add_lem br s.entry.dirty_regions ne v.dirty_ok in
    let b : Block = record (s.entry) { dirty_regions = d } in
    elim (Bool-cases (is_empty s.entry.dirty_regions)) [
      | inl t ↦
          let m2 = put_block i s b (listing i m) in
          let run : add_dirty_region i br m ≡ settle_dirty m2 =
            rw (add_dirty_region, h.at, grown, t) in
          let h2 =
            again_lem key i br (listing i m) s d (listing-Holds key i m s h) ok cover valid
              (occurs-snoc i m.dirty_cache_blocks) in
          subst (Dirties key i br s) (sym run) (
            settle_dirty_lem key i br m2 (record s { entry = b }) h2 fits
              (λ x c. ground (arith, cover x, c))
              (omega (arith, length-append m.dirty_cache_blocks (i ∷ []))))
      | inr f ↦
          let l : CI.occurs i m.dirty_cache_blocks ≢ 0 = elim v.listed [
            | inl e ↦ absurd (true-ne-false (sym (ap is_empty e) ∙ f))
            | inr l ↦ l
          ] in
          let run : add_dirty_region i br m ≡ some (put_block i s b m) =
            rw (add_dirty_region, h.at, grown, f) in
          subst (Dirties key i br s) (sym run) (
            put_block i s b m,
            record s { entry = b },
            refl,
            again_lem key i br m s d h ok cover valid l,
            λ x c. ground (arith, cover x, c),
            refl,
          )
    ]
