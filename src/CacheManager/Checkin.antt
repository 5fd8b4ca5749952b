-- ===== src/CacheManager/Checkin.antt =====
-- `checkin_blk` of cache_manager.hpp.
use itoyori_github_io.CacheManager.Sent.{FitsOffsets}
use itoyori_github_io.CacheManager.Dirtying.{add_dirty_region_lem}
use itoyori_github_io.CacheManager.Blocks.{get_entry-eq, ensure_or_clean_hit}
use itoyori_github_io.CacheManager.Provided.{request_ne}
use itoyori_github_io.CacheManager.Counted.{counted-SlotIsSound}
use itoyori_github_io.CacheManager.Checkout.{decrement_ref, checkin_blk, request_ok}
use itoyori_github_io.CacheManager.Cleaning.{true-ne-false}
use itoyori_github_io.CacheManager.Coverage.{Covered}
use itoyori_github_io.CacheManager.CheckedOut.{Holds, put_block-Holds}
use itoyori_github_io.Base.{
  ℕ, Option, if◌then◌else◌, ◌<◌, length, ◌+◌, ◌^◌, some, ◌≡◌, true, inl, arith, inr, ap, ◌∙◌, refl,
  Bool, false, ◌⊎◌, ◌>>=◌, ◌-◌, ◌==◌,
}
use itoyori_github_io.CacheManager.{Manager, Block, put_block}
use itoyori_github_io.CacheManager.Writeback.{add_dirty_region}
use itoyori_github_io.CacheSystem.{Slot, CacheSystem, touch}
use itoyori_github_io.CacheSystem.Cached.{ensure_hit}
use itoyori_github_io.CacheManager.Lookup.{block_ops, ensure, evicts, get_entry, cache_key}
use itoyori_github_io.Base.Assoc.{find}
use itoyori_github_io.Tlb as T
use itoyori_github_io.RegionSet.{Region, region}
use itoyori_github_io.CacheManager.CheckedIn.{Recorded}

-- A lookup of a cached block that is not to move changes nothing.
evicts-hit :
    (key i : ℕ) (c : CacheSystem Block) → find key c.table ≡ some i → evicts key i c ≡ false
unfolding evicts
evicts-hit key i c f = rw (evicts, f) refl

ensure_hit_lem :
    (key i : ℕ) (m : Manager) → find key m.cs.table ≡ some i → ensure false key m ≡ some (m, i)
unfolding ensure touch
ensure_hit_lem key i m f =
    ap
      (λ (o : Option (CacheSystem Block × ℕ)). o >>= λ (c, j). some (
        record m {
          cs = c;
          cache_tlb = if evicts key j m.cs then T.clear m.cache_tlb else m.cache_tlb;
        },
        j,
      ))
      (ensure_hit (block_ops m.epoch) false key i m.cs f)
    ∙ ap
        (λ (b : Bool).
          some (record m { cache_tlb = if b then T.clear m.cache_tlb else m.cache_tlb }, i))
        (evicts-hit key i m.cs f)

hit_lem :
    (addr key i : ℕ) (m : Manager)
    → cache_key addr m ≡ some key
    → find key m.cs.table ≡ some i
    → get_entry false addr m ≡ some (m, i)
hit_lem addr key i m k f =
    get_entry-eq false addr key m k
    ∙ ensure_or_clean_hit false key m (m, i) (ensure_hit_lem key i m f)

-- The count goes down by one, and what is recorded stays.
decrement_ref_lem :
    (flag : Bool) (key i : ℕ) (br : Region) (m : Manager) (s : Slot Block)
    → Holds key i m s
    → (flag ≡ false) ⊎ (0 < s.entry.ref_count)
    → (m' : Manager) × (s' : Slot Block) × (decrement_ref flag i m ≡ some m')
      × Holds key i m' s'
      × (Recorded br s m → Recorded br s' m')
      × (s'.entry.ref_count ≡ (if flag then s.entry.ref_count - 1 else s.entry.ref_count))
unfolding decrement_ref
decrement_ref_lem false key i br m s h p = (m, s, rw (h.at), h, λ r. r, refl)
decrement_ref_lem true key i br m s h p =
    let v = h.consistent.slots i s h.at in
    let b : Block = record (s.entry) { ref_count = s.entry.ref_count - 1 } in
    let held : (s.entry.ref_count == 0) ≡ false = ground (arith, p) in
    (
      put_block i s b m,
      record s { entry = b },
      rw (h.at, held),
      put_block-Holds key i m s b h (
          counted-SlotIsSound m.n_ranks m.epoch m.writing_back_wins m.dirty_cache_blocks i s
            (s.entry.ref_count - 1) v),
      λ r. r,
      refl,
    )

-- The block has been given back: the written bytes are dirty or sent home, and the count is one less.
abbrev pub ChecksIn : Bool → Bool → ℕ → ℕ → Region → Slot Block → Option Manager → Type 0
ChecksIn dirty decrement key i br s result =
    (m' : Manager) × (s' : Slot Block) × (result ≡ some m')
    × Holds key i m' s'
    × ((dirty ≡ false) ⊎ Recorded br s' m')
    × (s'.entry.ref_count ≡ (if decrement then s.entry.ref_count - 1 else s.entry.ref_count))

-- What the two parameters of a checkin do.
checkin_parts_lem :
    (dirty decrement : Bool) (key i : ℕ) (br : Region) (m : Manager) (s : Slot Block)
    → Holds key i m s
    → FitsOffsets m
    → br.begin < br.end
    → (dirty ≡ false) ⊎ Covered br s.entry.valid_regions
    → (decrement ≡ false) ⊎ (0 < s.entry.ref_count)
    → m.epoch + length m.dirty_cache_blocks + 2 < 2 ^ 64
    → ChecksIn dirty decrement key i br s
        ((if dirty then add_dirty_region i br m else some m) >>= λ m2. decrement_ref decrement i m2)
checkin_parts_lem false decrement key i br m s h fits ne valid held room =
    let (m', s', run, h', _, count) = decrement_ref_lem decrement key i br m s h held in
    (m', s', run, h', inl refl, count)
checkin_parts_lem true decrement key i br m s h fits ne (inl z) held room = absurd (true-ne-false z)
checkin_parts_lem true decrement key i br m s h fits ne (inr valid) held room =
    let (m1, s1, run1, h1, all, same) = add_dirty_region_lem key i br m s h fits ne valid room in
    let held1 : (decrement ≡ false) ⊎ (0 < s1.entry.ref_count) = elim held [
      | inl z ↦ inl z
      | inr c ↦ inr (omega (arith, same, c))
    ] in
    let (m', s', run, h', keeps, count) = decrement_ref_lem decrement key i br m1 s1 h1 held1 in
    (
      m',
      s',
      ap (λ (o : Option Manager). o >>= λ m2. decrement_ref decrement i m2) run1 ∙ run,
      h',
      inr (keeps all),
      count ∙ ap (λ (n : ℕ). if decrement then n - 1 else n) same,
    )

-- If a key holds a slot in a consistent state of a cache of at most 4 GiB whose epoch does not wrap
-- and whose block sizes are powers of two, `checkin_blk` of a non-empty part of its block succeeds,
-- given that the bytes are valid if they count as written and that the block is checked out if the
-- count is to go down. The key still holds the slot in a consistent state, the written bytes are
-- dirty or have been sent from their place in the cache to their place at home, and the count is one
-- less if it is to be.
pub checkin_blk_lem :
    (dirty decrement : Bool) (blk_addr req_b req_e key i : ℕ) (m : Manager) (s : Slot Block)
    → Holds key i m s
    → FitsOffsets m
    → m.epoch + length m.dirty_cache_blocks + 2 < 2 ^ 64
    → request_ok m.block_size blk_addr req_b req_e ≡ true
    → cache_key blk_addr m ≡ some key
    → (dirty ≡ false) ⊎ Covered (region (req_b - blk_addr) (req_e - blk_addr)) s.entry.valid_regions
    → (decrement ≡ false) ⊎ (0 < s.entry.ref_count)
    → ChecksIn dirty decrement key i
        (region (req_b - blk_addr) (req_e - blk_addr))
        s
        (checkin_blk dirty decrement blk_addr req_b req_e m)
unfolding checkin_blk
checkin_blk_lem dirty decrement blk_addr req_b req_e key i m s h fits room ok k valid held =
    let br = region (req_b - blk_addr) (req_e - blk_addr) in
    let (m', s', run, h', all, count) =
      checkin_parts_lem dirty decrement key i br m s h fits
        (request_ne m.block_size blk_addr req_b req_e ok) valid held room in
    (m', s', rw (ok, hit_lem blk_addr key i m k h.found) run, h', all, count)
