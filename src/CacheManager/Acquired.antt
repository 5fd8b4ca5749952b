-- ===== src/CacheManager/Acquired.antt =====
-- `acquire()` of cache_manager.hpp.
use itoyori_github_io.CacheManager.Sent.{rewritten, SentHome, FitsOffsets}
use itoyori_github_io.CacheSystem.{Slot}
use itoyori_github_io.RegionSet.{RegionSet}
use itoyori_github_io.CacheManager.{Block, Manager, slot, is_empty, is_writing_back}
use itoyori_github_io.CacheManager.Lookup.{invalidate}
use itoyori_github_io.CacheManager.Release.{invalidate_writable, invalidate_all, acquire}
use itoyori_github_io.CacheManager.Inv.{IsConsistent}
use itoyori_github_io.CacheManager.Cleaning.{
  IsClean, Cleans, ensure_all_cache_clean-Cleans, cleaned-SentHome,
}
use itoyori_github_io.CacheManager.Shrunk.{
  with_valid, with_entries, with_entries-IsConsistent, try_each_entry_lem,
}
use mathlib.Core.Option.{some-injective}
use itoyori_github_io.Base.{
  ℕ, List, [], Option, ◌≡◌, some, false, ap, get_elem?, true, ◌==◌, ◌∙◌, arith, inl, refl, sym, ◌+◌,
  inr, get_elem?-total, length, get_elem?-lt, ◌<◌, ◌^◌,
}

-- Nobody has checked out a block.
abbrev pub IsUnused : Manager → Type 0
IsUnused m =
    (i : ℕ) (s : Slot Block) → slot i m ≡ some s → s.allocated ≡ true → s.entry.ref_count ≡ 0

-- Nothing is left.
abbrev Nothing : Slot Block → RegionSet → Type 0
Nothing s v = v ≡ []

-- `invalidate_writable` without read-only regions.
emptied_lem :
    (epoch block_size : ℕ) (s : Slot Block)
    → s.entry.dirty_regions ≡ []
    → is_writing_back epoch s.entry ≡ false
    → s.entry.ref_count ≡ 0
    → invalidate_writable epoch block_size [] s.entry
      ≡ some (record (s.entry) { valid_regions = [] })
unfolding invalidate_writable invalidate
emptied_lem epoch block_size s gone idle unused =
    let empty : is_empty s.entry.dirty_regions ≡ true = ap is_empty gone in
    let free : (s.entry.ref_count == 0) ≡ true = ground (arith, unused) in
    rw (idle, empty, free) refl

-- `invalidate_all` without read-only regions.
abbrev Invalidates : Manager → Option Manager → Type 0
Invalidates m result =
    (out : List (Slot Block)) × (result ≡ some (with_entries out m))
    × IsConsistent (with_entries out m)
    × ((i : ℕ) (s : Slot Block)
        → get_elem? m.cs.entries i ≡ some s
        → get_elem? out i ≡ some (with_valid s []))

invalidate_all_lem :
    (m : Manager)
    → IsConsistent m
    → IsClean m
    → ((i : ℕ) (s : Slot Block) → slot i m ≡ some s → is_writing_back m.epoch s.entry ≡ false)
    → IsUnused m
    → m.readonly_regions ≡ []
    → Invalidates m (invalidate_all m)
unfolding invalidate_all
invalidate_all_lem m v clean idle unused writable =
    let f = invalidate_writable m.epoch m.block_size m.readonly_regions in
    let (out, run, len, each) = try_each_entry_lem Nothing f m.cs.entries (λ i s e a. (
      [],
      ap (λ (ro : RegionSet). invalidate_writable m.epoch m.block_size ro s.entry) writable
          ∙ emptied_lem m.epoch m.block_size s (clean i s e) (idle i s e) (unused i s e a),
      (tt, λ x c. absurd (cc), refl),
    )) in
    (
      out,
      rw (run) refl,
      with_entries-IsConsistent Nothing m out v clean len each,
      λ i s e.
          let (w, at, p) = each i s e in
          let none_left : w ≡ [] = elim p [
            | inl (free, same) ↦ same ∙ ((v.slots i s e).free free).0
            | inr (_, (_, _, q)) ↦ q
          ] in
          at ∙ ap (λ (x : RegionSet). some (with_valid s x)) none_left,
    )

-- An acquired cache: no block holds a valid or a dirty byte, and every byte that was dirty is sent home.
abbrev pub Acquires : Manager → Option Manager → Type 0
Acquires m result =
    (m' : Manager) × (result ≡ some m')
    × IsConsistent m'
    × ((i : ℕ) (s : Slot Block)
        → slot i m' ≡ some s
        → (s.entry.valid_regions ≡ []) × (s.entry.dirty_regions ≡ []))
    × ((i : ℕ) (s : Slot Block) → slot i m ≡ some s → SentHome m.block_size s m'.log)

-- Cleaning does not change who uses a block.
cleaned-IsUnused : (m m' : Manager) → IsConsistent m → Cleans m m' → IsUnused m → IsUnused m'
cleaned-IsUnused m m' v c unused i t e a =
    let same_n : m'.cs.nentries ≡ m.cs.nentries = ap (λ (x : Manager). x.cs.nentries) c.frame in
    let (s, at) = get_elem?-total m.cs.entries i (
      omega (
        arith,
        get_elem?-lt m'.cs.entries i t e,
        v.cs_ok.sized,
        c.consistent.cs_ok.sized,
        same_n,
      )) in
    let (d, k, at', _) = c.slots i s at in
    let same = some-injective t (rewritten s d k) (sym e ∙ at') in
    ap (λ (x : Slot Block). x.entry.ref_count) same
    ∙ unused i s at (sym (ap (λ (x : Slot Block). x.allocated) same) ∙ a)

-- In a consistent state of a cache of at most 4 GiB whose epoch does not wrap, when no block is
-- checked out and no region is read-only, `acquire()` passes all checks. Afterwards the state is
-- consistent, no block has a valid or a dirty byte, and every byte that was dirty has been sent from
-- its place in the cache to its place at home.
pub acquire_lem :
    (m : Manager)
    → IsConsistent m
    → FitsOffsets m
    → m.epoch + length m.dirty_cache_blocks + 1 < 2 ^ 64
    → IsUnused m
    → m.readonly_regions ≡ []
    → Acquires m (acquire m)
unfolding acquire
acquire_lem m v fits room unused writable =
    let (m1, run1, c) = ensure_all_cache_clean-Cleans m v room in
    let writable1 : m1.readonly_regions ≡ [] =
      ap (λ (x : Manager). x.readonly_regions) c.frame ∙ writable in
    let (out, run, ok, each) =
      invalidate_all_lem m1 c.consistent c.is_clean c.none_started
        (cleaned-IsUnused m m1 v c unused) writable1 in
    (
      with_entries out m1,
      rw (run1) run,
      ok,
      λ i t e.
          let (s, at) =
            get_elem?-total m1.cs.entries i
              (omega (arith, get_elem?-lt out i t e, ok.cs_ok.sized, c.consistent.cs_ok.sized)) in
          let same = some-injective t (with_valid s []) (sym e ∙ each i s at) in
          (
            ap (λ (x : Slot Block). x.entry.valid_regions) same,
            ap (λ (x : Slot Block). x.entry.dirty_regions) same ∙ c.is_clean i s at,
          ),
      λ i s e. cleaned-SentHome m m1 i s v fits c e,
    )
