-- ===== src/CacheManager/CheckedIn.antt =====
-- The invariant of cache_manager.hpp when a block becomes dirty.
use itoyori_github_io.RegionSet.{Region, RegionSet}
use itoyori_github_io.RegionSet.Cover.{covers, within, IsValid}
use itoyori_github_io.CacheSystem.{Slot}
use itoyori_github_io.CacheSystem.Inv as CI
use itoyori_github_io.CacheManager.{Block, Manager, cache_offset}
use itoyori_github_io.CacheManager.Inv.{IsConsistent, SlotIsSound}
use itoyori_github_io.CacheManager.Clean.{Frame}
use itoyori_github_io.CacheManager.Cleaning.{true-ne-false}
use itoyori_github_io.CacheManager.Sent.{
  sends, KeepsSlots, rewritten, FitsOffsets, cache_offset_lem,
}
use itoyori_github_io.CacheManager.CheckedOut.{Holds, IsSized-same}
use itoyori_github_io.Base.{
  ℕ, refl, [], ◌∷◌, ◌≡◌, get_elem?-lt, Option, ◌++◌, List, All, arith, true, some, inl, ap, ◌≢◌,
  inr, ◌<◌, ◌||◌, ◌∙◌, ◌*◌, sym,
}
use itoyori_github_io.Base.Assoc.{find}

-- The list of dirty blocks may grow.
listed-SlotIsSound :
    (ranks epoch : ℕ) (wins dirty : List ℕ) (j i : ℕ) (s : Slot Block)
    → SlotIsSound ranks epoch wins dirty i s
    → SlotIsSound ranks epoch wins (dirty ++ (j ∷ [])) i s
listed-SlotIsSound ranks epoch wins dirty j i s v = record {
  ranked = v.ranked;
  bounded = v.bounded;
  valid_ok = v.valid_ok;
  dirty_ok = v.dirty_ok;
  dirty_valid = v.dirty_valid;
  free = v.free;
  numbered = v.numbered;
  started = v.started;
  listed = elim v.listed [
    | inl h ↦ inl h
    | inr h ↦ inr (λ z. h (omega (arith, CI.occurs-append i dirty (j ∷ []))))
  ];
}

All-snoc : (n j : ℕ) (js : List ℕ) → All (λ i. i < n) js → j < n → All (λ i. i < n) (js ++ (j ∷ []))
All-snoc n j [] a h = (h, tt)
All-snoc n j (k ∷ js) (a, rest) h = (a, All-snoc n j js rest h)

-- The manager with slot `i` on the list.
abbrev pub listing : ℕ → Manager → Manager
listing i m = record m {
  dirty_cache_blocks = m.dirty_cache_blocks ++ (i ∷ []);
  has_dirty_cache = true;
}

pub listing-Holds :
    (key i : ℕ) (m : Manager) (s : Slot Block) → Holds key i m s → Holds key i (listing i m) s
listing-Holds key i m s h =
    let v = h.consistent in
    let in_range = get_elem?-lt m.cs.entries i s h.at in
    record {
      consistent = record {
        cs_ok = v.cs_ok;
        slots = λ j t e.
            listed-SlotIsSound m.n_ranks m.epoch m.writing_back_wins m.dirty_cache_blocks i j t
              (v.slots j t e);
        in_cache =
            All-snoc m.cs.nentries i m.dirty_cache_blocks v.in_cache (omega (arith, v.cs_ok.sized));
        clean = inl refl;
      };
      sized = IsSized-same m (listing i m) refl refl h.sized;
      found = h.found;
      at = h.at;
      allocated = h.allocated;
    }

-- More dirty bytes in a slot that is listed.
pub dirtied-SlotIsSound :
    (ranks epoch : ℕ) (wins dirty : List ℕ) (i : ℕ) (s : Slot Block) (d : RegionSet)
    → s.allocated ≡ true
    → IsValid d
    → ((x : ℕ) → covers d x ≡ true → covers s.entry.valid_regions x ≡ true)
    → CI.occurs i dirty ≢ 0
    → SlotIsSound ranks epoch wins dirty i s
    → SlotIsSound ranks epoch wins dirty i
        (record s { entry = record (s.entry) { dirty_regions = d } })
dirtied-SlotIsSound ranks epoch wins dirty i s d a ok sub l v = record {
  ranked = v.ranked;
  bounded = v.bounded;
  valid_ok = v.valid_ok;
  dirty_ok = ok;
  dirty_valid = sub;
  free = λ f. absurd (true-ne-false (sym a ∙ f));
  numbered = v.numbered;
  started = v.started;
  listed = inr l;
}

-- Every byte of the region is dirty or on its way home from its place in the cache.
abbrev pub Recorded : Region → Slot Block → Manager → Type 0
Recorded br s m =
    (x : ℕ)
    → within br x ≡ true
    → (covers s.entry.dirty_regions x || sends s.entry (s.entry.entry_idx * m.block_size) m.log x)
      ≡ true

-- A block that is written to: it keeps its slot and its count, and no byte of the region is lost.
abbrev pub Dirties : ℕ → ℕ → Region → Slot Block → Option Manager → Type 0
Dirties key i br s result =
    (m' : Manager) × (s' : Slot Block) × (result ≡ some m')
    × Holds key i m' s'
    × Recorded br s' m'
    × (s'.entry.ref_count ≡ s.entry.ref_count)

-- After some writing back the slot is held as before.
pub kept-Dirties :
    (key i : ℕ) (br : Region) (s : Slot Block) (m m' : Manager)
    → Holds key i m s
    → FitsOffsets m
    → IsConsistent m'
    → Frame m m'
    → KeepsSlots m m'
    → ((x : ℕ) → within br x ≡ true → covers s.entry.dirty_regions x ≡ true)
    → Dirties key i br s (some m')
kept-Dirties key i br s m m' h fits v f k all =
    let (d, e, at, keep) = k i s h.at in
    let same_size : m'.block_size ≡ m.block_size = ap (λ (x : Manager). x.block_size) f in
    let number : s.entry.entry_idx ≡ i = (h.consistent.slots i s h.at).numbered h.allocated in
    let sized = h.consistent.cs_ok.sized in
    let place : s.entry.entry_idx * m'.block_size ≡ cache_offset s.entry.entry_idx m.block_size =
      ap (λ (n : ℕ). s.entry.entry_idx * n) same_size
      ∙ sym (
          cache_offset_lem s.entry.entry_idx m.cs.nentries m.block_size
            (omega (arith, number, sized, get_elem?-lt m.cs.entries i s h.at)) fits) in
    (
      m',
      rewritten s d e,
      refl,
      record {
        consistent = v;
        sized = IsSized-same m m' same_size (ap (λ (x : Manager). x.sub_block_size) f) h.sized;
        found = ap (λ (x : Manager). find key x.cs.table) f ∙ h.found;
        at = at;
        allocated = h.allocated;
      },
      λ x c. elim keep [
        | inl p ↦
            let still : covers d x ≡ true = ap (λ (rs : RegionSet). covers rs x) p ∙ all x c in
            ground (arith, still)
        | inr (_, sent) ↦
            let goes = ap (λ (n : ℕ). sends s.entry n m'.log x) place ∙ sent x (all x c) in
            ground (arith, goes)
      ],
      refl,
    )
