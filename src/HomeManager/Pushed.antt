-- ===== src/HomeManager/Pushed.antt =====
-- The list of segments to map in home_manager.hpp grows.
use itoyori_github_io.CacheSystem.{Slot}
use itoyori_github_io.CacheSystem.Inv as CI
use itoyori_github_io.CacheSystem.Entries.{slot-with_entry, with_entry-Inv, with_entry-each}
use itoyori_github_io.Tlb.Laws.{IsSound}
use itoyori_github_io.HomeManager.{
  MmapEntry, HomeManager, Target, segment_at, put_entry, place_segment,
}
use itoyori_github_io.HomeManager.Inv.{IsConsistent, SegmentIsSound, Belongs}
use itoyori_github_io.Base.{
  ℕ, List, [], ◌∷◌, All, ◌∙◌, sym, ◌++◌, ◌≡◌, ◌<◌, Option, ◌==◌, false, Bool, some, true, inl, refl,
  arith, ◌*◌, ◌⊎◌, ◌≢◌, inr, get_elem?-lt,
}

-- The entry for a segment that is not mapped there yet.
abbrev pub placed : Slot MmapEntry → ℕ → ℕ → ℕ → ℕ → MmapEntry
placed s seg_addr seg_size pm pm_offset = record (s.entry) {
  addr = seg_addr;
  size = seg_size;
  pm = pm;
  pm_offset = pm_offset;
}

-- Slot `i` has its segment, which is mapped there or on the list.
abbrev pub Places : ℕ → ℕ → ℕ → HomeManager → Option (HomeManager × Bool) → Type 0
Places i seg_addr n m result =
    (m' : HomeManager) × (here : Bool) × (s' : Slot MmapEntry) × (result ≡ some (m', here))
    × IsConsistent m'
    × (segment_at i m' ≡ some s')
    × (s'.allocated ≡ true)
    × (s'.entry.addr ≡ seg_addr)
    × (s'.entry.ref_count ≡ n)
    × ((here ≡ false) ⊎ (s'.entry.mapped_addr ≡ seg_addr))

-- Slot `i` is on the list now, the others are as they were.
pushed-SegmentIsSound :
    (size i j : ℕ) (pending : List ℕ) (t : Slot MmapEntry)
    → (i == j) ≡ false
    → SegmentIsSound size pending j t
    → SegmentIsSound size (pending ++ (i ∷ [])) j t
pushed-SegmentIsSound size i j pending t other v = record {
  placed = v.placed;
  mapping = elim v.mapping [
    | inl (h, z) ↦ inl (h, ground (arith, z, other, CI.occurs-append j pending (i ∷ [])))
    | inr (h, o, p, a, u) ↦
        inr (h, λ z. o (ground (arith, z, CI.occurs-append j pending (i ∷ []))), p, a, u)
  ];
}

All-snoc : (n i : ℕ) (is : List ℕ) → All (λ j. j < n) is → i < n → All (λ j. j < n) (is ++ (i ∷ []))
All-snoc n i [] a h = (h, tt)
All-snoc n i (j ∷ is) (a, rest) h = (a, All-snoc n i is rest h)

-- What `place_segment` makes of a state, on both branches.
pub place_here :
    (i seg_addr seg_size pm pm_offset : ℕ) (m : HomeManager) (s : Slot MmapEntry)
    → segment_at i m ≡ some s
    → (seg_addr == s.entry.mapped_addr) ≡ true
    → place_segment i seg_addr seg_size pm pm_offset m ≡ some (m, true)
unfolding place_segment
place_here i seg_addr seg_size pm pm_offset m s at t = rw (at, t) refl

abbrev pub pushed : ℕ → Slot MmapEntry → MmapEntry → HomeManager → HomeManager
pushed i s e m =
    put_entry i s e (record m { home_segments_to_map = m.home_segments_to_map ++ (i ∷ []) })

pub place_push :
    (i seg_addr seg_size pm pm_offset : ℕ) (m : HomeManager) (s : Slot MmapEntry)
    → segment_at i m ≡ some s
    → (seg_addr == s.entry.mapped_addr) ≡ false
    → place_segment i seg_addr seg_size pm pm_offset m
      ≡ some (pushed i s (placed s seg_addr seg_size pm pm_offset) m, false)
unfolding place_segment
place_push i seg_addr seg_size pm pm_offset m s at f = rw (at, f) refl

-- The state with the segment on the list is consistent, if the other slots are and the buffer is.
pub pushed-IsConsistent :
    (i seg_addr seg_size pm pm_offset : ℕ) (m : HomeManager) (s : Slot MmapEntry)
    → CI.Inv m.cs
    → segment_at i m ≡ some s
    → s.allocated ≡ true
    → s.key * m.block_size ≡ seg_addr
    → (seg_addr == s.entry.mapped_addr) ≡ false
    → pm ≢ 0
    → seg_addr ≢ 0
    → ((j : ℕ) (t : Slot MmapEntry)
        → (i == j) ≡ false
        → segment_at j m ≡ some t
        → SegmentIsSound m.block_size m.home_segments_to_map j t)
    → All (λ j. j < m.cs.nentries) m.home_segments_to_map
    → IsSound
        (Belongs (pushed i s (placed s seg_addr seg_size pm pm_offset) m).cs.entries)
        m.home_tlb
    → m.home_tlb.first.entry ≡ Target.no_entry
    → IsConsistent (pushed i s (placed s seg_addr seg_size pm pm_offset) m)
pushed-IsConsistent i seg_addr seg_size pm pm_offset m s ok at a key f p z others l tlb invalid =
    let e = placed s seg_addr seg_size pm pm_offset in
    record {
      cs_ok = with_entry-Inv i s e m.cs at ok;
      slots =
          with_entry-each (SegmentIsSound m.block_size (m.home_segments_to_map ++ (i ∷ []))) i s e
            m.cs at
            (record {
              placed = λ u. sym key;
              mapping = inr (
                λ q. absurd (ground (arith, f, q)),
                λ q. absurd (ground (arith, q, CI.occurs-append i m.home_segments_to_map (i ∷ []))),
                p,
                z,
                a,
              );
            })
            (λ j t o h.
              pushed-SegmentIsSound m.block_size i j m.home_segments_to_map t o (others j t o h));
      listed =
          All-snoc m.cs.nentries i m.home_segments_to_map l
            (omega (arith, get_elem?-lt m.cs.entries i s at, ok.sized));
      tlb_ok = tlb;
      invalid = invalid;
    }

pub pushed-at :
    (i : ℕ) (s : Slot MmapEntry) (e : MmapEntry) (m : HomeManager)
    → segment_at i m ≡ some s
    → segment_at i (pushed i s e m) ≡ some (record s { entry = e })
pushed-at i s e m at = slot-with_entry i i s e m.cs at ∙ ground arith
