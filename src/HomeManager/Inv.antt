-- ===== src/HomeManager/Inv.antt =====
-- The invariant of home_manager.hpp's state.
use itoyori_github_io.Base.{All, ◌<◌, ℕ, ◌*◌, ◌≡◌, ◌≢◌, ◌⊎◌, true, some, List, get_elem?}
use itoyori_github_io.CacheSystem.{Slot}
use itoyori_github_io.CacheSystem.Inv as CI
use itoyori_github_io.Tlb.Laws.{IsSound}
use itoyori_github_io.HomeManager.{MmapEntry, Target, HomeManager, segment_at}

-- Slot `i` with the segments that are to be mapped: an entry in use is for the address of its key; it
-- is mapped there, or on the list with what a mapping needs.
pub record SegmentIsSound (block_size : ℕ) (pending : List ℕ) (i : ℕ) (s : Slot MmapEntry)
    : Type 0 where
  pub placed : s.allocated ≡ true → s.entry.addr ≡ s.key * block_size
  pub mapping :
      (s.entry.mapped_addr ≡ s.entry.addr) × (CI.occurs i pending ≡ 0)
      ⊎ (s.entry.mapped_addr ≢ s.entry.addr)
        × (CI.occurs i pending ≢ 0)
        × (s.entry.pm ≢ 0)
        × (s.entry.addr ≢ 0)
        × (s.allocated ≡ true)

-- What the translation buffer may hold for a segment: the dummy, or an entry in use for its address.
abbrev pub Belongs : List (Slot MmapEntry) → ℕ × ℕ → Target → Type 0
Belongs entries k Target.no_entry = ⊥
Belongs entries k Target.dummy = Unit {0}
Belongs entries k (Target.entry i) =
    (s : Slot MmapEntry) × (get_elem? entries i ≡ some s)
    × (s.allocated ≡ true)
    × (s.entry.addr ≡ k.0)

pub record IsConsistent (m : HomeManager) : Type 0 where
  pub cs_ok : CI.Inv m.cs
  pub slots :
      (i : ℕ) (s : Slot MmapEntry)
      → segment_at i m ≡ some s
      → SegmentIsSound m.block_size m.home_segments_to_map i s
  pub listed : All (λ i. i < m.cs.nentries) m.home_segments_to_map
  pub tlb_ok : IsSound (Belongs m.cs.entries) m.home_tlb
  pub invalid : m.home_tlb.first.entry ≡ Target.no_entry
