-- ===== src/CacheManager/Counted.antt =====
-- The counting of a checked-out block in cache_manager.hpp.
use itoyori_github_io.CacheManager.Inv.{SlotIsSound}
use itoyori_github_io.RegionSet.{Region}
use itoyori_github_io.CacheSystem.{Slot}
use itoyori_github_io.CacheManager.{Block, Manager, put_block}
use itoyori_github_io.CacheManager.Checkout.{increment_ref}
use itoyori_github_io.CacheManager.Carried.{SamePlace}
use itoyori_github_io.CacheManager.Coverage.{Covered}
use itoyori_github_io.CacheManager.CheckedOut.{Holds, put_block-Holds}
use itoyori_github_io.Base.{ℕ, refl, List, Bool, true, false, ◌≡◌, some, if◌then◌else◌, ◌+◌}

pub counted-SlotIsSound :
    (ranks epoch : ℕ) (wins dirty : List ℕ) (i : ℕ) (s : Slot Block) (n : ℕ)
    → SlotIsSound ranks epoch wins dirty i s
    → SlotIsSound ranks epoch wins dirty i (record s { entry = record (s.entry) { ref_count = n } })
counted-SlotIsSound ranks epoch wins dirty i s n v = record {
  ranked = v.ranked;
  bounded = v.bounded;
  valid_ok = v.valid_ok;
  dirty_ok = v.dirty_ok;
  dirty_valid = v.dirty_valid;
  free = v.free;
  numbered = v.numbered;
  started = v.started;
  listed = v.listed;
}

-- `increment_ref` keeps the block from being evicted.
pub increment_ref_lem :
    (flag : Bool) (key i : ℕ) (br : Region) (m : Manager) (s : Slot Block)
    → Holds key i m s
    → Covered br s.entry.valid_regions
    → (m' : Manager) × (s' : Slot Block) × (increment_ref flag i m ≡ some m')
      × Holds key i m' s'
      × Covered br s'.entry.valid_regions
      × (m' ≡ record m { cs = m'.cs })
      × SamePlace s'.entry s.entry
      × (s'.entry.ref_count ≡ (if flag then s.entry.ref_count + 1 else s.entry.ref_count))
unfolding increment_ref
increment_ref_lem false key i br m s h all =
    (m, s, rw (h.at), h, all, refl, (refl, refl, refl, refl), refl)
increment_ref_lem true key i br m s h all =
    let v = h.consistent.slots i s h.at in
    let b : Block = record (s.entry) { ref_count = s.entry.ref_count + 1 } in
    (
      put_block i s b m,
      record s { entry = b },
      rw (h.at),
      put_block-Holds key i m s b h (
          counted-SlotIsSound m.n_ranks m.epoch m.writing_back_wins m.dirty_cache_blocks i s
            (s.entry.ref_count + 1) v),
      all,
      refl,
      (refl, refl, refl, refl),
      refl,
    )
