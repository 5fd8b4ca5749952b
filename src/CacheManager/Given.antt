-- ===== src/CacheManager/Given.antt =====
-- What giving a slot to a key does to the invariant of cache_manager.hpp.
use itoyori_github_io.CacheManager.Clean.{is_empty-eq}
use itoyori_github_io.CacheSystem.{Slot}
use itoyori_github_io.CacheSystem.Entries.{NewEntry}
use itoyori_github_io.Base.{
  ℕ, refl, Bool-cases, ◌≡◌, true, Option, some, inl, List, subst, inr, sym, [], ◌==◌, arith, ◌∙◌,
  ap,
}
use itoyori_github_io.CacheManager.{Block, Manager, Request, slot, put_block}
use itoyori_github_io.CacheManager.Lookup.{block_ops}
use itoyori_github_io.CacheManager.Inv.{
  IsConsistent, SlotIsSound, put_block-Inv, slot-put_block, slot-same,
}
use itoyori_github_io.CacheManager.Cleaning.{true-ne-false}
use itoyori_github_io.Tlb.{Tlb}
use itoyori_github_io.RegionSet.Cover.{covers}

-- A write to one block that leaves its slot sound.
pub put_block-IsConsistent :
    (i : ℕ) (s : Slot Block) (b : Block) (m : Manager)
    → IsConsistent m
    → slot i m ≡ some s
    → SlotIsSound m.n_ranks m.epoch m.writing_back_wins m.dirty_cache_blocks i
        (record s { entry = b })
    → IsConsistent (put_block i s b m)
put_block-IsConsistent i s b m v e w = record {
  cs_ok = put_block-Inv i s b m e v.cs_ok;
  slots = λ j t h. elim (Bool-cases (i == j)) [
    | inl same ↦
        let at : slot i (put_block i s b m) ≡ some (record s { entry = b }) =
          slot-put_block i i s b m e ∙ ground arith in
        slot-same (SlotIsSound m.n_ranks m.epoch m.writing_back_wins m.dirty_cache_blocks) i j
          (record s { entry = b }) t (put_block i s b m) at h same w
    | inr other ↦ v.slots j t (sym (slot-put_block i j s b m e ∙ rw (other)) ∙ h)
  ];
  in_cache = v.in_cache;
  clean = v.clean;
}

-- The invariant does not look at these fields.
pub IsConsistent-view :
    (t : Tlb ℕ (Option ℕ)) (fetching to_map : List ℕ) (requests : List Request) (m : Manager)
    → IsConsistent m
    → IsConsistent (record m {
      cache_tlb = t;
      fetching_wins = fetching;
      cache_blocks_to_map = to_map;
      log = requests;
    })
IsConsistent-view t fetching to_map requests m v = record {
  cs_ok = v.cs_ok;
  slots = v.slots;
  in_cache = v.in_cache;
  clean = v.clean;
}

-- The slot that a key has got is sound, whether it was the key's, free, or another's.
pub new-SlotIsSound :
    (m : Manager) (key i : ℕ) (s : Slot Block) (e : Block)
    → SlotIsSound m.n_ranks m.epoch m.writing_back_wins m.dirty_cache_blocks i s
    → NewEntry (block_ops m.epoch) m.cs key i s e
    → SlotIsSound m.n_ranks m.epoch m.writing_back_wins m.dirty_cache_blocks i
        (record s { entry = e; allocated = true; key = key })
new-SlotIsSound m key i s e v (inl (_, a, same)) =
    subst
      (λ (b : Block).
        SlotIsSound m.n_ranks m.epoch m.writing_back_wins m.dirty_cache_blocks i
          (record s { entry = b; allocated = true; key = key }))
      (sym same)
      (record {
        ranked = v.ranked;
        bounded = v.bounded;
        valid_ok = v.valid_ok;
        dirty_ok = v.dirty_ok;
        dirty_valid = v.dirty_valid;
        free = λ f. absurd (cc);
        numbered = λ t. v.numbered a;
        started = v.started;
        listed = v.listed;
      })
new-SlotIsSound m key i s e v (inr (inl (f, same))) =
    subst
      (λ (b : Block).
        SlotIsSound m.n_ranks m.epoch m.writing_back_wins m.dirty_cache_blocks i
          (record s { entry = b; allocated = true; key = key }))
      (sym same)
      (record {
        ranked = v.ranked;
        bounded = v.bounded;
        valid_ok = v.valid_ok;
        dirty_ok = v.dirty_ok;
        dirty_valid = v.dirty_valid;
        free = λ g. absurd (cc);
        numbered = λ t. refl;
        started = v.started;
        listed = v.listed;
      })
new-SlotIsSound m key i s e v (inr (inr (a, evictable, same))) =
    let none_dirty : s.entry.dirty_regions ≡ [] =
      is_empty-eq s.entry.dirty_regions (ground (arith, evictable)) in
    subst
      (λ (b : Block).
        SlotIsSound m.n_ranks m.epoch m.writing_back_wins m.dirty_cache_blocks i
          (record s { entry = b; allocated = true; key = key }))
      (sym same)
      (record {
        ranked = v.ranked;
        bounded = λ x c. absurd (cc);
        valid_ok = tt;
        dirty_ok = v.dirty_ok;
        dirty_valid = λ x c. absurd (true-ne-false (sym c ∙ ap (λ rs. covers rs x) none_dirty));
        free = λ g. absurd (cc);
        numbered = λ t. refl;
        started = v.started;
        listed = inl none_dirty;
      })
