-- ===== src/CacheManager/Inv.antt =====
-- The invariant of cache_manager.hpp's state, and the changes of a block that keep the cache system
-- consistent.
use itoyori_github_io.Base.{
  ℕ, ◌<◌, ◌≡◌, ◌≢◌, ◌∙◌, ◌⊎◌, true, false, some, List, [], arith, ◌==◌, if◌then◌else◌,
  get_elem?-set, get_elem?-lt, All, sym, get_elem?-at, subst, ◌^◌,
}
use mathlib.Core.Option.{some-injective}
use itoyori_github_io.CacheSystem.{Slot}
use itoyori_github_io.CacheSystem.Entries.{with_entry-Inv}
use itoyori_github_io.CacheSystem.Inv as CI
use itoyori_github_io.RegionSet.Cover.{covers, IsValid}
use itoyori_github_io.CacheManager.Fetch.{owner_in_range}
use itoyori_github_io.CacheManager.{Block, Manager, is_empty, slot, put_block}

-- Slot `i` at an epoch, with the windows that are written back and the list of dirty blocks: the
-- owner is a rank or -1, the valid bytes have offsets below the largest block size, the
-- dirty bytes are valid, a free slot has none of either, a block with dirty bytes is on the list, and a
-- block whose epoch is the current one has its window among those that are written back.
pub record SlotIsSound (ranks epoch : ℕ) (wins dirty : List ℕ) (i : ℕ) (s : Slot Block)
    : Type 0 where
  pub ranked : owner_in_range ranks s.entry.owner ≡ true
  pub bounded : (x : ℕ) → covers s.entry.valid_regions x ≡ true → x < 2 ^ 31
  pub valid_ok : IsValid s.entry.valid_regions
  pub dirty_ok : IsValid s.entry.dirty_regions
  pub dirty_valid :
      (x : ℕ) → covers s.entry.dirty_regions x ≡ true → covers s.entry.valid_regions x ≡ true
  pub free : s.allocated ≡ false → (s.entry.valid_regions ≡ []) × (s.entry.dirty_regions ≡ [])
  pub numbered : s.allocated ≡ true → s.entry.entry_idx ≡ i
  pub started :
      (s.entry.writeback_epoch < epoch)
      ⊎ ((s.entry.writeback_epoch ≡ epoch) × (is_empty wins ≡ false))
  pub listed : (s.entry.dirty_regions ≡ []) ⊎ (CI.occurs i dirty ≢ 0)

pub record IsConsistent (m : Manager) : Type 0 where
  pub cs_ok : CI.Inv m.cs
  pub slots :
      (i : ℕ) (s : Slot Block)
      → slot i m ≡ some s
      → SlotIsSound m.n_ranks m.epoch m.writing_back_wins m.dirty_cache_blocks i s
  pub in_cache : All (λ i. i < m.cs.nentries) m.dirty_cache_blocks
  pub clean :
      (m.has_dirty_cache ≡ true) ⊎ ((m.dirty_cache_blocks ≡ []) × (m.writing_back_wins ≡ []))

-- Slot `j` after a write to slot `i`.
pub slot-put_block :
    (i j : ℕ) (s : Slot Block) (b : Block) (m : Manager)
    → slot i m ≡ some s
    → slot j (put_block i s b m) ≡ (if i == j then some (record s { entry = b }) else slot j m)
slot-put_block i j s b m e =
    get_elem?-set m.cs.entries i j (record s { entry = b }) (get_elem?-lt m.cs.entries i s e)

-- The cache system does not look at the entries.
pub put_block-Inv :
    (i : ℕ) (s : Slot Block) (b : Block) (m : Manager)
    → slot i m ≡ some s
    → CI.Inv m.cs
    → CI.Inv (put_block i s b m).cs
put_block-Inv i s b m e v = with_entry-Inv i s b m.cs e v

-- What holds of the slot with one index holds of the slot with an equal one.
pub slot-same :
    (P : ℕ → Slot Block → Type 0) (i j : ℕ) (s t : Slot Block) (m : Manager)
    → slot i m ≡ some s
    → slot j m ≡ some t
    → (i == j) ≡ true
    → P i s
    → P j t
slot-same P i j s t m at at' same p =
    let index : i ≡ j = ground (arith, same) in
    let which : some s ≡ some t = sym at ∙ get_elem?-at m.cs.entries i j index ∙ at' in
    subst (P j) (some-injective s t which) (subst (λ (k : ℕ). P k s) index p)
