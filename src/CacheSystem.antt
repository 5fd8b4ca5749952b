-- ===== src/CacheSystem.antt =====
-- include/ityr/ori/cache_system.hpp: `cache_system<Key, Entry>`, a fixed number of cache slots with a
-- table from keys to slots and a list of the slots from least to most recently used. A key is a number.
-- The list iterator `lru_it` of a slot stands at the slot's own index, so a splice by it is a move of
-- that index.
pub mod Inv
pub mod Search
pub mod Cached
pub mod Evicted
pub mod Order
pub mod Entries
mod Tests
use itoyori_github_io.Base.{
  ℕ, zero, suc, Bool, true, false, not, Option, none, some, List, [], ◌∷◌, ◌++◌, ◌==◌,
  if◌then◌else◌, ◌>>=◌, get_elem?, set,
}
use itoyori_github_io.Base.Assoc.{find, assign, erase}

-- What the template argument `Entry` provides.
pub record EntryOps (E : Type 0) : Type 0 where
  pub is_evictable : E → Bool
  pub on_evict : E → E
  pub on_cache_map : ℕ → E → E

-- `cache_entry`
pub record Slot (E : Type 0) : Type 0 where
  pub allocated : Bool
  pub key : ℕ
  pub entry : E
  pub idx : ℕ

pub record CacheSystem (E : Type 0) : Type 0 where
  pub nentries : ℕ
  pub entry_initial_state : E
  pub entries : List (Slot E)
  pub lru : List ℕ
  pub table : List (ℕ × ℕ)

module _ {E : Type 0} where
  -- The slots `idx` to `idx + n`, all free. The key of a free slot is not read; it is 0 here.
  unfoldable pub init_entries : E → ℕ → ℕ → List (Slot E)
  init_entries e zero idx = []
  init_entries e (suc n) idx =
      record { allocated = false; key = 0; entry = e; idx = idx } ∷ init_entries e n (suc idx)

  unfoldable pub init_lru : List (Slot E) → List ℕ
  init_lru [] = []
  init_lru (ce ∷ ces) = ce.idx ∷ init_lru ces

  unfoldable pub init : ℕ → E → CacheSystem E
  unfolding init_entries init_lru
  init nentries e = record {
    nentries = nentries;
    entry_initial_state = e;
    entries = init_entries e nentries 0;
    lru = init_lru (init_entries e nentries 0);
    table = [];
  }

  unfoldable pub is_cached : ℕ → CacheSystem E → Bool
  is_cached key c = elim (find key c.table) [ none ↦ false | some idx ↦ true ]

-- The list without the first `i`.
unfoldable pub unlink : ℕ → List ℕ → List ℕ
unlink i [] = []
unlink i (j ∷ js) = if j == i then js else j ∷ unlink i js

unfoldable pub move_to_back_lru : ℕ → List ℕ → List ℕ
unfolding unlink
move_to_back_lru i lru = unlink i lru ++ (i ∷ [])

module _ {E : Type 0} (ops : EntryOps E) where
  open ops use {is_evictable, on_evict, on_cache_map}

  -- The eviction in `get_empty_slot`.
  unfoldable pub release_slot : ℕ → Slot E → CacheSystem E → CacheSystem E
  release_slot i ce c = record c {
    table = erase ce.key c.table;
    entries = set c.entries i (record ce { entry = on_evict ce.entry; allocated = false });
  }

  -- The loop of `get_empty_slot` over the rest of the list; `none` is `cache_full_exception`.
  unfoldable pub scan_lru : CacheSystem E → List ℕ → Option (CacheSystem E × ℕ)
  scan_lru c [] = none
  scan_lru c (i ∷ is) =
      let rest = scan_lru c is in
      get_elem? c.entries i >>= λ ce.
      if not ce.allocated
      then some (c, ce.idx)
      else if is_evictable ce.entry
      then some (release_slot i ce c, ce.idx)
      else rest

  unfoldable pub get_empty_slot : CacheSystem E → Option (CacheSystem E × ℕ)
  unfolding scan_lru
  get_empty_slot c = scan_lru c c.lru

  -- `if constexpr (UpdateLRU) move_to_back_lru(ce)`
  unfoldable pub touch : Bool → ℕ → CacheSystem E → CacheSystem E
  touch update_lru idx c = if update_lru then record c { lru = move_to_back_lru idx c.lru } else c

  -- The slot `idx` is given to `key`.
  unfoldable pub fill_slot : ℕ → ℕ → Slot E → CacheSystem E → CacheSystem E
  fill_slot key idx ce c = record c {
    entries =
        set c.entries idx
          (record ce { entry = on_cache_map idx ce.entry; allocated = true; key = key });
    table = assign key idx c.table;
  }

  -- `ensure_cached`: the new state and the slot whose entry is returned. `none` is the exception of
  -- `get_empty_slot`, which leaves the state as it was.
  unfoldable pub ensure_cached : Bool → ℕ → CacheSystem E → Option (CacheSystem E × ℕ)
  unfolding touch
  ensure_cached update_lru key c = elim (find key c.table) [
    | none ↦ get_empty_slot c >>= λ (c1, idx). get_elem? c1.entries idx >>= λ ce.
        some (touch update_lru idx (fill_slot key idx ce c1), idx)
    | some idx ↦ some (touch update_lru idx c, idx)
  ]

  -- `ensure_evicted`; `none` is the failed ITYR_CHECK of an entry that cannot be evicted.
  unfoldable pub ensure_evicted : ℕ → CacheSystem E → Option (CacheSystem E)
  ensure_evicted key c = elim (find key c.table) [
    | none ↦ some c
    | some idx ↦ get_elem? c.entries idx >>= λ ce.
        if is_evictable ce.entry
        then some (record c {
          entries =
              set c.entries idx
                (record ce { allocated = false; key = 0; entry = c.entry_initial_state });
          table = erase key c.table;
        })
        else none
  ]

  -- `for_each_entry(f)` with an `f` that changes the entry.
  unfoldable pub for_each_entry : (E → E) → List (Slot E) → List (Slot E)
  for_each_entry f [] = []
  for_each_entry f (ce ∷ ces) =
      let rest = for_each_entry f ces in
      if ce.allocated then record ce { entry = f ce.entry } ∷ rest else ce ∷ rest
