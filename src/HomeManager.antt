-- ===== src/HomeManager.antt =====
-- include/ityr/ori/home_manager.hpp: `home_manager<BlockSize>`, the mappings of the segments whose home
-- is this process.
-- A pointer to a `mmap_entry` is the index of its slot in the cache system, an address or a
-- physical memory is a number (0 is `nullptr`). What is asked of the operating system is kept in a log.
-- `none` is an abort: a failed ITYR_CHECK, `die`, or an access outside of an array.
pub mod Inv
pub mod Mapped
pub mod Completed
pub mod Fast
pub mod Found
pub mod Missed
pub mod Pushed
pub mod Placed
pub mod Segment
mod Tests
use itoyori_github_io.Base.{
  ℕ, ◌+◌, ◌-◌, ◌/◌, ◌%◌, ◌^◌, Bool, true, false, not, ◌&&◌, ◌||◌, Option, none, some, List, [], ◌∷◌,
  ◌++◌, ◌==◌, leb, if◌then◌else◌, ◌>>=◌, get_elem?, set,
}
use itoyori_github_io.Base.Assoc.{find}
use itoyori_github_io.CacheSystem.{EntryOps, Slot, CacheSystem, ensure_cached, is_cached}
use itoyori_github_io.CacheSystem as CS
use itoyori_github_io.Tlb.{Tlb}
use itoyori_github_io.Tlb as T

-- `mmap_entry`, without the pointer to the manager.
pub record MmapEntry : Type 0 where
  pub entry_idx : ℕ
  pub addr : ℕ
  pub mapped_addr : ℕ
  pub size : ℕ
  pub mapped_size : ℕ
  pub pm : ℕ
  pub pm_offset : ℕ
  pub ref_count : ℕ

-- What the translation buffer holds: `nullptr`, `&mmap_entry_dummy_`, or an entry of the cache system.
pub data Target : Type 0 where
  no_entry : Target
  dummy : Target
  entry : ℕ → Target

-- The calls of the operating system: `mmap_no_physical_mem` and `physical_mem::map_to_vm`.
pub data Mapping : Type 0 where
  mmap_no_physical_mem : (addr size : ℕ) → Mapping
  map_to_vm : (pm addr size pm_offset : ℕ) → Mapping

-- The fields. Of the dummy only the count is ever written; it is never read, and kept as the 32 bits of
-- an `int`, since it may become negative.
pub record HomeManager : Type 0 where
  pub enable_vm_map : Bool
  pub block_size : ℕ
  pub cs : CacheSystem MmapEntry
  pub dummy_ref_count : ℕ
  pub home_tlb : Tlb (ℕ × ℕ) Target
  pub home_segments_to_map : List ℕ
  pub log : List Mapping

abbrev pub segment_at : ℕ → HomeManager → Option (Slot MmapEntry)
segment_at i m = get_elem? m.cs.entries i

-- A write to the entry in slot `i`, which holds `s`.
abbrev pub put_entry : ℕ → Slot MmapEntry → MmapEntry → HomeManager → HomeManager
put_entry i s e m = record m {
  cs = record (m.cs) { entries = set m.cs.entries i (record s { entry = e }) };
}

-- The callbacks. The check in `on_evict` that the entry is mapped stands in `eviction_ok`, the clearing
-- of the translation buffer in `get_entry`.
abbrev pub entry_ops : EntryOps MmapEntry
entry_ops = record {
  is_evictable = λ e. e.ref_count == 0;
  on_evict = λ e. record e { entry_idx = 2 ^ 31 - 1 };
  on_cache_map = λ i e. record e { entry_idx = i };
}

-- `cache_key`
unfoldable pub cache_key : ℕ → HomeManager → Option ℕ
cache_key addr m =
    if (addr == 0) || not (addr % m.block_size == 0) then none else some (addr / m.block_size)

-- The entry that is evicted to make room for the key in slot `i`.
unfoldable pub victim : ℕ → ℕ → CacheSystem MmapEntry → Option MmapEntry
victim key i c = elim (find key c.table) [
  | some _ ↦ none
  | none ↦ elim (get_elem? c.entries i) [
    | none ↦ none
    | some s ↦ if s.allocated then some s.entry else none
  ]
]

-- `ITYR_CHECK(mapped_addr == addr)` in `on_evict`
unfoldable pub eviction_ok : Option MmapEntry → Bool
eviction_ok none = true
eviction_ok (some e) = e.mapped_addr == e.addr

abbrev pub is_some {ℓ} : {A : Type ℓ} → Option A → Bool
is_some none = false
is_some (some x) = true

-- `get_entry`: the new state and the slot.
unfoldable pub get_entry : Bool → ℕ → HomeManager → Option (HomeManager × ℕ)
unfolding cache_key victim eviction_ok
get_entry update_lru addr m = cache_key addr m >>= λ key.
    ensure_cached entry_ops update_lru key m.cs >>= λ (cs, i).
    if eviction_ok (victim key i m.cs)
    then some (
      record m {
        cs = cs;
        home_tlb = if is_some (victim key i m.cs) then T.clear m.home_tlb else m.home_tlb;
      },
      i,
    )
    else none

-- `me.ref_count++` and `me.ref_count--` with its check, if the flag is set.
unfoldable pub increment_ref : Bool → ℕ → HomeManager → Option HomeManager
increment_ref flag i m = segment_at i m >>= λ s.
    some
      (if flag then put_entry i s (record (s.entry) { ref_count = s.entry.ref_count + 1 }) m else m)

unfoldable pub decrement_ref : Bool → ℕ → HomeManager → Option HomeManager
decrement_ref flag i m = segment_at i m >>= λ s.
    if flag
    then if s.entry.ref_count == 0
      then none
      else some (put_entry i s (record (s.entry) { ref_count = s.entry.ref_count - 1 }) m)
    else some m

-- The bytes lie in the segment that the translation buffer has as its key.
unfoldable pub in_segment : ℕ → ℕ → ℕ × ℕ → Bool
in_segment addr size (seg_addr, seg_size) =
    leb seg_addr addr && leb (addr + size) (seg_addr + seg_size)

unfoldable pub checkout_fast : Bool → ℕ → ℕ → HomeManager → Option (HomeManager × Bool)
unfolding in_segment increment_ref
checkout_fast increment addr size m =
    let (t, found) = T.get (in_segment addr size) m.home_tlb in
    let m1 = record m { home_tlb = t } in
    let fast : Option (HomeManager × Bool) = elim found [
      | no_entry ↦ some (m1, false)
      | dummy ↦ some (
        if increment then record m1 { dummy_ref_count = (m.dummy_ref_count + 1) % 2 ^ 32 } else m1,
        true,
      )
      | entry i ↦ increment_ref increment i m1 >>= λ m2. some (m2, true)
    ] in
    if (addr == 0) || (size == 0) then none else if m.enable_vm_map then fast else some (m, false)

-- The entry in slot `i` gets the segment, if it is not mapped to it: the state, and whether it is.
unfoldable pub place_segment : ℕ → ℕ → ℕ → ℕ → ℕ → HomeManager → Option (HomeManager × Bool)
place_segment i seg_addr seg_size pm pm_offset m = segment_at i m >>= λ s.
    let e = record (s.entry) { addr = seg_addr; size = seg_size; pm = pm; pm_offset = pm_offset } in
    if seg_addr == s.entry.mapped_addr
    then some (m, true)
    else some (
      put_entry i s e (record m { home_segments_to_map = m.home_segments_to_map ++ (i ∷ []) }),
      false,
    )

abbrev pub same_segment : ℕ × ℕ → ℕ × ℕ → Bool
same_segment (a, n) (b, k) = a == b && n == k

unfoldable pub add_tlb : ℕ → ℕ → Target → HomeManager → HomeManager
add_tlb seg_addr seg_size e m = record m {
  home_tlb = T.add same_segment (seg_addr, seg_size) e m.home_tlb;
}

-- `checkout_seg`: the state, and whether nothing is to be mapped.
unfoldable pub checkout_seg :
    Bool → ℕ → ℕ → ℕ → ℕ → Bool → HomeManager → Option (HomeManager × Bool)
unfolding get_entry place_segment increment_ref add_tlb
checkout_seg increment seg_addr seg_size pm pm_offset mapped_always m =
    let placed = get_entry true seg_addr m >>= λ (m1, i).
    place_segment i seg_addr seg_size pm pm_offset m1 >>= λ (m2, here).
    increment_ref increment i m2 >>= λ m3.
    some (add_tlb seg_addr seg_size (Target.entry i) m3, here) in
    if (seg_addr == 0) || (seg_size == 0)
    then none
    else if not m.enable_vm_map
    then some (m, true)
    else if mapped_always
    then some (add_tlb seg_addr seg_size Target.dummy m, true)
    else placed

unfoldable pub checkin_fast : Bool → ℕ → ℕ → HomeManager → Option (HomeManager × Bool)
unfolding in_segment decrement_ref
checkin_fast decrement addr size m =
    let (t, found) = T.get (in_segment addr size) m.home_tlb in
    let m1 = record m { home_tlb = t } in
    let fast : Option (HomeManager × Bool) = elim found [
      | no_entry ↦ some (m1, false)
      | dummy ↦ some (
        if decrement
            then record m1 { dummy_ref_count = (m.dummy_ref_count + 2 ^ 32 - 1) % 2 ^ 32 }
            else m1,
        true,
      )
      | entry i ↦ decrement_ref decrement i m1 >>= λ m2. some (m2, true)
    ] in
    if (addr == 0) || (size == 0) then none else if m.enable_vm_map then fast else some (m, false)

unfoldable pub checkin_seg : Bool → ℕ → Bool → HomeManager → Option HomeManager
unfolding get_entry decrement_ref
checkin_seg decrement seg_addr mapped_always m =
    if not m.enable_vm_map || (mapped_always || not decrement)
    then some m
    else (get_entry false seg_addr m >>= λ (m1, i). decrement_ref true i m1)

-- `update_mapping` at the entry in slot `i`.
unfoldable pub update_mapping : ℕ → HomeManager → Option HomeManager
update_mapping i m = segment_at i m >>= λ s.
    let e = s.entry in
    let unmaps : List Mapping =
      if e.mapped_addr == 0
      then []
      else Mapping.mmap_no_physical_mem e.mapped_addr e.mapped_size ∷ [] in
    if (e.pm == 0) || (e.addr == 0)
    then none
    else some (
        put_entry i s (record e { mapped_addr = e.addr; mapped_size = e.size })
          (record m {
            log = m.log ++ (unmaps ++ (Mapping.map_to_vm e.pm e.addr e.size e.pm_offset ∷ []));
          }))

unfoldable pub update_mappings : List ℕ → HomeManager → Option HomeManager
unfolding update_mapping
update_mappings [] m = some m
update_mappings (i ∷ is) m = update_mapping i m >>= λ m1. update_mappings is m1

unfoldable pub checkout_complete : HomeManager → Option HomeManager
unfolding update_mappings
checkout_complete m =
    if m.enable_vm_map
    then (update_mappings m.home_segments_to_map m >>= λ m1.
        some (record m1 { home_segments_to_map = [] }))
    else some m

-- `ensure_evicted`, which evicts by the callback too.
unfoldable pub ensure_evicted : ℕ → HomeManager → Option HomeManager
unfolding cache_key eviction_ok
ensure_evicted addr m =
    let evicted = cache_key addr m >>= λ key. CS.ensure_evicted entry_ops key m.cs >>= λ cs.
    let e : Option MmapEntry = find key m.cs.table >>= λ i. segment_at i m >>= λ s. some s.entry in
    if eviction_ok e
    then some (record m {
      cs = cs;
      home_tlb = if is_cached key m.cs then T.clear m.home_tlb else m.home_tlb;
    })
    else none in
    if m.enable_vm_map then evicted else some m

unfoldable pub clear_tlb : HomeManager → HomeManager
clear_tlb m = record m { home_tlb = T.clear m.home_tlb }
