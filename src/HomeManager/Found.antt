-- ===== src/HomeManager/Found.antt =====
-- `get_entry` of home_manager.hpp.
use itoyori_github_io.CacheSystem.{Slot, CacheSystem, ensure_cached, touch}
use itoyori_github_io.CacheSystem.Inv as CI
use itoyori_github_io.CacheSystem.Inv.{touch-Inv}
use itoyori_github_io.CacheSystem.Search.{Pinned}
use itoyori_github_io.CacheSystem.Cached.{ensure_hit, touch-table}
use itoyori_github_io.CacheSystem.Entries.{touch_entries, touch_nentries}
use itoyori_github_io.Tlb as T
use itoyori_github_io.Tlb.{Tlb}
use itoyori_github_io.Tlb.Laws.{IsSound}
use itoyori_github_io.HomeManager.{
  MmapEntry, HomeManager, Target, segment_at, cache_key, victim, eviction_ok, get_entry, entry_ops,
  is_some,
}
use itoyori_github_io.HomeManager.Inv.{IsConsistent, SegmentIsSound, Belongs}
use itoyori_github_io.Base.Assoc.{find}
use itoyori_github_io.Base.{
  ℕ, List, none, All, ◌∙◌, sym, Option, Bool, ◌⊎◌, ◌≡◌, ◌==◌, false, some, ◌>>=◌, if◌then◌else◌,
  true, ap, ◌<◌, ◌≢◌, refl, inr, get_elem?, inl, subst, arith, get_elem?-lt,
}

-- The target is not the entry in slot `i`.
abbrev pub Other : ℕ → Target → Type 0
Other i Target.no_entry = Unit {0}
Other i Target.dummy = Unit {0}
Other i (Target.entry j) = (i == j) ≡ false

-- Slot `i` of `m'` is fresh for the key: nothing refers to it.
pub record IsFresh (m : HomeManager) (key : ℕ) (m' : HomeManager) (i : ℕ) (s : Slot MmapEntry)
    : Type 0 where
  pub cs_ok : CI.Inv m'.cs
  pub found : find key m'.cs.table ≡ some i
  pub at : segment_at i m' ≡ some s
  pub allocated : s.allocated ≡ true
  pub keyed : s.key ≡ key
  pub idle : s.entry.mapped_addr ≡ s.entry.addr
  pub not_pending : CI.occurs i m'.home_segments_to_map ≡ 0
  pub others :
      (j : ℕ) (t : Slot MmapEntry)
      → (i == j) ≡ false
      → segment_at j m' ≡ some t
      → SegmentIsSound m'.block_size m'.home_segments_to_map j t
  pub listed : All (λ j. j < m'.cs.nentries) m'.home_segments_to_map
  pub tlb_ok : IsSound (λ k x. Belongs m'.cs.entries k x × Other i x) m'.home_tlb
  pub invalid : m'.home_tlb.first.entry ≡ Target.no_entry
  pub same_size : m'.block_size ≡ m.block_size

-- The key has slot `i` already.
pub record IsHit (m : HomeManager) (key : ℕ) (m' : HomeManager) (i : ℕ) (s : Slot MmapEntry)
    : Type 0 where
  pub consistent : IsConsistent m'
  pub found : find key m'.cs.table ≡ some i
  pub at : segment_at i m' ≡ some s
  pub allocated : s.allocated ≡ true
  pub keyed : s.key ≡ key
  pub same_size : m'.block_size ≡ m.block_size

-- Why no slot can be had: every entry is counted, or one is not counted but waits for its mapping.
abbrev pub IsStuck : HomeManager → Type 0
IsStuck m =
    All (Pinned entry_ops m.cs) m.cs.lru
    ⊎ ((i : ℕ) × (s : Slot MmapEntry) × (segment_at i m ≡ some s)
        × (s.allocated ≡ true)
        × (s.entry.ref_count ≡ 0)
        × (s.entry.mapped_addr ≢ s.entry.addr))

abbrev pub Gets : HomeManager → ℕ → Option (HomeManager × ℕ) → Type 0
Gets m key result =
    (result ≡ none) × IsStuck m
    ⊎ ((m' : HomeManager) × (i : ℕ) × (s : Slot MmapEntry) × (result ≡ some (m', i))
        × (IsHit m key m' i s ⊎ IsFresh m key m' i s))

-- `get_entry` once the key and its slot are known.
abbrev pub finish : ℕ → HomeManager → Option (CacheSystem MmapEntry × ℕ) → Option (HomeManager × ℕ)
finish key m o = o >>= λ (cs, i).
    if eviction_ok (victim key i m.cs)
    then some (
      record m {
        cs = cs;
        home_tlb = if is_some (victim key i m.cs) then T.clear m.home_tlb else m.home_tlb;
      },
      i,
    )
    else none

pub get_entry-eq :
    (b : Bool) (addr key : ℕ) (m : HomeManager)
    → cache_key addr m ≡ some key
    → get_entry b addr m ≡ finish key m (ensure_cached entry_ops b key m.cs)
unfolding get_entry
get_entry-eq b addr key m k =
    ap (λ (o : Option ℕ). o >>= λ key. finish key m (ensure_cached entry_ops b key m.cs)) k

-- No entry, or one that may be evicted and is mapped, has to give way.
pub finish-none :
    (key i : ℕ) (m : HomeManager) (cs : CacheSystem MmapEntry)
    → victim key i m.cs ≡ none
    → finish key m (some (cs, i)) ≡ some (record m { cs = cs }, i)
unfolding eviction_ok
finish-none key i m cs e =
    ap
      (λ (o : Option MmapEntry).
        if eviction_ok o
        then some (
          record m { cs = cs; home_tlb = if is_some o then T.clear m.home_tlb else m.home_tlb },
          i,
        )
        else none)
      e

pub hit_lem :
    (b : Bool) (key i : ℕ) (m : HomeManager)
    → IsConsistent m
    → find key m.cs.table ≡ some i
    → Gets m key (finish key m (ensure_cached entry_ops b key m.cs))
unfolding victim
hit_lem b key i m v f =
    let (s, at, a, keyed) = v.cs_ok.mapped key i f in
    let cs = touch entry_ops b i m.cs in
    let stays : victim key i m.cs ≡ none = rw (victim, f) refl in
    let same : cs.entries ≡ m.cs.entries = touch_entries entry_ops b i m.cs in
    let back : (j : ℕ) → get_elem? cs.entries j ≡ get_elem? m.cs.entries j =
      λ j. ap (λ (es : List (Slot MmapEntry)). get_elem? es j) same in
    let run =
      ap (finish key m) (ensure_hit entry_ops b key i m.cs f) ∙ finish-none key i m cs stays in
    inr (
      record m { cs = cs },
      i,
      s,
      run,
      inl (record {
        consistent = record {
          cs_ok =
              touch-Inv entry_ops b i m.cs v.cs_ok
                (omega (arith, get_elem?-lt m.cs.entries i s at, v.cs_ok.sized));
          slots = λ j t e. v.slots j t (sym (back j) ∙ e);
          listed =
              subst (λ (n : ℕ). All (λ j. j < n) m.home_segments_to_map)
                (sym (touch_nentries entry_ops b i m.cs)) v.listed;
          tlb_ok =
              subst (λ (es : List (Slot MmapEntry)). IsSound (Belongs es) m.home_tlb) (sym same)
                v.tlb_ok;
          invalid = v.invalid;
        };
        found = ap (find key) (touch-table entry_ops b i m.cs) ∙ f;
        at = back i ∙ at;
        allocated = a;
        keyed = keyed;
        same_size = refl;
      }),
    )
