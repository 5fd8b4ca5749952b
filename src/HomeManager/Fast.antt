-- ===== src/HomeManager/Fast.antt =====
-- `checkout_fast` of home_manager.hpp.
use itoyori_github_io.CacheSystem.{Slot}
use itoyori_github_io.CacheSystem.Entries.{slot-with_entry, with_entry-Inv, with_entry-each}
use itoyori_github_io.Tlb as T
use itoyori_github_io.Tlb.Laws.{IsSound-mono}
use itoyori_github_io.HomeManager.{
  MmapEntry, HomeManager, Target, segment_at, put_entry, in_segment, increment_ref,
}
use itoyori_github_io.HomeManager.Inv.{IsConsistent, SegmentIsSound, Belongs}
use mathlib.Core.Option.{some-injective}
use itoyori_github_io.Base.{
  ℕ, Bool, ◌≡◌, true, ◌⊎◌, some, if◌then◌else◌, ◌+◌, inr, ◌∙◌, Option, Bool-cases, arith, ◌==◌, inl,
  false, refl, ◌%◌, ◌^◌, ap, ◌>>=◌, sym, get_elem?-at, ==→eq,
}

-- A slot with another count.
abbrev pub counted : Slot MmapEntry → ℕ → Slot MmapEntry
counted s n = record s { entry = record (s.entry) { ref_count = n } }

-- A write to an entry in use that keeps its address keeps what belongs to a segment.
pub with_entry-Belongs :
    (i : ℕ) (s : Slot MmapEntry) (e : MmapEntry) (m : HomeManager)
    → segment_at i m ≡ some s
    → ((s.allocated ≡ true) → e.addr ≡ s.entry.addr)
    → (k : ℕ × ℕ) (x : Target) → Belongs m.cs.entries k x
    → Belongs (put_entry i s e m).cs.entries k x
with_entry-Belongs i s e m at keeps k Target.no_entry g = g
with_entry-Belongs i s e m at keeps k Target.dummy g = g
with_entry-Belongs i s e m at keeps k (Target.entry j) (t, h, a, d) =
    let here = slot-with_entry i j s e m.cs at in
    elim (Bool-cases (i == j)) [
      | inl same ↦
          let which : s ≡ t =
            some-injective s t (sym at ∙ get_elem?-at m.cs.entries i j (==→eq i j same) ∙ h) in
          let used : s.allocated ≡ true = ap (λ (x : Slot MmapEntry). x.allocated) which ∙ a in
          (
            record s { entry = e },
            here ∙ rw (same) refl,
            used,
            keeps used ∙ ap (λ (x : Slot MmapEntry). x.entry.addr) which ∙ d,
          )
      | inr other ↦ (t, here ∙ rw (other) h, a, d)
    ]

-- Counting keeps the invariant.
pub counted-IsConsistent :
    (i : ℕ) (s : Slot MmapEntry) (n : ℕ) (m : HomeManager)
    → segment_at i m ≡ some s
    → IsConsistent m
    → IsConsistent (put_entry i s (record (s.entry) { ref_count = n }) m)
counted-IsConsistent i s n m at v = record {
  cs_ok = with_entry-Inv i s (record (s.entry) { ref_count = n }) m.cs at v.cs_ok;
  slots =
      with_entry-each (SegmentIsSound m.block_size m.home_segments_to_map) i s
        (record (s.entry) { ref_count = n }) m.cs at
        (let w = v.slots i s at in record { placed = w.placed; mapping = w.mapping })
        (λ j t other h. v.slots j t h);
  listed = v.listed;
  tlb_ok =
      IsSound-mono (Belongs m.cs.entries)
        (Belongs (put_entry i s (record (s.entry) { ref_count = n }) m).cs.entries) m.home_tlb
        (with_entry-Belongs i s (record (s.entry) { ref_count = n }) m at (λ a. refl)) v.tlb_ok;
  invalid = v.invalid;
}

-- `increment_ref` counts if it is to, and keeps the invariant.
pub increment_ref_lem :
    (flag : Bool) (i : ℕ) (m : HomeManager) (s : Slot MmapEntry)
    → segment_at i m ≡ some s
    → IsConsistent m
    → (m' : HomeManager) × (increment_ref flag i m ≡ some m')
      × IsConsistent m'
      × (segment_at i m'
          ≡ some (counted s (if flag then s.entry.ref_count + 1 else s.entry.ref_count)))
unfolding increment_ref
increment_ref_lem false i m s at v = (m, rw (at) refl, v, at)
increment_ref_lem true i m s at v =
    let e = record (s.entry) { ref_count = s.entry.ref_count + 1 } in
    (
      put_entry i s e m,
      rw (at) refl,
      counted-IsConsistent i s (s.entry.ref_count + 1) m at v,
      slot-with_entry i i s e m.cs at ∙ ground arith,
    )

-- A lookup that hits: the bytes lie in a segment that is always mapped, or in one that has an entry in
-- use, which is counted if it is to be.
abbrev pub Hits : Bool → ℕ → ℕ → HomeManager → HomeManager → Type 0
Hits increment addr size m m' =
    (k : ℕ × ℕ) × (in_segment addr size k ≡ true)
    × ((m'.cs ≡ m.cs)
        ⊎ ((i : ℕ) × (s : Slot MmapEntry) × (segment_at i m ≡ some s)
            × (s.allocated ≡ true)
            × (s.entry.addr ≡ k.0)
            × (segment_at i m'
                ≡ some
                    (counted s (if increment then s.entry.ref_count + 1 else s.entry.ref_count)))))

abbrev pub Answers : Bool → ℕ → ℕ → HomeManager → Option (HomeManager × Bool) → Type 0
Answers increment addr size m result =
    (m' : HomeManager) × (hit : Bool) × (result ≡ some (m', hit))
    × IsConsistent m'
    × ((hit ≡ false) × (m'.cs ≡ m.cs) ⊎ (hit ≡ true) × Hits increment addr size m m')

-- What is found in the translation buffer decides.
abbrev answer : Bool → ℕ → HomeManager → Target → Option (HomeManager × Bool)
answer increment count m Target.no_entry = some (m, false)
answer increment count m Target.dummy =
    some (if increment then record m { dummy_ref_count = (count + 1) % 2 ^ 32 } else m, true)
answer increment count m (Target.entry i) = increment_ref increment i m >>= λ m2. some (m2, true)
