-- ===== src/HomeManager/Missed.antt =====
-- `get_entry` of home_manager.hpp for a key that has no slot yet, and as a whole.
use itoyori_github_io.HomeManager.Found.{
  IsFresh, Gets, Other, finish, get_entry-eq, finish-none, hit_lem,
}
use itoyori_github_io.CacheSystem.{Slot, CacheSystem, ensure_cached}
use itoyori_github_io.CacheSystem.Inv as CI
use itoyori_github_io.CacheSystem.Inv.{touch-Inv}
use itoyori_github_io.CacheSystem.Cached.{ensure_cached_lem}
use itoyori_github_io.CacheSystem.Entries.{ensure_cached_entries}
use itoyori_github_io.Tlb as T
use itoyori_github_io.Tlb.{Tlb}
use itoyori_github_io.Tlb.Laws.{IsSound, IsSound-mono, clear-IsSound, clear_invalid}
use itoyori_github_io.HomeManager.{
  MmapEntry, HomeManager, Target, cache_key, victim, eviction_ok, get_entry, entry_ops, is_some,
}
use itoyori_github_io.HomeManager.Inv.{IsConsistent, Belongs}
use mathlib.Core.Option.{some-injective}
use itoyori_github_io.Base.Assoc.{find}
use itoyori_github_io.Base.{
  ℕ, none, Option-cases, All, ◌∙◌, sym, Option, Bool, ◌≡◌, ◌==◌, false, some, if◌then◌else◌, true,
  ap, ◌<◌, refl, inr, get_elem?, Bool-cases, inl, get_elem?-at, subst, arith, ==→eq,
}

-- An entry that is in use and can be evicted has to be mapped.
finish-some :
    (key i : ℕ) (m : HomeManager) (cs : CacheSystem MmapEntry) (e : MmapEntry)
    → victim key i m.cs ≡ some e
    → finish key m (some (cs, i)) ≡ (
        if e.mapped_addr == e.addr
        then some (record m { cs = cs; home_tlb = T.clear m.home_tlb }, i)
        else none)
unfolding eviction_ok
finish-some key i m cs e h =
    ap
      (λ (o : Option MmapEntry).
        if eviction_ok o
        then some (
          record m { cs = cs; home_tlb = if is_some o then T.clear m.home_tlb else m.home_tlb },
          i,
        )
        else none)
      h

-- What stays of the other slots when slot `i` is given to a key.
fresh_lem :
    (key i : ℕ) (m : HomeManager) (cs : CacheSystem MmapEntry) (t : Tlb (ℕ × ℕ) Target)
    (s : Slot MmapEntry) (e : MmapEntry)
    → IsConsistent m
    → CI.Inv cs
    → find key cs.table ≡ some i
    → get_elem? m.cs.entries i ≡ some s
    → get_elem? cs.entries i ≡ some (record s { entry = e; allocated = true; key = key })
    → ((j : ℕ) → (i == j) ≡ false → get_elem? cs.entries j ≡ get_elem? m.cs.entries j)
    → cs.nentries ≡ m.cs.nentries
    → e.mapped_addr ≡ s.entry.mapped_addr
    → e.addr ≡ s.entry.addr
    → s.entry.mapped_addr ≡ s.entry.addr
    → IsSound (λ k x. Belongs cs.entries k x × Other i x) t
    → t.first.entry ≡ Target.no_entry
    → IsFresh m key
        (record m { cs = cs; home_tlb = t })
        i
        (record s { entry = e; allocated = true; key = key })
fresh_lem key i m cs t s e v ok f at at' others n mapped addr idle tlb invalid = record {
  cs_ok = ok;
  found = f;
  at = at';
  allocated = refl;
  keyed = refl;
  idle = mapped ∙ idle ∙ sym addr;
  not_pending = elim (v.slots i s at).mapping [
    | inl (_, z) ↦ z
    | inr (differs, _, _, _, _) ↦ absurd (differs idle)
  ];
  others = λ j t o h. v.slots j t (sym (others j o) ∙ h);
  listed = subst (λ (k : ℕ). All (λ j. j < k) m.home_segments_to_map) (sym n) v.listed;
  tlb_ok = tlb;
  invalid = invalid;
  same_size = refl;
}

true-ne-false : true ≡ false → ⊥
true-ne-false h = cc

-- Nothing in the translation buffer refers to a slot that is free.
free-Other :
    (i : ℕ) (m : HomeManager) (cs : CacheSystem MmapEntry) (s : Slot MmapEntry)
    → get_elem? m.cs.entries i ≡ some s
    → s.allocated ≡ false
    → ((j : ℕ) → (i == j) ≡ false → get_elem? cs.entries j ≡ get_elem? m.cs.entries j)
    → (k : ℕ × ℕ) (x : Target) → Belongs m.cs.entries k x
    → Belongs cs.entries k x × Other i x
free-Other i m cs s at free others k Target.no_entry g = absurd g
free-Other i m cs s at free others k Target.dummy g = (tt, tt)
free-Other i m cs s at free others k (Target.entry j) (t, h, a, d) = elim (Bool-cases (i == j)) [
  | inl same ↦
      let which : s ≡ t =
        some-injective s t (sym at ∙ get_elem?-at m.cs.entries i j (==→eq i j same) ∙ h) in
      absurd (true-ne-false (sym a ∙ sym (ap (λ (x : Slot MmapEntry). x.allocated) which) ∙ free))
  | inr other ↦ ((t, others j other ∙ h, a, d), other)
]

pub none-ne-some : {A : Type 0} {a : A} → none ≡ some a → ⊥
none-ne-some h = cc

-- What a slot that is in use gives way to.
abbrev used : MmapEntry → Bool → Option MmapEntry
used e b = if b then some e else none

victim-slot :
    (key i : ℕ) (c : CacheSystem MmapEntry) (s : Slot MmapEntry)
    → find key c.table ≡ none
    → get_elem? c.entries i ≡ some s
    → victim key i c ≡ used s.entry s.allocated
unfolding victim
victim-slot key i c s n at = rw (victim, n, at) refl

-- The slot for a key that has none was free, or its entry gives way.
miss_lem :
    (b : Bool) (key : ℕ) (m : HomeManager)
    → IsConsistent m
    → find key m.cs.table ≡ none
    → Gets m key (finish key m (ensure_cached entry_ops b key m.cs))
miss_lem b key m v n = elim (ensure_cached_lem entry_ops b key m.cs v.cs_ok) [
  | inl (e, _, p) ↦ inl (ap (finish key m) e, inl p)
  | inr (cs, i, run, (ok, found, _)) ↦
      let (s, e, at, at', new, others, same_n) =
        ensure_cached_entries entry_ops b key m.cs cs i v.cs_ok run in
      elim new [
        | inl (f, _, _) ↦ absurd (none-ne-some (sym n ∙ f))
        | inr (inl (free, same)) ↦
            let idle : s.entry.mapped_addr ≡ s.entry.addr = elim (v.slots i s at).mapping [
              | inl (h, _) ↦ h
              | inr (_, _, _, _, a) ↦ absurd (true-ne-false (sym a ∙ free))
            ] in
            inr (
              record m { cs = cs },
              i,
              record s { entry = e; allocated = true; key = key },
              ap (finish key m) run
                  ∙ finish-none key i m cs (victim-slot key i m.cs s n at ∙ ap (used s.entry) free),
              inr (
                  fresh_lem key i m cs m.home_tlb s e v ok found at at' others same_n
                    (ap (λ (x : MmapEntry). x.mapped_addr) same)
                    (ap (λ (x : MmapEntry). x.addr) same) idle
                    (IsSound-mono (Belongs m.cs.entries) (λ k x. Belongs cs.entries k x × Other i x)
                      m.home_tlb (free-Other i m cs s at free others) v.tlb_ok)
                    v.invalid),
            )
        | inr (inr (a, evictable, same)) ↦
            let gone : victim key i m.cs ≡ some s.entry =
              victim-slot key i m.cs s n at ∙ ap (used s.entry) a in
            elim (Bool-cases (s.entry.mapped_addr == s.entry.addr)) [
              | inl t ↦ inr (
                record m { cs = cs; home_tlb = T.clear m.home_tlb },
                i,
                record s { entry = e; allocated = true; key = key },
                ap (finish key m) run ∙ finish-some key i m cs s.entry gone ∙ rw (t) refl,
                inr (
                    fresh_lem key i m cs (T.clear m.home_tlb) s e v ok found at at' others same_n
                      (ap (λ (x : MmapEntry). x.mapped_addr) same)
                      (ap (λ (x : MmapEntry). x.addr) same)
                      (==→eq s.entry.mapped_addr s.entry.addr t)
                      (clear-IsSound (λ k x. Belongs cs.entries k x × Other i x) m.home_tlb)
                      (clear_invalid m.home_tlb ∙ v.invalid)),
              )
              | inr f ↦ inl (
                ap (finish key m) run ∙ finish-some key i m cs s.entry gone ∙ rw (f) refl,
                inr (
                  i,
                  s,
                  at,
                  a,
                  ==→eq s.entry.ref_count 0 evictable,
                  λ z. absurd (ground (arith, z, f)),
                ),
              )
            ]
      ]
]

-- `get_entry` in a consistent state gives the key its slot, or a fresh one to which nothing refers; or it
-- aborts because there is none to be had.
pub get_entry_lem :
    (b : Bool) (addr key : ℕ) (m : HomeManager)
    → IsConsistent m
    → cache_key addr m ≡ some key
    → Gets m key (get_entry b addr m)
get_entry_lem b addr key m v k =
    subst (Gets m key) (sym (get_entry-eq b addr key m k))
      (elim (Option-cases (find key m.cs.table)) [
        | inl n ↦ miss_lem b key m v n
        | inr (i, f) ↦ hit_lem b key i m v f
      ])
