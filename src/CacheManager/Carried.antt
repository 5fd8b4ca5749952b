-- ===== src/CacheManager/Carried.antt =====
-- What the slot of a block holds after `get_entry` of cache_manager.hpp, of what was in the cache before.
use mathlib.Core.Option.{some-injective}
use itoyori_github_io.CacheSystem.{Slot}
use itoyori_github_io.CacheSystem.Entries.{NewEntry}
use itoyori_github_io.RegionSet.{RegionSet}
use itoyori_github_io.RegionSet.Cover.{covers}
use itoyori_github_io.CacheManager.{Block, Manager, slot}
use itoyori_github_io.CacheManager.Lookup.{block_ops}
use itoyori_github_io.CacheManager.Inv.{IsConsistent}
use itoyori_github_io.CacheManager.Sent.{rewritten}
use itoyori_github_io.CacheManager.Cleaning.{Cleans, true-ne-false}
use itoyori_github_io.Base.Assoc.{find}
use itoyori_github_io.Base.{
  ℕ, Bool, true, false, some, none, ◌≡◌, inl, inr, ap, ◌∙◌, sym, subst, [], refl, arith,
  get_elem?-lt, get_elem?-total, Option-cases,
}

-- Byte `x` of the block of `key` is in the cache.
abbrev pub was_valid : ℕ → Manager → ℕ → Bool
was_valid key m x = elim (find key m.cs.table) [
  | none ↦ false
  | some i ↦ elim (slot i m) [ none ↦ false | some s ↦ covers s.entry.valid_regions x ]
]

-- A block is mapped where another is, and has the same place at home.
abbrev pub SamePlace : Block → Block → Type 0
SamePlace b c =
    (b.mapped_addr ≡ c.mapped_addr)
    × (b.win ≡ c.win)
    × (b.owner ≡ c.owner)
    × (b.pm_offset ≡ c.pm_offset)

-- The valid bytes and the place of the block that a slot has got: no byte counts as valid that was not.
abbrev pub Carries : Manager → ℕ → ℕ → Block → Type 0
Carries m key i b =
    ((x : ℕ) → covers b.valid_regions x ≡ true → was_valid key m x ≡ true)
    × (s : Slot Block) × (slot i m ≡ some s)
    × SamePlace b s.entry

SamePlace-eq : (b c : Block) → b ≡ c → SamePlace b c
SamePlace-eq b c e = (
  ap (λ (d : Block). d.mapped_addr) e,
  ap (λ (d : Block). d.win) e,
  ap (λ (d : Block). d.owner) e,
  ap (λ (d : Block). d.pm_offset) e,
)

-- The slot that a key has got, whether it was the key's, free, or another's.
pub new-Carries :
    (m : Manager) (key i : ℕ) (s : Slot Block) (e : Block)
    → IsConsistent m
    → slot i m ≡ some s
    → NewEntry (block_ops m.epoch) m.cs key i s e
    → Carries m key i e
new-Carries m key i s e v at (inl (found, _, same)) = (
  λ x c. rw (was_valid, found, at) (sym (ap (λ (b : Block). covers b.valid_regions x) same) ∙ c),
  s,
  at,
  SamePlace-eq e s.entry same,
)
new-Carries m key i s e v at (inr (inl (free, same))) = (
  λ x c.
      let none_valid : e.valid_regions ≡ [] =
        ap (λ (b : Block). b.valid_regions) same ∙ ((v.slots i s at).free free).0 in
      absurd (true-ne-false (sym c ∙ ap (λ rs. covers rs x) none_valid)),
  s,
  at,
  SamePlace-eq e (record (s.entry) { entry_idx = i }) same,
)
new-Carries m key i s e v at (inr (inr (_, _, same))) = (
  λ x c. absurd (true-ne-false (sym c ∙ ap (λ (b : Block). covers b.valid_regions x) same)),
  s,
  at,
  SamePlace-eq e (record (s.entry) { valid_regions = []; entry_idx = i }) same,
)

-- What a slot was before the cache was cleaned.
cleaned-slot :
    (m m1 : Manager) (i : ℕ) (t : Slot Block)
    → IsConsistent m
    → Cleans m m1
    → slot i m1 ≡ some t
    → (s : Slot Block) × (d : RegionSet) × (k : ℕ) × (slot i m ≡ some s) × (t ≡ rewritten s d k)
cleaned-slot m m1 i t v c at =
    let same_n : m1.cs.nentries ≡ m.cs.nentries = ap (λ (x : Manager). x.cs.nentries) c.frame in
    let (s, before) = get_elem?-total m.cs.entries i (
      omega (
        arith,
        get_elem?-lt m1.cs.entries i t at,
        v.cs_ok.sized,
        c.consistent.cs_ok.sized,
        same_n,
      )) in
    let (d, k, after, _) = c.slots i s before in
    (s, d, k, before, some-injective t (rewritten s d k) (sym at ∙ after))

cleaned-was_valid :
    (m m1 : Manager) (key x : ℕ)
    → IsConsistent m
    → Cleans m m1
    → was_valid key m1 x ≡ true
    → was_valid key m x ≡ true
cleaned-was_valid m m1 key x v c h = elim (Option-cases (find key m1.cs.table)) [
  | inl miss ↦
      let nothing : was_valid key m1 x ≡ false = rw (was_valid, miss) refl in
      absurd (true-ne-false (sym h ∙ nothing))
  | inr (i, found) ↦
      let before : find key m.cs.table ≡ some i =
        sym (ap (λ (y : Manager). find key y.cs.table) c.frame) ∙ found in
      elim (Option-cases (slot i m1)) [
        | inl gone ↦
            let nothing : was_valid key m1 x ≡ false = rw (was_valid, found, gone) refl in
            absurd (true-ne-false (sym h ∙ nothing))
        | inr (t, at) ↦
            let (s, d, k, was, same) = cleaned-slot m m1 i t v c at in
            let now : was_valid key m1 x ≡ covers t.entry.valid_regions x =
              rw (was_valid, found, at) refl in
            let earlier : was_valid key m x ≡ covers s.entry.valid_regions x =
              rw (was_valid, before, was) refl in
            earlier
            ∙ (ap (λ (r : Slot Block). covers r.entry.valid_regions x) (sym same) ∙ (sym now ∙ h))
      ]
]

-- Cleaning changes neither the valid bytes nor the place of a block.
pub cleaned-Carries :
    (m m1 : Manager) (key i : ℕ) (b : Block)
    → IsConsistent m
    → Cleans m m1
    → Carries m1 key i b
    → Carries m key i b
cleaned-Carries m m1 key i b v c (valid, t, at, place) =
    let (s, d, k, before, same) = cleaned-slot m m1 i t v c at in
    (
      λ x h. cleaned-was_valid m m1 key x v c (valid x h),
      s,
      before,
      subst (λ (r : Slot Block). SamePlace b r.entry) same place,
    )
