-- ===== src/CacheManager/Shrunk.antt =====
-- `for_each_entry` of cache_system.hpp, as the invalidation in cache_manager.hpp uses it: bytes of the
-- blocks become invalid, nothing else changes.
use itoyori_github_io.Base.{
  zero, ◌≡◌, true, some, false, length, ◌∷◌, ◌⊎◌, suc, Bool-cases, inl, arith, inr, subst, sym,
  refl, get_elem?-total, get_elem?-lt, ◌∙◌, ap,
}
use itoyori_github_io.CacheSystem.{Slot}
use itoyori_github_io.RegionSet.{RegionSet}
use itoyori_github_io.RegionSet.Cover.{covers, IsValid}
use itoyori_github_io.CacheManager.{Block, Manager, ℕ, Option, List, get_elem?}
use itoyori_github_io.CacheManager.Release.{try_each_entry}
use itoyori_github_io.CacheManager.Inv.{IsConsistent, SlotIsSound}
use itoyori_github_io.CacheManager.Cleaning.{IsClean, true-ne-false}
use itoyori_github_io.Base.{ℕ, List, [], ◌∷◌, suc}
use itoyori_github_io.Base.Assoc.{find}
use mathlib.Core.Option.{some-injective}

-- A slot with other valid bytes.
abbrev pub with_valid : Slot Block → RegionSet → Slot Block
with_valid s v = record s { entry = record (s.entry) { valid_regions = v } }

-- `v` is what is left of the valid bytes of a slot.
abbrev pub Shrinks : (Slot Block → RegionSet → Type 0) → Slot Block → RegionSet → Type 0
Shrinks Q s v =
    IsValid v × ((x : ℕ) → covers v x ≡ true → covers s.entry.valid_regions x ≡ true) × Q s v

-- What `f` does to the entry of an allocated slot.
abbrev pub ShrinksEntry :
    (Slot Block → RegionSet → Type 0) → (Block → Option Block) → Slot Block → Type 0
ShrinksEntry Q f s =
    s.allocated ≡ true
    → (v : RegionSet) × (f s.entry ≡ some (record (s.entry) { valid_regions = v })) × Shrinks Q s v

-- What happens to a slot: nothing, if it is free.
abbrev pub ShrinksSlot :
    (Slot Block → RegionSet → Type 0) → Slot Block → Option (Slot Block) → Type 0
ShrinksSlot Q s result =
    (v : RegionSet) × (result ≡ some (with_valid s v))
    × (((s.allocated ≡ false) × (v ≡ s.entry.valid_regions))
        ⊎ ((s.allocated ≡ true) × Shrinks Q s v))

abbrev pub Loops :
    (Slot Block → RegionSet → Type 0) → List (Slot Block) → Option (List (Slot Block)) → Type 0
Loops Q ces result =
    (out : List (Slot Block)) × (result ≡ some out)
    × (length out ≡ length ces)
    × ((i : ℕ) (s : Slot Block) → get_elem? ces i ≡ some s → ShrinksSlot Q s (get_elem? out i))

each-cons :
    (Q : Slot Block → RegionSet → Type 0) (ce ce' : Slot Block) (ces out : List (Slot Block))
    → ShrinksSlot Q ce (some ce')
    → ((i : ℕ) (s : Slot Block) → get_elem? ces i ≡ some s → ShrinksSlot Q s (get_elem? out i))
    → (i : ℕ) (s : Slot Block) → get_elem? (ce ∷ ces) i ≡ some s
    → ShrinksSlot Q s (get_elem? (ce' ∷ out) i)
each-cons Q ce ce' ces out p each zero s e =
    subst (λ (x : Slot Block). ShrinksSlot Q x (some ce')) (some-injective ce s e) p
each-cons Q ce ce' ces out p each (suc i) s e = each i s e

pub try_each_entry_lem :
    (Q : Slot Block → RegionSet → Type 0) (f : Block → Option Block) (ces : List (Slot Block))
    → ((i : ℕ) (s : Slot Block) → get_elem? ces i ≡ some s → ShrinksEntry Q f s)
    → Loops Q ces (try_each_entry f ces)
unfolding try_each_entry
try_each_entry_lem Q f [] h = ([], refl, refl, λ i s e. absurd (cc))
try_each_entry_lem Q f (ce ∷ ces) h =
    let (out, run, len, each) = try_each_entry_lem Q f ces (λ i s e. h (suc i) s e) in
    elim (Bool-cases ce.allocated) [
      | inl a ↦
          let (v, does, p) = h 0 ce refl a in
          (
            with_valid ce v ∷ out,
            rw (a, does, run) refl,
            omega (arith, len),
            each-cons Q ce (with_valid ce v) ces out (v, refl, inr (a, p)) each,
          )
      | inr a ↦ (
        ce ∷ out,
        rw (a, run) refl,
        omega (arith, len),
        each-cons Q ce ce ces out (ce.entry.valid_regions, refl, inl (a, refl)) each,
      )
    ]

-- A slot with fewer valid bytes is sound, if it has no dirty ones.
shrunk-SlotIsSound :
    (Q : Slot Block → RegionSet → Type 0) (ranks epoch : ℕ) (wins dirty : List ℕ) (i : ℕ)
    (s : Slot Block) (v : RegionSet)
    → s.entry.dirty_regions ≡ []
    → Shrinks Q s v
    → s.allocated ≡ true
    → SlotIsSound ranks epoch wins dirty i s
    → SlotIsSound ranks epoch wins dirty i (with_valid s v)
shrunk-SlotIsSound Q ranks epoch wins dirty i s v gone (ok, fewer, q) a w = record {
  ranked = w.ranked;
  bounded = λ x c. w.bounded x (fewer x c);
  valid_ok = ok;
  dirty_ok = w.dirty_ok;
  dirty_valid = λ x c. absurd (true-ne-false (sym c ∙ ap (λ (rs : RegionSet). covers rs x) gone));
  free = λ f. absurd (true-ne-false (sym a ∙ f));
  numbered = w.numbered;
  started = w.started;
  listed = inl gone;
}

-- The state with other entries in the cache system.
abbrev pub with_entries : List (Slot Block) → Manager → Manager
with_entries out m = record m { cs = record (m.cs) { entries = out } }

-- Where a slot of the new state comes from.
pub origin :
    (Q : Slot Block → RegionSet → Type 0) (ces out : List (Slot Block)) (i : ℕ) (t : Slot Block)
    → length out ≡ length ces
    → ((i : ℕ) (s : Slot Block) → get_elem? ces i ≡ some s → ShrinksSlot Q s (get_elem? out i))
    → get_elem? out i ≡ some t
    → (s : Slot Block) × (v : RegionSet) × (get_elem? ces i ≡ some s)
      × (t ≡ with_valid s v)
      × (((s.allocated ≡ false) × (v ≡ s.entry.valid_regions))
          ⊎ ((s.allocated ≡ true) × Shrinks Q s v))
origin Q ces out i t len each e =
    let (s, at) = get_elem?-total ces i (omega (arith, get_elem?-lt out i t e, len)) in
    let (v, at', p) = each i s at in (s, v, at, some-injective t (with_valid s v) (sym e ∙ at'), p)

-- A loop over all entries that takes valid bytes away from clean blocks.
pub with_entries-IsConsistent :
    (Q : Slot Block → RegionSet → Type 0) (m : Manager) (out : List (Slot Block))
    → IsConsistent m
    → IsClean m
    → length out ≡ length m.cs.entries
    → ((i : ℕ) (s : Slot Block)
        → get_elem? m.cs.entries i ≡ some s
        → ShrinksSlot Q s (get_elem? out i))
    → IsConsistent (with_entries out m)
with_entries-IsConsistent Q m out v clean len each = record {
  cs_ok = record {
    sized = len ∙ v.cs_ok.sized;
    indexed = λ i t e.
        let (s, w, at, same, _) = origin Q m.cs.entries out i t len each e in
        ap (λ (x : Slot Block). x.idx) same ∙ v.cs_ok.indexed i s at;
    mapped = λ k i f.
        let (s, at, a, key) = v.cs_ok.mapped k i f in
        let (w, at', _) = each i s at in (with_valid s w, at', a, key);
    owned = λ i t e a.
        let (s, w, at, same, _) = origin Q m.cs.entries out i t len each e in
        ap (λ (x : Slot Block). find x.key m.cs.table) same
        ∙ v.cs_ok.owned i s at (sym (ap (λ (x : Slot Block). x.allocated) same) ∙ a);
    linked = v.cs_ok.linked;
  };
  slots = λ i t e.
      let (s, w, at, same, p) = origin Q m.cs.entries out i t len each e in
      let old = v.slots i s at in
      let sound : SlotIsSound m.n_ranks m.epoch m.writing_back_wins m.dirty_cache_blocks i
          (with_valid s w) =
        elim p [
          | inl (_, stays) ↦
              subst
                (λ (x : RegionSet).
                  SlotIsSound m.n_ranks m.epoch m.writing_back_wins m.dirty_cache_blocks i
                    (with_valid s x))
                (sym stays) old
          | inr (a, q) ↦
              shrunk-SlotIsSound Q m.n_ranks m.epoch m.writing_back_wins m.dirty_cache_blocks i s w
                (clean i s at) q a old
        ] in
      subst (SlotIsSound m.n_ranks m.epoch m.writing_back_wins m.dirty_cache_blocks i) (sym same)
        sound;
  in_cache = v.in_cache;
  clean = v.clean;
}
