-- ===== src/CacheSystem/Inv.antt =====
-- The invariant of cache_system.hpp's state, and the three changes that the operations are made of.
use itoyori_github_io.Base.{
  ℕ, ◌+◌, ◌<◌, ◌≡◌, ◌≢◌, refl, ◌∙◌, inl, inr, Bool, true, false, some, none, List, [], ◌∷◌, ◌++◌,
  arith, ltb, ◌==◌, ==→eq, if◌then◌else◌, length, get_elem?, set, length-set, get_elem?-set,
  get_elem?-lt, Bool-cases,
}
use itoyori_github_io.Base.Assoc.{find, erase, find-assign, find-erase}
use itoyori_github_io.CacheSystem.{
  EntryOps, Slot, CacheSystem, unlink, move_to_back_lru, release_slot, fill_slot, touch,
}

-- How often `i` stands in a list.
abbrev pub occurs : ℕ → List ℕ → ℕ
occurs i [] = 0
occurs i (j ∷ js) = (if j == i then 1 else 0) + occurs i js

-- The slots are numbered; the table maps a key to a slot if and only if that slot is allocated to the
-- key; and the list holds each slot once.
pub record Inv {E : Type 0} (c : CacheSystem E) : Type 0 where
  pub sized : length c.entries ≡ c.nentries
  pub indexed : (i : ℕ) (s : Slot E) → get_elem? c.entries i ≡ some s → s.idx ≡ i
  pub mapped :
      (k i : ℕ)
      → find k c.table ≡ some i
      → (s : Slot E) × (get_elem? c.entries i ≡ some s) × (s.allocated ≡ true) × (s.key ≡ k)
  pub owned :
      (i : ℕ) (s : Slot E)
      → get_elem? c.entries i ≡ some s
      → s.allocated ≡ true
      → find s.key c.table ≡ some i
  pub linked : (i : ℕ) → occurs i c.lru ≡ (if ltb i c.nentries then 1 else 0)

pub occurs-append : (i : ℕ) (js ks : List ℕ) → occurs i (js ++ ks) ≡ occurs i js + occurs i ks
occurs-append i [] ks = omega arith
occurs-append i (j ∷ js) ks = omega (arith, occurs-append i js ks)

occurs-unlink :
    (i j : ℕ) (js : List ℕ)
    → occurs i js ≢ 0
    → occurs j (unlink i js) + (if i == j then 1 else 0) ≡ occurs j js
unfolding unlink
occurs-unlink i j [] h = absurd (h refl)
occurs-unlink i j (k ∷ js) h = ground (arith, occurs-unlink i j js)

pub occurs-move_to_back :
    (i j : ℕ) (js : List ℕ) → occurs i js ≢ 0 → occurs j (move_to_back_lru i js) ≡ occurs j js
unfolding move_to_back_lru
occurs-move_to_back i j js h =
    omega (arith, occurs-append j (unlink i js) (i ∷ []), occurs-unlink i j js h)

module _ {E : Type 0} where
  -- The state with slot `i` freed, whatever else is written to the slot.
  abbrev pub freed : ℕ → Slot E → Slot E → CacheSystem E → CacheSystem E
  freed i ce new c = record c { table = erase ce.key c.table; entries = set c.entries i new }

  pub freed-Inv :
      (i : ℕ) (ce new : Slot E) (c : CacheSystem E)
      → Inv c
      → get_elem? c.entries i ≡ some ce
      → ce.allocated ≡ true
      → new.allocated ≡ false
      → new.idx ≡ ce.idx
      → Inv (freed i ce new c)
  freed-Inv i ce new c v e a f same =
      let lt = get_elem?-lt c.entries i ce e in
      record {
        sized = length-set c.entries i new ∙ v.sized;
        indexed = λ j s h.
            ground (arith, get_elem?-set c.entries i j new lt, v.indexed i ce, v.indexed j s);
        mapped = λ k j h.
            let old : find k c.table ≡ some j = ground (arith, find-erase ce.key k c.table) in
            let apart : ce.key ≢ k = ground (arith, find-erase ce.key k c.table) in
            let (s, p, q, r) = v.mapped k j old in
            (s, ground (arith, get_elem?-set c.entries i j new lt), q, r);
        owned = λ j s h al. ground (
          arith,
          get_elem?-set c.entries i j new lt,
          v.owned i ce e a,
          v.owned j s,
          find-erase ce.key s.key c.table,
        );
        linked = v.linked;
      }

module _ {E : Type 0} (ops : EntryOps E) where
  pub release_slot-Inv :
      (i : ℕ) (ce : Slot E) (c : CacheSystem E)
      → Inv c
      → get_elem? c.entries i ≡ some ce
      → ce.allocated ≡ true
      → Inv (release_slot ops i ce c)
  unfolding release_slot
  release_slot-Inv i ce c v e a =
      freed-Inv i ce (record ce { entry = ops.on_evict ce.entry; allocated = false }) c v e a refl
        refl

  pub fill_slot-Inv :
      (key i : ℕ) (ce : Slot E) (c : CacheSystem E)
      → Inv c
      → get_elem? c.entries i ≡ some ce
      → ce.allocated ≡ false
      → find key c.table ≡ none
      → Inv (fill_slot ops key i ce c)
  unfolding fill_slot
  fill_slot-Inv key i ce c v e a n =
      let lt = get_elem?-lt c.entries i ce e in
      let new : Slot E = record ce {
        entry = ops.on_cache_map i ce.entry;
        allocated = true;
        key = key;
      } in
      record {
        sized = length-set c.entries i new ∙ v.sized;
        indexed = λ j s h.
            ground (arith, get_elem?-set c.entries i j new lt, v.indexed i ce, v.indexed j s);
        mapped = λ k j h. elim (Bool-cases (key == k)) [
          | inl same ↦ (
            new,
            ground (arith, find-assign key k i c.table, get_elem?-set c.entries i j new lt),
            refl,
            ==→eq _ _ same,
          )
          | inr other ↦
              let old : find k c.table ≡ some j = ground (arith, find-assign key k i c.table) in
              let (s, p, q, r) = v.mapped k j old in
              (s, ground (arith, get_elem?-set c.entries i j new lt), q, r)
        ];
        owned = λ j s h al. ground (
          arith,
          get_elem?-set c.entries i j new lt,
          v.owned j s,
          find-assign key s.key i c.table,
        );
        linked = v.linked;
      }

  pub touch-Inv :
      (b : Bool) (i : ℕ) (c : CacheSystem E) → Inv c → i < c.nentries → Inv (touch ops b i c)
  unfolding touch
  touch-Inv false i c v h = v
  touch-Inv true i c v h = record {
    sized = v.sized;
    indexed = v.indexed;
    mapped = v.mapped;
    owned = v.owned;
    linked = λ j. occurs-move_to_back i j c.lru (ground (arith, v.linked i)) ∙ v.linked j;
  }
