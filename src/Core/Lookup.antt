-- ===== src/Core/Lookup.antt =====
-- Lookups in the list of collective memories: `coll_mem_manager`, ori/coll_mem_manager.hpp.
use itoyori_github_io.Base.{
  ℕ, ◌+◌, ◌<◌, ◌≤◌, ◌≡◌, ◌≢◌, refl, ap, ◌∙◌, sym, true, false, ◌&&◌, List, [], ◌∷◌, Option, some,
  none, arith, get_elem?, All, Bool-cases, inl, inr, ◌⊎◌, ltb, leb,
}
use itoyori_github_io.Core.Collective.{CollMem, Colls, find_id, get}

abbrev pub Contains : CollMem → ℕ → Type 0
Contains cm p = (cm.addr ≤ p) × (p < cm.addr + cm.size)

-- The ranges of the list are apart.
abbrev pub Apart : ℕ × ℕ × ℕ → ℕ × ℕ × ℕ → Type 0
Apart (b, e, i) (b', e', i') = ((e ≤ b') ⊎ (e' ≤ b)) × (i ≢ i')

abbrev pub AllApart : List (ℕ × ℕ × ℕ) → Type 0
AllApart [] = Unit
AllApart (r ∷ rs) = All (Apart r) rs × AllApart rs

-- Each row is that of a memory, which is not empty and has its number.
abbrev pub Row : List (Option CollMem) → ℕ × ℕ × ℕ → Type 0
Row cms (b, e, i) =
    (cm : CollMem) × (get_elem? cms i ≡ some (some cm))
    × (cm.id ≡ i)
    × (cm.addr ≡ b)
    × (cm.addr + cm.size ≡ e)
    × (b < e)

pub record IsConsistent (cs : Colls) : Type 0 where
  pub rows : All (Row cs.coll_mems) cs.coll_mem_ids
  pub apart : AllApart cs.coll_mem_ids

pub find_hit :
    (p b e i : ℕ) (rs : List (ℕ × ℕ × ℕ)) → b ≤ p → p < e → find_id p ((b, e, i) ∷ rs) ≡ some i
unfolding find_id
find_hit p b e i rs l u = let t : (leb b p && ltb p e) ≡ true = ground arith in rw (t) refl

pub miss_lem : (p b e : ℕ) → (p < b) ⊎ (e ≤ p) → (leb b p && ltb p e) ≡ false
miss_lem p b e (inl x) = ground arith
miss_lem p b e (inr x) = ground arith

pub find_other :
    (p b e i : ℕ) (rs : List (ℕ × ℕ × ℕ))
    → (leb b p && ltb p e) ≡ false
    → find_id p ((b, e, i) ∷ rs) ≡ find_id p rs
unfolding find_id
find_other p b e i rs t = rw (t) refl

pub find_miss :
    (p b e i : ℕ) (rs : List (ℕ × ℕ × ℕ))
    → (p < b) ⊎ (e ≤ p)
    → find_id p ((b, e, i) ∷ rs) ≡ find_id p rs
find_miss p b e i rs w = find_other p b e i rs (miss_lem p b e w)

-- An id that is found is that of a memory in the list, with the address in it.
pub find-Row :
    (p : ℕ) (cms : List (Option CollMem)) (rs : List (ℕ × ℕ × ℕ)) (i : ℕ)
    → All (Row cms) rs
    → find_id p rs ≡ some i
    → (cm : CollMem) × (get_elem? cms i ≡ some (some cm)) × Contains cm p
find-Row p cms [] i a f = let n : find_id p [] ≡ none = unfold find_id in refl in absurd (cc)
find-Row p cms ((b, e, i') ∷ rs) i ((cm, g, id, x, y, z), a) f =
    elim (Bool-cases (leb b p && ltb p e)) [
      | inl t ↦
          let hit = find_hit p b e i' rs (ground (arith, t)) (ground (arith, t)) in
          let same : some i' ≡ some i = sym hit ∙ f in
          let q : i' ≡ i = cc in
          (cm, ap (get_elem? cms) (sym q) ∙ g, (ground (arith, t, x), ground (arith, t, y)))
      | inr g' ↦ find-Row p cms rs i a (sym (find_other p b e i' rs g') ∙ f)
    ]

pub get_of :
    (p : ℕ) (cs : Colls) (i : ℕ) (cm : CollMem)
    → find_id p cs.coll_mem_ids ≡ some i
    → get_elem? cs.coll_mems i ≡ some (some cm)
    → get p cs ≡ some cm
unfolding get
get_of p cs i cm f g = rw (f, g) refl

pub get-none : (p : ℕ) (cs : Colls) → find_id p cs.coll_mem_ids ≡ none → get p cs ≡ none
unfolding get
get-none p cs f = rw (f) refl
