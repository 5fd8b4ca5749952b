-- ===== src/Core/Created.antt =====
-- `create` of `coll_mem_manager`, ori/coll_mem_manager.hpp.
use itoyori_github_io.Base.{
  ℕ, ◌+◌, ◌<◌, ◌≤◌, ◌≡◌, refl, ◌∙◌, sym, ◌&&◌, List, [], ◌∷◌, ◌++◌, Option, some, zero, suc, arith,
  length, get_elem?, All, All-map_pred, Option-cases, get_elem?-lt, Bool-cases, inl, inr, ◌⊎◌, ltb,
  leb,
}
use itoyori_github_io.Core.Collective.{CollMem, Colls, find_id, get, create}
use itoyori_github_io.Core.Lookup.{
  Contains, Apart, AllApart, Row, IsConsistent, find_other, find_hit, find_miss, find-Row, get_of,
  get-none,
}

-- A range that is apart from all of a list is not found in it, nor does it hide any.
find_id-append :
    (p b e i : ℕ) (rs : List (ℕ × ℕ × ℕ))
    → All (λ r. Apart r (b, e, i)) rs
    → b ≤ p
    → p < e
    → find_id p (rs ++ ((b, e, i) ∷ [])) ≡ some i
find_id-append p b e i [] a l u = find_hit p b e i [] l u
find_id-append p b e i ((b', e', i') ∷ rs) ((w, ne), a) l u =
    find_miss p b' e' i' (rs ++ ((b, e, i) ∷ []))
      (elim w [ inl x ↦ inr (omega arith) | inr x ↦ inl (omega arith) ])
    ∙ find_id-append p b e i rs a l u

find_id-append_miss :
    (p b e i : ℕ) (rs : List (ℕ × ℕ × ℕ))
    → (p < b) ⊎ (e ≤ p)
    → find_id p (rs ++ ((b, e, i) ∷ [])) ≡ find_id p rs
find_id-append_miss p b e i [] w = find_miss p b e i [] w
find_id-append_miss p b e i ((b', e', i') ∷ rs) w = elim (Bool-cases (leb b' p && ltb p e')) [
  | inl t ↦
      find_hit p b' e' i' (rs ++ ((b, e, i) ∷ [])) (ground (arith, t)) (ground (arith, t))
      ∙ sym (find_hit p b' e' i' rs (ground (arith, t)) (ground (arith, t)))
  | inr g ↦
      find_other p b' e' i' (rs ++ ((b, e, i) ∷ [])) g
      ∙ find_id-append_miss p b e i rs w
      ∙ sym (find_other p b' e' i' rs g)
]

get_elem?-append_left :
    {A : Type 0} (xs ys : List A) (i : ℕ) (x : A)
    → get_elem? xs i ≡ some x
    → get_elem? (xs ++ ys) i ≡ some x
get_elem?-append_left [] ys i x e = absurd (cc)
get_elem?-append_left (y ∷ xs) ys zero x e = e
get_elem?-append_left (y ∷ xs) ys (suc i) x e = get_elem?-append_left xs ys i x e

get_elem?-last :
    {A : Type 0} (xs : List A) (x : A) → get_elem? (xs ++ (x ∷ [])) (length xs) ≡ some x
get_elem?-last [] x = refl
get_elem?-last (y ∷ xs) x = get_elem?-last xs x

All-snoc :
    {A : Type 0} (P : A → Type 0) (xs : List A) (x : A) → All P xs → P x → All P (xs ++ (x ∷ []))
All-snoc P [] x a p = (p, tt)
All-snoc P (y ∷ xs) x (a, b) p = (a, All-snoc P xs x b p)

AllApart-snoc :
    (rs : List (ℕ × ℕ × ℕ)) (b e i : ℕ)
    → AllApart rs
    → All (λ r. Apart r (b, e, i)) rs
    → AllApart (rs ++ ((b, e, i) ∷ []))
AllApart-snoc [] b e i a w = (tt, tt)
AllApart-snoc (r ∷ rs) b e i (a, a') (w, w') =
    (All-snoc (Apart r) rs (b, e, i) a w, AllApart-snoc rs b e i a' w')

-- A new memory is apart from those of the list.
abbrev pub IsNew : CollMem → Colls → Type 0
IsNew cm cs =
    (cm.id ≡ length cs.coll_mems)
    × (0 < cm.size)
    × All (λ (b, e, i). (e ≤ cm.addr) ⊎ (cm.addr + cm.size ≤ b)) cs.coll_mem_ids

new-Apart :
    (cms : List (Option CollMem)) (cm : CollMem) (rs : List (ℕ × ℕ × ℕ))
    → All (Row cms) rs
    → All (λ (b, e, i). (e ≤ cm.addr) ⊎ (cm.addr + cm.size ≤ b)) rs
    → All (λ r. Apart r (cm.addr, cm.addr + cm.size, length cms)) rs
new-Apart cms cm [] a w = tt
new-Apart cms cm ((b, e, i) ∷ rs) ((c, g, r1, r2, r3, r4), a) (w, w') =
    let l = get_elem?-lt cms i (some c) g in ((w, omega arith), new-Apart cms cm rs a w')

Row-snoc :
    (cms : List (Option CollMem)) (o : Option CollMem) (r : ℕ × ℕ × ℕ)
    → Row cms r
    → Row (cms ++ (o ∷ [])) r
Row-snoc cms o (b, e, i) (cm, g, r1, r2, r3, r4) =
    (cm, get_elem?-append_left cms (o ∷ []) i (some cm) g, r1, r2, r3, r4)

-- In a consistent list, `create` of a new memory whose range is apart from the others gives a
-- consistent list. An address in the new range now finds the new memory, and any other address finds
-- what it found before.
pub create_lem :
    (make : ℕ → CollMem) (cs : Colls)
    → IsConsistent cs
    → IsNew (make (length cs.coll_mems)) cs
    → IsConsistent (create make cs).0
      × ((p : ℕ)
          → Contains (make (length cs.coll_mems)) p
          → get p (create make cs).0 ≡ some (make (length cs.coll_mems)))
      × ((p : ℕ)
          → (p < (make (length cs.coll_mems)).addr)
            ⊎ ((make (length cs.coll_mems)).addr + (make (length cs.coll_mems)).size ≤ p)
          → get p (create make cs).0 ≡ get p cs)
unfolding create
create_lem make cs c (id, n, w) =
    let i = length cs.coll_mems in
    let cm = make i in
    let row : ℕ × ℕ × ℕ = (cm.addr, cm.addr + cm.size, i) in
    let cs' : Colls = record {
      coll_mems = cs.coll_mems ++ (some cm ∷ []);
      coll_mem_ids = cs.coll_mem_ids ++ (row ∷ []);
    } in
    let apart = new-Apart cs.coll_mems cm cs.coll_mem_ids c.rows w in
    (
      record {
        rows =
            All-snoc (Row cs'.coll_mems) cs.coll_mem_ids row
              (All-map_pred (Row cs.coll_mems) (Row cs'.coll_mems) cs.coll_mem_ids
                (Row-snoc cs.coll_mems (some cm)) c.rows)
              (cm, get_elem?-last cs.coll_mems (some cm), id, refl, refl, omega arith);
        apart = AllApart-snoc cs.coll_mem_ids cm.addr (cm.addr + cm.size) i c.apart apart;
      },
      λ p h.
          get_of p cs' i cm
            (find_id-append p cm.addr (cm.addr + cm.size) i cs.coll_mem_ids apart h.0 h.1)
            (get_elem?-last cs.coll_mems (some cm)),
      λ p h.
          let same = find_id-append_miss p cm.addr (cm.addr + cm.size) i cs.coll_mem_ids h in
          elim (Option-cases (find_id p cs.coll_mem_ids)) [
            | inl e ↦ get-none p cs' (same ∙ e) ∙ sym (get-none p cs e)
            | inr (j, e) ↦
                let (found, g, rest) = find-Row p cs.coll_mems cs.coll_mem_ids j c.rows e in
                get_of p cs' j found (same ∙ e)
                  (get_elem?-append_left cs.coll_mems (some cm ∷ []) j (some found) g)
                ∙ sym (get_of p cs j found e g)
          ],
    )
