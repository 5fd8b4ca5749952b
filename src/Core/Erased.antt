-- ===== src/Core/Erased.antt =====
-- How `destroy` of `coll_mem_manager`, ori/coll_mem_manager.hpp, takes a row out of the list.
use itoyori_github_io.Base.{
  ℕ, ◌+◌, ◌<◌, ◌≤◌, ◌≡◌, ◌≢◌, refl, ap, ◌∙◌, sym, subst, true, false, ◌&&◌, List, [], ◌∷◌, Option,
  some, none, arith, get_elem?, All, Bool-cases, inl, inr, ◌⊎◌, ltb, leb, ◌==◌,
}
use itoyori_github_io.Core.Collective.{CollMem, find_id, erase_id}
use itoyori_github_io.Core.Lookup.{Apart, AllApart, Row, find_other, find_hit, find_miss}

-- What is left of a consistent list when the row of an address is taken out.
abbrev pub Erased : List (ℕ × ℕ × ℕ) → ℕ × ℕ × ℕ → List (ℕ × ℕ × ℕ) → Type 0
Erased rs (b, e, i) out =
    AllApart out
    × All (λ r. Apart r (b, e, i)) out
    × ((q : ℕ) → b ≤ q → q < e → find_id q out ≡ none)
    × ((q : ℕ) → (q < b) ⊎ (e ≤ q) → find_id q out ≡ find_id q rs)

Apart-sym : (r r' : ℕ × ℕ × ℕ) → Apart r r' → Apart r' r
Apart-sym (b, e, i) (b', e', i') (inl x, ne) = (inr x, λ q. ne (sym q))
Apart-sym (b, e, i) (b', e', i') (inr x, ne) = (inl x, λ q. ne (sym q))

All-Apart-sym :
    (r : ℕ × ℕ × ℕ) (rs : List (ℕ × ℕ × ℕ)) → All (Apart r) rs → All (λ r'. Apart r' r) rs
All-Apart-sym r [] a = tt
All-Apart-sym r (r' ∷ rs) (a, b) = (Apart-sym r r' a, All-Apart-sym r rs b)

-- No range that is apart from another has an address of it.
Apart-none :
    (b e i q : ℕ) (rs : List (ℕ × ℕ × ℕ))
    → All (λ r. Apart r (b, e, i)) rs
    → b ≤ q
    → q < e
    → find_id q rs ≡ none
Apart-none b e i q [] a l u = unfold find_id in refl
Apart-none b e i q ((b', e', i') ∷ rs) ((w, ne), a) l u =
    find_miss q b' e' i' rs (elim w [ inl x ↦ inr (omega arith) | inr x ↦ inl (omega arith) ])
    ∙ Apart-none b e i q rs a l u

erase_hit : (b e i : ℕ) (rs : List (ℕ × ℕ × ℕ)) → erase_id (b, e, i) ((b, e, i) ∷ rs) ≡ some rs
unfolding erase_id
erase_hit b e i rs =
    let t : ((b == b) && ((e == e) && (i == i))) ≡ true = ground arith in rw (t) refl

erase_miss :
    (b e i b' e' i' : ℕ) (rs out : List (ℕ × ℕ × ℕ))
    → i ≢ i'
    → erase_id (b, e, i) rs ≡ some out
    → erase_id (b, e, i) ((b', e', i') ∷ rs) ≡ some ((b', e', i') ∷ out)
unfolding erase_id
erase_miss b e i b' e' i' rs out ne f =
    let t : ((b == b') && ((e == e') && (i == i'))) ≡ false = ground arith in rw (t, f) refl

find_cons_same :
    (q b e i : ℕ) (rs out : List (ℕ × ℕ × ℕ))
    → find_id q out ≡ find_id q rs
    → find_id q ((b, e, i) ∷ out) ≡ find_id q ((b, e, i) ∷ rs)
find_cons_same q b e i rs out h = elim (Bool-cases (leb b q && ltb q e)) [
  | inl t ↦
      find_hit q b e i out (ground (arith, t)) (ground (arith, t))
      ∙ sym (find_hit q b e i rs (ground (arith, t)) (ground (arith, t)))
  | inr g ↦ find_other q b e i out g ∙ h ∙ sym (find_other q b e i rs g)
]

-- The row in which an address is found, with its memory, and the list without it.
abbrev pub Removed : List (Option CollMem) → List (ℕ × ℕ × ℕ) → ℕ → Type 0
Removed cms rs i =
    (cm : CollMem) × (b : ℕ) × (e : ℕ) × (out : List (ℕ × ℕ × ℕ)) × (get_elem? cms i
      ≡ some (some cm))
    × (cm.id ≡ i)
    × (cm.addr ≡ b)
    × (cm.addr + cm.size ≡ e)
    × (erase_id (b, e, i) rs ≡ some out)
    × All (Row cms) out
    × Erased rs (b, e, i) out
    × ((k : ℕ × ℕ × ℕ) → All (Apart k) rs → All (Apart k) out × Apart k (b, e, i))

pub erase_lem :
    (p : ℕ) (cms : List (Option CollMem)) (rs : List (ℕ × ℕ × ℕ)) (i : ℕ)
    → All (Row cms) rs
    → AllApart rs
    → find_id p rs ≡ some i
    → Removed cms rs i
erase_lem p cms [] i a ap f = let n : find_id p [] ≡ none = unfold find_id in refl in absurd (cc)
erase_lem p cms ((b, e, i') ∷ rs) i ((cm, g, id, x, y, z), a) (w, w') f =
    elim (Bool-cases (leb b p && ltb p e)) [
      | inl t ↦
          let hit = find_hit p b e i' rs (ground (arith, t)) (ground (arith, t)) in
          let same : some i' ≡ some i = sym hit ∙ f in
          let q : i' ≡ i = cc in
          let apart = All-Apart-sym (b, e, i') rs w in
          subst (Removed cms ((b, e, i') ∷ rs)) q (
            cm,
            b,
            e,
            rs,
            g,
            id,
            x,
            y,
            erase_hit b e i' rs,
            a,
            (
              w',
              apart,
              λ r l u. Apart-none b e i' r rs apart l u,
              λ r h. sym (find_miss r b e i' rs h),
            ),
            λ k (k1, k2). (k2, k1),
          )
      | inr g' ↦
          let (cm2, b2, e2, out, g2, id2, x2, y2, run, rows, (ap1, ap2, none2, same2), keep) =
            erase_lem p cms rs i a w' (sym (find_other p b e i' rs g') ∙ f) in
          let (k1, k2) = keep (b, e, i') w in
          (
            cm2,
            b2,
            e2,
            (b, e, i') ∷ out,
            g2,
            id2,
            x2,
            y2,
            erase_miss b2 e2 i b e i' rs out (λ q. k2.1 (sym q)) run,
            ((cm, g, id, x, y, z), rows),
            (
              (k1, ap1),
              (k2, ap2),
              λ r l u.
                  find_miss r b e i' out
                    (elim k2.0 [ inl h ↦ inr (omega arith) | inr h ↦ inl (omega arith) ])
                  ∙ none2 r l u,
              λ r h. find_cons_same r b e i' rs out (same2 r h),
            ),
            λ k (m1, m2). let (n1, n2) = keep k m2 in ((m1, n1), n2),
          )
    ]
