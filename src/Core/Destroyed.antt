-- ===== src/Core/Destroyed.antt =====
-- `destroy` of `coll_mem_manager`, ori/coll_mem_manager.hpp.
use itoyori_github_io.Base.{
  ℕ, ◌+◌, ◌<◌, ◌≤◌, ◌≡◌, ◌≢◌, ap, ◌∙◌, sym, Bool, false, List, [], ◌∷◌, Option, some, none, arith,
  length, get_elem?, set, All, Option-cases, get_elem?-set, get_elem?-lt, Bool-cases, inl, inr, ◌⊎◌,
  ◌==◌, if◌then◌else◌, ◌>>=◌,
}
use itoyori_github_io.Core.Collective.{CollMem, Colls, find_id, get, erase_id, destroy}
use itoyori_github_io.Core.Lookup.{Contains, Apart, Row, IsConsistent, find-Row, get_of, get-none}
use itoyori_github_io.Core.Erased.{erase_lem}

Row-set :
    (cms : List (Option CollMem)) (i : ℕ) (r : ℕ × ℕ × ℕ)
    → i < length cms
    → r.2 ≢ i
    → Row cms r
    → Row (set cms i none) r
Row-set cms i (b, e, j) l ne (cm, g, r1, r2, r3, r4) =
    let t : (i == j) ≡ false = ground arith in
    (
      cm,
      get_elem?-set cms i j none l
          ∙ ap (λ (x : Bool). if x then some none else get_elem? cms j) t
          ∙ g,
      r1,
      r2,
      r3,
      r4,
    )

Rows-set :
    (cms : List (Option CollMem)) (b e i : ℕ) (rs : List (ℕ × ℕ × ℕ))
    → i < length cms
    → All (λ r. Apart r (b, e, i)) rs
    → All (Row cms) rs
    → All (Row (set cms i none)) rs
Rows-set cms b e i [] l a r = tt
Rows-set cms b e i ((b', e', j) ∷ rs) l ((w, ne), a) (r, rest) =
    (Row-set cms i (b', e', j) l ne r, Rows-set cms b e i rs l a rest)

still_there :
    (cms : List (Option CollMem)) (i j : ℕ) (cm : CollMem)
    → i < length cms
    → get_elem? (set cms i none) j ≡ some (some cm)
    → get_elem? cms j ≡ some (some cm)
still_there cms i j cm l m = elim (Bool-cases (i == j)) [
  | inl t ↦
      let e : get_elem? (set cms i none) j ≡ some none =
        get_elem?-set cms i j none l
        ∙ ap (λ (x : Bool). if x then some none else get_elem? cms j) t in
      let bad : some (some cm) ≡ some none = sym m ∙ e in absurd (cc)
  | inr t ↦
      sym (ap (λ (x : Bool). if x then some none else get_elem? cms j) t)
      ∙ sym (get_elem?-set cms i j none l)
      ∙ m
]

-- A lookup that finds a memory finds its id in the list.
get_found :
    (p : ℕ) (cs : Colls) (cm : CollMem)
    → IsConsistent cs
    → get p cs ≡ some cm
    → (i : ℕ) × (find_id p cs.coll_mem_ids ≡ some i) × (get_elem? cs.coll_mems i ≡ some (some cm))
get_found p cs cm c g = elim (Option-cases (find_id p cs.coll_mem_ids)) [
  | inl n ↦ let e = get-none p cs n in absurd (cc)
  | inr (i, f) ↦
      let (found, h, inside) = find-Row p cs.coll_mems cs.coll_mem_ids i c.rows f in
      let e : some found ≡ some cm = sym (get_of p cs i found f h) ∙ g in (i, f, h ∙ ap some e)
]

-- In a consistent list, `destroy` of a memory that some address finds succeeds and gives a consistent
-- list. No address of the memory finds one any longer, and any other address finds what it found
-- before.
pub destroy_lem :
    (p : ℕ) (cm : CollMem) (cs : Colls)
    → IsConsistent cs
    → get p cs ≡ some cm
    → (cs' : Colls) × (destroy cm cs ≡ some cs')
      × IsConsistent cs'
      × ((q : ℕ) → Contains cm q → get q cs' ≡ none)
      × ((q : ℕ) → (q < cm.addr) ⊎ (cm.addr + cm.size ≤ q) → get q cs' ≡ get q cs)
unfolding destroy
destroy_lem p cm cs c g =
    let (i, f, h) = get_found p cs cm c g in
    let (cm2, b, e, out, g2, id, x, y, run, rows, (ap1, ap2, gone, kept), keep) =
      erase_lem p cs.coll_mems cs.coll_mem_ids i c.rows c.apart f in
    let l = get_elem?-lt cs.coll_mems i (some cm2) g2 in
    let both : some (some cm2) ≡ some (some cm) = sym g2 ∙ h in
    let same : cm2 ≡ cm = cc in
    let id' : cm.id ≡ i = ap (λ (m : CollMem). m.id) (sym same) ∙ id in
    let x' : cm.addr ≡ b = ap (λ (m : CollMem). m.addr) (sym same) ∙ x in
    let y' : cm.addr + cm.size ≡ e = ap (λ (m : CollMem). m.addr + m.size) (sym same) ∙ y in
    let ids = cs.coll_mem_ids in
    let erased : erase_id (cm.addr, cm.addr + cm.size, cm.id) ids ≡ some out =
      ap (λ (t : ℕ). erase_id (t, cm.addr + cm.size, cm.id) ids) x'
      ∙ ap (λ (t : ℕ). erase_id (b, t, cm.id) ids) y'
      ∙ ap (λ (t : ℕ). erase_id (b, e, t) ids) id'
      ∙ run in
    let left : ℕ → Colls =
      λ n. record { coll_mems = set cs.coll_mems n none; coll_mem_ids = out } in
    let cs' = left i in
    (
      cs',
      ap
            (λ (o : Option (List (ℕ × ℕ × ℕ))). o >>= λ ids.
              some (record { coll_mems = set cs.coll_mems cm.id none; coll_mem_ids = ids }))
            erased
          ∙ ap (λ (n : ℕ). some (left n)) id',
      record { rows = Rows-set cs.coll_mems b e i out l ap2 rows; apart = ap1 },
      λ q (u, v). get-none q cs' (gone q (omega arith) (omega arith)),
      λ q w.
          let outside : (q < b) ⊎ (e ≤ q) = elim w [
            | inl n ↦ inl (omega arith)
            | inr n ↦ inr (omega arith)
          ] in
          elim (Option-cases (find_id q out)) [
            | inl n ↦ get-none q cs' n ∙ sym (get-none q cs (sym (kept q outside) ∙ n))
            | inr (j, n) ↦
                let (found, m, rest) =
                  find-Row q (set cs.coll_mems i none) out j
                    (Rows-set cs.coll_mems b e i out l ap2 rows) n in
                let m2 = still_there cs.coll_mems i j found l m in
                get_of q cs' j found n m ∙ sym (get_of q cs j found (sym (kept q outside) ∙ n) m2)
          ],
    )
