-- ===== src/Freelist/RoundTrip.antt =====
-- `get(size)` and `add` of freelist.hpp undo one another.
use itoyori_github_io.Base.{
  ℕ, suc, ◌+◌, ◌<◌, ◌≡◌, refl, inl, inr, false, ◌&&◌, some, [], ◌∷◌, arith, ◌∙◌, sym,
}
use itoyori_github_io.Pow2.{word}
use itoyori_github_io.Freelist.{Entry, Freelist, get, add}
use itoyori_github_io.Freelist.Free.{within, free, IsValidFrom, IsValid, free_below}
use itoyori_github_io.Freelist.Get.{get-Gets}
use itoyori_github_io.Freelist.Add.{add-Gives}

-- The first entries agree, if the same bytes are free.
head_agrees :
    (x y : Entry) (xs ys : Freelist)
    → IsValidFrom x.addr (x ∷ xs)
    → IsValidFrom y.addr (y ∷ ys)
    → ((i : ℕ) → free (x ∷ xs) i ≡ free (y ∷ ys) i)
    → (x.addr ≡ y.addr) × (x.size ≡ y.size)
head_agrees x y xs ys (a, b, c, d) (a', b', c', d') e =
    let below = λ (i : ℕ). free_below (suc (x.addr + x.size)) xs i d in
    let below' = λ (i : ℕ). free_below (suc (y.addr + y.size)) ys i d' in
    let start : x.addr ≡ y.addr = ground (arith, e x.addr, e y.addr, below y.addr, below' x.addr) in
    (
      start,
      ground (
        arith,
        e (x.addr + x.size),
        e (y.addr + y.size),
        below (x.addr + x.size),
        below (y.addr + y.size),
        below' (x.addr + x.size),
        below' (y.addr + y.size),
      ),
    )

free_injective_from :
    (lo lo' : ℕ) (fl gl : Freelist)
    → IsValidFrom lo fl
    → IsValidFrom lo' gl
    → ((i : ℕ) → free fl i ≡ free gl i)
    → fl ≡ gl
free_injective_from lo lo' [] [] v w e = refl
free_injective_from lo lo' [] (y ∷ ys) v (a, b, c, d) e = absurd (ground (arith, e y.addr))
free_injective_from lo lo' (x ∷ xs) [] (a, b, c, d) w e = absurd (ground (arith, e x.addr))
free_injective_from lo lo' (x ∷ xs) (y ∷ ys) (a, b, c, d) (a', b', c', d') e =
    let (p, q) = head_agrees x y xs ys (omega arith, b, c, d) (omega arith, b', c', d') e in
    let rest = free_injective_from (suc (x.addr + x.size)) (suc (y.addr + y.size)) xs ys d d' λ i.
      ground (
        arith,
        e i,
        free_below (suc (x.addr + x.size)) xs i d,
        free_below (suc (y.addr + y.size)) ys i d',
      ) in
    cc

-- A valid list is determined by the set of its free addresses.
pub free_injective :
    (fl gl : Freelist) → IsValid fl → IsValid gl → ((i : ℕ) → free fl i ≡ free gl i) → fl ≡ gl
free_injective fl gl v w e = free_injective_from 0 0 fl gl v w e

-- Giving back what `get` has given restores the very list.
pub add-get :
    (size a : ℕ) (fl out : Freelist)
    → 0 < size
    → IsValid fl
    → get size fl ≡ some (a, out)
    → add a size out ≡ fl
add-get size a fl out h v e = elim (get-Gets size fl h v) [
  | inl (p, n) ↦ cc
  | inr (a', out', p, (w, l, v1, q, t)) ↦
      let (v2, q2) = add-Gives a' size out' w v1 t in
      let r = free_injective (add a' size out') fl v2 v (λ i. q2 i ∙ sym (q i)) in cc
]

-- Giving back two ranges that are apart gives the same list in either order.
pub add_comm :
    (a s b t : ℕ) (fl : Freelist)
    → IsValid fl
    → a + s < word
    → b + t < word
    → ((i : ℕ) → within a s i && free fl i ≡ false)
    → ((i : ℕ) → within b t i && free fl i ≡ false)
    → ((i : ℕ) → within a s i && within b t i ≡ false)
    → add a s (add b t fl) ≡ add b t (add a s fl)
add_comm a s b t fl v h k d1 d2 d3 =
    let (v1, q1) = add-Gives b t fl k v d2 in
    let (v2, q2) = add-Gives a s (add b t fl) h v1 (λ i. ground (arith, q1 i, d1 i, d3 i)) in
    let (w1, r1) = add-Gives a s fl h v d1 in
    let (w2, r2) = add-Gives b t (add a s fl) k w1 (λ i. ground (arith, r1 i, d2 i, d3 i)) in
    free_injective (add a s (add b t fl)) (add b t (add a s fl)) v2 w2
      (λ i. ground (arith, q1 i, q2 i, r1 i, r2 i))
