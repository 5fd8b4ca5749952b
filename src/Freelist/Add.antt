-- ===== src/Freelist/Add.antt =====
-- `add` of freelist.hpp.
use itoyori_github_io.Base.{
  ℕ, suc, ◌+◌, ◌≤◌, ◌<◌, ◌≡◌, refl, inl, inr, false, ◌&&◌, ◌||◌, [], ◌∷◌, arith, ltb, ◌==◌, ==→eq,
  ltb→lt, Bool-cases, ◌∙◌,
}
use itoyori_github_io.Pow2.{word, add64}
use itoyori_github_io.Freelist.{Entry, entry, Freelist, add, add_loop, join_next}
use itoyori_github_io.Freelist.Free.{within, free, IsValidFrom, IsValid, IsValidFrom-mono}

-- `out` is valid, and the `size` bytes from `addr` are free in it beside those that were.
abbrev pub Gives : ℕ → ℕ → ℕ → Freelist → Freelist → Type 0
Gives lo addr size fl out =
    IsValidFrom lo out × ((i : ℕ) → free out i ≡ within addr size i || free fl i)

-- Nothing of the `size` bytes from `addr` is free.
abbrev pub IsApart : ℕ → ℕ → Freelist → Type 0
IsApart addr size fl = (i : ℕ) → within addr size i && free fl i ≡ false

join_next_lem :
    (lo : ℕ) (x : Entry) (xs : Freelist)
    → lo ≤ x.addr
    → 0 < x.size
    → x.addr + x.size < word
    → IsValidFrom (x.addr + x.size) xs
    → Gives lo x.addr x.size xs (join_next x xs)
unfolding join_next
join_next_lem lo x [] a b c v = ((a, b, c, tt), λ i. refl)
join_next_lem lo x (y ∷ ys) a b c (p, q, r, w) =
    let s : add64 x.addr x.size ≡ x.addr + x.size = omega arith in
    elim (Bool-cases (y.addr == x.addr + x.size)) [
      | inl e ↦
          let e' : y.addr ≡ x.addr + x.size = ==→eq _ _ e in
          let m : add64 x.size y.size ≡ x.size + y.size = omega arith in
          rw (s, e, m)
            (
              (
                a,
                omega arith,
                omega arith,
                IsValidFrom-mono (suc (y.addr + y.size)) (suc (x.addr + (x.size + y.size))) ys
                    (omega arith) w,
              ),
              λ i. ground arith,
            )
      | inr e ↦ rw (s, e) ((a, b, c, (ground arith, q, r, w)), λ i. refl)
    ]

-- What is apart from a range that begins before it starts after that range.
IsValidFrom-apart :
    (lo addr size : ℕ) (fl : Freelist)
    → addr ≤ lo
    → IsValidFrom lo fl
    → IsApart addr size fl
    → IsValidFrom (addr + size) fl
IsValidFrom-apart lo addr size [] l v d = tt
IsValidFrom-apart lo addr size (y ∷ ys) l (a, b, c, v) d = (ground (arith, d y.addr), b, c, v)

add_loop_lem :
    (lo addr size : ℕ) (fl : Freelist)
    → lo ≤ addr
    → 0 < size
    → addr + size < word
    → IsValidFrom lo fl
    → IsApart addr size fl
    → Gives lo addr size fl (add_loop addr size fl)
unfolding add_loop
add_loop_lem lo addr size [] l h k v d = ((l, h, k, tt), λ i. refl)
add_loop_lem lo addr size (x ∷ xs) l h k (a, b, c, v) d =
    let s : add64 addr size ≡ addr + size = omega arith in
    let t : add64 x.addr x.size ≡ x.addr + x.size = omega arith in
    elim (Bool-cases (addr + size == x.addr)) [
      | inl e ↦
          let e' : addr + size ≡ x.addr = ==→eq _ _ e in
          let m : add64 x.size size ≡ x.size + size = omega arith in
          rw (s, e, m)
            (
              (
                l,
                omega arith,
                omega arith,
                IsValidFrom-mono (suc (x.addr + x.size)) (suc (addr + (x.size + size))) xs
                    (omega arith) v,
              ),
              λ i. ground arith,
            )
      | inr e ↦ elim (Bool-cases (ltb (addr + size) x.addr)) [
        | inl f ↦ rw (s, e, f) ((l, h, k, (ltb→lt _ _ f, b, c, v)), λ i. refl)
        | inr f ↦
            let after : x.addr + x.size ≤ addr = ground (arith, d addr, d x.addr) in
            elim (Bool-cases (addr == x.addr + x.size)) [
              | inl g ↦
                  let g' : addr ≡ x.addr + x.size = ==→eq _ _ g in
                  let m : add64 x.size size ≡ x.size + size = omega arith in
                  rw (s, t, e, f, g, m)
                    (let (w, q) =
                        join_next_lem lo (entry x.addr (x.size + size)) xs a (omega arith)
                          (omega arith)
                          (rw (let y : x.addr + (x.size + size) ≡ addr + size = omega arith in y) (
                            IsValidFrom-apart (suc (x.addr + x.size)) addr size xs (omega arith) v
                              (λ i. ground (arith, d i)))) in
                      (w, λ i. q i ∙ ground arith))
              | inr g ↦
                  let (w, q) =
                    add_loop_lem (suc (x.addr + x.size)) addr size xs (ground arith) h k v
                      (λ i. ground (arith, d i)) in
                  rw (s, t, e, f, g) ((a, b, c, w), λ i. ground (arith, q i))
            ]
      ]
    ]

-- Giving back bytes none of which is free to a valid list frees exactly those, and the list stays
-- valid: neighbours are joined.
pub add-Gives :
    (addr size : ℕ) (fl : Freelist)
    → addr + size < word
    → IsValid fl
    → IsApart addr size fl
    → Gives 0 addr size fl (add addr size fl)
unfolding add
add-Gives addr size fl k v d = elim (Bool-cases (size == 0)) [
  | inl e ↦ rw e (v, λ i. ground arith)
  | inr e ↦ rw e (add_loop_lem 0 addr size fl (omega arith) (ground arith) k v d)
]
