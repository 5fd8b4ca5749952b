-- ===== src/Freelist/Get.antt =====
-- `get(size)` of freelist.hpp.
use itoyori_github_io.Base.{
  ℕ, suc, ◌+◌, ◌-◌, ◌≤◌, ◌<◌, ◌≡◌, refl, ◌⊎◌, inl, inr, true, false, ◌&&◌, ◌||◌, Option, some, none,
  [], ◌∷◌, arith, ltb, leb, ◌==◌, ==→eq, ltb→lt, Bool-cases,
}
use itoyori_github_io.Pow2.{word, add64}
use itoyori_github_io.Freelist.{Entry, entry, Freelist, get}
use itoyori_github_io.Freelist.Free.{
  within, free, IsValidFrom, IsValid, IsValidFrom-mono, free_below,
}

-- No `size` bytes in a row are free.
abbrev pub NoRoom : ℕ → Freelist → Type 0
NoRoom size fl = (a : ℕ) → (i : ℕ) × (within a size i ≡ true) × (free fl i ≡ false)

-- The `size` bytes from `a` were free in `fl`, and `out` is the rest.
abbrev pub Takes : ℕ → ℕ → Freelist → ℕ → Freelist → Type 0
Takes lo size fl a out =
    (a + size < word)
    × (lo ≤ a)
    × IsValidFrom lo out
    × ((i : ℕ) → free fl i ≡ within a size i || free out i)
    × ((i : ℕ) → within a size i && free out i ≡ false)

-- What `get size` makes of a list.
abbrev pub Gets : ℕ → ℕ → Freelist → Option (ℕ × Freelist) → Type 0
Gets lo size fl result =
    (result ≡ none) × NoRoom size fl
    ⊎ ((a : ℕ) × (out : Freelist) × (result ≡ some (a, out)) × Takes lo size fl a out)

NoRoom-cons :
    (size : ℕ) (x : Entry) (xs : Freelist)
    → x.size < size
    → IsValidFrom (suc (x.addr + x.size)) xs
    → NoRoom size xs
    → NoRoom size (x ∷ xs)
NoRoom-cons size x xs h v n a = elim (Bool-cases (ltb a x.addr)) [
  | inl e ↦ (a, ground arith, ground (arith, free_below (suc (x.addr + x.size)) xs a v))
  | inr e ↦ elim (Bool-cases (leb a (x.addr + x.size))) [
    | inl f ↦ (
      x.addr + x.size,
      ground arith,
      ground (arith, free_below (suc (x.addr + x.size)) xs (x.addr + x.size) v),
    )
    | inr f ↦ let (i, p, q) = n a in (i, p, ground arith)
  ]
]

get_from :
    (lo size : ℕ) (fl : Freelist) → 0 < size → IsValidFrom lo fl → Gets lo size fl (get size fl)
unfolding get
get_from lo size [] h v = inl (refl, λ a. (a, ground arith, refl))
get_from lo size (x ∷ xs) h (a, b, c, d) =
    let below = free_below (suc (x.addr + x.size)) xs in
    elim (Bool-cases (x.size == size)) [
      | inl e ↦ inr (
        x.addr,
        xs,
        rw e,
        (
          ground (arith, ==→eq _ _ e),
          a,
          IsValidFrom-mono (suc (x.addr + x.size)) lo xs (omega arith) d,
          λ i. ground (arith, ==→eq _ _ e),
          λ i. ground (arith, ==→eq _ _ e, below i d),
        ),
      )
      | inr e ↦ elim (Bool-cases (ltb size x.size)) [
        | inl f ↦
            let w : add64 x.addr size ≡ x.addr + size = omega (arith, ltb→lt _ _ f) in
            inr (
              x.addr,
              entry (x.addr + size) (x.size - size) ∷ xs,
              rw (e, f, w),
              (
                omega (arith, ltb→lt _ _ f),
                a,
                (
                  omega arith,
                  omega (arith, ltb→lt _ _ f),
                  omega (arith, ltb→lt _ _ f),
                  IsValidFrom-mono (suc (x.addr + x.size)) (suc (x.addr + size + (x.size - size)))
                      xs (omega (arith, ltb→lt _ _ f)) d,
                ),
                λ i. ground (arith, ltb→lt _ _ f),
                λ i. ground (arith, ltb→lt _ _ f, below i d),
              ),
            )
        | inr f ↦ elim (get_from (suc (x.addr + x.size)) size xs h d) [
          | inl (p, n) ↦ inl (rw (e, f, p), NoRoom-cons size x xs (ground arith) d n)
          | inr (g, out, p, (k, l, w, q, t)) ↦ inr (
            g,
            x ∷ out,
            rw (e, f, p),
            (k, omega arith, (a, b, c, w), λ i. ground (arith, q i), λ i. ground (arith, t i, q i)),
          )
        ]
      ]
    ]

-- On a valid list and for a positive size, `get` gives free bytes, takes exactly those away and
-- leaves a valid list; it gives nothing only if no `size` bytes in a row are free.
pub get-Gets : (size : ℕ) (fl : Freelist) → 0 < size → IsValid fl → Gets 0 size fl (get size fl)
get-Gets size fl h v = get_from 0 size fl h v
