-- ===== src/Freelist/Aligned.antt =====
-- `get(size, alignment)` of freelist.hpp.
use itoyori_github_io.Base.{
  ℕ, ◌+◌, ◌-◌, ◌%◌, ◌^◌, ◌≤◌, ◌<◌, ◌≡◌, refl, ◌⊎◌, inl, inr, true, Option, some, none, arith, ◌==◌,
  ==→eq, Bool-cases, ◌∙◌, sym, le→leb,
}
use itoyori_github_io.Pow2.{word, add64, sub64, is_pow2, round_up_pow2}
use itoyori_github_io.Pow2.Rounding.{round_up_pow2_lem, is_pow2_iff}
use itoyori_github_io.Freelist.{Freelist, add, trim, get_aligned}
use itoyori_github_io.Freelist.Free.{free, IsValid}
use itoyori_github_io.Freelist.Get.{Takes, get-Gets}
use itoyori_github_io.Freelist.Add.{add-Gives}

-- A call that gives nothing leaves the same bytes free; one that gives `a` gives an aligned address
-- whose `size` bytes were free, and takes exactly those away. The list is valid in both cases.
abbrev pub GetsAligned : ℕ → ℕ → Freelist → Option (Option ℕ × Freelist) → Type 0
GetsAligned size alignment fl result =
    (out : Freelist) × IsValid out
    × ((result ≡ some (none, out)) × ((i : ℕ) → free out i ≡ free fl i)
        ⊎ ((a : ℕ) × (result ≡ some (some a, out)) × (a % alignment ≡ 0) × Takes 0 size fl a out))

-- The steps of `trim`, where nothing wraps and `r` lies in the range.
trim_run :
    (size alignment g r : ℕ) (fl : Freelist)
    → is_pow2 alignment ≡ true
    → round_up_pow2 g alignment ≡ r
    → g ≤ r
    → r + size ≤ g + (size + alignment)
    → g + (size + alignment) < word
    → trim size alignment g fl
      ≡ some (some r, add (r + size) (g + (size + alignment) - (r + size)) (add g (r - g) fl))
unfolding trim
trim_run size alignment g r fl p e lo hi w =
    let e1 : add64 size alignment ≡ size + alignment = omega arith in
    let e2 : add64 g (size + alignment) ≡ g + (size + alignment) = omega arith in
    let e3 : add64 r size ≡ r + size = omega arith in
    let e4 : sub64 r g ≡ r - g = omega arith in
    let e5 : sub64 (g + (size + alignment)) (r + size) ≡ g + (size + alignment) - (r + size) =
      omega arith in
    rw (e, e1, e2, e3, e4, e5, p, le→leb _ _ lo, le→leb _ _ hi)

-- The call keeps the `size` bytes from the next aligned address and gives the rest back.
trim_lem :
    (size k g : ℕ) (fl fl3 : Freelist)
    → k < 64
    → size + 2 ^ k < word
    → Takes 0 (size + 2 ^ k) fl g fl3
    → (r : ℕ) × (out : Freelist) × (trim size (2 ^ k) g fl3 ≡ some (some r, out))
      × (r % 2 ^ k ≡ 0)
      × Takes 0 size fl r out
unfolding trim
trim_lem size k g fl fl3 hk hs (w, _, v, q, t) =
    let (al, lo, hi) = round_up_pow2_lem g k (omega (arith, w)) (omega arith) in
    let r = round_up_pow2 g (2 ^ k) in
    let pw : is_pow2 (2 ^ k) ≡ true = (is_pow2_iff (2 ^ k) (omega arith)).1 (inr (k, refl)) in
    let (v1, q1) = add-Gives g (r - g) fl3 (omega arith) v (λ i. ground (arith, t i)) in
    let rest = g + (size + 2 ^ k) - (r + size) in
    let (v2, q2) =
      add-Gives (r + size) rest (add g (r - g) fl3) (omega arith) v1
        (λ i. ground (arith, t i, q1 i)) in
    (
      r,
      add (r + size) rest (add g (r - g) fl3),
      trim_run size (2 ^ k) g r fl3 pw refl lo (omega arith) w,
      al,
      (
        omega arith,
        omega arith,
        v2,
        λ i. ground (arith, q i, q1 i, q2 i),
        λ i. ground (arith, q i, t i, q1 i, q2 i),
      ),
    )

-- On a valid list, for a positive size and an alignment that is a power of two below 2^64, with a sum
-- below 2^64, `get(size, alignment)` passes its checks. It gives nothing and leaves the same bytes
-- free, or it gives an aligned address whose bytes were free and takes exactly those away; the list
-- stays valid.
pub get_aligned-GetsAligned :
    (size k : ℕ) (fl : Freelist)
    → 0 < size
    → k < 64
    → size + 2 ^ k < word
    → IsValid fl
    → GetsAligned size (2 ^ k) fl (get_aligned size (2 ^ k) fl)
unfolding get_aligned
get_aligned-GetsAligned size k fl h hk hs v = elim (get-Gets size fl h v) [
  | inl (p, n) ↦ (fl, v, inl (rw (p, get_aligned), λ i. refl))
  | inr (s, fl1, p, (w, l, v1, q, t)) ↦ elim (Bool-cases (s % 2 ^ k == 0)) [
    | inl e ↦ (fl1, v1, inr (s, rw (p, get_aligned, e), ==→eq _ _ e, (w, l, v1, q, t)))
    | inr e ↦
        let (v2, q2) = add-Gives s size fl1 w v1 t in
        let e1 : add64 size (2 ^ k) ≡ size + 2 ^ k = omega arith in
        elim (get-Gets (size + 2 ^ k) (add s size fl1) (omega arith) v2) [
          | inl (p', n) ↦
              (add s size fl1, v2, inl (rw (p, get_aligned, e, e1, p'), λ i. q2 i ∙ sym (q i)))
          | inr (g, fl3, p', (w', l', v3, q3, t3)) ↦
              let (r, out, run, al, z) =
                trim_lem size k g fl fl3 hk hs (w', l', v3, λ i. q i ∙ sym (q2 i) ∙ q3 i, t3) in
              (out, z.2, inr (r, rw (p, get_aligned, e, e1, p') run, al, z))
        ]
  ]
]
