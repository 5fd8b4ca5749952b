-- ===== src/Pattern/Filtered.antt =====
-- What the parallel stable partition of pattern/parallel_filter.hpp gives.
use mathlib.Core.List.{append_assoc}
use itoyori_github_io.Base.{
  ℕ, ◌+◌, ◌/◌, ◌<◌, ◌≡◌, refl, ap, ap₂, ◌∙◌, sym, Bool, true, false, not, List, ◌++◌, some, zero,
  suc, arith, length, length-append, leb, ◌==◌, Bool-cases, inl, inr, ◌&&◌, if◌then◌else◌, none,
  ltb,
}
use itoyori_github_io.Pattern.{Policy, assert_policy}
use itoyori_github_io.Pattern.Ranges.{
  take, drop, filter, take-append-drop, length-take, length-drop, take-append, drop-append,
  filter-append,
}
use itoyori_github_io.Pattern.Loop.{rotate}
use itoyori_github_io.Pattern.Loop.Reversed.{rotate_lem}
use itoyori_github_io.Pattern.Filter.{stable_partition_aux}

positive : (policy : Policy) → assert_policy policy ≡ true → 0 < policy.cutoff_count
unfolding assert_policy
positive policy v = ground (arith, v)

module _ {A : Type 0} where
  -- The elements that pass the test and then the others, each in their order, and the number of the
  -- first.
  abbrev pub partitioned : (A → Bool) → List A → List A × ℕ
  partitioned pred xs = (filter pred xs ++ filter (λ x. not (pred x)) xs, length (filter pred xs))

  -- The exchange of the middle parts puts together what belongs together.
  exchange_lem :
      (a b c d : List A)
      → take (length a) (a ++ b)
          ++ ((take (length c) (c ++ d) ++ drop (length a) (a ++ b)) ++ drop (length c) (c ++ d))
        ≡ (a ++ c) ++ (b ++ d)
  exchange_lem a b c d =
      rw
        (
          take-append (length a) a b refl,
          drop-append (length a) a b refl,
          take-append (length c) c d refl,
          drop-append (length c) c d refl,
        )
        (ap (λ (r : List A). a ++ r) (append_assoc c b d) ∙ sym (append_assoc a c (b ++ d)))

  -- What a fork gives, in terms of its tasks.
  fork_run :
      (fuel : ℕ) (policy : Policy) (std_partition : (A → Bool) → List A → List A × ℕ)
      (pred : A → Bool) (xs l r mid : List A) (m1 m2 : ℕ)
      → leb (length xs) policy.cutoff_count ≡ false
      → stable_partition_aux fuel policy std_partition pred (take (length xs / 2) xs) ≡ some (l, m1)
      → stable_partition_aux fuel policy std_partition pred (drop (length xs / 2) xs) ≡ some (r, m2)
      → rotate policy (drop m1 l) (take m2 r) ≡ some mid
      → stable_partition_aux (suc fuel) policy std_partition pred xs
        ≡ some (take m1 l ++ (mid ++ drop m2 r), m1 + m2)
  unfolding stable_partition_aux
  fork_run fuel policy std_partition pred xs l r mid m1 m2 g e f h = rw (g, e, f, h) refl

  leaf_run :
      (fuel : ℕ) (policy : Policy) (std_partition : (A → Bool) → List A → List A × ℕ)
      (pred : A → Bool) (xs : List A)
      → leb (length xs) policy.cutoff_count ≡ true
      → ((policy.cutoff_count == policy.checkout_count) && ltb 0 (length xs)) ≡ true
      → stable_partition_aux (suc fuel) policy std_partition pred xs ≡ some (std_partition pred xs)
  unfolding stable_partition_aux
  leaf_run fuel policy std_partition pred xs t c = rw (t, c) refl

  non_empty_lem :
      (fuel : ℕ) (policy : Policy) (std_partition : (A → Bool) → List A → List A × ℕ)
      (pred : A → Bool) (xs : List A)
      → ((ys : List A) → std_partition pred ys ≡ partitioned pred ys)
      → assert_policy policy ≡ true
      → policy.cutoff_count ≡ policy.checkout_count
      → 0 < length xs
      → length xs < fuel
      → stable_partition_aux fuel policy std_partition pred xs ≡ some (partitioned pred xs)
  non_empty_lem zero policy std_partition pred xs law v same n small = absurd (omega arith)
  non_empty_lem (suc fuel) policy std_partition pred xs law v same n small =
      let d = length xs in
      elim (Bool-cases (leb d policy.cutoff_count)) [
        | inl t ↦
            leaf_run fuel policy std_partition pred xs t (ground (arith, same, n))
            ∙ ap some (law xs)
        | inr g ↦
            let p : 0 < policy.cutoff_count = positive policy v in
            let big : policy.cutoff_count < d = ground (arith, g) in
            let l1 = length-take (d / 2) xs (omega arith) in
            let l2 = length-drop (d / 2) xs in
            let xl = take (d / 2) xs in
            let xr = drop (d / 2) xs in
            let neg = λ (x : A). not (pred x) in
            let left =
              non_empty_lem fuel policy std_partition pred xl law v same (omega arith)
                (omega arith) in
            let right =
              non_empty_lem fuel policy std_partition pred xr law v same (omega arith)
                (omega arith) in
            let a = filter pred xl in
            let b = filter neg xl in
            let c = filter pred xr in
            let e = filter neg xr in
            let rot = rotate_lem policy (drop (length a) (a ++ b)) (take (length c) (c ++ e)) v in
            let yes : a ++ c ≡ filter pred xs =
              sym (filter-append pred xl xr) ∙ ap (filter pred) (take-append-drop (d / 2) xs) in
            let no : b ++ e ≡ filter neg xs =
              sym (filter-append neg xl xr) ∙ ap (filter neg) (take-append-drop (d / 2) xs) in
            let len : length a + length c ≡ length (filter pred xs) =
              sym (length-append a c) ∙ ap length yes in
            fork_run fuel policy std_partition pred xs (a ++ b) (c ++ e)
              (take (length c) (c ++ e) ++ drop (length a) (a ++ b)) (length a) (length c) g left
              right rot
            ∙ ap₂ (λ (zs : List A) (m : ℕ). some (zs, m))
                (exchange_lem a b c e ∙ ap₂ (λ (u v : List A). u ++ v) yes no) len
      ]

  empty_lem :
      (fuel : ℕ) (policy : Policy) (std_partition : (A → Bool) → List A → List A × ℕ)
      (pred : A → Bool) (xs : List A)
      → length xs ≡ 0
      → 0 < fuel
      → stable_partition_aux fuel policy std_partition pred xs ≡ none
  unfolding stable_partition_aux
  empty_lem zero policy std_partition pred xs z f = absurd (omega arith)
  empty_lem (suc fuel) policy std_partition pred xs z f =
      let a : leb (length xs) policy.cutoff_count ≡ true = ground arith in
      let b : ((policy.cutoff_count == policy.checkout_count) && ltb 0 (length xs)) ≡ false =
        ground arith in
      rw (a, b) refl

  -- With a valid policy of one count, and a standard library that partitions stably, the parallel
  -- partition of a range fails a check if the range is empty, when the fuel exceeds the number of
  -- elements. Otherwise it succeeds, whatever the cutoff, and gives the elements that pass the test
  -- and then the others, each in their order, and the place between.
  pub stable_partition_aux_lem :
      (fuel : ℕ) (policy : Policy) (std_partition : (A → Bool) → List A → List A × ℕ)
      (pred : A → Bool) (xs : List A)
      → ((ys : List A) → std_partition pred ys ≡ partitioned pred ys)
      → assert_policy policy ≡ true
      → policy.cutoff_count ≡ policy.checkout_count
      → length xs < fuel
      → stable_partition_aux fuel policy std_partition pred xs
        ≡ (if length xs == 0 then none else some (partitioned pred xs))
  stable_partition_aux_lem fuel policy std_partition pred xs law v same small =
      elim (Bool-cases (length xs == 0)) [
        | inl t ↦
            let run =
              empty_lem fuel policy std_partition pred xs (ground (arith, t)) (omega arith) in
            rw (t) run
        | inr g ↦
            let run =
              non_empty_lem fuel policy std_partition pred xs law v same (ground (arith, g))
                small in
            rw (g) run
      ]
