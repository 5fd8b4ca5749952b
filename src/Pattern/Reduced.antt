-- ===== src/Pattern/Reduced.antt =====
-- The parallel reduction of pattern/parallel_reduce.hpp and the serial one.
use itoyori_github_io.Base.{
  ℕ, ◌+◌, ◌/◌, ◌<◌, ◌≡◌, refl, ap, ◌∙◌, sym, Bool, true, List, [], ◌∷◌, ◌++◌, Option, some, zero,
  suc, arith, length, ◌>>=◌, leb, Bool-cases, inl, inr,
}
use itoyori_github_io.Pattern.{Policy, assert_policy}
use itoyori_github_io.Pattern.Ranges.{take, drop, take-append-drop, length-take, length-drop}
use itoyori_github_io.Pattern.Reduce.{
  Reducer, accumulate_all, parallel_reduce_generic, reduce_generic,
}

-- The laws of a reducer: a monoid, in which an element is combined as its own accumulation.
pub record ReducerLaws {A C : Type 0} (r : Reducer A C) : Type 0 where
  pub combine_assoc : (a b c : C) → r.combine (r.combine a b) c ≡ r.combine a (r.combine b c)
  pub combine_identity : (a : C) → r.combine a r.identity ≡ a
  pub accumulates : (a : C) (x : A) → r.accumulate a x ≡ r.combine a (r.accumulate r.identity x)

module _ {A C : Type 0} (r : Reducer A C) where
  accumulate_all-append :
      (acc : C) (xs ys : List A)
      → accumulate_all r.accumulate acc (xs ++ ys)
        ≡ accumulate_all r.accumulate (accumulate_all r.accumulate acc xs) ys
  unfolding accumulate_all
  accumulate_all-append acc [] ys = refl
  accumulate_all-append acc (x ∷ xs) ys = accumulate_all-append (r.accumulate acc x) xs ys

  -- The accumulation of a range onto a value is the value combined with the range's own.
  combine-accumulate_all :
      ReducerLaws r
      → (acc : C) (xs : List A)
      → accumulate_all r.accumulate acc xs
        ≡ r.combine acc (accumulate_all r.accumulate r.identity xs)
  unfolding accumulate_all
  combine-accumulate_all l acc [] = sym (l.combine_identity acc)
  combine-accumulate_all l acc (x ∷ xs) =
      combine-accumulate_all l (r.accumulate acc x) xs
      ∙ ap (λ (c : C). r.combine c (accumulate_all r.accumulate r.identity xs))
          (l.accumulates acc x)
      ∙ l.combine_assoc acc (r.accumulate r.identity x) (accumulate_all r.accumulate r.identity xs)
      ∙ ap (r.combine acc) (sym (combine-accumulate_all l (r.accumulate r.identity x) xs))

  serial_lem :
      (fuel : ℕ) (policy : Policy) (serialized : ℕ → ℕ → Bool) (acc : C) (first : ℕ) (xs : List A)
      → ReducerLaws r
      → 0 < policy.cutoff_count
      → length xs < fuel
      → parallel_reduce_generic fuel policy r serialized acc first xs
        ≡ some (accumulate_all r.accumulate acc xs)
  serial_lem zero policy serialized acc first xs l p small = absurd (omega arith)
  serial_lem (suc fuel) policy serialized acc first xs l p small =
      let d = length xs in
      elim (Bool-cases (leb d policy.cutoff_count)) [
        | inl t ↦ unfold parallel_reduce_generic in rw (t) refl
        | inr g ↦
            let big : policy.cutoff_count < d = ground (arith, g) in
            let l1 = length-take (d / 2) xs (omega arith) in
            let l2 = length-drop (d / 2) xs in
            let all = accumulate_all r.accumulate in
            let left =
              serial_lem fuel policy serialized acc first (take (d / 2) xs) l p (omega arith) in
            let right : (a : C)
                → parallel_reduce_generic fuel policy r serialized a (first + d / 2)
                    (drop (d / 2) xs)
                  ≡ some (all a (drop (d / 2) xs)) =
              λ a.
                serial_lem fuel policy serialized a (first + d / 2) (drop (d / 2) xs) l p
                  (omega arith) in
            let whole : all (all acc (take (d / 2) xs)) (drop (d / 2) xs) ≡ all acc xs =
              sym (accumulate_all-append acc (take (d / 2) xs) (drop (d / 2) xs))
              ∙ ap (all acc) (take-append-drop (d / 2) xs) in
            elim (Bool-cases (serialized first d)) [
              | inl s ↦
                  let go : C → Option C = λ a.
                    parallel_reduce_generic fuel policy r serialized a (first + d / 2)
                      (drop (d / 2) xs) in
                  let run : parallel_reduce_generic (suc fuel) policy r serialized acc first xs ≡ (
                      parallel_reduce_generic fuel policy r serialized acc first (take (d / 2) xs)
                      >>= go) =
                    unfold parallel_reduce_generic in rw (g, s) refl in
                  run
                  ∙ ap (λ (o : Option C). o >>= go) left
                  ∙ right (all acc (take (d / 2) xs))
                  ∙ ap some whole
              | inr s ↦
                  let go : C → Option C = λ a.
                    parallel_reduce_generic fuel policy r serialized a (first + d / 2)
                      (drop (d / 2) xs) in
                  let half =
                    parallel_reduce_generic fuel policy r serialized acc first (take (d / 2) xs) in
                  let run : parallel_reduce_generic (suc fuel) policy r serialized acc first xs ≡ (
                      go r.identity >>= λ acc_r. half >>= λ acc_l. some (r.combine acc_l acc_r)) =
                    unfold parallel_reduce_generic in rw (g, s) refl in
                  run
                  ∙ ap
                      (λ (o : Option C).
                        o >>= λ acc_r. half >>= λ acc_l. some (r.combine acc_l acc_r))
                      (right r.identity)
                  ∙ ap
                      (λ (o : Option C).
                        o >>= λ acc_l. some (r.combine acc_l (all r.identity (drop (d / 2) xs))))
                      left
                  ∙ ap some (
                      sym (combine-accumulate_all l (all acc (take (d / 2) xs)) (drop (d / 2) xs))
                      ∙ whole)
            ]
      ]

-- With a valid policy and a reducer that keeps to its laws, the parallel reduction gives what the
-- serial loop over the whole range gives, whatever the cutoff and whichever threads are serialized.
pub reduce_generic_lem :
    {A C : Type 0} (policy : Policy) (r : Reducer A C) (serialized : ℕ → ℕ → Bool) (acc : C)
    (xs : List A)
    → ReducerLaws r
    → assert_policy policy ≡ true
    → reduce_generic policy r serialized acc xs ≡ some (accumulate_all r.accumulate acc xs)
reduce_generic_lem policy r serialized acc xs l v =
    let p : 0 < policy.cutoff_count = unfold assert_policy in ground (arith, v) in
    let run : reduce_generic policy r serialized acc xs
        ≡ parallel_reduce_generic (suc (length xs)) policy r serialized acc 0 xs =
      unfold reduce_generic in rw (v) refl in
    run ∙ serial_lem r (suc (length xs)) policy serialized acc 0 xs l p (omega arith)
