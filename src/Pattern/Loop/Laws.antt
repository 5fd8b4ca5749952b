-- ===== src/Pattern/Loop/Laws.antt =====
-- The parallel loop of pattern/parallel_loop.hpp and the serial one.
use mathlib.Core.Path.{fun_ext}
use itoyori_github_io.Base.{
  ℕ, ◌+◌, ◌-◌, ◌/◌, ◌<◌, ◌≤◌, ◌≡◌, refl, ap, ◌∙◌, sym, Option, some, zero, suc, arith, Option-cases,
  inl, inr, ◌>>=◌, Bool-cases, leb, ltb, true, false, Bool, min,
}
use itoyori_github_io.Pattern.{Policy, assert_policy}
use itoyori_github_io.Pattern.Loop.{
  apply_iterators, chunks, for_each_aux, parallel_loop_generic, loop_generic,
}

module _ {S : Type 0} where
  -- A serial loop is one over its first indices and one over the rest.
  apply_iterators-add :
      (op : ℕ → S → Option S) (a b lo : ℕ) (s : S)
      → apply_iterators op (a + b) lo s
        ≡ (apply_iterators op a lo s >>= λ s1. apply_iterators op b (lo + a) s1)
  unfolding apply_iterators
  apply_iterators-add op zero b lo s =
      let z : lo ≡ lo + 0 = omega arith in
      let y : 0 + b ≡ b = omega arith in
      ap (λ (t : ℕ). apply_iterators op t lo s) y ∙ ap (λ (t : ℕ). apply_iterators op b t s) z
  apply_iterators-add op (suc a) b lo s =
      let y : suc a + b ≡ suc (a + b) = omega arith in
      ap (λ (t : ℕ). apply_iterators op t lo s) y ∙ elim (Option-cases (op lo s)) [
        | inl n ↦ rw (n) refl
        | inr (s1, e) ↦
            let z : lo + 1 + a ≡ lo + suc a = omega arith in
            let ih = apply_iterators-add op a b (lo + 1) s1 in
            let run : (op lo s >>= λ s2. apply_iterators op (a + b) (lo + 1) s2)
                ≡ apply_iterators op (a + b) (lo + 1) s1 =
              ap (λ (o : Option S). o >>= λ s2. apply_iterators op (a + b) (lo + 1) s2) e in
            let run' : ((op lo s >>= λ s2. apply_iterators op a (lo + 1) s2) >>= λ s3.
            apply_iterators op b (lo + suc a) s3)
                ≡ (apply_iterators op a (lo + 1) s1 >>= λ s3.
                    apply_iterators op b (lo + suc a) s3) =
              ap
                (λ (o : Option S). (o >>= λ s2. apply_iterators op a (lo + 1) s2) >>= λ s3.
                  apply_iterators op b (lo + suc a) s3)
                e in
            run
            ∙ ih
            ∙ ap (λ (t : ℕ). apply_iterators op a (lo + 1) s1 >>= λ s3. apply_iterators op b t s3) z
            ∙ sym run'
      ]

  chunks_zero :
      (fuel c : ℕ) (op : ℕ → S → Option S) (lo : ℕ) (s : S) → chunks fuel c op 0 lo s ≡ some s
  unfolding chunks
  chunks_zero zero c op lo s = refl
  chunks_zero (suc fuel) c op lo s = refl

  -- With chunks that are not empty, the loop over them is the loop over their elements.
  chunks_lem :
      (fuel c : ℕ) (op : ℕ → S → Option S) (n lo : ℕ) (s : S)
      → 0 < c
      → n ≤ fuel
      → chunks fuel c op n lo s ≡ apply_iterators op n lo s
  unfolding chunks
  chunks_lem fuel c op zero lo s p h = chunks_zero fuel c op lo s
  chunks_lem zero c op (suc n) lo s p h = absurd (omega arith)
  chunks_lem (suc fuel) c op (suc n) lo s p h =
      let n_ = min (suc n) c in
      let a : ltb 0 (suc n) ≡ true = ground arith in
      let b : ltb 0 n_ ≡ true = ground (arith, p) in
      let small : suc n - n_ ≤ fuel = omega (arith, p, h) in
      let whole : n_ + (suc n - n_) ≡ suc n = omega arith in
      let rest : (λ (s1 : S). chunks fuel c op (suc n - n_) (lo + n_) s1)
          ≡ (λ (s1 : S). apply_iterators op (suc n - n_) (lo + n_) s1) =
        fun_ext (λ s1. chunks_lem fuel c op (suc n - n_) (lo + n_) s1 p small) in
      rw (a, b)
        (ap (λ (k : S → Option S). apply_iterators op n_ lo s >>= k) rest
          ∙ sym (apply_iterators-add op n_ (suc n - n_) lo s)
          ∙ ap (λ (t : ℕ). apply_iterators op t lo s) whole)

  for_each_aux_lem :
      (c : ℕ) (nc : Bool) (op : ℕ → S → Option S) (n lo : ℕ) (s : S)
      → 0 < c
      → for_each_aux c nc op n lo s ≡ apply_iterators op n lo s
  unfolding for_each_aux
  for_each_aux_lem c true op n lo s p = chunks_lem n c op n lo s p (omega arith)
  for_each_aux_lem c false op n lo s p = refl

  parallel_loop_serial :
      (fuel : ℕ) (policy : Policy) (nc : Bool) (op : ℕ → S → Option S) (lo d : ℕ) (s : S)
      → 0 < policy.cutoff_count
      → 0 < policy.checkout_count
      → d < fuel
      → parallel_loop_generic fuel policy nc op lo d s ≡ apply_iterators op d lo s
  unfolding parallel_loop_generic
  parallel_loop_serial zero policy nc op lo d s p c f = absurd (omega arith)
  parallel_loop_serial (suc fuel) policy nc op lo d s p c f =
      elim (Bool-cases (leb d policy.cutoff_count)) [
        | inl t ↦ rw (t) (for_each_aux_lem policy.checkout_count nc op d lo s c)
        | inr g ↦
            let big : policy.cutoff_count < d = ground (arith, g) in
            let half : d / 2 < fuel = omega arith in
            let rest : d - d / 2 < fuel = omega arith in
            let whole : d / 2 + (d - d / 2) ≡ d = omega arith in
            let left = parallel_loop_serial fuel policy nc op lo (d / 2) s p c half in
            let right : (λ (s1 : S).
              parallel_loop_generic fuel policy nc op (lo + d / 2) (d - d / 2) s1)
                ≡ (λ (s1 : S). apply_iterators op (d - d / 2) (lo + d / 2) s1) =
              fun_ext (λ s1.
                parallel_loop_serial fuel policy nc op (lo + d / 2) (d - d / 2) s1 p c rest) in
            rw (g) (
              ap
                (λ (o : Option S).
                  o >>= λ s1. parallel_loop_generic fuel policy nc op (lo + d / 2) (d - d / 2) s1)
                left
              ∙ ap (λ (k : S → Option S). apply_iterators op (d / 2) lo s >>= k) right
              ∙ sym (apply_iterators-add op (d / 2) (d - d / 2) lo s)
              ∙ ap (λ (t : ℕ). apply_iterators op t lo s) whole)
      ]

  -- With a valid policy the parallel loop does what the serial loop does, whatever the cutoff: the
  -- fuel is enough, no index is left out, and none comes twice.
  pub loop_generic_lem :
      (policy : Policy) (nc : Bool) (op : ℕ → S → Option S) (d : ℕ) (s : S)
      → assert_policy policy ≡ true
      → loop_generic policy nc op d s ≡ apply_iterators op d 0 s
  unfolding loop_generic assert_policy
  loop_generic_lem policy nc op d s v =
      let p : 0 < policy.cutoff_count = ground (arith, v) in
      let c : 0 < policy.checkout_count = ground (arith, v) in
      rw (v) (parallel_loop_serial (suc d) policy nc op 0 d s p c (omega arith))
