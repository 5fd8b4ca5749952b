-- ===== src/WsQueue/Tests.antt =====
-- Runs of wsqueue.hpp's operations on queues of numbers, and the theorems at concrete inputs.
use itoyori_github_io.Base.{
  ℕ, ◌<◌, ◌≡◌, ◌⊎◌, refl, inl, inr, true, false, Option, none, some, List, [], ◌∷◌, ◌++◌, arith,
}
use itoyori_github_io.WsQueue.{WsQueue, done, full, stuck, push, pop, steal, trypass}
use itoyori_github_io.WsQueue.Moves.{contents, IsValid}
use itoyori_github_io.WsQueue.Owner.{Pops, push_lem, pop_lem}
use itoyori_github_io.WsQueue.Thief.{steal_lem, trypass_lem}

abbrev queue : ℕ → ℕ → List ℕ → WsQueue ℕ
queue b t xs = record {
  n_entries = 4;
  initial_pos = 2;
  top = t;
  base = b;
  entries = xs;
  lock = 0;
  local_empty = false;
}

abbrev two : WsQueue ℕ
two = queue 2 4 (0 ∷ 0 ∷ 7 ∷ 8 ∷ [])

-- The array is full behind: the entries move to the start.
push_test : push true 9 two ≡ done (queue 1 4 (0 ∷ 7 ∷ 8 ∷ 9 ∷ [])) tt
unfolding push
push_test = refl

push-full_test :
    push true 9 (queue 0 4 (5 ∷ 6 ∷ 7 ∷ 8 ∷ []))
    ≡ full (record (queue 0 4 (5 ∷ 6 ∷ 7 ∷ 8 ∷ [])) { lock = 1 })
unfolding push
push-full_test = refl

pop_test : pop true true two ≡ done (queue 2 3 (0 ∷ 0 ∷ 7 ∷ 8 ∷ [])) (some 8)
unfolding pop
pop_test = refl

steal_test : steal two ≡ done (queue 3 4 (0 ∷ 0 ∷ 7 ∷ 8 ∷ [])) (some 7)
unfolding steal
steal_test = refl

trypass_test : trypass true 6 two ≡ done (queue 1 4 (0 ∷ 6 ∷ 7 ∷ 8 ∷ [])) true
unfolding trypass
trypass_test = refl

abbrev twenty : WsQueue ℕ
twenty = record {
  n_entries = 20;
  initial_pos = 10;
  top = 16;
  base = 1;
  entries =
      0 ∷ 1 ∷ 2 ∷ 3 ∷ 4 ∷ 5 ∷ 6 ∷ 7 ∷ 8 ∷ 9 ∷ 10 ∷ 11 ∷ 12 ∷ 13 ∷ 14 ∷ 15 ∷ 16 ∷ 17 ∷ 18 ∷ 19 ∷ [];
  lock = 0;
  local_empty = false;
}

-- 15 entries would move by 2: the source of `std::move` contains its target.
pop_overlap_test : pop true true twenty ≡ stuck
unfolding pop
pop_overlap_test = refl

push_lem_example :
    ((push true 9 two ≡ full (record two { lock = 1 }))
      × (two.base ≡ 0)
      × (two.top ≡ two.n_entries))
    ⊎ ((q' : WsQueue ℕ) × (push true 9 two ≡ done q' tt)
        × IsValid true q'
        × (contents q' ≡ contents two ++ (9 ∷ [])))
push_lem_example =
    push_lem true 9 two (omega arith, omega arith, omega arith, refl, refl, inl refl) (omega arith)

pop_lem_example :
    (q' : WsQueue ℕ) × (r : Option ℕ) × (pop true true two ≡ done q' r)
    × IsValid true q'
    × Pops two q' r
pop_lem_example =
    pop_lem true true two (omega arith, omega arith, omega arith, refl, refl, inl refl)
      (inr (inl (omega arith)))

steal_lem_example :
    ((steal two ≡ done two none) × (contents two ≡ []))
    ⊎ ((q' : WsQueue ℕ) × (e : ℕ) × (steal two ≡ done q' (some e))
        × IsValid true q'
        × (contents two ≡ e ∷ contents q'))
steal_lem_example = steal_lem true two (omega arith, omega arith, omega arith, refl, refl, inl refl)

abbrev locked : ℕ → WsQueue ℕ
locked b = record (queue b 4 (0 ∷ 0 ∷ 7 ∷ 8 ∷ [])) { lock = 1 }

trypass_lem_example :
    ((trypass true 6 two ≡ done two false) × (two.base ≡ 0))
    ⊎ ((q' : WsQueue ℕ) × (trypass true 6 two ≡ done q' true)
        × (0 < two.base)
        × IsValid true q'
        × (contents q' ≡ 6 ∷ contents two))
trypass_lem_example =
    trypass_lem 6 two (omega arith, omega arith, omega arith, refl, refl, inl refl)
