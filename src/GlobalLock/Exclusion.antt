-- ===== src/GlobalLock/Exclusion.antt =====
-- Mutual exclusion of the lock of global_lock.hpp, by an invariant of its steps.
use mathlib.Core.Option.{some-injective}
use itoyori_github_io.Base.{
  ℕ, zero, suc, ◌+◌, ◌≤◌, ◌≡◌, ◌⊎◌, sym, ap, subst, inl, inr, Bool, true, false, none, some, List,
  [], ◌∷◌, arith, ltb, leb, ◌==◌, if◌then◌else◌, get_elem?, set, Bool-cases, ◌∙◌,
}
use itoyori_github_io.GlobalLock.{
  Locks, Phase, idle, waiting, holding, Step, Reachable, start, after, trylock, priolock_add,
  priolock_done, unlock, is_locked, owner_trylock, other_trylock, owner_priolock, owner_waited,
  owner_unlock, other_unlock,
}

abbrev pub bit : Bool → ℕ
bit true = 1
bit false = 0

-- How many other processes hold the lock.
abbrev pub count : List Bool → ℕ
count [] = 0
count (b ∷ bs) = bit b + count bs

abbrev pub held : Phase → ℕ
held idle = 0
held waiting = 0
held holding = 1

-- What a phase has added to the word.
abbrev pub added : Phase → ℕ
added idle = 0
added waiting = 1
added holding = 1

abbrev pub holders : Locks → ℕ
holders s = held s.owner + count s.others

-- The word is the number of the processes that hold the lock or wait, and one holds it at most.
abbrev pub IsConsistent : Locks → Type 0
IsConsistent s = (s.word ≡ added s.owner + count s.others) × (holders s ≤ 1)

count-set :
    (bs : List Bool) (i : ℕ) (a b : Bool)
    → get_elem? bs i ≡ some a
    → count (set bs i b) + bit a ≡ count bs + bit b
count-set [] i a b h = absurd (cc)
count-set (x ∷ bs) zero a b h =
    let e : bit x ≡ bit a = ap bit (some-injective x a h) in omega (arith, e)
count-set (x ∷ bs) (suc i) a b h = omega (arith, count-set bs i a b h)

none-ne-some : {A : Type 0} {a : A} → none ≡ some a → ⊥
none-ne-some h = cc

-- What an answer of `trylock` says.
trylock_cases :
    (word w : ℕ) (got : Bool)
    → trylock word ≡ some (got, w)
    → ((got ≡ true) × (word ≡ 0) × (w ≡ 1)) ⊎ ((got ≡ false) × (w ≡ word))
unfolding trylock
trylock_cases word w got h = elim (Bool-cases (leb word 2)) [
  | inr f ↦ absurd (none-ne-some (sym (rw (trylock, f)) ∙ h))
  | inl t ↦
      let answer : some (word == 0, if word == 0 then 1 else word) ≡ some (got, w) =
        sym (rw (trylock, t)) ∙ h in
      let p =
        some-injective {A = Bool × ℕ} (word == 0, if word == 0 then 1 else word) (got, w) answer in
      let same : (word == 0) ≡ got = ap (λ r. r.0) p in
      let next : (if word == 0 then 1 else word) ≡ w = ap (λ r. r.1) p in ground (arith, same, next)
]

unlock_cases : (word w : ℕ) → unlock word ≡ some w → word ≡ suc w
unfolding unlock
unlock_cases word w h = ground (arith, h)

held-le-added : (p : Phase) → held p ≤ added p
held-le-added idle = omega arith
held-le-added waiting = omega arith
held-le-added holding = omega arith

-- The invariant where the owner's phase is known.
abbrev Fits : ℕ → ℕ → Phase → Type 0
Fits word n p = (word ≡ added p + n) × (held p + n ≤ 1)

-- Every step keeps the lock consistent.
pub IsConsistent-Step : (s : Locks) {t : Locks} → Step s t → IsConsistent s → IsConsistent t
unfolding priolock_add priolock_done
IsConsistent-Step s (owner_trylock got w e run) (word, one) =
    let (word', one') = subst (Fits s.word (count s.others)) e (word, one) in
    elim (trylock_cases s.word w got run) [
      | inl (g, z, o) ↦
          subst (λ b. Fits w (count s.others) (if b then holding else idle)) (sym g)
            (omega arith, omega arith)
      | inr (g, z) ↦
          subst (λ b. Fits w (count s.others) (if b then holding else idle)) (sym g)
            (omega arith, omega arith)
    ]
IsConsistent-Step s (other_trylock i got w e run) (word, one) =
    let grown = count-set s.others i false got e in
    elim (trylock_cases s.word w got run) [
      | inl (g, z, o) ↦
          let one_more : bit got ≡ 1 = ap bit g in
          let fewer : held s.owner ≤ added s.owner = held-le-added s.owner in
          (omega arith, omega arith)
      | inr (g, z) ↦ let no_more : bit got ≡ 0 = ap bit g in (omega arith, omega arith)
    ]
IsConsistent-Step s (owner_priolock e) (word, one) =
    let (word', one') = subst (Fits s.word (count s.others)) e (word, one) in
    elim (Bool-cases (s.word == 0)) [
      | inl t ↦
          subst (λ b. Fits (s.word + 1) (count s.others) (if b then holding else waiting)) (sym t)
            (omega arith, ground (arith, t))
      | inr f ↦
          subst (λ b. Fits (s.word + 1) (count s.others) (if b then holding else waiting)) (sym f)
            (omega arith, omega arith)
    ]
IsConsistent-Step s (owner_waited e over) (word, one) =
    let (word', one') = subst (Fits s.word (count s.others)) e (word, one) in
    let single : s.word ≡ 1 = ground (arith, over) in (omega arith, omega arith)
IsConsistent-Step s (owner_unlock w e run) (word, one) =
    let (word', one') = subst (Fits s.word (count s.others)) e (word, one) in
    let fewer = unlock_cases s.word w run in (omega arith, omega arith)
IsConsistent-Step s (other_unlock i w e run) (word, one) =
    let fewer = unlock_cases s.word w run in
    let left = count-set s.others i true false e in (omega arith, omega arith)

pub Reachable-IsConsistent : (s t : Locks) → Reachable s t → IsConsistent s → IsConsistent t
Reachable-IsConsistent s t start c = c
Reachable-IsConsistent s t (after m _ r step) c =
    IsConsistent-Step m step (Reachable-IsConsistent s m r c)

added-le-held : (p : Phase) → added p ≤ held p + 1
added-le-held idle = omega arith
added-le-held waiting = omega arith
added-le-held holding = omega arith

-- From a consistent lock on, at any time, one process holds the lock at most, the word is non-zero while
-- one does, and the checks of `trylock` pass.
pub mutual_exclusion :
    (s t : Locks)
    → IsConsistent s
    → Reachable s t
    → (holders t ≤ 1)
      × ((holders t ≡ 0) ⊎ (is_locked t.word ≡ true))
      × ((got : Bool) × (w : ℕ) × (trylock t.word ≡ some (got, w)))
unfolding is_locked trylock
mutual_exclusion s t c r =
    let (word, one) = Reachable-IsConsistent s t r c in
    let fewer = held-le-added t.owner in
    let more = added-le-held t.owner in
    let small : leb t.word 2 ≡ true = ground (arith, word, one, more) in
    (
      one,
      elim (Bool-cases (ltb 0 t.word)) [
        | inl h ↦ inr h
        | inr h ↦ inl (ground (arith, h, word, fewer))
      ],
      (t.word == 0, (if t.word == 0 then 1 else t.word), rw (trylock, small)),
    )

-- From a consistent lock on, a process that waits in `priolock` finds its wait over as soon as nobody
-- holds the lock.
pub priolock_progress :
    (s t : Locks)
    → IsConsistent s
    → Reachable s t
    → t.owner ≡ waiting
    → holders t ≡ 0
    → priolock_done t.word ≡ true
unfolding priolock_done
priolock_progress s t c r e none_holds =
    let (word, one) = Reachable-IsConsistent s t r c in
    let (word', one') = subst (Fits t.word (count t.others)) e (word, one) in
    let none_held : held t.owner ≡ 0 = ap held e in ground (arith, word', none_holds, none_held)
