-- ===== src/GlobalLock.antt =====
-- include/ityr/common/global_lock.hpp: one lock word that processes take with trylock and priolock, as
-- steps of the word. A step is one remote atomic operation.
pub mod Exclusion
mod Tests
use itoyori_github_io.Base.{
  ℕ, ◌+◌, ◌-◌, ◌≡◌, Bool, true, false, Option, none, some, List, ltb, leb, ◌==◌, if◌then◌else◌,
  get_elem?, set,
}

-- `trylock`: the result and the word after it. `none` is the failed check of the old value.
unfoldable pub trylock : ℕ → Option (Bool × ℕ)
trylock word = if leb word 2 then some (word == 0, if word == 0 then 1 else word) else none

-- The first part of `priolock`: whether the lock is taken at once, and the word.
unfoldable pub priolock_add : ℕ → Bool × ℕ
priolock_add word = (word == 0, word + 1)

-- The test of the loop of `priolock`: the wait is over.
unfoldable pub priolock_done : ℕ → Bool
priolock_done word = word == 1

-- `unlock`; `none` is a word that would become negative.
unfoldable pub unlock : ℕ → Option ℕ
unlock word = if word == 0 then none else some (word - 1)

unfoldable pub is_locked : ℕ → Bool
is_locked word = ltb 0 word

-- Where a process that may call `priolock` stands.
pub data Phase : Type 0 where
  idle : Phase
  waiting : Phase
  holding : Phase

-- The word, the one process that may call `priolock`, and for each other process whether it holds the
-- lock.
pub record Locks : Type 0 where
  pub word : ℕ
  pub owner : Phase
  pub others : List Bool

-- A failed `trylock` changes nothing; `lock` repeats it.
pub data Step (s : Locks) : Locks → Type 0 where
  owner_trylock :
      (got : Bool) (w : ℕ)
      → s.owner ≡ idle
      → trylock s.word ≡ some (got, w)
      → Step s (record s { word = w; owner = if got then holding else idle })
  other_trylock :
      (i : ℕ) (got : Bool) (w : ℕ)
      → get_elem? s.others i ≡ some false
      → trylock s.word ≡ some (got, w)
      → Step s (record s { word = w; others = set s.others i got })
  owner_priolock :
      s.owner ≡ idle
      → Step s (record s {
        word = (priolock_add s.word).1;
        owner = if (priolock_add s.word).0 then holding else waiting;
      })
  owner_waited :
      s.owner ≡ waiting → priolock_done s.word ≡ true → Step s (record s { owner = holding })
  owner_unlock :
      (w : ℕ)
      → s.owner ≡ holding
      → unlock s.word ≡ some w
      → Step s (record s { word = w; owner = idle })
  other_unlock :
      (i w : ℕ)
      → get_elem? s.others i ≡ some true
      → unlock s.word ≡ some w
      → Step s (record s { word = w; others = set s.others i false })

-- What can be reached from `s`.
pub data Reachable (s : Locks) : Locks → Type 0 where
  start : Reachable s s
  after : (t u : Locks) → Reachable s t → Step t u → Reachable s u
