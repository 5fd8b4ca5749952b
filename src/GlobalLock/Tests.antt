-- ===== src/GlobalLock/Tests.antt =====
-- The lock of global_lock.hpp with the owner and two other processes.
use itoyori_github_io.Base.{ℕ, ◌≤◌, ◌≡◌, ◌⊎◌, refl, Bool, true, false, some, [], ◌∷◌, arith}
use itoyori_github_io.GlobalLock.{
  Locks, idle, waiting, Reachable, start, after, trylock, priolock_add, priolock_done, unlock,
  is_locked, other_trylock, owner_priolock, other_unlock,
}
use itoyori_github_io.GlobalLock.Exclusion.{holders, mutual_exclusion, priolock_progress}

abbrev quiet : Locks
quiet = record { word = 0; owner = idle; others = false ∷ false ∷ [] }

abbrev taken : Locks
taken = record { word = 1; owner = idle; others = false ∷ true ∷ [] }

abbrev contended : Locks
contended = record { word = 2; owner = waiting; others = false ∷ true ∷ [] }

abbrev released : Locks
released = record { word = 1; owner = waiting; others = false ∷ false ∷ [] }

-- The second process takes the lock while the owner starts to wait.
contended_lem : Reachable quiet contended
unfolding trylock priolock_add
contended_lem =
    after taken contended (after quiet taken start (other_trylock 1 true 1 refl refl))
      (owner_priolock refl)

released_lem : Reachable quiet released
unfolding unlock
released_lem = after contended released contended_lem (other_unlock 1 1 refl refl)

mutual_exclusion_example :
    (holders contended ≤ 1)
    × ((holders contended ≡ 0) ⊎ (is_locked contended.word ≡ true))
    × ((got : Bool) × (w : ℕ) × (trylock contended.word ≡ some (got, w)))
mutual_exclusion_example = mutual_exclusion quiet contended (refl, omega arith) contended_lem

priolock_progress_example : priolock_done released.word ≡ true
priolock_progress_example =
    priolock_progress quiet released (refl, omega arith) released_lem refl refl
