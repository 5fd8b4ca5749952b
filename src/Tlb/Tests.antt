-- ===== src/Tlb/Tests.antt =====
-- Runs of tlb.hpp's functions, and the theorems at concrete inputs.
use itoyori_github_io.Base.{ℕ, ◌*◌, ◌≡◌, ◌⊎◌, refl, Bool, true, [], ◌∷◌, ◌==◌, inr}
use itoyori_github_io.Tlb.{TlbEntry, Tlb, add, get, clear}
use itoyori_github_io.Tlb.Laws.{IsSound, get-IsSound}

abbrev te : ℕ → ℕ → ℕ → TlbEntry ℕ ℕ
te k e t = record { key = k; entry = e; timestamp = t }

-- Two slots in use; the invalid key is 1000.
abbrev full : Tlb ℕ ℕ
full = record { first = te 1000 1000 0; rest = te 1 2 3 ∷ te 4 8 2 ∷ []; timestamp = 4 }

abbrev key_eq : ℕ → ℕ → Bool
key_eq a b = a == b

-- The entry of key 4 is the older one and makes room for key 5.
add_test : (add key_eq 5 10 full).rest ≡ te 1 2 3 ∷ te 5 10 4 ∷ []
unfolding add
add_test = refl

get_test : (get (λ k. k == 1) full).1 ≡ 2
unfolding get
get_test = refl

clear_test : (get (λ k. k == 1) (clear full)).1 ≡ 1000
unfolding get clear
clear_test = refl

abbrev Doubles : ℕ → ℕ → Type 0
Doubles k e = e ≡ k * 2

get-IsSound_example :
    IsSound Doubles (get (λ k. k == 1) full).0
    × (((get (λ k. k == 1) full).1 ≡ 1000)
        ⊎ ((k : ℕ) × ((k == 1) ≡ true) × Doubles k (get (λ k. k == 1) full).1))
get-IsSound_example = get-IsSound Doubles (λ k. k == 1) full (inr refl, (inr refl, tt))
