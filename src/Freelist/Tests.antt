-- ===== src/Freelist/Tests.antt =====
-- Runs of freelist.hpp's functions, and the theorems at concrete inputs.
use itoyori_github_io.Base.{◌≡◌, refl, some, [], ◌∷◌, arith}
use itoyori_github_io.Pow2.{is_pow2, round_up_pow2}
use itoyori_github_io.Freelist.{Freelist, entry, init, get, add, add_loop, get_aligned, count}
use itoyori_github_io.Freelist.Get.{Gets, get-Gets}
use itoyori_github_io.Freelist.Add.{Gives, add-Gives}
use itoyori_github_io.Freelist.Aligned.{GetsAligned, get_aligned-GetsAligned}

-- 100 to 150 and 200 to 1000
abbrev two : Freelist
two = entry 100 50 ∷ entry 200 800 ∷ []

get_test : get 100 (init 100 920) ≡ some (100, entry 200 820 ∷ [])
unfolding get init
get_test = refl

aligned_test :
    get_aligned 40 64 two ≡ some (some 256, entry 100 50 ∷ entry 200 56 ∷ entry 296 704 ∷ [])
unfolding get_aligned get add is_pow2 round_up_pow2 add_loop
aligned_test = refl

add_test : count (add 150 50 two) ≡ 1
unfolding add count add_loop
add_test = refl

get-Gets_example : Gets 0 60 two (get 60 two)
get-Gets_example = get-Gets 60 two (omega arith) (omega arith)

add-Gives_example : Gives 0 150 20 two (add 150 20 two)
add-Gives_example = add-Gives 150 20 two (omega arith) (omega arith) (λ i. ground arith)

get_aligned-GetsAligned_example : GetsAligned 40 64 two (get_aligned 40 64 two)
get_aligned-GetsAligned_example =
    get_aligned-GetsAligned 40 6 two (omega arith) (omega arith) (omega arith) (omega arith)
