-- ===== src/CacheSystem/Tests.antt =====
-- Runs of cache_system.hpp's functions, and the theorems at concrete inputs.
use itoyori_github_io.Base.{ℕ, ◌≡◌, refl, Bool, true, false, Option, some, [], ◌∷◌, ◌>>=◌}
use itoyori_github_io.Base.Assoc.{find, assign, erase}
use itoyori_github_io.CacheSystem.{
  EntryOps, CacheSystem, init, is_cached, get_empty_slot, release_slot, fill_slot, touch,
  move_to_back_lru, ensure_cached, ensure_evicted,
}
use itoyori_github_io.CacheSystem.Cached.{Ensures, ensure_cached_lem}
use itoyori_github_io.CacheSystem.Evicted.{init-Inv, Evicts, ensure_evicted_lem}
use itoyori_github_io.CacheSystem.Order.{Reuses, ensure_cached_lru}

-- An entry that is its evictable flag, as in the source's test.
abbrev flag_ops : EntryOps Bool
flag_ops = record { is_evictable = λ e. e; on_evict = λ e. e; on_cache_map = λ i e. e }

abbrev empty_cache : CacheSystem Bool
empty_cache = init 2 true

abbrev cached : ℕ → CacheSystem Bool → Option (CacheSystem Bool)
cached key c = ensure_cached flag_ops true key c >>= λ (c', i). some c'

-- Two slots: key 5 is the oldest when key 7 comes.
lru_test :
    (cached 5 empty_cache >>= cached 6 >>= cached 7 >>= λ c. some (is_cached 5 c)) ≡ some false
unfolding init is_cached ensure_cached get_empty_slot release_slot fill_slot touch move_to_back_lru
    find assign erase
lru_test = refl

ensure_cached_lem_example :
    Ensures flag_ops empty_cache 5 (ensure_cached flag_ops true 5 empty_cache)
ensure_cached_lem_example = ensure_cached_lem flag_ops true 5 empty_cache (init-Inv 2 true)

ensure_evicted_lem_example : Evicts flag_ops empty_cache 5 (ensure_evicted flag_ops 5 empty_cache)
ensure_evicted_lem_example = ensure_evicted_lem flag_ops 5 empty_cache (init-Inv 2 true)

abbrev one_cached : CacheSystem Bool
one_cached = record {
  nentries = 2;
  entry_initial_state = true;
  entries =
      record { allocated = true; key = 5; entry = true; idx = 0 }
      ∷ record { allocated = false; key = 0; entry = true; idx = 1 }
      ∷ [];
  lru = 1 ∷ 0 ∷ [];
  table = (5, 0) ∷ [];
}

ensure_cached_lru_example : Reuses flag_ops empty_cache one_cached 0
unfolding init ensure_cached get_empty_slot fill_slot touch move_to_back_lru find assign
ensure_cached_lru_example =
    ensure_cached_lru flag_ops 5 0 empty_cache one_cached (init-Inv 2 true) refl refl
