-- ===== src/CacheManager/Tests.antt =====
-- Runs of cache_manager.hpp's operations on a cache of two blocks, and the theorems at concrete inputs.
use itoyori_github_io.CacheManager.Sent.{SentHome}
use itoyori_github_io.CacheSystem.{Slot}
use itoyori_github_io.CacheSystem.Inv as CI
use itoyori_github_io.CacheSystem.{ensure_cached}
use itoyori_github_io.Pow2.{round_down_pow2, round_up_pow2}
use itoyori_github_io.RegionSet.{add_after, get_union, merge_next, region, region_size}
use itoyori_github_io.CacheManager.{Block, Manager, Request, slot}
use itoyori_github_io.CacheManager.Writeback.{ensure_all_cache_clean, add_dirty_region}
use itoyori_github_io.CacheManager.Fetch.{fetch_begin, owner_in_range}
use itoyori_github_io.CacheManager.Lookup.{get_entry, cache_key}
use itoyori_github_io.CacheManager.Checkout.{checkout_blk, checkin_blk, request_ok}
use itoyori_github_io.CacheManager.Release.{acquire}
use itoyori_github_io.CacheManager.Inv.{IsConsistent, SlotIsSound}
use itoyori_github_io.CacheManager.Cleaning.{Cleans, ensure_all_cache_clean_lem}
use itoyori_github_io.CacheManager.Blocks.{AllHeld, Finds, get_entry_lem}
use itoyori_github_io.CacheManager.Fetched.{IsSized, Fetches, fetch_begin_lem}
use itoyori_github_io.CacheManager.CheckedOut.{Holds}
use itoyori_github_io.CacheManager.CheckedIn.{Dirties}
use itoyori_github_io.CacheManager.Dirtying.{add_dirty_region_lem}
use itoyori_github_io.CacheManager.Checkin.{ChecksIn, checkin_blk_lem}
use itoyori_github_io.CacheManager.Acquired.{Acquires, acquire_lem}
use itoyori_github_io.Base.Assoc.{find}
use mathlib.Core.Option.{some-injective}
use itoyori_github_io.Base.{
  ℕ, List, [], ◌∷◌, suc, zero, Option, some, none, true, false, ◌≡◌, arith, refl, ◌⊎◌, inl, inr,
  subst, Bool-cases, ◌==◌, get_elem?-at, ==→eq, Bool,
}

-- The block at address 128 has valid and dirty bytes, and `n` threads use it.
abbrev cached : ℕ → Slot Block
cached n = record {
  allocated = true;
  key = 2;
  entry = record {
    entry_idx = 0;
    addr = 128;
    mapped_addr = 128;
    win = 7;
    owner = some 1;
    pm_offset = 256;
    ref_count = n;
    writeback_epoch = 0;
    valid_regions = region 0 32 ∷ [];
    dirty_regions = region 4 8 ∷ [];
  };
  idx = 0;
}

abbrev unused : Slot Block
unused = record {
  allocated = false;
  key = 0;
  entry = record {
    entry_idx = 0;
    addr = 0;
    mapped_addr = 0;
    win = 0;
    owner = none;
    pm_offset = 0;
    ref_count = 0;
    writeback_epoch = 0;
    valid_regions = [];
    dirty_regions = [];
  };
  idx = 1;
}

abbrev two_blocks : ℕ → Manager
two_blocks n = record {
  enable_vm_map = true;
  enable_write_through = false;
  enable_lazy_release = true;
  block_size = 64;
  sub_block_size = 16;
  n_ranks = 2;
  cs = record {
    nentries = 2;
    entry_initial_state = unused.entry;
    entries = cached n ∷ unused ∷ [];
    lru = 1 ∷ 0 ∷ [];
    table = (2, 0) ∷ [];
  };
  cache_tlb = record {
    first = record { key = 0; entry = none; timestamp = 0 };
    rest = [];
    timestamp = 0;
  };
  fetching_wins = [];
  cache_blocks_to_map = [];
  dirty_cache_blocks = 0 ∷ [];
  max_dirty_cache_blocks = 4;
  epoch = 1;
  writing_back_wins = [];
  has_dirty_cache = true;
  current_epoch = 1;
  requested_epoch = 1;
  readonly_regions = [];
  log = [];
}

-- The two slots.
which_slot :
    (P : ℕ → Slot Block → Type 0) (n : ℕ)
    → P 0 (cached n)
    → P 1 unused
    → (i : ℕ) (s : Slot Block) → slot i (two_blocks n) ≡ some s
    → P i s
which_slot P n p q zero s e = subst (P 0) (some-injective (cached n) s e) p
which_slot P n p q (suc zero) s e = subst (P 1) (some-injective unused s e) q
which_slot P n p q (suc (suc i)) s e = absurd (cc)

two_blocks-Inv : (n : ℕ) → CI.Inv (two_blocks n).cs
unfolding find
two_blocks-Inv n = record {
  sized = refl;
  indexed = which_slot (λ i s. s.idx ≡ i) n refl refl;
  mapped = λ k i f. elim (Bool-cases (2 == k)) [
    | inl t ↦
        let at : i ≡ 0 = ground (arith, f, t) in
        (cached n, get_elem?-at (two_blocks n).cs.entries i 0 at, refl, ==→eq 2 k t)
    | inr g ↦ absurd (ground (arith, f, g))
  ];
  owned =
      which_slot (λ i s. s.allocated ≡ true → find s.key (two_blocks n).cs.table ≡ some i) n
        (λ a. refl) (λ a. absurd (cc));
  linked = λ i. ground arith;
}

cached-SlotIsSound : (n : ℕ) → SlotIsSound 2 1 [] (0 ∷ []) 0 (cached n)
unfolding owner_in_range
cached-SlotIsSound n = record {
  ranked = refl;
  bounded = λ x c. ground (arith, c);
  valid_ok = (omega arith, omega arith, tt);
  dirty_ok = (omega arith, omega arith, tt);
  dirty_valid = λ x c. ground (arith, c);
  free = λ f. absurd (cc);
  numbered = λ a. refl;
  started = inl (omega arith);
  listed = inr (λ z. absurd (omega (arith, z)));
}

unused-SlotIsSound : SlotIsSound 2 1 [] (0 ∷ []) 1 unused
unfolding owner_in_range
unused-SlotIsSound = record {
  ranked = refl;
  bounded = λ x c. absurd (cc);
  valid_ok = tt;
  dirty_ok = tt;
  dirty_valid = λ x c. c;
  free = λ f. (refl, refl);
  numbered = λ a. absurd (cc);
  started = inl (omega arith);
  listed = inl refl;
}

two_blocks-IsConsistent : (n : ℕ) → IsConsistent (two_blocks n)
two_blocks-IsConsistent n = record {
  cs_ok = two_blocks-Inv n;
  slots = which_slot (SlotIsSound 2 1 [] (0 ∷ [])) n (cached-SlotIsSound n) unused-SlotIsSound;
  in_cache = (omega arith, tt);
  clean = inl refl;
}

two_blocks-IsSized : (n : ℕ) → IsSized (two_blocks n)
two_blocks-IsSized n = record {
  block_log = 6;
  sub_log = 4;
  block_eq = refl;
  sub_eq = refl;
  sub_le = omega arith;
  fits = omega arith;
}

two_blocks-Holds : (n : ℕ) → Holds 2 0 (two_blocks n) (cached n)
unfolding find
two_blocks-Holds n = record {
  consistent = two_blocks-IsConsistent n;
  sized = two_blocks-IsSized n;
  found = refl;
  at = refl;
  allocated = refl;
}

-- The log after an operation.
abbrev logged : Option Manager → Option (List Request)
logged none = none
logged (some m) = some m.log

-- The dirty bytes go home, to the same place of the block, and the window is flushed.
ensure_all_cache_clean_test :
    logged (ensure_all_cache_clean (two_blocks 1))
    ≡ some (Request.put_nb 4 4 7 (some 1) 260 ∷ Request.flush 7 ∷ [])
unfolding ensure_all_cache_clean region_size
ensure_all_cache_clean_test = refl

abbrev gives : Option (Manager × Bool) → Option (List Request × Bool)
gives none = none
gives (some (m, b)) = some (m.log, b)

-- Bytes 40 to 44 are asked for; the sub-block with them is fetched.
checkout_blk_test :
    gives (checkout_blk false true 128 168 172 7 (some 1) 256 (two_blocks 1))
    ≡ some (Request.get_nb 32 16 7 (some 1) 288 ∷ [], false)
unfolding checkout_blk region_size ensure_cached find round_down_pow2 round_up_pow2 add_after
    get_union merge_next
checkout_blk_test = refl

-- A block that is in use cannot be invalidated.
acquire_test : acquire (two_blocks 1) ≡ none
unfolding acquire
acquire_test = refl

ensure_all_cache_clean_lem_example :
    (m' : Manager) × (ensure_all_cache_clean (two_blocks 1) ≡ some m')
    × Cleans (two_blocks 1) m'
    × ((i : ℕ) (s : Slot Block) → slot i (two_blocks 1) ≡ some s → SentHome 64 s m'.log)
ensure_all_cache_clean_lem_example =
    ensure_all_cache_clean_lem (two_blocks 1) (two_blocks-IsConsistent 1) (omega arith)
      (omega arith)

fetch_begin_lem_example :
    Fetches 0 (cached 1) (region 40 44) (two_blocks 1) (fetch_begin 0 (region 40 44) (two_blocks 1))
fetch_begin_lem_example =
    fetch_begin_lem 0 (region 40 44) (two_blocks 1) (cached 1) (two_blocks-IsConsistent 1)
      (two_blocks-IsSized 1) (omega arith) refl refl (omega arith) (omega arith)

get_entry_lem_example :
    ((get_entry true 192 (two_blocks 1) ≡ none) × AllHeld (two_blocks 1))
    ⊎ ((m' : Manager) × (i : ℕ) × (s : Slot Block) × (get_entry true 192 (two_blocks 1)
          ≡ some (m', i))
        × Finds (two_blocks 1) 3 m' i s)
unfolding cache_key
get_entry_lem_example =
    get_entry_lem true 192 3 (two_blocks 1) (two_blocks-IsConsistent 1) (omega arith) refl

add_dirty_region_lem_example :
    Dirties 2 0 (region 16 20) (cached 1) (add_dirty_region 0 (region 16 20) (two_blocks 1))
add_dirty_region_lem_example =
    add_dirty_region_lem 2 0 (region 16 20) (two_blocks 1) (cached 1) (two_blocks-Holds 1)
      (omega arith) (omega arith) (λ x c. ground (arith, c)) (omega arith)

checkin_blk_lem_example :
    ChecksIn true true 2 0
      (region 16 20)
      (cached 1)
      (checkin_blk true true 128 144 148 (two_blocks 1))
unfolding request_ok cache_key
checkin_blk_lem_example =
    checkin_blk_lem true true 128 144 148 2 0 (two_blocks 1) (cached 1) (two_blocks-Holds 1)
      (omega arith) (omega arith) refl refl (inr (λ x c. ground (arith, c))) (inr (omega arith))

acquire_lem_example : Acquires (two_blocks 0) (acquire (two_blocks 0))
acquire_lem_example =
    acquire_lem (two_blocks 0) (two_blocks-IsConsistent 0) (omega arith) (omega arith)
      (which_slot (λ i s. s.allocated ≡ true → s.entry.ref_count ≡ 0) 0 (λ a. refl) (λ a. refl))
      refl
