-- ===== src/HomeManager/Tests.antt =====
-- Runs of home_manager.hpp's operations on two segments, and the theorems at concrete inputs.
use itoyori_github_io.CacheSystem.{Slot}
use itoyori_github_io.CacheSystem.Inv as CI
use itoyori_github_io.CacheSystem.{ensure_cached, get_empty_slot, release_slot, fill_slot}
use itoyori_github_io.HomeManager.{
  checkout_seg, cache_key, MmapEntry, HomeManager, Target, Mapping, segment_at, checkout_complete,
}
use itoyori_github_io.HomeManager.Inv.{IsConsistent, SegmentIsSound}
use itoyori_github_io.HomeManager.Completed.{Completes, checkout_complete_lem}
use itoyori_github_io.HomeManager.Found.{IsStuck}
use itoyori_github_io.HomeManager.Segment.{ChecksOut, checkout_seg_lem}
use itoyori_github_io.Base.Assoc.{find}
use mathlib.Core.Option.{some-injective}
use itoyori_github_io.Base.{
  ℕ, List, [], ◌∷◌, suc, zero, Option, some, none, true, ◌≡◌, arith, refl, inl, inr, subst,
  get_elem?-at, ==→eq, Bool-cases, ◌==◌, ◌*◌, ◌^◌, ◌-◌, false, Bool, ◌⊎◌,
}

abbrev segment_of : ℕ → ℕ → ℕ → ℕ → ℕ → Slot MmapEntry
segment_of key mapped mapped_size n i = record {
  allocated = true;
  key = key;
  entry = record {
    entry_idx = i;
    addr = key * 64;
    mapped_addr = mapped;
    size = 64;
    mapped_size = mapped_size;
    pm = 5;
    pm_offset = 64 * i;
    ref_count = n;
  };
  idx = i;
}

-- The segment at 128 is mapped, the one at 192 is to be.
abbrev here : Slot MmapEntry
here = segment_of 2 128 64 0 0

abbrev there : Slot MmapEntry
there = segment_of 3 0 0 1 1

abbrev two_segments : HomeManager
two_segments = record {
  enable_vm_map = true;
  block_size = 64;
  cs = record {
    nentries = 2;
    entry_initial_state = record {
      entry_idx = 2 ^ 31 - 1;
      addr = 0;
      mapped_addr = 0;
      size = 0;
      mapped_size = 0;
      pm = 0;
      pm_offset = 0;
      ref_count = 0;
    };
    entries = here ∷ there ∷ [];
    lru = 0 ∷ 1 ∷ [];
    table = (2, 0) ∷ (3, 1) ∷ [];
  };
  dummy_ref_count = 0;
  home_tlb = record {
    first = record { key = (0, 0); entry = Target.no_entry; timestamp = 0 };
    rest = record { key = (192, 64); entry = Target.entry 1; timestamp = 1 } ∷ [];
    timestamp = 2;
  };
  home_segments_to_map = 1 ∷ [];
  log = [];
}

-- The two slots.
which_segment :
    (P : ℕ → Slot MmapEntry → Type 0)
    → P 0 here
    → P 1 there
    → (i : ℕ) (s : Slot MmapEntry) → segment_at i two_segments ≡ some s
    → P i s
which_segment P p q zero s e = subst (P 0) (some-injective here s e) p
which_segment P p q (suc zero) s e = subst (P 1) (some-injective there s e) q
which_segment P p q (suc (suc i)) s e = absurd (cc)

two_segments-Inv : CI.Inv two_segments.cs
unfolding find
two_segments-Inv = record {
  sized = refl;
  indexed = which_segment (λ i s. s.idx ≡ i) refl refl;
  mapped = λ k i f. elim (Bool-cases (2 == k)) [
    | inl t ↦
        let at : i ≡ 0 = ground (arith, f, t) in
        (here, get_elem?-at two_segments.cs.entries i 0 at, refl, ==→eq 2 k t)
    | inr g ↦ elim (Bool-cases (3 == k)) [
      | inl t ↦
          let at : i ≡ 1 = ground (arith, f, t, g) in
          (there, get_elem?-at two_segments.cs.entries i 1 at, refl, ==→eq 3 k t)
      | inr h ↦ absurd (ground (arith, f, g, h))
    ]
  ];
  owned =
      which_segment (λ i s. s.allocated ≡ true → find s.key two_segments.cs.table ≡ some i)
        (λ a. refl) (λ a. refl);
  linked = λ i. ground arith;
}

two_segments-IsConsistent : IsConsistent two_segments
two_segments-IsConsistent = record {
  cs_ok = two_segments-Inv;
  slots =
      which_segment (SegmentIsSound 64 (1 ∷ []))
        (record { placed = λ a. refl; mapping = inl (refl, refl) })
        (record {
          placed = λ a. refl;
          mapping = inr (
            λ z. absurd (omega (arith, z)),
            λ z. absurd (omega (arith, z)),
            λ z. absurd (omega (arith, z)),
            λ z. absurd (omega (arith, z)),
            refl,
          );
        });
  listed = (omega arith, tt);
  tlb_ok = (inr (there, refl, refl, refl), tt);
  invalid = refl;
}

abbrev logged : Option HomeManager → Option (List Mapping)
logged none = none
logged (some m) = some m.log

-- The segment that is on the list gets its mapping.
checkout_complete_test :
    logged (checkout_complete two_segments) ≡ some (Mapping.map_to_vm 5 192 64 64 ∷ [])
unfolding checkout_complete
checkout_complete_test = refl

checkout_complete_lem_example : Completes two_segments (checkout_complete two_segments)
checkout_complete_lem_example = checkout_complete_lem two_segments two_segments-IsConsistent refl

abbrev queued : Option (HomeManager × Bool) → Option (List ℕ × Bool)
queued none = none
queued (some (m, here)) = some (m.home_segments_to_map, here)

-- A third segment takes the slot of the one that nobody uses.
checkout_seg_test :
    queued (checkout_seg true 320 64 5 128 false two_segments) ≡ some (1 ∷ 0 ∷ [], false)
unfolding checkout_seg ensure_cached find get_empty_slot release_slot fill_slot
checkout_seg_test = refl

checkout_seg_lem_example :
    (checkout_seg true 320 64 5 128 false two_segments ≡ none) × IsStuck two_segments
    ⊎ ChecksOut true 320 (checkout_seg true 320 64 5 128 false two_segments)
unfolding cache_key
checkout_seg_lem_example =
    checkout_seg_lem true 320 64 5 128 5 two_segments two_segments-IsConsistent refl refl
      (λ z. absurd (omega (arith, z))) (λ z. absurd (omega (arith, z)))
