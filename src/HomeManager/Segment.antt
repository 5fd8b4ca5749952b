-- ===== src/HomeManager/Segment.antt =====
-- `checkout_seg` of home_manager.hpp as a whole.
use itoyori_github_io.CacheSystem.{Slot}
use itoyori_github_io.Tlb.Laws.{add-IsSound, add_invalid}
use itoyori_github_io.HomeManager.{
  MmapEntry, HomeManager, Target, segment_at, cache_key, get_entry, place_segment, increment_ref,
  add_tlb, checkout_seg, same_segment,
}
use itoyori_github_io.HomeManager.Inv.{IsConsistent, Belongs}
use itoyori_github_io.HomeManager.Fast.{counted, increment_ref_lem}
use itoyori_github_io.HomeManager.Found.{IsStuck}
use itoyori_github_io.HomeManager.Missed.{get_entry_lem, none-ne-some}
use itoyori_github_io.HomeManager.Placed.{place-IsHit, place-IsFresh}
use itoyori_github_io.HomeManager.Pushed.{Places}
use mathlib.Core.Option.{some-injective}
use native.Mathlib.Nat.{div-add-mod'}
use itoyori_github_io.Base.{
  ℕ, ◌∙◌, sym, ◌*◌, ◌≢◌, Bool, ◌≡◌, Option, if◌then◌else◌, ◌>>=◌, true, some, ◌+◌, Bool-cases,
  false, none, ◌⊎◌, ◌==◌, ◌||◌, inl, ◌<◌, arith, refl, ap, not, inr, ◌%◌, subst, ◌/◌,
}

-- The key times the block size is the address, which is not null.
key_lem :
    (addr key : ℕ) (m : HomeManager)
    → cache_key addr m ≡ some key
    → (key * m.block_size ≡ addr) × (addr ≢ 0)
unfolding cache_key
key_lem addr key m k = elim (Bool-cases ((addr == 0) || not (addr % m.block_size == 0))) [
  | inl t ↦ absurd (none-ne-some (sym (rw (cache_key, t) refl) ∙ k))
  | inr f ↦
      let is_key : some (addr / m.block_size) ≡ some key = sym (rw (cache_key, f) refl) ∙ k in
      let key_is : addr / m.block_size ≡ key = some-injective (addr / m.block_size) key is_key in
      let whole : addr % m.block_size ≡ 0 = ground (arith, f) in
      let split = div-add-mod' addr m.block_size in
      (
        ap (λ (q : ℕ). q * m.block_size) (sym key_is) ∙ omega (arith, split, whole),
        λ z. absurd (ground (arith, f, z)),
      )
]

-- A segment that is checked out: its slot has an entry in use for its address, counted if it is to be,
-- and mapped if nothing is said to be left to map.
abbrev pub ChecksOut : Bool → ℕ → Option (HomeManager × Bool) → Type 0
ChecksOut increment seg_addr result =
    (m' : HomeManager) × (here : Bool) × (i : ℕ) × (s : Slot MmapEntry) × (result ≡ some (m', here))
    × IsConsistent m'
    × (segment_at i m' ≡ some s)
    × (s.allocated ≡ true)
    × (s.entry.addr ≡ seg_addr)
    × ((increment ≡ false) ⊎ (0 < s.entry.ref_count))
    × ((here ≡ false) ⊎ (s.entry.mapped_addr ≡ seg_addr))

-- What a count means.
referenced : (flag : Bool) (n k : ℕ) → k ≡ (if flag then n + 1 else n) → (flag ≡ false) ⊎ (0 < k)
referenced false n k h = inl refl
referenced true n k h = inr (omega (arith, h))

-- The translation buffer learns the segment.
add_tlb-IsConsistent :
    (i seg_addr seg_size : ℕ) (m : HomeManager) (s : Slot MmapEntry)
    → IsConsistent m
    → segment_at i m ≡ some s
    → s.allocated ≡ true
    → s.entry.addr ≡ seg_addr
    → IsConsistent (add_tlb seg_addr seg_size (Target.entry i) m)
unfolding add_tlb
add_tlb-IsConsistent i seg_addr seg_size m s v at a addr = record {
  cs_ok = v.cs_ok;
  slots = v.slots;
  listed = v.listed;
  tlb_ok =
      add-IsSound (Belongs m.cs.entries) same_segment (seg_addr, seg_size) (Target.entry i)
        m.home_tlb (s, at, a, addr) v.tlb_ok;
  invalid = add_invalid same_segment (seg_addr, seg_size) (Target.entry i) m.home_tlb ∙ v.invalid;
}

-- The part of `checkout_seg` after the guards.
abbrev slow : Bool → ℕ → ℕ → ℕ → ℕ → HomeManager → Option (HomeManager × Bool)
slow increment seg_addr seg_size pm pm_offset m = get_entry true seg_addr m >>= λ (m1, i).
    place_segment i seg_addr seg_size pm pm_offset m1 >>= λ (m2, here).
    increment_ref increment i m2 >>= λ m3.
    some (add_tlb seg_addr seg_size (Target.entry i) m3, here)

placed_lem :
    (increment : Bool) (i seg_addr seg_size pm pm_offset n : ℕ) (m : HomeManager)
    → Places i seg_addr n m (place_segment i seg_addr seg_size pm pm_offset m)
    → ChecksOut increment seg_addr (
        place_segment i seg_addr seg_size pm pm_offset m >>= λ (m2, here).
        increment_ref increment i m2 >>= λ m3.
        some (add_tlb seg_addr seg_size (Target.entry i) m3, here))
unfolding add_tlb
placed_lem increment i seg_addr seg_size pm pm_offset n m
      (m2, here, s2, run2, v2, at2, a, addr, count, there) =
    let (m3, run3, v3, at3) = increment_ref_lem increment i m2 s2 at2 v2 in
    let k = if increment then s2.entry.ref_count + 1 else s2.entry.ref_count in
    (
      add_tlb seg_addr seg_size (Target.entry i) m3,
      here,
      i,
      counted s2 k,
      rw (run2, run3) refl,
      add_tlb-IsConsistent i seg_addr seg_size m3 (counted s2 k) v3 at3 a addr,
      at3,
      a,
      addr,
      referenced increment s2.entry.ref_count k refl,
      there,
    )

slow_lem :
    (increment : Bool) (seg_addr seg_size pm pm_offset key : ℕ) (m : HomeManager)
    → IsConsistent m
    → cache_key seg_addr m ≡ some key
    → pm ≢ 0
    → (slow increment seg_addr seg_size pm pm_offset m ≡ none) × IsStuck m
      ⊎ ChecksOut increment seg_addr (slow increment seg_addr seg_size pm pm_offset m)
slow_lem increment seg_addr seg_size pm pm_offset key m v k p =
    let (key_addr, z) = key_lem seg_addr key m k in
    let rest : HomeManager × ℕ → Option (HomeManager × Bool) = λ (m1, i).
      place_segment i seg_addr seg_size pm pm_offset m1 >>= λ (m2, here).
      increment_ref increment i m2 >>= λ m3.
      some (add_tlb seg_addr seg_size (Target.entry i) m3, here) in
    elim (get_entry_lem true seg_addr key m v k) [
      | inl (run, stuck) ↦ inl (ap (λ (o : Option (HomeManager × ℕ)). o >>= rest) run, stuck)
      | inr (m1, i, s, run, got) ↦
          let next : slow increment seg_addr seg_size pm pm_offset m ≡ rest (m1, i) =
            ap (λ (o : Option (HomeManager × ℕ)). o >>= rest) run in
          let places : Places i seg_addr s.entry.ref_count m1
              (place_segment i seg_addr seg_size pm pm_offset m1) =
            elim got [
              | inl h ↦
                  place-IsHit i key seg_addr seg_size pm pm_offset m m1 s h
                    (ap (λ (n : ℕ). key * n) h.same_size ∙ key_addr) p z
              | inr h ↦
                  place-IsFresh i key seg_addr seg_size pm pm_offset m m1 s h
                    (ap (λ (n : ℕ). key * n) h.same_size ∙ key_addr) p z
            ] in
          inr (
            subst (ChecksOut increment seg_addr) (sym next)
              (placed_lem increment i seg_addr seg_size pm pm_offset s.entry.ref_count m1 places))
    ]

-- With virtual memory mapping on, in a consistent state, `checkout_seg` of a segment that is not
-- always mapped, has an aligned address and a positive size and lies in some physical memory aborts
-- only if no entry can be had: all are counted, or one that is not counted waits for its mapping.
-- Otherwise the state stays consistent and the segment has an entry in use for its address, counted
-- if it is to be, and mapped there if `checkout_seg` says so.
pub checkout_seg_lem :
    (increment : Bool) (seg_addr seg_size pm pm_offset key : ℕ) (m : HomeManager)
    → IsConsistent m
    → m.enable_vm_map ≡ true
    → cache_key seg_addr m ≡ some key
    → seg_size ≢ 0
    → pm ≢ 0
    → (checkout_seg increment seg_addr seg_size pm pm_offset false m ≡ none) × IsStuck m
      ⊎ ChecksOut increment seg_addr (checkout_seg increment seg_addr seg_size pm pm_offset false m)
unfolding checkout_seg
checkout_seg_lem increment seg_addr seg_size pm pm_offset key m v vm k n p =
    let (_, z) = key_lem seg_addr key m k in
    let ok : ((seg_addr == 0) || (seg_size == 0)) ≡ false = ground (arith, z, n) in
    let out = slow increment seg_addr seg_size pm pm_offset m in
    let run : checkout_seg increment seg_addr seg_size pm pm_offset false m ≡ out =
      ap (λ (b : Bool). if b then none else if not m.enable_vm_map then some (m, true) else out) ok
      ∙ ap (λ (b : Bool). if not b then some (m, true) else out) vm in
    subst
      (λ (o : Option (HomeManager × Bool)). (o ≡ none) × IsStuck m ⊎ ChecksOut increment seg_addr o)
      (sym run) (slow_lem increment seg_addr seg_size pm pm_offset key m v k p)
