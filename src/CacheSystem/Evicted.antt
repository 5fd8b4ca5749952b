-- ===== src/CacheSystem/Evicted.antt =====
-- The constructor and `ensure_evicted` of cache_system.hpp.
use itoyori_github_io.Base.{
  ℕ, zero, suc, ◌+◌, ◌≡◌, refl, sym, ◌∙◌, ap, ◌⊎◌, inl, inr, true, false, Option, some, none, arith,
  ltb, leb, ◌==◌, if◌then◌else◌, ◌&&◌, length, get_elem?, set, Bool-cases, Option-cases,
}
use itoyori_github_io.Base.Assoc.{find, erase, find-erase}
use itoyori_github_io.CacheSystem.{
  EntryOps, Slot, CacheSystem, init, init_entries, init_lru, ensure_evicted,
}
use itoyori_github_io.CacheSystem.Inv.{Inv, occurs, freed, freed-Inv}

module _ {E : Type 0} where
  length-init_entries : (e : E) (n j : ℕ) → length (init_entries e n j) ≡ n
  unfolding init_entries
  length-init_entries e zero j = refl
  length-init_entries e (suc n) j = ap suc (length-init_entries e n (suc j))

  get-init_entries :
      (e : E) (n j i : ℕ) (s : Slot E)
      → get_elem? (init_entries e n j) i ≡ some s
      → (s.idx ≡ j + i) × (s.allocated ≡ false)
  unfolding init_entries
  get-init_entries e zero j i s h = absurd (cc)
  get-init_entries e (suc n) j zero s h = ground arith
  get-init_entries e (suc n) j (suc i) s h =
      let (a, b) = get-init_entries e n (suc j) i s h in (omega arith, b)

  occurs-init_lru :
      (e : E) (n j i : ℕ)
      → occurs i (init_lru (init_entries e n j)) ≡ (if leb j i && ltb i (j + n) then 1 else 0)
  unfolding init_lru init_entries
  occurs-init_lru e zero j i = ground arith
  occurs-init_lru e (suc n) j i = ground (arith, occurs-init_lru e n (suc j) i)

  -- A new cache is consistent.
  pub init-Inv : (n : ℕ) (e : E) → Inv (init n e)
  unfolding init
  init-Inv n e = record {
    sized = length-init_entries e n 0;
    indexed = λ i s h. omega (arith, (get-init_entries e n 0 i s h).0);
    mapped = λ k i h. absurd (let x : none ≡ some i = unfold find in h in cc);
    owned = λ i s h al. absurd (let x = (get-init_entries e n 0 i s h).1 in cc);
    linked = λ i. ground (arith, occurs-init_lru e n 0 i);
  }

module _ {E : Type 0} (ops : EntryOps E) where
  -- What `ensure_evicted` gives: the failed check, if the key's entry cannot be evicted; or else a
  -- cache without the key.
  abbrev pub Evicts : CacheSystem E → ℕ → Option (CacheSystem E) → Type 0
  Evicts c key result =
      (result ≡ none)
        × ((i : ℕ) × (s : Slot E) × (find key c.table ≡ some i)
            × (get_elem? c.entries i ≡ some s)
            × (ops.is_evictable s.entry ≡ false))
      ⊎ ((c' : CacheSystem E) × (result ≡ some c')
          × Inv c'
          × (c'.lru ≡ c.lru)
          × ((k : ℕ) → find k c'.table ≡ (if key == k then none else find k c.table)))

  evict_run :
      (key i : ℕ) (c : CacheSystem E) (s : Slot E)
      → find key c.table ≡ some i
      → get_elem? c.entries i ≡ some s
      → ops.is_evictable s.entry ≡ true
      → ensure_evicted ops key c
        ≡ some (record c {
          table = erase key c.table;
          entries =
              set c.entries i
                (record s { allocated = false; key = 0; entry = c.entry_initial_state });
        })
  unfolding ensure_evicted
  evict_run key i c s e p f = rw (e, ensure_evicted, p, f)

  -- `ensure_evicted` of a consistent cache aborts only at an entry that cannot be evicted. Otherwise the
  -- cache stays consistent, the key is no longer cached, and every other key keeps its slot.
  pub ensure_evicted_lem :
      (key : ℕ) (c : CacheSystem E) → Inv c → Evicts c key (ensure_evicted ops key c)
  unfolding ensure_evicted
  ensure_evicted_lem key c v = elim (Option-cases (find key c.table)) [
    | inl n ↦ inr (c, rw (n, ensure_evicted), v, refl, λ k. ground arith)
    | inr (i, e) ↦
        let (s, p, q, r) = v.mapped key i e in
        elim (Bool-cases (ops.is_evictable s.entry)) [
          | inl f ↦
              let new : Slot E = record s {
                allocated = false;
                key = 0;
                entry = c.entry_initial_state;
              } in
              inr (
                freed i s new c,
                evict_run key i c s e p f
                    ∙ ap
                        (λ k.
                          some
                            (record c { table = erase k c.table; entries = set c.entries i new }))
                        (sym r),
                freed-Inv i s new c v p q refl refl,
                refl,
                λ k. find-erase s.key k c.table ∙ ground arith,
              )
          | inr f ↦ inl (rw (e, ensure_evicted, p, f), (i, s, e, p, f))
        ]
  ]
