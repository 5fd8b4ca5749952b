-- ===== src/CacheSystem/Cached.antt =====
-- `ensure_cached` of cache_system.hpp.
use itoyori_github_io.Base.{
  ℕ, ◌≡◌, refl, ◌∙◌, ap, ◌⊎◌, inl, inr, Bool, true, false, Option, some, none, arith, ◌==◌,
  if◌then◌else◌, get_elem?, get_elem?-lt, get_elem?-set, All, Option-cases,
}
use itoyori_github_io.Base.Assoc.{find, find-assign, find-erase}
use itoyori_github_io.CacheSystem.{
  EntryOps, Slot, CacheSystem, release_slot, fill_slot, touch, get_empty_slot, ensure_cached,
}
use itoyori_github_io.CacheSystem.Inv.{Inv, release_slot-Inv, fill_slot-Inv, touch-Inv}
use itoyori_github_io.CacheSystem.Search.{Pinned, get_empty_slot_lem}

module _ {E : Type 0} (ops : EntryOps E) where
  -- The key that loses its slot, if one does.
  abbrev pub is_victim : Option ℕ → ℕ → Bool
  is_victim none k = false
  is_victim (some j) k = j == k

  -- A victim's entry is one that can be evicted.
  abbrev pub VictimOk : CacheSystem E → ℕ → Option ℕ → Type 0
  VictimOk c i none = Unit {0}
  VictimOk c i (some j) =
      (s : Slot E) × (get_elem? c.entries i ≡ some s)
      × (s.key ≡ j)
      × (find j c.table ≡ some i)
      × (ops.is_evictable s.entry ≡ true)

  -- `key` has got slot `i` in `c'`; every other key but the victim is mapped as in `c`.
  abbrev pub Maps : CacheSystem E → ℕ → CacheSystem E → ℕ → Type 0
  Maps c key c' i =
      Inv c'
      × (find key c'.table ≡ some i)
      × ((victim : Option ℕ) × VictimOk c i victim
          × ((k : ℕ)
              → find k c'.table ≡ (
                  if key == k
                  then some i
                  else if is_victim victim k
                  then none
                  else find k c.table)))

  -- What `ensure_cached` gives: the exception, if the key is not cached and no slot can be had; or
  -- else a slot of the key.
  abbrev pub Ensures : CacheSystem E → ℕ → Option (CacheSystem E × ℕ) → Type 0
  Ensures c key result =
      (result ≡ none) × (find key c.table ≡ none) × All (Pinned ops c) c.lru
      ⊎ ((c' : CacheSystem E) × (i : ℕ) × (result ≡ some (c', i)) × Maps c key c' i)

  pub touch-table : (b : Bool) (i : ℕ) (c : CacheSystem E) → (touch ops b i c).table ≡ c.table
  unfolding touch
  touch-table false i c = refl
  touch-table true i c = refl

  -- Slot `i` is free in `c1`, which maps the keys as `c` does, but for the victim.
  fill_lem :
      (b : Bool) (key i : ℕ) (c c1 : CacheSystem E) (ce : Slot E) (victim : Option ℕ)
      → Inv c1
      → get_elem? c1.entries i ≡ some ce
      → ce.allocated ≡ false
      → find key c.table ≡ none
      → VictimOk c i victim
      → ((k : ℕ) → find k c1.table ≡ (if is_victim victim k then none else find k c.table))
      → Maps c key (touch ops b i (fill_slot ops key i ce c1)) i
  unfolding fill_slot
  fill_lem b key i c c1 ce victim v e a n ok maps =
      let lt = get_elem?-lt c1.entries i ce e in
      let absent : find key c1.table ≡ none = ground (arith, maps key) in
      let w = fill_slot-Inv ops key i ce c1 v e a absent in
      let t = touch-table b i (fill_slot ops key i ce c1) in
      (
        touch-Inv ops b i (fill_slot ops key i ce c1) w (omega (arith, v.sized)),
        t' key ∙ ground arith,
        (victim, ok, λ k. t' k ∙ ap (λ r. if key == k then some i else r) (maps k)),
      )
    where
      t' :
          (k : ℕ)
          → find k (touch ops b i (fill_slot ops key i ce c1)).table
            ≡ (if key == k then some i else find k c1.table)
      t' k =
          ap (find k) (touch-table b i (fill_slot ops key i ce c1)) ∙ find-assign key k i c1.table

  pub ensure_hit :
      (b : Bool) (key i : ℕ) (c : CacheSystem E)
      → find key c.table ≡ some i
      → ensure_cached ops b key c ≡ some (touch ops b i c, i)
  unfolding ensure_cached
  ensure_hit b key i c e = rw (e, ensure_cached)

  pub ensure_miss :
      (b : Bool) (key i : ℕ) (c c1 : CacheSystem E) (ce : Slot E)
      → find key c.table ≡ none
      → get_empty_slot ops c ≡ some (c1, i)
      → get_elem? c1.entries i ≡ some ce
      → ensure_cached ops b key c ≡ some (touch ops b i (fill_slot ops key i ce c1), i)
  unfolding ensure_cached
  ensure_miss b key i c c1 ce n e g = rw (n, ensure_cached, e, g)

  pub ensure_full :
      (b : Bool) (key : ℕ) (c : CacheSystem E)
      → find key c.table ≡ none
      → get_empty_slot ops c ≡ none
      → ensure_cached ops b key c ≡ none
  unfolding ensure_cached
  ensure_full b key c n e = rw (n, ensure_cached, e)

  pub release_lem :
      (i : ℕ) (c : CacheSystem E) (ce : Slot E)
      → get_elem? c.entries i ≡ some ce
      → get_elem? (release_slot ops i ce c).entries i
        ≡ some (record ce { entry = ops.on_evict ce.entry; allocated = false })
  unfolding release_slot
  release_lem i c ce e = ground (
    arith,
    get_elem?-set c.entries i i (record ce { entry = ops.on_evict ce.entry; allocated = false })
        (get_elem?-lt c.entries i ce e),
  )

  release-table :
      (i k : ℕ) (c : CacheSystem E) (ce : Slot E)
      → find k (release_slot ops i ce c).table ≡ (if ce.key == k then none else find k c.table)
  unfolding release_slot
  release-table i k c ce = find-erase ce.key k c.table

  -- `ensure_cached` of a consistent cache throws only if the key is not cached and every slot holds an
  -- entry that cannot be evicted. Otherwise the cache stays consistent, the key has the returned slot,
  -- and the other keys keep theirs, but for at most one whose entry can be evicted.
  pub ensure_cached_lem :
      (update_lru : Bool) (key : ℕ) (c : CacheSystem E)
      → Inv c
      → Ensures c key (ensure_cached ops update_lru key c)
  ensure_cached_lem b key c v = elim (Option-cases (find key c.table)) [
    | inl n ↦ elim (get_empty_slot_lem ops c v) [
      | inl (e, p) ↦ inl (ensure_full b key c n e, n, p)
      | inr (i, ce, pre, post, is, ps, g, ch) ↦ elim ch [
        | inl (a, e) ↦ inr (
          touch ops b i (fill_slot ops key i ce c),
          i,
          ensure_miss b key i c c ce n e g,
          fill_lem b key i c c ce none v g a n tt (λ k. refl),
        )
        | inr (a, f, e) ↦
            let c1 = release_slot ops i ce c in
            let ce1 : Slot E = record ce { entry = ops.on_evict ce.entry; allocated = false } in
            let g1 = release_lem i c ce g in
            inr (
              touch ops b i (fill_slot ops key i ce1 c1),
              i,
              ensure_miss b key i c c1 ce1 n e g1,
              fill_lem b key i c c1 ce1 (some ce.key) (release_slot-Inv ops i ce c v g a) g1 refl n
                  (ce, g, refl, v.owned i ce g a, f) (λ k. release-table i k c ce),
            )
      ]
    ]
    | inr (i, e) ↦
        let (s, p, q, r) = v.mapped key i e in
        let w =
          touch-Inv ops b i c v (let y = get_elem?-lt c.entries i s p in omega (arith, v.sized)) in
        let t = touch-table b i c in
        inr (
          touch ops b i c,
          i,
          ensure_hit b key i c e,
          (w, ap (find key) t ∙ e, (none, tt, λ k. ap (find k) t ∙ ground arith)),
        )
  ]
