-- ===== src/CacheSystem/Entries.antt =====
-- What `ensure_cached` of cache_system.hpp does to the entries.
use mathlib.Core.Option.{some-injective}
use itoyori_github_io.CacheSystem.{
  EntryOps, Slot, CacheSystem, release_slot, fill_slot, touch, ensure_cached,
}
use itoyori_github_io.CacheSystem.Inv.{Inv}
use itoyori_github_io.CacheSystem.Search.{get_empty_slot_lem}
use itoyori_github_io.CacheSystem.Cached.{ensure_miss, ensure_full, ensure_hit, release_lem}
use itoyori_github_io.Base.{
  refl, set, Option-cases, ℕ, ◌≡◌, Bool, get_elem?, some, Option-cases, true, ◌⊎◌, ◌==◌, inl, false,
  none, sym, arith, get_elem?-lt, ◌∙◌, get_elem?-set, ap, inr, List, subst, Option, length-set,
  if◌then◌else◌, Bool-cases, ==→eq,
}
use itoyori_github_io.Base.Assoc.{find}

none-ne-some : {A : Type 0} {a : A} → none ≡ some a → ⊥
none-ne-some h = cc

module _ {E : Type 0} (ops : EntryOps E) where
  -- The entry of `key` is that of its slot, or what the callbacks make of the entry of a slot that was
  -- free or could be evicted.
  abbrev pub NewEntry : CacheSystem E → ℕ → ℕ → Slot E → E → Type 0
  NewEntry c key i s e =
      (find key c.table ≡ some i) × (s.allocated ≡ true) × (e ≡ s.entry)
      ⊎ ((s.allocated ≡ false) × (e ≡ ops.on_cache_map i s.entry)
          ⊎ (s.allocated ≡ true)
            × (ops.is_evictable s.entry ≡ true)
            × (e ≡ ops.on_cache_map i (ops.on_evict s.entry)))

  -- `c'` has the entries of `c` but for slot `i`, which is `key`'s.
  abbrev pub Changes : CacheSystem E → ℕ → CacheSystem E → ℕ → Type 0
  Changes c key c' i =
      (s : Slot E) × (e : E) × (get_elem? c.entries i ≡ some s)
      × (get_elem? c'.entries i ≡ some (record s { entry = e; allocated = true; key = key }))
      × NewEntry c key i s e
      × ((j : ℕ) → (i == j) ≡ false → get_elem? c'.entries j ≡ get_elem? c.entries j)
      × (c'.nentries ≡ c.nentries)

  pub touch_entries : (b : Bool) (i : ℕ) (c : CacheSystem E) → (touch ops b i c).entries ≡ c.entries
  unfolding touch
  touch_entries false i c = refl
  touch_entries true i c = refl

  pub touch_nentries :
      (b : Bool) (i : ℕ) (c : CacheSystem E) → (touch ops b i c).nentries ≡ c.nentries
  unfolding touch
  touch_nentries false i c = refl
  touch_nentries true i c = refl

  release_others :
      (k : ℕ) (c : CacheSystem E) (ce : Slot E)
      → get_elem? c.entries k ≡ some ce
      → (j : ℕ) → (k == j) ≡ false
      → get_elem? (release_slot ops k ce c).entries j ≡ get_elem? c.entries j
  unfolding release_slot
  release_others k c ce e j ne = ground (
    arith,
    ne,
    get_elem?-set c.entries k j (record ce { entry = ops.on_evict ce.entry; allocated = false })
        (get_elem?-lt c.entries k ce e),
  )

  release_nentries :
      (k : ℕ) (c : CacheSystem E) (ce : Slot E) → (release_slot ops k ce c).nentries ≡ c.nentries
  unfolding release_slot
  release_nentries k c ce = refl

  -- A slot that is taken, free in `c1` with what `s` has become.
  fill-Changes :
      (b : Bool) (key k : ℕ) (c c1 : CacheSystem E) (s ce : Slot E)
      → get_elem? c.entries k ≡ some s
      → get_elem? c1.entries k ≡ some ce
      → ce.idx ≡ s.idx
      → NewEntry c key k s (ops.on_cache_map k ce.entry)
      → ((j : ℕ) → (k == j) ≡ false → get_elem? c1.entries j ≡ get_elem? c.entries j)
      → c1.nentries ≡ c.nentries
      → Changes c key (touch ops b k (fill_slot ops key k ce c1)) k
  unfolding fill_slot
  fill-Changes b key k c c1 s ce at at1 same new others n =
      let filled = fill_slot ops key k ce c1 in
      let e : E = ops.on_cache_map k ce.entry in
      let fresh : Slot E = record ce { entry = e; allocated = true; key = key } in
      let lt = get_elem?-lt c1.entries k ce at1 in
      let t : (j : ℕ)
          → get_elem? (touch ops b k filled).entries j ≡ get_elem? (set c1.entries k fresh) j =
        λ j. ap (λ (es : List (Slot E)). get_elem? es j) (touch_entries b k filled) in
      (
        s,
        e,
        at,
        t k ∙ ground (arith, get_elem?-set c1.entries k k fresh lt, same),
        new,
        λ j ne. t j ∙ ground (arith, get_elem?-set c1.entries k j fresh lt, others j ne, ne),
        touch_nentries b k filled ∙ n,
      )

  -- The result of a call that is known twice.
  Changes-same :
      (key : ℕ) (c c' d : CacheSystem E) (i k : ℕ)
      → ◌≡◌ {A = Option (CacheSystem E × ℕ)} (some (d, k)) (some (c', i))
      → Changes c key d k
      → Changes c key c' i
  Changes-same key c c' d i k e h =
      let p = some-injective {A = CacheSystem E × ℕ} (d, k) (c', i) e in
      subst (λ (r : CacheSystem E × ℕ). Changes c key r.0 r.1) p h

  pub ensure_cached_entries :
      (b : Bool) (key : ℕ) (c c' : CacheSystem E) (i : ℕ)
      → Inv c
      → ensure_cached ops b key c ≡ some (c', i)
      → Changes c key c' i
  ensure_cached_entries b key c c' i v run = elim (Option-cases (find key c.table)) [
    | inl n ↦ elim (get_empty_slot_lem ops c v) [
      | inl (e, p) ↦ absurd (none-ne-some (sym (ensure_full ops b key c n e) ∙ run))
      | inr (k, ce, pre, post, is, ps, g, ch) ↦ elim ch [
        | inl (a, e) ↦
            Changes-same key c c' (touch ops b k (fill_slot ops key k ce c)) i k
              (sym (ensure_miss ops b key k c c ce n e g) ∙ run)
              (fill-Changes b key k c c ce ce g g refl (inr (inl (a, refl))) (λ j ne. refl) refl)
        | inr (a, f, e) ↦
            let c1 = release_slot ops k ce c in
            let ce1 : Slot E = record ce { entry = ops.on_evict ce.entry; allocated = false } in
            let g1 = release_lem ops k c ce g in
            Changes-same key c c' (touch ops b k (fill_slot ops key k ce1 c1)) i k
              (sym (ensure_miss ops b key k c c1 ce1 n e g1) ∙ run)
              (fill-Changes b key k c c1 ce ce1 g g1 refl (inr (inr (a, f, refl)))
                (release_others k c ce g) (release_nentries k c ce))
      ]
    ]
    | inr (k, e) ↦
        let (s, p, q, r) = v.mapped key k e in
        Changes-same key c c' (touch ops b k c) i k (sym (ensure_hit ops b key k c e) ∙ run) (
          s,
          s.entry,
          p,
          ap (λ (es : List (Slot E)). get_elem? es k) (touch_entries b k c)
              ∙ p
              ∙ ground (arith, q, r),
          inl (e, q, refl),
          λ j ne. ap (λ (es : List (Slot E)). get_elem? es j) (touch_entries b k c),
          touch_nentries b k c,
        )
  ]

module _ {E : Type 0} where
  -- A write to the entry of slot `i`, which holds `s`.
  abbrev pub with_entry : ℕ → Slot E → E → CacheSystem E → CacheSystem E
  with_entry i s e c = record c { entries = set c.entries i (record s { entry = e }) }

  pub slot-with_entry :
      (i j : ℕ) (s : Slot E) (e : E) (c : CacheSystem E)
      → get_elem? c.entries i ≡ some s
      → get_elem? (with_entry i s e c).entries j
        ≡ (if i == j then some (record s { entry = e }) else get_elem? c.entries j)
  slot-with_entry i j s e c at =
      get_elem?-set c.entries i j (record s { entry = e }) (get_elem?-lt c.entries i s at)

  -- The cache system does not look at the entries.
  pub with_entry-Inv :
      (i : ℕ) (s : Slot E) (e : E) (c : CacheSystem E)
      → get_elem? c.entries i ≡ some s
      → Inv c
      → Inv (with_entry i s e c)
  with_entry-Inv i s e c at v = record {
    sized = length-set c.entries i (record s { entry = e }) ∙ v.sized;
    indexed = λ j t h. ground (arith, slot-with_entry i j s e c at, v.indexed i s, v.indexed j t);
    mapped = λ k j h.
        let (t, p, q, r) = v.mapped k j h in
        elim (Bool-cases (i == j)) [
          | inl same ↦ (
            record s { entry = e },
            ground (arith, slot-with_entry i j s e c at),
            ground (arith, p, at, same, q),
            ground (arith, p, at, same, r),
          )
          | inr other ↦ (t, ground (arith, slot-with_entry i j s e c at), q, r)
        ];
    owned = λ j t h a. ground (arith, slot-with_entry i j s e c at, v.owned i s at, v.owned j t);
    linked = v.linked;
  }

  -- What holds of the slots after a write to one of them.
  pub with_entry-each :
      (P : ℕ → Slot E → Type 0) (i : ℕ) (s : Slot E) (e : E) (c : CacheSystem E)
      → get_elem? c.entries i ≡ some s
      → P i (record s { entry = e })
      → ((j : ℕ) (t : Slot E) → (i == j) ≡ false → get_elem? c.entries j ≡ some t → P j t)
      → (j : ℕ) (t : Slot E) → get_elem? (with_entry i s e c).entries j ≡ some t
      → P j t
  with_entry-each P i s e c at p others j t h =
      let here = slot-with_entry i j s e c at in
      elim (Bool-cases (i == j)) [
        | inl same ↦
            let new : some (record s { entry = e }) ≡ some t = sym (here ∙ rw (same) refl) ∙ h in
            subst (P j) (some-injective (record s { entry = e }) t new)
              (subst (λ (k : ℕ). P k (record s { entry = e })) (==→eq i j same) p)
        | inr other ↦ others j t other (sym (here ∙ rw (other) refl) ∙ h)
      ]
