-- ===== src/CacheSystem/Order.antt =====
-- Which slot `ensure_cached` of cache_system.hpp reuses: the least recently used one that it can.
use mathlib.Core.Option.{some-injective}
use itoyori_github_io.Base.{
  ℕ, ◌<◌, ◌≡◌, Option, refl, sym, ◌∙◌, ap, inl, inr, true, false, some, none, List, [], ◌∷◌, ◌++◌,
  arith, get_elem?-lt, subst, All,
}
use itoyori_github_io.Base.Assoc.{find}
use itoyori_github_io.CacheSystem.{
  EntryOps, Slot, CacheSystem, unlink, move_to_back_lru, touch, fill_slot, release_slot,
  ensure_cached,
}
use itoyori_github_io.CacheSystem.Inv.{Inv, occurs, occurs-append}
use itoyori_github_io.CacheSystem.Search.{Pinned, get_empty_slot_lem}
use itoyori_github_io.CacheSystem.Cached.{ensure_miss, ensure_full, release_lem}

unlink_middle :
    (i : ℕ) (pre post : List ℕ) → occurs i pre ≡ 0 → unlink i (pre ++ i ∷ post) ≡ pre ++ post
unfolding unlink
unlink_middle i [] post h = ground arith
unlink_middle i (j ∷ pre) post h = ground (arith, unlink_middle i pre post)

module _ {E : Type 0} (ops : EntryOps E) where
  -- Slot `i` is the first of the old list that is not pinned, and the last of the new one; the others
  -- keep their order.
  abbrev pub Reuses : CacheSystem E → CacheSystem E → ℕ → Type 0
  Reuses c c' i =
      (pre : List ℕ) × (post : List ℕ) × (c.lru ≡ pre ++ i ∷ post)
      × All (Pinned ops c) pre
      × (c'.lru ≡ (pre ++ post) ++ (i ∷ []))

  reuses_lem :
      (key i : ℕ) (c c1 : CacheSystem E) (ce : Slot E) (pre post : List ℕ)
      → Inv c
      → i < c.nentries
      → c.lru ≡ pre ++ i ∷ post
      → All (Pinned ops c) pre
      → c1.lru ≡ c.lru
      → Reuses c (touch ops true i (fill_slot ops key i ce c1)) i
  unfolding touch fill_slot move_to_back_lru
  reuses_lem key i c c1 ce pre post v lt e p same =
      let once : occurs i (pre ++ i ∷ post) ≡ 1 =
        ap (occurs i) (sym e) ∙ v.linked i ∙ ground arith in
      let first : occurs i pre ≡ 0 = ground (arith, occurs-append i pre (i ∷ post)) in
      (
        pre,
        post,
        e,
        p,
        ap (λ l. unlink i l ++ (i ∷ [])) (same ∙ e)
            ∙ ap (λ l. l ++ (i ∷ [])) (unlink_middle i pre post first),
      )

  taken :
      (j : ℕ) (c c' : CacheSystem E) (i : ℕ) (d : CacheSystem E)
      → ◌≡◌ {A = Option (CacheSystem E × ℕ)} (some (d, j)) (some (c', i))
      → Reuses c d j
      → Reuses c c' i
  taken j c c' i d e r =
      let p = some-injective {A = CacheSystem E × ℕ} (d, j) (c', i) e in
      subst (λ (t : CacheSystem E × ℕ). Reuses c t.0 t.1) p r

  -- When a key that is not cached gets a slot, all slots before it in the list are in use and cannot be
  -- evicted: it is the least recently used one that can be had. It becomes the most recently used.
  pub ensure_cached_lru :
      (key i : ℕ) (c c' : CacheSystem E)
      → Inv c
      → find key c.table ≡ none
      → ensure_cached ops true key c ≡ some (c', i)
      → Reuses c c' i
  unfolding release_slot
  ensure_cached_lru key i c c' v n e = elim (get_empty_slot_lem ops c v) [
    | inl (f, p) ↦ absurd (let x = ensure_full ops true key c n f in cc)
    | inr (j, ce, pre, post, is, ps, g, ch) ↦
        let lt =
          let y = get_elem?-lt c.entries j ce g in
          let z : j < c.nentries = omega (arith, v.sized) in z in
        elim ch [
          | inl (a, f) ↦
              taken j c c' i (touch ops true j (fill_slot ops key j ce c))
                (sym (ensure_miss ops true key j c c ce n f g) ∙ e)
                (reuses_lem key j c c ce pre post v lt is ps refl)
          | inr (a, x, f) ↦
              let ce1 : Slot E = record ce { entry = ops.on_evict ce.entry; allocated = false } in
              let c1 = release_slot ops j ce c in
              taken j c c' i (touch ops true j (fill_slot ops key j ce1 c1))
                (sym (ensure_miss ops true key j c c1 ce1 n f (release_lem ops j c ce g)) ∙ e)
                (reuses_lem key j c c1 ce1 pre post v lt is ps refl)
        ]
  ]
