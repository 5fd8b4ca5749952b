-- ===== src/CacheManager/Round.antt =====
-- One round of the loop in `writeback_begin` of cache_manager.hpp, and the loop.
use itoyori_github_io.CacheManager.Clean.{Completes, writeback_complete_lem, is_empty-eq}
use itoyori_github_io.CacheManager.Writeback.{
  writeback_blocks, writeback_begin_block, writeback_complete,
}
use itoyori_github_io.CacheSystem.{Slot}
use itoyori_github_io.CacheSystem.Inv as CI
use itoyori_github_io.CacheManager.{Block, Manager, is_empty, slot, is_writing_back}
use itoyori_github_io.CacheManager.Inv.{IsConsistent, slot-same}
use itoyori_github_io.CacheManager.Loop.{Writes, Writes-refl, Writes-trans, start_writeback_lem}
use itoyori_github_io.CacheManager.Sent.{rewritten}
use itoyori_github_io.Base.{
  refl, ◌==◌, if◌then◌else◌, ℕ, Option, ◌≡◌, some, true, ◌≤◌, ◌+◌, false, [], ◌<◌, ◌^◌, ap,
  Bool-cases, List, inl, All, get_elem?, ◌∙◌, length, ◌≢◌, arith, ◌∷◌, ltb, inr, get_elem?-total,
  subst, sym, ◌>>=◌,
}

-- `writeback_complete` as a step of the loop, while the list of dirty blocks is there.
Completes-Writes :
    (m m' : Manager)
    → Completes m m'
    → m.has_dirty_cache ≡ true
    → is_empty m.dirty_cache_blocks ≡ false
    → Writes m m'
Completes-Writes m m' c h l = record {
  frame = c.frame;
  extends = c.extends;
  slots = λ i s e. (
    s.entry.dirty_regions,
    s.entry.writeback_epoch,
    ap (λ cs. get_elem? cs.entries i) c.same_cs ∙ e,
    inl refl,
  );
  consistent = c.consistent;
  same_list = c.same_list;
  same_dirty = ground (arith, c.dirty, h, l);
}

-- `writeback_begin(cb)` succeeds and takes the dirty bytes of slot `i` away.
writeback_begin_block_lem :
    (i : ℕ) (s : Slot Block) (m : Manager)
    → IsConsistent m
    → slot i m ≡ some s
    → m.has_dirty_cache ≡ true
    → is_empty m.dirty_cache_blocks ≡ false
    → m.epoch + 1 < 2 ^ 64
    → (m' : Manager) × (e : ℕ) × (writeback_begin_block i m ≡ some m')
      × Writes m m'
      × (m'.epoch ≤ m.epoch + 1)
      × (slot i m' ≡ some (rewritten s [] e))
unfolding writeback_begin_block
writeback_begin_block_lem i s m v at h l room =
    elim (Bool-cases (is_writing_back m.epoch s.entry)) [
      | inl t ↦
          let c = writeback_complete_lem m v room in
          let m1 = writeback_complete m in
          let at1 : slot i m1 ≡ some s = ap (λ cs. get_elem? cs.entries i) c.same_cs ∙ at in
          let w = Completes-Writes m m1 c h l in
          let (m', run, w', same, out) =
            start_writeback_lem i s m1 c.consistent at1 (w.same_dirty ∙ h) in
          let passes : ltb s.entry.writeback_epoch m1.epoch ≡ true =
            ground (arith, c.below i s at) in
          (
            m',
            m1.epoch,
            rw (at, t, passes) run,
            Writes-trans m m1 m' w w',
            omega (arith, same, c.advance),
            out,
          )
      | inr f ↦
          let (m', run, w', same, out) = start_writeback_lem i s m v at h in
          (m', m.epoch, rw (at, f) run, w', omega (arith, same), out)
    ]

-- One round of the loop: the dirty bytes of slot `i` are gone after it.
abbrev Round : ℕ → Manager → Option Manager → Type 0
Round i m result =
    (m' : Manager) × (s' : Slot Block) × (result ≡ some m')
    × Writes m m'
    × (m'.epoch ≤ m.epoch + 1)
    × (slot i m' ≡ some s')
    × (s'.entry.dirty_regions ≡ [])

round_lem :
    (i : ℕ) (s : Slot Block) (m : Manager)
    → IsConsistent m
    → slot i m ≡ some s
    → m.has_dirty_cache ≡ true
    → is_empty m.dirty_cache_blocks ≡ false
    → m.epoch + 1 < 2 ^ 64
    → Round i m (if is_empty s.entry.dirty_regions then some m else writeback_begin_block i m)
round_lem i s m v at h l room = elim (Bool-cases (is_empty s.entry.dirty_regions)) [
  | inl t ↦ (m, s, rw (t), Writes-refl m v, omega arith, at, is_empty-eq s.entry.dirty_regions t)
  | inr f ↦
      let (m', e, run, w, le, out) = writeback_begin_block_lem i s m v at h l room in
      (m', rewritten s [] e, rw (f) run, w, le, out, refl)
]

writeback_blocks-cons :
    (j : ℕ) (s : Slot Block) (js : List ℕ) (m m1 m' : Manager)
    → slot j m ≡ some s
    → (if is_empty s.entry.dirty_regions then some m else writeback_begin_block j m) ≡ some m1
    → writeback_blocks js m1 ≡ some m'
    → writeback_blocks (j ∷ js) m ≡ some m'
unfolding writeback_blocks
writeback_blocks-cons j s js m m1 m' at round rest =
    ap
      (λ (o : Option (Slot Block)). o >>= λ t.
        (if is_empty t.entry.dirty_regions then some m else writeback_begin_block j m) >>= λ m1.
        writeback_blocks js m1)
      at
    ∙ ap (λ (o : Option Manager). o >>= λ m1. writeback_blocks js m1) round
    ∙ rest

-- The loop succeeds, and no slot on the list has dirty bytes after it.
pub writeback_blocks_lem :
    (is : List ℕ) (m : Manager)
    → IsConsistent m
    → All (λ i. i < m.cs.nentries) is
    → m.has_dirty_cache ≡ true
    → is_empty m.dirty_cache_blocks ≡ false
    → m.epoch + length is < 2 ^ 64
    → (m' : Manager) × (writeback_blocks is m ≡ some m')
      × Writes m m'
      × (m'.epoch ≤ m.epoch + length is)
      × ((i : ℕ) (s : Slot Block)
          → slot i m' ≡ some s
          → CI.occurs i is ≢ 0
          → s.entry.dirty_regions ≡ [])
unfolding writeback_blocks
writeback_blocks_lem [] m v a h l room =
    (m, refl, Writes-refl m v, omega arith, λ i s e o. absurd (o refl))
writeback_blocks_lem (j ∷ js) m v (a, rest) h l room =
    let (s, at) = get_elem?-total m.cs.entries j (omega (arith, v.cs_ok.sized)) in
    let (m1, s1, run1, w1, le1, out1, gone1) = round_lem j s m v at h l (omega arith) in
    let same_n : m1.cs.nentries ≡ m.cs.nentries = ap (λ (x : Manager). x.cs.nentries) w1.frame in
    let (m', run, w, le, out) =
      writeback_blocks_lem js m1 w1.consistent (subst (λ n. All (λ i. i < n) js) (sym same_n) rest)
        (w1.same_dirty ∙ h) (ap is_empty w1.same_list ∙ l) (omega arith) in
    (
      m',
      writeback_blocks-cons j s js m m1 m' at run1 run,
      Writes-trans m m1 m' w1 w,
      omega arith,
      λ i t e o. elim (Bool-cases (j == i)) [
        | inl same ↦
            let (d, k, g, keep) = w.slots j s1 out1 in
            slot-same (λ n x. x.entry.dirty_regions ≡ []) j i (rewritten s1 d k) t m' g e same
              (elim keep [ inl p ↦ p ∙ gone1 | inr (p, _) ↦ p ])
        | inr other ↦ out i t e (ground (arith, other, o))
      ],
    )
