-- ===== src/CacheManager/Cleaning.antt =====
-- `writeback_begin` and `ensure_all_cache_clean` of cache_manager.hpp.
use itoyori_github_io.RegionSet.Cover.{covers}
use itoyori_github_io.CacheManager.Round.{writeback_blocks_lem}
use itoyori_github_io.CacheManager.Sent.{
  Extends, FitsOffsets, Sent, rewritten, SentHome, sends, cache_offset_lem,
}
use itoyori_github_io.CacheManager.Clean.{writeback_complete_lem, Frame, is_empty-eq}
use itoyori_github_io.CacheManager.Writeback.{
  writeback_blocks, writeback_complete, writeback_begin, ensure_all_cache_clean,
}
use itoyori_github_io.CacheSystem.{Slot}
use itoyori_github_io.CacheSystem.Inv as CI
use itoyori_github_io.CacheManager.{Block, Manager, is_empty, slot, is_writing_back, RegionSet}
use itoyori_github_io.CacheManager.Inv.{IsConsistent}
use itoyori_github_io.CacheManager.Loop.{Writes, Writes-refl, Frame-trans}
use itoyori_github_io.CacheManager.Sent.{KeepsSlots, Sent-Extends, Extends-trans, Extends}
use itoyori_github_io.Base.{
  refl, if◌then◌else◌, ℕ, ◌≡◌, some, true, ◌≤◌, ◌+◌, false, [], ◌<◌, ◌^◌, ap, Bool-cases, List, inl,
  get_elem?, ◌∙◌, length, arith, inr, sym, get_elem?-lt,
}

-- No slot has dirty bytes.
abbrev pub IsClean : Manager → Type 0
IsClean m = (i : ℕ) (s : Slot Block) → slot i m ≡ some s → s.entry.dirty_regions ≡ []

writeback_blocks-nil : (m : Manager) → writeback_blocks [] m ≡ some m
unfolding writeback_blocks
writeback_blocks-nil m = refl

pub true-ne-false : true ≡ false → ⊥
true-ne-false h = cc

-- `m'` is `m` after `writeback_begin`.
pub record Begins (m m' : Manager) : Type 0 where
  pub frame : Frame m m'
  pub extends : Extends m m'
  pub slots : KeepsSlots m m'
  pub consistent : IsConsistent m'
  pub is_clean : IsClean m'
  pub no_list : m'.dirty_cache_blocks ≡ []
  pub advance : m'.epoch ≤ m.epoch + length m.dirty_cache_blocks

-- The list is cleared once nothing is dirty.
cleared_lem :
    (m m' : Manager)
    → Writes m m'
    → IsClean m'
    → m'.epoch ≤ m.epoch + length m.dirty_cache_blocks
    → Begins m (record m' { dirty_cache_blocks = [] })
cleared_lem m m' w c le = record {
  frame = Frame-trans m m' (record m' { dirty_cache_blocks = [] }) w.frame refl;
  extends = w.extends;
  slots = w.slots;
  consistent = record {
    cs_ok = w.consistent.cs_ok;
    slots = λ i s e.
        let v = w.consistent.slots i s e in
        record {
          ranked = v.ranked;
          bounded = v.bounded;
          valid_ok = v.valid_ok;
          dirty_ok = v.dirty_ok;
          dirty_valid = v.dirty_valid;
          free = v.free;
          numbered = v.numbered;
          started = v.started;
          listed = inl (c i s e);
        };
    in_cache = tt;
    clean = elim w.consistent.clean [ inl h ↦ inl h | inr (_, h) ↦ inr (refl, h) ];
  };
  is_clean = c;
  no_list = refl;
  advance = le;
}

pub writeback_begin_lem :
    (m : Manager)
    → IsConsistent m
    → m.epoch + length m.dirty_cache_blocks < 2 ^ 64
    → (m' : Manager) × (writeback_begin m ≡ some m') × Begins m m'
unfolding writeback_begin
writeback_begin_lem m v room = elim (Bool-cases (is_empty m.dirty_cache_blocks)) [
  | inl t ↦
      let gone : m.dirty_cache_blocks ≡ [] = is_empty-eq m.dirty_cache_blocks t in
      let idle : writeback_blocks m.dirty_cache_blocks m ≡ some m =
        ap (λ (is : List ℕ). writeback_blocks is m) gone ∙ writeback_blocks-nil m in
      (
        record m { dirty_cache_blocks = [] },
        rw (idle),
        cleared_lem m m (Writes-refl m v)
            (λ i s e. elim (v.slots i s e).listed [
              | inl h ↦ h
              | inr h ↦ absurd (h (ap (CI.occurs i) gone))
            ])
            (omega arith),
      )
  | inr f ↦
      let h : m.has_dirty_cache ≡ true = elim v.clean [
        | inl h ↦ h
        | inr (e, _) ↦ absurd (true-ne-false (sym (ap is_empty e) ∙ f))
      ] in
      let (m', run, w, le, out) =
        writeback_blocks_lem m.dirty_cache_blocks m v v.in_cache h f room in
      (
        record m' { dirty_cache_blocks = [] },
        rw (run),
        cleared_lem m m' w
            (λ i s e. elim (w.consistent.slots i s e).listed [
              | inl g ↦ g
              | inr g ↦ out i s e (λ z. g (ap (CI.occurs i) w.same_list ∙ z))
            ])
            le,
      )
]

-- `m'` is `m` after `ensure_all_cache_clean`.
pub record Cleans (m m' : Manager) : Type 0 where
  pub frame : Frame m m'
  pub extends : Extends m m'
  pub slots : KeepsSlots m m'
  pub consistent : IsConsistent m'
  pub is_clean : IsClean m'
  pub nothing_pending :
      (m'.dirty_cache_blocks ≡ []) × (m'.writing_back_wins ≡ []) × (m'.has_dirty_cache ≡ false)
  pub none_started :
      (i : ℕ) (s : Slot Block) → slot i m' ≡ some s → is_writing_back m'.epoch s.entry ≡ false
  pub advance : m'.epoch ≤ m.epoch + length m.dirty_cache_blocks + 1

-- What is dirty is sent and settled.
pub ensure_all_cache_clean-Cleans :
    (m : Manager)
    → IsConsistent m
    → m.epoch + length m.dirty_cache_blocks + 1 < 2 ^ 64
    → (m' : Manager) × (ensure_all_cache_clean m ≡ some m') × Cleans m m'
unfolding ensure_all_cache_clean
ensure_all_cache_clean-Cleans m v room =
    let (m1, run, b) = writeback_begin_lem m v (omega arith) in
    let c = writeback_complete_lem m1 b.consistent (omega (arith, b.advance)) in
    let m2 = writeback_complete m1 in
    let at : (i : ℕ) → slot i m2 ≡ slot i m1 = λ i. ap (λ cs. get_elem? cs.entries i) c.same_cs in
    let done : m2.has_dirty_cache ≡ false =
      c.dirty ∙ ap (λ (is : List ℕ). if is_empty is then false else m1.has_dirty_cache) b.no_list in
    (
      m2,
      rw (run, done),
      record {
        frame = Frame-trans m m1 m2 b.frame c.frame;
        extends = Extends-trans m m1 m2 b.extends c.extends;
        slots = λ i s e.
            let (d, k, g, keep) = b.slots i s e in
            (
              d,
              k,
              at i ∙ g,
              elim keep [
                | inl p ↦ inl p
                | inr (p, sent) ↦ inr (p, Sent-Extends m.block_size s m1 m2 c.extends sent)
              ],
            );
        consistent = c.consistent;
        is_clean = λ i s e. b.is_clean i s (sym (at i) ∙ e);
        nothing_pending = (c.same_list ∙ b.no_list, c.done, done);
        none_started = λ i s e. ground (arith, c.below i s (sym (at i) ∙ e));
        advance = omega (arith, b.advance, c.advance);
      },
    )

-- All dirty bytes have been sent, from the code's offsets.
cleaned-Sent :
    (m m' : Manager) (i : ℕ) (s : Slot Block)
    → Cleans m m'
    → slot i m ≡ some s
    → Sent m.block_size s m'.log
cleaned-Sent m m' i s c at =
    let (d, k, at', keep) = c.slots i s at in
    elim keep [
      | inl same ↦ λ x h.
          let gone : s.entry.dirty_regions ≡ [] = sym same ∙ c.is_clean i (rewritten s d k) at' in
          absurd (true-ne-false (sym h ∙ ap (λ (rs : RegionSet). covers rs x) gone))
      | inr (_, sent) ↦ sent
    ]

-- In a cache without wrapping offsets they have been sent from where they are.
pub cleaned-SentHome :
    (m m' : Manager) (i : ℕ) (s : Slot Block)
    → IsConsistent m
    → FitsOffsets m
    → Cleans m m'
    → slot i m ≡ some s
    → SentHome m.block_size s m'.log
cleaned-SentHome m m' i s v fits c at x h =
    let w = v.slots i s at in
    let in_range : s.entry.entry_idx < m.cs.nentries = elim (Bool-cases s.allocated) [
      | inl a ↦ omega (arith, w.numbered a, v.cs_ok.sized, get_elem?-lt m.cs.entries i s at)
      | inr f ↦ absurd (true-ne-false (sym h ∙ ap (λ (rs : RegionSet). covers rs x) (w.free f).1))
    ] in
    ap (λ (n : ℕ). sends s.entry n m'.log x)
      (sym (cache_offset_lem s.entry.entry_idx m.cs.nentries m.block_size in_range fits))
    ∙ cleaned-Sent m m' i s c at x h

-- In a consistent state of a cache of at most 4 GiB whose epoch does not wrap,
-- `ensure_all_cache_clean` passes all checks. Afterwards the state is consistent, no block has dirty
-- bytes, none is being written back and the flag is reset; every byte that was dirty has been sent
-- from its place in the cache to its place at home, and every slot keeps all else that it holds, but
-- for the epoch of its writing back.
pub ensure_all_cache_clean_lem :
    (m : Manager)
    → IsConsistent m
    → FitsOffsets m
    → m.epoch + length m.dirty_cache_blocks + 1 < 2 ^ 64
    → (m' : Manager) × (ensure_all_cache_clean m ≡ some m')
      × Cleans m m'
      × ((i : ℕ) (s : Slot Block) → slot i m ≡ some s → SentHome m.block_size s m'.log)
ensure_all_cache_clean_lem m v fits room =
    let (m', run, c) = ensure_all_cache_clean-Cleans m v room in
    (m', run, c, λ i s e. cleaned-SentHome m m' i s v fits c e)
