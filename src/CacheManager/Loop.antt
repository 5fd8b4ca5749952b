-- ===== src/CacheManager/Loop.antt =====
-- `writeback_begin(cb)` and the loop over the dirty blocks in cache_manager.hpp.
use itoyori_github_io.Base.{
  ℕ, ◌^◌, ◌<◌, ◌≡◌, refl, sym, ap, subst, ◌∙◌, ◌⊎◌, inl, inr, true, false, some, List, [], ◌∷◌,
  ◌++◌, arith, ◌==◌, Bool-cases, get_elem?-lt, get_elem?-at, ◌-◌,
}
use mathlib.Core.Option.{some-injective}
use itoyori_github_io.CacheSystem.{Slot}
use itoyori_github_io.RegionSet.{RegionSet}
use itoyori_github_io.RegionSet.Cover.{covers}
use itoyori_github_io.CacheManager.Sent.{
  ends_le, rewritten, KeepsSlots, Sent, Sent-Extends, sends, sends-append, Extends, Extends-trans,
  put_requests_lem,
}
use mathlib.Core.List.{append-nil}
use itoyori_github_io.CacheManager.{
  Block, Manager, Request, is_empty, slot, put_block, cache_offset,
}
use itoyori_github_io.CacheManager.Writeback.{start_writeback}
use itoyori_github_io.CacheManager.Inv.{SlotIsSound, IsConsistent, slot-put_block, put_block-Inv}
use itoyori_github_io.CacheManager.Clean.{Frame}

-- `m'` is `m` after some writing back has begun.
pub record Writes (m m' : Manager) : Type 0 where
  pub frame : Frame m m'
  pub extends : Extends m m'
  pub slots : KeepsSlots m m'
  pub consistent : IsConsistent m'
  pub same_list : m'.dirty_cache_blocks ≡ m.dirty_cache_blocks
  pub same_dirty : m'.has_dirty_cache ≡ m.has_dirty_cache

pub Frame-trans : (m m' m'' : Manager) → Frame m m' → Frame m' m'' → Frame m m''
Frame-trans m m' m'' p q =
    q
    ∙ ap
        (λ (x : Manager). record x {
          cs = record (x.cs) { entries = m''.cs.entries };
          dirty_cache_blocks = m''.dirty_cache_blocks;
          epoch = m''.epoch;
          writing_back_wins = m''.writing_back_wins;
          has_dirty_cache = m''.has_dirty_cache;
          current_epoch = m''.current_epoch;
          log = m''.log;
        })
        p

pub KeepsSlots-trans :
    (m m' m'' : Manager)
    → m'.block_size ≡ m.block_size
    → Extends m' m''
    → KeepsSlots m m'
    → KeepsSlots m' m''
    → KeepsSlots m m''
KeepsSlots-trans m m' m'' size ext p q i s h =
    let (d, e, g, o) = p i s h in
    let (d', e', g', o') = q i (rewritten s d e) g in
    (
      d',
      e',
      g',
      elim o' [
        | inl a ↦ elim o [
          | inl b ↦ inl (a ∙ b)
          | inr (b, sent) ↦ inr (a ∙ b, Sent-Extends m.block_size s m' m'' ext sent)
        ]
        | inr (a, sent') ↦ elim o [
          | inl b ↦ inr (
            a,
            λ x c.
                ap (λ (n : ℕ). sends s.entry (cache_offset s.entry.entry_idx n) m''.log x)
                  (sym size)
                ∙ sent' x (ap (λ (rs : RegionSet). covers rs x) b ∙ c),
          )
          | inr (b, sent) ↦ inr (a, Sent-Extends m.block_size s m' m'' ext sent)
        ]
      ],
    )

pub Writes-trans : (m m' m'' : Manager) → Writes m m' → Writes m' m'' → Writes m m''
Writes-trans m m' m'' p q = record {
  frame = Frame-trans m m' m'' p.frame q.frame;
  extends = Extends-trans m m' m'' p.extends q.extends;
  slots =
      KeepsSlots-trans m m' m'' (ap (λ (x : Manager). x.block_size) p.frame) q.extends p.slots
        q.slots;
  consistent = q.consistent;
  same_list = q.same_list ∙ p.same_list;
  same_dirty = q.same_dirty ∙ p.same_dirty;
}

pub Writes-refl : (m : Manager) → IsConsistent m → Writes m m
Writes-refl m v = record {
  frame = refl;
  extends = ([], sym (append-nil m.log));
  slots = λ i s h. (s.entry.dirty_regions, s.entry.writeback_epoch, h, inl refl);
  consistent = v;
  same_list = refl;
  same_dirty = refl;
}

is_empty-snoc {ℓ} : {A : Type ℓ} (xs : List A) (x : A) → is_empty (xs ++ (x ∷ [])) ≡ false
is_empty-snoc [] x = refl
is_empty-snoc (y ∷ ys) x = refl

-- The state after `start_writeback`.
abbrev started : ℕ → Slot Block → List Request → Manager → Manager
started i s puts m =
    put_block i s (record (s.entry) { dirty_regions = []; writeback_epoch = m.epoch })
      (record m {
        log = m.log ++ puts;
        writing_back_wins = m.writing_back_wins ++ (s.entry.win ∷ []);
      })

-- The slot whose writing back has started, and a slot that the list of windows grows for.
written-SlotIsSound :
    (ranks epoch : ℕ) (wins dirty : List ℕ) (w i : ℕ) (s : Slot Block)
    → SlotIsSound ranks epoch wins dirty i s
    → SlotIsSound ranks epoch (wins ++ (w ∷ [])) dirty i (rewritten s [] epoch)
written-SlotIsSound ranks epoch wins dirty w i s v = record {
  ranked = v.ranked;
  bounded = v.bounded;
  valid_ok = v.valid_ok;
  dirty_ok = tt;
  dirty_valid = λ x c. absurd (cc);
  free = λ f. ((v.free f).0, refl);
  numbered = v.numbered;
  started = inr (refl, is_empty-snoc wins w);
  listed = inl refl;
}

grown-SlotIsSound :
    (ranks epoch : ℕ) (wins dirty : List ℕ) (w i : ℕ) (s : Slot Block)
    → SlotIsSound ranks epoch wins dirty i s
    → SlotIsSound ranks epoch (wins ++ (w ∷ [])) dirty i s
grown-SlotIsSound ranks epoch wins dirty w i s v = record {
  ranked = v.ranked;
  bounded = v.bounded;
  valid_ok = v.valid_ok;
  dirty_ok = v.dirty_ok;
  dirty_valid = v.dirty_valid;
  free = v.free;
  numbered = v.numbered;
  started = elim v.started [ inl l ↦ inl l | inr (a, _) ↦ inr (a, is_empty-snoc wins w) ];
  listed = v.listed;
}

started-slots :
    (i : ℕ) (s : Slot Block) (puts : List Request) (m : Manager)
    → slot i m ≡ some s
    → Sent m.block_size s (m.log ++ puts)
    → KeepsSlots m (started i s puts m)
started-slots i s puts m e sent j t h =
    let at =
      slot-put_block i j s (record (s.entry) { dirty_regions = []; writeback_epoch = m.epoch }) m
        e in
    elim (Bool-cases (i == j)) [
      | inl same ↦
          let which : some s ≡ some t =
            sym e ∙ get_elem?-at m.cs.entries i j (ground (arith, same)) ∙ h in
          let eq : s ≡ t = some-injective s t which in
          (
            [],
            m.epoch,
            at ∙ rw (same) (ap (λ (k : Slot Block). some (rewritten k [] m.epoch)) eq),
            inr (refl, subst (λ (k : Slot Block). Sent m.block_size k (m.log ++ puts)) eq sent),
          )
      | inr other ↦ (t.entry.dirty_regions, t.entry.writeback_epoch, at ∙ rw (other) h, inl refl)
    ]

started_sound :
    (i : ℕ) (s : Slot Block) (puts : List Request) (m : Manager)
    → IsConsistent m
    → slot i m ≡ some s
    → (j : ℕ) (t : Slot Block) → slot j (started i s puts m) ≡ some t
    → SlotIsSound m.n_ranks m.epoch
        (m.writing_back_wins ++ (s.entry.win ∷ []))
        m.dirty_cache_blocks
        j
        t
started_sound i s puts m v e j t h =
    let at =
      slot-put_block i j s (record (s.entry) { dirty_regions = []; writeback_epoch = m.epoch }) m
        e in
    elim (Bool-cases (i == j)) [
      | inl same ↦
          let which : some (rewritten s [] m.epoch) ≡ some t = sym (at ∙ rw (same)) ∙ h in
          let eq : rewritten s [] m.epoch ≡ t = some-injective (rewritten s [] m.epoch) t which in
          let index : i ≡ j = ground (arith, same) in
          subst
            (λ (k : Slot Block).
              SlotIsSound m.n_ranks m.epoch (m.writing_back_wins ++ (s.entry.win ∷ []))
                m.dirty_cache_blocks j k)
            eq
            (subst
              (λ (k : ℕ).
                SlotIsSound m.n_ranks m.epoch (m.writing_back_wins ++ (s.entry.win ∷ []))
                  m.dirty_cache_blocks k (rewritten s [] m.epoch))
              index
              (written-SlotIsSound m.n_ranks m.epoch m.writing_back_wins m.dirty_cache_blocks
                s.entry.win i s (v.slots i s e)))
      | inr other ↦
          let old : slot j m ≡ some t = sym (at ∙ rw (other)) ∙ h in
          grown-SlotIsSound m.n_ranks m.epoch m.writing_back_wins m.dirty_cache_blocks s.entry.win j
            t (v.slots j t old)
    ]

-- `start_writeback` begins to write slot `i` back.
pub start_writeback_lem :
    (i : ℕ) (s : Slot Block) (m : Manager)
    → IsConsistent m
    → slot i m ≡ some s
    → m.has_dirty_cache ≡ true
    → (m' : Manager) × (start_writeback i s m ≡ some m')
      × Writes m m'
      × (m'.epoch ≡ m.epoch)
      × (slot i m' ≡ some (rewritten s [] m.epoch))
unfolding start_writeback
start_writeback_lem i s m v e h =
    let w = v.slots i s e in
    let in_range : (s.entry.dirty_regions ≡ []) ⊎ (s.entry.entry_idx < m.cs.nentries) =
      elim (Bool-cases s.allocated) [
        | inl a ↦ inr (omega (arith, w.numbered a, v.cs_ok.sized, get_elem?-lt m.cs.entries i s e))
        | inr f ↦ inl (w.free f).1
      ] in
    let short =
      ends_le 0 (2 ^ 32 - 1) s.entry.dirty_regions w.dirty_ok
        (λ x c. omega (arith, w.bounded x (w.dirty_valid x c))) in
    let (puts, run, sent) =
      put_requests_lem m.cs.nentries m.block_size 0 s.entry s.entry.dirty_regions in_range
        w.dirty_ok short in
    let at =
      slot-put_block i i s (record (s.entry) { dirty_regions = []; writeback_epoch = m.epoch }) m
        e in
    (
      started i s puts m,
      rw (run),
      record {
        frame = refl;
        slots = started-slots i s puts m e (λ x c. ground (
          arith,
          sends-append s.entry (cache_offset s.entry.entry_idx m.block_size) m.log puts x,
          sent x c,
        ));
        extends = (puts, refl);
        consistent = record {
          cs_ok =
              put_block-Inv i s (record (s.entry) { dirty_regions = []; writeback_epoch = m.epoch })
                m e v.cs_ok;
          slots = started_sound i s puts m v e;
          in_cache = v.in_cache;
          clean = inl h;
        };
        same_list = refl;
        same_dirty = refl;
      },
      refl,
      ground (arith, at),
    )
