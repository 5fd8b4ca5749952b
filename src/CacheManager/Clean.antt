-- ===== src/CacheManager/Clean.antt =====
-- What the writing back in cache_manager.hpp does to the state: `writeback_complete` and
-- `writeback_begin(cb)`.
use itoyori_github_io.Base.{
  ℕ, ◌+◌, ◌≤◌, ◌<◌, ◌≡◌, refl, sym, subst, inl, inr, true, false, some, List, [], ◌∷◌, ◌&&◌, arith,
  if◌then◌else◌, Bool-cases, ◌++◌, ◌^◌, map,
}
use itoyori_github_io.CacheSystem.{Slot}
use mathlib.Core.List.{append-nil}
use itoyori_github_io.CacheManager.Sent.{Extends, Extends-trans}
use itoyori_github_io.CacheManager.{Block, Manager, is_empty, slot, next_epoch, Request}
use itoyori_github_io.CacheManager.Writeback.{
  settle, writeback_complete, flush_writebacks, sort_unique,
}
use itoyori_github_io.CacheManager.Inv.{IsConsistent}

-- The fields that no writing back touches.
abbrev pub Frame : Manager → Manager → Type 0
Frame m m' = m' ≡ record m {
  cs = record (m.cs) { entries = m'.cs.entries };
  dirty_cache_blocks = m'.dirty_cache_blocks;
  epoch = m'.epoch;
  writing_back_wins = m'.writing_back_wins;
  has_dirty_cache = m'.has_dirty_cache;
  current_epoch = m'.current_epoch;
  log = m'.log;
}

-- `m'` is `m` after `writeback_complete`.
pub record Completes (m m' : Manager) : Type 0 where
  pub frame : Frame m m'
  pub extends : Extends m m'
  pub same_cs : m'.cs ≡ m.cs
  pub same_list : m'.dirty_cache_blocks ≡ m.dirty_cache_blocks
  pub consistent : IsConsistent m'
  pub done : m'.writing_back_wins ≡ []
  pub below : (i : ℕ) (s : Slot Block) → slot i m ≡ some s → s.entry.writeback_epoch < m'.epoch
  pub advance : m'.epoch ≤ m.epoch + 1
  pub dirty :
      m'.has_dirty_cache ≡ (if is_empty m.dirty_cache_blocks then false else m.has_dirty_cache)

pub is_empty-eq {ℓ} : {A : Type ℓ} (xs : List A) → is_empty xs ≡ true → xs ≡ []
is_empty-eq [] h = refl
is_empty-eq (x ∷ xs) h = absurd (cc)

-- Once no window is written back any more.
settle_lem :
    (m : Manager)
    → IsConsistent m
    → m.writing_back_wins ≡ []
    → ((i : ℕ) (s : Slot Block) → slot i m ≡ some s → s.entry.writeback_epoch < m.epoch)
    → Completes m (settle m)
unfolding settle
settle_lem m v e below = elim (Bool-cases (is_empty m.dirty_cache_blocks && m.has_dirty_cache)) [
  | inl t ↦
      let run : settle m
          ≡ record m { has_dirty_cache = false; current_epoch = next_epoch m.current_epoch } =
        rw (settle, t) in
      subst (Completes m) (sym run) (record {
        frame = refl;
        extends = ([], sym (append-nil m.log));
        same_cs = refl;
        same_list = refl;
        consistent = record {
          cs_ok = v.cs_ok;
          slots = v.slots;
          in_cache = v.in_cache;
          clean = inr (is_empty-eq m.dirty_cache_blocks (ground (arith, t)), e);
        };
        done = e;
        below = below;
        advance = omega arith;
        dirty = ground (arith, t);
      })
  | inr f ↦
      let run : settle m ≡ m = rw (settle, f) in
      subst (Completes m) (sym run) (record {
        frame = refl;
        extends = ([], sym (append-nil m.log));
        same_cs = refl;
        same_list = refl;
        consistent = v;
        done = e;
        below = below;
        advance = omega arith;
        dirty = ground (arith, f);
      })
]

-- The windows are flushed and a new epoch begins.
abbrev flushed : List Request → Manager → Manager
flushed requests m = record m {
  log = m.log ++ requests;
  writing_back_wins = [];
  epoch = next_epoch m.epoch;
}

flushed_lem :
    (requests : List Request) (m : Manager)
    → IsConsistent m
    → m.epoch + 1 < 2 ^ 64
    → IsConsistent (flushed requests m)
      × ((i : ℕ) (s : Slot Block)
          → slot i m ≡ some s
          → s.entry.writeback_epoch < next_epoch m.epoch)
flushed_lem requests m v room =
    let next : next_epoch m.epoch ≡ m.epoch + 1 = omega arith in
    (
      record {
        cs_ok = v.cs_ok;
        slots = λ i s e.
            let w = v.slots i s e in
            record {
              ranked = w.ranked;
              bounded = w.bounded;
              valid_ok = w.valid_ok;
              dirty_ok = w.dirty_ok;
              dirty_valid = w.dirty_valid;
              free = w.free;
              numbered = w.numbered;
              started = inl (ground (arith, w.started, next));
              listed = w.listed;
            };
        in_cache = v.in_cache;
        clean = elim v.clean [ inl h ↦ inl h | inr (h, k) ↦ inr (h, refl) ];
      },
      λ i s e. let w = (v.slots i s e).started in ground (arith, w, next),
    )

-- A completion after a change that touches only the windows and the epoch.
Completes-flushed :
    (requests : List Request) (m m' : Manager)
    → m.epoch + 1 < 2 ^ 64
    → Completes (flushed requests m) m'
    → m'.epoch ≤ m.epoch + 1
    → Completes m m'
Completes-flushed requests m m' room c le = record {
  frame = c.frame;
  extends = Extends-trans m (flushed requests m) m' (requests, refl) c.extends;
  same_cs = c.same_cs;
  same_list = c.same_list;
  consistent = c.consistent;
  done = c.done;
  below = c.below;
  advance = le;
  dirty = c.dirty;
}

settle-epoch : (m : Manager) → (settle m).epoch ≡ m.epoch
unfolding settle
settle-epoch m = ground arith

pub writeback_complete_lem :
    (m : Manager) → IsConsistent m → m.epoch + 1 < 2 ^ 64 → Completes m (writeback_complete m)
unfolding writeback_complete flush_writebacks
writeback_complete_lem m v room = elim (Bool-cases (is_empty m.writing_back_wins)) [
  | inl t ↦
      let none_left : m.writing_back_wins ≡ [] = is_empty-eq m.writing_back_wins t in
      let run : writeback_complete m ≡ settle m = rw (flush_writebacks, t) in
      subst (Completes m) (sym run) (
        settle_lem m v none_left (λ i s e. let w = (v.slots i s e).started in ground (arith, w, t)))
  | inr f ↦
      let requests = map Request.flush (sort_unique m.writing_back_wins) in
      let run : writeback_complete m ≡ settle (flushed requests m) = rw (flush_writebacks, f) in
      let (w, below) = flushed_lem requests m v room in
      subst (Completes m) (sym run) (
        Completes-flushed requests m (settle (flushed requests m)) room
          (settle_lem (flushed requests m) w refl below)
          (omega (arith, settle-epoch (flushed requests m))))
]
