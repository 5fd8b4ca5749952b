-- ===== src/WsQueue.antt =====
-- include/ityr/ito/wsqueue.hpp: `wsqueue<Entry, EnablePass>`, the work-stealing queue of a process, for
-- one queue of the process and for operations that run one after the other. The owner pushes and pops
-- at the top, thieves take and pass entries at the base.
pub mod Moves
pub mod Owner
pub mod Thief
mod Tests
use itoyori_github_io.Base.{
  ℕ, zero, suc, ◌+◌, ◌-◌, ◌/◌, Bool, true, false, not, ◌&&◌, ◌||◌, Option, none, some, List, [],
  ◌∷◌, ltb, leb, ◌==◌, if◌then◌else◌, ◌>>=◌, get_elem?, set,
}

-- How an operation ends: with a state and a result, with `wsqueue_full_exception` thrown in a state, or
-- not as the code means it: a failed check, a lock that never becomes free, an access outside of the
-- window, or a call of `std::move` that the C++ standard leaves undefined.
pub data Outcome (S B : Type 0) : Type 0 where
  done : S → B → Outcome S B
  full : S → Outcome S B
  stuck : Outcome S B

infixl 5 ◌>>>◌
abbrev pub ◌>>>◌ : {S B C : Type 0} → Outcome S B → (S → B → Outcome S C) → Outcome S C
done s b >>> f = f s b
full s >>> f = full s
stuck >>> f = stuck

-- The fields, with the lock word of the queue's `global_lock`.
pub record WsQueue (A : Type 0) : Type 0 where
  pub n_entries : ℕ
  pub initial_pos : ℕ
  pub top : ℕ
  pub base : ℕ
  pub entries : List A
  pub lock : ℕ
  pub local_empty : Bool

-- A signed offset: towards the start of the array or towards its end.
pub data Offset : Type 0 where
  down : ℕ → Offset
  up : ℕ → Offset

module _ {A : Type 0} where
  -- `lock` and `priolock` where no other process comes in between.
  unfoldable pub acquire : WsQueue A → Outcome (WsQueue A) (Unit {0})
  acquire q = if q.lock == 0 then done (record q { lock = 1 }) tt else stuck

  -- `unlock`
  unfoldable pub release : WsQueue A → Outcome (WsQueue A) (Unit {0})
  release q = if q.lock == 0 then stuck else done (record q { lock = q.lock - 1 }) tt

  unfoldable pub read : ℕ → WsQueue A → Outcome (WsQueue A) A
  read i q = elim (get_elem? q.entries i) [ none ↦ stuck | some e ↦ done q e ]

  unfoldable pub write : ℕ → A → WsQueue A → Outcome (WsQueue A) (Unit {0})
  write i e q = elim (get_elem? q.entries i) [
    | none ↦ stuck
    | some _ ↦ done (record q { entries = set q.entries i e }) tt
  ]

  -- `std::move` of `n` elements at `from` to `to`, from the first to the last.
  unfoldable pub shift : ℕ → ℕ → ℕ → List A → Option (List A)
  shift zero from to xs = some xs
  shift (suc n) from to xs =
      get_elem? xs from >>= λ e. get_elem? xs to >>= λ _. shift n (suc from) (suc to) (set xs to e)

  -- The end of `move_entries`. The target of `std::move` must not lie in its source.
  unfoldable pub move_to : ℕ → ℕ → WsQueue A → Outcome (WsQueue A) (Unit {0})
  unfolding shift
  move_to new_b new_t q =
      if leb q.base new_b && ltb new_b q.top
      then stuck
      else elim (shift (q.top - q.base) q.base new_b q.entries) [
        | none ↦ stuck
        | some xs ↦ done (record q { entries = xs; top = new_t; base = new_b }) tt
      ]

  unfoldable pub move_entries : Offset → WsQueue A → Outcome (WsQueue A) (Unit {0})
  unfolding move_to
  move_entries (down n) q =
      if (q.lock == 0) || ltb q.top q.base
      then stuck
      else if (n == 0) || ltb q.base n
      then full q
      else move_to (q.base - n) (q.top - n) q
  move_entries (up n) q =
      if (q.lock == 0) || ltb q.top q.base
      then stuck
      else if (n == 0) || ltb q.n_entries (q.top + n)
      then full q
      else move_to (q.base + n) (q.top + n) q

  -- The locked part of `push`: room is made by half of the free space before the base.
  unfoldable pub make_room : WsQueue A → Outcome (WsQueue A) (Unit {0})
  unfolding acquire move_entries release
  make_room q =
      if q.top == q.n_entries
      then (acquire q >>> λ q1 _. move_entries (down ((q1.base + 1) / 2)) q1 >>> λ q2 _. release q2)
      else done q tt

  unfoldable pub push : Bool → A → WsQueue A → Outcome (WsQueue A) (Unit {0})
  unfolding make_room write
  push enable_pass e q = make_room q >>> λ q1 _. write q1.top e q1 >>> λ q2 _.
      done
        (record q2 {
          top = q2.top + 1;
          local_empty = if enable_pass then q2.local_empty else false;
        })
        tt

  -- The first part of `pop`, which keeps room before the base for `trypass`.
  unfoldable pub keep_room : Bool → WsQueue A → Outcome (WsQueue A) (Unit {0})
  unfolding acquire move_entries release
  keep_room enable_pass q =
      if enable_pass
        && (ltb q.base (q.n_entries / 10) && ltb (q.n_entries / 10) (q.n_entries - q.top))
      then (acquire q >>> λ q1 _.
          move_entries (up ((q1.n_entries - q1.top + 1) / 2)) q1 >>> λ q2 _. release q2)
      else done q tt

  -- Both variables go back to the initial position.
  unfoldable pub reset : Bool → WsQueue A → WsQueue A
  reset enable_pass q = record q {
    top = q.initial_pos;
    base = q.initial_pos;
    local_empty = if enable_pass then q.local_empty else true;
  }

  -- `pop` with the lock taken. `t` is `top - 1`, and `b < t`, `b == t` are written without it.
  unfoldable pub pop_locked : Bool → WsQueue A → Outcome (WsQueue A) (Option A)
  unfolding read reset
  pop_locked enable_pass q =
      if ltb (q.base + 1) q.top
      then (read (q.top - 1) q >>> λ q1 e. done (record q1 { top = q1.top - 1 }) (some e))
      else if q.base + 1 == q.top
      then (read (q.top - 1) q >>> λ q1 e. done (reset enable_pass q1) (some e))
      else done (reset enable_pass q) none

  -- The end of `pop`: `b <= t` is `b < top`.
  unfoldable pub pop_top : Bool → WsQueue A → Outcome (WsQueue A) (Option A)
  unfolding acquire read pop_locked release
  pop_top enable_pass q =
      if ltb q.base q.top
      then (read (q.top - 1) q >>> λ q1 e. done (record q1 { top = q1.top - 1 }) (some e))
      else (acquire q >>> λ q1 _.
          pop_locked enable_pass q1 >>> λ q2 r. release q2 >>> λ q3 _. done q3 r)

  unfoldable pub pop : Bool → Bool → WsQueue A → Outcome (WsQueue A) (Option A)
  unfolding keep_room pop_top
  pop enable_pass ensure_empty q = keep_room enable_pass q >>> λ q1 _.
      if not enable_pass && q1.local_empty
      then done q1 none
      else if not ensure_empty && leb q1.top q1.base
      then done q1 none
      else pop_top enable_pass q1

  -- `mpi_atomic_faa_value` adds to the base before the test, and takes it back.
  unfoldable pub steal_nolock : WsQueue A → Outcome (WsQueue A) (Option A)
  unfolding read
  steal_nolock q =
      let taken : WsQueue A = record q { base = q.base + 1 } in
      if q.lock == 0
      then stuck
      else if ltb q.base q.top
      then (read q.base taken >>> λ q1 e. done q1 (some e))
      else done (record taken { base = taken.base - 1 }) none

  unfoldable pub steal : WsQueue A → Outcome (WsQueue A) (Option A)
  unfolding acquire steal_nolock release
  steal q = acquire q >>> λ q1 _. steal_nolock q1 >>> λ q2 r. release q2 >>> λ q3 _. done q3 r

  -- A base of 0 would become negative.
  unfoldable pub abort_steal : WsQueue A → Outcome (WsQueue A) (Unit {0})
  abort_steal q =
      if (q.lock == 0) || (q.base == 0) then stuck else done (record q { base = q.base - 1 }) tt

  unfoldable pub trypass : Bool → A → WsQueue A → Outcome (WsQueue A) Bool
  unfolding acquire write release
  trypass enable_pass e q =
      if enable_pass
      then (acquire q >>> λ q1 _.
          if q1.base == 0
          then (release q1 >>> λ q2 _. done q2 false)
          else (write (q1.base - 1) e q1 >>> λ q2 _.
              release (record q2 { base = q2.base - 1 }) >>> λ q3 _. done q3 true))
      else stuck

  -- `queue_state::size` and `queue_state::empty`
  unfoldable pub size : WsQueue A → ℕ
  size q = q.top - q.base

  unfoldable pub empty : WsQueue A → Bool
  empty q = leb q.top q.base

-- The constructor, over a window of `n_entries` entries.
unfoldable pub init : {A : Type 0} → Bool → List A → ℕ → WsQueue A
init enable_pass window n_entries = record {
  n_entries = n_entries;
  initial_pos = if enable_pass then n_entries / 2 else 0;
  top = if enable_pass then n_entries / 2 else 0;
  base = if enable_pass then n_entries / 2 else 0;
  entries = window;
  lock = 0;
  local_empty = false;
}
