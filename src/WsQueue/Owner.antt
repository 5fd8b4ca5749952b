-- ===== src/WsQueue/Owner.antt =====
-- The operations of the owner on the queue of wsqueue.hpp: push, with the room it makes in a full array,
-- and pop.
use itoyori_github_io.Base.{
  get_elem?-at, ℕ, suc, ◌+◌, ◌-◌, ◌/◌, ◌≤◌, ◌<◌, ◌≡◌, ◌⊎◌, refl, sym, ap, inl, inr, Bool, true,
  false, not, Option, none, if◌then◌else◌, some, List, [], ◌∷◌, ◌++◌, ◌&&◌, arith, length,
  get_elem?, set, length-set, get_elem?-set, get_elem?-total, Bool-cases, ltb, leb, ◌==◌, ◌∙◌,
}
use itoyori_github_io.WsQueue.{
  WsQueue, done, full, acquire, release, move_to, move_entries, make_room, push, keep_room, reset,
  pop_locked, pop_top, pop,
}
use itoyori_github_io.WsQueue.Moves.{
  slice, contents, IsValid, slice-eq, slice-set, slice-snoc, shift_lem, read_lem, write_lem,
}

-- The note after a push.
local_empty_lem :
    (p note : Bool) {P : Type 0}
    → (note ≡ false) ⊎ ((p ≡ false) × P)
    → {Q : Type 0} → ((if p then note else false) ≡ false) ⊎ Q
local_empty_lem false note h = inl refl
local_empty_lem true note (inl h) = inl h
local_empty_lem true note (inr (h, _)) = absurd (cc)

-- The note after the variables are reset.
reset_note_lem :
    (p note : Bool) (i : ℕ) {P : Type 0}
    → (note ≡ false) ⊎ ((p ≡ false) × P)
    → ((if p then note else true) ≡ false) ⊎ ((p ≡ false) × (i ≡ i))
reset_note_lem false note i h = inr (refl, refl)
reset_note_lem true note i (inl h) = inl h
reset_note_lem true note i (inr (h, _)) = absurd (cc)

module _ {A : Type 0} where
  -- A move within the array to a place that is not in the source keeps the contents.
  pub move_to_lem :
      (b t : ℕ) (q : WsQueue A)
      → q.base ≤ q.top
      → q.top ≤ length q.entries
      → t ≤ length q.entries
      → b + (q.top - q.base) ≡ t
      → (b < q.base) ⊎ (q.top ≤ b)
      → (xs : List A) × (move_to b t q ≡ done (record q { entries = xs; top = t; base = b }) tt)
        × (length xs ≡ length q.entries)
        × (slice (t - b) b xs ≡ contents q)
  unfolding move_to
  move_to_lem b t q le top_in t_in size apart =
      let (ys, run, len, other, moved) =
        shift_lem (q.top - q.base) q.base b q.entries (omega arith) (omega arith)
          (ground (arith, apart)) in
      let legal : (leb q.base b && ltb b q.top) ≡ false = ground (arith, apart) in
      let same : t - b ≡ q.top - q.base = omega arith in
      (ys, rw (legal, run), len, rw (same) (slice-eq (q.top - q.base) q.base b q.entries ys moved))

  -- `make_room` throws when the array is full from its first place on. Otherwise there is room at the top
  -- and the contents are the same.
  pub make_room_lem :
      (p : Bool) (q : WsQueue A)
      → IsValid p q
      → 0 < q.n_entries
      → ((make_room q ≡ full (record q { lock = 1 })) × (q.base ≡ 0) × (q.top ≡ q.n_entries))
        ⊎ ((q' : WsQueue A) × (make_room q ≡ done q' tt)
            × IsValid p q'
            × (q'.top < q'.n_entries)
            × (contents q' ≡ contents q))
  unfolding make_room acquire move_entries release
  make_room_lem p q v pos =
      let (a, b, c, d, lock0, note) = v in
      let free : (q.lock == 0) ≡ true = ground (arith, lock0) in
      let back : record q { lock = 0 } ≡ q = ap (λ l. record q { lock = l }) (sym lock0) in
      let ordered : ltb q.top q.base ≡ false = ground (arith, a) in
      elim (Bool-cases (q.top == q.n_entries)) [
        | inr f ↦ inr (q, rw (f), v, ground (arith, b, f), refl)
        | inl t ↦ elim (Bool-cases (q.base == 0)) [
          | inl z ↦
              let none_free : ((q.base + 1) / 2 == 0) ≡ true = ground (arith, z) in
              inl (rw (t, free, ordered, none_free), ground (arith, z), ground (arith, t))
          | inr s ↦
              let some_free : ((q.base + 1) / 2 == 0) ≡ false = ground (arith, s) in
              let fits : ltb q.base ((q.base + 1) / 2) ≡ false = ground (arith, s) in
              let (xs, run, len, same) =
                move_to_lem (q.base - (q.base + 1) / 2) (q.top - (q.base + 1) / 2)
                  (record q { lock = 1 }) a (omega arith) (omega arith) (ground (arith, s))
                  (ground (arith, s)) in
              inr (
                record q {
                  entries = xs;
                  top = q.top - (q.base + 1) / 2;
                  base = q.base - (q.base + 1) / 2;
                  lock = 0;
                },
                rw (t, free, ordered, some_free, fits, run),
                (ground (arith, s), omega arith, c, omega arith, refl, ground (arith, note, s)),
                ground (arith, s, t),
                same,
              )
        ]
      ]

  -- `push` on a valid queue adds the entry at the end. It throws only when the array is full from its
  -- first place on, and then leaves the queue locked.
  -- `push` on a valid queue adds the entry at the end. It throws only when the array is full from its
  -- first place on, and then leaves the queue locked.
  pub push_lem :
      (enable_pass : Bool) (e : A) (q : WsQueue A)
      → IsValid enable_pass q
      → 0 < q.n_entries
      → ((push enable_pass e q ≡ full (record q { lock = 1 }))
          × (q.base ≡ 0)
          × (q.top ≡ q.n_entries))
        ⊎ ((q' : WsQueue A) × (push enable_pass e q ≡ done q' tt)
            × IsValid enable_pass q'
            × (contents q' ≡ contents q ++ (e ∷ [])))
  unfolding push
  push_lem enable_pass e q v pos = elim (make_room_lem enable_pass q v pos) [
    | inl (run, z, t) ↦ inl (rw (run), z, t)
    | inr (q1, run, (a, b, c, d, lock0, note), room, same) ↦
        let l : q1.top < length q1.entries = omega arith in
        let more : q1.top + 1 - q1.base ≡ suc (q1.top - q1.base) = omega arith in
        let put : get_elem? (set q1.entries q1.top e) (q1.base + (q1.top - q1.base)) ≡ some e =
          ground (arith, get_elem?-set q1.entries q1.top (q1.base + (q1.top - q1.base)) e l) in
        inr (
          record q1 {
            entries = set q1.entries q1.top e;
            top = q1.top + 1;
            local_empty = if enable_pass then q1.local_empty else false;
          },
          rw (run, write_lem q1.top e q1 l),
          (
            omega arith,
            omega arith,
            c,
            omega (arith, length-set q1.entries q1.top e),
            lock0,
            local_empty_lem enable_pass q1.local_empty note,
          ),
          rw (more) (
              slice-snoc (q1.top - q1.base) q1.base (set q1.entries q1.top e) e put
              ∙ ap (λ xs. xs ++ (e ∷ []))
                  (slice-set (q1.top - q1.base) q1.base q1.top q1.entries e l (inr (omega arith))
                    ∙ same)),
        )
  ]

  -- The move at the start of `pop` is not made, or its target is not in its source.
  abbrev pub MovesApart : Bool → WsQueue A → Type 0
  MovesApart p q =
      (p ≡ false)
      ⊎ ((q.n_entries / 10 ≤ q.base)
          ⊎ ((q.n_entries - q.top ≤ q.n_entries / 10)
              ⊎ (q.top - q.base ≤ (q.n_entries - q.top + 1) / 2)))

  pub keep_room_lem :
      (p : Bool) (q : WsQueue A)
      → IsValid p q
      → MovesApart p q
      → (q' : WsQueue A) × (keep_room p q ≡ done q' tt) × IsValid p q' × (contents q' ≡ contents q)
  unfolding keep_room acquire move_entries release
  keep_room_lem p q v apart =
      let (a, b, c, d, lock0, note) = v in
      let free : (q.lock == 0) ≡ true = ground (arith, lock0) in
      let ordered : ltb q.top q.base ≡ false = ground (arith, a) in
      let low : Bool =
        ltb q.base (q.n_entries / 10) && ltb (q.n_entries / 10) (q.n_entries - q.top) in
      elim (Bool-cases (p && low)) [
        | inr f ↦ (q, rw (f), v, refl)
        | inl t ↦
            let off : ℕ = (q.n_entries - q.top + 1) / 2 in
            let some_free : (off == 0) ≡ false = ground (arith, t) in
            let fits : ltb q.n_entries (q.top + off) ≡ false = ground (arith, t) in
            let beyond : q.top ≤ q.base + off = ground (arith, t, apart) in
            let (xs, run, len, same) =
              move_to_lem (q.base + off) (q.top + off) (record q { lock = 1 }) a (omega arith)
                (ground (arith, fits)) (omega arith) (inr beyond) in
            (
              record q { entries = xs; top = q.top + off; base = q.base + off; lock = 0 },
              rw (t, free, ordered, some_free, fits, run),
              (omega arith, ground (arith, fits), c, omega arith, refl, ground (arith, note)),
              same,
            )
      ]

  -- How the result of a `pop` and the queue after it are made from the queue.
  abbrev pub Pops : WsQueue A → WsQueue A → Option A → Type 0
  Pops q q' r =
      ((r ≡ none) × (contents q ≡ []) × (contents q' ≡ []))
      ⊎ ((e : A) × (r ≡ some e) × (contents q ≡ contents q' ++ (e ∷ [])))

  pub pop_top_lem :
      (p : Bool) (q : WsQueue A)
      → IsValid p q
      → (q' : WsQueue A) × (r : Option A) × (pop_top p q ≡ done q' r) × IsValid p q' × Pops q q' r
  unfolding pop_top acquire pop_locked release reset
  pop_top_lem p q v =
      let (a, b, c, d, lock0, note) = v in
      elim (Bool-cases (ltb q.base q.top)) [
        | inl t ↦
            let (e, at) = get_elem?-total q.entries (q.top - 1) (ground (arith, t)) in
            let more : q.top - q.base ≡ suc (q.top - 1 - q.base) = ground (arith, t) in
            let last : q.base + (q.top - 1 - q.base) ≡ q.top - 1 = ground (arith, t) in
            (
              record q { top = q.top - 1 },
              some e,
              rw (t, read_lem (q.top - 1) q e at),
              (ground (arith, t), omega arith, c, d, lock0, ground (arith, note, t)),
              inr (
                e,
                refl,
                rw (more) (
                    slice-snoc (q.top - 1 - q.base) q.base q.entries e (
                      get_elem?-at q.entries (q.base + (q.top - 1 - q.base)) (q.top - 1) last
                      ∙ at)),
              ),
            )
        | inr f ↦
            let free : (q.lock == 0) ≡ true = ground (arith, lock0) in
            let empty : q.top - q.base ≡ 0 = ground (arith, f) in
            let none_1 : ltb (q.base + 1) q.top ≡ false = ground (arith, f) in
            let none_2 : (q.base + 1 == q.top) ≡ false = ground (arith, f) in
            let zero_size : q.initial_pos - q.initial_pos ≡ 0 = omega arith in
            (
              record q {
                top = q.initial_pos;
                base = q.initial_pos;
                local_empty = if p then q.local_empty else true;
                lock = 0;
              },
              none,
              rw (f, free, none_1, none_2),
              (omega arith, c, c, d, refl, reset_note_lem p q.local_empty q.initial_pos note),
              inl (refl, rw (empty), rw (zero_size)),
            )
      ]

  Pops-same :
      (q q1 q' : WsQueue A) (r : Option A) → contents q1 ≡ contents q → Pops q1 q' r → Pops q q' r
  Pops-same q q1 q' r same (inl (a, b, c)) = inl (a, sym same ∙ b, c)
  Pops-same q q1 q' r same (inr (e, a, b)) = inr (e, a, sym same ∙ b)

  -- `pop` on a valid queue succeeds where its move is legal: it takes the last entry, or there is none
  -- and it returns nothing.
  pub pop_lem :
      (p ensure_empty : Bool) (q : WsQueue A)
      → IsValid p q
      → MovesApart p q
      → (q' : WsQueue A) × (r : Option A) × (pop p ensure_empty q ≡ done q' r)
        × IsValid p q'
        × Pops q q' r
  unfolding pop
  pop_lem p ensure_empty q v apart =
      let (q1, room, v1, same) = keep_room_lem p q v apart in
      let (a, b, c, d, lock0, note) = v1 in
      elim (Bool-cases (not p && q1.local_empty)) [
        | inl t ↦
            let empty : q1.top - q1.base ≡ 0 = ground (arith, t, note) in
            (q1, none, rw (room, t), v1, inl (refl, sym same ∙ rw (empty), rw (empty)))
        | inr f ↦ elim (Bool-cases (not ensure_empty && leb q1.top q1.base)) [
          | inl t ↦
              let empty : q1.top - q1.base ≡ 0 = ground (arith, t) in
              (q1, none, rw (room, f, t), v1, inl (refl, sym same ∙ rw (empty), rw (empty)))
          | inr g ↦
              let (q', r, run, v', pops) = pop_top_lem p q1 v1 in
              (q', r, rw (room, f, g, run), v', Pops-same q q1 q' r same pops)
        ]
      ]
