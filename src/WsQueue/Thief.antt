-- ===== src/WsQueue/Thief.antt =====
-- The operations of other processes on the queue of wsqueue.hpp: steal_nolock, steal, abort_steal and
-- trypass.
use itoyori_github_io.Base.{
  suc, ◌+◌, ◌-◌, ◌<◌, ◌≡◌, ◌≢◌, ◌⊎◌, refl, sym, ap, inl, inr, Bool, true, false, Option, none, some,
  [], ◌∷◌, arith, length, get_elem?, set, length-set, get_elem?-set, get_elem?-total, Bool-cases,
  Option-cases, ltb, ◌==◌, ◌∙◌,
}
use itoyori_github_io.WsQueue.{
  WsQueue, Outcome, done, full, stuck, steal, steal_nolock, abort_steal, trypass, acquire, release,
  read, write,
}
use itoyori_github_io.WsQueue.Moves.{slice, contents, IsValid, slice-set, read_lem, write_lem}

true-ne-false : true ≢ false
true-ne-false h = absurd (cc)

module _ {A : Type 0} where
  -- A queue that is empty has no contents, and another one has a first entry.
  pub contents_first :
      (p : Bool) (q : WsQueue A)
      → IsValid p q
      → q.base < q.top
      → (e : A) × (get_elem? q.entries q.base ≡ some e)
        × (contents q ≡ e ∷ slice (q.top - suc q.base) (suc q.base) q.entries)
  contents_first p q (a, b, c, d, _, _) l =
      let (e, at) = get_elem?-total q.entries q.base (omega arith) in
      let more : q.top - q.base ≡ suc (q.top - suc q.base) = omega arith in
      (e, at, rw (more, slice, at))

  -- `steal` of a valid queue succeeds. It takes the first entry, or the queue is empty and stays as it
  -- was.
  pub steal_lem :
      (p : Bool) (q : WsQueue A)
      → IsValid p q
      → ((steal q ≡ done q none) × (contents q ≡ []))
        ⊎ ((q' : WsQueue A) × (e : A) × (steal q ≡ done q' (some e))
            × IsValid p q'
            × (contents q ≡ e ∷ contents q'))
  unfolding steal steal_nolock acquire release read
  steal_lem p q v =
      let (a, b, c, d, lock0, note) = v in
      let free : (q.lock == 0) ≡ true = ground (arith, lock0) in
      elim (Bool-cases (ltb q.base q.top)) [
        | inl t ↦
            let (e, at, first) = contents_first p q v (ground (arith, t)) in
            let next : q.base + 1 ≡ suc q.base = omega arith in
            inr (
              record q { base = suc q.base; lock = 0 },
              e,
              rw (free, t, read_lem q.base (record q { base = q.base + 1; lock = 1 }) e at, next),
              (ground (arith, t), b, c, d, refl, ground (arith, t, note)),
              first,
            )
        | inr f ↦
            let back : q.base + 1 - 1 ≡ q.base = omega arith in
            let empty : q.top - q.base ≡ 0 = ground (arith, f) in
            inl (
              rw (free, f, back) (ap (λ l. done (record q { lock = l }) none) (sym lock0)),
              rw (empty),
            )
      ]

  abbrev after : WsQueue A → Outcome (WsQueue A) (Option A) → WsQueue A
  after d (done q r) = q
  after d (full q) = d
  after d stuck = d

  abbrev gave : Outcome (WsQueue A) (Option A) → Bool
  gave (done q (some e)) = true
  gave (done q none) = false
  gave (full q) = false
  gave stuck = false

  -- What `steal_nolock` does to the state when it gives an entry.
  steal_nolock_state :
      (q q' : WsQueue A) (e : A)
      → steal_nolock q ≡ done q' (some e)
      → (q' ≡ record q { base = q.base + 1 }) × ((q.lock == 0) ≡ false)
  unfolding steal_nolock read
  steal_nolock_state q q' e h = elim (Bool-cases (q.lock == 0)) [
    | inl t ↦ absurd (true-ne-false (sym (ap gave h) ∙ rw (t)))
    | inr held ↦ elim (Bool-cases (ltb q.base q.top)) [
      | inl t ↦ elim (Option-cases (get_elem? q.entries q.base)) [
        | inl z ↦ absurd (true-ne-false (sym (ap gave h) ∙ rw (held, t, read, z)))
        | inr (d, z) ↦ (sym (ap (after q) h) ∙ rw (held, t, read, z), held)
      ]
      | inr f ↦ absurd (true-ne-false (sym (ap gave h) ∙ rw (held, f)))
    ]
  ]

  -- `abort_steal` after a successful `steal_nolock` restores the queue.
  pub abort_steal-steal_nolock :
      (q q' : WsQueue A) (e : A) → steal_nolock q ≡ done q' (some e) → abort_steal q' ≡ done q tt
  unfolding abort_steal
  abort_steal-steal_nolock q q' e h =
      let (state, held) = steal_nolock_state q q' e h in
      let positive : (q.base + 1 == 0) ≡ false = ground arith in
      let back : q.base + 1 - 1 ≡ q.base = omega arith in rw (state, held, positive, back)

  -- With `EnablePass` `trypass` on a valid queue succeeds. Without room before the base it returns false
  -- and the queue stays as it was; otherwise the entry is the new first one and the queue stays valid.
  pub trypass_lem :
      (e : A) (q : WsQueue A)
      → IsValid true q
      → ((trypass true e q ≡ done q false) × (q.base ≡ 0))
        ⊎ ((q' : WsQueue A) × (trypass true e q ≡ done q' true)
            × (0 < q.base)
            × IsValid true q'
            × (contents q' ≡ e ∷ contents q))
  unfolding trypass acquire write release
  trypass_lem e q (a, b, c, d, lock0, note) =
      let free : (q.lock == 0) ≡ true = ground (arith, lock0) in
      elim (Bool-cases (q.base == 0)) [
        | inl z ↦ inl (
          rw (free, z) (ap (λ l. done (record q { lock = l }) false) (sym lock0)),
          ground (arith, z),
        )
        | inr s ↦
            let l : q.base - 1 < length q.entries = ground (arith, s) in
            let more : q.top - (q.base - 1) ≡ suc (q.top - q.base) = ground (arith, s) in
            let next : suc (q.base - 1) ≡ q.base = ground (arith, s) in
            let at : get_elem? (set q.entries (q.base - 1) e) (q.base - 1) ≡ some e =
              ground (arith, get_elem?-set q.entries (q.base - 1) (q.base - 1) e l) in
            inr (
              record q { base = q.base - 1; entries = set q.entries (q.base - 1) e; lock = 0 },
              rw (free, s, write_lem (q.base - 1) e (record q { lock = 1 }) (ground (arith, s))),
              ground (arith, s),
              (
                omega arith,
                b,
                c,
                omega (arith, length-set q.entries (q.base - 1) e),
                refl,
                ground (arith, note),
              ),
              rw (more, slice, at, next)
                  (ap (λ xs. e ∷ xs)
                    (slice-set (q.top - q.base) q.base (q.base - 1) q.entries e l
                      (inl (ground (arith, s))))),
            )
      ]
