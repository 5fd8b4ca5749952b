-- ===== src/Tlb/Laws.antt =====
-- What a lookup in tlb.hpp's buffer may return, and which entry an insertion replaces.
use itoyori_github_io.Base.{
  ℕ, zero, suc, ◌+◌, ◌<◌, ◌≤◌, ◌≡◌, refl, sym, ◌∙◌, ap, ◌⊎◌, inl, inr, Bool, true, false, some,
  none, List, [], ◌∷◌, arith, ltb, if◌then◌else◌, length, get_or, set, All, Bool-cases,
  Option-cases, All-set, All-get_or, ltb→lt, subst, get_or-set_self, All-map_pred,
}
use itoyori_github_io.Tlb.{
  TlbEntry, Tlb, fill, index_of, last_index_of, min_index, oldest, add, get, fill_rest, clear,
}

module _ {K E : Type 0} where
  index_of-lt :
      (p : K → Bool) (tes : List (TlbEntry K E)) (i : ℕ) → index_of p tes ≡ some i → i < length tes
  unfolding index_of
  index_of-lt p [] i e = absurd (cc)
  index_of-lt p (te ∷ tes) i e = elim (Option-cases (index_of p tes)) [
    | inl n ↦ ground (arith)
    | inr (j, q) ↦ ground (arith, index_of-lt p tes j q)
  ]

  min_index-lt :
      (best at i : ℕ) (tes : List (TlbEntry K E))
      → at < i
      → min_index best at i tes < i + length tes
  unfolding min_index
  min_index-lt best at i [] h = omega arith
  min_index-lt best at i (te ∷ tes) h =
      let smaller = ltb te.timestamp best in
      omega (
        arith,
        min_index-lt (if smaller then te.timestamp else best) (if smaller then i else at) (i + 1)
            tes (ground arith),
      )

  last_index_of_lem :
      (p : K → Bool) (tes : List (TlbEntry K E)) (i : ℕ) (d : TlbEntry K E)
      → last_index_of p tes ≡ some i
      → (i < length tes) × (p (get_or tes i d).key ≡ true)
  unfolding last_index_of
  last_index_of_lem p [] i d e = absurd (cc)
  last_index_of_lem p (te ∷ tes) i d e = elim (Option-cases (last_index_of p tes)) [
    | inl n ↦ elim (Bool-cases (p te.key)) [
      | inl y ↦ let z : 0 ≡ i = ground arith in rw (← z) (omega arith, y)
      | inr y ↦ absurd (ground arith)
    ]
    | inr (j, q) ↦
        let (l, m) = last_index_of_lem p tes j d q in
        let z : suc j ≡ i = ground arith in rw (← z) (omega arith, m)
  ]

  -- The chosen entry has the smallest timestamp of all.
  min_index_lem :
      (best at i : ℕ) (tes : List (TlbEntry K E)) (d : TlbEntry K E)
      → (min_index best at i tes ≡ at) × All (λ te. best ≤ te.timestamp) tes
        ⊎ ((j : ℕ) × (min_index best at i tes ≡ i + j)
            × (j < length tes)
            × ((get_or tes j d).timestamp < best)
            × All (λ te. (get_or tes j d).timestamp ≤ te.timestamp) tes)
  unfolding min_index
  min_index_lem best at i [] d = inl (refl, tt)
  min_index_lem best at i (te ∷ tes) d = elim (Bool-cases (ltb te.timestamp best)) [
    | inl y ↦ elim (min_index_lem te.timestamp i (i + 1) tes d) [
      | inl (e, a) ↦ inr (0, rw y (e ∙ omega arith), omega arith, ltb→lt _ _ y, (omega arith, a))
      | inr (j, e, l, m, a) ↦ inr (
        suc j,
        rw y (e ∙ omega arith),
        omega arith,
        omega (arith, ltb→lt _ _ y),
        (omega arith, a),
      )
    ]
    | inr y ↦ elim (min_index_lem best at (i + 1) tes d) [
      | inl (e, a) ↦ inl (rw y e, (ground arith, a))
      | inr (j, e, l, m, a) ↦ inr (suc j, rw y (e ∙ omega arith), omega arith, m, (ground arith, a))
    ]
  ]

  pub oldest_lem :
      (tes : List (TlbEntry K E)) (d : TlbEntry K E)
      → 0 < length tes
      → (oldest tes < length tes)
        × All (λ te. (get_or tes (oldest tes) d).timestamp ≤ te.timestamp) tes
  unfolding oldest
  oldest_lem [] d h = elim h [ ]
  oldest_lem (te ∷ tes) d h =
      let P = λ (r : ℕ).
        (r < suc (length tes))
        × All (λ x. (get_or (te ∷ tes) r d).timestamp ≤ x.timestamp) (te ∷ tes) in
      elim (min_index_lem te.timestamp 0 1 tes d) [
        | inl (e, a) ↦ subst P (sym e) (omega arith, (omega arith, a))
        | inr (j, e, l, m, a) ↦
            let z : min_index te.timestamp 0 1 tes ≡ suc j = e ∙ omega arith in
            subst P (sym z) (omega arith, (omega arith, a))
      ]

  -- Every slot is unused or holds an entry that belongs to its key by `Good`.
  abbrev pub IsSound : (K → E → Type 0) → Tlb K E → Type 0
  IsSound Good t =
      All (λ te. (te.key ≡ t.first.key) × (te.entry ≡ t.first.entry) ⊎ Good te.key te.entry) t.rest

  pub IsSound-mono :
      (Good Better : K → E → Type 0) (t : Tlb K E)
      → ((k : K) (e : E) → Good k e → Better k e)
      → IsSound Good t
      → IsSound Better t
  IsSound-mono Good Better t h s =
      All-map_pred
        (λ te. (te.key ≡ t.first.key) × (te.entry ≡ t.first.entry) ⊎ Good te.key te.entry)
        (λ te. (te.key ≡ t.first.key) × (te.entry ≡ t.first.entry) ⊎ Better te.key te.entry) t.rest
        (λ te p. elim p [ inl q ↦ inl q | inr g ↦ inr (h te.key te.entry g) ]) s

  -- A new buffer is sound for any relation of keys and entries.
  fill-IsSound :
      (Good : K → E → Type 0) (n : ℕ) (te : TlbEntry K E)
      → All (λ x. (x.key ≡ te.key) × (x.entry ≡ te.entry) ⊎ Good x.key x.entry) (fill n te)
  unfolding fill
  fill-IsSound Good zero te = tt
  fill-IsSound Good (suc n) te = (inl (refl, refl), fill-IsSound Good n te)

  pub clear_from :
      (Good : K → E → Type 0) (te : TlbEntry K E) (tes : List (TlbEntry K E))
      → All (λ x. (x.key ≡ te.key) × (x.entry ≡ te.entry) ⊎ Good x.key x.entry) (fill_rest te tes)
  unfolding fill_rest
  clear_from Good te [] = tt
  clear_from Good te (x ∷ tes) = (inl (refl, refl), clear_from Good te tes)

  pub add_invalid :
      (eq : K → K → Bool) (k : K) (e : E) (t : Tlb K E) → (add eq k e t).first.entry ≡ t.first.entry
  unfolding add
  add_invalid eq k e t = refl

  pub clear_invalid : (t : Tlb K E) → (clear t).first.entry ≡ t.first.entry
  unfolding clear
  clear_invalid t = refl

  -- A cleared buffer holds nothing.
  pub clear-IsSound : (Good : K → E → Type 0) (t : Tlb K E) → IsSound Good (clear t)
  unfolding clear
  clear-IsSound Good t = clear_from Good t.first t.rest

  pub add-IsSound :
      (Good : K → E → Type 0) (eq : K → K → Bool) (k : K) (e : E) (t : Tlb K E)
      → Good k e
      → IsSound Good t
      → IsSound Good (add eq k e t)
  unfolding add
  add-IsSound Good eq k e t g s =
      All-set (λ x. (x.key ≡ t.first.key) × (x.entry ≡ t.first.entry) ⊎ Good x.key x.entry) t.rest _
        _ (inr g) s

  -- `get` keeps the invalid entry.
  pub get_invalid : (p : K → Bool) (t : Tlb K E) → (get p t).0.first.entry ≡ t.first.entry
  unfolding get
  get_invalid p t = elim (Option-cases (last_index_of p t.rest)) [
    | inl n ↦ rw (n, get) refl
    | inr (i, e) ↦ rw (e, get) refl
  ]

  -- What `get` returns is the invalid entry, or an entry that belongs to a key that passes the test;
  -- and the buffer stays sound.
  pub get-IsSound :
      (Good : K → E → Type 0) (p : K → Bool) (t : Tlb K E)
      → IsSound Good t
      → IsSound Good (get p t).0
        × (((get p t).1 ≡ t.first.entry) ⊎ ((k : K) × (p k ≡ true) × Good k (get p t).1))
  unfolding get
  get-IsSound Good p t s = elim (Option-cases (last_index_of p t.rest)) [
    | inl n ↦ rw (n, get) (s, inl refl)
    | inr (i, e) ↦
        let (l, m) = last_index_of_lem p t.rest i t.first e in
        let P = λ (x : TlbEntry K E).
          (x.key ≡ t.first.key) × (x.entry ≡ t.first.entry) ⊎ Good x.key x.entry in
        let g = All-get_or P t.rest i t.first l s in
        rw (e, get)
          (
            All-set P t.rest i _ g s,
            elim g [ inl (a, b) ↦ inl b | inr h ↦ inr ((get_or t.rest i t.first).key, m, h) ],
          )
  ]

  last_index_of-set :
      (p : K → Bool) (tes : List (TlbEntry K E)) (i : ℕ) (te : TlbEntry K E)
      → All (λ x. p x.key ≡ false) tes
      → i < length tes
      → p te.key ≡ true
      → last_index_of p (set tes i te) ≡ some i
  unfolding last_index_of
  last_index_of-set p [] i te a h k = elim h [ ]
  last_index_of-set p (x ∷ tes) zero te (a, b) h k = rw (absent tes b, k)
    where
      absent : (l : List (TlbEntry K E)) → All (λ x. p x.key ≡ false) l → last_index_of p l ≡ none
      absent [] t = refl
      absent (y ∷ l) (t, u) = rw (absent l u, t)
  last_index_of-set p (x ∷ tes) (suc i) te (a, b) h k =
      rw (last_index_of-set p tes i te b (omega arith) k)

  -- The slot that `add` writes.
  abbrev slot_of : (K → K → Bool) → Tlb K E → ℕ
  slot_of eq t = elim (index_of (λ k. eq k t.first.key) t.rest) [
    | some j ↦ j
    | none ↦ oldest t.rest
  ]

  slot_of-lt : (eq : K → K → Bool) (t : Tlb K E) → 0 < length t.rest → slot_of eq t < length t.rest
  slot_of-lt eq t h = elim (Option-cases (index_of (λ k. eq k t.first.key) t.rest)) [
    | inl n ↦ rw (n, slot_of) ((oldest_lem t.rest t.first h).0)
    | inr (j, e) ↦ rw (e, slot_of) (index_of-lt (λ k. eq k t.first.key) t.rest j e)
  ]

  -- After `add` of a key that no slot holds, a lookup of that key returns the entry.
  pub get-add :
      (eq : K → K → Bool) (p : K → Bool) (key : K) (entry : E) (t : Tlb K E)
      → 0 < length t.rest
      → All (λ x. p x.key ≡ false) t.rest
      → p key ≡ true
      → (get p (add eq key entry t)).1 ≡ entry
  unfolding get add
  get-add eq p key entry t h a k =
      let te : TlbEntry K E = record { key = key; entry = entry; timestamp = t.timestamp } in
      let l = slot_of-lt eq t h in
      let f = last_index_of-set p t.rest (slot_of eq t) te a l k in
      rw (f, get) (ap (λ x. x.entry) (get_or-set_self t.rest (slot_of eq t) te t.first l))

  -- When every slot is in use, `add` replaces an entry with the smallest timestamp and no other.
  pub add_oldest :
      (eq : K → K → Bool) (key : K) (entry : E) (t : Tlb K E)
      → 0 < length t.rest
      → index_of (λ k. eq k t.first.key) t.rest ≡ none
      → (i : ℕ) × ((add eq key entry t).rest
          ≡ set t.rest i (record { key = key; entry = entry; timestamp = t.timestamp }))
        × (i < length t.rest)
        × All (λ x. (get_or t.rest i t.first).timestamp ≤ x.timestamp) t.rest
  unfolding add
  add_oldest eq key entry t h n =
      let (l, m) = oldest_lem t.rest t.first h in (oldest t.rest, rw n, l, m)
