-- ===== src/WsQueue/Moves.antt =====
-- The abstract view of the queue in wsqueue.hpp, the entries from the base to the top, and what
-- `move_entries` does to it.
use itoyori_github_io.Base.{
  get_elem?-at, Bool, ℕ, zero, suc, ◌+◌, ◌-◌, ◌≤◌, ◌<◌, ◌≡◌, ◌⊎◌, refl, inl, inr, false, none, some,
  List, [], ◌∷◌, ◌++◌, arith, length, get_elem?, set, length-set, get_elem?-set, get_elem?-total,
  get_elem?-lt, Option-cases, ◌∙◌,
}
use itoyori_github_io.WsQueue.{WsQueue, done, shift, read, write}

module _ {A : Type 0} where
  -- The `n` entries from `b` on.
  abbrev pub slice : ℕ → ℕ → List A → List A
  slice zero b xs = []
  slice (suc n) b xs = elim (get_elem? xs b) [ none ↦ [] | some e ↦ e ∷ slice n (suc b) xs ]

  abbrev pub contents : WsQueue A → List A
  contents q = slice (q.top - q.base) q.base q.entries

  -- The variables stay in the array, nobody holds the lock, and the owner's note that the queue is empty
  -- is right and only made where `EnablePass` is off.
  abbrev pub IsValid : Bool → WsQueue A → Type 0
  IsValid enable_pass q =
      (q.base ≤ q.top)
      × (q.top ≤ q.n_entries)
      × (q.initial_pos ≤ q.n_entries)
      × (length q.entries ≡ q.n_entries)
      × (q.lock ≡ 0)
      × ((q.local_empty ≡ false) ⊎ ((enable_pass ≡ false) × (q.top ≡ q.base)))

  pub slice-eq :
      (n b c : ℕ) (xs ys : List A)
      → ((i : ℕ) → i < n → get_elem? ys (c + i) ≡ get_elem? xs (b + i))
      → slice n c ys ≡ slice n b xs
  slice-eq zero b c xs ys h = refl
  slice-eq (suc n) b c xs ys h =
      let here : get_elem? ys c ≡ get_elem? xs b =
        get_elem?-at ys c (c + 0) (omega arith)
        ∙ h 0 (omega arith)
        ∙ get_elem?-at xs (b + 0) b (omega arith) in
      let rest : slice n (suc c) ys ≡ slice n (suc b) xs = slice-eq n (suc b) (suc c) xs ys (λ i l.
        get_elem?-at ys (suc c + i) (c + suc i) (omega arith)
        ∙ h (suc i) (omega arith)
        ∙ get_elem?-at xs (b + suc i) (suc b + i) (omega arith)) in
      elim (Option-cases (get_elem? xs b)) [
        | inl e ↦ rw (slice, here, e)
        | inr (x, e) ↦ rw (slice, here, e, rest)
      ]

  pub slice-set :
      (n b i : ℕ) (xs : List A) (e : A)
      → i < length xs
      → (i < b) ⊎ (b + n ≤ i)
      → slice n b (set xs i e) ≡ slice n b xs
  slice-set n b i xs e l o =
      slice-eq n b b xs (set xs i e) (λ j m. ground (arith, get_elem?-set xs i (b + j) e l, o))

  pub get_elem?-none :
      (xs : List A) (b n : ℕ) (e : A) → get_elem? xs b ≡ none → get_elem? xs (b + n) ≡ some e → ⊥
  get_elem?-none xs b n e none_at h =
      let (d, at) = get_elem?-total xs b (omega (arith, get_elem?-lt xs (b + n) e h)) in cc

  pub slice-snoc :
      (n b : ℕ) (xs : List A) (e : A)
      → get_elem? xs (b + n) ≡ some e
      → slice (suc n) b xs ≡ slice n b xs ++ (e ∷ [])
  slice-snoc zero b xs e h = rw (slice, get_elem?-at xs b (b + 0) (omega arith), h)
  slice-snoc (suc n) b xs e h =
      let later : slice (suc n) (suc b) xs ≡ slice n (suc b) xs ++ (e ∷ []) =
        slice-snoc n (suc b) xs e (get_elem?-at xs (suc b + n) (b + suc n) (omega arith) ∙ h) in
      elim (Option-cases (get_elem? xs b)) [
        | inl none_at ↦ absurd (get_elem?-none xs b (suc n) e none_at h)
        | inr (d, at) ↦ rw (slice, at, later)
      ]

  -- The elements after the first, which the write to `to` has left alone, and the first.
  shift_moved :
      (n from to : ℕ) (xs ys : List A) (e : A)
      → get_elem? xs from ≡ some e
      → to < length xs
      → (to < from) ⊎ (from + suc n ≤ to)
      → get_elem? ys to ≡ get_elem? (set xs to e) to
      → ((i : ℕ) → i < n → get_elem? ys (suc to + i) ≡ get_elem? (set xs to e) (suc from + i))
      → (i : ℕ) → i < suc n
      → get_elem? ys (to + i) ≡ get_elem? xs (from + i)
  shift_moved n from to xs ys e read l o first moved zero h =
      get_elem?-at ys (to + 0) to (omega arith)
      ∙ first
      ∙ ground (arith, get_elem?-set xs to to e l, read)
      ∙ get_elem?-at xs from (from + 0) (omega arith)
  shift_moved n from to xs ys e read l o first moved (suc i) h =
      get_elem?-at ys (to + suc i) (suc to + i) (omega arith)
      ∙ moved i (omega arith)
      ∙ ground (arith, get_elem?-set xs to (suc from + i) e l, o)
      ∙ get_elem?-at xs (suc from + i) (from + suc i) (omega arith)

  -- Where the source and the target do not overlap the wrong way, `std::move` keeps the entries.
  pub shift_lem :
      (n from to : ℕ) (xs : List A)
      → from + n ≤ length xs
      → to + n ≤ length xs
      → (to < from) ⊎ (from + n ≤ to)
      → (ys : List A) × (shift n from to xs ≡ some ys)
        × (length ys ≡ length xs)
        × ((i : ℕ) → (i < to) ⊎ (to + n ≤ i) → get_elem? ys i ≡ get_elem? xs i)
        × ((i : ℕ) → i < n → get_elem? ys (to + i) ≡ get_elem? xs (from + i))
  unfolding shift
  shift_lem zero from to xs a b o = (xs, refl, refl, (λ i h. refl), (λ i h. absurd (omega arith)))
  shift_lem (suc n) from to xs a b o =
      let (e, read) = get_elem?-total xs from (omega arith) in
      let (d, in_window) = get_elem?-total xs to (omega arith) in
      let len : length (set xs to e) ≡ length xs = length-set xs to e in
      let (ys, run, size, other, moved) =
        shift_lem n (suc from) (suc to) (set xs to e) (omega arith) (omega arith)
          (ground (arith, o)) in
      (
        ys,
        rw (read, in_window, run),
        omega arith,
        (λ i h.
            other i (ground (arith, h)) ∙ ground (arith, get_elem?-set xs to i e (omega arith), h)),
        shift_moved n from to xs ys e read (omega arith) o (other to (inl (omega arith))) moved,
      )

  pub read_lem :
      (i : ℕ) (q : WsQueue A) (e : A) → get_elem? q.entries i ≡ some e → read i q ≡ done q e
  unfolding read
  read_lem i q e at = rw (read, at)

  pub write_lem :
      (i : ℕ) (e : A) (q : WsQueue A)
      → i < length q.entries
      → write i e q ≡ done (record q { entries = set q.entries i e }) tt
  unfolding write
  write_lem i e q l = let (old, at) = get_elem?-total q.entries i l in rw (write, at)
