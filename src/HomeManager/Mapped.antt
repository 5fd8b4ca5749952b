-- ===== src/HomeManager/Mapped.antt =====
-- The mapping of a list of segments by `update_mapping` of home_manager.hpp.
use itoyori_github_io.CacheSystem.{Slot}
use itoyori_github_io.CacheSystem.Inv as CI
use itoyori_github_io.CacheSystem.Entries.{slot-with_entry}
use itoyori_github_io.HomeManager.{
  MmapEntry, HomeManager, Mapping, segment_at, put_entry, update_mapping, update_mappings,
}
use mathlib.Core.Option.{some-injective}
use mathlib.Core.List.{append_assoc, append-nil}
use itoyori_github_io.Base.{
  ℕ, List, [], ◌∷◌, ◌≡◌, some, ◌⊎◌, ◌≢◌, if◌then◌else◌, ◌==◌, ◌||◌, false, arith, Option, ◌++◌, All,
  refl, inr, ap, ◌>>=◌, ◌∙◌, Bool-cases, inl, All-map_pred, true, sym, get_elem?-at, ==→eq,
}

-- An entry that can be mapped.
abbrev pub CanMap : HomeManager → ℕ → Type 0
CanMap m i =
    (s : Slot MmapEntry) × (segment_at i m ≡ some s) × (s.entry.pm ≢ 0) × (s.entry.addr ≢ 0)

-- A slot as it was, but for where it is mapped.
abbrev pub mapped_at : Slot MmapEntry → ℕ → ℕ → Slot MmapEntry
mapped_at s a n = record s { entry = record (s.entry) { mapped_addr = a; mapped_size = n } }

-- Only the entries and the log change.
abbrev pub Same : HomeManager → HomeManager → Type 0
Same m m' = m' ≡ record m { cs = record (m.cs) { entries = m'.cs.entries }; log = m'.log }

-- What is asked for to map an entry: its last mapping goes away, and the segment is mapped.
abbrev pub requests_of : MmapEntry → List Mapping
requests_of e =
    (if e.mapped_addr == 0
      then []
      else Mapping.mmap_no_physical_mem e.mapped_addr e.mapped_size ∷ [])
    ++ (Mapping.map_to_vm e.pm e.addr e.size e.pm_offset ∷ [])

-- Among the requests are those of an entry, one after the other.
abbrev pub Requested : MmapEntry → List Mapping → Type 0
Requested e log = (xs : List Mapping) × (ys : List Mapping) × (log ≡ xs ++ (requests_of e ++ ys))

-- A slot after slot `i` is mapped.
abbrev Steps : ℕ → HomeManager → ℕ → Slot MmapEntry → List Mapping → Type 0
Steps i m' j t first =
    ((i == j) ≡ false) × (segment_at j m' ≡ some t)
    ⊎ ((i == j) ≡ true)
      × (segment_at j m' ≡ some (mapped_at t t.entry.addr t.entry.size))
      × (first ≡ requests_of t.entry)

-- One entry is mapped.
update_mapping_lem :
    (i : ℕ) (m : HomeManager) (s : Slot MmapEntry)
    → segment_at i m ≡ some s
    → s.entry.pm ≢ 0
    → s.entry.addr ≢ 0
    → (m' : HomeManager) × (update_mapping i m ≡ some m')
      × Same m m'
      × (m'.log ≡ m.log ++ requests_of s.entry)
      × ((j : ℕ) (t : Slot MmapEntry)
          → segment_at j m ≡ some t
          → Steps i m' j t (requests_of s.entry))
unfolding update_mapping
update_mapping_lem i m s at pm addr =
    let ok : ((s.entry.pm == 0) || (s.entry.addr == 0)) ≡ false = ground (arith, pm, addr) in
    let e = record (s.entry) { mapped_addr = s.entry.addr; mapped_size = s.entry.size } in
    (
      put_entry i s e (record m { log = m.log ++ requests_of s.entry }),
      rw (at, ok) refl,
      refl,
      refl,
      λ j t h. elim (Bool-cases (i == j)) [
        | inl same ↦
            let which : t ≡ s =
              some-injective t s
                (sym h ∙ sym (get_elem?-at m.cs.entries i j (==→eq i j same)) ∙ at) in
            inr (
              same,
              slot-with_entry i j s e m.cs at
                  ∙ rw (same) (
                      ap (λ (x : Slot MmapEntry). some (mapped_at x x.entry.addr x.entry.size))
                        (sym which)),
              ap (λ (x : Slot MmapEntry). requests_of x.entry) (sym which),
            )
        | inr other ↦ inl (other, slot-with_entry i j s e m.cs at ∙ rw (other) h)
      ],
    )

Same-trans : (m m' m'' : HomeManager) → Same m m' → Same m' m'' → Same m m''
Same-trans m m' m'' p q =
    q
    ∙ ap
        (λ (x : HomeManager). record x {
          cs = record (x.cs) { entries = m''.cs.entries };
          log = m''.log;
        })
        p

-- A slot after all slots of a list are mapped, with what was asked for.
abbrev pub Ends : List ℕ → HomeManager → ℕ → Slot MmapEntry → List Mapping → Type 0
Ends is m' j s rest =
    (CI.occurs j is ≡ 0) × (segment_at j m' ≡ some s)
    ⊎ (CI.occurs j is ≢ 0)
      × (segment_at j m' ≡ some (mapped_at s s.entry.addr s.entry.size))
      × Requested s.entry rest

-- The whole list is mapped, and the other slots stay.
abbrev pub Maps : List ℕ → HomeManager → Option HomeManager → Type 0
Maps is m result =
    (m' : HomeManager) × (rest : List Mapping) × (result ≡ some m')
    × Same m m'
    × (m'.log ≡ m.log ++ rest)
    × ((j : ℕ) (s : Slot MmapEntry) → segment_at j m ≡ some s → Ends is m' j s rest)

-- One slot over a step and the rest of the list.
Ends-step :
    (i : ℕ) (is : List ℕ) (m1 m' : HomeManager) (j : ℕ) (t : Slot MmapEntry)
    (first rest : List Mapping)
    → Steps i m1 j t first
    → ((s : Slot MmapEntry) → segment_at j m1 ≡ some s → Ends is m' j s rest)
    → Ends (i ∷ is) m' j t (first ++ rest)
Ends-step i is m1 m' j t first rest (inl (other, at)) later = elim (later t at) [
  | inl (o, stays) ↦ inl (ground (arith, o, other), stays)
  | inr (o, mapped, (xs, ys, e)) ↦ inr (
    λ z. o (ground (arith, z, other)),
    mapped,
    (
      first ++ xs,
      ys,
      ap (λ (l : List Mapping). first ++ l) e
          ∙ sym (append_assoc first xs (requests_of t.entry ++ ys)),
    ),
  )
]
Ends-step i is m1 m' j t first rest (inr (same, at, asked)) later =
    let listed : CI.occurs j (i ∷ is) ≢ 0 = λ z. absurd (ground (arith, z, same)) in
    let requested : Requested t.entry (first ++ rest) =
      ([], rest, ap (λ (l : List Mapping). l ++ rest) asked) in
    elim (later (mapped_at t t.entry.addr t.entry.size) at) [
      | inl (_, stays) ↦ inr (listed, stays, requested)
      | inr (_, mapped, _) ↦ inr (listed, mapped, requested)
    ]

pub update_mappings_lem :
    (is : List ℕ) (m : HomeManager) → All (CanMap m) is → Maps is m (update_mappings is m)
unfolding update_mappings
update_mappings_lem [] m h = (m, [], refl, refl, sym (append-nil m.log), λ j s e. inl (refl, e))
update_mappings_lem (i ∷ is) m ((s, at, pm, addr), rest) =
    let (m1, run1, same1, log1, slots1) = update_mapping_lem i m s at pm addr in
    let later : All (CanMap m1) is =
      All-map_pred (CanMap m) (CanMap m1) is
        (λ j (t, e, p, q). elim (slots1 j t e) [
          | inl (_, stays) ↦ (t, stays, p, q)
          | inr (_, mapped, _) ↦ (mapped_at t t.entry.addr t.entry.size, mapped, p, q)
        ])
        rest in
    let (m', asked, run, same, log, slots) = update_mappings_lem is m1 later in
    (
      m',
      requests_of s.entry ++ asked,
      ap (λ (o : Option HomeManager). o >>= λ m1. update_mappings is m1) run1 ∙ run,
      Same-trans m m1 m' same1 same,
      log
          ∙ (ap (λ (l : List Mapping). l ++ asked) log1
              ∙ append_assoc m.log (requests_of s.entry) asked),
      λ j t e.
          Ends-step i is m1 m' j t (requests_of s.entry) asked (slots1 j t e)
            (λ u at_u. slots j u at_u),
    )
