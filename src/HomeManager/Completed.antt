-- ===== src/HomeManager/Completed.antt =====
-- `checkout_complete` of home_manager.hpp.
use itoyori_github_io.HomeManager.Mapped.{mapped_at, update_mappings_lem, CanMap, Requested}
use itoyori_github_io.CacheSystem.{Slot}
use itoyori_github_io.CacheSystem.Inv as CI
use itoyori_github_io.HomeManager.{
  MmapEntry, HomeManager, Mapping, segment_at, update_mappings, checkout_complete,
}
use itoyori_github_io.HomeManager.Inv.{IsConsistent}
use itoyori_github_io.Base.{
  ℕ, List, [], ◌∷◌, ◌≡◌, some, ◌⊎◌, ◌≢◌, if◌then◌else◌, arith, Option, ◌++◌, All, refl, inr, ap,
  ◌>>=◌, ◌∙◌, inl, get_elem?-total, true, ◌<◌, Bool,
}

All-listed :
    (P : ℕ → Type 0) (n : ℕ) (js : List ℕ)
    → All (λ j. j < n) js
    → ((j : ℕ) → j < n → CI.occurs j js ≢ 0 → P j)
    → All P js
All-listed P n [] b h = tt
All-listed P n (k ∷ js) (b, bs) h = (
  h k b (λ z. absurd (ground (arith, z))),
  All-listed P n js bs (λ j l o. h j l (λ z. o (ground (arith, z)))),
)

-- What is on the list of a consistent state can be mapped.
pending-CanMap : (m : HomeManager) → IsConsistent m → All (CanMap m) m.home_segments_to_map
pending-CanMap m v = All-listed (CanMap m) m.cs.nentries m.home_segments_to_map v.listed (λ j l o.
    let (s, at) = get_elem?-total m.cs.entries j (omega (arith, l, v.cs_ok.sized)) in
    elim (v.slots j s at).mapping [
      | inl (_, z) ↦ absurd (o z)
      | inr (_, _, pm, addr, _) ↦ (s, at, pm, addr)
    ])

-- Every slot is mapped for the address that its entry has, and keeps all else; nothing is left to map.
-- A slot that was mapped there already stays as it is. For another its last mapping is taken away and
-- its segment is mapped, with the physical memory, the size and the offset of the entry.
abbrev pub Completes : HomeManager → Option HomeManager → Type 0
Completes m result =
    (m' : HomeManager) × (rest : List Mapping) × (result ≡ some m')
    × (m'.home_segments_to_map ≡ [])
    × (m'.home_tlb ≡ m.home_tlb)
    × (m'.cs.table ≡ m.cs.table)
    × (m'.log ≡ m.log ++ rest)
    × ((i : ℕ) (s : Slot MmapEntry)
        → segment_at i m ≡ some s
        → (n : ℕ) × (segment_at i m' ≡ some (mapped_at s s.entry.addr n))
          × ((s.entry.mapped_addr ≡ s.entry.addr) × (n ≡ s.entry.mapped_size)
              ⊎ (s.entry.mapped_addr ≢ s.entry.addr) × (n ≡ s.entry.size) × Requested s.entry rest))

-- With virtual memory mapping on, `checkout_complete` of a consistent state passes its checks.
-- Afterwards every slot is mapped for the address that its entry has and keeps all else; nothing is
-- left to map, and the table and the translation buffer are as they were. A slot that was mapped for
-- its address keeps its mapped size. For every other slot its last mapping, if it has one, is taken
-- away by a call of the operating system, and right after that its segment is mapped by another, with
-- the physical memory, size and offset of the entry, and the mapped size is the size of the entry.
pub checkout_complete_lem :
    (m : HomeManager) → IsConsistent m → m.enable_vm_map ≡ true → Completes m (checkout_complete m)
unfolding checkout_complete
checkout_complete_lem m v vm =
    let (m1, rest, run, same, log, slots) =
      update_mappings_lem m.home_segments_to_map m (pending-CanMap m v) in
    let done : checkout_complete m ≡ some (record m1 { home_segments_to_map = [] }) =
      ap
        (λ (b : Bool).
          if b
          then (update_mappings m.home_segments_to_map m >>= λ m1.
              some (record m1 { home_segments_to_map = [] }))
          else some m)
        vm
      ∙ ap (λ (o : Option HomeManager). o >>= λ m1. some (record m1 { home_segments_to_map = [] }))
          run in
    (
      record m1 { home_segments_to_map = [] },
      rest,
      done,
      refl,
      ap (λ (x : HomeManager). x.home_tlb) same,
      ap (λ (x : HomeManager). x.cs.table) same,
      log,
      λ i s e. elim (slots i s e) [
        | inl (o, stays) ↦ elim (v.slots i s e).mapping [
          | inl (q, _) ↦ (
            s.entry.mapped_size,
            stays ∙ ap (λ (a : ℕ). some (mapped_at s a s.entry.mapped_size)) q,
            inl (q, refl),
          )
          | inr (_, l, _, _, _) ↦ absurd (l o)
        ]
        | inr (o, mapped, asked) ↦ elim (v.slots i s e).mapping [
          | inl (_, z) ↦ absurd (o z)
          | inr (moves, _, _, _, _) ↦ (s.entry.size, mapped, inr (moves, refl, asked))
        ]
      ],
    )
