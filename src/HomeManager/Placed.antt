-- ===== src/HomeManager/Placed.antt =====
-- `checkout_seg` of home_manager.hpp.
use itoyori_github_io.HomeManager.Pushed.{
  placed, Places, place_here, pushed, place_push, pushed-IsConsistent, pushed-at,
}
use itoyori_github_io.CacheSystem.{Slot}
use itoyori_github_io.CacheSystem.Entries.{slot-with_entry}
use itoyori_github_io.Tlb.Laws.{IsSound-mono}
use itoyori_github_io.HomeManager.{MmapEntry, HomeManager, Target, segment_at, place_segment}
use itoyori_github_io.HomeManager.Inv.{IsConsistent, SegmentIsSound, Belongs}
use itoyori_github_io.HomeManager.Fast.{with_entry-Belongs}
use itoyori_github_io.HomeManager.Found.{Other, IsFresh, IsHit}
use mathlib.Core.Option.{some-injective}
use itoyori_github_io.Base.{
  ℕ, ◌∙◌, sym, ◌≡◌, ◌==◌, false, some, true, inl, refl, ◌*◌, ◌≢◌, inr, ap, Bool-cases, ==→eq,
  get_elem?-at, subst,
}

-- An entry of the key keeps its address, and with it what the buffer says.
pub place-IsHit :
    (i key seg_addr seg_size pm pm_offset : ℕ) (m0 m : HomeManager) (s : Slot MmapEntry)
    → IsHit m0 key m i s
    → key * m.block_size ≡ seg_addr
    → pm ≢ 0
    → seg_addr ≢ 0
    → Places i seg_addr s.entry.ref_count m (place_segment i seg_addr seg_size pm pm_offset m)
place-IsHit i key seg_addr seg_size pm pm_offset m0 m s h k p z =
    let v = h.consistent in
    let e = placed s seg_addr seg_size pm pm_offset in
    let key_addr : s.key * m.block_size ≡ seg_addr = ap (λ (n : ℕ). n * m.block_size) h.keyed ∙ k in
    let addr : s.entry.addr ≡ seg_addr = (v.slots i s h.at).placed h.allocated ∙ key_addr in
    elim (Bool-cases (seg_addr == s.entry.mapped_addr)) [
      | inl t ↦ (
        m,
        true,
        s,
        place_here i seg_addr seg_size pm pm_offset m s h.at t,
        v,
        h.at,
        h.allocated,
        addr,
        refl,
        inr (sym (==→eq seg_addr s.entry.mapped_addr t)),
      )
      | inr f ↦ (
        pushed i s e m,
        false,
        record s { entry = e },
        place_push i seg_addr seg_size pm pm_offset m s h.at f,
        pushed-IsConsistent i seg_addr seg_size pm pm_offset m s v.cs_ok h.at h.allocated key_addr f
            p z (λ j t o g. v.slots j t g) v.listed
            (IsSound-mono (Belongs m.cs.entries) (Belongs (pushed i s e m).cs.entries) m.home_tlb
              (with_entry-Belongs i s e m h.at (λ a. sym addr)) v.tlb_ok)
            v.invalid,
        pushed-at i s e m h.at,
        h.allocated,
        refl,
        refl,
        inl refl,
      )
    ]

-- A fresh slot is nobody else's.
pushed-Belongs :
    (i : ℕ) (s : Slot MmapEntry) (e : MmapEntry) (m : HomeManager)
    → segment_at i m ≡ some s
    → (k : ℕ × ℕ) (x : Target) → Belongs m.cs.entries k x × Other i x
    → Belongs (pushed i s e m).cs.entries k x
pushed-Belongs i s e m at k Target.no_entry (g, o) = g
pushed-Belongs i s e m at k Target.dummy (g, o) = g
pushed-Belongs i s e m at k (Target.entry j) ((t, h, a, d), o) =
    (t, slot-with_entry i j s e m.cs at ∙ rw (o) h, a, d)

-- If its old mapping is the right one, a fresh slot is sound as it is.
fresh-IsConsistent :
    (i key : ℕ) (m0 m : HomeManager) (s : Slot MmapEntry)
    → IsFresh m0 key m i s
    → s.key * m.block_size ≡ s.entry.mapped_addr
    → IsConsistent m
fresh-IsConsistent i key m0 m s h k = record {
  cs_ok = h.cs_ok;
  slots = λ j t g. elim (Bool-cases (i == j)) [
    | inl same ↦
        let index : i ≡ j = ==→eq i j same in
        let which : s ≡ t =
          some-injective s t (sym h.at ∙ get_elem?-at m.cs.entries i j index ∙ g) in
        subst (SegmentIsSound m.block_size m.home_segments_to_map j) which (
          subst (λ (n : ℕ). SegmentIsSound m.block_size m.home_segments_to_map n s) index
            (record { placed = λ a. sym h.idle ∙ sym k; mapping = inl (h.idle, h.not_pending) }))
    | inr o ↦ h.others j t o g
  ];
  listed = h.listed;
  tlb_ok =
      IsSound-mono (λ k x. Belongs m.cs.entries k x × Other i x) (Belongs m.cs.entries) m.home_tlb
        (λ k x (g, o). g) h.tlb_ok;
  invalid = h.invalid;
}

pub place-IsFresh :
    (i key seg_addr seg_size pm pm_offset : ℕ) (m0 m : HomeManager) (s : Slot MmapEntry)
    → IsFresh m0 key m i s
    → key * m.block_size ≡ seg_addr
    → pm ≢ 0
    → seg_addr ≢ 0
    → Places i seg_addr s.entry.ref_count m (place_segment i seg_addr seg_size pm pm_offset m)
place-IsFresh i key seg_addr seg_size pm pm_offset m0 m s h k p z =
    let e = placed s seg_addr seg_size pm pm_offset in
    let key_addr : s.key * m.block_size ≡ seg_addr = ap (λ (n : ℕ). n * m.block_size) h.keyed ∙ k in
    elim (Bool-cases (seg_addr == s.entry.mapped_addr)) [
      | inl t ↦
          let there : s.entry.mapped_addr ≡ seg_addr = sym (==→eq seg_addr s.entry.mapped_addr t) in
          (
            m,
            true,
            s,
            place_here i seg_addr seg_size pm pm_offset m s h.at t,
            fresh-IsConsistent i key m0 m s h (key_addr ∙ sym there),
            h.at,
            h.allocated,
            sym h.idle ∙ there,
            refl,
            inr there,
          )
      | inr f ↦ (
        pushed i s e m,
        false,
        record s { entry = e },
        place_push i seg_addr seg_size pm pm_offset m s h.at f,
        pushed-IsConsistent i seg_addr seg_size pm pm_offset m s h.cs_ok h.at h.allocated key_addr f
            p z h.others h.listed
            (IsSound-mono (λ k x. Belongs m.cs.entries k x × Other i x)
              (Belongs (pushed i s e m).cs.entries) m.home_tlb (pushed-Belongs i s e m h.at)
              h.tlb_ok)
            h.invalid,
        pushed-at i s e m h.at,
        h.allocated,
        refl,
        refl,
        inl refl,
      )
    ]
