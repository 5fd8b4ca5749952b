-- ===== src/CacheManager/CheckedOut.antt =====
-- `checkout_blk` of cache_manager.hpp, stage by stage.
use itoyori_github_io.CacheSystem.Inv as CI
use itoyori_github_io.CacheManager.Carried.{SamePlace}
use itoyori_github_io.CacheManager.Cleaning.{true-ne-false}
use itoyori_github_io.RegionSet.{RegionSet}
use itoyori_github_io.RegionSet.Cover.{covers, IsValid}
use itoyori_github_io.CacheSystem.{Slot}
use itoyori_github_io.Tlb.{Tlb}
use itoyori_github_io.CacheManager.{Block, Manager, Request, slot, put_block}
use itoyori_github_io.CacheManager.Fetch.{owner_in_range}
use itoyori_github_io.CacheManager.Checkout.{place_block}
use itoyori_github_io.CacheManager.Inv.{IsConsistent, SlotIsSound, slot-put_block}
use itoyori_github_io.CacheManager.Given.{put_block-IsConsistent, IsConsistent-view}
use itoyori_github_io.CacheManager.Fetched.{IsSized}
use itoyori_github_io.Base.{
  ℕ, refl, Bool-cases, [], ◌∷◌, ◌≡◌, List, Option, ◌∙◌, true, some, Bool, arith, sym, ◌==◌, inl,
  inr, ◌++◌, false, ◌<◌, ◌^◌, ◌⊎◌, ==→eq, ◌≢◌,
}
use itoyori_github_io.Base.Assoc.{find}

-- In a consistent state the key has slot `i`, which holds `s`.
pub record Holds (key i : ℕ) (m : Manager) (s : Slot Block) : Type 0 where
  pub consistent : IsConsistent m
  pub sized : IsSized m
  pub found : find key m.cs.table ≡ some i
  pub at : slot i m ≡ some s
  pub allocated : s.allocated ≡ true

pub IsSized-same :
    (m m' : Manager)
    → m'.block_size ≡ m.block_size
    → m'.sub_block_size ≡ m.sub_block_size
    → IsSized m
    → IsSized m'
IsSized-same m m' b c z = record {
  block_log = z.block_log;
  sub_log = z.sub_log;
  block_eq = b ∙ z.block_eq;
  sub_eq = c ∙ z.sub_eq;
  sub_le = z.sub_le;
  fits = z.fits;
}

-- A write to the block, with other changes of the fields that the invariant does not look at.
pub put_block-Holds :
    (key i : ℕ) (m : Manager) (s : Slot Block) (b : Block)
    → Holds key i m s
    → SlotIsSound m.n_ranks m.epoch m.writing_back_wins m.dirty_cache_blocks i
        (record s { entry = b })
    → Holds key i (put_block i s b m) (record s { entry = b })
put_block-Holds key i m s b h w = record {
  consistent = put_block-IsConsistent i s b m h.consistent h.at w;
  sized = IsSized-same m (put_block i s b m) refl refl h.sized;
  found = h.found;
  at = slot-put_block i i s b m h.at ∙ ground arith;
  allocated = h.allocated;
}

pub Holds-view :
    (t : Tlb ℕ (Option ℕ)) (fetching to_map : List ℕ) (requests : List Request) (key i : ℕ)
    (m : Manager) (s : Slot Block)
    → Holds key i m s
    → Holds key i
        (record m {
          cache_tlb = t;
          fetching_wins = fetching;
          cache_blocks_to_map = to_map;
          log = requests;
        })
        s
Holds-view t fetching to_map requests key i m s h = record {
  consistent = IsConsistent-view t fetching to_map requests m h.consistent;
  sized =
      IsSized-same m
        (record m {
          cache_tlb = t;
          fetching_wins = fetching;
          cache_blocks_to_map = to_map;
          log = requests;
        })
        refl refl h.sized;
  found = h.found;
  at = h.at;
  allocated = h.allocated;
}

-- A slot stays sound with other places of its block, and with more valid bytes.
placed-SlotIsSound :
    (ranks epoch : ℕ) (wins dirty : List ℕ) (i : ℕ) (s : Slot Block) (addr mapped win pm_offset : ℕ)
    (owner : Option ℕ)
    → owner_in_range ranks owner ≡ true
    → SlotIsSound ranks epoch wins dirty i s
    → SlotIsSound ranks epoch wins dirty i (record s {
      entry = record (s.entry) {
        addr = addr;
        mapped_addr = mapped;
        win = win;
        owner = owner;
        pm_offset = pm_offset;
      };
    })
placed-SlotIsSound ranks epoch wins dirty i s addr mapped win pm_offset owner o v = record {
  ranked = o;
  bounded = v.bounded;
  valid_ok = v.valid_ok;
  dirty_ok = v.dirty_ok;
  dirty_valid = v.dirty_valid;
  free = v.free;
  numbered = v.numbered;
  started = v.started;
  listed = v.listed;
}

pub grown-SlotIsSound :
    (ranks epoch : ℕ) (wins dirty : List ℕ) (i : ℕ) (s : Slot Block) (valid : RegionSet)
    → s.allocated ≡ true
    → IsValid valid
    → ((x : ℕ) → covers valid x ≡ true → x < 2 ^ 31)
    → ((x : ℕ) → covers s.entry.valid_regions x ≡ true → covers valid x ≡ true)
    → SlotIsSound ranks epoch wins dirty i s
    → SlotIsSound ranks epoch wins dirty i
        (record s { entry = record (s.entry) { valid_regions = valid } })
grown-SlotIsSound ranks epoch wins dirty i s valid a ok below more v = record {
  ranked = v.ranked;
  bounded = below;
  valid_ok = ok;
  dirty_ok = v.dirty_ok;
  dirty_valid = λ x c. more x (v.dirty_valid x c);
  free = λ f. absurd (true-ne-false (sym a ∙ f));
  numbered = v.numbered;
  started = v.started;
  listed = v.listed;
}

-- The slot stands on the list.
pub occurs-snoc : (i : ℕ) (js : List ℕ) → CI.occurs i (js ++ (i ∷ [])) ≢ 0
occurs-snoc i js z = ground (arith, CI.occurs-append i js (i ∷ []))

-- The block in slot `i` has its place: it is mapped at the address, or it is to be.
abbrev pub Mapped : ℕ → ℕ → Manager → Slot Block → Bool → Type 0
Mapped i blk_addr m s placed =
    (placed ≡ true) × (s.entry.mapped_addr ≡ blk_addr)
    ⊎ (placed ≡ false) × (CI.occurs i m.cache_blocks_to_map ≢ 0)

-- The place at home is what is asked for, or, if the block was mapped at the address already, as it was.
abbrev pub IsHomeOf : ℕ → ℕ → Option ℕ → ℕ → Slot Block → Slot Block → Type 0
IsHomeOf blk_addr win owner pm_offset s s' =
    (s'.entry.win ≡ win) × (s'.entry.owner ≡ owner) × (s'.entry.pm_offset ≡ pm_offset)
    ⊎ (s.entry.mapped_addr ≡ blk_addr) × SamePlace s'.entry s.entry

-- `place_block` succeeds, asks for nothing, and keeps the valid bytes and the count.
pub place_block_lem :
    (key i blk_addr win pm_offset : ℕ) (owner : Option ℕ) (m : Manager) (s : Slot Block)
    → Holds key i m s
    → owner_in_range m.n_ranks owner ≡ true
    → (m' : Manager) × (placed : Bool) × (s' : Slot Block) × (place_block i blk_addr win owner
          pm_offset m
        ≡ some (m', placed))
      × Holds key i m' s'
      × (m'.block_size ≡ m.block_size)
      × (s'.entry.ref_count ≡ s.entry.ref_count)
      × (m'.log ≡ m.log)
      × (m'.cs.nentries ≡ m.cs.nentries)
      × (s'.entry.valid_regions ≡ s.entry.valid_regions)
      × Mapped i blk_addr m' s' placed
      × IsHomeOf blk_addr win owner pm_offset s s'
unfolding place_block
place_block_lem key i blk_addr win pm_offset owner m s h o =
    let v = h.consistent.slots i s h.at in
    let b : Block = record (s.entry) {
      addr = blk_addr;
      win = win;
      owner = owner;
      pm_offset = pm_offset;
    } in
    elim (Bool-cases (s.entry.mapped_addr == blk_addr)) [
      | inl t ↦
          let same : s.entry.mapped_addr ≡ blk_addr = ==→eq s.entry.mapped_addr blk_addr t in
          (
            m,
            true,
            s,
            rw (h.at, t),
            h,
            refl,
            refl,
            refl,
            refl,
            refl,
            inl (refl, same),
            inr (same, (refl, refl, refl, refl)),
          )
      | inr f ↦ elim (Bool-cases m.enable_vm_map) [
        | inl t ↦
            let m1 = record m { cache_blocks_to_map = m.cache_blocks_to_map ++ (i ∷ []) } in
            (
              put_block i s b m1,
              false,
              record s { entry = b },
              rw (h.at, f, t),
              put_block-Holds key i m1 s b
                  (Holds-view m.cache_tlb m.fetching_wins (m.cache_blocks_to_map ++ (i ∷ [])) m.log
                    key i m s h)
                  (placed-SlotIsSound m.n_ranks m.epoch m.writing_back_wins m.dirty_cache_blocks i s
                    blk_addr s.entry.mapped_addr win pm_offset owner o v),
              refl,
              refl,
              refl,
              refl,
              refl,
              inr (refl, occurs-snoc i m.cache_blocks_to_map),
              inl (refl, refl, refl),
            )
        | inr g ↦ (
          put_block i s (record b { mapped_addr = blk_addr }) m,
          true,
          record s { entry = record b { mapped_addr = blk_addr } },
          rw (h.at, f, g),
          put_block-Holds key i m s (record b { mapped_addr = blk_addr }) h
              (placed-SlotIsSound m.n_ranks m.epoch m.writing_back_wins m.dirty_cache_blocks i s
                blk_addr blk_addr win pm_offset owner o v),
          refl,
          refl,
          refl,
          refl,
          refl,
          inl (refl, refl),
          inl (refl, refl, refl),
        )
      ]
    ]
