-- ===== src/CacheManager/Sent.antt =====
-- What `writeback_begin(cb)` of cache_manager.hpp sends to the home of a block.
use native.Mathlib.Nat.{mul-le-mul_right}
use mathlib.Core.List.{append_assoc}
use itoyori_github_io.CacheSystem.{Slot}
use itoyori_github_io.RegionSet.{Region, RegionSet, region_size}
use itoyori_github_io.RegionSet.Cover.{covers, within, IsValidFrom}
use itoyori_github_io.CacheManager.{Block, Manager, Request, slot, cache_offset}
use itoyori_github_io.CacheManager.Writeback.{put_requests}
use itoyori_github_io.Base.{
  ℕ, refl, [], ◌∷◌, Bool-cases, ◌⊎◌, ◌==◌, none, ◌<◌, Bool, ap, ◌++◌, ◌≡◌, List, Option, ◌≤◌, leb,
  All, some, ◌||◌, ◌*◌, true, false, ◌∙◌, ◌-◌, ◌+◌, arith, ◌^◌, ◌&&◌, zero, suc, inl, ltb, inr,
}

-- A slot with other dirty regions and another epoch.
abbrev pub rewritten : Slot Block → RegionSet → ℕ → Slot Block
rewritten s d e = record s { entry = record (s.entry) { dirty_regions = d; writeback_epoch = e } }

abbrev pub same_owner : Option ℕ → Option ℕ → Bool
same_owner none none = true
same_owner none (some q) = false
same_owner (some p) none = false
same_owner (some p) (some q) = p == q

pub same_owner_self : (o : Option ℕ) → same_owner o o ≡ true
same_owner_self none = refl
same_owner_self (some p) = ground arith

-- A request sends byte `x` of the block to its place at home. `base` is the place of the block in the
-- cache's memory.
abbrev pub sends_byte : Block → ℕ → Request → ℕ → Bool
sends_byte b base (Request.put_nb offset size win owner disp) x =
    (leb offset (base + x) && ltb (base + x) (offset + size))
    && ((win == b.win && same_owner owner b.owner) && (disp + base == offset + b.pm_offset))
sends_byte b base (Request.get_nb offset size win owner disp) x = false
sends_byte b base (Request.flush win) x = false
sends_byte b base (Request.unmap addr size) x = false
sends_byte b base (Request.map_to_vm addr size disp) x = false

abbrev pub sends : Block → ℕ → List Request → ℕ → Bool
sends b base [] x = false
sends b base (r ∷ rs) x = sends_byte b base r x || sends b base rs x

-- All dirty bytes of the slot are sent home, from the place in the cache at the code's 32-bit offset.
abbrev pub Sent : ℕ → Slot Block → List Request → Type 0
Sent size s log =
    (x : ℕ)
    → covers s.entry.dirty_regions x ≡ true
    → sends s.entry (cache_offset s.entry.entry_idx size) log x ≡ true

-- The same from the place of the block in the cache.
abbrev pub SentHome : ℕ → Slot Block → List Request → Type 0
SentHome size s log =
    (x : ℕ)
    → covers s.entry.dirty_regions x ≡ true
    → sends s.entry (s.entry.entry_idx * size) log x ≡ true

-- Every offset in the cache is below 2^32: the cache has at most 4 GiB.
abbrev pub FitsOffsets : Manager → Type 0
FitsOffsets m = m.cs.nentries * m.block_size ≤ 2 ^ 32

-- In such a cache no offset of a block wraps.
pub cache_offset_lem : (i n size : ℕ) → i < n → n * size ≤ 2 ^ 32 → cache_offset i size ≡ i * size
cache_offset_lem i n zero l h = omega arith
cache_offset_lem i n (suc size) l h =
    let le : suc i * suc size ≤ n * suc size = mul-le-mul_right (suc size) l in
    let below : i * suc size < 2 ^ 32 = omega arith in omega arith

-- Every slot keeps what it holds, but for the epoch and for dirty regions that are now written back.
abbrev pub KeepsSlots : Manager → Manager → Type 0
KeepsSlots m m' =
    (i : ℕ) (s : Slot Block)
    → slot i m ≡ some s
    → (d : RegionSet) × (e : ℕ) × (slot i m' ≡ some (rewritten s d e))
      × ((d ≡ s.entry.dirty_regions) ⊎ ((d ≡ []) × Sent m.block_size s m'.log))

-- Nothing is taken out of the log.
abbrev pub Extends : Manager → Manager → Type 0
Extends m m' = (rest : List Request) × (m'.log ≡ m.log ++ rest)

pub sends-append :
    (b : Block) (base : ℕ) (xs ys : List Request) (x : ℕ)
    → sends b base (xs ++ ys) x ≡ sends b base xs x || sends b base ys x
sends-append b base [] ys x = refl
sends-append b base (r ∷ rs) ys x = ground (arith, sends-append b base rs ys x)

pub Sent-Extends :
    (size : ℕ) (s : Slot Block) (m m' : Manager)
    → Extends m m'
    → Sent size s m.log
    → Sent size s m'.log
Sent-Extends size s m m' (rest, e) h x c =
    ap (λ (log : List Request). sends s.entry (cache_offset s.entry.entry_idx size) log x) e
    ∙ ground (arith, sends-append s.entry (cache_offset s.entry.entry_idx size) m.log rest x, h x c)

pub Extends-trans : (m m' m'' : Manager) → Extends m m' → Extends m' m'' → Extends m m''
Extends-trans m m' m'' (r, e) (r', e') =
    (r ++ r', e' ∙ ap (λ (log : List Request). log ++ r') e ∙ append_assoc m.log r r')

-- If all that is covered lies below `hi`, no region ends after it.
pub ends_le :
    (lo hi : ℕ) (rs : RegionSet)
    → IsValidFrom lo rs
    → ((x : ℕ) → covers rs x ≡ true → x < hi)
    → All (λ r. r.end ≤ hi) rs
ends_le lo hi [] v h = tt
ends_le lo hi (r ∷ rs) (a, b, c) h =
    let last : covers (r ∷ rs) (r.end - 1) ≡ true = ground (arith, b) in
    let below = h (r.end - 1) last in
    (omega arith, ends_le (suc r.end) hi rs c (λ x k. h x (ground (arith, k))))

pub region_size_lem :
    (r : Region) → r.begin < r.end → r.end ≤ 2 ^ 32 - 1 → region_size r ≡ r.end - r.begin
unfolding region_size
region_size_lem r v h = omega arith

-- The check on the index passes, and every byte of the regions is sent.
pub put_requests_lem :
    (n size lo : ℕ) (b : Block) (rs : RegionSet)
    → (rs ≡ []) ⊎ (b.entry_idx < n)
    → IsValidFrom lo rs
    → All (λ r. r.end ≤ 2 ^ 32 - 1) rs
    → (puts : List Request) × (put_requests n size b rs ≡ some puts)
      × ((x : ℕ) → covers rs x ≡ true → sends b (cache_offset b.entry_idx size) puts x ≡ true)
unfolding put_requests
put_requests_lem n size lo b [] h v short = ([], refl, λ x c. absurd (cc))
put_requests_lem n size lo b (r ∷ rs) h (u, v, w) (end_le, short) = elim h [
  | inl e ↦ absurd (cc)
  | inr l ↦
      let (puts, run, sent) = put_requests_lem n size (suc r.end) b rs (inr l) w short in
      let t : ltb b.entry_idx n ≡ true = ground (arith, l) in
      let long : region_size r ≡ r.end - r.begin = region_size_lem r v end_le in
      (
        Request.put_nb (cache_offset b.entry_idx size + r.begin) (region_size r) b.win b.owner
              (b.pm_offset + r.begin)
            ∷ puts,
        rw (put_requests, t, run),
        λ x c. elim (Bool-cases (within r x)) [
          | inl here ↦ ground (arith, here, long, v, same_owner_self b.owner)
          | inr other ↦ ground (arith, sent x (ground (arith, c, other)))
        ],
      )
]
