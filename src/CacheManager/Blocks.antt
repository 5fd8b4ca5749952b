-- ===== src/CacheManager/Blocks.antt =====
-- `get_entry` of cache_manager.hpp: a block gets a slot, or every slot holds a block that is in use.
use mathlib.Core.List.{append-nil}
use itoyori_github_io.CacheManager.Carried.{Carries, cleaned-Carries, new-Carries}
use itoyori_github_io.CacheManager.Given.{new-SlotIsSound}
use itoyori_github_io.CacheManager.Writeback.{ensure_all_cache_clean}
use itoyori_github_io.CacheManager.Sent.{rewritten, Extends, Extends-trans}
use mathlib.Core.Option.{some-injective}
use itoyori_github_io.CacheSystem.{Slot}
use itoyori_github_io.CacheSystem.Inv as CI
use itoyori_github_io.CacheSystem.Search.{Pinned}
use itoyori_github_io.CacheSystem.Cached.{ensure_cached_lem}
use itoyori_github_io.CacheSystem.Entries.{ensure_cached_entries}
use itoyori_github_io.Base.{
  ℕ, refl, Bool-cases, ◌≡◌, true, Bool, Option, some, inl, none, List, All, subst, inr, ◌⊎◌, sym,
  [], if◌then◌else◌, ◌==◌, arith, ◌∙◌, ap, ◌<◌, get_elem?-lt, ◌+◌, ◌≢◌, ◌∷◌, length, ◌^◌, ==→eq,
  ◌>>=◌,
}
use itoyori_github_io.Base.Assoc.{find}
use itoyori_github_io.CacheManager.{Block, Manager, slot, is_empty}
use itoyori_github_io.CacheManager.Lookup.{
  block_ops, ensure, get_entry, cache_key, evicts, ensure_or_clean, catch,
}
use itoyori_github_io.CacheManager.Inv.{IsConsistent, SlotIsSound, slot-same}
use itoyori_github_io.CacheManager.Cleaning.{Cleans, ensure_all_cache_clean-Cleans}
use itoyori_github_io.Tlb.{Tlb}
use itoyori_github_io.Tlb as T

-- `key` has slot `i`, and the constants are the same.
pub record Finds (m : Manager) (key : ℕ) (m' : Manager) (i : ℕ) (s : Slot Block) : Type 0 where
  pub consistent : IsConsistent m'
  pub found : find key m'.cs.table ≡ some i
  pub at : slot i m' ≡ some s
  pub allocated : s.allocated ≡ true
  pub same_size : m'.block_size ≡ m.block_size
  pub same_sub : m'.sub_block_size ≡ m.sub_block_size
  pub same_ranks : m'.n_ranks ≡ m.n_ranks
  pub same_nentries : m'.cs.nentries ≡ m.cs.nentries
  pub extends : Extends m m'
  pub carries : Carries m key i s.entry

-- What `ensure` gives: nothing, if no slot can be had.
abbrev pub Ensured : Manager → ℕ → Option (Manager × ℕ) → Type 0
Ensured m key result =
    (result ≡ none) × All (Pinned (block_ops m.epoch) m.cs) m.cs.lru
    ⊎ ((m' : Manager) × (i : ℕ) × (s : Slot Block) × (result ≡ some (m', i)) × Finds m key m' i s)

ensure_lem : (b : Bool) (key : ℕ) (m : Manager) → IsConsistent m → Ensured m key (ensure b key m)
unfolding ensure
ensure_lem b key m v = elim (ensure_cached_lem (block_ops m.epoch) b key m.cs v.cs_ok) [
  | inl (e, _, p) ↦ inl (rw (e), p)
  | inr (cs, i, run, (ok, found, _)) ↦
      let (s, e, at, at', new, others, n) =
        ensure_cached_entries (block_ops m.epoch) b key m.cs cs i v.cs_ok run in
      let t = if evicts key i m.cs then T.clear m.cache_tlb else m.cache_tlb in
      let w = new-SlotIsSound m key i s e (v.slots i s at) new in
      inr (
        record m { cs = cs; cache_tlb = t },
        i,
        record s { entry = e; allocated = true; key = key },
        rw (run),
        record {
          consistent = record {
            cs_ok = ok;
            slots = λ j t h. elim (Bool-cases (i == j)) [
              | inl same ↦
                  slot-same (SlotIsSound m.n_ranks m.epoch m.writing_back_wins m.dirty_cache_blocks)
                    i j (record s { entry = e; allocated = true; key = key }) t
                    (record m { cs = cs }) at' h same w
              | inr other ↦ v.slots j t (sym (others j other) ∙ h)
            ];
            in_cache = subst (λ k. All (λ j. j < k) m.dirty_cache_blocks) (sym n) v.in_cache;
            clean = v.clean;
          };
          found = found;
          at = at';
          allocated = refl;
          same_size = refl;
          same_sub = refl;
          same_ranks = refl;
          same_nentries = n;
          extends = ([], sym (append-nil m.log));
          carries = new-Carries m key i s e v at new;
        },
      )
]

-- Every slot holds a block that somebody has checked out.
abbrev pub AllHeld : Manager → Type 0
AllHeld m =
    (i : ℕ) (s : Slot Block) → slot i m ≡ some s → (s.allocated ≡ true) × (0 < s.entry.ref_count)

All-occurs : (P : ℕ → Type 0) (j : ℕ) (js : List ℕ) → All P js → CI.occurs j js ≢ 0 → P j
All-occurs P j [] a h = absurd (h refl)
All-occurs P j (k ∷ js) (a, rest) h = elim (Bool-cases (k == j)) [
  | inl same ↦ subst P (==→eq k j same) a
  | inr other ↦ All-occurs P j js rest (λ z. h (ground (arith, z, other)))
]

-- A slot that is pinned once all is clean is held.
AllHeld-Cleans :
    (m m1 : Manager)
    → IsConsistent m
    → Cleans m m1
    → All (Pinned (block_ops m1.epoch) m1.cs) m1.cs.lru
    → AllHeld m
AllHeld-Cleans m m1 v c pins i s e =
    let (d, k, at, _) = c.slots i s e in
    let in_range = get_elem?-lt m1.cs.entries i (rewritten s d k) at in
    let (t, at', a, pinned) =
      All-occurs (Pinned (block_ops m1.epoch) m1.cs) i m1.cs.lru pins
        (ground (arith, c.consistent.cs_ok.linked i, c.consistent.cs_ok.sized, in_range)) in
    let eq : rewritten s d k ≡ t = some-injective (rewritten s d k) t (sym at ∙ at') in
    let count : s.entry.ref_count ≡ t.entry.ref_count =
      ap (λ (x : Slot Block). x.entry.ref_count) eq in
    let no_dirty : is_empty t.entry.dirty_regions ≡ true = ap is_empty (c.is_clean i t at') in
    (
      ap (λ (x : Slot Block). x.allocated) eq ∙ a,
      ground (arith, pinned, no_dirty, c.none_started i t at', count),
    )

pub ensure_or_clean_hit :
    (b : Bool) (key : ℕ) (m : Manager) (r : Manager × ℕ)
    → ensure b key m ≡ some r
    → ensure_or_clean b key m ≡ some r
unfolding ensure_or_clean
ensure_or_clean_hit b key m r hit =
    ap (λ (o : Option (Manager × ℕ)). catch o (ensure_all_cache_clean m >>= λ m1. ensure b key m1))
      hit

pub get_entry-eq :
    (b : Bool) (addr key : ℕ) (m : Manager)
    → cache_key addr m ≡ some key
    → get_entry b addr m ≡ ensure_or_clean b key m
unfolding get_entry
get_entry-eq b addr key m k = ap (λ (o : Option ℕ). o >>= λ key. ensure_or_clean b key m) k

ensure_or_clean_retry :
    (b : Bool) (key : ℕ) (m m1 : Manager)
    → ensure b key m ≡ none
    → ensure_all_cache_clean m ≡ some m1
    → ensure_or_clean b key m ≡ ensure b key m1
unfolding ensure_or_clean
ensure_or_clean_retry b key m m1 miss clean =
    ap (λ (o : Option (Manager × ℕ)). catch o (ensure_all_cache_clean m >>= λ m1. ensure b key m1))
      miss
    ∙ ap (λ (o : Option Manager). o >>= λ m1. ensure b key m1) clean

-- In a consistent state whose epoch does not wrap, `get_entry` of an address with a key dies only
-- if every slot holds a block that somebody has checked out. Otherwise the state is consistent,
-- with the same sizes and ranks, and the key has a used slot.
pub get_entry_lem :
    (b : Bool) (addr key : ℕ) (m : Manager)
    → IsConsistent m
    → m.epoch + length m.dirty_cache_blocks + 1 < 2 ^ 64
    → cache_key addr m ≡ some key
    → ((get_entry b addr m ≡ none) × AllHeld m)
      ⊎ ((m' : Manager) × (i : ℕ) × (s : Slot Block) × (get_entry b addr m ≡ some (m', i))
          × Finds m key m' i s)
get_entry_lem b addr key m v room k = elim (ensure_lem b key m v) [
  | inr (m', i, s, run, f) ↦
      inr (m', i, s, get_entry-eq b addr key m k ∙ ensure_or_clean_hit b key m (m', i) run, f)
  | inl (miss, _) ↦
      let (m1, clean, c) = ensure_all_cache_clean-Cleans m v room in
      elim (ensure_lem b key m1 c.consistent) [
        | inl (again, pins) ↦ inl (
          get_entry-eq b addr key m k ∙ ensure_or_clean_retry b key m m1 miss clean ∙ again,
          AllHeld-Cleans m m1 v c pins,
        )
        | inr (m', i, s, run, f) ↦ inr (
          m',
          i,
          s,
          get_entry-eq b addr key m k ∙ ensure_or_clean_retry b key m m1 miss clean ∙ run,
          record {
            consistent = f.consistent;
            found = f.found;
            at = f.at;
            allocated = f.allocated;
            same_size = f.same_size ∙ ap (λ (x : Manager). x.block_size) c.frame;
            same_sub = f.same_sub ∙ ap (λ (x : Manager). x.sub_block_size) c.frame;
            same_ranks = f.same_ranks ∙ ap (λ (x : Manager). x.n_ranks) c.frame;
            same_nentries = f.same_nentries ∙ ap (λ (x : Manager). x.cs.nentries) c.frame;
            extends = Extends-trans m m1 m' c.extends f.extends;
            carries = cleaned-Carries m m1 key i s.entry v c f.carries;
          },
        )
      ]
]
