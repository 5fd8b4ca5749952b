-- ===== src/Tlb.antt =====
-- include/ityr/ori/tlb.hpp: `tlb<Key, Entry, NEntries>` with NEntries > 0 (for NEntries = 0 the
-- operations do nothing). Slot 0 of the array holds the invalid key and entry. The timestamp is an `int`
-- that is taken not to overflow.
pub mod Laws
mod Tests
use itoyori_github_io.Base.{
  ℕ, zero, suc, ◌+◌, Bool, true, false, Option, none, some, List, [], ◌∷◌, ltb, if◌then◌else◌,
  get_or, set,
}

-- `tlb_entry`
pub record TlbEntry (K E : Type 0) : Type 0 where
  pub key : K
  pub entry : E
  pub timestamp : ℕ

-- `first` is `entries_[0]`, `rest` the `NEntries` others.
pub record Tlb (K E : Type 0) : Type 0 where
  pub first : TlbEntry K E
  pub rest : List (TlbEntry K E)
  pub timestamp : ℕ

module _ {K E : Type 0} where
  unfoldable pub fill : ℕ → TlbEntry K E → List (TlbEntry K E)
  fill zero te = []
  fill (suc n) te = te ∷ fill n te

  unfoldable pub init : ℕ → K → E → Tlb K E
  unfolding fill
  init n_entries invalid_key invalid_entry =
      let te : TlbEntry K E = record { key = invalid_key; entry = invalid_entry; timestamp = 0 } in
      record { first = te; rest = fill n_entries te; timestamp = 0 }

  -- The index in `rest` of the first entry whose key passes the test.
  unfoldable pub index_of : (K → Bool) → List (TlbEntry K E) → Option ℕ
  index_of p [] = none
  index_of p (te ∷ tes) =
      let later : Option ℕ = elim (index_of p tes) [ none ↦ none | some i ↦ some (suc i) ] in
      if p te.key then some 0 else later

  -- The index of the last such entry: the loop of `get` does not stop at a match.
  unfoldable pub last_index_of : (K → Bool) → List (TlbEntry K E) → Option ℕ
  last_index_of p [] = none
  last_index_of p (te ∷ tes) = elim (last_index_of p tes) [
    | none ↦ if p te.key then some 0 else none
    | some i ↦ some (suc i)
  ]

  -- `std::min_element` by the timestamp: the first of the smallest. `best` is the one so far and
  -- stands at `at`, the list begins at `i`.
  unfoldable pub min_index : ℕ → ℕ → ℕ → List (TlbEntry K E) → ℕ
  min_index best at i [] = at
  min_index best at i (te ∷ tes) =
      let smaller = ltb te.timestamp best in
      min_index (if smaller then te.timestamp else best) (if smaller then i else at) (i + 1) tes

  unfoldable pub oldest : List (TlbEntry K E) → ℕ
  unfolding min_index
  oldest [] = 0
  oldest (te ∷ tes) = min_index te.timestamp 0 1 tes

  -- `add`, with the equality of the keys.
  unfoldable pub add : (K → K → Bool) → K → E → Tlb K E → Tlb K E
  unfolding index_of oldest
  add eq key entry t =
      let te : TlbEntry K E = record { key = key; entry = entry; timestamp = t.timestamp } in
      let i : ℕ = elim (index_of (λ k. eq k t.first.key) t.rest) [
        | some j ↦ j
        | none ↦ oldest t.rest
      ] in
      record t { rest = set t.rest i te; timestamp = t.timestamp + 1 }

  -- `get(fn)`: the entry that is found, or that of slot 0; its timestamp is renewed.
  unfoldable pub get : (K → Bool) → Tlb K E → Tlb K E × E
  unfolding last_index_of
  get p t = elim (last_index_of p t.rest) [
    | none ↦ (
      record t {
        first = record (t.first) { timestamp = t.timestamp };
        timestamp = t.timestamp + 1;
      },
      t.first.entry,
    )
    | some i ↦
        let te = get_or t.rest i t.first in
        (
          record t {
            rest = set t.rest i (record te { timestamp = t.timestamp });
            timestamp = t.timestamp + 1;
          },
          te.entry,
        )
  ]

  unfoldable pub fill_rest : TlbEntry K E → List (TlbEntry K E) → List (TlbEntry K E)
  fill_rest te [] = []
  fill_rest te (x ∷ xs) = te ∷ fill_rest te xs

  unfoldable pub clear : Tlb K E → Tlb K E
  unfolding fill_rest
  clear t = record t { rest = fill_rest t.first t.rest; timestamp = 0 }
