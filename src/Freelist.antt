-- ===== src/Freelist.antt =====
-- include/ityr/common/freelist.hpp: `freelist`, the list of free address ranges in order of address.
-- Addresses and sizes are 64-bit and wrap.
pub mod Free
pub mod Get
pub mod Add
pub mod Aligned
pub mod RoundTrip
mod Tests
use itoyori_github_io.Base.{
  ℕ, ◌-◌, ◌%◌, ◌&&◌, Option, none, some, List, [], ◌∷◌, ltb, leb, ◌==◌, if◌then◌else◌, ◌>>=◌,
  length,
}
use itoyori_github_io.Pow2.{add64, sub64, is_pow2, round_up_pow2}

pub record Entry : Type 0 where
  pub addr : ℕ
  pub size : ℕ

abbrev pub entry : ℕ → ℕ → Entry
entry a s = record { addr = a; size = s }

abbrev pub Freelist : Type 0
Freelist = List Entry

-- The constructor `freelist(addr, size)`.
unfoldable pub init : ℕ → ℕ → Freelist
init addr size = entry addr size ∷ []

-- `get(size)`: the address and the list that is left; `none` is `std::nullopt`, and the list stays.
unfoldable pub get : ℕ → Freelist → Option (ℕ × Freelist)
get size [] = none
get size (x ∷ xs) =
    let rest = get size xs >>= λ (a, out). some (a, x ∷ out) in
    if x.size == size
    then some (x.addr, xs)
    else if ltb size x.size
    then some (x.addr, entry (add64 x.addr size) (x.size - size) ∷ xs)
    else rest

-- The third case of `add`: `x` has grown at its end, and may now touch the next entry.
unfoldable pub join_next : Entry → Freelist → Freelist
join_next x [] = x ∷ []
join_next x (y ∷ ys) =
    if y.addr == add64 x.addr x.size then entry x.addr (add64 x.size y.size) ∷ ys else x ∷ y ∷ ys

-- The loop of `add`.
unfoldable pub add_loop : ℕ → ℕ → Freelist → Freelist
unfolding join_next
add_loop addr size [] = entry addr size ∷ []
add_loop addr size (x ∷ xs) =
    let rest = x ∷ add_loop addr size xs in
    if add64 addr size == x.addr
    then entry addr (add64 x.size size) ∷ xs
    else if ltb (add64 addr size) x.addr
    then entry addr size ∷ x ∷ xs
    else if addr == add64 x.addr x.size
    then join_next (entry x.addr (add64 x.size size)) xs
    else rest

unfoldable pub add : ℕ → ℕ → Freelist → Freelist
add addr size fl = if size == 0 then fl else add_loop addr size fl

-- The end of `get(size, alignment)`, with `g` at the start of a range of `size + alignment` bytes.
-- `none` is a failed ITYR_CHECK, that of `round_up_pow2` included.
unfoldable pub trim : ℕ → ℕ → ℕ → Freelist → Option (Option ℕ × Freelist)
trim size alignment g fl =
    let req_size = add64 size alignment in
    let r = round_up_pow2 g alignment in
    let front = add g (sub64 r g) fl in
    let stop = add64 g req_size in
    if is_pow2 alignment && leb g r && leb (add64 r size) stop
    then some (some r, add (add64 r size) (sub64 stop (add64 r size)) front)
    else none

-- `get(size, alignment)`: the address, if there is one, and the list after the call.
unfoldable pub get_aligned : ℕ → ℕ → Freelist → Option (Option ℕ × Freelist)
unfolding trim
get_aligned size alignment fl = elim (get size fl) [
  | none ↦ some (none, fl)
  | some (s, fl1) ↦
      let fl2 = add s size fl1 in
      let retry : Option (Option ℕ × Freelist) = elim (get (add64 size alignment) fl2) [
        | none ↦ some (none, fl2)
        | some (g, fl3) ↦ trim size alignment g fl3
      ] in
      if s % alignment == 0 then some (some s, fl1) else retry
]

unfoldable pub count : Freelist → ℕ
count fl = length fl
