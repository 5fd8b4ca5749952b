-- ===== src/Core/Tests.antt =====
-- Runs of the definitions, and the theorems at concrete inputs: a memory of three blocks over two
-- processes.
use itoyori_github_io.Core.Lookup.{Contains, IsConsistent}
use itoyori_github_io.Core.Created.{create_lem}
use itoyori_github_io.Core.Destroyed.{destroy_lem}
use itoyori_github_io.Base.{
  inl, ◌⊎◌, ℕ, ◌≡◌, refl, false, List, [], ◌∷◌, some, arith, none, ◌<◌, ◌≤◌,
}
use itoyori_github_io.Pow2.{round_down_pow2}
use itoyori_github_io.MemMapper.Block.{Block, get_segment, local_size, effective_size}
use itoyori_github_io.Core.Ranges.{BlockCall, Call, for_each_block}
use itoyori_github_io.Core.Collective.{CollMem, Colls, get, create, destroy, for_each_seg_blk}
use itoyori_github_io.Core.Calls.{Calls}
use itoyori_github_io.Core.Segments.{for_each_seg_blk_lem}
use itoyori_github_io.Core.Distributed.{block_mem, block_mem-MapperLaws}

abbrev three_blocks : Block
three_blocks = record { bs = 16; n_inter_ranks = 2; n_intra_ranks = 1; n_blk = 3 }

abbrev memory : CollMem
memory = block_mem three_blocks 44 0 1600 7 0 false

abbrev block_call : ℕ → ℕ → ℕ → BlockCall
block_call blk b e = record { blk_addr = blk; req_addr_b = b; req_addr_e = e }

for_each_block_test :
    for_each_block 16 1605 30
    ≡ block_call 1600 1605 1616 ∷ block_call 1616 1616 1632 ∷ block_call 1632 1632 1635 ∷ []
unfolding for_each_block round_down_pow2
for_each_block_test = refl

-- Process 1 owns the third block.
for_each_seg_blk_test :
    for_each_seg_blk 16 1 memory 1605 30
    ≡ some (
        Call.cache_blk (block_call 1600 1605 1616) 0 0
        ∷ Call.cache_blk (block_call 1616 1616 1632) 0 16
        ∷ Call.home_seg 1632 16 0
        ∷ [])
unfolding for_each_seg_blk get_segment local_size effective_size round_down_pow2
for_each_seg_blk_test = refl

for_each_seg_blk_lem_example :
    (ks : List Call) × (for_each_seg_blk 16 1 memory 1605 30 ≡ some ks)
    × Calls 16 1 memory 1635 1605 1635 ks
unfolding effective_size
for_each_seg_blk_lem_example =
    for_each_seg_blk_lem 4 1 memory 1605 30
      (block_mem-MapperLaws three_blocks 44 0 1600 7 0 false
        (omega arith, (omega arith, omega arith, omega arith), omega arith))
      (omega arith, refl, omega arith, omega arith, omega arith, omega arith) (omega arith)

abbrev at_1600 : ℕ → CollMem
at_1600 id = block_mem three_blocks 44 id 1600 7 0 false

abbrev at_3200 : ℕ → CollMem
at_3200 id = block_mem three_blocks 44 id 3200 8 1 false

abbrev empty : Colls
empty = record { coll_mems = []; coll_mem_ids = [] }

empty-IsConsistent : IsConsistent empty
empty-IsConsistent = record { rows = tt; apart = tt }

abbrev one : Colls
one = record { coll_mems = some (at_1600 0) ∷ []; coll_mem_ids = (1600, 1644, 0) ∷ [] }

abbrev two : Colls
two = record {
  coll_mems = some (at_1600 0) ∷ some (at_3200 1) ∷ [];
  coll_mem_ids = (1600, 1644, 0) ∷ (3200, 3244, 1) ∷ [];
}

one-IsConsistent : IsConsistent one
unfolding create
one-IsConsistent = (create_lem at_1600 empty empty-IsConsistent (refl, omega arith, tt)).0

two-IsConsistent : IsConsistent two
unfolding create
two-IsConsistent =
    (create_lem at_3200 one one-IsConsistent (refl, omega arith, (inl (omega arith), tt))).0

found_test : get 3243 two ≡ some (at_3200 1)
unfolding get
found_test = refl

destroy_lem_example :
    (cs' : Colls) × (destroy (at_3200 1) two ≡ some cs')
    × IsConsistent cs'
    × ((q : ℕ) → Contains (at_3200 1) q → get q cs' ≡ none)
    × ((q : ℕ) → (q < 3200) ⊎ (3244 ≤ q) → get q cs' ≡ get q two)
destroy_lem_example = destroy_lem 3243 (at_3200 1) two two-IsConsistent found_test
