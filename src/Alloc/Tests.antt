-- ===== src/Alloc/Tests.antt =====
-- Allocations at concrete inputs.
use bbae.Common.{
  ℕ, ◌+◌, ◌-◌, ◌≡◌, ◌≢◌, refl, [], ◌∷◌, ◌++◌, Option, none, some, ok, ◌==◌, if◌then◌else◌, take,
  replicate, length-replicate, arith,
}
use bbae.Alloc.{Allocation, Memory, Allocs, zero_alloc, zero_realloc, free_all_compiler_allocs}
use bbae.Alloc.Chain.{IsChain, IsFresh, data_of, zero_alloc-IsChain}
use bbae.Alloc.Renamed.{renamed_all}
use bbae.Alloc.Realloc.{zero_realloc-IsChain}
use bbae.Alloc.Free.{free_all_compiler_allocs-frees}

-- A library with room for two blocks.
abbrev second_free : Option Allocation → Option ℕ
second_free none = some 2000
second_free (some b) = none

abbrev first_free : Memory → Option Allocation → Option ℕ
first_free memory none = some 1000
first_free memory (some b) = second_free (memory 2000)

abbrev two_blocks : Memory → Option ℕ → ℕ → Option ℕ
two_blocks memory old n = first_free memory (memory 1000)

given_free :
    (memory : Memory) (o : Option Allocation) (a : ℕ)
    → memory 1000 ≡ o
    → first_free memory o ≡ some a
    → memory a ≡ none
given_free memory none a e gives = cc
given_free memory (some b) a e gives = given_second memory (memory 2000) a refl gives
  where
    given_second :
        (memory : Memory) (o : Option Allocation) (a : ℕ)
        → memory 2000 ≡ o
        → second_free o ≡ some a
        → memory a ≡ none
    given_second memory none a e gives = cc
    given_second memory (some b) a e gives = cc

two_blocks-IsFresh : IsFresh two_blocks
two_blocks-IsFresh = record {
  fresh = λ memory n a gives. given_free memory (memory 1000) a refl gives;
  moved = λ memory old n a gives ne. given_free memory (memory 1000) a refl gives;
}

abbrev nothing : Allocs
nothing = record { alloc_list = none; memory = λ a. none }

nothing-IsChain : IsChain nothing []
nothing-IsChain = record { linked = refl; once = tt; live = λ a e. refl }

zero_alloc-IsChain_example :
    (s' : Allocs) × (zero_alloc two_blocks nothing 5 ≡ ok (1000 + 64, s'))
    × IsChain s' (1000 ∷ [])
    × (data_of s' 1000 ≡ some (replicate 5 0))
    × ((b : ℕ) → b ≢ 1000 → data_of s' b ≡ data_of nothing b)
zero_alloc-IsChain_example =
    zero_alloc-IsChain two_blocks nothing 5 1000 [] two_blocks-IsFresh nothing-IsChain (omega arith)
      refl

abbrev three_bytes : Allocation
three_bytes = record { next = none; prev = none; size = 3; bytes = 7 ∷ 8 ∷ 9 ∷ [] }

abbrev one_block : Allocs
one_block = record {
  alloc_list = some 1000;
  memory = λ a. if a == 1000 then some three_bytes else none;
}

one_block-IsChain : IsChain one_block (1000 ∷ [])
one_block-IsChain = record {
  linked = (refl, three_bytes, refl, refl, (refl, omega arith), refl);
  once = (refl, tt);
  live = λ a e. ground arith;
}

zero_realloc-IsChain_example :
    (s' : Allocs) × (zero_realloc two_blocks (λ k. replicate k 255) one_block 1064 5
      ≡ ok (2000 + 64, s'))
    × IsChain s' (renamed_all 1000 2000 (1000 ∷ []))
    × (data_of s' 2000 ≡ some (take 5 three_bytes.bytes ++ replicate (5 - 3) 0))
    × ((x : ℕ) → x ≢ 2000 → x ≢ 1000 → data_of s' x ≡ data_of one_block x)
zero_realloc-IsChain_example =
    zero_realloc-IsChain two_blocks (λ k. replicate k 255) one_block 1064 5 2000 three_bytes
      (1000 ∷ []) two_blocks-IsFresh (λ k. length-replicate {A = ℕ} k 255) one_block-IsChain
      (omega arith) refl refl

free_all_compiler_allocs-frees_example :
    (s' : Allocs) × (free_all_compiler_allocs 1 one_block ≡ ok s')
    × (s'.alloc_list ≡ none)
    × ((a : ℕ) → s'.memory a ≡ none)
free_all_compiler_allocs-frees_example =
    free_all_compiler_allocs-frees 1 one_block (1000 ∷ []) one_block-IsChain (omega arith)
