-- ===== src/Array/Tests.antt =====
-- Runs of the array operations at concrete inputs.
use bbae.Common.{ℕ, ◌≡◌, refl, Bool, true, [], ◌∷◌, Fault, fault, Bytes}
use bbae.Types.{mem_same}
use bbae.Array.{array_erase_impl, array_insert, array_find_impl, array_len, find_loop}
use bbae.Array.Items.{served}
use bbae.Array.Laws.{flat, array_erase_impl-flat, array_insert-flat}

abbrev always : ℕ → Bool
always n = true

abbrev pair_of : ℕ → Bytes
pair_of n = n ∷ 0 ∷ []

-- A search for an item of sixteen bytes that the array does not hold leaves the block.
find_past_end :
    array_find_impl
      (1 ∷ 2 ∷ 3 ∷ 4 ∷ 5 ∷ 6 ∷ 7 ∷ 8 ∷ 9 ∷ 10 ∷ 11 ∷ 12 ∷ 13 ∷ 14 ∷ 15 ∷ 16 ∷ [])
      16
      (0 ∷ [])
    ≡ fault Fault.undefined
unfolding array_find_impl array_len find_loop mem_same
find_past_end = refl

array_erase_impl-flat_example :
    array_erase_impl always (flat (pair_of 1 ∷ pair_of 2 ∷ pair_of 3 ∷ [])) 2 1
    ≡ served always 4 (flat (pair_of 1 ∷ pair_of 3 ∷ []))
array_erase_impl-flat_example =
    array_erase_impl-flat always 2 (pair_of 1 ∷ []) (pair_of 2) (pair_of 3 ∷ []) (refl, tt) refl
      (refl, tt)

array_insert-flat_example :
    array_insert always (flat (pair_of 1 ∷ pair_of 3 ∷ [])) 1 (pair_of 2)
    ≡ served always 6 (flat (pair_of 1 ∷ pair_of 2 ∷ pair_of 3 ∷ []))
array_insert-flat_example =
    array_insert-flat always (pair_of 1 ∷ []) (pair_of 2) (pair_of 3 ∷ []) (refl, tt) (refl, tt)
