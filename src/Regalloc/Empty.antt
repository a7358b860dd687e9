-- ===== src/Regalloc/Empty.antt =====
-- src/x86/regalloc_x86.h: which register `first_empty` finds.
use bbae.Common.{
  ℕ, zero, suc, ◌+◌, ◌<◌, ◌≡◌, ◌≢◌, refl, ◌⊎◌, inl, inr, Bool, true, false, ◌&&◌, List, [], ◌∷◌,
  Option, none, some, if◌then◌else◌, take, arith, Bool-cases,
}
use bbae.Abi.{Abi, clobbers}
use bbae.Regalloc.{RegUse, Mask, is_empty, empty_from, first_empty, or_else}

-- The register `n` is in the array, allowed, and holds nothing.
abbrev pub is_free : Mask → List RegUse → ℕ → Bool
is_free mask [] n = false
is_free mask (r ∷ array) zero = mask 0 && is_empty r
is_free mask (r ∷ array) (suc n) = is_free (λ i. mask (suc i)) array n

-- The lowest free register, or none if no register is free.
abbrev pub IsLowest : Mask → List RegUse → Option ℕ → Type 0
IsLowest mask array none = (n : ℕ) → is_free mask array n ≡ false
IsLowest mask array (some n) =
    (is_free mask array n ≡ true) × ((k : ℕ) → k < n → is_free mask array k ≡ false)

-- The answer for the rest of the array, one register further up.
abbrev shift : Option ℕ → Option ℕ
shift none = none
shift (some n) = some (suc n)

shifted :
    (n : ℕ) (array : List RegUse) (mask : Mask)
    → empty_from (suc n) array mask ≡ shift (empty_from n array (λ i. mask (suc i)))
unfolding empty_from
shifted n [] mask = refl
shifted n (r ∷ array) mask =
    let up : suc n + 1 ≡ suc (n + 1) = omega arith in
    elim (Bool-cases (mask (suc n) && is_empty r)) [
      | inl here ↦ rw here refl
      | inr further ↦ rw (further, up) (shifted (n + 1) array mask)
    ]

IsLowest-after :
    (r : RegUse) (array : List RegUse) (mask : Mask) (o : Option ℕ)
    → mask 0 && is_empty r ≡ false
    → IsLowest (λ i. mask (suc i)) array o
    → IsLowest mask (r ∷ array) (shift o)
IsLowest-after r array mask none taken low = by_clauses
  where
    by_clauses : (n : ℕ) → is_free mask (r ∷ array) n ≡ false
    by_clauses zero = taken
    by_clauses (suc n) = low n
IsLowest-after r array mask (some m) taken low = (low.0, by_clauses)
  where
    by_clauses : (k : ℕ) → k < suc m → is_free mask (r ∷ array) k ≡ false
    by_clauses zero below = taken
    by_clauses (suc k) below = low.1 k (omega arith)

pub empty_from-IsLowest :
    (array : List RegUse) (mask : Mask) → IsLowest mask array (empty_from 0 array mask)
unfolding empty_from
empty_from-IsLowest [] mask = λ n. refl
empty_from-IsLowest (r ∷ array) mask = elim (Bool-cases (mask 0 && is_empty r)) [
  | inl here ↦ rw here (here, λ k below. absurd (omega arith))
  | inr taken ↦
      rw (taken, shifted 0 array mask)
        (IsLowest-after r array mask (empty_from 0 array (λ i. mask (suc i))) taken
          (empty_from-IsLowest array (λ i. mask (suc i))))
]

-- The registers that the search of a function without calls prefers.
abbrev pub preferred : Abi → Mask → Bool → Mask
preferred abi mask is_float n = mask n && clobbers abi (if is_float then n + 16 else n)

-- In a function that does calls `first_empty` gives the lowest free register that the mask allows,
-- and none if there is none. In a function without calls it gives the lowest one that a call may
-- clobber, if such a register is free, and otherwise again the lowest one that the mask allows.
pub first_empty-IsLowest :
    (abi : Abi) (array : List RegUse) (len : ℕ) (mask : Mask) (does_calls is_float : Bool)
    → let found = first_empty abi array len mask does_calls is_float in
      ((does_calls ≡ true) × IsLowest mask (take len array) found)
      ⊎ ((does_calls ≡ false)
          × (found ≢ none)
          × IsLowest (preferred abi mask is_float) (take len array) found)
      ⊎ ((does_calls ≡ false)
          × IsLowest (preferred abi mask is_float) (take len array) none
          × IsLowest mask (take len array) found)
unfolding first_empty
first_empty-IsLowest abi array len mask true is_float =
    inl (refl, empty_from-IsLowest (take len array) mask)
first_empty-IsLowest abi array len mask false is_float =
    by_first (empty_from 0 (take len array) (preferred abi mask is_float))
      (empty_from-IsLowest (take len array) (preferred abi mask is_float))
  where
    by_first :
        (o : Option ℕ)
        → IsLowest (preferred abi mask is_float) (take len array) o
        → let found = or_else o (empty_from 0 (take len array) mask) in
          ((false ≡ true) × IsLowest mask (take len array) found)
          ⊎ ((false ≡ false)
              × (found ≢ none)
              × IsLowest (preferred abi mask is_float) (take len array) found)
          ⊎ ((false ≡ false)
              × IsLowest (preferred abi mask is_float) (take len array) none
              × IsLowest mask (take len array) found)
    by_first (some n) low = inr (inl (refl, (λ e. absurd (some_not_none e)), low))
      where
        some_not_none : some n ≡ none → ⊥
        some_not_none e = cc
    by_first none low = inr (inr (refl, low, empty_from-IsLowest (take len array) mask))
