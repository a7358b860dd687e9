-- ===== src/Reloc/Store.antt =====
-- src/relocation_helpers.h: what a `memcpy` into the code changes.
use bbae.Common.{
  ℕ, zero, suc, ◌+◌, ◌≤◌, ◌<◌, ◌≡◌, ◌⊎◌, refl, inr, ap, [], ◌∷◌, ok, Bytes, length, get_elem?,
  arith,
}
use bbae.Reloc.{store_at}

-- `bs` stands in `code` at `loc`: the byte `i` of the code is the byte `i - loc` of `bs`.
abbrev pub StandsAt : Bytes → ℕ → Bytes → Type 0
StandsAt bs loc code = (i j : ℕ) → i ≡ loc + j → j < length bs → get_elem? code i ≡ get_elem? bs j

-- Outside the `n` bytes at `loc` the two codes agree.
abbrev pub AgreeOutside : ℕ → ℕ → Bytes → Bytes → Type 0
AgreeOutside loc n code code' =
    (i : ℕ) → (i < loc) ⊎ (loc + n ≤ i) → get_elem? code' i ≡ get_elem? code i

pub record Stores (code : Bytes) (loc : ℕ) (bs code' : Bytes) : Type 0 where
  pub stored : StandsAt bs loc code'
  pub outside : AgreeOutside loc (length bs) code code'
  pub same_length : length code' ≡ length code

Stores-here :
    (b c : ℕ) (bs code code' : Bytes)
    → Stores code 0 bs code'
    → Stores (c ∷ code) 0 (b ∷ bs) (b ∷ code')
Stores-here b c bs code code' s = record {
  stored = stored;
  outside = outside;
  same_length = ap suc s.same_length;
}
  where
    stored : StandsAt (b ∷ bs) 0 (b ∷ code')
    stored zero zero e l = refl
    stored zero (suc j) e l = absurd (omega arith)
    stored (suc i) zero e l = absurd (omega arith)
    stored (suc i) (suc j) e l = s.stored i j (omega arith) (omega arith)

    outside : AgreeOutside 0 (length (b ∷ bs)) (c ∷ code) (b ∷ code')
    outside zero o = absurd (omega arith)
    outside (suc i) o = s.outside i (inr (omega arith))

Stores-later :
    (loc : ℕ) (bs : Bytes) (c : ℕ) (code code' : Bytes)
    → Stores code loc bs code'
    → Stores (c ∷ code) (suc loc) bs (c ∷ code')
Stores-later loc bs c code code' s = record {
  stored = stored;
  outside = outside;
  same_length = ap suc s.same_length;
}
  where
    stored : StandsAt bs (suc loc) (c ∷ code')
    stored zero j e l = absurd (omega arith)
    stored (suc i) j e l = s.stored i j (omega arith) l

    outside : AgreeOutside (suc loc) (length bs) (c ∷ code) (c ∷ code')
    outside zero o = refl
    outside (suc i) o = s.outside i (omega arith)

-- A write inside the bytes in use succeeds, and changes these bytes alone.
pub store_at-Stores :
    (code : Bytes) (loc : ℕ) (bs : Bytes)
    → loc + length bs ≤ length code
    → (code' : Bytes) × (store_at code loc bs ≡ ok code') × Stores code loc bs code'
unfolding store_at
store_at-Stores code loc [] h = (
  code,
  refl,
  record { stored = λ i j e l. absurd (omega arith); outside = λ i o. refl; same_length = refl },
)
store_at-Stores [] loc (b ∷ bs) h = absurd (omega arith)
store_at-Stores (c ∷ code) zero (b ∷ bs) h =
    let (code', run, s) = store_at-Stores code 0 bs (omega arith) in
    (b ∷ code', rw run, Stores-here b c bs code code' s)
store_at-Stores (c ∷ code) (suc loc) (b ∷ bs) h =
    let bs' = b ∷ bs in
    let (code', run, s) = store_at-Stores code loc (b ∷ bs) (omega arith) in
    (c ∷ code', rw run, Stores-later loc bs' c code code' s)
