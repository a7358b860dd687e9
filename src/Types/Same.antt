-- ===== src/Types/Same.antt =====
-- Comparison of types, src/compiler_common.h.
use bbae.Common.{ℕ, zero, suc, ◌≡◌, ◌≢◌, ◌↔◌, ◌⊎◌, true, arith, refl, Bytes, length, [], ◌∷◌}
use bbae.Types.{IrType, TypeVariant, AggData, types_same, mem_same, aggdata_same, ◌is_variant◌}

pub is_variant→eq : (a b : TypeVariant) → a is_variant b ≡ true → a ≡ b
unfolding ◌is_variant◌
is_variant→eq a b h = ground arith

pub is_variant_refl : (a : TypeVariant) → a is_variant a ≡ true
unfolding ◌is_variant◌
is_variant_refl a = ground arith

pub is_variant_symm : (a b : TypeVariant) → a is_variant b ≡ b is_variant a
unfolding ◌is_variant◌
is_variant_symm a b = ground arith

pub mem_same_refl : (n : ℕ) (a : Bytes) → mem_same n a a ≡ true
unfolding mem_same
mem_same_refl zero a = refl
mem_same_refl (suc n) [] = refl
mem_same_refl (suc n) (x ∷ a) = ground (arith, mem_same_refl n a)

pub mem_same_symm : (n : ℕ) (a b : Bytes) → mem_same n a b ≡ mem_same n b a
unfolding mem_same
mem_same_symm zero a b = refl
mem_same_symm (suc n) [] [] = refl
mem_same_symm (suc n) [] (y ∷ b) = ground (arith, mem_same_symm n [] b)
mem_same_symm (suc n) (x ∷ a) [] = ground (arith, mem_same_symm n a [])
mem_same_symm (suc n) (x ∷ a) (y ∷ b) = ground (arith, mem_same_symm n a b)

-- On blocks of the compared length, the comparison decides equality.
pub mem_same→eq :
    (n : ℕ) (a b : Bytes) → length a ≡ n → length b ≡ n → mem_same n a b ≡ true → a ≡ b
unfolding mem_same
mem_same→eq zero [] [] p q h = refl
mem_same→eq zero [] (y ∷ b) p q h = absurd (omega arith)
mem_same→eq zero (x ∷ a) b p q h = absurd (omega arith)
mem_same→eq (suc n) [] b p q h = absurd (omega arith)
mem_same→eq (suc n) (x ∷ a) [] p q h = absurd (omega arith)
mem_same→eq (suc n) (x ∷ a) (y ∷ b) p q h =
    ground (arith, mem_same→eq n a b (omega arith) (omega arith))

-- The aggregate data holds a likeness byte for each of its bytes.
abbrev pub IsWellFormed : AggData → Type 0
IsWellFormed d = length d.per_byte_likeness ≡ d.size

pub aggdata_same_iff :
    (a b : AggData) → IsWellFormed a → IsWellFormed b → (aggdata_same a b ≡ true) ↔ (a ≡ b)
unfolding aggdata_same
aggdata_same_iff a b p q = (
  λ h. ground (arith, mem_same→eq a.size a.per_byte_likeness b.per_byte_likeness p),
  λ e. rw e (ground (arith, mem_same_refl b.size b.per_byte_likeness)),
)

-- What `types_same` means: the variants agree and are not the invalid one, and they are not
-- the aggregate one or the aggregate data agree too.
abbrev pub SameType : IrType → IrType → Type 0
SameType a b =
    (a.variant ≡ b.variant)
    × (a.variant ≢ TypeVariant.invalid)
    × ((a.variant ≢ TypeVariant.agg) ⊎ (a.aggdata ≡ b.aggdata))

-- The comparison of two types whose aggregate data is well-formed decides that they are the same
-- valid or void type, the aggregate data included.
pub types_same_iff :
    (a b : IrType)
    → IsWellFormed a.aggdata
    → IsWellFormed b.aggdata
    → (types_same a b ≡ true) ↔ SameType a b
unfolding types_same
types_same_iff a b p q = (
  λ h. ground (
    arith,
    is_variant→eq a.variant b.variant,
    is_variant_refl TypeVariant.invalid,
    is_variant_refl TypeVariant.agg,
    (aggdata_same_iff a.aggdata b.aggdata p q).0,
  ),
  λ h. ground (
    arith,
    h.2,
    is_variant→eq a.variant TypeVariant.invalid,
    is_variant→eq b.variant TypeVariant.invalid,
    is_variant→eq a.variant TypeVariant.agg,
    is_variant_refl b.variant,
    (aggdata_same_iff a.aggdata b.aggdata p q).1,
  ),
)
