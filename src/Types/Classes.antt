-- ===== src/Types/Classes.antt =====
-- The classes of types that the tests of src/compiler_common.h tell apart.
use bbae.Common.{
  ℕ, ◌≡◌, ◌+◌, ◌≤◌, Bool, true, false, Run, ok, fault, assertion, arith, refl, ◌⊎◌, inl, inr,
}
use bbae.Types.{
  IrType, TypeVariant, AggData, type_is_valid, type_is_basic, type_is_agg, type_is_int,
  type_is_float, type_is_ptr, type_size,
}

abbrev pub to_nat : Bool → ℕ
to_nat true = 1
to_nat false = 0

-- A type is in exactly one of the four classes when it is valid, and in none otherwise; the basic
-- types are the valid ones that are no aggregate.
pub one_class :
    (t : IrType)
    → (to_nat (type_is_int t)
          + to_nat (type_is_ptr t)
          + to_nat (type_is_float t)
          + to_nat (type_is_agg t)
        ≡ to_nat (type_is_valid t))
      × (to_nat (type_is_basic t) + to_nat (type_is_agg t) ≡ to_nat (type_is_valid t))
unfolding type_is_int type_is_ptr type_is_float type_is_agg type_is_valid type_is_basic
one_class t = by_variant t.variant t.aggdata
  where
    by_variant :
        (v : TypeVariant) (d : AggData)
        → let t : IrType = record { variant = v; aggdata = d } in
          (to_nat (type_is_int t)
              + to_nat (type_is_ptr t)
              + to_nat (type_is_float t)
              + to_nat (type_is_agg t)
            ≡ to_nat (type_is_valid t))
          × (to_nat (type_is_basic t) + to_nat (type_is_agg t) ≡ to_nat (type_is_valid t))
    by_variant TypeVariant.agg d = (refl, refl)
    by_variant _ d = (refl, refl)

-- What the size of a type is allowed to be.
abbrev pub HasSize : IrType → Run ℕ → Type 0
HasSize t (ok n) = (type_is_valid t ≡ true) × ((type_is_agg t ≡ true) ⊎ ((1 ≤ n) × (n ≤ 8)))
HasSize t (fault e) = (type_is_valid t ≡ false) × (e ≡ assertion)

-- `type_size` stops at its assertion exactly for the types that are not valid; the size of a valid
-- type that is no aggregate is at least 1 and at most 8.
pub type_size-HasSize : (t : IrType) → HasSize t (type_size t)
unfolding type_is_valid type_is_agg type_size
type_size-HasSize t = by_variant t.variant t.aggdata
  where
    by_variant :
        (v : TypeVariant) (d : AggData)
        → let t : IrType = record { variant = v; aggdata = d } in HasSize t (type_size t)
    by_variant TypeVariant.agg d = (refl, inl refl)
    by_variant TypeVariant.invalid d = (refl, refl)
    by_variant TypeVariant.void d = (refl, refl)
    by_variant _ d = (refl, inr (omega arith))
