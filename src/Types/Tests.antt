-- ===== src/Types/Tests.antt =====
-- Runs of the type functions at concrete inputs.
use bbae.Common.{◌≡◌, ◌↔◌, refl, Bool, true, [], ◌∷◌, ◌++◌, ok, codes}
use bbae.Types.{
  IrType, TypeVariant, basic_type, types_same, type_is_basic, type_is_agg, type_to_static_string,
  type_is_float_only_agg, all_float_bytes,
}
use bbae.Text.{is_space, is_newline}
use bbae.Types.Same.{SameType, types_same_iff}
use bbae.Types.Parse.{parse_type, parse_type-type_to_static_string}

-- An aggregate of an integer byte and a float byte.
abbrev two_bytes : IrType
two_bytes = record {
  variant = TypeVariant.agg;
  aggdata = record { align = 1; size = 2; per_byte_likeness = 0 ∷ 1 ∷ []; packed = 1 };
}

mixed_bytes : type_is_float_only_agg two_bytes ≡ Bool.false
unfolding type_is_float_only_agg type_is_agg all_float_bytes
mixed_bytes = refl

types_same_iff_example : (types_same two_bytes two_bytes ≡ true) ↔ SameType two_bytes two_bytes
types_same_iff_example = types_same_iff two_bytes two_bytes refl refl

parse_type-type_to_static_string_example :
    parse_type (codes " " ++ (type_to_static_string (basic_type TypeVariant.iptr) ++ codes " x"))
    ≡ ok (basic_type TypeVariant.iptr, codes " x")
unfolding type_is_basic is_space is_newline
parse_type-type_to_static_string_example =
    parse_type-type_to_static_string TypeVariant.iptr (codes " ") (codes " x") refl (refl, tt) refl
