-- ===== src/Types.antt =====
-- src/compiler_common.h: the types of the IR, their classes, sizes and comparison, and the guess of
-- an alignment from a size. The laws stand in the children.
pub mod Classes
pub mod Same
pub mod Align
pub mod Parse
mod Tests
use bbae.Common.{
  ℕ, zero, suc, ◌*◌, ◌%◌, ◌^◌, Bool, true, false, ◌&&◌, ◌||◌, not, List, [], ◌∷◌, Run, Fault, ok,
  fault, assertion, ltb, leb, ◌==◌, if◌then◌else◌, Bytes, codes, get_or,
}

-- `enum BBAE_TYPE_VARIANT`; `void` is TYPE_NONE.
pub data TypeVariant : Type 0 where
  invalid void i8 i16 i32 i64 iptr f32 f64 agg : TypeVariant

-- The number that C gives to an enumerator.
unfoldable pub ordinal : TypeVariant → ℕ
ordinal invalid = 0
ordinal void = 1
ordinal i8 = 2
ordinal i16 = 3
ordinal i32 = 4
ordinal i64 = 5
ordinal iptr = 6
ordinal f32 = 7
ordinal f64 = 8
ordinal agg = 9

infix 50 ◌is_variant◌
unfoldable pub ◌is_variant◌ : TypeVariant → TypeVariant → Bool
unfolding ordinal
a is_variant b = ordinal a == ordinal b

-- `per_byte_likeness` points at `size` bytes: 0 is an integer byte, anything else a float byte.
pub record AggData : Type 0 where
  pub align : ℕ
  pub size : ℕ
  pub per_byte_likeness : Bytes
  pub packed : ℕ

pub record IrType : Type 0 where
  pub variant : TypeVariant
  pub aggdata : AggData

abbrev pub zero_aggdata : AggData
zero_aggdata = record { align = 0; size = 0; per_byte_likeness = []; packed = 0 }

abbrev pub basic_type : TypeVariant → IrType
basic_type val = record { variant = val; aggdata = zero_aggdata }

unfoldable pub type_to_static_string : IrType → Bytes
type_to_static_string t = elim (t.variant) [
  | void ↦ codes "void"
  | i8 ↦ codes "i8"
  | i16 ↦ codes "i16"
  | i32 ↦ codes "i32"
  | i64 ↦ codes "i64"
  | f32 ↦ codes "f32"
  | f64 ↦ codes "f64"
  | iptr ↦ codes "iptr"
  | agg ↦ codes "<aggregatetype>"
  | invalid ↦ codes "<INVALIDTYPE>"
]

-- The tests compare enumerators, as the source does.
abbrev between : TypeVariant → TypeVariant → TypeVariant → Bool
between lo hi v = leb (ordinal lo) (ordinal v) && leb (ordinal v) (ordinal hi)

unfoldable pub type_is_valid : IrType → Bool
unfolding ordinal
type_is_valid t = between i8 agg t.variant

unfoldable pub type_is_basic : IrType → Bool
unfolding ordinal
type_is_basic t = between i8 f64 t.variant

unfoldable pub type_is_agg : IrType → Bool
unfolding ◌is_variant◌
type_is_agg t = t.variant is_variant agg

unfoldable pub type_is_int : IrType → Bool
unfolding ordinal
type_is_int t = between i8 i64 t.variant

unfoldable pub type_is_float : IrType → Bool
unfolding ordinal
type_is_float t = between f32 f64 t.variant

unfoldable pub type_is_ptr : IrType → Bool
unfolding ◌is_variant◌
type_is_ptr t = t.variant is_variant iptr

-- The loop of `type_is_float_only_agg`, on the bytes that are left to look at.
unfoldable pub all_float_bytes : ℕ → Bytes → Bool
all_float_bytes zero likeness = true
all_float_bytes (suc n) [] = true
all_float_bytes (suc n) (b ∷ likeness) = if b == 0 then false else all_float_bytes n likeness

unfoldable pub type_is_float_only_agg : IrType → Bool
unfolding type_is_agg all_float_bytes
type_is_float_only_agg t =
    if type_is_agg t then all_float_bytes t.aggdata.size t.aggdata.per_byte_likeness else false

unfoldable pub type_size : IrType → Run ℕ
type_size t = elim (t.variant) [
  | agg ↦ ok t.aggdata.size
  | i8 ↦ ok 1
  | i16 ↦ ok 2
  | i32 ↦ ok 4
  | i64 ↦ ok 8
  | iptr ↦ ok 8
  | f32 ↦ ok 4
  | f64 ↦ ok 8
  | invalid ↦ fault assertion
  | void ↦ fault assertion
]

-- `memcmp(a, b, n) == 0`; past the end of a block its bytes read as 0.
unfoldable pub mem_same : ℕ → Bytes → Bytes → Bool
mem_same zero a b = true
mem_same (suc n) [] [] = true
mem_same (suc n) [] (y ∷ b) = y == 0 && mem_same n [] b
mem_same (suc n) (x ∷ a) [] = x == 0 && mem_same n a []
mem_same (suc n) (x ∷ a) (y ∷ b) = x == y && mem_same n a b

unfoldable pub aggdata_same : AggData → AggData → Bool
aggdata_same a b =
    if not (a.align == b.align) || not (a.packed == b.packed) || not (a.size == b.size)
    then false
    else mem_same a.size a.per_byte_likeness b.per_byte_likeness

unfoldable pub types_same : IrType → IrType → Bool
unfolding ◌is_variant◌ aggdata_same
types_same a b =
    if a.variant is_variant invalid || b.variant is_variant invalid
    then false
    else if not (a.variant is_variant b.variant)
    then false
    else if not (a.variant is_variant agg)
    then true
    else aggdata_same a.aggdata b.aggdata

-- The loop `while (ret < 64 && ret < s) ret <<= 1`.
unfoldable pub double_while : ℕ → ℕ → ℕ → Run ℕ
double_while zero s ret = fault Fault.stuck
double_while (suc fuel) s ret =
    let rest = double_while fuel s (ret * 2 % 2 ^ 64) in
    if ltb ret 64 && ltb ret s then rest else ok ret

-- Six doublings reach 64, so seven rounds of fuel are enough.
unfoldable pub size_guess_align : ℕ → Run ℕ
unfolding double_while
size_guess_align s = double_while 7 s 1
