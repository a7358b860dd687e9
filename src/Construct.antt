-- ===== src/Construct.antt =====
-- src/bbae_construction.h: constants, the values that a name stands for, and the operations' names.
pub mod Scope
pub mod Shapes
pub mod Add
pub mod Legal
pub mod Moved
pub mod Legalized
pub mod Constants
mod Tests
use bbae.Common.{
  ℕ, zero, suc, ◌+◌, ◌-◌, ◌%◌, ◌^◌, Bool, true, false, ◌&&◌, ◌||◌, not, List, [], ◌∷◌, ◌++◌, Option,
  none, some, Run, Fault, ok, fault, assert, assertion, ◌>>=◌, ◌>>◌, ltb, leb, ◌==◌, if◌then◌else◌,
  length, Bytes, codes, str_same,
}
use bbae.Types.{IrType, TypeVariant}
use bbae.Ir.{Heap, Value, ValueVariant, Operand, Statement, Block, update}
use bbae.Ir.Output.{make_const_value, make_value, make_stackslot_value, new_value, is_one_of}
use bbae.Func.{Function}
use bbae.Slots.{StackSlot}
use bbae.Text.{str_ends_with, parse_int_nonbare}

-- `build_constant_i8` and so on: the parameter's type cuts the number. The floats' bits are given.
abbrev pub build_constant_f32 : Heap → ℕ → ℕ × Heap
build_constant_f32 h f = make_const_value h TypeVariant.f32 (f % 2 ^ 32)

abbrev pub build_constant_f64 : Heap → ℕ → ℕ × Heap
build_constant_f64 h f = make_const_value h TypeVariant.f64 (f % 2 ^ 64)

abbrev pub build_constant_i64 : Heap → ℕ → ℕ × Heap
build_constant_i64 h n = make_const_value h TypeVariant.i64 (n % 2 ^ 64)

abbrev pub build_constant_iptr : Heap → ℕ → ℕ × Heap
build_constant_iptr h n = make_const_value h TypeVariant.iptr (n % 2 ^ 64)

abbrev pub build_constant_i32 : Heap → ℕ → ℕ × Heap
build_constant_i32 h n = make_const_value h TypeVariant.i32 (n % 2 ^ 32)

abbrev pub build_constant_i16 : Heap → ℕ → ℕ × Heap
build_constant_i16 h n = make_const_value h TypeVariant.i16 (n % 2 ^ 16)

abbrev pub build_constant_i8 : Heap → ℕ → ℕ × Heap
build_constant_i8 h n = make_const_value h TypeVariant.i8 (n % 2 ^ 8)

unfoldable pub build_constant_zero : Heap → TypeVariant → Run (ℕ × Heap)
build_constant_zero h TypeVariant.i8 = ok (build_constant_i8 h 0)
build_constant_zero h TypeVariant.i16 = ok (build_constant_i16 h 0)
build_constant_zero h TypeVariant.i32 = ok (build_constant_i32 h 0)
build_constant_zero h TypeVariant.i64 = ok (build_constant_i64 h 0)
build_constant_zero h TypeVariant.iptr = ok (build_constant_iptr h 0)
build_constant_zero h TypeVariant.f32 = ok (build_constant_f32 h 0)
build_constant_zero h TypeVariant.f64 = ok (build_constant_f64 h 0)
build_constant_zero h TypeVariant.agg = fault assertion
build_constant_zero h TypeVariant.invalid = fault assertion
build_constant_zero h TypeVariant.void = fault assertion

abbrev pub is_arg : ValueVariant → Bool
is_arg ValueVariant.arg = true
is_arg _ = false

abbrev pub is_stackaddr : ValueVariant → Bool
is_stackaddr ValueVariant.stackaddr = true
is_stackaddr _ = false

-- The loops over arguments, stack slots and statements, which `check_for_redefinition` and
-- `parse_value` share: the first entry of the name.
unfoldable pub named_arg : Heap → List ℕ → Bytes → Run (Option ℕ)
named_arg h [] name = ok none
named_arg h (val ∷ args) name =
    let rest = named_arg h args name in
    assert (is_arg (h.values val).variant)
    >> (if str_same (h.values val).arg name then ok (some val) else rest)

abbrev pub slot_name : (ℕ → StackSlot) → Option ℕ → Run Bytes
slot_name slots none = fault Fault.undefined
slot_name slots (some slot) = ok (slots slot).name

unfoldable pub named_slot : (ℕ → StackSlot) → Heap → List ℕ → Bytes → Run (Option ℕ)
named_slot slots h [] name = ok none
named_slot slots h (value ∷ stack_slots) name =
    let rest = named_slot slots h stack_slots name in
    assert (is_stackaddr (h.values value).variant)
    >> (slot_name slots (h.values value).slotinfo >>= λ found.
        if str_same found name then ok (some value) else rest)

abbrev pub has_output_name : Option Bytes → Bytes → Bool
has_output_name none name = false
has_output_name (some output_name) name = str_same output_name name

unfoldable pub named_statement : Heap → List ℕ → Bytes → Option ℕ
named_statement h [] name = none
named_statement h (s ∷ statements) name =
    let rest = named_statement h statements name in
    if has_output_name (h.statements s).output_name name then some s else rest

abbrev pub is_some : Option ℕ → Bool
is_some none = false
is_some (some v) = true

abbrev pub args_in : Heap → Function → Option ℕ → List ℕ
args_in h func none = func.args
args_in h func (some b) = (h.blocks b).args

abbrev pub statements_in : Heap → Option ℕ → List ℕ
statements_in h none = []
statements_in h (some b) = (h.blocks b).statements

unfoldable pub check_for_redefinition :
    (ℕ → StackSlot) → Heap → Function → Option ℕ → Bytes → Run Bool
unfolding named_arg named_slot named_statement
check_for_redefinition slots h func block name = do
  arg ← named_arg h (args_in h func block) name
  if is_some arg
      then ok true
      else (named_slot slots h func.stack_slots name >>= λ slot.
          ok (is_some slot || is_some (named_statement h (statements_in h block) name)))

unfoldable pub assert_no_redefinition :
    (ℕ → StackSlot) → Heap → Function → Option ℕ → Bytes → Run (Unit {0})
unfolding check_for_redefinition
assert_no_redefinition slots h func block name =
    check_for_redefinition slots h func block name >>= λ found. assert (not found)

-- The first character of a literal: a digit, `-` or `.`.
abbrev pub starts_literal : Bytes → Bool
starts_literal [] = false
starts_literal (c ∷ token) = leb 48 c && leb c 57 || c == 45 || c == 46

-- `parse_value` of a literal. `strtof` and `strtod` are the C library's: the bits of the number and
-- how many characters it has.
abbrev pub parse_float : (Bytes → ℕ × ℕ) → Bytes → Run ℕ
parse_float strtod token = assert (length token - (strtod token).1 == 3) >> ok (strtod token).0

abbrev pub int_literal : Heap → Bytes → ℕ → Run (ℕ × Heap)
int_literal h token n =
    if str_ends_with token (codes "i8")
    then ok (build_constant_i8 h n)
    else if str_ends_with token (codes "i16")
    then ok (build_constant_i16 h n)
    else if str_ends_with token (codes "i32")
    then ok (build_constant_i32 h n)
    else if str_ends_with token (codes "i64")
    then ok (build_constant_i64 h n)
    else if str_ends_with token (codes "iptr")
    then ok (build_constant_iptr h n)
    else fault assertion

abbrev pub is_int_literal : Bytes → Bool
is_int_literal token =
    str_ends_with token (codes "i8")
    || str_ends_with token (codes "i16")
    || str_ends_with token (codes "i32")
    || str_ends_with token (codes "i64")
    || str_ends_with token (codes "iptr")

unfoldable pub parse_literal : (Bytes → ℕ × ℕ) → (Bytes → ℕ × ℕ) → Heap → Bytes → Run (ℕ × Heap)
unfolding str_ends_with parse_int_nonbare
parse_literal strtof strtod h token =
    if str_ends_with token (codes "f32")
    then (parse_float strtof token >>= λ f. ok (build_constant_f32 h f))
    else if str_ends_with token (codes "f64")
    then (parse_float strtod token >>= λ f. ok (build_constant_f64 h f))
    else if is_int_literal token
    then (parse_int_nonbare token >>= λ n. int_literal h token n)
    else fault assertion

-- The output of the statement of the name; an unknown name, or one without an output yet, fails an
-- assertion.
abbrev pub output_or_fail : Option ℕ → Run ℕ
output_or_fail none = fault assertion
output_or_fail (some v) = ok v

abbrev pub output_of_named : Heap → Option ℕ → Run ℕ
output_of_named h none = fault assertion
output_of_named h (some s) = output_or_fail (h.statements s).output

abbrev pub or_next : Option ℕ → Run ℕ → Run ℕ
or_next (some v) next = ok v
or_next none next = next

-- `parse_value` of a name: the arguments of the function in the entry block, and otherwise those of
-- the block; then the stack slots; then the statements.
unfoldable pub lookup_value : (ℕ → StackSlot) → Heap → Function → ℕ → Bytes → Run ℕ
unfolding named_arg named_slot named_statement
lookup_value slots h func block token =
    let args = if block == func.entry_block then func.args else (h.blocks block).args in
    named_arg h args token >>= λ arg. or_next arg (
      named_slot slots h func.stack_slots token >>= λ slot.
      or_next slot (output_of_named h (named_statement h (h.blocks block).statements token)))

abbrev pub is_reserved : Bytes → Bool
is_reserved token = is_one_of token (codes "=" ∷ codes "{" ∷ codes "}" ∷ codes "<=" ∷ [])

unfoldable pub parse_value :
    (Bytes → ℕ × ℕ)
    → (Bytes → ℕ × ℕ)
    → (ℕ → StackSlot)
    → Heap
    → Function
    → ℕ
    → Bytes
    → Run (ℕ × Heap)
unfolding parse_literal lookup_value is_one_of
parse_value strtof strtod slots h func block token =
    let literal = parse_literal strtof strtod h token in
    let named = lookup_value slots h func block token >>= λ v. ok (v, h) in
    assert (not (is_reserved token)) >> (if starts_literal token then literal else named)
