-- ===== src/Ir/Output.antt =====
-- src/compiler_common.h: new values, and the value that a statement puts out, by the statement's name.
use bbae.Common.{
  ℕ, ◌+◌, Bool, true, false, ◌||◌, not, List, [], ◌∷◌, Option, none, some, Run, Fault, ok, fault,
  assertion, assert, ◌>>=◌, ◌>>◌, if◌then◌else◌, Bytes, codes, str_same, get_elem?, drop,
}
use bbae.Types.{IrType, TypeVariant, basic_type}
use bbae.Ir.{Heap, Value, ValueVariant, Operand, OpVariant, update}
use bbae.Ir.Edit.{is_value_op}

-- `make_value`: the value, which is stored at the next free address.
abbrev pub new_value : IrType → Value
new_value type_of = record {
  variant = ValueVariant.invalid;
  type_of = type_of;
  constant = 0;
  ssa = none;
  arg = [];
  slotinfo = none;
  edges_out = [];
}

unfoldable pub make_value : Heap → IrType → ℕ × Heap
make_value h type_of =
    (h.next, record h { values = update h.values h.next (new_value type_of); next = h.next + 1 })

unfoldable pub make_const_value : Heap → TypeVariant → ℕ → ℕ × Heap
make_const_value h variant constant =
    let v : Value = record (new_value (basic_type variant)) {
      variant = ValueVariant.const;
      constant = constant;
    } in
    (h.next, record h { values = update h.values h.next v; next = h.next + 1 })

unfoldable pub make_stackslot_value : Heap → ℕ → ℕ × Heap
make_stackslot_value h slot =
    let v : Value = record (new_value (basic_type TypeVariant.iptr)) {
      variant = ValueVariant.stackaddr;
      slotinfo = some slot;
    } in
    (h.next, record h { values = update h.values h.next v; next = h.next + 1 })

-- A chain of `strcmp(name, ...) == 0 || ...`
unfoldable pub is_one_of : Bytes → List Bytes → Bool
is_one_of name [] = false
is_one_of name (n ∷ names) = str_same name n || is_one_of name names

abbrev pub operand_typed : List Bytes
operand_typed =
    codes "add"
    ∷ codes "sub"
    ∷ codes "mul"
    ∷ codes "imul"
    ∷ codes "div"
    ∷ codes "div_unsafe"
    ∷ codes "idiv"
    ∷ codes "idiv_unsafe"
    ∷ codes "rem"
    ∷ codes "rem_unsafe"
    ∷ codes "irem"
    ∷ codes "irem_unsafe"
    ∷ codes "shl"
    ∷ codes "shr"
    ∷ codes "shr_unsafe"
    ∷ codes "sar"
    ∷ codes "sar_unsafe"
    ∷ codes "fadd"
    ∷ codes "fsub"
    ∷ codes "fmul"
    ∷ codes "fdiv"
    ∷ codes "fxor"
    ∷ codes "neg"
    ∷ codes "fneg"
    ∷ codes "and"
    ∷ codes "or"
    ∷ codes "xor"
    ∷ codes "mov"
    ∷ []

abbrev pub type_typed : List Bytes
type_typed =
    codes "load"
    ∷ codes "trim"
    ∷ codes "qext"
    ∷ codes "sext"
    ∷ codes "zext"
    ∷ codes "float_to_uint"
    ∷ codes "float_to_uint_unsafe"
    ∷ codes "uint_to_float"
    ∷ codes "float_to_sint"
    ∷ codes "float_to_sint_unsafe"
    ∷ codes "sint_to_float"
    ∷ codes "bitcast"
    ∷ codes "extract"
    ∷ []

abbrev pub comparisons : List Bytes
comparisons =
    codes "cmp_g"
    ∷ codes "cmp_ge"
    ∷ codes "cmp_l"
    ∷ codes "cmp_le"
    ∷ codes "cmp_eq"
    ∷ codes "cmp_ne"
    ∷ codes "icmp_g"
    ∷ codes "icmp_ge"
    ∷ codes "icmp_l"
    ∷ codes "icmp_le"
    ∷ codes "fcmp_g"
    ∷ codes "fcmp_ge"
    ∷ codes "fcmp_l"
    ∷ codes "fcmp_le"
    ∷ codes "fcmp_eq"
    ∷ codes "fcmp_ne"
    ∷ []

abbrev pub lookups : List Bytes
lookups = codes "symbol_lookup_unsized" ∷ codes "symbol_lookup" ∷ []

abbrev pub calls : List Bytes
calls = codes "call_eval" ∷ codes "call" ∷ []

abbrev pub is_type_op : OpVariant → Bool
is_type_op OpVariant.type_op = true
is_type_op _ = false

abbrev pub pointed_type : Heap → Option ℕ → Run IrType
pointed_type h none = fault Fault.undefined
pointed_type h (some v) = ok (h.values v).type_of

abbrev pub first_value_type : Heap → Option Operand → Run IrType
first_value_type h none = fault Fault.undefined
first_value_type h (some op) = assert (is_value_op op.variant) >> pointed_type h op.value

abbrev pub first_type : Option Operand → Run IrType
first_type none = fault Fault.undefined
first_type (some op) = assert (is_type_op op.variant) >> ok op.rawtype

abbrev pub first_rawtype : Option Operand → Run IrType
first_rawtype none = fault Fault.undefined
first_rawtype (some op) = ok op.rawtype

abbrev pub with_args : List Operand → Run IrType → Run (IrType × List Operand)
with_args args t = t >>= λ type_of. ok (type_of, args)

-- The type of the output and the operands that are left. The two tests behind the lookups are those
-- of the source, which does not compare the results of `strcmp` with 0.
unfoldable pub output_type : Heap → Bytes → List Operand → Run (IrType × List Operand)
output_type h name args =
    if is_one_of name operand_typed
    then with_args args (first_value_type h (get_elem? args 0))
    else if is_one_of name type_typed
    then with_args args (first_type (get_elem? args 0))
    else if is_one_of name comparisons
    then ok (basic_type TypeVariant.i8, args)
    else if is_one_of name lookups
    then ok (basic_type TypeVariant.iptr, args)
    else if not (str_same name (codes "f64_to_f32"))
    then ok (basic_type TypeVariant.f32, args)
    else if not (str_same name (codes "f32_to_f64"))
    then ok (basic_type TypeVariant.f64, args)
    else if is_one_of name calls
    then with_args (drop 1 args) (first_rawtype (get_elem? args 0))
    else fault assertion

-- The new SSA value is stored and becomes the statement's output.
abbrev pub give_output : Heap → ℕ → IrType × List Operand → Heap
give_output h s (type_of, args) = record h {
  values =
      update h.values h.next
        (record (new_value type_of) { variant = ValueVariant.ssa; ssa = some s });
  statements =
      update h.statements s (record (h.statements s) { output = some h.next; args = args });
  next = h.next + 1;
}

abbrev pub has_name : Option Bytes → Bool
has_name none = false
has_name (some name) = true

unfoldable pub add_statement_output : Heap → ℕ → Run Heap
add_statement_output h s =
    if has_name (h.statements s).output_name
    then (output_type h (h.statements s).statement_name (h.statements s).args >>= λ r.
        ok (give_output h s r))
    else ok h
