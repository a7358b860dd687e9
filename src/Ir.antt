-- ===== src/Ir.antt =====
-- src/compiler_common.h: the objects of the IR on an explicit heap, and their comparison. A pointer is an address; the heap gives an
-- object for every address, and null is `none`.
pub mod Update
pub mod Same
pub mod Edit
pub mod Output
pub mod Produces
pub mod Links
pub mod Replace
pub mod Operands
pub mod Substitute
mod Tests
use bbae.Common.{
  ℕ, zero, suc, ◌+◌, ◌-◌, Bool, true, false, ◌&&◌, ◌||◌, not, List, [], ◌∷◌, ◌++◌, Option, none,
  some, Run, Fault, ok, fault, assertion, assert, ◌>>=◌, ◌>>◌, ◌==◌, if◌then◌else◌, Bytes, codes,
  str_same, length, get_elem?, set,
}
use bbae.Types.{IrType, TypeVariant, basic_type, types_same, type_is_agg, mem_same}

-- `enum BBAE_VALUE_VARIANT`
pub data ValueVariant : Type 0 where
  invalid const ssa arg stackaddr : ValueVariant

-- `constant` is the address of the bytes if the type is an aggregate. The fields for register
-- allocation are left out.
pub record Value : Type 0 where
  pub variant : ValueVariant
  pub type_of : IrType
  pub constant : ℕ
  pub ssa : Option ℕ
  pub arg : Bytes
  pub slotinfo : Option ℕ
  pub edges_out : List ℕ

-- `enum BBAE_OP_VARIANT`
pub data OpVariant : Type 0 where
  invalid type_op value_op text_op rawinteger separator : OpVariant

pub record Operand : Type 0 where
  pub variant : OpVariant
  pub rawtype : IrType
  pub value : Option ℕ
  pub text : Bytes
  pub rawint : ℕ

-- `output_name` and `output` are null for an instruction. The numbers that single passes keep in a
-- statement are left out.
pub record Statement : Type 0 where
  pub output_name : Option Bytes
  pub output : Option ℕ
  pub statement_name : Bytes
  pub block : Option ℕ
  pub args : List Operand

-- The offset in the emitted code is left out.
pub record Block : Type 0 where
  pub name : Bytes
  pub args : List ℕ
  pub edges_in : List ℕ
  pub statements : List ℕ

-- `data_at` are the constant bytes of aggregates; `next` is an address that nothing uses yet.
pub record Heap : Type 0 where
  pub values : ℕ → Value
  pub statements : ℕ → Statement
  pub blocks : ℕ → Block
  pub data_at : ℕ → Bytes
  pub next : ℕ

-- A write through a pointer.
abbrev pub update {ℓ} : {A : Type ℓ} → (ℕ → A) → ℕ → A → ℕ → A
update f k v j = if j == k then v else f j

abbrev pub empty_op : Operand
empty_op = record {
  variant = OpVariant.invalid;
  rawtype = basic_type TypeVariant.invalid;
  value = none;
  text = [];
  rawint = 0;
}

abbrev pub new_op_rawint : ℕ → Operand
new_op_rawint rawint = record empty_op { variant = OpVariant.rawinteger; rawint = rawint }

abbrev pub new_op_val : ℕ → Operand
new_op_val val = record empty_op { variant = OpVariant.value_op; value = some val }

abbrev pub new_op_type : IrType → Operand
new_op_type rawtype = record empty_op { variant = OpVariant.type_op; rawtype = rawtype }

abbrev pub new_op_text : Bytes → Operand
new_op_text name = record empty_op { variant = OpVariant.text_op; text = name }

abbrev pub new_op_separator : Operand
new_op_separator = record empty_op { variant = OpVariant.separator }

-- `values_same`, on the objects of two different addresses. Where the kinds leave only the
-- comparison of the whole objects, the answer is no: every value has an `edges_out` array of its
-- own, so the two pointers to these arrays differ.
abbrev pub contents_same : (ℕ → Bytes) → Value → Value → ValueVariant → ValueVariant → Bool
contents_same data_at a b ValueVariant.const ValueVariant.const =
    if not (types_same a.type_of b.type_of)
    then false
    else if type_is_agg a.type_of
    then mem_same a.type_of.aggdata.size (data_at a.constant) (data_at b.constant)
    else a.constant == b.constant
contents_same data_at a b ValueVariant.arg ValueVariant.arg = str_same a.arg b.arg
contents_same data_at a b v w = false

unfoldable pub values_same : Heap → ℕ → ℕ → Bool
values_same h a b =
    let x = h.values a in
    let y = h.values b in if a == b then true else contents_same h.data_at x y x.variant y.variant

-- `values_same` of two pointers that may be null. An operand of the value kind has a value wherever the
-- compiler makes one; the C code would read through a null pointer that is compared with another.
abbrev pub maybe_same : Heap → Option ℕ → Option ℕ → Bool
maybe_same h (some a) (some b) = values_same h a b
maybe_same h none none = true
maybe_same h _ _ = false

abbrev pub kinds_same : Heap → Operand → Operand → OpVariant → OpVariant → Bool
kinds_same h a b OpVariant.separator OpVariant.separator = true
kinds_same h a b OpVariant.type_op OpVariant.type_op = types_same a.rawtype b.rawtype
kinds_same h a b OpVariant.text_op OpVariant.text_op = str_same a.text b.text
kinds_same h a b OpVariant.value_op OpVariant.value_op = maybe_same h a.value b.value
kinds_same h a b OpVariant.rawinteger OpVariant.rawinteger = a.rawint == b.rawint
kinds_same h a b v w = false

unfoldable pub operands_same : Heap → Operand → Operand → Bool
operands_same h a b = kinds_same h a b a.variant b.variant

-- `statement_is_terminator`, on the name.
unfoldable pub statement_is_terminator : Statement → Bool
statement_is_terminator a =
    str_same a.statement_name (codes "goto")
    || str_same a.statement_name (codes "if")
    || str_same a.statement_name (codes "exit")
    || str_same a.statement_name (codes "return")

abbrev pub is_null : Option ℕ → Bool
is_null none = true
is_null (some a) = false

unfoldable pub statement_has_side_effects : Statement → Bool
statement_has_side_effects a =
    if is_null a.output
    then true
    else if statement_is_terminator a
    then true
    else str_same a.statement_name (codes "call_eval")

-- The loop over the operands of two statements of the same number of operands.
unfoldable pub args_same : Heap → List Operand → List Operand → Bool
args_same h [] bs = true
args_same h (a ∷ as') [] = false
args_same h (a ∷ as') (b ∷ bs) =
    let rest = args_same h as' bs in if not (operands_same h a b) then false else rest

-- The types of the outputs differ, where both statements have one.
abbrev pub outputs_differ : Heap → Option ℕ → Option ℕ → Bool
outputs_differ h (some x) (some y) = not (types_same (h.values x).type_of (h.values y).type_of)
outputs_differ h (some x) none = true
outputs_differ h none (some y) = true
outputs_differ h none none = false

unfoldable pub statements_same : Heap → ℕ → ℕ → Bool
statements_same h p q =
    let a = h.statements p in
    let b = h.statements q in
    if p == q
    then true
    else if outputs_differ h a.output b.output
    then false
    else if not (length a.args == length b.args)
    then false
    else if not (str_same a.statement_name b.statement_name)
    then false
    else if statement_has_side_effects a || statement_has_side_effects b
    then false
    else args_same h a.args b.args
