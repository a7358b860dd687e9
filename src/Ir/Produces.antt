-- ===== src/Ir/Produces.antt =====
-- src/compiler_common.h: what `add_statement_output` gives a statement.
use bbae.Common.{
  ℕ, ◌≡◌, ◌≢◌, refl, Bool, true, false, ◌||◌, List, [], some, ok, if◌then◌else◌, Bytes, codes,
  str_same, get_elem?, arith, Bool-cases, inl, inr, str_same→eq,
}
use bbae.Types.{IrType, TypeVariant, basic_type}
use bbae.Ir.{Heap, ValueVariant, Operand, OpVariant}
use bbae.Ir.Output.{
  is_one_of, operand_typed, type_typed, comparisons, lookups, output_type, give_output, has_name,
  add_statement_output,
}

-- What a statement's output is: an SSA value of the type at a new address, which knows its statement
-- and has no users, while the other values are kept.
pub record Produces (h : Heap) (s : ℕ) (type_of : IrType) (h' : Heap) : Type 0 where
  pub output : (h'.statements s).output ≡ some h.next
  pub args : (h'.statements s).args ≡ (h.statements s).args
  pub variant : (h'.values h.next).variant ≡ ValueVariant.ssa
  pub typed : (h'.values h.next).type_of ≡ type_of
  pub ssa : (h'.values h.next).ssa ≡ some s
  pub unused : (h'.values h.next).edges_out ≡ []
  pub others : (v : ℕ) → v ≢ h.next → h'.values v ≡ h.values v

give_output-Produces :
    (h : Heap) (s : ℕ) (type_of : IrType)
    → Produces h s type_of (give_output h s (type_of, (h.statements s).args))
give_output-Produces h s type_of = record {
  output = ground arith;
  args = ground arith;
  variant = ground arith;
  typed = ground arith;
  ssa = ground arith;
  unused = ground arith;
  others = λ v ne. ground arith;
}

-- The names before the two conversions.
abbrev pub is_listed : Bytes → Bool
is_listed name =
    is_one_of name operand_typed
    || is_one_of name type_typed
    || is_one_of name comparisons
    || is_one_of name lookups

listed_parts :
    (a b c d : Bool)
    → (a || b || c || d) ≡ false
    → (a ≡ false) × (b ≡ false) × (c ≡ false) × (d ≡ false)
listed_parts false false false false h = (refl, refl, refl, refl)
listed_parts true b c d h = ground arith
listed_parts false true c d h = ground arith
listed_parts false false true d h = ground arith
listed_parts false false false true h = ground arith

-- The two branches behind the lookups, which every other name takes.
abbrev pub float_type : Bytes → IrType
float_type name =
    basic_type (if str_same name (codes "f64_to_f32") then TypeVariant.f64 else TypeVariant.f32)

not_second : (name : Bytes) → name ≡ codes "f64_to_f32" → str_same name (codes "f32_to_f64") ≡ false
unfolding str_same
not_second name e = rw e

output_type-float :
    (h : Heap) (name : Bytes) (args : List Operand)
    → is_listed name ≡ false
    → output_type h name args ≡ ok (float_type name, args)
unfolding output_type
output_type-float h name args other =
    let (a, b, c, d) =
      listed_parts (is_one_of name operand_typed) (is_one_of name type_typed)
        (is_one_of name comparisons) (is_one_of name lookups) other in
    elim (Bool-cases (str_same name (codes "f64_to_f32"))) [
      | inr other_name ↦ rw (a, b, c, d, other_name)
      | inl is_f64 ↦
          let is_name : name ≡ codes "f64_to_f32" = str_same→eq name (codes "f64_to_f32") is_f64 in
          rw (a, b, c, d, is_f64, not_second name is_name)
    ]

pub output_given :
    (h : Heap) (s : ℕ) (t : IrType)
    → has_name (h.statements s).output_name ≡ true
    → output_type h (h.statements s).statement_name (h.statements s).args
      ≡ ok (t, (h.statements s).args)
    → add_statement_output h s ≡ ok (give_output h s (t, (h.statements s).args))
unfolding add_statement_output
output_given h s t named e = rw (named, e)

-- A statement with an output name that is in none of the four lists of operations gets an output
-- and keeps its operands, whatever its name is: an f64 for `f64_to_f32` and an f32 for all others,
-- `f32_to_f64` and the calls among them.
pub add_statement_output-float :
    (h : Heap) (s : ℕ)
    → has_name (h.statements s).output_name ≡ true
    → is_listed (h.statements s).statement_name ≡ false
    → (h' : Heap) × (add_statement_output h s ≡ ok h')
      × Produces h s (float_type (h.statements s).statement_name) h'
add_statement_output-float h s named other =
    let t = float_type (h.statements s).statement_name in
    (
      give_output h s (t, (h.statements s).args),
      output_given h s t named
          (output_type-float h (h.statements s).statement_name (h.statements s).args other),
      give_output-Produces h s t,
    )

pub output_type-operand :
    (h : Heap) (name : Bytes) (args : List Operand) (v : ℕ) (op : Operand)
    → is_one_of name operand_typed ≡ true
    → get_elem? args 0 ≡ some op
    → op.variant ≡ OpVariant.value_op
    → op.value ≡ some v
    → output_type h name args ≡ ok ((h.values v).type_of, args)
unfolding output_type
output_type-operand h name args v op listed first kind is_v = rw (listed, first, kind, is_v)

-- An operation that takes its type from its operand, with an output name and a value as its first
-- operand, gets an output of that value's type and keeps its operands.
pub add_statement_output-operand :
    (h : Heap) (s v : ℕ) (op : Operand)
    → has_name (h.statements s).output_name ≡ true
    → is_one_of (h.statements s).statement_name operand_typed ≡ true
    → get_elem? (h.statements s).args 0 ≡ some op
    → op.variant ≡ OpVariant.value_op
    → op.value ≡ some v
    → (h' : Heap) × (add_statement_output h s ≡ ok h') × Produces h s (h.values v).type_of h'
unfolding output_type
add_statement_output-operand h s v op named listed first kind is_v =
    let t = (h.values v).type_of in
    (
      give_output h s (t, (h.statements s).args),
      output_given h s t named (
          output_type-operand h (h.statements s).statement_name (h.statements s).args v op listed
            first kind is_v),
      give_output-Produces h s t,
    )
