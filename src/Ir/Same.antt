-- ===== src/Ir/Same.antt =====
-- src/compiler_common.h: the comparison of values, operands and statements.
use bbae.Common.{
  ℕ, ◌≡◌, ◌≢◌, refl, sym, ◌∙◌, true, false, List, [], ◌∷◌, Option, none, some, ◌==◌, length, arith,
  Bool-cases, inl, inr, str_same_symm, Bytes,
}
use bbae.Types.{IrType, AggData, types_same, aggdata_same, type_is_agg}
use bbae.Types.Same.{is_variant_symm, mem_same_symm, is_variant→eq}
use bbae.Ir.{
  Heap, Value, ValueVariant, Operand, OpVariant, values_same, operands_same, contents_same,
  kinds_same, maybe_same, args_same, outputs_differ, statements_same, statement_has_side_effects,
}

==_symm : (a b : ℕ) → (a == b) ≡ (b == a)
==_symm a b = ground arith

aggdata_same_symm : (a b : AggData) → aggdata_same a b ≡ aggdata_same b a
unfolding aggdata_same
aggdata_same_symm a b = ground (arith, mem_same_symm a.size a.per_byte_likeness b.per_byte_likeness)

types_same_symm : (a b : IrType) → types_same a b ≡ types_same b a
unfolding types_same
types_same_symm a b = ground (
  arith,
  is_variant_symm a.variant b.variant,
  aggdata_same_symm a.aggdata b.aggdata,
  is_variant→eq a.variant b.variant,
)

same_variant : (a b : IrType) → types_same a b ≡ true → type_is_agg a ≡ type_is_agg b
unfolding types_same type_is_agg
same_variant a b h =
    let same : a.variant ≡ b.variant = ground (arith, is_variant→eq a.variant b.variant) in rw same

same_size :
    (a b : IrType) → types_same a b ≡ true → type_is_agg a ≡ true → a.aggdata.size ≡ b.aggdata.size
unfolding types_same type_is_agg aggdata_same
same_size a b h g = ground arith

const_same_symm :
    (data_at : ℕ → Bytes) (a b : Value)
    → contents_same data_at a b ValueVariant.const ValueVariant.const
      ≡ contents_same data_at b a ValueVariant.const ValueVariant.const
const_same_symm data_at a b = elim (Bool-cases (types_same a.type_of b.type_of)) [
  | inr differ ↦ rw (differ, sym (types_same_symm a.type_of b.type_of) ∙ differ)
  | inl same ↦ elim (Bool-cases (type_is_agg a.type_of)) [
    | inr plain ↦
        rw
          (
            same,
            sym (types_same_symm a.type_of b.type_of) ∙ same,
            plain,
            sym (same_variant a.type_of b.type_of same) ∙ plain,
          )
          (==_symm a.constant b.constant)
    | inl agg_type ↦
        rw
          (
            same,
            sym (types_same_symm a.type_of b.type_of) ∙ same,
            agg_type,
            sym (same_variant a.type_of b.type_of same) ∙ agg_type,
            same_size a.type_of b.type_of same agg_type,
          )
          (mem_same_symm b.type_of.aggdata.size (data_at a.constant) (data_at b.constant))
  ]
]

contents_same_symm :
    (data_at : ℕ → Bytes) (a b : Value) (v w : ValueVariant)
    → contents_same data_at a b v w ≡ contents_same data_at b a w v
contents_same_symm data_at a b ValueVariant.const ValueVariant.const = const_same_symm data_at a b
contents_same_symm data_at a b ValueVariant.arg ValueVariant.arg = str_same_symm a.arg b.arg
contents_same_symm data_at a b v w =
    ground (arith, const_same_symm data_at a b, str_same_symm a.arg b.arg)

values_same_symm : (h : Heap) (a b : ℕ) → values_same h a b ≡ values_same h b a
unfolding values_same
values_same_symm h a b = rw (
  ==_symm a b,
  contents_same_symm h.data_at (h.values a) (h.values b) (h.values a).variant (h.values b).variant,
)

maybe_same_symm : (h : Heap) (a b : Option ℕ) → maybe_same h a b ≡ maybe_same h b a
maybe_same_symm h (some a) (some b) = values_same_symm h a b
maybe_same_symm h none none = refl
maybe_same_symm h none (some b) = refl
maybe_same_symm h (some a) none = refl

kinds_same_symm :
    (h : Heap) (a b : Operand) (v w : OpVariant) → kinds_same h a b v w ≡ kinds_same h b a w v
kinds_same_symm h a b OpVariant.separator OpVariant.separator = refl
kinds_same_symm h a b OpVariant.type_op OpVariant.type_op = types_same_symm a.rawtype b.rawtype
kinds_same_symm h a b OpVariant.text_op OpVariant.text_op = str_same_symm a.text b.text
kinds_same_symm h a b OpVariant.value_op OpVariant.value_op = maybe_same_symm h a.value b.value
kinds_same_symm h a b OpVariant.rawinteger OpVariant.rawinteger = ==_symm a.rawint b.rawint
kinds_same_symm h a b v w = ground (
  arith,
  types_same_symm a.rawtype b.rawtype,
  str_same_symm a.text b.text,
  maybe_same_symm h a.value b.value,
)

operands_same_symm : (h : Heap) (a b : Operand) → operands_same h a b ≡ operands_same h b a
unfolding operands_same
operands_same_symm h a b = kinds_same_symm h a b a.variant b.variant

args_same_symm :
    (h : Heap) (as' bs : List Operand)
    → length as' ≡ length bs
    → args_same h as' bs ≡ args_same h bs as'
unfolding args_same
args_same_symm h [] [] e = refl
args_same_symm h [] (b ∷ bs) e = absurd (omega arith)
args_same_symm h (a ∷ as') [] e = absurd (omega arith)
args_same_symm h (a ∷ as') (b ∷ bs) e =
    rw (operands_same_symm h a b, args_same_symm h as' bs (omega arith))

outputs_differ_symm : (h : Heap) (a b : Option ℕ) → outputs_differ h a b ≡ outputs_differ h b a
outputs_differ_symm h (some x) (some y) =
    rw (types_same_symm (h.values x).type_of (h.values y).type_of)
outputs_differ_symm h (some x) none = refl
outputs_differ_symm h none (some y) = refl
outputs_differ_symm h none none = refl

-- Whether two statements may stand for one another does not depend on their order.
pub statements_same_symm : (h : Heap) (p q : ℕ) → statements_same h p q ≡ statements_same h q p
unfolding statements_same
statements_same_symm h p q =
    let a = h.statements p in
    let b = h.statements q in
    ground (
      arith,
      outputs_differ_symm h a.output b.output,
      str_same_symm a.statement_name b.statement_name,
      args_same_symm h a.args b.args,
    )

-- Two different statements that are taken for the same both have no side effects.
pub statements_same-effects :
    (h : Heap) (p q : ℕ)
    → statements_same h p q ≡ true
    → p ≢ q
    → (statement_has_side_effects (h.statements p) ≡ false)
      × (statement_has_side_effects (h.statements q) ≡ false)
unfolding statements_same
statements_same-effects h p q same ne = ground arith
