-- ===== src/Regalloc/Imm.antt =====
-- src/x86/regalloc_x86.h: the operands that an instruction takes as constants.
use bbae.Common.{
  ℕ, Bool, true, false, List, [], ◌∷◌, Option, none, some, Run, ok, fault, assertion, ◌>>=◌,
  if◌then◌else◌, codes, str_same, get_elem?, Bytes, set,
}
use bbae.Types.{type_is_float}
use bbae.Ir.{Heap, Statement}
use bbae.Ir.Output.{is_one_of}
use bbae.Regalloc.Rules.{output_of, operand_value}

-- `immediates_allowed`, of eight operands.
abbrev pub ImmOpsAllowed : Type 0
ImmOpsAllowed = List Bool

abbrev pub all_allowed : ImmOpsAllowed
all_allowed = true ∷ true ∷ true ∷ true ∷ true ∷ true ∷ true ∷ true ∷ []

abbrev pub not_first : ImmOpsAllowed
not_first = set all_allowed 0 false

abbrev pub not_two : ImmOpsAllowed
not_two = set not_first 1 false

abbrev pub sums : List Bytes
sums = codes "add" ∷ codes "sub" ∷ []

abbrev pub no_constants : List Bytes
no_constants =
    codes "fadd"
    ∷ codes "mul"
    ∷ codes "imul"
    ∷ codes "div"
    ∷ codes "idiv"
    ∷ codes "rem"
    ∷ codes "irem"
    ∷ codes "fsub"
    ∷ codes "fmul"
    ∷ codes "fxor"
    ∷ codes "fdiv"
    ∷ []

abbrev pub returned : Heap → Option ℕ → Run ImmOpsAllowed
returned h none = fault assertion
returned h (some v) = ok (if type_is_float (h.values v).type_of then not_first else all_allowed)

unfoldable pub imm_op_rule_determiner : Heap → Statement → Run ImmOpsAllowed
unfolding is_one_of
imm_op_rule_determiner h statement =
    let name = statement.statement_name in
    let cast =
      output_of h statement.output >>= λ t. ok (if type_is_float t then not_two else not_first) in
    let return_op = operand_value (get_elem? statement.args 0) >>= λ o. returned h o in
    if is_one_of name sums
    then ok not_first
    else if is_one_of name no_constants
    then ok not_two
    else if str_same name (codes "bitcast")
    then cast
    else if str_same name (codes "return")
    then return_op
    else ok all_allowed
