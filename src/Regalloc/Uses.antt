-- ===== src/Regalloc/Uses.antt =====
-- src/x86/regalloc_x86.h: the uses of values that the allocation has come past.
use bbae.Common.{
  ℕ, ◌+◌, ◌-◌, Bool, true, false, List, [], ◌∷◌, Option, none, some, Run, Fault, ok, fault, assert,
  ◌>>=◌, ◌>>◌, if◌then◌else◌, length, ◌==◌, leb, ltb, take, drop, codes, str_same,
}
use bbae.Ir.{Heap, ValueVariant, Operand, Statement, update}
use bbae.Regalloc.{RegUse}

abbrev pub is_const : ValueVariant → Bool
is_const ValueVariant.const = true
is_const _ = false

-- `alloced_use_count` of all values.
abbrev pub UseCounts : Type 0
UseCounts = ℕ → ℕ

-- `if (arg->ssa) assert(arg->ssa->output_name);`
abbrev pub is_named : Heap → Option ℕ → Bool
is_named h none = true
is_named h (some s) = has_name (h.statements s).output_name
  where
    has_name : Option (List ℕ) → Bool
    has_name none = false
    has_name (some name) = true

unfoldable pub increment_use : Heap → UseCounts → Option ℕ → Run UseCounts
increment_use h counts none = ok counts
increment_use h counts (some v) =
    let counted = update counts v (counts v + 1) in
    if is_const (h.values v).variant
    then ok counts
    else (assert (is_named h (h.values v).ssa)
        >> (assert (leb (counted v) (length (h.values v).edges_out)) >> ok counted))

unfoldable pub increment_loop : Heap → UseCounts → List Operand → Run UseCounts
unfolding increment_use
increment_loop h counts [] = ok counts
increment_loop h counts (op ∷ args) =
    increment_use h counts op.value >>= λ counts'. increment_loop h counts' args

unfoldable pub increment_operand_uses_impl : Heap → UseCounts → ℕ → ℕ → ℕ → Run UseCounts
unfolding increment_loop
increment_operand_uses_impl h counts statement start end =
    let args = (h.statements statement).args in
    assert (leb end (length args)) >> increment_loop h counts (take (end - start) (drop start args))

unfoldable pub statement_ops_live_until_after_statement : Statement → Bool
statement_ops_live_until_after_statement statement =
    if str_same statement.statement_name (codes "call_eval") then false else true

unfoldable pub increment_operand_uses_early : Heap → UseCounts → ℕ → Run UseCounts
unfolding increment_operand_uses_impl
increment_operand_uses_early h counts statement =
    let count = length (h.statements statement).args in
    let first = increment_operand_uses_impl h counts statement 0 1 in
    let all = increment_operand_uses_impl h counts statement 0 count in
    if statement_ops_live_until_after_statement (h.statements statement)
    then (if ltb 0 count then first else ok counts)
    else all

unfoldable pub increment_operand_uses_late : Heap → UseCounts → ℕ → Run UseCounts
unfolding increment_operand_uses_impl
increment_operand_uses_late h counts statement =
    let rest =
      increment_operand_uses_impl h counts statement 1 (length (h.statements statement).args) in
    if statement_ops_live_until_after_statement (h.statements statement) then rest else ok counts

-- `expire_unused_regs`, on one entry of the two arrays.
unfoldable pub expire_reg : Heap → UseCounts → RegUse → Run RegUse
expire_reg h counts RegUse.empty = ok RegUse.empty
expire_reg h counts RegUse.reserved = ok RegUse.reserved
expire_reg h counts (RegUse.held v) =
    let users = length (h.values v).edges_out in
    assert (leb (counts v) users) >> ok (if counts v == users then RegUse.empty else RegUse.held v)

-- The loop over the two arrays, which are equally long.
unfoldable pub expire_unused_regs :
    Heap → UseCounts → List RegUse → List RegUse → Run (List RegUse × List RegUse)
unfolding expire_reg
expire_unused_regs h counts [] floats = ok ([], floats)
expire_unused_regs h counts (r ∷ ints) [] = fault Fault.undefined
expire_unused_regs h counts (r ∷ ints) (f ∷ floats) = expire_reg h counts r >>= λ r'.
    expire_reg h counts f >>= λ f'.
    expire_unused_regs h counts ints floats >>= λ rest. ok (r' ∷ rest.0, f' ∷ rest.1)
