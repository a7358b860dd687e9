-- ===== src/Construct/Constants.antt =====
-- src/bbae_construction.h: the second loop of `legalize_last_statement_operands`, over the first eight
-- operands of the last statement.
use bbae.Common.{
  ℕ, zero, suc, ◌+◌, ◌≤◌, ◌<◌, ◌≡◌, refl, ap, ◌∙◌, false, ◌&&◌, List, [], ◌∷◌, some, Run, ok, ◌>>=◌,
  length, get_elem?, min, arith,
}
use bbae.Ir.{Heap, Operand}
use bbae.Regalloc.Uses.{is_const}
use bbae.Regalloc.Imm.{ImmOpsAllowed, imm_op_rule_determiner}
use bbae.Construct.Legal.{is_kind, is_forbidden, legalize_constants, move_loop}
use bbae.Construct.Legalized.{ArePlain, move_loop-Moves}

some_below : (l : List Operand) (k : ℕ) (op : Operand) → get_elem? l k ≡ some op → k < length l
some_below [] k op e = cc
some_below (x ∷ l) zero op e = omega arith
some_below (x ∷ l) (suc k) op e = omega (arith, some_below l k op e)

min_room : (n : ℕ) → 0 + min 8 n ≤ n
min_room n = ground arith

below_min : (k n : ℕ) → k < 8 → k < n → k < 0 + min 8 n
below_min k n h g = ground arith

-- Where the rules for a statement are found and its operands with values are value operands, the
-- legalization of constants ends without a fault, and then none of the first eight operands that the
-- rules forbid to be constants is one. The number of operands stays.
pub legalize_constants-allowed :
    (h : Heap) (temp_ctr block s : ℕ) (rules : ImmOpsAllowed)
    → imm_op_rule_determiner h (h.statements s) ≡ ok rules
    → s < h.next
    → ArePlain h s
    → (r : Heap × ℕ) × (legalize_constants h temp_ctr block s ≡ ok r)
      × (length (r.0.statements s).args ≡ length (h.statements s).args)
      × ((k : ℕ) (op : Operand)
          → k < 8
          → get_elem? (r.0.statements s).args k ≡ some op
          → is_forbidden rules k && is_kind is_const r.0 op.value ≡ false)
legalize_constants-allowed h temp_ctr block s rules found old plain =
    let n = length (h.statements s).args in
    let (r, run, m) =
      move_loop-Moves (is_forbidden rules) is_const refl block s (min 8 n) 0 temp_ctr h (min_room n)
        old plain in
    (
      r,
      ap
            (λ (x : Run ImmOpsAllowed). x >>= λ rules'.
              move_loop (is_forbidden rules') is_const (min 8 n) h temp_ctr block s 0)
            found
          ∙ run,
      m.count,
      λ k op few e.
          m.clean k op (omega arith)
            (below_min k n few (omega (arith, some_below (r.0.statements s).args k op e, m.count)))
            e,
    )
