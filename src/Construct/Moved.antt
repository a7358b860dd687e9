-- ===== src/Construct/Moved.antt =====
-- src/bbae_construction.h: after the loops of `legalize_last_statement_operands` no operand is left
-- that the instruction cannot take.
use bbae.Common.{
  ℕ, ◌+◌, ◌<◌, ◌≡◌, refl, ap, ◌∙◌, ◌⊎◌, true, false, List, [], ◌∷◌, none, some, Run, ok, ◌>>=◌,
  ◌==◌, if◌then◌else◌, get_elem?, set, codes, arith, str_same,
}
use bbae.Types.{IrType}
use bbae.Ir.{Heap, ValueVariant, Operand, OpVariant, Statement, empty_op}
use bbae.Ir.Output.{
  add_statement_output, give_output, output_type, is_one_of, operand_typed, has_name,
}
use bbae.Ir.Produces.{output_given, output_type-operand}
use bbae.Statics.{make_temp_name}
use bbae.Construct.Legal.{put_mov, swap_in, move_operand}

-- An operand that has a value is a value operand.
abbrev pub IsPlain : Operand → Type 0
IsPlain op = (op.value ≡ none) ⊎ (op.variant ≡ OpVariant.value_op)

abbrev pub moved_op : ℕ → Operand
moved_op v = record empty_op { variant = OpVariant.value_op; value = some v }

abbrev pub moved : Heap → ℕ → ℕ → ℕ → ℕ → Operand → IrType → Heap
moved h temp_ctr block statement i op t =
    swap_in (give_output (put_mov h temp_ctr block op) h.next (t, op ∷ [])) block statement i h.next

itself : (n : ℕ) → (n == n) ≡ true
itself n = ground arith

mov_at :
    (h : Heap) (temp_ctr block : ℕ) (op : Operand)
    → (put_mov h temp_ctr block op).statements h.next ≡ record {
      output_name = some (make_temp_name temp_ctr).0;
      output = none;
      statement_name = codes "mov";
      block = some block;
      args = op ∷ [];
    }
mov_at h temp_ctr block op = rw (itself h.next) refl

is_mov : is_one_of (codes "mov") operand_typed ≡ true
unfolding is_one_of str_same
is_mov = refl

mov_output :
    (h : Heap) (temp_ctr block v : ℕ) (op : Operand)
    → op.variant ≡ OpVariant.value_op
    → op.value ≡ some v
    → add_statement_output (put_mov h temp_ctr block op) h.next
      ≡ ok (give_output (put_mov h temp_ctr block op) h.next ((h.values v).type_of, op ∷ []))
mov_output h temp_ctr block v op kind is_v =
    let g = put_mov h temp_ctr block op in
    let here = mov_at h temp_ctr block op in
    let named = ap (λ (a : Statement). has_name a.output_name) here in
    let args = ap (λ (a : Statement). a.args) here in
    let name = ap (λ (a : Statement). a.statement_name) here in
    let typed : output_type g (g.statements h.next).statement_name (g.statements h.next).args
        ≡ ok ((h.values v).type_of, (g.statements h.next).args) =
      output_type-operand g (g.statements h.next).statement_name (g.statements h.next).args v op
        (ap (λ n. is_one_of n operand_typed) name ∙ is_mov)
        (ap (λ (l : List Operand). get_elem? l 0) args) kind is_v in
    output_given g h.next (h.values v).type_of named typed
    ∙ ap (λ (l : List Operand). ok (give_output g h.next ((h.values v).type_of, l))) args

pub move_operand-ok :
    (h : Heap) (temp_ctr block statement i v : ℕ) (op : Operand)
    → op.variant ≡ OpVariant.value_op
    → op.value ≡ some v
    → move_operand h temp_ctr block statement i op
      ≡ ok (moved h temp_ctr block statement i op (h.values v).type_of, (make_temp_name temp_ctr).1)
unfolding move_operand
move_operand-ok h temp_ctr block statement i v op kind is_v =
    ap
      (λ (m : Run Heap).
        m >>= λ h'. ok (swap_in h' block statement i h.next, (make_temp_name temp_ctr).1))
      (mov_output h temp_ctr block v op kind is_v)

pub moved-args :
    (h : Heap) (temp_ctr block statement i : ℕ) (op : Operand) (t : IrType)
    → statement < h.next
    → ((moved h temp_ctr block statement i op t).statements statement).args
      ≡ set (h.statements statement).args i (moved_op (h.next + 1))
moved-args h temp_ctr block statement i op t old =
    let other : (statement == h.next) ≡ false = ground arith in
    rw (itself statement, itself h.next, other) refl

pub moved-kinds :
    (h : Heap) (temp_ctr block statement i : ℕ) (op : Operand) (t : IrType) (v : ℕ)
    → ((moved h temp_ctr block statement i op t).values v).variant
      ≡ (if v == h.next + 1 then ValueVariant.ssa else (h.values v).variant)
moved-kinds h temp_ctr block statement i op t v = ground arith
