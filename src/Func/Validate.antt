-- ===== src/Func/Validate.antt =====
-- src/compiler_common.h: the check `validate_links` on a program.
use bbae.Common.{
  ℕ, Bool, true, false, ◌||◌, List, [], ◌∷◌, Option, none, some, Run, ok, fault, assert, assertion,
  ◌>>◌, ◌==◌, if◌then◌else◌, length, Bytes, codes, str_same,
}
use bbae.Ir.{Heap, Value, ValueVariant, Operand, OpVariant}
use bbae.Ir.Edit.{is_value_op}
use bbae.Func.{Function, find_block}

abbrev pub stands_in : Option ℕ → ℕ → Bool
stands_in none b = false
stands_in (some a) b = a == b

abbrev pub is_label : OpVariant → Bool
is_label OpVariant.text_op = true
is_label _ = false

-- A loop of assertions over a list.
unfoldable pub check_all {ℓ} : {A : Type ℓ} → (A → Run (Unit {0})) → List A → Run (Unit {0})
check_all check [] = ok tt
check_all check (x ∷ xs) = check x >> check_all check xs

-- `assert(next)`, and the comparison of the numbers of arguments.
abbrev pub takes : Heap → ℕ → Option ℕ → Run (Unit {0})
takes h count none = fault assertion
takes h count (some next) = assert (length (h.blocks next).args == count)

unfoldable pub validate_goto : Heap → List ℕ → List Operand → Run (Unit {0})
unfolding check_all
validate_goto h blocks [] = fault assertion
validate_goto h blocks (label ∷ ops) =
    assert (is_label label.variant)
    >> check_all (λ op. assert (is_value_op op.variant)) ops
    >> takes h (length ops) (find_block h blocks label.text)

-- The search for the output among the operands of a user, and for the user in the block.
abbrev pub names_value : ℕ → List Operand → Bool
names_value out [] = false
names_value out (op ∷ args) = stands_in op.value out || names_value out args

abbrev pub stands_among : ℕ → List ℕ → Bool
stands_among other [] = false
stands_among other (s ∷ statements) = s == other || stands_among other statements

abbrev pub validate_user : Heap → ℕ → ℕ → ℕ → Run (Unit {0})
validate_user h block out other =
    assert (stands_in (h.statements other).block block)
    >> assert (names_value out (h.statements other).args)
    >> assert (stands_among other (h.blocks block).statements)

abbrev pub validate_output : Heap → ℕ → Option ℕ → Run (Unit {0})
validate_output h block none = ok tt
validate_output h block (some out) = check_all (validate_user h block out) (h.values out).edges_out

abbrev pub is_arg_named : Heap → Bytes → List ℕ → Bool
is_arg_named h name [] = false
is_arg_named h name (v ∷ args) = str_same (h.values v).arg name || is_arg_named h name args

-- Whether the pointer `arg` of a value is set: it is where the value is made as an argument, and
-- nowhere else.
abbrev pub has_arg : ValueVariant → Bool
has_arg ValueVariant.arg = true
has_arg _ = false

abbrev pub validate_arg : Heap → List ℕ → Value → Run (Unit {0})
validate_arg h block_args v =
    if has_arg v.variant then assert (is_arg_named h v.arg block_args) else ok tt

abbrev pub validate_value : Heap → List ℕ → ℕ → Value → Option ℕ → Run (Unit {0})
validate_value h block_args block v (some s) = assert (stands_in (h.statements s).block block)
validate_value h block_args block v none = validate_arg h block_args v

abbrev pub validate_operand : Heap → List ℕ → ℕ → Option ℕ → Run (Unit {0})
validate_operand h block_args block none = ok tt
validate_operand h block_args block (some v) =
    validate_value h block_args block (h.values v) (h.values v).ssa

unfoldable pub validate_statement : Heap → List ℕ → List ℕ → ℕ → ℕ → Run (Unit {0})
unfolding validate_goto check_all
validate_statement h blocks block_args block s =
    assert (stands_in (h.statements s).block block)
    >> (if str_same (h.statements s).statement_name (codes "goto")
        then validate_goto h blocks (h.statements s).args
        else ok tt)
    >> validate_output h block (h.statements s).output
    >> check_all (λ op. validate_operand h block_args block op.value) (h.statements s).args

-- In the first block the names of arguments are those of the function.
unfoldable pub validate_blocks : Heap → Function → Bool → List ℕ → Run (Unit {0})
unfolding validate_statement check_all
validate_blocks h f first [] = ok tt
validate_blocks h f first (b ∷ blocks) =
    check_all (validate_statement h f.blocks (if first then f.args else (h.blocks b).args) b)
      (h.blocks b).statements
    >> validate_blocks h f false blocks

unfoldable pub validate_links : Heap → List Function → Run (Unit {0})
unfolding validate_blocks
validate_links h [] = ok tt
validate_links h (f ∷ functions) = validate_blocks h f true f.blocks >> validate_links h functions
