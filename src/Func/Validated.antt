-- ===== src/Func/Validated.antt =====
-- src/compiler_common.h: what `validate_links` decides.
use bbae.Common.{
  ℕ, ◌≡◌, refl, ap, ◌∙◌, ◌↔◌, Bool, true, false, List, [], ◌∷◌, Option, none, some, Run, ok, assert,
  ◌>>◌, ◌==◌, ==_iff, if◌then◌else◌, length, All, Bytes, codes, str_same, str_same_iff, arith, sym,
  true_not_false, some_injective,
}
use bbae.Ir.{Heap, Value, ValueVariant, Operand, OpVariant}
use bbae.Ir.Edit.{is_value_op}
use bbae.Func.{Function, find_block}
use bbae.Func.Verify.{then_ok, assert-true}
use bbae.Func.Search.{
  Some, IsFirstNamed, find_block-IsFirstNamed, IsFirstNamed-find_block, names_value_iff,
  stands_among_iff, is_arg_named_iff, is_label_iff, is_value_op_iff, has_arg_iff,
}
use bbae.Func.Validate.{
  stands_in, is_label, check_all, takes, validate_goto, names_value, stands_among, validate_user,
  validate_output, is_arg_named, has_arg, validate_arg, validate_value, validate_operand,
  validate_statement, validate_blocks, validate_links,
}

-- A `goto` with a label and values, as many as the first block of that name has arguments.
abbrev pub GoesTo : Heap → List ℕ → List Operand → Type 0
GoesTo h blocks [] = ⊥
GoesTo h blocks (label ∷ ops) =
    (label.variant ≡ OpVariant.text_op)
    × All (λ (op : Operand). op.variant ≡ OpVariant.value_op) ops
    × ((next : ℕ) × IsFirstNamed h blocks label.text next
        × (length (h.blocks next).args ≡ length ops))

-- A user of the output stands in the block, has the output as the value of an operand, and is one of
-- the block's statements.
abbrev pub IsUser : Heap → ℕ → ℕ → ℕ → Type 0
IsUser h block out other =
    ((h.statements other).block ≡ some block)
    × Some (λ (op : Operand). op.value ≡ some out) (h.statements other).args
    × Some (λ (s : ℕ). s ≡ other) (h.blocks block).statements

abbrev pub AreUsers : Heap → ℕ → Option ℕ → Type 0
AreUsers h block none = Unit
AreUsers h block (some out) = All (IsUser h block out) (h.values out).edges_out

-- An argument has the name of one of the block's.
abbrev pub IsNamed : Heap → List ℕ → Value → Type 0
IsNamed h block_args v =
    v.variant ≡ ValueVariant.arg → Some (λ (a : ℕ). (h.values a).arg ≡ v.arg) block_args

-- A value is the output of a statement of the block, or an argument's name is one of the block's.
abbrev pub IsMade : Heap → List ℕ → ℕ → Value → Option ℕ → Type 0
IsMade h block_args block v (some s) = (h.statements s).block ≡ some block
IsMade h block_args block v none = IsNamed h block_args v

abbrev pub IsHere : Heap → List ℕ → ℕ → Option ℕ → Type 0
IsHere h block_args block none = Unit
IsHere h block_args block (some v) = IsMade h block_args block (h.values v) (h.values v).ssa

pub record IsValid (h : Heap) (blocks block_args : List ℕ) (block s : ℕ) : Type 0 where
  pub stands : (h.statements s).block ≡ some block
  pub jumps : (h.statements s).statement_name ≡ codes "goto" → GoesTo h blocks (h.statements s).args
  pub users : AreUsers h block (h.statements s).output
  pub operands : All (λ (op : Operand). IsHere h block_args block op.value) (h.statements s).args

-- The blocks of a function; the first one has the function's arguments.
abbrev pub AreValid : Heap → Function → Bool → List ℕ → Type 0
AreValid h f first [] = Unit
AreValid h f first (b ∷ blocks) =
    All (IsValid h f.blocks (if first then f.args else (h.blocks b).args) b) (h.blocks b).statements
    × AreValid h f false blocks

abbrev Passes : Run (Unit {0}) → Type 0
Passes m = m ≡ ok tt

then_iff : (m k : Run (Unit {0})) → Passes (m >> k) ↔ (Passes m × Passes k)
then_iff m k = (then_ok m k, λ (a, b). ap (λ r. r >> k) a ∙ b)

both_iff :
    {P Q : Type 0} (m k : Run (Unit {0}))
    → (Passes m ↔ P)
    → (Passes k ↔ Q)
    → Passes (m >> k) ↔ (P × Q)
both_iff m k (mp, pm) (kq, qk) =
    (λ e. let (a, b) = then_ok m k e in (mp a, kq b), λ r. ap (λ x. x >> k) (pm r.0) ∙ qk r.1)

assert_iff : (b : Bool) → Passes (assert b) ↔ (b ≡ true)
assert_iff b = (assert-true b, λ e. ap assert e)

check_all_iff {ℓ} :
    {A : Type ℓ} {P : A → Type 0} (check : A → Run (Unit {0})) (xs : List A)
    → ((x : A) → Passes (check x) ↔ P x)
    → Passes (check_all check xs) ↔ All P xs
unfolding check_all
check_all_iff check [] each = (λ e. tt, λ a. refl)
check_all_iff check (x ∷ xs) each =
    both_iff (check x) (check_all check xs) (each x) (check_all_iff check xs each)

stands_in_iff : (o : Option ℕ) (b : ℕ) → Passes (assert (stands_in o b)) ↔ (o ≡ some b)
stands_in_iff none b = (λ e. cc, λ e. cc)
stands_in_iff (some a) b =
    (λ e. ap some ((==_iff a b).0 (assert-true (a == b) e)), λ e. ground arith)

takes_iff :
    (h : Heap) (count : ℕ) (o : Option ℕ)
    → Passes (takes h count o)
      ↔ ((next : ℕ) × (o ≡ some next) × (length (h.blocks next).args ≡ count))
takes_iff h count none = (λ e. cc, λ (next, e, same). cc)
takes_iff h count (some next) = (
  λ e. (
    next,
    refl,
    (==_iff (length (h.blocks next).args) count).0
        (assert-true (length (h.blocks next).args == count) e),
  ),
  λ (n, e, same). ap assert (
      (==_iff (length (h.blocks next).args) count).1
        (ap (λ x. length (h.blocks x).args) (some_injective e) ∙ same)),
)

target_iff :
    (h : Heap) (count : ℕ) (blocks : List ℕ) (name : Bytes)
    → Passes (takes h count (find_block h blocks name))
      ↔ ((next : ℕ) × IsFirstNamed h blocks name next × (length (h.blocks next).args ≡ count))
target_iff h count blocks name =
    let (forth, back) = takes_iff h count (find_block h blocks name) in
    (
      λ e.
          let (next, found, same) = forth e in
          (next, find_block-IsFirstNamed h blocks name next found, same),
      λ (next, first, same). back (next, IsFirstNamed-find_block h blocks name next first, same),
    )

holds_iff : {P : Type 0} (b : Bool) → ((b ≡ true) ↔ P) → Passes (assert b) ↔ P
holds_iff b (forth, back) = (λ e. forth (assert-true b e), λ p. ap assert (back p))

goto_iff :
    (h : Heap) (blocks : List ℕ) (args : List Operand)
    → Passes (validate_goto h blocks args) ↔ GoesTo h blocks args
unfolding validate_goto
goto_iff h blocks [] = (λ e. cc, λ e. absurd e)
goto_iff h blocks (label ∷ ops) =
    let whole =
      both_iff
        (assert (is_label label.variant)
          >> check_all (λ (op : Operand). assert (is_value_op op.variant)) ops)
        (takes h (length ops) (find_block h blocks label.text))
        (both_iff (assert (is_label label.variant))
          (check_all (λ (op : Operand). assert (is_value_op op.variant)) ops)
          (holds_iff (is_label label.variant) (is_label_iff label.variant))
          (check_all_iff (λ (op : Operand). assert (is_value_op op.variant)) ops
            (λ op. holds_iff (is_value_op op.variant) (is_value_op_iff op.variant))))
        (target_iff h (length ops) blocks label.text) in
    (λ e. let ((a, b), c) = whole.0 e in (a, b, c), λ r. whole.1 ((r.0, r.1), r.2))

branch_iff :
    {P Q : Type 0} (c : Bool) (m : Run (Unit {0}))
    → ((c ≡ true) ↔ Q)
    → (Passes m ↔ P)
    → Passes (if c then m else ok tt) ↔ (Q → P)
branch_iff true m (cq, qc) (mp, pm) = (λ e q. mp e, λ f. pm (f (cq refl)))
branch_iff false m (cq, qc) (mp, pm) = (λ e q. absurd (true_not_false (sym (qc q))), λ f. refl)

IsUser-iff :
    (h : Heap) (block out other : ℕ)
    → Passes (validate_user h block out other) ↔ IsUser h block out other
IsUser-iff h block out other =
    let whole =
      both_iff
        (assert (stands_in (h.statements other).block block)
          >> assert (names_value out (h.statements other).args))
        (assert (stands_among other (h.blocks block).statements))
        (both_iff (assert (stands_in (h.statements other).block block))
          (assert (names_value out (h.statements other).args))
          (stands_in_iff (h.statements other).block block)
          (holds_iff (names_value out (h.statements other).args)
            (names_value_iff out (h.statements other).args)))
        (holds_iff (stands_among other (h.blocks block).statements)
          (stands_among_iff other (h.blocks block).statements)) in
    (λ e. let ((a, b), c) = whole.0 e in (a, b, c), λ r. whole.1 ((r.0, r.1), r.2))

output_iff :
    (h : Heap) (block : ℕ) (output : Option ℕ)
    → Passes (validate_output h block output) ↔ AreUsers h block output
output_iff h block none = (λ e. tt, λ a. refl)
output_iff h block (some out) =
    check_all_iff (validate_user h block out) (h.values out).edges_out (IsUser-iff h block out)

IsNamed-iff :
    (h : Heap) (block_args : List ℕ) (v : Value)
    → Passes (validate_arg h block_args v) ↔ IsNamed h block_args v
IsNamed-iff h block_args v =
    branch_iff (has_arg v.variant) (assert (is_arg_named h v.arg block_args))
      (has_arg_iff v.variant)
      (holds_iff (is_arg_named h v.arg block_args) (is_arg_named_iff h v.arg block_args))

IsMade-iff :
    (h : Heap) (block_args : List ℕ) (block : ℕ) (v : Value) (o : Option ℕ)
    → Passes (validate_value h block_args block v o) ↔ IsMade h block_args block v o
IsMade-iff h block_args block v (some s) = stands_in_iff (h.statements s).block block
IsMade-iff h block_args block v none = IsNamed-iff h block_args v

IsHere-iff :
    (h : Heap) (block_args : List ℕ) (block : ℕ) (o : Option ℕ)
    → Passes (validate_operand h block_args block o) ↔ IsHere h block_args block o
IsHere-iff h block_args block none = (λ e. tt, λ a. refl)
IsHere-iff h block_args block (some v) = IsMade-iff h block_args block (h.values v) (h.values v).ssa

statement_iff :
    (h : Heap) (blocks block_args : List ℕ) (block s : ℕ)
    → Passes (validate_statement h blocks block_args block s) ↔ IsValid h blocks block_args block s
unfolding validate_statement
statement_iff h blocks block_args block s =
    let a = h.statements s in
    let is_goto = str_same a.statement_name (codes "goto") in
    let stands = assert (stands_in a.block block) in
    let jumps = if is_goto then validate_goto h blocks a.args else ok tt in
    let users = validate_output h block a.output in
    let operands =
      check_all (λ (op : Operand). validate_operand h block_args block op.value) a.args in
    let whole =
      both_iff (stands >> jumps >> users) operands
        (both_iff (stands >> jumps) users
          (both_iff stands jumps (stands_in_iff a.block block) (
            branch_iff is_goto (validate_goto h blocks a.args)
              (str_same_iff a.statement_name (codes "goto")) (goto_iff h blocks a.args)))
          (output_iff h block a.output))
        (check_all_iff (λ (op : Operand). validate_operand h block_args block op.value) a.args
          (λ op. IsHere-iff h block_args block op.value)) in
    (
      λ e.
          let (((p, q), r), t) = whole.0 e in
          record { stands = p; jumps = q; users = r; operands = t },
      λ v. whole.1 (((v.stands, v.jumps), v.users), v.operands),
    )

blocks_iff :
    (h : Heap) (f : Function) (first : Bool) (blocks : List ℕ)
    → Passes (validate_blocks h f first blocks) ↔ AreValid h f first blocks
unfolding validate_blocks
blocks_iff h f first [] = (λ e. tt, λ a. refl)
blocks_iff h f first (b ∷ blocks) =
    let block_args = if first then f.args else (h.blocks b).args in
    both_iff (check_all (validate_statement h f.blocks block_args b) (h.blocks b).statements)
      (validate_blocks h f false blocks)
      (check_all_iff (validate_statement h f.blocks block_args b) (h.blocks b).statements
        (statement_iff h f.blocks block_args b))
      (blocks_iff h f false blocks)

-- `validate_links` lets a program pass exactly if every statement stands in the block that lists it,
-- every goto has a label and as many values as the first block of that name has arguments, every user
-- of a statement's output stands in the statement's block, is one of its statements and has the output
-- as the value of an operand, and every
-- operand's value is made in the block, if a statement makes it, or else, if it is an argument, has the
-- name of one of the block's arguments (in the first block: the function's).
pub validate_links_iff :
    (h : Heap) (functions : List Function)
    → (validate_links h functions ≡ ok tt)
      ↔ All (λ (f : Function). AreValid h f true f.blocks) functions
unfolding validate_links
validate_links_iff h [] = (λ e. tt, λ a. refl)
validate_links_iff h (f ∷ functions) =
    both_iff (validate_blocks h f true f.blocks) (validate_links h functions)
      (blocks_iff h f true f.blocks) (validate_links_iff h functions)
