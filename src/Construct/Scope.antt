-- ===== src/Construct/Scope.antt =====
-- src/bbae_construction.h: what a name stands for, and when it is new.
use bbae.Common.{
  ℕ, ◌≡◌, refl, sym, ap, ◌∙◌, inl, inr, Bool, true, false, ◌||◌, List, [], ◌∷◌, ◌++◌, Option, none,
  some, Run, ok, fault, assertion, ◌>>=◌, ◌==◌, if◌then◌else◌, Bytes, str_same_refl, arith,
  Bool-cases,
}
use bbae.Ir.{Heap}
use bbae.Func.{Function}
use bbae.Slots.{StackSlot}
use bbae.Optimize.{set_statements}
use bbae.Construct.{
  named_arg, named_slot, named_statement, has_output_name, is_some, check_for_redefinition,
  lookup_value, output_or_fail, output_of_named,
}

-- The statement is put behind the others of the block.
abbrev pub push_statement : Heap → ℕ → ℕ → Heap
push_statement h b s = set_statements h b ((h.blocks b).statements ++ s ∷ [])

module _ (slots : ℕ → StackSlot) (h : Heap) (func : Function) (b : ℕ) (name : Bytes) where
  -- The name is new in a block: no argument, slot or statement has it.
  pub record IsNew : Type 0 where
    pub arg : named_arg h (h.blocks b).args name ≡ ok none
    pub slot : named_slot slots h func.stack_slots name ≡ ok none
    pub statement : named_statement h (h.blocks b).statements name ≡ none

  no_slot :
      (o : Option ℕ)
      → (named_slot slots h func.stack_slots name >>= λ slot. ok (is_some slot || is_some o))
        ≡ ok false
      → (named_slot slots h func.stack_slots name ≡ ok none) × (o ≡ none)
  no_slot o e = by_run (named_slot slots h func.stack_slots name) o e
    where
      by_run :
          (m : Run (Option ℕ)) (o : Option ℕ)
          → (m >>= λ slot. ok (is_some slot || is_some o)) ≡ ok false
          → (m ≡ ok none) × (o ≡ none)
      by_run (ok none) none e = (refl, refl)
      by_run (ok none) (some v) e = cc
      by_run (ok (some v)) o e = cc
      by_run (fault f) o e = cc

  pub check_for_redefinition-IsNew :
      check_for_redefinition slots h func (some b) name ≡ ok false → IsNew
  unfolding check_for_redefinition
  check_for_redefinition-IsNew e =
      let (arg, rest) = by_arg (named_arg h (h.blocks b).args name) _ e in
      let (slot, statement) = no_slot (named_statement h (h.blocks b).statements name) rest in
      record { arg = arg; slot = slot; statement = statement }
    where
      by_arg :
          (m : Run (Option ℕ)) (next : Run Bool)
          → (m >>= λ arg. if is_some arg then ok true else next) ≡ ok false
          → (m ≡ ok none) × (next ≡ ok false)
      by_arg (ok none) next e = (refl, e)
      by_arg (ok (some v)) next e = cc
      by_arg (fault f) next e = cc

named_statement-append :
    (h : Heap) (ss : List ℕ) (s : ℕ) (name : Bytes)
    → named_statement h ss name ≡ none
    → has_output_name (h.statements s).output_name name ≡ true
    → named_statement h (ss ++ s ∷ []) name ≡ some s
unfolding named_statement
named_statement-append h [] s name none_of has = rw has refl
named_statement-append h (x ∷ ss) s name none_of has =
    elim (Bool-cases (has_output_name (h.statements x).output_name name)) [
      | inl found ↦ absurd (some_not_none (rw found at none_of))
      | inr other ↦ rw other (named_statement-append h ss s name (rw other at none_of) has)
    ]
  where
    some_not_none : some x ≡ none → ⊥
    some_not_none e = cc

-- The searches look only at values and statements, which a change of a block's list keeps.
module _ (h : Heap) (b : ℕ) (list : List ℕ) (name : Bytes) where
  same_arg : (args : List ℕ) → named_arg (set_statements h b list) args name ≡ named_arg h args name
  unfolding named_arg
  same_arg [] = refl
  same_arg (v ∷ args) = rw (same_arg args) refl

  same_slot :
      (slots : ℕ → StackSlot) (values : List ℕ)
      → named_slot slots (set_statements h b list) values name ≡ named_slot slots h values name
  unfolding named_slot
  same_slot slots [] = refl
  same_slot slots (v ∷ values) = rw (same_slot slots values) refl

  same_statement :
      (ss : List ℕ) → named_statement (set_statements h b list) ss name ≡ named_statement h ss name
  unfolding named_statement
  same_statement [] = refl
  same_statement (s ∷ ss) = rw (same_statement ss) refl

statements-push :
    (h : Heap) (b s : ℕ)
    → ((push_statement h b s).blocks b).statements ≡ (h.blocks b).statements ++ s ∷ []
statements-push h b s = ground arith

args-push : (h : Heap) (b s c : ℕ) → ((push_statement h b s).blocks c).args ≡ (h.blocks c).args
args-push h b s c = ground arith

-- The arguments that `parse_value` looks at.
abbrev pub visible_args : Heap → Function → ℕ → List ℕ
visible_args h func b = if b == func.entry_block then func.args else (h.blocks b).args

module _ (slots : ℕ → StackSlot) (h : Heap) (func : Function) (b : ℕ) (name : Bytes) where
  by_statement :
      (o : Option ℕ)
      → named_arg h (visible_args h func b) name ≡ ok none
      → named_slot slots h func.stack_slots name ≡ ok none
      → named_statement h (h.blocks b).statements name ≡ o
      → lookup_value slots h func b name ≡ output_of_named h o
  unfolding lookup_value
  by_statement o arg slot statement = rw (arg, slot, statement) refl

  new_arg :
      IsNew slots h func b name
      → (b == func.entry_block ≡ true → named_arg h func.args name ≡ ok none)
      → named_arg h (visible_args h func b) name ≡ ok none
  new_arg new entry = elim (Bool-cases (b == func.entry_block)) [
    | inl same ↦ rw same (entry same)
    | inr other ↦ rw other new.arg
  ]

-- A name for which `check_for_redefinition` finds nothing, and in the entry block none of the
-- function's arguments, stands for the output of the statement of that name that is put at the end
-- of the block.
pub lookup_value-push_statement :
    (slots : ℕ → StackSlot) (h : Heap) (func : Function) (b s v : ℕ) (name : Bytes)
    → check_for_redefinition slots h func (some b) name ≡ ok false
    → (b == func.entry_block ≡ true → named_arg h func.args name ≡ ok none)
    → (h.statements s).output_name ≡ some name
    → (h.statements s).output ≡ some v
    → lookup_value slots (push_statement h b s) func b name ≡ ok v
lookup_value-push_statement slots h func b s v name check entry named has =
    let new = check_for_redefinition-IsNew slots h func b name check in
    let ss = (h.blocks b).statements ++ s ∷ [] in
    let is_named : has_output_name (h.statements s).output_name name ≡ true =
      rw named (str_same_refl name) in
    let found : named_statement (push_statement h b s) ((push_statement h b s).blocks b).statements
          name
        ≡ some s =
      rw (statements-push h b s) (
        same_statement h b ss name ss
        ∙ named_statement-append h (h.blocks b).statements s name new.statement is_named) in
    let args : visible_args (push_statement h b s) func b ≡ visible_args h func b =
      ap (λ (l : List ℕ). if b == func.entry_block then func.args else l) (args-push h b s b) in
    by_statement slots (push_statement h b s) func b name (some s)
      (rw args
        (same_arg h b ss name (visible_args h func b) ∙ new_arg slots h func b name new entry))
      (same_slot h b ss name slots func.stack_slots ∙ new.slot) found
    ∙ ap output_or_fail has

-- A name that is new in a block other than the entry block is unknown to `parse_value`.
pub lookup_value-unknown :
    (slots : ℕ → StackSlot) (h : Heap) (func : Function) (b : ℕ) (name : Bytes)
    → check_for_redefinition slots h func (some b) name ≡ ok false
    → b == func.entry_block ≡ false
    → lookup_value slots h func b name ≡ fault assertion
lookup_value-unknown slots h func b name check other =
    let new = check_for_redefinition-IsNew slots h func b name check in
    by_statement slots h func b name none
      (new_arg slots h func b name new (λ same. absurd (true_not_false (sym same ∙ other))))
      new.slot new.statement
  where
    true_not_false : true ≡ false → ⊥
    true_not_false e = cc
