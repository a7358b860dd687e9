-- ===== src/Func/Verify.antt =====
-- src/compiler_common.h: `verify_coherency` on a program.
use bbae.Common.{
  ℕ, suc, ==_iff, ◌≡◌, ◌≢◌, refl, true_not_false, Bool, true, false, not, List, [], ◌∷◌, ◌++◌,
  Option, none, some, Run, Fault, ok, fault, assert, assertion, ◌>>◌, ◌==◌, if◌then◌else◌, length,
  All, Bytes, codes, str_same, str_same_iff, arith, Bool-cases, inl, inr, ◌⊎◌,
}
use bbae.Types.{IrType, TypeVariant, types_same, ◌is_variant◌}
use bbae.Types.Same.{is_variant→eq}
use bbae.Ir.{Heap, Operand, Statement}
use bbae.Ir.Output.{is_one_of}
use bbae.Func.{Function}

abbrev pub value_has_type : Heap → IrType → Option ℕ → Run (Unit {0})
value_has_type h t none = fault Fault.undefined
value_has_type h t (some v) = assert (types_same (h.values v).type_of t)

-- `last->args[0].value->type`
abbrev pub has_type : Heap → IrType → List Operand → Run (Unit {0})
has_type h t [] = fault Fault.undefined
has_type h t (op ∷ args) = value_has_type h t op.value

unfoldable pub verify_return : Heap → IrType → List Operand → Run (Unit {0})
unfolding ◌is_variant◌
verify_return h return_type args =
    if return_type.variant is_variant TypeVariant.void
    then assert (length args == 0)
    else assert (length args == 1) >> has_type h return_type args

abbrev pub jump_names : List Bytes
jump_names = codes "if" ∷ codes "goto" ∷ codes "return" ∷ []

unfoldable pub verify_last : Heap → IrType → Statement → Run (Unit {0})
unfolding is_one_of verify_return
verify_last h return_type last =
    assert (is_one_of last.statement_name jump_names)
    >> (if str_same last.statement_name (codes "return")
        then verify_return h return_type last.args
        else ok tt)

-- The statements of a block: an empty block fails the first assertion.
unfoldable pub verify_statements : Heap → IrType → List ℕ → Run (Unit {0})
unfolding is_one_of verify_last
verify_statements h return_type [] = fault assertion
verify_statements h return_type (s ∷ []) = verify_last h return_type (h.statements s)
verify_statements h return_type (s ∷ t ∷ statements) =
    assert (not (is_one_of (h.statements s).statement_name jump_names))
    >> verify_statements h return_type (t ∷ statements)

unfoldable pub verify_blocks : Heap → IrType → List ℕ → Run (Unit {0})
unfolding verify_statements
verify_blocks h return_type [] = ok tt
verify_blocks h return_type (b ∷ blocks) =
    verify_statements h return_type (h.blocks b).statements >> verify_blocks h return_type blocks

unfoldable pub verify_coherency : Heap → List Function → Run (Unit {0})
unfolding verify_blocks
verify_coherency h [] = ok tt
verify_coherency h (f ∷ functions) =
    verify_blocks h f.return_type f.blocks >> verify_coherency h functions

abbrev pub IsOneOf : Heap → IrType → List Operand → Type 0
IsOneOf h t args =
    (op : Operand) × (v : ℕ) × (args ≡ op ∷ [])
    × (op.value ≡ some v)
    × (types_same (h.values v).type_of t ≡ true)

-- What a function may return: nothing, or one value of its type.
abbrev pub Returns : Heap → IrType → List Operand → Type 0
Returns h t args =
    ((t.variant ≡ TypeVariant.void) × (args ≡ []))
    ⊎ ((t.variant ≢ TypeVariant.void) × IsOneOf h t args)

-- The name of a statement that leaves a block for verify_coherency: `if`, `goto` or `return`.
abbrev pub Leaves : Bytes → Type 0
Leaves name = (name ≡ codes "if") ⊎ ((name ≡ codes "goto") ⊎ (name ≡ codes "return"))

first_of :
    (name n : Bytes) (names : List Bytes)
    → is_one_of name (n ∷ names) ≡ true
    → (name ≡ n) ⊎ (is_one_of name names ≡ true)
unfolding is_one_of
first_of name n names e = elim (Bool-cases (str_same name n)) [
  | inl at ↦ inl ((str_same_iff name n).0 at)
  | inr off ↦ inr (rw off at e)
]

one_of_here : (name n : Bytes) (names : List Bytes) → name ≡ n → is_one_of name (n ∷ names) ≡ true
unfolding is_one_of
one_of_here name n names e = rw ((str_same_iff name n).1 e) refl

one_of_later :
    (name n : Bytes) (names : List Bytes)
    → is_one_of name names ≡ true
    → is_one_of name (n ∷ names) ≡ true
unfolding is_one_of
one_of_later name n names e = ground arith

one_of_none : (name : Bytes) → is_one_of name [] ≡ true → ⊥
unfolding is_one_of
one_of_none name e = cc

pub jump_names-Leaves : (name : Bytes) → is_one_of name jump_names ≡ true → Leaves name
jump_names-Leaves name e =
    elim (first_of name (codes "if") (codes "goto" ∷ codes "return" ∷ []) e) [
      | inl at ↦ inl at
      | inr rest ↦ elim (first_of name (codes "goto") (codes "return" ∷ []) rest) [
        | inl at ↦ inr (inl at)
        | inr last ↦ elim (first_of name (codes "return") [] last) [
          | inl at ↦ inr (inr at)
          | inr off ↦ absurd (one_of_none name off)
        ]
      ]
    ]

pub Leaves-jump_names : (name : Bytes) → Leaves name → is_one_of name jump_names ≡ true
Leaves-jump_names name (inl e) =
    one_of_here name (codes "if") (codes "goto" ∷ codes "return" ∷ []) e
Leaves-jump_names name (inr (inl e)) =
    one_of_later name (codes "if") (codes "goto" ∷ codes "return" ∷ [])
      (one_of_here name (codes "goto") (codes "return" ∷ []) e)
Leaves-jump_names name (inr (inr e)) =
    one_of_later name (codes "if") (codes "goto" ∷ codes "return" ∷ []) (
      one_of_later name (codes "goto") (codes "return" ∷ [])
        (one_of_here name (codes "return") [] e))

-- A block is some statements that do not leave it, and one that does; a return fits the function.
pub record IsCoherent (h : Heap) (t : IrType) (statements : List ℕ) : Type 0 where
  pub body : List ℕ
  pub last : ℕ
  pub whole : statements ≡ body ++ last ∷ []
  pub stays : All (λ (s : ℕ). ¬ Leaves (h.statements s).statement_name) body
  pub leaves : Leaves (h.statements last).statement_name
  pub returns :
      (h.statements last).statement_name ≡ codes "return" → Returns h t (h.statements last).args

pub then_ok : (m k : Run (Unit {0})) → (m >> k) ≡ ok tt → (m ≡ ok tt) × (k ≡ ok tt)
then_ok (ok tt) k e = (refl, e)
then_ok (fault f) k e = cc

pub assert-true : (b : Bool) → assert b ≡ ok tt → b ≡ true
assert-true true e = refl
assert-true false e = cc

other_variant : (v : TypeVariant) → v is_variant TypeVariant.void ≡ false → v ≢ TypeVariant.void
unfolding ◌is_variant◌
other_variant v e same = true_not_false (rw same at e)

not_void : (v : TypeVariant) → v ≢ TypeVariant.void → v is_variant TypeVariant.void ≡ false
not_void v ne = elim (Bool-cases (v is_variant TypeVariant.void)) [
  | inl void ↦ absurd (ne (is_variant→eq v TypeVariant.void void))
  | inr other ↦ other
]

return-Returns :
    (h : Heap) (t : IrType) (args : List Operand)
    → verify_return h t args ≡ ok tt
    → Returns h t args
unfolding verify_return
return-Returns h t args e = elim (Bool-cases (t.variant is_variant TypeVariant.void)) [
  | inl void ↦ inl (
    is_variant→eq t.variant TypeVariant.void void,
    no_args args (assert-true (length args == 0) (rw void at e)),
  )
  | inr other ↦
      let (one, typed) = then_ok (assert (length args == 1)) (has_type h t args) (rw other at e) in
      inr (other_variant t.variant other, one_arg args (assert-true (length args == 1) one) typed)
]
  where
    no_args : (args : List Operand) → length args == 0 ≡ true → args ≡ []
    no_args [] e = refl
    no_args (op ∷ args) e = ground arith

    typed_value :
        (o : Option ℕ)
        → value_has_type h t o ≡ ok tt
        → (v : ℕ) × (o ≡ some v) × (types_same (h.values v).type_of t ≡ true)
    typed_value none e = cc
    typed_value (some v) e = (v, refl, assert-true (types_same (h.values v).type_of t) e)

    one_arg :
        (args : List Operand)
        → length args == 1 ≡ true
        → has_type h t args ≡ ok tt
        → IsOneOf h t args
    one_arg [] one typed = cc
    one_arg (op ∷ []) one typed =
        let (v, has, same) = typed_value op.value typed in (op, v, refl, has, same)
    one_arg (op ∷ op' ∷ args) one typed = absurd (many (length args) one)
      where
        many : (n : ℕ) → (suc (suc n) == 1) ≡ true → ⊥
        many n e = absurd (omega (arith, (==_iff (suc (suc n)) 1).0 e))

Returns-return :
    (h : Heap) (t : IrType) (args : List Operand)
    → Returns h t args
    → verify_return h t args ≡ ok tt
unfolding verify_return
Returns-return h t args (inl (void, e)) = rw (void, e) refl
Returns-return h t args (inr (other, (op, v, e, has, same))) =
    rw (not_void t.variant other, e, has, same) refl

pub last-Returns :
    (h : Heap) (t : IrType) (a : Statement)
    → verify_last h t a ≡ ok tt
    → Leaves a.statement_name × (a.statement_name ≡ codes "return" → Returns h t a.args)
unfolding verify_last
last-Returns h t a e =
    let (jump, rest) =
      then_ok (assert (is_one_of a.statement_name jump_names))
        (if str_same a.statement_name (codes "return") then verify_return h t a.args else ok tt)
        e in
    (
      jump_names-Leaves a.statement_name (assert-true (is_one_of a.statement_name jump_names) jump),
      λ r.
          let is_return = (str_same_iff a.statement_name (codes "return")).1 r in
          return-Returns h t a.args (rw is_return at rest),
    )

pub Returns-last :
    (h : Heap) (t : IrType) (a : Statement)
    → Leaves a.statement_name
    → (a.statement_name ≡ codes "return" → Returns h t a.args)
    → verify_last h t a ≡ ok tt
unfolding verify_last
Returns-last h t a jump returns = elim (Bool-cases (str_same a.statement_name (codes "return"))) [
  | inl r ↦
      rw (Leaves-jump_names a.statement_name jump, r)
        (Returns-return h t a.args (returns ((str_same_iff a.statement_name (codes "return")).0 r)))
  | inr other ↦ rw (Leaves-jump_names a.statement_name jump, other) refl
]
