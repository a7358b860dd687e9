-- ===== src/Ir/Operands.antt =====
-- src/compiler_common.h: the inner loop of `block_replace_statement_val_args`.
use bbae.Common.{
  ℕ, zero, suc, ◌+◌, ◌≤◌, ◌<◌, ◌≡◌, refl, ◌∙◌, List, [], ◌∷◌, some, if◌then◌else◌, ◌==◌, length,
  get_elem?, set, arith, map, Bool-cases, inl, inr, ok, ◌>>=◌, length-set, subst,
}
use bbae.Ir.{Heap, Operand}
use bbae.Ir.Edit.{uses_value, replace_operand, replace_operands}
use bbae.Ir.Links.{IsLinked}
use bbae.Ir.Replace.{
  substitute, replaced, replace_operand-ok, replaced-IsLinked, statement_replaced, blocks_pushed,
  variant_replaced,
}

-- The operands from the index `n` on, substituted.
abbrev pub substitute_from : ℕ → ℕ → ℕ → List Operand → List Operand
substitute_from old new_val n [] = []
substitute_from old new_val zero (a ∷ args) =
    substitute old new_val a ∷ substitute_from old new_val zero args
substitute_from old new_val (suc n) (a ∷ args) = a ∷ substitute_from old new_val n args

pub substitute_from_zero :
    (old new_val : ℕ) (args : List Operand)
    → substitute_from old new_val 0 args ≡ map (substitute old new_val) args
substitute_from_zero old new_val [] = refl
substitute_from_zero old new_val (a ∷ args) = rw (substitute_from_zero old new_val args)

substitute_from_end :
    (old new_val n : ℕ) (args : List Operand)
    → length args ≤ n
    → substitute_from old new_val n args ≡ args
substitute_from_end old new_val n [] h = refl
substitute_from_end old new_val zero (a ∷ args) h = absurd (omega arith)
substitute_from_end old new_val (suc n) (a ∷ args) h =
    rw (substitute_from_end old new_val n args (omega arith))

substitute_from-set :
    (old new_val n : ℕ) (args : List Operand) (op : Operand)
    → get_elem? args n ≡ some op
    → substitute_from old new_val (suc n) (set args n (substitute old new_val op))
      ≡ substitute_from old new_val n args
substitute_from-set old new_val n [] op e = cc
substitute_from-set old new_val zero (a ∷ args) op e = let here : a ≡ op = ground arith in rw here
substitute_from-set old new_val (suc n) (a ∷ args) op e =
    rw (substitute_from-set old new_val n args op e)

substitute_from-set_next :
    (old new_val n : ℕ) (args : List Operand) (op : Operand)
    → get_elem? args n ≡ some op
    → substitute_from old new_val (n + 1) (set args n (substitute old new_val op))
      ≡ substitute_from old new_val n args
substitute_from-set_next old new_val n args op e =
    let next : n + 1 ≡ suc n = omega arith in rw next (substitute_from-set old new_val n args op e)

set_same :
    (n : ℕ) (args : List Operand) (op : Operand) → get_elem? args n ≡ some op → set args n op ≡ args
set_same n [] op e = refl
set_same zero (a ∷ args) op e = let here : a ≡ op = ground arith in rw here
set_same (suc n) (a ∷ args) op e = rw (set_same n args op e)

below_length :
    (n : ℕ) (args : List Operand) → n < length args → (op : Operand) × (get_elem? args n ≡ some op)
below_length n [] h = absurd (omega arith)
below_length zero (a ∷ args) h = (a, refl)
below_length (suc n) (a ∷ args) h = below_length n args (omega arith)

-- The heap `h'` is `h` with other operands of the statement `s`.
pub record WithArgs (s : ℕ) (args : List Operand) (h h' : Heap) : Type 0 where
  pub statements :
      (t : ℕ)
      → h'.statements t
        ≡ (if t == s then record (h.statements s) { args = args } else h.statements t)
  pub blocks : h'.blocks ≡ h.blocks
  pub kinds : (v : ℕ) → (h'.values v).variant ≡ (h.values v).variant
  pub linked : (t : ℕ) → IsLinked h t → IsLinked h' t

WithArgs-here :
    {s : ℕ} {args : List Operand} {h h' : Heap}
    → WithArgs s args h h'
    → (h'.statements s).args ≡ args
WithArgs-here {s} {args} {h} {h'} w = rw (w.statements s) (ground arith)

WithArgs-trans :
    {s : ℕ} {args args' : List Operand} {h h' h″ : Heap}
    → WithArgs s args h h'
    → WithArgs s args' h' h″
    → WithArgs s args' h h″
WithArgs-trans {s} {args} {args'} {h} {h'} {h″} w w' = record {
  statements = λ t. rw (w'.statements t, w.statements t, w.statements s) (ground arith);
  blocks = w'.blocks ∙ w.blocks;
  kinds = λ v. w'.kinds v ∙ w.kinds v;
  linked = λ t l. w'.linked t (w.linked t l);
}

module _ (s old new_val : ℕ) where
  -- One round of the inner loop.
  one_operand :
      (h : Heap) (n : ℕ) (op : Operand)
      → get_elem? (h.statements s).args n ≡ some op
      → IsLinked h s
      → (h' : Heap) × (replace_operand h s n op old new_val ≡ ok h')
        × WithArgs s (set (h.statements s).args n (substitute old new_val op)) h h'
  unfolding replace_operand
  one_operand h n op e here = elim (Bool-cases (uses_value old op)) [
    | inl u ↦ (
      replaced h s n op old new_val,
      replace_operand-ok h s n op old new_val e u,
      record {
        statements = λ t. rw u (statement_replaced h s n op old new_val t);
        blocks = blocks_pushed _ s new_val;
        kinds = λ v. variant_replaced h s n op old new_val v;
        linked = replaced-IsLinked h s n op old new_val e u here;
      },
    )
    | inr u ↦ (
      h,
      rw u,
      record {
        statements = λ t. rw (u, set_same n (h.statements s).args op e) (ground arith);
        blocks = refl;
        kinds = λ v. refl;
        linked = λ t l. l;
      },
    )
  ]

  round :
      (left : ℕ) (h : Heap) (n : ℕ) (op : Operand)
      → get_elem? (h.statements s).args n ≡ some op
      → replace_operands (suc left) h s n old new_val ≡ (
          replace_operand h s n op old new_val >>= λ h'.
          replace_operands left h' s (n + 1) old new_val)
  unfolding replace_operands
  round left h n op e = rw e

  -- The inner loop, with as many rounds as there are operands from `n` on.
  pub all_operands :
      (left : ℕ) (h : Heap) (n : ℕ)
      → n + left ≡ length (h.statements s).args
      → IsLinked h s
      → (h' : Heap) × (replace_operands left h s n old new_val ≡ ok h')
        × WithArgs s (substitute_from old new_val n (h.statements s).args) h h'
  unfolding replace_operands
  all_operands zero h n e here = (
    h,
    refl,
    record {
      statements = λ t.
          rw (substitute_from_end old new_val n (h.statements s).args (omega arith)) (ground arith);
      blocks = refl;
      kinds = λ v. refl;
      linked = λ t l. l;
    },
  )
  all_operands (suc left) h n e here =
      let (op, at) = below_length n (h.statements s).args (omega arith) in
      let (h₁, run, w) = one_operand h n op at here in
      let size : n + 1 + left ≡ length (h₁.statements s).args =
        rw (WithArgs-here w, length-set (h.statements s).args n (substitute old new_val op))
          (omega arith) in
      let (h₂, run', w') = all_operands left h₁ (n + 1) size (w.linked s here) in
      let same : substitute_from old new_val (n + 1) (h₁.statements s).args
          ≡ substitute_from old new_val n (h.statements s).args =
        rw (WithArgs-here w) (substitute_from-set_next old new_val n (h.statements s).args op at) in
      (
        h₂,
        rounds left h n op at run run',
        subst (λ a. WithArgs s a h h₂) same (WithArgs-trans w w'),
      )
    where
      rounds :
          (left : ℕ) (h : Heap) (n : ℕ) (op : Operand) {h₁ h₂ : Heap}
          → get_elem? (h.statements s).args n ≡ some op
          → replace_operand h s n op old new_val ≡ ok h₁
          → replace_operands left h₁ s (n + 1) old new_val ≡ ok h₂
          → replace_operands (suc left) h s n old new_val ≡ ok h₂
      rounds left h n op at run run' = round left h n op at ∙ rw run run'
