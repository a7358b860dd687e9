-- ===== src/Ir/Substitute.antt =====
-- src/compiler_common.h: `block_replace_statement_val_args` as a substitution.
use bbae.Common.{
  ℕ, ◌≡◌, ◌≢◌, refl, ap, ◌∙◌, Bool, true, false, ◌||◌, List, [], ◌∷◌, Option, none, some,
  if◌then◌else◌, ◌==◌, length, arith, map, All, All-map, ok, Bytes,
}
use bbae.Ir.{Heap, Operand, OpVariant}
use bbae.Ir.Edit.{
  uses_value, replace_operands, replace_in_statements, block_replace_statement_val_args,
  keeps_edges,
}
use bbae.Types.{IrType}
use bbae.Ir.Links.{edge_count, use_count, IsLinked}
use bbae.Ir.Replace.{substitute}
use bbae.Ir.Operands.{substitute_from, substitute_from_zero, WithArgs, all_operands}

-- A statement stands in a list.
abbrev pub mem : ℕ → List ℕ → Bool
mem t [] = false
mem t (s ∷ statements) = t == s || mem t statements

-- The heap `h'` is `h` with `new_val` for `old` in the operands of the listed statements; the users
-- of all values are kept up to date.
pub record Substituted (statements : List ℕ) (old new_val : ℕ) (h h' : Heap) : Type 0 where
  pub replaced :
      (t : ℕ)
      → h'.statements t ≡ (
          if mem t statements
          then record (h.statements t) { args = map (substitute old new_val) (h.statements t).args }
          else h.statements t)
  pub blocks : h'.blocks ≡ h.blocks
  pub kinds : (v : ℕ) → (h'.values v).variant ≡ (h.values v).variant
  pub linked : (t : ℕ) → IsLinked h t → IsLinked h' t

substitute_twice :
    (old new_val : ℕ) (args : List Operand)
    → map (substitute old new_val) (map (substitute old new_val) args)
      ≡ map (substitute old new_val) args
substitute_twice old new_val [] = refl
substitute_twice old new_val (a ∷ args) = rw (substitute_twice old new_val args, once a)
  where
    once :
        (a : Operand) → substitute old new_val (substitute old new_val a) ≡ substitute old new_val a
    once a = by_fields a.variant a.value a.rawtype a.text a.rawint
      where
        by_fields :
            (k : OpVariant) (o : Option ℕ) (r : IrType) (t : Bytes) (i : ℕ)
            → let a : Operand = record {
              variant = k;
              rawtype = r;
              value = o;
              text = t;
              rawint = i;
            } in
              substitute old new_val (substitute old new_val a) ≡ substitute old new_val a
        by_fields OpVariant.value_op (some v) r t i = ground arith
        by_fields OpVariant.value_op none r t i = refl
        by_fields OpVariant.invalid o r t i = refl
        by_fields OpVariant.type_op o r t i = refl
        by_fields OpVariant.text_op o r t i = refl
        by_fields OpVariant.rawinteger o r t i = refl
        by_fields OpVariant.separator o r t i = refl

module _ (old new_val : ℕ) where
  -- The outer loop.
  all_statements :
      (statements : List ℕ) (h : Heap)
      → All (IsLinked h) statements
      → (h' : Heap) × (replace_in_statements h statements old new_val ≡ ok h')
        × Substituted statements old new_val h h'
  unfolding replace_in_statements
  all_statements [] h linked = (
    h,
    refl,
    record { replaced = λ t. refl; blocks = refl; kinds = λ v. refl; linked = λ t l. l },
  )
  all_statements (s ∷ statements) h linked =
      let (h₁, run, w) =
        all_operands s old new_val (length (h.statements s).args) h 0 (omega arith) linked.0 in
      let (h₂, run', d) = all_statements statements h₁ (All-map w.linked statements linked.1) in
      (h₂, both s statements h run run', joined s statements h h₁ h₂ w d)
    where
      both :
          (s : ℕ) (statements : List ℕ) (h : Heap) {h₁ h₂ : Heap}
          → replace_operands (length (h.statements s).args) h s 0 old new_val ≡ ok h₁
          → replace_in_statements h₁ statements old new_val ≡ ok h₂
          → replace_in_statements h (s ∷ statements) old new_val ≡ ok h₂
      both s statements h run run' = rw run run'

      joined :
          (s : ℕ) (statements : List ℕ) (h h₁ h₂ : Heap)
          → WithArgs s (substitute_from old new_val 0 (h.statements s).args) h h₁
          → Substituted statements old new_val h₁ h₂
          → Substituted (s ∷ statements) old new_val h h₂
      joined s statements h h₁ h₂ w d = record {
        replaced = λ t.
            rw
              (d.replaced t, w.statements t, substitute_from_zero old new_val (h.statements s).args)
              (ground (arith, substitute_twice old new_val (h.statements s).args));
        blocks = d.blocks ∙ w.blocks;
        kinds = λ v. d.kinds v ∙ w.kinds v;
        linked = λ t l. d.linked t (w.linked t l);
      }

  -- Where all values' users are up to date for the statements of a block, putting `new_val` in the
  -- place of `old` in the block fails no assertion: it rewrites exactly the operands of the block's
  -- statements that are `old`, changes no other statement and no block, and the users stay up to
  -- date for every statement for which they were.
  pub block_replace_statement_val_args-Substituted :
      (h : Heap) (block : ℕ)
      → All (IsLinked h) (h.blocks block).statements
      → (h' : Heap) × (block_replace_statement_val_args h block old new_val ≡ ok h')
        × Substituted (h.blocks block).statements old new_val h h'
  unfolding block_replace_statement_val_args
  block_replace_statement_val_args-Substituted h block linked =
      all_statements (h.blocks block).statements h linked

mem-substituted :
    (old new_val : ℕ) (args : List Operand)
    → old ≢ new_val
    → use_count old (map (substitute old new_val) args) ≡ 0
mem-substituted old new_val [] ne = refl
mem-substituted old new_val (a ∷ args) ne = rw (mem-substituted old new_val args ne, gone a)
  where
    gone : (a : Operand) → uses_value old (substitute old new_val a) ≡ false
    gone a = by_fields a.variant a.value a.rawtype a.text a.rawint
      where
        by_fields :
            (k : OpVariant) (o : Option ℕ) (r : IrType) (t : Bytes) (i : ℕ)
            → let a : Operand = record {
              variant = k;
              rawtype = r;
              value = o;
              text = t;
              rawint = i;
            } in
              uses_value old (substitute old new_val a) ≡ false
        by_fields OpVariant.value_op (some v) r t i = ground arith
        by_fields OpVariant.value_op none r t i = refl
        by_fields OpVariant.invalid o r t i = refl
        by_fields OpVariant.type_op o r t i = refl
        by_fields OpVariant.text_op o r t i = refl
        by_fields OpVariant.rawinteger o r t i = refl
        by_fields OpVariant.separator o r t i = refl

-- After another value was put in the place of an argument, an SSA value or a stack slot `old` in a
-- block, a statement of the block is not left among the users of `old`, where the users of all
-- values were up to date for the block's statements.
pub block_replace_statement_val_args-unused :
    (h : Heap) (block old new_val s : ℕ)
    → All (IsLinked h) (h.blocks block).statements
    → IsLinked h s
    → old ≢ new_val
    → keeps_edges (h.values old).variant ≡ true
    → mem s (h.blocks block).statements ≡ true
    → (h' : Heap) × (block_replace_statement_val_args h block old new_val ≡ ok h')
      × (edge_count s (h'.values old).edges_out ≡ 0)
block_replace_statement_val_args-unused h block old new_val s linked here ne keeps inside =
    let (h', run, d) = block_replace_statement_val_args-Substituted old new_val h block linked in
    (
      h',
      run,
      d.linked s here old (ap keeps_edges (d.kinds old) ∙ keeps)
          ∙ rw (d.replaced s, inside) (mem-substituted old new_val (h.statements s).args ne),
    )
