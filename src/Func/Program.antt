-- ===== src/Func/Program.antt =====
-- src/bbae_construction.h: `block_statements_connect` on a whole program.
use bbae.Common.{
  ℕ, ◌+◌, ◌*◌, ◌≡◌, refl, ap, sym, ◌∙◌, List, [], ◌∷◌, arith, ok, All, All-map, subst,
}
use bbae.Ir.{Heap, Block}
use bbae.Ir.Edit.{keeps_edges}
use bbae.Ir.Links.{edge_count, use_count, IsLinked}
use bbae.Func.{Function, connect_statements, connect_in_blocks, block_statements_connect}
use bbae.Func.Connect.{
  connect_statements-Adds, moved, Adds-trans, HasConnectable, no_edges, in_blocks, same_uses, Adds,
  edges_of_list,
}

abbrev pub in_functions : Heap → ℕ → List Function → ℕ
in_functions h t [] = 0
in_functions h t (f ∷ functions) = in_blocks h t f.blocks + in_functions h t functions

abbrev pub BlocksConnectable : Heap → List ℕ → Type 0
BlocksConnectable h blocks = All (λ b. All (HasConnectable h) (h.blocks b).statements) blocks

abbrev pub AreConnectable : Heap → List Function → Type 0
AreConnectable h functions = All (λ f. BlocksConnectable h f.blocks) functions

blocks_moved :
    (h h' : Heap) (blocks : List ℕ)
    → h'.statements ≡ h.statements
    → h'.blocks ≡ h.blocks
    → BlocksConnectable h blocks
    → BlocksConnectable h' blocks
blocks_moved h h' blocks same same_blocks c =
    All-map
      (λ b d.
        subst (λ f. All (HasConnectable h') (f b).statements) (sym same_blocks)
          (moved h h' (h.blocks b).statements same d))
      blocks c

same_in_blocks :
    (h h' : Heap) (t : ℕ) (blocks : List ℕ)
    → h'.blocks ≡ h.blocks
    → in_blocks h' t blocks ≡ in_blocks h t blocks
same_in_blocks h h' t [] same = refl
same_in_blocks h h' t (b ∷ blocks) same = omega (
  arith,
  same_in_blocks h h' t blocks same,
  ap (λ (f : ℕ → Block). edge_count t (f b).statements) same,
)

connect_in_blocks-Adds :
    (blocks : List ℕ) (h : Heap)
    → BlocksConnectable h blocks
    → (h' : Heap) × (connect_in_blocks h blocks ≡ ok h')
      × Adds (λ t v. in_blocks h t blocks * use_count v (h.statements t).args) h h'
unfolding connect_in_blocks
connect_in_blocks-Adds [] h c = (h, refl, no_edges h _ (λ t v. omega arith))
connect_in_blocks-Adds (b ∷ blocks) h c =
    let (h₁, run, first) = connect_statements-Adds (h.blocks b).statements h c.0 in
    let (h₂, run', rest) =
      connect_in_blocks-Adds blocks h₁
        (blocks_moved h h₁ blocks first.statements first.blocks c.1) in
    (
      h₂,
      step h b blocks run run',
      Adds-trans first rest (λ t v. sum h h₁ t v first.statements first.blocks),
    )
  where
    step :
        (h : Heap) (b : ℕ) (blocks : List ℕ) {h₁ h₂ : Heap}
        → connect_statements h (h.blocks b).statements ≡ ok h₁
        → connect_in_blocks h₁ blocks ≡ ok h₂
        → connect_in_blocks h (b ∷ blocks) ≡ ok h₂
    step h b blocks run run' = rw run run'

    sum :
        (h h₁ : Heap) (t v : ℕ)
        → h₁.statements ≡ h.statements
        → h₁.blocks ≡ h.blocks
        → in_blocks h t (b ∷ blocks) * use_count v (h.statements t).args
          ≡ edges_of_list h (h.blocks b).statements t v
            + in_blocks h₁ t blocks * use_count v (h₁.statements t).args
    sum h h₁ t v same same_blocks =
        rw (same_in_blocks h h₁ t blocks same_blocks, same_uses h h₁ t v same) (omega arith)

functions_moved :
    (h h' : Heap) (functions : List Function)
    → h'.statements ≡ h.statements
    → h'.blocks ≡ h.blocks
    → AreConnectable h functions
    → AreConnectable h' functions
functions_moved h h' functions same same_blocks c =
    All-map (λ f d. blocks_moved h h' f.blocks same same_blocks d) functions c

same_in_functions :
    (h h' : Heap) (t : ℕ) (functions : List Function)
    → h'.blocks ≡ h.blocks
    → in_functions h' t functions ≡ in_functions h t functions
same_in_functions h h' t [] same = refl
same_in_functions h h' t (f ∷ functions) same =
    omega (arith, same_in_blocks h h' t f.blocks same, same_in_functions h h' t functions same)

block_statements_connect-Adds :
    (functions : List Function) (h : Heap)
    → AreConnectable h functions
    → (h' : Heap) × (block_statements_connect h functions ≡ ok h')
      × Adds (λ t v. in_functions h t functions * use_count v (h.statements t).args) h h'
unfolding block_statements_connect
block_statements_connect-Adds [] h c = (h, refl, no_edges h _ (λ t v. omega arith))
block_statements_connect-Adds (f ∷ functions) h c =
    let (h₁, run, first) = connect_in_blocks-Adds f.blocks h c.0 in
    let (h₂, run', rest) =
      block_statements_connect-Adds functions h₁
        (functions_moved h h₁ functions first.statements first.blocks c.1) in
    (
      h₂,
      step h f functions run run',
      Adds-trans first rest (λ t v. sum h h₁ t v first.statements first.blocks),
    )
  where
    step :
        (h : Heap) (f : Function) (functions : List Function) {h₁ h₂ : Heap}
        → connect_in_blocks h f.blocks ≡ ok h₁
        → block_statements_connect h₁ functions ≡ ok h₂
        → block_statements_connect h (f ∷ functions) ≡ ok h₂
    step h f functions run run' = rw run run'

    sum :
        (h h₁ : Heap) (t v : ℕ)
        → h₁.statements ≡ h.statements
        → h₁.blocks ≡ h.blocks
        → in_functions h t (f ∷ functions) * use_count v (h.statements t).args
          ≡ in_blocks h t f.blocks * use_count v (h.statements t).args
            + in_functions h₁ t functions * use_count v (h₁.statements t).args
    sum h h₁ t v same same_blocks =
        rw (same_in_functions h h₁ t functions same_blocks, same_uses h h₁ t v same) (omega arith)

-- No value has users yet.
abbrev pub IsUnlinked : Heap → Type 0
IsUnlinked h = (t v : ℕ) → edge_count t (h.values v).edges_out ≡ 0

-- All statements at once.
pub connected :
    (h : Heap) (functions : List Function)
    → IsUnlinked h
    → AreConnectable h functions
    → (h' : Heap) × (block_statements_connect h functions ≡ ok h')
      × (h'.statements ≡ h.statements)
      × (h'.blocks ≡ h.blocks)
      × ((t : ℕ) → in_functions h t functions ≡ 1 → IsLinked h' t)
connected h functions empty c =
    let (h', run, adds) = block_statements_connect-Adds functions h c in
    (
      h',
      run,
      adds.statements,
      adds.blocks,
      λ t once v keeps.
          adds.counts t v (sym (ap keeps_edges (adds.kinds v)) ∙ keeps)
          ∙ rw (once, empty t v, same_uses h h' t v adds.statements) (omega arith),
    )

-- Where no value has users yet and all operands in the program can be connected, connecting the
-- statements of a program fails no assertion and changes neither statements nor blocks; then the
-- users of all values are up to date for a statement that stands in the program once.
pub block_statements_connect-IsLinked :
    (h : Heap) (functions : List Function) (t : ℕ)
    → IsUnlinked h
    → AreConnectable h functions
    → in_functions h t functions ≡ 1
    → (h' : Heap) × (block_statements_connect h functions ≡ ok h')
      × (h'.statements ≡ h.statements)
      × (h'.blocks ≡ h.blocks)
      × IsLinked h' t
block_statements_connect-IsLinked h functions t empty c once =
    let (h', run, statements, blocks, links) = connected h functions empty c in
    (h', run, statements, blocks, links t once)
