-- ===== src/Optimize/Pipeline.antt =====
-- src/bbae_construction.h and src/bbae_optimization.h: the sharing of common subexpressions in a
-- program that was just connected.
use bbae.Common.{ℕ, ◌≡◌, ◌<◌, sym, ap, subst, ◌∙◌, List, ok, ◌>>=◌, length, All, All-map}
use bbae.Ir.{Heap, Statement, Block, statement_has_side_effects}
use bbae.Ir.Links.{IsLinked}
use bbae.Func.{Function, block_statements_connect}
use bbae.Func.Program.{IsUnlinked, AreConnectable, in_functions, connected}
use bbae.Optimize.{optimization_local_cse}
use bbae.Optimize.Cse.{effects, same-effects}
use bbae.Optimize.Share.{IsReady, statements_of}
use bbae.Optimize.Program.{optimization_local_cse-Preserved}

-- A block with statements, each of which stands in the program once.
abbrev pub IsFilled : Heap → List Function → ℕ → Type 0
IsFilled h functions b =
    (0 < length (statements_of h b))
    × All (λ (t : ℕ). in_functions h t functions ≡ 1) (statements_of h b)

abbrev pub AreFilled : Heap → List Function → Type 0
AreFilled h functions = All (λ (f : Function). All (IsFilled h functions) f.blocks) functions

filled-IsReady :
    (h h₁ : Heap) (functions : List Function)
    → h₁.blocks ≡ h.blocks
    → ((t : ℕ) → in_functions h t functions ≡ 1 → IsLinked h₁ t)
    → (b : ℕ) → IsFilled h functions b
    → IsReady h₁ b
filled-IsReady h h₁ functions same links b (long, once) =
    let list : statements_of h₁ b ≡ statements_of h b =
      ap (λ (g : ℕ → Block). (g b).statements) same in
    (
      subst (λ (l : List ℕ). 0 < length l) (sym list) long,
      subst (All (IsLinked h₁)) (sym list)
          (All-map {P = λ (t : ℕ). in_functions h t functions ≡ 1} links (statements_of h b) once),
    )

kept_effects :
    (h h₁ h₂ : Heap) (b : ℕ)
    → h₁.statements ≡ h.statements
    → h₁.blocks ≡ h.blocks
    → effects h₁ (statements_of h₂ b) ≡ effects h₁ (statements_of h₁ b)
    → effects h (statements_of h₂ b) ≡ effects h (statements_of h b)
kept_effects h h₁ h₂ b same same_blocks e =
    sym (same-effects h h₁ (statements_of h₂ b) effect)
    ∙ e
    ∙ same-effects h h₁ (statements_of h₁ b) effect
    ∙ ap (λ (g : ℕ → Block). effects h (g b).statements) same_blocks
  where
    effect :
        (t : ℕ)
        → statement_has_side_effects (h₁.statements t) ≡ statement_has_side_effects (h.statements t)
    effect t = ap (λ (g : ℕ → Statement). statement_has_side_effects (g t)) same

-- In a program whose values have no users yet, whose operands can be connected and whose blocks are
-- not empty and hold every statement once, connecting the statements and then sharing the common
-- subexpressions fails no assertion and ends: every block keeps its statements with side effects in
-- their order, and a statement that stood in the program has its users up to date.
pub connect_and_share-effects :
    (h : Heap) (functions : List Function) (t b : ℕ)
    → IsUnlinked h
    → AreConnectable h functions
    → AreFilled h functions
    → in_functions h t functions ≡ 1
    → (h' : Heap) × ((block_statements_connect h functions >>= λ c.
          optimization_local_cse c functions)
        ≡ ok h')
      × (effects h (statements_of h' b) ≡ effects h (statements_of h b))
      × IsLinked h' t
connect_and_share-effects h functions t b empty c full once =
    let (h₁, run, same, same_blocks, links) = connected h functions empty c in
    let ready = filled-IsReady h h₁ functions same_blocks links in
    let (h₂, run', kept) = optimization_local_cse-Preserved h₁ functions (
      All-map (λ (f : Function). All-map {P = IsFilled h functions} ready f.blocks) functions
        full) in
    (
      h₂,
      rw run run',
      kept_effects h h₁ h₂ b same same_blocks (kept.effects_kept b),
      kept.linked t (links t once),
    )
