-- ===== src/Func/Coherent.antt =====
-- src/compiler_common.h: what `verify_coherency` decides.
use bbae.Common.{
  ℕ, ◌≡◌, refl, ap, ◌↔◌, Bool, true, false, not, List, [], ◌∷◌, ◌++◌, ok, assert, All, sym, ◌∙◌,
  Bool-cases, inl, inr, true_not_false,
}
use bbae.Types.{IrType}
use bbae.Ir.{Heap}
use bbae.Ir.Output.{is_one_of}
use bbae.Func.{Function}
use bbae.Func.Verify.{
  jump_names, verify_last, verify_statements, verify_blocks, verify_coherency, IsCoherent, then_ok,
  assert-true, last-Returns, Returns-last, Leaves, jump_names-Leaves, Leaves-jump_names,
}

not-true : (b : Bool) → not b ≡ true → b ≡ false
not-true true e = cc
not-true false e = refl

statements-IsCoherent :
    (h : Heap) (t : IrType) (ss : List ℕ) → verify_statements h t ss ≡ ok tt → IsCoherent h t ss
unfolding verify_statements
statements-IsCoherent h t [] e = cc
statements-IsCoherent h t (s ∷ []) e =
    let (leaves, returns) = last-Returns h t (h.statements s) e in
    record { body = []; last = s; whole = refl; stays = tt; leaves = leaves; returns = returns }
statements-IsCoherent h t (s ∷ s' ∷ ss) e =
    let here = is_one_of (h.statements s).statement_name jump_names in
    let (first, rest) = then_ok (assert (not here)) (verify_statements h t (s' ∷ ss)) e in
    let c = statements-IsCoherent h t (s' ∷ ss) rest in
    record {
      body = s ∷ c.body;
      last = c.last;
      whole = ap (λ (l : List ℕ). s ∷ l) c.whole;
      stays = (
        λ l.
            let jumps = Leaves-jump_names (h.statements s).statement_name l in
            true_not_false (sym jumps ∙ not-true here (assert-true (not here) first)),
        c.stays,
      );
      leaves = c.leaves;
      returns = c.returns;
    }

Stays-not_jump :
    (h : Heap) (s : ℕ)
    → ¬ Leaves (h.statements s).statement_name
    → is_one_of (h.statements s).statement_name jump_names ≡ false
Stays-not_jump h s stays =
    elim (Bool-cases (is_one_of (h.statements s).statement_name jump_names)) [
      | inl jumps ↦ absurd (stays (jump_names-Leaves (h.statements s).statement_name jumps))
      | inr off ↦ off
    ]

parts-statements :
    (h : Heap) (t : IrType) (body : List ℕ) (last : ℕ)
    → All (λ (s : ℕ). ¬ Leaves (h.statements s).statement_name) body
    → verify_last h t (h.statements last) ≡ ok tt
    → verify_statements h t (body ++ last ∷ []) ≡ ok tt
unfolding verify_statements
parts-statements h t [] last stays e = e
parts-statements h t (s ∷ []) last stays e = rw (Stays-not_jump h s stays.0, e) refl
parts-statements h t (s ∷ s' ∷ body) last stays e =
    rw (Stays-not_jump h s stays.0, parts-statements h t (s' ∷ body) last stays.1 e) refl

IsCoherent-statements :
    (h : Heap) (t : IrType) (ss : List ℕ) → IsCoherent h t ss → verify_statements h t ss ≡ ok tt
IsCoherent-statements h t ss c = rw c.whole (
    parts-statements h t c.body c.last c.stays
      (Returns-last h t (h.statements c.last) c.leaves c.returns))

-- All blocks of all functions are coherent.
abbrev pub AreCoherent : Heap → List Function → Type 0
AreCoherent h functions =
    All
      (λ (f : Function).
        All (λ (b : ℕ). IsCoherent h f.return_type (h.blocks b).statements) f.blocks)
      functions

blocks_iff :
    (h : Heap) (t : IrType) (blocks : List ℕ)
    → (verify_blocks h t blocks ≡ ok tt)
      ↔ All (λ (b : ℕ). IsCoherent h t (h.blocks b).statements) blocks
unfolding verify_blocks
blocks_iff h t [] = (λ e. tt, λ a. refl)
blocks_iff h t (b ∷ blocks) = (
  λ e.
      let (here, rest) =
        then_ok (verify_statements h t (h.blocks b).statements) (verify_blocks h t blocks) e in
      (statements-IsCoherent h t (h.blocks b).statements here, (blocks_iff h t blocks).0 rest),
  λ a.
      rw (IsCoherent-statements h t (h.blocks b).statements a.0, (blocks_iff h t blocks).1 a.1)
        refl,
)

-- verify_coherency lets a program pass exactly if the last statement of every block is an `if`, `goto`
-- or `return` and no other statement of the block is one, where a return has nothing to return or one
-- value of the function's type, as the function asks; in all other cases it stops.
pub verify_coherency_iff :
    (h : Heap) (functions : List Function)
    → (verify_coherency h functions ≡ ok tt) ↔ AreCoherent h functions
unfolding verify_coherency
verify_coherency_iff h [] = (λ e. tt, λ a. refl)
verify_coherency_iff h (f ∷ functions) = (
  λ e.
      let (here, rest) =
        then_ok (verify_blocks h f.return_type f.blocks) (verify_coherency h functions) e in
      ((blocks_iff h f.return_type f.blocks).0 here, (verify_coherency_iff h functions).0 rest),
  λ a.
      rw ((blocks_iff h f.return_type f.blocks).1 a.0, (verify_coherency_iff h functions).1 a.1)
        refl,
)
