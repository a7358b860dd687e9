-- ===== src/Optimize/Program.antt =====
-- src/bbae_optimization.h: what the passes over a whole program keep.
use bbae.Common.{
  ℕ, ◌<◌, ◌≡◌, ◌≢◌, refl, ap, sym, subst, ◌∙◌, List, [], ◌∷◌, ok, length, arith, All, All-map,
  Bool-cases, inl, inr, ◌==◌, ◌⊎◌,
}
use bbae.Ir.{Heap, Block, statement_has_side_effects}
use bbae.Ir.Links.{IsLinked}
use bbae.Func.{Function}
use bbae.Optimize.{cse_blocks, optimization_local_cse}
use bbae.Optimize.Cse.{Keeps, effects, same-effects}
use bbae.Optimize.Share.{IsReady, statements_of, cse_block-Keeps}

-- What an optimisation keeps: in every block the statements with side effects and their order, the
-- outputs of all statements, and the users of all values for every statement for which they were up
-- to date.
pub record Preserved (h h' : Heap) : Type 0 where
  pub effects_kept : (b : ℕ) → effects h (statements_of h' b) ≡ effects h (statements_of h b)
  pub outputs : (t : ℕ) → (h'.statements t).output ≡ (h.statements t).output
  pub same_effects :
      (t : ℕ)
      → statement_has_side_effects (h'.statements t) ≡ statement_has_side_effects (h.statements t)
  pub linked : (t : ℕ) → IsLinked h t → IsLinked h' t

Preserved-refl : (h : Heap) → Preserved h h
Preserved-refl h = record {
  effects_kept = λ b. refl;
  outputs = λ t. refl;
  same_effects = λ t. refl;
  linked = λ t l. l;
}

Preserved-trans : (h h' h″ : Heap) → Preserved h h' → Preserved h' h″ → Preserved h h″
Preserved-trans h h' h″ p q = record {
  effects_kept = λ b.
      sym (same-effects h h' (statements_of h″ b) p.same_effects)
      ∙ q.effects_kept b
      ∙ same-effects h h' (statements_of h' b) p.same_effects
      ∙ p.effects_kept b;
  outputs = λ t. q.outputs t ∙ p.outputs t;
  same_effects = λ t. q.same_effects t ∙ p.same_effects t;
  linked = λ t l. q.linked t (p.linked t l);
}

same_or_not : (b c : ℕ) → (c ≡ b) ⊎ (c ≢ b)
same_or_not b c = elim (Bool-cases (c == b)) [
  | inl e ↦ inl (ground arith)
  | inr ne ↦ inr (ground arith)
]

Keeps-Preserved : (b : ℕ) (h h' : Heap) → Keeps b h h' → Preserved h h'
Keeps-Preserved b h h' k = record {
  effects_kept = λ c. elim (same_or_not b c) [
    | inl e ↦
        subst (λ (x : ℕ). effects h (statements_of h' x) ≡ effects h (statements_of h x)) (sym e)
          k.effects_kept
    | inr ne ↦ ap (λ (x : Block). effects h x.statements) (k.others c ne)
  ];
  outputs = k.outputs;
  same_effects = k.same_effects;
  linked = k.linked;
}

still-IsReady :
    (b : ℕ) (h h' : Heap) → Keeps b h h' → IsReady h' b → (c : ℕ) → IsReady h c → IsReady h' c
still-IsReady b h h' k ready c (filled, linked) = elim (same_or_not b c) [
  | inl e ↦ subst (IsReady h') (sym e) ready
  | inr ne ↦
      subst (λ (x : Block). (0 < length x.statements) × All (IsLinked h') x.statements)
        (sym (k.others c ne)) (filled, All-map {P = IsLinked h} k.linked (statements_of h c) linked)
]

cse_blocks-Preserved :
    (h : Heap) (blocks : List ℕ)
    → All (IsReady h) blocks
    → (h' : Heap) × (cse_blocks h blocks ≡ ok h')
      × Preserved h h'
      × ((c : ℕ) → IsReady h c → IsReady h' c)
unfolding cse_blocks
cse_blocks-Preserved h [] ready = (h, refl, Preserved-refl h, λ c r. r)
cse_blocks-Preserved h (b ∷ blocks) ready =
    let (h₁, run, kept, ready₁) = cse_block-Keeps h b ready.0 in
    let still = still-IsReady b h h₁ kept ready₁ in
    let (h₂, run', kept', still') =
      cse_blocks-Preserved h₁ blocks (All-map {P = IsReady h} still blocks ready.1) in
    (
      h₂,
      rw run run',
      Preserved-trans h h₁ h₂ (Keeps-Preserved b h h₁ kept) kept',
      λ c r. still' c (still c r),
    )

-- Where no block of the functions is empty and all values' users are up to date for the blocks'
-- statements, the sharing of common subexpressions ends without a failed assertion. It takes no
-- statement with side effects out of a block and does not change their order, changes no
-- statement's output, and the users stay up to date for every statement for which they were.
pub optimization_local_cse-Preserved :
    (h : Heap) (functions : List Function)
    → All (λ (f : Function). All (IsReady h) f.blocks) functions
    → (h' : Heap) × (optimization_local_cse h functions ≡ ok h') × Preserved h h'
unfolding optimization_local_cse
optimization_local_cse-Preserved h [] ready = (h, refl, Preserved-refl h)
optimization_local_cse-Preserved h (f ∷ functions) ready =
    let (h₁, run, kept, still) = cse_blocks-Preserved h f.blocks ready.0 in
    let (h₂, run', kept') =
      optimization_local_cse-Preserved h₁ functions
        (All-map (λ (g : Function). All-map {P = IsReady h} still g.blocks) functions ready.1) in
    (h₂, rw run run', Preserved-trans h h₁ h₂ kept kept')
