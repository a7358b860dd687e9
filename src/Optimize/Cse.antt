-- ===== src/Optimize/Cse.antt =====
-- src/bbae_optimization.h: what the sharing of common subexpressions keeps.
use bbae.Common.{
  ℕ, zero, suc, ◌<◌, ◌≡◌, ◌≢◌, refl, ap, sym, ◌∙◌, true, false, List, [], ◌∷◌, Option, none, some,
  ◌==◌, if◌then◌else◌, length, get_elem?, arith, All, Bool-cases, inl, inr,
}
use bbae.Ir.{Heap, is_null, statement_has_side_effects, statements_same, outputs_differ}
use bbae.Ir.Links.{IsLinked}
use bbae.Optimize.{erase_at, find_same}

-- The statements with side effects, in their order.
abbrev pub effects : Heap → List ℕ → List ℕ
effects h [] = []
effects h (s ∷ ss) =
    let rest = effects h ss in
    if statement_has_side_effects (h.statements s) then s ∷ rest else rest

-- What a pass that works inside the block `b` keeps: the statements with side effects and their
-- order, the other blocks, the outputs of all statements, and the users of all values for every
-- statement for which they were up to date.
pub record Keeps (b : ℕ) (h h' : Heap) : Type 0 where
  pub effects_kept : effects h (h'.blocks b).statements ≡ effects h (h.blocks b).statements
  pub others : (c : ℕ) → c ≢ b → h'.blocks c ≡ h.blocks c
  pub outputs : (t : ℕ) → (h'.statements t).output ≡ (h.statements t).output
  pub same_effects :
      (t : ℕ)
      → statement_has_side_effects (h'.statements t) ≡ statement_has_side_effects (h.statements t)
  pub linked : (t : ℕ) → IsLinked h t → IsLinked h' t

pub same-effects :
    (h h' : Heap) (ss : List ℕ)
    → ((t : ℕ)
        → statement_has_side_effects (h'.statements t)
          ≡ statement_has_side_effects (h.statements t))
    → effects h' ss ≡ effects h ss
same-effects h h' [] e = refl
same-effects h h' (s ∷ ss) e = rw (e s, same-effects h h' ss e)

pub Keeps-refl : (b : ℕ) (h : Heap) → Keeps b h h
Keeps-refl b h = record {
  effects_kept = refl;
  others = λ c ne. refl;
  outputs = λ t. refl;
  same_effects = λ t. refl;
  linked = λ t l. l;
}

pub Keeps-trans : (b : ℕ) (h h' h″ : Heap) → Keeps b h h' → Keeps b h' h″ → Keeps b h h″
Keeps-trans b h h' h″ p q = record {
  effects_kept =
      sym (same-effects h h' (h″.blocks b).statements p.same_effects)
      ∙ q.effects_kept
      ∙ same-effects h h' (h'.blocks b).statements p.same_effects
      ∙ p.effects_kept;
  others = λ c ne. q.others c ne ∙ p.others c ne;
  outputs = λ t. q.outputs t ∙ p.outputs t;
  same_effects = λ t. q.same_effects t ∙ p.same_effects t;
  linked = λ t l. q.linked t (p.linked t l);
}

-- Taking out a statement without side effects.
pub erase_at-effects :
    (h : Heap) (ss : List ℕ) (i s : ℕ)
    → get_elem? ss i ≡ some s
    → statement_has_side_effects (h.statements s) ≡ false
    → effects h (erase_at ss i) ≡ effects h ss
erase_at-effects h [] i s e none_of = refl
erase_at-effects h (x ∷ ss) zero s e none_of = let here : x ≡ s = ground arith in rw (here, none_of)
erase_at-effects h (x ∷ ss) (suc i) s e none_of = rw (erase_at-effects h ss i s e none_of)

pub erase_at-All : (P : ℕ → Type 0) (ss : List ℕ) (i : ℕ) → All P ss → All P (erase_at ss i)
erase_at-All P [] i a = tt
erase_at-All P (x ∷ ss) zero a = a.1
erase_at-All P (x ∷ ss) (suc i) a = (a.0, erase_at-All P ss i a.1)

pub length-erase_at :
    (ss : List ℕ) (i : ℕ) → i < length ss → suc (length (erase_at ss i)) ≡ length ss
length-erase_at [] i h = absurd (omega arith)
length-erase_at (x ∷ ss) zero h = refl
length-erase_at (x ∷ ss) (suc i) h = ap suc (length-erase_at ss i (omega arith))

pub elem_at : (ss : List ℕ) (i : ℕ) → i < length ss → (s : ℕ) × (get_elem? ss i ≡ some s)
elem_at [] i h = absurd (omega arith)
elem_at (x ∷ ss) zero h = (x, refl)
elem_at (x ∷ ss) (suc i) h = elem_at ss i (omega arith)

-- The search finds a statement that is the same.
pub find_same-some :
    (h : Heap) (before : List ℕ) (s prev : ℕ)
    → find_same h before s ≡ some prev
    → statements_same h prev s ≡ true
unfolding find_same
find_same-some h [] s prev e = cc
find_same-some h (p ∷ before) s prev e = elim (Bool-cases (statements_same h p s)) [
  | inl same ↦ let here : p ≡ prev = ground arith in rw (← here) same
  | inr other ↦ find_same-some h before s prev (rw other at e)
]

pub both_outputs :
    (h : Heap) (p q : ℕ)
    → statements_same h p q ≡ true
    → is_null (h.statements q).output ≡ false
    → is_null (h.statements p).output ≡ false
unfolding statements_same
both_outputs h p q same has = elim (Bool-cases (p == q)) [
  | inl here ↦ let e : p ≡ q = ground arith in rw e has
  | inr other ↦ no_difference (h.statements p).output (h.statements q).output (ground arith) has
]
  where
    no_difference :
        (a b : Option ℕ) → outputs_differ h a b ≡ false → is_null b ≡ false → is_null a ≡ false
    no_difference (some x) b e has = refl
    no_difference none (some y) e has = cc
    no_difference none none e has = cc
