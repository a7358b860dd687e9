-- ===== src/Optimize/Removal.antt =====
-- src/bbae_optimization.h: the loop that takes out the statements of a block whose output nothing
-- uses.
use bbae.Common.{
  ℕ, zero, suc, ◌≡◌, ◌≢◌, refl, ap, sym, ◌∙◌, subst, true, false, List, [], ◌∷◌, some, ◌==◌, length,
  get_elem?, arith, Bool-cases, Option-cases, inl, inr,
}
use bbae.Ir.{Heap, Statement, Block, statement_has_side_effects}
use bbae.Ir.Edit.{keeps_edges}
use bbae.Ir.Links.{IsLinked, edge_count, use_count}
use bbae.Ir.Substitute.{mem}
use bbae.Optimize.{erase_at, erase_statement, is_unused, can_remove}
use bbae.Optimize.Cse.{effects, same-effects, erase_at-effects}
use bbae.Optimize.Share.{statements_of, statements-erase_statement}
use bbae.Optimize.Unused.{Cut}

-- No statement stands twice in a list.
abbrev pub IsDistinct : List ℕ → Type 0
IsDistinct [] = Unit {0}
IsDistinct (s ∷ ss) = (mem s ss ≡ false) × IsDistinct ss

mem-erase_at : (ss : List ℕ) (i t : ℕ) → mem t (erase_at ss i) ≡ true → mem t ss ≡ true
mem-erase_at [] i t m = m
mem-erase_at (x ∷ ss) zero t m = ground arith
mem-erase_at (x ∷ ss) (suc i) t m = ground (arith, mem-erase_at ss i t)

mem-other :
    (ss : List ℕ) (i s t : ℕ)
    → get_elem? ss i ≡ some s
    → mem t ss ≡ true
    → t ≢ s
    → mem t (erase_at ss i) ≡ true
mem-other [] i s t e m ne = m
mem-other (x ∷ ss) zero s t e m ne = ground arith
mem-other (x ∷ ss) (suc i) s t e m ne = ground (arith, mem-other ss i s t e)

mem_at : (ss : List ℕ) (i s : ℕ) → get_elem? ss i ≡ some s → mem s ss ≡ true
mem_at [] i s e = cc
mem_at (x ∷ ss) zero s e = ground arith
mem_at (x ∷ ss) (suc i) s e = ground (arith, mem_at ss i s e)

pub IsDistinct-erase_at : (ss : List ℕ) (i : ℕ) → IsDistinct ss → IsDistinct (erase_at ss i)
IsDistinct-erase_at [] i d = d
IsDistinct-erase_at (x ∷ ss) zero d = d.1
IsDistinct-erase_at (x ∷ ss) (suc i) d =
    (ground (arith, mem-erase_at ss i x, d.0), IsDistinct-erase_at ss i d.1)

gone-erase_at :
    (ss : List ℕ) (i s : ℕ)
    → IsDistinct ss
    → get_elem? ss i ≡ some s
    → mem s (erase_at ss i) ≡ false
gone-erase_at [] i s d e = refl
gone-erase_at (x ∷ ss) zero s d e =
    let here : x ≡ s = ground arith in subst (λ y. mem y ss ≡ false) here d.0
gone-erase_at (x ∷ ss) (suc i) s d e =
    ground (arith, gone-erase_at ss i s d.1 e, mem_at ss i s e, d.0)

-- What the removal of statements of the block `b` does: nothing but the block's list and the users of
-- values changes, no statement with side effects goes, the users stay up to date for the statements
-- that are not taken out, and none of these uses the output of one that is.
pub record Removed (b : ℕ) (h h' : Heap) : Type 0 where
  pub statements : h'.statements ≡ h.statements
  pub others : (c : ℕ) → c ≢ b → h'.blocks c ≡ h.blocks c
  pub kinds : (v : ℕ) → (h'.values v).variant ≡ (h.values v).variant
  pub subset : (t : ℕ) → mem t (statements_of h' b) ≡ true → mem t (statements_of h b) ≡ true
  pub effects_kept : effects h (statements_of h' b) ≡ effects h (statements_of h b)
  pub linked :
      (t : ℕ)
      → IsLinked h t
      → (mem t (statements_of h b) ≡ true → mem t (statements_of h' b) ≡ true)
      → IsLinked h' t
  pub unused :
      (s out t : ℕ)
      → mem s (statements_of h b) ≡ true
      → mem s (statements_of h' b) ≡ false
      → (h.statements s).output ≡ some out
      → keeps_edges (h.values out).variant ≡ true
      → IsLinked h t
      → (mem t (statements_of h b) ≡ true → mem t (statements_of h' b) ≡ true)
      → use_count out (h.statements t).args ≡ 0

pub Removed-refl : (b : ℕ) (h : Heap) → Removed b h h
Removed-refl b h = record {
  statements = refl;
  others = λ c ne. refl;
  kinds = λ v. refl;
  subset = λ t m. m;
  effects_kept = refl;
  linked = λ t l m. l;
  unused = λ s out t m m' e k l r. cc;
}

pub Removed-trans : (b : ℕ) (h h' h″ : Heap) → Removed b h h' → Removed b h' h″ → Removed b h h″
Removed-trans b h h' h″ p q = record {
  statements = q.statements ∙ p.statements;
  others = λ c ne. q.others c ne ∙ p.others c ne;
  kinds = λ v. q.kinds v ∙ p.kinds v;
  subset = λ t m. p.subset t (q.subset t m);
  effects_kept =
      sym (same-effects h h' (statements_of h″ b) same)
      ∙ q.effects_kept
      ∙ same-effects h h' (statements_of h' b) same
      ∙ p.effects_kept;
  linked = λ t l m. still t l m;
  unused = λ s out t m m' e k l r. elim (Bool-cases (mem s (statements_of h' b))) [
    | inl in_between ↦
        ap (λ (f : ℕ → Statement). use_count out (f t).args) (sym p.statements)
        ∙ q.unused s out t in_between m' (ap (λ (f : ℕ → Statement). (f s).output) p.statements ∙ e)
            (ap keeps_edges (p.kinds out) ∙ k) (p.linked t l (λ x. q.subset t (r x)))
            (λ x. r (p.subset t x))
    | inr out_before ↦ p.unused s out t m out_before e k l (λ x. q.subset t (r x))
  ];
}
  where
    same :
        (t : ℕ)
        → statement_has_side_effects (h'.statements t) ≡ statement_has_side_effects (h.statements t)
    same t = ap (λ (f : ℕ → Statement). statement_has_side_effects (f t)) p.statements

    still :
        (t : ℕ)
        → IsLinked h t
        → (mem t (statements_of h b) ≡ true → mem t (statements_of h″ b) ≡ true)
        → IsLinked h″ t
    still t l m = q.linked t (p.linked t l (λ x. q.subset t (m x))) (λ x. m (p.subset t x))

-- What makes a statement removable.
unused-facts :
    (h : Heap) (s out : ℕ)
    → can_remove h s ≡ true
    → (h.statements s).output ≡ some out
    → (length (h.values out).edges_out ≡ 0) × (statement_has_side_effects (h.statements s) ≡ false)
unused-facts h s out c e =
    let both : is_unused h (h.statements s) (some out) ≡ true =
      subst (λ o. is_unused h (h.statements s) o ≡ true) e c in
    (ground arith, ground arith)

no_users : (t : ℕ) (edges : List ℕ) → length edges ≡ 0 → edge_count t edges ≡ 0
no_users t [] e = refl
no_users t (x ∷ edges) e = cc

true_not_false : false ≡ true → ⊥
true_not_false e = cc

some_injective : {a b : ℕ} → some a ≡ some b → a ≡ b
some_injective e = cc

others-erase_statement :
    (h : Heap) (b i x : ℕ) → x ≢ b → (erase_statement h b i).blocks x ≡ h.blocks x
others-erase_statement h b i x ne = ground arith

pub has_output :
    (h : Heap) (s : ℕ) → can_remove h s ≡ true → (out : ℕ) × ((h.statements s).output ≡ some out)
has_output h s c = elim (Option-cases (h.statements s).output) [
  | inl e ↦ absurd (true_not_false (subst (λ o. is_unused h (h.statements s) o ≡ true) e c))
  | inr found ↦ found
]

module _ (h h₁ : Heap) (b i s out : ℕ) where
  -- One statement is taken out, after its operands were disconnected.
  pub Removed-one :
      get_elem? (statements_of h b) i ≡ some s
      → IsDistinct (statements_of h b)
      → can_remove h s ≡ true
      → (h.statements s).output ≡ some out
      → Cut s (h.statements s).args h h₁
      → Removed b h (erase_statement h₁ b i)
  Removed-one e d c eo cut = record {
    statements = cut.statements;
    others = λ x ne. other_block x ne;
    kinds = cut.kinds;
    subset = λ t m. mem-erase_at (statements_of h b) i t (rw (← new_list) m);
    effects_kept =
        ap (effects h) new_list
        ∙ erase_at-effects h (statements_of h b) i s e (unused-facts h s out c eo).1;
    linked = λ t l m v k. links t l m v k;
    unused = λ s' o t m m' e' k l r. unused_of s' o t m m' e' k l;
  }
    where
      new_list : statements_of (erase_statement h₁ b i) b ≡ erase_at (statements_of h b) i
      new_list =
          statements-erase_statement h₁ b i
          ∙ ap (λ (f : ℕ → Block). erase_at (f b).statements i) cut.blocks

      other_block : (x : ℕ) → x ≢ b → (erase_statement h₁ b i).blocks x ≡ h.blocks x
      other_block x ne = others-erase_statement h₁ b i x ne ∙ ap (λ (f : ℕ → Block). f x) cut.blocks

      links :
          (t : ℕ)
          → IsLinked h t
          → (mem t (statements_of h b) ≡ true
              → mem t (statements_of (erase_statement h₁ b i) b) ≡ true)
          → IsLinked (erase_statement h₁ b i) t
      links t l m v k = elim (Bool-cases (t == s)) [
        | inl same ↦
            let here : t ≡ s = ground arith in
            let stays : mem t (erase_at (statements_of h b) i) ≡ true = rw (← new_list) (
              m (
                subst (λ x. mem x (statements_of h b) ≡ true) (sym here)
                  (mem_at (statements_of h b) i s e))) in
            let gone : mem t (erase_at (statements_of h b) i) ≡ false =
              subst (λ x. mem x (erase_at (statements_of h b) i) ≡ false) (sym here)
                (gone-erase_at (statements_of h b) i s d e) in
            absurd (true_not_false (sym gone ∙ stays))
        | inr other ↦
            let before : keeps_edges (h.values v).variant ≡ true =
              sym (ap keeps_edges (cut.kinds v)) ∙ k in
            let count : edge_count t (h₁.values v).edges_out ≡ edge_count t (h.values v).edges_out =
              rw (cut.counts t v, other) refl in
            count
            ∙ l v before
            ∙ ap (λ (f : ℕ → Statement). use_count v (f t).args) (sym cut.statements)
      ]

      unused_of :
          (s' o t : ℕ)
          → mem s' (statements_of h b) ≡ true
          → mem s' (statements_of (erase_statement h₁ b i) b) ≡ false
          → (h.statements s').output ≡ some o
          → keeps_edges (h.values o).variant ≡ true
          → IsLinked h t
          → use_count o (h.statements t).args ≡ 0
      unused_of s' o t m m' e' k l =
          let gone : mem s' (erase_at (statements_of h b) i) ≡ false = rw (← new_list) m' in
          let here : s' ≡ s = only_one s' m gone in
          let same : out ≡ o =
            some_injective (sym eo ∙ subst (λ x. (h.statements x).output ≡ some o) here e') in
          sym (l o k)
          ∙ subst (λ x. edge_count t (h.values x).edges_out ≡ 0) same
              (no_users t (h.values out).edges_out (unused-facts h s out c eo).0)
        where
          only_one :
              (s' : ℕ)
              → mem s' (statements_of h b) ≡ true
              → mem s' (erase_at (statements_of h b) i) ≡ false
              → s' ≡ s
          only_one s' m gone = elim (Bool-cases (s' == s)) [
            | inl same ↦ ground arith
            | inr other ↦
                let ne : s' ≢ s = ground arith in
                absurd (true_not_false (sym gone ∙ mem-other (statements_of h b) i s s' e m ne))
          ]
