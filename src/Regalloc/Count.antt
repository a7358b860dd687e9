-- ===== src/Regalloc/Count.antt =====
-- src/x86/regalloc_x86.h: each operand of a statement is counted once.
use bbae.Common.{
  ℕ, suc, ◌+◌, ◌-◌, ◌≤◌, ◌<◌, ◌≡◌, refl, ap, ◌∙◌, inl, inr, true, ◌&&◌, not, List, [], ◌∷◌, Option,
  none, some, ok, if◌then◌else◌, arith, Bool-cases, length, ◌==◌, leb, ltb, take, All,
}
use bbae.Ir.{Heap, Operand, update}
use bbae.Regalloc.Uses.{
  UseCounts, is_const, is_named, increment_use, increment_loop, increment_operand_uses_impl,
  statement_ops_live_until_after_statement, increment_operand_uses_early,
  increment_operand_uses_late,
}

-- How an operand counts for a value.
abbrev pub one_use : Heap → ℕ → Option ℕ → ℕ
one_use h v none = 0
one_use h v (some w) = if v == w && not (is_const (h.values w).variant) then 1 else 0

-- How many of the operands have the value, but for constants.
abbrev pub uses_of : Heap → ℕ → List Operand → ℕ
uses_of h v [] = 0
uses_of h v (op ∷ args) = one_use h v op.value + uses_of h v args

abbrev pub HasName : Heap → Option ℕ → Type 0
HasName h none = Unit
HasName h (some v) = is_named h (h.values v).ssa ≡ true

-- The operands' values are named, where statements put them out.
abbrev pub AreNamed : Heap → List Operand → Type 0
AreNamed h args = All (λ (op : Operand). HasName h op.value) args

-- A value that the operands have has so many users that are not counted yet.
abbrev pub HasRoom : Heap → List Operand → UseCounts → Type 0
HasRoom h args counts =
    (v : ℕ) → 0 < uses_of h v args → counts v + uses_of h v args ≤ length (h.values v).edges_out

-- The counts after the operands.
abbrev pub Counted : Heap → List Operand → UseCounts → UseCounts → Type 0
Counted h args counts counts' = (v : ℕ) → counts' v ≡ counts v + uses_of h v args

counted_one :
    (h : Heap) (counts : UseCounts) (o : Option ℕ)
    → HasName h o
    → ((v : ℕ) → 0 < one_use h v o → counts v + one_use h v o ≤ length (h.values v).edges_out)
    → (counts' : UseCounts) × (increment_use h counts o ≡ ok counts')
      × ((v : ℕ) → counts' v ≡ counts v + one_use h v o)
unfolding increment_use
counted_one h counts none named room = (counts, refl, λ v. omega arith)
counted_one h counts (some w) named room = elim (Bool-cases (is_const (h.values w).variant)) [
  | inl const ↦ (counts, rw const refl, λ v. ground arith)
  | inr other ↦
      let fits : leb (counts w + 1) (length (h.values w).edges_out) ≡ true =
        ground (arith, room w) in
      let here : update counts w (counts w + 1) w ≡ counts w + 1 = ground arith in
      (update counts w (counts w + 1), rw (other, named, here, fits) refl, λ v. ground arith)
]

increment_loop-Counted :
    (h : Heap) (args : List Operand) (counts : UseCounts)
    → AreNamed h args
    → HasRoom h args counts
    → (counts' : UseCounts) × (increment_loop h counts args ≡ ok counts')
      × Counted h args counts counts'
unfolding increment_loop
increment_loop-Counted h [] counts named room = (counts, refl, λ v. omega arith)
increment_loop-Counted h (op ∷ args) counts named room =
    let (c₁, run, one) =
      counted_one h counts op.value named.0 (λ v pos. omega (arith, room v (omega arith))) in
    let (c₂, run', rest) =
      increment_loop-Counted h args c₁ named.1
        (λ v pos. omega (arith, room v (omega arith), one v)) in
    (c₂, rw run run', λ v. omega (arith, one v, rest v))

take-all : (args : List Operand) → take (length args) args ≡ args
take-all [] = refl
take-all (op ∷ args) = ap (λ (l : List Operand). op ∷ l) (take-all args)

module _ (h : Heap) (counts : UseCounts) (s : ℕ) where
  -- A range from the start of the operands.
  first_range :
      (args : List Operand) (counts' : UseCounts)
      → (h.statements s).args ≡ args
      → increment_loop h counts args ≡ ok counts'
      → increment_operand_uses_impl h counts s 0 (length (h.statements s).args) ≡ ok counts'
  unfolding increment_operand_uses_impl
  first_range args counts' e run =
      let whole : length args - 0 ≡ length args = omega arith in
      let fits : leb (length args) (length args) ≡ true = ground arith in
      rw (e, fits, whole, take-all args) run

  first_one :
      (op : Operand) (args : List Operand) (counts' : UseCounts)
      → (h.statements s).args ≡ op ∷ args
      → increment_loop h counts (op ∷ []) ≡ ok counts'
      → increment_operand_uses_impl h counts s 0 1 ≡ ok counts'
  unfolding increment_operand_uses_impl
  first_one op args counts' e run =
      let fits : leb 1 (suc (length args)) ≡ true = ground arith in rw (e, fits) run

  other_ones :
      (op : Operand) (args : List Operand) (counts' : UseCounts)
      → (h.statements s).args ≡ op ∷ args
      → increment_loop h counts args ≡ ok counts'
      → increment_operand_uses_impl h counts s 1 (length (h.statements s).args) ≡ ok counts'
  unfolding increment_operand_uses_impl
  other_ones op args counts' e run =
      let fits : leb (suc (length args)) (suc (length args)) ≡ true = ground arith in
      let rest : suc (length args) - 1 ≡ length args = omega arith in
      rw (e, fits, rest, take-all args) run

both_runs :
    (h : Heap) (counts : UseCounts) (s : ℕ) (args : List Operand)
    → (h.statements s).args ≡ args
    → AreNamed h args
    → HasRoom h args counts
    → (c₁ : UseCounts) × (c₂ : UseCounts) × (increment_operand_uses_early h counts s ≡ ok c₁)
      × (increment_operand_uses_late h c₁ s ≡ ok c₂)
      × Counted h args counts c₂
unfolding increment_operand_uses_early increment_operand_uses_late
both_runs h counts s args e named room =
    elim (Bool-cases (statement_ops_live_until_after_statement (h.statements s))) [
      | inr call ↦
          let (c, run, counted) = increment_loop-Counted h args counts named room in
          (c, c, rw call (first_range h counts s args c e run), rw call refl, counted)
      | inl live ↦ by_args args live e named room
    ]
  where
    positive : (n : ℕ) → ltb 0 (suc n) ≡ true
    positive n = ground arith

    early_one :
        statement_ops_live_until_after_statement (h.statements s) ≡ true
        → ltb 0 (length (h.statements s).args) ≡ true
        → increment_operand_uses_early h counts s ≡ increment_operand_uses_impl h counts s 0 1
    early_one live pos = rw (live, pos) refl

    by_args :
        (args : List Operand)
        → statement_ops_live_until_after_statement (h.statements s) ≡ true
        → (h.statements s).args ≡ args
        → AreNamed h args
        → HasRoom h args counts
        → (c₁ : UseCounts) × (c₂ : UseCounts) × (increment_operand_uses_early h counts s ≡ ok c₁)
          × (increment_operand_uses_late h c₁ s ≡ ok c₂)
          × Counted h args counts c₂
    by_args [] live e named room =
        (counts, counts, rw (live, e) refl, rw (live, e) refl, λ v. omega arith)
    by_args (op ∷ args) live e named room =
        let (c₁, run, one) =
          increment_loop-Counted h (op ∷ []) counts (named.0, tt)
            (λ v pos. omega (arith, room v (omega arith))) in
        let (c₂, run', rest) =
          increment_loop-Counted h args c₁ named.1
            (λ v pos. omega (arith, room v (omega arith), one v)) in
        (
          c₁,
          c₂,
          early_one live (rw e (positive (length args))) ∙ first_one h counts s op args c₁ e run,
          rw live (other_ones h c₁ s op args c₂ e run'),
          λ v. omega (arith, one v, rest v),
        )

-- Where the values of a statement's operands are named and each has at least as many users that are
-- not counted yet as the statement has operands with it, no assertion fails, and counting the uses
-- early and late counts every operand exactly once, but for constants.
pub increment_operand_uses-Counted :
    (h : Heap) (counts : UseCounts) (s : ℕ)
    → AreNamed h (h.statements s).args
    → HasRoom h (h.statements s).args counts
    → (c₁ : UseCounts) × (c₂ : UseCounts) × (increment_operand_uses_early h counts s ≡ ok c₁)
      × (increment_operand_uses_late h c₁ s ≡ ok c₂)
      × Counted h (h.statements s).args counts c₂
increment_operand_uses-Counted h counts s named room =
    both_runs h counts s (h.statements s).args refl named room
