-- ===== src/Optimize/Sweep.antt =====
-- src/bbae_optimization.h: the loop that takes out the statements of a block whose output nothing
-- uses, from the last but one to the first.
use bbae.Common.{
  ℕ, zero, suc, ◌-◌, ◌≤◌, ◌<◌, ◌≡◌, refl, ap, sym, ◌∙◌, subst, Bool, true, false, ◌||◌, List, [],
  ◌∷◌, some, ok, ltb, length, get_elem?, arith, All, All-map, Bool-cases, inl, inr,
}
use bbae.Ir.{Heap, Statement, Block}
use bbae.Optimize.{erase_at, erase_statement, can_remove, unused_at, unused_loop, unused_block}
use bbae.Optimize.Cse.{erase_at-All, length-erase_at, elem_at}
use bbae.Optimize.Share.{statements_of, statements-erase_statement}
use bbae.Optimize.Unused.{HasValue, Cut, disconnect_operands-Cut}
use bbae.Optimize.Removal.{
  IsDistinct, IsDistinct-erase_at, Removed, Removed-refl, Removed-trans, has_output, Removed-one,
}

-- All operands of a statement that name a value have one.
abbrev pub HasValues : Heap → ℕ → Type 0
HasValues h s = All HasValue (h.statements s).args

-- No statement stands twice in the block, and its statements' operands have values.
abbrev pub IsTidy : Heap → ℕ → Type 0
IsTidy h b = IsDistinct (statements_of h b) × All (HasValues h) (statements_of h b)

All-elem : (P : ℕ → Type 0) (ss : List ℕ) (i s : ℕ) → get_elem? ss i ≡ some s → All P ss → P s
All-elem P [] i s e a = cc
All-elem P (x ∷ ss) zero s e a = let here : x ≡ s = ground arith in subst P here a.0
All-elem P (x ∷ ss) (suc i) s e a = All-elem P ss i s e a.1

-- A round at the statement `i`: the block loses it or stays.
record Step (b i : ℕ) (h h' : Heap) (erased : Bool) : Type 0 where
  removed : Removed b h h'
  tidy : IsTidy h' b
  room : i ≤ length (statements_of h' b)

module _ (h : Heap) (b i s : ℕ) where
  erased-Step :
      (h₁ : Heap)
      → get_elem? (statements_of h b) i ≡ some s
      → i < length (statements_of h b)
      → IsTidy h b
      → can_remove h s ≡ true
      → Cut s (h.statements s).args h h₁
      → Step b i h (erase_statement h₁ b i) true
  erased-Step h₁ e inside tidy c cut =
      let (out, eo) = has_output h s c in
      record {
        removed = Removed-one h h₁ b i s out e tidy.0 c eo cut;
        tidy = (
          subst IsDistinct (sym new_list) (IsDistinct-erase_at (statements_of h b) i tidy.0),
          subst (All (HasValues (erase_statement h₁ b i))) (sym new_list) (
              All-map {P = HasValues h} same_values (erase_at (statements_of h b) i)
                (erase_at-All (HasValues h) (statements_of h b) i tidy.1)),
        );
        room = rw new_list (omega (arith, length-erase_at (statements_of h b) i inside));
      }
    where
      new_list : statements_of (erase_statement h₁ b i) b ≡ erase_at (statements_of h b) i
      new_list =
          statements-erase_statement h₁ b i
          ∙ ap (λ (f : ℕ → Block). erase_at (f b).statements i) cut.blocks

      same_values : (t : ℕ) → HasValues h t → HasValues (erase_statement h₁ b i) t
      same_values t v =
          subst (λ (f : ℕ → Statement). All HasValue (f t).args) (sym cut.statements) v

  unused_at-Step :
      get_elem? (statements_of h b) i ≡ some s
      → i < length (statements_of h b)
      → IsTidy h b
      → (r : Heap × Bool) × (unused_at h b i s ≡ ok r) × Step b i h r.0 r.1
  unfolding unused_at
  unused_at-Step e inside tidy = elim (Bool-cases (can_remove h s)) [
    | inl c ↦
        let values = All-elem (HasValues h) (statements_of h b) i s e tidy.1 in
        let (h₁, run, cut) = disconnect_operands-Cut (h.statements s).args h s values in
        ((erase_statement h₁ b i, true), rw (c, run) refl, erased-Step h₁ e inside tidy c cut)
    | inr left ↦ (
      (h, false),
      rw left refl,
      record { removed = Removed-refl b h; tidy = tidy; room = omega arith },
    )
  ]

unused_loop-Removed :
    (left : ℕ) (h : Heap) (b : ℕ) (skip did_work : Bool)
    → left ≤ length (statements_of h b)
    → IsTidy h b
    → (r : Heap × Bool) × (unused_loop left h b skip did_work ≡ ok r)
      × Removed b h r.0
      × IsTidy r.0 b
unfolding unused_loop
unused_loop-Removed zero h b skip did_work fits tidy = ((h, did_work), refl, Removed-refl b h, tidy)
unused_loop-Removed (suc i) h b true did_work fits tidy =
    unused_loop-Removed i h b false did_work (omega arith) tidy
unused_loop-Removed (suc i) h b false did_work fits tidy =
    let (s, e) = elem_at (statements_of h b) i (omega arith) in
    let (r, run, step) = unused_at-Step h b i s e (omega arith) tidy in
    let (r', run', rest, tidy') =
      unused_loop-Removed i r.0 b r.1 (r.1 || did_work) step.room step.tidy in
    (r', rw (e, run) run', Removed-trans b h r.0 r'.0 step.removed rest, tidy')

-- For a block in which no statement stands twice and no operand that names a value is without one,
-- the loop ends without a fault. It changes nothing but the block's list and the users of values, and
-- takes out no statement with side effects; the users stay up to date for all statements that are not
-- taken out, and none of these uses an output with a list of users of a statement that is.
pub unused_block-Removed :
    (h : Heap) (b : ℕ) (did_work : Bool)
    → IsTidy h b
    → (r : Heap × Bool) × (unused_block h b did_work ≡ ok r) × Removed b h r.0 × IsTidy r.0 b
unfolding unused_block
unused_block-Removed h b did_work tidy = elim (Bool-cases (ltb 1 (length (statements_of h b)))) [
  | inl long ↦
      let (r, run, removed, tidy') =
        unused_loop-Removed (length (statements_of h b) - 1) h b false did_work (omega arith)
          tidy in
      (r, rw (long, run) refl, removed, tidy')
  | inr short ↦ ((h, did_work), rw short refl, Removed-refl b h, tidy)
]
