-- ===== src/Construct/Legalized.antt =====
-- src/bbae_construction.h: after the loops of `legalize_last_statement_operands` no operand is left
-- that the instruction cannot take.
use bbae.Common.{
  ℕ, zero, suc, ◌+◌, ◌≤◌, ◌<◌, ◌≡◌, ◌≢◌, refl, sym, ap, subst, ◌∙◌, ◌⊎◌, inl, inr, Bool, true,
  false, ◌&&◌, List, [], ◌∷◌, Option, none, some, Run, ok, ◌>>=◌, ◌==◌, if◌then◌else◌, length,
  get_elem?, set, arith, Bool-cases, length-set, get_elem?-set_self, get_elem?-set_ne,
}
use bbae.Types.{IrType}
use bbae.Ir.{Heap, ValueVariant, Operand, OpVariant}
use bbae.Statics.{make_temp_name}
use bbae.Construct.Legal.{move_operand, is_kind, move_loop}
use bbae.Construct.Moved.{IsPlain, moved_op, moved, move_operand-ok, moved-args, moved-kinds}

-- Every operand of the statement that has a value is a value operand.
abbrev pub ArePlain : Heap → ℕ → Type 0
ArePlain h s = (k : ℕ) (op : Operand) → get_elem? (h.statements s).args k ≡ some op → IsPlain op

module _ (test : ℕ → Bool) (kind : ValueVariant → Bool) (not_ssa : kind ValueVariant.ssa ≡ false)
    (block s : ℕ) where
  -- What the loop over the operands from `i` to `i + left` gives: those operands are not of the kind,
  -- where the test singles them out, and the operands before `i` are kept.
  pub record Moves (i left : ℕ) (h h' : Heap) : Type 0 where
    pub kinds :
        (v : ℕ)
        → ((h'.values v).variant ≡ (h.values v).variant)
          ⊎ ((h'.values v).variant ≡ ValueVariant.ssa)
    pub kept :
        (k : ℕ) → k < i → get_elem? (h'.statements s).args k ≡ get_elem? (h.statements s).args k
    pub clean :
        (k : ℕ) (op : Operand)
        → i ≤ k
        → k < i + left
        → get_elem? (h'.statements s).args k ≡ some op
        → test k && is_kind kind h' op.value ≡ false
    pub count : length (h'.statements s).args ≡ length (h.statements s).args
    pub old : s < h'.next
    pub plain : ArePlain h' s

  -- The kind of an operand's value is not taken on later.
  still_clean :
      (h h' : Heap) (b : Bool) (o : Option ℕ)
      → ((v : ℕ)
          → ((h'.values v).variant ≡ (h.values v).variant)
            ⊎ ((h'.values v).variant ≡ ValueVariant.ssa))
      → b && is_kind kind h o ≡ false
      → b && is_kind kind h' o ≡ false
  still_clean h h' b none kinds e = e
  still_clean h h' b (some v) kinds e = elim (kinds v) [
    | inl same ↦ rw same e
    | inr ssa ↦ rw (ssa, not_ssa) (and_false b)
  ]
    where
      and_false : (b : Bool) → b && false ≡ false
      and_false true = refl
      and_false false = refl

  -- One operand, moved or not.
  record Round (i : ℕ) (h h' : Heap) : Type 0 where
    kinds :
        (v : ℕ)
        → ((h'.values v).variant ≡ (h.values v).variant)
          ⊎ ((h'.values v).variant ≡ ValueVariant.ssa)
    others :
        (k : ℕ) → k ≢ i → get_elem? (h'.statements s).args k ≡ get_elem? (h.statements s).args k
    clean :
        (op : Operand)
        → get_elem? (h'.statements s).args i ≡ some op
        → test i && is_kind kind h' op.value ≡ false
    count : length (h'.statements s).args ≡ length (h.statements s).args
    old : s < h'.next
    plain : ArePlain h' s

  stays :
      (i : ℕ) (h : Heap) (op : Operand)
      → get_elem? (h.statements s).args i ≡ some op
      → test i && is_kind kind h op.value ≡ false
      → s < h.next
      → ArePlain h s
      → Round i h h
  stays i h op e other old plain = record {
    kinds = λ v. inl refl;
    others = λ k ne. refl;
    clean = λ op' e'.
        let same : op ≡ op' = some_injective (sym e ∙ e') in
        subst (λ (o : Operand). test i && is_kind kind h o.value ≡ false) same other;
    count = refl;
    old = old;
    plain = plain;
  }
    where
      some_injective : {a b : Operand} → some a ≡ some b → a ≡ b
      some_injective e = cc

  moved-Round :
      (i temp_ctr : ℕ) (h : Heap) (op : Operand) (t : IrType)
      → i < length (h.statements s).args
      → s < h.next
      → ArePlain h s
      → Round i h (moved h temp_ctr block s i op t)
  moved-Round i temp_ctr h op t inside old plain = record {
    kinds = kinds_of;
    others = λ k ne.
        ap (λ (l : List Operand). get_elem? l k) args
        ∙ get_elem?-set_ne (h.statements s).args _ (λ e. ne (sym e));
    clean = λ op' e.
        let same = here op' e in
        subst
          (λ (o : Operand).
            test i && is_kind kind (moved h temp_ctr block s i op t) o.value ≡ false)
          same ssa_here;
    count = ap (λ (l : List Operand). length l) args ∙ length-set (h.statements s).args i _;
    old = omega arith;
    plain = plain_after;
  }
    where
      args :
          ((moved h temp_ctr block s i op t).statements s).args
          ≡ set (h.statements s).args i (moved_op (h.next + 1))
      args = moved-args h temp_ctr block s i op t old

      kinds_of :
          (v : ℕ)
          → (((moved h temp_ctr block s i op t).values v).variant ≡ (h.values v).variant)
            ⊎ (((moved h temp_ctr block s i op t).values v).variant ≡ ValueVariant.ssa)
      kinds_of v = elim (Bool-cases (v == h.next + 1)) [
        | inl new ↦ inr (moved-kinds h temp_ctr block s i op t v ∙ rw new refl)
        | inr other ↦ inl (moved-kinds h temp_ctr block s i op t v ∙ rw other refl)
      ]

      ssa_here :
          test i && kind ((moved h temp_ctr block s i op t).values (h.next + 1)).variant ≡ false
      ssa_here =
          let e : ((moved h temp_ctr block s i op t).values (h.next + 1)).variant
              ≡ ValueVariant.ssa =
            moved-kinds h temp_ctr block s i op t (h.next + 1) ∙ rw (itself (h.next + 1)) refl in
          ap (λ (x : ValueVariant). test i && kind x) e
          ∙ ap (λ b. test i && b) not_ssa
          ∙ and_false (test i)
        where
          itself : (n : ℕ) → (n == n) ≡ true
          itself n = ground arith

          and_false : (b : Bool) → b && false ≡ false
          and_false true = refl
          and_false false = refl

      some_injective : {a b : Operand} → some a ≡ some b → a ≡ b
      some_injective e = cc

      here :
          (op' : Operand)
          → get_elem? ((moved h temp_ctr block s i op t).statements s).args i ≡ some op'
          → moved_op (h.next + 1) ≡ op'
      here op' e = some_injective (
          sym (get_elem?-set_self (h.statements s).args i (moved_op (h.next + 1)) inside)
          ∙ ap (λ (l : List Operand). get_elem? l i) (sym args)
          ∙ e)

      plain_after : ArePlain (moved h temp_ctr block s i op t) s
      plain_after k op' e = elim (Bool-cases (k == i)) [
        | inl same ↦
            let at : k ≡ i = ground arith in
            let new = here op' (
              subst
                (λ (x : ℕ).
                  get_elem? ((moved h temp_ctr block s i op t).statements s).args x ≡ some op')
                at e) in
            subst IsPlain new (inr refl)
        | inr other ↦
            let ne : i ≢ k = ground arith in
            plain k op' (
              sym (get_elem?-set_ne (h.statements s).args (moved_op (h.next + 1)) ne)
              ∙ ap (λ (l : List Operand). get_elem? l k) (sym args)
              ∙ e)
      ]

  -- The body of the loop.
  at_operand : Heap → ℕ → ℕ → Operand → Run (Heap × ℕ)
  at_operand h temp_ctr i op =
      if test i && is_kind kind h op.value
      then move_operand h temp_ctr block s i op
      else ok (h, temp_ctr)

  round :
      (i temp_ctr : ℕ) (h : Heap) (op : Operand)
      → get_elem? (h.statements s).args i ≡ some op
      → i < length (h.statements s).args
      → s < h.next
      → ArePlain h s
      → (r : Heap × ℕ) × (at_operand h temp_ctr i op ≡ ok r) × Round i h r.0
  unfolding at_operand
  round i temp_ctr h op e inside old plain = elim (Bool-cases (test i && is_kind kind h op.value)) [
    | inr other ↦ ((h, temp_ctr), rw other refl, stays i h op e other old plain)
    | inl yes_moved ↦
        let (v, is_v) = value_of op.value yes_moved in
        let variant = value_op (plain i op e) is_v in
        (
          (moved h temp_ctr block s i op (h.values v).type_of, (make_temp_name temp_ctr).1),
          rw yes_moved (move_operand-ok h temp_ctr block s i v op variant is_v),
          moved-Round i temp_ctr h op (h.values v).type_of inside old plain,
        )
  ]
    where
      value_of : (o : Option ℕ) → test i && is_kind kind h o ≡ true → (v : ℕ) × (o ≡ some v)
      value_of none e = ground arith
      value_of (some v) e = (v, refl)

      value_op : {v : ℕ} → IsPlain op → op.value ≡ some v → op.variant ≡ OpVariant.value_op
      value_op (inl none_of) is_v = cc
      value_op (inr k) is_v = k

  loop_step :
      (left i temp_ctr : ℕ) (h : Heap) (op : Operand)
      → get_elem? (h.statements s).args i ≡ some op
      → move_loop test kind (suc left) h temp_ctr block s i
        ≡ (at_operand h temp_ctr i op >>= λ r. move_loop test kind left r.0 r.1 block s (i + 1))
  unfolding move_loop at_operand
  loop_step left i temp_ctr h op e = rw e refl

  joined :
      (left i : ℕ) (h h₁ h₂ : Heap)
      → Round i h h₁
      → Moves (i + 1) left h₁ h₂
      → Moves i (suc left) h h₂
  joined left i h h₁ h₂ r m = record {
    kinds = λ v. both v (m.kinds v) (r.kinds v);
    kept = λ k below. m.kept k (omega arith) ∙ r.others k (ground arith);
    clean = λ k op from below e. clean_at k op from below e;
    count = m.count ∙ r.count;
    old = m.old;
    plain = m.plain;
  }
    where
      both :
          (v : ℕ)
          → ((h₂.values v).variant ≡ (h₁.values v).variant)
            ⊎ ((h₂.values v).variant ≡ ValueVariant.ssa)
          → ((h₁.values v).variant ≡ (h.values v).variant)
            ⊎ ((h₁.values v).variant ≡ ValueVariant.ssa)
          → ((h₂.values v).variant ≡ (h.values v).variant)
            ⊎ ((h₂.values v).variant ≡ ValueVariant.ssa)
      both v (inr ssa) other = inr ssa
      both v (inl same) (inl same') = inl (same ∙ same')
      both v (inl same) (inr ssa) = inr (same ∙ ssa)

      clean_at :
          (k : ℕ) (op : Operand)
          → i ≤ k
          → k < i + suc left
          → get_elem? (h₂.statements s).args k ≡ some op
          → test k && is_kind kind h₂ op.value ≡ false
      clean_at k op from below e = elim (Bool-cases (k == i)) [
        | inl same ↦
            let at : k ≡ i = ground arith in
            let e' : get_elem? (h₂.statements s).args i ≡ some op =
              subst (λ (x : ℕ). get_elem? (h₂.statements s).args x ≡ some op) at e in
            let first = r.clean op (sym (m.kept i (omega arith)) ∙ e') in
            subst (λ (x : ℕ). test x && is_kind kind h₂ op.value ≡ false) (sym at)
              (still_clean h₁ h₂ (test i) op.value m.kinds first)
        | inr other ↦
            let ne : k ≢ i = ground arith in
            let behind : i + 1 ≤ k = ground arith in m.clean k op behind (omega arith) e
      ]

  -- The loop over `left` operands from `i` on ends without a fault.
  pub move_loop-Moves :
      (left i temp_ctr : ℕ) (h : Heap)
      → i + left ≤ length (h.statements s).args
      → s < h.next
      → ArePlain h s
      → (r : Heap × ℕ) × (move_loop test kind left h temp_ctr block s i ≡ ok r) × Moves i left h r.0
  unfolding move_loop
  move_loop-Moves zero i temp_ctr h fits old plain = (
    (h, temp_ctr),
    refl,
    record {
      kinds = λ v. inl refl;
      kept = λ k below. refl;
      clean = λ k op from below e. absurd (omega arith);
      count = refl;
      old = old;
      plain = plain;
    },
  )
  move_loop-Moves (suc left) i temp_ctr h fits old plain =
      let (op, e) = operand_at (h.statements s).args i (omega arith) in
      let (r, run, first) = round i temp_ctr h op e (omega arith) old plain in
      let (r', run', rest) =
        move_loop-Moves left (i + 1) r.1 r.0 (omega (arith, first.count)) first.old first.plain in
      (
        r',
        loop_step left i temp_ctr h op e
            ∙ ap
                (λ (m : Run (Heap × ℕ)).
                  m >>= λ x. move_loop test kind left x.0 x.1 block s (i + 1))
                run
            ∙ run',
        joined left i h r.0 r'.0 first rest,
      )
    where
      operand_at :
          (l : List Operand) (i : ℕ) → i < length l → (op : Operand) × (get_elem? l i ≡ some op)
      operand_at [] i h = absurd (omega arith)
      operand_at (x ∷ l) zero h = (x, refl)
      operand_at (x ∷ l) (suc i) h = operand_at l i (omega arith)
