-- ===== src/Optimize/Share.antt =====
-- src/bbae_optimization.h: the sharing of common subexpressions in a block ends and keeps what the
-- block does.
use bbae.Common.{
  ℕ, zero, suc, ◌+◌, ◌-◌, ◌≤◌, ◌<◌, ◌≡◌, refl, ap, sym, ◌∙◌, Bool, true, false, ◌||◌, List, Option,
  none, some, ok, ltb, leb, if◌then◌else◌, length, get_elem?, take, arith, All, All-map, Bool-cases,
  inl, inr,
}
use bbae.Ir.{
  Heap, Statement, Operand, Block, is_null, statement_has_side_effects, statement_is_terminator,
}
use bbae.Ir.Edit.{block_replace_statement_val_args}
use bbae.Ir.Links.{IsLinked}
use bbae.Ir.Substitute.{mem, Substituted, block_replace_statement_val_args-Substituted}
use bbae.Optimize.{erase_at, erase_statement, find_same, share, cse_at, cse_loop, cse_block}
use bbae.Optimize.Cse.{
  Keeps, Keeps-refl, Keeps-trans, effects, erase_at-effects, erase_at-All, length-erase_at, elem_at,
  find_same-some, both_outputs,
}

abbrev pub statements_of : Heap → ℕ → List ℕ
statements_of h b = (h.blocks b).statements

pub statements-erase_statement :
    (h : Heap) (b i : ℕ) → statements_of (erase_statement h b i) b ≡ erase_at (statements_of h b) i
statements-erase_statement h b i = ground arith

pub erase_statement-Keeps :
    (h : Heap) (b i s : ℕ)
    → get_elem? (statements_of h b) i ≡ some s
    → statement_has_side_effects (h.statements s) ≡ false
    → Keeps b h (erase_statement h b i)
erase_statement-Keeps h b i s e none_of = record {
  effects_kept =
      ap (effects h) (statements-erase_statement h b i)
      ∙ erase_at-effects h (statements_of h b) i s e none_of;
  others = λ c ne. ground arith;
  outputs = λ t. refl;
  same_effects = λ t. refl;
  linked = λ t l. l;
}

-- A statement's operands do not matter for its side effects.
effects-args :
    (t : Statement) (c : Bool) (args : List Operand)
    → statement_has_side_effects (if c then record t { args = args } else t)
      ≡ statement_has_side_effects t
unfolding statement_has_side_effects statement_is_terminator
effects-args t true args = refl
effects-args t false args = refl

output-args :
    (t : Statement) (c : Bool) (args : List Operand)
    → (if c then record t { args = args } else t).output ≡ t.output
output-args t true args = refl
output-args t false args = refl

Substituted-Keeps :
    (b old new_val : ℕ) (ss : List ℕ) (h h' : Heap) → Substituted ss old new_val h h' → Keeps b h h'
Substituted-Keeps b old new_val ss h h' d = record {
  effects_kept = rw d.blocks refl;
  others = λ c ne. rw d.blocks refl;
  outputs = λ t. rw (d.replaced t) (output-args (h.statements t) (mem t ss) _);
  same_effects = λ t. rw (d.replaced t) (effects-args (h.statements t) (mem t ss) _);
  linked = λ t l. d.linked t l;
}

-- What a round of the loop does, for a statement of the block.
record Step (b : ℕ) (h h' : Heap) (erased : Bool) : Type 0 where
  keeps : Keeps b h h'
  all_linked : All (IsLinked h') (statements_of h' b)
  count :
      length (statements_of h b)
      ≡ (if erased then suc (length (statements_of h' b)) else length (statements_of h' b))

some_of : (o : Option ℕ) → is_null o ≡ false → (v : ℕ) × (o ≡ some v)
some_of none e = cc
some_of (some v) e = (v, refl)

replaced-Step :
    (b i s old new_val : ℕ) (h h' : Heap)
    → get_elem? (statements_of h b) i ≡ some s
    → i < length (statements_of h b)
    → statement_has_side_effects (h.statements s) ≡ false
    → All (IsLinked h) (erase_at (statements_of h b) i)
    → Substituted (statements_of (erase_statement h b i) b) old new_val (erase_statement h b i) h'
    → Step b h h' true
replaced-Step b i s old new_val h h' e inside none_of linked d =
    let h₁ = erase_statement h b i in
    let same : statements_of h' b ≡ erase_at (statements_of h b) i =
      ap (λ (f : ℕ → Block). (f b).statements) d.blocks ∙ statements-erase_statement h b i in
    record {
      keeps =
          Keeps-trans b h h₁ h' (erase_statement-Keeps h b i s e none_of)
            (Substituted-Keeps b old new_val (statements_of h₁ b) h₁ h' d);
      all_linked =
          rw same (All-map {P = IsLinked h} d.linked (erase_at (statements_of h b) i) linked);
      count = rw same (sym (length-erase_at (statements_of h b) i inside));
    }

-- A statement that is the same as an earlier one is taken out.
share-Step :
    (h : Heap) (b i s prev : ℕ)
    → get_elem? (statements_of h b) i ≡ some s
    → i < length (statements_of h b)
    → statement_has_side_effects (h.statements s) ≡ false
    → is_null (h.statements s).output ≡ false
    → is_null (h.statements prev).output ≡ false
    → All (IsLinked h) (statements_of h b)
    → (h' : Heap) × (share h b i s (some prev) ≡ ok (h', true)) × Step b h h' true
share-Step h b i s prev e inside none_of has has' linked =
    let (old, eo) = some_of (h.statements s).output has in
    let (new_val, en) = some_of (h.statements prev).output has' in
    let left = erase_at-All (IsLinked h) (statements_of h b) i linked in
    let (h', run, d) =
      block_replace_statement_val_args-Substituted old new_val (erase_statement h b i) b
        (rw (statements-erase_statement h b i) left) in
    (
      h',
      runs old new_val h' eo en run,
      replaced-Step b i s old new_val h h' e inside none_of left d,
    )
  where
    runs :
        (old new_val : ℕ) (h' : Heap)
        → (h.statements s).output ≡ some old
        → (h.statements prev).output ≡ some new_val
        → block_replace_statement_val_args (erase_statement h b i) b old new_val ≡ ok h'
        → share h b i s (some prev) ≡ ok (h', true)
    runs old new_val h' eo en run = rw (eo, en, run) refl

stays : (h : Heap) (b : ℕ) → All (IsLinked h) (statements_of h b) → Step b h h false
stays h b linked = record { keeps = Keeps-refl b h; all_linked = linked; count = refl }

-- One round.
cse_at-Step :
    (h : Heap) (b i s : ℕ)
    → get_elem? (statements_of h b) i ≡ some s
    → i < length (statements_of h b)
    → All (IsLinked h) (statements_of h b)
    → (r : Heap × Bool) × (cse_at h b i s ≡ ok r) × Step b h r.0 r.1
unfolding cse_at
cse_at-Step h b i s e inside linked =
    elim (Bool-cases
      (is_null (h.statements s).output || statement_has_side_effects (h.statements s))) [
        | inl left ↦ ((h, false), rw left refl, stays h b linked)
        | inr right ↦ searched right (find_same h (take i (statements_of h b)) s) refl
      ]
  where
    searched :
        is_null (h.statements s).output || statement_has_side_effects (h.statements s) ≡ false
        → (o : Option ℕ) → find_same h (take i (statements_of h b)) s ≡ o
        → (r : Heap × Bool) × ((if is_null (h.statements s).output
                || statement_has_side_effects (h.statements s)
              then ok (h, false)
              else share h b i s (find_same h (take i (statements_of h b)) s))
            ≡ ok r)
          × Step b h r.0 r.1
    searched right none found = ((h, false), rw (right, found) refl, stays h b linked)
    searched right (some prev) found =
        let has : is_null (h.statements s).output ≡ false = ground arith in
        let none_of : statement_has_side_effects (h.statements s) ≡ false = ground arith in
        let same = find_same-some h (take i (statements_of h b)) s prev found in
        let (h', run, step) =
          share-Step h b i s prev e inside none_of has (both_outputs h prev s same has) linked in
        ((h', true), rw (right, found) run, step)

-- A block with statements, whose users are up to date.
abbrev pub IsReady : Heap → ℕ → Type 0
IsReady h b = (0 < length (statements_of h b)) × All (IsLinked h) (statements_of h b)

-- The loop ends with the fuel that its block has statements.
pub cse_loop-Keeps :
    (fuel : ℕ) (h : Heap) (b i : ℕ)
    → length (statements_of h b) ≤ fuel + i + 1
    → IsReady h b
    → (h' : Heap) × (cse_loop fuel h b i ≡ ok h') × Keeps b h h' × IsReady h' b
unfolding cse_loop
cse_loop-Keeps zero h b i enough ready =
    let stop : ltb i (length (statements_of h b) - 1) ≡ false = ground arith in
    (h, rw stop refl, Keeps-refl b h, ready)
cse_loop-Keeps (suc fuel) h b i enough ready =
    elim (Bool-cases (ltb i (length (statements_of h b) - 1))) [
      | inl go ↦
          let inside : suc i < length (statements_of h b) = ground arith in
          let (s, e) = elem_at (statements_of h b) i (omega arith) in
          let (r, run, step) = cse_at-Step h b i s e (omega arith) ready.1 in
          let (fuel_left, filled) = fits r enough inside step.count in
          let (h', run', kept, ready') =
            cse_loop-Keeps fuel r.0 b (if r.1 then i else i + 1) fuel_left
              (filled, step.all_linked) in
          (h', rw (go, e, run) run', Keeps-trans b h r.0 h' step.keeps kept, ready')
      | inr stop ↦ (h, rw stop refl, Keeps-refl b h, ready)
    ]
  where
    fits :
        (r : Heap × Bool)
        → length (statements_of h b) ≤ suc fuel + i + 1
        → suc i < length (statements_of h b)
        → length (statements_of h b)
          ≡ (if r.1 then suc (length (statements_of r.0 b)) else length (statements_of r.0 b))
        → (length (statements_of r.0 b) ≤ fuel + (if r.1 then i else i + 1) + 1)
          × (0 < length (statements_of r.0 b))
    fits r enough inside count = (ground arith, ground arith)

pub cse_block-Keeps :
    (h : Heap) (b : ℕ)
    → IsReady h b
    → (h' : Heap) × (cse_block h b ≡ ok h') × Keeps b h h' × IsReady h' b
unfolding cse_block
cse_block-Keeps h b ready =
    let filled : 0 < length (statements_of h b) = ready.0 in
    let (h', run, kept, ready') =
      cse_loop-Keeps (length (statements_of h b)) h b 1 (omega arith) ready in
    let nonempty : leb 1 (length (statements_of h b)) ≡ true = ground arith in
    elim (Bool-cases (leb (length (statements_of h b)) 2)) [
      | inl short ↦ (h, rw (nonempty, short) refl, Keeps-refl b h, ready)
      | inr long ↦ (h', rw (nonempty, long, run) refl, kept, ready')
    ]
