-- ===== src/Optimize/Remap.antt =====
-- src/bbae_optimization.h: `_remap_args`. A jump to a block of a single `goto` passes the same values on
-- when it goes to that one's target with the remapped operands.
use bbae.Common.{
  ℕ, ◌≤◌, ◌≡◌, refl, sym, ap, ◌∙◌, inl, inr, true, false, List, [], ◌∷◌, ◌++◌, Option, none, some,
  Fault, ok, fault, ◌==◌, if◌then◌else◌, length, arith, Bool-cases, All,
}
use bbae.Ir.{Operand}
use bbae.Ir.Substitute.{mem}
use bbae.Func.{is_separator}
use bbae.Optimize.Blocks.{entry_for, remap_operands, remap_args}

-- What an operand passes on: the value's content, or what the operand itself stands for.
module _ {ℓ} {A : Type ℓ} (itself : Operand → A) where
  abbrev pub read : (ℕ → A) → Operand → Option ℕ → A
  read env op none = itself op
  read env op (some v) = env v

  abbrev pub passes : (ℕ → A) → Operand → A
  passes env op = read env op op.value

  abbrev pub all_pass : (ℕ → A) → List Operand → List A
  all_pass env [] = []
  all_pass env (op ∷ args) = passes env op ∷ all_pass env args

-- The contents of the values inside a block: its arguments hold what was passed to them.
abbrev pub bound {ℓ} : {A : Type ℓ} → (ℕ → A) → List ℕ → List A → ℕ → A
bound env [] passed v = env v
bound env (arg ∷ block_args) [] v = env v
bound env (arg ∷ block_args) (x ∷ passed) v = if v == arg then x else bound env block_args passed v

abbrev pub IsArgument : List ℕ → Operand → Type 0
IsArgument block_args op = (v : ℕ) × (op.value ≡ some v) × (mem v block_args ≡ true)

abbrev pub IsNoSeparator : Operand → Type 0
IsNoSeparator op = is_separator op.variant ≡ false

module _ {ℓ} {A : Type ℓ} (itself : Operand → A) (env : ℕ → A) where
  found_entry :
      (v : ℕ) (block_args : List ℕ) (entry_args : List Operand)
      → mem v block_args ≡ true
      → length block_args ≤ length entry_args
      → All IsNoSeparator entry_args
      → (op : Operand) × (entry_for (some v) block_args entry_args ≡ ok (some op))
        × IsNoSeparator op
        × (passes itself env op ≡ bound env block_args (all_pass itself env entry_args) v)
  unfolding entry_for
  found_entry v [] entry_args among enough plain = cc
  found_entry v (arg ∷ block_args) [] among enough plain = absurd (omega arith)
  found_entry v (arg ∷ block_args) (op ∷ entry_args) among enough (p, plain) =
      elim (Bool-cases (v == arg)) [
        | inl same ↦ (op, rw same refl, p, rw same refl)
        | inr ne ↦
            let (op', found, p', value) =
              found_entry v block_args entry_args (ground arith) (omega arith) plain in
            (op', rw ne found, p', rw ne value)
      ]

  remapped_one :
      (block_args : List ℕ) (exit_op : Operand) (exit_args entry_args : List Operand) (v : ℕ)
      (op : Operand) (ops : List Operand)
      → exit_op.value ≡ some v
      → entry_for (some v) block_args entry_args ≡ ok (some op)
      → IsNoSeparator op
      → remap_operands block_args exit_args entry_args ≡ ok ops
      → remap_operands block_args (exit_op ∷ exit_args) entry_args ≡ ok (op ∷ ops)
  unfolding remap_operands
  remapped_one block_args exit_op exit_args entry_args v op ops is_v found plain rest =
      rw (is_v, found, plain, rest) refl

  remaps :
      (block_args : List ℕ) (exit_args entry_args : List Operand)
      → All (IsArgument block_args) exit_args
      → length block_args ≤ length entry_args
      → All IsNoSeparator entry_args
      → (ops : List Operand) × (remap_operands block_args exit_args entry_args ≡ ok ops)
        × (all_pass itself env ops
            ≡ all_pass itself (bound env block_args (all_pass itself env entry_args)) exit_args)
  unfolding remap_operands
  remaps block_args [] entry_args arguments enough plain = ([], refl, refl)
  remaps block_args (exit_op ∷ exit_args) entry_args ((v, is_v, among), arguments) enough plain =
      let (op, found, p, value) = found_entry v block_args entry_args among enough plain in
      let (ops, rest, values) = remaps block_args exit_args entry_args arguments enough plain in
      let inner = bound env block_args (all_pass itself env entry_args) in
      (
        op ∷ ops,
        remapped_one block_args exit_op exit_args entry_args v op ops is_v found p rest,
        ap (λ x. x ∷ all_pass itself env ops) (value ∙ ap (read itself inner exit_op) (sym is_v))
            ∙ ap (λ l. passes itself inner exit_op ∷ l) values,
      )

  -- Where the operands of the `goto` in the block are arguments of it, and the jump to the block has as
  -- many operands and no separator among them, no assertion fails, the label is the one of the `goto`,
  -- and the remapped operands pass on what the `goto` passes on from inside the block.
  pub remap_args-passes :
      (block_args : List ℕ) (label : Operand) (exit_args entry_args : List Operand)
      → All (IsArgument block_args) exit_args
      → length block_args ≤ length entry_args
      → All IsNoSeparator entry_args
      → (ops : List Operand) × (remap_args block_args (label ∷ exit_args) entry_args
          ≡ ok (label ∷ ops))
        × (all_pass itself env ops
            ≡ all_pass itself (bound env block_args (all_pass itself env entry_args)) exit_args)
  unfolding remap_args
  remap_args-passes block_args label exit_args entry_args arguments enough plain =
      let (ops, run, values) = remaps block_args exit_args entry_args arguments enough plain in
      (ops, rw run refl, values)

off_both :
    (v arg : ℕ) (block_args : List ℕ)
    → mem v (arg ∷ block_args) ≡ false
    → ((v == arg) ≡ false) × (mem v block_args ≡ false)
off_both v arg block_args off = (ground arith, ground arith)

only :
    (v : ℕ) (block_args : List ℕ)
    → mem v block_args ≡ false
    → (w : ℕ) → some v ≡ some w
    → mem w block_args ≡ false
only v block_args off w e = let same : v ≡ w = cc in rw (← same) off

not_found :
    (value : Option ℕ) (block_args : List ℕ) (entry_args : List Operand)
    → ((v : ℕ) → value ≡ some v → mem v block_args ≡ false)
    → entry_for value block_args entry_args ≡ ok none
unfolding entry_for
not_found none [] entry_args off = refl
not_found none (arg ∷ block_args) [] off = not_found none block_args [] (λ v e. cc)
not_found none (arg ∷ block_args) (op ∷ entry_args) off =
    not_found none block_args entry_args (λ v e. cc)
not_found (some v) [] entry_args off = refl
not_found (some v) (arg ∷ block_args) [] off =
    let (ne, later) = off_both v arg block_args (off v refl) in
    rw ne (not_found (some v) block_args [] (only v block_args later))
not_found (some v) (arg ∷ block_args) (op ∷ entry_args) off =
    let (ne, later) = off_both v arg block_args (off v refl) in
    rw ne (not_found (some v) block_args entry_args (only v block_args later))

stops_at :
    (block_args : List ℕ) (bad : Operand) (rest entry_args : List Operand)
    → entry_for bad.value block_args entry_args ≡ ok none
    → remap_operands block_args (bad ∷ rest) entry_args ≡ fault Fault.assertion
unfolding remap_operands
stops_at block_args bad rest entry_args missing = rw missing refl

passes_on :
    (block_args : List ℕ) (exit_op : Operand) (exit_args entry_args : List Operand) (v : ℕ)
    (op : Operand)
    → exit_op.value ≡ some v
    → entry_for (some v) block_args entry_args ≡ ok (some op)
    → IsNoSeparator op
    → remap_operands block_args exit_args entry_args ≡ fault Fault.assertion
    → remap_operands block_args (exit_op ∷ exit_args) entry_args ≡ fault Fault.assertion
unfolding remap_operands
passes_on block_args exit_op exit_args entry_args v op is_v found plain rest =
    rw (is_v, found, plain, rest) refl

operands_assert :
    (block_args : List ℕ) (before : List Operand) (bad : Operand) (rest entry_args : List Operand)
    → All (IsArgument block_args) before
    → length block_args ≤ length entry_args
    → All IsNoSeparator entry_args
    → ((v : ℕ) → bad.value ≡ some v → mem v block_args ≡ false)
    → remap_operands block_args (before ++ bad ∷ rest) entry_args ≡ fault Fault.assertion
operands_assert block_args [] bad rest entry_args arguments enough plain off =
    stops_at block_args bad rest entry_args (not_found bad.value block_args entry_args off)
operands_assert block_args (op ∷ before) bad rest entry_args ((v, is_v, among), arguments) enough
      plain off =
    let (op', found, p, _) =
      found_entry {A = ℕ} (λ o. 0) (λ x. 0) v block_args entry_args among enough plain in
    passes_on block_args op (before ++ bad ∷ rest) entry_args v op' is_v found p
      (operands_assert block_args before bad rest entry_args arguments enough plain off)

-- Where the jump to the block has enough operands and no separator among them, but some operand of the
-- `goto` in the block is a value from elsewhere, or no value at all, an assertion fails.
pub remap_args-assertion :
    (block_args : List ℕ) (label : Operand) (before : List Operand) (bad : Operand)
    (rest entry_args : List Operand)
    → All (IsArgument block_args) before
    → length block_args ≤ length entry_args
    → All IsNoSeparator entry_args
    → ((v : ℕ) → bad.value ≡ some v → mem v block_args ≡ false)
    → remap_args block_args (label ∷ (before ++ bad ∷ rest)) entry_args ≡ fault Fault.assertion
unfolding remap_args
remap_args-assertion block_args label before bad rest entry_args arguments enough plain off =
    rw (operands_assert block_args before bad rest entry_args arguments enough plain off) refl
