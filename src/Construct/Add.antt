-- ===== src/Construct/Add.antt =====
-- src/bbae_construction.h: new arguments and stack slots of functions and blocks.
use bbae.Common.{
  ℕ, ◌+◌, ◌≡◌, refl, ap, ◌∙◌, Bool, true, false, List, [], ◌∷◌, ◌++◌, Option, none, some, Run, ok,
  assert, ◌>>◌, ◌==◌, if◌then◌else◌, Bytes, str_same, str_same_refl, All, arith,
}
use bbae.Types.{IrType}
use bbae.Ir.{Heap, Value, ValueVariant, Operand, update, new_op_type, new_op_val, new_op_text}
use bbae.Ir.Edit.{set_args}
use bbae.Ir.Output.{new_value}
use bbae.Func.{Function}
use bbae.Slots.{StackSlot}
use bbae.Statics.{make_temp_name}
use bbae.Construct.{named_arg, is_arg, check_for_redefinition, assert_no_redefinition, lookup_value}
use bbae.Construct.Scope.{check_for_redefinition-IsNew, visible_args}

-- A null name is replaced by a made-up one.
abbrev pub name_or_temp : ℕ → Option Bytes → Bytes × ℕ
name_or_temp temp_ctr none = make_temp_name temp_ctr
name_or_temp temp_ctr (some name) = (name, temp_ctr)

-- `make_value`, as an argument of the name.
abbrev pub put_arg : Heap → Bytes → IrType → Heap
put_arg h name type_of = record h {
  values =
      update h.values h.next
        (record (new_value type_of) { variant = ValueVariant.arg; arg = name });
  next = h.next + 1;
}

abbrev pub set_block_args : Heap → ℕ → List ℕ → Heap
set_block_args h b args = record h {
  blocks = update h.blocks b (record (h.blocks b) { args = args });
}

-- The value, the heap, the function and the counter of made-up names.
unfoldable pub add_funcarg :
    (ℕ → StackSlot) → ℕ → Heap → Function → Option Bytes → IrType → Run (ℕ × Heap × Function × ℕ)
unfolding assert_no_redefinition
add_funcarg slots temp_ctr h func name type_of =
    let named = name_or_temp temp_ctr name in
    assert_no_redefinition slots h func none named.0
    >> ok (
      h.next,
      put_arg h named.0 type_of,
      record func { args = func.args ++ h.next ∷ [] },
      named.1,
    )

unfoldable pub add_blockarg :
    (ℕ → StackSlot) → ℕ → Heap → Function → ℕ → Option Bytes → IrType → Run (ℕ × Heap × ℕ)
unfolding assert_no_redefinition
add_blockarg slots temp_ctr h func block name type_of =
    let named = name_or_temp temp_ctr name in
    assert_no_redefinition slots h func (some block) named.0
    >> ok (
      h.next,
      set_block_args (put_arg h named.0 type_of) block ((h.blocks block).args ++ h.next ∷ []),
      named.1,
    )

-- The operands that are put behind the others of a statement.
abbrev pub push_op : Heap → ℕ → Operand → Heap
push_op h statement op = set_args h statement ((h.statements statement).args ++ op ∷ [])

unfoldable pub statement_add_type_op : Heap → ℕ → IrType → Heap
statement_add_type_op h statement type_of = push_op h statement (new_op_type type_of)

unfoldable pub statement_add_value_op : Heap → ℕ → ℕ → Heap
statement_add_value_op h statement val = push_op h statement (new_op_val val)

unfoldable pub statement_add_text_op : Heap → ℕ → Bytes → Heap
statement_add_text_op h statement text = push_op h statement (new_op_text text)

-- The value at a new address is no argument yet.
abbrev pub IsFresh : Heap → List ℕ → Type 0
IsFresh h args = All (λ (v : ℕ). (v == h.next) ≡ false) args

module _ (h h' : Heap) (name : Bytes) (v : ℕ) where
  named_arg-append :
      (args : List ℕ)
      → All (λ (a : ℕ). h'.values a ≡ h.values a) args
      → is_arg (h'.values v).variant ≡ true
      → str_same (h'.values v).arg name ≡ true
      → named_arg h args name ≡ ok none
      → named_arg h' (args ++ v ∷ []) name ≡ ok (some v)
  unfolding named_arg
  named_arg-append [] same arg named e = rw (arg, named) refl
  named_arg-append (a ∷ args) same arg named e =
      let (is, other, rest) =
        not_first (is_arg (h.values a).variant) (str_same (h.values a).arg name) a
          (named_arg h args name) e in
      rw (same.0, is, other) (named_arg-append args same.1 arg named rest)
    where
      not_first :
          (b c : Bool) (a : ℕ) (rest : Run (Option ℕ))
          → (assert b >> (if c then ok (some a) else rest)) ≡ ok none
          → (b ≡ true) × (c ≡ false) × (rest ≡ ok none)
      not_first true false a rest e = (refl, refl, e)
      not_first true true a rest e = cc
      not_first false c a rest e = cc

kept_values :
    (h : Heap) (name : Bytes) (type_of : IrType) (args : List ℕ)
    → IsFresh h args
    → All (λ (a : ℕ). (put_arg h name type_of).values a ≡ h.values a) args
kept_values h name type_of [] fresh = tt
kept_values h name type_of (a ∷ args) fresh =
    (rw fresh.0 refl, kept_values h name type_of args fresh.1)

new_value_at :
    (h : Heap) (name : Bytes) (type_of : IrType)
    → (put_arg h name type_of).values h.next
      ≡ record (new_value type_of) { variant = ValueVariant.arg; arg = name }
new_value_at h name type_of = ground arith

lookup_first :
    (slots : ℕ → StackSlot) (h : Heap) (func : Function) (b v : ℕ) (name : Bytes)
    → named_arg h (visible_args h func b) name ≡ ok (some v)
    → lookup_value slots h func b name ≡ ok v
unfolding lookup_value
lookup_first slots h func b v name e = rw e refl

-- Adding an argument of a new name to a block other than the entry block succeeds, and the name then
-- stands for the new value, where this is at an address that no argument of the block has.
pub lookup_value-add_blockarg :
    (slots : ℕ → StackSlot) (temp_ctr : ℕ) (h : Heap) (func : Function) (b : ℕ) (name : Bytes)
    (type_of : IrType)
    → check_for_redefinition slots h func (some b) name ≡ ok false
    → (b == func.entry_block) ≡ false
    → IsFresh h (h.blocks b).args
    → (r : ℕ × Heap × ℕ) × (add_blockarg slots temp_ctr h func b (some name) type_of ≡ ok r)
      × (lookup_value slots r.1 func b name ≡ ok r.0)
unfolding add_blockarg assert_no_redefinition
lookup_value-add_blockarg slots temp_ctr h func b name type_of check other fresh =
    let args = (h.blocks b).args ++ h.next ∷ [] in
    let h' = set_block_args (put_arg h name type_of) b args in
    let new = check_for_redefinition-IsNew slots h func b name check in
    let visible : visible_args h' func b ≡ args =
      rw other (new_args (put_arg h name type_of) b args) in
    let found =
      named_arg-append h h' name h.next (h.blocks b).args
        (kept_values h name type_of (h.blocks b).args fresh)
        (ap (λ (x : Value). is_arg x.variant) (new_value_at h name type_of))
        (ap (λ (x : Value). str_same x.arg name) (new_value_at h name type_of) ∙ str_same_refl name)
        new.arg in
    (
      (h.next, h', temp_ctr),
      rw check refl,
      lookup_first slots h' func b h.next name (rw visible found),
    )
  where
    new_args : (g : Heap) (b : ℕ) (args : List ℕ) → ((set_block_args g b args).blocks b).args ≡ args
    new_args g b args = ground arith
