-- ===== src/Regalloc/Rules.antt =====
-- src/x86/regalloc_x86.h: the registers that an instruction needs.
use bbae.Common.{
  ℕ, ◌≡◌, refl, ◌⊎◌, inl, inr, Bool, true, false, ◌||◌, List, [], ◌∷◌, Option, none, some, Run,
  Fault, ok, fault, assertion, ◌>>=◌, if◌then◌else◌, ◌==◌, ltb, codes, get_elem?, Bytes, Bool-cases,
}
use bbae.Types.{IrType, TypeVariant, type_is_int, type_is_float, ◌is_variant◌}
use bbae.Ir.{Heap, Value, Operand, Statement}
use bbae.Ir.Output.{is_one_of}
use bbae.Abi.{Abi, clobbers, abi_get_clobber_mask}
use bbae.Regalloc.{Mask}
use bbae.Regalloc.Uses.{is_const}

pub record RegAllocRules : Type 0 where
  pub allowed_output_registers : Mask
  pub clobbered_registers : Mask
  pub is_special : Bool

-- `1 << reg`
abbrev pub only : ℕ → Mask
only reg n = n == reg

abbrev pub no_register : Mask
no_register n = false

-- `0xFFFFFFFF`
abbrev pub first_32 : Mask
first_32 n = ltb n 32

-- The type of a statement's output, and the value of its first operand.
abbrev pub output_of : Heap → Option ℕ → Run IrType
output_of h none = fault Fault.undefined
output_of h (some v) = ok (h.values v).type_of

abbrev pub operand_value : Option Operand → Run (Option ℕ)
operand_value none = fault Fault.undefined
operand_value (some op) = ok op.value

abbrev pub deref : Heap → Option ℕ → Run Value
deref h none = fault Fault.undefined
deref h (some v) = ok (h.values v)

abbrev pub divisions : List Bytes
divisions = codes "div" ∷ codes "idiv" ∷ []

abbrev pub remainders : List Bytes
remainders = codes "rem" ∷ codes "irem" ∷ []

abbrev pub shifts : List Bytes
shifts = codes "shl" ∷ codes "shr" ∷ codes "sar" ∷ codes "shr_unsafe" ∷ codes "sar_unsafe" ∷ []

abbrev pub call_names : List Bytes
call_names = codes "call" ∷ codes "call_eval" ∷ []

-- RAX, RCX and RDX are 0, 1 and 2; XMM0 is 16.
abbrev pub div_rules : IrType → RegAllocRules
div_rules t = record {
  allowed_output_registers = only 0;
  clobbered_registers =
      if t.variant is_variant TypeVariant.i8 then only 0 else λ n. n == 0 || n == 2;
  is_special = true;
}

abbrev pub rem_rules : IrType → RegAllocRules
rem_rules t =
    if t.variant is_variant TypeVariant.i8
    then record {
      allowed_output_registers = only 0;
      clobbered_registers = only 0;
      is_special = true;
    }
    else record {
      allowed_output_registers = only 2;
      clobbered_registers = λ n. n == 0 || n == 2;
      is_special = true;
    }

abbrev pub default_rules : RegAllocRules
default_rules = record {
  allowed_output_registers = first_32;
  clobbered_registers = no_register;
  is_special = false;
}

abbrev pub shift_rules : Value → RegAllocRules
shift_rules v = if is_const v.variant then default_rules else record {
  allowed_output_registers = first_32;
  clobbered_registers = only 1;
  is_special = true;
}

abbrev pub returned_in : Abi → ℕ → RegAllocRules
returned_in abi reg = record {
  allowed_output_registers = only reg;
  clobbered_registers = clobbers abi;
  is_special = true;
}

abbrev pub call_rules : Abi → IrType → Run RegAllocRules
call_rules abi t =
    if type_is_int t
    then ok (returned_in abi 0)
    else if type_is_float t
    then ok (returned_in abi 16)
    else fault assertion

unfoldable pub regalloc_rule_determiner : Abi → Heap → Statement → Run RegAllocRules
unfolding is_one_of ◌is_variant◌
regalloc_rule_determiner abi h statement =
    let divided = output_of h statement.output >>= λ t. ok (div_rules t) in
    let rest = output_of h statement.output >>= λ t. ok (rem_rules t) in
    let shifted =
      operand_value (get_elem? statement.args 0) >>= λ o. deref h o >>= λ v. ok (shift_rules v) in
    let called = output_of h statement.output >>= λ t. call_rules abi t in
    if is_one_of statement.statement_name divisions
    then divided
    else if is_one_of statement.statement_name remainders
    then rest
    else if is_one_of statement.statement_name shifts
    then shifted
    else if is_one_of statement.statement_name call_names
    then called
    else ok default_rules

-- What the rules can be: nothing special; a shift, which may put its output anywhere and needs RCX;
-- or one register for the output, among those that do not survive.
abbrev pub IsRule : RegAllocRules → Type 0
IsRule r =
    (r ≡ default_rules)
    ⊎ ((r.is_special ≡ true)
        × (r.allowed_output_registers ≡ first_32)
        × (r.clobbered_registers ≡ only 1))
    ⊎ ((r.is_special ≡ true)
        × (reg : ℕ) × (r.allowed_output_registers ≡ only reg)
        × (r.clobbered_registers reg ≡ true))

div-IsRule : (t : IrType) → IsRule (div_rules t)
div-IsRule t = inr (inr (refl, 0, refl, by_size (t.variant is_variant TypeVariant.i8)))
  where
    by_size : (b : Bool) → (if b then only 0 else λ n. n == 0 || n == 2) 0 ≡ true
    by_size true = refl
    by_size false = refl

rem-IsRule : (t : IrType) → IsRule (rem_rules t)
rem-IsRule t = by_size (t.variant is_variant TypeVariant.i8)
  where
    by_size :
        (b : Bool)
        → IsRule (
            if b
            then record {
              allowed_output_registers = only 0;
              clobbered_registers = only 0;
              is_special = true;
            }
            else record {
              allowed_output_registers = only 2;
              clobbered_registers = λ n. n == 0 || n == 2;
              is_special = true;
            })
    by_size true = inr (inr (refl, 0, refl, refl))
    by_size false = inr (inr (refl, 2, refl, refl))

shift-IsRule : (v : Value) → IsRule (shift_rules v)
shift-IsRule v = elim (Bool-cases (is_const v.variant)) [
  | inl const ↦ rw const (inl refl)
  | inr other ↦ rw other (inr (inl (refl, refl, refl)))
]

rax_clobbered : (abi : Abi) → clobbers abi 0 ≡ true
unfolding clobbers abi_get_clobber_mask
rax_clobbered Abi.win = refl
rax_clobbered Abi.sysv = refl

xmm0_clobbered : (abi : Abi) → clobbers abi 16 ≡ true
unfolding clobbers abi_get_clobber_mask
xmm0_clobbered Abi.win = refl
xmm0_clobbered Abi.sysv = refl

call-IsRule :
    (abi : Abi) (t : IrType)
    → type_is_int t || type_is_float t ≡ true
    → (r : RegAllocRules) × (call_rules abi t ≡ ok r) × IsRule r
call-IsRule abi t basic = elim (Bool-cases (type_is_int t)) [
  | inl int ↦ (returned_in abi 0, rw int refl, inr (inr (refl, 0, refl, rax_clobbered abi)))
  | inr other ↦
      let float : type_is_float t ≡ true = rw other at basic in
      (returned_in abi 16, rw (other, float) refl, inr (inr (refl, 16, refl, xmm0_clobbered abi)))
]

-- For a statement with an output of an integer or float type whose first operand has a value, the
-- rules are found, and are one of these: nothing special; an output anywhere, with RCX lost; or one
-- register for the output, which is among the registers that are lost.
pub regalloc_rule_determiner-IsRule :
    (abi : Abi) (h : Heap) (statement : Statement) (out v : ℕ) (op : Operand)
    → statement.output ≡ some out
    → type_is_int (h.values out).type_of || type_is_float (h.values out).type_of ≡ true
    → get_elem? statement.args 0 ≡ some op
    → op.value ≡ some v
    → (r : RegAllocRules) × (regalloc_rule_determiner abi h statement ≡ ok r) × IsRule r
unfolding regalloc_rule_determiner
regalloc_rule_determiner-IsRule abi h statement out v op e basic first has =
    elim (Bool-cases (is_one_of statement.statement_name divisions)) [
      | inl d ↦ (div_rules t, rw (d, e) refl, div-IsRule t)
      | inr d ↦ elim (Bool-cases (is_one_of statement.statement_name remainders)) [
        | inl r ↦ (rem_rules t, rw (d, r, e) refl, rem-IsRule t)
        | inr r ↦ elim (Bool-cases (is_one_of statement.statement_name shifts)) [
          | inl s ↦
              (shift_rules (h.values v), rw (d, r, s, first, has) refl, shift-IsRule (h.values v))
          | inr s ↦ elim (Bool-cases (is_one_of statement.statement_name call_names)) [
            | inl c ↦
                let (rules, run, rule) = call-IsRule abi t basic in
                (rules, rw (d, r, s, c, e) run, rule)
            | inr c ↦ (default_rules, rw (d, r, s, c) refl, inl refl)
          ]
        ]
      ]
    ]
  where
    t : IrType
    t = (h.values out).type_of
