-- ===== src/Regalloc/Chosen.antt =====
-- src/x86/regalloc_x86.h: the register that `regalloc_block_args` chooses for an argument is free.
use bbae.Common.{
  ℕ, ◌+◌, ◌≡◌, refl, ap, ◌∙◌, subst, inl, inr, Bool, true, false, not, List, [], ◌∷◌, Option, none,
  some, Fault, ok, fault, assert, ◌>>=◌, ◌>>◌, ltb, if◌then◌else◌, length, codes, str_same,
  Bool-cases, some_injective,
}
use bbae.Types.{type_is_float}
use bbae.Ir.{Heap, Operand}
use bbae.Func.{find_separator_index}
use bbae.Abi.{Abi}
use bbae.Regalloc.{RegState, first_empty, type_is_intreg}
use bbae.Regalloc.Blocks.{
  reg_of_operand, second_label, is_zero, or_second, if_same, reg_of_entry, reg_of_entries,
  add_sixteen, reg_for_type, where_found, reg_of_block_arg,
}
use bbae.Regalloc.Free.{
  IsEmptyAt, bind_ok, ok_injective, operand_free, low_half, first_empty_free, upper, back,
  where_lem, fault_not_ok, or_second_lem, if_same_lem,
}

module _ (abi : Abi) (performs_calls : Bool) (same_text : ℕ → ℕ → Bool) (h : Heap)
    (s : RegState) where
  branch_free :
      (args : List Operand) (i entry r : ℕ) (separator_pos : Option ℕ)
      → (if_same (same_text entry 1) (reg_of_operand s args (i + 2)) >>= λ first. or_second first (
          assert (not (is_zero separator_pos))
          >> if_same (same_text entry (second_label separator_pos)) (
              assert (ltb (i + second_label separator_pos + 1) (length args))
              >> reg_of_operand s args (i + second_label separator_pos + 1))))
        ≡ ok (some r)
      → IsEmptyAt s r
  branch_free args i entry r separator_pos e =
      let at = second_label separator_pos in
      let second =
        if_same (same_text entry at)
          (assert (ltb (i + at + 1) (length args)) >> reg_of_operand s args (i + at + 1)) in
      let (first, is_first, further) =
        bind_ok (if_same (same_text entry 1) (reg_of_operand s args (i + 2)))
          (λ first. or_second first (assert (not (is_zero separator_pos)) >> second)) e in
      or_second_lem (IsEmptyAt s) first (assert (not (is_zero separator_pos)) >> second) r further
        (λ x is_x. operand_free s args (i + 2) x (
          if_same_lem (same_text entry 1) (reg_of_operand s args (i + 2)) x
            (is_first ∙ ap ok is_x)))
        (λ other.
          operand_free s args (i + at + 1) r
            (bind_ok (assert (ltb (i + at + 1) (length args)))
              (λ u. reg_of_operand s args (i + at + 1))
              (if_same_lem (same_text entry at)
                (assert (ltb (i + at + 1) (length args)) >> reg_of_operand s args (i + at + 1)) r
                (bind_ok (assert (not (is_zero separator_pos))) (λ u. second) other).2)).2)

  entry_free :
      (i entry r : ℕ)
      → reg_of_entry abi performs_calls same_text h s i entry ≡ ok (some r)
      → IsEmptyAt s r
  unfolding reg_of_entry
  entry_free i entry r e =
      let args = (h.statements entry).args in
      elim (Bool-cases (str_same (h.statements entry).statement_name (codes "goto"))) [
        | inl jump ↦ operand_free s args (i + 1) r (rw jump at e)
        | inr other ↦
            elim (Bool-cases (str_same (h.statements entry).statement_name (codes "if"))) [
              | inl branch ↦
                  branch_free args i entry r (find_separator_index args) (rw (other, branch) at e)
              | inr neither ↦ absurd (fault_not_ok (rw (other, neither) at e))
            ]
      ]

  entries_free :
      (i : ℕ) (edges : List ℕ) (r : ℕ)
      → reg_of_entries abi performs_calls same_text h s i edges ≡ ok (some r)
      → IsEmptyAt s r
  unfolding reg_of_entries
  entries_free i [] r e = cc
  entries_free i (entry ∷ edges) r e =
      let rest = reg_of_entries abi performs_calls same_text h s i edges in
      let (found, is_found, further) =
        bind_ok (reg_of_entry abi performs_calls same_text h s i entry)
          (λ found. or_second found rest) e in
      or_second_lem (IsEmptyAt s) found rest r further
        (λ x is_x. entry_free i entry x (is_found ∙ ap ok is_x))
        (λ other. entries_free i edges r other)

  float_free :
      (o : Option ℕ) (r : ℕ)
      → first_empty abi s.reg_float_alloced 16 low_half performs_calls true ≡ o
      → add_sixteen abi performs_calls same_text h o ≡ some r
      → IsEmptyAt s r
  float_free none r found e = cc
  float_free (some n) r found e =
      let (low, at) = first_empty_free abi s.reg_float_alloced performs_calls true n found in
      subst (IsEmptyAt s) (some_injective e) (rw (upper n, back n) at)

  by_class :
      (is_int is_float : Bool) (r : ℕ)
      → (if is_int
          then ok (first_empty abi s.reg_int_alloced 16 low_half performs_calls false)
          else if is_float
          then ok (
              add_sixteen abi performs_calls same_text h
                (first_empty abi s.reg_float_alloced 16 low_half performs_calls true))
          else fault Fault.assertion)
        ≡ ok (some r)
      → IsEmptyAt s r
  by_class true is_float r e =
      let (low, at) =
        first_empty_free abi s.reg_int_alloced performs_calls false r (ok_injective e) in
      rw low at
  by_class false true r e =
      float_free (first_empty abi s.reg_float_alloced 16 low_half performs_calls true) r refl
        (ok_injective e)
  by_class false false r e = absurd (fault_not_ok e)

  type_free :
      (value r : ℕ)
      → reg_for_type abi performs_calls same_text h s value ≡ ok (some r)
      → IsEmptyAt s r
  unfolding reg_for_type
  type_free value r e =
      let type_of = (h.values value).type_of in
      let floats = ok (
        add_sixteen abi performs_calls same_text h
          (first_empty abi s.reg_float_alloced 16 low_half performs_calls true)) in
      let (is_int, tested, further) =
        bind_ok (type_is_intreg type_of)
          (λ is_int.
            if is_int
            then ok (first_empty abi s.reg_int_alloced 16 low_half performs_calls false)
            else if type_is_float type_of
            then floats
            else fault Fault.assertion)
          e in
      by_class is_int (type_is_float type_of) r further

  pub arg_free :
      (i : ℕ) (edges : List ℕ) (value r : ℕ)
      → reg_of_block_arg abi performs_calls same_text h s i edges value ≡ ok r
      → IsEmptyAt s r
  unfolding reg_of_block_arg
  arg_free i edges value r e =
      let other = reg_for_type abi performs_calls same_text h s value in
      let (found, is_found, inner) =
        bind_ok (reg_of_entries abi performs_calls same_text h s i edges)
          (λ found. or_second found other >>= where_found abi performs_calls same_text h) e in
      let (o, chosen, is_r) =
        bind_ok (or_second found other) (where_found abi performs_calls same_text h) inner in
      or_second_lem (IsEmptyAt s) found other r
        (chosen ∙ ap ok (where_lem abi performs_calls same_text h o r is_r))
        (λ x is_x. entries_free i edges x (is_found ∙ ap ok is_x))
        (λ second. type_free value r second)
