-- ===== src/Optimize/Unused.antt =====
-- src/bbae_optimization.h: what the removal of statements whose output nothing uses keeps.
use bbae.Common.{
  ℕ, ◌-◌, ◌≡◌, refl, ◌∙◌, Bool, true, false, ◌||◌, not, List, [], ◌∷◌, Option, none, some, ok, ◌==◌,
  if◌then◌else◌, arith, All,
}
use bbae.Ir.{Heap, Operand, OpVariant, is_null}
use bbae.Ir.Edit.{is_value_op, erase_edges, cut_edge, set_edges, disconnect_statement_from_operand}
use bbae.Ir.Links.{edge_count, use_count, edge_count-erase_edges}
use bbae.Optimize.{disconnect_operands}

-- An operand that names a value has one.
abbrev pub has_value : OpVariant → Option ℕ → Bool
has_value k o = not (is_value_op k) || not (is_null o)

abbrev pub HasValue : Operand → Type 0
HasValue op = has_value op.variant op.value ≡ true

-- `h'` is `h` but for the users of values, where the statement `s` lost the edges for the operands.
pub record Cut (s : ℕ) (args : List Operand) (h h' : Heap) : Type 0 where
  pub counts :
      (t v : ℕ)
      → edge_count t (h'.values v).edges_out ≡ (
          if t == s
          then edge_count t (h.values v).edges_out - use_count v args
          else edge_count t (h.values v).edges_out)
  pub kinds : (v : ℕ) → (h'.values v).variant ≡ (h.values v).variant
  pub statements : h'.statements ≡ h.statements
  pub blocks : h'.blocks ≡ h.blocks

disconnect_one :
    (h : Heap) (s : ℕ) (op : Operand)
    → HasValue op
    → (h' : Heap) × (disconnect_statement_from_operand h s op true ≡ ok h') × Cut s (op ∷ []) h h'
unfolding disconnect_statement_from_operand cut_edge
disconnect_one h s op has = by_fields op.variant op.value has
  where
    unchanged :
        (k : OpVariant) (o : Option ℕ)
        → is_value_op k ≡ false
        → Cut s (record op { variant = k; value = o } ∷ []) h h
    unchanged k o e = record {
      counts = λ t v. ground arith;
      kinds = λ v. refl;
      statements = refl;
      blocks = refl;
    }

    by_fields :
        (k : OpVariant) (o : Option ℕ)
        → has_value k o ≡ true
        → (h' : Heap) × (disconnect_statement_from_operand h s
              (record op { variant = k; value = o })
              true
            ≡ ok h')
          × Cut s (record op { variant = k; value = o } ∷ []) h h'
    by_fields OpVariant.value_op (some w) has = (
      set_edges h w (erase_edges true s (h.values w).edges_out),
      refl,
      record {
        counts = λ t v. ground (arith, edge_count-erase_edges t s (h.values w).edges_out);
        kinds = λ v. ground arith;
        statements = refl;
        blocks = refl;
      },
    )
    by_fields OpVariant.value_op none has = cc
    by_fields OpVariant.invalid o has = (h, refl, unchanged OpVariant.invalid o refl)
    by_fields OpVariant.type_op o has = (h, refl, unchanged OpVariant.type_op o refl)
    by_fields OpVariant.text_op o has = (h, refl, unchanged OpVariant.text_op o refl)
    by_fields OpVariant.rawinteger o has = (h, refl, unchanged OpVariant.rawinteger o refl)
    by_fields OpVariant.separator o has = (h, refl, unchanged OpVariant.separator o refl)

pub disconnect_operands-Cut :
    (args : List Operand) (h : Heap) (s : ℕ)
    → All HasValue args
    → (h' : Heap) × (disconnect_operands h s args ≡ ok h') × Cut s args h h'
unfolding disconnect_operands
disconnect_operands-Cut [] h s has = (
  h,
  refl,
  record { counts = λ t v. ground arith; kinds = λ v. refl; statements = refl; blocks = refl },
)
disconnect_operands-Cut (op ∷ args) h s has =
    let (h₁, run, first) = disconnect_one h s op has.0 in
    let (h₂, run', rest) = disconnect_operands-Cut args h₁ s has.1 in
    (h₂, rw run run', joined op args h h₁ h₂ first rest)
  where
    joined :
        (op : Operand) (args : List Operand) (h h₁ h₂ : Heap)
        → Cut s (op ∷ []) h h₁
        → Cut s args h₁ h₂
        → Cut s (op ∷ args) h h₂
    joined op args h h₁ h₂ first rest = record {
      counts = λ t v. rw (rest.counts t v, first.counts t v) (ground arith);
      kinds = λ v. rest.kinds v ∙ first.kinds v;
      statements = rest.statements ∙ first.statements;
      blocks = rest.blocks ∙ first.blocks;
    }
