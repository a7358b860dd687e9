-- ===== src/Ir/Replace.antt =====
-- src/compiler_common.h: `block_replace_statement_val_args` puts one value in another's place, and
-- keeps the users of all values.
use bbae.Common.{
  ℕ, zero, suc, ◌+◌, ◌-◌, ◌≡◌, refl, ap, sym, ◌∙◌, true, ◌&&◌, List, [], ◌∷◌, ◌++◌, Option, none,
  some, if◌then◌else◌, ◌==◌, get_elem?, set, arith, ok,
}
use bbae.Ir.{Heap, Operand, Statement, OpVariant, update, operands_same, values_same}
use bbae.Ir.Edit.{
  keeps_edges, erase_edges, uses_value, set_edges, push_edge, set_args, replace_operand,
  any_operand_same, connect_statement_to_operand, disconnect_statement_from_operand, cut_edge,
}
use bbae.Ir.Links.{
  edge_count, use_count, IsLinked, edge_count-erase_edges, edge_count-append, use_count-set,
  use_count_pos,
}

-- The operand with the new value in the old one's place.
abbrev pub substitute : ℕ → ℕ → Operand → Operand
substitute old new_val op = if uses_value old op then record op { value = some new_val } else op

uses_value→eq :
    (old : ℕ) (op : Operand)
    → uses_value old op ≡ true
    → (op.variant ≡ OpVariant.value_op) × (op.value ≡ some old)
uses_value→eq old op h = by_fields op.variant op.value h
  where
    by_fields :
        (k : OpVariant) (o : Option ℕ)
        → uses_value old (record op { variant = k; value = o }) ≡ true
        → (k ≡ OpVariant.value_op) × (o ≡ some old)
    by_fields OpVariant.value_op (some v) h = ground arith
    by_fields OpVariant.value_op none h = cc
    by_fields OpVariant.invalid o h = cc
    by_fields OpVariant.type_op o h = cc
    by_fields OpVariant.text_op o h = cc
    by_fields OpVariant.rawinteger o h = cc
    by_fields OpVariant.separator o h = cc

-- The heap after the operand `n` of `s` was replaced.
abbrev pub cut : Heap → ℕ → ℕ → Heap
cut h s old = set_edges h old (erase_edges true s (h.values old).edges_out)

abbrev pub replaced : Heap → ℕ → ℕ → Operand → ℕ → ℕ → Heap
replaced h s n op old new_val =
    push_edge
      (set_args (cut h s old) s (set (h.statements s).args n (record op { value = some new_val })))
      s (some new_val)

same_itself :
    (h : Heap) (op : Operand) (v : ℕ)
    → op.variant ≡ OpVariant.value_op
    → op.value ≡ some v
    → operands_same h op op ≡ true
unfolding operands_same values_same
same_itself h op v k e = rw (k, e) (ground arith)

found_at :
    (h : Heap) (args : List Operand) (n : ℕ) (op op' : Operand)
    → get_elem? args n ≡ some op
    → operands_same h op' op' ≡ true
    → any_operand_same h (set args n op') op' ≡ true
unfolding any_operand_same
found_at h [] n op op' e same = cc
found_at h (a ∷ args) zero op op' e same = rw same
found_at h (a ∷ args) (suc n) op op' e same = rw (found_at h args n op op' e same) (ground arith)

connect_ok :
    (h : Heap) (s : ℕ) (op : Operand)
    → any_operand_same h (h.statements s).args op ≡ true
    → connect_statement_to_operand h s op ≡ ok (push_edge h s op.value)
unfolding connect_statement_to_operand
connect_ok h s op found = rw found

update_here : {A : Type 0} (f : ℕ → A) (k : ℕ) (v : A) → update f k v k ≡ v
update_here f k v = ground arith

disconnect_ok :
    (h : Heap) (s old : ℕ) (op : Operand)
    → op.variant ≡ OpVariant.value_op
    → op.value ≡ some old
    → disconnect_statement_from_operand h s op true ≡ ok (cut h s old)
unfolding disconnect_statement_from_operand cut_edge
disconnect_ok h s old op k e = rw (k, e)

-- One operand is replaced without a failed assertion.
pub replace_operand-ok :
    (h : Heap) (s n : ℕ) (op : Operand) (old new_val : ℕ)
    → get_elem? (h.statements s).args n ≡ some op
    → uses_value old op ≡ true
    → replace_operand h s n op old new_val ≡ ok (replaced h s n op old new_val)
unfolding replace_operand
replace_operand-ok h s n op old new_val e u =
    let (k, val) = uses_value→eq old op u in
    let op' : Operand = record op { value = some new_val } in
    let args' = set (h.statements s).args n op' in
    let h' = set_args (cut h s old) s args' in
    let here : (h'.statements s).args ≡ args' =
      ap (λ (t : Statement). t.args)
        (update_here h.statements s (record (h.statements s) { args = args' })) in
    let found : any_operand_same h' (h'.statements s).args op' ≡ true =
      rw here (found_at h' (h.statements s).args n op op' e (same_itself h' op' new_val k refl)) in
    rw (u, disconnect_ok h s old op k val) (connect_ok h' s op' found)

-- The list of users of a value, after one of the steps.
edges_cut :
    (h : Heap) (s old v : ℕ)
    → ((cut h s old).values v).edges_out
      ≡ (if v == old then erase_edges true s (h.values v).edges_out else (h.values v).edges_out)
edges_cut h s old v = ground arith

variant_cut : (h : Heap) (s old v : ℕ) → ((cut h s old).values v).variant ≡ (h.values v).variant
variant_cut h s old v = ground arith

edges_pushed :
    (h : Heap) (s w v : ℕ)
    → ((push_edge h s (some w)).values v).edges_out ≡ (
        if v == w && keeps_edges (h.values v).variant
        then (h.values v).edges_out ++ s ∷ []
        else (h.values v).edges_out)
unfolding push_edge
edges_pushed h s w v = ground arith

variant_pushed :
    (h : Heap) (s w v : ℕ) → ((push_edge h s (some w)).values v).variant ≡ (h.values v).variant
unfolding push_edge
variant_pushed h s w v = ground arith

statements_pushed : (h : Heap) (s w t : ℕ) → (push_edge h s (some w)).statements t ≡ h.statements t
unfolding push_edge
statements_pushed h s w t = ground arith

pub blocks_pushed : (h : Heap) (s w : ℕ) → (push_edge h s (some w)).blocks ≡ h.blocks
unfolding push_edge
blocks_pushed h s w = ground arith

-- How often a statement uses a value after the replacement, on both sides.
edge_count-replaced :
    (h : Heap) (s n : ℕ) (op : Operand) (old new_val t v : ℕ)
    → keeps_edges (h.values v).variant ≡ true
    → edge_count t ((replaced h s n op old new_val).values v).edges_out
      ≡ (if v == old && t == s
          then edge_count t (h.values v).edges_out - 1
          else edge_count t (h.values v).edges_out)
        + (if v == new_val && t == s then 1 else 0)
edge_count-replaced h s n op old new_val t v keeps =
    let args' = set (h.statements s).args n (record op { value = some new_val }) in
    let h' = set_args (cut h s old) s args' in
    let keeps' : keeps_edges (h'.values v).variant ≡ true = rw (variant_cut h s old v) keeps in
    rw (edges_pushed h' s new_val v, keeps', edges_cut h s old v)
      (ground (
        arith,
        edge_count-erase_edges t s (h.values v).edges_out,
        edge_count-append t s (h.values v).edges_out,
        edge_count-append t s (erase_edges true s (h.values v).edges_out),
      ))

pub statement_replaced :
    (h : Heap) (s n : ℕ) (op : Operand) (old new_val t : ℕ)
    → (replaced h s n op old new_val).statements t ≡ (
        if t == s
        then record (h.statements s) {
          args = set (h.statements s).args n (record op { value = some new_val });
        }
        else h.statements t)
statement_replaced h s n op old new_val t =
    let args' = set (h.statements s).args n (record op { value = some new_val }) in
    statements_pushed (set_args (cut h s old) s args') s new_val t

use_count-replaced :
    (args : List Operand) (n : ℕ) (op : Operand) (old new_val v : ℕ)
    → get_elem? args n ≡ some op
    → uses_value old op ≡ true
    → use_count v (set args n (record op { value = some new_val }))
      ≡ (if v == old then use_count v args - 1 else use_count v args)
        + (if v == new_val then 1 else 0)
use_count-replaced args n op old new_val v e u =
    let (k, val) = uses_value→eq old op u in
    let op' : Operand = record op { value = some new_val } in
    let before : uses_value v op ≡ (v == old) = rw (k, val) (ground arith) in
    let then' : uses_value v op' ≡ (v == new_val) = rw k (ground arith) in
    ground (arith, use_count-set v n args op op' e, use_count_pos old n args op e u)

pub replaced-IsLinked :
    (h : Heap) (s n : ℕ) (op : Operand) (old new_val : ℕ)
    → get_elem? (h.statements s).args n ≡ some op
    → uses_value old op ≡ true
    → IsLinked h s
    → (t : ℕ) → IsLinked h t
    → IsLinked (replaced h s n op old new_val) t
replaced-IsLinked h s n op old new_val e u here t there v keeps =
    let args' = set (h.statements s).args n (record op { value = some new_val }) in
    let h' = set_args (cut h s old) s args' in
    let keeps' : keeps_edges (h.values v).variant ≡ true =
      sym (ap keeps_edges (variant_pushed h' s new_val v ∙ variant_cut h s old v)) ∙ keeps in
    rw
      (
        edge_count-replaced h s n op old new_val t v keeps',
        statement_replaced h s n op old new_val t,
      )
      (ground (
        arith,
        there v keeps',
        here v keeps',
        use_count-replaced (h.statements s).args n op old new_val v e u,
      ))

pub variant_replaced :
    (h : Heap) (s n : ℕ) (op : Operand) (old new_val v : ℕ)
    → ((replaced h s n op old new_val).values v).variant ≡ (h.values v).variant
variant_replaced h s n op old new_val v =
    let args' = set (h.statements s).args n (record op { value = some new_val }) in
    variant_pushed (set_args (cut h s old) s args') s new_val v ∙ variant_cut h s old v
