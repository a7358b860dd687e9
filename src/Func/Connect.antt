-- ===== src/Func/Connect.antt =====
-- src/bbae_construction.h: `block_statements_connect` tells every value its users.
use mathlib.Core.List.{append_assoc}
use bbae.Common.{
  ℕ, ◌+◌, ◌*◌, ◌≡◌, refl, ap, sym, ◌∙◌, true, false, List, [], ◌∷◌, ◌++◌, Option, none, some,
  if◌then◌else◌, ◌==◌, arith, ok, All, Bool-cases, inl, inr, str_same_refl, subst, All-map, ==_iff,
}
use bbae.Types.{types_same}
use bbae.Ir.{Heap, Operand, OpVariant, Statement, operands_same, values_same}
use bbae.Ir.Edit.{
  keeps_edges, push_edge, any_operand_same, connect_statement_to_operand, uses_value,
}
use bbae.Ir.Links.{edge_count, use_count, edge_count-append}
use bbae.Func.{connect_operands, connect_statements}

-- An operand that is the same as itself, and that names a value only if it is a value operand.
abbrev Connectable : Operand → OpVariant → Type 0
Connectable op OpVariant.invalid = ⊥
Connectable op OpVariant.type_op = (types_same op.rawtype op.rawtype ≡ true) × (op.value ≡ none)
Connectable op OpVariant.value_op = Unit
Connectable op OpVariant.text_op = op.value ≡ none
Connectable op OpVariant.rawinteger = op.value ≡ none
Connectable op OpVariant.separator = op.value ≡ none

abbrev pub IsConnectable : Operand → Type 0
IsConnectable op = Connectable op op.variant

self_same : (h : Heap) (op : Operand) → IsConnectable op → operands_same h op op ≡ true
unfolding operands_same values_same
self_same h op c = by_variant op.variant op.value c
  where
    by_variant :
        (k : OpVariant) (o : Option ℕ)
        → Connectable op k
        → let a : Operand = record op { variant = k; value = o } in operands_same h a a ≡ true
    by_variant OpVariant.invalid o c = elim c [ ]
    by_variant OpVariant.type_op o c = c.0
    by_variant OpVariant.value_op none c = refl
    by_variant OpVariant.value_op (some v) c = ground arith
    by_variant OpVariant.text_op o c = str_same_refl op.text
    by_variant OpVariant.rawinteger o c = ground arith
    by_variant OpVariant.separator o c = refl

found_in :
    (h : Heap) (pre ops : List Operand) (op : Operand)
    → operands_same h op op ≡ true
    → any_operand_same h (pre ++ op ∷ ops) op ≡ true
unfolding any_operand_same
found_in h [] ops op same = rw same
found_in h (a ∷ pre) ops op same = ground (arith, found_in h pre ops op same)

-- The heap `h'` is `h` with `added t v` more edges to the statement `t` from the value `v`.
pub record Adds (added : ℕ → ℕ → ℕ) (h h' : Heap) : Type 0 where
  pub counts :
      (t v : ℕ)
      → keeps_edges (h.values v).variant ≡ true
      → edge_count t (h'.values v).edges_out ≡ edge_count t (h.values v).edges_out + added t v
  pub kinds : (v : ℕ) → (h'.values v).variant ≡ (h.values v).variant
  pub statements : h'.statements ≡ h.statements
  pub blocks : h'.blocks ≡ h.blocks

pub Adds-trans :
    {a b c : ℕ → ℕ → ℕ} {h h' h″ : Heap}
    → Adds a h h'
    → Adds b h' h″
    → ((t v : ℕ) → c t v ≡ a t v + b t v)
    → Adds c h h″
Adds-trans {a} {b} {c} {h} {h'} {h″} p q e = record {
  counts =
      λ t v k. omega (arith, q.counts t v (ap keeps_edges (p.kinds v) ∙ k), p.counts t v k, e t v);
  kinds = λ v. q.kinds v ∙ p.kinds v;
  statements = q.statements ∙ p.statements;
  blocks = q.blocks ∙ p.blocks;
}

pub no_edges : (h : Heap) (added : ℕ → ℕ → ℕ) → ((t v : ℕ) → added t v ≡ 0) → Adds added h h
no_edges h added e = record {
  counts = λ t v k. omega (arith, e t v);
  kinds = λ v. refl;
  statements = refl;
  blocks = refl;
}

-- One edge from the value of an operand.
abbrev one_edge : ℕ → Operand → ℕ → ℕ → ℕ
one_edge s op t v = if t == s then (if uses_value v op then 1 else 0) else 0

push_edge-Adds :
    (h : Heap) (s : ℕ) (op : Operand)
    → IsConnectable op
    → Adds (one_edge s op) h (push_edge h s op.value)
unfolding push_edge
push_edge-Adds h s op c = by_variant op.variant op.value c
  where
    by_variant :
        (k : OpVariant) (o : Option ℕ)
        → Connectable (record op { variant = k; value = o }) k
        → Adds (one_edge s (record op { variant = k; value = o })) h (push_edge h s o)
    by_variant OpVariant.invalid o c = elim c [ ]
    by_variant OpVariant.value_op (some w) c = record {
      counts = λ t v k. ground (arith, edge_count-append t s (h.values v).edges_out);
      kinds = λ v. ground arith;
      statements = ground arith;
      blocks = ground arith;
    }
    by_variant OpVariant.value_op none c = no_edges h _ (λ t v. ground arith)
    by_variant OpVariant.type_op none c = no_edges h _ (λ t v. ground arith)
    by_variant OpVariant.type_op (some w) c = cc (c.1)
    by_variant OpVariant.text_op none c = no_edges h _ (λ t v. ground arith)
    by_variant OpVariant.text_op (some w) c = cc
    by_variant OpVariant.rawinteger none c = no_edges h _ (λ t v. ground arith)
    by_variant OpVariant.rawinteger (some w) c = cc
    by_variant OpVariant.separator none c = no_edges h _ (λ t v. ground arith)
    by_variant OpVariant.separator (some w) c = cc

-- The edges from the operands of one statement.
abbrev edges_of : ℕ → List Operand → ℕ → ℕ → ℕ
edges_of s ops t v = if t == s then use_count v ops else 0

connect_ok :
    (h : Heap) (s : ℕ) (op : Operand) (pre ops : List Operand)
    → (h.statements s).args ≡ pre ++ op ∷ ops
    → IsConnectable op
    → connect_statement_to_operand h s op ≡ ok (push_edge h s op.value)
unfolding connect_statement_to_operand
connect_ok h s op pre ops at c = rw (at, found_in h pre ops op (self_same h op c))

connect_operands-Adds :
    (ops pre : List Operand) (h : Heap) (s : ℕ)
    → (h.statements s).args ≡ pre ++ ops
    → All IsConnectable ops
    → (h' : Heap) × (connect_operands h s ops ≡ ok h') × Adds (edges_of s ops) h h'
unfolding connect_operands
connect_operands-Adds [] pre h s at c = (h, refl, no_edges h (edges_of s []) (λ t v. ground arith))
connect_operands-Adds (op ∷ ops) pre h s at c =
    let first = push_edge-Adds h s op c.0 in
    let at' : ((push_edge h s op.value).statements s).args ≡ (pre ++ op ∷ []) ++ ops =
      ap (λ (f : ℕ → Statement). (f s).args) first.statements
      ∙ at
      ∙ sym (append_assoc pre (op ∷ []) ops) in
    let (h', run, rest) =
      connect_operands-Adds ops (pre ++ op ∷ []) (push_edge h s op.value) s at' c.1 in
    (h', rw (connect_ok h s op pre ops at c.0) run, Adds-trans first rest (λ t v. ground arith))

-- What a run over a list of statements adds.
abbrev pub edges_of_list : Heap → List ℕ → ℕ → ℕ → ℕ
edges_of_list h statements t v = edge_count t statements * use_count v (h.statements t).args

abbrev pub HasConnectable : Heap → ℕ → Type 0
HasConnectable h s = All IsConnectable (h.statements s).args

pub moved :
    (h h' : Heap) (ss : List ℕ)
    → h'.statements ≡ h.statements
    → All (HasConnectable h) ss
    → All (HasConnectable h') ss
moved h h' ss same c = All-map (λ s. subst (λ f. All IsConnectable (f s).args) (sym same)) ss c

pub same_uses :
    (h h' : Heap) (t v : ℕ)
    → h'.statements ≡ h.statements
    → use_count v (h'.statements t).args ≡ use_count v (h.statements t).args
same_uses h h' t v same = ap (λ (f : ℕ → Statement). use_count v (f t).args) same

list_step :
    (h : Heap) (s : ℕ) (ss : List ℕ) (t v : ℕ)
    → edge_count t (s ∷ ss) * use_count v (h.statements t).args
      ≡ edges_of s (h.statements s).args t v + edge_count t ss * use_count v (h.statements t).args
list_step h s ss t v = elim (Bool-cases (s == t)) [
  | inl here ↦
      let same : s ≡ t = (==_iff s t).0 here in
      let self : (t == t) ≡ true = ground arith in rw (same, self) (omega arith)
  | inr other ↦ let other' : (t == s) ≡ false = ground arith in rw (other, other') (omega arith)
]

pub connect_statements-Adds :
    (ss : List ℕ) (h : Heap)
    → All (HasConnectable h) ss
    → (h' : Heap) × (connect_statements h ss ≡ ok h') × Adds (edges_of_list h ss) h h'
unfolding connect_statements
connect_statements-Adds [] h c = (h, refl, no_edges h (edges_of_list h []) (λ t v. omega arith))
connect_statements-Adds (s ∷ ss) h c =
    let (h₁, run, first) = connect_operands-Adds (h.statements s).args [] h s refl c.0 in
    let (h₂, run', rest) = connect_statements-Adds ss h₁ (moved h h₁ ss first.statements c.1) in
    (
      h₂,
      step h s ss run run',
      Adds-trans first rest (λ t v.
          list_step h s ss t v
          ∙ ap (λ (u : ℕ). edges_of s (h.statements s).args t v + edge_count t ss * u)
              (sym (same_uses h h₁ t v first.statements))),
    )
  where
    step :
        (h : Heap) (s : ℕ) (ss : List ℕ) {h₁ h₂ : Heap}
        → connect_operands h s (h.statements s).args ≡ ok h₁
        → connect_statements h₁ ss ≡ ok h₂
        → connect_statements h (s ∷ ss) ≡ ok h₂
    step h s ss run run' = rw run run'

-- How often a statement stands in the blocks of a function, and in a program.
abbrev pub in_blocks : Heap → ℕ → List ℕ → ℕ
in_blocks h t [] = 0
in_blocks h t (b ∷ blocks) = edge_count t (h.blocks b).statements + in_blocks h t blocks
