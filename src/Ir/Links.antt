-- ===== src/Ir/Links.antt =====
-- src/compiler_common.h: a value's list of users against the operands of the statements.
use bbae.Common.{
  ℕ, zero, suc, ◌+◌, ◌-◌, ◌≤◌, ◌≡◌, true, List, [], ◌∷◌, ◌++◌, some, if◌then◌else◌, ◌==◌, get_elem?,
  set, arith,
}
use bbae.Ir.{Heap, Operand}
use bbae.Ir.Edit.{keeps_edges, erase_edges, uses_value}

-- How often a statement stands in a list of users.
abbrev pub edge_count : ℕ → List ℕ → ℕ
edge_count s [] = 0
edge_count s (e ∷ edges) = let rest = edge_count s edges in if e == s then suc rest else rest

-- How many of the operands are the value.
abbrev pub use_count : ℕ → List Operand → ℕ
use_count v [] = 0
use_count v (op ∷ args) = let rest = use_count v args in if uses_value v op then suc rest else rest

-- The users of every value that keeps a list of them name the statement once for each of its
-- operands that is the value.
abbrev pub IsLinked : Heap → ℕ → Type 0
IsLinked h s =
    (v : ℕ)
    → keeps_edges (h.values v).variant ≡ true
    → edge_count s (h.values v).edges_out ≡ use_count v (h.statements s).args

pub edge_count-erase_edges :
    (s t : ℕ) (edges : List ℕ)
    → edge_count s (erase_edges true t edges)
      ≡ (if s == t then edge_count s edges - 1 else edge_count s edges)
unfolding erase_edges
edge_count-erase_edges s t [] = ground arith
edge_count-erase_edges s t (e ∷ edges) = ground (arith, edge_count-erase_edges s t edges)

pub edge_count-append :
    (s t : ℕ) (edges : List ℕ)
    → edge_count s (edges ++ t ∷ []) ≡ edge_count s edges + (if s == t then 1 else 0)
edge_count-append s t [] = ground arith
edge_count-append s t (e ∷ edges) = ground (arith, edge_count-append s t edges)

-- Writing one operand changes the count by the two operands.
pub use_count-set :
    (v n : ℕ) (args : List Operand) (op op' : Operand)
    → get_elem? args n ≡ some op
    → use_count v (set args n op') + (if uses_value v op then 1 else 0)
      ≡ use_count v args + (if uses_value v op' then 1 else 0)
use_count-set v n [] op op' e = cc
use_count-set v zero (a ∷ args) op op' e = ground arith
use_count-set v (suc n) (a ∷ args) op op' e = ground (arith, use_count-set v n args op op' e)

pub use_count_pos :
    (v n : ℕ) (args : List Operand) (op : Operand)
    → get_elem? args n ≡ some op
    → uses_value v op ≡ true
    → 1 ≤ use_count v args
use_count_pos v n [] op e u = cc
use_count_pos v zero (a ∷ args) op e u = ground arith
use_count_pos v (suc n) (a ∷ args) op e u = ground (arith, use_count_pos v n args op e u)
