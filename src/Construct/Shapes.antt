-- ===== src/Construct/Shapes.antt =====
-- src/bbae_construction.h: which operands an operation takes, by its name: a value, a type and a
-- value, two values or three values.
use bbae.Common.{
  ℕ, ◌≡◌, refl, inl, inr, Bool, true, false, ◌&&◌, not, List, [], ◌∷◌, Bytes, codes, str_same,
  str_same→eq, arith, Bool-cases, if◌then◌else◌, ◌+◌, ◌≤◌,
}
use bbae.Ir.Output.{is_one_of}

abbrev pub ops_v : List Bytes
ops_v =
    codes "bnot"
    ∷ codes "not"
    ∷ codes "bool"
    ∷ codes "neg"
    ∷ codes "f32_to_f64"
    ∷ codes "f64_to_f32"
    ∷ codes "freeze"
    ∷ codes "ptralias_bless"
    ∷ codes "mov"
    ∷ []

abbrev pub ops_t_v : List Bytes
ops_t_v =
    codes "load"
    ∷ codes "trim"
    ∷ codes "qext"
    ∷ codes "zext"
    ∷ codes "sext"
    ∷ codes "float_to_uint"
    ∷ codes "float_to_uint_unsafe"
    ∷ codes "uint_to_float"
    ∷ codes "float_to_sint"
    ∷ codes "float_to_sint_unsafe"
    ∷ codes "sint_to_float"
    ∷ codes "bitcast"
    ∷ []

abbrev pub ops_v_v : List Bytes
ops_v_v =
    codes "add"
    ∷ codes "sub"
    ∷ codes "mul"
    ∷ codes "imul"
    ∷ codes "div"
    ∷ codes "idiv"
    ∷ codes "rem"
    ∷ codes "irem"
    ∷ codes "div_unsafe"
    ∷ codes "idiv_unsafe"
    ∷ codes "rem_unsafe"
    ∷ codes "irem_unsafe"
    ∷ codes "shl"
    ∷ codes "shr"
    ∷ codes "shr_unsafe"
    ∷ codes "sar"
    ∷ codes "sar_unsafe"
    ∷ codes "and"
    ∷ codes "or"
    ∷ codes "xor"
    ∷ codes "cmp_eq"
    ∷ codes "cmp_ne"
    ∷ codes "cmp_ge"
    ∷ codes "cmp_le"
    ∷ codes "cmp_g"
    ∷ codes "cmp_l"
    ∷ codes "icmp_ge"
    ∷ codes "icmp_le"
    ∷ codes "icmp_g"
    ∷ codes "icmp_l"
    ∷ codes "fcmp_eq"
    ∷ codes "fcmp_ne"
    ∷ codes "fcmp_ge"
    ∷ codes "fcmp_le"
    ∷ codes "fcmp_g"
    ∷ codes "fcmp_l"
    ∷ codes "fadd"
    ∷ codes "fsub"
    ∷ codes "fmul"
    ∷ codes "fdiv"
    ∷ codes "frem"
    ∷ codes "fxor"
    ∷ codes "ptralias"
    ∷ codes "ptralias_merge"
    ∷ codes "ptralias_disjoint"
    ∷ []

abbrev pub ops_v_v_v : List Bytes
ops_v_v_v = codes "ternary" ∷ codes "inject" ∷ []

unfoldable pub op_is_v : Bytes → Bool
unfolding is_one_of
op_is_v opname = is_one_of opname ops_v

unfoldable pub op_is_t_v : Bytes → Bool
unfolding is_one_of
op_is_t_v opname = is_one_of opname ops_t_v

unfoldable pub op_is_v_v : Bytes → Bool
unfolding is_one_of
op_is_v_v opname = is_one_of opname ops_v_v

unfoldable pub op_is_v_v_v : Bytes → Bool
unfolding is_one_of
op_is_v_v_v opname = is_one_of opname ops_v_v_v

-- None of the names stands in the other list.
unfoldable all_absent : List Bytes → List Bytes → Bool
unfolding is_one_of
all_absent [] others = true
all_absent (n ∷ names) others = not (is_one_of n others) && all_absent names others

absent :
    (name : Bytes) (names others : List Bytes)
    → all_absent names others ≡ true
    → is_one_of name names ≡ true
    → is_one_of name others ≡ false
unfolding all_absent is_one_of
absent name [] others none_of here = cc
absent name (n ∷ names) others none_of here = elim (Bool-cases (str_same name n)) [
  | inl same ↦ rw (str_same→eq name n same) (ground arith)
  | inr other ↦ absent name names others (ground arith) (rw other at here)
]

-- The number of shapes that a name has.
abbrev pub shapes : Bytes → ℕ
shapes name =
    (if op_is_v name then 1 else 0)
    + (if op_is_t_v name then 1 else 0)
    + (if op_is_v_v name then 1 else 0)
    + (if op_is_v_v_v name then 1 else 0)

disjoint :
    (all_absent ops_v ops_t_v ≡ true)
    × (all_absent ops_v ops_v_v ≡ true)
    × (all_absent ops_v ops_v_v_v ≡ true)
    × (all_absent ops_t_v ops_v_v ≡ true)
    × (all_absent ops_t_v ops_v_v_v ≡ true)
    × (all_absent ops_v_v ops_v_v_v ≡ true)
unfolding all_absent is_one_of str_same
disjoint = (refl, refl, refl, refl, refl, refl)

-- No name of an operation stands in more than one of the four tables: what operands are parsed does
-- not depend on the order in which the parser asks for them.
pub shapes_once : (name : Bytes) → shapes name ≤ 1
unfolding op_is_v op_is_t_v op_is_v_v op_is_v_v_v
shapes_once name = elim (Bool-cases (is_one_of name ops_v)) [
  | inl a ↦
      rw
        (
          a,
          absent name ops_v ops_t_v disjoint.0 a,
          absent name ops_v ops_v_v disjoint.1 a,
          absent name ops_v ops_v_v_v disjoint.2 a,
        )
        (omega arith)
  | inr a ↦ elim (Bool-cases (is_one_of name ops_t_v)) [
    | inl b ↦
        rw
          (
            a,
            b,
            absent name ops_t_v ops_v_v disjoint.3 b,
            absent name ops_t_v ops_v_v_v disjoint.4 b,
          )
          (omega arith)
    | inr b ↦ elim (Bool-cases (is_one_of name ops_v_v)) [
      | inl c ↦ rw (a, b, c, absent name ops_v_v ops_v_v_v disjoint.5 c) (omega arith)
      | inr c ↦ rw (a, b, c) (ground arith)
    ]
  ]
]
