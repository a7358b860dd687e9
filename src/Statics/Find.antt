-- ===== src/Statics/Find.antt =====
-- src/compiler_common.h: statics are found by their names and by their values.
use mathlib.Core.List.{append-nil}
use bbae.Common.{
  ℕ, ◌%◌, ◌≡◌, ◌≢◌, refl, ap, sym, ◌∙◌, true, false, List, [], ◌∷◌, ◌++◌, Option, some, none, fault,
  Bytes, arith, All, Bool-cases, inl, inr, if◌then◌else◌, str_same, str_same→eq, str_same_refl, Run,
  ok, ◌>>=◌, ◌==◌, ==_iff, subst,
}
use bbae.Types.{IrType, TypeVariant, basic_type, types_same, type_is_agg, type_is_basic}
use bbae.Types.Same.{is_variant→eq}
use bbae.Statics.{
  StaticData, Program, find_static_by_value, find_static, add_static, add_static_anonymous,
  name_or_new, make_temp_name,
}

-- No two statics have the same name.
abbrev pub IsUnused : Bytes → List StaticData → Type 0
IsUnused name statics = All (λ s. s.name ≢ name) statics

abbrev pub HasUniqueNames : List StaticData → Type 0
HasUniqueNames [] = Unit
HasUniqueNames (s ∷ statics) = IsUnused s.name statics × HasUniqueNames statics

types_same-variant :
    (t : IrType) (v : TypeVariant) → types_same t (basic_type v) ≡ true → t.variant ≡ v
unfolding types_same
types_same-variant t v h = ground (arith, is_variant→eq t.variant v)

basic_no_agg : (t : IrType) → type_is_basic t ≡ true → type_is_agg t ≡ false
unfolding type_is_basic type_is_agg
basic_no_agg t h = ground arith

no_agg :
    (t : IrType) (v : TypeVariant)
    → type_is_basic (basic_type v) ≡ true
    → t.variant ≡ v
    → type_is_agg t ≡ false
unfolding type_is_basic
no_agg t v basic e = basic_no_agg t (rw e basic)

str_differ : (a b : Bytes) → a ≢ b → str_same a b ≡ false
str_differ a b ne = ground (arith, str_same→eq a b)

-- The static that a name finds has that name, and whatever all statics have.
pub find_static-All :
    (P : StaticData → Type 0) (statics : List StaticData) (name : Bytes) (d : StaticData)
    → find_static statics name ≡ some d
    → All P statics
    → P d × (d.name ≡ name)
unfolding find_static
find_static-All P [] name d e h = cc
find_static-All P (s ∷ statics) name d e h = elim (Bool-cases (str_same s.name name)) [
  | inl same ↦
      let here : s ≡ d = ground arith in
      (
        subst (λ x. P x) here h.0,
        ap (λ (x : StaticData). x.name) (sym here) ∙ str_same→eq s.name name same,
      )
  | inr other ↦ find_static-All P statics name d (rw other at e) h.1
]

-- What a search by value may give: nothing, or the name of a static of the type and the value.
abbrev pub HoldsValue : TypeVariant → ℕ → StaticData → Type 0
HoldsValue v w d = (d.type_of.variant ≡ v) × (d.init_data_short ≡ w)

abbrev pub Found : List StaticData → TypeVariant → ℕ → Run (Option Bytes) → Type 0
Found statics v w (ok none) = Unit
Found statics v w (ok (some name)) =
    (d : StaticData) × (find_static statics name ≡ some d) × HoldsValue v w d
Found statics v w (fault e) = ⊥

module _ (data_at : ℕ → Bytes) (v : TypeVariant) (w : ℕ) where
  later :
      (s : StaticData) (statics : List StaticData) (r : Run (Option Bytes))
      → IsUnused s.name statics
      → Found statics v w r
      → Found (s ∷ statics) v w r
  unfolding find_static
  later s statics (ok none) unused f = tt
  later s statics (fault _) unused f = elim f [ ]
  later s statics (ok (some name)) unused (d, at, holds) =
      let (ne, is_name) = find_static-All (λ x. x.name ≢ s.name) statics name d at unused in
      (d, rw (str_differ s.name name (λ e. ne (is_name ∙ sym e))) at, holds)

  here :
      (s : StaticData) (statics : List StaticData)
      → HoldsValue v w s
      → Found (s ∷ statics) v w (ok (some s.name))
  unfolding find_static
  here s statics holds = (s, rw (str_same_refl s.name) refl, holds)

  by_value_other :
      (s : StaticData) (statics : List StaticData)
      → types_same s.type_of (basic_type v) ≡ false
      → find_static_by_value data_at (s ∷ statics) (basic_type v) w true
        ≡ find_static_by_value data_at statics (basic_type v) w true
  unfolding find_static_by_value
  by_value_other s statics e = rw e

  by_value_typed :
      (s : StaticData) (statics : List StaticData)
      → types_same s.type_of (basic_type v) ≡ true
      → type_is_agg s.type_of ≡ false
      → find_static_by_value data_at (s ∷ statics) (basic_type v) w true ≡ (
          if s.init_data_short == w
          then ok (some s.name)
          else find_static_by_value data_at statics (basic_type v) w true)
  unfolding find_static_by_value
  by_value_typed s statics e plain = rw (e, plain)

  find_static_by_value-Found :
      (statics : List StaticData)
      → type_is_basic (basic_type v) ≡ true
      → HasUniqueNames statics
      → Found statics v w (find_static_by_value data_at statics (basic_type v) w true)
  unfolding find_static_by_value
  find_static_by_value-Found [] basic unique = tt
  find_static_by_value-Found (s ∷ statics) basic unique =
      let rest = find_static_by_value-Found statics basic unique.1 in
      let r = find_static_by_value data_at statics (basic_type v) w true in
      elim (Bool-cases (types_same s.type_of (basic_type v))) [
        | inr other ↦ rw (by_value_other s statics other) (later s statics r unique.0 rest)
        | inl typed ↦
            let variant = types_same-variant s.type_of v typed in
            elim (Bool-cases (s.init_data_short == w)) [
              | inl same ↦
                  rw (by_value_typed s statics typed (no_agg s.type_of v basic variant), same)
                    (here s statics (variant, (==_iff s.init_data_short w).0 same))
              | inr differs ↦
                  rw (by_value_typed s statics typed (no_agg s.type_of v basic variant), differs)
                    (later s statics r unique.0 rest)
            ]
      ]

-- Adding behind the statics.
find_static-append :
    (statics : List StaticData) (s : StaticData)
    → IsUnused s.name statics
    → find_static (statics ++ s ∷ []) s.name ≡ some s
unfolding find_static
find_static-append [] s unused = rw (str_same_refl s.name)
find_static-append (t ∷ statics) s unused =
    rw (str_differ t.name s.name unused.0) (find_static-append statics s unused.1)

IsUnused-append :
    (name : Bytes) (statics : List StaticData) (s : StaticData)
    → IsUnused name statics
    → s.name ≢ name
    → IsUnused name (statics ++ s ∷ [])
IsUnused-append name [] s unused ne = (ne, tt)
IsUnused-append name (t ∷ statics) s unused ne =
    (unused.0, IsUnused-append name statics s unused.1 ne)

HasUniqueNames-append :
    (statics : List StaticData) (s : StaticData)
    → HasUniqueNames statics
    → IsUnused s.name statics
    → HasUniqueNames (statics ++ s ∷ [])
HasUniqueNames-append [] s unique unused = (tt, tt)
HasUniqueNames-append (t ∷ statics) s unique unused = (
  IsUnused-append t.name statics s unique.0 (λ e. unused.0 (sym e)),
  HasUniqueNames-append statics s unique.1 unused.1,
)

-- What an anonymous static is: its name finds data of the type and the value, the names are still
-- unique, and no static is lost.
pub record Serves (program : Program) (v : TypeVariant) (w : ℕ) (name : Bytes) (after : Program)
    : Type 0 where
  pub served : StaticData
  pub found : find_static after.statics name ≡ some served
  pub holds : HoldsValue v w served
  pub unique : HasUniqueNames after.statics
  pub kept : (added : List StaticData) × (after.statics ≡ program.statics ++ added)

module _ (data_at : ℕ → Bytes) (v : TypeVariant) (modulus : ℕ) where
  new_static : Program → ℕ → Bytes → StaticData
  new_static program value name = record {
    name = name;
    type_of = basic_type v;
    init_data_short = value % modulus;
    init_data_long = [];
    location = 0;
    is_private = true;
  }

  new_Serves :
      (program : Program) (value : ℕ)
      → HasUniqueNames program.statics
      → IsUnused (make_temp_name program.temp_ctr).0 program.statics
      → Serves program v
          (value % modulus)
          (name_or_new v modulus program value none).0
          (name_or_new v modulus program value none).1
  unfolding add_static new_static
  new_Serves program value unique unused =
      let s = new_static program value (make_temp_name program.temp_ctr).0 in
      record {
        served = s;
        found = find_static-append program.statics s unused;
        holds = (refl, refl);
        unique = HasUniqueNames-append program.statics s unique unused;
        kept = (s ∷ [], refl);
      }

  by_search :
      (program : Program) (value : ℕ) (r : Run (Option Bytes))
      → HasUniqueNames program.statics
      → IsUnused (make_temp_name program.temp_ctr).0 program.statics
      → Found program.statics v (value % modulus) r
      → (name : Bytes) × (after : Program) × ((r >>= λ found.
            ok (name_or_new v modulus program value found))
          ≡ ok (name, after))
        × Serves program v (value % modulus) name after
  by_search program value (ok none) unique unused f = (
    (name_or_new v modulus program value none).0,
    (name_or_new v modulus program value none).1,
    refl,
    new_Serves program value unique unused,
  )
  by_search program value (ok (some name)) unique unused (d, at, holds) = (
    name,
    program,
    refl,
    record {
      served = d;
      found = at;
      holds = holds;
      unique = unique;
      kept = ([], sym (append-nil program.statics));
    },
  )
  by_search program value (fault _) unique unused f = elim f [ ]

  -- Where the names of the statics are unique and the next made-up name is not among them, an
  -- anonymous static of a basic type ends with a name that finds data of that type and of the value
  -- in the type's range; the names are still unique and the statics from before are kept.
  pub add_static_anonymous-Serves :
      (program : Program) (value : ℕ)
      → type_is_basic (basic_type v) ≡ true
      → HasUniqueNames program.statics
      → IsUnused (make_temp_name program.temp_ctr).0 program.statics
      → (name : Bytes) × (after : Program) × (add_static_anonymous data_at v modulus program value
          ≡ ok (name, after))
        × Serves program v (value % modulus) name after
  unfolding add_static_anonymous
  add_static_anonymous-Serves program value basic unique unused =
      by_search program value
        (find_static_by_value data_at program.statics (basic_type v) (value % modulus) true) unique
        unused (find_static_by_value-Found data_at v (value % modulus) program.statics basic unique)
