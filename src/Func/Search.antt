-- ===== src/Func/Search.antt =====
-- src/compiler_common.h: what the searches of `validate_links` find.
use bbae.Common.{
  ℕ, ◌≡◌, ◌≢◌, ◌++◌, refl, ap, ◌∙◌, ◌↔◌, Bool, true, false, List, [], ◌∷◌, Option, none, some, ◌==◌,
  ==_iff, All, Bytes, str_same, str_same_iff, arith, ◌⊎◌, inl, inr, ◌||◌, sym, Bool-cases,
  true_not_false, some_injective,
}
use bbae.Ir.{Heap, ValueVariant, Operand, OpVariant}
use bbae.Ir.Edit.{is_value_op}
use bbae.Func.{find_block}
use bbae.Func.Validate.{stands_in, is_label, names_value, stands_among, has_arg, is_arg_named}

-- `next` is the first of the blocks with the name.
pub record IsFirstNamed (h : Heap) (blocks : List ℕ) (name : Bytes) (next : ℕ) : Type 0 where
  pub before : List ℕ
  pub behind : List ℕ
  pub whole : blocks ≡ before ++ next ∷ behind
  pub others : All (λ (b : ℕ). (h.blocks b).name ≢ name) before
  pub named : (h.blocks next).name ≡ name

-- `x` is an entry of the list with the property.
abbrev pub Some {ℓ} : {A : Type ℓ} → (A → Type 0) → List A → Type 0
Some P [] = ⊥
Some P (x ∷ xs) = P x ⊎ Some P xs

pub find_block-IsFirstNamed :
    (h : Heap) (blocks : List ℕ) (name : Bytes) (next : ℕ)
    → find_block h blocks name ≡ some next
    → IsFirstNamed h blocks name next
unfolding find_block
find_block-IsFirstNamed h [] name next e = cc
find_block-IsFirstNamed h (b ∷ blocks) name next e =
    elim (Bool-cases (str_same (h.blocks b).name name)) [
      | inl here ↦
          let same : b ≡ next = some_injective (rw here at e) in
          record {
            before = [];
            behind = blocks;
            whole = ap (λ (x : ℕ). x ∷ blocks) same;
            others = tt;
            named =
                ap (λ (x : ℕ). (h.blocks x).name) (sym same)
                ∙ (str_same_iff (h.blocks b).name name).0 here;
          }
      | inr other ↦
          let rest = find_block-IsFirstNamed h blocks name next (rw other at e) in
          record {
            before = b ∷ rest.before;
            behind = rest.behind;
            whole = ap (λ (l : List ℕ). b ∷ l) rest.whole;
            others = (
              λ same. true_not_false (sym ((str_same_iff (h.blocks b).name name).1 same) ∙ other),
              rest.others,
            );
            named = rest.named;
          }
    ]

find_block-append :
    (h : Heap) (before : List ℕ) (next : ℕ) (behind : List ℕ) (name : Bytes)
    → All (λ (b : ℕ). (h.blocks b).name ≢ name) before
    → (h.blocks next).name ≡ name
    → find_block h (before ++ next ∷ behind) name ≡ some next
unfolding find_block
find_block-append h [] next behind name others named =
    rw ((str_same_iff (h.blocks next).name name).1 named) refl
find_block-append h (b ∷ before) next behind name others named =
    elim (Bool-cases (str_same (h.blocks b).name name)) [
      | inl here ↦ absurd (others.0 ((str_same_iff (h.blocks b).name name).0 here))
      | inr other ↦ rw other (find_block-append h before next behind name others.1 named)
    ]

pub IsFirstNamed-find_block :
    (h : Heap) (blocks : List ℕ) (name : Bytes) (next : ℕ)
    → IsFirstNamed h blocks name next
    → find_block h blocks name ≡ some next
IsFirstNamed-find_block h blocks name next f =
    ap (λ (l : List ℕ). find_block h l name) f.whole
    ∙ find_block-append h f.before next f.behind name f.others f.named

pub is_label_iff : (v : OpVariant) → (is_label v ≡ true) ↔ (v ≡ OpVariant.text_op)
is_label_iff OpVariant.text_op = (λ e. refl, λ e. refl)
is_label_iff v = (λ e. cc, λ e. cc)

pub is_value_op_iff : (v : OpVariant) → (is_value_op v ≡ true) ↔ (v ≡ OpVariant.value_op)
is_value_op_iff OpVariant.value_op = (λ e. refl, λ e. refl)
is_value_op_iff v = (λ e. cc, λ e. cc)

-- The search for an entry whose test says `true`.
found_iff {ℓ} :
    {A : Type ℓ} {P : A → Type 0} (search : List A → Bool) (test : A → Bool)
    → (search [] ≡ false)
    → ((x : A) (xs : List A) → search (x ∷ xs) ≡ (test x || search xs))
    → ((x : A) → (test x ≡ true) ↔ P x)
    → (xs : List A) → (search xs ≡ true) ↔ Some P xs
found_iff search test stop more each [] = (λ e. true_not_false (sym e ∙ stop), λ a. absurd a)
found_iff search test stop more each (x ∷ xs) =
    let (forth, back) = found_iff search test stop more each xs in
    (
      λ e. elim (Bool-cases (test x)) [
        | inl at ↦ inl ((each x).0 at)
        | inr off ↦ inr (forth (ap (λ b. b || search xs) (sym off) ∙ sym (more x xs) ∙ e))
      ],
      λ a. elim a [
        | inl at ↦ more x xs ∙ ap (λ b. b || search xs) ((each x).1 at)
        | inr later ↦ more x xs ∙ either (test x) (search xs) (back later)
      ],
    )
  where
    either : (a b : Bool) → b ≡ true → (a || b) ≡ true
    either true b e = refl
    either false b e = e

value_is_iff : (o : Option ℕ) (out : ℕ) → (stands_in o out ≡ true) ↔ (o ≡ some out)
value_is_iff none out = (λ e. cc, λ e. cc)
value_is_iff (some a) out = (λ e. ap some ((==_iff a out).0 e), λ e. ground arith)

pub names_value_iff :
    (out : ℕ) (args : List Operand)
    → (names_value out args ≡ true) ↔ Some (λ (op : Operand). op.value ≡ some out) args
names_value_iff out =
    found_iff (names_value out) (λ (op : Operand). stands_in op.value out) refl (λ op args. refl)
      (λ op. value_is_iff op.value out)

pub stands_among_iff :
    (other : ℕ) (statements : List ℕ)
    → (stands_among other statements ≡ true) ↔ Some (λ (s : ℕ). s ≡ other) statements
stands_among_iff other =
    found_iff (stands_among other) (λ (s : ℕ). s == other) refl (λ s ss. refl) (λ s. ==_iff s other)

pub is_arg_named_iff :
    (h : Heap) (name : Bytes) (args : List ℕ)
    → (is_arg_named h name args ≡ true) ↔ Some (λ (a : ℕ). (h.values a).arg ≡ name) args
is_arg_named_iff h name =
    found_iff (is_arg_named h name) (λ (a : ℕ). str_same (h.values a).arg name) refl
      (λ a args. refl) (λ a. str_same_iff (h.values a).arg name)

pub has_arg_iff : (v : ValueVariant) → (has_arg v ≡ true) ↔ (v ≡ ValueVariant.arg)
has_arg_iff ValueVariant.arg = (λ e. refl, λ e. refl)
has_arg_iff v = (λ e. cc, λ e. cc)
