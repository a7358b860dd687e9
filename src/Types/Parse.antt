-- ===== src/Types/Parse.antt =====
-- src/compiler_common.h: reading a type name, and printing it back.
use bbae.Common.{
  ℕ, ◌<◌, ◌≡◌, refl, true, ◌∷◌, ◌++◌, Option, none, some, Run, Fault, ok, fault, assertion, assert,
  ◌>>=◌, ◌>>◌, if◌then◌else◌, Bytes, codes, length, arith, All, drop, str_same,
}
use bbae.Text.{find_next_token, str_begins_with, parse_int_bare, is_space, is_newline}
use bbae.Text.Cut.{IsSpace}
use bbae.Text.Emit.{find_next_token-word, IsWordByte, IsBoundary}
use bbae.Types.{
  IrType, TypeVariant, basic_type, type_to_static_string, type_is_basic, i8, i16, i32, i64, iptr,
  f32, f64,
}

-- `assert(token)`, or its use by `strcmp` where it is null.
require : Fault → Option Bytes → Run Bytes
require e none = fault e
require e (some token) = ok token

-- The branch of an aggregate type, up to the assertion that it is not done yet.
parse_agg : Bytes → Run (IrType × Bytes)
unfolding require
parse_agg b = do
  (next, b₁) ← find_next_token b
  first ← require Fault.undefined next
  let packed = str_same first (codes "packed")
  (next', b₂) ← if packed then find_next_token b₁ else ok (some first, b₁)
  token ← require Fault.undefined next'
  assert (str_begins_with token (codes "align."))
  align ← parse_int_bare (drop 6 token)
  (_, b₃) ← find_next_token b₂
  fault assertion

-- The type of a token that names a basic type.
unfoldable pub type_of_token : Bytes → Option TypeVariant
type_of_token token =
    if str_same token (codes "i8")
    then some i8
    else if str_same token (codes "i16")
    then some i16
    else if str_same token (codes "i32")
    then some i32
    else if str_same token (codes "i64")
    then some i64
    else if str_same token (codes "iptr")
    then some iptr
    else if str_same token (codes "f32")
    then some f32
    else if str_same token (codes "f64")
    then some f64
    else none

abbrev basic_or_agg : Bytes → Bytes → Option TypeVariant → Run (IrType × Bytes)
basic_or_agg token b (some variant) = ok (basic_type variant, b)
basic_or_agg token b none = if str_same token (codes "{") then parse_agg b else fault assertion

unfoldable pub parse_type : Bytes → Run (IrType × Bytes)
unfolding parse_agg require
parse_type b = do
  (next, b') ← find_next_token b
  token ← require assertion next
  basic_or_agg token b' (type_of_token token)

parse_type-word :
    (sp : Bytes) (c : ℕ) (t rest : Bytes) (v : TypeVariant)
    → type_of_token (c ∷ t) ≡ some v
    → All IsSpace sp
    → All IsWordByte (c ∷ t)
    → length (c ∷ t) < 4096
    → IsBoundary rest
    → parse_type (sp ++ (c ∷ (t ++ rest))) ≡ ok (basic_type v, rest)
unfolding parse_type
parse_type-word sp c t rest v named spaces word short boundary =
    rw (find_next_token-word sp c t rest spaces word short boundary, named)

-- The name of a basic type, behind spaces and before a blank or the end, is read back as the type,
-- and the cursor stops behind the name.
pub parse_type-type_to_static_string :
    (v : TypeVariant) (sp rest : Bytes)
    → type_is_basic (basic_type v) ≡ true
    → All IsSpace sp
    → IsBoundary rest
    → parse_type (sp ++ (type_to_static_string (basic_type v) ++ rest)) ≡ ok (basic_type v, rest)
unfolding type_to_static_string type_is_basic type_of_token str_same is_space is_newline
parse_type-type_to_static_string i8 sp rest basic spaces boundary =
    parse_type-word sp b'i' (codes "8") rest i8 refl spaces (ground arith) (omega arith) boundary
parse_type-type_to_static_string i16 sp rest basic spaces boundary =
    parse_type-word sp b'i' (codes "16") rest i16 refl spaces (ground arith) (omega arith) boundary
parse_type-type_to_static_string i32 sp rest basic spaces boundary =
    parse_type-word sp b'i' (codes "32") rest i32 refl spaces (ground arith) (omega arith) boundary
parse_type-type_to_static_string i64 sp rest basic spaces boundary =
    parse_type-word sp b'i' (codes "64") rest i64 refl spaces (ground arith) (omega arith) boundary
parse_type-type_to_static_string iptr sp rest basic spaces boundary =
    parse_type-word sp b'i' (codes "ptr") rest iptr refl spaces (ground arith) (omega arith)
      boundary
parse_type-type_to_static_string f32 sp rest basic spaces boundary =
    parse_type-word sp b'f' (codes "32") rest f32 refl spaces (ground arith) (omega arith) boundary
parse_type-type_to_static_string f64 sp rest basic spaces boundary =
    parse_type-word sp b'f' (codes "64") rest f64 refl spaces (ground arith) (omega arith) boundary
parse_type-type_to_static_string _ sp rest basic spaces boundary = cc
