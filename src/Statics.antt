-- ===== src/Statics.antt =====
-- src/compiler_common.h: the static and global data of a program, and the names that the compiler
-- makes up for them.
pub mod Names
pub mod Find
pub mod Layout
mod Tests
use bbae.Common.{
  ℕ, zero, suc, ◌+◌, ◌*◌, ◌/◌, ◌%◌, ◌^◌, Bool, true, false, ◌&&◌, not, List, [], ◌∷◌, ◌++◌, Option,
  none, some, Run, Fault, ok, fault, ◌>>=◌, ltb, ◌==◌, if◌then◌else◌, Bytes, codes, str_same,
}
use bbae.Types.{
  IrType, TypeVariant, basic_type, types_same, type_is_agg, type_size, size_guess_align, mem_same,
  i8, i16, i32, i64,
}

pub record StaticData : Type 0 where
  pub name : Bytes
  pub type_of : IrType
  pub init_data_short : ℕ
  pub init_data_long : Bytes
  pub location : ℕ
  pub is_private : Bool

pub record GlobalData : Type 0 where
  pub name : Bytes
  pub type_of : IrType
  pub location : ℕ
  pub allocated_size : ℕ
  pub is_private : Bool

-- The fields of `Program` for data, with the file's counter `temp_ctr`.
pub record Program : Type 0 where
  pub globals : List GlobalData
  pub globals_bytecount : ℕ
  pub statics : List StaticData
  pub temp_ctr : ℕ

-- `%zu`: the decimal digits, with the number itself as fuel.
unfoldable pub decimal_loop : ℕ → ℕ → Bytes
decimal_loop zero n = (b'0' + n) ∷ []
decimal_loop (suc fuel) n =
    let rest = decimal_loop fuel (n / 10) in
    if ltb n 10 then (b'0' + n) ∷ [] else rest ++ (b'0' + n % 10) ∷ []

unfoldable pub decimal : ℕ → Bytes
decimal n = decimal_loop n n

-- The name, and the counter after it.
unfoldable pub make_temp_name : ℕ → Bytes × ℕ
make_temp_name temp_ctr =
    let next = (temp_ctr + 1) % 2 ^ 64 in (codes "btemp_" ++ decimal next, next)

-- The values agree: the bytes at the address `value` for an aggregate, the word itself otherwise.
abbrev has_value : (ℕ → Bytes) → StaticData → ℕ → Run Bool
has_value data_at stat value =
    if type_is_agg stat.type_of
    then (type_size stat.type_of >>= λ n. ok (mem_same n (data_at value) stat.init_data_long))
    else ok (stat.init_data_short == value)

-- `find_static_by_value`, with the bytes that stand at an address.
unfoldable pub find_static_by_value :
    (ℕ → Bytes) → List StaticData → IrType → ℕ → Bool → Run (Option Bytes)
find_static_by_value data_at [] type_of value private_only = ok none
find_static_by_value data_at (stat ∷ statics) type_of value private_only =
    let rest = find_static_by_value data_at statics type_of value private_only in
    if not private_only && not stat.is_private
    then rest
    else if not (types_same stat.type_of type_of)
    then rest
    else (has_value data_at stat value >>= λ same. if same then ok (some stat.name) else rest)

-- The null that stands for no static is a zeroed structure in the source.
unfoldable pub find_static : List StaticData → Bytes → Option StaticData
find_static [] name = none
find_static (stat ∷ statics) name =
    if str_same stat.name name then some stat else find_static statics name

unfoldable pub find_global : List GlobalData → Bytes → Option GlobalData
find_global [] name = none
find_global (stat ∷ globals) name =
    if str_same stat.name name then some stat else find_global globals name

-- `add_static_i8` and its like, for the type and its number of values.
unfoldable pub add_static : TypeVariant → ℕ → Program → Bytes → ℕ → Bool → Program
add_static variant modulus program name value is_private =
    let stat : StaticData = record {
      name = name;
      type_of = basic_type variant;
      init_data_short = value % modulus;
      init_data_long = [];
      location = 0;
      is_private = is_private;
    } in
    record program { statics = program.statics ++ stat ∷ [] }

abbrev pub name_or_new : TypeVariant → ℕ → Program → ℕ → Option Bytes → Bytes × Program
name_or_new variant modulus program value (some found_name) = (found_name, program)
name_or_new variant modulus program value none =
    let (name, next) = make_temp_name program.temp_ctr in
    (name, add_static variant modulus (record program { temp_ctr = next }) name value true)

-- `add_static_i8_anonymous` and its like; the argument `value` is converted by the call.
unfoldable pub add_static_anonymous :
    (ℕ → Bytes) → TypeVariant → ℕ → Program → ℕ → Run (Bytes × Program)
add_static_anonymous data_at variant modulus program value =
    find_static_by_value data_at program.statics (basic_type variant) (value % modulus) true
    >>= λ found. ok (name_or_new variant modulus program value found)

abbrev pub add_static_i8_anonymous : (ℕ → Bytes) → Program → ℕ → Run (Bytes × Program)
add_static_i8_anonymous data_at = add_static_anonymous data_at i8 (2 ^ 8)

abbrev pub add_static_i16_anonymous : (ℕ → Bytes) → Program → ℕ → Run (Bytes × Program)
add_static_i16_anonymous data_at = add_static_anonymous data_at i16 (2 ^ 16)

abbrev pub add_static_i32_anonymous : (ℕ → Bytes) → Program → ℕ → Run (Bytes × Program)
add_static_i32_anonymous data_at = add_static_anonymous data_at i32 (2 ^ 32)

abbrev pub add_static_i64_anonymous : (ℕ → Bytes) → Program → ℕ → Run (Bytes × Program)
add_static_i64_anonymous data_at = add_static_anonymous data_at i64 (2 ^ 64)

-- `while (n % align) n += 1`
unfoldable pub pad_to : ℕ → ℕ → ℕ → Run ℕ
pad_to zero align n = fault Fault.stuck
pad_to (suc fuel) align n =
    let rest = pad_to fuel align ((n + 1) % 2 ^ 64) in if n % align == 0 then ok n else rest

-- An alignment is at most 64, so 65 rounds of padding are enough.
abbrev pub put_global : ℕ → Program → Bytes → IrType → Bool → ℕ → Run (GlobalData × Program)
put_global fuel program name type_of is_private allocated_size = do
  align ← size_guess_align allocated_size
  location ← pad_to fuel align program.globals_bytecount
  let stat : GlobalData = record {
    name = name;
    type_of = type_of;
    location = location;
    allocated_size = allocated_size;
    is_private = is_private;
  }
  ok (
    stat,
    record program {
      globals = program.globals ++ stat ∷ [];
      globals_bytecount = (location + allocated_size) % 2 ^ 64;
    },
  )

unfoldable pub add_global : Program → Bytes → IrType → Bool → Run (GlobalData × Program)
add_global program name type_of is_private = type_size type_of >>= λ allocated_size.
    put_global 65 program name type_of is_private allocated_size
