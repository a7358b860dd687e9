-- ===== src/Text.antt =====
-- The character tests and string helpers of src/memory.h, and the tokenizer and number parser of
-- src/compiler_common.h. A text is the bytes from the cursor up to the NUL, so the end of the list
-- is the NUL, and moving the cursor is dropping bytes.
pub mod Cut
pub mod Scan
pub mod Emit
pub mod Affix
pub mod Number
mod Tests
use bbae.Common.{
  ℕ, zero, suc, ◌+◌, ◌-◌, ◌*◌, ◌%◌, ◌^◌, Bool, true, false, ◌&&◌, ◌||◌, not, List, [], ◌∷◌, ◌++◌,
  Option, none, some, Run, Fault, ok, fault, assertion, assert, ◌>>=◌, ◌>>◌, ltb, leb, ◌==◌,
  if◌then◌else◌, Bytes, codes, str_same, length, drop, take,
}

-- src/memory.h

unfoldable pub is_space : ℕ → Bool
is_space c = c == b' ' || c == 9

unfoldable pub is_newline : ℕ → Bool
is_newline c = c == 13 || c == 10

-- `b[1]` is the NUL where the text ends after `b[0]`.
unfoldable pub is_comment : Bytes → Bool
is_comment [] = false
is_comment (c ∷ []) = c == b'#'
is_comment (c ∷ d ∷ rest) = c == b'/' && d == b'/' || c == b'#'

-- `strncmp(a, b, len_b) == 0` for an `a` that is at least as long as `b`.
unfoldable pub str_begins_with : Bytes → Bytes → Bool
str_begins_with a b =
    if ltb (length a) (length b)
    then false
    else if length b == 0
    then true
    else str_same (take (length b) a) b

unfoldable pub str_ends_with : Bytes → Bytes → Bool
str_ends_with a b =
    if ltb (length a) (length b)
    then false
    else if length b == 0
    then true
    else str_same (take (length b) (drop (length a - length b) a)) b

unfoldable pub string_concat : Bytes → Bytes → Bytes
string_concat a b = a ++ b

-- src/compiler_common.h

-- `while (**b != 0 && is_space(**b)) *b += 1`
unfoldable pub skip_spaces : Bytes → Bytes
skip_spaces [] = []
skip_spaces (c ∷ b) = let rest = skip_spaces b in if is_space c then rest else c ∷ b

-- `while (**b != 0 && !is_newline(**b)) *b += 1`
unfoldable pub find_end_of_line : Bytes → Bytes
find_end_of_line [] = []
find_end_of_line (c ∷ b) = let rest = find_end_of_line b in if is_newline c then c ∷ b else rest

-- The copying loop of `find_next_token`: the token's bytes and the text behind them. The number is
-- the room that is left in the static buffer.
unfoldable pub token_loop : ℕ → Bytes → Bytes × Bytes
token_loop zero b = ([], b)
token_loop (suc room) [] = ([], [])
token_loop (suc room) (c ∷ b) =
    let rest = token_loop room b in
    let more : Bytes × Bytes = (c ∷ rest.0, rest.1) in
    if is_newline c || is_space c || is_comment (c ∷ b) then ([], c ∷ b) else more

unfoldable pub skip_comment : Bytes → Bytes
skip_comment b = if is_comment b then find_end_of_line b else b

-- `if (token[0] != 0) return token; else return 0;`
unfoldable pub token_or_null : Bytes → Option Bytes
token_or_null [] = none
token_or_null (c ∷ token) = some (c ∷ token)

-- The token on the current line, if there is one, and the new cursor. A token that fills the buffer
-- of 4096 bytes fails the assertion on its last byte.
unfoldable pub find_next_token : Bytes → Run (Option Bytes × Bytes)
find_next_token b =
    let found = token_loop 4096 (skip_spaces b) in
    assert (ltb (length found.0) 4096) >> ok (token_or_null found.0, skip_comment found.1)

-- The outer loop of `find_next_token_anywhere`: the fuel is the number of bytes.
unfoldable pub skip_blank : ℕ → Bytes → Bytes
skip_blank fuel [] = []
skip_blank zero (c ∷ b) = c ∷ b
skip_blank (suc fuel) (c ∷ b) =
    let rest = skip_blank fuel (drop 1 (skip_comment (c ∷ b))) in
    if is_newline c || is_space c || is_comment (c ∷ b) then rest else c ∷ b

unfoldable pub find_next_token_anywhere : Bytes → Run (Option Bytes × Bytes)
find_next_token_anywhere [] = ok (none, [])
find_next_token_anywhere (c ∷ b) = find_next_token (skip_blank (length (c ∷ b)) (c ∷ b))

-- `char_value`, with `none` for -1.
unfoldable pub char_value : ℕ → Option ℕ
char_value c =
    if leb b'0' c && leb c b'9'
    then some (c - b'0')
    else if leb b'A' c && leb c b'Z'
    then some (c - b'A' + 10)
    else if leb b'a' c && leb c b'z'
    then some (c - b'a' + 10)
    else none

-- `char_value(c) >= 0 && char_value(c) < radix`, with the digit's value.
unfoldable pub digit_of : ℕ → ℕ → Option ℕ
unfolding char_value
digit_of radix c = elim (char_value c) [
  | none ↦ none
  | some v ↦ if ltb v radix then some v else none
]

-- The digit loop of `my_strtoull`: the value in 64 bits and the text behind the digits.
unfoldable pub digits_loop : ℕ → ℕ → Bytes → ℕ × Bytes
digits_loop radix out [] = (out, [])
digits_loop radix out (c ∷ str) = elim (digit_of radix c) [
  | none ↦ (out, c ∷ str)
  | some v ↦ digits_loop radix ((out * radix % 2 ^ 64 + v) % 2 ^ 64) str
]

-- The text behind a leading minus sign, and whether there is one.
unfoldable pub minus_sign : Bytes → Bool × Bytes
minus_sign [] = (false, [])
minus_sign (c ∷ str) = if c == b'-' then (true, str) else (false, c ∷ str)

-- The radix, and the text behind `0x`.
unfoldable pub radix_prefix : Bytes → ℕ × Bytes
radix_prefix [] = (10, [])
radix_prefix (c ∷ []) = (10, c ∷ [])
radix_prefix (c ∷ d ∷ str) = if c == b'0' && d == b'x' then (16, str) else (10, c ∷ d ∷ str)

-- The value and `*endptr`. The negation of 2 ^ 63 as an `int64_t` overflows, which is undefined.
unfoldable pub my_strtoull : Bytes → Run (ℕ × Bytes)
unfolding minus_sign radix_prefix
my_strtoull str =
    let (negative, unsigned) = minus_sign str in
    let (radix, digits) = radix_prefix unsigned in
    let (out, rest) = digits_loop radix 0 digits in
    if negative && out == 2 ^ 63
    then fault Fault.undefined
    else ok (if negative then (2 ^ 64 - out) % 2 ^ 64 else out, rest)

-- The assertion says that the number ends where the token ends.
unfoldable pub parse_int_bare : Bytes → Run ℕ
parse_int_bare n = do
  (ret, rest) ← my_strtoull n
  assert (length n - length rest == length n)
  ok ret

unfoldable pub parse_int_nonbare : Bytes → Run ℕ
parse_int_nonbare n = do (ret, rest) ← my_strtoull n; ok ret
