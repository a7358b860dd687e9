-- ===== src/Text/Emit.antt =====
-- src/compiler_common.h: words that a text holds are found again, and null means the text's end.
use bbae.Common.{
  ℕ, zero, suc, ◌-◌, ◌≤◌, ◌<◌, ◌≡◌, inl, inr, refl, sym, ◌∙◌, true, false, ◌||◌, [], ◌∷◌, ◌++◌,
  none, some, ok, lt→ltb, ◌==◌, Bytes, length, drop, arith, All, Bool-cases, subst,
}
use bbae.Text.{
  is_space, is_newline, is_comment, find_end_of_line, skip_comment, token_or_null, find_next_token,
  skip_blank, find_next_token_anywhere,
}
use bbae.Text.Cut.{
  ends_token, IsTokenBefore, IsSpace, text-IsCut, find_next_token-token_result, token_result,
}

-- A byte that can stand anywhere in a word: no blank, and neither `#` nor `/`.
abbrev pub IsWordByte : ℕ → Type 0
IsWordByte c = (ends_token c ≡ false) × ((c == b'#' || c == b'/') ≡ false)

-- The text behind a word: its end, or a blank.
abbrev pub IsBoundary : Bytes → Type 0
IsBoundary [] = Unit
IsBoundary (c ∷ r) = ends_token c ≡ true

word_no_comment : (c : ℕ) (b : Bytes) → IsWordByte c → (ends_token c || is_comment (c ∷ b)) ≡ false
unfolding is_comment
word_no_comment c [] h = ground arith
word_no_comment c (d ∷ b) h = ground arith

boundary_no_comment : (r : Bytes) → IsBoundary r → skip_comment r ≡ r
unfolding is_comment skip_comment is_space is_newline
boundary_no_comment [] h = refl
boundary_no_comment (c ∷ []) h = ground arith
boundary_no_comment (c ∷ d ∷ r) h = ground arith

word-IsTokenBefore : (t r : Bytes) → All IsWordByte t → IsBoundary r → IsTokenBefore r t
word-IsTokenBefore [] [] w h = tt
word-IsTokenBefore [] (c ∷ r) w h = rw h
word-IsTokenBefore (c ∷ t) r w h = (word_no_comment c (t ++ r) w.0, word-IsTokenBefore t r w.1 h)

-- A word of fewer than 4096 bytes, behind any spaces and before a blank or the end of the text, is
-- the next token, and the cursor stops at the blank.
pub find_next_token-word :
    (sp : Bytes) (c : ℕ) (t rest : Bytes)
    → All IsSpace sp
    → All IsWordByte (c ∷ t)
    → length (c ∷ t) < 4096
    → IsBoundary rest
    → find_next_token (sp ++ (c ∷ (t ++ rest))) ≡ ok (some (c ∷ t), rest)
unfolding token_or_null
find_next_token-word sp c t rest spaces word short boundary =
    find_next_token-token_result {b = sp ++ (c ∷ (t ++ rest))} {sp = sp} {t = c ∷ t} {r = rest}
      (record {
        parts = refl;
        spaces = spaces;
        trimmed = ground arith;
        token = word-IsTokenBefore (c ∷ t) rest word boundary;
      })
    ∙ rw (lt→ltb (length (c ∷ t)) 4096 short, boundary_no_comment rest boundary)

length-find_end_of_line-le : (b : Bytes) → length (find_end_of_line b) ≤ length b
unfolding find_end_of_line
length-find_end_of_line-le [] = omega arith
length-find_end_of_line-le (c ∷ b) = ground (arith, length-find_end_of_line-le b)

length-skip_comment-le : (b : Bytes) → length (skip_comment b) ≤ length b
unfolding skip_comment
length-skip_comment-le b = ground (arith, length-find_end_of_line-le b)

length-drop_one : (b : Bytes) → length (drop 1 b) ≡ length b - 1
length-drop_one [] = omega arith
length-drop_one (c ∷ b) = omega arith

-- The text starts neither with a blank nor with a comment.
abbrev IsSettled : Bytes → Type 0
IsSettled [] = Unit
IsSettled (c ∷ b) = (ends_token c || is_comment (c ∷ b)) ≡ false

-- As many rounds as there are bytes pass over all blanks and comments.
skip_blank-IsSettled : (fuel : ℕ) (b : Bytes) → length b ≤ fuel → IsSettled (skip_blank fuel b)
unfolding skip_blank
skip_blank-IsSettled zero [] h = tt
skip_blank-IsSettled (suc fuel) [] h = tt
skip_blank-IsSettled zero (c ∷ b) h = absurd (omega arith)
skip_blank-IsSettled (suc fuel) (c ∷ b) h = elim (Bool-cases (ends_token c || is_comment (c ∷ b))) [
  | inl blank ↦ rw (blank) (
      skip_blank-IsSettled fuel (drop 1 (skip_comment (c ∷ b)))
        (omega (arith, length-drop_one (skip_comment (c ∷ b)), length-skip_comment-le (c ∷ b))))
  | inr other ↦ rw (other, IsSettled) other
]

settled_none :
    (sp t r r' : Bytes)
    → IsSettled (sp ++ (t ++ r))
    → All IsSpace sp
    → IsTokenBefore r t
    → token_result t r ≡ ok (none, r')
    → r' ≡ []
unfolding token_or_null skip_comment is_comment
settled_none sp (c ∷ t) r r' settled spaces token e = ground arith
settled_none (c ∷ sp) [] r r' settled spaces token e = ground arith
settled_none [] [] (c ∷ r) r' settled stop token e = ground arith
settled_none [] [] [] r' settled stop token e = ground arith

-- The scan over lines gives null only at the end of the text.
pub find_next_token_anywhere-none :
    (b r : Bytes) → find_next_token_anywhere b ≡ ok (none, r) → r ≡ []
unfolding find_next_token_anywhere
find_next_token_anywhere-none [] r h = ground arith
find_next_token_anywhere-none (c ∷ b) r h =
    let b' : Bytes = skip_blank (length (c ∷ b)) (c ∷ b) in
    let (sp, t, rest, s) = text-IsCut b' in
    settled_none sp t rest r
      (subst (λ x. IsSettled x) s.parts
        (skip_blank-IsSettled (length (c ∷ b)) (c ∷ b) (omega arith)))
      s.spaces s.token (sym (find_next_token-token_result s) ∙ h)
