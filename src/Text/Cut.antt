-- ===== src/Text/Cut.antt =====
-- src/compiler_common.h: the parts of a text, by the tokenizer's own tests of characters.
use bbae.Common.{
  ℕ, zero, suc, ◌≤◌, ◌≡◌, inl, inr, refl, ap, ◌∙◌, Bool, true, false, ◌||◌, [], ◌∷◌, ◌++◌, Option,
  Run, ok, fault, assertion, ltb, if◌then◌else◌, Bytes, length, take, drop, arith, All, Bool-cases,
  length-take, take_all, drop_all, assert, ◌>>◌, subst,
}
use bbae.Text.{
  is_space, is_newline, is_comment, skip_spaces, token_loop, skip_comment, token_or_null,
  find_next_token,
}

-- A byte that ends a token.
abbrev pub ends_token : ℕ → Bool
ends_token c = is_newline c || is_space c

-- The text `r` starts where a token ends: at its end, at a blank, or at a comment.
abbrev pub IsStop : Bytes → Type 0
IsStop [] = Unit
IsStop (c ∷ r) = (ends_token c || is_comment (c ∷ r)) ≡ true

-- `t` is the whole token at the start of the text `t ++ r`.
abbrev pub IsTokenBefore : Bytes → Bytes → Type 0
IsTokenBefore r [] = IsStop r
IsTokenBefore r (c ∷ t) = ((ends_token c || is_comment (c ∷ (t ++ r))) ≡ false) × IsTokenBefore r t

-- The text does not start with a space or a tab.
abbrev pub IsTrimmed : Bytes → Type 0
IsTrimmed [] = Unit
IsTrimmed (c ∷ b) = is_space c ≡ false

abbrev pub IsSpace : ℕ → Type 0
IsSpace c = is_space c ≡ true

-- The text `b` is made of spaces, a token `t` and what follows it.
pub record IsCut (b sp t r : Bytes) : Type 0 where
  pub parts : b ≡ sp ++ (t ++ r)
  pub spaces : All IsSpace sp
  pub trimmed : IsTrimmed (t ++ r)
  pub token : IsTokenBefore r t

skip_spaces-append : (sp b : Bytes) → All IsSpace sp → IsTrimmed b → skip_spaces (sp ++ b) ≡ b
unfolding skip_spaces
skip_spaces-append [] [] h trimmed = refl
skip_spaces-append [] (c ∷ b) h trimmed = rw trimmed
skip_spaces-append (c ∷ sp) b h trimmed = rw h.0 (skip_spaces-append sp b h.1 trimmed)

-- The loop copies as much of the token as there is room for.
token_loop-take :
    (room : ℕ) (t r : Bytes)
    → IsTokenBefore r t
    → token_loop room (t ++ r) ≡ (take room t, drop room t ++ r)
unfolding token_loop
token_loop-take zero t r h = refl
token_loop-take (suc room) [] [] h = refl
token_loop-take (suc room) [] (c ∷ r) h = rw h
token_loop-take (suc room) (c ∷ t) r h = rw h.0 (rw (token_loop-take room t r h.1))

skip_spaces-IsCut : {b sp t r : Bytes} → IsCut b sp t r → skip_spaces b ≡ t ++ r
skip_spaces-IsCut {b} {sp} {t} {r} s =
    rw s.parts (skip_spaces-append sp (t ++ r) s.spaces s.trimmed)

-- What `find_next_token` gives, in terms of the parts of the text.
abbrev pub token_result : Bytes → Bytes → Run (Option Bytes × Bytes)
token_result t r =
    if ltb (length t) 4096 then ok (token_or_null t, skip_comment r) else fault assertion

abbrev checked_token : ℕ → Bytes × Bytes → Run (Option Bytes × Bytes)
checked_token n found =
    assert (ltb (length found.0) n) >> ok (token_or_null found.0, skip_comment found.1)

token_result_at :
    (n : ℕ) (t r : Bytes)
    → IsTokenBefore r t
    → checked_token n (token_loop n (t ++ r))
      ≡ (if ltb (length t) n then ok (token_or_null t, skip_comment r) else fault assertion)
token_result_at n t r h = elim (Bool-cases (ltb (length t) n)) [
  | inl short ↦
      let below : length t ≤ n = ground arith in
      rw (token_loop-take n t r h, take_all n t below, drop_all n t below, short)
  | inr long ↦
      let full : ltb (length (take n t)) n ≡ false = ground (arith, length-take n t) in
      rw (token_loop-take n t r h, full, long)
]

pub find_next_token-token_result :
    {b sp t r : Bytes} → IsCut b sp t r → find_next_token b ≡ token_result t r
unfolding find_next_token
find_next_token-token_result {b} {sp} {t} {r} s =
    rw (skip_spaces-IsCut s) (token_result_at 4096 t r s.token)

-- Every text splits.
split_token : (b : Bytes) → (t : Bytes) × (r : Bytes) × (b ≡ t ++ r) × IsTokenBefore r t
split_token [] = ([], [], refl, tt)
split_token (c ∷ b) = elim (Bool-cases (ends_token c || is_comment (c ∷ b))) [
  | inl stop ↦ ([], c ∷ b, refl, stop)
  | inr more ↦
      let (t, r, parts, token) = split_token b in
      (
        c ∷ t,
        r,
        ap (λ (x : Bytes). c ∷ x) parts,
        (subst (λ x. (ends_token c || is_comment (c ∷ x)) ≡ false) parts more, token),
      )
]

split_spaces :
    (b : Bytes) → (sp : Bytes) × (rest : Bytes) × (b ≡ sp ++ rest) × All IsSpace sp × IsTrimmed rest
split_spaces [] = ([], [], refl, tt, tt)
split_spaces (c ∷ b) = elim (Bool-cases (is_space c)) [
  | inr other ↦ ([], c ∷ b, refl, tt, other)
  | inl space ↦
      let (sp, rest, parts, spaces, trimmed) = split_spaces b in
      (c ∷ sp, rest, ap (λ (x : Bytes). c ∷ x) parts, (space, spaces), trimmed)
]

pub text-IsCut : (b : Bytes) → (sp : Bytes) × (t : Bytes) × (r : Bytes) × IsCut b sp t r
text-IsCut b =
    let (sp, rest, parts, spaces, trimmed) = split_spaces b in
    let (t, r, parts', token) = split_token rest in
    (
      sp,
      t,
      r,
      record {
        parts = parts ∙ ap (λ (x : Bytes). sp ++ x) parts';
        spaces = spaces;
        trimmed = subst (λ x. IsTrimmed x) parts' trimmed;
        token = token;
      },
    )
