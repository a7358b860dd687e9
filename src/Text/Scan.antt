-- ===== src/Text/Scan.antt =====
-- src/compiler_common.h: what `find_next_token` finds.
use bbae.Common.{
  ℕ, ◌≤◌, ◌<◌, ◌≡◌, ◌≢◌, ◌⊎◌, ◌↔◌, inl, inr, refl, sym, ap, ◌∙◌, true, ◌||◌, ◌==◌, [], ◌∷◌, ◌++◌,
  Option, none, some, Run, ok, fault, assertion, ltb, Bytes, length, arith, All, Bool-cases,
  true_not_false,
}
use bbae.Text.{
  is_space, is_newline, is_comment, find_end_of_line, skip_comment, token_or_null, find_next_token,
}
use bbae.Text.Cut.{
  ends_token, IsTokenBefore, IsTrimmed, IsSpace, IsCut, text-IsCut, token_result,
  find_next_token-token_result,
}

-- A space or a tab.
abbrev pub Blank : ℕ → Type 0
Blank c = (c ≡ 32) ⊎ (c ≡ 9)

-- A carriage return or a line feed.
abbrev pub Newline : ℕ → Type 0
Newline c = (c ≡ 13) ⊎ (c ≡ 10)

-- `#` or `//`.
abbrev pub StartsComment : Bytes → Type 0
StartsComment [] = ⊥
StartsComment (c ∷ []) = c ≡ 35
StartsComment (c ∷ d ∷ r) = ((c ≡ 47) × (d ≡ 47)) ⊎ (c ≡ 35)

-- A text that starts with what no token can hold.
abbrev pub StartsGap : Bytes → Type 0
StartsGap [] = ⊥
StartsGap (c ∷ r) = Blank c ⊎ (Newline c ⊎ StartsComment (c ∷ r))

-- `t` is a token in front of `r`: there is no gap at any of its bytes.
abbrev pub HasNoGap : Bytes → Bytes → Type 0
HasNoGap r [] = Unit
HasNoGap r (c ∷ t) = (¬ StartsGap (c ∷ (t ++ r))) × HasNoGap r t

abbrev pub IsAtGap : Bytes → Type 0
IsAtGap [] = Unit
IsAtGap (c ∷ r) = StartsGap (c ∷ r)

abbrev pub StartsUnblank : Bytes → Type 0
StartsUnblank [] = Unit
StartsUnblank (c ∷ r) = ¬ Blank c

-- The text `b` is made of spaces and tabs, as many as there are, the whole token `t` and the rest.
pub record Splits (b sp t r : Bytes) : Type 0 where
  pub parts : b ≡ sp ++ (t ++ r)
  pub spaces : All Blank sp
  pub trimmed : StartsUnblank (t ++ r)
  pub token : HasNoGap r t
  pub stop : IsAtGap r

abbrev pub IsAtLineEnd : Bytes → Type 0
IsAtLineEnd [] = Unit
IsAtLineEnd (c ∷ r) = Newline c

-- `r'` is the text `r` behind the comment at its start, if there is one: at the newline that ends the
-- line, or at the end of the text.
abbrev pub IsBehind : Bytes → Bytes → Type 0
IsBehind r r' =
    (StartsComment r
      × ((comment : Bytes) × (r ≡ comment ++ r') × All (λ c. ¬ Newline c) comment × IsAtLineEnd r'))
    ⊎ ((¬ StartsComment r) × (r' ≡ r))

-- The token, or null if it is empty.
abbrev pub IsToken : Bytes → Option Bytes → Type 0
IsToken t token = ((t ≡ []) × (token ≡ none)) ⊎ ((t ≢ []) × (token ≡ some t))

Blank-iff : (c : ℕ) → (is_space c ≡ true) ↔ Blank c
unfolding is_space
Blank-iff c = (λ e. blank c e, λ b. space c b)
  where
    blank : (c : ℕ) → (c == 32 || c == 9) ≡ true → Blank c
    blank c e = elim (Bool-cases (c == 32)) [
      | inl at ↦ inl (ground arith)
      | inr off ↦ inr (ground arith)
    ]

    space : (c : ℕ) → Blank c → (c == 32 || c == 9) ≡ true
    space c (inl e) = ground arith
    space c (inr e) = ground arith

Newline-iff : (c : ℕ) → (is_newline c ≡ true) ↔ Newline c
unfolding is_newline
Newline-iff c = (λ e. newline c e, λ b. test c b)
  where
    newline : (c : ℕ) → (c == 13 || c == 10) ≡ true → Newline c
    newline c e = elim (Bool-cases (c == 13)) [
      | inl at ↦ inl (ground arith)
      | inr off ↦ inr (ground arith)
    ]

    test : (c : ℕ) → Newline c → (c == 13 || c == 10) ≡ true
    test c (inl e) = ground arith
    test c (inr e) = ground arith

is_comment-StartsComment : (b : Bytes) → is_comment b ≡ true → StartsComment b
unfolding is_comment
is_comment-StartsComment [] e = cc
is_comment-StartsComment (c ∷ []) e = ground arith
is_comment-StartsComment (c ∷ d ∷ r) e = elim (Bool-cases (c == 35)) [
  | inl hash ↦ inr (ground arith)
  | inr other ↦ inl (ground arith, ground arith)
]

StartsComment-is_comment : (b : Bytes) → StartsComment b → is_comment b ≡ true
unfolding is_comment
StartsComment-is_comment [] h = absurd h
StartsComment-is_comment (c ∷ []) e = ground arith
StartsComment-is_comment (c ∷ d ∷ r) (inl (e, f)) = ground arith
StartsComment-is_comment (c ∷ d ∷ r) (inr e) = ground arith

-- The code's test at a byte.
stops_iff : (c : ℕ) (r : Bytes) → ((ends_token c || is_comment (c ∷ r)) ≡ true) ↔ StartsGap (c ∷ r)
stops_iff c r = (λ e. gap e, λ g. test g)
  where
    gap : (ends_token c || is_comment (c ∷ r)) ≡ true → StartsGap (c ∷ r)
    gap e = elim (Bool-cases (is_space c)) [
      | inl blank ↦ inl ((Blank-iff c).0 blank)
      | inr not_blank ↦ elim (Bool-cases (is_newline c)) [
        | inl newline ↦ inr (inl ((Newline-iff c).0 newline))
        | inr neither ↦ inr (inr (is_comment-StartsComment (c ∷ r) (ground arith)))
      ]
    ]

    test : StartsGap (c ∷ r) → (ends_token c || is_comment (c ∷ r)) ≡ true
    test (inl blank) = ground (arith, (Blank-iff c).1 blank)
    test (inr (inl newline)) = ground (arith, (Newline-iff c).1 newline)
    test (inr (inr comment)) = ground (arith, StartsComment-is_comment (c ∷ r) comment)

token-HasNoGap : (t r : Bytes) → IsTokenBefore r t → HasNoGap r t × IsAtGap r
token-HasNoGap [] [] h = (tt, tt)
token-HasNoGap [] (c ∷ r) h = (tt, (stops_iff c r).0 h)
token-HasNoGap (c ∷ t) r h =
    let (rest, stop) = token-HasNoGap t r h.1 in
    ((λ g. true_not_false (sym ((stops_iff c (t ++ r)).1 g) ∙ h.0), rest), stop)

unblank : (b : Bytes) → IsTrimmed b → StartsUnblank b
unblank [] h = tt
unblank (c ∷ b) h = λ blank. true_not_false (sym ((Blank-iff c).1 blank) ∙ h)

all-Blank : (sp : Bytes) → All IsSpace sp → All Blank sp
all-Blank [] h = tt
all-Blank (c ∷ sp) h = ((Blank-iff c).0 h.0, all-Blank sp h.1)

IsCut-Splits : {b sp t r : Bytes} → IsCut b sp t r → Splits b sp t r
IsCut-Splits {b} {sp} {t} {r} cut =
    let (token, stop) = token-HasNoGap t r cut.token in
    record {
      parts = cut.parts;
      spaces = all-Blank sp cut.spaces;
      trimmed = unblank (t ++ r) cut.trimmed;
      token = token;
      stop = stop;
    }

end_of_line :
    (b : Bytes)
    → (line : Bytes) × (b ≡ line ++ find_end_of_line b)
      × All (λ (c : ℕ). ¬ Newline c) line
      × IsAtLineEnd (find_end_of_line b)
unfolding find_end_of_line
end_of_line [] = ([], refl, tt, tt)
end_of_line (c ∷ b) = elim (Bool-cases (is_newline c)) [
  | inl newline ↦ rw newline ([], refl, tt, (Newline-iff c).0 newline)
  | inr other ↦
      let (line, parts, none_in, at_end) = end_of_line b in
      rw other (
        c ∷ line,
        ap (λ (x : Bytes). c ∷ x) parts,
        (λ n. true_not_false (sym ((Newline-iff c).1 n) ∙ other), none_in),
        at_end,
      )
]

skip_comment-IsBehind : (r : Bytes) → IsBehind r (skip_comment r)
unfolding skip_comment
skip_comment-IsBehind r = elim (Bool-cases (is_comment r)) [
  | inl comment ↦ rw comment (inl (is_comment-StartsComment r comment, end_of_line r))
  | inr other ↦
      rw other (inr (λ c. true_not_false (sym (StartsComment-is_comment r c) ∙ other), refl))
]

token_or_null-IsToken : (t : Bytes) → IsToken t (token_or_null t)
unfolding token_or_null
token_or_null-IsToken [] = inl (refl, refl)
token_or_null-IsToken (c ∷ t) = inr (λ e. cc, refl)

-- What comes of a text with the token `t` in front of `r`.
abbrev pub Finds : Bytes → Bytes → Run (Option Bytes × Bytes) → Type 0
Finds t r (ok (token, r')) = (length t < 4096) × IsToken t token × IsBehind r r'
Finds t r (fault e) = (4096 ≤ length t) × (e ≡ assertion)

token_result-Finds : (t r : Bytes) → Finds t r (token_result t r)
token_result-Finds t r = elim (Bool-cases (ltb (length t) 4096)) [
  | inl short ↦ rw short (ground arith, token_or_null-IsToken t, skip_comment-IsBehind r)
  | inr long ↦ rw long (ground arith, refl)
]

-- Every text is spaces and tabs, one whole token and the rest. If the token is shorter than 4096
-- bytes, `find_next_token` gives it (null if it is empty) and moves the cursor behind it; if a comment
-- starts there, the cursor stands at the newline that ends the line, or at the end of the text. A
-- longer token stops it at its assertion. The token ends at the first space, tab, newline or comment.
pub find_next_token-Splits :
    (b : Bytes)
    → (sp : Bytes) × (t : Bytes) × (r : Bytes) × Splits b sp t r × Finds t r (find_next_token b)
find_next_token-Splits b =
    let (sp, t, r, cut) = text-IsCut b in
    let result = find_next_token-token_result cut in
    (sp, t, r, IsCut-Splits cut, rw result (token_result-Finds t r))
