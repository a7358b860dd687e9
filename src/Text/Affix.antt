-- ===== src/Text/Affix.antt =====
-- src/memory.h: the prefix and suffix tests.
use bbae.Common.{
  ℕ, zero, suc, ◌-◌, ◌≤◌, ◌≡◌, ◌↔◌, refl, ap, sym, ◌∙◌, true, [], ◌∷◌, ◌++◌, Bytes, length, take,
  drop, arith, length-append, str_same→eq, str_same_refl, take-append-drop, take_all, length-drop,
}
use bbae.Text.{str_begins_with, str_ends_with}

take-append : (b r : Bytes) → take (length b) (b ++ r) ≡ b
take-append [] r = refl
take-append (x ∷ b) r = ap (λ (t : Bytes). x ∷ t) (take-append b r)

drop-append : (b r : Bytes) → drop (length b) (b ++ r) ≡ r
drop-append [] r = refl
drop-append (x ∷ b) r = drop-append b r

length_zero : (bs : Bytes) → length bs ≡ 0 → bs ≡ []
length_zero [] h = refl
length_zero (c ∷ bs) h = absurd (omega arith)

take_none : (n : ℕ) (a b : Bytes) → length b ≡ n → n ≡ 0 → take n a ≡ b
take_none zero a [] h e = refl
take_none zero a (c ∷ b) h e = absurd (omega arith)
take_none (suc n) a b h e = absurd (omega arith)

begins_taken : (a b : Bytes) → str_begins_with a b ≡ true → take (length b) a ≡ b
unfolding str_begins_with
begins_taken a b h =
    ground (arith, str_same→eq (take (length b) a) b, take_none (length b) a b refl)

-- The prefix test decides whether the one text starts with the other.
pub str_begins_with_iff :
    (a b : Bytes) → (str_begins_with a b ≡ true) ↔ ((r : Bytes) × (a ≡ b ++ r))
unfolding str_begins_with
str_begins_with_iff a b = (found, built)
  where
    found : str_begins_with a b ≡ true → (r : Bytes) × (a ≡ b ++ r)
    found h = (
      drop (length b) a,
      sym (take-append-drop (length b) a)
          ∙ ap (λ (t : Bytes). t ++ drop (length b) a) (begins_taken a b h),
    )

    built : ((r : Bytes) × (a ≡ b ++ r)) → str_begins_with a b ≡ true
    built (r, e) = rw e (ground (arith, length-append b r, take-append b r, str_same_refl b))

-- On texts that are long enough, the suffix test looks at the last bytes.
ends_dropped : (a b : Bytes) → str_ends_with a b ≡ true → drop (length a - length b) a ≡ b
unfolding str_ends_with
ends_dropped a b h =
    let last : Bytes = drop (length a - length b) a in
    let size : length b ≤ length a = ground arith in
    let last_size : length last ≡ length b = omega (arith, length-drop (length a - length b) a) in
    let whole : take (length b) last ≡ last = take_all (length b) last (omega arith) in
    ground (arith, str_same→eq (take (length b) last) b, take_none (length b) last b refl, whole)

-- The suffix test decides whether the one text ends with the other.
pub str_ends_with_iff : (a b : Bytes) → (str_ends_with a b ≡ true) ↔ ((r : Bytes) × (a ≡ r ++ b))
unfolding str_ends_with
str_ends_with_iff a b = (found, built)
  where
    found : str_ends_with a b ≡ true → (r : Bytes) × (a ≡ r ++ b)
    found h = (
      take (length a - length b) a,
      sym (take-append-drop (length a - length b) a)
          ∙ ap (λ (t : Bytes). take (length a - length b) a ++ t) (ends_dropped a b h),
    )

    built : ((r : Bytes) × (a ≡ r ++ b)) → str_ends_with a b ≡ true
    built (r, e) =
        let size : length (r ++ b) - length b ≡ length r = omega (arith, length-append r b) in
        rw (e, size, drop-append)
          (ground (arith, length-append r b, take_all (length b) b, str_same_refl b))
