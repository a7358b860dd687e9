-- ===== src/Array/Laws.antt =====
-- src/memory.h: the arrays as lists of items of one width.
use bbae.Common.{
  ℕ, ◌+◌, ◌-◌, ◌*◌, ◌≡◌, refl, sym, Bool, true, List, [], ◌∷◌, ◌++◌, ◌>>=◌, leb, Bytes, length,
  arith, length-append, take_all, drop_at, All, Bool-cases, inl, inr,
}
use mathlib.Core.List.{append_assoc}
use bbae.Array.{array_erase_impl, array_insert, array_chop_impl, fresh_bytes, alloc_prefix_size}
use bbae.Array.Items.{served, array_erase_impl_bytes, array_insert_bytes, resized_down}

-- The bytes of a row of items.
abbrev pub flat : List Bytes → Bytes
flat [] = []
flat (x ∷ items) = x ++ flat items

-- Every item has the width.
abbrev pub HasWidth : ℕ → List Bytes → Type 0
HasWidth w items = All (λ x. length x ≡ w) items

flat-append : (l r : List Bytes) → flat (l ++ r) ≡ flat l ++ flat r
flat-append [] r = refl
flat-append (x ∷ l) r = rw (flat-append l r, append_assoc)

length-flat :
    (w : ℕ) (items : List Bytes) → HasWidth w items → length (flat items) ≡ w * length items
length-flat w [] h = omega arith
length-flat w (x ∷ items) h =
    omega (arith, length-append x (flat items), length-flat w items h.1, h.0)

module _ (serves : ℕ → Bool) where
  -- `array_erase` takes out the item at the index and closes the gap, where the smaller block is
  -- served.
  pub array_erase_impl-flat :
      (w : ℕ) (l : List Bytes) (x : Bytes) (r : List Bytes)
      → HasWidth w l
      → length x ≡ w
      → HasWidth w r
      → array_erase_impl serves (flat (l ++ x ∷ r)) w (length l)
        ≡ served serves (w * (length l + length r)) (flat (l ++ r))
  array_erase_impl-flat w l x r left here right =
      let size : w * (length l + length r) ≡ length (flat l) + length (flat r) =
        omega (arith, length-flat w l left, length-flat w r right) in
      rw (flat-append l (x ∷ r), flat-append l r, size)
        (array_erase_impl_bytes serves (flat l) x (flat r) w (length l) (sym here)
          (sym (length-flat w l left)))

  -- `array_insert` puts the item at the index and keeps the others in their order, where the larger
  -- block is served.
  pub array_insert-flat :
      (l : List Bytes) (x : Bytes) (r : List Bytes)
      → HasWidth (length x) l
      → HasWidth (length x) r
      → array_insert serves (flat (l ++ r)) (length l) x
        ≡ served serves (length x * (length l + length r + 1)) (flat (l ++ x ∷ r))
  array_insert-flat l x r left right =
      let size : length x * (length l + length r + 1)
          ≡ length (flat l) + length (flat r) + length x =
        omega (arith, length-flat (length x) l left, length-flat (length x) r right) in
      rw (flat-append l r, flat-append l (x ∷ r), size)
        (array_insert_bytes serves (flat l) (flat r) x (length l)
          (sym (length-flat (length x) l left)))

  chopped :
      (p q : Bytes) (start end n : ℕ)
      → start ≡ length p
      → end ≡ length p + length q
      → n ≡ length q
      → array_chop_impl serves (p ++ q) start end
        ≡ (served serves n tt >>= λ _. served serves start (q, p))
  unfolding array_chop_impl fresh_bytes
  chopped p q start end n s e m =
      let below : leb start end ≡ true = ground arith in
      let inside : leb end (length (p ++ q)) ≡ true = ground (arith, length-append p q) in
      let behind : end - start ≡ n = omega arith in
      elim (Bool-cases (serves (n + alloc_prefix_size))) [
        | inr refused ↦ rw (below, inside, behind, refused)
        | inl first ↦ elim (Bool-cases (serves (start + alloc_prefix_size))) [
          | inr refused ↦
              rw (below, inside, behind, first, resized_down serves p q start s, refused)
          | inl second ↦ rw (
            below,
            inside,
            behind,
            first,
            resized_down serves p q start s,
            second,
            drop_at start p q s,
            take_all n q (omega arith),
          )
        ]
      ]

  -- `array_chop` splits the array: the items from the index on go to a new one, those before stay,
  -- where both blocks are served.
  pub array_chop_impl-flat :
      (w : ℕ) (l r : List Bytes)
      → HasWidth w l
      → HasWidth w r
      → array_chop_impl serves (flat (l ++ r)) (w * length l) (w * (length l + length r))
        ≡ (served serves (w * length r) tt >>= λ _. served serves (w * length l) (flat r, flat l))
  array_chop_impl-flat w l r left right =
      let first = length-flat w l left in
      let second = length-flat w r right in
      rw (flat-append l r) (
        chopped (flat l) (flat r) (w * length l) (w * (length l + length r)) (w * length r)
          (sym first) (omega (arith, first, second)) (sym second))
