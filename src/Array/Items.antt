-- ===== src/Array/Items.antt =====
-- src/memory.h: the array operations on the bytes of a block, cut at the places of the items.
use mathlib.Core.List.{append_assoc, append-nil}
use bbae.Common.{
  ℕ, zero, suc, ◌+◌, ◌-◌, ◌*◌, ◌≤◌, ◌≡◌, ap, sym, ◌∙◌, Bool, true, [], ◌∷◌, ◌++◌, Run, ok, assert,
  ◌>>◌, leb, Bytes, length, take, drop, replicate, arith, length-append, length-take,
  length-replicate, take_all, drop_all, take_at, drop_at, Bool-cases, inl, inr,
}
use bbae.Array.{
  memmove, resized_bytes, array_erase_impl, array_insert_impl, write_item, array_insert,
  alloc_prefix_size,
}

take_two : (n : ℕ) (p q t : Bytes) → n ≡ length p + length q → take n (p ++ (q ++ t)) ≡ p ++ q
take_two n p q t h =
    ap (λ (b : Bytes). take n b) (sym (append_assoc p q t))
    ∙ take_at n (p ++ q) t (h ∙ sym (length-append p q))

drop_two : (n : ℕ) (p q t : Bytes) → n ≡ length p + length q → drop n (p ++ (q ++ t)) ≡ t
drop_two n p q t h =
    ap (λ (b : Bytes). drop n b) (sym (append_assoc p q t))
    ∙ drop_at n (p ++ q) t (h ∙ sym (length-append p q))

length_three : (p x q : Bytes) → length (p ++ (x ++ q)) ≡ length p + length x + length q
length_three p x q = omega (arith, length-append p (x ++ q), length-append x q)

-- The bytes behind `x` move down over it.
memmove_down :
    (p x q : Bytes) (dst src n : ℕ)
    → dst ≡ length p
    → src ≡ length p + length x
    → n ≡ length q
    → memmove (p ++ (x ++ q)) dst src n
      ≡ ok (p ++ (q ++ drop (length p + length q) (p ++ (x ++ q))))
unfolding memmove
memmove_down p x q dst src n d s e =
    let size = length_three p x q in
    let inside : leb (src + n) (length (p ++ (x ++ q))) ≡ true = ground arith in
    let inside' : leb (dst + n) (length (p ++ (x ++ q))) ≡ true = ground arith in
    let same : dst + n ≡ length p + length q = omega arith in
    rw (
      inside,
      inside',
      take_at dst p (x ++ q) d,
      drop_two src p x q s,
      take_all n q (omega arith),
      same,
    )

take_over : (n k : ℕ) (p r : Bytes) → n ≡ length p + k → take n (p ++ r) ≡ p ++ take k r
take_over n k [] r h = let same : n ≡ k = omega arith in rw same
take_over zero k (c ∷ p) r h = absurd (omega arith)
take_over (suc n) k (c ∷ p) r h = rw (take_over n k p r (omega arith))

-- The bytes `q` move up by the length of `z`.
memmove_up :
    (p q z : Bytes) (dst src n : ℕ)
    → src ≡ length p
    → dst ≡ length p + length z
    → n ≡ length q
    → memmove (p ++ (q ++ z)) dst src n ≡ ok (p ++ (take (length z) (q ++ z) ++ q))
unfolding memmove
memmove_up p q z dst src n s d e =
    let size = length_three p q z in
    let inside : leb (src + n) (length (p ++ (q ++ z))) ≡ true = ground arith in
    let inside' : leb (dst + n) (length (p ++ (q ++ z))) ≡ true = ground arith in
    let end : length (p ++ (q ++ z)) ≤ dst + n = omega arith in
    rw
      (
        inside,
        inside',
        drop_at src p (q ++ z) s,
        take_at n q z e,
        drop_all (dst + n) (p ++ (q ++ z)) end,
        append-nil,
        take_over dst (length z) p (q ++ z) d,
      )
      (ap ok (append_assoc p (take (length z) (q ++ z)) q))

module _ (serves : ℕ → Bool) where
  -- Either the allocation of `n` bytes is refused or the result stands.
  abbrev pub served : {A : Type 0} → ℕ → A → Run A
  served n a = assert (serves (n + alloc_prefix_size)) >> ok a

  pub resized_down :
      (b t : Bytes) (n : ℕ) → n ≡ length b → resized_bytes serves (b ++ t) n ≡ served n b
  unfolding resized_bytes
  resized_down b t n h =
      let none_added : n - length (b ++ t) ≡ 0 = omega (arith, length-append b t) in
      rw (take_at n b t h, none_added, append-nil)

  resized_up :
      (b : Bytes) (n w : ℕ)
      → n ≡ length b + w
      → resized_bytes serves b n ≡ served n (b ++ replicate w 0)
  unfolding resized_bytes
  resized_up b n w h =
      let added : n - length b ≡ w = omega arith in rw (take_all n b (omega arith), added)

  -- Erasing the bytes `x`.
  pub array_erase_impl_bytes :
      (p x q : Bytes) (item_size index : ℕ)
      → item_size ≡ length x
      → item_size * index ≡ length p
      → array_erase_impl serves (p ++ (x ++ q)) item_size index
        ≡ served (length p + length q) (p ++ q)
  unfolding array_erase_impl
  array_erase_impl_bytes p x q item_size index w start =
      let size = length_three p x q in
      let t = drop (length p + length q) (p ++ (x ++ q)) in
      let inside : leb (item_size * index + item_size) (length (p ++ (x ++ q))) ≡ true =
        ground arith in
      let left : length (p ++ (x ++ q)) - item_size ≡ length p + length q = omega arith in
      rw
        (
          inside,
          memmove_down p x q (item_size * index) (item_size * index + item_size)
              (length (p ++ (x ++ q)) - item_size * index - item_size) start (omega arith)
              (omega arith),
          left,
        )
        (ap (λ (b : Bytes). resized_bytes serves b (length p + length q)) (sym (append_assoc p q t))
          ∙ resized_down (p ++ q) t (length p + length q) (sym (length-append p q)))

  write_item_at :
      (p z q item : Bytes) (start : ℕ)
      → start ≡ length p
      → length z ≡ length item
      → write_item serves (p ++ (z ++ q)) start item ≡ ok (p ++ (item ++ q))
  unfolding write_item
  write_item_at p z q item start s w =
      let size = length_three p z q in
      let inside : leb (start + length item) (length (p ++ (z ++ q))) ≡ true = ground arith in
      rw (inside, take_at start p (z ++ q) s, drop_two (start + length item) p z q (omega arith))

  array_insert_impl_bytes :
      (p q : Bytes) (item_size index : ℕ)
      → item_size * index ≡ length p
      → array_insert_impl serves (p ++ q) item_size index
        ≡ served
            (length p + length q + item_size)
            (p ++ (take item_size (q ++ replicate item_size 0) ++ q))
  unfolding array_insert_impl
  array_insert_impl_bytes p q item_size index start =
      let z : Bytes = replicate item_size 0 in
      let width : length z ≡ item_size = length-replicate item_size 0 in
      let size : length (p ++ q) + item_size ≡ length p + length q + item_size =
        omega (arith, length-append p q) in
      let n = length p + length q + item_size in
      let inside : leb (item_size * index + item_size) n ≡ true = ground arith in
      let up =
        memmove_up p q z (item_size * index + item_size) (item_size * index)
          (n - item_size * index - item_size) start (omega arith) (omega arith) in
      let up' : memmove ((p ++ q) ++ z) (item_size * index + item_size) (item_size * index)
            (n - item_size * index - item_size)
          ≡ ok (p ++ (take item_size (q ++ z) ++ q)) =
        rw append_assoc (up ∙ ap (λ (k : ℕ). ok (p ++ (take k (q ++ z) ++ q))) width) in
      elim (Bool-cases (serves (n + alloc_prefix_size))) [
        | inl yes_served ↦
            rw
              (
                size,
                resized_up (p ++ q) n item_size (omega (arith, length-append p q)),
                yes_served,
                inside,
              )
              up'
        | inr refused ↦
            rw (size, resized_up (p ++ q) n item_size (omega (arith, length-append p q)), refused)
      ]

  -- Inserting the bytes `item`.
  pub array_insert_bytes :
      (p q item : Bytes) (index : ℕ)
      → length item * index ≡ length p
      → array_insert serves (p ++ q) index item
        ≡ served (length p + length q + length item) (p ++ (item ++ q))
  unfolding array_insert
  array_insert_bytes p q item index start =
      let n = length p + length q + length item in
      let z : Bytes = take (length item) (q ++ replicate (length item) 0) in
      let width : length z ≡ length item = omega (
        arith,
        length-take (length item) (q ++ replicate (length item) 0),
        length-append q (replicate (length item) 0),
        length-replicate {A = ℕ} (length item) 0,
      ) in
      elim (Bool-cases (serves (n + alloc_prefix_size))) [
        | inl yes_served ↦
            rw (array_insert_impl_bytes p q (length item) index start, yes_served)
              (write_item_at p z q item (length item * index) start width)
        | inr refused ↦ rw (array_insert_impl_bytes p q (length item) index start, refused)
      ]
