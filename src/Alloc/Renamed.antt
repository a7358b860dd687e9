-- ===== src/Alloc/Renamed.antt =====
-- src/memory.h: what the list's links say of each other, and the list after one block has moved to
-- another address.
use bbae.Common.{
  ℕ, ◌≡◌, ◌≢◌, sym, ap, ◌∙◌, subst, inl, inr, ◌⊎◌, Bool, true, false, List, [], ◌∷◌, Option, none,
  some, ◌||◌, ◌==◌, ==_iff, if◌then◌else◌, arith, Bool-cases, some_injective, some_not_none,
  true_not_false,
}
use bbae.Ir.Substitute.{mem}
use bbae.Regalloc.Args.{IsOnce}
use bbae.Alloc.{Allocation, Memory, Allocs, moved_head}
use bbae.Alloc.Chain.{IsSized, IsSegment, IsChain}

abbrev next_in : Option Allocation → Option ℕ
next_in none = none
next_in (some b) = b.next

abbrev prev_in : Option Allocation → Option ℕ
prev_in none = none
prev_in (some b) = b.prev

abbrev pub next_of : Memory → ℕ → Option ℕ
next_of m a = next_in (m a)

abbrev pub prev_of : Memory → ℕ → Option ℕ
prev_of m a = prev_in (m a)

-- The first block of a segment has the given one before it.
first_prev :
    (m : Memory) (prev head : Option ℕ) (addrs : List ℕ) (z : ℕ)
    → IsSegment m prev head addrs
    → head ≡ some z
    → (mem z addrs ≡ true) × (prev_of m z ≡ prev)
first_prev m prev head [] z seg e = absurd (some_not_none (sym e ∙ seg))
first_prev m prev head (a ∷ addrs) z (at, b, here, back, size, rest) e =
    let same = some_injective (sym at ∙ e) in
    (ground arith, ap (prev_of m) (sym same) ∙ ap prev_in here ∙ back)

-- The block behind another one names that as the one before it.
pub next-prev :
    (m : Memory) (prev head : Option ℕ) (addrs : List ℕ) (y z : ℕ)
    → IsSegment m prev head addrs
    → mem y addrs ≡ true
    → next_of m y ≡ some z
    → (mem z addrs ≡ true) × (prev_of m z ≡ some y)
next-prev m prev head [] y z seg among e = cc
next-prev m prev head (a ∷ addrs) y z (at, b, here, back, size, rest) among e =
    elim (Bool-cases (y == a)) [
      | inl same ↦
          let eq = (==_iff y a).0 same in
          let (later, found) =
            first_prev m (some a) b.next addrs z rest
              (sym (ap next_in here) ∙ ap (next_of m) (sym eq) ∙ e) in
          (ground arith, found ∙ ap some (sym eq))
      | inr ne ↦
          let (later, found) = next-prev m (some a) b.next addrs y z rest (ground arith) e in
          (ground arith, found)
    ]

-- The block before another one names that as the one behind it, but for the first block.
prev_next :
    (m : Memory) (prev head : Option ℕ) (addrs : List ℕ) (y z : ℕ)
    → IsSegment m prev head addrs
    → mem y addrs ≡ true
    → prev_of m y ≡ some z
    → ((prev ≡ some z) × (head ≡ some y)) ⊎ ((mem z addrs ≡ true) × (next_of m z ≡ some y))
prev_next m prev head [] y z seg among e = cc
prev_next m prev head (a ∷ addrs) y z (at, b, here, back, size, rest) among e =
    elim (Bool-cases (y == a)) [
      | inl same ↦
          let eq = (==_iff y a).0 same in
          inl
            (sym back ∙ sym (ap prev_in here) ∙ ap (prev_of m) (sym eq) ∙ e, at ∙ ap some (sym eq))
      | inr ne ↦ elim (prev_next m (some a) b.next addrs y z rest (ground arith) e) [
        | inl (first, second) ↦
            let eq = some_injective first in
            inr (ground arith, ap (next_of m) (sym eq) ∙ ap next_in here ∙ second)
        | inr (later, found) ↦ inr (ground arith, found)
      ]
    ]

not_itself :
    (m : Memory) (prev head : Option ℕ) (addrs : List ℕ) (y : ℕ)
    → IsSegment m prev head addrs
    → IsOnce addrs
    → mem y addrs ≡ true
    → next_of m y ≢ some y
not_itself m prev head [] y seg once among e = cc
not_itself m prev head (a ∷ addrs) y (at, b, here, back, size, rest) (off, once) among e =
    elim (Bool-cases (y == a)) [
      | inl same ↦
          let eq = (==_iff y a).0 same in
          let later =
            (first_prev m (some a) b.next addrs y rest
              (sym (ap next_in here) ∙ ap (next_of m) (sym eq) ∙ e)).0 in
          true_not_false (sym later ∙ ap (λ x. mem x addrs) eq ∙ off)
      | inr ne ↦ not_itself m (some a) b.next addrs y rest once (ground arith) e
    ]

-- The same for a whole list, where every block that is not freed is on the list.
module _ (s : Allocs) (addrs : List ℕ) (chain : IsChain s addrs) where
  pub on_list : (y : ℕ) → s.memory y ≢ none → mem y addrs ≡ true
  on_list y there = elim (Bool-cases (mem y addrs)) [
    | inl among ↦ among
    | inr off ↦ absurd (there (chain.live y off))
  ]

  pub back_link : (y z : ℕ) → next_of s.memory y ≡ some z → prev_of s.memory z ≡ some y
  back_link y z e =
      (next-prev s.memory none s.alloc_list addrs y z chain.linked (on_list y (linked_next y z e))
        e).1
    where
      linked_next : (y z : ℕ) → next_of s.memory y ≡ some z → s.memory y ≢ none
      linked_next y z e gone = some_not_none (sym e ∙ ap next_in gone)

  pub forward_link : (y z : ℕ) → prev_of s.memory y ≡ some z → next_of s.memory z ≡ some y
  forward_link y z e =
      elim (prev_next s.memory none s.alloc_list addrs y z chain.linked
        (on_list y (linked_prev y z e)) e) [
          | inl (first, second) ↦ absurd (some_not_none (sym first))
          | inr (among, found) ↦ found
        ]
    where
      linked_prev : (y z : ℕ) → prev_of s.memory y ≡ some z → s.memory y ≢ none
      linked_prev y z e gone = some_not_none (sym e ∙ ap prev_in gone)

  pub next_ne : (y : ℕ) → next_of s.memory y ≢ some y
  next_ne y e =
      not_itself s.memory none s.alloc_list addrs y chain.linked chain.once
        (on_list y (λ gone. some_not_none (sym e ∙ ap next_in gone))) e

  pub prev_ne : (y : ℕ) → prev_of s.memory y ≢ some y
  prev_ne y e = next_ne y (forward_link y y e)

-- The new address for the old one.
abbrev pub renamed : ℕ → ℕ → ℕ → ℕ
renamed old new x = if x == old then new else x

abbrev pub renamed_all : ℕ → ℕ → List ℕ → List ℕ
renamed_all old new [] = []
renamed_all old new (x ∷ addrs) = renamed old new x ∷ renamed_all old new addrs

-- The block of the later memory that an address of the earlier one stands for.
abbrev pub IsRenamed : ℕ → ℕ → Memory → ℕ → Allocation → Type 0
IsRenamed old new m' x b =
    (b' : Allocation) × (m' (renamed old new x) ≡ some b')
    × (b'.next ≡ moved_head b.next old new)
    × (b'.prev ≡ moved_head b.prev old new)
    × IsSized b'

pub not_equal : (x y : ℕ) → (x == y) ≡ false → x ≢ y
not_equal x y ne e = ground arith

mem_head : (a : ℕ) (addrs : List ℕ) → mem a (a ∷ addrs) ≡ true
mem_head a addrs = ground arith

mem_tail : (x a : ℕ) (addrs : List ℕ) → mem x addrs ≡ true → mem x (a ∷ addrs) ≡ true
mem_tail x a addrs e = ground arith

off_tail : (x a : ℕ) (addrs : List ℕ) → mem x (a ∷ addrs) ≡ false → mem x addrs ≡ false
off_tail x a addrs e = ground arith

off_head : (x a : ℕ) (b : Bool) → (x == a || b) ≡ false → (x == a) ≡ false
off_head x a b e = ground arith

not_head :
    (x a : ℕ) (addrs : List ℕ) → (a == x) ≡ false → mem x (a ∷ addrs) ≡ true → mem x addrs ≡ true
not_head x a addrs ne e = ground arith

moved_some : (old new x : ℕ) → moved_head (some x) old new ≡ some (renamed old new x)
moved_some old new x = ground arith

pub IsSegment-renamed :
    (old new : ℕ) (m m' : Memory) (prev head : Option ℕ) (addrs : List ℕ)
    → ((x : ℕ) (b : Allocation) → m x ≡ some b → IsSized b → IsRenamed old new m' x b)
    → IsSegment m prev head addrs
    → IsSegment m' (moved_head prev old new) (moved_head head old new) (renamed_all old new addrs)
IsSegment-renamed old new m m' prev head [] all seg = ap (λ h. moved_head h old new) seg
IsSegment-renamed old new m m' prev head (a ∷ addrs) all (at, b, here, back, size, rest) =
    let (b', here', next', prev', size') = all a b here size in
    (
      ap (λ h. moved_head h old new) at ∙ moved_some old new a,
      b',
      here',
      prev' ∙ ap (λ p. moved_head p old new) back,
      size',
      subst (λ p. IsSegment m' p b'.next (renamed_all old new addrs)) (moved_some old new a)
          (subst (λ h. IsSegment m' (moved_head (some a) old new) h (renamed_all old new addrs))
            (sym next') (IsSegment-renamed old new m m' (some a) b.next addrs all rest)),
    )

-- The new address is the old one, or none of the others.
module _ (old new : ℕ) where
  renamed_injective :
      (x y : ℕ)
      → (x ≢ old → x ≢ new)
      → (y ≢ old → y ≢ new)
      → renamed old new x ≡ renamed old new y
      → x ≡ y
  renamed_injective x y fx fy e = elim (Bool-cases (x == old)) [
    | inl ox ↦ elim (Bool-cases (y == old)) [
      | inl oy ↦ (==_iff x old).0 ox ∙ sym ((==_iff y old).0 oy)
      | inr ny ↦ absurd (fy (λ s. not_equal y old ny s) (sym (rw (ox, ny) at e)))
    ]
    | inr nx ↦ elim (Bool-cases (y == old)) [
      | inl oy ↦ absurd (fx (λ s. not_equal x old nx s) (rw (nx, oy) at e))
      | inr ny ↦ rw (nx, ny) at e
    ]
  ]

  mem-renamed :
      (x : ℕ) (addrs : List ℕ)
      → (x ≢ old → x ≢ new)
      → ((y : ℕ) → mem y addrs ≡ true → y ≢ old → y ≢ new)
      → mem (renamed old new x) (renamed_all old new addrs) ≡ true
      → mem x addrs ≡ true
  mem-renamed x [] fx fresh e = e
  mem-renamed x (a ∷ addrs) fx fresh e =
      elim (Bool-cases (renamed old new x == renamed old new a)) [
        | inl same ↦
            let eq =
              renamed_injective x a fx (fresh a (mem_head a addrs))
                ((==_iff (renamed old new x) (renamed old new a)).0 same) in
            ap (λ y. mem y (a ∷ addrs)) eq ∙ mem_head a addrs
        | inr ne ↦
            mem_tail x a addrs
              (mem-renamed x addrs fx (λ y m. fresh y (mem_tail y a addrs m)) (rw ne at e))
      ]

  pub IsOnce-renamed :
      (addrs : List ℕ)
      → ((y : ℕ) → mem y addrs ≡ true → y ≢ old → y ≢ new)
      → IsOnce addrs
      → IsOnce (renamed_all old new addrs)
  IsOnce-renamed [] fresh once = tt
  IsOnce-renamed (a ∷ addrs) fresh (off, once) = (
    elim (Bool-cases (mem (renamed old new a) (renamed_all old new addrs))) [
      | inl among ↦ absurd (
          true_not_false (
            sym (
              mem-renamed a addrs (fresh a (mem_head a addrs))
                (λ y m. fresh y (mem_tail y a addrs m)) among)
            ∙ off))
      | inr none_left ↦ none_left
    ],
    IsOnce-renamed addrs (λ y m. fresh y (mem_tail y a addrs m)) once,
  )

  -- What is off the renamed list is off the list or the old address, and is not the new one.
  pub off-renamed :
      (x : ℕ) (addrs : List ℕ)
      → mem x (renamed_all old new addrs) ≡ false
      → x ≢ old
      → mem x addrs ≡ false
  off-renamed x [] off ne = off
  off-renamed x (a ∷ addrs) off ne =
      let later =
        off-renamed x addrs (off_tail x (renamed old new a) (renamed_all old new addrs) off) ne in
      elim (Bool-cases (a == old)) [
        | inl same ↦ ground arith
        | inr other ↦
            let apart : (x == a) ≡ false =
              off_head x a (mem x (renamed_all old new addrs)) (rw other at off) in
            ground arith
      ]

  pub new_among :
      (addrs : List ℕ) → mem old addrs ≡ true → mem new (renamed_all old new addrs) ≡ true
  new_among [] e = e
  new_among (a ∷ addrs) e = elim (Bool-cases (a == old)) [
    | inl same ↦ ground arith
    | inr other ↦
        mem_tail new (renamed old new a) (renamed_all old new addrs)
          (new_among addrs (not_head old a addrs other e))
  ]
