-- ===== src/Alloc/Chain.antt =====
-- src/memory.h: the list of the allocations, and `zero_alloc`, which puts a block in front of it.
use bbae.Common.{
  ℕ, ◌+◌, ◌-◌, ◌^◌, ◌<◌, ◌≡◌, ◌≢◌, refl, sym, ap, ◌∙◌, subst, inl, inr, true, false, List, [], ◌∷◌,
  Option, none, some, ok, ◌==◌, ==_iff, Bytes, length, replicate, arith, Bool-cases,
  length-replicate, some_not_none, true_not_false,
}
use bbae.Ir.{update}
use bbae.Ir.Update.{update_self, update_ne}
use bbae.Ir.Substitute.{mem}
use bbae.Regalloc.Args.{IsOnce}
use bbae.Alloc.{
  Allocation, Memory, Allocs, zero_alloc, change_in, change_linked, cleared, with_prefix,
}

-- The size in the prefix is that of the data, and leaves room for the prefix in 64 bits.
abbrev pub IsSized : Allocation → Type 0
IsSized b = (b.size ≡ length b.bytes) × (b.size + 64 < 2 ^ 64)

-- The blocks at the addresses, each with the one before it and the one behind it, and sized.
abbrev pub IsSegment : Memory → Option ℕ → Option ℕ → List ℕ → Type 0
IsSegment memory prev head [] = head ≡ none
IsSegment memory prev head (a ∷ addrs) =
    (head ≡ some a)
    × (b : Allocation) × (memory a ≡ some b)
    × (b.prev ≡ prev)
    × IsSized b
    × IsSegment memory (some a) b.next addrs

-- The list goes through all the blocks that are not freed, once through each.
pub record IsChain (s : Allocs) (addrs : List ℕ) : Type 0 where
  pub linked : IsSegment s.memory none s.alloc_list addrs
  pub once : IsOnce addrs
  pub live : (a : ℕ) → mem a addrs ≡ false → s.memory a ≡ none

-- What the C library says of `realloc`: a new address is not one of a block that is not freed.
pub record IsFresh (realloc : Memory → Option ℕ → ℕ → Option ℕ) : Type 0 where
  pub fresh : (memory : Memory) (n a : ℕ) → realloc memory none n ≡ some a → memory a ≡ none
  pub moved :
      (memory : Memory) (old n a : ℕ)
      → realloc memory (some old) n ≡ some a
      → a ≢ old
      → memory a ≡ none

-- The data of a block, if it is not freed.
abbrev pub data_in : Option Allocation → Option Bytes
data_in none = none
data_in (some b) = some b.bytes

abbrev pub data_of : Allocs → ℕ → Option Bytes
data_of s a = data_in (s.memory a)

-- A segment depends on the memory at its addresses only.
pub IsSegment-agree :
    (m m' : Memory) (prev head : Option ℕ) (addrs : List ℕ)
    → ((a : ℕ) → mem a addrs ≡ true → m' a ≡ m a)
    → IsSegment m prev head addrs
    → IsSegment m' prev head addrs
IsSegment-agree m m' prev head [] agree seg = seg
IsSegment-agree m m' prev head (a ∷ addrs) agree (at, b, here, back, size, rest) = (
  at,
  b,
  agree a (ground arith) ∙ here,
  back,
  size,
  IsSegment-agree m m' (some a) b.next addrs (λ x e. agree x (ground arith)) rest,
)

-- The write of the new block's address into the block that was the first one.
relinked :
    (m : Memory) (prev head : Option ℕ) (addrs : List ℕ) (new : Option ℕ)
    → IsSegment m prev head addrs
    → IsOnce addrs
    → (m' : Memory) × (change_linked head (λ b. record b { prev = new }) m ≡ ok m')
      × IsSegment m' new head addrs
      × ((a : ℕ) → mem a addrs ≡ false → m' a ≡ m a)
      × ((a : ℕ) → data_in (m' a) ≡ data_in (m a))
relinked m prev head [] new seg once =
    (m, ap (λ h. change_linked h (λ b. record b { prev = new }) m) seg, seg, λ a e. refl, λ a. refl)
relinked m prev head (x ∷ addrs) new (at, b, here, back, size, rest) (off, once) =
    let m' = update m x (some (record b { prev = new })) in
    (
      m',
      ap (λ h. change_linked h (λ b. record b { prev = new }) m) at
          ∙ ap (change_in m x (λ b. record b { prev = new })) here,
      (
        at,
        record b { prev = new },
        ground arith,
        refl,
        size,
        IsSegment-agree m m' (some x) b.next addrs (λ a e. ground arith) rest,
      ),
      λ a e. ground arith,
      λ a. elim (Bool-cases (a == x)) [
        | inl same ↦
            let e = (==_iff a x).0 same in
            ap (λ y. data_in (m' y)) e
            ∙ ap data_in (update_self m x (some (record b { prev = new })))
            ∙ ap data_in (sym here ∙ ap m (sym e))
        | inr ne ↦ rw ne refl
      ],
    )

pub mem-ne : (x a : ℕ) (addrs : List ℕ) → mem x addrs ≡ true → mem a addrs ≡ false → x ≢ a
mem-ne x a addrs e off same = true_not_false (sym e ∙ ap (λ y. mem y addrs) same ∙ off)

pub head_ne : (x a : ℕ) (addrs : List ℕ) → mem x (a ∷ addrs) ≡ false → x ≢ a
head_ne x a addrs e = ground arith

pub tail_off : (x a : ℕ) (addrs : List ℕ) → mem x (a ∷ addrs) ≡ false → mem x addrs ≡ false
tail_off x a addrs e = ground arith

pub less_prefix : (n : ℕ) → n + 64 - 64 ≡ n
less_prefix n = omega arith

pub in_segment :
    (m : Memory) (prev head : Option ℕ) (addrs : List ℕ) (x : ℕ)
    → IsSegment m prev head addrs
    → mem x addrs ≡ true
    → m x ≢ none
in_segment m prev head [] x seg e = cc
in_segment m prev head (a ∷ addrs) x (at, b, here, back, size, rest) e =
    elim (Bool-cases (x == a)) [
      | inl same ↦ λ gone. some_not_none (sym here ∙ ap m (sym ((==_iff x a).0 same)) ∙ gone)
      | inr ne ↦ in_segment m (some a) b.next addrs x rest (ground arith)
    ]

pub IsSized-on :
    (m : Memory) (prev head : Option ℕ) (addrs : List ℕ) (x : ℕ) (bx : Allocation)
    → IsSegment m prev head addrs
    → mem x addrs ≡ true
    → m x ≡ some bx
    → IsSized bx
IsSized-on m prev head [] x bx seg e at = cc
IsSized-on m prev head (a ∷ addrs) x bx (first, b, here, back, size, rest) e at =
    elim (Bool-cases (x == a)) [
      | inl same ↦
          let eq = (==_iff x a).0 same in let alike : b ≡ bx = cc in subst IsSized alike size
      | inr ne ↦ IsSized-on m (some a) b.next addrs x bx rest (ground arith) at
    ]

pub not_in_segment :
    (m : Memory) (prev head : Option ℕ) (addrs : List ℕ) (x : ℕ)
    → IsSegment m prev head addrs
    → m x ≡ none
    → mem x addrs ≡ false
not_in_segment m prev head addrs x seg gone = elim (Bool-cases (mem x addrs)) [
  | inl among ↦ absurd (in_segment m prev head addrs x seg among gone)
  | inr off ↦ off
]

pub with_prefix-ok : (n : ℕ) → n + 64 < 2 ^ 64 → with_prefix n ≡ ok (n + 64)
with_prefix-ok n fits = ground arith

module _ (realloc : Memory → Option ℕ → ℕ → Option ℕ) (s : Allocs) (n a : ℕ) where
  -- The new block before its size is written.
  abbrev added : Allocation
  added = record (cleared (n + 64)) { next = s.alloc_list }

  abbrev entered : Memory
  entered = update s.memory a (some added)

  abbrev after_alloc : Memory → Allocs
  after_alloc m = record {
    alloc_list = some a;
    memory = update m a (some (record added { size = n + 64 - 64 }));
  }

  zero_alloc_run :
      (m : Memory)
      → n + 64 < 2 ^ 64
      → realloc s.memory none (n + 64) ≡ some a
      → change_linked s.alloc_list (λ b. record b { prev = some a }) entered ≡ ok m
      → m a ≡ some added
      → zero_alloc realloc s n ≡ ok (a + 64, after_alloc m)
  unfolding zero_alloc
  zero_alloc_run m fits gives run here = rw (with_prefix-ok n fits, gives, run, here) refl

  -- Where the C library serves the request, `zero_alloc` puts a block of zeros in front of the list
  -- and leaves the data of all other blocks as it was.
  pub zero_alloc-IsChain :
      (addrs : List ℕ)
      → IsFresh realloc
      → IsChain s addrs
      → n + 64 < 2 ^ 64
      → realloc s.memory none (n + 64) ≡ some a
      → (s' : Allocs) × (zero_alloc realloc s n ≡ ok (a + 64, s'))
        × IsChain s' (a ∷ addrs)
        × (data_of s' a ≡ some (replicate n 0))
        × ((b : ℕ) → b ≢ a → data_of s' b ≡ data_of s b)
  zero_alloc-IsChain addrs library chain fits gives =
      let gone = library.fresh s.memory (n + 64) a gives in
      let off = not_in_segment s.memory none s.alloc_list addrs a chain.linked gone in
      let (m, run, seg, kept, same) =
        relinked entered none s.alloc_list addrs (some a)
          (IsSegment-agree s.memory entered none s.alloc_list addrs
            (λ x e. update_ne s.memory a (some added) x (mem-ne x a addrs e off)) chain.linked)
          chain.once in
      let here = kept a off ∙ update_self s.memory a (some added) in
      (
        after_alloc m,
        zero_alloc_run m fits gives run here,
        record {
          linked = (
            refl,
            record added { size = n + 64 - 64 },
            update_self m a (some (record added { size = n + 64 - 64 })),
            refl,
            (sym (length-replicate (n + 64 - 64) 0), omega arith),
            IsSegment-agree m (after_alloc m).memory (some a) s.alloc_list addrs
                (λ x e.
                  update_ne m a (some (record added { size = n + 64 - 64 })) x
                    (mem-ne x a addrs e off))
                seg,
          );
          once = (off, chain.once);
          live = λ x e.
              let ne = head_ne x a addrs e in
              update_ne m a (some (record added { size = n + 64 - 64 })) x ne
              ∙ kept x (tail_off x a addrs e)
              ∙ update_ne s.memory a (some added) x ne
              ∙ chain.live x (tail_off x a addrs e);
        },
        ap data_in (update_self m a (some (record added { size = n + 64 - 64 })))
            ∙ ap (λ k. some (replicate k 0)) (less_prefix n),
        λ x ne.
            ap data_in (update_ne m a (some (record added { size = n + 64 - 64 })) x ne)
            ∙ same x
            ∙ ap data_in (update_ne s.memory a (some added) x ne),
      )
