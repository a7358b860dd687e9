-- ===== src/Slots/Layout.antt =====
-- src/x86/bbae_emission_x86.h: the slots of a function do not overlap.
use bbae.Common.{
  ℕ, zero, suc, ◌+◌, ◌-◌, ◌%◌, ◌^◌, ◌≤◌, ◌<◌, ◌≡◌, refl, ◌∙◌, true, false, List, [], ◌∷◌, ok, arith,
  All, Bool-cases, inl, inr,
}
use bbae.Types.{size_guess_align}
use bbae.Types.Align.{size_guess_align-IsAlignOf}
use bbae.Statics.{pad_to}
use bbae.Statics.Layout.{padding, pad_to-multiple}
use bbae.Slots.{StackSlot, allocate_slots, has_bit, round_up_bit, allocate_stack_slots}

-- The slot's distance from RBP is a multiple of the alignment for its size.
abbrev pub IsAligned : StackSlot → Type 0
IsAligned s = (a : ℕ) × (size_guess_align s.size ≡ ok a) × (s.offset % a ≡ 0)

-- Going down from `top` bytes below RBP, the slots lie one under the other: each ends at or below
-- the beginning of every one before it.
abbrev pub IsStacked : ℕ → List StackSlot → Type 0
IsStacked top [] = Unit
IsStacked top (s ∷ slots) =
    IsAligned s
    × (top + s.size ≤ s.offset)
    × All (λ k. s.offset + k.size ≤ k.offset) slots
    × IsStacked s.offset slots

-- The bytes that the slots ask for.
abbrev pub total_size : List StackSlot → ℕ
total_size [] = 0
total_size (s ∷ slots) = s.size + 64 + total_size slots

abbrev pub SameSlots : List StackSlot → List StackSlot → Type 0
SameSlots [] [] = Unit
SameSlots [] (t ∷ ts) = ⊥
SameSlots (s ∷ ss) [] = ⊥
SameSlots (s ∷ ss) (t ∷ ts) = (s.name ≡ t.name) × (s.size ≡ t.size) × SameSlots ss ts

-- The offset of the last slot, or `top` where there is none.
abbrev pub last_offset : ℕ → List StackSlot → ℕ
last_offset top [] = top
last_offset top (s ∷ slots) = last_offset s.offset slots

-- The slots in their order, with the offsets under `offset`, and the last one as the height.
pub record Placed (offset : ℕ) (slots : List StackSlot) (r : List StackSlot × ℕ) : Type 0 where
  pub same : SameSlots r.0 slots
  pub stacked : IsStacked offset r.0
  pub inside : All (λ k. k.offset ≤ r.1) r.0
  pub below : All (λ k. offset + k.size ≤ k.offset) r.0
  pub last : r.1 ≡ last_offset offset r.0
  pub height : (offset ≤ r.1) × (r.1 ≤ offset + total_size slots)

All-weaker :
    (slots : List StackSlot) (low high : ℕ)
    → low ≤ high
    → All (λ (k : StackSlot). high + k.size ≤ k.offset) slots
    → All (λ (k : StackSlot). low + k.size ≤ k.offset) slots
All-weaker [] low high h a = tt
All-weaker (s ∷ slots) low high h a = (omega arith, All-weaker slots low high h a.1)

placed_at :
    (n : ℕ) (size : ℕ)
    → n + size + 64 < 2 ^ 64
    → (a : ℕ) × (size_guess_align size ≡ ok a)
      × (m : ℕ) × (pad_to 65 a ((n + size) % 2 ^ 64) ≡ ok m)
      × (m % a ≡ 0)
      × (n + size ≤ m)
      × (m ≤ n + size + 64)
placed_at n size fits =
    let (a, run, align) = size_guess_align-IsAlignOf size in
    let (d, few, multiple) = padding (n + size) a align.exponent align.power align.bounded in
    let (m, padded, e, lo, hi) =
      pad_to-multiple d 64 a (n + size) (omega arith) multiple (omega arith) in
    let same : (n + size) % 2 ^ 64 ≡ n + size = omega arith in
    (a, run, m, rw same padded, e, lo, omega arith)

allocate_slots-Placed :
    (offset : ℕ) (slots : List StackSlot)
    → offset + total_size slots < 2 ^ 64
    → (r : List StackSlot × ℕ) × (allocate_slots 65 offset slots ≡ ok r) × Placed offset slots r
unfolding allocate_slots
allocate_slots-Placed offset [] fits = (
  ([], offset),
  refl,
  record {
    same = tt;
    stacked = tt;
    inside = tt;
    below = tt;
    last = refl;
    height = (omega arith, omega arith);
  },
)
allocate_slots-Placed offset (s ∷ slots) fits =
    let (a, run, m, padded, multiple, lo, hi) = placed_at offset s.size (omega arith) in
    let (r, run', rest) = allocate_slots-Placed m slots (omega arith) in
    (
      (record s { offset = m } ∷ r.0, r.1),
      rw (run, padded, run') refl,
      record {
        same = (refl, refl, rest.same);
        stacked = ((a, run, multiple), lo, rest.below, rest.stacked);
        inside = (rest.height.0, rest.inside);
        below = (lo, All-weaker r.0 offset m (omega arith) rest.below);
        last = rest.last;
        height = (omega (arith, rest.height), omega (arith, rest.height));
      },
    )

round_up_bit_stop :
    (fuel bit height : ℕ)
    → has_bit bit height ≡ false
    → round_up_bit (suc fuel) bit height ≡ ok height
unfolding round_up_bit
round_up_bit_stop fuel bit height e = rw e refl

round_up_bit_step :
    (fuel bit height : ℕ)
    → has_bit bit height ≡ true
    → height + 1 < 2 ^ 64
    → round_up_bit (suc fuel) bit height ≡ round_up_bit fuel bit (height + 1)
unfolding round_up_bit
round_up_bit_step fuel bit height e small =
    let fits : (height + 1) % 2 ^ 64 ≡ height + 1 = omega arith in rw (e, fits) refl

-- `while (height & bit) height += 1` ends where some number of steps clears the bit.
round_up_bit-ends :
    (d fuel bit height : ℕ)
    → d ≤ fuel
    → has_bit bit (height + d) ≡ false
    → height + d < 2 ^ 64
    → (m : ℕ) × (round_up_bit (suc fuel) bit height ≡ ok m) × (height ≤ m) × (m ≤ height + d)
round_up_bit-ends zero fuel bit height few clear small =
    let same : height + 0 ≡ height = omega arith in
    let clear' : has_bit bit height ≡ false = rw same at clear in
    (height, round_up_bit_stop fuel bit height clear', omega arith, omega arith)
round_up_bit-ends (suc d) zero bit height few clear small = absurd (omega arith)
round_up_bit-ends (suc d) (suc fuel) bit height few clear small =
    elim (Bool-cases (has_bit bit height)) [
      | inr done ↦ (height, round_up_bit_stop (suc fuel) bit height done, omega arith, omega arith)
      | inl more ↦
          let shift : height + suc d ≡ height + 1 + d = omega arith in
          let (m, run, lo, hi) =
            round_up_bit-ends d fuel bit (height + 1) (omega arith) (rw shift at clear)
              (omega arith) in
          (
            m,
            round_up_bit_step (suc fuel) bit height more (omega arith) ∙ run,
            omega arith,
            omega arith,
          )
    ]

clear_within_8 : (height : ℕ) → (d : ℕ) × (d ≤ 8) × (has_bit 8 (height + d) ≡ false)
clear_within_8 height = elim (Bool-cases (has_bit 8 height)) [
  | inr clear ↦ (0, omega arith, rw (same height) clear)
  | inl set ↦ (8 - height % 8, omega arith, ground arith)
]
  where
    same : (n : ℕ) → n + 0 ≡ n
    same n = omega arith

-- Where the sizes leave room in 64 bits, a function's stack slots are placed in their order one under
-- the other: without overlaps, each at a multiple of the alignment for its size. The height of the
-- frame is the last slot's offset, so that all slots lie inside, whatever the height was before.
pub allocate_stack_slots-Placed :
    (stack_height : ℕ) (slots : List StackSlot)
    → stack_height + 8 < 2 ^ 64
    → total_size slots < 2 ^ 64
    → (r : List StackSlot × ℕ) × (allocate_stack_slots 65 stack_height slots ≡ ok r)
      × Placed 0 slots r
unfolding allocate_stack_slots
allocate_stack_slots-Placed stack_height slots room fits =
    let (r, run, placed) = allocate_slots-Placed 0 slots (omega arith) in
    let (d, few, clear) = clear_within_8 stack_height in
    let (m, rounded, lo, hi) =
      round_up_bit-ends d 64 8 stack_height (omega arith) clear (omega arith) in
    (r, rw (run, rounded) refl, placed)
