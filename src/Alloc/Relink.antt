-- ===== src/Alloc/Relink.antt =====
-- src/memory.h: the writes of `zero_realloc` to the moved block and to its neighbours in the list.
use bbae.Common.{
  ℕ, ◌-◌, ◌≡◌, ◌≢◌, refl, sym, ap, ◌∙◌, inl, inr, Bool, true, false, Option, none, some, ok, ◌==◌,
  ==_iff, if◌then◌else◌, arith, Bool-cases, Option-cases, some_not_none,
}
use bbae.Ir.{update}
use bbae.Ir.Update.{update_self, update_ne}
use bbae.Alloc.{Allocation, Memory, relink, change, change_linked, zero_grown, moved_head}
use bbae.Alloc.Chain.{data_in}

abbrev pub is_at : Option ℕ → ℕ → Bool
is_at none x = false
is_at (some t) x = x == t

abbrev pub on_block : (Allocation → Allocation) → Option Allocation → Option Allocation
on_block f none = none
on_block f (some b) = some (f b)

-- The memory after a write through a pointer that may be null.
abbrev pub linked_at : Option ℕ → (Allocation → Allocation) → Memory → Memory
linked_at none f m = m
linked_at (some p) f m = update m p (on_block f (m p))

pub linked_at_lem :
    (o : Option ℕ) (f : Allocation → Allocation) (m : Memory) (x : ℕ)
    → linked_at o f m x ≡ (if is_at o x then on_block f (m x) else m x)
linked_at_lem none f m x = refl
linked_at_lem (some p) f m x = elim (Bool-cases (x == p)) [
  | inl same ↦ rw same (ap (λ y. on_block f (m y)) (sym ((==_iff x p).0 same)))
  | inr ne ↦ rw ne refl
]

pub change_linked-ok :
    (o : Option ℕ) (f : Allocation → Allocation) (m : Memory)
    → ((p : ℕ) → o ≡ some p → m p ≢ none)
    → change_linked o f m ≡ ok (linked_at o f m)
change_linked-ok none f m live = refl
change_linked-ok (some p) f m live = elim (Option-cases (m p)) [
  | inl gone ↦ absurd (live p refl gone)
  | inr (b, here) ↦ rw here refl
]

abbrev pub set_next : ℕ → Allocation → Allocation
set_next new p = record p { next = some new }

abbrev pub set_prev : ℕ → Allocation → Allocation
set_prev new q = record q { prev = some new }

pub relink_run :
    (total new : ℕ) (moved sized linked final : Memory) (b b' : Allocation)
    → change new (λ a. record (zero_grown total a) { size = total - 64 }) moved ≡ ok sized
    → sized new ≡ some b
    → change_linked b.prev (set_next new) sized ≡ ok linked
    → linked new ≡ some b'
    → change_linked b'.next (set_prev new) linked ≡ ok final
    → relink total new moved ≡ ok final
unfolding relink
relink_run total new moved sized linked final b b' e₁ e₂ e₃ e₄ e₅ = rw (e₁, e₂, e₃, e₄) e₅

-- The memory of the moved block, `c` with its size, and what the writes to its neighbours make of it.
module _ (old new : ℕ) (m : Memory) (g c : Allocation) where
  abbrev pub moved : Memory
  moved = update (update m old none) new (some g)

  abbrev pub with_size : Memory
  with_size = update moved new (some c)

  abbrev pub with_next : Memory
  with_next = linked_at c.prev (set_next new) with_size

  abbrev pub final : Memory
  final = linked_at c.next (set_prev new) with_next

  pub size_elsewhere : (x : ℕ) → x ≢ new → x ≢ old → with_size x ≡ m x
  size_elsewhere x nn off =
      update_ne moved new (some c) x nn
      ∙ update_ne (update m old none) new (some g) x nn
      ∙ update_ne m old none x off

  pub next_elsewhere :
      (x : ℕ)
      → x ≢ new
      → x ≢ old
      → with_next x ≡ (if is_at c.prev x then on_block (set_next new) (m x) else m x)
  next_elsewhere x nn off =
      linked_at_lem c.prev (set_next new) with_size x
      ∙ ap (λ o. if is_at c.prev x then on_block (set_next new) o else o) (size_elsewhere x nn off)

  pub final_elsewhere :
      (x : ℕ)
      → x ≢ new
      → x ≢ old
      → final x ≡ (
          if is_at c.next x
          then on_block
              (set_prev new)
              (if is_at c.prev x then on_block (set_next new) (m x) else m x)
          else (if is_at c.prev x then on_block (set_next new) (m x) else m x))
  final_elsewhere x nn off =
      linked_at_lem c.next (set_prev new) with_next x
      ∙ ap (λ o. if is_at c.next x then on_block (set_prev new) o else o) (next_elsewhere x nn off)

  pub next_new : is_at c.prev new ≡ false → with_next new ≡ some c
  next_new off =
      linked_at_lem c.prev (set_next new) with_size new
      ∙ ap (λ q. if q then on_block (set_next new) (with_size new) else with_size new) off
      ∙ update_self moved new (some c)

  pub final_new : is_at c.prev new ≡ false → is_at c.next new ≡ false → final new ≡ some c
  final_new off_prev off_next =
      linked_at_lem c.next (set_prev new) with_next new
      ∙ ap (λ q. if q then on_block (set_prev new) (with_next new) else with_next new) off_next
      ∙ next_new off_prev

pub is_at-some : (o : Option ℕ) (x : ℕ) → is_at o x ≡ true → o ≡ some x
is_at-some none x e = cc
is_at-some (some t) x e = ground arith

pub at_itself : (x : ℕ) → is_at (some x) x ≡ true
at_itself x = ground arith

-- A neighbour of the moved block: `before` says that it stands before it, `behind` behind it.
abbrev pub adjusted : ℕ → Bool → Bool → Allocation → Allocation
adjusted new before behind b = record b {
  next = if before then some new else b.next;
  prev = if behind then some new else b.prev;
}

pub adjusted_lem :
    (new : ℕ) (before behind : Bool) (b : Allocation)
    → (if behind
        then on_block (set_prev new) (if before then on_block (set_next new) (some b) else some b)
        else (if before then on_block (set_next new) (some b) else some b))
      ≡ some (adjusted new before behind b)
adjusted_lem new true true b = refl
adjusted_lem new true false b = refl
adjusted_lem new false true b = refl
adjusted_lem new false false b = refl

pub moved_other : (o : Option ℕ) (old new : ℕ) → o ≢ some old → moved_head o old new ≡ o
moved_other none old new ne = refl
moved_other (some h) old new ne = elim (Bool-cases (h == old)) [
  | inl same ↦ absurd (ne (ap some ((==_iff h old).0 same)))
  | inr off ↦ rw off refl
]

pub moved_old : (old new : ℕ) → moved_head (some old) old new ≡ some new
moved_old old new = ground arith

pub on_block_live :
    (o : Option ℕ) (f : Allocation → Allocation) (m : Memory) (x : ℕ)
    → m x ≢ none
    → linked_at o f m x ≢ none
on_block_live o f m x live gone = elim (Option-cases (m x)) [
  | inl freed ↦ live freed
  | inr (b, at) ↦ some_block (is_at o x) f b (
      ap (λ y. if is_at o x then on_block f y else y) (sym at) ∙ sym (linked_at_lem o f m x) ∙ gone)
]
  where
    some_block :
        (q : Bool) (f : Allocation → Allocation) (b : Allocation)
        → (if q then on_block f (some b) else some b) ≢ none
    some_block true f b e = some_not_none e
    some_block false f b e = some_not_none e

pub linked_none :
    (o : Option ℕ) (f : Allocation → Allocation) (m : Memory) (x : ℕ)
    → m x ≡ none
    → linked_at o f m x ≡ none
linked_none o f m x gone =
    linked_at_lem o f m x
    ∙ ap (λ y. if is_at o x then on_block f y else y) gone
    ∙ both (is_at o x) f
  where
    both : (q : Bool) (f : Allocation → Allocation) → (if q then on_block f none else none) ≡ none
    both true f = refl
    both false f = refl

pub data-linked_at :
    (o : Option ℕ) (f : Allocation → Allocation) (m : Memory) (x : ℕ)
    → ((a : Allocation) → (f a).bytes ≡ a.bytes)
    → data_in (linked_at o f m x) ≡ data_in (m x)
data-linked_at o f m x keeps = ap data_in (linked_at_lem o f m x) ∙ one_of (is_at o x) f (m x) keeps
  where
    one_of :
        (q : Bool) (f : Allocation → Allocation) (a : Option Allocation)
        → ((d : Allocation) → (f d).bytes ≡ d.bytes)
        → data_in (if q then on_block f a else a) ≡ data_in a
    one_of true f none keeps = refl
    one_of true f (some d) keeps = ap some (keeps d)
    one_of false f a keeps = refl
