-- ===== src/Regalloc/Spill.antt =====
-- src/x86/regalloc_x86.h: which register `find_spillable` takes.
use bbae.Common.{
  ℕ, zero, suc, sym, ap, ◌∙◌, some_injective, some_not_none, get_elem?, ◌+◌, ◌≤◌, ◌≡◌, refl, subst,
  ◌⊎◌, inl, inr, Bool, true, false, List, [], ◌∷◌, Option, none, some, if◌then◌else◌, arith,
  Bool-cases, ltb,
}
use bbae.Ir.{Heap}
use bbae.Regalloc.Later.{IsFirstLater, next_use-IsFirstLater, IsFirstLater-next_use}
use bbae.Regalloc.{RegUse, Mask, better, candidate, spillable_from, find_spillable}

module _ (h : Heap) (num : ℕ → ℕ) (now : ℕ) (allowed_mask : Mask) where
  -- The next use of what an allowed register holds, for the registers from `n` on.
  abbrev pub use_at : ℕ → List RegUse → ℕ → Option ℕ
  use_at n [] k = none
  use_at n (r ∷ array) zero = if allowed_mask n then candidate h num now r else none
  use_at n (r ∷ array) (suc k) = use_at (n + 1) array k

  -- The register `k` may be spilled: it is allowed, and it holds a value whose first later user has
  -- the number `m`.
  abbrev pub IsSpillable : List RegUse → ℕ → ℕ → Type 0
  IsSpillable array k m =
      (v : ℕ) × (get_elem? array k ≡ some (RegUse.held v))
      × (allowed_mask k ≡ true)
      × IsFirstLater num now (h.values v).edges_out m

  candidate-held :
      (r : RegUse) (m : ℕ)
      → candidate h num now r ≡ some m
      → (v : ℕ) × (r ≡ RegUse.held v) × IsFirstLater num now (h.values v).edges_out m
  candidate-held RegUse.empty m e = cc
  candidate-held (RegUse.held v) m e =
      (v, refl, next_use-IsFirstLater num now m (h.values v).edges_out e)
  candidate-held RegUse.reserved m e = cc

  use_at-held :
      (n : ℕ) (array : List RegUse) (k m : ℕ)
      → use_at n array k ≡ some m
      → (v : ℕ) × (get_elem? array k ≡ some (RegUse.held v))
        × (allowed_mask (n + k) ≡ true)
        × IsFirstLater num now (h.values v).edges_out m
  use_at-held n [] k m e = cc
  use_at-held n (r ∷ array) zero m e = elim (Bool-cases (allowed_mask n)) [
    | inl allowed ↦
        let (v, holds, first) = candidate-held r m (rw allowed at e) in
        let place : n ≡ n + 0 = omega arith in
        (v, ap some holds, subst (λ (i : ℕ). allowed_mask i ≡ true) place allowed, first)
    | inr other ↦ absurd (no_use (rw other at e))
  ]
    where
      no_use : none ≡ some m → ⊥
      no_use e = cc
  use_at-held n (r ∷ array) (suc k) m e =
      let (v, holds, allowed, first) = use_at-held (n + 1) array k m e in
      let place : n + 1 + k ≡ n + suc k = omega arith in
      (v, holds, subst (λ (i : ℕ). allowed_mask i ≡ true) place allowed, first)

  held-use_at :
      (n : ℕ) (array : List RegUse) (k m v : ℕ)
      → get_elem? array k ≡ some (RegUse.held v)
      → allowed_mask (n + k) ≡ true
      → IsFirstLater num now (h.values v).edges_out m
      → use_at n array k ≡ some m
  held-use_at n [] k m v holds allowed first = cc
  held-use_at n (r ∷ array) zero m v holds allowed first =
      let place : n + 0 ≡ n = omega arith in
      let here = subst (λ (i : ℕ). allowed_mask i ≡ true) place allowed in
      rw (here, some_injective holds) (IsFirstLater-next_use num now m (h.values v).edges_out first)
  held-use_at n (r ∷ array) (suc k) m v holds allowed first =
      let place : n + suc k ≡ n + 1 + k = omega arith in
      held-use_at (n + 1) array k m v holds (subst (λ (i : ℕ). allowed_mask i ≡ true) place allowed)
        first

  -- The best of the registers from `n` on and of the one that was found before.
  IsBetter : ℕ → List RegUse → Option (ℕ × ℕ) → Option (ℕ × ℕ) → Type 0
  IsBetter n array best none = (best ≡ none) × ((k : ℕ) → use_at n array k ≡ none)
  IsBetter n array best (some (reg, last)) =
      ((best ≡ some (reg, last)) ⊎ ((k : ℕ) × (reg ≡ n + k) × (use_at n array k ≡ some last)))
      × ((reg' last' : ℕ) → best ≡ some (reg', last') → last' ≤ last)
      × ((k m : ℕ) → use_at n array k ≡ some m → m ≤ last)

  better-none :
      (best : Option (ℕ × ℕ)) (n : ℕ) (o : Option ℕ)
      → better best n o ≡ none
      → (best ≡ none) × (o ≡ none)
  better-none none n none e = (refl, refl)
  better-none (some (reg, last)) n none e = cc
  better-none none n (some m) e = cc
  better-none (some (reg, last)) n (some m) e = ground arith

  better-some :
      (best : Option (ℕ × ℕ)) (n reg last : ℕ) (o : Option ℕ)
      → better best n o ≡ some (reg, last)
      → (best ≡ some (reg, last)) ⊎ ((reg ≡ n) × (o ≡ some last))
  better-some none n reg last none e = cc
  better-some (some (reg', last')) n reg last none e = inl e
  better-some none n reg last (some m) e = inr (ground arith, ground arith)
  better-some (some (reg', last')) n reg last (some m) e = elim (Bool-cases (ltb last' m)) [
    | inl more ↦ inr (ground arith, ground arith)
    | inr less ↦ inl (rw less at e)
  ]

  better_above :
      (best : Option (ℕ × ℕ)) (n reg last : ℕ) (o : Option ℕ)
      → best ≡ some (reg, last)
      → (r : ℕ × ℕ) × (better best n o ≡ some r) × (last ≤ r.1)
  better_above none n reg last o e = cc
  better_above (some (reg', last')) n reg last none e = ((reg', last'), refl, ground arith)
  better_above (some (reg', last')) n reg last (some m) e = elim (Bool-cases (ltb last' m)) [
    | inl more ↦ ((n, m), rw more refl, ground arith)
    | inr less ↦ ((reg', last'), rw less refl, ground arith)
  ]

  better_new :
      (best : Option (ℕ × ℕ)) (n m : ℕ)
      → (r : ℕ × ℕ) × (better best n (some m) ≡ some r) × (m ≤ r.1)
  better_new none n m = ((n, m), refl, omega arith)
  better_new (some (reg', last')) n m = elim (Bool-cases (ltb last' m)) [
    | inl more ↦ ((n, m), rw more refl, omega arith)
    | inr less ↦ ((reg', last'), rw less refl, ground arith)
  ]

  step_better :
      (best : Option (ℕ × ℕ)) (n : ℕ) (o : Option ℕ) (allowed : Bool)
      → (if allowed then better best n o else best) ≡ better best n (if allowed then o else none)
  step_better best n o true = refl
  step_better none n o false = refl
  step_better (some b) n o false = refl

  joined :
      (n : ℕ) (r : RegUse) (array : List RegUse) (best result : Option (ℕ × ℕ))
      → IsBetter (n + 1) array (better best n (use_at n (r ∷ array) 0)) result
      → IsBetter n (r ∷ array) best result
  unfolding IsBetter
  joined n r array best none (before, rest) = (facts.0, by_clauses)
    where
      facts : (best ≡ none) × (use_at n (r ∷ array) 0 ≡ none)
      facts = better-none best n (use_at n (r ∷ array) 0) before

      by_clauses : (k : ℕ) → use_at n (r ∷ array) k ≡ none
      by_clauses zero = facts.1
      by_clauses (suc k) = rest k
  joined n r array best (some (reg, last)) (found, above, most) =
      (whence found, above_best, by_clauses)
    where
      o : Option ℕ
      o = use_at n (r ∷ array) 0

      whence :
          ((better best n (use_at n (r ∷ array) 0) ≡ some (reg, last))
            ⊎ ((k : ℕ) × (reg ≡ n + 1 + k) × (use_at (n + 1) array k ≡ some last)))
          → (best ≡ some (reg, last))
            ⊎ ((k : ℕ) × (reg ≡ n + k) × (use_at n (r ∷ array) k ≡ some last))
      whence (inr (k, place, e)) = inr (suc k, omega arith, e)
      whence (inl e) = elim (better-some best n reg last (use_at n (r ∷ array) 0) e) [
        | inl old ↦ inl old
        | inr (here, e') ↦ inr (0, omega arith, e')
      ]

      above_best : (reg' last' : ℕ) → best ≡ some (reg', last') → last' ≤ last
      above_best reg' last' e =
          let (b, eb, le) = better_above best n reg' last' (use_at n (r ∷ array) 0) e in
          let le' = above b.0 b.1 eb in omega arith

      by_clauses : (k m : ℕ) → use_at n (r ∷ array) k ≡ some m → m ≤ last
      by_clauses zero m e =
          let (b, eb, le) = better_new best n m in let le' = above b.0 b.1 (rw e eb) in omega arith
      by_clauses (suc k) m e = most k m e

  best_of :
      (array : List RegUse) (n : ℕ) (best : Option (ℕ × ℕ))
      → IsBetter n array best (spillable_from h num now allowed_mask n array best)
  unfolding IsBetter spillable_from
  best_of [] n none = (refl, λ k. refl)
  best_of [] n (some (reg, last)) = (inl refl, (λ reg' last' e. ground arith), λ k m e. cc)
  best_of (r ∷ array) n best =
      let b' = better best n (use_at n (r ∷ array) 0) in
      rw (step_better best n (candidate h num now r) (allowed_mask n)) (
        joined n r array best (spillable_from h num now allowed_mask (n + 1) array b')
          (best_of array (n + 1) b'))

  -- Of the registers that may be spilled, one whose first later user has the highest number, or none
  -- if there is no such register.
  abbrev pub IsFurthest : List RegUse → Option (ℕ × ℕ) → Type 0
  IsFurthest array none = (k m : ℕ) → ¬ IsSpillable array k m
  IsFurthest array (some (reg, last)) =
      IsSpillable array reg last × ((k m : ℕ) → IsSpillable array k m → m ≤ last)

  IsSpillable-use_at :
      (array : List RegUse) (k m : ℕ) → IsSpillable array k m → use_at 0 array k ≡ some m
  IsSpillable-use_at array k m (v, holds, allowed, first) =
      let place : k ≡ 0 + k = omega arith in
      held-use_at 0 array k m v holds (subst (λ (i : ℕ). allowed_mask i ≡ true) place allowed) first

  furthest :
      (array : List RegUse) (result : Option (ℕ × ℕ))
      → IsBetter 0 array none result
      → IsFurthest array result
  unfolding IsBetter
  furthest array none (e, all_none) =
      λ k m s. some_not_none (sym (IsSpillable-use_at array k m s) ∙ all_none k)
  furthest array (some (reg, last)) (inl e, above, most) = cc
  furthest array (some (reg, last)) (inr (k, place, e), above, most) =
      let same : k ≡ reg = omega arith in
      let e' = subst (λ (i : ℕ). use_at 0 array i ≡ some last) same e in
      let (v, holds, allowed, first) = use_at-held 0 array reg last e' in
      let place' : 0 + reg ≡ reg = omega arith in
      (
        (v, holds, subst (λ (i : ℕ). allowed_mask i ≡ true) place' allowed, first),
        λ k' m s. most k' m (IsSpillable-use_at array k' m s),
      )

  pub spillable_from-IsFurthest :
      (array : List RegUse) → IsFurthest array (spillable_from h num now allowed_mask 0 array none)
  spillable_from-IsFurthest array =
      furthest array (spillable_from h num now allowed_mask 0 array none) (best_of array 0 none)

-- The register to spill is one that the mask allows and that holds a value with a user behind the
-- statement. The first such user in the order of the value's list of users has the given number, and
-- for no other such register the first one has a higher number. If no register is given, no allowed
-- register holds a value with a user behind the statement.
pub find_spillable-IsFurthest :
    (h : Heap) (num : ℕ → ℕ) (statement : ℕ) (is_int : Bool) (ints floats : List RegUse)
    (mask : Mask)
    → IsFurthest h num
        (num statement)
        mask
        (if is_int then ints else floats)
        (find_spillable h num statement is_int ints floats mask)
unfolding find_spillable
find_spillable-IsFurthest h num statement is_int ints floats mask =
    spillable_from-IsFurthest h num (num statement) mask (if is_int then ints else floats)
