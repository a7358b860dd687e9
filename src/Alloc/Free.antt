-- ===== src/Alloc/Free.antt =====
-- src/memory.h: `free_all_compiler_allocs`.
use bbae.Common.{
  ℕ, zero, suc, ◌≤◌, ◌≡◌, refl, ap, ◌∙◌, inl, inr, true, false, List, [], ◌∷◌, Option, none, some,
  ok, length, arith, Bool-cases,
}
use bbae.Ir.{update}
use bbae.Ir.Update.{update_self, update_ne}
use bbae.Ir.Substitute.{mem}
use bbae.Regalloc.Args.{IsOnce}
use bbae.Alloc.{Allocation, Allocs, free_loop, free_all_compiler_allocs}
use bbae.Alloc.Chain.{IsSegment, IsSegment-agree, IsChain, mem-ne, head_ne, tail_off}

without_head : Allocs → ℕ → Allocation → Allocs
without_head s a b = record { alloc_list = b.next; memory = update s.memory a none }

loop_step :
    (fuel : ℕ) (s : Allocs) (a : ℕ) (b : Allocation)
    → s.memory a ≡ some b
    → free_loop (suc fuel) s (some a)
      ≡ free_loop fuel (without_head s a b) (without_head s a b).alloc_list
unfolding free_loop without_head
loop_step fuel s a b here = rw here refl

no_rounds : (fuel : ℕ) (s : Allocs) → free_loop fuel s none ≡ ok s
unfolding free_loop
no_rounds zero s = refl
no_rounds (suc fuel) s = refl

only_head : (x a : ℕ) (addrs : List ℕ) → mem x (a ∷ addrs) ≡ true → mem x addrs ≡ false → x ≡ a
only_head x a addrs e off = ground arith

-- With a round for every block of the segment the loop frees these and nothing else.
frees :
    (fuel : ℕ) (s : Allocs) (prev : Option ℕ) (addrs : List ℕ)
    → IsSegment s.memory prev s.alloc_list addrs
    → IsOnce addrs
    → length addrs ≤ fuel
    → (s' : Allocs) × (free_loop fuel s s.alloc_list ≡ ok s')
      × (s'.alloc_list ≡ none)
      × ((a : ℕ) → mem a addrs ≡ true → s'.memory a ≡ none)
      × ((a : ℕ) → mem a addrs ≡ false → s'.memory a ≡ s.memory a)
unfolding free_loop without_head
frees fuel s prev [] seg once enough =
    (s, ap (free_loop fuel s) seg ∙ no_rounds fuel s, seg, λ a e. cc, λ a e. refl)
frees zero s prev (a ∷ addrs) seg once enough = absurd (omega arith)
frees (suc fuel) s prev (a ∷ addrs) (at, b, here, back, size, rest) (off, once) enough =
    let s₁ = without_head s a b in
    let (s', run, ends, gone, kept) =
      frees fuel s₁ (some a) addrs
        (IsSegment-agree s.memory s₁.memory (some a) b.next addrs
          (λ x e. update_ne s.memory a none x (mem-ne x a addrs e off)) rest)
        once (omega arith) in
    (
      s',
      ap (free_loop (suc fuel) s) at ∙ loop_step fuel s a b here ∙ run,
      ends,
      λ x e. elim (Bool-cases (mem x addrs)) [
        | inl among ↦ gone x among
        | inr not_among ↦
            kept x not_among
            ∙ ap s₁.memory (only_head x a addrs e not_among)
            ∙ update_self s.memory a none
      ],
      λ x e. kept x (tail_off x a addrs e) ∙ update_ne s.memory a none x (head_ne x a addrs e),
    )

-- With a round for every block of the list, `free_all_compiler_allocs` ends without a fault, frees no
-- block twice, and leaves an empty list and no block.
pub free_all_compiler_allocs-frees :
    (fuel : ℕ) (s : Allocs) (addrs : List ℕ)
    → IsChain s addrs
    → length addrs ≤ fuel
    → (s' : Allocs) × (free_all_compiler_allocs fuel s ≡ ok s')
      × (s'.alloc_list ≡ none)
      × ((a : ℕ) → s'.memory a ≡ none)
unfolding free_all_compiler_allocs
free_all_compiler_allocs-frees fuel s addrs chain enough =
    let (s', run, ends, gone, kept) = frees fuel s none addrs chain.linked chain.once enough in
    (
      s',
      run,
      ends,
      λ x. elim (Bool-cases (mem x addrs)) [
        | inl among ↦ gone x among
        | inr off ↦ kept x off ∙ chain.live x off
      ],
    )
