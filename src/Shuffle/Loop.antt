-- ===== src/Shuffle/Loop.antt =====
-- src/x86/bbae_emission_x86.h: `do_reg_shuffle`, whose moves act as if they were all made at once.
use bbae.Common.{
  ℕ, zero, suc, ◌+◌, ◌<◌, ◌≡◌, ◌≢◌, refl, sym, ap, ◌∙◌, inl, inr, Option, none, some, false, ◌==◌,
  ==_iff, if◌then◌else◌, ok, arith, Bool-cases, Option-cases, ◌>>=◌, some_injective, some_not_none,
  true_not_false,
}
use bbae.Shuffle.{Shuffle, shuffle_one, shuffle_loop, do_reg_shuffle}
use bbae.Shuffle.Machine.{Registers, exec, regs_of, SameClass}
use bbae.Shuffle.Steps.{IsPlain, IsReady, is_at, Steps}
use bbae.Shuffle.Single.{reg_shuffle_single-Steps, unpainted-le}

-- No two sources have the same target, no source is its own target, all are plain registers, and each
-- source is of its target's class.
pub record IsParallel (in2out : ℕ → Option ℕ) : Type 0 where
  pub injective : (x y z : ℕ) → in2out x ≡ some z → in2out y ≡ some z → x ≡ y
  pub moved : (x : ℕ) → in2out x ≢ some x
  pub source : (x z : ℕ) → in2out x ≡ some z → IsPlain x
  pub target : (x z : ℕ) → in2out x ≡ some z → IsPlain z
  pub same_class : (x z : ℕ) → in2out x ≡ some z → SameClass x z

-- Between two rounds of the loop: a target whose source is done holds what the source held.
record Shuffled (regs : Registers) (s s' : Shuffle) : Type 0 where
  kept : (x z : ℕ) → s'.in2out x ≡ some z → s.in2out x ≡ some z
  copied :
      (x z : ℕ) → s.in2out x ≡ some z → s'.in2out x ≡ none → regs_of s' regs z ≡ regs_of s regs x
  others :
      (z : ℕ)
      → z ≢ 11
      → z ≢ 21
      → ((x : ℕ) → s.in2out x ≡ some z → s'.in2out x ≡ some z)
      → regs_of s' regs z ≡ regs_of s regs z
  ended : (x t z : ℕ) → s.in2out x ≡ some t → s'.in2out x ≡ none → s'.in2out t ≢ some z
  clear : (x z : ℕ) → s'.in2out x ≡ some z → s'.in2out_color x ≡ 0

none_closed : (closed : Option ℕ) (x : ℕ) → ((t : ℕ) → closed ≢ some t) → is_at closed x ≡ false
none_closed none x never = refl
none_closed (some t) x never = absurd (never t refl)

zero_not_two : ◌≢◌ {A = ℕ} 0 2
zero_not_two e = omega arith

module _ (regs : Registers) (s : Shuffle) (parallel : IsParallel s.in2out) where
  IsReady-later : (s' : Shuffle) → Shuffled regs s s' → IsReady s'
  IsReady-later s' sofar = record {
    injective = λ x y z e f. parallel.injective x y z (sofar.kept x z e) (sofar.kept y z f);
    moved = λ x e. parallel.moved x (sofar.kept x x e);
    source = λ x z e. parallel.source x z (sofar.kept x z e);
    target = λ x z e. parallel.target x z (sofar.kept x z e);
    same_class = λ x z e. parallel.same_class x z (sofar.kept x z e);
    unclosed = λ x z e two. zero_not_two (sym (sofar.clear x z e) ∙ two);
  }

  Shuffled-start : ((x : ℕ) → s.in2out_color x ≡ 0) → Shuffled regs s s
  Shuffled-start clear = record {
    kept = λ x z e. e;
    copied = λ x z e gone. absurd (some_not_none (sym e ∙ gone));
    others = λ z ni nf all. refl;
    ended = λ x t z e gone pending. some_not_none (sym e ∙ gone);
    clear = λ x z e. clear x;
  }

  module _ (s₁ s₂ : Shuffle) (from : ℕ) (closed : Option ℕ) (sofar : Shuffled regs s s₁)
      (steps : Steps regs s₁ s₂ from closed) where
    not_closed : (x : ℕ) → is_at closed x ≡ false
    not_closed x =
        none_closed closed x
          λ t e. let (color, (z, pending), _) = steps.cycle t e in color (sofar.clear t z pending)

    -- Where the source was done before.
    copied_before :
        (x z : ℕ) → s.in2out x ≡ some z → s₁.in2out x ≡ none → regs_of s₂ regs z ≡ regs_of s regs x
    copied_before x z e gone =
        let plain = parallel.target x z e in
        steps.others z plain.not_int plain.not_float (λ y f.
          let same = parallel.injective x y z e (sofar.kept y z f) in
          absurd (some_not_none (sym f ∙ ap s₁.in2out (sym same) ∙ gone)))
        ∙ sofar.copied x z e gone

    -- Where it was done in this round, and was not overwritten before.
    copied_now :
        (x z w : ℕ)
        → s.in2out x ≡ some z
        → s₁.in2out x ≡ some w
        → s₂.in2out x ≡ none
        → regs_of s₂ regs z ≡ regs_of s regs x
    copied_now x z w e left gone =
        let plain = parallel.source x z e in
        let same = some_injective (sym (sofar.kept x w left) ∙ e) in
        steps.copied x z (left ∙ ap some same) gone
        ∙ sofar.others x plain.not_int plain.not_float (λ y f. elim (Option-cases (s₁.in2out y)) [
          | inl early ↦ absurd (sofar.ended y x w f early left)
          | inr (v, later) ↦ later ∙ sym (sofar.kept y v later) ∙ f
        ])

    Shuffled-step : Shuffled regs s s₂
    Shuffled-step = record {
      kept = λ x z e. sofar.kept x z (steps.kept x z e);
      copied = λ x z e gone. elim (Option-cases (s₁.in2out x)) [
        | inl before ↦ copied_before x z e before
        | inr (w, left) ↦ copied_now x z w e left gone
      ];
      others = λ z ni nf all.
          steps.others z ni nf (λ x e. all x (sofar.kept x z e))
          ∙ sofar.others z ni nf (λ x e. steps.kept x z (all x e));
      ended = λ x t z e gone pending. elim (Option-cases (s₁.in2out x)) [
        | inl before ↦ sofar.ended x t z e before (steps.kept t z pending)
        | inr (w, left) ↦ true_not_false (
            sym (steps.ended x t z (left ∙ sym (sofar.kept x w left) ∙ e) gone pending)
            ∙ not_closed t)
      ];
      clear = λ x z e.
          steps.colors x z e
          ∙ ap (λ b. if b then 2 else s₁.in2out_color x) (not_closed x)
          ∙ sofar.clear x z (steps.kept x z e);
    }

  -- One round; a register without an entry is passed over.
  round :
      (s₁ : Shuffle) (from : ℕ)
      → Shuffled regs s s₁
      → (s₂ : Shuffle) × (shuffle_one s₁ from (s₁.in2out from) ≡ ok s₂)
        × Shuffled regs s s₂
        × (s₂.in2out from ≡ none)
        × ((x z : ℕ) → s₂.in2out x ≡ some z → s₁.in2out x ≡ some z)
  unfolding shuffle_one
  round s₁ from sofar = elim (Option-cases (s₁.in2out from)) [
    | inl e ↦ (s₁, rw e refl, sofar, e, λ x z f. f)
    | inr (to, e) ↦
        let (s₂, closed, run, steps) =
          reg_shuffle_single-Steps regs 32 s₁ from to (IsReady-later s₁ sofar) e
            (sofar.clear from to e) (unpainted-le s₁.in2out_color 32) in
        (
          s₂,
          ap (shuffle_one s₁ from) e ∙ run,
          Shuffled-step s₁ s₂ from closed sofar steps,
          steps.done,
          steps.kept,
        )
  ]

  loop_step :
      (rounds from : ℕ) (s₁ s₂ : Shuffle)
      → shuffle_one s₁ from (s₁.in2out from) ≡ ok s₂
      → shuffle_loop (suc rounds) from s₁ ≡ shuffle_loop rounds (from + 1) s₂
  unfolding shuffle_loop
  loop_step rounds from s₁ s₂ run = ap (λ m. m >>= shuffle_loop rounds (from + 1)) run

  done_below :
      (s₁ s₂ : Shuffle) (from : ℕ)
      → ((x : ℕ) → x < from → s₁.in2out x ≡ none)
      → s₂.in2out from ≡ none
      → ((x z : ℕ) → s₂.in2out x ≡ some z → s₁.in2out x ≡ some z)
      → (x : ℕ) → x < from + 1
      → s₂.in2out x ≡ none
  done_below s₁ s₂ from before here kept x lt = elim (Option-cases (s₂.in2out x)) [
    | inl gone ↦ gone
    | inr (z, left) ↦ elim (Bool-cases (x == from)) [
      | inl at ↦ ap s₂.in2out ((==_iff x from).0 at) ∙ here
      | inr ne ↦ absurd (some_not_none (sym (kept x z left) ∙ before x (ground arith)))
    ]
  ]

  rounds_done :
      (rounds from : ℕ) (s₁ : Shuffle)
      → Shuffled regs s s₁
      → ((x : ℕ) → x < from → s₁.in2out x ≡ none)
      → (s' : Shuffle) × (shuffle_loop rounds from s₁ ≡ ok s')
        × Shuffled regs s s'
        × ((x : ℕ) → x < rounds + from → s'.in2out x ≡ none)
  unfolding shuffle_loop
  rounds_done zero from s₁ sofar before = (s₁, refl, sofar, λ x lt. before x (omega arith))
  rounds_done (suc rounds) from s₁ sofar before =
      let (s₂, run, later, here, kept) = round s₁ from sofar in
      let (s', rest, final, all) =
        rounds_done rounds (from + 1) s₂ later (done_below s₁ s₂ from before here kept) in
      (s', loop_step rounds from s₁ s₂ run ∙ rest, final, λ x lt. all x (omega arith))

  -- Where no register is painted yet, the loop ends without a fault. Then every target holds what its
  -- source held, and all other registers but the two temporary ones hold what they held.
  pub do_reg_shuffle-parallel :
      ((x : ℕ) → s.in2out_color x ≡ 0)
      → (s' : Shuffle) × (do_reg_shuffle s ≡ ok s')
        × ((x z : ℕ) → s.in2out x ≡ some z → exec s'.code regs z ≡ exec s.code regs x)
        × ((z : ℕ)
            → z ≢ 11
            → z ≢ 21
            → ((x : ℕ) → s.in2out x ≢ some z)
            → exec s'.code regs z ≡ exec s.code regs z)
  unfolding do_reg_shuffle
  do_reg_shuffle-parallel clear =
      let (s', run, final, all) =
        rounds_done 32 0 s (Shuffled-start clear) (λ x lt. absurd (omega arith)) in
      (
        s',
        run,
        λ x z e. final.copied x z e (all x (omega (arith, (parallel.source x z e).below))),
        λ z ni nf free. final.others z ni nf (λ x e. absurd (free x e)),
      )
