-- ===== src/Shuffle/Single.antt =====
-- src/x86/bbae_emission_x86.h: one call of `reg_shuffle_single`, which follows a chain of moves to
-- its end or round a cycle.
use bbae.Common.{
  ℕ, zero, suc, ◌+◌, ◌≤◌, ◌<◌, ◌≡◌, ◌≢◌, refl, sym, ap, ◌∙◌, inl, inr, Option, none, some, true,
  false, ◌==◌, ==_iff, if◌then◌else◌, Run, ok, arith, Bool-cases, Option-cases, lt→ltb,
  true_not_false,
}
use bbae.Ir.{update}
use bbae.Shuffle.{
  Shuffle, scratch, move_for, emit, unmap, paint, close_cycle, move_after, shuffle_to, shuffle_from,
  reg_shuffle_single,
}
use bbae.Shuffle.Machine.{Registers, regs_of, scratch-SameClass, scratch_below}
use bbae.Ir.Update.{update_ne}
use bbae.Shuffle.Steps.{IsReady, is_at, Steps, fit, end_of_chain, end_of_cycle}
use bbae.Shuffle.Turn.{move_ends, own_color, still}

-- The number of registers below `n` that are not painted.
unfoldable pub unpainted : (ℕ → ℕ) → ℕ → ℕ
unpainted color zero = 0
unpainted color (suc n) = (if color n == 0 then 1 else 0) + unpainted color n

pub unpainted-le : (color : ℕ → ℕ) (n : ℕ) → unpainted color n ≤ n
unfolding unpainted
unpainted-le color zero = omega arith
unpainted-le color (suc n) = ground (arith, unpainted-le color n)

-- Painting a register above the bound, or one below it.
unpainted-above :
    (color : ℕ → ℕ) (reg n : ℕ) → n ≤ reg → unpainted (update color reg 1) n ≡ unpainted color n
unfolding unpainted
unpainted-above color reg zero le = refl
unpainted-above color reg (suc n) le = ground (arith, unpainted-above color reg n)

unpainted-below :
    (color : ℕ → ℕ) (reg n : ℕ)
    → reg < n
    → color reg ≡ 0
    → unpainted (update color reg 1) n + 1 ≡ unpainted color n
unfolding unpainted
unpainted-below color reg zero lt clear = absurd (omega arith)
unpainted-below color reg (suc n) lt clear = elim (Bool-cases (n == reg)) [
  | inl at ↦ let e = (==_iff n reg).0 at in ground (arith, unpainted-above color reg n, ap color e)
  | inr ne ↦ ground (arith, unpainted-below color reg n)
]

single_step :
    (fuel : ℕ) (s : Shuffle) (from to : ℕ)
    → from < 32
    → to < 32
    → s.in2out from ≡ some to
    → reg_shuffle_single (suc fuel) s from
      ≡ shuffle_to (reg_shuffle_single fuel) s from to (s.in2out to)
unfolding reg_shuffle_single shuffle_from
single_step fuel s from to lf lt maps = rw (lt→ltb from 32 lf, maps, lt→ltb to 32 lt) refl

to_end :
    (again : Shuffle → ℕ → Run Shuffle) (s : Shuffle) (from to : ℕ)
    → s.in2out to ≡ none
    → shuffle_to again s from to (s.in2out to) ≡ ok (unmap from (emit (move_for from to from) s))
unfolding shuffle_to
to_end again s from to ends = rw ends refl

to_cycle :
    (again : Shuffle → ℕ → Run Shuffle) (s : Shuffle) (from to next : ℕ)
    → s.in2out to ≡ some next
    → (s.in2out_color to == 0) ≡ false
    → shuffle_to again s from to (s.in2out to) ≡ ok (close_cycle from to s)
unfolding shuffle_to
to_cycle again s from to next pending color = rw (pending, color) refl

to_next :
    (again : Shuffle → ℕ → Run Shuffle) (s s' : Shuffle) (from to next : ℕ)
    → s.in2out to ≡ some next
    → (s.in2out_color to == 0) ≡ true
    → again (paint from 1 s) to ≡ ok s'
    → shuffle_to again s from to (s.in2out to) ≡ ok (move_after from to s')
unfolding shuffle_to
to_next again s s' from to next pending color run = rw (pending, color, run) refl

unclosed_by : (color : ℕ → ℕ) (from x : ℕ) → color x ≢ 2 → update color from 1 x ≢ 2
unclosed_by color from x ne = ground arith

IsReady-paint : (s : Shuffle) (from : ℕ) → IsReady s → IsReady (paint from 1 s)
IsReady-paint s from ready = record {
  injective = ready.injective;
  moved = ready.moved;
  source = ready.source;
  target = ready.target;
  same_class = ready.same_class;
  unclosed = λ x z e. unclosed_by s.in2out_color from x (ready.unclosed x z e);
}

is_at-some : (closed : Option ℕ) (x : ℕ) → is_at closed x ≡ true → closed ≡ some x
is_at-some none x e = cc
is_at-some (some t) x e = ground arith

is_at_self :
    (t from : ℕ) (closed : Option ℕ) → closed ≡ some t → t ≡ from → is_at closed from ≢ false
is_at_self t from none e same = λ off. cc
is_at_self t from (some u) e same = λ off. ground arith

is_at_other : (from x : ℕ) → x ≢ from → false ≡ is_at (some from) x
is_at_other from x ne = ground arith

module _ (regs : Registers) (s s' : Shuffle) (from to : ℕ) (closed : Option ℕ) (ready : IsReady s)
    (maps : s.in2out from ≡ some to) (clear : s.in2out_color from ≡ 0)
    (inner : Steps regs (paint from 1 s) s' to closed) where
  move_from :
      (c by : ℕ)
      → s'.in2out_color from ≡ c
      → (if c == 2 then scratch from else from) ≡ by
      → move_after from to s' ≡ unmap from (emit (move_for from to by) s')
  unfolding move_after
  move_from c by e chosen =
      ap (λ b. unmap from (emit (move_for from to b) s'))
        (ap (λ k. if k == 2 then scratch from else from) e ∙ chosen)

  -- The cycle was closed at this register.
  closed_here : is_at closed from ≡ true → Steps regs s (move_after from to s') from none
  closed_here at =
      let same = is_at-some closed from at in
      let color =
        own_color regs s from to ready maps clear inner ∙ ap (λ b. if b then 2 else 1) at in
      move_ends regs s from to ready maps clear inner (scratch from)
        (move_from 2 (scratch from) color refl)
        (record {
          to_below = (ready.target from to maps).below;
          from_below = scratch_below from;
          to_class = ready.same_class from to maps;
          from_class = scratch-SameClass from;
        })
        (inner.cycle from same).2 none
        (λ x ne. is_at_other from x ne ∙ ap (λ c. is_at c x) (sym same)) (λ t e. cc)

  unchanged : is_at closed from ≡ false → regs_of s' regs from ≡ regs_of s regs from
  unchanged off =
      let plain = ready.source from to maps in
      let still_from = still regs s from to ready maps clear inner in
      inner.others from plain.not_int plain.not_float λ x e. elim (Option-cases (s'.in2out x)) [
        | inl gone ↦ absurd (true_not_false (sym (inner.ended x from to e gone still_from) ∙ off))
        | inr (z, left) ↦ left ∙ sym (inner.kept x z left) ∙ e
      ]

  closed_elsewhere : is_at closed from ≡ false → Steps regs s (move_after from to s') from closed
  closed_elsewhere off =
      let color =
        own_color regs s from to ready maps clear inner ∙ ap (λ b. if b then 2 else 1) off in
      move_ends regs s from to ready maps clear inner from (move_from 1 from color refl)
        (fit regs s from to ready maps clear) (unchanged off) closed (λ x ne. refl)
        (λ t e. (e, λ same. is_at_self t from closed e same off))

  after_step : (ended : Option ℕ) × Steps regs s (move_after from to s') from ended
  after_step = elim (Bool-cases (is_at closed from)) [
    | inl at ↦ (none, closed_here at)
    | inr off ↦ (closed, closed_elsewhere off)
  ]

-- With fuel for the registers that are not painted, a call from a source that is not painted ends.
pub reg_shuffle_single-Steps :
    (regs : Registers) (fuel : ℕ) (s : Shuffle) (from to : ℕ)
    → IsReady s
    → s.in2out from ≡ some to
    → s.in2out_color from ≡ 0
    → unpainted s.in2out_color 32 ≤ fuel
    → (s' : Shuffle) × (closed : Option ℕ) × (reg_shuffle_single fuel s from ≡ ok s')
      × Steps regs s s' from closed
reg_shuffle_single-Steps regs zero s from to ready maps clear enough =
    absurd (
      omega (arith, unpainted-below s.in2out_color from 32 (ready.source from to maps).below clear))
reg_shuffle_single-Steps regs (suc fuel) s from to ready maps clear enough =
    let lf = (ready.source from to maps).below in
    let lt = (ready.target from to maps).below in
    let step_at = single_step fuel s from to lf lt maps in
    elim (Option-cases (s.in2out to)) [
      | inl ends ↦ (
        unmap from (emit (move_for from to from) s),
        none,
        step_at ∙ to_end (reg_shuffle_single fuel) s from to ends,
        end_of_chain regs s from to ready maps clear ends,
      )
      | inr (next, pending) ↦ elim (Bool-cases (s.in2out_color to == 0)) [
        | inr color ↦ (
          close_cycle from to s,
          some to,
          step_at ∙ to_cycle (reg_shuffle_single fuel) s from to next pending color,
          end_of_cycle regs s from to ready maps clear next pending (ground arith),
        )
        | inl color ↦
            let unpainted_to = (==_iff (s.in2out_color to) 0).0 color in
            let ne = λ (e : to ≡ from). ready.moved from (maps ∙ ap some e) in
            let (s', closed, run, inner) =
              reg_shuffle_single-Steps regs fuel (paint from 1 s) to next
                (IsReady-paint s from ready) pending
                (update_ne s.in2out_color from 1 to ne ∙ unpainted_to)
                (omega (arith, unpainted-below s.in2out_color from 32 lf clear)) in
            let (ended, steps) = after_step regs s s' from to closed ready maps clear inner in
            (
              move_after from to s',
              ended,
              step_at ∙ to_next (reg_shuffle_single fuel) s s' from to next pending color run,
              steps,
            )
      ]
    ]
