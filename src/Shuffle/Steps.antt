-- ===== src/Shuffle/Steps.antt =====
-- src/x86/bbae_emission_x86.h: what one call of `reg_shuffle_single` does, and its two last cases.
use bbae.Common.{
  ℕ, ◌<◌, ◌≡◌, ◌≢◌, refl, sym, ap, ◌∙◌, inl, inr, List, [], ◌∷◌, ◌++◌, Option, none, some, Bool,
  true, false, ◌==◌, if◌then◌else◌, arith, Bool-cases, leb, some_injective, some_not_none,
}
use bbae.Ir.{update}
use bbae.Ir.Update.{update_self, update_ne}
use bbae.Shuffle.{Move, Shuffle, scratch, move_for, emit, unmap, close_cycle}
use bbae.Shuffle.Machine.{
  Registers, exec, regs_of, SameClass, IsFit, exec-move, scratch-SameClass, scratch_below,
}

-- A register that the moves may name.
pub record IsPlain (reg : ℕ) : Type 0 where
  pub below : reg < 32
  pub not_int : reg ≢ 11
  pub not_float : reg ≢ 21

-- No two sources have the same target, no source is its own target, all are plain registers, each
-- source is of its target's class, and no cycle is closed.
pub record IsReady (s : Shuffle) : Type 0 where
  pub injective : (x y z : ℕ) → s.in2out x ≡ some z → s.in2out y ≡ some z → x ≡ y
  pub moved : (x : ℕ) → s.in2out x ≢ some x
  pub source : (x z : ℕ) → s.in2out x ≡ some z → IsPlain x
  pub target : (x z : ℕ) → s.in2out x ≡ some z → IsPlain z
  pub same_class : (x z : ℕ) → s.in2out x ≡ some z → SameClass x z
  pub unclosed : (x z : ℕ) → s.in2out x ≡ some z → s.in2out_color x ≢ 2

abbrev pub is_at : Option ℕ → ℕ → Bool
is_at none x = false
is_at (some t) x = t == x

-- From one state to a later one, with the source where a cycle was closed, if there is one.
pub record Steps (regs : Registers) (s s' : Shuffle) (from : ℕ) (closed : Option ℕ) : Type 0 where
  pub kept : (x z : ℕ) → s'.in2out x ≡ some z → s.in2out x ≡ some z
  pub done : s'.in2out from ≡ none
  pub painted : (x z : ℕ) → s.in2out x ≡ some z → s.in2out_color x ≢ 0 → s'.in2out x ≡ some z
  pub colors :
      (x z : ℕ)
      → s'.in2out x ≡ some z
      → s'.in2out_color x ≡ (if is_at closed x then 2 else s.in2out_color x)
  pub copied :
      (x z : ℕ) → s.in2out x ≡ some z → s'.in2out x ≡ none → regs_of s' regs z ≡ regs_of s regs x
  pub others :
      (z : ℕ)
      → z ≢ 11
      → z ≢ 21
      → ((x : ℕ) → s.in2out x ≡ some z → s'.in2out x ≡ some z)
      → regs_of s' regs z ≡ regs_of s regs z
  pub ended :
      (x t z : ℕ)
      → s.in2out x ≡ some t
      → s'.in2out x ≡ none
      → s'.in2out t ≡ some z
      → is_at closed t ≡ true
  pub cycle :
      (t : ℕ)
      → closed ≡ some t
      → (s.in2out_color t ≢ 0)
        × ((z : ℕ) × (s.in2out t ≡ some z))
        × (regs_of s' regs (scratch t) ≡ regs_of s regs t)

-- What a cleared entry says of the others.
pub cleared_ne :
    (f : ℕ → Option ℕ) (k x z : ℕ) → update f k none x ≡ some z → (x ≢ k) × (f x ≡ some z)
cleared_ne f k x z e = ground arith

pub cleared_cases : (f : ℕ → Option ℕ) (k x z : ℕ) → f x ≡ some z → update f k none x ≡ none → x ≡ k
cleared_cases f k x z e gone = ground arith

pub not_scratch : (z r : ℕ) → z ≢ 11 → z ≢ 21 → z ≢ scratch r
not_scratch z r ni nf = elim (Bool-cases (leb r 15)) [ inl e ↦ rw e ni | inr e ↦ rw e nf ]

pub ne-scratch : (z r : ℕ) → IsPlain z → z ≢ scratch r
ne-scratch z r plain = not_scratch z r plain.not_int plain.not_float

at_to : (f : ℕ → ℕ) (to x : ℕ) → update f to 2 x ≡ (if to == x then 2 else f x)
at_to f to x = ground arith

at_self : (to t : ℕ) → t ≡ to → (to == t) ≡ true
at_self to t e = ground arith

-- The registers after the moves that close a cycle.
abbrev saved : ℕ → ℕ → Registers → Registers
saved from to regs = let r = update regs (scratch to) (regs to) in update r to (r from)

exec-saved :
    (code : List Move) (from to : ℕ) (regs : Registers)
    → from < 32
    → to < 32
    → SameClass from to
    → exec ((code ++ move_for to (scratch to) to ∷ []) ++ move_for to to from ∷ []) regs
      ≡ saved from to (exec code regs)
exec-saved code from to regs from_below to_below same =
    let keep : IsFit to (scratch to) to = record {
      to_below = scratch_below to;
      from_below = to_below;
      to_class = scratch-SameClass to;
      from_class = refl;
    } in
    let move : IsFit to to from = record {
      to_below = to_below;
      from_below = from_below;
      to_class = refl;
      from_class = sym same;
    } in
    exec-move (code ++ move_for to (scratch to) to ∷ []) to to from regs move
    ∙ ap (λ r. update r to (r from)) (exec-move code to (scratch to) to regs keep)

saved_to : (regs : Registers) (from to : ℕ) → from ≢ scratch to → saved from to regs to ≡ regs from
saved_to regs from to ne =
    update_self (update regs (scratch to) (regs to)) to _
    ∙ update_ne regs (scratch to) (regs to) from ne

saved_others :
    (regs : Registers) (from to z : ℕ) → z ≢ to → z ≢ scratch to → saved from to regs z ≡ regs z
saved_others regs from to z nt ns =
    update_ne (update regs (scratch to) (regs to)) to _ z nt
    ∙ update_ne regs (scratch to) (regs to) z ns

saved-scratch :
    (regs : Registers) (from to : ℕ) → to ≢ scratch to → saved from to regs (scratch to) ≡ regs to
saved-scratch regs from to ne =
    update_ne (update regs (scratch to) (regs to)) to _ (scratch to) (λ e. ne (sym e))
    ∙ update_self regs (scratch to) (regs to)

pub one_not_zero : ◌≢◌ {A = ℕ} 1 0
one_not_zero e = omega arith

module _ (regs : Registers) (s : Shuffle) (from to : ℕ) (ready : IsReady s)
    (maps : s.in2out from ≡ some to) (unpainted : s.in2out_color from ≡ 0) where
  only_from : (x z : ℕ) → s.in2out x ≡ some z → update s.in2out from none x ≡ none → z ≡ to
  only_from x z e gone =
      let at = cleared_cases s.in2out from x z e gone in
      some_injective (sym e ∙ ap s.in2out at ∙ maps)

  stays_painted :
      (x z : ℕ) → s.in2out x ≡ some z → s.in2out_color x ≢ 0 → update s.in2out from none x ≡ some z
  stays_painted x z e color =
      update_ne s.in2out from none x (λ at. color (ap s.in2out_color at ∙ unpainted)) ∙ e

  not_target :
      (z : ℕ) → ((x : ℕ) → s.in2out x ≡ some z → update s.in2out from none x ≡ some z) → z ≢ to
  not_target z all at =
      some_not_none (sym (all from (maps ∙ ap some (sym at))) ∙ update_self s.in2out from none)

  pub fit : IsFit from to from
  fit = record {
    to_below = (ready.target from to maps).below;
    from_below = (ready.source from to maps).below;
    to_class = ready.same_class from to maps;
    from_class = refl;
  }

  -- The end of a chain.
  pub end_of_chain :
      s.in2out to ≡ none → Steps regs s (unmap from (emit (move_for from to from) s)) from none
  end_of_chain ends =
      let run = exec-move s.code from to from regs fit in
      record {
        kept = λ x z e. (cleared_ne s.in2out from x z e).1;
        done = update_self s.in2out from none;
        painted = stays_painted;
        colors = λ x z e. refl;
        copied = λ x z e gone.
            ap (λ f. f z) run
            ∙ ap (update (regs_of s regs) to (regs_of s regs from)) (only_from x z e gone)
            ∙ update_self (regs_of s regs) to (regs_of s regs from)
            ∙ ap (regs_of s regs) (sym (cleared_cases s.in2out from x z e gone));
        others = λ z ni nf all.
            ap (λ f. f z) run
            ∙ update_ne (regs_of s regs) to (regs_of s regs from) z (not_target z all);
        ended = λ x t z e gone pending. absurd (
            some_not_none (
              sym (cleared_ne s.in2out from t z pending).1
              ∙ ap s.in2out (only_from x t e gone)
              ∙ ends));
        cycle = λ t e. cc;
      }

  -- The last move of a cycle.
  pub end_of_cycle :
      (next : ℕ)
      → s.in2out to ≡ some next
      → s.in2out_color to ≢ 0
      → Steps regs s (close_cycle from to s) from (some to)
  unfolding close_cycle
  end_of_cycle next pending color =
      let swapped = saved from to in
      let plain_from = ready.source from to maps in
      let plain_to = ready.target from to maps in
      let run =
        exec-saved s.code from to regs plain_from.below plain_to.below
          (ready.same_class from to maps) in
      record {
        kept = λ x z e. (cleared_ne s.in2out from x z e).1;
        done = update_self s.in2out from none;
        painted = stays_painted;
        colors = λ x z e. at_to s.in2out_color to x;
        copied = λ x z e gone.
            ap (λ f. f z) run
            ∙ ap (swapped (regs_of s regs)) (only_from x z e gone)
            ∙ saved_to (regs_of s regs) from to (ne-scratch from to plain_from)
            ∙ ap (regs_of s regs) (sym (cleared_cases s.in2out from x z e gone));
        others = λ z ni nf all.
            ap (λ f. f z) run
            ∙ saved_others (regs_of s regs) from to z (not_target z all) (not_scratch z to ni nf);
        ended = λ x t z e gone still. at_self to t (only_from x t e gone);
        cycle = λ t e.
            let same = some_injective e in
            (
              λ c. color (ap s.in2out_color same ∙ c),
              (next, ap s.in2out (sym same) ∙ pending),
              ap (λ f. f (scratch t)) run
                  ∙ ap (λ r. swapped (regs_of s regs) (scratch r)) (sym same)
                  ∙ saved-scratch (regs_of s regs) from to (ne-scratch to to plain_to)
                  ∙ ap (regs_of s regs) same,
            );
      }
