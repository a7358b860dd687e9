-- ===== src/Shuffle/Turn.antt =====
-- src/x86/bbae_emission_x86.h: the last move of `reg_shuffle_single` after its recursive call.
use bbae.Common.{
  ℕ, ◌≡◌, ◌≢◌, sym, ap, ◌∙◌, subst, inl, inr, Option, none, some, if◌then◌else◌, Option-cases, ◌⊎◌,
  some_injective, some_not_none,
}
use bbae.Ir.{update}
use bbae.Shuffle.{Shuffle, scratch, move_for, emit, unmap, paint, move_after}
use bbae.Shuffle.Machine.{Registers, regs_of, IsFit, exec-move}
use bbae.Ir.Update.{update_self, update_ne}
use bbae.Shuffle.Steps.{IsReady, is_at, Steps, cleared_ne, cleared_cases, ne-scratch, one_not_zero}

module _ (regs : Registers) (s : Shuffle) (from to : ℕ) (ready : IsReady s)
    (maps : s.in2out from ≡ some to) (unpainted : s.in2out_color from ≡ 0) where
  -- A step further along the chain, with the recursive call in the middle.
  module _ {s' : Shuffle} {closed : Option ℕ}
      (inner : Steps regs (paint from 1 s) s' to closed) where
    pub still : s'.in2out from ≡ some to
    still =
        inner.painted from to maps (λ e. one_not_zero (sym (update_self s.in2out_color from 1) ∙ e))

    pub own_color : s'.in2out_color from ≡ (if is_at closed from then 2 else 1)
    own_color =
        inner.colors from to still
        ∙ ap (λ c. if is_at closed from then 2 else c) (update_self s.in2out_color from 1)

    -- The entries that are gone behind the last move.
    gone_cases :
        (x z : ℕ)
        → s.in2out x ≡ some z
        → update s'.in2out from none x ≡ none
        → (x ≡ from) ⊎ (s'.in2out x ≡ none)
    gone_cases x z e gone = elim (Option-cases (s'.in2out x)) [
      | inl none_left ↦ inr none_left
      | inr (w, pending) ↦ inl (cleared_cases s'.in2out from x w pending gone)
    ]

    target_of : (x z : ℕ) → s.in2out x ≡ some z → x ≡ from → z ≡ to
    target_of x z e at = some_injective (sym e ∙ ap s.in2out at ∙ maps)

    earlier-ne : (x z : ℕ) → s.in2out x ≡ some z → s'.in2out x ≡ none → z ≢ to
    earlier-ne x z e gone at =
        let same = ready.injective x from z e (maps ∙ ap some (sym at)) in
        some_not_none (sym still ∙ ap s'.in2out (sym same) ∙ gone)

    -- The last move, where it copies what the source held.
    pub move_ends :
        (by : ℕ)
        → (move_after from to s') ≡ unmap from (emit (move_for from to by) s')
        → IsFit from to by
        → regs_of s' regs by ≡ regs_of s regs from
        → (ended' : Option ℕ) → ((x : ℕ) → x ≢ from → is_at ended' x ≡ is_at closed x)
        → ((t : ℕ) → ended' ≡ some t → (closed ≡ some t) × (t ≢ from))
        → Steps regs s (move_after from to s') from ended'
    move_ends by same fit value ended' colours cycles =
        let run = exec-move s'.code from to by regs fit in
        let after = regs_of s' regs in
        let lasts = λ (x z : ℕ) (p : update s'.in2out from none x ≡ some z).
          cleared_ne s'.in2out from x z p in
        subst (λ r. Steps regs s r from ended') (sym same)
          record {
            kept = λ x z e. inner.kept x z (lasts x z e).1;
            done = update_self s'.in2out from none;
            painted = λ x z e c.
                let ne = λ (at : x ≡ from). c (ap s.in2out_color at ∙ unpainted) in
                update_ne s'.in2out from none x ne
                ∙ inner.painted x z e (λ p. c (sym (update_ne s.in2out_color from 1 x ne) ∙ p));
            colors = λ x z e.
                let (ne, pending) = lasts x z e in
                inner.colors x z pending
                ∙ ap (λ b. if b then 2 else update s.in2out_color from 1 x) (sym (colours x ne))
                ∙ ap (λ c. if is_at ended' x then 2 else c) (update_ne s.in2out_color from 1 x ne);
            copied = λ x z e gone. elim (gone_cases x z e gone) [
              | inl at ↦
                  ap (λ f. f z) run
                  ∙ ap (update after to (after by)) (target_of x z e at)
                  ∙ update_self after to (after by)
                  ∙ value
                  ∙ ap (regs_of s regs) (sym at)
              | inr earlier ↦
                  ap (λ f. f z) run
                  ∙ update_ne after to (after by) z (earlier-ne x z e earlier)
                  ∙ inner.copied x z e earlier
            ];
            others = λ z ni nf all.
                let ne = λ (at : z ≡ to).
                  some_not_none
                    (sym (all from (maps ∙ ap some (sym at))) ∙ update_self s'.in2out from none) in
                ap (λ f. f z) run
                ∙ update_ne after to (after by) z ne
                ∙ inner.others z ni nf (λ x e. (lasts x z (all x e)).1);
            ended = λ x t z e gone pending. elim (gone_cases x t e gone) [
              | inl at ↦ absurd (
                  some_not_none
                    (sym (lasts t z pending).1 ∙ ap s'.in2out (target_of x t e at) ∙ inner.done))
              | inr earlier ↦
                  let (ne, left) = lasts t z pending in
                  colours t ne ∙ inner.ended x t z e earlier left
            ];
            cycle = λ t e.
                let (same_t, ne) = cycles t e in
                let (c, w, moved) = inner.cycle t same_t in
                (
                  λ p. c (update_ne s.in2out_color from 1 t ne ∙ p),
                  w,
                  ap (λ f. f (scratch t)) run
                      ∙ update_ne after to (after by) (scratch t)
                          (λ p. ne-scratch to t (ready.target from to maps) (sym p))
                      ∙ moved,
                );
          }
