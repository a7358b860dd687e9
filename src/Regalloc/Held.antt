-- ===== src/Regalloc/Held.antt =====
-- src/x86/regalloc_x86.h: `regalloc_block_args` takes free registers only.
use bbae.Common.{
  ℕ, zero, suc, ◌+◌, ◌-◌, ◌≡◌, ◌≢◌, refl, sym, ap, ◌∙◌, subst, inl, inr, Bool, true, false, List,
  [], ◌∷◌, some, ok, ltb, set, get_elem?, get_elem?-set_ne, arith, Bool-cases,
}
use bbae.Ir.{Heap}
use bbae.Ir.Substitute.{mem}
use bbae.Abi.{Abi}
use bbae.Regalloc.{RegUse, RegInfo, RegState, hold}
use bbae.Regalloc.Args.{IsOnce}
use bbae.Regalloc.Blocks.{reg_of_block_arg, block_args_loop, regalloc_block_args}
use bbae.Regalloc.Free.{reg_use, IsEmptyAt, bind_ok, ok_injective}
use bbae.Regalloc.Chosen.{arg_free}

-- A register that was free holds the value afterwards, and no other one changes.
get_elem?-set_at :
    (array : List RegUse) (n : ℕ) (x : RegUse)
    → get_elem? array n ≡ some RegUse.empty
    → get_elem? (set array n x) n ≡ some x
get_elem?-set_at [] n x e = cc
get_elem?-set_at (y ∷ array) zero x e = refl
get_elem?-set_at (y ∷ array) (suc n) x e = get_elem?-set_at array n x e

held_here : (s : RegState) (r v : ℕ) → IsEmptyAt s r → reg_use (hold s r v) r ≡ some (RegUse.held v)
held_here s r v free = elim (Bool-cases (ltb r 16)) [
  | inl low ↦ rw low (get_elem?-set_at s.reg_int_alloced r (RegUse.held v) (rw low at free))
  | inr high ↦
      rw high (get_elem?-set_at s.reg_float_alloced (r - 16) (RegUse.held v) (rw high at free))
]

same_high : (r x : ℕ) → ltb r 16 ≡ false → ltb x 16 ≡ false → r - 16 ≡ x - 16 → x ≡ r
same_high r x high xhigh e = ground arith

held_elsewhere : (s : RegState) (r v x : ℕ) → x ≢ r → reg_use (hold s r v) x ≡ reg_use s x
held_elsewhere s r v x ne = elim (Bool-cases (ltb r 16)) [
  | inl low ↦ elim (Bool-cases (ltb x 16)) [
    | inl xlow ↦
        rw (low, xlow) (get_elem?-set_ne s.reg_int_alloced (RegUse.held v) (λ e. ne (sym e)))
    | inr xhigh ↦ rw (low, xhigh) refl
  ]
  | inr high ↦ elim (Bool-cases (ltb x 16)) [
    | inl xlow ↦ rw (high, xlow) refl
    | inr xhigh ↦
        rw (high, xhigh)
          (get_elem?-set_ne s.reg_float_alloced (RegUse.held v)
            (λ e. ne (same_high r x high xhigh e)))
  ]
]

-- Every argument is held by its register.
abbrev pub AreHeld : RegState → List ℕ → Type 0
AreHeld s [] = Unit
AreHeld s (v ∷ args) =
    (((s.info v).regalloced ≡ true) × (reg_use s (s.info v).regalloc ≡ some (RegUse.held v)))
    × AreHeld s args

-- A register in use keeps what it holds, and a value that is not listed its register.
pub record HoldsFree (args : List ℕ) (s s' : RegState) : Type 0 where
  pub held_by : AreHeld s' args
  pub in_use : (x : ℕ) → reg_use s x ≢ some RegUse.empty → reg_use s' x ≡ reg_use s x
  pub others : (v : ℕ) → mem v args ≡ false → s'.info v ≡ s.info v

own_info :
    (s : RegState) (r v : ℕ)
    → (hold s r v).info v ≡ record (s.info v) { regalloced = true; regalloc = r }
own_info s r v = ground arith

other_info : (s : RegState) (r v w : ℕ) → w ≢ v → (hold s r v).info w ≡ s.info w
other_info s r v w ne = ground arith

held_ne_empty : {v : ℕ} → some (RegUse.held v) ≢ some RegUse.empty
held_ne_empty e = cc

tail_off : (x a : ℕ) (addrs : List ℕ) → mem x (a ∷ addrs) ≡ false → mem x addrs ≡ false
tail_off x a addrs e = ground arith

head_ne : (x a : ℕ) (addrs : List ℕ) → mem x (a ∷ addrs) ≡ false → x ≢ a
head_ne x a addrs e = ground arith

hold_step :
    (s s' : RegState) (r v : ℕ) (args : List ℕ)
    → IsEmptyAt s r
    → mem v args ≡ false
    → HoldsFree args (hold s r v) s'
    → HoldsFree (v ∷ args) s s'
hold_step s s' r v args free off later =
    let own = later.others v off ∙ own_info s r v in
    record {
      held_by = (
        (
          ap (λ (i : RegInfo). i.regalloced) own,
          ap (λ (i : RegInfo). reg_use s' i.regalloc) own
              ∙ later.in_use r (λ e. held_ne_empty (sym (held_here s r v free) ∙ e))
              ∙ held_here s r v free,
        ),
        later.held_by,
      );
      in_use = λ x used.
          let ne = λ (e : x ≡ r). used (ap (reg_use s) e ∙ free) in
          later.in_use x (λ e. used (sym (held_elsewhere s r v x ne) ∙ e))
          ∙ held_elsewhere s r v x ne;
      others =
          λ w e. later.others w (tail_off w v args e) ∙ other_info s r v w (head_ne w v args e);
    }

loop_holds :
    (abi : Abi) (performs_calls : Bool) (same_text : ℕ → ℕ → Bool) (h : Heap) (s s' : RegState)
    (i : ℕ) (edges args : List ℕ)
    → IsOnce args
    → block_args_loop abi performs_calls same_text h s i edges args ≡ ok s'
    → HoldsFree args s s'
unfolding block_args_loop
loop_holds abi performs_calls same_text h s s' i edges [] once e =
    subst (HoldsFree [] s) (ok_injective e)
      record { held_by = tt; in_use = λ x u. refl; others = λ v o. refl }
loop_holds abi performs_calls same_text h s s' i edges (value ∷ args) (off, once) e =
    let (r, chosen, further) =
      bind_ok (reg_of_block_arg abi performs_calls same_text h s i edges value)
        (λ r. block_args_loop abi performs_calls same_text h (hold s r value) (i + 1) edges args)
        e in
    hold_step s s' r value args (arg_free abi performs_calls same_text h s i edges value r chosen)
      off
      (loop_holds abi performs_calls same_text h (hold s r value) s' (i + 1) edges args once
        further)

-- Where the arguments of a block differ and the allocation fails no assertion, every one of them is
-- held by its register afterwards, a register that was in use keeps what it held, and no other value's
-- register changes.
pub regalloc_block_args-HoldsFree :
    (abi : Abi) (performs_calls : Bool) (same_text : ℕ → ℕ → Bool) (h : Heap) (s s' : RegState)
    (block : ℕ)
    → IsOnce (h.blocks block).args
    → regalloc_block_args abi performs_calls same_text h s block ≡ ok s'
    → HoldsFree (h.blocks block).args s s'
unfolding regalloc_block_args
regalloc_block_args-HoldsFree abi performs_calls same_text h s s' block once e =
    loop_holds abi performs_calls same_text h s s' 0 (h.blocks block).edges_in (h.blocks block).args
      once e
