-- ===== src/Shuffle/Pairs.antt =====
-- src/x86/bbae_emission_x86.h: the table `in2out` from a list of moves, each of a source and a target.
use bbae.Common.{
  ℕ, ◌≡◌, ◌≢◌, refl, sym, ap, ◌∙◌, subst, inl, inr, List, [], ◌∷◌, Option, none, some, false, leb,
  ◌==◌, ==_iff, ok, arith, Bool-cases, ◌⊎◌, All, some_not_none,
}
use bbae.Abi.Args.{AreDistinct}
use bbae.Shuffle.{Move, Shuffle, r15, map_reg, begin_shuffle, do_reg_shuffle}
use bbae.Shuffle.Machine.{Registers, exec, SameClass}
use bbae.Shuffle.Steps.{IsPlain}
use bbae.Shuffle.Loop.{IsParallel, do_reg_shuffle-parallel}

abbrev pub Pairs : Type 0
Pairs = List (ℕ × ℕ)

abbrev pub sources : Pairs → List ℕ
sources [] = []
sources ((x, z) ∷ pairs) = x ∷ sources pairs

abbrev pub targets : Pairs → List ℕ
targets [] = []
targets ((x, z) ∷ pairs) = z ∷ targets pairs

-- All are plain registers, and each target is of its source's class.
abbrev pub ArePlain : Pairs → Type 0
ArePlain [] = Unit
ArePlain ((x, z) ∷ pairs) = (IsPlain x × IsPlain z × SameClass x z) × ArePlain pairs

-- The table after all moves are entered.
abbrev pub map_pairs : (ℕ → Option ℕ) → Pairs → ℕ → Option ℕ
map_pairs in2out [] = in2out
map_pairs in2out ((x, z) ∷ pairs) = map_pairs (map_reg in2out x z) pairs

abbrev pub Among : ℕ → ℕ → Pairs → Type 0
Among x z [] = ⊥
Among x z ((a, b) ∷ pairs) = ((x ≡ a) × (z ≡ b)) ⊎ Among x z pairs

-- Every target holds afterwards what its source held before.
abbrev pub Received : Registers → Registers → Pairs → Type 0
Received before after [] = Unit
Received before after ((x, z) ∷ pairs) = (after z ≡ before x) × Received before after pairs

Received-all :
    (before after : Registers) (pairs : Pairs)
    → ((x z : ℕ) → Among x z pairs → after z ≡ before x)
    → Received before after pairs
Received-all before after [] all = tt
Received-all before after ((x, z) ∷ pairs) all =
    (all x z (inl (refl, refl)), Received-all before after pairs (λ a b at. all a b (inr at)))

apart_source :
    (a x z : ℕ) (pairs : Pairs) → All (λ y. a ≢ y) (sources pairs) → Among x z pairs → a ≢ x
apart_source a x z [] ne at = absurd at
apart_source a x z ((b, c) ∷ pairs) (ne, rest) (inl (e, f)) = λ same. ne (same ∙ e)
apart_source a x z ((b, c) ∷ pairs) (ne, rest) (inr at) = apart_source a x z pairs rest at

apart_target :
    (a x z : ℕ) (pairs : Pairs) → All (λ y. a ≢ y) (targets pairs) → Among x z pairs → a ≢ z
apart_target a x z [] ne at = absurd at
apart_target a x z ((b, c) ∷ pairs) (ne, rest) (inl (e, f)) = λ same. ne (same ∙ f)
apart_target a x z ((b, c) ∷ pairs) (ne, rest) (inr at) = apart_target a x z pairs rest at

one_source :
    (x y z : ℕ) (pairs : Pairs)
    → AreDistinct (targets pairs)
    → Among x z pairs
    → Among y z pairs
    → x ≡ y
one_source x y z [] once at other = absurd at
one_source x y z ((a, b) ∷ pairs) (ne, once) (inl (e, f)) (inl (g, h)) = e ∙ sym g
one_source x y z ((a, b) ∷ pairs) (ne, once) (inl (e, f)) (inr other) =
    absurd (apart_target b y z pairs ne other (sym f))
one_source x y z ((a, b) ∷ pairs) (ne, once) (inr at) (inl (g, h)) =
    absurd (apart_target b x z pairs ne at (sym h))
one_source x y z ((a, b) ∷ pairs) (ne, once) (inr at) (inr other) =
    one_source x y z pairs once at other

IsPlain-at :
    (x z : ℕ) (pairs : Pairs)
    → ArePlain pairs
    → Among x z pairs
    → IsPlain x × IsPlain z × SameClass x z
IsPlain-at x z [] plain at = absurd at
IsPlain-at x z ((a, b) ∷ pairs) ((pa, pb, same), plain) (inl (e, f)) = (
  subst IsPlain (sym e) pa,
  subst IsPlain (sym f) pb,
  ap (λ r. leb r r15) e ∙ same ∙ ap (λ r. leb r r15) (sym f),
)
IsPlain-at x z ((a, b) ∷ pairs) (p, plain) (inr at) = IsPlain-at x z pairs plain at

-- An entry for one move.
map_reg_from : (in2out : ℕ → Option ℕ) (a b : ℕ) → b ≢ a → map_reg in2out a b a ≡ some b
map_reg_from in2out a b ne = ground arith

map_reg_cases :
    (in2out : ℕ → Option ℕ) (a b x z : ℕ)
    → map_reg in2out a b x ≡ some z
    → (in2out x ≡ some z) ⊎ ((x ≡ a) × (z ≡ b) × (z ≢ x))
map_reg_cases in2out a b x z e = elim (Bool-cases (b == a)) [
  | inl same ↦ inl (ground arith)
  | inr ne ↦ elim (Bool-cases (x == a)) [
    | inl at ↦ inr (ground arith, ground arith, ground arith)
    | inr off ↦ inl (ground arith)
  ]
]

map_reg_ne : (in2out : ℕ → Option ℕ) (a b x : ℕ) → a ≢ x → map_reg in2out a b x ≡ in2out x
map_reg_ne in2out a b x ne = ground arith

-- Every entry stands for one of the moves, or was there before.
entry_from :
    (in2out : ℕ → Option ℕ) (pairs : Pairs) (x z : ℕ)
    → map_pairs in2out pairs x ≡ some z
    → (in2out x ≡ some z) ⊎ (Among x z pairs × (z ≢ x))
entry_from in2out [] x z e = inl e
entry_from in2out ((a, b) ∷ pairs) x z e = elim (entry_from (map_reg in2out a b) pairs x z e) [
  | inl before ↦ elim (map_reg_cases in2out a b x z before) [
    | inl early ↦ inl early
    | inr (same, to, ne) ↦ inr (inl (same, to), ne)
  ]
  | inr (at, ne) ↦ inr (inr at, ne)
]

entry_kept :
    (in2out : ℕ → Option ℕ) (pairs : Pairs) (x : ℕ)
    → All (λ y. x ≢ y) (sources pairs)
    → map_pairs in2out pairs x ≡ in2out x
entry_kept in2out [] x ne = refl
entry_kept in2out ((a, b) ∷ pairs) x (ne, rest) =
    entry_kept (map_reg in2out a b) pairs x rest ∙ map_reg_ne in2out a b x (λ e. ne (sym e))

-- Where the sources differ, every move has its entry.
entry_of :
    (in2out : ℕ → Option ℕ) (pairs : Pairs) (x z : ℕ)
    → AreDistinct (sources pairs)
    → Among x z pairs
    → z ≢ x
    → map_pairs in2out pairs x ≡ some z
entry_of in2out [] x z once at ne = absurd at
entry_of in2out ((a, b) ∷ pairs) x z (apart, once) (inl (e, f)) ne =
    ap (map_pairs (map_reg in2out a b) pairs) e
    ∙ entry_kept (map_reg in2out a b) pairs a apart
    ∙ map_reg_from in2out a b (λ same. ne (f ∙ same ∙ sym e))
    ∙ ap some (sym f)
entry_of in2out ((a, b) ∷ pairs) x z (apart, once) (inr at) ne =
    entry_of (map_reg in2out a b) pairs x z once at ne

differ : (z x : ℕ) → (z == x) ≡ false → z ≢ x
differ z x ne e = ground arith

module _ (pairs : Pairs) (once_from : AreDistinct (sources pairs))
    (once_to : AreDistinct (targets pairs)) (plain : ArePlain pairs) where
  pub table : ℕ → Option ℕ
  table = map_pairs (λ reg. none) pairs

  among : (x z : ℕ) → table x ≡ some z → Among x z pairs × (z ≢ x)
  unfolding table
  among x z e = elim (entry_from (λ reg. none) pairs x z e) [
    | inl before ↦ absurd (some_not_none (sym before))
    | inr at ↦ at
  ]

  table-IsParallel : IsParallel table
  table-IsParallel = record {
    injective = λ x y z e f. one_source x y z pairs once_to (among x z e).0 (among y z f).0;
    moved = λ x e. (among x x e).1 refl;
    source = λ x z e. (IsPlain-at x z pairs plain (among x z e).0).0;
    target = λ x z e. (IsPlain-at x z pairs plain (among x z e).0).1;
    same_class = λ x z e. (IsPlain-at x z pairs plain (among x z e).0).2;
  }

  not_among : (z : ℕ) → All (λ y. z ≢ y) (targets pairs) → (x : ℕ) → table x ≢ some z
  not_among z apart x e = apart_target z x z pairs apart (among x z e).0 refl

  -- The shuffle of a table for different sources and different targets.
  pub shuffle_pairs :
      (regs : Registers) (code : List Move)
      → (s' : Shuffle) × (do_reg_shuffle (begin_shuffle code (map_pairs (λ reg. none) pairs))
          ≡ ok s')
        × Received (exec code regs) (exec s'.code regs) pairs
        × ((z : ℕ)
            → z ≢ 11
            → z ≢ 21
            → All (λ y. z ≢ y) (targets pairs)
            → exec s'.code regs z ≡ exec code regs z)
  unfolding table
  shuffle_pairs regs code =
      let (s', run, moved, others) =
        do_reg_shuffle-parallel regs (begin_shuffle code table) table-IsParallel (λ x. refl) in
      (
        s',
        run,
        Received-all (exec code regs) (exec s'.code regs) pairs (λ x z at.
            elim (Bool-cases (z == x)) [
              | inl same ↦
                  let e = (==_iff z x).0 same in
                  let p = (IsPlain-at x z pairs plain at).1 in
                  others z p.not_int p.not_float (λ y f.
                    let (other, ne) = among y z f in
                    ne (e ∙ one_source x y z pairs once_to at other))
                  ∙ ap (exec code regs) e
              | inr ne ↦
                  moved x z (entry_of (λ reg. none) pairs x z once_from at (λ e. differ z x ne e))
            ]),
        λ z ni nf apart. others z ni nf (not_among z apart),
      )
