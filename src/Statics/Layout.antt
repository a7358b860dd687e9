-- ===== src/Statics/Layout.antt =====
-- src/compiler_common.h: where global data is placed.
use bbae.Common.{
  ℕ, zero, suc, ◌+◌, ◌-◌, ◌%◌, ◌^◌, ◌≤◌, ◌<◌, ◌≡◌, refl, ◌∙◌, Bool, false, List, [], ◌∷◌, ◌++◌,
  Bytes, arith, All, Bool-cases, inl, inr, ok, ◌==◌, ==_iff,
}
use bbae.Types.{IrType, type_size, size_guess_align}
use bbae.Types.Align.{size_guess_align-IsAlignOf}
use bbae.Statics.{GlobalData, Program, add_global, put_global, pad_to}

-- Some padding of less than the alignment reaches a multiple of it.
pub padding : (n a : ℕ) (e : ℕ) → a ≡ 2 ^ e → e ≤ 6 → (d : ℕ) × (d < 64) × ((n + d) % a ≡ 0)
padding n a zero p h = (0, omega arith, rw p (omega arith))
padding n a (suc zero) p h = ((2 - n % 2) % 2, omega arith, rw p (omega arith))
padding n a (suc (suc zero)) p h = ((4 - n % 4) % 4, omega arith, rw p (omega arith))
padding n a (suc (suc (suc zero))) p h = ((8 - n % 8) % 8, omega arith, rw p (omega arith))
padding n a (suc (suc (suc (suc zero)))) p h = ((16 - n % 16) % 16, omega arith, rw p (omega arith))
padding n a (suc (suc (suc (suc (suc zero))))) p h =
    ((32 - n % 32) % 32, omega arith, rw p (omega arith))
padding n a (suc (suc (suc (suc (suc (suc zero)))))) p h =
    ((64 - n % 64) % 64, omega arith, rw p (omega arith))
padding n a (suc (suc (suc (suc (suc (suc (suc e))))))) p h = absurd (omega arith)

pad_to_stop : (fuel a n : ℕ) → n % a ≡ 0 → pad_to (suc fuel) a n ≡ ok n
unfolding pad_to
pad_to_stop fuel a n e = rw e

pad_to_step :
    (fuel a n : ℕ)
    → (n % a == 0) ≡ false
    → n + 1 < 2 ^ 64
    → pad_to (suc fuel) a n ≡ pad_to fuel a (n + 1)
unfolding pad_to
pad_to_step fuel a n e small = let fits : (n + 1) % 2 ^ 64 ≡ n + 1 = omega arith in rw (e, fits)

-- The loop stops at a multiple of the alignment.
pub pad_to-multiple :
    (d fuel a n : ℕ)
    → d ≤ fuel
    → (n + d) % a ≡ 0
    → n + d < 2 ^ 64
    → (m : ℕ) × (pad_to (suc fuel) a n ≡ ok m) × (m % a ≡ 0) × (n ≤ m) × (m ≤ n + d)
pad_to-multiple zero fuel a n few e small =
    let same : n + 0 ≡ n = omega arith in
    let e' : n % a ≡ 0 = rw same at e in (n, pad_to_stop fuel a n e', e', omega arith, omega arith)
pad_to-multiple (suc d) zero a n few e small = absurd (omega arith)
pad_to-multiple (suc d) (suc fuel) a n few e small = elim (Bool-cases (n % a == 0)) [
  | inl done ↦
      let e' : n % a ≡ 0 = (==_iff (n % a) 0).0 done in
      (n, pad_to_stop (suc fuel) a n e', e', omega arith, omega arith)
  | inr more ↦
      let shift : n + suc d ≡ n + 1 + d = omega arith in
      let (m, run, multiple, lo, hi) =
        pad_to-multiple d fuel a (n + 1) (omega arith) (rw shift at e) (omega arith) in
      (m, pad_to_step (suc fuel) a n more (omega arith) ∙ run, multiple, omega arith, omega arith)
]

-- A piece of data lies at a multiple of the alignment for its size.
abbrev pub IsAligned : GlobalData → Type 0
IsAligned g = (a : ℕ) × (size_guess_align g.allocated_size ≡ ok a) × (g.location % a ≡ 0)

-- The data stands in the order of its places, without overlaps and inside `total` bytes.
abbrev pub IsLaidOut : List GlobalData → ℕ → Type 0
IsLaidOut [] total = Unit
IsLaidOut (g ∷ globals) total =
    IsAligned g
    × (g.location + g.allocated_size ≤ total)
    × All (λ k. g.location + g.allocated_size ≤ k.location) globals
    × IsLaidOut globals total

All-last :
    (P : GlobalData → Type 0) (gs : List GlobalData) (g : GlobalData)
    → All P gs
    → P g
    → All P (gs ++ g ∷ [])
All-last P [] g h p = (p, tt)
All-last P (x ∷ gs) g h p = (h.0, All-last P gs g h.1 p)

IsLaidOut-append :
    (globals : List GlobalData) (g : GlobalData) (total : ℕ)
    → IsLaidOut globals total
    → IsAligned g
    → total ≤ g.location
    → IsLaidOut (globals ++ g ∷ []) (g.location + g.allocated_size)
IsLaidOut-append [] g total laid aligned behind = (aligned, omega arith, tt, tt)
IsLaidOut-append (k ∷ globals) g total (k_aligned, inside, before, rest) aligned behind = (
  k_aligned,
  omega arith,
  All-last (λ x. k.location + k.allocated_size ≤ x.location) globals g before (omega arith),
  IsLaidOut-append globals g total rest aligned behind,
)

-- What adding a global gives: the new piece behind the old ones, of the asked name, type and size,
-- at most 63 bytes behind the end, and the layout is kept.
pub record Added (program : Program) (name : Bytes) (type_of : IrType) (n : ℕ) (g : GlobalData)
    (after : Program) : Type 0 where
  pub named : g.name ≡ name
  pub typed : g.type_of ≡ type_of
  pub sized : g.allocated_size ≡ n
  pub globals : after.globals ≡ program.globals ++ g ∷ []
  pub close : g.location < program.globals_bytecount + 64
  pub total : after.globals_bytecount ≡ g.location + n
  pub laid_out : IsLaidOut after.globals after.globals_bytecount

module _ (program : Program) (name : Bytes) (type_of : IrType) (is_private : Bool) where
  global_at : ℕ → ℕ → GlobalData
  global_at location n = record {
    name = name;
    type_of = type_of;
    location = location;
    allocated_size = n;
    is_private = is_private;
  }

  after_global : ℕ → ℕ → Program
  unfolding global_at
  after_global location n = record program {
    globals = program.globals ++ global_at location n ∷ [];
    globals_bytecount = (location + n) % 2 ^ 64;
  }

  put_global-ok :
      (fuel n a m : ℕ)
      → size_guess_align n ≡ ok a
      → pad_to fuel a program.globals_bytecount ≡ ok m
      → put_global fuel program name type_of is_private n ≡ ok (global_at m n, after_global m n)
  unfolding global_at after_global
  put_global-ok fuel n a m guess pad = rw (guess, pad)

  placed :
      (n a m d : ℕ)
      → IsLaidOut program.globals program.globals_bytecount
      → program.globals_bytecount + 64 + n < 2 ^ 64
      → size_guess_align n ≡ ok a
      → m % a ≡ 0
      → program.globals_bytecount ≤ m
      → m ≤ program.globals_bytecount + d
      → d < 64
      → Added program name type_of n (global_at m n) (after_global m n)
  unfolding global_at after_global
  placed n a m d laid room guess multiple lo hi few =
      let fits : (m + n) % 2 ^ 64 ≡ m + n = omega arith in
      record {
        named = refl;
        typed = refl;
        sized = refl;
        globals = refl;
        close = omega arith;
        total = fits;
        laid_out = rw fits (
            IsLaidOut-append program.globals (global_at m n) program.globals_bytecount laid
              (a, guess, multiple) lo);
      }

  -- Where the globals lie in order, aligned and without overlaps inside the counted bytes, and the
  -- count does not come near its 64 bits, adding a global of a type that has a size ends with one
  -- more piece of that size, behind the others, aligned, and the layout is kept.
  pub add_global-Added :
      (n : ℕ)
      → type_size type_of ≡ ok n
      → IsLaidOut program.globals program.globals_bytecount
      → program.globals_bytecount + 64 + n < 2 ^ 64
      → (g : GlobalData) × (after : Program) × (add_global program name type_of is_private
          ≡ ok (g, after))
        × Added program name type_of n g after
  unfolding add_global
  add_global-Added n size laid room =
      let (a, guess, is_align) = size_guess_align-IsAlignOf n in
      let (d, few, reach) =
        padding program.globals_bytecount a is_align.exponent is_align.power is_align.bounded in
      let (m, run, multiple, lo, hi) =
        pad_to-multiple d 64 a program.globals_bytecount (omega arith) reach (omega arith) in
      (
        global_at m n,
        after_global m n,
        rw size (put_global-ok 65 n a m guess run),
        placed n a m d laid room guess multiple lo hi few,
      )
