-- ===== src/Common/Strings.antt =====
-- C strings and byte blocks as lists of byte values. A C string is the bytes before its NUL.
use Prim.Native.Nat.{ℕ}
use Prim.Native.Char.{code}
use Prim.Native.String.{String}
use mathlib.Core.Path.{◌≡◌, refl}
use mathlib.Core.Bool.{Bool, true, false, ◌&&◌}
use mathlib.Core.Logic.{◌↔◌}
use mathlib.Core.List.{List, [], ◌∷◌}
use native.Mathlib.Omega.{arith}
use bbae.Common.Tests.{◌==◌}

abbrev pub Bytes : Type 0
Bytes = List ℕ

-- The bytes of an ASCII literal.
abbrev pub codes : String → Bytes
codes String.[] = []
codes (String.◌∷◌ c s) = code c ∷ codes s

-- `strcmp(a, b) == 0`
unfoldable pub str_same : Bytes → Bytes → Bool
str_same [] [] = true
str_same [] (y ∷ ys) = false
str_same (x ∷ xs) [] = false
str_same (x ∷ xs) (y ∷ ys) = x == y && str_same xs ys

pub str_same_refl : (s : Bytes) → str_same s s ≡ true
unfolding str_same
str_same_refl [] = refl
str_same_refl (x ∷ s) = ground (arith, str_same_refl s)

pub str_same→eq : (s t : Bytes) → str_same s t ≡ true → s ≡ t
unfolding str_same
str_same→eq [] [] h = refl
str_same→eq [] (y ∷ t) h = cc
str_same→eq (x ∷ s) [] h = cc
str_same→eq (x ∷ s) (y ∷ t) h = ground (arith, str_same→eq s t)

pub str_same_iff : (s t : Bytes) → (str_same s t ≡ true) ↔ (s ≡ t)
str_same_iff s t = (str_same→eq s t, λ e. rw e (str_same_refl t))

pub str_same_symm : (s t : Bytes) → str_same s t ≡ str_same t s
unfolding str_same
str_same_symm [] [] = refl
str_same_symm [] (y ∷ t) = refl
str_same_symm (x ∷ s) [] = refl
str_same_symm (x ∷ s) (y ∷ t) = ground (arith, str_same_symm s t)
