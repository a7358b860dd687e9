-- ===== src/Reloc/Patch.antt =====
-- src/relocation_helpers.h: one relocation.
use bbae.Common.{
  ℕ, ◌+◌, ◌-◌, ◌*◌, ◌%◌, ◌^◌, ◌≤◌, ◌<◌, ◌≡◌, ◌⊎◌, refl, inl, inr, Run, ok, fault, assertion, Bytes,
  length, arith, ltb, if◌then◌else◌, Bool-cases, true, false, subst, ◌==◌,
}
use bbae.Buffer.{to_bytes, of_bytes}
use bbae.Buffer.Ints.{length-to_bytes}
use bbae.Reloc.{NameUsageInfo, distance, fits_signed, not_past, rewrite, apply_relocation, store_at}
use bbae.Reloc.Store.{StandsAt, AgreeOutside, Stores, store_at-Stores}

-- Half of the values of a signed field of 4 bytes or of 1 byte.
abbrev pub limit_of : ℕ → ℕ
limit_of size = if size == 4 then 2 ^ 31 else 2 ^ 7

-- A field that is read as a signed number, as a 64-bit word.
abbrev pub sign_extend : ℕ → ℕ → ℕ
sign_extend limit x = if ltb x limit then x else x + (2 ^ 64 - 2 * limit)

-- The signed field of `size` bytes at `loc` leads from its end to `target`.
pub record Reaches (code : Bytes) (loc size target : ℕ) : Type 0 where
  pub field : Bytes
  pub field_size : length field ≡ size
  pub stands : StandsAt field loc code
  pub lands : (loc + size + sign_extend (limit_of size) (of_bytes field)) % 2 ^ 64 ≡ target

field_four : (v : ℕ) → of_bytes (to_bytes 4 v) ≡ v % 2 ^ 32
unfolding to_bytes of_bytes
field_four v = omega arith

field_one : (v : ℕ) → of_bytes (to_bytes 1 v) ≡ v % 2 ^ 8
unfolding to_bytes of_bytes
field_one v = omega arith

abbrev pub HasFieldSize : ℕ → Type 0
HasFieldSize size = (size ≡ 4) ⊎ (size ≡ 1)

extend_four :
    (d : ℕ) → d < 2 ^ 64 → fits_signed (2 ^ 31) d ≡ true → sign_extend (2 ^ 31) (d % 2 ^ 32) ≡ d
unfolding fits_signed
extend_four d word fits = ground arith

extend_one :
    (d : ℕ) → d < 2 ^ 64 → fits_signed (2 ^ 7) d ≡ true → sign_extend (2 ^ 7) (d % 2 ^ 8) ≡ d
unfolding fits_signed
extend_one d word fits = ground arith

distance-lt : (target next : ℕ) → distance target next < 2 ^ 64
unfolding distance
distance-lt target next = omega arith

add-distance : (target next : ℕ) → target < 2 ^ 64 → (next + distance target next) % 2 ^ 64 ≡ target
unfolding distance
add-distance target next word = omega arith

-- A distance that fits the field is read back from its low bytes.
extend-to_bytes :
    (size d : ℕ)
    → HasFieldSize size
    → d < 2 ^ 64
    → fits_signed (limit_of size) d ≡ true
    → sign_extend (limit_of size) (of_bytes (to_bytes size d)) ≡ d
extend-to_bytes size d (inl four) word fits =
    rw (four, field_four) (extend_four d word (rw four at fits))
extend-to_bytes size d (inr one) word fits =
    rw (one, field_one) (extend_one d word (rw one at fits))

-- What a write of the field has done.
pub record Patched (loc size target : ℕ) (code code' : Bytes) : Type 0 where
  pub reaches : Reaches code' loc size target
  pub outside : AgreeOutside loc size code code'
  pub same_length : length code' ≡ length code

abbrev pub Rewrites : ℕ → ℕ → ℕ → Bytes → Run Bytes → Type 0
Rewrites loc size target code (ok code') =
    (fits_signed (limit_of size) (distance target (loc + size)) ≡ true)
    × Patched loc size target code code'
Rewrites loc size target code (fault e) =
    (fits_signed (limit_of size) (distance target (loc + size)) ≡ false) × (e ≡ assertion)

patched :
    (code code' : Bytes) (target loc size : ℕ)
    → HasFieldSize size
    → target < 2 ^ 64
    → fits_signed (limit_of size) (distance target (loc + size)) ≡ true
    → Stores code loc (to_bytes size (distance target (loc + size))) code'
    → Patched loc size target code code'
patched code code' target loc size field word near s =
    let d = distance target (loc + size) in
    let length_is = length-to_bytes size d in
    record {
      reaches = record {
        field = to_bytes size d;
        field_size = length_is;
        stands = s.stored;
        lands =
            rw (extend-to_bytes size d field (distance-lt target (loc + size)) near)
              (add-distance target (loc + size) word);
      };
      outside = subst (λ n. AgreeOutside loc n code code') length_is s.outside;
      same_length = s.same_length;
    }

not_past_inside :
    (next : ℕ) (code : Bytes)
    → next ≤ length code
    → length code < 2 ^ 63
    → not_past next code ≡ true
unfolding not_past
not_past_inside next code inside small = ground arith

pub rewrite-Rewrites :
    (code : Bytes) (target loc size : ℕ)
    → HasFieldSize size
    → target < 2 ^ 64
    → loc + size ≤ length code
    → length code < 2 ^ 63
    → Rewrites loc size target code (rewrite code target loc size (limit_of size))
unfolding rewrite
rewrite-Rewrites code target loc size field word inside small =
    elim (Bool-cases (fits_signed (limit_of size) (distance target (loc + size)))) [
      | inr far ↦ rw (far) (far, refl)
      | inl near ↦
          written
            (store_at-Stores code loc (to_bytes size (distance target (loc + size)))
              (rw (length-to_bytes size (distance target (loc + size))) inside))
            near
    ]
  where
    written :
        (code' : Bytes) × (store_at code loc (to_bytes size (distance target (loc + size)))
            ≡ ok code')
          × Stores code loc (to_bytes size (distance target (loc + size))) code'
        → fits_signed (limit_of size) (distance target (loc + size)) ≡ true
        → Rewrites loc size target code (rewrite code target loc size (limit_of size))
    written (code', run, s) near =
        rw (near, not_past_inside (loc + size) code inside small, run)
          (near, patched code code' target loc size field word near s)

apply_relocation-rewrite :
    (code : Bytes) (info : NameUsageInfo) (target : ℕ)
    → HasFieldSize info.size
    → apply_relocation code info target
      ≡ rewrite code target info.loc info.size (limit_of info.size)
unfolding apply_relocation
apply_relocation-rewrite code info target (inl four) = rw four refl
apply_relocation-rewrite code info target (inr one) = rw one refl

-- The relocation of one usage, whose field lies inside the code: a field of 4 bytes or of 1 byte is
-- made to reach the target and nothing else changes, or the assertion on its range stops the run
-- because the distance does not fit the field.
pub apply_relocation-Rewrites :
    (code : Bytes) (info : NameUsageInfo) (target : ℕ)
    → HasFieldSize info.size
    → target < 2 ^ 64
    → info.loc + info.size ≤ length code
    → length code < 2 ^ 63
    → Rewrites info.loc info.size target code (apply_relocation code info target)
apply_relocation-Rewrites code info target field word inside small =
    rw (apply_relocation-rewrite code info target field)
      (rewrite-Rewrites code target info.loc info.size field word inside small)
