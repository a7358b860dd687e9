-- ===== src/Reloc.antt =====
-- src/relocation_helpers.h: name usages are collected while code is emitted, and the distances to
-- the names' targets are written into the code at the end.
pub mod Store
pub mod Patch
pub mod Apply
mod Tests
use bbae.Common.{
  ℕ, zero, suc, ◌+◌, ◌-◌, ◌%◌, ◌^◌, Bool, true, false, List, [], ◌∷◌, ◌++◌, Run, Fault, ok, fault,
  assertion, assert, ◌>>=◌, ◌>>◌, ltb, leb, ◌==◌, if◌then◌else◌, Bytes, str_same, length, ◌||◌,
}
use bbae.Buffer.{to_bytes}

pub record NameUsageInfo : Type 0 where
  pub loc : ℕ
  pub name : Bytes
  pub size : ℕ

pub record SymbolEntry : Type 0 where
  pub name : Bytes
  pub loc : ℕ

-- `add_relocation`: the log of usages of one kind grows at its end.
unfoldable pub add_relocation : List NameUsageInfo → ℕ → Bytes → ℕ → List NameUsageInfo
add_relocation usages loc name size = usages ++ record { loc = loc; name = name; size = size } ∷ []

abbrev pub reloc_illegal_dummy_value : ℕ
reloc_illegal_dummy_value = 0xABADB007ABADB007

unfoldable pub is_dummy : ℕ → Bool
is_dummy target = target == reloc_illegal_dummy_value

-- `get_symbol_loc_or_dummy`: the location of the first symbol of that name.
unfoldable pub get_symbol_loc_or_dummy : Bytes → List SymbolEntry → ℕ
get_symbol_loc_or_dummy name [] = reloc_illegal_dummy_value
get_symbol_loc_or_dummy name (s ∷ list) =
    if str_same s.name name then s.loc else get_symbol_loc_or_dummy name list

-- `memcpy(code->data + loc, bytes, n)`, undefined outside the bytes in use.
unfoldable pub store_at : Bytes → ℕ → Bytes → Run Bytes
store_at code i [] = ok code
store_at [] i (b ∷ bs) = fault Fault.undefined
store_at (c ∷ code) zero (b ∷ bs) = do rest ← store_at code zero bs; ok (b ∷ rest)
store_at (c ∷ code) (suc i) (b ∷ bs) = do rest ← store_at code i (b ∷ bs); ok (c ∷ rest)

-- Words of 64 bits stand for `int64_t`s: from 2 ^ 63 on they are negative. The difference wraps around
-- here, where C leaves the overflow undefined; it takes targets far from the code to reach that.
unfoldable pub distance : ℕ → ℕ → ℕ
distance target next = (target + 2 ^ 64 - next % 2 ^ 64) % 2 ^ 64

-- `diff >= -(limit) && diff <= limit - 1`
unfoldable pub fits_signed : ℕ → ℕ → Bool
fits_signed limit diff = ltb diff limit || leb (2 ^ 64 - limit) diff

-- `next <= (int64_t)code->len`, for a length below 2 ^ 63.
unfoldable pub not_past : ℕ → Bytes → Bool
not_past next code = leb (2 ^ 63) (next % 2 ^ 64) || leb (next % 2 ^ 64) (length code)

-- The two branches of the loop body that write, for 4 and for 1 byte.
unfoldable pub rewrite : Bytes → ℕ → ℕ → ℕ → ℕ → Run Bytes
rewrite code target loc size limit = do
  let diff = distance target (loc + size)
  assert (fits_signed limit diff)
  assert (not_past (loc + size) code)
  store_at code loc (to_bytes size diff)

unfoldable pub apply_relocation : Bytes → NameUsageInfo → ℕ → Run Bytes
unfolding rewrite
apply_relocation code info target =
    if info.size == 4
    then rewrite code target info.loc 4 (2 ^ 31)
    else if info.size == 1
    then rewrite code target info.loc 1 (2 ^ 7)
    else fault assertion

-- The loop of `apply_relocations`, with the code and `unused_relocation_log`.
unfoldable pub apply_relocations :
    (Bytes → Run ℕ)
    → List NameUsageInfo
    → Bytes
    → List NameUsageInfo
    → Run (Bytes × List NameUsageInfo)
unfolding apply_relocation
apply_relocations target_lookup_func [] code unused = ok (code, unused)
apply_relocations target_lookup_func (info ∷ usages) code unused = do
  target ← target_lookup_func info.name
  let skipped = apply_relocations target_lookup_func usages code (unused ++ info ∷ [])
  let written = apply_relocation code info target
  let patched = written >>= λ code'. apply_relocations target_lookup_func usages code' unused
  if is_dummy target then skipped else patched
