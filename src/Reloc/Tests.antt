-- ===== src/Reloc/Tests.antt =====
-- Runs of the relocations at concrete inputs.
use bbae.Common.{
  ℕ, ◌≡◌, refl, Bytes, codes, [], ◌∷◌, Run, ok, inl, inr, arith, str_same, if◌then◌else◌,
}
use bbae.Buffer.{to_bytes}
use bbae.Reloc.{
  NameUsageInfo, reloc_illegal_dummy_value, store_at, apply_relocations, distance, is_dummy,
  fits_signed, not_past,
}
use bbae.Reloc.Apply.{Outcome, apply_relocations-Outcome, LooksUpWords}

abbrev six_bytes : Bytes
six_bytes = 0xeb ∷ 0 ∷ 0 ∷ 0 ∷ 0 ∷ 0x90 ∷ []

abbrev short_jump : NameUsageInfo
short_jump = record { loc = 1; name = codes "end"; size = 1 }

abbrev unknown : NameUsageInfo
unknown = record { loc = 2; name = codes "other"; size = 4 }

-- The lookup of one name, and the dummy for all others.
abbrev lookup_end : Bytes → Run ℕ
lookup_end name = ok (if str_same name (codes "end") then 6 else reloc_illegal_dummy_value)

patches :
    apply_relocations lookup_end (short_jump ∷ unknown ∷ []) six_bytes []
    ≡ ok (0xeb ∷ 4 ∷ 0 ∷ 0 ∷ 0 ∷ 0x90 ∷ [], unknown ∷ [])
unfolding apply_relocations str_same to_bytes store_at is_dummy fits_signed distance not_past
patches = refl

lookup_end-LooksUpWords : LooksUpWords lookup_end
lookup_end-LooksUpWords name target e = ground arith

apply_relocations-Outcome_example :
    Outcome lookup_end
      (short_jump ∷ unknown ∷ [])
      six_bytes
      []
      (apply_relocations lookup_end (short_jump ∷ unknown ∷ []) six_bytes [])
apply_relocations-Outcome_example =
    apply_relocations-Outcome lookup_end (short_jump ∷ unknown ∷ []) six_bytes []
      lookup_end-LooksUpWords ((inr refl, omega arith), ((inl refl, omega arith), tt))
      ((inl (omega arith), tt), (tt, tt)) (omega arith)
