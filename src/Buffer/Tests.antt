-- ===== src/Buffer/Tests.antt =====
-- Runs of the byte buffer at concrete inputs.
use bbae.Common.{
  ℕ, ◌≡◌, ◌+◌, refl, Bool, true, [], ◌∷◌, ok, fault, assertion, ◌>>=◌, inl, arith, if◌then◌else◌,
}
use bbae.Buffer.{
  ByteBuffer, to_bytes, empty_buffer, bytes_push_int, bytes_pop_int, byteswap_int, double_cap,
  reserve_cap,
}
use bbae.Buffer.Reserve.{IsValid, Reserved, pushed, reserve_cap-Reserved}
use bbae.Buffer.Ints.{bytes_push_int-to_bytes, bytes_pop_int-to_bytes}

swaps : byteswap_int 0x1122334455 4 ≡ ok 0x55443322
unfolding byteswap_int
swaps = refl

abbrev always : ℕ → Bool
always n = true

int_round_trip :
    (bytes_push_int always empty_buffer 0xabcdef 4 >>= λ buf. bytes_pop_int buf 3)
    ≡ ok (
      0xabcdef,
      record { bytes = 0xef ∷ 0xcd ∷ 0xab ∷ 0 ∷ []; allocated = true; cap = 8; cur = 3 },
    )
unfolding bytes_push_int bytes_pop_int double_cap
int_round_trip = refl

-- A buffer of three bytes in a block of eight.
abbrev three_bytes : ByteBuffer
three_bytes = record { bytes = 1 ∷ 2 ∷ 3 ∷ []; allocated = true; cap = 8; cur = 1 }

three_bytes-IsValid : IsValid three_bytes
three_bytes-IsValid = record { within = omega arith; backed = inl refl; word = omega arith }

reserve_cap-Reserved_example :
    (c : ℕ) × (reserve_cap three_bytes 20 ≡ ok c) × Reserved three_bytes 20 c
reserve_cap-Reserved_example = reserve_cap-Reserved three_bytes 20 three_bytes-IsValid (omega arith)

bytes_push_int-to_bytes_example :
    (c : ℕ) × Reserved three_bytes 8 c
    × (bytes_push_int always three_bytes 0x123456789 8 ≡ (
        if always c
        then ok (pushed always three_bytes (to_bytes 8 0x123456789) c)
        else fault assertion))
bytes_push_int-to_bytes_example =
    bytes_push_int-to_bytes always three_bytes 0x123456789 8 three_bytes-IsValid (omega arith)

bytes_pop_int-to_bytes_example :
    bytes_pop_int three_bytes 2 ≡ ok (770, record three_bytes { cur = 1 + 2 })
unfolding to_bytes
bytes_pop_int-to_bytes_example =
    bytes_pop_int-to_bytes three_bytes (1 ∷ []) [] 770 2 refl refl (omega arith) (omega arith)
