-- ===== src/Buffer/Ints.antt =====
-- src/buffers.h: integers written to the buffer and read back, and the byte swap.
use Prim.Native.Nat.{bit_or}
use native.Mathlib.Nat.{pow-suc, pow-le-pow_right, mod-eq_of_lt, one-le-pow}
use native.Mathlib.Numerals.{towards_suc}
use mathlib.Core.List.{append-nil, append_assoc}
use bbae.Common.Bits.{bit_or_above}
use bbae.Common.{
  ℕ, zero, suc, ◌+◌, ◌*◌, ◌/◌, ◌%◌, ◌^◌, ◌≤◌, ◌<◌, ◌≡◌, refl, Bool, true, false, Bytes, length, ok,
  fault, inl, inr, All, assertion, arith, leb, ap, Bool-cases, if◌then◌else◌, ◌∙◌, sym, ◌++◌,
  length-append, ◌∷◌, [],
}
use bbae.Buffer.{
  ByteBuffer, len, to_bytes, of_bytes, byte_at, push_int_loop, bytes_push_int, pop_int_loop,
  bytes_pop_int, reserve_cap,
}
use bbae.Buffer.Reserve.{IsValid, Reserved, reserve_cap-Reserved, pushed, byte_push_room}

pub length-to_bytes : (n value : ℕ) → length (to_bytes n value) ≡ n
unfolding to_bytes
length-to_bytes zero value = refl
length-to_bytes (suc n) value = ap suc (length-to_bytes n (value / 256))

pub of_bytes-to_bytes : (n value : ℕ) → value < 256 ^ n → of_bytes (to_bytes n value) ≡ value
unfolding to_bytes of_bytes
of_bytes-to_bytes zero value h = omega arith
of_bytes-to_bytes (suc n) value h =
    omega (arith, of_bytes-to_bytes n (value / 256) (omega (arith, pow-suc 256 n)))

module _ (serves : ℕ → Bool) where
  push_int_loop-to_bytes :
      (buf : ByteBuffer) (value count : ℕ)
      → len buf + count ≤ buf.cap
      → buf.allocated ≡ true
      → push_int_loop serves buf value count
        ≡ ok (record buf { bytes = buf.bytes ++ to_bytes count value })
  unfolding push_int_loop to_bytes
  push_int_loop-to_bytes buf value zero room backed = rw append-nil
  push_int_loop-to_bytes buf value (suc count) room backed =
      rw (byte_push_room serves buf value (omega arith) backed) (
        push_int_loop-to_bytes (pushed serves buf (value % 256 ∷ []) buf.cap) (value / 256) count
          (rw (length-append buf.bytes (value % 256 ∷ [])) (omega arith)) refl
        ∙ rw (append_assoc, sym backed))

  -- Pushing an integer either stops at the failed allocation of the reserved capacity, or appends
  -- its lowest `count` bytes, the lowest first: after the reservation no byte needs a reallocation.
  pub bytes_push_int-to_bytes :
      (buf : ByteBuffer) (value count : ℕ)
      → IsValid buf
      → len buf + count < 2 ^ 63
      → (c : ℕ) × Reserved buf count c
        × (bytes_push_int serves buf value count ≡ (
            if serves c then ok (pushed serves buf (to_bytes count value) c) else fault assertion))
  unfolding bytes_push_int
  bytes_push_int-to_bytes buf value count v small =
      let (c, run, r) = reserve_cap-Reserved buf count v small in
      (c, r, at_cap buf value count c run r.above)
    where
      at_cap :
          (buf : ByteBuffer) (value count c : ℕ)
          → reserve_cap buf count ≡ ok c
          → len buf + count < c
          → bytes_push_int serves buf value count ≡ (
              if serves c then ok (pushed serves buf (to_bytes count value) c) else fault assertion)
      at_cap buf value count c run above = elim (Bool-cases (serves c)) [
        | inl s ↦
            rw (run, s)
              (push_int_loop-to_bytes (record buf { cap = c; allocated = true }) value count
                (omega arith) refl)
        | inr s ↦ rw (run, s)
      ]

-- Reading bytes one by one, each above those before it.
byte_at-append : (pre bs : Bytes) (b : ℕ) → byte_at (pre ++ b ∷ bs) (length pre) ≡ ok b
unfolding byte_at
byte_at-append [] bs b = refl
byte_at-append (x ∷ pre) bs b = byte_at-append pre bs b

pow_byte : (i : ℕ) → 2 ^ (8 * (i + 1)) ≡ 2 ^ (8 * i) * 256
pow_byte i = let e : 8 * (i + 1) ≡ 8 * i + 8 = omega arith in rw e (simp towards_suc (omega arith))

pow_byte_le : (i : ℕ) → i < 8 → 2 ^ (8 * i) * 256 ≤ 2 ^ 64
pow_byte_le i h =
    let le : 2 ^ (8 * (i + 1)) ≤ 2 ^ 64 = pow-le-pow_right (omega arith) {j = 64} (omega arith) in
    omega (arith, pow_byte i)

abbrev IsByte : ℕ → Type 0
IsByte b = b < 256

-- One more byte above `ret`.
or_byte :
    (i ret b : ℕ)
    → i < 8
    → ret < 2 ^ (8 * i)
    → IsByte b
    → (bit_or ret (b * 2 ^ (8 * i) % 2 ^ 64) ≡ ret + b * 2 ^ (8 * i))
      × (ret + b * 2 ^ (8 * i) < 2 ^ (8 * (i + 1)))
or_byte i ret b small low byte =
    let product : b * 2 ^ (8 * i) + 2 ^ (8 * i) ≤ 2 ^ (8 * i) * 256 = grind arith in
    let fits : b * 2 ^ (8 * i) % 2 ^ 64 ≡ b * 2 ^ (8 * i) =
      mod-eq_of_lt (omega (arith, pow_byte_le i small, one-le-pow (8 * i) 2)) in
    (ap (λ (t : ℕ). bit_or ret t) fits ∙ bit_or_above (8 * i) ret b low, omega (arith, pow_byte i))

pop_int_once :
    (buf : ByteBuffer) (i count ret b : ℕ)
    → byte_at buf.bytes (buf.cur + i) ≡ ok b
    → i < 8
    → pop_int_loop buf i (suc count) ret
      ≡ pop_int_loop buf (i + 1) count (bit_or ret (b * 2 ^ (8 * i) % 2 ^ 64))
unfolding pop_int_loop
pop_int_once buf i count ret b read small =
    let below : leb 64 (8 * i) ≡ false = ground arith in rw read (rw below)

regroup :
    (i ret b high : ℕ)
    → ret + b * 2 ^ (8 * i) + high * 2 ^ (8 * (i + 1)) ≡ ret + (b + 256 * high) * 2 ^ (8 * i)
regroup i ret b high = omega (arith, ap (λ (t : ℕ). high * t) (pow_byte i))

to_bytes-All : (n value : ℕ) → All IsByte (to_bytes n value)
unfolding to_bytes
to_bytes-All zero value = tt
to_bytes-All (suc n) value = (omega arith, to_bytes-All n (value / 256))

pop_int_loop-of_bytes :
    (bs pre post : Bytes) (buf : ByteBuffer) (i ret : ℕ)
    → buf.bytes ≡ pre ++ (bs ++ post)
    → length pre ≡ buf.cur + i
    → i + length bs ≤ 8
    → ret < 2 ^ (8 * i)
    → All IsByte bs
    → pop_int_loop buf i (length bs) ret ≡ ok (ret + of_bytes bs * 2 ^ (8 * i))
unfolding pop_int_loop of_bytes
pop_int_loop-of_bytes [] pre post buf i ret e at few low bytes = ap ok (omega arith)
pop_int_loop-of_bytes (b ∷ bs) pre post buf i ret e at few low bytes =
    let (value, below) = or_byte i ret b (omega arith) low bytes.0 in
    let rest =
      pop_int_loop-of_bytes bs (pre ++ b ∷ []) post buf (i + 1) (ret + b * 2 ^ (8 * i))
        (e ∙ rw append_assoc) (length-append pre (b ∷ []) ∙ omega arith) (omega arith) below
        bytes.1 in
    rw (pop_int_once buf i (length bs) ret b (read e at) (omega arith), value)
      (rest ∙ ap ok (regroup i ret b (of_bytes bs)))
  where
    read :
        buf.bytes ≡ pre ++ (b ∷ (bs ++ post))
        → length pre ≡ buf.cur + i
        → byte_at buf.bytes (buf.cur + i) ≡ ok b
    read e at = rw (e, ← at) (byte_at-append pre (bs ++ post) b)

-- Reading back what was pushed: a `count`-byte integer that was appended at the read position is
-- returned, and the read position moves past it.
pub bytes_pop_int-to_bytes :
    (buf : ByteBuffer) (pre post : Bytes) (value count : ℕ)
    → buf.bytes ≡ pre ++ (to_bytes count value ++ post)
    → length pre ≡ buf.cur
    → count ≤ 8
    → value < 256 ^ count
    → bytes_pop_int buf count ≡ ok (value, record buf { cur = buf.cur + count })
unfolding bytes_pop_int
bytes_pop_int-to_bytes buf pre post value count e at few small =
    let run =
      pop_int_loop-of_bytes (to_bytes count value) pre post buf 0 0 e (at ∙ omega arith)
        (omega (arith, length-to_bytes count value)) (omega arith) (to_bytes-All count value) in
    let run' : pop_int_loop buf 0 count 0 ≡ ok value =
      ap (λ (n : ℕ). pop_int_loop buf 0 n 0) (sym (length-to_bytes count value))
      ∙ run
      ∙ ap ok (omega (arith, of_bytes-to_bytes count value small)) in
    rw run'
