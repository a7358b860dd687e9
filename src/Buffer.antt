-- ===== src/Buffer.antt =====
-- src/buffers.h: the growing byte buffer that machine code is written to.
pub mod Reserve
pub mod Ints
mod Tests
use bbae.Common.{
  ℕ, zero, suc, ◌+◌, ◌-◌, ◌*◌, ◌/◌, ◌%◌, ◌^◌, Bool, true, false, List, [], ◌∷◌, ◌++◌, Option, none,
  some, Run, Fault, ok, fault, assert, ◌>>=◌, ◌>>◌, ltb, leb, if◌then◌else◌, Bytes, length,
  get_elem?, take, replicate, ◌||◌, not,
}
use Prim.Native.Nat.{bit_or}

-- `bytes` are the `len` bytes that are in use; `allocated` says that `data` is not null. The bytes
-- between `len` and `cap` are not set. Numbers are `size_t`s; a size that would pass 2 ^ 64 is a
-- request that `realloc` does not serve.
pub record ByteBuffer : Type 0 where
  pub bytes : Bytes
  pub allocated : Bool
  pub cap : ℕ
  pub cur : ℕ

abbrev pub len : ByteBuffer → ℕ
len buf = length buf.bytes

-- The state of a zeroed `byte_buffer`.
abbrev pub empty_buffer : ByteBuffer
empty_buffer = record { bytes = []; allocated = false; cap = 0; cur = 0 }

-- `uint64_t` as its eight bytes in memory, the lowest first, and back.
unfoldable pub to_bytes : ℕ → ℕ → Bytes
to_bytes zero value = []
to_bytes (suc n) value = value % 256 ∷ to_bytes n (value / 256)

unfoldable pub of_bytes : Bytes → ℕ
of_bytes [] = 0
of_bytes (b ∷ bs) = b + 256 * of_bytes bs

-- `p[i]` of a block of bytes.
unfoldable pub byte_at : Bytes → ℕ → Run ℕ
byte_at [] i = fault Fault.undefined
byte_at (b ∷ bs) zero = ok b
byte_at (b ∷ bs) (suc i) = byte_at bs i

-- The loop of `byteswap_int`: the byte `i` of `ret` is the byte `bytecount - 1 - i` of `value`.
unfoldable pub byteswap_loop : ℕ → Bytes → Run Bytes
unfolding byte_at
byteswap_loop zero bytes = ok []
byteswap_loop (suc n) bytes = do b ← byte_at bytes n; rest ← byteswap_loop n bytes; ok (b ∷ rest)

-- More than eight bytes are out of the bounds of `value`. The bytes of `ret` above `bytecount`
-- stay 0.
unfoldable pub byteswap_int : ℕ → ℕ → Run ℕ
unfolding byteswap_loop to_bytes of_bytes
byteswap_int value bytecount = do
  swapped ← byteswap_loop bytecount (to_bytes 8 value)
  ok (of_bytes swapped)

-- `while (buf->len + extra >= buf->cap) buf->cap <<= 1`, in 64 bits.
unfoldable pub double_cap : ℕ → ℕ → ℕ → Run ℕ
double_cap zero need cap = fault Fault.stuck
double_cap (suc fuel) need cap =
    let rest = double_cap fuel need (cap * 2 % 2 ^ 64) in if leb cap need then rest else ok cap

-- The capacity that `bytes_reserve` asks `realloc` for: 64 doublings leave no bit of a `size_t`.
unfoldable pub reserve_cap : ByteBuffer → ℕ → Run ℕ
reserve_cap buf extra =
    double_cap 65 ((len buf + extra) % 2 ^ 64) (if ltb buf.cap 8 then 8 else buf.cap)

-- `serves n` says that `realloc` finds `n` bytes; it keeps the bytes that are in use.
module _ (serves : ℕ → Bool) where
  unfoldable pub bytes_reserve : ByteBuffer → ℕ → Run ByteBuffer
  unfolding reserve_cap
  bytes_reserve buf extra = do
    cap ← reserve_cap buf extra
    assert (serves cap)
    ok (record buf { cap = cap; allocated = true })

  -- The growth at the start of `byte_push`.
  unfoldable pub grow_for_push : ByteBuffer → Run ByteBuffer
  grow_for_push buf =
      let doubled = buf.cap * 2 % 2 ^ 64 in
      let cap = if ltb doubled 8 then 8 else doubled in
      if leb buf.cap (len buf) || not buf.allocated
      then (assert (serves cap) >> ok (record buf { cap = cap; allocated = true }))
      else ok buf

  -- `buf->data[buf->len] = byte; buf->len += 1;` the parameter is a `uint8_t`.
  unfoldable pub byte_push : ByteBuffer → ℕ → Run ByteBuffer
  unfolding grow_for_push
  byte_push buf byte = do
    grown ← grow_for_push buf
    if ltb (len grown) grown.cap
        then ok (record grown { bytes = grown.bytes ++ (byte % 256) ∷ [] })
        else fault Fault.undefined

  unfoldable pub bytes_push : ByteBuffer → Bytes → Run ByteBuffer
  unfolding bytes_reserve
  bytes_push buf bytes = do
    grown ← bytes_reserve buf (length bytes)
    assert (leb (len grown + length bytes) grown.cap)
    ok (record grown { bytes = grown.bytes ++ bytes })

  unfoldable pub push_int_loop : ByteBuffer → ℕ → ℕ → Run ByteBuffer
  unfolding byte_push
  push_int_loop buf value zero = ok buf
  push_int_loop buf value (suc count) = do
    pushed ← byte_push buf value
    push_int_loop pushed (value / 256) count

  unfoldable pub bytes_push_int : ByteBuffer → ℕ → ℕ → Run ByteBuffer
  unfolding bytes_reserve push_int_loop
  bytes_push_int buf value count = do
    grown ← bytes_reserve buf count
    push_int_loop grown value count

unfoldable pub byte_pop : ByteBuffer → Run (ℕ × ByteBuffer)
unfolding byte_at
byte_pop buf = do b ← byte_at buf.bytes buf.cur; ok (b, record buf { cur = buf.cur + 1 })

-- `ret |= ((uint64_t)buf->data[buf->cur + i]) << (8 * i)` for `i` from `i` on; a shift by 64 or more
-- is undefined.
unfoldable pub pop_int_loop : ByteBuffer → ℕ → ℕ → ℕ → Run ℕ
unfolding byte_at
pop_int_loop buf i zero ret = ok ret
pop_int_loop buf i (suc count) ret = do
  b ← byte_at buf.bytes (buf.cur + i)
  if leb 64 (8 * i)
      then fault Fault.undefined
      else pop_int_loop buf (i + 1) count (bit_or ret (b * 2 ^ (8 * i) % 2 ^ 64))

unfoldable pub bytes_pop_int : ByteBuffer → ℕ → Run (ℕ × ByteBuffer)
unfolding pop_int_loop
bytes_pop_int buf count = do
  ret ← pop_int_loop buf 0 count 0
  ok (ret, record buf { cur = buf.cur + count })
