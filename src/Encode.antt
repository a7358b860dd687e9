-- ===== src/Encode.antt =====
-- src/x86/emitter_x86.h: the operands that the encoder is given, and the filling bytes between
-- functions.
pub mod Operands
pub mod Nops
mod Tests
use bbae.Common.{
  ℕ, zero, suc, ◌+◌, ◌-◌, ◌*◌, ◌/◌, ◌%◌, ◌^◌, Bool, true, false, ◌&&◌, ◌||◌, not, List, [], ◌∷◌,
  Run, Fault, ok, fault, assert, assertion, ◌>>=◌, ◌>>◌, ltb, leb, ◌==◌, if◌then◌else◌, Bytes,
}
use bbae.Common.Int.{ℤ, pos}
use bbae.Buffer.{ByteBuffer, len, byte_push, bytes_push}

-- `enum Register` as its numbers.
abbrev pub reg_xmm0 : ℕ
reg_xmm0 = 16

abbrev pub reg_rip : ℕ
reg_rip = 32

abbrev pub reg_none : ℕ
reg_none = 33

-- `op` is a `uint64_t`.
pub record EncOperand : Type 0 where
  pub op : ℕ
  pub size : ℕ
  pub is_imm : Bool

abbrev pub encops_equal : EncOperand → EncOperand → Bool
encops_equal a b = (a.op == b.op) && (a.size == b.size)

abbrev pub is_word_size : ℕ → Bool
is_word_size size = size == 1 || size == 2 || size == 4 || size == 8

-- `FE_ISMEM`: the sign bit of the operand.
abbrev pub fe_ismem : EncOperand → Bool
fe_ismem x = leb (2 ^ 63) x.op

-- `fe_ip`, `fe_ax` and `fe_xmm0` are fadec's numbers of the registers, and `fe_mem` is its macro for
-- a memory operand, of a base, a scale, an index and an offset.
module _ (fe_ip fe_ax fe_xmm0 : ℕ) (fe_mem : ℕ → ℕ → ℕ → ℤ → ℕ) where
  unfoldable pub reg_to_reg : ℕ → ℕ → Run ℕ
  reg_to_reg reg size =
      if reg == reg_none
      then ok 0
      else if not (is_word_size size) || leb reg_xmm0 reg && not (size == 8)
      then fault assertion
      else if reg == reg_rip
      then ok fe_ip
      else ok (if leb reg_xmm0 reg then fe_xmm0 + (reg - reg_xmm0) else fe_ax + reg)

  unfoldable pub enc_reg : ℕ → ℕ → Run EncOperand
  unfolding reg_to_reg
  enc_reg reg size = do
    op ← reg_to_reg reg size
    ok (record { op = op; size = size % 256; is_imm = false })

  unfoldable pub enc_mem_full : ℕ → ℕ → ℕ → ℤ → ℕ → Run EncOperand
  unfolding reg_to_reg
  enc_mem_full base_reg index_reg index_scale offset word_size = do
    assert (index_scale == 0 || is_word_size index_scale)
    base ← reg_to_reg base_reg 8
    index ← reg_to_reg index_reg 8
    ok (record {
      op = fe_mem base index_scale index offset;
      size = word_size % 256;
      is_imm = false;
    })

  unfoldable pub enc_mem : ℕ → ℤ → ℕ → Run EncOperand
  unfolding enc_mem_full
  enc_mem base_reg offset word_size = enc_mem_full base_reg reg_none 0 offset word_size

-- The low 32 bits are the offset, which wraps.
unfoldable pub enc_mem_add_offset : EncOperand → ℕ → Run EncOperand
enc_mem_add_offset op offset =
    assert (fe_ismem op)
    >> ok (record op { op = op.op / 2 ^ 32 * 2 ^ 32 + (op.op % 2 ^ 32 + offset) % 2 ^ 32 })

unfoldable pub enc_mem_change_size : EncOperand → ℕ → Run EncOperand
enc_mem_change_size op size = do
  assert (fe_ismem op)
  assert (is_word_size size)
  ok (record op { size = size })

-- The conversion to a signed integer of `bits` bits, and back to a `uint64_t`.
abbrev pub sign_extend : ℕ → ℕ → ℕ
sign_extend bits n =
    let low = n % 2 ^ bits in if ltb low (2 ^ (bits - 1)) then low else low + (2 ^ 64 - 2 ^ bits)

-- The size of an immediate stays 0.
unfoldable pub enc_imm : ℕ → ℕ → Run EncOperand
enc_imm imm size =
    assert (is_word_size size)
    >> ok (record {
      op =
          if size == 1
          then sign_extend 8 imm
          else if size == 2
          then sign_extend 16 imm
          else if size == 4
          then sign_extend 32 imm
          else imm;
      size = 0;
      is_imm = true;
    })

module _ (serves : ℕ → Bool) where
  -- The loop of `enc_emit_nops`. The second test for 1, in the place of one for 2, is the source's.
  unfoldable pub nops_loop : ℕ → ByteBuffer → ℕ → Run ByteBuffer
  nops_loop zero bytes count = if ltb 0 count then fault Fault.stuck else ok bytes
  nops_loop (suc fuel) bytes count =
      let eight = 15 ∷ 31 ∷ 132 ∷ 0 ∷ 0 ∷ 0 ∷ 0 ∷ 0 ∷ [] in
      let rest = bytes_push serves bytes eight >>= λ r. nops_loop fuel r (count - 8) in
      if count == 0
      then ok bytes
      else if count == 1
      then byte_push serves bytes 144
      else if count == 1
      then bytes_push serves bytes (102 ∷ 144 ∷ [])
      else if count == 3
      then bytes_push serves bytes (15 ∷ 31 ∷ 0 ∷ [])
      else if count == 4
      then bytes_push serves bytes (15 ∷ 31 ∷ 64 ∷ 0 ∷ [])
      else if count == 5
      then bytes_push serves bytes (15 ∷ 31 ∷ 68 ∷ 0 ∷ 0 ∷ [])
      else if count == 6
      then bytes_push serves bytes (102 ∷ 15 ∷ 31 ∷ 68 ∷ 0 ∷ 0 ∷ [])
      else if count == 7
      then bytes_push serves bytes (15 ∷ 31 ∷ 128 ∷ 0 ∷ 0 ∷ 0 ∷ 0 ∷ [])
      else if leb 8 count
      then rest
      else ok bytes

  -- At most one round of eight bytes comes before the last one.
  unfoldable pub enc_emit_nops : ByteBuffer → ℕ → Run ByteBuffer
  unfolding nops_loop
  enc_emit_nops bytes count = assert (leb count 15) >> nops_loop 3 bytes count

  -- `compile_file`: the alignment of the place where a function begins.
  unfoldable pub align_function : ByteBuffer → Run ByteBuffer
  unfolding enc_emit_nops
  align_function code =
      let filled = enc_emit_nops code (16 - len code % 16) in
      if len code % 16 == 0 then ok code else filled
