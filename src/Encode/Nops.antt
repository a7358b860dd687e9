-- ===== src/Encode/Nops.antt =====
-- src/x86/emitter_x86.h: how many bytes the filling between functions has.
use bbae.Common.{
  ℕ, zero, suc, ◌+◌, ◌-◌, ◌*◌, ◌%◌, ◌^◌, ◌≤◌, ◌<◌, ◌≡◌, refl, ap, subst, ◌∙◌, lt→ltb, not, inl, inr,
  Bool, true, ◌||◌, [], ◌∷◌, ◌++◌, Run, ok, ◌>>=◌, leb, ltb, ◌==◌, if◌then◌else◌, arith, Bool-cases,
  Bytes, length, length-append,
}
use bbae.Buffer.{ByteBuffer, len, byte_push, bytes_push}
use bbae.Buffer.Reserve.{IsValid, bytes_push-Reserved, byte_push-PushesByte, PushesByte, pushed}
use bbae.Encode.{nops_loop, enc_emit_nops, align_function}

-- The bytes that a request for `count` bytes gives: two are missing where a rest of two is left.
abbrev pub filled : ℕ → ℕ
filled count = if count % 8 == 2 then count - 2 else count

module _ (serves : ℕ → Bool) (all_served : (n : ℕ) → serves n ≡ true) where
  -- A push that gives `n` bytes more.
  abbrev Grows : ByteBuffer → ℕ → Run ByteBuffer → Type 0
  Grows buf n run = (r : ByteBuffer) × (run ≡ ok r) × (len r ≡ len buf + n) × IsValid r

  push-Grows :
      (buf : ByteBuffer) (bytes : Bytes)
      → IsValid buf
      → len buf + length bytes < 2 ^ 63
      → Grows buf (length bytes) (bytes_push serves buf bytes)
  push-Grows buf bytes v small =
      let (c, reserved, run, v') = bytes_push-Reserved serves buf bytes v small in
      (pushed serves buf bytes c, run ∙ rw (all_served c) refl, length-append buf.bytes bytes, v')

  byte_push_served :
      (buf : ByteBuffer) (b : ℕ)
      → IsValid buf
      → buf.cap < 2 ^ 63
      → (r : ByteBuffer) × (byte_push serves buf b ≡ ok r)
  unfolding byte_push
  byte_push_served buf b v small =
      let doubled : buf.cap * 2 % 2 ^ 64 ≡ buf.cap * 2 = omega arith in
      let c : ℕ = if ltb (buf.cap * 2 % 2 ^ 64) 8 then 8 else buf.cap * 2 % 2 ^ 64 in
      let room : len buf < c = ground (arith, v.within) in
      elim (Bool-cases (leb buf.cap (len buf) || not buf.allocated)) [
        | inl full ↦
            (pushed serves buf (b % 256 ∷ []) c, rw (full, all_served c, lt→ltb _ _ room) refl)
        | inr fits ↦
            let open_room : len buf < buf.cap = ground arith in
            (
              record buf { bytes = buf.bytes ++ (b % 256 ∷ []) },
              rw (fits, lt→ltb _ _ open_room) refl,
            )
      ]

  byte-Grows :
      (buf : ByteBuffer) (b : ℕ)
      → IsValid buf
      → buf.cap < 2 ^ 63
      → Grows buf 1 (byte_push serves buf b)
  byte-Grows buf b v small =
      let (r, run) = byte_push_served buf b v small in
      let (grown, v') : PushesByte serves buf b (ok r) =
        subst (PushesByte serves buf b) run (byte_push-PushesByte serves buf b v small) in
      (r, run, ap length grown ∙ length-append buf.bytes (b % 256 ∷ []), v')

  -- Fewer than eight bytes take one push.
  short :
      (fuel count : ℕ) (buf : ByteBuffer)
      → count < 8
      → IsValid buf
      → buf.cap < 2 ^ 62
      → Grows buf (filled count) (nops_loop serves (suc fuel) buf count)
  unfolding nops_loop
  short fuel zero buf few v small = (buf, refl, omega arith, v)
  short fuel (suc zero) buf few v small = byte-Grows buf 144 v (omega arith)
  short fuel (suc (suc zero)) buf few v small = (buf, refl, omega arith, v)
  short fuel (suc (suc (suc zero))) buf few v small = push-Grows buf _ v (omega (arith, v.within))
  short fuel (suc (suc (suc (suc zero)))) buf few v small =
      push-Grows buf _ v (omega (arith, v.within))
  short fuel (suc (suc (suc (suc (suc zero))))) buf few v small =
      push-Grows buf _ v (omega (arith, v.within))
  short fuel (suc (suc (suc (suc (suc (suc zero)))))) buf few v small =
      push-Grows buf _ v (omega (arith, v.within))
  short fuel (suc (suc (suc (suc (suc (suc (suc zero))))))) buf few v small =
      push-Grows buf _ v (omega (arith, v.within))
  short fuel (suc (suc (suc (suc (suc (suc (suc (suc count)))))))) buf few v small =
      absurd (omega arith)

  long_step :
      (fuel count : ℕ) (buf : ByteBuffer)
      → 8 ≤ count
      → nops_loop serves (suc fuel) buf count ≡ (
          bytes_push serves buf (15 ∷ 31 ∷ 132 ∷ 0 ∷ 0 ∷ 0 ∷ 0 ∷ 0 ∷ []) >>= λ r.
          nops_loop serves fuel r (count - 8))
  unfolding nops_loop
  long_step fuel count buf many = ground arith

  -- Filling at most fifteen bytes.
  fills :
      (count : ℕ) (buf : ByteBuffer)
      → count ≤ 15
      → IsValid buf
      → buf.cap < 2 ^ 60
      → Grows buf (filled count) (enc_emit_nops serves buf count)
  unfolding enc_emit_nops
  fills count buf few v small = elim (Bool-cases (leb 8 count)) [
    | inr less ↦
        let (r, run, n, v') = short 2 count buf (ground arith) v (omega arith) in
        (r, rw (at_most count few) run, n, v')
    | inl more ↦
        let (c, reserved, run, v₁) =
          bytes_push-Reserved serves buf (15 ∷ 31 ∷ 132 ∷ 0 ∷ 0 ∷ 0 ∷ 0 ∷ 0 ∷ []) v
            (omega (arith, v.within)) in
        let buf₁ = pushed serves buf (15 ∷ 31 ∷ 132 ∷ 0 ∷ 0 ∷ 0 ∷ 0 ∷ 0 ∷ []) c in
        let room : c < 2 ^ 62 = ground (arith, reserved.tight, v.within) in
        let (r, run', n, v') = short 1 (count - 8) buf₁ (omega arith) v₁ room in
        (
          r,
          rw (at_most count few)
              (long_step 2 count buf (ground arith) ∙ rw (run, all_served c) run'),
          n
              ∙ ap (λ (k : ℕ). k + filled (count - 8)) (length-append buf.bytes _)
              ∙ sums (len buf) count (ground arith),
          v',
        )
  ]
    where
      at_most : (count : ℕ) → count ≤ 15 → leb count 15 ≡ true
      at_most count few = ground arith

      sums : (n count : ℕ) → 8 ≤ count → n + 8 + filled (count - 8) ≡ n + filled count
      sums n count many = ground arith

  -- Where every allocation is served, the filling before a function ends at a multiple of sixteen
  -- bytes, but after code of six or fourteen bytes more than such a multiple: there it is two short.
  pub align_function-aligned :
      (code : ByteBuffer)
      → IsValid code
      → code.cap < 2 ^ 60
      → (r : ByteBuffer) × (align_function serves code ≡ ok r)
        × IsValid r
        × (len r % 16 ≡ (if len code % 16 == 6 || len code % 16 == 14 then 14 else 0))
  unfolding align_function
  align_function-aligned code v small = elim (Bool-cases (len code % 16 == 0)) [
    | inl already ↦ (code, rw already refl, v, ground arith)
    | inr not_yet ↦
        let (r, run, n, v') = fills (16 - len code % 16) code (ground arith) v small in
        (r, rw not_yet run, v', rw n (ends (len code) (ground arith)))
  ]
    where
      ends :
          (n : ℕ)
          → 0 < n % 16
          → (n + filled (16 - n % 16)) % 16 ≡ (if n % 16 == 6 || n % 16 == 14 then 14 else 0)
      ends n some_left = ground arith
