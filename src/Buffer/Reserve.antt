-- ===== src/Buffer/Reserve.antt =====
-- src/buffers.h: the growth of the buffer.
use native.Mathlib.Nat.{pow-suc}
use bbae.Common.{
  ℕ, zero, suc, ◌+◌, ◌*◌, ◌%◌, ◌^◌, ◌≤◌, ◌<◌, ◌≡◌, ◌⊎◌, inl, inr, refl, Bool, true, Bytes, length,
  Run, ok, fault, assertion, arith, leb, ltb, ap, Bool-cases, if◌then◌else◌, ◌∙◌, ◌++◌,
  length-append, ◌||◌, not, lt→ltb, ◌∷◌, [],
}
use bbae.Buffer.{ByteBuffer, len, double_cap, reserve_cap, bytes_push, byte_push}

-- The bytes in use lie inside the allocation, which is absent only while its capacity is 0, and
-- the capacity is a `size_t`.
pub record IsValid (buf : ByteBuffer) : Type 0 where
  pub within : len buf ≤ buf.cap
  pub backed : (buf.allocated ≡ true) ⊎ (len buf ≡ 0)
  pub word : buf.cap < 2 ^ 64

-- What the doubling loop is to give: more than `need`, from a capacity of `cap`.
pub record Doubled (need cap c : ℕ) : Type 0 where
  pub above : need < c
  pub grows : cap ≤ c
  pub tight : (c ≡ cap) ⊎ (c ≤ 2 * need)

times_pow : (a k : ℕ) → a * 2 * 2 ^ k ≡ a * 2 ^ suc k
times_pow a k = omega (arith, ap (λ (t : ℕ). a * t) (pow-suc 2 k))

double_cap_once :
    (fuel need cap : ℕ)
    → leb cap need ≡ true
    → need < 2 ^ 63
    → double_cap (suc fuel) need cap ≡ double_cap fuel need (cap * 2)
unfolding double_cap
double_cap_once fuel need cap more small =
    let fits : cap * 2 % 2 ^ 64 ≡ cap * 2 = ground arith in rw more (rw fits)

pub double_cap-Doubled :
    (fuel need cap : ℕ)
    → 0 < cap
    → need < 2 ^ 63
    → need < cap * 2 ^ fuel
    → (c : ℕ) × (double_cap (suc fuel) need cap ≡ ok c) × Doubled need cap c
unfolding double_cap
double_cap-Doubled zero need cap pos small reach =
    (cap, ground (arith), record { above = omega arith; grows = omega arith; tight = inl refl })
double_cap-Doubled (suc fuel) need cap pos small reach = elim (Bool-cases (leb cap need)) [
  | inr done ↦
      (cap, rw done, record { above = ground arith; grows = omega arith; tight = inl refl })
  | inl more ↦
      let (c, run, d) =
        double_cap-Doubled fuel need (cap * 2) (omega arith) small
          (omega (arith, times_pow cap fuel)) in
      (
        c,
        double_cap_once (suc fuel) need cap more small ∙ run,
        record { above = d.above; grows = omega (arith, d.grows); tight = inr (tighten more d) },
      )
]
  where
    tighten : {c : ℕ} → leb cap need ≡ true → Doubled need (cap * 2) c → c ≤ 2 * need
    tighten more d = ground arith

-- The capacity that a reservation asks for.
pub record Reserved (buf : ByteBuffer) (extra c : ℕ) : Type 0 where
  pub above : len buf + extra < c
  pub grows : buf.cap ≤ c
  pub at_least : 8 ≤ c
  pub word : c < 2 ^ 64
  pub tight : (c ≤ 8) ⊎ (c ≡ buf.cap) ⊎ (c ≤ 2 * (len buf + extra))

-- The doubling loop ends: it gives a capacity above what is needed, and at most twice that unless
-- the buffer had it before or it is the least one, 8.
pub reserve_cap-Reserved :
    (buf : ByteBuffer) (extra : ℕ)
    → IsValid buf
    → len buf + extra < 2 ^ 63
    → (c : ℕ) × (reserve_cap buf extra ≡ ok c) × Reserved buf extra c
unfolding reserve_cap
reserve_cap-Reserved buf extra v small =
    let start : ℕ = if ltb buf.cap 8 then 8 else buf.cap in
    let eight : 8 ≤ start = ground arith in
    let above : buf.cap ≤ start = ground arith in
    let fits : (len buf + extra) % 2 ^ 64 ≡ len buf + extra = omega arith in
    let (c, run, d) =
      double_cap-Doubled 64 (len buf + extra) start (omega arith) small (omega arith) in
    (c, ap (λ (n : ℕ). double_cap 65 n start) fits ∙ run, reserved buf extra c v small d)
  where
    reserved :
        (buf : ByteBuffer) (extra c : ℕ)
        → IsValid buf
        → len buf + extra < 2 ^ 63
        → Doubled (len buf + extra) (if ltb buf.cap 8 then 8 else buf.cap) c
        → Reserved buf extra c
    reserved buf extra c v small d = ground arith

module _ (serves : ℕ → Bool) where
  -- The buffer after `bytes` were pushed, with the capacity `c`.
  abbrev pub pushed : ByteBuffer → Bytes → ℕ → ByteBuffer
  pushed buf bytes c = record buf { bytes = buf.bytes ++ bytes; cap = c; allocated = true }

  bytes_push_at :
      (buf : ByteBuffer) (bytes : Bytes) (c : ℕ)
      → reserve_cap buf (length bytes) ≡ ok c
      → len buf + length bytes < c
      → bytes_push serves buf bytes
        ≡ (if serves c then ok (pushed buf bytes c) else fault assertion)
  unfolding bytes_push
  bytes_push_at buf bytes c run above = rw run (ground arith)

  pub pushed-IsValid :
      (buf : ByteBuffer) (bytes : Bytes) (c : ℕ)
      → Reserved buf (length bytes) c
      → IsValid (pushed buf bytes c)
  pushed-IsValid buf bytes c r = record {
    within = rw (length-append buf.bytes bytes) (omega (arith, r.above));
    backed = inl refl;
    word = r.word;
  }

  -- Pushing bytes either stops at the failed allocation of the reserved capacity, or appends them
  -- and keeps the buffer valid: its own assertion never fails.
  pub bytes_push-Reserved :
      (buf : ByteBuffer) (bytes : Bytes)
      → IsValid buf
      → len buf + length bytes < 2 ^ 63
      → (c : ℕ) × Reserved buf (length bytes) c
        × (bytes_push serves buf bytes
            ≡ (if serves c then ok (pushed buf bytes c) else fault assertion))
        × IsValid (pushed buf bytes c)
  bytes_push-Reserved buf bytes v small =
      let (c, run, r) = reserve_cap-Reserved buf (length bytes) v small in
      (c, r, bytes_push_at buf bytes c run r.above, pushed-IsValid buf bytes c r)

  -- A byte that has room is appended without a reallocation.
  pub byte_push_room :
      (buf : ByteBuffer) (b : ℕ)
      → len buf < buf.cap
      → buf.allocated ≡ true
      → byte_push serves buf b ≡ ok (pushed buf (b % 256 ∷ []) buf.cap)
  unfolding byte_push
  byte_push_room buf b room backed = ground arith

  -- What a push of one byte may do: stop at the failed allocation, or append the byte.
  abbrev pub PushesByte : ByteBuffer → ℕ → Run ByteBuffer → Type 0
  PushesByte buf b (ok r) = (r.bytes ≡ buf.bytes ++ (b % 256 ∷ [])) × IsValid r
  PushesByte buf b (fault e) = e ≡ assertion

  push_grown :
      (buf : ByteBuffer) (b c : ℕ)
      → len buf < c
      → c < 2 ^ 64
      → IsValid (pushed buf (b % 256 ∷ []) c)
  push_grown buf b c room word = record {
    within = rw (length-append buf.bytes (b % 256 ∷ [])) (omega arith);
    backed = inl refl;
    word = word;
  }

  push_kept :
      (buf : ByteBuffer) (b : ℕ)
      → len buf < buf.cap
      → IsValid buf
      → buf.allocated ≡ true
      → IsValid (record buf { bytes = buf.bytes ++ (b % 256 ∷ []) })
  push_kept buf b room v backed = record {
    within = rw (length-append buf.bytes (b % 256 ∷ [])) (omega arith);
    backed = inl backed;
    word = v.word;
  }

  -- A push of one byte never writes outside the allocation: it stops at the failed allocation, or
  -- appends the low eight bits and keeps the buffer valid.
  pub byte_push-PushesByte :
      (buf : ByteBuffer) (b : ℕ)
      → IsValid buf
      → buf.cap < 2 ^ 63
      → PushesByte buf b (byte_push serves buf b)
  unfolding byte_push
  byte_push-PushesByte buf b v small =
      let doubled : buf.cap * 2 % 2 ^ 64 ≡ buf.cap * 2 = omega arith in
      let c : ℕ = if ltb (buf.cap * 2 % 2 ^ 64) 8 then 8 else buf.cap * 2 % 2 ^ 64 in
      let room : len buf < c = ground arith in
      let word : c < 2 ^ 64 = ground arith in
      elim (Bool-cases (leb buf.cap (len buf) || not buf.allocated)) [
        | inl full ↦ elim (Bool-cases (serves c)) [
          | inl yes_served ↦
              rw (full, yes_served, lt→ltb _ _ room) (refl, push_grown buf b c room word)
          | inr refused ↦ rw (full, refused) refl
        ]
        | inr fits ↦
            let open_room : len buf < buf.cap = ground arith in
            rw (fits, lt→ltb _ _ open_room) (refl, push_kept buf b open_room v (ground arith))
      ]
