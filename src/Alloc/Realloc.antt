-- ===== src/Alloc/Realloc.antt =====
-- src/memory.h: `zero_realloc` as a whole.
use bbae.Common.{
  ℕ, ◌+◌, ◌-◌, ◌%◌, ◌^◌, ◌<◌, ◌≡◌, ◌≢◌, refl, sym, ap, ◌∙◌, inl, inr, List, [], ◌∷◌, ◌++◌, Option,
  none, some, ok, ltb, if◌then◌else◌, Bytes, length, take, replicate, arith, Bool-cases, take_all,
  length-append, length-take, length-replicate, some_not_none,
}
use bbae.Alloc.{
  Allocation, Memory, Allocs, zero_realloc, relink, resized, zero_grown, moved_head, alloc_base_loc,
}
use bbae.Alloc.Chain.{IsSized, IsChain, IsFresh, data_of, IsSized-on, with_prefix-ok, less_prefix}
use bbae.Alloc.Renamed.{renamed_all, on_list}
use bbae.Alloc.Relink.{moved}
use bbae.Alloc.Resized.{later, after, relinks, data_elsewhere, data_new, IsChain-later}

abbrev filled : ℕ → ℕ → Bytes → Bytes
filled prev_n total bytes =
    if ltb prev_n total then take (prev_n - 64) bytes ++ replicate (total - prev_n) 0 else bytes

zero_grown-bytes :
    (total : ℕ) (b : Allocation)
    → (zero_grown total b).bytes ≡ filled ((b.size + 64) % 2 ^ 64) total b.bytes
zero_grown-bytes total b = ground arith

take-append : (xs ys : Bytes) → take (length xs) (xs ++ ys) ≡ xs
take-append [] ys = refl
take-append (x ∷ xs) ys = ap (λ l. x ∷ l) (take-append xs ys)

no_bytes : (xs : Bytes) → length xs ≡ 0 → xs ≡ []
no_bytes [] e = refl
no_bytes (x ∷ xs) e = absurd (omega arith)

filled_lem :
    (n : ℕ) (bytes more : Bytes)
    → length more ≡ n - length bytes
    → filled (length bytes + 64) (n + 64) (take n bytes ++ more)
      ≡ take n bytes ++ replicate (n - length bytes) 0
filled_lem n bytes more e = elim (Bool-cases (ltb (length bytes + 64) (n + 64))) [
  | inl grows ↦
      let all = take_all n bytes (ground arith) in
      rw (grows, all)
        (ap (λ k. take k (bytes ++ more) ++ replicate (n + 64 - (length bytes + 64)) 0)
            (less_prefix (length bytes))
          ∙ ap (λ l. l ++ replicate (n + 64 - (length bytes + 64)) 0) (take-append bytes more)
          ∙ ap (λ k. bytes ++ replicate k 0) (omega arith))
  | inr fits ↦
      let none_left : n - length bytes ≡ 0 = ground arith in
      rw (fits, none_left, no_bytes more (e ∙ none_left)) refl
]

-- The bytes of the block: the old ones as far as there is room, then zeros.
grown_bytes :
    (junk : ℕ → Bytes) (n : ℕ) (b : Allocation)
    → ((k : ℕ) → length (junk k) ≡ k)
    → IsSized b
    → (zero_grown (n + 64) (resized junk (n + 64) b)).bytes
      ≡ take n b.bytes ++ replicate (n - length b.bytes) 0
grown_bytes junk n b any (size, room) =
    zero_grown-bytes (n + 64) (resized junk (n + 64) b)
    ∙ ap (λ p. filled p (n + 64) (resized junk (n + 64) b).bytes) (omega arith)
    ∙ ap (λ k. filled (length b.bytes + 64) (n + 64) (take k b.bytes ++ junk (k - length b.bytes)))
        (less_prefix n)
    ∙ filled_lem n b.bytes (junk (n - length b.bytes)) (any (n - length b.bytes))

links_kept :
    (total : ℕ) (b : Allocation)
    → ((zero_grown total b).next ≡ b.next) × ((zero_grown total b).prev ≡ b.prev)
links_kept total b = (ground arith, ground arith)

sized_length :
    (n : ℕ) (old bytes : Bytes)
    → bytes ≡ take n old ++ replicate (n - length old) 0
    → n + 64 - 64 ≡ length bytes
sized_length n old bytes e = omega (
  arith,
  ap length e,
  length-append (take n old) (replicate (n - length old) 0),
  length-take n old,
  length-replicate {A = ℕ} (n - length old) 0,
)

module _ (realloc : Memory → Option ℕ → ℕ → Option ℕ) (junk : ℕ → Bytes) (s : Allocs)
    (buf n new : ℕ) (b : Allocation) where
  abbrev old_alloc : ℕ
  old_alloc = alloc_base_loc buf

  -- The block behind `realloc`, and with its new size.
  abbrev given : Allocation
  given = resized junk (n + 64) b

  abbrev sized : Allocation
  sized = record (zero_grown (n + 64) given) { size = n + 64 - 64 }

  zero_realloc_run :
      (m : Memory)
      → n + 64 < 2 ^ 64
      → s.memory old_alloc ≡ some b
      → realloc s.memory (some old_alloc) (n + 64) ≡ some new
      → relink (n + 64) new (moved old_alloc new s.memory given sized) ≡ ok m
      → zero_realloc realloc junk s buf n
        ≡ ok (new + 64, record { alloc_list = moved_head s.alloc_list old_alloc new; memory = m })
  unfolding zero_realloc
  zero_realloc_run m fits here gives run = rw (with_prefix-ok n fits, here, gives, run) refl

  -- Where the C library serves the request, `zero_realloc` ends without a fault, the list goes through
  -- the same blocks as before with the new address for the old one, the block has its old bytes as far
  -- as there is room and zeros behind them, and the data of all other blocks is as it was.
  pub zero_realloc-IsChain :
      (addrs : List ℕ)
      → IsFresh realloc
      → ((k : ℕ) → length (junk k) ≡ k)
      → IsChain s addrs
      → n + 64 < 2 ^ 64
      → s.memory old_alloc ≡ some b
      → realloc s.memory (some old_alloc) (n + 64) ≡ some new
      → (s' : Allocs) × (zero_realloc realloc junk s buf n ≡ ok (new + 64, s'))
        × IsChain s' (renamed_all old_alloc new addrs)
        × (data_of s' new ≡ some (take n b.bytes ++ replicate (n - length b.bytes) 0))
        × ((x : ℕ) → x ≢ new → x ≢ old_alloc → data_of s' x ≡ data_of s x)
  zero_realloc-IsChain addrs library any chain fits here gives =
      let size =
        IsSized-on s.memory none s.alloc_list addrs old_alloc b chain.linked
          (on_list s addrs chain old_alloc (λ gone. some_not_none (sym here ∙ gone))) here in
      let bytes = grown_bytes junk n b any size in
      let is_sized : IsSized sized = (sized_length n b.bytes sized.bytes bytes, omega arith) in
      let fresh = library.moved s.memory old_alloc (n + 64) new gives in
      let links = links_kept (n + 64) given in
      (
        after s addrs chain old_alloc new b sized given here links.0 links.1 is_sized fresh,
        zero_realloc_run
            (later s addrs chain old_alloc new b sized given here links.0 links.1 is_sized fresh)
            fits here gives
            (relinks s addrs chain old_alloc new b sized given here links.0 links.1 is_sized fresh
              (n + 64) refl),
        IsChain-later s addrs chain old_alloc new b sized given here links.0 links.1 is_sized fresh,
        data_new s addrs chain old_alloc new b sized given here links.0 links.1 is_sized fresh
            ∙ ap some bytes,
        λ x nn off.
            data_elsewhere s addrs chain old_alloc new b sized given here links.0 links.1 is_sized
              fresh x nn off,
      )
