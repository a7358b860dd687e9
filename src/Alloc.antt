-- ===== src/Alloc.antt =====
-- src/memory.h: the compiler's allocations, which are linked in a list so that all can be freed at
-- the end. A pointer is the address of a block's prefix or, 64 bytes behind it, of its data; null is
-- `none`. `realloc` of the C library is a parameter: the address that it gives, if any, and the bytes
-- that it leaves behind the old ones.
pub mod Chain
pub mod Renamed
pub mod Relink
pub mod Resized
pub mod Realloc
pub mod Free
mod Tests
use bbae.Common.{
  ℕ, zero, suc, ◌+◌, ◌-◌, ◌%◌, ◌^◌, Bool, true, false, List, [], ◌∷◌, ◌++◌, Option, none, some, Run,
  Fault, ok, fault, ◌>>=◌, ◌>>◌, ltb, leb, ◌==◌, if◌then◌else◌, Bytes, length, take, drop,
  replicate,
}
use bbae.Array.{alloc_prefix_size}
use bbae.Ir.{update}

-- A block: the three fields of its prefix, and its data.
pub record Allocation : Type 0 where
  pub next : Option ℕ
  pub prev : Option ℕ
  pub size : ℕ
  pub bytes : Bytes

abbrev pub Memory : Type 0
Memory = ℕ → Option Allocation

-- The global variable and the blocks that are not freed.
pub record Allocs : Type 0 where
  pub alloc_list : Option ℕ
  pub memory : Memory

abbrev pub alloc_base_loc : ℕ → ℕ
alloc_base_loc buf = buf - alloc_prefix_size

abbrev pub alloc_data_loc : ℕ → ℕ
alloc_data_loc alloc = alloc + alloc_prefix_size

-- A write to a block's prefix or data; a block that is not there is undefined behaviour.
abbrev pub change_in : Memory → ℕ → (Allocation → Allocation) → Option Allocation → Run Memory
change_in memory alloc f none = fault Fault.undefined
change_in memory alloc f (some b) = ok (update memory alloc (some (f b)))

abbrev pub change : ℕ → (Allocation → Allocation) → Memory → Run Memory
change alloc f memory = change_in memory alloc f (memory alloc)

-- The write through a pointer of the list that may be null.
abbrev pub change_linked : Option ℕ → (Allocation → Allocation) → Memory → Run Memory
change_linked none f memory = ok memory
change_linked (some alloc) f memory = change alloc f memory

abbrev pub found : Option Allocation → Run Allocation
found none = fault Fault.undefined
found (some b) = ok b

-- `assert(alloc)` on the result of `realloc`.
abbrev pub served : Option ℕ → Run ℕ
served none = fault Fault.assertion
served (some alloc) = ok alloc

-- `n += ALLOC_PREFIX_SIZE`; a block that is too small for its prefix is written out of its bounds.
abbrev pub with_prefix : ℕ → Run ℕ
with_prefix n =
    let total = (n + alloc_prefix_size) % 2 ^ 64 in
    if ltb total alloc_prefix_size then fault Fault.undefined else ok total

abbrev pub cleared : ℕ → Allocation
cleared total = record {
  next = none;
  prev = none;
  size = 0;
  bytes = replicate (total - alloc_prefix_size) 0;
}

-- `realloc` on a block: its data is cut off or goes on with bytes of any value.
abbrev pub resized : (ℕ → Bytes) → ℕ → Allocation → Allocation
resized junk total b = record b {
  bytes =
      take (total - alloc_prefix_size) b.bytes ++ junk (total - alloc_prefix_size - length b.bytes);
}

-- `memset(new_alloc + prev_n, 0, n - prev_n)` where the block has grown, by the size in its prefix.
abbrev pub zero_grown : ℕ → Allocation → Allocation
zero_grown total b =
    let prev_n = (b.size + alloc_prefix_size) % 2 ^ 64 in
    if ltb prev_n total
    then record b {
      bytes = take (prev_n - alloc_prefix_size) b.bytes ++ replicate (total - prev_n) 0;
    }
    else b

abbrev pub moved_head : Option ℕ → ℕ → ℕ → Option ℕ
moved_head none old_alloc new_alloc = none
moved_head (some head) old_alloc new_alloc = if head == old_alloc then some new_alloc else some head

-- The part behind `realloc`: the new block, then its neighbours in the list.
unfoldable pub relink : ℕ → ℕ → Memory → Run Memory
relink total new_alloc memory =
    change new_alloc (λ b. record (zero_grown total b) { size = total - alloc_prefix_size }) memory
    >>= λ sized. found (sized new_alloc) >>= λ b.
        change_linked b.prev (λ p. record p { next = some new_alloc }) sized >>= λ linked.
        found (linked new_alloc) >>= λ b'.
        change_linked b'.next (λ q. record q { prev = some new_alloc }) linked

-- `memcpy` of the data to the new block; reading past the old one is undefined.
abbrev pub copied_to : Bytes → ℕ → Allocation → Allocation
copied_to from size b = record b { bytes = take size from ++ drop size b.bytes }

module _ (realloc : Memory → Option ℕ → ℕ → Option ℕ) where
  unfoldable pub zero_alloc : Allocs → ℕ → Run (ℕ × Allocs)
  zero_alloc s n = with_prefix n >>= λ total. served (realloc s.memory none total) >>= λ alloc.
      change_linked s.alloc_list (λ b. record b { prev = some alloc })
        (update s.memory alloc (some (record (cleared total) { next = s.alloc_list })))
      >>= change alloc (λ b. record b { size = total - alloc_prefix_size })
      >>= λ memory. ok (alloc_data_loc alloc, record { alloc_list = some alloc; memory = memory })

  unfoldable pub zero_realloc : (ℕ → Bytes) → Allocs → ℕ → ℕ → Run (ℕ × Allocs)
  unfolding relink
  zero_realloc junk s buf n = with_prefix n >>= λ total.
      let old_alloc = alloc_base_loc buf in
      found (s.memory old_alloc) >>= λ b.
      served (realloc s.memory (some old_alloc) total) >>= λ new_alloc.
      relink total new_alloc
        (update (update s.memory old_alloc none) new_alloc (some (resized junk total b)))
      >>= λ memory. ok (
        alloc_data_loc new_alloc,
        record { alloc_list = moved_head s.alloc_list old_alloc new_alloc; memory = memory },
      )

  unfoldable pub zero_alloc_clone : Allocs → ℕ → Run (ℕ × Allocs)
  unfolding zero_alloc
  zero_alloc_clone s buf =
      let old_alloc = alloc_base_loc buf in
      found (s.memory old_alloc) >>= λ b. zero_alloc s b.size >>= λ r.
      found (r.1.memory old_alloc) >>= λ b'.
      (if leb b.size (length b'.bytes)
        then change (alloc_base_loc r.0) (copied_to b'.bytes b.size) r.1.memory
        else fault Fault.undefined)
      >>= λ memory. ok (r.0, record r.1 { memory = memory })

-- `free`, and the loop over the list on fuel.
abbrev pub free_head : Allocs → ℕ → Run Allocs
free_head s alloc = found (s.memory alloc) >>= λ b.
    ok (record { alloc_list = b.next; memory = update s.memory alloc none })

unfoldable pub free_loop : ℕ → Allocs → Option ℕ → Run Allocs
free_loop fuel s none = ok s
free_loop zero s (some alloc) = fault Fault.stuck
free_loop (suc fuel) s (some alloc) = free_head s alloc >>= λ s'. free_loop fuel s' s'.alloc_list

-- One block goes in every round.
unfoldable pub free_all_compiler_allocs : ℕ → Allocs → Run Allocs
unfolding free_loop
free_all_compiler_allocs fuel s = free_loop fuel s s.alloc_list
