-- ===== src/Array.antt =====
-- src/memory.h: the growable arrays, as the bytes of their blocks. An array's length is the size of
-- its block divided by the size of an item. `malloc` and `realloc` are a parameter that says which
-- sizes are served.
pub mod Items
pub mod Laws
mod Tests
use bbae.Common.{
  ℕ, zero, suc, ◌+◌, ◌-◌, ◌*◌, ◌/◌, Bool, true, false, ◌&&◌, List, [], ◌∷◌, ◌++◌, Option, none,
  some, Run, Fault, ok, fault, assert, ◌>>=◌, ◌>>◌, leb, ltb, ◌==◌, if◌then◌else◌, Bytes, length,
  take, drop, replicate,
}
use bbae.Types.{mem_same}

-- Every block has a prefix of 64 bytes in front of its data.
abbrev pub alloc_prefix_size : ℕ
alloc_prefix_size = 64

unfoldable pub array_len : Bytes → ℕ → ℕ
array_len array item_size = length array / item_size

-- `memmove(array + dst, array + src, n)`, undefined outside the block.
unfoldable pub memmove : Bytes → ℕ → ℕ → ℕ → Run Bytes
memmove array dst src n =
    if leb (src + n) (length array) && leb (dst + n) (length array)
    then ok (take dst array ++ (take n (drop src array) ++ drop (dst + n) array))
    else fault Fault.undefined

-- `array_find_impl`, from the item `i` on: the bound of the loop counts pointers, of 8 bytes,
-- whatever the items are. The rest of the block is given, and its items are compared with `item`.
unfoldable pub find_loop : ℕ → ℕ → ℕ → Bytes → Bytes → Run (Option ℕ)
find_loop zero i item_size rest item = ok none
find_loop (suc left) i item_size rest item =
    let next = find_loop left (i + 1) item_size (drop item_size rest) item in
    if ltb (length rest) item_size
    then fault Fault.undefined
    else if mem_same item_size rest item
    then ok (some i)
    else next

unfoldable pub array_find_impl : Bytes → ℕ → Bytes → Run (Option ℕ)
array_find_impl array item_size item = find_loop (array_len array 8) 0 item_size array item

module _ (serves : ℕ → Bool) where
  -- The data of the block that `zero_alloc` gives.
  unfoldable pub fresh_bytes : ℕ → Run Bytes
  fresh_bytes n = assert (serves (n + alloc_prefix_size)) >> ok (replicate n 0)

  -- The data of the block that `zero_realloc` gives: cut off, or filled with zeros.
  unfoldable pub resized_bytes : Bytes → ℕ → Run Bytes
  resized_bytes buf n =
      assert (serves (n + alloc_prefix_size)) >> ok (take n buf ++ replicate (n - length buf) 0)

  unfoldable pub array_erase_impl : Bytes → ℕ → ℕ → Run Bytes
  unfolding resized_bytes memmove
  array_erase_impl array item_size index =
      let size = length array in
      let start = item_size * index in
      if leb (start + item_size) size
      then (memmove array start (start + item_size) (size - start - item_size) >>= λ moved.
          resized_bytes moved (size - item_size))
      else fault Fault.undefined

  unfoldable pub array_insert_impl : Bytes → ℕ → ℕ → Run Bytes
  unfolding resized_bytes memmove
  array_insert_impl array item_size index =
      let size = length array + item_size in
      let start = item_size * index in
      resized_bytes array size >>= λ grown.
      if leb (start + item_size) size
      then memmove grown (start + item_size) start (size - start - item_size)
      else fault Fault.undefined

  -- A write of an item, undefined outside the block.
  unfoldable pub write_item : Bytes → ℕ → Bytes → Run Bytes
  write_item array start item =
      if leb (start + length item) (length array)
      then ok (take start array ++ (item ++ drop (start + length item) array))
      else fault Fault.undefined

  -- `array_insert`
  unfoldable pub array_insert : Bytes → ℕ → Bytes → Run Bytes
  unfolding array_insert_impl write_item
  array_insert array index item = array_insert_impl array (length item) index >>= λ opened.
      write_item opened (length item * index) item

  -- `array_push`
  unfoldable pub array_push : Bytes → Bytes → Run Bytes
  unfolding resized_bytes write_item
  array_push array item = resized_bytes array (length array + length item) >>= λ grown.
      write_item grown ((array_len grown (length item) - 1) * length item) item

  -- `array_chop_impl`: the new array with the bytes behind `start_offs`, and what is left.
  unfoldable pub array_chop_impl : Bytes → ℕ → ℕ → Run (Bytes × Bytes)
  unfolding fresh_bytes resized_bytes
  array_chop_impl array start_offs end_offs =
      if leb start_offs end_offs && leb end_offs (length array)
      then (fresh_bytes (end_offs - start_offs) >>= λ ret.
          resized_bytes array start_offs >>= λ left.
          ok (take (end_offs - start_offs) (drop start_offs array), left))
      else fault Fault.undefined
