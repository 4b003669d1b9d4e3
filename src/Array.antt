-- ===== src/Array.antt =====
-- The growing arrays of src/core/common.c (`hm_array_*`), and `u64sum` of src/core/math.c. A null buffer is
-- the empty area, into which nothing is copied, as `xmemcpy` does.
pub mod Valid
pub mod Concat
pub mod Sum
pub mod Tests
use hiemal.Base.{
  ℕ, zero, suc, ◌+◌, ◌*◌, ◌%◌, ◌^◌, ◌≡◌, ◌<◌, Bool, true, false, Option, none, some, List, [], ◌∷◌,
  length, ltb, if◌then◌else◌, Bytes, byte_at, memcpy, slice,
}
use hiemal.Base.Int.{ℤ, pos, negsuc}

-- `realloc` of the C library: `none` is a null pointer; a new area keeps the bytes that fit.
pub record Allocator : Type 0 where
  pub realloc : Bytes → ℕ → Option Bytes
  pub realloc-length : (m m' : Bytes) (n : ℕ) → realloc m n ≡ some m' → length m' ≡ n
  pub realloc-kept :
      (m m' : Bytes) (n i : ℕ)
      → realloc m n ≡ some m'
      → i < length m
      → i < n
      → byte_at m' i ≡ byte_at m i

-- `HM_ARRAY_HEAD`, less the magic number
pub record Array : Type 0 where
  pub buf : Bytes
  pub n_items : ℕ
  pub n_items_alloc : ℕ
  pub item_size : ℕ

-- `HM_ARRAY_INIT` and `HM_ARRAY_INIT_LIKE`
abbrev pub array_init : ℕ → Array
array_init size = record { buf = []; n_items = 0; n_items_alloc = 0; item_size = size }

unfoldable pub array_clear : Array → Array
array_clear a = record a { buf = []; n_items = 0; n_items_alloc = 0 }

-- The offset of an item in the buffer; `none` is the null pointer.
unfoldable pub array_at : Array → ℕ → Option ℕ
array_at a i = if ltb i a.n_items then some (i * a.item_size) else none

-- The addresses of the items, from the `itr`th on
unfoldable pub item_addresses : (rounds itr item_size : ℕ) → List ℕ
item_addresses zero itr size = []
item_addresses (suc k) itr size = itr * size ∷ item_addresses k (itr + 1) size

-- The addresses at which `hm_array_delete` calls the function that it is given, if any
unfoldable pub array_delete : (has_fn : Bool) → Array → List ℕ
unfolding item_addresses
array_delete true a = item_addresses a.n_items 0 a.item_size
array_delete false a = []

module _ (c : Allocator) where
  unfoldable pub array_resize : Array → ℕ → ℤ × Array
  array_resize a n =
      if ltb a.n_items_alloc n
      then elim (c.realloc a.buf (2 * n * a.item_size % 2 ^ 64)) [
        | none ↦ (negsuc 0, a)
        | some m ↦ (pos 0, record a { buf = m; n_items_alloc = n })
      ]
      else (pos 0, a)

  -- The operations below do not look at what the resizing returns.
  unfoldable pub array_copy_raw : Array → Bytes → ℕ → Array
  array_copy_raw a src n =
      let a' = (array_resize a n).1 in
      record a' { n_items = n; buf = memcpy a'.buf 0 (slice src 0 (n * a'.item_size)) }

  unfoldable pub array_concat : Array → Array → Array
  array_concat a b =
      let n = (a.n_items + b.n_items) % 2 ^ 32 in
      let a' = (array_resize a n).1 in
      record a' {
        buf = memcpy a'.buf (a'.n_items * a'.item_size) (slice b.buf 0 (b.n_items * b.item_size));
        n_items = n;
      }

  unfoldable pub array_concat_raw : Array → Bytes → ℕ → Array
  unfolding array_copy_raw
  array_concat_raw a src n = array_concat a (array_copy_raw (array_init a.item_size) src n)

unfoldable pub u64sum_from : ℕ → List ℕ → ℕ
u64sum_from res [] = res
u64sum_from res (x ∷ xs) = u64sum_from ((res + x) % 2 ^ 64) xs

unfoldable pub u64sum : List ℕ → ℕ
u64sum xs = u64sum_from 0 xs
