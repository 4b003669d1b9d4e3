-- ===== src/Copying.antt =====
-- The copies between the lists and the arrays of src/core/common.c: `hm_array_copy_list` and `hm_list_copy_array`.
-- What the nodes hold behind their headers is a map from an address to the bytes there.
pub mod FromList
pub mod FromArray
mod Tests
use hiemal.Base.{
  ℕ, zero, suc, ◌+◌, ◌*◌, ◌%◌, ◌^◌, Bool, ◌&&◌, Option, none, some, List, [], ◌∷◌, ◌++◌, map,
  length, ◌==◌, if◌then◌else◌, Bytes, memcpy, slice,
}
use hiemal.Base.Int.{ℤ, pos}
use hiemal.IntrusiveList.{
  Ptr, null, Node, Cells, ListState, Cmd, pure, ◌>>=◌, ◌>>◌, fault, default_free, store, append,
}
use hiemal.IntrusiveList.Access.{itr, clear}
use hiemal.Array.{Allocator, Array, array_clear, array_concat_raw, u64sum}

-- The bytes of a node from `data` on
abbrev pub Data : Type 0
Data = Ptr → Bytes

-- `HM_FLAG_SET(flags, COPY_OVERWRITE)`
abbrev pub overwrites : (flags : ℕ) → Bool
overwrites flags = flags % 2 == 1

-- `data_size` of a node; the iteration calls the function for nodes that are there.
abbrev pub size_of : Option Node → ℕ
size_of none = 0
size_of (some n) = n.data_size

-- The entries of `struct list_data`: the addresses in `list_data`, with the sizes in `list_data_len`
unfoldable pub get_list_data : Cells → Ptr → List (Ptr × ℕ) → List (Ptr × ℕ)
get_list_data cell p entries = entries ++ ((p, size_of (cell p)) ∷ [])

-- The loop that fills `new_arr_data`, from `offset_itr` on; an entry that was not stored is a null pointer with size 0
-- and copies nothing.
unfoldable pub gather : Data → (area : Bytes) → (offset_itr : ℕ) → List (Ptr × ℕ) → Bytes
gather held area offset [] = area
gather held area offset ((p, n) ∷ entries) =
    gather held (memcpy area offset (slice (held p) 0 n)) ((offset + n) % 2 ^ 64) entries

-- `hm_array_copy_list`; `malloc` is what a fresh area holds, and `none` is a list that `hm_list_itr` does not leave
-- within `n_items` nodes.
unfoldable pub array_copy_list :
    Allocator → (malloc : ℕ → Bytes) → Array → Data → (flags : ℕ) → ListState → Option Array
unfolding get_list_data gather
array_copy_list c malloc a held flags s =
    let a' = if overwrites flags then array_clear a else a in
    elim (itr (get_list_data s.cell) [] s) [
      | none ↦ none
      | some entries ↦
          let area = malloc (u64sum (map (λ e. e.1) entries)) in
          some (array_concat_raw c a' (gather held area 0 entries) s.n_items)
    ]

-- An item of the array, as `xmemcpy` takes it; `none` is a null pointer.
abbrev pub source_of : Array → (itr : ℕ) → Option Bytes
source_of a i =
    if length a.buf == 0 && i * a.item_size == 0
    then none
    else some (slice a.buf (i * a.item_size) a.item_size)

-- `fresh` and `junk`: the address that `malloc` returns for the node of an item, and what is there. `refs`: the address
-- of the node that `hm_list_append` allocates on a list of references.
module _ (fresh refs : ℕ → Ptr) (junk : ℕ → Node) where
  abbrev pub put_data : Data → Ptr → Bytes → Data
  put_data held p bytes q = if q == p then bytes else held q

  -- The loop of `hm_list_copy_array`, from `itr` on
  unfoldable pub copy_items : Array → (rounds itr : ℕ) → Data → Cmd Data
  unfolding append
  copy_items a zero i held = pure held
  copy_items a (suc k) i held =
      let rest : Data → Cmd Data = copy_items a k (suc i) in
      if fresh i == null then (λ _. fault) else elim (source_of a i) [
        | none ↦ rest held
        | some bytes ↦ (do
          store (fresh i) (record (junk i) { free_fn = default_free })
          append (refs i) (fresh i)
          rest (put_data held (fresh i) bytes))
      ]

  -- `hm_list_copy_array`, with the functions that a client's free functions stand for
  unfoldable pub list_copy_array :
      (callback : ℕ → Ptr → Cells → Cells) → Array → (flags : ℕ) → Data → Cmd (Data × ℤ)
  unfolding copy_items
  list_copy_array callback a flags held = do
    (if overwrites flags then clear callback else pure (pos 0))
    held ← copy_items a a.n_items 0 held
    pure (held, pos 0)
