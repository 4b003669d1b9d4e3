-- ===== src/Copying/FromList.antt =====
-- `hm_array_copy_list` of src/core/common.c puts the data of the nodes of a list behind the items of an array.
use hiemal.Base.{
  ℕ, ◌+◌, ◌*◌, ◌%◌, ◌^◌, ◌≤◌, ◌<◌, ◌≡◌, refl, ap, sym, ◌∙◌, some, List, [], ◌∷◌, ◌++◌, map, length,
  append-nil, append_assoc, arith, Bytes, memcpy, slice, length-memcpy, if◌then◌else◌, Bool-cases,
  inl, inr,
}
use mathlib.Core.Path.{subst}
use native.Mathlib.Nat.{add-mul, zero-add, zero-mul}
use hiemal.IntrusiveList.{Ptr, Cells, ListState}
use hiemal.IntrusiveList.Chain.{IsList}
use hiemal.IntrusiveList.Walk.{visit_all, itr-visits}
use hiemal.Array.{Allocator, Array, array_init, array_clear, array_concat_raw, u64sum}
use hiemal.Array.Sum.{sum, u64sum-sum}
use hiemal.Array.Valid.{IsArray, contents, IsGranted, copy-end}
use hiemal.Array.Concat.{IsExtended, array_concat_raw-appends}
use hiemal.Copying.{Data, size_of, overwrites, get_list_data, gather, array_copy_list}

-- Nodes that hold an item of `size` bytes each
abbrev pub AreItems : Cells → Data → (size : ℕ) → List Ptr → Type 0
AreItems cell held size [] = Unit {0}
AreItems cell held size (x ∷ xs) =
    (size_of (cell x) ≡ size) × (size ≤ length (held x)) × AreItems cell held size xs

-- Their items, one after the other
abbrev pub joined : Data → (size : ℕ) → List Ptr → Bytes
joined held size [] = []
joined held size (x ∷ xs) = slice (held x) 0 size ++ joined held size xs

abbrev entries_of : (size : ℕ) → List Ptr → List (Ptr × ℕ)
entries_of size [] = []
entries_of size (x ∷ xs) = (x, size) ∷ entries_of size xs

sum-entries :
    (xs : List Ptr) (size : ℕ) → sum (map (λ e. e.1) (entries_of size xs)) ≡ length xs * size
sum-entries [] size = omega (arith, zero-mul size)
sum-entries (x ∷ xs) size = omega (arith, sum-entries xs size, add-mul 1 (length xs) size)

module _ (cell : Cells) (held : Data) (size : ℕ) where
  visit_all-entries :
      (xs : List Ptr) (seen : List (Ptr × ℕ))
      → AreItems cell held size xs
      → visit_all (get_list_data cell) xs seen ≡ seen ++ entries_of size xs
  unfolding get_list_data
  visit_all-entries [] seen h = sym (append-nil seen)
  visit_all-entries (x ∷ xs) seen h =
      visit_all-entries xs (seen ++ ((x, size_of (cell x)) ∷ [])) h.2
      ∙ append_assoc seen ((x, size_of (cell x)) ∷ []) (entries_of size xs)
      ∙ ap (λ n. seen ++ ((x, n) ∷ entries_of size xs)) h.0

  length-gather :
      (xs : List Ptr) (area : Bytes) (off : ℕ)
      → length (gather held area off (entries_of size xs)) ≡ length area
  unfolding gather
  length-gather [] area off = refl
  length-gather (x ∷ xs) area off =
      length-gather xs (memcpy area off (slice (held x) 0 size)) ((off + size) % 2 ^ 64)
      ∙ length-memcpy area off (slice (held x) 0 size)

  -- The loop fills the area from `off` on with the items.
  gather-joins :
      (xs : List Ptr) (area : Bytes) (off : ℕ)
      → AreItems cell held size xs
      → off + length xs * size ≤ length area
      → length area < 2 ^ 64
      → slice (gather held area off (entries_of size xs)) 0 (off + length xs * size)
        ≡ slice area 0 off ++ joined held size xs
  unfolding gather
  gather-joins [] area off h le small =
      ap (slice area 0) (omega arith) ∙ sym (append-nil (slice area 0 off))
  gather-joins (x ∷ xs) area off h le small =
      let area' = memcpy area off (slice (held x) 0 size) in
      let l = length-memcpy area off (slice (held x) 0 size) in
      let d = add-mul 1 (length xs) size in
      let wrap : (off + size) % 2 ^ 64 ≡ off + size = omega (arith, d) in
      let e : off + length (x ∷ xs) * size ≡ off + size + length xs * size = omega (arith, d) in
      rw (gather, wrap, e)
        (gather-joins xs area' (off + size) h.2 (omega (arith, l, d)) (omega (arith, l))
          ∙ ap (λ m. m ++ joined held size xs)
              (copy-end area off (held x) size h.1 (omega (arith, d)))
          ∙ append_assoc (slice area 0 off) (slice (held x) 0 size) (joined held size xs))

-- The array that the items are put behind
abbrev pub base : (flags : ℕ) → Array → Array
base flags a = if overwrites flags then array_clear a else a

base-item_size : (flags : ℕ) (a : Array) → (base flags a).item_size ≡ a.item_size
unfolding array_clear
base-item_size flags a = elim (Bool-cases (overwrites flags)) [
  | inl e ↦ rw e refl
  | inr e ↦ rw e refl
]

base-IsArray : (flags : ℕ) {a : Array} → IsArray a → IsArray (base flags a)
unfolding array_clear
base-IsArray flags {a = a} v = elim (Bool-cases (overwrites flags)) [
  | inl e ↦ rw e (record { fits = omega arith; area = omega (arith, zero-mul a.item_size) })
  | inr e ↦ rw e v
]

u64sum-entries :
    (xs : List Ptr) (size : ℕ)
    → length xs * size < 2 ^ 63
    → u64sum (map (λ e. e.1) (entries_of size xs)) ≡ length xs * size
u64sum-entries xs size small =
    u64sum-sum (map (λ e. e.1) (entries_of size xs)) ∙ omega (arith, sum-entries xs size)

-- `hm_array_copy_list` of a well-formed list, whose nodes each hold an item of the size of the array's, with the
-- memory granted, leaves the array well formed, with the items of the list in order behind its own, or alone where
-- the flag says to overwrite.
pub array_copy_list-collects :
    (c : Allocator) (malloc : ℕ → Bytes) (flags : ℕ) (held : Data) {a : Array} {s : ListState}
    {xs : List Ptr}
    → IsArray a
    → IsList s xs
    → AreItems s.cell held a.item_size xs
    → ((n : ℕ) → length (malloc n) ≡ n)
    → (base flags a).n_items + length xs < 2 ^ 32
    → IsGranted c (array_init a.item_size) (length xs)
    → IsGranted c (base flags a) ((base flags a).n_items + length xs)
    → (r : Array) × (array_copy_list c malloc a held flags s ≡ some r)
      × IsExtended (base flags a) r (length xs) (joined held a.item_size xs)
unfolding array_copy_list
array_copy_list-collects c malloc flags held {a = a} {s = s} {xs = xs} v list items m small g g' =
    let b = base flags a in
    let size = a.item_size in
    let area = malloc (u64sum (map (λ e. e.1) (entries_of size xs))) in
    let z : b.item_size ≡ size = base-item_size flags a in
    let l : length area ≡ length xs * size =
      m (u64sum (map (λ e. e.1) (entries_of size xs))) ∙ u64sum-entries xs size g.small in
    let src = gather held area 0 (entries_of size xs) in
    let le : length xs * b.item_size ≤ length src =
      omega (arith, l, length-gather s.cell held size xs area 0, ap (λ k. length xs * k) z) in
    let x =
      array_concat_raw-appends c src (length xs) (base-IsArray flags v) le small
        (subst (λ k. IsGranted c (array_init k) (length xs)) (sym z) g) g' in
    let j : slice src 0 (length xs * b.item_size) ≡ joined held size xs =
      ap (λ k. slice src 0 (length xs * k)) z
      ∙ ap (slice src 0) (sym (zero-add (length xs * size)))
      ∙ gather-joins s.cell held size xs area 0 items (omega (arith, l))
          (omega (arith, l, g.small)) in
    (
      array_concat_raw c b src (length xs),
      rw
          (
            array_copy_list,
            itr-visits (get_list_data s.cell) list [],
            visit_all-entries s.cell held size xs [] items,
            list.count,
          )
          refl,
      record {
        valid = x.valid;
        n_items = x.n_items;
        item_size = x.item_size;
        contents = x.contents ∙ ap (λ m. contents b ++ m) j;
      },
    )
