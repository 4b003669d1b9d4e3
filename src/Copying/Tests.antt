-- ===== src/Copying/Tests.antt =====
-- The copies at the two nodes of IntrusiveList/Tests, and at small arrays.
use hiemal.Base.{ℕ, ◌+◌, ◌≡◌, refl, some, [], ◌∷◌, arith, Bytes, replicate, length-replicate}
use hiemal.Base.Int.{pos}
use hiemal.IntrusiveList.{Ptr, ListState, Node, ok}
use hiemal.IntrusiveList.Chain.{IsList}
use hiemal.IntrusiveList.Tests.{
  two_nodes, two_nodes-IsList, two_nodes-AreFree, no_callback, plain_node,
}
use hiemal.Array.{Array}
use hiemal.Array.Valid.{IsArray}
use hiemal.Array.Concat.{IsExtended}
use hiemal.Array.Tests.{allocator, pair, pair-IsArray, granted}
use hiemal.Copying.{Data, array_copy_list, list_copy_array}
use hiemal.Copying.FromList.{array_copy_list-collects}
use hiemal.Copying.FromArray.{AreFresh, AreCopied, list_copy_array-appends}

-- Each node holds its address.
abbrev held : Data
held p = p ∷ 0 ∷ 0 ∷ 0 ∷ []

abbrev one : Array
one = record { buf = 9 ∷ 0 ∷ 0 ∷ 0 ∷ []; n_items = 1; n_items_alloc = 1; item_size = 4 }

one-IsArray : IsArray one
one-IsArray = record { fits = omega arith; area = omega arith }

abbrev zeros : ℕ → Bytes
zeros n = replicate n 0

array_copy_list-collects_example :
    (r : Array) × (array_copy_list allocator zeros one held 0 two_nodes ≡ some r)
    × IsExtended one r 2 (10 ∷ 0 ∷ 0 ∷ 0 ∷ 20 ∷ 0 ∷ 0 ∷ 0 ∷ [])
array_copy_list-collects_example =
    array_copy_list-collects allocator zeros 0 held one-IsArray two_nodes-IsList
      (refl, omega arith, (refl, omega arith, tt)) (λ n. length-replicate n 0) (omega arith)
      (granted (record { buf = []; n_items = 0; n_items_alloc = 0; item_size = 4 }) 2 (omega arith))
      (granted one 3 (omega arith))

abbrev fresh : ℕ → Ptr
fresh i = 100 + i

abbrev junk : ℕ → Node
junk i = plain_node i i

none-AreFresh : AreFresh fresh []
none-AreFresh = record {
  live = λ i. omega arith;
  other = λ i j lt. elim lt [ ];
  distinct = λ i j e. omega arith;
}

list_copy_array-appends_example :
    (held' : Data) × (s : ListState) × (list_copy_array fresh fresh junk no_callback pair 1 held
        two_nodes
      ≡ ok (held', pos 0) s)
    × IsList s (100 ∷ 101 ∷ [])
    × AreCopied fresh pair 2 0 held held'
list_copy_array-appends_example =
    list_copy_array-appends fresh fresh junk no_callback pair 1 held pair-IsArray (omega arith)
      two_nodes-IsList refl (λ e. two_nodes-AreFree) none-AreFresh (omega arith)
