-- ===== src/IntrusiveList/Insert/Listed.antt =====
-- `hm_list_insert` of src/core/common.c puts the node at its index in a well-formed list.
use hiemal.Base.{
  ℕ, zero, suc, ◌+◌, ◌-◌, ◌%◌, ◌^◌, ◌≤◌, ◌<◌, ◌≡◌, ◌≢◌, refl, ap, sym, ◌∙◌, Option, none, some,
  List, length, arith, true, false, ◌==◌, ltb, if◌then◌else◌,
}
use native.Mathlib.Decide.{dec_lt, ℕ_discrete}
use native.Mathlib.Nat.{zero-add}
use hiemal.Base.Int.{ℤ, pos, negsuc}
use hiemal.IntrusiveList.{
  Ptr, null, Node, ListState, ok, subtype_id, index_of, head_slot, attach, insert,
}
use hiemal.IntrusiveList.Chain.{IsList, Linked, at, at-end, prev_at, node_at, walk-at}
use hiemal.IntrusiveList.Insert.{IsLinked, link-at}
use hiemal.IntrusiveList.Insert.Kept.{Relinked, linked-Relinked, linked-outside}
use hiemal.IntrusiveList.Insert.Places.{
  insert_at, length-insert_at, at-before, at-here, at-after, before, here, after, place,
}

module _ {s s' : ListState} {xs : List Ptr} (v : IsList s xs) (p : Ptr) (n : Node) (i : ℕ)
    (le : i ≤ length xs) (fresh : (j : ℕ) → j < length xs → at xs j ≢ p)
    (l : IsLinked s s' p n (prev_at xs i) (at xs i)) where
  ys : List Ptr
  ys = insert_at i p xs

  apart : (j : ℕ) → j < length xs → j ≢ i → at xs j ≢ at xs i
  apart j lt ne = elim (dec_lt i (length xs)) [
    | yes lt' ↦ λ e. ne (v.distinct j i lt lt' e)
    | no ge ↦ λ e. v.live j lt (e ∙ at-end xs i (omega arith))
  ]

  prev_at-suc : (j : ℕ) → suc j ≡ i → prev_at xs i ≡ at xs j
  prev_at-suc j e = ap (prev_at xs) (sym e)

  -- The node before the new one is the one at the index before.
  prev_at-apart : (j : ℕ) → j < length xs → suc j ≢ i → at xs j ≢ prev_at xs i
  prev_at-apart j lt ne = elim (ℕ_discrete i 0) [
    | yes z ↦ λ e. v.live j lt (e ∙ ap (prev_at xs) z)
    | no nz ↦
        let e' : suc (i - 1) ≡ i = omega arith in
        λ e. omega (arith, v.distinct j (i - 1) lt (omega arith) (e ∙ prev_at-suc (i - 1) e'))
  ]

  prev_at-kept : (j : ℕ) → j ≤ i → prev_at ys j ≡ prev_at xs j
  unfolding ys
  prev_at-kept zero h = refl
  prev_at-kept (suc j) h = at-before i j p xs h le

  Linked-before : (j : ℕ) → j < i → Linked (s'.cell (at xs j)) (prev_at ys j) (at ys (suc j))
  unfolding ys
  Linked-before j lt =
      let (m, e, e1, e2) = node_at v j (omega arith) in
      rw (l.other (at xs j) m (v.live j (omega arith)) (fresh j (omega arith)) e) (
        ground (arith, apart j (omega arith) (omega arith), prev_at-kept j (omega arith)),
        elim (ℕ_discrete (suc j) i) [
          | yes eq ↦ ground (arith, prev_at-suc j eq, ap (at ys) eq ∙ at-here i p xs le)
          | no ne ↦
              ground
                (arith, prev_at-apart j (omega arith) ne, at-before i (suc j) p xs (omega arith) le)
        ],
      )

  Linked-here : Linked (s'.cell p) (prev_at ys i) (at ys (suc i))
  unfolding ys
  Linked-here =
      rw l.self (sym (prev_at-kept i (omega arith)), sym (at-after i i p xs (omega arith) le))

  Linked-after :
      (k : ℕ)
      → i ≤ k
      → k < length xs
      → Linked (s'.cell (at xs k)) (prev_at ys (suc k)) (at ys (suc (suc k)))
  unfolding ys
  Linked-after k ge lt =
      let (m, e, e1, e2) = node_at v k lt in
      rw (l.other (at xs k) m (v.live k lt) (fresh k lt) e) (
        elim (ℕ_discrete k i) [
          | yes eq ↦ rw eq (ground (arith, at-here i p xs le))
          | no ne ↦
              let e' : suc (k - 1) ≡ k = omega arith in
              ground (
                arith,
                apart k lt ne,
                ap (prev_at xs) e',
                ap (at ys) e',
                at-after i (k - 1) p xs (omega arith) le,
              )
        ],
        ground (arith, prev_at-apart k lt (omega arith), at-after i (suc k) p xs (omega arith) le),
      )

  Linked-new : (j : ℕ) → j < length ys → Linked (s'.cell (at ys j)) (prev_at ys j) (at ys (suc j))
  unfolding ys
  Linked-new j lt = elim (place i j) [
    | before b ↦ rw (at-before i j p xs b le) (Linked-before j b)
    | here e ↦ rw (e, at-here i p xs le) Linked-here
    | after k ge e ↦
        rw (e, at-after i k p xs ge le) (Linked-after k ge (omega (arith, length-insert_at i p xs)))
  ]

  live-new : (j : ℕ) → p ≢ null → j < length ys → at ys j ≢ null
  unfolding ys
  live-new j p_live lt = elim (place i j) [
    | before b ↦ rw (at-before i j p xs b le) (v.live j (omega arith))
    | here e ↦ rw (e, at-here i p xs le) p_live
    | after k ge e ↦
        rw (e, at-after i k p xs ge le) (v.live k (omega (arith, length-insert_at i p xs)))
  ]

  first-new : s'.head ≡ at ys 0
  unfolding ys
  first-new = elim (ℕ_discrete i 0) [
    | yes z ↦ l.head ∙ ground (arith, ap (prev_at xs) z, ap (λ k. at (insert_at k p xs) 0) z)
    | no nz ↦
        let e' : suc (i - 1) ≡ i = omega arith in
        l.head
        ∙ ground (
          arith,
          v.first,
          prev_at-suc (i - 1) e',
          v.live (i - 1) (omega arith),
          at-before i 0 p xs (omega arith) le,
        )
  ]

  -- Where the address at an index of the new list stood: `none` for the new node
  source : ℕ → Option ℕ
  source j = if ltb j i then some j else if j == i then none else some (j - 1)

  at-source : (j : ℕ) → j < length ys → at ys j ≡ elim (source j) [ none ↦ p | some k ↦ at xs k ]
  unfolding ys source
  at-source j lt = elim (place i j) [
    | before b ↦ ground (arith, at-before i j p xs b le)
    | here e ↦ ground (arith, ap (at ys) e ∙ at-here i p xs le)
    | after k ge e ↦ ground (arith, ap (at ys) e ∙ at-after i k p xs ge le)
  ]

  length-ys : length ys ≡ suc (length xs)
  unfolding ys
  length-ys = length-insert_at i p xs

  distinct-new : (j k : ℕ) → j < length ys → k < length ys → at ys j ≡ at ys k → j ≡ k
  unfolding source
  distinct-new j k jl kl e = ground (
    arith,
    length-ys,
    at-source j jl,
    at-source k kl,
    fresh j,
    fresh k,
    fresh (j - 1),
    fresh (k - 1),
    v.distinct j k,
    v.distinct (j - 1) k,
    v.distinct j (k - 1),
    v.distinct (j - 1) (k - 1),
  )

  pub new-IsList :
      p ≢ null
      → suc (length xs) < 2 ^ 31
      → IsList (record s' { n_items = (s'.n_items + 1) % 2 ^ 32 }) (insert_at i p xs)
  unfolding ys
  new-IsList p_live small = record {
    first = first-new;
    count = omega (arith, v.count, l.n_items, length-ys);
    small = omega (arith, length-ys);
    live = λ j lt. live-new j p_live lt;
    linked = Linked-new;
    distinct = distinct-new;
  }

-- The result of an insertion at `i`: a well-formed list with the node in that place; the nodes are the
-- same, and those outside the list are as they were.
pub record IsInserted (s s' : ListState) (p : Ptr) (i : ℕ) (xs : List Ptr) : Type 0 where
  pub listed : IsList s' (insert_at i p xs)
  pub magic : s'.magic ≡ s.magic
  pub nodes : (a : Ptr) (m : Node) → a ≢ null → s.cell a ≡ some m → Relinked s'.cell a m
  pub outside :
      (a : Ptr) (m : Node)
      → a ≢ null
      → a ≢ p
      → ((j : ℕ) → j < length xs → at xs j ≢ a)
      → s.cell a ≡ some m
      → s'.cell a ≡ some m

-- `hm_list_insert` of a live node that is not in a well-formed list of plain nodes, at an index up to the
-- number of items or below 0 for the end, returns 0, and the list is well formed with the node at its index
-- and every other node in its order.
pub insert-listed :
    {s : ListState} {xs : List Ptr} (v : IsList s xs) (node_ptr fresh_ptr : Ptr) (n : Node)
    (index : ℤ)
    → node_ptr ≢ null
    → s.cell node_ptr ≡ some n
    → ((j : ℕ) → j < length xs → at xs j ≢ node_ptr)
    → subtype_id s.magic ≡ 0
    → suc (length xs) < 2 ^ 31
    → index_of index s.n_items ≤ length xs
    → (s' : ListState) × (insert fresh_ptr node_ptr index s ≡ ok (pos 0) s')
      × IsInserted s s' node_ptr (index_of index s.n_items) xs
unfolding insert attach
insert-listed {s = s} {xs = xs} v p q n index live c fresh sub small le =
    let (s', e, l) = link-at v p n live c fresh (index_of index s.n_items) le in
    let guard : ltb s.n_items (index_of index s.n_items % 2 ^ 32) ≡ false =
      ground (arith, v.count, v.small) in
    (
      record s' { n_items = (s'.n_items + 1) % 2 ^ 32 },
      rw
          (
            guard,
            sub,
            walk-at v (index_of index s.n_items) 0 head_slot (omega (arith, le)),
            zero-add (index_of index s.n_items),
          )
          (rw e refl),
      record {
        listed = new-IsList v p n (index_of index s.n_items) le fresh l live small;
        magic = l.magic;
        nodes = linked-Relinked xs (index_of index s.n_items) l c;
        outside = linked-outside xs (index_of index s.n_items) l;
      },
    )

-- `hm_list_insert` at an index past the number of items returns -1 and changes nothing.
pub insert-past_end :
    (s : ListState) (node_ptr fresh_ptr : Ptr) (i : ℕ)
    → s.n_items < i
    → i < 2 ^ 32
    → insert fresh_ptr node_ptr (pos i) s ≡ ok (negsuc 0) s
unfolding insert
insert-past_end s p q i lt small =
    let guard : ltb s.n_items (i % 2 ^ 32) ≡ true = ground arith in rw guard refl
