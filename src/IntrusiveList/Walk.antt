-- ===== src/IntrusiveList/Walk.antt =====
-- Access to the nodes of a well-formed list: `hm_list_at`, `hm_list_find`, `hm_list_itr`.
use hiemal.Base.{
  ℕ, zero, suc, ◌+◌, ◌^◌, ◌≤◌, ◌<◌, ◌≡◌, refl, ap, ◌∙◌, Bool, Option, none, some, List, [], ◌∷◌,
  length, arith, if◌then◌else◌, drop,
}
use native.Mathlib.Decide.{dec_lt}
use hiemal.Base.Int.{pos, negsuc}
use hiemal.IntrusiveList.{Ptr, null, Node, ListState, ok, fault, load, subtype_id, refnode_magic}
use hiemal.IntrusiveList.Access.{advance, find_loop, find, itr_loop, itr}
use hiemal.IntrusiveList.Access as Access
use hiemal.IntrusiveList.Chain.{IsList, at, at-end, node_at, load-ok}

module _ {s : ListState} {xs : List Ptr} (v : IsList s xs) where
  advance-at : (k j : ℕ) → j + k ≤ length xs → advance k (at xs j) s ≡ ok (at xs (j + k)) s
  unfolding advance
  advance-at zero j le = ap (λ i. ok (at xs i) s) (omega arith)
  advance-at (suc k) j le =
      let (n, e, _, e') = node_at v j (omega arith) in
      rw (load-ok v j n (omega arith) e, e', advance-at k (suc j) (omega arith))
        (ap (λ i. ok (at xs i) s) (omega arith))

  advance-head : (k : ℕ) → k ≤ length xs → advance k s.head s ≡ ok (at xs k) s
  advance-head k le =
      ap (λ p. advance k p s) v.first
      ∙ advance-at k 0 (omega arith)
      ∙ ap (λ i. ok (at xs i) s) (let e : 0 + k ≡ k = omega arith in e)

  load-null : load null s ≡ fault
  unfolding load
  load-null = refl

  -- On a well-formed list of plain nodes, of fewer than 2^31, `hm_list_at` returns the node at an index
  -- below 2^31, null at the length and past it, and null at every index below 0; it changes nothing.
  pub at-plain :
      (index : ℕ)
      → subtype_id s.magic ≡ 0
      → index < 2 ^ 31
      → (Access.at (pos index) s ≡ ok (at xs index) s) × (Access.at (negsuc index) s ≡ ok null s)
  unfolding Access.at
  at-plain index plain small = (
    ground (arith, v.count, v.small, at-end xs index, advance-head index),
    ground (arith, v.count, v.small, at-end xs s.n_items, advance-head s.n_items),
  )

  -- On a list of references it returns what the node at an index refers to, and null past the length,
  -- but at the length and at every index below 0 it follows a null pointer.
  pub at-reference :
      (index : ℕ)
      → subtype_id s.magic ≡ refnode_magic
      → index < 2 ^ 31
      → (index < length xs
          → (n : Node) × (s.cell (at xs index) ≡ some n) × (Access.at (pos index) s ≡ ok n.node s))
        × (length xs < index → Access.at (pos index) s ≡ ok null s)
        × (Access.at (pos (length xs)) s ≡ fault)
        × (Access.at (negsuc index) s ≡ fault)
  unfolding Access.at
  at-reference index ref small = (
    (λ lt.
        let (n, e, _, _) = node_at v index lt in
        (n, e, ground (arith, v.count, v.small, advance-head index, load-ok v index n lt e))),
    (λ lt. ground (arith, v.count, v.small)),
    ground (arith, v.count, v.small, at-end xs (length xs), advance-head (length xs), load-null),
    ground (arith, v.count, v.small, at-end xs s.n_items, advance-head s.n_items, load-null),
  )

drop-at : (xs : List Ptr) (j : ℕ) → j < length xs → drop j xs ≡ at xs j ∷ drop (suc j) xs
drop-at [] j h = elim h [ ]
drop-at (x ∷ xs) zero h = refl
drop-at (x ∷ xs) (suc j) h = drop-at xs j (omega arith)

drop-end : (xs : List Ptr) (j : ℕ) → length xs ≤ j → drop j xs ≡ []
drop-end [] zero h = refl
drop-end [] (suc j) h = refl
drop-end (x ∷ xs) zero h = elim h [ ]
drop-end (x ∷ xs) (suc j) h = drop-end xs j (omega arith)

-- The visits in order, and the first node that matches
abbrev pub visit_all {ℓ} : {A : Type ℓ} → (Ptr → A → A) → List Ptr → A → A
visit_all visit [] a = a
visit_all visit (x ∷ xs) a = visit_all visit xs (visit x a)

abbrev pub first_match : (Ptr → Node → Bool) → (Ptr → Option Node) → List Ptr → Ptr
first_match matches cell [] = null
first_match matches cell (x ∷ xs) =
    let rest = first_match matches cell xs in
    elim (cell x) [ none ↦ null | some n ↦ if matches x n then x else rest ]

module _ {ℓ} {A : Type ℓ} (visit : Ptr → A → A) {s : ListState} {xs : List Ptr}
    (v : IsList s xs) where
  itr_loop-at :
      (k j : ℕ) (a : A)
      → j ≤ length xs
      → length xs < j + k
      → itr_loop visit k (at xs j) a s ≡ some (visit_all visit (drop j xs) a)
  unfolding itr_loop
  itr_loop-at zero j a le fuel = absurd (omega arith)
  itr_loop-at (suc k) j a le fuel = elim (dec_lt j (length xs)) [
    | yes lt ↦
        let (n, e, _, e') = node_at v j lt in
        rw (drop-at xs j lt)
          (ground (arith, v.live j lt, itr_loop-at k (suc j) (visit (at xs j) a)))
    | no ge ↦ rw (drop-end xs j (omega arith), at-end xs j (omega arith)) refl
  ]

  -- `hm_list_itr` on a well-formed list calls the function on each node once, in order, and ends.
  pub itr-visits : (a : A) → itr visit a s ≡ some (visit_all visit xs a)
  unfolding itr
  itr-visits a =
      ap (λ p. itr_loop visit (s.n_items + 1) p a s) v.first
      ∙ itr_loop-at (s.n_items + 1) 0 a (omega arith) (omega (arith, v.count))

module _ (matches : Ptr → Node → Bool) {s : ListState} {xs : List Ptr} (v : IsList s xs) where
  find_loop-at :
      (k j : ℕ)
      → j ≤ length xs
      → length xs < j + k
      → find_loop matches k (at xs j) s ≡ ok (first_match matches s.cell (drop j xs)) s
  unfolding find_loop
  find_loop-at zero j le fuel = absurd (omega arith)
  find_loop-at (suc k) j le fuel = elim (dec_lt j (length xs)) [
    | yes lt ↦
        let (n, e, _, e') = node_at v j lt in
        rw (drop-at xs j lt)
          (ground (arith, v.live j lt, load-ok v j n lt e, find_loop-at k (suc j)))
    | no ge ↦ rw (drop-end xs j (omega arith), at-end xs j (omega arith)) refl
  ]

  -- `hm_list_find` on a well-formed list ends, returns the first node for which the comparison gives 0,
  -- or null if there is none, and changes nothing.
  pub find-first_match : find matches s ≡ ok (first_match matches s.cell xs) s
  unfolding find
  find-first_match =
      ap (λ p. find_loop matches (s.n_items + 1) p s) v.first
      ∙ find_loop-at (s.n_items + 1) 0 (omega arith) (omega (arith, v.count))
